-- ===== src/Transcript/Tells/Once.antt =====
-- Each event of a stream folds once: the sequences of bridge/deskhelm_client/transcript.py.
use deskhelm.Prelude.{
  ℕ, ◌≤◌, true, List, [], ◌∷◌, all, All, leb, leb→le, ◌≡◌, ◌⊎◌, inl, inr, refl, arith, Bool-cases,
  and-true,
}
use deskhelm.Json.{Json, Object, pos, members}
use deskhelm.Protocol.Fields.{get}
use deskhelm.Transcript.Texts.{text_of}
use deskhelm.Transcript.Storage.{TranscriptState}
use deskhelm.Transcript.Fold.{fold_payload, apply, apply_all}
use deskhelm.Transcript.Tidy.{Tidy}
use deskhelm.Transcript.Tells.Streams.{
  is_named, is_named-NamesTool, names_tool, fold_event-tells, Tidy-sequence, apply-tells,
  apply_all-tells,
}

-- The event has a sequence, as every event of the Bridge has.
abbrev pub Numbered : Object → Type 0
Numbered event = (n : ℕ) × (get event "sequence" ≡ Json.int (pos n))

at_most : (m n : ℕ) → m ≤ n → leb m n ≡ true
at_most m n h = ground arith

-- An event whose sequence is not above the last one changes nothing.
old-nothing :
    (n : ℕ) (event : Object) (s : TranscriptState)
    → get event "sequence" ≡ Json.int (pos n)
    → n ≤ s.last_sequence
    → apply event s ≡ (s, [])
unfolding apply
old-nothing n event s number old = folded (get event "payload")
  where
    folded : (payload : Json) → fold_payload payload event s ≡ (s, [])
    folded (Json.obj ms) = rw (number, at_most n s.last_sequence old) refl
    folded Json.null = refl
    folded (Json.bool b) = refl
    folded (Json.int z) = refl
    folded (Json.real r) = refl
    folded (Json.str t) = refl
    folded (Json.arr xs) = refl

-- An event that is applied raises the last sequence to its own, or changes no transcript at all.
apply-reaches :
    (n : ℕ) (event : Object) (s : TranscriptState)
    → get event "sequence" ≡ Json.int (pos n)
    → names_tool event ≡ true
    → Tidy s
    → (n ≤ (apply event s).0.last_sequence) ⊎ ((t : TranscriptState) → apply event t ≡ (t, []))
unfolding apply names_tool
apply-reaches n event s number named tidy = folded (get event "payload") named
  where
    folded :
        (payload : Json)
        → is_named (text_of (get event "kind")) payload ≡ true
        → (n ≤ (fold_payload payload event s).0.last_sequence)
          ⊎ ((t : TranscriptState) → fold_payload payload event t ≡ (t, []))
    folded (Json.obj ms) names = inl (
        rw number (elim (Bool-cases (leb n s.last_sequence)) [
          | inl old ↦ rw old (leb→le n s.last_sequence old)
          | inr new ↦
              rw new
                (fold_event-tells event (members ms) (record s { last_sequence = n })
                  (is_named-NamesTool (text_of (get event "kind")) ms names)
                  (Tidy-sequence n s tidy)).later
        ]))
    folded Json.null names = inr (λ t. refl)
    folded (Json.bool b) names = inr (λ t. refl)
    folded (Json.int z) names = inr (λ t. refl)
    folded (Json.real r) names = inr (λ t. refl)
    folded (Json.str u) names = inr (λ t. refl)
    folded (Json.arr xs) names = inr (λ t. refl)

-- Once a stream is folded, each of its events changes nothing more, then and later.
folded-nothing :
    (events : List Object) (s t : TranscriptState)
    → All Numbered events
    → all names_tool events ≡ true
    → Tidy s
    → (apply_all events s).0.last_sequence ≤ t.last_sequence
    → All (λ event. apply event t ≡ (t, [])) events
unfolding apply_all all
folded-nothing [] s t numbered named tidy le = tt
folded-nothing (event ∷ events) s t numbered named tidy le =
    let (this, rest) = and-true (names_tool event) (all names_tool events) named in
    let (n, number) = numbered.0 in
    let first = apply-tells event s this tidy in
    let after = apply_all-tells events (apply event s).0 rest first.tidy in
    (
      elim (apply-reaches n event s number this tidy) [
        | inl reached ↦ old-nothing n event t number (omega (arith, reached, after.later, le))
        | inr never ↦ never t
      ],
      folded-nothing events (apply event s).0 t numbered.1 rest first.tidy le,
    )

nothing-apply_all :
    (events : List Object) (t : TranscriptState)
    → All (λ event. apply event t ≡ (t, [])) events
    → apply_all events t ≡ (t, [])
unfolding apply_all
nothing-apply_all [] t h = refl
nothing-apply_all (event ∷ events) t h = rw h.0 (rw (nothing-apply_all events t h.1) refl)

-- A transcript folds a stream once: where every event has a sequence and the tool events name their
-- tools, folding all of it again, as a client does that is sent the window again, gives no patch and
-- leaves the transcript as it was, from any tidy state and in whatever order the sequences stand.
pub apply_all-once :
    (events : List Object) (s : TranscriptState)
    → All Numbered events
    → all names_tool events ≡ true
    → Tidy s
    → let folded = (apply_all events s).0 in apply_all events folded ≡ (folded, [])
apply_all-once events s numbered named tidy =
    let folded = (apply_all events s).0 in
    nothing-apply_all events folded
      (folded-nothing events s folded numbered named tidy (omega arith))
