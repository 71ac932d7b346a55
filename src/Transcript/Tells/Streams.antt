-- ===== src/Transcript/Tells/Streams.antt =====
-- Streams of events folded by `apply` of bridge/deskhelm_client/transcript.py.
use deskhelm.Prelude.{
  ℕ, String, string_eq, Bool, true, not, ◌&&◌, ◌||◌, List, [], ◌∷◌, Option, none, some, all, leb,
  not_leb→lt, ◌≡◌, inl, inr, refl, arith, Bool-cases, if-keeps, ◌==◌, and-true,
}
use deskhelm.Dict.Distinct.{Distinct}
use deskhelm.Json.{Json, Object, pos, negsuc, members}
use deskhelm.Protocol.Fields.{get}
use deskhelm.Voice.Notices.{take_chars}
use deskhelm.Transcript.Texts.{text_of}
use deskhelm.Transcript.Storage.{TranscriptState, Folded, new_transcript, trim}
use deskhelm.Transcript.Fold.{
  fold_kind, trimmed, finish, fold_event, fold_sequence, fold_payload, apply, apply_all,
}
use deskhelm.Transcript.Surface.{patched_all}
use deskhelm.Transcript.Tidy.{Tidy, weight, measured, Told, Told-nothing, Told-then, Told-sequence}
use deskhelm.Transcript.Tells.Trim.{trim-tells}
use deskhelm.Transcript.Tells.Messages.{message_event-tells}
use deskhelm.Transcript.Tells.Tools.{NamesTool, tool_event-tells}
use deskhelm.Transcript.Tells.Requests.{
  approval_event-tells, resolution_event-tells, input_event-tells, input_resolution_event-tells,
  turn_event-tells,
}

-- A tool event names its tool, and by another name than the placeholder "tool".
unfoldable pub is_named : String → Json → Bool
unfolding text_of get members take_chars
is_named kind (Json.obj ms) =
    let name = text_of (get (members ms) "name") in
    not (kind == "tool") || (not (name == "") && not (take_chars 128 name == "tool"))
is_named kind _ = true

unfoldable pub names_tool : Object → Bool
unfolding is_named text_of get
names_tool event = is_named (text_of (get event "kind")) (get event "payload")

pub is_named-NamesTool :
    (kind : String) (ms : _)
    → is_named kind (Json.obj ms) ≡ true
    → (kind == "tool") ≡ true
    → NamesTool (members ms)
unfolding is_named
is_named-NamesTool kind ms h tool =
    let name = text_of (get (members ms) "name") in
    (
      λ empty. ground (arith, string_eq.beq_iff name ""),
      λ same. ground (arith, string_eq.beq_iff (take_chars 128 name) "tool"),
    )

AllTold : TranscriptState → Option Folded → Type 0
AllTold s none = Unit
AllTold s (some folded) = Told s folded

module _ (s : TranscriptState) (tidy : Tidy s) where
  fold_kind-tells :
      (kind : String) (event payload : Object)
      → ((kind == "tool") ≡ true → NamesTool payload)
      → AllTold s (fold_kind kind event payload s)
  unfolding fold_kind AllTold
  fold_kind-tells kind event payload names =
      let P = AllTold s in
      if-keeps P (kind == "message") (message_event-tells s tidy event payload)
        (elim (Bool-cases (kind == "tool")) [
          | inl tool ↦ rw tool (tool_event-tells s tidy event payload (names tool))
          | inr other ↦ rw other (
              if-keeps P (kind == "approval_request") (approval_event-tells s tidy event payload) (
                if-keeps P (kind == "approval_resolved") (resolution_event-tells s tidy payload) (
                  if-keeps P (kind == "input_resolved")
                    (input_resolution_event-tells s tidy payload)
                    (if-keeps P (kind == "user_input_required")
                      (input_event-tells s tidy event payload)
                      (if-keeps P (kind == "task_completed" || kind == "task_failed")
                        (turn_event-tells (kind == "task_failed") event payload s tidy) tt)))))
        ])

  finish-tells : (folded : Option Folded) → AllTold s folded → Told s (finish s folded)
  unfolding finish trimmed AllTold
  finish-tells none told = Told-nothing s tidy
  finish-tells (some folded) told =
      Told-then s folded (trim folded.0) told (trim-tells folded.0 told.tidy)

pub fold_event-tells :
    (event payload : Object) (s : TranscriptState)
    → ((text_of (get event "kind") == "tool") ≡ true → NamesTool payload)
    → Tidy s
    → Told s (fold_event event payload s)
unfolding fold_event
fold_event-tells event payload s names tidy =
    let kind = text_of (get event "kind") in
    finish-tells s tidy (fold_kind kind event payload s)
      (fold_kind-tells s tidy kind event payload names)

pub Tidy-sequence : (n : ℕ) (s : TranscriptState) → Tidy s → Tidy (record s { last_sequence = n })
Tidy-sequence n s tidy = record {
  distinct = tidy.distinct;
  named = tidy.named;
  fit = tidy.fit;
  sizes_measured = tidy.sizes_measured;
  chars_counted = tidy.chars_counted;
}

module _ (event payload : Object)
    (names : (text_of (get event "kind") == "tool") ≡ true → NamesTool payload)
    (s : TranscriptState) (tidy : Tidy s) where
  fold_sequence-tells : (sequence : Json) → Told s (fold_sequence sequence event payload s)
  unfolding fold_sequence
  fold_sequence-tells (Json.int (pos n)) = elim (Bool-cases (leb n s.last_sequence)) [
    | inl old ↦ rw old (Told-nothing s tidy)
    | inr new ↦ rw new (
        Told-sequence n s _ (omega (arith, not_leb→lt n s.last_sequence new)) (
          fold_event-tells event payload (record s { last_sequence = n }) names
            (Tidy-sequence n s tidy)))
  ]
  fold_sequence-tells (Json.int (negsuc n)) = Told-nothing s tidy
  fold_sequence-tells Json.null = fold_event-tells event payload s names tidy
  fold_sequence-tells (Json.bool b) = fold_event-tells event payload s names tidy
  fold_sequence-tells (Json.real r) = fold_event-tells event payload s names tidy
  fold_sequence-tells (Json.str t) = fold_event-tells event payload s names tidy
  fold_sequence-tells (Json.arr xs) = fold_event-tells event payload s names tidy
  fold_sequence-tells (Json.obj ms) = fold_event-tells event payload s names tidy

fold_payload-tells :
    (payload : Json) (event : Object) (s : TranscriptState)
    → is_named (text_of (get event "kind")) payload ≡ true
    → Tidy s
    → Told s (fold_payload payload event s)
unfolding fold_payload
fold_payload-tells (Json.obj ms) event s named tidy =
    fold_sequence-tells event (members ms)
      (is_named-NamesTool (text_of (get event "kind")) ms named) s tidy (get event "sequence")
fold_payload-tells Json.null event s named tidy = Told-nothing s tidy
fold_payload-tells (Json.bool b) event s named tidy = Told-nothing s tidy
fold_payload-tells (Json.int z) event s named tidy = Told-nothing s tidy
fold_payload-tells (Json.real r) event s named tidy = Told-nothing s tidy
fold_payload-tells (Json.str t) event s named tidy = Told-nothing s tidy
fold_payload-tells (Json.arr xs) event s named tidy = Told-nothing s tidy

pub apply-tells :
    (event : Object) (s : TranscriptState)
    → names_tool event ≡ true
    → Tidy s
    → Told s (apply event s)
unfolding apply names_tool
apply-tells event s named tidy = fold_payload-tells (get event "payload") event s named tidy

pub apply_all-tells :
    (events : List Object) (s : TranscriptState)
    → all names_tool events ≡ true
    → Tidy s
    → Told s (apply_all events s)
unfolding apply_all all
apply_all-tells [] s named tidy = Told-nothing s tidy
apply_all-tells (event ∷ events) s named tidy =
    let (this, rest) = and-true (names_tool event) (all names_tool events) named in
    let first = apply-tells event s this tidy in
    Told-then s (apply event s) (apply_all events (apply event s).0) first
      (apply_all-tells events (apply event s).0 rest first.tidy)

pub Tidy-new : (max_items max_chars : ℕ) → Tidy (new_transcript max_items max_chars)
unfolding new_transcript Distinct measured weight
Tidy-new max_items max_chars = record {
  distinct = tt;
  named = tt;
  fit = tt;
  sizes_measured = refl;
  chars_counted = refl;
}

-- For a stream whose tool events name their tools: a surface that starts with nothing and applies
-- the patches of every fold, in order, shows exactly the items of the transcript.
pub apply_all-patched :
    (max_items max_chars : ℕ) (events : List Object)
    → all names_tool events ≡ true
    → let folded = apply_all events (new_transcript max_items max_chars) in
      patched_all folded.1 [] ≡ folded.0.items
unfolding new_transcript
apply_all-patched max_items max_chars events named =
    (apply_all-tells events (new_transcript max_items max_chars) named
      (Tidy-new max_items max_chars)).tells

-- For a stream whose tool events name their tools: the ids of the items are distinct and are the
-- keys that they stand under, no message and no output is longer than its bound, the sizes are those
-- of the items, and the count of the characters is the sum of the sizes.
pub apply_all-Tidy :
    (max_items max_chars : ℕ) (events : List Object)
    → all names_tool events ≡ true
    → Tidy (apply_all events (new_transcript max_items max_chars)).0
apply_all-Tidy max_items max_chars events named =
    (apply_all-tells events (new_transcript max_items max_chars) named
      (Tidy-new max_items max_chars)).tidy
