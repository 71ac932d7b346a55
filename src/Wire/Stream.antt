-- ===== src/Wire/Stream.antt =====
-- How `feed` of bridge/deskhelm_protocol/wire.py depends on where the stream is cut.
use deskhelm.Prelude.{
  ℕ, ◌≡◌, refl, sym, false, List, [], ◌∷◌, ◌++◌, inl, inr, Bool-cases, append_assoc, append-nil,
  eqb, ltb, length, All, All-append, ap, subst, ◌∙◌,
}
use deskhelm.Json.{Object}
use deskhelm.Protocol.Fields.{Result, ok, violation, Result-cases}
use deskhelm.Wire.{
  Codec, Fed, take_line, next_frame, after_frames, scan, feed, newline, max_frame_bytes,
}

-- What a buffer holds is no line yet.
abbrev pub NoLine : List ℕ → Type 0
NoLine bytes = All (λ b. eqb b newline ≡ false) bytes

NoLine-snoc :
    (bytes : List ℕ) (b : ℕ) → NoLine bytes → eqb b newline ≡ false → NoLine (bytes ++ b ∷ [])
NoLine-snoc bytes b h q = All-append _ bytes (b ∷ []) h (q, tt)

after_frames-after :
    (fs gs : List Object) (r : Result Fed)
    → after_frames fs (after_frames gs r) ≡ after_frames (fs ++ gs) r
unfolding after_frames
after_frames-after fs gs (ok fed) =
    ap (λ frames. ok (record { frames = frames; buffer = fed.buffer }))
      (sym (append_assoc fs gs fed.frames))
after_frames-after fs gs violation = refl

module _ (codec : Codec) where
  -- Bytes without a newline are only passed.
  pub scan-NoLine :
      (line bytes more : List ℕ)
      → NoLine bytes
      → scan codec line (bytes ++ more) ≡ scan codec (line ++ bytes) more
  unfolding scan
  scan-NoLine line [] more h = ap (λ l. scan codec l more) (sym (append-nil line))
  scan-NoLine line (b ∷ bytes) more h = rw (h.0) (
      scan-NoLine (line ++ b ∷ []) bytes more h.1
      ∙ ap (λ l. scan codec l more) (append_assoc line (b ∷ []) bytes))

  -- What the scan of more bytes makes of what the first bytes left.
  abbrev Continues : List ℕ → List ℕ → List ℕ → Fed → Type 0
  Continues line bytes more fed =
      (scan codec line (bytes ++ more) ≡ after_frames fed.frames (scan codec fed.buffer more))
      × NoLine fed.buffer

  after_none : (r : Result Fed) → r ≡ after_frames [] r
  unfolding after_frames
  after_none (ok fed) = refl
  after_none violation = refl

  scan-Continues :
      (line bytes more : List ℕ) (fed : Fed)
      → NoLine line
      → scan codec line bytes ≡ ok fed
      → Continues line bytes more fed
  unfolding scan
  scan-Continues line [] more fed h q = elim (Bool-cases (ltb max_frame_bytes (length line))) [
    | inl long ↦ cc (rw (scan, long) at q)
    | inr fits ↦
        subst (Continues line [] more) {x = record { frames = []; buffer = line }}
          (cc (rw (scan, fits) at q)) (after_none (scan codec line more), h)
  ]
  scan-Continues line (b ∷ bytes) more fed h q = elim (Bool-cases (eqb b newline)) [
    | inr inside ↦ rw inside (
        scan-Continues (line ++ b ∷ []) bytes more fed (NoLine-snoc line b h inside)
          (rw (scan, inside) at q))
    | inl ends ↦ elim (Result-cases (take_line codec line)) [
      | inl bad ↦ cc (rw (scan, ends, bad, next_frame) at q)
      | inr (frame, good) ↦ elim (Result-cases (scan codec [] bytes)) [
        | inl bad ↦ cc (rw (scan, ends, good, next_frame, bad, after_frames) at q)
        | inr (rest, fine) ↦
            let (goes_on, no_line) = scan-Continues [] bytes more rest tt fine in
            subst (Continues line (b ∷ bytes) more)
              {x = record { frames = frame ∷ rest.frames; buffer = rest.buffer }}
              (cc (rw (scan, ends, good, next_frame, fine, after_frames) at q))
              (
                rw (ends, good, next_frame, goes_on)
                    (after_frames-after (frame ∷ []) rest.frames (scan codec rest.buffer more)),
                no_line,
              )
      ]
    ]
  ]

-- Cutting the stream changes nothing: where `feed` accepts the first part, feeding the whole gives
-- the frames of the first part and then what feeding the rest gives, and that both fail together.
pub feed-append :
    (codec : Codec) (buffer first second : List ℕ) (fed : Fed)
    → feed codec buffer first ≡ ok fed
    → feed codec buffer (first ++ second) ≡ after_frames fed.frames (feed codec fed.buffer second)
unfolding feed
feed-append codec buffer first second fed q =
    let (goes_on, no_line) = scan-Continues codec [] (buffer ++ first) second fed tt q in
    rw
      (
        sym (append_assoc buffer first second),
        goes_on,
        scan-NoLine codec [] fed.buffer second no_line,
      )
      refl
