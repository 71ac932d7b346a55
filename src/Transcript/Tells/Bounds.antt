-- ===== src/Transcript/Tells/Bounds.antt =====
-- What a stream leaves in a transcript of bridge/deskhelm_client/transcript.py stays within its bounds.
use deskhelm.Prelude.{
  ℕ, ◌≤◌, true, List, [], ◌∷◌, Option, none, some, length, all, leb, ◌≡◌, ◌⊎◌, inl, inr, arith,
  if-keeps,
}
use deskhelm.Json.{Json, Object, pos, negsuc, members}
use deskhelm.Protocol.Fields.{get}
use deskhelm.Transcript.Texts.{text_of}
use deskhelm.Transcript.Storage.{TranscriptState, Folded, new_transcript}
use deskhelm.Transcript.Fold.{
  finish, fold_kind, fold_event, fold_sequence, fold_payload, apply, apply_all,
}
use deskhelm.Transcript.Tidy.{weight}
use deskhelm.Transcript.Tells.Trim.{WithinBounds, trim-WithinBounds}
use deskhelm.Transcript.Tells.Streams.{names_tool, apply_all-tells, Tidy-new}

fold_event-WithinBounds :
    (event payload : Object) (s : TranscriptState)
    → WithinBounds s
    → WithinBounds (fold_event event payload s).0
unfolding fold_event
fold_event-WithinBounds event payload s within =
    finished (fold_kind (text_of (get event "kind")) event payload s)
  where
    finished : (folded : Option Folded) → WithinBounds (finish s folded).0
    finished none = within
    finished (some folded) = trim-WithinBounds folded.0

fold_sequence-WithinBounds :
    (sequence : Json) (event payload : Object) (s : TranscriptState)
    → WithinBounds s
    → WithinBounds (fold_sequence sequence event payload s).0
unfolding fold_sequence
fold_sequence-WithinBounds (Json.int (pos n)) event payload s within =
    if-keeps (λ (f : Folded). WithinBounds f.0) (leb n s.last_sequence) within
      (fold_event-WithinBounds event payload (record s { last_sequence = n }) within)
fold_sequence-WithinBounds (Json.int (negsuc n)) event payload s within = within
fold_sequence-WithinBounds Json.null event payload s within =
    fold_event-WithinBounds event payload s within
fold_sequence-WithinBounds (Json.bool b) event payload s within =
    fold_event-WithinBounds event payload s within
fold_sequence-WithinBounds (Json.real r) event payload s within =
    fold_event-WithinBounds event payload s within
fold_sequence-WithinBounds (Json.str t) event payload s within =
    fold_event-WithinBounds event payload s within
fold_sequence-WithinBounds (Json.arr xs) event payload s within =
    fold_event-WithinBounds event payload s within
fold_sequence-WithinBounds (Json.obj ms) event payload s within =
    fold_event-WithinBounds event payload s within

apply-WithinBounds :
    (event : Object) (s : TranscriptState) → WithinBounds s → WithinBounds (apply event s).0
unfolding apply
apply-WithinBounds event s within = folded (get event "payload")
  where
    folded : (payload : Json) → WithinBounds (fold_payload payload event s).0
    folded (Json.obj ms) =
        fold_sequence-WithinBounds (get event "sequence") event (members ms) s within
    folded Json.null = within
    folded (Json.bool b) = within
    folded (Json.int z) = within
    folded (Json.real r) = within
    folded (Json.str t) = within
    folded (Json.arr xs) = within

apply_all-WithinBounds :
    (events : List Object) (s : TranscriptState)
    → WithinBounds s
    → WithinBounds (apply_all events s).0
unfolding apply_all
apply_all-WithinBounds [] s within = within
apply_all-WithinBounds (event ∷ events) s within =
    apply_all-WithinBounds events (apply event s).0 (apply-WithinBounds event s within)

-- For a stream whose tool events name their tools: one item is left at most, or the transcript has at
-- most `max_items` items, whose sizes add up to at most `max_chars`.
pub apply_all-bounded :
    (max_items max_chars : ℕ) (events : List Object)
    → all names_tool events ≡ true
    → let items = (apply_all events (new_transcript max_items max_chars)).0.items in
      (length items ≤ 1) ⊎ ((length items ≤ max_items) × (weight items ≤ max_chars))
unfolding new_transcript
apply_all-bounded max_items max_chars events named =
    let start = new_transcript max_items max_chars in
    let told = apply_all-tells events start named (Tidy-new max_items max_chars) in
    elim (apply_all-WithinBounds events start (inl (omega arith))) [
      | inl one ↦ inl one
      | inr within ↦ inr (
        omega (arith, within.0, told.same_items),
        omega (arith, within.1, told.same_chars, told.tidy.chars_counted),
      )
    ]
