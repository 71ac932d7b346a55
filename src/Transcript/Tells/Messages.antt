-- ===== src/Transcript/Tells/Messages.antt =====
-- Messages: `_message` of bridge/deskhelm_client/transcript.py.
use Prim.Native.String.{count, ◌++◌ as join}
use text.Mathlib.TextLemmas.{length-append}
use deskhelm.Prelude.{
  ◌-◌, ◌≤◌, String, string_eq, true, false, not, some, none, ◌≡◌, refl, sym, ap, subst, arith, inl,
  inr, Option-cases, if-keeps, ◌==◌,
}
use deskhelm.Dict.{lookup}
use deskhelm.Dict.Every.{Every-lookup}
use deskhelm.Json.{Object}
use deskhelm.Protocol.Fields.{get}
use deskhelm.Voice.Notices.{take_chars}
use deskhelm.Voice.Labels.{count-take_chars}
use deskhelm.Transcript.{Message, Body, Field, Item, max_message_chars}
use deskhelm.Transcript.Texts.{text_of, reference}
use deskhelm.Transcript.Storage.{TranscriptState, new_item, create}
use deskhelm.Transcript.Surface.{extended}
use deskhelm.Transcript.Kinds.{
  with_message, message_delta, completed_text, message_phase, found_message, new_message,
  message_at, message_id, role_of, message_event,
}
use deskhelm.Transcript.Tidy.{
  BodyFits, ItemFits, Tidy, Named-lookup, Told, Told-nothing, Told-upsert, Told-create, Told-append,
}

-- A chunk fills the message up to its bound at most.
count-chunk :
    (m : Message) (text : String)
    → count m.text ≤ max_message_chars
    → count (join m.text (take_chars (max_message_chars - count m.text) text)) ≤ max_message_chars
count-chunk m text fits =
    let chunk = take_chars (max_message_chars - count m.text) text in
    omega (
      arith,
      fits,
      length-append m.text chunk,
      count-take_chars (max_message_chars - count m.text) text,
    )

count-completed_text :
    (m : Message) (text : String)
    → count m.text ≤ max_message_chars
    → count (completed_text m text) ≤ max_message_chars
unfolding completed_text
count-completed_text m text fits =
    if-keeps (λ t. count t ≤ max_message_chars) (text == "") fits
      (count-take_chars max_message_chars text)

module _ (s : TranscriptState) (tidy : Tidy s) where
  message_delta-found :
      (item : Item) (m : Message) (text : String)
      → lookup item.id s.items ≡ some item
      → item.body ≡ Body.message m
      → count m.text ≤ max_message_chars
      → Told s (message_delta false item m text s)
  unfolding message_delta extended
  message_delta-found item m text here body fits =
      let chunk = take_chars (max_message_chars - count m.text) text in
      let longer = with_message item (record m { text = join m.text chunk }) in
      if-keeps (Told s) (not m.streaming) (Told-nothing s tidy) (
        if-keeps (Told s) (chunk == "") (Told-nothing s tidy) (
          Told-append longer item Field.text chunk 0 s here
            (ap (λ b. record item { body = extended Field.text chunk 0 b }) body)
            (count-chunk m text fits) tidy))

  found_message-tells :
      (item : Item) (body : Body) (payload : Object)
      → lookup item.id s.items ≡ some item
      → item.body ≡ body
      → BodyFits body
      → Told s (found_message item body payload s)
  unfolding found_message message_phase
  found_message-tells item (Body.message m) payload here body fits =
      let phase = text_of (get payload "phase") in
      let text = text_of (get payload "text") in
      if-keeps (Told s) (phase == "delta") (message_delta-found item m text here body fits) (
        if-keeps (Told s) (phase == "complete")
          (Told-upsert
            (with_message item (record m { text = completed_text m text; streaming = false })) s
            (count-completed_text m text fits) tidy)
          (Told-upsert item s (subst BodyFits (sym body) fits) tidy))
  found_message-tells item (Body.tool t) payload here body fits = Told-nothing s tidy
  found_message-tells item (Body.approval a) payload here body fits = Told-nothing s tidy
  found_message-tells item (Body.input i) payload here body fits = Told-nothing s tidy
  found_message-tells item (Body.turn t) payload here body fits = Told-nothing s tidy

  created_message-tells :
      (id role : String) (event payload : Object)
      → lookup id s.items ≡ none
      → let item = new_item id (Body.message (new_message role)) event s in
        Told s (message_phase true item (new_message role) payload (create item s))
  unfolding message_phase message_delta new_item
  created_message-tells id role event payload absent =
      let m = new_message role in
      let item = new_item id (Body.message m) event s in
      let phase = text_of (get payload "phase") in
      let text = text_of (get payload "text") in
      let chunk = take_chars max_message_chars text in
      if-keeps (Told s) (phase == "delta")
        (Told-create (with_message item (record m { text = join "" chunk })) item s refl absent
          (count-chunk m text (omega arith)) tidy)
        (if-keeps (Told s) (phase == "complete")
          (Told-create
            (with_message item (record m { text = completed_text m text; streaming = false })) item
            s refl absent (count-completed_text m text (omega arith)) tidy)
          (Told-create item item s refl absent (omega arith) tidy))

  message_at-tells :
      (id role : String) (event payload : Object) → Told s (message_at id role event payload s)
  unfolding message_at
  message_at-tells id role event payload = elim (Option-cases (lookup id s.items)) [
    | inl absent ↦ rw (absent, message_at) (created_message-tells id role event payload absent)
    | inr (item, found) ↦
        let named = Named-lookup id s.items tidy.named found in
        rw (found, message_at)
          (found_message-tells item item.body payload
            (subst (λ k. lookup k s.items ≡ some item) (sym named) found) refl
            (Every-lookup ItemFits id s.items tidy.fit found))
  ]

  pub message_event-tells : (event payload : Object) → Told s (message_event event payload s)
  unfolding message_event
  message_event-tells event payload =
      let role = role_of payload in
      message_at-tells (message_id role (reference event) s) role event payload
