-- ===== src/Transcript/Tells/Requests.antt =====
-- Approvals, questions, the ends of turns and `settle` of bridge/deskhelm_client/transcript.py.
use Prim.Native.String.{◌++◌ as join}
use deskhelm.Prelude.{
  String, string_eq, Bool, false, [], ◌∷◌, some, none, ◌≡◌, refl, sym, subst, arith, inl, inr,
  Bool-cases, Option-cases, if-keeps, ◌==◌, some-injective,
}
use deskhelm.Dict.{Dict, lookup, insert}
use deskhelm.Dict.Laws.{lookup-insert}
use deskhelm.Dict.Every.{Every}
use deskhelm.Json.{Object}
use deskhelm.Protocol.Fields.{get}
use deskhelm.Transcript.{Body, Item}
use deskhelm.Transcript.Texts.{identity, text_of}
use deskhelm.Transcript.Storage.{TranscriptState, new_item, create, upsert}
use deskhelm.Transcript.Requests.{
  add_item, approval_event, is_resolver, found_approval, resolution_event, input_event, found_input,
  input_resolution_event, settled_body, settle_items, settle_transcript, turn_event, turn_id,
  new_turn,
}
use deskhelm.Transcript.Tidy.{
  BodyFits, ItemFits, Named, Tidy, Told, Told-nothing, Told-upsert, Told-create, Told-then,
}

module _ (s : TranscriptState) (tidy : Tidy s) where
  add_item-tells :
      (id : String) (body : Body) (event : Object)
      → BodyFits body
      → Told s (add_item id body event s)
  unfolding add_item new_item
  add_item-tells id body event fits = elim (Option-cases (lookup id s.items)) [
    | inl absent ↦
        let item = new_item id body event s in
        rw absent (Told-create item item s refl absent fits tidy)
    | inr (item, found) ↦ rw found (Told-nothing s tidy)
  ]

  pub approval_event-tells : (event payload : Object) → Told s (approval_event event payload s)
  unfolding approval_event
  approval_event-tells event payload =
      if-keeps (Told s) (identity (get payload "request_id") == "") (Told-nothing s tidy)
        (add_item-tells _ _ event tt)

  pub input_event-tells : (event payload : Object) → Told s (input_event event payload s)
  unfolding input_event
  input_event-tells event payload = add_item-tells _ _ event tt

  found_approval-tells :
      (item : Item) (body : Body) (payload : Object) → Told s (found_approval item body payload s)
  unfolding found_approval
  found_approval-tells item (Body.approval a) payload =
      if-keeps (Told s) (is_resolver (text_of (get payload "by"))) (Told-upsert _ s tt tidy)
        (Told-nothing s tidy)
  found_approval-tells item (Body.message m) payload = Told-nothing s tidy
  found_approval-tells item (Body.tool t) payload = Told-nothing s tidy
  found_approval-tells item (Body.input i) payload = Told-nothing s tidy
  found_approval-tells item (Body.turn t) payload = Told-nothing s tidy

  found_input-tells :
      (item : Item) (body : Body) (payload : Object) → Told s (found_input item body payload s)
  unfolding found_input
  found_input-tells item (Body.input i) payload =
      if-keeps (Told s) (is_resolver (text_of (get payload "by"))) (Told-upsert _ s tt tidy)
        (Told-nothing s tidy)
  found_input-tells item (Body.message m) payload = Told-nothing s tidy
  found_input-tells item (Body.tool t) payload = Told-nothing s tidy
  found_input-tells item (Body.approval a) payload = Told-nothing s tidy
  found_input-tells item (Body.turn t) payload = Told-nothing s tidy

  pub resolution_event-tells : (payload : Object) → Told s (resolution_event payload s)
  unfolding resolution_event
  resolution_event-tells payload =
      let id = join "a:" (identity (get payload "request_id")) in
      elim (Option-cases (lookup id s.items)) [
        | inl absent ↦ rw (absent, resolution_event) (Told-nothing s tidy)
        | inr (item, found) ↦
            rw (found, resolution_event) (found_approval-tells item item.body payload)
      ]

  pub input_resolution_event-tells : (payload : Object) → Told s (input_resolution_event payload s)
  unfolding input_resolution_event
  input_resolution_event-tells payload =
      let id = join "i:" (identity (get payload "request_id")) in
      elim (Option-cases (lookup id s.items)) [
        | inl absent ↦ rw (absent, input_resolution_event) (Told-nothing s tidy)
        | inr (item, found) ↦
            rw (found, input_resolution_event) (found_input-tells item item.body payload)
      ]

settled_body-fits :
    (body after : Body) → settled_body body ≡ some after → BodyFits body → BodyFits after
unfolding settled_body
settled_body-fits (Body.tool t) after q fits = elim (Bool-cases (t.status == "running")) [
  | inl running ↦ subst BodyFits (some-injective (rw running at q)) fits
  | inr ended ↦ cc (rw ended at q)
]
settled_body-fits (Body.message m) after q fits = elim (Bool-cases m.streaming) [
  | inl running ↦ subst BodyFits (some-injective (rw running at q)) fits
  | inr ended ↦ cc (rw ended at q)
]
settled_body-fits (Body.approval a) after q fits = cc
settled_body-fits (Body.input i) after q fits = cc
settled_body-fits (Body.turn t) after q fits = cc

settle_items-tells :
    (d : Dict String Item) (s : TranscriptState)
    → Every ItemFits d
    → Tidy s
    → Told s (settle_items d s)
unfolding settle_items
settle_items-tells [] s fit tidy = Told-nothing s tidy
settle_items-tells ((id, item) ∷ rest) s fit tidy = elim (Option-cases (settled_body item.body)) [
  | inl ended ↦ rw (ended, settle_items) (settle_items-tells rest s fit.1 tidy)
  | inr (body, running) ↦
      let settled = record item { body = body } in
      let first = Told-upsert settled s (settled_body-fits item.body body running fit.0) tidy in
      rw (running, settle_items)
        (Told-then s (upsert settled s) (settle_items rest (upsert settled s).0) first
          (settle_items-tells rest (upsert settled s).0 fit.1 first.tidy))
]

not-found :
    (id j : String) (item : Item) (rest : Dict String Item)
    → lookup id ((j, item) ∷ rest) ≡ none
    → ((j == id) ≡ false) × (lookup id rest ≡ none)
unfolding lookup
not-found id j item rest out = ground arith

still-absent :
    (id : String) (item : Item) (d : Dict String Item)
    → (item.id == id) ≡ false
    → lookup id d ≡ none
    → lookup id (insert item.id item d) ≡ none
still-absent id item d other absent = rw (lookup-insert item.id id item d, other) absent

-- Settling adds no item.
settle_items-absent :
    (id : String) (d : Dict String Item) (s : TranscriptState)
    → Named d
    → lookup id d ≡ none
    → lookup id s.items ≡ none
    → lookup id (settle_items d s).0.items ≡ none
unfolding settle_items
settle_items-absent id [] s named out absent = absent
settle_items-absent id ((j, item) ∷ rest) s named out absent =
    let other = not-found id j item rest out in
    elim (Option-cases (settled_body item.body)) [
      | inl ended ↦ rw (ended, settle_items) (settle_items-absent id rest s named.1 other.1 absent)
      | inr (body, running) ↦
          let settled = record item { body = body } in
          rw (running, settle_items)
            (settle_items-absent id rest (upsert settled s).0 named.1 other.1 (
              still-absent id settled s.items (subst (λ k. (k == id) ≡ false) (sym named.0) other.0)
                absent))
    ]

pub settle_transcript-tells : (s : TranscriptState) → Tidy s → Told s (settle_transcript s)
unfolding settle_transcript
settle_transcript-tells s tidy = settle_items-tells s.items s tidy.fit tidy

pub turn_event-tells :
    (failed : Bool) (event payload : Object) (s : TranscriptState)
    → Tidy s
    → Told s (turn_event failed event payload s)
unfolding turn_event settle_transcript new_item
turn_event-tells failed event payload s tidy =
    let id = turn_id event s in
    let settled = settle_transcript s in
    let told = settle_transcript-tells s tidy in
    let item = new_item id (Body.turn (new_turn failed payload)) event settled.0 in
    elim (Option-cases (lookup id s.items)) [
      | inl absent ↦
          let gone = settle_items-absent id s.items s tidy.named absent absent in
          rw absent (
            Told-then s settled (upsert item (create item settled.0)) told
              (Told-create item item settled.0 refl gone tt told.tidy))
      | inr (item, found) ↦ rw found (Told-nothing s tidy)
    ]
