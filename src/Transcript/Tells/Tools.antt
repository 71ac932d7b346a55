-- ===== src/Transcript/Tells/Tools.antt =====
-- Tool calls: `_tool` of bridge/deskhelm_client/transcript.py.
use Prim.Native.String.{count, ◌++◌ as join}
use text.Mathlib.TextLemmas.{length-append, length-cons, cons-append}
use deskhelm.Prelude.{
  ℕ, zero, suc, ◌-◌, ◌≤◌, String, string_eq, Bool, true, false, not, ◌&&◌, ◌||◌, some, none, ◌≡◌,
  ◌≢◌, refl, sym, ap, subst, ◌∙◌, arith, inl, inr, leb, leb→le, Bool-cases, Option-cases, if-keeps,
  ◌==◌,
}
use deskhelm.Dict.{lookup}
use deskhelm.Dict.Every.{Every-lookup}
use deskhelm.Json.{Object}
use deskhelm.Protocol.Fields.{get}
use deskhelm.Voice.Notices.{take_chars}
use deskhelm.Transcript.{Tool, Body, Field, Item, max_output_chars}
use deskhelm.Transcript.Texts.{
  drop_chars, last_chars, text_of, is_true, or_else, identity, reference,
}
use deskhelm.Transcript.Storage.{TranscriptState, new_item, create, upsert}
use deskhelm.Transcript.Surface.{extended}
use deskhelm.Transcript.Kinds.{
  with_tool, labelled, tool_start, replaced_output, more_output, tool_written, tool_output,
  tool_complete, tool_phase, found_tool, new_tool, tool_at, tool_event,
}
use deskhelm.Transcript.Tidy.{
  BodyFits, ItemFits, Tidy, Named-lookup, Told, Told-nothing, Told-upsert, Told-create, Told-append,
  Told-same,
}

count-drop_chars : (n : ℕ) (s : String) → count (drop_chars n s) ≡ count s - n
unfolding drop_chars
count-drop_chars zero s = omega arith
count-drop_chars (suc n) String.[] = omega arith
count-drop_chars (suc n) (String.◌∷◌ c s) = omega (arith, count-drop_chars n s, length-cons c s)

-- What goes from the front of a long enough text does not touch what is added.
drop_chars-join :
    (n : ℕ) (a b : String) → n ≤ count a → drop_chars n (join a b) ≡ join (drop_chars n a) b
unfolding drop_chars
drop_chars-join zero a b h = refl
drop_chars-join (suc n) String.[] b h = absurd (omega (arith, h))
drop_chars-join (suc n) (String.◌∷◌ c a) b h =
    rw (cons-append c a b) (drop_chars-join n a b (omega (arith, h, length-cons c a)))

abbrev ToolFits : Tool → Type 0
ToolFits t = BodyFits (Body.tool t)

-- A tool has a label of its own when the event that creates it brings one.
abbrev pub NamesTool : Object → Type 0
NamesTool payload =
    let name = text_of (get payload "name") in (name ≢ "") × (take_chars 128 name ≢ "tool")

labelled-new : (payload : Object) → NamesTool payload → ToolFits (labelled true payload new_tool)
unfolding labelled
labelled-new payload names =
    let name = text_of (get payload "name") in
    elim (Bool-cases (name == "")) [
      | inl empty ↦ absurd (names.0 ((string_eq.beq_iff name "").0 empty))
      | inr full ↦ rw full (names.1, omega arith)
    ]

labelled-kept : (payload : Object) (t : Tool) → ToolFits t → labelled false payload t ≡ t
unfolding labelled
labelled-kept payload t fits = elim (Bool-cases (t.kind == "tool")) [
  | inl tool ↦ absurd (fits.0 ((string_eq.beq_iff t.kind "tool").0 tool))
  | inr other ↦ rw (other, neither (text_of (get payload "name") == "")) refl
]
  where
    neither : (b : Bool) → (not b && false) ≡ false
    neither true = refl
    neither false = refl

count-cut :
    (t : Tool) (text : String)
    → let output = join t.output text in
      count (drop_chars (count output - max_output_chars) output) ≤ max_output_chars
count-cut t text =
    let output = join t.output text in
    omega (arith, count-drop_chars (count output - max_output_chars) output)

tool_start-fits : (text : String) (t : Tool) → ToolFits t → ToolFits (tool_start text t)
unfolding tool_start
tool_start-fits text t fits = if-keeps ToolFits _ fits fits

replaced_output-fits : (text : String) (t : Tool) → ToolFits t → ToolFits (replaced_output text t)
unfolding replaced_output last_chars
replaced_output-fits text t fits =
    (fits.0, omega (arith, count-drop_chars (count text - max_output_chars) text))

module _ (s : TranscriptState) (tidy : Tidy s) where
  more_output-appended :
      (item : Item) (t : Tool) (text : String)
      → lookup item.id s.items ≡ some item
      → item.body ≡ Body.tool t
      → ToolFits t
      → Told s (more_output false item t text s)
  unfolding more_output extended
  more_output-appended item t text here body fits =
      let output = join t.output text in
      let trim = count output - max_output_chars in
      let whole = with_tool item (record t { output = output }) in
      let cut = with_tool item (record t { output = drop_chars trim output }) in
      elim (Bool-cases (leb (count output) max_output_chars)) [
        | inl within ↦ rw within (
            Told-append whole item Field.output text 0 s here
              (ap (λ b. record item { body = extended Field.output text 0 b }) body)
              (fits.0, leb→le (count output) max_output_chars within) tidy)
        | inr over ↦
            rw over (elim (Bool-cases (not t.truncated || leb max_output_chars (count text))) [
              | inl again ↦ rw again (Told-upsert _ s (fits.0, count-cut t text) tidy)
              | inr short ↦ rw short (
                  Told-append cut item Field.output text trim s here
                    (ap (λ b. record item { body = extended Field.output text trim b }) body
                      ∙ ap (λ o. with_tool item (record t { output = o }))
                          (sym (drop_chars-join trim t.output text (front t text short))))
                    (fits.0, count-cut t text) tidy)
            ])
      ]
    where
      -- A text shorter than the bound leaves some of the output before it.
      front :
          (t : Tool) (text : String)
          → (not t.truncated || leb max_output_chars (count text)) ≡ false
          → count (join t.output text) - max_output_chars ≤ count t.output
      front t text h = ground (arith, length-append t.output text)

  -- Without a change of its flag, a tool that is known goes out as what was added.
  tool_written-same :
      (item : Item) (t : Tool) (payload : Object)
      → lookup item.id s.items ≡ some item
      → item.body ≡ Body.tool t
      → ToolFits t
      → Told s (tool_written false item t payload s)
  unfolding tool_written
  tool_written-same item t payload here body fits =
      let text = text_of (get payload "text") in
      let same = ap (λ b. record item { body = b }) body in
      if-keeps (Told s) (is_true (get payload "replace"))
        (Told-upsert _ s (replaced_output-fits text t fits) tidy)
        (if-keeps (Told s) (not (text == "")) (more_output-appended item t text here body fits)
          (Told-same (with_tool item t) s (here ∙ ap some same) tidy))

-- What an upsert does, of a tool that is known or has just been created.
module _ (s after : TranscriptState) (item : Item)
    (up : (t : Tool) → ToolFits t → Told s (upsert (with_tool item t) after)) where
  more_output-changed :
      (t : Tool) (text : String) → ToolFits t → Told s (more_output true item t text after)
  unfolding more_output
  more_output-changed t text fits =
      let output = join t.output text in
      elim (Bool-cases (leb (count output) max_output_chars)) [
        | inl within ↦ rw within (up _ (fits.0, leb→le (count output) max_output_chars within))
        | inr over ↦ rw over (up _ (fits.0, count-cut t text))
      ]

  tool_written-changed :
      (t : Tool) (payload : Object) → ToolFits t → Told s (tool_written true item t payload after)
  unfolding tool_written
  tool_written-changed t payload fits =
      let text = text_of (get payload "text") in
      if-keeps (Told s) (is_true (get payload "replace")) (up _ (replaced_output-fits text t fits))
        (if-keeps (Told s) (not (text == "")) (more_output-changed t text fits) (up t fits))

  tool_phase-tells :
      (created : Bool) (t : Tool) (payload : Object)
      → ToolFits t
      → Told s (tool_output created item t payload after)
      → Told s (tool_phase created item t payload after)
  unfolding tool_phase tool_complete
  tool_phase-tells created t payload fits output =
      let phase = text_of (get payload "phase") in
      if-keeps (Told s) (phase == "start")
        (up _ (tool_start-fits (text_of (get payload "text")) t fits))
        (if-keeps (Told s) (phase == "output") output
          (if-keeps (Told s) (phase == "complete") (up _ fits) (up t fits)))

or_false : (b : Bool) → (b || false) ≡ b
or_false true = refl
or_false false = refl

module _ (s : TranscriptState) (tidy : Tidy s) where
  tool_output-found :
      (item : Item) (t : Tool) (payload : Object)
      → lookup item.id s.items ≡ some item
      → item.body ≡ Body.tool t
      → ToolFits t
      → Told s (tool_output false item t payload s)
  unfolding tool_output
  tool_output-found item t payload here body fits =
      flagged (text_of (get payload "stream") == "stderr" && not t.stderr)
    where
      flagged :
          (flag : Bool)
          → Told s (tool_written flag item (record t { stderr = t.stderr || flag }) payload s)
      flagged true =
          tool_written-changed s s item (λ u h. Told-upsert (with_tool item u) s h tidy)
            (record t { stderr = t.stderr || true }) payload fits
      flagged false =
          tool_written-same s tidy item (record t { stderr = t.stderr || false }) payload here
            (body ∙ ap (λ b. Body.tool (record t { stderr = b })) (sym (or_false t.stderr))) fits

  found_tool-tells :
      (item : Item) (body : Body) (payload : Object)
      → lookup item.id s.items ≡ some item
      → item.body ≡ body
      → BodyFits body
      → Told s (found_tool item body payload s)
  unfolding found_tool
  found_tool-tells item (Body.tool t) payload here body fits = rw (labelled-kept payload t fits) (
      tool_phase-tells s s item (λ u h. Told-upsert (with_tool item u) s h tidy) false t payload
        fits (tool_output-found item t payload here body fits))
  found_tool-tells item (Body.message m) payload here body fits = Told-nothing s tidy
  found_tool-tells item (Body.approval a) payload here body fits = Told-nothing s tidy
  found_tool-tells item (Body.input i) payload here body fits = Told-nothing s tidy
  found_tool-tells item (Body.turn t) payload here body fits = Told-nothing s tidy

  created_tool-tells :
      (id : String) (event payload : Object)
      → NamesTool payload
      → lookup id s.items ≡ none
      → let item = new_item id (Body.tool new_tool) event s in
        Told s (tool_phase true item (labelled true payload new_tool) payload (create item s))
  unfolding tool_output new_item
  created_tool-tells id event payload names absent =
      let item = new_item id (Body.tool new_tool) event s in
      let fits = labelled-new payload names in
      let up : (u : Tool) → ToolFits u → Told s (upsert (with_tool item u) (create item s)) =
        λ u h. Told-create (with_tool item u) item s refl absent h tidy in
      tool_phase-tells s (create item s) item up true (labelled true payload new_tool) payload fits
        (tool_written-changed s (create item s) item up _ payload fits)

  tool_at-tells :
      (id : String) (event payload : Object)
      → NamesTool payload
      → Told s (tool_at id event payload s)
  unfolding tool_at
  tool_at-tells id event payload names = elim (Option-cases (lookup id s.items)) [
    | inl absent ↦ rw (absent, tool_at) (created_tool-tells id event payload names absent)
    | inr (item, found) ↦
        let named = Named-lookup id s.items tidy.named found in
        rw (found, tool_at)
          (found_tool-tells item item.body payload
            (subst (λ k. lookup k s.items ≡ some item) (sym named) found) refl
            (Every-lookup ItemFits id s.items tidy.fit found))
  ]

  pub tool_event-tells :
      (event payload : Object) → NamesTool payload → Told s (tool_event event payload s)
  unfolding tool_event
  tool_event-tells event payload names =
      tool_at-tells (join "t:" (or_else (identity (get payload "tool_call_id")) (reference event)))
        event payload names
