-- ===== src/Transcript/Fold.antt =====
-- `apply`, `preview` and the construction of `Transcript` in bridge/deskhelm_client/transcript.py.
use deskhelm.Prelude.{
  String, string_eq, ◌||◌, List, [], ◌∷◌, ◌++◌, Option, none, some, leb, ◌==◌, if◌then◌else◌,
}
use deskhelm.Dict.{Dict}
use deskhelm.Json.{Json, Object, pos, negsuc, members}
use deskhelm.Protocol.Fields.{get}
use deskhelm.Transcript.{Body, Item}
use deskhelm.Transcript.Texts.{is_blank, or_else, text_of, one_line}
use deskhelm.Transcript.Storage.{TranscriptState, Folded, trim}
use deskhelm.Transcript.Kinds.{message_event, tool_event}
use deskhelm.Transcript.Requests.{
  approval_event, resolution_event, input_event, input_resolution_event, turn_event,
}

-- The handler of a kind; an event of another kind has none.
unfoldable pub fold_kind : String → Object → Object → TranscriptState → Option Folded
unfolding message_event tool_event approval_event resolution_event input_event
    input_resolution_event turn_event
fold_kind kind event payload s =
    if kind == "message"
    then some (message_event event payload s)
    else if kind == "tool"
    then some (tool_event event payload s)
    else if kind == "approval_request"
    then some (approval_event event payload s)
    else if kind == "approval_resolved"
    then some (resolution_event payload s)
    else if kind == "input_resolved"
    then some (input_resolution_event payload s)
    else if kind == "user_input_required"
    then some (input_event event payload s)
    else if kind == "task_completed" || kind == "task_failed"
    then some (turn_event (kind == "task_failed") event payload s)
    else none

-- `patches + self._trim()`
unfoldable pub trimmed : Folded → Folded
unfolding trim
trimmed folded = let cut = trim folded.0 in (cut.0, folded.1 ++ cut.1)

unfoldable pub finish : TranscriptState → Option Folded → Folded
unfolding trimmed
finish s none = (s, [])
finish s (some folded) = trimmed folded

unfoldable pub fold_event : Object → Object → TranscriptState → Folded
unfolding fold_kind finish text_of get
fold_event event payload s = finish s (fold_kind (text_of (get event "kind")) event payload s)

-- Each sequence folds once.
unfoldable pub fold_sequence : Json → Object → Object → TranscriptState → Folded
unfolding fold_event
fold_sequence (Json.int (pos n)) event payload s =
    let next = fold_event event payload (record s { last_sequence = n }) in
    if leb n s.last_sequence then (s, []) else next
fold_sequence (Json.int (negsuc n)) event payload s = (s, [])
fold_sequence _ event payload s = fold_event event payload s

unfoldable pub fold_payload : Json → Object → TranscriptState → Folded
unfolding fold_sequence members get
fold_payload (Json.obj ms) event s = fold_sequence (get event "sequence") event (members ms) s
fold_payload _ event s = (s, [])

-- `apply`
unfoldable pub apply : Object → TranscriptState → Folded
unfolding fold_payload get
apply event s = fold_payload (get event "payload") event s

-- The events of a stream, in order, with all their patches.
unfoldable pub apply_all : List Object → TranscriptState → Folded
unfolding apply
apply_all [] s = (s, [])
apply_all (event ∷ events) s =
    let first = apply event s in let rest = apply_all events first.0 in (rest.0, first.1 ++ rest.1)

-- What an item shows in one line, if it is one that the preview takes.
item_preview : Item → Option String
unfolding is_blank or_else one_line
item_preview item = elim item.body [
  | Body.message m ↦ if is_blank m.text then none else some (one_line m.text)
  | Body.tool t ↦ some (one_line (or_else t.title t.kind))
  | _ ↦ none
]

-- The newest item that shows something, or else what an older one showed.
newest_preview : Option String → Dict String Item → Option String
unfolding item_preview
newest_preview found [] = found
newest_preview found ((id, item) ∷ rest) =
    newest_preview (elim (item_preview item) [ none ↦ found | some line ↦ some line ]) rest

-- `preview`
unfoldable pub preview : TranscriptState → String
unfolding newest_preview
preview s = elim (newest_preview none s.items) [ none ↦ "" | some line ↦ line ]
