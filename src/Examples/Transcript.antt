-- ===== src/Examples/Transcript.antt =====
-- A stream of events for the transcript of bridge/deskhelm_client/transcript.py.
use deskhelm.Prelude.{ℕ, ◌≡◌, refl, ◌≤◌, ◌⊎◌, String, string_eq, true, List, ◌∷◌, [], all, length}
use deskhelm.Dict.{keys}
use deskhelm.Protocol.Fields.{get}
use deskhelm.Json.{Json, Object, pos, object, of_members}
use deskhelm.Transcript.Storage.{new_transcript}
use deskhelm.Transcript.Fold.{apply_all, preview}
use deskhelm.Transcript.Surface.{patched_all}
use deskhelm.Transcript.Tidy.{Tidy, weight}
use deskhelm.Transcript.Tells.Streams.{names_tool, apply_all-patched, apply_all-Tidy, Tidy-new}
use deskhelm.Transcript.Tells.Bounds.{apply_all-bounded}
use deskhelm.Transcript.Tells.Once.{apply_all-once}

abbrev event : ℕ → String → Object → Object
event n kind payload =
    ("kind", Json.str kind)
    ∷ ("sequence", Json.int (pos n))
    ∷ ("event_id", Json.str "e")
    ∷ ("payload", object payload)
    ∷ []

abbrev stream : List Object
stream =
    event 1 "message"
      (("role", Json.str "user") ∷ ("phase", Json.str "complete") ∷ ("text", Json.str "go") ∷ [])
    ∷ event 2 "tool" (
        ("tool_call_id", Json.str "1")
        ∷ ("name", Json.str "bash")
        ∷ ("phase", Json.str "start")
        ∷ ("text", Json.str "ls")
        ∷ [])
    ∷ event 3 "tool" (
        ("tool_call_id", Json.str "1")
        ∷ ("name", Json.str "bash")
        ∷ ("phase", Json.str "output")
        ∷ ("text", Json.str "a b")
        ∷ [])
    ∷ event 5 "task_completed" []
    ∷ []

stream_named : all names_tool stream ≡ true
unfolding all names_tool of_members
stream_named = refl

stream_ids : keys (apply_all stream (new_transcript 2 1000)).0.items ≡ "t:1" ∷ "r:e" ∷ []
unfolding apply_all new_transcript of_members
stream_ids = refl

stream_preview : preview (apply_all stream (new_transcript 200 1000)).0 ≡ "ls"
unfolding preview apply_all new_transcript of_members
stream_preview = refl

apply_all-patched_example :
    let folded = apply_all stream (new_transcript 2 1000) in
    patched_all folded.1 [] ≡ folded.0.items
apply_all-patched_example = apply_all-patched 2 1000 stream stream_named

apply_all-Tidy_example : Tidy (apply_all stream (new_transcript 2 1000)).0
apply_all-Tidy_example = apply_all-Tidy 2 1000 stream stream_named

apply_all-bounded_example :
    let items = (apply_all stream (new_transcript 2 1000)).0.items in
    (length items ≤ 1) ⊎ ((length items ≤ 2) × (weight items ≤ 1000))
apply_all-bounded_example = apply_all-bounded 2 1000 stream stream_named

apply_all-once_example :
    let folded = (apply_all stream (new_transcript 2 1000)).0 in
    apply_all stream folded ≡ (folded, [])
unfolding get
apply_all-once_example =
    apply_all-once stream (new_transcript 2 1000)
      ((1, refl), ((2, refl), ((3, refl), ((5, refl), tt)))) stream_named (Tidy-new 2 1000)
