-- ===== src/Examples/Accepted.antt =====
-- A host whose session the core has just opened: bridge/deskhelm_host/link.py and
-- bridge/deskhelm_core/core.py.
use deskhelm.Prelude.{refl, true, false, List, ◌∷◌, [], ◌++◌, length, some, none, ◌≡◌}
use deskhelm.Dict.{lookup, insert, modify}
use deskhelm.Json.{Json, Object, object, of_members, of_items}
use deskhelm.Protocol.Fields.{
  get, identity_field, optional_identity, bool_field, strip, enum_field, int_field,
}
use deskhelm.Protocol.Session.{key_fields, runtime_fields, key_from_dict, runtime_from_dict}
use deskhelm.Protocol.Capability.{capabilities_from_dict}
use deskhelm.Protocol.Shapes.{FactKind}
use deskhelm.Protocol.Fact.{fact_body}
use deskhelm.Core.State.{Core, Connection, Role, new_connection, init}
use deskhelm.Core.Machine.{
  connects, receives, run, step, receive, connect, finish, publish, changes, note_sent,
}
use deskhelm.Core.Facts.{is_ended}
use deskhelm.Core.Facts.Sequence.{Stands, Stays}
use deskhelm.Core.Hosts.{
  host_frames, host_frame, hello, accept_hello, session_open, open_session, announce_session,
}
use deskhelm.Core.Actions.{send_to, recompute}
use deskhelm.Core.Tickets.{open_tickets}
use deskhelm.Link.{NewFact, Sending, FactFrame, DriverState, open_link, emit_all}
use deskhelm.Link.Accepted.{AreReadable, arrivals, host_frames-open_link}
use deskhelm.Examples.Frames.{codex_key, codex_runtime, capabilities, host_hello}
use deskhelm.Examples.Core.{config}

abbrev asks_to_open : Object
unfolding key_fields runtime_fields
asks_to_open =
    ("type", Json.str "session_open")
    ∷ ("session", object (key_fields codex_key))
    ∷ ("runtime", object (runtime_fields codex_runtime))
    ∷ ("capabilities", object capabilities)
    ∷ []

abbrev just_opened : Core
unfolding run
just_opened =
    run (connects "host" ∷ receives "host" host_hello 10 ∷ receives "host" asks_to_open 20 ∷ [])
      (init config)

abbrev host : Connection
host = record (new_connection "host") { role = some Role.host; session = some codex_key }

abbrev working : DriverState
working = record { catalog = none; ready = true; turn_ref = "t"; attention = true }

abbrev calm : NewFact
calm = record { kind = FactKind.status; meta = ("attention", Json.bool false) ∷ []; content = [] }

abbrev reports : List (Sending × NewFact)
reports = (Sending.went, calm) ∷ (Sending.lost, calm) ∷ (Sending.went, calm) ∷ []

just_opened-Stands : Stands codex_key 0 (some "host") just_opened
unfolding lookup insert modify just_opened step receive connect finish publish changes note_sent
    hello get enum_field identity_field strip accept_hello send_to host_frame session_open
    asks_to_open key_fields runtime_fields open_tickets key_from_dict of_members runtime_from_dict
    capabilities_from_dict of_items int_field bool_field open_session announce_session recompute
just_opened-Stands = (refl, refl)

abbrev sent : List FactFrame
sent =
    (open_link (λ f. Sending.went) working).1
    ++ (emit_all reports (open_link (λ f. Sending.went) working).0).1

sent-AreReadable : AreReadable sent
unfolding fact_body open_link is_ended get identity_field optional_identity bool_field strip
    emit_all
sent-AreReadable = (refl, (refl, (refl, (refl, tt))))

four_sent : length sent ≡ 4
unfolding open_link emit_all
four_sent = refl

host_frames-open_link_example :
    Stays codex_key
      (length sent)
      (some "host")
      (host_frames host (arrivals (λ f. f.seq) sent) just_opened)
host_frames-open_link_example =
    host_frames-open_link (λ f. Sending.went) working reports (λ f. f.seq) host codex_key
      just_opened (tt, (tt, (tt, tt))) refl just_opened-Stands sent-AreReadable
