-- ===== src/Core/Invariant/Clients.antt =====
-- A client's subscriptions and queries, and so all its frames, keep the capacity invariant.
use deskhelm.Prelude.{
  ℕ, ◌≡◌, refl, String, string_eq, Option, none, some, inl, inr, Bool-cases, Option-cases,
}
use deskhelm.Json.{Object}
use deskhelm.Protocol.Fields.{Result-cases, get, enum_field}
use deskhelm.Core.State.{Core, Connection, Stream}
use deskhelm.Core.Facts.{Outcome}
use deskhelm.Core.Clients.{
  subscribe_console, subscribe_interaction, then_add, subscribe_stream, subscribe, query,
  client_frame, is_text, session_filter, is_operator, query_key, stream_values, subscribed,
  with_filter, add_stream, resume_from,
}
use deskhelm.Core.Invariant.{Fits}
use deskhelm.Core.Invariant.Actions.{send_to-Fits, send_all-Fits}
use deskhelm.Core.Invariant.Facts.{OutcomeFits}
use deskhelm.Core.Invariant.Commands.{command-Fits}
use deskhelm.Core.Invariant.Hosts.{update_connection-Fits}

subscribe_console-Fits :
    (state : Connection) (frame : Object) (c : Core)
    → Fits c
    → Fits (subscribe_console state frame c)
unfolding subscribe_console
subscribe_console-Fits state frame c h = elim (Option-cases (resume_from c (get frame "after"))) [
  | inl behind ↦ rw (behind, subscribe_console) (send_to-Fits (some state.connection_id) _ c h)
  | inr (seq, near) ↦ rw (near, subscribe_console) (send_all-Fits _ c h)
]

role-with_filter : (filter : Option _) (s : Connection) → (with_filter filter s).role ≡ s.role
unfolding with_filter
role-with_filter none s = refl
role-with_filter (some keys) s = refl

role-add_stream : (stream : Stream) (s : Connection) → (add_stream stream s).role ≡ s.role
unfolding add_stream
role-add_stream Stream.console s = refl
role-add_stream Stream.interaction s = refl

subscribe_interaction-Fits :
    (state : Connection) (frame : Object) (c : Core)
    → Fits c
    → OutcomeFits (subscribe_interaction state frame c)
unfolding subscribe_interaction
subscribe_interaction-Fits state frame c h = elim (Bool-cases (is_operator state)) [
  | inr other ↦ rw other h
  | inl operator ↦ rw operator (elim (Result-cases (session_filter c (get frame "sessions"))) [
    | inl wrong ↦ rw wrong h
    | inr (filter, fine) ↦ rw fine (
        send_all-Fits _ _ (
          update_connection-Fits state.connection_id (with_filter filter) c
            (role-with_filter filter) h))
  ])
]

subscribe_stream-Fits :
    (stream : Stream) (state : Connection) (frame : Object) (c : Core)
    → Fits c
    → OutcomeFits (subscribe_stream stream state frame c)
unfolding subscribe_stream
subscribe_stream-Fits Stream.interaction state frame c h =
    subscribe_interaction-Fits state frame c h
subscribe_stream-Fits Stream.console state frame c h = subscribe_console-Fits state frame c h

then_add-Fits :
    (id : String) (stream : Stream) (outcome : Outcome)
    → OutcomeFits outcome
    → OutcomeFits (then_add id stream outcome)
unfolding then_add
then_add-Fits id stream (Outcome.done c) h =
    update_connection-Fits id (add_stream stream) c (role-add_stream stream) h
then_add-Fits id stream (Outcome.raised code c) h = h

subscribe-Fits :
    (state : Connection) (frame : Object) (c : Core)
    → Fits c
    → OutcomeFits (subscribe state frame c)
unfolding subscribe
subscribe-Fits state frame c h =
    elim (Result-cases (enum_field stream_values (get frame "stream"))) [
      | inl wrong ↦ rw (wrong, subscribe) h
      | inr (stream, fine) ↦
          rw (fine, subscribe)
            (elim (Bool-cases (subscribed stream state)) [
              | inl again ↦ rw again h
              | inr first ↦ rw first (
                  then_add-Fits state.connection_id stream _
                    (subscribe_stream-Fits stream state frame c h))
            ])
    ]

query-Fits :
    (state : Connection) (frame : Object) (c : Core) → Fits c → OutcomeFits (query state frame c)
unfolding query
query-Fits state frame c h = elim (Result-cases (query_key frame)) [
  | inl wrong ↦ rw (wrong, query) h
  | inr ((query_id, key), fine) ↦ rw (fine, query) (send_to-Fits (some state.connection_id) _ c h)
]

pub client_frame-Fits :
    (state : Connection) (frame : Object) (now : ℕ) (c : Core)
    → Fits c
    → OutcomeFits (client_frame state frame now c)
unfolding client_frame
client_frame-Fits state frame now c h =
    let kind = get frame "type" in
    elim (Bool-cases (is_text kind "subscribe")) [
      | inl subscribing ↦ rw subscribing (subscribe-Fits state frame c h)
      | inr no_subscribe ↦ rw no_subscribe (elim (Bool-cases (is_text kind "command")) [
        | inl commanding ↦ rw commanding (command-Fits state (get frame "command") now c h)
        | inr no_command ↦ rw no_command (elim (Bool-cases (is_text kind "query")) [
          | inl asking ↦ rw asking (query-Fits state frame c h)
          | inr other ↦ rw other h
        ])
      ])
    ]
