-- ===== src/Examples/Commands.antt =====
-- An operator approves a request, and sends the approval again: `_command` of
-- bridge/deskhelm_core/core.py.
use deskhelm.Prelude.{◌∷◌, [], String, refl, ◌⊎◌, some, none, false}
use deskhelm.Protocol.Command.{Action, Command}
use deskhelm.Core.State.{init, Connection, Role, Tier}
use deskhelm.Core.Commands.{run_command}
use deskhelm.Core.Commands.Authority.{Untouched, Authorized, run_command_authority}
use deskhelm.Core.Commands.Scopes.{at_most_once}
use deskhelm.Core.Commands.Decisions.{requested}
use deskhelm.Core.Commands.Decided.{decided_once}
use deskhelm.Json.{Object, object}
use deskhelm.Core.Clients.{subscribe_console}
use deskhelm.Core.Machine.{run}
use deskhelm.Core.Invariant.Resume.{Catches, subscribe_console-Catches}
use deskhelm.Examples.Frames.{codex_key, text, number}
use deskhelm.Examples.Core.{opened, opening, config, inputs}

abbrev pub operator : Connection
operator = record {
  connection_id = "client";
  role = some Role.client;
  client_id = "desk";
  tier = some Tier.operator;
  session = none;
  console = false;
  interaction = false;
  interaction_filter = none;
}

abbrev pub approval : String → Command
approval id = record {
  command_id = id;
  action = Action.approve "a-i-1";
  target = codex_key;
  issued_by = "desk";
  issued_at = 400;
  expires_at = 8000;
  idempotency_key = "k-1";
}

run_command_authority_example :
    Untouched opened (run_command operator (approval "c-1") 500 opened)
    ⊎ Authorized operator (approval "c-1") 500 opened
run_command_authority_example = run_command_authority operator (approval "c-1") 500 opened

at_most_once_example :
    Untouched opened (run_command operator (approval "c-1") 500 opened)
    ⊎ Untouched (run_command operator (approval "c-1") 500 opened) (
        run_command operator
          (approval "c-2")
          700
          (run_command operator (approval "c-1") 500 opened))
at_most_once_example =
    at_most_once operator operator (approval "c-1") (approval "c-2") 500 700 opened refl

-- The operator has seen the first delta.
abbrev console_after : Object
console_after =
    ("type", text "subscribe")
    ∷ ("stream", text "console")
    ∷ ("after", object (("instance_id", text "i") ∷ ("seq", number 1) ∷ []))
    ∷ []

subscribe_console-Catches_example :
    Catches
      (run inputs (init config))
      console_after
      "client"
      (subscribe_console operator console_after (run inputs (init config)))
subscribe_console-Catches_example = subscribe_console-Catches config inputs operator console_after

-- The page rejects what the operator approves.
abbrev rejection : Command
rejection = record (approval "c-3") { action = Action.reject "a-i-1"; idempotency_key = "k-2" }

decided_once_example :
    Untouched
      (run opening (init config))
      (run_command operator (approval "c-1") 500 (run opening (init config)))
    ⊎ Untouched (run_command operator (approval "c-1") 500 (run opening (init config))) (
        run_command operator rejection 510
          (run_command operator (approval "c-1") 500 (run opening (init config))))
unfolding requested
decided_once_example =
    decided_once config opening operator operator (approval "c-1") rejection 500 510 "a-i-1" refl
      refl refl
