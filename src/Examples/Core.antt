-- ===== src/Examples/Core.antt =====
-- A core with small limits that a host and a client use: bridge/deskhelm_core/core.py.
use deskhelm.Prelude.{List, [], ◌∷◌}
use deskhelm.Core.State.{Config, CoreLimits, Core, init}
use deskhelm.Core.Machine.{Input, connects, receives, disconnects, ticks, run}
use deskhelm.Core.Invariant.{Fits}
use deskhelm.Core.Invariant.Inputs.{run-init-Fits}
use deskhelm.Examples.Frames.{
  host_hello, client_hello, session_open, approval_opened, approve_command, command_frame,
  effect_accepted,
}

abbrev pub small_limits : CoreLimits
small_limits = record {
  max_sessions = 1;
  max_hosts = 1;
  max_clients = 1;
  max_receipts = 2;
  receipt_retention_ms = 1000;
  effect_deadline_ms = 100;
  disconnected_ttl_ms = 500;
  delta_history = 2;
  window_events = 2;
  window_bytes = 2000;
  max_tickets = 1;
}

abbrev pub config : Config
config = record { instance_id = "i"; limits = small_limits; sha256 = λ text. text }

abbrev pub opening : List Input
opening =
    connects "host"
    ∷ receives "host" host_hello 10
    ∷ receives "host" session_open 20
    ∷ connects "client"
    ∷ receives "client" client_hello 30
    ∷ receives "host" approval_opened 40
    ∷ []

abbrev pub inputs : List Input
inputs =
    connects "host"
    ∷ receives "host" host_hello 10
    ∷ receives "host" session_open 20
    ∷ connects "client"
    ∷ receives "client" client_hello 30
    ∷ receives "host" approval_opened 40
    ∷ receives "client" (command_frame approve_command) 500
    ∷ receives "host" effect_accepted 520
    ∷ disconnects "host" 600
    ∷ ticks 2000
    ∷ []

abbrev pub opened : Core
unfolding run
opened = run opening (init config)

run-init-Fits_example : Fits (run inputs (init config))
run-init-Fits_example = run-init-Fits config inputs
