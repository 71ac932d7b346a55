-- ===== src/Core/Invariant/Actions.antt =====
-- The helpers of `Core` keep the capacity invariant.
use deskhelm.Prelude.{
  ℕ, String, List, Option, none, some, arith, inl, inr, Bool-cases, ◌==◌, option_eq,
}
use deskhelm.Dict.Laws.{length-modify}
use deskhelm.Dict.Every.{Every-modify}
use deskhelm.Protocol.Session.{SessionKey, key_eq}
use deskhelm.Core.Events.{Payload}
use deskhelm.Core.Frames.{Frame, ResultCode, Output}
use deskhelm.Core.State.{Core, Ticket}
use deskhelm.Core.Window.Bounds.{append_event-IsWindow}
use deskhelm.Core.Actions.{
  send_to, send_all, send_result, counted, new_event, interaction, resolved, Ending, recompute,
  set_focus,
}
use deskhelm.Core.Invariant.{RecordFits, Fits}

pub send_to-Fits :
    (to : Option String) (frame : Frame) (c : Core) → Fits c → Fits (send_to to frame c)
unfolding send_to
send_to-Fits none frame c h = h
send_to-Fits (some connection) frame c h = ground arith

pub send_all-Fits : (outputs : List Output) (c : Core) → Fits c → Fits (send_all outputs c)
unfolding send_all
send_all-Fits outputs c h = ground arith

pub send_result-Fits :
    (connection command_id : String) (code : ResultCode) (c : Core)
    → Fits c
    → Fits (send_result connection command_id code c)
unfolding send_result
send_result-Fits connection command_id code c h = ground arith

pub counted-Fits : (c : Core) → Fits c → Fits (counted c)
unfolding counted
counted-Fits c h = ground arith

pub set_focus-Fits : (key : Option SessionKey) (c : Core) → Fits c → Fits (set_focus key c)
unfolding set_focus
set_focus-Fits key c h = elim (Bool-cases (c.focus == key)) [
  | inl same ↦ rw same h
  | inr other ↦ rw other (ground arith)
]

pub interaction-Fits :
    (key : SessionKey) (payload : Payload) (correlation : String) (now : ℕ) (c : Core)
    → Fits c
    → Fits (interaction key payload correlation now c)
unfolding interaction
interaction-Fits key payload correlation now c h = record {
  sessions_fit = omega (arith, length-modify key _ c.sessions);
  receipts_fit = h.receipts_fit;
  deltas_fit = h.deltas_fit;
  deltas_run = h.deltas_run;
  hosts_fit = h.hosts_fit;
  clients_fit = h.clients_fit;
  records_fit =
      Every-modify (RecordFits c.limits) key _ c.sessions
        (λ r _ fits. record {
          tickets_fit = fits.tickets_fit;
          tickets_named = fits.tickets_named;
          window_fits =
              append_event-IsWindow c.limits (new_event c key payload correlation now) r
                fits.window_fits.counted;
        })
        h.records_fit;
}

pub resolved-Fits :
    (key : SessionKey) (t : Ticket) (ending : Ending) (now : ℕ) (c : Core)
    → Fits c
    → Fits (resolved key t ending now c)
unfolding resolved
resolved-Fits key t ending now c h = search interaction-Fits

pub recompute-Fits : (key : SessionKey) (c : Core) → Fits c → Fits (recompute key c)
unfolding recompute
recompute-Fits key c h = record {
  sessions_fit = omega (arith, length-modify key _ c.sessions);
  receipts_fit = h.receipts_fit;
  deltas_fit = h.deltas_fit;
  deltas_run = h.deltas_run;
  hosts_fit = h.hosts_fit;
  clients_fit = h.clients_fit;
  records_fit =
      Every-modify (RecordFits c.limits) key _ c.sessions
        (λ r _ fits. record {
          tickets_fit = fits.tickets_fit;
          tickets_named = fits.tickets_named;
          window_fits = fits.window_fits;
        })
        h.records_fit;
}
