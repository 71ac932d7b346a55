-- ===== src/Core/Commands/Decisions.antt =====
-- A request is decided once: `_command` of bridge/deskhelm_core/core.py on an approval, a rejection or
-- an answer.
use deskhelm.Prelude.{
  ℕ, ◌≡◌, refl, sym, ◌∙◌, ap, subst, String, string_eq, pair_eq, true, false, Option, none, some,
}
use deskhelm.Dict.{lookup}
use deskhelm.Dict.Laws.{lookup-modify_self, map_option}
use deskhelm.Protocol.Session.{SessionKey, key_eq}
use deskhelm.Protocol.Request.{RequestKind}
use deskhelm.Protocol.Command.{Action, Command}
use deskhelm.Core.Frames.{Effect, Frame}
use deskhelm.Core.State.{Core, SessionRecord, Ticket}
use deskhelm.Core.Actions.{send_to, update, counted}
use deskhelm.Core.Tickets.{change_ticket}
use deskhelm.Core.Plans.Grants.{
  Grants, Waits, approve, reject, answer, prompt, interrupt, configure,
}
use deskhelm.Core.Commands.{dispatch, reserve, add_receipt}

-- The request that an action decides.
unfoldable pub requested : Action → Option String
requested (Action.approve id) = some id
requested (Action.reject id) = some id
requested (Action.answer id answers) = some id
requested _ = none

-- The session's request is reserved for a decision on its way.
pub record Taken (id : String) (r : SessionRecord) : Type 0 where
  pub ticket : Ticket
  pub found : lookup id r.tickets ≡ some ticket
  pub reserved : ticket.reserved ≡ true

pub record TakenIn (target : SessionKey) (id : String) (c : Core) : Type 0 where
  pub session : SessionRecord
  pub found : lookup target c.sessions ≡ some session
  pub taken : Taken id session

Waits-not_Taken :
    (r : SessionRecord) (id : String) (now : ℕ) (t : Ticket) (kind : RequestKind)
    → Waits r id kind now t
    → Taken id r
    → ⊥
Waits-not_Taken r id now t kind w taken =
    clash t taken.ticket (sym w.found ∙ taken.found) w.free taken.reserved
  where
    clash : (t u : Ticket) → some t ≡ some u → t.reserved ≡ false → u.reserved ≡ true → ⊥
    clash t u e free held =
        let same = unwrap t u e in false_true u (ap (λ x. x.reserved) (sym same) ∙ free) held
      where
        unwrap : (t u : Ticket) → some t ≡ some u → t ≡ u
        unwrap t u e = cc

        false_true : (u : Ticket) → u.reserved ≡ false → u.reserved ≡ true → ⊥
        false_true u p q = cc

pub Grants-not_Taken :
    (r : SessionRecord) (now : ℕ) (action : Action) (what : Effect) (ticket : Option Ticket)
    (id : String)
    → Grants r now action what ticket
    → requested action ≡ some id
    → Taken id r
    → ⊥
unfolding requested
Grants-not_Taken r now _ _ _ id (approve j t can w) q taken =
    Waits-not_Taken r id now t _ (subst (λ i. Waits r i RequestKind.approval now t) (cc) w) taken
Grants-not_Taken r now _ _ _ id (reject j t can w) q taken =
    Waits-not_Taken r id now t _ (subst (λ i. Waits r i RequestKind.approval now t) (cc) w) taken
Grants-not_Taken r now _ _ _ id (answer j answers t can known w) q taken =
    Waits-not_Taken r id now t _ (subst (λ i. Waits r i RequestKind.input now t) (cc) w) taken
Grants-not_Taken r now _ _ _ id (prompt text free) q taken = cc
Grants-not_Taken r now _ _ _ id (interrupt can) q taken = cc
Grants-not_Taken r now _ _ _ id (configure model effort m e) q taken = cc

-- The request that a granted decision is for.
pub Grants-request :
    (r : SessionRecord) (now : ℕ) (action : Action) (what : Effect) (ticket : Option Ticket)
    (id : String)
    → Grants r now action what ticket
    → requested action ≡ some id
    → (t : Ticket) × (ticket ≡ some t) × (lookup id r.tickets ≡ some t)
unfolding requested
Grants-request r now _ _ _ id (approve j t can w) q =
    (t, refl, subst (λ i. lookup i r.tickets ≡ some t) (cc) w.found)
Grants-request r now _ _ _ id (reject j t can w) q =
    (t, refl, subst (λ i. lookup i r.tickets ≡ some t) (cc) w.found)
Grants-request r now _ _ _ id (answer j answers t can known w) q =
    (t, refl, subst (λ i. lookup i r.tickets ≡ some t) (cc) w.found)
Grants-request r now _ _ _ id (prompt text free) q = cc
Grants-request r now _ _ _ id (interrupt can) q = cc
Grants-request r now _ _ _ id (configure model effort m e) q = cc

send_to-sessions :
    (to : Option String) (frame : Frame) (c : Core) → (send_to to frame c).sessions ≡ c.sessions
unfolding send_to
send_to-sessions none frame c = refl
send_to-sessions (some connection) frame c = refl

pub dispatch-TakenIn :
    (connection : String) (r : SessionRecord) (cmd : Command) (what : Effect) (t : Ticket) (now : ℕ)
    (c : Core)
    → lookup cmd.target c.sessions ≡ some r
    → lookup t.approval_id r.tickets ≡ some t
    → TakenIn cmd.target t.approval_id (dispatch connection r cmd what (some t) now c)
unfolding dispatch reserve update add_receipt counted change_ticket
dispatch-TakenIn connection r cmd what t now c found has =
    let hold = λ (u : Ticket). record u { reserved = true } in
    record {
      session = change_ticket t.approval_id hold r;
      found =
          ap (lookup cmd.target) (send_to-sessions r.owner _ _)
          ∙ lookup-modify_self cmd.target (change_ticket t.approval_id hold) c.sessions
          ∙ ap (map_option (change_ticket t.approval_id hold)) found;
      taken = record {
        ticket = hold t;
        found = lookup-modify_self t.approval_id hold r.tickets ∙ ap (map_option hold) has;
        reserved = refl;
      };
    }
