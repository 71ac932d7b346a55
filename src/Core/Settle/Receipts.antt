-- ===== src/Core/Settle/Receipts.antt =====
-- What `_settle` of bridge/deskhelm_core/core.py leaves of a command: its receipt and its flight.
use deskhelm.Prelude.{
  ℕ, ◌≡◌, refl, ◌∙◌, String, string_eq, pair_eq, Bool, true, false, ◌||◌, List, [], ◌∷◌, ◌++◌, map,
  ◌↔◌, ◌⊎◌, none, some, inl, inr, Bool-cases, Option-cases, present, if◌then◌else◌, ap,
}
use deskhelm.Dict.{Dict, lookup, modify, remove}
use deskhelm.Dict.Laws.{lookup-modify_self, lookup-remove_self, map_option}
use deskhelm.Protocol.Session.{key_eq}
use deskhelm.Core.Frames.{ResultCode, CommandResult, Frame, Output, send}
use deskhelm.Core.State.{Core, Ticket, Receipt, InFlight}
use deskhelm.Core.Actions.{update, interaction, resolved, recompute, result_frame}
use deskhelm.Core.Settle.{
  settle, settle_request, settle_ticket, settle_receipt, close_receipt, flight_ticket, answered,
  answers_for,
}

-- The request's part touches no receipt and no flight.
record Apart (c d : Core) : Type 0 where
  receipts : d.receipts ≡ c.receipts
  in_flight : d.in_flight ≡ c.in_flight

settle_ticket-Apart :
    (flight : InFlight) (t : Ticket) (code : ResultCode) (delivered : Bool) (now : ℕ) (c : Core)
    → Apart c (settle_ticket flight t code delivered now c)
unfolding settle_ticket recompute resolved interaction update
settle_ticket-Apart flight t code delivered now c =
    elim (Bool-cases (delivered || present t.resolved_by)) [
      | inl ends ↦ rw (settle_ticket, ends) (record { receipts = refl; in_flight = refl })
      | inr stays ↦ rw (settle_ticket, stays) (record { receipts = refl; in_flight = refl })
    ]

settle_request-Apart :
    (flight : InFlight) (code : ResultCode) (delivered : Bool) (now : ℕ) (c : Core)
    → Apart c (settle_request flight code delivered now c)
unfolding settle_request
settle_request-Apart flight code delivered now c = elim (Option-cases (flight_ticket flight c)) [
  | inl missing ↦ rw (settle_request, missing) (record { receipts = refl; in_flight = refl })
  | inr (t, found) ↦ rw (settle_request, found) (settle_ticket-Apart flight t code delivered now c)
]

-- The result of the command: accepted where it was focused or dispatched.
pub record IsResult (command_id : String) (code : ResultCode) (result : CommandResult)
    : Type 0 where
  pub of_command : result.command_id ≡ command_id
  pub of_code : result.code ≡ code
  pub is_accepted :
      (result.accepted ≡ true) ↔ ((code ≡ ResultCode.focused) ⊎ (code ≡ ResultCode.dispatched))

-- Each connection that waits is told the result, and all but the first that it is a duplicate.
abbrev pub Answers : CommandResult → List String → List Output → Type 0
Answers result [] outputs = outputs ≡ []
Answers result (first ∷ others) outputs =
    outputs
    ≡ send first (Frame.command_result result false)
      ∷ map (λ other. send other (Frame.command_result result true)) others

-- What a settled command leaves: no flight; a receipt with the result and no waiters if it was
-- delivered and else none; and an answer for each waiter, which end what goes out.
pub record Settled (flight : InFlight) (code : ResultCode) (delivered : Bool) (receipt : Receipt)
    (d : Core) : Type 0 where
  pub landed : lookup flight.effect_id d.in_flight ≡ none
  pub result : CommandResult
  pub is_result : IsResult flight.command.command_id code result
  pub kept :
      lookup flight.scope d.receipts
      ≡ (if delivered then some (record receipt { result = some result; waiters = [] }) else none)
  pub before : List Output
  pub answers : List Output
  pub told : Answers result receipt.waiters answers
  pub last : d.out ≡ before ++ answers

result_frame-IsResult :
    (command_id : String) (code : ResultCode)
    → IsResult command_id code (result_frame command_id code)
unfolding result_frame
result_frame-IsResult command_id ResultCode.focused = record {
  of_command = refl;
  of_code = refl;
  is_accepted = (λ _. inl refl, λ _. refl);
}
result_frame-IsResult command_id ResultCode.dispatched = record {
  of_command = refl;
  of_code = refl;
  is_accepted = (λ _. inr refl, λ _. refl);
}
result_frame-IsResult command_id code = record {
  of_command = refl;
  of_code = refl;
  is_accepted = (λ h. cc, λ h. elim h [ inl f ↦ cc | inr d ↦ cc ]);
}

answers_for-duplicates :
    (result : CommandResult) (waiters : List String)
    → answers_for result true waiters
      ≡ map (λ other. send other (Frame.command_result result true)) waiters
unfolding answers_for
answers_for-duplicates result [] = refl
answers_for-duplicates result (w ∷ ws) =
    ap (◌∷◌ (send w (Frame.command_result result true))) (answers_for-duplicates result ws)

answers_for-Answers :
    (result : CommandResult) (waiters : List String)
    → Answers result waiters (answers_for result false waiters)
unfolding answers_for
answers_for-Answers result [] = refl
answers_for-Answers result (w ∷ ws) =
    ap (◌∷◌ (send w (Frame.command_result result false))) (answers_for-duplicates result ws)

kept_receipt :
    (delivered : Bool) (scope : String × String) (result : CommandResult) (receipt : Receipt)
    (receipts : Dict (String × String) Receipt)
    → lookup scope receipts ≡ some receipt
    → lookup scope
        (if delivered then modify scope (answered result) receipts else remove scope receipts)
      ≡ (if delivered then some (answered result receipt) else none)
kept_receipt true scope result receipt receipts h =
    lookup-modify_self scope (answered result) receipts ∙ ap (map_option (answered result)) h
kept_receipt false scope result receipt receipts h = lookup-remove_self scope receipts

close_receipt-Settled :
    (flight : InFlight) (code : ResultCode) (delivered : Bool) (receipt : Receipt) (c : Core)
    → lookup flight.effect_id c.in_flight ≡ none
    → lookup flight.scope c.receipts ≡ some receipt
    → Settled flight code delivered receipt (close_receipt flight code delivered receipt c)
unfolding close_receipt answered
close_receipt-Settled flight code delivered receipt c landed h = record {
  landed = landed;
  result = result_frame flight.command.command_id code;
  is_result = result_frame-IsResult flight.command.command_id code;
  kept = kept_receipt delivered flight.scope _ receipt c.receipts h;
  before = c.out;
  answers = answers_for (result_frame flight.command.command_id code) false receipt.waiters;
  told = answers_for-Answers _ receipt.waiters;
  last = refl;
}

settle_receipt-Settled :
    (flight : InFlight) (code : ResultCode) (delivered : Bool) (receipt : Receipt) (c : Core)
    → lookup flight.effect_id c.in_flight ≡ none
    → lookup flight.scope c.receipts ≡ some receipt
    → Settled flight code delivered receipt (settle_receipt flight code delivered c)
unfolding settle_receipt
settle_receipt-Settled flight code delivered receipt c landed h =
    rw (settle_receipt, h) (close_receipt-Settled flight code delivered receipt c landed h)

-- Settling a dispatched command takes away its flight and tells its result to each connection that
-- waits for it, to all but the first as a duplicate; a delivered command keeps its receipt with the result, and one that was not delivered leaves none, so that it
-- may be sent again.
pub settle-Settled :
    (flight : InFlight) (code : ResultCode) (delivered : Bool) (now : ℕ) (c : Core)
    (receipt : Receipt)
    → lookup flight.scope c.receipts ≡ some receipt
    → Settled flight code delivered receipt (settle flight code delivered now c)
unfolding settle
settle-Settled flight code delivered now c receipt h =
    let landed = record c { in_flight = remove flight.effect_id c.in_flight } in
    let apart = settle_request-Apart flight code delivered now landed in
    settle_receipt-Settled flight code delivered receipt _
      (rw (apart.in_flight) (lookup-remove_self flight.effect_id c.in_flight))
      (rw (apart.receipts) h)
