-- ===== src/Core/Commands/Authority.antt =====
-- Who can make the core act: which commands change more than receipts and answers, and that one
-- scope makes it act once.
use deskhelm.Prelude.{
  ℕ, ◌<◌, ◌≡◌, refl, String, string_eq, pair_eq, true, Option, none, some, ◌⊎◌, inl, inr, arith,
  Bool-cases, Option-cases, leb, not_leb→lt, length, ◌==◌,
}
use deskhelm.Dict.{lookup}
use deskhelm.Protocol.Session.{key_eq}
use deskhelm.Protocol.Command.{CommandKind, Command, kind_of}
use deskhelm.Core.Frames.{Lifecycle, Frame, ResultCode}
use deskhelm.Core.State.{Core, SessionRecord, Connection, Receipt, Tier}
use deskhelm.Core.Actions.{send_to, send_result}
use deskhelm.Core.Plans.{permits, is_permitted}
use deskhelm.Core.Commands.{
  scope_of, fingerprint, refused_early, repeat_command, is_active, new_command, run_command,
}

-- What the tiers of docs and protocol grant, kind by kind.
pub data Allowed : Tier → CommandKind → Type 0 where
  operator : (kind : CommandKind) → Allowed Tier.operator kind
  voice_prompt : Allowed Tier.voice CommandKind.submit_prompt
  voice_approve : Allowed Tier.voice CommandKind.approve
  voice_reject : Allowed Tier.voice CommandKind.reject
  device_focus : Allowed Tier.device CommandKind.focus
  device_interrupt : Allowed Tier.device CommandKind.interrupt
  device_approve : Allowed Tier.device CommandKind.approve
  device_reject : Allowed Tier.device CommandKind.reject

permits-Allowed : (tier : Tier) (kind : CommandKind) → permits tier kind ≡ true → Allowed tier kind
unfolding permits
permits-Allowed Tier.operator kind h = operator kind
permits-Allowed Tier.voice CommandKind.submit_prompt h = voice_prompt
permits-Allowed Tier.voice CommandKind.approve h = voice_approve
permits-Allowed Tier.voice CommandKind.reject h = voice_reject
permits-Allowed Tier.voice kind h = cc
permits-Allowed Tier.device CommandKind.focus h = device_focus
permits-Allowed Tier.device CommandKind.interrupt h = device_interrupt
permits-Allowed Tier.device CommandKind.approve h = device_approve
permits-Allowed Tier.device CommandKind.reject h = device_reject
permits-Allowed Tier.device kind h = cc
permits-Allowed Tier.observer kind h = cc

-- The core has not acted: no session, flight, focus or id changed.
pub record Untouched (c d : Core) : Type 0 where
  pub sessions : d.sessions ≡ c.sessions
  pub in_flight : d.in_flight ≡ c.in_flight
  pub focus : d.focus ≡ c.focus
  pub counter : d.counter ≡ c.counter

pub record Authorized (state : Connection) (cmd : Command) (now : ℕ) (c : Core) : Type 0 where
  pub issuer : cmd.issued_by ≡ state.client_id
  pub fresh : now < cmd.expires_at
  pub tier : Tier
  pub has_tier : state.tier ≡ some tier
  pub allowed : Allowed tier (kind_of cmd.action)
  pub unused : lookup (scope_of cmd) c.receipts ≡ none
  pub target : SessionRecord
  pub found : lookup cmd.target c.sessions ≡ some target
  pub active : target.lifecycle ≡ Lifecycle.active
  pub owner : String
  pub owned : target.owner ≡ some owner
  pub room : length c.receipts < c.limits.max_receipts

Untouched-refl : (c : Core) → Untouched c c
Untouched-refl c = record { sessions = refl; in_flight = refl; focus = refl; counter = refl }

send_to-Untouched :
    (to : Option String) (frame : Frame) (c : Core) → Untouched c (send_to to frame c)
unfolding send_to
send_to-Untouched none frame c = Untouched-refl c
send_to-Untouched (some connection) frame c = record {
  sessions = refl;
  in_flight = refl;
  focus = refl;
  counter = refl;
}

pub send_result-Untouched :
    (connection id : String) (code : ResultCode) (c : Core)
    → Untouched c (send_result connection id code c)
unfolding send_result
send_result-Untouched connection id code c = record {
  sessions = refl;
  in_flight = refl;
  focus = refl;
  counter = refl;
}

pub repeat_command-Untouched :
    (connection : String) (cmd : Command) (receipt : Receipt) (c : Core)
    → Untouched c (repeat_command connection cmd receipt c)
unfolding repeat_command
repeat_command-Untouched connection cmd receipt c =
    elim (Bool-cases (receipt.fingerprint == fingerprint c cmd)) [
      | inr other ↦ rw other (send_result-Untouched connection cmd.command_id _ c)
      | inl same ↦ rw same (elim (Option-cases receipt.result) [
        | inl pending ↦
            rw pending (record { sessions = refl; in_flight = refl; focus = refl; counter = refl })
        | inr (result, known) ↦ rw known (send_to-Untouched (some connection) _ c)
      ])
    ]

is_permitted-Allowed :
    (tier : Option Tier) (kind : CommandKind)
    → is_permitted tier kind ≡ true
    → (t : Tier) × (tier ≡ some t) × Allowed t kind
unfolding is_permitted
is_permitted-Allowed none kind h = cc
is_permitted-Allowed (some t) kind h = (t, refl, permits-Allowed t kind h)

-- What the first three checks leave.
admitted :
    (state : Connection) (cmd : Command) (now : ℕ)
    → refused_early state cmd now ≡ none
    → (cmd.issued_by ≡ state.client_id)
      × (now < cmd.expires_at)
      × (is_permitted state.tier (kind_of cmd.action) ≡ true)
unfolding refused_early
admitted state cmd now h = ground (arith, string_eq.beq_iff cmd.issued_by state.client_id)

active_record :
    (r : SessionRecord)
    → is_active r ≡ true
    → (r.lifecycle ≡ Lifecycle.active) × ((owner : String) × (r.owner ≡ some owner))
unfolding is_active
active_record r h = ground arith

new_command-acts :
    (state : Connection) (cmd : Command) (now : ℕ) (c : Core) (d : Core)
    → d ≡ new_command state.connection_id cmd now c
    → refused_early state cmd now ≡ none
    → lookup (scope_of cmd) c.receipts ≡ none
    → Untouched c d ⊎ Authorized state cmd now c
unfolding new_command
new_command-acts state cmd now c d e early unused =
    elim (Option-cases (lookup cmd.target c.sessions)) [
      | inl missing ↦ inl (
          rw (e, new_command, missing)
            (send_result-Untouched state.connection_id cmd.command_id _ c))
      | inr (r, found) ↦ elim (Bool-cases (is_active r)) [
        | inr gone ↦ inl (
            rw (e, new_command, found, gone)
              (send_result-Untouched state.connection_id cmd.command_id _ c))
        | inl live ↦ elim (Bool-cases (leb c.limits.max_receipts (length c.receipts))) [
          | inl full ↦ inl (
              rw (e, new_command, found, live, full)
                (send_result-Untouched state.connection_id cmd.command_id _ c))
          | inr room ↦
              let (issuer, fresh, may) = admitted state cmd now early in
              let (tier, has_tier, allowed) = is_permitted-Allowed state.tier _ may in
              let (active, (owner, owned)) = active_record r live in
              inr (record {
                issuer = issuer;
                fresh = fresh;
                tier = tier;
                has_tier = has_tier;
                allowed = allowed;
                unused = unused;
                target = r;
                found = found;
                active = active;
                owner = owner;
                owned = owned;
                room = not_leb→lt _ _ room;
              })
        ]
      ]
    ]

-- A command changes a session, the focus, the flights or the ids only if its issuer is the
-- connection's client, it has not expired, the connection's tier allows its kind, no receipt has
-- its scope, its target is an active session with an owner, and there is room for a receipt.
pub run_command_authority :
    (state : Connection) (cmd : Command) (now : ℕ) (c : Core)
    → Untouched c (run_command state cmd now c) ⊎ Authorized state cmd now c
unfolding run_command
run_command_authority state cmd now c = elim (Option-cases (refused_early state cmd now)) [
  | inr (code, refused) ↦
      inl (
        rw (refused, run_command) (send_result-Untouched state.connection_id cmd.command_id code c))
  | inl permitted ↦ elim (Option-cases (lookup (scope_of cmd) c.receipts)) [
    | inr (receipt, known) ↦ inl (
        rw (permitted, run_command, known)
          (repeat_command-Untouched state.connection_id cmd receipt c))
    | inl unused ↦
        new_command-acts state cmd now c _ (rw (permitted, run_command, unused)) permitted unused
  ]
]
