-- ===== src/Core/Window/Bounds.antt =====
-- The bounds of a session's window: its byte count is the sum of its events' sizes, and eviction
-- leaves it within the limits, losing only the oldest events.
use deskhelm.Prelude.{
  ℕ, suc, ◌+◌, ◌-◌, ◌≤◌, ◌≡◌, refl, String, string_eq, List, [], ◌∷◌, ◌++◌, arith, inl, inr,
  Bool-cases, length, ltb, ◌||◌, ◌==◌, drop,
}
use deskhelm.Protocol.Shapes.{MessageRole, MessagePhase}
use deskhelm.Core.Events.{Event, Payload, size}
use deskhelm.Core.State.{CoreLimits, SessionRecord}
use deskhelm.Core.Window.{is_delta_of, drop_deltas, evict, completed_message, append_event}

-- The sum of the sizes.
abbrev pub total : List Event → ℕ
total [] = 0
total (e ∷ es) = size e + total es

pub total-append : (xs ys : List Event) → total (xs ++ ys) ≡ total xs + total ys
total-append [] ys = omega arith
total-append (e ∷ es) ys = omega (arith, total-append es ys)

pub record IsWindow (limits : CoreLimits) (events : List Event) (bytes : ℕ) : Type 0 where
  pub counted : bytes ≡ total events
  pub few : length events ≤ limits.window_events
  pub small : bytes ≤ limits.window_bytes

-- Dropping deltas keeps the count of bytes right, and what else is counted beside the window.
pub drop_deltas-counted :
    (correlation : String) (role : MessageRole) (es : List Event) (bytes others : ℕ)
    → bytes ≡ total es + others
    → (drop_deltas correlation role es bytes).bytes
      ≡ total (drop_deltas correlation role es bytes).events + others
unfolding drop_deltas
drop_deltas-counted correlation role [] bytes others h = h
drop_deltas-counted correlation role (e ∷ es) bytes others h =
    elim (Bool-cases (is_delta_of correlation role e)) [
      | inl gone ↦
          rw gone (drop_deltas-counted correlation role es (bytes - size e) others (omega arith))
      | inr kept ↦ rw kept (
          omega
            (arith, drop_deltas-counted correlation role es bytes (size e + others) (omega arith)))
    ]

completed_message-counted :
    (p : Payload) (correlation : String) (es : List Event) (bytes : ℕ)
    → bytes ≡ total es
    → (completed_message p correlation es bytes).bytes
      ≡ total (completed_message p correlation es bytes).events
unfolding completed_message
completed_message-counted (Payload.message role MessagePhase.complete text) correlation es bytes h =
    elim (Bool-cases (text == "")) [
      | inl empty ↦ rw empty h
      | inr full ↦
          rw full (omega (arith, drop_deltas-counted correlation role es bytes 0 (omega arith)))
    ]
completed_message-counted (Payload.message role MessagePhase.delta text) correlation es bytes h = h
completed_message-counted p correlation es bytes h = h

-- Whatever the window was, eviction ends within the limits, with the bytes counted.
pub evict-IsWindow :
    (limits : CoreLimits) (es : List Event) (bytes : ℕ)
    → bytes ≡ total es
    → IsWindow limits (evict limits es bytes).events (evict limits es bytes).bytes
unfolding evict
evict-IsWindow limits [] bytes h = omega arith
evict-IsWindow limits (e ∷ es) bytes h = ground (arith, evict-IsWindow limits es (bytes - size e))

-- A window whose bytes are counted is within the limits after any event, whatever its size.
pub append_event-IsWindow :
    (limits : CoreLimits) (e : Event) (r : SessionRecord)
    → r.window_bytes ≡ total r.window
    → IsWindow limits (append_event limits e r).events (append_event limits e r).bytes
unfolding append_event
append_event-IsWindow limits e r h =
    let kept = completed_message e.payload e.correlation_id r.window r.window_bytes in
    evict-IsWindow limits (kept.events ++ e ∷ []) (kept.bytes + size e) (
      omega (
        arith,
        total-append kept.events (e ∷ []),
        completed_message-counted e.payload e.correlation_id r.window r.window_bytes h,
      ))

-- Eviction takes events from the front alone.
pub evict_suffix :
    (limits : CoreLimits) (es : List Event) (bytes : ℕ)
    → (n : ℕ) × ((evict limits es bytes).events ≡ drop n es)
unfolding evict
evict_suffix limits [] bytes = (0, refl)
evict_suffix limits (e ∷ es) bytes =
    let (n, rest) = evict_suffix limits es (bytes - size e) in
    elim (Bool-cases
      (ltb limits.window_events (length (e ∷ es)) || ltb limits.window_bytes bytes)) [
        | inl over ↦ (suc n, rw over rest)
        | inr fits ↦ (0, rw fits)
      ]

evict-keeps_newest :
    (limits : CoreLimits) (es : List Event) (e : Event) (bytes : ℕ)
    → bytes ≡ total (es ++ e ∷ [])
    → 1 ≤ limits.window_events
    → size e ≤ limits.window_bytes
    → (kept : List Event) × ((evict limits (es ++ e ∷ []) bytes).events ≡ kept ++ e ∷ [])
unfolding evict
evict-keeps_newest limits [] e bytes h few small = ([], ground arith)
evict-keeps_newest limits (f ∷ es) e bytes h few small =
    let (kept, rest) = evict-keeps_newest limits es e (bytes - size f) (omega arith) few small in
    elim (Bool-cases
      (ltb limits.window_events (length (f ∷ es ++ e ∷ [])) || ltb limits.window_bytes bytes)) [
        | inl over ↦ (kept, rw over rest)
        | inr fits ↦ (f ∷ es, rw fits)
      ]

-- An event that fits the limits alone is the newest of the window after it.
pub append_event-keeps_newest :
    (limits : CoreLimits) (e : Event) (r : SessionRecord)
    → r.window_bytes ≡ total r.window
    → 1 ≤ limits.window_events
    → size e ≤ limits.window_bytes
    → (kept : List Event) × ((append_event limits e r).events ≡ kept ++ e ∷ [])
unfolding append_event
append_event-keeps_newest limits e r h =
    let kept = completed_message e.payload e.correlation_id r.window r.window_bytes in
    evict-keeps_newest limits kept.events e (kept.bytes + size e) (
      omega (
        arith,
        total-append kept.events (e ∷ []),
        completed_message-counted e.payload e.correlation_id r.window r.window_bytes h,
      ))
