-- ===== src/Link.antt =====
-- The host's connection to the Bridge: `BridgeLink` of bridge/deskhelm_host/link.py. What a socket and a
-- driver answer are arguments; a delay is in milliseconds, and its jitter is an argument of each round.
pub mod Numbers
pub mod Reconnects
pub mod Outcomes
pub mod Accepted
use deskhelm.Prelude.{
  ℕ, ◌+◌, ◌*◌, String, string_eq, Bool, true, false, not, ◌&&◌, ◌||◌, List, [], ◌∷◌, ◌++◌, Option,
  none, some, present, contains, min, ◌==◌, if◌then◌else◌,
}
use deskhelm.Dict.{lookup}
use deskhelm.Json.{Json, Object, object, members, pos}
use deskhelm.Protocol.Fields.{get}
use deskhelm.Protocol.Shapes.{FactKind}
use deskhelm.Core.Facts.{EffectOutcome}

-- The connection: none, one that carries frames, or one that has been shut down.
pub data Sock : Type 0 where
  absent live shut : Sock

pub record Link : Type 0 where
  pub sock : Sock
  pub opened : Bool
  pub seq : ℕ

pub record FactFrame : Type 0 where
  pub seq : ℕ
  pub kind : FactKind
  pub meta : Object
  pub content : Object

-- A fact before it has its number.
pub record NewFact : Type 0 where
  pub kind : FactKind
  pub meta : Object
  pub content : Object

unfoldable pub numbered_fact : ℕ → NewFact → FactFrame
numbered_fact n f = record { seq = n; kind = f.kind; meta = f.meta; content = f.content }

unfoldable pub kind_value : FactKind → String
kind_value FactKind.ready = "ready"
kind_value FactKind.turn_started = "turn_started"
kind_value FactKind.message = "message"
kind_value FactKind.tool = "tool"
kind_value FactKind.request_opened = "request_opened"
kind_value FactKind.request_resolved = "request_resolved"
kind_value FactKind.turn_terminal = "turn_terminal"
kind_value FactKind.status = "status"
kind_value FactKind.catalog = "catalog"
kind_value FactKind.capabilities = "capabilities"
kind_value FactKind.session_ended = "session_ended"

-- The frame of a fact, as it is encoded.
unfoldable pub fact_frame : FactFrame → Object
unfolding kind_value
fact_frame f =
    ("type", Json.str "fact")
    ∷ ("seq", Json.int (pos f.seq))
    ∷ ("kind", Json.str (kind_value f.kind))
    ∷ ("meta", object f.meta)
    ∷ ("content", object f.content)
    ∷ []

-- How the sending of a frame came back: it went out; it failed with an error that
-- `_send_fact_locked` catches; or with one that it does not, as where the content cannot be encoded.
pub data Sending : Type 0 where
  went lost escaped : Sending

-- `_send_fact_locked`: a connection on which the sending fails is shut down, and carries nothing more;
-- an error that escapes leaves it as it is, past the number of the fact.
unfoldable pub send_on : Sock → Sending → NewFact → Link → Link × List FactFrame
unfolding numbered_fact
send_on Sock.absent how f link = (link, [])
send_on Sock.shut how f link = (record link { seq = link.seq + 1 }, [])
send_on Sock.live Sending.went f link =
    (record link { seq = link.seq + 1 }, numbered_fact (link.seq + 1) f ∷ [])
send_on Sock.live Sending.lost f link = (record link { seq = link.seq + 1; sock = Sock.shut }, [])
send_on Sock.live Sending.escaped f link = (record link { seq = link.seq + 1 }, [])

unfoldable pub send_fact : Sending → NewFact → Link → Link × List FactFrame
unfolding send_on
send_fact how f link = send_on link.sock how f link

-- `emit`: while the Bridge cannot be reached, facts are dropped.
unfoldable pub emit : Sending → NewFact → Link → Link × List FactFrame
unfolding send_fact
emit how f link = if link.opened then send_fact how f link else (link, [])

-- Facts one after another, each with how its sending comes back.
unfoldable pub emit_all : List (Sending × NewFact) → Link → Link × List FactFrame
unfolding emit
emit_all [] link = (link, [])
emit_all (f ∷ facts) link =
    let first = emit f.0 f.1 link in
    let rest = emit_all facts first.0 in (rest.0, first.1 ++ rest.1)

-- What the driver says of its session.
pub record DriverState : Type 0 where
  pub catalog : Option Json
  pub ready : Bool
  pub turn_ref : String
  pub attention : Bool

catalog_facts : Option Json → List NewFact
catalog_facts none = []
catalog_facts (some catalog) =
    record { kind = FactKind.catalog; meta = []; content = ("catalog", catalog) ∷ [] } ∷ []

-- The facts that rebuild a session when it opens again.
unfoldable pub state_facts : DriverState → List NewFact
unfolding catalog_facts
state_facts state =
    catalog_facts state.catalog
    ++ (if state.ready then record { kind = FactKind.ready; meta = []; content = [] } ∷ [] else [])
    ++ (if state.turn_ref == ""
        then []
        else record {
          kind = FactKind.turn_started;
          meta = ("turn_ref", Json.str state.turn_ref) ∷ [];
          content = [];
        }
          ∷ [])
    ++ (if state.attention
        then record {
          kind = FactKind.status;
          meta = ("attention", Json.bool true) ∷ [];
          content = [];
        }
          ∷ []
        else [])

abbrev pub fresh_link : Link
fresh_link = record { sock = Sock.live; opened = true; seq = 0 }

-- `_drop`
unfoldable pub drop_link : Link → Link
drop_link link = record link { sock = Sock.absent; opened = false }

-- The facts of a session that opens; an error that escapes ends the round, which drops the connection.
unfoldable pub open_facts : (NewFact → Sending) → List NewFact → Link → Link × List FactFrame
unfolding send_fact drop_link
open_facts how [] link = (link, [])
open_facts how (f ∷ facts) link =
    let first = send_fact (how f) f link in
    let rest = open_facts how facts first.0 in
    elim (how f) [ Sending.escaped ↦ (drop_link link, []) | _ ↦ (rest.0, first.1 ++ rest.1) ]

-- The end of `_open`: the numbers start again, and the facts of the driver's state go first.
unfoldable pub open_link : (NewFact → Sending) → DriverState → Link × List FactFrame
unfolding open_facts state_facts
open_link how state = open_facts how (state_facts state) fresh_link

-- How the driver's `perform` came back: with an outcome, with a ValueError, or with another error.
pub data Performed {ℓ} (A : Type ℓ) : Type ℓ where
  outcome : A → Performed A
  refused : Performed A
  crashed : Performed A

abbrev effect_kinds : List String
effect_kinds = "submit" ∷ "interrupt" ∷ "respond" ∷ "answer" ∷ "configure" ∷ []

is_object : Json → Bool
is_object (Json.obj ms) = true
is_object _ = false

is_effect_kind : Json → Bool
unfolding contains
is_effect_kind (Json.str kind) = contains effect_kinds kind
is_effect_kind _ = false

-- Whether `_perform` asks the driver at all.
unfoldable pub is_effect : Object → Bool
unfolding is_effect_kind is_object get
is_effect frame = is_effect_kind (get frame "kind") && is_object (get frame "payload")

pub record EffectResult : Type 0 where
  pub effect_id : Json
  pub outcome : EffectOutcome

-- The outcome that is reported, if one is known.
unfoldable pub outcome_of : Bool → Performed EffectOutcome → Option EffectOutcome
outcome_of false answer = some EffectOutcome.unsupported
outcome_of true (Performed.outcome known) = some known
outcome_of true Performed.refused = some EffectOutcome.unsupported
outcome_of true Performed.crashed = none

-- What is sent of it: nothing without a connection, and on one that is shut down the sending fails.
unfoldable pub reported : Sock → Json → Option EffectOutcome → List EffectResult
reported Sock.live effect_id (some known) = record { effect_id = effect_id; outcome = known } ∷ []
reported sock effect_id known = []

-- `_perform`, with the driver's answer, where it is asked.
unfoldable pub perform : Object → Performed EffectOutcome → Link → List EffectResult
unfolding is_effect outcome_of reported get
perform frame answer link =
    reported link.sock (get frame "effect_id") (outcome_of (is_effect frame) answer)

-- One round of `_run`: whether it opens the session, and what `random.uniform(0.5, 1.0)` makes of a
-- delay in it.
pub record Round : Type 0 where
  pub opens : Bool
  pub jitter : ℕ → ℕ

-- What a round does: whether it may start a Bridge, and how long it waits at its end.
pub record Attempt : Type 0 where
  pub may_start_bridge : Bool
  pub waits : ℕ

-- The rounds of `_run`, until it is stopped.
unfoldable pub attempts : ℕ → ℕ → ℕ → Bool → List Round → List Attempt
attempts initial longest delay opened_once [] = []
attempts initial longest delay opened_once (round ∷ rest) =
    let now = if round.opens then initial else delay in
    record { may_start_bridge = not opened_once; waits = round.jitter now }
    ∷ attempts initial longest (min longest (now * 2)) (opened_once || round.opens) rest
