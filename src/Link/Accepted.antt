-- ===== src/Link/Accepted.antt =====
-- What bridge/deskhelm_core/core.py makes of the facts that bridge/deskhelm_host/link.py sends.
use deskhelm.Prelude.{
  ℕ, ◌+◌, ◌≡◌, refl, subst, ap, ◌∙◌, string_eq, false, List, [], ◌∷◌, ◌++◌, some, All, length,
  arith,
}
use deskhelm.Json.{Json, Object, members-of_members, pos}
use deskhelm.Protocol.Fields.{
  Result, ok, violation, ◌>>=◌, get, int_field, enum_field, object_field,
}
use deskhelm.Protocol.Session.{SessionKey}
use deskhelm.Protocol.Shapes.{FactKind, FactBody, fact_values}
use deskhelm.Protocol.Fact.{Fact, fact_body, fact_from_dict}
use deskhelm.Core.State.{Core, Connection}
use deskhelm.Core.Facts.{is_ended}
use deskhelm.Core.Facts.Sequence.{Stands, Stays}
use deskhelm.Core.Hosts.{host_frames}
use deskhelm.Core.Hosts.Sequence.{IsFactOf, IsFactFrame, GoOn, host_frames-Stays}
use deskhelm.Link.{
  FactFrame, NewFact, Sending, DriverState, kind_value, fact_frame, open_link, emit_all,
}
use deskhelm.Link.Numbers.{Consecutive, Returns, open_link-Consecutive}

-- A body that the Bridge can read, and that does not end the session.
abbrev pub IsReadable : Result FactBody → Type 0
IsReadable violation = ⊥
IsReadable (ok body) = is_ended body ≡ false

enum_field-kind_value :
    (kind : FactKind) → enum_field fact_values (Json.str (kind_value kind)) ≡ ok kind
unfolding enum_field kind_value
enum_field-kind_value FactKind.ready = refl
enum_field-kind_value FactKind.turn_started = refl
enum_field-kind_value FactKind.message = refl
enum_field-kind_value FactKind.tool = refl
enum_field-kind_value FactKind.request_opened = refl
enum_field-kind_value FactKind.request_resolved = refl
enum_field-kind_value FactKind.turn_terminal = refl
enum_field-kind_value FactKind.status = refl
enum_field-kind_value FactKind.catalog = refl
enum_field-kind_value FactKind.capabilities = refl
enum_field-kind_value FactKind.session_ended = refl

int_field-pos : (n : ℕ) → int_field (Json.int (pos (n + 1))) 1 ≡ ok (n + 1)
unfolding int_field
int_field-pos n = ground arith

with_body : ℕ → Result FactBody → Result Fact
with_body n read = do body ← read; ok (record { seq = n; body = body })

with_body-IsFactOf :
    (n : ℕ) (read : Result FactBody) → IsReadable read → IsFactOf n (with_body n read)
unfolding with_body
with_body-IsFactOf n (ok body) h = (refl, h)
with_body-IsFactOf n violation h = h

fact_frame-IsFactFrame :
    (n : ℕ) (f : FactFrame)
    → f.seq ≡ n + 1
    → IsReadable (fact_body f.kind f.meta f.content)
    → IsFactFrame (n + 1) (fact_frame f)
unfolding fact_frame get fact_from_dict object_field with_body
fact_frame-IsFactFrame n f at h = (
  refl,
  rw
      (
        at,
        int_field-pos n,
        enum_field-kind_value f.kind,
        members-of_members f.meta,
        members-of_members f.content,
      )
      (with_body-IsFactOf (n + 1) (fact_body f.kind f.meta f.content) h),
)

-- The frames as they come in, each at its time.
abbrev pub arrivals : (FactFrame → ℕ) → List FactFrame → List (ℕ × Object)
arrivals time [] = []
arrivals time (f ∷ frames) = (time f, fact_frame f) ∷ arrivals time frames

abbrev pub AreReadable : List FactFrame → Type 0
AreReadable frames = All (λ (f : FactFrame). IsReadable (fact_body f.kind f.meta f.content)) frames

arrivals-GoOn :
    (time : FactFrame → ℕ) (n : ℕ) (frames : List FactFrame)
    → Consecutive n frames
    → AreReadable frames
    → GoOn n (arrivals time frames)
arrivals-GoOn time n [] run h = tt
arrivals-GoOn time n (f ∷ frames) run h =
    (fact_frame-IsFactFrame n f run.0 h.0, arrivals-GoOn time (n + 1) frames run.1 h.1)

length-arrivals :
    (time : FactFrame → ℕ) (frames : List FactFrame) → length (arrivals time frames) ≡ length frames
length-arrivals time [] = refl
length-arrivals time (f ∷ frames) = omega (arith, length-arrivals time frames)

-- The Bridge takes every fact that a host sends on one connection: where the session has just been
-- opened by it, the bodies are ones that the Bridge can read and none ends the session, and no error
-- escapes from the sending of what is emitted, no fact is refused, whichever of them could be sent,
-- and the session then stands at the last of them and is still the host's.
pub host_frames-open_link :
    (how : NewFact → Sending) (driver : DriverState) (facts : List (Sending × NewFact))
    (time : FactFrame → ℕ) (state : Connection) (key : SessionKey) (c : Core)
    → All (λ (f : Sending × NewFact). Returns f.0) facts
    → state.session ≡ some key
    → Stands key 0 (some state.connection_id) c
    → AreReadable ((open_link how driver).1 ++ (emit_all facts (open_link how driver).0).1)
    → let first = open_link how driver in
      let frames = first.1 ++ (emit_all facts first.0).1 in
      Stays key
        (length frames)
        (some state.connection_id)
        (host_frames state (arrivals time frames) c)
host_frames-open_link how driver facts time state key c fine of_key stands h =
    let frames = (open_link how driver).1 ++ (emit_all facts (open_link how driver).0).1 in
    subst (λ n. Stays key n (some state.connection_id) (host_frames state (arrivals time frames) c))
      (ap (λ n. 0 + n) (length-arrivals time frames) ∙ omega arith)
      (host_frames-Stays state key 0 (arrivals time frames) c of_key
        (arrivals-GoOn time 0 frames (open_link-Consecutive how driver facts fine) h) stands)
