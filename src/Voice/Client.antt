-- ===== src/Voice/Client.antt =====
-- What the voice host asks of the client: `ConsoleState`, `ConsoleChange` and `CommandResult` of
-- bridge/deskhelm_client/connection.py, and `result_text` of bridge/deskhelm_client/texts.py.
use deskhelm.Prelude.{
  ℕ, String, string_eq, Bool, true, false, ◌&&◌, List, [], ◌∷◌, Option, none, some, ltb, select,
}
use deskhelm.Dict.{Dict, lookup}
use deskhelm.Protocol.Session.{SessionKey, key_eq}
use deskhelm.Protocol.Request.{RequestKind}
use deskhelm.Core.Frames.{TicketView, View}

pub record ConsoleState : Type 0 where
  pub instance_id : String
  pub seq : ℕ
  pub focus : Option SessionKey
  pub sessions : Dict SessionKey View

-- `ConsoleState.session`
unfoldable pub session : SessionKey → ConsoleState → Option View
session key state = lookup key state.sessions

unfoldable pub is_answerable : ℕ → TicketView → Bool
is_answerable now t =
    (elim t.kind [ RequestKind.approval ↦ true | RequestKind.input ↦ false ])
    && t.answerable
    && ltb now t.expires_at

-- `ConsoleState.approvals`
unfoldable pub approvals : SessionKey → ℕ → ConsoleState → List TicketView
unfolding is_answerable
approvals key now state = elim (lookup key state.sessions) [
  | none ↦ []
  | some view ↦ select (is_answerable now) view.approvals
]

pub record ConsoleChange : Type 0 where
  pub state : ConsoleState
  pub previous : ConsoleState
  pub reset : Bool

pub record Reply : Type 0 where
  pub accepted : Bool
  pub code : String

unfoldable pub find_text : String → Dict String String → String
find_text code texts = elim (lookup code texts) [ none ↦ code | some text ↦ text ]

abbrev result_texts : Dict String String
result_texts =
    ("focused", "已聚焦这个会话")
    ∷ ("dispatched", "已交给 Agent")
    ∷ ("expired", "这个操作已过期")
    ∷ ("issuer_mismatch", "操作来源不匹配")
    ∷ ("invalid_command", "这个操作无法发送")
    ∷ ("idempotency_conflict", "重复的操作冲突")
    ∷ ("idempotency_capacity", "操作记录已满，请稍后再试")
    ∷ ("target_not_found", "找不到这个会话")
    ∷ ("target_inactive", "这个会话不在活动状态")
    ∷ ("not_permitted", "这里不能发出这个操作")
    ∷ ("unsupported", "这个 Agent 不支持这个操作")
    ∷ ("approval_not_found", "找不到这条批准请求")
    ∷ ("approval_already_decided", "这条批准已经处理过")
    ∷ ("undelivered", "Agent 当前无法接收这个操作")
    ∷ ("dispatch_failed", "操作可能没有完成，请查看 Agent")
    ∷ ("bridge_unavailable", "Bridge 暂时不可用")
    ∷ ("connection_lost", "与 Bridge 的连接中断，结果未知")
    ∷ ("timeout", "Bridge 没有及时回应，结果未知")
    ∷ ("client_busy", "操作太多，请稍后再试")
    ∷ []

-- `result_text`
unfoldable pub result_text : String → String
unfolding find_text
result_text code = find_text code result_texts
