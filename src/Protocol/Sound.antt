-- ===== src/Protocol/Sound.antt =====
-- What a command that passes `Command.from_dict` of bridge/deskhelm_protocol/model.py is.
use mathlib.Core.Bool.{not}
use deskhelm.Prelude.{
  ℕ, ◌≤◌, ◌≡◌, ◌≢◌, refl, arith, subst, String, string_eq, Bool, true, false, [], ◌∷◌, Option, none,
  some, inl, inr, Bool-cases, ltb, ◌⊎◌, all, contains, ◌&&◌, not_ltb→le, not_leb→lt,
}
use deskhelm.Dict.{lookup, keys}
use deskhelm.Json.{Json, Object, object, pos}
use deskhelm.Protocol.Fields.{
  ok, get, get_or, identity_field, int_field, object_field, enum_field, max_text_chars,
  max_label_chars,
}
use deskhelm.Protocol.Session.{key_from_object}
use deskhelm.Protocol.Request.{is_empty}
use deskhelm.Protocol.Command.{
  CommandKind, Action, Command, action_from, command_from_dict, setting, command_values, kind_of,
}
use deskhelm.Protocol.Roundtrip.{IsAction, IsSetting, IsCommand}
use deskhelm.Protocol.Accepted.{
  bind-ok, require-ok, ok-injective, identity, text, key_from_object-IsKey, answers_field-ok,
}

given :
    (s : Option String) (value : Option (Option String))
    → some s ≡ value
    → IsSetting (some s)
    → IsSetting value × (value ≢ none)
given s value e h = (subst IsSetting e h, λ none_value. cc)

setting-ok :
    (v : Option Json) (value : Option (Option String))
    → setting v ≡ ok value
    → IsSetting value × ((v ≢ none) → value ≢ none)
unfolding setting
setting-ok none value h =
    subst (λ x. IsSetting x × (◌≢◌ {A = Option Json} none none → x ≢ none)) {x = none}
      (ok-injective none value h) (tt, λ some_json. absurd (some_json refl))
setting-ok (some Json.null) value h =
    let (fine, set) = given none value (ok-injective (some none) value h) tt in
    (fine, λ some_json. set)
setting-ok (some v) value h =
    let (s, t, h1) = bind-ok _ _ value h in
    let (fine, set) =
      given (some s) value (ok-injective (some (some s)) value h1) (text _ max_label_chars s t) in
    (fine, λ some_json. set)

-- A payload that is not empty and has no other names has one of the two settings.
has_setting :
    (o : Object)
    → (not (is_empty o) && all (contains ("model" ∷ "effort" ∷ [])) (keys o)) ≡ true
    → (lookup "model" o ≢ none) ⊎ (lookup "effort" o ≢ none)
unfolding lookup all contains
has_setting [] h = cc
has_setting ((name, v) ∷ o) h = ground (
  arith,
  string_eq.beq_iff name "model",
  string_eq.beq_iff name "effort",
  string_eq.beq_iff "model" name,
  string_eq.beq_iff "effort" name,
)

-- An action of the kind.
OfKind : CommandKind → Action → Type 0
OfKind kind action = IsAction action × (kind_of action ≡ kind)

done :
    (kind : CommandKind) (a action : Action) → ok a ≡ ok action → OfKind kind a → OfKind kind action
done kind a action h p = subst (OfKind kind) (ok-injective a action h) p

action_from-OfKind :
    (kind : CommandKind) (payload : Object) (action : Action)
    → action_from kind payload ≡ ok action
    → OfKind kind action
unfolding action_from OfKind kind_of
action_from-OfKind CommandKind.focus payload action h =
    let (e, h1) = require-ok _ _ action h in done _ Action.focus action h1 (tt, refl)
action_from-OfKind CommandKind.interrupt payload action h =
    let (e, h1) = require-ok _ _ action h in done _ Action.interrupt action h1 (tt, refl)
action_from-OfKind CommandKind.submit_prompt payload action h =
    let (e, h1) = require-ok _ _ action h in
    let (s, t, h2) = bind-ok _ _ action h1 in
    done _ (Action.submit_prompt s) action h2 (text _ max_text_chars s t, refl)
action_from-OfKind CommandKind.approve payload action h =
    let (e, h1) = require-ok _ _ action h in
    let (id, i, h2) = bind-ok _ _ action h1 in
    done _ (Action.approve id) action h2 (identity _ id i, refl)
action_from-OfKind CommandKind.reject payload action h =
    let (e, h1) = require-ok _ _ action h in
    let (id, i, h2) = bind-ok _ _ action h1 in
    done _ (Action.reject id) action h2 (identity _ id i, refl)
action_from-OfKind CommandKind.answer payload action h =
    let (e, h1) = require-ok _ _ action h in
    let (id, i, h2) = bind-ok _ _ action h1 in
    let (answers, a, h3) = bind-ok _ _ action h2 in
    done _ (Action.answer id answers) action h3
      ((identity _ id i, answers_field-ok _ answers a), refl)
action_from-OfKind CommandKind.configure_session payload action h =
    let (e, h1) = require-ok _ _ action h in
    let (model, m, h2) = bind-ok _ _ action h1 in
    let (effort, f, h3) = bind-ok _ _ action h2 in
    let (good_model, some_model) = setting-ok _ model m in
    let (good_effort, some_effort) = setting-ok _ effort f in
    done _ (Action.configure_session model effort) action h3 (
      (
        (elim (has_setting payload e) [
          | inl set ↦ inl (some_model set)
          | inr set ↦ inr (some_effort set)
        ]),
        (good_model, good_effort),
      ),
      refl,
    )

int_field-ok : (v : Json) (minimum n : ℕ) → int_field v minimum ≡ ok n → minimum ≤ n
unfolding int_field
int_field-ok (Json.int (pos m)) minimum n h = elim (Bool-cases (ltb m minimum)) [
  | inl low ↦ cc (rw (int_field, low) at h)
  | inr fine ↦
      subst (λ n. minimum ≤ n) (ok-injective m n (rw (int_field, fine) at h)) (not_ltb→le _ _ fine)
]
int_field-ok v minimum n h = cc

not-true : (b : Bool) → not b ≡ true → b ≡ false
not-true true h = cc
not-true false h = refl

-- What `Command.from_dict` accepts is a command: its ids are identities, its payload is one that its
-- kind admits, and it is issued at 1 or later and expires after that.
pub command_from_dict-IsCommand :
    (v : Json) (c : Command) → command_from_dict v ≡ ok c → IsCommand c
unfolding command_from_dict OfKind
command_from_dict-IsCommand v c h =
    let (o, e0, h0) = bind-ok (object_field v) _ c h in
    let (kind, e1, h1) = bind-ok (enum_field command_values (get o "kind")) _ c h0 in
    let (issued_at, e2, h2) = bind-ok (int_field (get o "issued_at") 1) _ c h1 in
    let (expires_at, e3, h3) = bind-ok (int_field (get o "expires_at") 1) _ c h2 in
    let (later, h4) = require-ok _ _ c h3 in
    let (payload, e5, h5) = bind-ok (object_field (get_or o "payload" (object []))) _ c h4 in
    let (action, e6, h6) = bind-ok (action_from kind payload) _ c h5 in
    let (command_id, e7, h7) = bind-ok (identity_field (get o "command_id")) _ c h6 in
    let (target, e8, h8) = bind-ok (key_from_object o) _ c h7 in
    let (issued_by, e9, h9) = bind-ok (identity_field (get o "issued_by")) _ c h8 in
    let (scope, e10, h10) = bind-ok (identity_field (get o "idempotency_key")) _ c h9 in
    subst IsCommand (ok-injective _ c h10) (record {
      id = identity _ command_id e7;
      action = (action_from-OfKind kind payload action e6).0;
      target = key_from_object-IsKey o target e8;
      issuer = identity _ issued_by e9;
      issued = int_field-ok _ 1 issued_at e2;
      lasts = not_leb→lt expires_at issued_at (not-true _ later);
      scope = identity _ scope e10;
    })
