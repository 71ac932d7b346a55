-- ===== src/Protocol/Texts.antt =====
-- The texts that pass `text_field` and `identity_field` of bridge/deskhelm_protocol/model.py.
use Prim.Native.String.{count}
use Prim.Native.Char.{code}
use mathlib.Core.Bool.{not}
use deskhelm.Prelude.{
  ℕ, ◌≤◌, ◌≡◌, ◌≢◌, refl, arith, String, string_eq, false, ◌||◌, Bool-cases, inl, inr, ltb,
  not_ltb→le, or-false, ◌==◌, ◌↔◌, if◌then◌else◌, ap, sym, ◌∙◌,
}
use deskhelm.Json.{Json}
use deskhelm.Protocol.Blanks.{StartsSolid, EndsSolid, solid-strip, strip-solid}
use deskhelm.Protocol.Fields.{
  ok, violation, Result-cases, identity_field, text_field, text_within, strip, has_control,
  max_identity_chars,
}

-- Not blank, and within the limit.
pub record IsText (limit : ℕ) (s : String) : Type 0 where
  pub short : count s ≤ limit
  pub solid : strip s ≢ ""

-- No character of ASCII's control codes: U+0000 to U+001F.
abbrev pub NoControl : String → Type 0
NoControl String.[] = Unit
NoControl (String.◌∷◌ c s) = (32 ≤ code c) × NoControl s

-- At most 256 characters, neither the first nor the last of them blank, and no control code.
pub record IsIdentity (s : String) : Type 0 where
  pub short : count s ≤ 256
  pub full : s ≢ ""
  pub starts : StartsSolid s
  pub ends : EndsSolid s
  pub clean : NoControl s

has_control-NoControl : (s : String) → has_control s ≡ false → NoControl s
unfolding has_control
has_control-NoControl String.[] h = tt
has_control-NoControl (String.◌∷◌ c s) h =
    let (this, rest) = or-false (ltb (code c) 32) (has_control s) h in
    (not_ltb→le (code c) 32 this, has_control-NoControl s rest)

NoControl-has_control : (s : String) → NoControl s → has_control s ≡ false
unfolding has_control
NoControl-has_control String.[] h = refl
NoControl-has_control (String.◌∷◌ c s) h =
    rw (not_below (code c) h.0, NoControl-has_control s h.1) refl
  where
    not_below : (n : ℕ) → 32 ≤ n → ltb n 32 ≡ false
    not_below n h = ground arith

pub text_field-IsText :
    (limit : ℕ) (s : String) → IsText limit s → text_field (Json.str s) limit false ≡ ok s
unfolding text_field text_within
text_field-IsText limit s h = ground (arith, h.short, h.solid, string_eq.beq_iff (strip s) "")

read_back : (s t : String) → ok s ≡ ok t → t ≡ s
read_back s t h = cc

pub text_field-ok :
    (limit : ℕ) (s t : String)
    → text_field (Json.str s) limit false ≡ ok t
    → (t ≡ s) × IsText limit t
unfolding text_field text_within
text_field-ok limit s t h = elim (Bool-cases (ltb limit (count s))) [
  | inl long ↦ cc (rw (text_within, long) at h)
  | inr fits ↦ elim (Bool-cases (strip s == "")) [
    | inl blank ↦ cc (rw (text_within, fits, blank) at h)
    | inr full ↦
        let same = read_back s t (rw (text_within, fits, full) at h) in
        (
          same,
          rw same (record {
            short = not_ltb→le _ _ fits;
            solid = λ e. ground (arith, string_eq.beq_iff (strip s) "");
          }),
        )
  ]
]

pub identity_field-IsIdentity : (s : String) → IsIdentity s → identity_field (Json.str s) ≡ ok s
unfolding identity_field
identity_field-IsIdentity s h =
    let same = solid-strip s h.starts h.ends in
    rw
      (
        text_field-IsText max_identity_chars s
            (record { short = h.short; solid = λ e. h.full (sym same ∙ e) }),
        (string_eq.beq_iff s (strip s)).1 (sym same),
        NoControl-has_control s h.clean,
      )
      refl

-- What the last line of `identity_field` accepts.
identity_ok :
    (u t : String)
    → (if not (u == strip u) || has_control u then violation else ok u) ≡ ok t
    → (t ≡ u) × (u ≡ strip u) × (has_control u ≡ false)
identity_ok u t h = elim (Bool-cases (u == strip u)) [
  | inr loose ↦ cc (rw loose at h)
  | inl same ↦ elim (Bool-cases (has_control u)) [
    | inl dirty ↦ cc (rw (same, dirty) at h)
    | inr clean ↦
        (read_back u t (rw (same, clean) at h), (string_eq.beq_iff u (strip u)).0 same, clean)
  ]
]

pub identity_field-ok :
    (v : Json) (t : String) → identity_field v ≡ ok t → (v ≡ Json.str t) × IsIdentity t
unfolding identity_field text_field
identity_field-ok (Json.str s) t h =
    elim (Result-cases (text_field (Json.str s) max_identity_chars false)) [
      | inl wrong ↦ cc (rw (identity_field, wrong) at h)
      | inr (u, fine) ↦
          let (u_is_s, u_text) = text_field-ok max_identity_chars s u fine in
          let (t_is_u, trimmed, clean) = identity_ok u t (rw (identity_field, fine) at h) in
          (
            ap Json.str (sym u_is_s ∙ sym t_is_u),
            rw t_is_u (record {
              short = u_text.short;
              full = λ e. u_text.solid (sym trimmed ∙ e);
              starts = (strip-solid u trimmed).0;
              ends = (strip-solid u trimmed).1;
              clean = has_control-NoControl u clean;
            }),
          )
    ]
identity_field-ok v t h = cc

-- A value is an identity exactly if it is a text of at most 256 characters that is not empty, neither
-- starts nor ends with a blank, and has no character below U+0020.
pub identity_field_iff :
    (v : Json) (t : String) → (identity_field v ≡ ok t) ↔ ((v ≡ Json.str t) × IsIdentity t)
identity_field_iff v t = (identity_field-ok v t, λ h. rw (h.0) (identity_field-IsIdentity t h.1))
