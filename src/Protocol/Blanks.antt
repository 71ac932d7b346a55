-- ===== src/Protocol/Blanks.antt =====
-- What `str.strip` leaves as it is, for the texts of bridge/deskhelm_protocol/model.py.
use Prim.Native.Char.{code}
use deskhelm.Prelude.{
  ◌≡◌, refl, sym, subst, String, string_eq, Bool, true, false, ◌&&◌, inl, inr, Bool-cases, ◌==◌,
}
use deskhelm.Protocol.Fields.{is_space, lstrip, rstrip, strip}

-- The first character is not blank.
abbrev pub StartsSolid : String → Type 0
StartsSolid String.[] = Unit
StartsSolid (String.◌∷◌ c s) = is_space (code c) ≡ false

-- The last character is not blank.
abbrev pub EndsSolid : String → Type 0
EndsSolid String.[] = Unit
EndsSolid (String.◌∷◌ c s) = (s ≡ "" → is_space (code c) ≡ false) × EndsSolid s

lstrip-StartsSolid : (s : String) → StartsSolid (lstrip s)
unfolding lstrip
lstrip-StartsSolid String.[] = tt
lstrip-StartsSolid (String.◌∷◌ c s) = elim (Bool-cases (is_space (code c))) [
  | inl blank ↦ rw blank (lstrip-StartsSolid s)
  | inr solid ↦ rw solid solid
]

rstrip-StartsSolid : (s : String) → StartsSolid s → StartsSolid (rstrip s)
unfolding rstrip
rstrip-StartsSolid String.[] h = tt
rstrip-StartsSolid (String.◌∷◌ c s) h = rw h h

rstrip-EndsSolid : (s : String) → EndsSolid (rstrip s)
unfolding rstrip
rstrip-EndsSolid String.[] = tt
rstrip-EndsSolid (String.◌∷◌ c s) = elim (Bool-cases (is_space (code c) && rstrip s == "")) [
  | inl last ↦ rw last tt
  | inr stays ↦ rw stays ((λ e. solid (is_space (code c)) (rstrip s) stays e), rstrip-EndsSolid s)
]
  where
    solid : (b : Bool) (s : String) → (b && s == "") ≡ false → s ≡ "" → b ≡ false
    solid false s h e = refl
    solid true s h e = cc (h, (string_eq.beq_iff s "").1 e)

pub strip-solid : (s : String) → s ≡ strip s → StartsSolid s × EndsSolid s
unfolding strip
strip-solid s h = (
  subst StartsSolid (sym h) (rstrip-StartsSolid (lstrip s) (lstrip-StartsSolid s)),
  subst EndsSolid (sym h) (rstrip-EndsSolid (lstrip s)),
)

lstrip-same : (s : String) → StartsSolid s → lstrip s ≡ s
unfolding lstrip
lstrip-same String.[] h = refl
lstrip-same (String.◌∷◌ c s) h = rw h refl

rstrip-same : (s : String) → EndsSolid s → rstrip s ≡ s
unfolding rstrip
rstrip-same String.[] h = refl
rstrip-same (String.◌∷◌ c s) h = elim (Bool-cases (s == "")) [
  | inl last ↦ rw (rstrip-same s h.1, h.0 ((string_eq.beq_iff s "").0 last)) refl
  | inr more ↦ rw (rstrip-same s h.1, more, and_false (is_space (code c))) refl
]
  where
    and_false : (b : Bool) → (b && false) ≡ false
    and_false true = refl
    and_false false = refl

-- What neither starts nor ends with a blank is left as it is.
pub solid-strip : (s : String) → StartsSolid s → EndsSolid s → strip s ≡ s
unfolding strip
solid-strip s starts ends = rw (lstrip-same s starts) (rstrip-same s ends)
