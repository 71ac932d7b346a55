-- ===== src/Protocol/Fields.antt =====
-- The field checks of bridge/deskhelm_protocol/model.py. A check returns the value, or says that
-- the frame breaks a rule; which rule, in words, is not kept.
use Prim.Native.String.{count}
use mathlib.Core.Bool.{not}
use deskhelm.Prelude.{
  ℕ, ◌*◌, string_eq, String, code, Bool, true, false, ◌&&◌, ◌||◌, List, [], ◌∷◌, Option, none, some,
  ltb, leb, eqb, all, contains, ◌≡◌, ◌⊎◌, inl, inr, refl, ◌==◌, if◌then◌else◌,
}
use deskhelm.Dict.{lookup, keys}
use deskhelm.Json.{Json, Object, pos, items, members}

-- `violation` is a raised `ProtocolViolation`.
pub data Result {ℓ} (A : Type ℓ) : Type ℓ where
  ok : A → Result A
  violation : Result A

module _ {ℓ κ} {A : Type ℓ} {B : Type κ} where
  infixl 5 ◌>>=◌
  -- What comes after a check; a violation ends the rest.
  abbrev pub ◌>>=◌ : Result A → (A → Result B) → Result B
  violation >>= next = violation
  ok value >>= next = next value

module _ {κ} {B : Type κ} where
  infixl 5 ◌>>◌
  abbrev pub ◌>>◌ : Result (Unit {0}) → Result B → Result B
  check >> rest = check >>= λ _. rest

abbrev pub require : Bool → Result (Unit {0})
require true = ok tt
require false = violation

abbrev pub found {ℓ} : {A : Type ℓ} → Option A → Result A
found none = violation
found (some a) = ok a

pub Result-cases {ℓ} : {A : Type ℓ} (m : Result A) → (m ≡ violation) ⊎ ((a : A) × (m ≡ ok a))
Result-cases (ok a) = inr (a, refl)
Result-cases violation = inl refl

-- value.get(name) and value.get(name, default)
unfoldable pub get_or : Object → String → Json → Json
unfolding lookup
get_or o name default = elim (lookup name o) [ none ↦ default | some v ↦ v ]

unfoldable pub get : Object → String → Json
unfolding get_or
get o name = get_or o name Json.null

-- The characters that `str.strip` takes away.
unfoldable pub is_space : ℕ → Bool
is_space n =
    (leb 9 n && leb n 13)
    || (leb 28 n && leb n 32)
    || eqb n 133
    || eqb n 160
    || eqb n 5760
    || (leb 8192 n && leb n 8202)
    || eqb n 8232
    || eqb n 8233
    || eqb n 8239
    || eqb n 8287
    || eqb n 12288

unfoldable pub lstrip : String → String
unfolding is_space
lstrip String.[] = ""
lstrip (String.◌∷◌ c s) = let rest = lstrip s in if is_space (code c) then rest else String.◌∷◌ c s

unfoldable pub rstrip : String → String
unfolding is_space
rstrip String.[] = ""
rstrip (String.◌∷◌ c s) =
    let rest = rstrip s in if is_space (code c) && rest == "" then "" else String.◌∷◌ c rest

unfoldable pub strip : String → String
unfolding lstrip rstrip
strip s = rstrip (lstrip s)

unfoldable pub has_control : String → Bool
has_control String.[] = false
has_control (String.◌∷◌ c s) = ltb (code c) 32 || has_control s

abbrev pub max_identity_chars : ℕ
max_identity_chars = 256

abbrev pub max_label_chars : ℕ
max_label_chars = 128

abbrev pub max_summary_chars : ℕ
max_summary_chars = 512

abbrev pub max_text_chars : ℕ
max_text_chars = 64 * 1024

unfoldable pub text_within : String → ℕ → Bool → Result String
text_within s limit allow_empty =
    if ltb limit (count s)
    then violation
    else if not allow_empty && strip s == ""
    then violation
    else ok s

unfoldable pub text_field : Json → ℕ → Bool → Result String
unfolding text_within
text_field (Json.str s) limit allow_empty = text_within s limit allow_empty
text_field _ limit allow_empty = violation

unfoldable pub identity_field : Json → Result String
unfolding text_field has_control
identity_field value = do
  text ← text_field value max_identity_chars false
  if not (text == strip text) || has_control text then violation else ok text

-- A Boolean is no integer.
unfoldable pub int_field : Json → ℕ → Result ℕ
int_field (Json.int (pos n)) minimum = if ltb n minimum then violation else ok n
int_field _ minimum = violation

unfoldable pub bool_field : Json → Result Bool
bool_field (Json.bool b) = ok b
bool_field _ = violation

unfoldable pub object_field : Json → Result Object
unfolding members
object_field (Json.obj ms) = ok (members ms)
object_field _ = violation

-- `isinstance(value, list)`
unfoldable pub list_field : Json → Result (List Json)
unfolding items
list_field (Json.arr xs) = ok (items xs)
list_field _ = violation

-- `enum(value)`, over the table of the enum's values.
unfoldable pub enum_field {ℓ} : {A : Type ℓ} → List (String × A) → Json → Result A
unfolding lookup
enum_field table (Json.str s) = found (lookup s table)
enum_field table _ = violation

-- `[check(item) for item in value]`
unfoldable pub check_all {ℓ κ} :
    {A : Type ℓ} {B : Type κ} → (A → Result B) → List A → Result (List B)
check_all check [] = ok []
check_all check (x ∷ xs) = do y ← check x; ys ← check_all check xs; ok (y ∷ ys)

-- `set(payload) == names`
unfoldable pub has_exactly : List String → Object → Bool
unfolding contains all
has_exactly names o = all (contains names) (keys o) && all (contains (keys o)) names

-- `None`, or a checked identity, under a name that may be missing.
unfoldable pub optional_identity : Object → String → Result (Option String)
unfolding get identity_field
optional_identity o name = elim (get o name) [
  | Json.null ↦ ok none
  | v ↦ do s ← identity_field v; ok (some s)
]
