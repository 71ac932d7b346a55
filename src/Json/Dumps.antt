-- ===== src/Json/Dumps.antt =====
-- `json.dumps` of Python's standard library, as far as the program calls it.
use Prim.Native.String.{◌++◌, compare}
use text.Mathlib.Text.{is_le}
use deskhelm.Prelude.{
  ℕ, zero, suc, ◌+◌, ◌-◌, ◌/◌, ◌%◌, String, Char, code, Bool, ◌&&◌, ◌||◌, true, false, ltb, leb,
  eqb, if◌then◌else◌,
}
use deskhelm.Json.{ℤ, Json, Items, Members, pos, negsuc}

digit : ℕ → String
digit d =
    if eqb d 0
    then "0"
    else if eqb d 1
    then "1"
    else if eqb d 2
    then "2"
    else if eqb d 3
    then "3"
    else if eqb d 4
    then "4"
    else if eqb d 5
    then "5"
    else if eqb d 6
    then "6"
    else if eqb d 7
    then "7"
    else if eqb d 8
    then "8"
    else if eqb d 9
    then "9"
    else if eqb d 10
    then "a"
    else if eqb d 11
    then "b"
    else if eqb d 12
    then "c"
    else if eqb d 13
    then "d"
    else if eqb d 14
    then "e"
    else "f"

-- Fuel `n + 1` is enough: each round divides by ten.
decimal_loop : ℕ → ℕ → String → String
unfolding digit
decimal_loop zero n acc = acc
decimal_loop (suc fuel) n acc =
    let rest = decimal_loop fuel (n / 10) (digit (n % 10) ++ acc) in
    if ltb n 10 then digit n ++ acc else rest

-- `str(n)`
unfoldable pub decimal : ℕ → String
unfolding decimal_loop
decimal n = decimal_loop (suc n) n ""

integer : ℤ → String
unfolding decimal
integer (pos n) = decimal n
integer (negsuc n) = "-" ++ decimal (suc n)

hex4 : ℕ → String
unfolding digit
hex4 n =
    "\\u" ++ digit (n / 4096 % 16) ++ digit (n / 256 % 16) ++ digit (n / 16 % 16) ++ digit (n % 16)

-- `ascii` is `ensure_ascii`: a character outside the basic plane is a surrogate pair.
escape_char : Bool → Char → String
unfolding hex4
escape_char ascii c =
    let n = code c in
    if eqb n 34
    then "\\\""
    else if eqb n 92
    then "\\\\"
    else if eqb n 10
    then "\\n"
    else if eqb n 13
    then "\\r"
    else if eqb n 9
    then "\\t"
    else if eqb n 8
    then "\\b"
    else if eqb n 12
    then "\\f"
    else if ltb n 32 || (ascii && ltb 126 n && ltb n 65536)
    then hex4 n
    else if ascii && leb 65536 n
    then hex4 (55296 + (n - 65536) / 1024) ++ hex4 (56320 + (n - 65536) % 1024)
    else String.◌∷◌ c String.[]

escape : Bool → String → String
unfolding escape_char
escape ascii String.[] = ""
escape ascii (String.◌∷◌ c s) = escape_char ascii c ++ escape ascii s

quoted : Bool → String → String
unfolding escape
quoted ascii s = "\"" ++ escape ascii s ++ "\""

pub record Style : Type 0 where
  pub ascii : Bool
  pub item_separator : String
  pub key_separator : String

unfoldable mutual
  unfolding integer quoted

  pub dumps : Style → Json → String
  dumps style Json.null = "null"
  dumps style (Json.bool true) = "true"
  dumps style (Json.bool false) = "false"
  dumps style (Json.int z) = integer z
  dumps style (Json.real s) = s
  dumps style (Json.str s) = quoted style.ascii s
  dumps style (Json.arr xs) = "[" ++ dumps_items style xs ++ "]"
  dumps style (Json.obj ms) = "{" ++ dumps_members style ms ++ "}"

  dumps_items : Style → Items → String
  dumps_items style Items.nil = ""
  dumps_items style (Items.cons x Items.nil) = dumps style x
  dumps_items style (Items.cons x xs) =
      dumps style x ++ style.item_separator ++ dumps_items style xs

  dumps_members : Style → Members → String
  dumps_members style Members.end = ""
  dumps_members style (Members.member k v Members.end) =
      quoted style.ascii k ++ style.key_separator ++ dumps style v
  dumps_members style (Members.member k v ms) =
      quoted style.ascii k
      ++ style.key_separator
      ++ dumps style v
      ++ style.item_separator
      ++ dumps_members style ms

-- The default separators, with and without `ensure_ascii`, and the compact ones.
abbrev pub plain : Style
plain = record { ascii = false; item_separator = ", "; key_separator = ": " }

abbrev pub plain_ascii : Style
plain_ascii = record { ascii = true; item_separator = ", "; key_separator = ": " }

abbrev pub compact : Style
compact = record { ascii = true; item_separator = ","; key_separator = ":" }

-- `sort_keys=True`: keys in the order of their code points, inside nested objects too.
insert_member : String → Json → Members → Members
insert_member k v Members.end = Members.member k v Members.end
insert_member k v (Members.member j w ms) =
    let rest = insert_member k v ms in
    if is_le (compare k j)
    then Members.member k v (Members.member j w ms)
    else Members.member j w rest

unfoldable mutual
  unfolding insert_member

  pub sort_keys : Json → Json
  sort_keys Json.null = Json.null
  sort_keys (Json.bool b) = Json.bool b
  sort_keys (Json.int z) = Json.int z
  sort_keys (Json.real s) = Json.real s
  sort_keys (Json.str s) = Json.str s
  sort_keys (Json.arr xs) = Json.arr (sort_items xs)
  sort_keys (Json.obj ms) = Json.obj (sort_members ms)

  sort_items : Items → Items
  sort_items Items.nil = Items.nil
  sort_items (Items.cons x xs) = Items.cons (sort_keys x) (sort_items xs)

  sort_members : Members → Members
  sort_members Members.end = Members.end
  sort_members (Members.member k v ms) = insert_member k (sort_keys v) (sort_members ms)
