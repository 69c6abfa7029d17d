-- ===== src/Api/Json.antt =====
-- The values of the standard library's `json`, and `json.dumps` with `ensure_ascii=False` and the
-- separators "," and ":", as src/solort/api/streaming.py calls it. A float is the text of its number.
pub mod Scan
pub mod Loads
use solo_rt.Prelude.{
  ℕ, ◌+◌, ◌-◌, ◌/◌, ◌%◌, Bool, true, false, ◌||◌, Option, none, some, List, [], ◌∷◌, ◌++◌,
  if◌then◌else◌, ltb, ◌==◌, ℤ, pos, negsuc,
}
use solo_rt.Prelude.{String}
use solo_rt.Cache.BlockHash.{Text, decimal}
pub use solo_rt.Cache.BlockHash.{codes}
use solo_rt.Cache.PrefixCache.{same_list}

mutual
  pub data Json : Type 0 where
    null : Json
    bool : Bool → Json
    int : ℤ → Json
    float : Text → Json
    str : Text → Json
    array : Items → Json
    object : Fields → Json

  pub data Items : Type 0 where
    no_items : Items
    item : Json → Items → Items

  pub data Fields : Type 0 where
    no_fields : Fields
    field : Text → Json → Fields → Fields

abbrev pub quote : ℕ
quote = 34

abbrev pub backslash : ℕ
backslash = 92

-- A hexadecimal digit in lower case.
abbrev pub hex_digit : ℕ → ℕ
hex_digit d = if ltb d 10 then d + 48 else d + 87

-- The escapes of one code point: those of two characters, and "\u00xx" for the other controls.
unfoldable pub escape_char : ℕ → Text
escape_char c =
    if c == quote
    then backslash ∷ quote ∷ []
    else if c == backslash
    then backslash ∷ backslash ∷ []
    else if c == 10
    then backslash ∷ b'n' ∷ []
    else if c == 13
    then backslash ∷ b'r' ∷ []
    else if c == 9
    then backslash ∷ b't' ∷ []
    else if c == 12
    then backslash ∷ b'f' ∷ []
    else if c == 8
    then backslash ∷ b'b' ∷ []
    else if ltb c 32
    then backslash ∷ b'u' ∷ 48 ∷ 48 ∷ hex_digit (c / 16) ∷ hex_digit (c % 16) ∷ []
    else c ∷ []

unfoldable pub escape : Text → Text
unfolding escape_char
escape [] = []
escape (c ∷ cs) = escape_char c ++ escape cs

unfoldable pub dump_string : Text → Text
unfolding escape
dump_string t = quote ∷ escape t ++ quote ∷ []

unfoldable pub dump_int : ℤ → Text
unfolding decimal
dump_int (pos n) = decimal n
dump_int (negsuc n) = b'-' ∷ decimal (n + 1)

-- The separator before an item that is not the first.
abbrev pub separator : Bool → Text
separator first = if first then [] else b',' ∷ []

unfoldable mutual
  unfolding dump_string dump_int

  pub dumps : Json → Text
  dumps null = b'n' ∷ b'u' ∷ b'l' ∷ b'l' ∷ []
  dumps (bool true) = b't' ∷ b'r' ∷ b'u' ∷ b'e' ∷ []
  dumps (bool false) = b'f' ∷ b'a' ∷ b'l' ∷ b's' ∷ b'e' ∷ []
  dumps (int n) = dump_int n
  dumps (float t) = t
  dumps (str t) = dump_string t
  dumps (array items) = b'[' ∷ dump_items true items
  dumps (object pairs) = b'{' ∷ dump_fields true pairs

  pub dump_items : Bool → Items → Text
  dump_items first no_items = b']' ∷ []
  dump_items first (item v items) = separator first ++ (dumps v ++ dump_items false items)

  pub dump_fields : Bool → Fields → Text
  dump_fields first no_fields = b'}' ∷ []
  dump_fields first (field k v pairs) =
      separator first ++ (dump_string k ++ b':' ∷ (dumps v ++ dump_fields false pairs))

-- `d.get(key)` of the dict that the pairs make: the last one counts.
unfoldable pub get_field : Text → Fields → Option Json
unfolding same_list
get_field key no_fields = none
get_field key (field k v pairs) = elim (get_field key pairs) [
  | some later ↦ some later
  | none ↦ if same_list k key then some v else none
]
