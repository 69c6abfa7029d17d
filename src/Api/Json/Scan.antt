-- ===== src/Api/Json/Scan.antt =====
-- How `json.loads` reads a string and a number.
pub mod Strings
pub mod Numbers
use solo_rt.Prelude.{
  ℕ, zero, suc, ◌+◌, ◌-◌, ◌*◌, Bool, true, false, ◌&&◌, ◌||◌, Option, none, some, List, [], ◌∷◌,
  ◌++◌, if◌then◌else◌, ltb, leb, ◌==◌, ℤ, pos, negsuc, Result, ok, err, value_error,
}
use solo_rt.Prelude.Errors.{◌>>=◌}
use solo_rt.Cache.BlockHash.{Text}
use solo_rt.Api.Json.{Json, int, float, quote, backslash}

-- A character of a string literal, and whether it was written as "\uXXXX".
abbrev pub Unit16 : Type 0
Unit16 = Bool × ℕ

pub hex_value : ℕ → Option ℕ
hex_value c =
    if leb 48 c && leb c 57
    then some (c - 48)
    else if leb b'a' c && leb c b'f'
    then some (c - 87)
    else if leb b'A' c && leb c b'F'
    then some (c - 55)
    else none

-- The character that an escape of two characters stands for.
pub simple_escape : ℕ → Option ℕ
simple_escape c =
    if c == quote
    then some quote
    else if c == backslash
    then some backslash
    else if c == b'/'
    then some b'/'
    else if c == b'b'
    then some 8
    else if c == b'f'
    then some 12
    else if c == b'n'
    then some 10
    else if c == b'r'
    then some 13
    else if c == b't'
    then some 9
    else none

-- Where the scanner stands: in the text, behind a backslash, or before the last k digits of an
-- escape.
pub data Mode : Type 0 where
  plain : Mode
  escaped : Mode
  digits : ℕ → ℕ → Mode

abbrev push : Unit16 → Result (List Unit16 × Text) → Result (List Unit16 × Text)
push u r = r >>= λ (units, rest). ok (u ∷ units, rest)

-- The text after the opening quote, up to the closing one.
unfoldable pub scan_units : Mode → Text → Result (List Unit16 × Text)
unfolding hex_value simple_escape
scan_units mode [] = err value_error
scan_units plain (c ∷ cs) =
    let next = scan_units escaped cs in
    let more = push (false, c) (scan_units plain cs) in
    if c == quote
    then ok ([], cs)
    else if c == backslash
    then next
    else if ltb c 32
    then err value_error
    else more
scan_units escaped (c ∷ cs) =
    let unicode = scan_units (digits 3 0) cs in
    let more = scan_units plain cs in
    if c == b'u'
    then unicode
    else elim (simple_escape c) [ none ↦ err value_error | some d ↦ push (false, d) more ]
scan_units (digits k n) (c ∷ cs) = elim (hex_value c) [
  | none ↦ err value_error
  | some d ↦ elim k [
    | zero ↦ push (true, 16 * n + d) (scan_units plain cs)
    | suc j ↦ scan_units (digits j (16 * n + d)) cs
  ]
]

pub is_high : Unit16 → Bool
is_high (wide, c) = wide && leb 55296 c && leb c 56319

pub is_low : Unit16 → Bool
is_low (wide, c) = wide && leb 56320 c && leb c 57343

-- A high surrogate and the low one after it are one character.
pub joined : Unit16 → List Unit16 → Text → Text → Text
unfolding is_high is_low
joined u [] tail rest = u.1 ∷ tail
joined u (v ∷ vs) tail rest =
    if is_high u && is_low v
    then (65536 + 1024 * (u.1 - 55296) + (v.1 - 56320)) ∷ rest
    else u.1 ∷ tail

pub combine : List Unit16 → Text
unfolding joined
combine [] = []
combine (u ∷ []) = u.1 ∷ []
combine (u ∷ v ∷ vs) = joined u (v ∷ vs) (combine (v ∷ vs)) (combine vs)

unfoldable pub scan_string : Text → Result (Text × Text)
unfolding scan_units combine
scan_string t = scan_units plain t >>= λ (units, rest). ok (combine units, rest)

unfoldable pub is_digit : ℕ → Bool
is_digit c = leb 48 c && leb c 57

-- The digits at the front, and what follows.
unfoldable pub span_digits : Text → Text × Text
unfolding is_digit
span_digits [] = ([], [])
span_digits (c ∷ cs) =
    let (front, rest) = span_digits cs in if is_digit c then (c ∷ front, rest) else ([], c ∷ cs)

-- `0|[1-9]\d*`
unfoldable pub integer_part : Text → Option (Text × Text)
unfolding span_digits is_digit
integer_part [] = none
integer_part (c ∷ cs) =
    let (front, rest) = span_digits cs in
    if c == 48 then some (c ∷ [], cs) else if is_digit c then some (c ∷ front, rest) else none

-- `(\.\d+)?`
unfoldable pub fraction_part : Text → Text × Text
unfolding span_digits
fraction_part [] = ([], [])
fraction_part (c ∷ cs) =
    let (front, rest) = span_digits cs in
    if c == b'.'
    then (elim front [ [] ↦ ([], c ∷ cs) | d ∷ ds ↦ (c ∷ d ∷ ds, rest) ])
    else ([], c ∷ cs)

abbrev behind : Text → Text → Text × Text → Text × Text
behind sign whole ([], rest) = ([], whole)
behind sign whole (d ∷ ds, rest) = (sign ++ d ∷ ds, rest)

-- `[-+]?\d+` behind the letter of an exponent; the whole text is given back where there is none.
unfoldable pub exponent_digits : ℕ → Text → Text × Text
unfolding span_digits
exponent_digits e [] = ([], e ∷ [])
exponent_digits e (c ∷ cs) =
    if (c == b'-') || (c == b'+')
    then behind (e ∷ c ∷ []) (e ∷ c ∷ cs) (span_digits cs)
    else behind (e ∷ []) (e ∷ c ∷ cs) (span_digits (c ∷ cs))

-- `([eE][-+]?\d+)?`
unfoldable pub exponent_part : Text → Text × Text
unfolding exponent_digits
exponent_part [] = ([], [])
exponent_part (c ∷ cs) = if (c == b'e') || (c == b'E') then exponent_digits c cs else ([], c ∷ cs)

-- The number that the digits write, behind what is read.
unfoldable pub number_of : ℕ → Text → ℕ
number_of n [] = n
number_of n (c ∷ cs) = number_of (10 * n + (c - 48)) cs

abbrev signed : Bool → ℕ → ℤ
signed false n = pos n
signed true n = if n == 0 then pos 0 else negsuc (n - 1)

abbrev sign_text : Bool → Text
sign_text negative = if negative then b'-' ∷ [] else []

abbrev number_value : Bool → Text → Text → Text → Json
number_value negative whole [] [] = int (signed negative (number_of 0 whole))
number_value negative whole fraction exponent =
    float (sign_text negative ++ (whole ++ (fraction ++ exponent)))

-- A number behind its sign.
unfoldable pub scan_number : Bool → Text → Result (Json × Text)
unfolding integer_part fraction_part exponent_part number_of
scan_number negative t = elim (integer_part t) [
  | none ↦ err value_error
  | some (whole, t1) ↦
      let (fraction, t2) = fraction_part t1 in
      let (exponent, t3) = exponent_part t2 in
      ok (number_value negative whole fraction exponent, t3)
]
