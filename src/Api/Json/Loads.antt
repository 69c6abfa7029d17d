-- ===== src/Api/Json/Loads.antt =====
-- `json.loads`: a value, and nothing but blanks around it.
pub mod RoundTrip
use solo_rt.Prelude.{
  ℕ, zero, suc, ◌+◌, ◌*◌, Bool, true, false, ◌||◌, Option, none, some, List, [], ◌∷◌, ◌++◌,
  if◌then◌else◌, ◌==◌, length, String, Result, ok, err, value_error,
}
use solo_rt.Prelude.Errors.{◌>>=◌}
use solo_rt.Cache.BlockHash.{Text}
use solo_rt.Api.Json.{
  Json, null, bool, float, str, array, object, Items, no_items, item, Fields, no_fields, field,
  codes, quote,
}
use solo_rt.Api.Json.Scan.{scan_string, scan_number}

unfoldable pub is_blank : ℕ → Bool
is_blank c = (c == 32) || (c == 9) || (c == 10) || (c == 13)

unfoldable pub skip_blanks : Text → Text
unfolding is_blank
skip_blanks [] = []
skip_blanks (c ∷ cs) = let rest = skip_blanks cs in if is_blank c then rest else c ∷ cs

-- The text behind a literal.
unfoldable pub behind_literal : Text → Text → Option Text
behind_literal [] t = some t
behind_literal (l ∷ ls) [] = none
behind_literal (l ∷ ls) (c ∷ cs) = let rest = behind_literal ls cs in if l == c then rest else none

unfoldable pub literal : Text → Json → Text → Result (Json × Text)
unfolding behind_literal
literal word value t = elim (behind_literal word t) [
  | none ↦ err value_error
  | some rest ↦ ok (value, rest)
]

unfoldable pub starts : ℕ → Text → Bool
starts c [] = false
starts c (d ∷ ds) = d == c

abbrev pub behind_first : Text → Text
behind_first [] = []
behind_first (c ∷ cs) = cs

-- The comma before an item that is not the first, and the blanks behind it.
unfoldable pub expect_comma : Bool → Text → Result Text
unfolding starts skip_blanks
expect_comma true t = ok t
expect_comma false t = if starts b',' t then ok (skip_blanks (behind_first t)) else err value_error

-- A value that neither is a string nor has parts.
unfoldable pub parse_atom : ℕ → Text → Result (Json × Text)
unfolding literal scan_number starts
parse_atom c cs =
    if c == b'n'
    then literal (codes "ull") null cs
    else if c == b't'
    then literal (codes "rue") (bool true) cs
    else if c == b'f'
    then literal (codes "alse") (bool false) cs
    else if c == b'N'
    then literal (codes "aN") (float (codes "NaN")) cs
    else if c == b'I'
    then literal (codes "nfinity") (float (codes "Infinity")) cs
    else if c == b'-'
    then (if starts b'I' cs
        then literal (codes "Infinity") (float (codes "-Infinity")) cs
        else scan_number true cs)
    else scan_number false (c ∷ cs)

-- The text behind the colon and its blanks.
unfoldable pub expect_colon : Text → Result Text
unfolding starts skip_blanks
expect_colon t =
    let next = skip_blanks t in
    if starts b':' next then ok (skip_blanks (behind_first next)) else err value_error

-- A key, and the text behind its colon.
unfoldable pub parse_key : Text → Result (Text × Text)
unfolding starts scan_string expect_colon
parse_key t =
    if starts quote t
    then (scan_string (behind_first t) >>= λ (k, t1). expect_colon t1 >>= λ t2. ok (k, t2))
    else err value_error

-- A call is made on a shorter text that is no part of it, so each costs a unit of fuel: a value or
-- an item takes a character at least, and two calls at most are made on each text.
unfoldable mutual
  unfolding scan_string parse_atom expect_comma parse_key

  pub parse_value : ℕ → Text → Result (Json × Text)
  parse_value zero t = err value_error
  parse_value (suc fuel) [] = err value_error
  parse_value (suc fuel) (c ∷ cs) =
      let text = scan_string cs >>= λ (t, rest). ok (str t, rest) in
      let list =
        parse_items fuel true (skip_blanks cs) >>= λ (items, rest). ok (array items, rest) in
      let dict =
        parse_fields fuel true (skip_blanks cs) >>= λ (pairs, rest). ok (object pairs, rest) in
      if c == quote
      then text
      else if c == b'['
      then list
      else if c == b'{'
      then dict
      else parse_atom c cs

  pub parse_items : ℕ → Bool → Text → Result (Items × Text)
  parse_items zero first t = err value_error
  parse_items (suc fuel) first t =
      let more = expect_comma first t >>= λ t1. parse_value fuel t1 >>= λ (v, t2).
      parse_items fuel false (skip_blanks t2) >>= λ (items, t3). ok (item v items, t3) in
      if starts b']' t then ok (no_items, behind_first t) else more

  pub parse_fields : ℕ → Bool → Text → Result (Fields × Text)
  parse_fields zero first t = err value_error
  parse_fields (suc fuel) first t =
      let more = expect_comma first t >>= λ t1. parse_key t1 >>= λ (k, t2).
      parse_value fuel t2 >>= λ (v, t3).
      parse_fields fuel false (skip_blanks t3) >>= λ (pairs, t4). ok (field k v pairs, t4) in
      if starts b'}' t then ok (no_fields, behind_first t) else more

abbrev pub whole : Json → Text → Result Json
whole v [] = ok v
whole v (c ∷ cs) = err value_error

unfoldable pub loads : Text → Result Json
unfolding parse_value skip_blanks
loads t = parse_value (2 * length t + 1) (skip_blanks t) >>= λ (v, rest). whole v (skip_blanks rest)
