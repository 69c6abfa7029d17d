-- ===== src/Api/Json/Loads/RoundTrip.antt =====
-- What `dumps` writes, `loads` reads back.
use solo_rt.Prelude.{
  ℕ, zero, suc, ◌+◌, ◌*◌, ◌<◌, ◌≤◌, ◌≡◌, refl, sym, ap, subst, ◌∙◌, Bool, true, false, [], ◌∷◌,
  ◌++◌, append_assoc, append-nil, ◌==◌, length, length-append, ℤ, pos, negsuc, Result, ok, arith,
}
use solo_rt.Prelude.Errors.{◌>>=◌}
use solo_rt.Cache.BlockHash.{Text, decimal}
use solo_rt.Api.Json.{
  Json, null, bool, int, float, str, array, object, Items, no_items, item, Fields, no_fields, field,
  quote, separator, dump_string, dump_int, dumps, dump_items, dump_fields,
}
use solo_rt.Api.Json.Scan.{is_digit, scan_number}
use solo_rt.Api.Json.Scan.Strings.{dump_string_split, scan_string_lem}
use solo_rt.Api.Json.Scan.Numbers.{stops, scan_number-decimal, decimal-starts}
use solo_rt.Api.Json.Loads.{
  is_blank, skip_blanks, literal, starts, expect_comma, parse_atom, expect_colon, parse_key,
  parse_value, parse_items, parse_fields, loads,
}

-- No float stands in the value.
unfoldable mutual
  pub IsExact : Json → Type 0
  IsExact null = Unit {0}
  IsExact (bool b) = Unit {0}
  IsExact (int n) = Unit {0}
  IsExact (float t) = ⊥
  IsExact (str t) = Unit {0}
  IsExact (array items) = AreExact items
  IsExact (object pairs) = HasExact pairs

  pub AreExact : Items → Type 0
  AreExact no_items = Unit {0}
  AreExact (item v items) = IsExact v × AreExact items

  pub HasExact : Fields → Type 0
  HasExact no_fields = Unit {0}
  HasExact (field k v pairs) = IsExact v × HasExact pairs

-- A first character that no blank, bracket, brace or comma is.
abbrev IsHead : Text → Type 0
IsHead [] = ⊥
IsHead (c ∷ cs) = (is_blank c ≡ false) × ((c == b']') ≡ false)

IsHead-digit : (c : ℕ) (cs : Text) → is_digit c ≡ true → IsHead (c ∷ cs)
unfolding is_digit is_blank
IsHead-digit c cs h = (ground arith, ground arith)

dumps-IsHead : (v : Json) (rest : Text) → IsExact v → IsHead (dumps v ++ rest)
unfolding dumps is_blank IsExact
dumps-IsHead null rest h = (refl, refl)
dumps-IsHead (bool true) rest h = (refl, refl)
dumps-IsHead (bool false) rest h = (refl, refl)
dumps-IsHead (int (pos n)) rest h =
    let (c, cs, same, digit) = decimal-starts n in
    subst (λ t. IsHead (t ++ rest)) (sym same) (IsHead-digit c (cs ++ rest) digit)
dumps-IsHead (int (negsuc n)) rest h = (refl, refl)
dumps-IsHead (float t) rest h = elim h [ ]
dumps-IsHead (str t) rest h = (refl, refl)
dumps-IsHead (array items) rest h = (refl, refl)
dumps-IsHead (object pairs) rest h = (refl, refl)

skip-head : (t : Text) → IsHead t → skip_blanks t ≡ t
unfolding skip_blanks
skip-head [] h = elim h [ ]
skip-head (c ∷ cs) h = rw h.0 refl

starts-head : (t : Text) → IsHead t → starts b']' t ≡ false
unfolding starts
starts-head [] h = elim h [ ]
starts-head (c ∷ cs) h = h.1

parse_atom-digit :
    (c : ℕ) (cs : Text) → is_digit c ≡ true → parse_atom c cs ≡ scan_number false (c ∷ cs)
unfolding parse_atom is_digit
parse_atom-digit c cs h = ground arith

parse_atom-minus : (cs : Text) → starts b'I' cs ≡ false → parse_atom b'-' cs ≡ scan_number true cs
unfolding parse_atom
parse_atom-minus cs h = rw h refl

parse_value-atom :
    (fuel c : ℕ) (cs : Text)
    → (c == quote) ≡ false
    → (c == b'[') ≡ false
    → (c == b'{') ≡ false
    → parse_value (suc fuel) (c ∷ cs) ≡ parse_atom c cs
unfolding parse_value
parse_value-atom fuel c cs p q r = rw (p, q, r) refl

parse_value-int :
    (fuel : ℕ) (n : ℤ) (rest : Text)
    → stops rest ≡ true
    → parse_value (suc fuel) (dump_int n ++ rest) ≡ ok (int n, rest)
unfolding dump_int
parse_value-int fuel (pos n) rest s =
    let (c, cs, same, digit) = decimal-starts n in
    let step : parse_value (suc fuel) ((c ∷ cs) ++ rest) ≡ scan_number false ((c ∷ cs) ++ rest) =
      parse_value-atom fuel c (cs ++ rest) (unfold is_digit in ground (arith, digit))
        (unfold is_digit in ground (arith, digit)) (unfold is_digit in ground (arith, digit))
      ∙ parse_atom-digit c (cs ++ rest) digit in
    subst (λ t. parse_value (suc fuel) (t ++ rest) ≡ scan_number false (t ++ rest)) (sym same) step
    ∙ scan_number-decimal false n rest s
parse_value-int fuel (negsuc n) rest s =
    let (c, cs, same, digit) = decimal-starts (n + 1) in
    let other : starts b'I' (decimal (n + 1) ++ rest) ≡ false =
      subst (λ t. starts b'I' (t ++ rest) ≡ false) (sym same)
        (unfold starts is_digit in ground (arith, digit)) in
    parse_value-atom fuel b'-' (decimal (n + 1) ++ rest) refl refl refl
    ∙ parse_atom-minus (decimal (n + 1) ++ rest) other
    ∙ scan_number-decimal true (n + 1) rest s
    ∙ ground arith

expect_comma_lem :
    (first : Bool) (t : Text) → IsHead t → expect_comma first (separator first ++ t) ≡ ok t
unfolding expect_comma starts
expect_comma_lem true t h = refl
expect_comma_lem false t h = ap ok (skip-head t h)

starts-separator : (first : Bool) (t : Text) → IsHead t → starts b']' (separator first ++ t) ≡ false
unfolding starts
starts-separator true t h = starts-head t h
starts-separator false t h = refl

items_step :
    (fuel : ℕ) (first : Bool) (v : Json) (t : Text) (items : Items) (rest : Text)
    → IsHead (dumps v ++ t)
    → parse_value fuel (dumps v ++ t) ≡ ok (v, t)
    → parse_items fuel false (skip_blanks t) ≡ ok (items, rest)
    → parse_items (suc fuel) first (separator first ++ (dumps v ++ t)) ≡ ok (item v items, rest)
unfolding parse_items
items_step fuel first v t items rest head read more =
    rw
      (
        starts-separator first (dumps v ++ t) head,
        expect_comma_lem first (dumps v ++ t) head,
        read,
        more,
      )
      refl

parse_key_lem : (k t : Text) → IsHead t → parse_key (dump_string k ++ b':' ∷ t) ≡ ok (k, t)
unfolding parse_key starts expect_colon skip_blanks is_blank
parse_key_lem k t h =
    ap parse_key (dump_string_split k (b':' ∷ t))
    ∙ rw (scan_string_lem k (b':' ∷ t)) (ap (λ l. ok (k, l)) (skip-head t h))

key-IsHead : (k t : Text) → IsHead (dump_string k ++ t)
unfolding dump_string is_blank
key-IsHead k t = (refl, refl)

starts_key :
    (first : Bool) (k t : Text) → starts b'}' (separator first ++ (dump_string k ++ t)) ≡ false
unfolding starts dump_string
starts_key true k t = refl
starts_key false k t = refl

fields_step :
    (fuel : ℕ) (first : Bool) (k : Text) (v : Json) (t : Text) (pairs : Fields) (rest : Text)
    → IsHead (dumps v ++ t)
    → parse_value fuel (dumps v ++ t) ≡ ok (v, t)
    → parse_fields fuel false (skip_blanks t) ≡ ok (pairs, rest)
    → parse_fields (suc fuel) first (separator first ++ (dump_string k ++ b':' ∷ (dumps v ++ t)))
      ≡ ok (field k v pairs, rest)
unfolding parse_fields
fields_step fuel first k v t pairs rest head read more =
    let text = dump_string k ++ b':' ∷ (dumps v ++ t) in
    rw
      (
        starts_key first k (b':' ∷ (dumps v ++ t)),
        expect_comma_lem first text (key-IsHead k (b':' ∷ (dumps v ++ t))),
        parse_key_lem k (dumps v ++ t) head,
        read,
        more,
      )
      refl

skip-items :
    (items : Items) (rest : Text)
    → skip_blanks (dump_items false items ++ rest) ≡ dump_items false items ++ rest
unfolding skip_blanks dump_items is_blank
skip-items no_items rest = refl
skip-items (item v items) rest = refl

skip-fields :
    (pairs : Fields) (rest : Text)
    → skip_blanks (dump_fields false pairs ++ rest) ≡ dump_fields false pairs ++ rest
unfolding skip_blanks dump_fields is_blank
skip-fields no_fields rest = refl
skip-fields (field k v pairs) rest = refl

stops-items : (items : Items) (rest : Text) → stops (dump_items false items ++ rest) ≡ true
unfolding stops dump_items is_digit
stops-items no_items rest = refl
stops-items (item v items) rest = refl

stops-fields : (pairs : Fields) (rest : Text) → stops (dump_fields false pairs ++ rest) ≡ true
unfolding stops dump_fields is_digit
stops-fields no_fields rest = refl
stops-fields (field k v pairs) rest = refl

skip-first_items :
    (items : Items) (rest : Text)
    → AreExact items
    → skip_blanks (dump_items true items ++ rest) ≡ dump_items true items ++ rest
unfolding skip_blanks dump_items is_blank AreExact
skip-first_items no_items rest h = refl
skip-first_items (item v items) rest h =
    ap skip_blanks (append_assoc (dumps v) (dump_items false items) rest)
    ∙ skip-head (dumps v ++ (dump_items false items ++ rest))
        (dumps-IsHead v (dump_items false items ++ rest) h.0)
    ∙ sym (append_assoc (dumps v) (dump_items false items) rest)

skip-first_fields :
    (pairs : Fields) (rest : Text)
    → skip_blanks (dump_fields true pairs ++ rest) ≡ dump_fields true pairs ++ rest
unfolding skip_blanks dump_fields is_blank dump_string
skip-first_fields no_fields rest = refl
skip-first_fields (field k v pairs) rest = refl

length-dumps : (v : Json) → IsExact v → 0 < length (dumps v)
length-dumps v h =
    some_character (dumps v) (subst IsHead (append-nil (dumps v)) (dumps-IsHead v [] h))
  where
    some_character : (t : Text) → IsHead t → 0 < length t
    some_character [] k = elim k [ ]
    some_character (c ∷ cs) k = omega arith

item_text :
    (first : Bool) (v : Json) (items : Items) (rest : Text)
    → dump_items first (item v items) ++ rest
      ≡ separator first ++ (dumps v ++ (dump_items false items ++ rest))
unfolding dump_items
item_text first v items rest = simp (append_assoc)

field_text :
    (first : Bool) (k : Text) (v : Json) (pairs : Fields) (rest : Text)
    → dump_fields first (field k v pairs) ++ rest
      ≡ separator first ++ (dump_string k ++ b':' ∷ (dumps v ++ (dump_fields false pairs ++ rest)))
unfolding dump_fields
field_text first k v pairs rest = simp (append_assoc)

some_items : (items : Items) → 0 < length (dump_items false items)
unfolding dump_items
some_items no_items = omega arith
some_items (item v items) = omega arith

some_fields : (pairs : Fields) → 0 < length (dump_fields false pairs)
unfolding dump_fields
some_fields no_fields = omega arith
some_fields (field k v pairs) = omega arith

length-item :
    (first : Bool) (v : Json) (items : Items)
    → length (dumps v) + length (dump_items false items) ≤ length (dump_items first (item v items))
unfolding dump_items
length-item first v items = omega (
  arith,
  length-append (separator first) (dumps v ++ dump_items false items),
  length-append (dumps v) (dump_items false items),
)

length-field :
    (first : Bool) (k : Text) (v : Json) (pairs : Fields)
    → length (dumps v) + length (dump_fields false pairs)
      ≤ length (dump_fields first (field k v pairs))
unfolding dump_fields
length-field first k v pairs =
    let tail = dumps v ++ dump_fields false pairs in
    omega (
      arith,
      length-append (separator first) (dump_string k ++ b':' ∷ tail),
      length-append (dump_string k) (b':' ∷ tail),
      length-append (dumps v) (dump_fields false pairs),
    )

mutual
  unfolding dumps parse_value parse_items parse_fields IsExact parse_atom literal starts

  value_reads :
      (v : Json) (rest : Text) (fuel : ℕ)
      → IsExact v
      → stops rest ≡ true
      → 2 * length (dumps v) < fuel
      → parse_value fuel (dumps v ++ rest) ≡ ok (v, rest)
  value_reads v rest zero h s lt = absurd (omega arith)
  value_reads null rest (suc fuel) h s lt = refl
  value_reads (bool true) rest (suc fuel) h s lt = refl
  value_reads (bool false) rest (suc fuel) h s lt = refl
  value_reads (int n) rest (suc fuel) h s lt = parse_value-int fuel n rest s
  value_reads (float t) rest (suc fuel) h s lt = elim h [ ]
  value_reads (str t) rest (suc fuel) h s lt =
      ap (parse_value (suc fuel)) (dump_string_split t rest)
      ∙ ap (λ (r : Result (Text × Text)). r >>= λ (t, rest). ok (str t, rest))
          (scan_string_lem t rest)
  value_reads (array items) rest (suc fuel) h s lt =
      rw (skip-first_items items rest h, items_reads items true rest fuel h (omega (arith, lt)))
        refl
  value_reads (object pairs) rest (suc fuel) h s lt =
      rw (skip-first_fields pairs rest, fields_reads pairs true rest fuel h (omega (arith, lt)))
        refl

  items_reads :
      (items : Items) (first : Bool) (rest : Text) (fuel : ℕ)
      → AreExact items
      → 2 * length (dump_items first items) + 1 ≤ fuel
      → parse_items fuel first (dump_items first items ++ rest) ≡ ok (items, rest)
  items_reads items first rest zero h lt = absurd (omega arith)
  items_reads no_items first rest (suc fuel) h lt = refl
  items_reads (item v items) first rest (suc fuel) h lt =
      let t = dump_items false items ++ rest in
      let head = dumps-IsHead v t h.0 in
      let long : 0 < length (dumps v) = length-dumps v h.0 in
      let size = length-item first v items in
      let more = items_reads items false rest fuel h.1 (omega (arith, lt, long, size)) in
      ap (parse_items (suc fuel) first) (item_text first v items rest)
      ∙ items_step fuel first v t items rest head
          (value_reads v t fuel h.0 (stops-items items rest)
            (omega (arith, lt, size, some_items items)))
          (ap (parse_items fuel false) (skip-items items rest) ∙ more)

  fields_reads :
      (pairs : Fields) (first : Bool) (rest : Text) (fuel : ℕ)
      → HasExact pairs
      → 2 * length (dump_fields first pairs) + 1 ≤ fuel
      → parse_fields fuel first (dump_fields first pairs ++ rest) ≡ ok (pairs, rest)
  fields_reads pairs first rest zero h lt = absurd (omega arith)
  fields_reads no_fields first rest (suc fuel) h lt = refl
  fields_reads (field k v pairs) first rest (suc fuel) h lt =
      let t = dump_fields false pairs ++ rest in
      let head = dumps-IsHead v t h.0 in
      let long : 0 < length (dumps v) = length-dumps v h.0 in
      let size = length-field first k v pairs in
      let more = fields_reads pairs false rest fuel h.1 (omega (arith, lt, long, size)) in
      ap (parse_fields (suc fuel) first) (field_text first k v pairs rest)
      ∙ fields_step fuel first k v t pairs rest head
          (value_reads v t fuel h.0 (stops-fields pairs rest)
            (omega (arith, lt, size, some_fields pairs)))
          (ap (parse_fields fuel false) (skip-fields pairs rest) ∙ more)

-- Whatever the texts hold.
pub loads-dumps : (v : Json) → IsExact v → loads (dumps v) ≡ ok v
unfolding loads skip_blanks stops
loads-dumps v h =
    let blank : skip_blanks (dumps v) ≡ dumps v =
      skip-head (dumps v) (subst IsHead (append-nil (dumps v)) (dumps-IsHead v [] h)) in
    let read : parse_value (2 * length (dumps v) + 1) (dumps v) ≡ ok (v, []) =
      ap (parse_value (2 * length (dumps v) + 1)) (sym (append-nil (dumps v)))
      ∙ value_reads v [] (2 * length (dumps v) + 1) h refl (omega arith) in
    rw (blank, read) refl
