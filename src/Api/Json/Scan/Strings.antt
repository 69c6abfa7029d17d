-- ===== src/Api/Json/Scan/Strings.antt =====
-- A dumped string is scanned back.
use solo_rt.Prelude.{
  ℕ, ◌+◌, ◌-◌, ◌*◌, ◌/◌, ◌%◌, ◌<◌, ◌≡◌, refl, sym, ap, ◌∙◌, inl, inr, true, false, not, ◌&&◌, ◌||◌,
  some, List, [], ◌∷◌, ◌++◌, append_assoc, map, ltb, ◌==◌, Result, ok, Bool-cases, ==_iff, ltb→lt,
  subst, arith,
}
use solo_rt.Prelude.Errors.{◌>>=◌}
use solo_rt.Cache.BlockHash.{Text}
use solo_rt.Api.Json.{quote, backslash, hex_digit, escape_char, escape, dump_string}
use solo_rt.Api.Json.Scan.{
  Unit16, plain, hex_value, simple_escape, scan_units, is_high, joined, combine, scan_string,
}

-- How the escape of a code point is scanned.
abbrev unit_of : ℕ → Unit16
unit_of c = (ltb c 32 && not ((c == 8) || (c == 9) || (c == 10) || (c == 12) || (c == 13)), c)

hex_value-hex_digit : (d : ℕ) → d < 16 → hex_value (hex_digit d) ≡ some d
unfolding hex_value
hex_value-hex_digit d h = ground arith

scan_wide :
    (c : ℕ) (rest : Text)
    → c < 32
    → scan_units plain (backslash ∷ b'u' ∷ 48 ∷ 48 ∷ hex_digit (c / 16) ∷ hex_digit (c % 16) ∷ rest)
      ≡ (scan_units plain rest >>= λ (units, after). ok ((true, c) ∷ units, after))
unfolding scan_units
scan_wide c rest h =
    let upper : hex_value (hex_digit (c / 16)) ≡ some (c / 16) =
      hex_value-hex_digit (c / 16) (omega arith) in
    let lower : hex_value (hex_digit (c % 16)) ≡ some (c % 16) =
      hex_value-hex_digit (c % 16) (omega arith) in
    let value : 16 * (16 * (16 * (16 * 0 + (48 - 48)) + (48 - 48)) + c / 16) + c % 16 ≡ c =
      omega arith in
    rw (scan_units, upper, lower, value) refl

abbrev ScansBack : ℕ → Text → Type 0
ScansBack c rest =
    scan_units plain (escape_char c ++ rest)
    ≡ (scan_units plain rest >>= λ (units, after). ok (unit_of c ∷ units, after))

-- None of the seven code points with an escape of their own.
abbrev IsOther : ℕ → Type 0
IsOther c =
    ((c == quote) ≡ false)
    × ((c == backslash) ≡ false)
    × ((c == 10) ≡ false)
    × ((c == 13) ≡ false)
    × ((c == 9) ≡ false)
    × ((c == 12) ≡ false)
    × ((c == 8) ≡ false)

scan_other : (c : ℕ) (rest : Text) → IsOther c → ScansBack c rest
unfolding scan_units escape_char
scan_other c rest (e1, e2, e3, e4, e5, e6, e7) = elim (Bool-cases (ltb c 32)) [
  | inl small ↦
      rw (escape_char, e1, e2, e3, e4, e5, e6, e7, small) (scan_wide c rest (ltb→lt c 32 small))
  | inr large ↦ rw (escape_char, e1, e2, e3, e4, e5, e6, e7, large, scan_units, e1, e2, large) refl
]

scan_escape_char : (c : ℕ) (rest : Text) → ScansBack c rest
unfolding scan_units escape_char simple_escape
scan_escape_char c rest = elim (Bool-cases (c == quote)) [
  | inl e ↦ subst (λ d. ScansBack d rest) (sym ((==_iff c quote).0 e)) refl
  | inr e0 ↦ elim (Bool-cases (c == backslash)) [
    | inl e ↦ subst (λ d. ScansBack d rest) (sym ((==_iff c backslash).0 e)) refl
    | inr e1 ↦ elim (Bool-cases (c == 10)) [
      | inl e ↦ subst (λ d. ScansBack d rest) (sym ((==_iff c 10).0 e)) refl
      | inr e2 ↦ elim (Bool-cases (c == 13)) [
        | inl e ↦ subst (λ d. ScansBack d rest) (sym ((==_iff c 13).0 e)) refl
        | inr e3 ↦ elim (Bool-cases (c == 9)) [
          | inl e ↦ subst (λ d. ScansBack d rest) (sym ((==_iff c 9).0 e)) refl
          | inr e4 ↦ elim (Bool-cases (c == 12)) [
            | inl e ↦ subst (λ d. ScansBack d rest) (sym ((==_iff c 12).0 e)) refl
            | inr e5 ↦ elim (Bool-cases (c == 8)) [
              | inl e ↦ subst (λ d. ScansBack d rest) (sym ((==_iff c 8).0 e)) refl
              | inr e6 ↦ scan_other c rest (e0, e1, e2, e3, e4, e5, e6)
            ]
          ]
        ]
      ]
    ]
  ]
]

scan_escape :
    (t rest : Text) → scan_units plain (escape t ++ quote ∷ rest) ≡ ok (map unit_of t, rest)
unfolding escape scan_units
scan_escape [] rest = refl
scan_escape (c ∷ cs) rest =
    ap (scan_units plain) (append_assoc (escape_char c) (escape cs) (quote ∷ rest))
    ∙ scan_escape_char c (escape cs ++ quote ∷ rest)
    ∙ ap
        (λ (r : Result (List Unit16 × Text)). r >>= λ (units, after). ok (unit_of c ∷ units, after))
        (scan_escape cs rest)

not_high : (c : ℕ) → is_high (unit_of c) ≡ false
unfolding is_high
not_high c = ground arith

combine_units : (t : Text) → combine (map unit_of t) ≡ t
unfolding combine joined
combine_units [] = refl
combine_units (c ∷ []) = refl
combine_units (c ∷ d ∷ ds) = rw (not_high c) (ap (λ l. c ∷ l) (combine_units (d ∷ ds)))

-- A dumped string.
pub dump_string_split : (t rest : Text) → dump_string t ++ rest ≡ quote ∷ (escape t ++ quote ∷ rest)
unfolding dump_string
dump_string_split t rest = ap (λ l. quote ∷ l) (append_assoc (escape t) (quote ∷ []) rest)

pub scan_string_lem : (t rest : Text) → scan_string (escape t ++ quote ∷ rest) ≡ ok (t, rest)
unfolding scan_string
scan_string_lem t rest = rw (scan_escape t rest, combine_units t) refl
