-- ===== src/Api/Json/Scan/Numbers.antt =====
-- A dumped integer is scanned back.
use solo_rt.Prelude.{
  ℕ, zero, suc, ◌+◌, ◌-◌, ◌*◌, ◌/◌, ◌%◌, ◌<◌, ◌≡◌, refl, subst, ◌∙◌, inl, inr, Bool, true, false,
  not, ◌||◌, some, List, [], ◌∷◌, ◌++◌, ltb, ◌==◌, ok, Bool-cases, ltb→lt, arith,
}
use solo_rt.Prelude.Sort.{All}
use solo_rt.Cache.BlockHash.{Text, decimal_from, decimal}
use solo_rt.Api.Json.{int}
use solo_rt.Api.Json.Scan.{
  is_digit, span_digits, integer_part, fraction_part, exponent_part, number_of, signed, scan_number,
}

-- What follows cannot belong to a number.
unfoldable pub stops : Text → Bool
unfolding is_digit
stops [] = true
stops (c ∷ cs) = not (is_digit c || (c == b'.') || (c == b'e') || (c == b'E'))

span_digits_lem :
    (t rest : Text)
    → All (λ c. is_digit c ≡ true) t
    → stops rest ≡ true
    → span_digits (t ++ rest) ≡ (t, rest)
unfolding span_digits stops
span_digits_lem [] [] h s = refl
span_digits_lem [] (c ∷ cs) h s = ground (arith, s)
span_digits_lem (c ∷ cs) rest h s = rw (span_digits_lem cs rest h.1 s, h.0) refl

pub All-append {ℓ κ} :
    {A : Type ℓ} (P : A → Type κ) (xs ys : List A) → All P xs → All P ys → All P (xs ++ ys)
All-append P [] ys h k = k
All-append P (x ∷ xs) ys h k = (h.0, All-append P xs ys h.1 k)

number_of-append :
    (n : ℕ) (t : Text) (c : ℕ) → number_of n (t ++ c ∷ []) ≡ 10 * number_of n t + (c - 48)
unfolding number_of
number_of-append n [] c = refl
number_of-append n (d ∷ ds) c = number_of-append (10 * n + (d - 48)) ds c

digit_lem : (d : ℕ) → d < 10 → is_digit (48 + d) ≡ true
unfolding is_digit
digit_lem d h = ground arith

decimal-digits : (fuel n : ℕ) → n < fuel → All (λ c. is_digit c ≡ true) (decimal_from fuel n)
unfolding decimal_from
decimal-digits zero n h = elim h [ ]
decimal-digits (suc fuel) n h = elim (Bool-cases (ltb n 10)) [
  | inl e ↦ rw e (digit_lem n (ltb→lt n 10 e), tt)
  | inr e ↦ rw e (
      All-append (λ c. is_digit c ≡ true) (decimal_from fuel (n / 10)) ((48 + n % 10) ∷ [])
        (decimal-digits fuel (n / 10) (ground (arith, e))) (digit_lem (n % 10) (omega arith), tt))
]

number_of-decimal : (fuel n : ℕ) → n < fuel → number_of 0 (decimal_from fuel n) ≡ n
unfolding decimal_from number_of
number_of-decimal zero n h = elim h [ ]
number_of-decimal (suc fuel) n h = elim (Bool-cases (ltb n 10)) [
  | inl e ↦ rw e (omega arith)
  | inr e ↦ rw e (
      number_of-append 0 (decimal_from fuel (n / 10)) (48 + n % 10)
      ∙ omega (arith, number_of-decimal fuel (n / 10) (ground (arith, e))))
]

pub AllDigits-decimal : (n : ℕ) → All (λ c. is_digit c ≡ true) (decimal n)
unfolding decimal
AllDigits-decimal n = decimal-digits (n + 1) n (omega arith)

-- The first digit is 0 only for 0 itself.
decimal-head :
    (fuel n : ℕ)
    → n < fuel
    → (c : ℕ) × (cs : Text) × (decimal_from fuel n ≡ c ∷ cs) × (0 < n → 48 < c)
unfolding decimal_from
decimal-head zero n h = elim h [ ]
decimal-head (suc fuel) n h = elim (Bool-cases (ltb n 10)) [
  | inl e ↦ (48 + n, [], rw e refl, λ p. omega arith)
  | inr e ↦
      let (c, cs, same, larger) = decimal-head fuel (n / 10) (ground (arith, e)) in
      (c, cs ++ (48 + n % 10) ∷ [], rw (e, same) refl, λ p. larger (ground (arith, e)))
]

integer_part-decimal :
    (fuel n : ℕ) (rest : Text)
    → n < fuel
    → stops rest ≡ true
    → integer_part (decimal_from fuel n ++ rest) ≡ some (decimal_from fuel n, rest)
unfolding integer_part
integer_part-decimal zero n rest h s = elim h [ ]
integer_part-decimal (suc fuel) zero rest h s = unfold decimal_from in refl
integer_part-decimal (suc fuel) (suc n) rest h s =
    let (c, cs, same, larger) = decimal-head (suc fuel) (suc n) h in
    let all : All (λ d. is_digit d ≡ true) (c ∷ cs) =
      subst (All (λ d. is_digit d ≡ true)) same (decimal-digits (suc fuel) (suc n) h) in
    let nonzero : (c == 48) ≡ false = ground (arith, larger (omega arith)) in
    rw (same, nonzero, span_digits_lem cs rest all.1 s, all.0) refl

fraction_part_lem : (rest : Text) → stops rest ≡ true → fraction_part rest ≡ ([], rest)
unfolding fraction_part stops
fraction_part_lem [] s = refl
fraction_part_lem (c ∷ cs) s = let other : (c == b'.') ≡ false = ground (arith, s) in rw other refl

exponent_part_lem : (rest : Text) → stops rest ≡ true → exponent_part rest ≡ ([], rest)
unfolding exponent_part stops
exponent_part_lem [] s = refl
exponent_part_lem (c ∷ cs) s =
    let small : (c == b'e') ≡ false = ground (arith, s) in
    let capital : (c == b'E') ≡ false = ground (arith, s) in rw (small, capital) refl

pub scan_number-decimal :
    (negative : Bool) (n : ℕ) (rest : Text)
    → stops rest ≡ true
    → scan_number negative (decimal n ++ rest) ≡ ok (int (signed negative n), rest)
unfolding scan_number decimal
scan_number-decimal negative n rest s =
    rw
      (
        scan_number,
        integer_part-decimal (n + 1) n rest (omega arith) s,
        fraction_part_lem rest s,
        exponent_part_lem rest s,
        number_of-decimal (n + 1) n (omega arith),
      )
      refl

-- The first character of a decimal is a digit.
pub decimal-starts : (n : ℕ) → (c : ℕ) × (cs : Text) × (decimal n ≡ c ∷ cs) × (is_digit c ≡ true)
unfolding decimal
decimal-starts n =
    let (c, cs, same, _) = decimal-head (n + 1) n (omega arith) in
    (
      c,
      cs,
      same,
      (subst (All (λ d. is_digit d ≡ true)) same (decimal-digits (n + 1) n (omega arith))).0,
    )
