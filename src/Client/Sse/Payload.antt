-- ===== src/Client/Sse/Payload.antt =====
-- Dumped JSON stands on one line, and a dumped object has no blank at its ends.
use solo_rt.Prelude.{
  ℕ, ◌+◌, ◌/◌, ◌%◌, ◌≡◌, refl, sym, ap, subst, Bool, true, false, [], ◌∷◌, ◌++◌, append_assoc,
  if◌then◌else◌, ltb, ◌==◌, ℤ, pos, negsuc, Bool-cases, List-cases, ==_iff, length, length-append,
  inl, inr, arith,
}
use solo_rt.Prelude.Sort.{All}
use solo_rt.Cache.BlockHash.{Text, decimal}
use solo_rt.Core.Tokenizer.{is_space, lstrip, rstrip}
use solo_rt.Api.Json.{
  Json, null, bool, int, float, str, array, object, Items, no_items, item, Fields, no_fields, field,
  quote, backslash, hex_digit, separator, escape_char, escape, dump_string, dump_int, dumps,
  dump_items, dump_fields,
}
use solo_rt.Api.Json.Scan.{is_digit}
use solo_rt.Api.Json.Scan.Numbers.{All-append, AllDigits-decimal}
use solo_rt.Api.Json.Loads.RoundTrip.{IsExact, AreExact, HasExact}
use solo_rt.Client.Sse.Lines.{IsLine, IsPayload}

IsLine-append : (s t : Text) → IsLine s → IsLine t → IsLine (s ++ t)
IsLine-append s t h k = All-append (λ c. (c == 10) ≡ false) s t h k

IsLine-if : (b : Bool) (s t : Text) → IsLine s → IsLine t → IsLine (if b then s else t)
IsLine-if true s t h k = h
IsLine-if false s t h k = k

hex-IsLine : (d : ℕ) → (hex_digit d == 10) ≡ false
hex-IsLine d = ground arith

escape_char-IsLine : (c : ℕ) → IsLine (escape_char c)
unfolding escape_char
escape_char-IsLine c = elim (Bool-cases (c == 10)) [
  | inl e ↦ subst (λ d. IsLine (escape_char d)) (sym ((==_iff c 10).0 e)) (refl, (refl, tt))
  | inr e ↦
      let two : (d : ℕ) → (d == 10) ≡ false → IsLine (backslash ∷ d ∷ []) =
        λ d h. (refl, (h, tt)) in
      IsLine-if (c == quote) _ _ (two quote refl) (
        IsLine-if (c == backslash) _ _ (two backslash refl) (
          IsLine-if (c == 10) _ _ (two b'n' refl) (
            IsLine-if (c == 13) _ _ (two b'r' refl) (
              IsLine-if (c == 9) _ _ (two b't' refl) (
                IsLine-if (c == 12) _ _ (two b'f' refl) (
                  IsLine-if (c == 8) _ _ (two b'b' refl) (
                    IsLine-if (ltb c 32) _ _
                      (
                        refl,
                        (refl, (refl, (refl, (hex-IsLine (c / 16), (hex-IsLine (c % 16), tt))))),
                      )
                      (e, tt))))))))
]

escape-IsLine : (t : Text) → IsLine (escape t)
unfolding escape
escape-IsLine [] = tt
escape-IsLine (c ∷ cs) =
    IsLine-append (escape_char c) (escape cs) (escape_char-IsLine c) (escape-IsLine cs)

dump_string-IsLine : (t : Text) → IsLine (dump_string t)
unfolding dump_string
dump_string-IsLine t = (refl, IsLine-append (escape t) (quote ∷ []) (escape-IsLine t) (refl, tt))

digits-IsLine : (t : Text) → All (λ c. is_digit c ≡ true) t → IsLine t
unfolding is_digit
digits-IsLine [] h = tt
digits-IsLine (c ∷ cs) h = (ground (arith, h.0), digits-IsLine cs h.1)

dump_int-IsLine : (n : ℤ) → IsLine (dump_int n)
unfolding dump_int
dump_int-IsLine (pos n) = digits-IsLine (decimal n) (AllDigits-decimal n)
dump_int-IsLine (negsuc n) = (refl, digits-IsLine (decimal (n + 1)) (AllDigits-decimal (n + 1)))

separator-IsLine : (first : Bool) → IsLine (separator first)
separator-IsLine true = tt
separator-IsLine false = (refl, tt)

mutual
  unfolding dumps IsExact

  value-IsLine : (v : Json) → IsExact v → IsLine (dumps v)
  value-IsLine null h = (refl, (refl, (refl, (refl, tt))))
  value-IsLine (bool true) h = (refl, (refl, (refl, (refl, tt))))
  value-IsLine (bool false) h = (refl, (refl, (refl, (refl, (refl, tt)))))
  value-IsLine (int n) h = dump_int-IsLine n
  value-IsLine (float t) h = elim h [ ]
  value-IsLine (str t) h = dump_string-IsLine t
  value-IsLine (array items) h = (refl, items-IsLine true items h)
  value-IsLine (object pairs) h = (refl, fields-IsLine true pairs h)

  items-IsLine : (first : Bool) (items : Items) → AreExact items → IsLine (dump_items first items)
  items-IsLine first no_items h = (refl, tt)
  items-IsLine first (item v items) h =
      IsLine-append (separator first) (dumps v ++ dump_items false items) (separator-IsLine first) (
        IsLine-append (dumps v) (dump_items false items) (value-IsLine v h.0)
          (items-IsLine false items h.1))

  fields-IsLine :
      (first : Bool) (pairs : Fields) → HasExact pairs → IsLine (dump_fields first pairs)
  fields-IsLine first no_fields h = (refl, tt)
  fields-IsLine first (field k v pairs) h =
      IsLine-append (separator first) (dump_string k ++ b':' ∷ (dumps v ++ dump_fields false pairs))
        (separator-IsLine first)
        (IsLine-append (dump_string k) (b':' ∷ (dumps v ++ dump_fields false pairs))
          (dump_string-IsLine k)
          (
            refl,
            IsLine-append (dumps v) (dump_fields false pairs) (value-IsLine v h.0)
                (fields-IsLine false pairs h.1),
          ))

closes : (first : Bool) (pairs : Fields) → (t : Text) × (dump_fields first pairs ≡ t ++ b'}' ∷ [])
unfolding dump_fields
closes first no_fields = ([], refl)
closes first (field k v pairs) =
    let (t, e) = closes false pairs in
    (separator first ++ (dump_string k ++ b':' ∷ (dumps v ++ t)), rw e (simp (append_assoc)))

rstrip-brace : (t : Text) → rstrip (t ++ b'}' ∷ []) ≡ t ++ b'}' ∷ []
unfolding rstrip is_space
rstrip-brace [] = refl
rstrip-brace (c ∷ cs) = elim (List-cases (cs ++ b'}' ∷ [])) [
  | inl e ↦ absurd (omega (arith, ap length e, length-append cs (b'}' ∷ [])))
  | inr (d, ds, e) ↦ rw (rstrip, rstrip-brace cs, e) refl
]

-- A dumped object is a payload.
pub dumps-IsPayload : (pairs : Fields) → HasExact pairs → IsPayload (dumps (object pairs))
unfolding dumps lstrip is_space
dumps-IsPayload pairs h =
    let (t, e) = closes true pairs in
    record {
      line = value-IsLine (object pairs) (unfold IsExact in h);
      left = refl;
      right = subst (λ l. rstrip (b'{' ∷ l) ≡ b'{' ∷ l) (sym e) (rstrip-brace (b'{' ∷ t));
    }
