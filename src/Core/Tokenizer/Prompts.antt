-- ===== src/Core/Tokenizer/Prompts.antt =====
-- What the fallback tokenizer returns, and when it raises.
use solo_rt.Prelude.{
  ℕ, suc, ◌%◌, ◌<◌, inl, inr, false, List, [], ◌∷◌, ◌++◌, map, length, Bool-cases, List-cases,
  arith, ◌≡◌, refl, ap, ◌⊎◌, Result, ok, err, value_error,
}
use native.Mathlib.Nat.{mod-lt}
use solo_rt.Prelude.Errors.{◌>>=◌}
use solo_rt.Prelude.Sort.{All}
use solo_rt.Cache.BlockHash.{Text, from_bytes}
use solo_rt.Core.Session.{Message}
use solo_rt.Core.Tokenizer.{
  between, is_space, lstrip, rstrip, strip, words, utf8, is_surrogate, encode, render, join_lines,
  stable_token_id, token_ids, tokens_of, tokenize_messages,
}

some_word : (l : ℕ) (ls cs : Text) → 0 < length (words (l ∷ ls) cs)
unfolding words
some_word l ls [] = omega arith
some_word l ls (c ∷ cs) = elim (Bool-cases (is_space c)) [
  | inl b ↦ rw (words, b) (omega arith)
  | inr b ↦ rw (words, b) (some_word l (ls ++ c ∷ []) cs)
]

some_words : (t : Text) → 0 < length (rstrip t) → 0 < length (words [] (rstrip t))
unfolding rstrip words
some_words [] h = elim h [ ]
some_words (c ∷ cs) h = elim (List-cases (rstrip cs)) [
  | inl e ↦ elim (Bool-cases (is_space c)) [
    | inl b ↦ absurd (omega (arith, rw (rstrip, e, b) at h))
    | inr b ↦ rw (rstrip, e, b, words, b) (omega arith)
  ]
  | inr (d, ds, e) ↦
      let more : 0 < length (words [] (rstrip cs)) = some_words cs (rw e (omega arith)) in
      let more' = rw e at more in
      elim (Bool-cases (is_space c)) [
        | inl b ↦ rw (rstrip, e, words, b) more'
        | inr b ↦ rw (rstrip, e, words, b) (some_word c [] (d ∷ ds))
      ]
]

-- The text has no surrogate.
abbrev pub IsEncodable : Text → Type 0
IsEncodable text = All (λ c. is_surrogate c ≡ false) text

-- The bound on each token, and their number.
abbrev AreIds : ℕ → Result (List ℕ) → Type 0
AreIds n (err e) = e ≡ value_error
AreIds n (ok ids) = (length ids ≡ n) × All (λ t. t < 262144) ids

-- A result that is there.
abbrev pub Returns {ℓ} : {A : Type ℓ} → Result A → Type ℓ
Returns {A = A} r = (a : A) × (r ≡ ok a)

cons_AreIds :
    (id n : ℕ) (r : Result (List ℕ))
    → id < 262144
    → AreIds n r
    → AreIds (suc n) (r >>= λ ids. ok (id ∷ ids))
cons_AreIds id n (err e) b h = h
cons_AreIds id n (ok ids) b h = (ap suc h.0, (b, h.1))

-- All that is raised is `ValueError`.
abbrev MayRaise : Result (List ℕ) → Type 0
MayRaise (err e) = e ≡ value_error
MayRaise (ok bytes) = Unit

append-MayRaise :
    (bytes : List ℕ) (r : Result (List ℕ))
    → MayRaise r
    → MayRaise (r >>= λ more. ok (bytes ++ more))
append-MayRaise bytes (err e) h = h
append-MayRaise bytes (ok more) h = tt

encode-MayRaise : (text : Text) → MayRaise (encode text)
unfolding encode
encode-MayRaise [] = tt
encode-MayRaise (c ∷ cs) = elim (Bool-cases (is_surrogate c)) [
  | inl b ↦ rw b refl
  | inr b ↦ rw b (append-MayRaise (utf8 c) (encode cs) (encode-MayRaise cs))
]

first_AreIds :
    (blake2b : List ℕ → List ℕ) (n : ℕ) (encoded rest : Result (List ℕ))
    → MayRaise encoded
    → AreIds n rest
    → AreIds (suc n) (
        (encoded >>= λ bytes. ok (from_bytes (blake2b bytes) % 262144)) >>= λ id.
        rest >>= λ ids. ok (id ∷ ids))
first_AreIds blake2b n (err e) rest raised h = raised
first_AreIds blake2b n (ok bytes) rest raised h =
    let id = from_bytes (blake2b bytes) % 262144 in
    cons_AreIds id n rest (mod-lt (from_bytes (blake2b bytes)) (omega arith)) h

token_ids-AreIds :
    (blake2b : List ℕ → List ℕ) (ws : List Text) → AreIds (length ws) (token_ids blake2b ws)
unfolding token_ids stable_token_id
token_ids-AreIds blake2b [] = (refl, tt)
token_ids-AreIds blake2b (w ∷ ws) =
    first_AreIds blake2b (length ws) (encode w) (token_ids blake2b ws) (encode-MayRaise w)
      (token_ids-AreIds blake2b ws)

encode-Returns : (text : Text) → IsEncodable text → Returns (encode text)
unfolding encode
encode-Returns [] h = ([], refl)
encode-Returns (c ∷ cs) h =
    let (bytes, e) = encode-Returns cs h.1 in (utf8 c ++ bytes, rw (h.0, e) refl)

token_ids-Returns :
    (blake2b : List ℕ → List ℕ) (ws : List Text)
    → All IsEncodable ws
    → Returns (token_ids blake2b ws)
unfolding token_ids stable_token_id
token_ids-Returns blake2b [] h = ([], refl)
token_ids-Returns blake2b (w ∷ ws) h =
    let (bytes, e) = encode-Returns w h.0 in
    let (ids, d) = token_ids-Returns blake2b ws h.1 in
    (from_bytes (blake2b bytes) % 262144 ∷ ids, rw (e, d) refl)

module _ (P : ℕ → Type 0) where
  All-append : (xs ys : Text) → All P xs → All P ys → All P (xs ++ ys)
  All-append [] ys h k = k
  All-append (x ∷ xs) ys h k = (h.0, All-append xs ys h.1 k)

  lstrip-All : (t : Text) → All P t → All P (lstrip t)
  unfolding lstrip
  lstrip-All [] h = tt
  lstrip-All (c ∷ cs) h = elim (Bool-cases (is_space c)) [
    | inl b ↦ rw b (lstrip-All cs h.1)
    | inr b ↦ rw b h
  ]

  rstrip-All : (t : Text) → All P t → All P (rstrip t)
  unfolding rstrip
  rstrip-All [] h = tt
  rstrip-All (c ∷ cs) h = elim (List-cases (rstrip cs)) [
    | inl e ↦ elim (Bool-cases (is_space c)) [
      | inl b ↦ rw (rstrip, e, b) tt
      | inr b ↦ rw (rstrip, e, b) (h.0, tt)
    ]
    | inr (d, ds, e) ↦ rw (rstrip, e) (h.0, rw e at (rstrip-All cs h.1))
  ]

  words-All : (ls cs : Text) → All P ls → All P cs → All (All P) (words ls cs)
  unfolding words
  words-All [] [] h k = tt
  words-All (l ∷ ls) [] h k = (h, tt)
  words-All [] (c ∷ cs) h k = elim (Bool-cases (is_space c)) [
    | inl b ↦ rw (words, b) (words-All [] cs tt k.1)
    | inr b ↦ rw (words, b) (words-All (c ∷ []) cs (k.0, tt) k.1)
  ]
  words-All (l ∷ ls) (c ∷ cs) h k = elim (Bool-cases (is_space c)) [
    | inl b ↦ rw (words, b) (h, words-All [] cs tt k.1)
    | inr b ↦
        rw (words, b)
          (words-All ((l ∷ ls) ++ c ∷ []) cs (All-append (l ∷ ls) (c ∷ []) h (k.0, tt)) k.1)
  ]

  join_lines-All : P 10 → (parts : List Text) → All (All P) parts → All P (join_lines parts)
  unfolding join_lines
  join_lines-All nl [] h = tt
  join_lines-All nl (part ∷ []) h = h.0
  join_lines-All nl (part ∷ next ∷ parts) h =
      All-append part (10 ∷ join_lines (next ∷ parts)) h.0
        (nl, join_lines-All nl (next ∷ parts) h.1)

-- The role and the content have no surrogate.
abbrev pub IsPlain : Message → Type 0
IsPlain message = IsEncodable message.role × IsEncodable message.content

renders : (messages : List Message) → All IsPlain messages → All IsEncodable (map render messages)
unfolding render is_surrogate between
renders [] h = tt
renders (m ∷ messages) h = (
  All-append (λ c. is_surrogate c ≡ false) m.role (b':' ∷ b' ' ∷ m.content) h.0.0
      (refl, (refl, h.0.1)),
  renders messages h.1,
)

abbrev SomeIds : Result (List ℕ) → Type 0
SomeIds (err e) = e ≡ value_error
SomeIds (ok ids) = (0 < length ids) × All (λ k. k < 262144) ids

length_AreIds : (n : ℕ) (r : Result (List ℕ)) → 0 < n → AreIds n r → SomeIds r
length_AreIds n (err e) h k = k
length_AreIds n (ok ids) h k = (omega (arith, h, k.0), k.1)

of_tokens :
    (blake2b : List ℕ → List ℕ) (t : Text)
    → (0 < length t → 0 < length (words [] t))
    → SomeIds (tokens_of blake2b t)
unfolding tokens_of
of_tokens blake2b [] h = (omega arith, (omega arith, tt))
of_tokens blake2b (c ∷ cs) h =
    let ws = words [] (c ∷ cs) in
    length_AreIds (length ws) (token_ids blake2b ws) (h (omega arith)) (token_ids-AreIds blake2b ws)

tokens_of-Returns :
    (blake2b : List ℕ → List ℕ) (t : Text) → IsEncodable t → Returns (tokens_of blake2b t)
unfolding tokens_of
tokens_of-Returns blake2b [] h = (0 ∷ [], refl)
tokens_of-Returns blake2b (c ∷ cs) h =
    token_ids-Returns blake2b (words [] (c ∷ cs))
      (words-All (λ k. is_surrogate k ≡ false) [] (c ∷ cs) tt h)

-- Either there are tokens, each in the bounds, or a surrogate stands in a message.
unfoldable pub Tokenizes : List Message → Result (List ℕ) → Type 0
Tokenizes messages r =
    ((tokens : List ℕ) × (r ≡ ok tokens) × (0 < length tokens) × All (λ t. t < 262144) tokens)
    ⊎ ((r ≡ err value_error) × (¬ All IsPlain messages))

either :
    (messages : List Message) (r : Result (List ℕ))
    → SomeIds r
    → (All IsPlain messages → Returns r)
    → Tokenizes messages r
unfolding Tokenizes
either messages (ok tokens) h plain = inl (tokens, refl, h.0, h.1)
either messages (err e) h plain = inr (ap err h, λ p. let (tokens, raised) = plain p in absurd (cc))

-- The fallback tokenizer returns a prompt that is not empty and each of whose tokens is below
-- 262144, whatever the messages and the digest; or a message has a surrogate in its role or
-- content, and it raises ValueError.
pub tokenize_messages_lem :
    (blake2b : List ℕ → List ℕ) (messages : List Message)
    → Tokenizes messages (tokenize_messages blake2b messages)
unfolding tokenize_messages strip is_surrogate between
tokenize_messages_lem blake2b messages =
    let text = join_lines (map render messages) in
    let P : ℕ → Type 0 = λ c. is_surrogate c ≡ false in
    let parts = renders messages in
    either messages (tokens_of blake2b (rstrip (lstrip text)))
      (of_tokens blake2b (rstrip (lstrip text)) (some_words (lstrip text)))
      (λ h. tokens_of-Returns blake2b (rstrip (lstrip text)) (
        rstrip-All P (lstrip text)
          (lstrip-All P text (join_lines-All P refl (map render messages) (parts h)))))
