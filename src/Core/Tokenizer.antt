-- ===== src/Core/Tokenizer.antt =====
-- The fallback tokenizer of src/solort/core/runtime.py, `tokenize_messages`: a word's token is a
-- hash of its bytes. `blake2b` is hashlib's digest of 4 bytes, a parameter. Texts are lists of code
-- points.
pub mod Prompts
use solo_rt.Prelude.{
  ℕ, ◌+◌, ◌/◌, ◌%◌, ◌<◌, inl, inr, Bool, true, false, ◌&&◌, ◌||◌, List, [], ◌∷◌, ◌++◌, map,
  if◌then◌else◌, ltb, leb, ◌==◌, length, Bool-cases, List-cases, arith, suc, ◌≡◌, refl, ap, ◌⊎◌,
  Result, ok, err, value_error,
}
use native.Mathlib.Nat.{mod-lt}
use solo_rt.Prelude.Errors.{◌>>=◌}
use solo_rt.Prelude.Sort.{All}
use solo_rt.Cache.BlockHash.{Text, from_bytes}
use solo_rt.Core.Session.{Message}

unfoldable pub between : ℕ → ℕ → ℕ → Bool
between a b c = leb a c && leb c b

-- `str.isspace` on a code point.
unfoldable pub is_space : ℕ → Bool
unfolding between
is_space c =
    between 9 13 c
    || between 28 32 c
    || (c == 133)
    || (c == 160)
    || (c == 5760)
    || between 8192 8202 c
    || (c == 8232)
    || (c == 8233)
    || (c == 8239)
    || (c == 8287)
    || (c == 12288)

unfoldable pub lstrip : Text → Text
unfolding is_space
lstrip [] = []
lstrip (c ∷ cs) = let rest = lstrip cs in if is_space c then rest else c ∷ cs

unfoldable pub rstrip : Text → Text
unfolding is_space
rstrip [] = []
rstrip (c ∷ cs) = elim (rstrip cs) [ [] ↦ if is_space c then [] else c ∷ [] | d ∷ ds ↦ c ∷ d ∷ ds ]

-- `text.strip()`
unfoldable pub strip : Text → Text
unfolding lstrip rstrip
strip text = rstrip (lstrip text)

-- `text.split()`, with the letters of the word that is being read.
pub words : Text → Text → List Text
unfolding is_space
words [] [] = []
words (l ∷ ls) [] = (l ∷ ls) ∷ []
words [] (c ∷ cs) = elim (is_space c) [ true ↦ words [] cs | false ↦ words (c ∷ []) cs ]
words (l ∷ ls) (c ∷ cs) = elim (is_space c) [
  | true ↦ (l ∷ ls) ∷ words [] cs
  | false ↦ words ((l ∷ ls) ++ c ∷ []) cs
]

-- The bytes of a code point in UTF-8.
pub utf8 : ℕ → List ℕ
utf8 c =
    if ltb c 128
    then c ∷ []
    else if ltb c 2048
    then (192 + c / 64) ∷ (128 + c % 64) ∷ []
    else if ltb c 65536
    then (224 + c / 4096) ∷ (128 + c / 64 % 64) ∷ (128 + c % 64) ∷ []
    else (240 + c / 262144) ∷ (128 + c / 4096 % 64) ∷ (128 + c / 64 % 64) ∷ (128 + c % 64) ∷ []

pub is_surrogate : ℕ → Bool
is_surrogate c = between 55296 57343 c

-- `text.encode("utf-8")`; `UnicodeEncodeError`, on a surrogate, is a `ValueError`.
pub encode : Text → Result (List ℕ)
unfolding utf8 is_surrogate
encode [] = ok []
encode (c ∷ cs) =
    let rest = encode cs in
    if is_surrogate c then err value_error else (rest >>= λ bytes. ok (utf8 c ++ bytes))

-- `f"{message.role}: {message.content}"`
pub render : Message → Text
render message = message.role ++ b':' ∷ b' ' ∷ message.content

-- `"\n".join(parts)`
unfoldable pub join_lines : List Text → Text
join_lines [] = []
join_lines (part ∷ []) = part
join_lines (part ∷ next ∷ parts) = part ++ 10 ∷ join_lines (next ∷ parts)

module _ (blake2b : List ℕ → List ℕ) where
  pub stable_token_id : Text → Result ℕ
  unfolding from_bytes encode
  stable_token_id text = encode text >>= λ bytes. ok (from_bytes (blake2b bytes) % 262144)

  -- `[_stable_token_id(token) for token in tokens]`
  pub token_ids : List Text → Result (List ℕ)
  unfolding stable_token_id
  token_ids [] = ok []
  token_ids (w ∷ ws) = stable_token_id w >>= λ id. token_ids ws >>= λ ids. ok (id ∷ ids)

  pub tokens_of : Text → Result (List ℕ)
  unfolding words token_ids
  tokens_of [] = ok (0 ∷ [])
  tokens_of (c ∷ cs) = token_ids (words [] (c ∷ cs))

  unfoldable pub tokenize_messages : List Message → Result (List ℕ)
  unfolding strip render join_lines tokens_of
  tokenize_messages messages = tokens_of (strip (join_lines (map render messages)))
