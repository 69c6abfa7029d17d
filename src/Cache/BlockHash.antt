-- ===== src/Cache/BlockHash.antt =====
-- The hashing half of src/solort/cache/prefix_cache.py: a prompt's blocks, their hash chain and its
-- key. `blake2b` is hashlib's digest of 8 bytes, a parameter. Texts are lists of code points.
pub mod Laws
use solo_rt.Prelude.{
  ℕ, String, zero, suc, ◌+◌, ◌-◌, ◌*◌, ◌/◌, ◌%◌, ◌^◌, List, [], ◌∷◌, ◌++◌, if◌then◌else◌, ◌==◌, leb,
  ltb, length, take, drop, Result, ok, err, overflow_error,
}
use Prim.Native.Char.{code}
use solo_rt.Prelude.Errors.{◌>>=◌}

abbrev pub Text : Type 0
Text = List ℕ

-- The code points of a literal.
abbrev pub codes : String → Text
codes String.[] = []
codes (String.◌∷◌ c s) = code c ∷ codes s

-- `n.to_bytes(k, "little")`
unfoldable pub to_bytes : ℕ → ℕ → List ℕ
to_bytes zero n = []
to_bytes (suc k) n = n % 256 ∷ to_bytes k (n / 256)

-- `int.from_bytes(bytes, "little")`
unfoldable pub from_bytes : List ℕ → ℕ
from_bytes [] = 0
from_bytes (b ∷ bytes) = b + 256 * from_bytes bytes

-- `token_ids[start : start + size]` for start in `range(0, len(token_ids), size)`; there are at
-- most as many blocks as tokens, which is the fuel.
unfoldable pub blocks_from : ℕ → ℕ → List ℕ → List (List ℕ)
blocks_from zero size tokens = []
blocks_from (suc fuel) size [] = []
blocks_from (suc fuel) size (t ∷ tokens) =
    take size (t ∷ tokens) ∷ blocks_from fuel size (drop size (t ∷ tokens))

unfoldable pub blocks : ℕ → List ℕ → List (List ℕ)
unfolding blocks_from
blocks size tokens = blocks_from (length tokens) size tokens

-- The bytes that a block feeds to the digest: a token past 63 bits raises `OverflowError`.
unfoldable pub block_bytes : List ℕ → Result (List ℕ)
unfolding to_bytes
block_bytes [] = ok []
block_bytes (token ∷ block) =
    let rest = block_bytes block in
    if leb (2 ^ 63) token
    then err overflow_error
    else rest >>= λ bytes. ok (to_bytes 8 token ++ bytes)

module _ (blake2b : List ℕ → List ℕ) where
  unfoldable pub hash_blocks : List (List ℕ) → Result (List ℕ)
  unfolding from_bytes
  hash_blocks [] = ok []
  hash_blocks (block ∷ rest) =
      let others = hash_blocks rest in
      block_bytes block >>= λ bytes. others >>= λ chain. ok (from_bytes (blake2b bytes) ∷ chain)

  unfoldable pub make_hash_chain : ℕ → List ℕ → Result (List ℕ)
  unfolding hash_blocks blocks
  make_hash_chain block_size token_ids = hash_blocks (blocks block_size token_ids)

-- `str(n)`; the fuel n + 1 is more than the digits of n.
unfoldable pub decimal_from : ℕ → ℕ → Text
decimal_from zero n = []
decimal_from (suc fuel) n =
    let front = decimal_from fuel (n / 10) in
    if ltb n 10 then (b'0' + n) ∷ [] else front ++ (b'0' + n % 10) ∷ []

unfoldable pub decimal : ℕ → Text
unfolding decimal_from
decimal n = decimal_from (n + 1) n

-- `":".join(str(item) for item in chain)`
unfoldable pub join_chain : List ℕ → Text
unfolding decimal
join_chain [] = []
join_chain (item ∷ []) = decimal item
join_chain (item ∷ next ∷ chain) = decimal item ++ b':' ∷ join_chain (next ∷ chain)

module _ (blake2b : List ℕ → List ℕ) where
  unfoldable pub make_key : ℕ → List ℕ → Result Text
  unfolding join_chain
  make_key block_size token_ids =
      make_hash_chain blake2b block_size token_ids >>= λ chain. ok (join_chain chain)
