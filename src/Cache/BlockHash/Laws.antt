-- ===== src/Cache/BlockHash/Laws.antt =====
-- A prompt's blocks lose no token, and a token's bytes lose no bit.
use native.Mathlib.Nat.{div-add-mod, pow-suc, div-lt_iff_lt-mul}
use mathlib.Core.List.{flatten}
use solo_rt.Prelude.{
  ℕ, zero, suc, ◌/◌, ◌^◌, ◌≤◌, ◌<◌, ◌≡◌, refl, ap, ◌∙◌, List, [], ◌∷◌, ◌++◌, arith, length, take,
  drop, take-append-drop, length-drop, length-take,
}
use solo_rt.Prelude.Sort.{All}
use solo_rt.Cache.BlockHash.{blocks, blocks_from, to_bytes, from_bytes}

blocks_from_lem :
    (fuel size : ℕ) (tokens : List ℕ)
    → 0 < size
    → length tokens ≤ fuel
    → (flatten (blocks_from fuel size tokens) ≡ tokens)
      × All (λ b. (0 < length b) × (length b ≤ size)) (blocks_from fuel size tokens)
unfolding blocks_from flatten
blocks_from_lem zero size [] h f = (refl, tt)
blocks_from_lem zero size (t ∷ tokens) h f = absurd (omega arith)
blocks_from_lem (suc fuel) size [] h f = (refl, tt)
blocks_from_lem (suc fuel) size (t ∷ tokens) h f =
    let rest = drop size (t ∷ tokens) in
    let (whole, sizes) =
      blocks_from_lem fuel size rest h (omega (arith, length-drop size (t ∷ tokens))) in
    (
      ap (λ l. take size (t ∷ tokens) ++ l) whole ∙ take-append-drop size (t ∷ tokens),
      (
        (
          omega (arith, length-take size (t ∷ tokens)),
          omega (arith, length-take size (t ∷ tokens)),
        ),
        sizes,
      ),
    )

-- For a positive block size, the blocks of a prompt, one after the other, are the prompt, none is
-- empty, and none is longer than the block size.
pub blocks_lem :
    (size : ℕ) (tokens : List ℕ)
    → 0 < size
    → (flatten (blocks size tokens) ≡ tokens)
      × All (λ b. (0 < length b) × (length b ≤ size)) (blocks size tokens)
unfolding blocks
blocks_lem size tokens h = blocks_from_lem (length tokens) size tokens h (omega arith)

-- Reading back the k little-endian bytes of a number below 256 ^ k gives the number.
pub from_bytes-to_bytes : (k n : ℕ) → n < 256 ^ k → from_bytes (to_bytes k n) ≡ n
unfolding from_bytes to_bytes
from_bytes-to_bytes zero n h = omega (arith, h)
from_bytes-to_bytes (suc k) n h =
    let fits : n / 256 < 256 ^ k =
      (div-lt_iff_lt-mul (omega arith)).1 (omega (arith, h, pow-suc 256 k)) in
    omega (arith, from_bytes-to_bytes k (n / 256) fits, div-add-mod n 256)
