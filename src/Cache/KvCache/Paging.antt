-- ===== src/Cache/KvCache/Paging.antt =====
-- Page arithmetic: `pages_required` is the ceiling of the division by the page size, and
-- `last_page_len` is what the last page holds.
use native.Mathlib.Nat.{div-add-mod, mod-lt}
use solo_rt.Prelude.{
  ℕ, zero, suc, ◌+◌, ◌-◌, ◌*◌, ◌/◌, ◌%◌, ◌≤◌, ◌<◌, ◌≡◌, arith, if◌then◌else◌, ◌==◌, Bool-cases, inl,
  inr,
}
use solo_rt.Cache.KvCache.{PagedKvCache, page_size, pages_required, last_page_len}

-- The quotient rounded up.
ceil_bounds : (n s : ℕ) → 0 < s → 0 < n → (n ≤ (n + s - 1) / s * s) × ((n + s - 1) / s * s < n + s)
ceil_bounds n s hs hn = grind (arith, div-add-mod (n + s - 1) s, mod-lt (n + s - 1) hs)

-- With a positive page size, the required pages hold every token, and one page less would not.
pub pages_required_bounds :
    (c : PagedKvCache) (n : ℕ)
    → 0 < page_size c
    → (n ≤ pages_required c n * page_size c) × (pages_required c n * page_size c < n + page_size c)
unfolding pages_required
pages_required_bounds c zero h = omega arith
pages_required_bounds c (suc n) h = ground (arith, ceil_bounds (suc n) (page_size c))

-- No smaller number of pages holds the tokens.
pub pages_required_least :
    (c : PagedKvCache) (n k : ℕ) → 0 < page_size c → n ≤ k * page_size c → pages_required c n ≤ k
pages_required_least c n k h fits = grind (arith, pages_required_bounds c n h)

sub-mul_one : (a s : ℕ) → (a - 1) * s ≡ a * s - s
sub-mul_one zero s = omega arith
sub-mul_one (suc a) s = let e : suc a - 1 ≡ a = omega arith in rw e (omega arith)

pos_of_mul_pos : (a b : ℕ) → 0 < a * b → 0 < b
pos_of_mul_pos a zero h = absurd (omega (arith, h))
pos_of_mul_pos a (suc b) h = omega arith

pub lt_of_mul_lt : (a b s : ℕ) → a * s < b * s → a < b
lt_of_mul_lt a b s h = grind arith

page_count_unique :
    (k q l n s : ℕ) → k * s + l ≡ n → 0 < l → l ≤ s → n ≤ q * s → q * s < n + s → q ≡ k + 1
page_count_unique k q l n s e h0 h1 lo hi =
    omega (arith, lt_of_mul_lt k q s, lt_of_mul_lt q (k + 2) s)

whole_pages : (n s : ℕ) → 0 < s → 0 < n → n % s ≡ 0 → (n / s - 1) * s + s ≡ n
whole_pages n s hs hn e =
    let d : s * (n / s) + n % s ≡ n = div-add-mod n s in
    let p : 0 < n / s = pos_of_mul_pos s (n / s) (omega arith) in
    let m : s ≤ (n / s) * s = grind arith in rw sub-mul_one (omega arith)

tail_split :
    (n s : ℕ)
    → 0 < s
    → 0 < n
    → let l = if n % s == 0 then s else n % s in (k : ℕ) × (k * s + l ≡ n) × (0 < l) × (l ≤ s)
tail_split n s hs hn = elim (Bool-cases (n % s == 0)) [
  | inl whole ↦ rw whole (n / s - 1, whole_pages n s hs hn (ground arith), hs, omega arith)
  | inr part ↦
      rw part (n / s, omega (arith, div-add-mod n s), ground arith, omega (arith, mod-lt n hs))
]

last_page_len_pos :
    (c : PagedKvCache) (n : ℕ)
    → 0 < n
    → last_page_len c n ≡ (if n % page_size c == 0 then page_size c else n % page_size c)
unfolding last_page_len
last_page_len_pos c n hn = ground arith

last_page_split :
    (c : PagedKvCache) (n : ℕ)
    → 0 < page_size c
    → 0 < n
    → (k : ℕ) × (k * page_size c + last_page_len c n ≡ n)
      × (0 < last_page_len c n)
      × (last_page_len c n ≤ page_size c)
last_page_split c n h hn = rw (last_page_len_pos c n hn) (tail_split n (page_size c) h hn)

-- With a positive page size and at least one token, the full pages before the last one and the
-- tokens in the last one make up all tokens, and the last page holds at least one token and at most
-- a full page.
pub last_page_len_lem :
    (c : PagedKvCache) (n : ℕ)
    → 0 < page_size c
    → 0 < n
    → ((pages_required c n - 1) * page_size c + last_page_len c n ≡ n)
      × (0 < last_page_len c n)
      × (last_page_len c n ≤ page_size c)
last_page_len_lem c n h hn =
    let (k, e, h0, h1) = last_page_split c n h hn in
    let (lo, hi) = pages_required_bounds c n h in
    let q : pages_required c n ≡ k + 1 =
      page_count_unique k (pages_required c n) (last_page_len c n) n (page_size c) e h0 h1 lo hi in
    let z : pages_required c n - 1 ≡ k = omega arith in (rw z e, h0, h1)
