-- ===== src/Cache/KvCache/Mirror/RoundTrip.antt =====
-- Reading back what was mirrored.
use native.Mathlib.Nat.{div-add-mod, div-lt_iff_lt-mul}
use solo_rt.Prelude.{
  ℕ, ◌+◌, ◌-◌, ◌*◌, ◌/◌, ◌%◌, ◌<◌, ◌≡◌, ◌≢◌, refl, ap, ◌∙◌, true, false, some, List, [], ◌∷◌, map,
  ◌==◌, leb, length, count, min, arith, pos, ok,
}
use mathlib.Core.Path.{ap₂}
use solo_rt.Cache.KvCache.{Row, Arena, PagedKvCache, page_size, has_tensors}
use solo_rt.Cache.KvCache.Slots.{IsDistinct, AllBelow}
use solo_rt.Cache.KvCache.Mirror.{
  KvTensor, write, both_rows, mirror_token, store_rows, store_layer, store_layer_tokens, row_at,
  select_rows, gather_rows, gather_layer_tokens, last,
}

-- Two slots with the same page and offset are one slot.
slot_parts : (x y s : ℕ) → x / s ≡ y / s → x % s ≡ y % s → x ≡ y
slot_parts x y s p o = omega (arith, div-add-mod x s, div-add-mod y s, ap (λ (k : ℕ). s * k) p)

module _ (cells : ℕ → ℕ → ℕ → Row) (layer s : ℕ) (row : Row) where
  row_at-write_self : (x : ℕ) → row_at (write cells layer (x / s) (x % s) row) layer s x ≡ row
  unfolding row_at write
  row_at-write_self x = ground arith

  row_at-write_ne :
      (x y : ℕ)
      → x ≢ y
      → row_at (write cells layer (x / s) (x % s) row) layer s y ≡ row_at cells layer s y
  unfolding row_at write
  row_at-write_ne x y ne = ground (arith, slot_parts x y s)

-- What a run of the loop did to the arena `a`, read at any slot of the layer.
record Mirrors (layer : ℕ) (slots : List ℕ) (ks vs : List Row) (c d : PagedKvCache) (a b : Arena)
    : Type 0 where
  tensors : d.tensors ≡ some b
  config : d.config ≡ c.config
  allocator : d.allocator ≡ c.allocator
  skipped : d.mirror_skipped ≡ c.mirror_skipped
  mirrored : d.mirrored_tokens ≡ c.mirrored_tokens + length slots
  converts : b.convert ≡ a.convert
  keys : map (row_at b.k_cache layer (page_size c)) slots ≡ map a.convert ks
  values : map (row_at b.v_cache layer (page_size c)) slots ≡ map a.convert vs
  other_keys :
      (y : ℕ)
      → count y slots ≡ 0
      → row_at b.k_cache layer (page_size c) y ≡ row_at a.k_cache layer (page_size c) y
  other_values :
      (y : ℕ)
      → count y slots ≡ 0
      → row_at b.v_cache layer (page_size c) y ≡ row_at a.v_cache layer (page_size c) y

module _ (layer x : ℕ) (slots : List ℕ) (k v : Row) (ks vs : List Row) (c : PagedKvCache)
    (a : Arena) where
  abbrev stored : PagedKvCache
  stored = mirror_token layer (x / page_size c) (x % page_size c) k v c

  abbrev stored_arena : Arena
  stored_arena = record a {
    k_cache = write a.k_cache layer (x / page_size c) (x % page_size c) (a.convert k);
    v_cache = write a.v_cache layer (x / page_size c) (x % page_size c) (a.convert v);
  }

  store_rows-cons :
      (d : PagedKvCache)
      → x / page_size c < c.config.num_pages
      → store_rows layer slots ks vs stored ≡ (ok tt, d)
      → store_rows layer (x ∷ slots) (k ∷ ks) (v ∷ vs) c ≡ (ok tt, d)
  unfolding store_rows
  store_rows-cons d inside run =
      let test : leb c.config.num_pages (x / page_size c) ≡ false = ground arith in rw (test) run

  Mirrors-cons :
      (d : PagedKvCache) (b : Arena)
      → IsDistinct (x ∷ slots)
      → Mirrors layer slots ks vs stored d stored_arena b
      → Mirrors layer (x ∷ slots) (k ∷ ks) (v ∷ vs) c d a b
  Mirrors-cons d b ds m =
      let s = page_size c in
      let once : count x slots ≡ 0 = ground (arith, ds x) in
      record {
        tensors = m.tensors;
        config = m.config;
        allocator = m.allocator;
        skipped = m.skipped;
        mirrored = omega (arith, m.mirrored);
        converts = m.converts;
        keys =
            ap₂ (λ r l. r ∷ l)
              (m.other_keys x once ∙ row_at-write_self a.k_cache layer s (a.convert k) x) m.keys;
        values =
            ap₂ (λ r l. r ∷ l)
              (m.other_values x once ∙ row_at-write_self a.v_cache layer s (a.convert v) x)
              m.values;
        other_keys = λ y out.
            m.other_keys y (ground arith)
            ∙ row_at-write_ne a.k_cache layer s (a.convert k) x y (ground arith);
        other_values = λ y out.
            m.other_values y (ground arith)
            ∙ row_at-write_ne a.v_cache layer s (a.convert v) x y (ground arith);
      }

store_rows-Mirrors :
    (layer : ℕ) (slots : List ℕ) (ks vs : List Row) (c : PagedKvCache) (a : Arena)
    → c.tensors ≡ some a
    → 0 < page_size c
    → length ks ≡ length slots
    → length vs ≡ length slots
    → IsDistinct slots
    → AllBelow (c.config.num_pages * page_size c) slots
    → (d : PagedKvCache) × (b : Arena) × (store_rows layer slots ks vs c ≡ (ok tt, d))
      × Mirrors layer slots ks vs c d a b
unfolding store_rows
store_rows-Mirrors layer [] [] [] c a t h lk lv ds bs = (
  c,
  a,
  refl,
  record {
    tensors = t;
    config = refl;
    allocator = refl;
    skipped = refl;
    mirrored = omega arith;
    converts = refl;
    keys = refl;
    values = refl;
    other_keys = λ y _. refl;
    other_values = λ y _. refl;
  },
)
store_rows-Mirrors layer [] (k ∷ ks) vs c a t h lk lv ds bs = absurd (omega (arith, lk))
store_rows-Mirrors layer [] [] (v ∷ vs) c a t h lk lv ds bs = absurd (omega (arith, lv))
store_rows-Mirrors layer (x ∷ slots) [] vs c a t h lk lv ds bs = absurd (omega (arith, lk))
store_rows-Mirrors layer (x ∷ slots) (k ∷ ks) [] c a t h lk lv ds bs = absurd (omega (arith, lv))
store_rows-Mirrors layer (x ∷ slots) (k ∷ ks) (v ∷ vs) c a t h lk lv ds bs =
    let (d, b, run, m) =
      store_rows-Mirrors layer slots ks vs (stored layer x slots k v ks vs c a)
        (stored_arena layer x slots k v ks vs c a) (rw t refl) h (omega arith) (omega arith)
        (λ y. ground (arith, ds y)) bs.1 in
    (
      d,
      b,
      store_rows-cons layer x slots k v ks vs c a d ((div-lt_iff_lt-mul h).1 bs.0) run,
      Mirrors-cons layer x slots k v ks vs c a d b ds m,
    )

select_rows_lem :
    (row : ℕ → Row) (bound : ℕ) (slots : List ℕ)
    → AllBelow bound slots
    → select_rows row bound slots ≡ ok (map row slots)
unfolding select_rows
select_rows_lem row bound [] h = refl
select_rows_lem row bound (x ∷ slots) h =
    let test : leb bound x ≡ false = ground arith in rw (test, select_rows_lem row bound slots h.1)

gather_rows_lem :
    (layer : ℕ) (slots : List ℕ) (ks vs : List Row) (c d : PagedKvCache) (a b : Arena)
    → AllBelow (c.config.num_pages * page_size c) slots
    → Mirrors layer slots ks vs c d a b
    → gather_rows layer slots d b ≡ ok (map a.convert ks, map a.convert vs)
unfolding gather_rows
gather_rows_lem layer slots ks vs c d a b bs m =
    let inside : AllBelow (d.config.num_pages * page_size d) slots = rw m.config bs in
    let keys : map (row_at b.k_cache layer (page_size d)) slots ≡ map a.convert ks =
      rw m.config m.keys in
    let values : map (row_at b.v_cache layer (page_size d)) slots ≡ map a.convert vs =
      rw m.config m.values in
    let read = λ (cells : ℕ → ℕ → ℕ → Row).
      select_rows_lem (row_at cells layer (page_size d)) (d.config.num_pages * page_size d) slots
        inside in
    ap₂ both_rows (read b.k_cache ∙ ap ok keys) (read b.v_cache ∙ ap ok values)

gather_runs :
    (layer : ℕ) (slots : List ℕ) (ks vs : List Row) (c d : PagedKvCache) (a b : Arena)
    → layer < c.config.num_layers
    → AllBelow (c.config.num_pages * page_size c) slots
    → Mirrors layer slots ks vs c d a b
    → gather_layer_tokens (pos layer) slots d ≡ ok (map a.convert ks, map a.convert vs)
unfolding gather_layer_tokens
gather_runs layer slots ks vs c d a b layered bs m =
    ground (arith, m.tensors, m.config, gather_rows_lem layer slots ks vs c d a b bs m)

has_tensors-some : (c : PagedKvCache) (a : Arena) → c.tensors ≡ some a → has_tensors c ≡ true
unfolding has_tensors
has_tensors-some c a t = ground arith

-- The tensors fit the configuration, and there is a row of each for every slot.
pub record Fits (slots : List ℕ) (key value : KvTensor) (c : PagedKvCache) : Type 0 where
  pub key_batch : key.batch ≡ 1
  pub value_batch : value.batch ≡ 1
  pub key_heads : key.heads ≡ c.config.num_kv_heads
  pub value_heads : value.heads ≡ c.config.num_kv_heads
  pub key_dim : key.head_dim ≡ c.config.head_dim
  pub value_dim : value.head_dim ≡ c.config.head_dim
  pub key_rows : length key.rows ≡ length slots
  pub value_rows : length value.rows ≡ length slots

last_all {ℓ} : {A : Type ℓ} (n : ℕ) (l : List A) → length l ≡ n → last n l ≡ l
last_all n l e = let z : length l - n ≡ 0 = omega (arith, e) in rw z

module _ (layer : ℕ) (slots : List ℕ) (key value : KvTensor) (c : PagedKvCache)
    (f : Fits slots key value c) (layered : layer < c.config.num_layers)
    (some_slots : 0 < length slots) where
  store_layer_rows :
      store_layer layer slots key value c ≡ store_rows layer slots key.rows value.rows c
  unfolding store_layer
  store_layer_rows =
      let n = min (length slots) (min (length key.rows) (length value.rows)) in
      let all : n ≡ length slots = omega (arith, f.key_rows, f.value_rows) in
      ground (
        arith,
        f.key_batch,
        f.value_batch,
        f.key_heads,
        f.value_heads,
        f.key_dim,
        f.value_dim,
        all,
        last_all n slots (omega (arith, all)),
        last_all n key.rows (omega (arith, all, f.key_rows)),
        last_all n value.rows (omega (arith, all, f.value_rows)),
      )

  store_runs :
      (a : Arena) (d : PagedKvCache)
      → c.tensors ≡ some a
      → store_rows layer slots key.rows value.rows c ≡ (ok tt, d)
      → store_layer_tokens (some (pos layer)) slots key value c ≡ (ok tt, d)
  unfolding store_layer_tokens
  store_runs a d t run =
      let test : (length slots == 0) ≡ false = ground arith in
      let there : has_tensors c ≡ true = has_tensors-some c a t in
      rw (test, there) (store_layer_rows ∙ run)

-- Rows mirrored to distinct slots inside the arena, from tensors that fit the configuration and
-- hold one row per slot, come back from a gather of those slots as torch's conversion to the dtype
-- of the cache makes them; every slot counts as mirrored and none as skipped, and the allocator is
-- untouched.
pub gather-store :
    (layer : ℕ) (slots : List ℕ) (key value : KvTensor) (c : PagedKvCache) (a : Arena)
    → c.tensors ≡ some a
    → Fits slots key value c
    → layer < c.config.num_layers
    → 0 < page_size c
    → 0 < length slots
    → IsDistinct slots
    → AllBelow (c.config.num_pages * page_size c) slots
    → (d : PagedKvCache) × (store_layer_tokens (some (pos layer)) slots key value c ≡ (ok tt, d))
      × (gather_layer_tokens (pos layer) slots d
          ≡ ok (map a.convert key.rows, map a.convert value.rows))
      × (d.mirrored_tokens ≡ c.mirrored_tokens + length slots)
      × (d.mirror_skipped ≡ c.mirror_skipped)
      × (d.allocator ≡ c.allocator)
gather-store layer slots key value c a t f layered sized filled ds bs =
    let (d, b, run, m) =
      store_rows-Mirrors layer slots key.rows value.rows c a t sized f.key_rows f.value_rows ds
        bs in
    (
      d,
      store_runs layer slots key value c f layered filled a d t run,
      gather_runs layer slots key.rows value.rows c d a b layered bs m,
      m.mirrored,
      m.skipped,
      m.allocator,
    )
