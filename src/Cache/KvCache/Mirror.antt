-- ===== src/Cache/KvCache/Mirror.antt =====
-- The data plane of kv_cache.py: `store_layer_tokens` mirrors the K and V rows of a forward pass
-- into the paged arena, and `gather_layer_tokens` reads them back by physical slot.
pub mod RoundTrip
use native.Mathlib.Nat.{div-add-mod}
use solo_rt.Prelude.{
  ℕ, zero, suc, ◌+◌, ◌-◌, ◌*◌, ◌/◌, ◌%◌, ◌≤◌, ◌<◌, ◌≡◌, ◌≢◌, refl, ap, sym, ◌∙◌, Bool, true, false,
  ◌&&◌, ◌||◌, not, Option, none, some, List, [], ◌∷◌, map, if◌then◌else◌, ◌==◌, leb, ltb, length,
  count, drop, min, arith, ℤ, pos, negsuc, Result, ok, err, value_error, runtime_error, index_error,
}
use solo_rt.Prelude.Exec.{Exec}
use solo_rt.Cache.KvCache.{Row, Arena, PagedKvCache, page_size, has_tensors}
use solo_rt.Cache.KvCache.Slots.{IsDistinct, AllBelow}

-- A K or V tensor `[batch, heads, tokens, head_dim]`: its shape, and the row of each token, which
-- `transpose(0, 1)` makes contiguous.
pub record KvTensor : Type 0 where
  pub batch : ℕ
  pub heads : ℕ
  pub head_dim : ℕ
  pub rows : List Row

pub skip : Exec PagedKvCache Unit
skip c = (ok tt, record c { mirror_skipped = c.mirror_skipped + 1 })

-- A write at one layer, page and offset.
pub write : (ℕ → ℕ → ℕ → Row) → ℕ → ℕ → ℕ → Row → ℕ → ℕ → ℕ → Row
write cells layer page offset row l p o =
    if (layer == l) && (page == p) && (offset == o) then row else cells l p o

-- `copy_` of one token's rows, which converts them, and the count of it.
abbrev pub mirror_token : ℕ → ℕ → ℕ → Row → Row → PagedKvCache → PagedKvCache
mirror_token layer page offset k v c = record c {
  tensors = elim c.tensors [
    | none ↦ none
    | some a ↦ some (record a {
      k_cache = write a.k_cache layer page offset (a.convert k);
      v_cache = write a.v_cache layer page offset (a.convert v);
    })
  ];
  mirrored_tokens = c.mirrored_tokens + 1;
}

-- The loop over the target slots; an index past the pages raises `IndexError`.
pub store_rows : ℕ → List ℕ → List Row → List Row → Exec PagedKvCache Unit
store_rows layer [] ks vs c = (ok tt, c)
store_rows layer (slot ∷ slots) (k ∷ ks) (v ∷ vs) c =
    let page = slot / page_size c in
    let rest = store_rows layer slots ks vs (mirror_token layer page (slot % page_size c) k v c) in
    if leb c.config.num_pages page then (err index_error, c) else rest
store_rows layer (slot ∷ slots) _ _ c = (err index_error, c)

-- `l[-n:]` for n > 0
abbrev pub last {ℓ} : {A : Type ℓ} → ℕ → List A → List A
last n l = drop (length l - n) l

-- The body behind the guards on the layer.
unfoldable pub store_layer : ℕ → List ℕ → KvTensor → KvTensor → Exec PagedKvCache Unit
unfolding skip store_rows
store_layer layer slot_mapping key value c =
    if leb c.config.num_layers layer
    then skip c
    else if not (key.batch == 1) || not (value.batch == 1)
    then skip c
    else if not (key.heads == c.config.num_kv_heads) || not (value.heads == c.config.num_kv_heads)
    then skip c
    else if not (key.head_dim == c.config.head_dim) || not (value.head_dim == c.config.head_dim)
    then skip c
    else let token_count = min (length slot_mapping) (min (length key.rows) (length value.rows)) in
      if token_count == 0
      then skip c
      else store_rows layer (last token_count slot_mapping) (last token_count key.rows)
          (last token_count value.rows) c

-- `store_layer_tokens`
unfoldable pub store_layer_tokens : Option ℤ → List ℕ → KvTensor → KvTensor → Exec PagedKvCache Unit
unfolding skip
store_layer_tokens none slot_mapping key value c = skip c
store_layer_tokens (some layer_idx) slot_mapping key value c =
    if (length slot_mapping == 0) || not (has_tensors c) then skip c else elim layer_idx [
      | negsuc n ↦ skip c
      | pos layer ↦ store_layer layer slot_mapping key value c
    ]

-- The row at a flat slot of one layer: `reshape` lays page p, offset o at p * page_size + o.
pub row_at : (ℕ → ℕ → ℕ → Row) → ℕ → ℕ → ℕ → Row
row_at cells layer size slot = cells layer (slot / size) (slot % size)

-- `index_select` raises `IndexError` on an index past the end.
pub select_rows : (ℕ → Row) → ℕ → List ℕ → Result (List Row)
select_rows row bound [] = ok []
select_rows row bound (slot ∷ slots) =
    let rest = select_rows row bound slots in
    if leb bound slot
    then err index_error
    else elim rest [ ok rows ↦ ok (row slot ∷ rows) | err e ↦ err e ]

abbrev pub both_rows : Result (List Row) → Result (List Row) → Result (List Row × List Row)
both_rows (ok ks) (ok vs) = ok (ks, vs)
both_rows (ok ks) (err e) = err e
both_rows (err e) _ = err e

unfoldable pub gather_rows : ℕ → List ℕ → PagedKvCache → Arena → Result (List Row × List Row)
gather_rows layer slots c a =
    let bound = c.config.num_pages * page_size c in
    both_rows (select_rows (row_at a.k_cache layer (page_size c)) bound slots)
      (select_rows (row_at a.v_cache layer (page_size c)) bound slots)

-- `gather_layer_tokens`
unfoldable pub gather_layer_tokens : ℤ → List ℕ → PagedKvCache → Result (List Row × List Row)
gather_layer_tokens layer_idx slot_mapping c = elim c.tensors [
  | none ↦ err runtime_error
  | some a ↦ elim layer_idx [
    | negsuc n ↦ err value_error
    | pos layer ↦
        if leb c.config.num_layers layer
        then err value_error
        else gather_rows layer slot_mapping c a
  ]
]
