-- ===== src/Cache/VramManager.antt =====
-- src/solort/cache/vram_manager.py: the VRAM budget. Floats are not modelled: `safe` stands for
-- `int(total_bytes * safety_fraction)` at the manager's fraction.
use solo_rt.Prelude.{ℕ, ◌+◌, ◌-◌, ◌*◌, ◌^◌, ◌≤◌, ◌<◌, ◌≡◌, ◌↔◌, Bool, true, leb, ltb, arith}

pub record VramBudgetManager : Type 0 where
  pub total_bytes : ℕ
  pub weight_bytes : ℕ
  pub workspace_bytes : ℕ
  pub graph_bytes : ℕ

abbrev pub default_budget : VramBudgetManager
default_budget = record {
  total_bytes = 16 * 1024 ^ 3;
  weight_bytes = 0;
  workspace_bytes = 512 * 1024 ^ 2;
  graph_bytes = 256 * 1024 ^ 2;
}

pub record VramSnapshot : Type 0 where
  pub total_bytes : ℕ
  pub reserved_bytes : ℕ
  pub available_for_kv_bytes : ℕ
  pub background_allowed : Bool

unfoldable pub reserved_bytes : VramBudgetManager → ℕ
reserved_bytes m = m.weight_bytes + m.workspace_bytes + m.graph_bytes

module _ (safe : ℕ → ℕ) where
  -- `max(0, a - b)`
  unfoldable pub available_for_kv : VramBudgetManager → ℕ
  available_for_kv m = safe m.total_bytes - reserved_bytes m

  unfoldable pub should_accept_background : ℕ → VramBudgetManager → Bool
  should_accept_background extra m = leb extra (available_for_kv m)

  unfoldable pub snapshot : VramBudgetManager → VramSnapshot
  snapshot m = record {
    total_bytes = m.total_bytes;
    reserved_bytes = reserved_bytes m;
    available_for_kv_bytes = available_for_kv m;
    background_allowed = ltb 0 (available_for_kv m);
  }

  -- Background work that takes a positive amount of memory is accepted exactly if it fits in the
  -- safe total beside everything that is reserved.
  pub accepts_iff_fits :
      (m : VramBudgetManager) (extra : ℕ)
      → 0 < extra
      → (should_accept_background extra m ≡ true) ↔ (reserved_bytes m + extra ≤ safe m.total_bytes)
  unfolding should_accept_background available_for_kv
  accepts_iff_fits m extra h = ground arith
