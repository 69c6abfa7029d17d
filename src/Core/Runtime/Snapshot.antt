-- ===== src/Core/Runtime/Snapshot.antt =====
-- `metrics_snapshot` of src/solort/core/runtime.py, which the server's metrics handler returns.
use solo_rt.Prelude.{ℕ, Option, none, some, String}
use solo_rt.Cache.KvCache.Snapshot
use solo_rt.Cache.KvCache.Snapshot.{KvCacheSnapshot}
use solo_rt.Cache.PrefixCache
use solo_rt.Cache.PrefixCache.{PrefixCacheSnapshot}
use solo_rt.Cache.VramManager
use solo_rt.Cache.VramManager.{VramSnapshot}
use solo_rt.Core.Metrics
use solo_rt.Core.Metrics.{MetricsSnapshot}
use solo_rt.Core.Scheduler
use solo_rt.Core.Scheduler.{SchedulerSnapshot}
use solo_rt.Core.Session
use solo_rt.Core.Session.{SessionSnapshot}
use solo_rt.Core.Runtime.{RuntimeCore}

-- An executor's name, and its `snapshot`, if it has that method.
pub record ExecutorInfo (E N : Type 0) : Type 0 where
  pub name : String
  pub snapshot : Option (E → N)

pub record RuntimeSnapshot (N : Type 0) : Type 0 where
  pub runtime : MetricsSnapshot
  pub executor : String
  pub executor_stats : Option N
  pub scheduler : SchedulerSnapshot
  pub sessions : SessionSnapshot
  pub kv_cache : KvCacheSnapshot
  pub prefix_cache : PrefixCacheSnapshot
  pub vram : VramSnapshot

-- `_executor_snapshot`; an empty dict is none.
unfoldable pub executor_snapshot : {E N : Type 0} → ExecutorInfo E N → E → Option N
executor_snapshot info executor = elim info.snapshot [
  | none ↦ none
  | some take ↦ some (take executor)
]

-- `metrics_snapshot`, where `safe` is the safe part of the VRAM.
unfoldable pub metrics_snapshot :
    {E N : Type 0} → (ℕ → ℕ) → ExecutorInfo E N → RuntimeCore E → RuntimeSnapshot N
unfolding executor_snapshot
metrics_snapshot safe info r = record {
  runtime = Metrics.snapshot r.metrics;
  executor = info.name;
  executor_stats = executor_snapshot info r.executor;
  scheduler = Scheduler.snapshot r.scheduler;
  sessions = Session.snapshot r.session_manager;
  kv_cache = Snapshot.snapshot r.kv_cache;
  prefix_cache = PrefixCache.snapshot r.prefix_cache;
  vram = VramManager.snapshot safe r.vram_manager;
}
