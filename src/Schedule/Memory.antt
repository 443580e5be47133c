-- ===== src/Schedule/Memory.antt =====
-- src/zord/schedule/planner.py: the tiering of one device in `plan_memory`, on the scalar path, with
-- its byte model. Bytes are natural numbers. `1.0 + ALLOC_OVERHEAD` is 5/4, so a product by it is
-- compared after a multiplication by 4, and `cap / 1.25 - overhead` is `(4 * cap - 5 * overhead) / 5`.
pub mod Capacity
pub mod Tests
use zord.Base.{
  ℕ, zero, suc, ◌+◌, ◌-◌, ◌*◌, ◌/◌, ◌≤◌, ◌<◌, ◌≡◌, ◌⊎◌, refl, inl, inr, Bool, true, false, arith,
  ltb, leb, if◌then◌else◌, Bool-cases, max, min,
}

pub record Workload : Type 0 where
  pub feat_dim : ℕ
  pub layers : ℕ
  pub window : ℕ
  pub bytes_per_feat : ℕ
  pub bytes_per_edge : ℕ

pub record MemoryPlan : Type 0 where
  pub work_nodes : ℕ
  pub work_edges : ℕ
  pub resident_snapshots : ℕ
  pub streamed_snapshots : ℕ
  pub peak_hbm_bytes : ℕ
  pub capacity_bytes : ℕ
  pub feasible : Bool

abbrev pub fwd_transient_copies : ℕ
fwd_transient_copies = 3

unfoldable pub snapshot_state_bytes : ℕ → ℕ → Workload → ℕ
snapshot_state_bytes n edges w =
    let feat = n * w.feat_dim * w.bytes_per_feat in
    let activ = w.layers * (n * w.feat_dim) * w.bytes_per_feat in
    let adj = edges * w.bytes_per_edge in feat + activ + adj

unfoldable pub runtime_overhead_bytes : ℕ → Bool → ℕ
runtime_overhead_bytes feat streaming =
    (if streaming then feat else 0) + fwd_transient_copies * feat

-- `full_resident_peak > cap`
unfoldable pub will_stream : ℕ → ℕ → ℕ → ℕ → Bool
unfolding runtime_overhead_bytes
will_stream window per_snap feat cap =
    ltb (4 * cap) (5 * (window * per_snap + runtime_overhead_bytes feat false))

-- `int(budget_for_snaps // max(1, per_snap))`; a negative budget fits nothing.
unfoldable pub fit : ℕ → ℕ → ℕ → ℕ
fit cap overhead per_snap = (4 * cap - 5 * overhead) / (5 * max 1 per_snap)

unfoldable pub resident_of : ℕ → ℕ → ℕ → ℕ
resident_of window fits reserve_buffers =
    min (if ltb fits window then min window (max 1 (fits - reserve_buffers)) else window) window

-- `int((1.0 + ALLOC_OVERHEAD) * (peak + overhead))`
unfoldable pub peak_of : ℕ → ℕ → ℕ → ℕ → ℕ → ℕ
peak_of window resident reserve_buffers per_snap overhead =
    let streamed = window - resident in
    let held = min (resident + (if ltb 0 streamed then reserve_buffers else 0)) window in
    5 * (held * per_snap + overhead) / 4

-- The plan of one device, with the numbers that the loop computes first.
unfoldable pub tier_with : Workload → ℕ → ℕ → ℕ → ℕ → ℕ → ℕ → MemoryPlan
unfolding fit resident_of peak_of
tier_with w reserve_buffers cap n_k edges_k per_snap overhead =
    if leb 1 (fit cap overhead per_snap)
    then (let resident = resident_of w.window (fit cap overhead per_snap) reserve_buffers in
        record {
          work_nodes = n_k;
          work_edges = edges_k;
          resident_snapshots = resident;
          streamed_snapshots = w.window - resident;
          peak_hbm_bytes = peak_of w.window resident reserve_buffers per_snap overhead;
          capacity_bytes = cap;
          feasible = true;
        })
    else record {
      work_nodes = n_k;
      work_edges = edges_k;
      resident_snapshots = 0;
      streamed_snapshots = w.window;
      peak_hbm_bytes = per_snap;
      capacity_bytes = cap;
      feasible = false;
    }

-- The overhead that the loop reserves.
unfoldable pub overhead_of : Workload → ℕ → ℕ → ℕ → ℕ
unfolding snapshot_state_bytes will_stream runtime_overhead_bytes
overhead_of w cap n_k edges_k =
    let feat = n_k * w.feat_dim * w.bytes_per_feat in
    runtime_overhead_bytes feat (will_stream w.window (snapshot_state_bytes n_k edges_k w) feat cap)

-- One round of the loop of `plan_memory`, without the times.
unfoldable pub tier : Workload → ℕ → ℕ → ℕ → ℕ → MemoryPlan
unfolding tier_with overhead_of
tier w reserve_buffers cap n_k edges_k =
    tier_with w reserve_buffers cap n_k edges_k (snapshot_state_bytes n_k edges_k w)
      (overhead_of w cap n_k edges_k)
