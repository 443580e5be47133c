-- ===== src/Datasets/TemporalGraph.antt =====
-- src/zord/datasets/temporal_graph.py and src/zord/storage/backend.py: the graph in columns, its
-- snapshots and batches, and the store that holds it in memory. A node, a time and the bit pattern
-- of a float32 are natural numbers; `none` is an exception. The name of a graph is left out.
pub mod Sorting
pub mod Store
pub mod Tiling
pub mod Batches
pub mod Tests
use zord.Base.{
  ℕ, zero, suc, ◌+◌, ◌-◌, ◌/◌, Bool, true, false, Option, none, some, List, [], ◌∷◌, ◌++◌, min, max,
  leb, if◌then◌else◌, length,
}
use zord.Base.Options.{◌>>=◌}
use zord.Base.Ranges.{range_step}
use zord.Base.Rows.{slice, zip}
use zord.Datasets.Numpy.{Numpy, gather}

pub record Snapshot : Type 0 where
  pub index : ℕ
  pub t_start : ℕ
  pub t_end : ℕ
  pub lo : ℕ
  pub hi : ℕ

pub record TemporalGraph : Type 0 where
  pub src : List ℕ
  pub dst : List ℕ
  pub t : List ℕ
  pub w : Option (List ℕ)
  pub efeat : Option (List (List ℕ))
  pub num_nodes : ℕ
  pub is_sorted : Bool

-- `x.max(initial=-1) + 1`
unfoldable pub bound : List ℕ → ℕ
bound [] = 0
bound (x ∷ xs) = max (x + 1) (bound xs)

-- The constructor with `__post_init__`.
unfoldable pub make :
    List ℕ → List ℕ → List ℕ → Option (List ℕ) → Option (List (List ℕ)) → Option ℕ → TemporalGraph
unfolding bound
make src dst t w efeat num_nodes = record {
  src = src;
  dst = dst;
  t = t;
  w = w;
  efeat = efeat;
  num_nodes = elim num_nodes [ none ↦ max (bound src) (bound dst) | some n ↦ n ];
  is_sorted = false;
}

-- `x[order]` for a column that may be absent.
unfoldable pub gather_optional {ℓ} :
    {A : Type ℓ} → Option (List A) → List ℕ → Option (Option (List A))
unfolding gather
gather_optional none order = some none
gather_optional (some xs) order = elim (gather xs order) [ none ↦ none | some ys ↦ some (some ys) ]

-- The columns in the order `order`.
unfoldable pub reorder : TemporalGraph → List ℕ → Option TemporalGraph
unfolding gather gather_optional
reorder g order = do
  src ← gather g.src order
  dst ← gather g.dst order
  t ← gather g.t order
  w ← gather_optional g.w order
  efeat ← gather_optional g.efeat order
  some (record {
    src = src;
    dst = dst;
    t = t;
    w = w;
    efeat = efeat;
    num_nodes = g.num_nodes;
    is_sorted = true;
  })

unfoldable pub sort_by_time : Numpy → TemporalGraph → Option TemporalGraph
unfolding reorder
sort_by_time np g = if g.is_sorted then some g else reorder g (np.argsort g.t)

unfoldable pub tmin : List ℕ → ℕ
tmin [] = 0
tmin (x ∷ []) = x
tmin (x ∷ y ∷ xs) = min x (tmin (y ∷ xs))

unfoldable pub tmax : List ℕ → ℕ
tmax [] = 0
tmax (x ∷ xs) = max x (tmax xs)

-- The time step: `none` is the division by zero, or the step of 0 that `np.arange` refuses.
unfoldable pub interval_of : Option ℕ → Option ℕ → ℕ → Option ℕ
interval_of num_snapshots (some zero) width = none
interval_of num_snapshots (some (suc n)) width = some (suc n)
interval_of (some zero) none width = none
interval_of (some (suc n)) none width = some (max 1 ((width + suc n - 1) / suc n))
interval_of none none width = some (max 1 ((width + 32 - 1) / 32))

-- `np.arange(lo_t, hi_t + interval, interval)`
unfoldable pub boundaries_of : ℕ → ℕ → ℕ → List ℕ
unfolding range_step
boundaries_of lo_t hi_t interval =
    range_step (hi_t + interval - lo_t) lo_t (hi_t + interval) interval

-- The loop over the boundaries, from the boundary `b`; an empty snapshot is left out.
unfoldable pub cut : Numpy → List ℕ → ℕ → ℕ → List ℕ → List Snapshot
cut np t idx b [] = []
cut np t idx b (b' ∷ boundaries) =
    let lo = np.searchsorted t b in
    let hi = np.searchsorted t b' in
    let skipped = cut np t idx b' boundaries in
    let rest = cut np t (idx + 1) b' boundaries in
    if leb hi lo
    then skipped
    else (record { index = idx; t_start = b; t_end = b'; lo = lo; hi = hi } ∷ rest)

unfoldable pub cut_all : Numpy → List ℕ → List ℕ → List Snapshot
unfolding cut
cut_all np t [] = []
cut_all np t (b ∷ boundaries) = cut np t 0 b boundaries

-- The snapshots of a graph that is sorted.
unfoldable pub snapshots_of : Numpy → Option ℕ → Option ℕ → TemporalGraph → Option (List Snapshot)
unfolding interval_of boundaries_of cut_all tmin tmax
snapshots_of np num_snapshots interval g = do
  step ← interval_of num_snapshots interval (tmax g.t + 1 - tmin g.t)
  some (cut_all np g.t (boundaries_of (tmin g.t) (tmax g.t + 1) step))

-- With the graph, which is sorted in place.
unfoldable pub to_snapshots :
    Numpy → Option ℕ → Option ℕ → TemporalGraph → Option (TemporalGraph × List Snapshot)
unfolding sort_by_time snapshots_of
to_snapshots np num_snapshots interval g = if leb (length g.src) 0 then some (g, []) else do
  g' ← sort_by_time np g
  snaps ← snapshots_of np num_snapshots interval g'
  some (g', snaps)

-- `stride or window`; a step of 0 is an error.
unfoldable pub step_of : Option ℕ → ℕ → Option ℕ
step_of (some (suc n)) window = some (suc n)
step_of _ zero = none
step_of _ (suc n) = some (suc n)

unfoldable pub windows_at : List Snapshot → ℕ → List ℕ → List (List Snapshot)
windows_at snapshots window [] = []
windows_at snapshots window (start ∷ starts) =
    slice start (start + window) snapshots ∷ windows_at snapshots window starts

unfoldable pub batches : List Snapshot → ℕ → Option ℕ → Option (List (List Snapshot))
unfolding step_of windows_at range_step
batches snapshots window stride = do
  step ← step_of stride window
  let stop = max 1 (length snapshots + 1 - window)
  some (windows_at snapshots window (range_step stop 0 stop step))

-- The edges of a graph as rows of source, destination and time.
abbrev pub edges : TemporalGraph → List (ℕ × (ℕ × ℕ))
edges g = zip g.src (zip g.dst g.t)

-- The constructor of `InMemoryBackend`, whose state is its graph.
unfoldable pub init : Numpy → TemporalGraph → Option TemporalGraph
unfolding sort_by_time
init np graph = sort_by_time np graph

unfoldable pub slice_optional {ℓ} : {A : Type ℓ} → ℕ → ℕ → Option (List A) → Option (List A)
slice_optional lo hi none = none
slice_optional lo hi (some xs) = some (slice lo hi xs)

unfoldable pub range : Numpy → TemporalGraph → ℕ → ℕ → TemporalGraph
unfolding slice_optional make
range np g t0 t1 =
    let lo = np.searchsorted g.t t0 in
    let hi = np.searchsorted g.t t1 in
    make (slice lo hi g.src) (slice lo hi g.dst) (slice lo hi g.t) (slice_optional lo hi g.w) none
      (some g.num_nodes)

-- The weights that are passed are not stored.
unfoldable pub ingest :
    Numpy → TemporalGraph → List ℕ → List ℕ → List ℕ → Option (List ℕ) → Option TemporalGraph
unfolding sort_by_time
ingest np g src dst t w =
    sort_by_time np
      (record g { src = g.src ++ src; dst = g.dst ++ dst; t = g.t ++ t; is_sorted = false })
