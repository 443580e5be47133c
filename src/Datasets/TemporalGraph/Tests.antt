-- ===== src/Datasets/TemporalGraph/Tests.antt =====
-- Tests and examples of the temporal graph and its store.
use zord.Base.{◌≡◌, refl, true, false, List, [], ◌∷◌, ◌++◌, none, some, All, length, arith}
use zord.Base.Rows.{zip, filter}
use zord.Datasets.Numpy.Insertion.{insertion, argsort, searchsorted}
use zord.Datasets.TemporalGraph.{
  Snapshot, TemporalGraph, make, edges, sort_by_time, to_snapshots, range, ingest,
}
use zord.Datasets.TemporalGraph.Sorting.{IsValid}
use zord.Datasets.TemporalGraph.Store.{in_window, range-filter, ingest-edges}
use zord.Datasets.TemporalGraph.Tiling.{Tiles, Covers, to_snapshots-Tiles}
use mathlib.Core.List.{Permᴰ}

-- Three edges out of order, and the same with weights.
abbrev graph : TemporalGraph
graph = record {
  src = 0 ∷ 1 ∷ 2 ∷ [];
  dst = 1 ∷ 2 ∷ 0 ∷ [];
  t = 30 ∷ 10 ∷ 20 ∷ [];
  w = none;
  efeat = none;
  num_nodes = 3;
  is_sorted = false;
}

abbrev weighted : TemporalGraph
weighted = record graph { w = some (7 ∷ 8 ∷ 9 ∷ []) }

abbrev ordered : TemporalGraph
ordered = record {
  src = 1 ∷ 2 ∷ 0 ∷ [];
  dst = 2 ∷ 0 ∷ 1 ∷ [];
  t = 10 ∷ 20 ∷ 30 ∷ [];
  w = none;
  efeat = none;
  num_nodes = 3;
  is_sorted = true;
}

made : make (0 ∷ 1 ∷ 2 ∷ []) (1 ∷ 2 ∷ 0 ∷ []) (30 ∷ 10 ∷ 20 ∷ []) none none none ≡ graph
unfolding make
made = refl

sorts : sort_by_time insertion graph ≡ some ordered
unfolding sort_by_time argsort
sorts = refl

graph-IsValid : IsValid graph
graph-IsValid = record {
  dst_length = refl;
  t_length = refl;
  w_length = tt;
  efeat_length = tt;
  in_order = λ e. absurd (cc);
}

weighted-IsValid : IsValid weighted
weighted-IsValid = record {
  dst_length = refl;
  t_length = refl;
  w_length = refl;
  efeat_length = tt;
  in_order = λ e. absurd (cc);
}

two_snapshots :
    to_snapshots insertion (some 2) none graph
    ≡ some (
      ordered,
      record { index = 0; t_start = 10; t_end = 21; lo = 0; hi = 2 }
          ∷ record { index = 1; t_start = 21; t_end = 32; lo = 2; hi = 3 }
          ∷ [],
    )
unfolding to_snapshots argsort searchsorted
two_snapshots = refl

to_snapshots-Tiles_example :
    (g' : TemporalGraph) × (snaps : List Snapshot) × (to_snapshots insertion (some 2) none graph
      ≡ some (g', snaps))
    × Permᴰ (edges graph) (edges g')
    × Tiles 0 0 snaps (length g'.src)
    × All (Covers g'.t) snaps
to_snapshots-Tiles_example =
    to_snapshots-Tiles insertion (some 2) none (omega arith) graph graph-IsValid

range-filter_example :
    edges (range insertion ordered 15 30) ≡ filter (in_window 15 30) (edges ordered)
range-filter_example =
    range-filter insertion ordered 15 30
      ((omega arith, (omega arith, tt)), ((omega arith, tt), (tt, tt)))

ingest-edges_example :
    (g' : TemporalGraph) × (ingest insertion graph (5 ∷ []) (0 ∷ []) (15 ∷ []) (some (4 ∷ []))
      ≡ some g')
    × IsValid g'
    × (g'.is_sorted ≡ true)
    × Permᴰ (edges graph ++ zip (5 ∷ []) (zip (0 ∷ []) (15 ∷ []))) (edges g')
    × (g'.num_nodes ≡ 3)
ingest-edges_example =
    ingest-edges insertion graph graph-IsValid (5 ∷ []) (0 ∷ []) (15 ∷ []) (some (4 ∷ [])) refl refl
      refl refl

abbrev snapshots : List Snapshot
snapshots =
    record { index = 0; t_start = 10; t_end = 21; lo = 0; hi = 2 }
    ∷ record { index = 1; t_start = 21; t_end = 32; lo = 2; hi = 3 }
    ∷ []
