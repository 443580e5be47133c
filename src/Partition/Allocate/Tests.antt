-- ===== src/Partition/Allocate/Tests.antt =====
-- Tests and examples of the cells and the corner solver.
use zord.Base.{ℕ, ◌*◌, ◌≤◌, ◌≡◌, refl, List, [], ◌∷◌, some, arith}
use zord.Datasets.Numpy.Insertion.{insertion, searchsorted}
use zord.Datasets.Unique.{distinct_items, distinct}
use zord.Partition.Allocate.{Cells, build_supra_cells, cut, block, cost_of, numpy_supra_solve}
use zord.Partition.Allocate.Corners.{numpy_supra_solve-cost}

-- Edges 0-1 and 1-2 in the first of two snapshots, and 0-1 in the second.
abbrev src : List ℕ
src = 0 ∷ 1 ∷ 0 ∷ []

abbrev dst : List ℕ
dst = 1 ∷ 2 ∷ 1 ∷ []

abbrev snap : List ℕ
snap = 0 ∷ 0 ∷ 1 ∷ []

abbrev table : Cells
table = record {
  cell_v = 0 ∷ 0 ∷ 1 ∷ 1 ∷ 2 ∷ [];
  cell_t = 0 ∷ 1 ∷ 0 ∷ 1 ∷ 0 ∷ [];
  sp = (0, 2) ∷ (2, 4) ∷ (1, 3) ∷ [];
  tp = (0, 1) ∷ (2, 3) ∷ [];
}

built : build_supra_cells insertion distinct_items src dst snap 2 ≡ table
unfolding build_supra_cells searchsorted distinct
built = refl

-- Whole timelines cut one edge, whole snapshots two vertices.
solved :
    numpy_supra_solve insertion distinct_items
      (build_supra_cells insertion distinct_items src dst snap 2)
      2
      1
      1
    ≡ some (0 ∷ 0 ∷ 0 ∷ 0 ∷ 1 ∷ [])
unfolding numpy_supra_solve build_supra_cells searchsorted distinct
solved = refl

numpy_supra_solve-cost_example :
    (dev : List ℕ) × (cost : ℕ) × (tc : ℕ) × (sc : ℕ) × (numpy_supra_solve insertion distinct_items
        (build_supra_cells insertion distinct_items src dst snap 2)
        2
        1
        1
      ≡ some dev)
    × (cost_of 1 1 (build_supra_cells insertion distinct_items src dst snap 2) dev ≡ some cost)
    × (cut
          (block insertion distinct_items 2
            (build_supra_cells insertion distinct_items src dst snap 2).cell_t)
          (build_supra_cells insertion distinct_items src dst snap 2).tp
        ≡ some tc)
    × (cut
          (block insertion distinct_items 2
            (build_supra_cells insertion distinct_items src dst snap 2).cell_v)
          (build_supra_cells insertion distinct_items src dst snap 2).sp
        ≡ some sc)
    × (cost ≤ 1 * tc)
    × (cost ≤ 1 * sc)
unfolding build_supra_cells distinct
numpy_supra_solve-cost_example =
    numpy_supra_solve-cost insertion distinct_items src dst snap 2 2 1 1
      (omega arith, (omega arith, (omega arith, tt))) (omega arith)
