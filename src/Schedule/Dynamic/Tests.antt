-- ===== src/Schedule/Dynamic/Tests.antt =====
-- Tests and examples of the placement of the changed cone.
use zord.Base.{
  ℕ, ◌≡◌, ◌≤◌, ◌<◌, ◌*◌, refl, List, [], ◌∷◌, Option, some, length, get_elem?, All, arith,
}
use zord.Base.Ranges.{range_up}
use zord.Datasets.Numpy.{gather}
use mathlib.Core.List.{Permᴰ}
use zord.Datasets.Unique.{distinct_items, distinct}
use zord.Datasets.Argpartition.{sorting}
use zord.Datasets.Numpy.Insertion.{argsort}
use zord.Schedule.Dynamic.{partition_incremental}
use zord.Schedule.Dynamic.Migration.{
  IncrementalPlan, permutations_of, migration_match, plan_incremental, changed,
}
use zord.Schedule.Dynamic.Kept.{Absent, partition_incremental-kept}
use zord.Schedule.Dynamic.Total.{partition_incremental-total}
use zord.Schedule.Dynamic.Idle.{partition_incremental-idle}
use zord.Schedule.Dynamic.Matching.{migration_match-Relabels}
use zord.Schedule.Dynamic.Budget.{plan_incremental-within_budget}

-- A ring of four vertices, of which the last is new with its edge to the first.
abbrev src : List ℕ
src = 0 ∷ 1 ∷ 2 ∷ 3 ∷ []

abbrev dst : List ℕ
dst = 1 ∷ 2 ∷ 3 ∷ 0 ∷ []

abbrev prior : List (Option ℕ)
prior = some 0 ∷ some 0 ∷ some 1 ∷ []

incremental :
    partition_incremental distinct_items sorting src dst 4 2 (some prior) 3 1
    ≡ some (some 0 ∷ some 0 ∷ some 1 ∷ some 1 ∷ [])
unfolding partition_incremental distinct argsort
incremental = refl

three :
    permutations_of 3 (0 ∷ 1 ∷ 2 ∷ [])
    ≡ (0 ∷ 1 ∷ 2 ∷ [])
      ∷ (0 ∷ 2 ∷ 1 ∷ [])
      ∷ (1 ∷ 0 ∷ 2 ∷ [])
      ∷ (1 ∷ 2 ∷ 0 ∷ [])
      ∷ (2 ∷ 0 ∷ 1 ∷ [])
      ∷ (2 ∷ 1 ∷ 0 ∷ [])
      ∷ []
unfolding permutations_of
three = refl

-- Labels that are only swapped are no move.
swapped :
    migration_match (some (0 ∷ 0 ∷ 1 ∷ [])) (1 ∷ 1 ∷ 0 ∷ 1 ∷ []) 2 ≡ some (0, 0 ∷ 0 ∷ 1 ∷ 0 ∷ [])
unfolding migration_match range_up
swapped = refl

-- On more than six devices, two devices get one label.
merged :
    migration_match (some (0 ∷ 0 ∷ 0 ∷ 0 ∷ [])) (0 ∷ 0 ∷ 1 ∷ 1 ∷ []) 7
    ≡ some (0, 0 ∷ 0 ∷ 0 ∷ 0 ∷ [])
unfolding migration_match
merged = refl

-- The vertex 2 keeps the device 1.
partition_incremental-kept_example :
    (moved : List ℕ) × (length moved ≤ 1)
    × ((v c : ℕ)
        → v < 4
        → get_elem? prior v ≡ some (some c)
        → Absent v moved
        → get_elem? (some 0 ∷ some 0 ∷ some 1 ∷ some 1 ∷ []) v ≡ some (some c))
partition_incremental-kept_example =
    partition_incremental-kept distinct_items sorting src dst 4 2 prior 3 1
      (some 0 ∷ some 0 ∷ some 1 ∷ some 1 ∷ []) incremental

partition_incremental-total_example :
    (a' : List (Option ℕ)) × (partition_incremental distinct_items sorting src dst 4 2
        (some prior)
        3
        1
      ≡ some a')
    × (length a' ≡ 4)
    × ((v : ℕ) → v < 4 → (c : ℕ) × (get_elem? a' v ≡ some (some c)) × (c < 2))
partition_incremental-total_example =
    partition_incremental-total distinct_items sorting src dst 4 2 (some prior) 3 1 (omega arith)
      (omega arith, (omega arith, (omega arith, (omega arith, tt))))
      (omega arith, (omega arith, (omega arith, (omega arith, tt))))
      (omega arith, (omega arith, (omega arith, tt)))

migration_match-Relabels_example :
    (moved : ℕ) × (remapped : List ℕ) × (remap : List ℕ) × (migration_match
        (some (0 ∷ 0 ∷ 1 ∷ []))
        (1 ∷ 1 ∷ 0 ∷ 1 ∷ [])
        2
      ≡ some (moved, remapped))
    × Permᴰ (range_up 0 2) remap
    × (gather remap (1 ∷ 1 ∷ 0 ∷ 1 ∷ []) ≡ some remapped)
    × (moved ≡ changed (0 ∷ 0 ∷ 1 ∷ []) remapped)
    × (moved ≤ changed (0 ∷ 0 ∷ 1 ∷ []) (1 ∷ 1 ∷ 0 ∷ 1 ∷ []))
    × ((q e : List ℕ)
        → Permᴰ (range_up 0 2) q
        → gather q (1 ∷ 1 ∷ 0 ∷ 1 ∷ []) ≡ some e
        → moved ≤ changed (0 ∷ 0 ∷ 1 ∷ []) e)
migration_match-Relabels_example =
    migration_match-Relabels (0 ∷ 0 ∷ 1 ∷ []) (1 ∷ 1 ∷ 0 ∷ 1 ∷ []) 2 (omega arith)
      (omega arith, (omega arith, (omega arith, (omega arith, tt))))

plan_incremental-within_budget_example :
    (plan : IncrementalPlan) × (plan_incremental distinct_items sorting src dst 4 2
        (some (0 ∷ 0 ∷ 1 ∷ []))
        3
        1
        16
      ≡ some plan)
    × (length plan.assignment ≡ 4)
    × All (λ c. c < 2) plan.assignment
    × (plan.moved_vertices ≡ changed (0 ∷ 0 ∷ 1 ∷ []) plan.assignment)
    × (plan.moved_vertices ≤ 1)
    × (plan.migrated_bytes ≤ 1 * 16 * 4)
plan_incremental-within_budget_example =
    plan_incremental-within_budget distinct_items sorting src dst 4 2 (0 ∷ 0 ∷ 1 ∷ []) 3 1 16
      (omega arith) (omega arith) (omega arith, (omega arith, (omega arith, (omega arith, tt))))
      (omega arith, (omega arith, (omega arith, (omega arith, tt))))
      (omega arith, (omega arith, (omega arith, tt)))

-- A ring whose edges have all been placed before stays where it is.
partition_incremental-idle_example :
    partition_incremental distinct_items sorting src dst 4 2
      (some (some 0 ∷ some 1 ∷ some 0 ∷ some 1 ∷ []))
      4
      2
    ≡ some (some 0 ∷ some 1 ∷ some 0 ∷ some 1 ∷ [])
partition_incremental-idle_example =
    partition_incremental-idle distinct_items sorting src dst 1 (0 ∷ 1 ∷ 0 ∷ 1 ∷ []) 4 2
      (omega arith)
