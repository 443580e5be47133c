-- ===== src/Schedule/Dynamic/Migration.antt =====
-- src/zord/schedule/dynamic.py: the matching of the device labels with the batch before, and the plan
-- of a batch. The devices of a prior assignment are not negative; the time of the migration and the
-- note of a plan are left out. `none` is an error.
use zord.Base.{
  ℕ, zero, suc, ◌+◌, ◌-◌, ◌*◌, Option, none, some, List, [], ◌∷◌, ◌++◌, ◌==◌, if◌then◌else◌, ltb,
  leb, length, min, map,
}
use zord.Base.Options.{◌>>=◌}
use zord.Base.Rows.{take}
use zord.Base.Ranges.{range_up}
use zord.Datasets.Numpy.{gather}
use zord.Datasets.Unique.{Unique}
use zord.Datasets.Argpartition.{Argpartition}
use zord.Partition.Hetero.{argmax}
use zord.Partition.Cost.{row_from, below}
use zord.Schedule.Dynamic.{partition_incremental}

-- `int((a != b).sum())`
unfoldable pub changed : List ℕ → List ℕ → ℕ
changed (x ∷ xs) (y ∷ ys) = (if x == y then 0 else 1) + changed xs ys
changed _ _ = 0

-- `itertools.permutations`: each item in turn before the permutations of the others.
unfoldable pub behind : ℕ → List (ℕ × List ℕ) → List (ℕ × List ℕ)
behind x [] = []
behind x ((y, rest) ∷ ps) = (y, x ∷ rest) ∷ behind x ps

unfoldable pub picks : List ℕ → List (ℕ × List ℕ)
unfolding behind
picks [] = []
picks (x ∷ xs) = (x, xs) ∷ behind x (picks xs)

unfoldable pub before : ℕ → List (List ℕ) → List (List ℕ)
before x [] = []
before x (p ∷ ps) = (x ∷ p) ∷ before x ps

unfoldable pub each_pick : (List ℕ → List (List ℕ)) → List (ℕ × List ℕ) → List (List ℕ)
unfolding before
each_pick f [] = []
each_pick f ((x, rest) ∷ ps) = before x (f rest) ++ each_pick f ps

unfoldable pub permutations_of : ℕ → List ℕ → List (List ℕ)
unfolding each_pick picks
permutations_of zero xs = [] ∷ []
permutations_of (suc n) xs = each_pick (permutations_of n) (picks xs)

-- The loop over the permutations, with the best so far and its count.
unfoldable pub best_of : List ℕ → List ℕ → ℕ → List ℕ → List (List ℕ) → Option (List ℕ)
unfolding changed gather
best_of a b count best [] = some best
best_of a b count best (perm ∷ perms) = do
  c ← gather perm b
  let n = changed a c
  best_of a b (if ltb n count then n else count) (if ltb n count then perm else best) perms

-- `overlap.argmax(axis=1)`, for the labels from `i` on.
unfoldable pub overlap_from : ℕ → ℕ → ℕ → List ℕ → List ℕ → List ℕ
unfolding row_from argmax
overlap_from i zero p a b = []
overlap_from i (suc n) p a b = argmax (row_from i 0 p b a) ∷ overlap_from (i + 1) n p a b

abbrev pub exact_match_max_dev : ℕ
exact_match_max_dev = 6

unfoldable pub remap_of : ℕ → List ℕ → List ℕ → Option (List ℕ)
unfolding permutations_of best_of below overlap_from
remap_of p a b =
    if leb p exact_match_max_dev
    then best_of a b (length a) (range_up 0 p) (permutations_of p (range_up 0 p))
    else (below p a >>= (λ _. below p b >>= (λ _. some (overlap_from 0 p p a b))))

-- The vertices that changed their device, and the labels that match.
unfoldable pub migration_match : Option (List ℕ) → List ℕ → ℕ → Option (ℕ × List ℕ)
unfolding remap_of changed gather
migration_match none cur p = some (0, cur)
migration_match (some prev) cur p = do
  let k = min (length prev) (length cur)
  if k == 0 then some (0, cur) else do
    remap ← remap_of p (take k prev) (take k cur)
    remapped ← gather remap cur
    some (changed (take k prev) (take k remapped), remapped)

-- An assignment as numbers; a vertex without a device is refused.
unfoldable pub placed_all : List (Option ℕ) → Option (List ℕ)
placed_all [] = some []
placed_all (none ∷ a) = none
placed_all (some c ∷ a) = do rest ← placed_all a; some (c ∷ rest)

pub record IncrementalPlan : Type 0 where
  pub assignment : List ℕ
  pub moved_vertices : ℕ
  pub migrated_bytes : ℕ
  pub new_vertices : ℕ

unfoldable pub plan_incremental :
    Unique
    → Argpartition
    → List ℕ
    → List ℕ
    → ℕ
    → ℕ
    → Option (List ℕ)
    → ℕ
    → ℕ
    → ℕ
    → Option IncrementalPlan
unfolding partition_incremental placed_all migration_match
plan_incremental un np src dst n d none lo budget mem_dim = do
  a ← partition_incremental un np src dst n d none 0 budget
  cur ← placed_all a
  some (record { assignment = cur; moved_vertices = 0; migrated_bytes = 0; new_vertices = n })
plan_incremental un np src dst n d (some prior) lo budget mem_dim = do
  a ← partition_incremental un np src dst n d (some (map some prior)) lo budget
  cur ← placed_all a
  (moved, matched) ← migration_match (some prior) cur d
  some (record {
    assignment = matched;
    moved_vertices = moved;
    migrated_bytes = moved * mem_dim * 4;
    new_vertices = n - min n (length prior);
  })
