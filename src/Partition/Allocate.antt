-- ===== src/Partition/Allocate.antt =====
-- src/zord/partition/allocate.py: the cells of a temporal graph, their cuts, and the corner solver that
-- stands in for the compiled one. A weight is a natural number; `none` is an index error. The
-- columns of the sources, the targets and the snapshots are of the same length; the code raises where they
-- are not.
pub mod Alike
pub mod Corners
pub mod Tests
use zord.Base.{
  ℕ, zero, suc, ◌+◌, ◌-◌, ◌*◌, ◌/◌, ◌%◌, Option, none, some, List, [], ◌∷◌, ◌++◌, ◌==◌,
  if◌then◌else◌, ltb, length, get_elem?, min, max,
}
use zord.Base.Options.{◌>>=◌}
use zord.Datasets.Numpy.{Numpy}
use zord.Datasets.Unique.{Unique}

unfoldable pub each : (ℕ → ℕ) → List ℕ → List ℕ
each f [] = []
each f (x ∷ xs) = f x ∷ each f xs

-- `vs * S + snap`
unfoldable pub keys_of : ℕ → List ℕ → List ℕ → List ℕ
keys_of s (v ∷ vs) (t ∷ snap) = (v * s + t) ∷ keys_of s vs snap
keys_of s _ _ = []

pub record Cells : Type 0 where
  pub cell_v : List ℕ
  pub cell_t : List ℕ
  pub sp : List (ℕ × ℕ)
  pub tp : List (ℕ × ℕ)

-- `a[m], b[m]` with `m = a != b`, as pairs of cells.
unfoldable pub unlike : List ℕ → List ℕ → List (ℕ × ℕ)
unlike (a ∷ as') (b ∷ bs) = let rest = unlike as' bs in if a == b then rest else (a, b) ∷ rest
unlike _ _ = []

-- The cells next to each other that are of the same vertex, from the cell `i` on.
unfoldable pub consecutive : ℕ → List ℕ → List (ℕ × ℕ)
consecutive i [] = []
consecutive i (v ∷ []) = []
consecutive i (v ∷ w ∷ vs) =
    let rest = consecutive (i + 1) (w ∷ vs) in if w == v then (i, i + 1) ∷ rest else rest

unfoldable pub build_supra_cells : Numpy → Unique → List ℕ → List ℕ → List ℕ → ℕ → Cells
unfolding each keys_of unlike consecutive
build_supra_cells np un src dst snap s =
    let ks = keys_of s src snap in
    let kd = keys_of s dst snap in
    let keys = un.unique (ks ++ kd) in
    let cell_v = each (λ k. k / s) keys in
    record {
      cell_v = cell_v;
      cell_t = each (λ k. k % s) keys;
      sp = unlike (each (np.searchsorted keys) ks) (each (np.searchsorted keys) kd);
      tp = consecutive 0 cell_v;
    }

-- `np.count_nonzero(dev[a] != dev[b])`
unfoldable pub cut : List ℕ → List (ℕ × ℕ) → Option ℕ
cut dev [] = some 0
cut dev ((a, b) ∷ pairs) = do
  x ← get_elem? dev a
  y ← get_elem? dev b
  rest ← cut dev pairs
  some ((if x == y then 0 else 1) + rest)

unfoldable pub count_cuts : List ℕ → Cells → Option (ℕ × ℕ)
unfolding cut
count_cuts dev cells = do
  spatial ← cut dev cells.sp
  temporal ← cut dev cells.tp
  some (spatial, temporal)

-- The block of a coordinate.
unfoldable pub block_of : Numpy → ℕ → List ℕ → ℕ → ℕ
block_of np d uniq c = min (np.searchsorted uniq c * d / max 1 (length uniq)) (d - 1)

unfoldable pub block : Numpy → Unique → ℕ → List ℕ → List ℕ
unfolding block_of each
block np un d coord = each (block_of np d (un.unique coord)) coord

unfoldable pub cost_of : ℕ → ℕ → Cells → List ℕ → Option ℕ
unfolding count_cuts
cost_of w_s w_t cells dev = do (sc, tc) ← count_cuts dev cells; some (w_s * sc + w_t * tc)

-- The loop over the two corners keeps the first of the least cost.
unfoldable pub numpy_supra_solve : Numpy → Unique → Cells → ℕ → ℕ → ℕ → Option (List ℕ)
unfolding block cost_of
numpy_supra_solve np un cells d w_s w_t = if length cells.cell_v == 0 then some [] else do
  let pss = block np un d cells.cell_t
  let pts = block np un d cells.cell_v
  cost_pss ← cost_of w_s w_t cells pss
  cost_pts ← cost_of w_s w_t cells pts
  some (if ltb cost_pts cost_pss then pts else pss)
