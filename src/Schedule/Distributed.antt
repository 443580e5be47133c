-- ===== src/Schedule/Distributed.antt =====
-- src/zord/schedule/distributed.py: the halo exchange of a partition over ranks, and its check. A
-- rank is a natural number; `none` is a replicated vertex (-1). `none` of a result is an index error. The times and
-- bandwidths of a rank are left out.
mod Members
mod Crossing
pub mod Keep
pub mod Halo
pub mod Totals
pub mod Check
pub mod Tests
use zord.Base.{
  ℕ, zero, suc, ◌+◌, ◌*◌, ◌/◌, Bool, true, false, not, Option, none, some, List, [], ◌∷◌, ◌++◌,
  ◌==◌, if◌then◌else◌, length, max,
}
use zord.Base.Options.{◌>>=◌}
use zord.Base.Ranges.{range_up}
use zord.Datasets.Numpy.{Numpy, gather}

-- The node of each rank is what the plan uses of a topology.
pub record RankSpec : Type 0 where
  pub rank : ℕ
  pub node : ℕ

abbrev pub nodes : List RankSpec → List ℕ
nodes [] = []
nodes (r ∷ ranks) = r.node ∷ nodes ranks

-- The entries of `np.bincount(xs)` at `x`.
unfoldable pub count : ℕ → List ℕ → ℕ
count x [] = 0
count x (y ∷ ys) = (if x == y then 1 else 0) + count x ys

-- For each pair a, b of ranks `ra`, `rb`: `a`'s rank needs the row of `b` if the ranks differ; the
-- row is the key `ra * N + b`, with the rank that it comes from.
unfoldable pub crossing : ℕ → List (Option ℕ) → List (Option ℕ) → List ℕ → List (ℕ × ℕ)
crossing n (some r ∷ ras) (some s ∷ rbs) (b ∷ bs) =
    let rest = crossing n ras rbs bs in if r == s then rest else (r * n + b, s) ∷ rest
crossing n (_ ∷ ras) (_ ∷ rbs) (_ ∷ bs) = crossing n ras rbs bs
crossing n _ _ _ = []

abbrev pub firsts : List (ℕ × ℕ) → List ℕ
firsts [] = []
firsts (p ∷ ps) = p.0 ∷ firsts ps

abbrev pub seconds : List (ℕ × ℕ) → List ℕ
seconds [] = []
seconds (p ∷ ps) = p.1 ∷ seconds ps

abbrev pub follows : Option ℕ → ℕ → Bool
follows none k = false
follows (some j) k = j == k

-- `keep[1:] = key_s[1:] != key_s[:-1]`, with the key before, if there is one.
unfoldable pub keep : Option ℕ → List ℕ → List ℕ → List (ℕ × ℕ)
keep prev (k ∷ ks) (s ∷ ss) =
    let rest = keep (some k) ks ss in if follows prev k then rest else (k, s) ∷ rest
keep prev _ _ = []

-- The distinct rows that are received.
unfoldable pub halo : Numpy → ℕ → List (Option ℕ) → List ℕ → List ℕ → Option (List (ℕ × ℕ))
unfolding crossing keep gather
halo np n assignment src dst = do
  ra ← gather assignment (src ++ dst)
  rb ← gather assignment (dst ++ src)
  let rows = crossing n ra rb (dst ++ src)
  let order = np.argsort (firsts rows)
  key_s ← gather (firsts rows) order
  rs_s ← gather (seconds rows) order
  some (keep none key_s rs_s)

-- The receiving ranks of the rows that come from the same node, and of the others.
unfoldable pub by_link : ℕ → List ℕ → List (ℕ × ℕ) → Option (List ℕ × List ℕ)
unfolding gather
by_link n node_of [] = some ([], [])
by_link n node_of ((k, s) ∷ rows) = do
  to ← gather node_of (k / n ∷ [])
  from ← gather node_of (s ∷ [])
  (intra, inter) ← by_link n node_of rows
  some (if same to from then (k / n ∷ intra, inter) else (intra, k / n ∷ inter))
  where
    same : List ℕ → List ℕ → Bool
    same (x ∷ _) (y ∷ _) = x == y
    same _ _ = false

-- `incident[r]`, over the vertices from `v`.
unfoldable pub incident : ℕ → ℕ → List (Option ℕ) → List ℕ → ℕ
unfolding count
incident r v [] ends = 0
incident r v (none ∷ assignment) ends = incident r (v + 1) assignment ends
incident r v (some s ∷ assignment) ends =
    (if s == r then count v ends else 0) + incident r (v + 1) assignment ends

unfoldable pub local_nodes : ℕ → List (Option ℕ) → ℕ
local_nodes r [] = 0
local_nodes r (none ∷ assignment) = local_nodes r assignment
local_nodes r (some s ∷ assignment) = (if s == r then 1 else 0) + local_nodes r assignment

pub record RankPlan : Type 0 where
  pub rank : ℕ
  pub node : ℕ
  pub local : ℕ
  pub recv_rows_intra : ℕ
  pub recv_rows_inter : ℕ
  pub incident_edges : ℕ

pub record DistributedPlan : Type 0 where
  pub per_rank : List RankPlan
  pub total_intra_rows : ℕ
  pub total_inter_rows : ℕ
  pub same_result : Bool

unfoldable pub rank_plans : ℕ → List ℕ → List (Option ℕ) → List ℕ → List ℕ → List ℕ → List RankPlan
unfolding incident local_nodes count
rank_plans r [] assignment ends intra inter = []
rank_plans r (node ∷ node_of) assignment ends intra inter =
    record {
      rank = r;
      node = node;
      local = local_nodes r assignment;
      recv_rows_intra = count r intra;
      recv_rows_inter = count r inter;
      incident_edges = incident r 0 assignment ends;
    }
    ∷ rank_plans (r + 1) node_of assignment ends intra inter

abbrev pub totals : (RankPlan → ℕ) → List RankPlan → ℕ
totals f [] = 0
totals f (p ∷ ps) = f p + totals f ps

-- The length of `np.bincount(ends, minlength=N)`.
unfoldable pub deg_length : ℕ → List ℕ → ℕ
deg_length n [] = n
deg_length n (x ∷ ends) = max (x + 1) (deg_length n ends)

-- `deg[homed]`: the mask must be as long as `deg`.
unfoldable pub masked : ℕ → List (Option ℕ) → List ℕ → Option Bool
unfolding deg_length
masked n assignment ends = if length assignment == deg_length n ends then some true else none

unfoldable pub plan_distributed :
    Numpy → List (Option ℕ) → List ℕ → List ℕ → ℕ → List RankSpec → Option DistributedPlan
unfolding halo by_link rank_plans masked
plan_distributed np assignment src dst num_nodes ranks = do
  _ ← masked num_nodes assignment (src ++ dst)
  rows ← halo np num_nodes assignment src dst
  (intra, inter) ← by_link num_nodes (nodes ranks) rows
  let per_rank = rank_plans 0 (nodes ranks) assignment (src ++ dst) intra inter
  some (record {
    per_rank = per_rank;
    total_intra_rows = totals (λ p. p.recv_rows_intra) per_rank;
    total_inter_rows = totals (λ p. p.recv_rows_inter) per_rank;
    same_result = true;
  })

-- `(ra < 0) ^ (rb < 0)` for no pair.
unfoldable pub none_bad : List (Option ℕ) → List (Option ℕ) → Bool
none_bad (some r ∷ ras) (some s ∷ rbs) = none_bad ras rbs
none_bad (none ∷ ras) (none ∷ rbs) = none_bad ras rbs
none_bad (_ ∷ ras) (_ ∷ rbs) = false
none_bad _ _ = true

unfoldable pub verify_distributed_same_result : List (Option ℕ) → List ℕ → List ℕ → Option Bool
unfolding gather none_bad
verify_distributed_same_result assignment src dst = do
  ra ← gather assignment (src ++ dst)
  rb ← gather assignment (dst ++ src)
  some (none_bad ra rb)
