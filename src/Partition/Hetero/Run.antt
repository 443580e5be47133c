-- ===== src/Partition/Hetero/Run.antt =====
-- src/zord/partition/hetero.py: the orders of the nodes and the whole of `partition`, without a prior
-- partition.
use zord.Base.{
  ℕ, zero, suc, ◌-◌, Option, none, List, [], ◌∷◌, ◌++◌, ◌==◌, if◌then◌else◌, leb, length, get_or,
}
use zord.Base.Ranges.{range_up}
use zord.Datasets.Numpy.{Numpy}
use zord.Partition.Hetero.{Placement, Setting, argmax, capacities, neighbors, place_all, refine}

-- The nodes of an edge list, source and target in turn.
unfoldable pub both_ends : List ℕ → List ℕ → List ℕ
both_ends (a ∷ src) (b ∷ dst) = a ∷ b ∷ both_ends src dst
both_ends _ _ = []

-- The first position of `v`, the length where there is none.
unfoldable pub first_seen : ℕ → List ℕ → ℕ
first_seen v [] = 0
first_seen v (u ∷ us) = let rest = first_seen v us in if u == v then 0 else suc rest

unfoldable pub keys_of : (ℕ → ℕ) → List ℕ → List ℕ
keys_of f [] = []
keys_of f (v ∷ vs) = f v ∷ keys_of f vs

unfoldable pub appearance_order : Numpy → List ℕ → List ℕ → ℕ → List ℕ
unfolding both_ends first_seen keys_of
appearance_order np src dst num_nodes =
    np.argsort (keys_of (λ v. first_seen v (both_ends src dst)) (range_up 0 num_nodes))

-- `np.argsort(-np.diff(indptr))`; a negated degree is ordered as its distance from the most there can be.
unfoldable pub degree_order : Numpy → List ℕ → List ℕ → ℕ → List ℕ
unfolding neighbors keys_of
degree_order np src dst num_nodes =
    np.argsort
      (keys_of (λ v. length (src ++ dst) - length (neighbors src dst v)) (range_up 0 num_nodes))

pub data Order : Type 0 where
  auto appearance degree : Order

unfoldable pub order_of : Numpy → Order → List ℕ → List ℕ → List ℕ → ℕ → List ℕ
unfolding appearance_order degree_order
order_of np appearance cap src dst num_nodes = appearance_order np src dst num_nodes
order_of np degree cap src dst num_nodes = degree_order np src dst num_nodes
order_of np auto cap src dst num_nodes =
    if leb num_nodes (get_or cap (argmax cap) 0)
    then appearance_order np src dst num_nodes
    else degree_order np src dst num_nodes

unfoldable pub fill {ℓ} : {A : Type ℓ} → ℕ → A → List A
fill zero x = []
fill (suc n) x = x ∷ fill n x

-- The start without a prior partition.
unfoldable pub fresh : ℕ → ℕ → Placement
unfolding fill
fresh num_nodes devices = record { assignment = fill num_nodes none; load = fill devices 0 }

-- `partition` without a prior partition, before the summary.
unfoldable pub partition :
    Numpy
    → (ℕ → ℕ → ℕ)
    → List (List ℕ)
    → Order
    → ℕ
    → List ℕ
    → List ℕ
    → ℕ
    → List ℕ
    → Option (List ℕ)
    → Placement
unfolding capacities neighbors order_of fresh place_all refine
partition np pressure links order passes src dst num_nodes mem capacity =
    let cap = capacities num_nodes mem capacity in
    let s : Setting = record {
      pressure = pressure;
      links = links;
      cap = cap;
      adj = neighbors src dst;
    } in
    refine s passes (range_up 0 num_nodes)
      (place_all s (order_of np order cap src dst num_nodes) (fresh num_nodes (length cap)))
