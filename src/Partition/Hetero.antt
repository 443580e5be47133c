-- ===== src/Partition/Hetero.antt =====
-- src/zord/partition/hetero.py: the streaming placement of `ZordPartitioner` and its refinement. A
-- link cost is a natural number, in units of the 1e-9 that a move must gain; the load pressure
-- `alpha * load / cap`, which the code adds to the cut cost as a float, is a parameter.
pub mod Run
pub mod Loads
pub mod Choosing
pub mod Placing
pub mod Moving
pub mod Refining
pub mod Whole
pub mod Tests
use zord.Base.{
  ℕ, zero, suc, ◌+◌, ◌-◌, ◌*◌, ◌/◌, Bool, true, false, not, ◌&&◌, ◌||◌, Option, none, some, List,
  [], ◌∷◌, ◌++◌, ◌==◌, if◌then◌else◌, ltb, leb, length, sum, get_elem?, get_or, min, max,
}
use zord.Base.Options.{◌>>=◌}
use zord.Base.Rows.{zip}
use zord.Base.Ranges.{range_up}
use zord.Datasets.Numpy.{Numpy}

-- `xs[i] = f(xs[i])`
unfoldable pub update {ℓ} : {A : Type ℓ} → ℕ → (A → A) → List A → List A
update i f [] = []
update zero f (x ∷ xs) = f x ∷ xs
update (suc i) f (x ∷ xs) = x ∷ update i f xs

-- The row of `v` in the adjacency of `_build_csr`: first the targets of its edges, then the sources.
unfoldable pub row_of : ℕ → List ℕ → List ℕ → List ℕ
row_of v (a ∷ us) (b ∷ vs) = let rest = row_of v us vs in if a == v then b ∷ rest else rest
row_of v _ _ = []

unfoldable pub neighbors : List ℕ → List ℕ → ℕ → List ℕ
unfolding row_of
neighbors src dst v = row_of v (src ++ dst) (dst ++ src)

-- The memory shares, or the limits that are given, at least a node each.
unfoldable pub shares : ℕ → ℕ → List ℕ → List ℕ
shares total num_nodes [] = []
shares total num_nodes (m ∷ mem) = max 1 (m * num_nodes / total) ∷ shares total num_nodes mem

unfoldable pub limits : ℕ → List ℕ → List ℕ
limits num_nodes [] = []
limits num_nodes (c ∷ capacity) = max (min c num_nodes) 1 ∷ limits num_nodes capacity

unfoldable pub argmax : List ℕ → ℕ
argmax [] = 0
argmax (x ∷ xs) = if above x xs then suc (argmax xs) else 0
  where
    above : ℕ → List ℕ → Bool
    above x [] = false
    above x (y ∷ ys) = ltb x y || above x ys

-- Where the limits do not hold the graph, they are scaled up, and the remainder is the largest's.
unfoldable pub widen : ℕ → List ℕ → List ℕ
unfolding shares argmax update
widen num_nodes cap =
    if ltb (sum cap) num_nodes
    then (let scaled = shares (sum cap) num_nodes cap in
        update (argmax scaled) (λ c. c + (num_nodes - sum scaled)) scaled)
    else cap

unfoldable pub capacities : ℕ → List ℕ → Option (List ℕ) → List ℕ
unfolding limits shares widen
capacities num_nodes mem none = widen num_nodes (shares (sum mem) num_nodes mem)
capacities num_nodes mem (some capacity) = widen num_nodes (limits num_nodes capacity)

pub record Placement : Type 0 where
  pub assignment : List (Option ℕ)
  pub load : List ℕ

-- `linkcost[d].dot(cnt)` over the neighbours that are placed.
unfoldable pub cut_cost : List ℕ → List (Option ℕ) → List ℕ → ℕ
cut_cost link assignment [] = 0
cut_cost link assignment (u ∷ us) =
    let rest = cut_cost link assignment us in
    elim (get_elem? assignment u) [
      | none ↦ rest
      | some none ↦ rest
      | some (some e) ↦ get_or link e 0 + rest
    ]

-- The least score with its device, from the device `d` on; `none` is `inf`.
unfoldable pub argmin_from : ℕ → List (Option ℕ) → Option (ℕ × ℕ)
argmin_from d [] = none
argmin_from d (none ∷ scores) = argmin_from (d + 1) scores
argmin_from d (some s ∷ scores) = elim (argmin_from (d + 1) scores) [
  | none ↦ some (s, d)
  | some (t, e) ↦ if ltb t s then some (t, e) else some (s, d)
]

-- `np.where(load >= cap, inf, cut + alpha * (load / cap))`, a row of link costs for each device.
unfoldable pub scores_of :
    (ℕ → ℕ → ℕ) → List (Option ℕ) → List ℕ → List (List ℕ) → List ℕ → List ℕ → List (Option ℕ)
unfolding cut_cost
scores_of pressure assignment nb (link ∷ links) (l ∷ load) (c ∷ cap) =
    (if leb c l then none else some (cut_cost link assignment nb + pressure l c))
    ∷ scores_of pressure assignment nb links load cap
scores_of pressure assignment nb _ _ _ = []

-- `(cap - load).argmax()` where every device is full: the least excess.
unfoldable pub excess : List ℕ → List ℕ → List (Option ℕ)
excess (l ∷ load) (c ∷ cap) = some (l - c) ∷ excess load cap
excess _ _ = []

unfoldable pub choose : List (Option ℕ) → List ℕ → List ℕ → ℕ
unfolding argmin_from excess
choose scores load cap = elim (argmin_from 0 scores) [
  | some (_, d) ↦ d
  | none ↦ elim (argmin_from 0 (excess load cap)) [ none ↦ 0 | some (_, d) ↦ d ]
]

-- What is fixed while nodes are placed.
pub record Setting : Type 0 where
  pub pressure : ℕ → ℕ → ℕ
  pub links : List (List ℕ)
  pub cap : List ℕ
  pub adj : ℕ → List ℕ

unfoldable pub place_at : ℕ → ℕ → Placement → Placement
unfolding update
place_at v d p = record {
  assignment = update v (λ _. some d) p.assignment;
  load = update d (λ l. l + 1) p.load;
}

-- One round of the streaming loop; a node out of range, an error of the code, is skipped.
unfoldable pub place : Setting → ℕ → Placement → Placement
unfolding scores_of choose place_at
place s v p = elim (get_elem? p.assignment v) [
  | none ↦ p
  | some (some _) ↦ p
  | some none ↦
      place_at v
        (choose (scores_of s.pressure p.assignment (s.adj v) s.links p.load s.cap) p.load s.cap) p
]

unfoldable pub place_all : Setting → List ℕ → Placement → Placement
unfolding place
place_all s [] p = p
place_all s (v ∷ order) p = place_all s order (place s v p)

-- `cost` in `_refine`: `inf` on a full device other than the node's own.
unfoldable pub costs_of :
    List (Option ℕ) → List ℕ → ℕ → ℕ → List (List ℕ) → List ℕ → List ℕ → List (Option ℕ)
unfolding cut_cost
costs_of assignment nb cur d (link ∷ links) (l ∷ load) (c ∷ cap) =
    (if ltb l c || d == cur then some (cut_cost link assignment nb) else none)
    ∷ costs_of assignment nb cur (d + 1) links load cap
costs_of assignment nb cur d _ _ _ = []

unfoldable pub cost_at : List (Option ℕ) → ℕ → Option ℕ
cost_at costs d = elim (get_elem? costs d) [ none ↦ none | some c ↦ c ]

unfoldable pub move : ℕ → ℕ → ℕ → Placement → Placement
unfolding update
move v cur best p = record {
  assignment = update v (λ _. some best) p.assignment;
  load = update best (λ l. l + 1) (update cur (λ l. l - 1) p.load);
}

-- `best != cur and cost[best] < cost[cur] - 1e-9`
unfoldable pub improves : List (Option ℕ) → ℕ → ℕ → ℕ → Bool
unfolding cost_at
improves costs cur t best = elim (cost_at costs cur) [
  | none ↦ false
  | some c ↦ not (best == cur) && ltb (t + 1) c
]

-- One round of `_refine` for `v`, with the number of moves; a node that is not placed is skipped.
unfoldable pub refine_node : Setting → ℕ → Placement × ℕ → Placement × ℕ
unfolding costs_of argmin_from improves move
refine_node s v (p, moved) = elim (s.adj v) [
  | [] ↦ (p, moved)
  | u ∷ us ↦ elim (get_elem? p.assignment v) [
    | none ↦ (p, moved)
    | some none ↦ (p, moved)
    | some (some cur) ↦
        let costs = costs_of p.assignment (u ∷ us) cur 0 s.links p.load s.cap in
        elim (argmin_from 0 costs) [
          | none ↦ (p, moved)
          | some (t, best) ↦
              if improves costs cur t best then (move v cur best p, moved + 1) else (p, moved)
        ]
  ]
]

unfoldable pub refine_pass : Setting → List ℕ → Placement × ℕ → Placement × ℕ
unfolding refine_node
refine_pass s [] q = q
refine_pass s (v ∷ dirty) q = refine_pass s dirty (refine_node s v q)

unfoldable pub refine : Setting → ℕ → List ℕ → Placement → Placement
unfolding refine_pass
refine s zero dirty p = p
refine s (suc passes) dirty p =
    let (p', moved) = refine_pass s dirty (p, 0) in
    let rest = refine s passes dirty p' in if moved == 0 then p' else rest
