-- ===== src/Partition/Cost/Feasible.antt =====
-- src/zord/guarantees.py, src/zord/partition/cost_model.py: what the check before a run accepts, and
-- that the limits derived from the footprint are accepted.
use native.Mathlib.Nat.{div-mul-le_self, le-div_iff_mul-le}
use zord.Base.{
  ℕ, ◌+◌, ◌*◌, ◌/◌, ◌≤◌, ◌<◌, ◌≡◌, ◌↔◌, refl, sym, ◌∙◌, subst, List, [], ◌∷◌, some, some-injective,
  length, arith, inl, inr, Bool-cases, true, ltb, leb, max, scale-le,
}
use zord.Base.Options.{bind-some}
use zord.Base.Int.{ℤ}
use zord.Partition.Cost.{
  Partition, CostParams, device_footprint_bytes, footprint_of, per_node, max_nodes, check_from,
  preflight, PreflightReport,
}

-- The footprint on each device, from `d` on, is within its usable memory.
abbrev pub Room : Partition → CostParams → ℕ → List ℕ → Type 0
Room p cp d [] = Unit
Room p cp d (usable ∷ devices) =
    ((fp : ℕ) × (device_footprint_bytes p d cp ≡ some fp) × (fp ≤ usable))
    × Room p cp (d + 1) devices

check_from-Room :
    (p : Partition) (cp : CostParams) (d : ℕ) (devices : List ℕ) (r : List ℕ × List ℤ)
    → check_from p cp d devices ≡ some r
    → (leb (length r.0) 0 ≡ true) ↔ Room p cp d devices
unfolding check_from
check_from-Room p cp d [] r e =
    let q : ([], []) ≡ r = some-injective _ _ e in
    subst (λ o. (leb (length o.0) 0 ≡ true) ↔ Room p cp d []) q ((λ _. tt), λ _. refl)
check_from-Room p cp d (usable ∷ devices) r e =
    let (fp, fp_done, e1) = bind-some (device_footprint_bytes p d cp) _ r e in
    let (rest, rest_done, e2) = bind-some (check_from p cp (d + 1) devices) _ r e1 in
    let ih = check_from-Room p cp (d + 1) devices rest rest_done in
    subst (λ o. (leb (length o.0) 0 ≡ true) ↔ Room p cp d (usable ∷ devices))
      (some-injective _ _ e2)
      (elim (Bool-cases (ltb usable fp)) [
        | inl over ↦ rw over (
          (λ q. absurd (ground arith)),
          λ room. absurd (
              let (fp', done, le) = room.0 in
              let same : fp ≡ fp' = some-injective _ _ (sym fp_done ∙ done) in ground arith),
        )
        | inr fits ↦ rw fits ((λ q. ((fp, fp_done, ground arith), ih.0 q)), λ room. ih.1 room.1)
      ])

-- The check before a run reports a partition as feasible exactly when its footprint on each device
-- is within the usable memory.
pub preflight-feasible_iff :
    (p : Partition) (devices : List ℕ) (cp : CostParams) (r : PreflightReport)
    → preflight p devices cp ≡ some r
    → (r.feasible ≡ true) ↔ Room p cp 0 devices
unfolding preflight
preflight-feasible_iff p [] cp r e = absurd (cc)
preflight-feasible_iff p (d ∷ devices) cp r e =
    let (both, done, e1) = bind-some (check_from p cp 0 (d ∷ devices)) _ r e in
    subst (λ q. (q.feasible ≡ true) ↔ Room p cp 0 (d ∷ devices)) (some-injective _ _ e1)
      (check_from-Room p cp 0 (d ∷ devices) both done)

cancel : (x u n : ℕ) → 0 < n → x * n ≤ u * n → x ≤ u
cancel x u n pos le = elim (Bool-cases (ltb u x)) [
  | inr fits ↦ ground arith
  | inl over ↦
      let above : u + 1 ≤ x = ground arith in
      absurd (omega (arith, scale-le (u + 1) x n above, le, pos))
]

-- The bytes of `n` nodes, where a node has the bytes `f` and the edges of `n` nodes are at most
-- their share.
share-le :
    (w f be n e num_nodes num_edges : ℕ)
    → e * num_nodes ≤ n * num_edges
    → w * (n * f + e * be) * num_nodes ≤ n * (w * (f * num_nodes + num_edges * be))
share-le w f be n e num_nodes num_edges le =
    omega (arith, scale-le (e * num_nodes) (n * num_edges) (w * be) le)

-- The nodes that a limit allows are within the memory.
limit-le :
    (pn margin usable num_nodes nodes : ℕ)
    → 0 < pn
    → margin ≤ 100
    → 100 * pn ≤ margin * usable * num_nodes
    → nodes ≤ max 1 (margin * usable * num_nodes / (100 * pn))
    → nodes * pn ≤ usable * num_nodes
limit-le pn margin usable num_nodes nodes pos whole room few =
    let limit = margin * usable * num_nodes / (100 * pn) in
    let one : 1 ≤ limit = (le-div_iff_mul-le (omega arith)).1 (omega arith) in
    let inside : nodes ≤ limit = omega arith in
    omega (
      arith,
      scale-le nodes limit (100 * pn) inside,
      div-mul-le_self (margin * usable * num_nodes) (100 * pn),
      scale-le margin 100 (usable * num_nodes) whole,
    )

-- Where the margin is at most the whole memory and leaves room for a node, a device with no more
-- nodes than its limit, no halo, and no more than the average edges of its nodes has a footprint
-- within its usable memory.
pub max_nodes-fits :
    (cp : CostParams) (num_edges num_nodes margin usable nodes edges : ℕ)
    → 0 < num_nodes
    → margin ≤ 100
    → 100 * per_node cp num_edges num_nodes ≤ margin * usable * num_nodes
    → nodes ≤ max_nodes cp num_edges num_nodes margin usable
    → edges * num_nodes ≤ nodes * num_edges
    → footprint_of cp nodes edges 0 ≤ usable
unfolding max_nodes per_node footprint_of
max_nodes-fits cp num_edges num_nodes margin usable nodes edges pos whole room few share =
    let f = cp.feat_dim * cp.bytes_per_feat in
    let need = cp.window * (f * num_nodes + num_edges * cp.bytes_per_edge) in
    let pn = max num_nodes need in
    let within : nodes * pn ≤ usable * num_nodes =
      limit-le pn margin usable num_nodes nodes (omega arith) whole room few in
    let le_need : need ≤ pn = omega arith in
    let shared = share-le cp.window f cp.bytes_per_edge nodes edges num_nodes num_edges share in
    let total : cp.window * (nodes * f + edges * cp.bytes_per_edge) ≤ usable =
      cancel _ usable num_nodes pos
        (omega (arith, scale-le need pn nodes le_need, within, shared)) in
    let no_halo : 0 * cp.halo_replication / 100 ≡ 0 = omega arith in
    rw no_halo (omega (arith, total))
