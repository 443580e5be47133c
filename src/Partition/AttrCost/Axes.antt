-- ===== src/Partition/AttrCost/Axes.antt =====
-- src/zord/partition/attr_cost.py: the decision among the axes.
use zord.Base.{
  ℕ, ◌+◌, ◌-◌, ◌*◌, ◌^◌, ◌≤◌, ◌<◌, ◌≡◌, refl, ap, ◌∙◌, Bool, true, false, Option, none, some,
  some-injective, List, [], ◌∷◌, length, arith, inl, inr, Bool-cases, leb→le, le→leb, max, scale-le,
}
use zord.Base.Ratios.{Ratio, less, AtMost, AtMost-refl, AtMost-plus, AtMost-not_less}
use zord.Partition.AttrCost.{
  Axis, feature, GraphStats, DeviceProfile, AttrDecision, fitting, cheapest, cheapest_of, pick,
  decide_axis, node_parallel_cost_ms, feature_parallel_cost_ms, integration_cost_ms, hybrid_cost_ms,
  degree, rate, compute_ms, least_of, feasible_node, feasible_feature,
}
use zord.Partition.AttrCost.Choice.{cost_at, eligible}
use zord.Partition.AttrCost.Quotients.{node-den, feature-den, hybrid-Proper}
use zord.Partition.AttrCost.Cheapest.{pick-Cheapest}

-- For a cluster with a device and an average degree that is a quotient, there is a decision, which names an axis that has a cost. The axes that count
-- are the node and feature axes where they fit the memory, and the best grid, if there is one, whose memory
-- the decision does not check. If there is an axis that counts, the one named counts, and costs at most as
-- much as any other.
pub decide_axis-Cheapest :
    (stats : GraphStats) (v : DeviceProfile) (vs : List DeviceProfile) (f link layers : ℕ)
    → 0 < stats.avg_degree.den
    → (dec : AttrDecision) × (decide_axis stats (v ∷ vs) f link layers ≡ some dec)
      × (cost : Ratio) × (cost_at dec.node_cost_ms dec.feature_cost_ms dec.hybrid_cost_ms dec.axis
          ≡ some cost)
      × ((a : Axis) (c : Ratio)
          → cost_at dec.node_cost_ms dec.feature_cost_ms dec.hybrid_cost_ms a ≡ some c
          → eligible dec.feasible_node dec.feasible_feature a ≡ true
          → (eligible dec.feasible_node dec.feasible_feature dec.axis ≡ true) × AtMost cost c)
unfolding decide_axis
decide_axis-Cheapest stats v vs f link layers h =
    let d = length (v ∷ vs) in
    let hbm = least_of (λ dev. dev.hbm_bw) v vs in
    let n = stats.num_nodes in
    let e = stats.num_edges in
    let node_ms = node_parallel_cost_ms e f stats.avg_degree d hbm link layers in
    let feat_ms = feature_parallel_cost_ms n e f d hbm link layers in
    let hyb_ms = hybrid_cost_ms n e f d hbm link layers in
    let feas_node = feasible_node n e f (v ∷ vs) in
    let feas_feat = feasible_feature n e f (v ∷ vs) in
    let (has_cost, has_fit, least) =
      pick-Cheapest node_ms feas_node feat_ms feas_feat hyb_ms
        (node-den e f stats.avg_degree d hbm link layers h) (feature-den n e f d hbm link layers)
        (hybrid-Proper n e f d hbm link layers) in
    (
      _,
      refl,
      (pick node_ms feas_node feat_ms feas_feat hyb_ms).cost,
      has_cost,
      λ a c at_a fits. (has_fit ∙ (least a c at_a fits).0, (least a c at_a fits).1),
    )

-- Where the average degree is at least that of the edges over the nodes, the node axis is not dearer
-- than the feature axis: the computing is the same, and it sends fewer rows.
node-AtMost-feature :
    (n e f : ℕ) (deg : Ratio) (d hbm link layers : ℕ)
    → e * deg.den ≤ n * deg.num
    → AtMost
        (node_parallel_cost_ms e f deg d hbm link layers)
        (feature_parallel_cost_ms n e f d hbm link layers)
unfolding node_parallel_cost_ms feature_parallel_cost_ms integration_cost_ms
node-AtMost-feature n e f deg d hbm link layers h =
    let work = compute_ms (max 1 layers) e f (max 1 d) hbm in
    let twice : max 1 (max 1 layers) ≡ max 1 layers = omega arith in
    rw twice (
      AtMost-plus work _ work _ (AtMost-refl work) (
        fewer_rows (max 1 layers) f n (e * (degree deg).den) (degree deg).num (max 1 d - 1)
          (max 1 d) (rate link)
          (floored e deg.den deg.num n (degree deg).num (10 ^ 9) h (omega arith)) (omega arith)))
  where
    floored :
        (e' den num n' most t : ℕ)
        → e' * den ≤ n' * num
        → num * t ≤ most
        → e' * (den * t) ≤ n' * most
    floored e' den num n' most t k m =
        let p = scale-le (e' * den) (n' * num) t k in
        let q = scale-le (num * t) most n' m in grind arith

    fewer_rows :
        (l f' n' rows num others dev link' : ℕ)
        → rows ≤ n' * num
        → others ≤ dev
        → l * (rows * others) * f' * 4 * 1000 * link' ≤ l * n' * f' * 4 * 1000 * (num * dev * link')
    fewer_rows l f' n' rows num others dev link' k m =
        let p = scale-le rows (n' * num) others k in
        let q = scale-le others dev (n' * num) m in
        let r = scale-le (rows * others) (n' * num * dev) (l * f' * 4000 * link') (grind arith) in
        grind arith

-- The feature axis is not picked where it costs no less than the node axis, unless it alone of the two
-- fits.
pick-feature :
    (node_ms : Ratio) (feas_node : Bool) (feat_ms : Ratio) (feas_feat : Bool)
    (hyb_ms : Option Ratio)
    → AtMost node_ms feat_ms
    → (pick node_ms feas_node feat_ms feas_feat hyb_ms).axis ≡ feature
    → (feas_node ≡ false) × (feas_feat ≡ true)
unfolding pick fitting cheapest_of cheapest
pick-feature node_ms false feat_ms true hyb_ms h e = (refl, refl)
pick-feature node_ms true feat_ms true none h e =
    absurd (let q = rw (AtMost-not_less feat_ms node_ms h) at e in cc)
pick-feature node_ms true feat_ms true (some hyb_ms) h e = elim (Bool-cases (less hyb_ms node_ms)) [
  | inl k ↦ absurd (let q = rw (AtMost-not_less feat_ms node_ms h, k) at e in cc)
  | inr k ↦ absurd (let q = rw (AtMost-not_less feat_ms node_ms h, k) at e in cc)
]
pick-feature node_ms true feat_ms false none h e = absurd (cc)
pick-feature node_ms true feat_ms false (some hyb_ms) h e =
    elim (Bool-cases (less hyb_ms node_ms)) [
      | inl k ↦ absurd (let q = rw k at e in cc)
      | inr k ↦ absurd (let q = rw k at e in cc)
    ]
pick-feature node_ms false feat_ms false none h e =
    absurd (let q = rw (AtMost-not_less feat_ms node_ms h) at e in cc)
pick-feature node_ms false feat_ms false (some hyb_ms) h e = absurd (cc)

-- Where the columns fit, the rows do: both spread the features evenly, and the columns want all the edges
-- on every device.
feature-node_fits :
    (n e f : ℕ) (devices : List DeviceProfile)
    → feasible_feature n e f devices ≡ true
    → feasible_node n e f devices ≡ true
unfolding feasible_node feasible_feature
feature-node_fits n e f [] h = h
feature-node_fits n e f (v ∷ vs) h =
    let d = length (v ∷ vs) in
    let all = leb→le (f * n * 4 + e * 20 * d) (least_of (λ dev. dev.usable_mem) v vs * d) h in
    let more = scale-le 1 d (e * 20) (omega arith) in
    le→leb (n * f * 4 + e * 20) (least_of (λ dev. dev.usable_mem) v vs * d) (grind arith)

-- Where the average degree is at least that of the edges over the nodes, the decision is never the feature
-- axis: it costs no less than the node axis, and wherever it fits the node axis does.
pub decide_axis-never_feature :
    (stats : GraphStats) (devices : List DeviceProfile) (f link layers : ℕ) (dec : AttrDecision)
    → decide_axis stats devices f link layers ≡ some dec
    → stats.num_edges * stats.avg_degree.den ≤ stats.num_nodes * stats.avg_degree.num
    → ¬ (dec.axis ≡ feature)
unfolding decide_axis
decide_axis-never_feature stats [] f link layers dec e h k = absurd (cc)
decide_axis-never_feature stats (v ∷ vs) f link layers dec e h k =
    let q = some-injective _ _ e in
    let n = stats.num_nodes in
    let m = stats.num_edges in
    let d = length (v ∷ vs) in
    let hbm = least_of (λ dev. dev.hbm_bw) v vs in
    let (no_rows, columns) =
      pick-feature (node_parallel_cost_ms m f stats.avg_degree d hbm link layers)
        (feasible_node n m f (v ∷ vs)) (feature_parallel_cost_ms n m f d hbm link layers)
        (feasible_feature n m f (v ∷ vs)) (hybrid_cost_ms n m f d hbm link layers)
        (node-AtMost-feature n m f stats.avg_degree d hbm link layers h) (ap (λ r. r.axis) q ∙ k) in
    let rows = feature-node_fits n m f (v ∷ vs) columns in absurd (cc)
