-- ===== src/Partition/AttrCost/Cheapest.antt =====
-- src/zord/partition/attr_cost.py: the pick among the axes.
use zord.Base.{◌<◌, ◌≡◌, refl, subst, Bool, true, Option, none, some, some-injective, ◌∷◌, All}
use zord.Base.Ratios.{Ratio, AtMost}
use zord.Partition.AttrCost.{
  Axis, node, feature, hybrid, Candidate, others_of, fitting, cheapest_of, pick,
}
use zord.Partition.AttrCost.Choice.{cost_at, eligible, Among, cheapest_of-Cheapest}
use zord.Partition.AttrCost.Quotients.{Proper}

cost-Among :
    (r : Candidate) (node_ms : Ratio) (feas_node : Bool) (feat_ms : Ratio) (feas_feat : Bool)
    (hyb_ms : Option Ratio)
    → All (Among r) (
        record { axis = node; cost = node_ms; fits = feas_node }
        ∷ others_of feat_ms feas_feat hyb_ms)
    → (a : Axis) (c : Ratio) → cost_at node_ms feat_ms hyb_ms a ≡ some c
    → eligible feas_node feas_feat a ≡ true
    → (r.fits ≡ true) × AtMost r.cost c
cost-Among r node_ms feas_node feat_ms feas_feat hyb_ms h node c e f =
    subst (λ x. (r.fits ≡ true) × AtMost r.cost x) (some-injective _ _ e) (h.0 f)
cost-Among r node_ms feas_node feat_ms feas_feat none h feature c e f =
    subst (λ x. (r.fits ≡ true) × AtMost r.cost x) (some-injective _ _ e) (h.1.0 f)
cost-Among r node_ms feas_node feat_ms feas_feat (some hyb_ms) h feature c e f =
    subst (λ x. (r.fits ≡ true) × AtMost r.cost x) (some-injective _ _ e) (h.1.0 f)
cost-Among r node_ms feas_node feat_ms feas_feat none h hybrid c e f = absurd (cc)
cost-Among r node_ms feas_node feat_ms feas_feat (some hyb_ms) h hybrid c e f =
    subst (λ x. (r.fits ≡ true) × AtMost r.cost x) (some-injective _ _ e) (h.1.1.0 f)

-- The pick has the cost and the fit of its axis, and is cheapest among the axes that fit.
pub pick-Cheapest :
    (node_ms : Ratio) (feas_node : Bool) (feat_ms : Ratio) (feas_feat : Bool)
    (hyb_ms : Option Ratio)
    → 0 < node_ms.den
    → 0 < feat_ms.den
    → Proper hyb_ms
    → let r = pick node_ms feas_node feat_ms feas_feat hyb_ms in
      (cost_at node_ms feat_ms hyb_ms r.axis ≡ some r.cost)
      × (eligible feas_node feas_feat r.axis ≡ r.fits)
      × ((a : Axis) (c : Ratio)
          → cost_at node_ms feat_ms hyb_ms a ≡ some c
          → eligible feas_node feas_feat a ≡ true
          → (r.fits ≡ true) × AtMost r.cost c)
unfolding pick
pick-Cheapest node_ms feas_node feat_ms feas_feat none pn pf ph =
    let first : Candidate = record { axis = node; cost = node_ms; fits = feas_node } in
    let others = others_of feat_ms feas_feat none in
    let (own, among) =
      cheapest_of-Cheapest
        (λ d.
          (cost_at node_ms feat_ms none d.axis ≡ some d.cost)
          × (eligible feas_node feas_feat d.axis ≡ d.fits))
        first others (fitting (first ∷ others)) refl
        (((refl, refl), pn), (((refl, refl), pf), tt)) in
    (
      own.0,
      own.1,
      cost-Among (cheapest_of (fitting (first ∷ others)) first others) node_ms feas_node feat_ms
          feas_feat none among,
    )
pick-Cheapest node_ms feas_node feat_ms feas_feat (some hyb_ms) pn pf ph =
    let first : Candidate = record { axis = node; cost = node_ms; fits = feas_node } in
    let others = others_of feat_ms feas_feat (some hyb_ms) in
    let (own, among) =
      cheapest_of-Cheapest
        (λ d.
          (cost_at node_ms feat_ms (some hyb_ms) d.axis ≡ some d.cost)
          × (eligible feas_node feas_feat d.axis ≡ d.fits))
        first others (fitting (first ∷ others)) refl
        (((refl, refl), pn), (((refl, refl), pf), (((refl, refl), ph), tt))) in
    (
      own.0,
      own.1,
      cost-Among (cheapest_of (fitting (first ∷ others)) first others) node_ms feas_node feat_ms
          feas_feat (some hyb_ms) among,
    )
