-- ===== src/Partition/AttrCost/Choice.antt =====
-- src/zord/partition/attr_cost.py: what the choice of the axis takes, and when it is the feature axis.
use zord.Base.{
  ◌<◌, ◌≡◌, refl, sym, subst, Bool, true, false, Option, some, List, [], ◌∷◌, All, All-map, inl,
  inr, Bool-cases, if◌then◌else◌,
}
use zord.Base.Ratios.{Ratio, less, AtMost, AtMost-refl, AtMost-trans, less-AtMost, not_less-AtMost}
use zord.Partition.AttrCost.{Axis, node, feature, hybrid, Candidate, fitting, cheapest, cheapest_of}

-- The costs of the axes, and which of them count: a grid counts without a check of its memory.
abbrev pub cost_at : Ratio → Ratio → Option Ratio → Axis → Option Ratio
cost_at node_ms feat_ms hyb_ms node = some node_ms
cost_at node_ms feat_ms hyb_ms feature = some feat_ms
cost_at node_ms feat_ms hyb_ms hybrid = hyb_ms

abbrev pub eligible : Bool → Bool → Axis → Bool
eligible feas_node feas_feat node = feas_node
eligible feas_node feas_feat feature = feas_feat
eligible feas_node feas_feat hybrid = true

-- A candidate that is cheapest among those that fit.
abbrev pub Among : Candidate → Candidate → Type 0
Among r c = c.fits ≡ true → (r.fits ≡ true) × AtMost r.cost c.cost

cheapest-least :
    (P : Candidate → Type 0) (best : Candidate) (cs : List Candidate)
    → P best
    → All P cs
    → (0 < best.cost.den)
    → All (λ c. 0 < c.cost.den) cs
    → P (cheapest best cs)
      × AtMost (cheapest best cs).cost best.cost
      × All (λ c. AtMost (cheapest best cs).cost c.cost) cs
unfolding cheapest
cheapest-least P best [] p ps pos poss = (p, AtMost-refl best.cost, tt)
cheapest-least P best (c ∷ cs) p ps pos poss =
    let Least : Candidate → Type 0 = λ x.
      P (cheapest x cs)
      × AtMost (cheapest x cs).cost best.cost
      × (AtMost (cheapest x cs).cost c.cost × All (λ d. AtMost (cheapest x cs).cost d.cost) cs) in
    elim (Bool-cases (less c.cost best.cost)) [
      | inl lower ↦
          let (q, le, les) = cheapest-least P c cs ps.0 ps.1 poss.0 poss.1 in
          let first : (if less c.cost best.cost then c else best) ≡ c = rw lower refl in
          subst Least (sym first) (
            q,
            AtMost-trans (cheapest c cs).cost c.cost best.cost poss.0 le
                (less-AtMost c.cost best.cost lower),
            (le, les),
          )
      | inr higher ↦
          let (q, le, les) = cheapest-least P best cs p ps.1 pos poss.1 in
          let kept : (if less c.cost best.cost then c else best) ≡ best = rw higher refl in
          subst Least (sym kept) (
            q,
            le,
            (
              AtMost-trans (cheapest best cs).cost best.cost c.cost pos le
                  (not_less-AtMost c.cost best.cost higher),
              les,
            ),
          )
    ]

fitting-All :
    (P : Candidate → Type 0) (cs : List Candidate)
    → All P cs
    → All (λ c. P c × (c.fits ≡ true)) (fitting cs)
unfolding fitting
fitting-All P [] ps = tt
fitting-All P (c ∷ cs) ps =
    let Fit : Bool → Type 0 =
      λ b. All (λ d. P d × (d.fits ≡ true)) (if b then c ∷ fitting cs else fitting cs) in
    elim (Bool-cases c.fits) [
      | inl fits ↦ subst Fit (sym fits) ((ps.0, fits), fitting-All P cs ps.1)
      | inr not_fits ↦ subst Fit (sym not_fits) (fitting-All P cs ps.1)
    ]

All-fitting :
    (P : Candidate → Type 0) (cs : List Candidate)
    → All P (fitting cs)
    → All (λ c. c.fits ≡ true → P c) cs
unfolding fitting
All-fitting P [] ps = tt
All-fitting P (c ∷ cs) ps =
    let Fit : Bool → Type 0 = λ b. All P (if b then c ∷ fitting cs else fitting cs) in
    elim (Bool-cases c.fits) [
      | inl fits ↦ let qs = subst Fit fits ps in ((λ h. qs.0), All-fitting P cs qs.1)
      | inr not_fits ↦ ((λ h. absurd (cc)), All-fitting P cs (subst Fit not_fits ps))
    ]

-- The cheapest of the candidates that fit, or of all where none fits.
pub cheapest_of-Cheapest :
    (P : Candidate → Type 0) (c : Candidate) (cs fit : List Candidate)
    → fitting (c ∷ cs) ≡ fit
    → All (λ d. P d × (0 < d.cost.den)) (c ∷ cs)
    → P (cheapest_of fit c cs) × All (Among (cheapest_of fit c cs)) (c ∷ cs)
unfolding cheapest_of
cheapest_of-Cheapest P c cs [] e ps =
    let none_fits =
      All-fitting (λ d. false ≡ true) (c ∷ cs) (subst (All (λ d. false ≡ true)) (sym e) tt) in
    let (q, le, les) =
      cheapest-least P c cs ps.0.0 (All-map Both P (λ d h. h.0) cs ps.1) ps.0.1
        (All-map Both (λ d. 0 < d.cost.den) (λ d h. h.1) cs ps.1) in
    (
      q,
      All-map (λ d. d.fits ≡ true → false ≡ true) (Among (cheapest c cs))
          (λ d h fits. absurd (let q = h fits in cc)) (c ∷ cs) none_fits,
    )
  where
    Both : Candidate → Type 0
    Both d = P d × (0 < d.cost.den)
cheapest_of-Cheapest P c cs (b ∷ bs) e ps =
    let fit =
      subst (All (λ d. (P d × (0 < d.cost.den)) × (d.fits ≡ true))) e
        (fitting-All (λ d. P d × (0 < d.cost.den)) (c ∷ cs) ps) in
    let (q, le, les) =
      cheapest-least (λ d. P d × (d.fits ≡ true)) b bs (fit.0.0.0, fit.0.1)
        (All-map Both (λ d. P d × (d.fits ≡ true)) (λ d h. (h.0.0, h.1)) bs fit.1) fit.0.0.1
        (All-map Both (λ d. 0 < d.cost.den) (λ d h. h.0.1) bs fit.1) in
    (
      q.0,
      All-map (λ d. d.fits ≡ true → AtMost (cheapest b bs).cost d.cost) (Among (cheapest b bs))
          (λ d h fits. (q.1, h fits)) (c ∷ cs)
          (All-fitting (λ d. AtMost (cheapest b bs).cost d.cost) (c ∷ cs)
            (subst (All (λ d. AtMost (cheapest b bs).cost d.cost)) (sym e) (le, les))),
    )
  where
    Both : Candidate → Type 0
    Both d = (P d × (0 < d.cost.den)) × (d.fits ≡ true)
