-- ===== src/Partition/AttrCost/Quotients.antt =====
-- src/zord/partition/attr_cost.py: no cost is divided by zero.
use zord.Base.{
  ℕ, zero, suc, ◌+◌, ◌*◌, ◌/◌, ◌%◌, ◌<◌, ◌≡◌, sym, subst, Bool, Option, none, some, List, [], ◌∷◌,
  All, arith, inl, inr, Bool-cases, if◌then◌else◌, ltb, ◌==◌, ◌||◌, max, ==_iff,
}
use zord.Base.Ranges.{range_up}
use zord.Base.Ratios.{Ratio, less}
use zord.Partition.AttrCost.{
  node_parallel_cost_ms, feature_parallel_cost_ms, integration_cost_ms, hybrid_cost_ms, degree,
  rate, compute_ms, grid_ms, better, best_grid, with_grid,
}
use native.Mathlib.Nat.{div-add-mod}

positive-product : (a b : ℕ) → 0 < a → 0 < b → 0 < a * b
positive-product a b h k = grind arith

-- An optional cost is that of a quotient, if there is one.
abbrev pub Proper : Option Ratio → Type 0
Proper none = Unit
Proper (some c) = 0 < c.den

compute_ms-den : (layers e f d hbm : ℕ) → 0 < d → 0 < (compute_ms layers e f d hbm).den
compute_ms-den layers e f d hbm h = positive-product d (rate hbm) h (omega arith)

pub node-den :
    (e f : ℕ) (deg : Ratio) (d hbm link layers : ℕ)
    → 0 < deg.den
    → 0 < (node_parallel_cost_ms e f deg d hbm link layers).den
unfolding node_parallel_cost_ms
node-den e f deg d hbm link layers h =
    positive-product (max 1 d * rate hbm) ((degree deg).num * max 1 d * rate link)
      (compute_ms-den (max 1 layers) e f (max 1 d) hbm (omega arith))
      (positive-product ((degree deg).num * max 1 d) (rate link)
        (positive-product (degree deg).num (max 1 d) (omega arith) (omega arith)) (omega arith))

pub feature-den :
    (n e f d hbm link layers : ℕ) → 0 < (feature_parallel_cost_ms n e f d hbm link layers).den
unfolding feature_parallel_cost_ms integration_cost_ms
feature-den n e f d hbm link layers =
    positive-product (max 1 d * rate hbm) (rate link)
      (compute_ms-den (max 1 layers) e f (max 1 d) hbm (omega arith)) (omega arith)

grid-den :
    (n e f hbm link layers dn df : ℕ)
    → 0 < dn
    → 0 < df
    → 0 < (grid_ms n e f hbm link layers dn df).den
unfolding grid_ms
grid-den n e f hbm link layers dn df h k =
    positive-product (dn * df * rate hbm) (dn * dn * df * rate link)
      (compute_ms-den layers e f (dn * df) hbm (positive-product dn df h k))
      (positive-product (dn * dn * df) (rate link)
        (positive-product (dn * dn) df (positive-product dn dn h h) k) (omega arith))

better-Proper : (best : Option Ratio) (c : Ratio) → Proper best → 0 < c.den → Proper (better best c)
unfolding better
better-Proper none c h k = k
better-Proper (some b) c h k = elim (Bool-cases (less c b)) [
  | inl e ↦ subst (λ x. 0 < (if x then c else b).den) (sym e) k
  | inr e ↦ subst (λ x. 0 < (if x then c else b).den) (sym e) h
]

-- A part of an exact division is not zero.
part-positive : (d dn : ℕ) → 0 < d → d % dn ≡ 0 → 0 < d / dn
part-positive d dn pos e = elim (Bool-cases (d / dn == 0)) [
  | inl none_left ↦
      let q = (==_iff (d / dn) 0).0 none_left in
      let total = div-add-mod d dn in
      absurd (omega (arith, pos, (subst (λ x. dn * x + d % dn ≡ d) q total), e))
  | inr some_left ↦ ground arith
]

with_grid-Proper :
    (d : ℕ) (cost : ℕ → ℕ → Ratio) (best : Option Ratio) (dn : ℕ)
    → 0 < d
    → 0 < dn
    → ((dn df : ℕ) → 0 < dn → 0 < df → 0 < (cost dn df).den)
    → Proper best
    → Proper (with_grid d cost best dn)
unfolding with_grid
with_grid-Proper d cost best dn pos pos' proper h =
    let Split : Bool → Type 0 = λ x. Proper (if x then best else better best (cost dn (d / dn))) in
    elim (Bool-cases (ltb 0 (d % dn))) [
      | inl e ↦ rw e h
      | inr e ↦ rw e (elim (Bool-cases ((dn == 1) || (d / dn == 1))) [
        | inl k ↦ subst Split (sym k) h
        | inr k ↦ subst Split (sym k) (
            better-Proper best (cost dn (d / dn)) h
              (proper dn (d / dn) pos' (part-positive d dn pos (ground arith))))
      ])
    ]

best_grid-Proper :
    (d : ℕ) (cost : ℕ → ℕ → Ratio) (best : Option Ratio) (dns : List ℕ)
    → 0 < d
    → ((dn df : ℕ) → 0 < dn → 0 < df → 0 < (cost dn df).den)
    → Proper best
    → All (λ dn. 0 < dn) dns
    → Proper (best_grid d cost best dns)
unfolding best_grid
best_grid-Proper d cost best [] pos proper h hs = h
best_grid-Proper d cost best (dn ∷ dns) pos proper h hs =
    best_grid-Proper d cost (with_grid d cost best dn) dns pos proper
      (with_grid-Proper d cost best dn pos hs.0 proper h) hs.1

range_up-positive : (i n : ℕ) → 0 < i → All (λ u. 0 < u) (range_up i n)
unfolding range_up
range_up-positive i zero h = tt
range_up-positive i (suc n) h = (h, range_up-positive (i + 1) n (omega arith))

pub hybrid-Proper : (n e f d hbm link layers : ℕ) → Proper (hybrid_cost_ms n e f d hbm link layers)
unfolding hybrid_cost_ms
hybrid-Proper n e f d hbm link layers =
    best_grid-Proper (max 1 d) (grid_ms n e f hbm link (max 1 layers)) none (range_up 1 (max 1 d))
      (omega arith) (grid-den n e f hbm link (max 1 layers)) tt
      (range_up-positive 1 (max 1 d) (omega arith))
