-- ===== src/Partition/FeatureParallel/Plan/Grids.antt =====
-- src/zord/partition/feature_parallel.py: the grids of the hybrid plans are the factorisations of the number
-- of devices.
use zord.Base.{
  length-map, ℕ, zero, suc, ◌+◌, ◌*◌, ◌/◌, ◌%◌, ◌<◌, ◌≡◌, ◌≢◌, ◌↔◌, refl, sym, ap, subst, ◌∙◌,
  false, ◌||◌, some, List, [], ◌∷◌, map, length, get_elem?, All, arith, inl, inr, Bool-cases,
  if◌then◌else◌, ◌==◌, ==_iff,
}
use zord.Base.Ranges.{range_up, range_up-Memᴰ}
use zord.Base.Ratios.{Ratio, bottleneck_of, exceeded}
use zord.Base.Members.{All-Memᴰ}
use zord.Partition.AttrCost.{DeviceProfile}
use zord.Partition.FeatureParallel.Plan.{
  Setting, HybridPlan, factor_pairs, pairs_from, grid_cost, grid_plan, grid_with, epoch_ms,
  grids_from, hybrid_plans,
}
use mathlib.Core.List.{Memᴰ}
use native.Mathlib.Nat.{div-add-mod, mul-div_right}

-- The factorisations are exact.
pairs_from-product : (d : ℕ) (dns : List ℕ) → All (λ r. r.0 * r.1 ≡ d) (pairs_from d dns)
unfolding pairs_from
pairs_from-product d [] = tt
pairs_from-product d (dn ∷ dns) = elim (Bool-cases (d % dn == 0)) [
  | inl e ↦
      let exact = (==_iff (d % dn) 0).0 e in
      let total = div-add-mod d dn in rw e (omega (arith, exact, total), pairs_from-product d dns)
  | inr e ↦ rw e (pairs_from-product d dns)
]

-- A factorisation whose first factor is tried is found.
pairs_from-Memᴰ :
    (d : ℕ) (dns : List ℕ) (dn df : ℕ)
    → 0 < dn
    → dn * df ≡ d
    → Memᴰ dn dns
    → Memᴰ (dn, df) (pairs_from d dns)
unfolding pairs_from
pairs_from-Memᴰ d [] dn df pos e m = elim m [ ]
pairs_from-Memᴰ d (x ∷ dns) dn df pos e (Memᴰ.head same) =
    let whole_part : dn * df / dn ≡ df = mul-div_right df pos in
    let quotient : d / x ≡ df =
      ap (λ y. d / y) (sym same) ∙ ap (λ y. y / dn) (sym e) ∙ whole_part in
    let total = div-add-mod d x in
    let exact : d % x ≡ 0 =
      omega
        (arith, total, (subst (λ y. x * y ≡ d) (sym quotient) (ap (λ y. y * df) (sym same) ∙ e))) in
    rw (exact, quotient) (Memᴰ.head (ap (λ y. (y, df)) same))
pairs_from-Memᴰ d (x ∷ dns) dn df pos e (Memᴰ.tail m) =
    let ih = pairs_from-Memᴰ d dns dn df pos e m in
    elim (Bool-cases (d % x == 0)) [ inl k ↦ rw k (Memᴰ.tail ih) | inr k ↦ rw k ih ]

factor_pairs-Memᴰ : (d dn df : ℕ) → 0 < d → dn * df ≡ d → Memᴰ (dn, df) (factor_pairs d)
unfolding factor_pairs
factor_pairs-Memᴰ d dn df pos e =
    pairs_from-Memᴰ d (range_up 1 d) dn df (first_positive dn df (omega (arith, e, pos))) e (
      range_up-Memᴰ d 1 dn (first_positive dn df (omega (arith, e, pos)))
        (first_bounded dn df (omega (arith, e, pos)) d e))
  where
    first_positive : (x y : ℕ) → 0 < x * y → 0 < x
    first_positive zero y h = absurd (omega (arith, h))
    first_positive (suc x) y h = omega arith

    first_bounded : (x y : ℕ) → 0 < x * y → (k : ℕ) → x * y ≡ k → x < 1 + k
    first_bounded x zero h k f = absurd (omega (arith, h))
    first_bounded x (suc y) h k f = grind arith

bottleneck_of-lt : (x : Ratio) (xs : List Ratio) → bottleneck_of (x ∷ xs) < length (x ∷ xs)
bottleneck_of-lt x [] = omega arith
bottleneck_of-lt x (y ∷ ys) = elim (Bool-cases (exceeded x (y ∷ ys))) [
  | inl e ↦ let ih = bottleneck_of-lt y ys in rw e (omega (arith, ih))
  | inr e ↦ rw e (omega arith)
]

-- The factors of a plan.
abbrev pub factors : HybridPlan → ℕ × ℕ
factors p = (p.dn, p.df)

-- The factorisations that split both ways.
abbrev proper : List (ℕ × ℕ) → List (ℕ × ℕ)
proper [] = []
proper ((dn, df) ∷ pairs) =
    let rest = proper pairs in if (dn == 1) || (df == 1) then rest else (dn, df) ∷ rest

grids_from-proper :
    (s : Setting) (v : DeviceProfile) (vs : List DeviceProfile) (f : ℕ) (pairs : List (ℕ × ℕ))
    → (plans : List HybridPlan) × (grids_from s (v ∷ vs) f pairs ≡ some plans)
      × (map factors plans ≡ proper pairs)
unfolding grids_from grid_plan grid_with
grids_from-proper s v vs f [] = ([], refl, refl)
grids_from-proper s v vs f ((dn, df) ∷ pairs) =
    let (rest, done, keys) = grids_from-proper s v vs f pairs in
    elim (Bool-cases ((dn == 1) || (df == 1))) [
      | inl skip ↦ (rest, rw skip done, rw skip keys)
      | inr keep ↦
          let cost = grid_cost s f dn df in
          let costs = map cost (v ∷ vs) in
          let lt : bottleneck_of (map epoch_ms costs) < length costs = omega (
            arith,
            bottleneck_of-lt (epoch_ms (cost v)) (map epoch_ms (map cost vs)),
            length-map epoch_ms (map cost vs),
          ) in
          let (worst, found) = in_range costs (bottleneck_of (map epoch_ms costs)) lt in
          (
            grid_with dn df costs worst ∷ rest,
            rw (keep, found, done) refl,
            rw keep (ap (λ ks. (dn, df) ∷ ks) keys),
          )
    ]
  where
    in_range :
        {A : Type 0} (xs : List A) (i : ℕ) → i < length xs → (x : A) × (get_elem? xs i ≡ some x)
    in_range [] i h = absurd (omega (arith, h))
    in_range (x ∷ xs) zero h = (x, refl)
    in_range (x ∷ xs) (suc i) h = in_range xs i (omega arith)

Memᴰ-proper :
    (pairs : List (ℕ × ℕ)) (dn df : ℕ)
    → (dn ≢ 1)
    → (df ≢ 1)
    → Memᴰ (dn, df) pairs
    → Memᴰ (dn, df) (proper pairs)
Memᴰ-proper [] dn df h k m = elim m [ ]
Memᴰ-proper ((a, b) ∷ pairs) dn df h k (Memᴰ.head same) =
    let one : (a == 1) ≡ false = ground (arith, h, ap (λ r. r.0) same) in
    let two : (b == 1) ≡ false = ground (arith, k, ap (λ r. r.1) same) in
    rw (one, two) (Memᴰ.head same)
Memᴰ-proper ((a, b) ∷ pairs) dn df h k (Memᴰ.tail m) =
    let ih = Memᴰ-proper pairs dn df h k m in
    elim (Bool-cases ((a == 1) || (b == 1))) [ inl e ↦ rw e ih | inr e ↦ rw e (Memᴰ.tail ih) ]

proper-All :
    (d : ℕ) (pairs : List (ℕ × ℕ))
    → All (λ r. r.0 * r.1 ≡ d) pairs
    → All (λ r. (r.0 * r.1 ≡ d) × (r.0 ≢ 1) × (r.1 ≢ 1)) (proper pairs)
proper-All d [] h = tt
proper-All d ((a, b) ∷ pairs) h = elim (Bool-cases ((a == 1) || (b == 1))) [
  | inl e ↦ rw e (proper-All d pairs h.1)
  | inr e ↦
      rw e ((h.0, (λ x. ground (arith, x, e)), (λ x. ground (arith, x, e))), proper-All d pairs h.1)
]

-- With one device at least there are hybrid plans, and their grids are exactly the factorisations of the number of
-- the devices in which neither factor is 1.
pub hybrid_plans-grids :
    (s : Setting) (v : DeviceProfile) (vs : List DeviceProfile) (f : ℕ)
    → (plans : List HybridPlan) × (hybrid_plans s (v ∷ vs) f ≡ some plans)
      × ((dn df : ℕ)
          → Memᴰ (dn, df) (map factors plans) ↔ ((dn * df ≡ length (v ∷ vs)) × (dn ≢ 1) × (df ≢ 1)))
unfolding hybrid_plans factor_pairs
hybrid_plans-grids s v vs f =
    let d = length (v ∷ vs) in
    let (plans, done, keys) = grids_from-proper s v vs f (factor_pairs d) in
    let sound = proper-All d (factor_pairs d) (pairs_from-product d (range_up 1 d)) in
    (
      plans,
      done,
      λ dn df. (
        (λ m.
            All-Memᴰ (λ r. (r.0 * r.1 ≡ d) × (r.0 ≢ 1) × (r.1 ≢ 1)) (proper (factor_pairs d))
              (dn, df) sound (subst (Memᴰ (dn, df)) keys m)),
        (λ h. subst (Memᴰ (dn, df)) (sym keys) (
            Memᴰ-proper (factor_pairs d) dn df h.1 h.2
              (factor_pairs-Memᴰ d dn df (omega arith) h.0))),
      ),
    )
