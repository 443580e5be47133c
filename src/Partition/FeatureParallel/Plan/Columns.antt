-- ===== src/Partition/FeatureParallel/Plan/Columns.antt =====
-- src/zord/partition/feature_parallel.py: what a plan of the column split promises.
use zord.Base.{
  length-map, ℕ, zero, suc, ◌*◌, ◌<◌, ◌≡◌, ◌↔◌, ◌⊎◌, refl, sym, ap, subst, ◌∙◌, true, some,
  some-injective, List, [], ◌∷◌, map, sum, length, get_elem?, All, arith, inl, inr, Bool-cases,
  if◌then◌else◌,
}
use zord.Base.Ratios.{AtMost, bottleneck_of, bottleneck_of-AtMost}
use zord.Datasets.Numpy.{Numpy}
use zord.Partition.AttrCost.{DeviceProfile, rate}
use zord.Partition.FeatureParallel.Split.{Rounding}
use zord.Partition.FeatureParallel.Split.Shares.{columns_by_weight-shares}
use zord.Partition.FeatureParallel.Plan.{
  Setting, Split, bandwidth, capacity, auto, DeviceCost, FeatureParallelPlan, epoch_ms, all_fit,
  cost_of, costs_of, chosen, plan_of, plan_with, feature_parallel_plan,
}

get-map :
    {A B : Type 0} (f : A → B) (xs : List A) (i : ℕ) (y : B)
    → get_elem? (map f xs) i ≡ some y
    → (x : A) × (get_elem? xs i ≡ some x) × (f x ≡ y)
get-map f [] i y e = absurd (cc)
get-map f (x ∷ xs) zero y e = (x, refl, some-injective _ _ e)
get-map f (x ∷ xs) (suc i) y e = get-map f xs i y e

All-map_of :
    {A B : Type 0} (f : A → B) (P : B → Type 0) (xs : List A)
    → All P (map f xs)
    → All (λ x. P (f x)) xs
All-map_of f P [] h = tt
All-map_of f P (x ∷ xs) h = (h.0, All-map_of f P xs h.1)

module _ (s : Setting) where
  length-costs_of :
      (devs : List DeviceProfile) (cols : List ℕ)
      → length cols ≡ length devs
      → length (costs_of s devs cols) ≡ length devs
  unfolding costs_of
  length-costs_of [] cols e = refl
  length-costs_of (v ∷ devs) [] e = absurd (omega (arith, e))
  length-costs_of (v ∷ devs) (c ∷ cols) e = ap suc (length-costs_of devs cols (omega (arith, e)))

  cols-costs_of :
      (devs : List DeviceProfile) (cols : List ℕ)
      → length cols ≡ length devs
      → map (λ c. c.cols) (costs_of s devs cols) ≡ cols
  unfolding costs_of cost_of
  cols-costs_of [] [] e = refl
  cols-costs_of [] (c ∷ cols) e = absurd (omega (arith, e))
  cols-costs_of (v ∷ devs) [] e = absurd (omega (arith, e))
  cols-costs_of (v ∷ devs) (c ∷ cols) e =
      ap (λ cs. c ∷ cs) (cols-costs_of devs cols (omega (arith, e)))

  bytes-costs_of :
      (devs : List DeviceProfile) (cols : List ℕ)
      → length cols ≡ length devs
      → sum (map (λ c. c.feat_bytes) (costs_of s devs cols)) ≡ sum cols * s.num_nodes * 4
  unfolding costs_of cost_of
  bytes-costs_of [] [] e = omega arith
  bytes-costs_of [] (c ∷ cols) e = absurd (omega (arith, e))
  bytes-costs_of (v ∷ devs) [] e = absurd (omega (arith, e))
  bytes-costs_of (v ∷ devs) (c ∷ cols) e =
      let ih = bytes-costs_of devs cols (omega (arith, e)) in grind arith

  -- The times of a device are proper quotients.
  den-costs_of :
      (devs : List DeviceProfile) (cols : List ℕ)
      → 0 < s.boundary_frac.den
      → All (λ dev. 0 < dev.hbm_bw) devs
      → All (λ t. 0 < t.den) (map epoch_ms (costs_of s devs cols))
  unfolding costs_of cost_of
  den-costs_of [] cols b h = tt
  den-costs_of (v ∷ devs) [] b h = tt
  den-costs_of (v ∷ devs) (c ∷ cols) b h =
      let link : 0 < rate s.link = omega arith in
      let bw = h.0 in
      (product v.hbm_bw s.boundary_frac.den (rate s.link) bw b link, den-costs_of devs cols b h.1)
    where
      product : (x y z : ℕ) → 0 < x → 0 < y → 0 < z → 0 < x * (y * z)
      product x y z p q r = let inner : 0 < y * z = grind arith in grind arith

  chosen-P :
      (P : List ℕ → Type 0) (split : Split) (devs : List DeviceProfile) (cols_bw cols_cap : List ℕ)
      → P cols_bw
      → P cols_cap
      → P (chosen split s devs cols_bw cols_cap)
  unfolding chosen
  chosen-P P bandwidth devs cols_bw cols_cap h k = h
  chosen-P P capacity devs cols_bw cols_cap h k = k
  chosen-P P auto devs cols_bw cols_cap h k =
      elim (Bool-cases (all_fit (costs_of s devs cols_bw))) [
        | inl e ↦ subst (λ b. P (if b then cols_bw else cols_cap)) (sym e) h
        | inr e ↦ subst (λ b. P (if b then cols_bw else cols_cap)) (sym e) k
      ]

  -- The plan of the costs of one device at least.
  plan_of-Most :
      (c : DeviceCost) (cs : List DeviceCost)
      → All (λ t. 0 < t.den) (map epoch_ms (c ∷ cs))
      → (plan : FeatureParallelPlan) × (plan_of (c ∷ cs) ≡ some plan)
        × (plan.costs ≡ c ∷ cs)
        × (plan.feasible ≡ all_fit (c ∷ cs))
        × (get_elem? (map epoch_ms (c ∷ cs)) plan.bottleneck ≡ some plan.makespan_ms)
        × All (λ d. AtMost (epoch_ms d) plan.makespan_ms) (c ∷ cs)
  unfolding plan_of
  plan_of-Most c cs pos =
      let (m, at, most) = bottleneck_of-AtMost (epoch_ms c) (map epoch_ms cs) pos in
      let (worst, found, same) =
        get-map epoch_ms (c ∷ cs) (bottleneck_of (map epoch_ms (c ∷ cs))) m at in
      (
        plan_with (c ∷ cs) worst,
        rw found refl,
        refl,
        refl,
        at ∙ ap some (sym same),
        subst (λ t. All (λ d. AtMost (epoch_ms d) t) (c ∷ cs)) (sym same)
            (All-map_of epoch_ms (λ t. AtMost t m) (c ∷ cs) most),
      )

-- The plan of a number of columns for each device.
planned :
    (s : Setting) (v : DeviceProfile) (vs : List DeviceProfile) (cols : List ℕ)
    → length cols ≡ length (v ∷ vs)
    → 0 < s.boundary_frac.den
    → All (λ dev. 0 < dev.hbm_bw) (v ∷ vs)
    → (plan : FeatureParallelPlan) × (plan_of (costs_of s (v ∷ vs) cols) ≡ some plan)
      × (plan.costs ≡ costs_of s (v ∷ vs) cols)
      × (plan.feasible ≡ all_fit (costs_of s (v ∷ vs) cols))
      × (get_elem? (map epoch_ms (costs_of s (v ∷ vs) cols)) plan.bottleneck
          ≡ some plan.makespan_ms)
      × All (λ d. AtMost (epoch_ms d) plan.makespan_ms) (costs_of s (v ∷ vs) cols)
unfolding costs_of
planned s v vs [] e b bws = absurd (omega (arith, e))
planned s v vs (c ∷ cols) e b bws =
    plan_of-Most s (cost_of s v c) (costs_of s vs cols) (den-costs_of s (v ∷ vs) (c ∷ cols) b bws)

-- On devices with a bandwidth, one at least, the plan of each split gives all the columns away, one number to
-- each device, so that the features are held once over the devices; no device takes longer than the
-- makespan, which is the time of the bottleneck; and the plan is feasible when all its devices fit.
pub feature_parallel_plan-columns :
    (np : Numpy) (fl : Rounding) (s : Setting) (v : DeviceProfile) (vs : List DeviceProfile) (f : ℕ)
    (split : Split)
    → 0 < s.boundary_frac.den
    → All (λ dev. 0 < dev.hbm_bw) (v ∷ vs)
    → (plan : FeatureParallelPlan) × (feature_parallel_plan np fl s (v ∷ vs) f split ≡ some plan)
      × (length plan.costs ≡ length (v ∷ vs))
      × (sum (map (λ c. c.cols) plan.costs) ≡ f)
      × (sum (map (λ c. c.feat_bytes) plan.costs) ≡ f * s.num_nodes * 4)
      × (get_elem? (map epoch_ms plan.costs) plan.bottleneck ≡ some plan.makespan_ms)
      × All (λ c. AtMost (epoch_ms c) plan.makespan_ms) plan.costs
      × (plan.feasible ≡ all_fit plan.costs)
unfolding feature_parallel_plan
feature_parallel_plan-columns np fl s v vs f split b bws =
    let devs = v ∷ vs in
    let (cols_bw, e, len, total, _) =
      columns_by_weight-shares np fl f v.hbm_bw (map (λ dev. dev.hbm_bw) vs) in
    let (cols_cap, e', len', total', _) =
      columns_by_weight-shares np fl f v.usable_mem (map (λ dev. dev.usable_mem) vs) in
    let cols = chosen split s devs cols_bw cols_cap in
    let (as_long, sums) =
      chosen-P s (λ cs. (length cs ≡ length devs) × (sum cs ≡ f)) split devs cols_bw cols_cap
        (len ∙ ap suc (length-map (λ dev. dev.hbm_bw) vs), total)
        (len' ∙ ap suc (length-map (λ dev. dev.usable_mem) vs), total') in
    let (plan, made, costs, feasible, at, most) = planned s v vs cols as_long b bws in
    (
      plan,
      rw (e, e') made,
      ap length costs ∙ length-costs_of s devs cols as_long,
      ap (λ cs. sum (map (λ c. c.cols) cs)) costs
          ∙ ap sum (cols-costs_of s devs cols as_long)
          ∙ sums,
      ap (λ cs. sum (map (λ c. c.feat_bytes) cs)) costs
          ∙ bytes-costs_of s devs cols as_long
          ∙ ap (λ n. n * s.num_nodes * 4) sums,
      subst (λ cs. get_elem? (map epoch_ms cs) plan.bottleneck ≡ some plan.makespan_ms) (sym costs)
          at,
      subst (All (λ c. AtMost (epoch_ms c) plan.makespan_ms)) (sym costs) most,
      feasible ∙ ap all_fit (sym costs),
    )

-- On devices with a bandwidth, one at least, the automatic split has a feasible plan exactly when one of the two
-- splits has, and where that by bandwidth has, it is that plan.
pub feature_parallel_plan-auto :
    (np : Numpy) (fl : Rounding) (s : Setting) (v : DeviceProfile) (vs : List DeviceProfile) (f : ℕ)
    → 0 < s.boundary_frac.den
    → All (λ dev. 0 < dev.hbm_bw) (v ∷ vs)
    → (p : FeatureParallelPlan) × (q : FeatureParallelPlan) × (r : FeatureParallelPlan)
      × (feature_parallel_plan np fl s (v ∷ vs) f bandwidth ≡ some p)
      × (feature_parallel_plan np fl s (v ∷ vs) f capacity ≡ some q)
      × (feature_parallel_plan np fl s (v ∷ vs) f auto ≡ some r)
      × ((r.feasible ≡ true) ↔ ((p.feasible ≡ true) ⊎ (q.feasible ≡ true)))
      × (p.feasible ≡ true → r ≡ p)
unfolding feature_parallel_plan chosen
feature_parallel_plan-auto np fl s v vs f b bws =
    let devs = v ∷ vs in
    let (cols_bw, e, len, _, _) =
      columns_by_weight-shares np fl f v.hbm_bw (map (λ dev. dev.hbm_bw) vs) in
    let (cols_cap, e', len', _, _) =
      columns_by_weight-shares np fl f v.usable_mem (map (λ dev. dev.usable_mem) vs) in
    let (p, made, _, fit, _, _) =
      planned s v vs cols_bw (len ∙ ap suc (length-map (λ dev. dev.hbm_bw) vs)) b bws in
    let (q, made', _, _, _, _) =
      planned s v vs cols_cap (len' ∙ ap suc (length-map (λ dev. dev.usable_mem) vs)) b bws in
    elim (Bool-cases (all_fit (costs_of s devs cols_bw))) [
      | inl k ↦ (
        p,
        q,
        p,
        rw (e, e') made,
        rw (e, e') made',
        rw (e, e', k) made,
        ((λ h. inl h), (λ h. fit ∙ k)),
        (λ h. refl),
      )
      | inr k ↦ (
        p,
        q,
        q,
        rw (e, e') made,
        rw (e, e') made',
        rw (e, e', k) made',
        ((λ h. inr h), (λ h. elim h [ inl x ↦ absurd (cc) | inr y ↦ y ])),
        (λ h. absurd (cc)),
      )
    ]
