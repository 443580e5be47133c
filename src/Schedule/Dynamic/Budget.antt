-- ===== src/Schedule/Dynamic/Budget.antt =====
-- src/zord/schedule/dynamic.py: the plan of a batch migrates no more vertices than the budget has.
use zord.Base.{
  ℕ, zero, suc, ◌+◌, ◌-◌, ◌*◌, ◌≤◌, ◌<◌, ◌≡◌, ◌≢◌, refl, sym, ap, subst, ◌∙◌, true, false, Option,
  none, some, some-injective, List, [], ◌∷◌, length, get_elem?, All, arith, inl, inr, Bool-cases,
  ◌==◌, if◌then◌else◌, min, ==_iff, map, scale-le, All-get,
}
use zord.Base.Options.{bind-some}
use zord.Base.Ranges.{range_up-bounds}
use zord.Datasets.Numpy.{gather}
use zord.Datasets.Numpy.Gather.{gather-cons, length-gather, All-Permᴰ}
use zord.Datasets.Unique.{Unique}
use zord.Datasets.Argpartition.{Argpartition}
use zord.Schedule.Dynamic.{contains}
use zord.Schedule.Dynamic.Kept.{Absent, Absent-parts, partition_incremental-kept}
use zord.Schedule.Dynamic.Around.{Below}
use zord.Schedule.Dynamic.Total.{partition_incremental-total}
use zord.Schedule.Dynamic.Migration.{
  changed, placed_all, IncrementalPlan, plan_incremental, exact_match_max_dev,
}
use zord.Schedule.Dynamic.Matching.{migration_match-Relabels}

-- A list without the first `v`.
without : ℕ → List ℕ → List ℕ
without v [] = []
without v (u ∷ us) = let rest = without v us in if u == v then us else u ∷ rest

length-without :
    (v : ℕ) (us : List ℕ) → contains v us ≡ true → suc (length (without v us)) ≡ length us
unfolding without contains
length-without v [] e = cc
length-without v (u ∷ us) e = ground (arith, length-without v us)

Absent-without : (v w : ℕ) (us : List ℕ) → v ≢ w → Absent w (without v us) → Absent w us
unfolding without contains
Absent-without v w [] ne h = h
Absent-without v w (u ∷ us) ne h = elim (Bool-cases (u == v)) [
  | inl same ↦
      let rest : contains w us ≡ false = rw same at h in
      elim (Bool-cases (u == w)) [
        | inl also ↦ absurd (ne (omega (arith, (==_iff u v).0 same, (==_iff u w).0 also)))
        | inr other ↦ rw other rest
      ]
  | inr differ ↦
      let rest : contains w (u ∷ without v us) ≡ false = rw differ at h in
      let (ne', out) = Absent-parts w u (without v us) rest in
      let ih = Absent-without v w us ne out in
      elim (Bool-cases (u == w)) [
        | inl also ↦ absurd (ne' ((==_iff u w).0 also))
        | inr other ↦ rw other ih
      ]
]

-- Where all but some items are the same, no more than those differ.
changed-le_length :
    (i : ℕ) (xs ys moved : List ℕ)
    → ((j x y : ℕ)
        → get_elem? xs j ≡ some x
        → get_elem? ys j ≡ some y
        → Absent (i + j) moved
        → x ≡ y)
    → changed xs ys ≤ length moved
unfolding changed
changed-le_length i [] ys moved h = omega arith
changed-le_length i (x ∷ xs) [] moved h = omega arith
changed-le_length i (x ∷ xs) (y ∷ ys) moved h = elim (Bool-cases (x == y)) [
  | inl same ↦ rw same (
      omega (
        arith,
        changed-le_length (i + 1) xs ys moved (λ j a b at_a at_b out.
            let shift : i + 1 + j ≡ i + suc j = omega arith in
            h (suc j) a b at_a at_b (subst (λ m. contains m moved ≡ false) shift out)),
      ))
  | inr differ ↦ elim (Bool-cases (contains i moved)) [
    | inr out ↦
        let zero_shift : i ≡ i + 0 = omega arith in
        absurd (
          let q = h 0 x y refl refl (subst (λ m. contains m moved ≡ false) zero_shift out) in
          let r = (==_iff x y).1 q in cc)
    | inl inside ↦
        let fewer = changed-le_length (i + 1) xs ys (without i moved) (λ j a b at_a at_b out.
          let shift : i + 1 + j ≡ i + suc j = omega arith in
          let ne : i ≢ i + 1 + j = λ e. omega (arith, e) in
          h (suc j) a b at_a at_b (
            subst (λ m. contains m moved ≡ false) shift
              (Absent-without i (i + 1 + j) moved ne out))) in
        rw differ (omega (arith, fewer, length-without i moved inside))
  ]
]

pub placed_all_total :
    (a : List (Option ℕ)) (n d : ℕ)
    → length a ≡ n
    → ((v : ℕ) → v < n → (c : ℕ) × (get_elem? a v ≡ some (some c)) × (c < d))
    → (cur : List ℕ) × (placed_all a ≡ some cur) × (length cur ≡ n) × All (λ c. c < d) cur
unfolding placed_all
placed_all_total [] n d len h = ([], refl, len, tt)
placed_all_total (o ∷ a) zero d len h = absurd (omega (arith, len))
placed_all_total (none ∷ a) (suc n) d len h = let (c, e, lt) = h 0 (omega arith) in absurd (cc)
placed_all_total (some c' ∷ a) (suc n) d len h =
    let (c, e, lt) = h 0 (omega arith) in
    let (cur, done, len', below) =
      placed_all_total a n d (omega (arith, len)) (λ v k. h (suc v) (omega (arith, k))) in
    (
      c' ∷ cur,
      rw done refl,
      omega (arith, len'),
      (omega (arith, lt, some-injective _ _ (some-injective _ _ e)), below),
    )

placed_all-get :
    (a : List (Option ℕ)) (cur : List ℕ) (v y : ℕ)
    → placed_all a ≡ some cur
    → get_elem? cur v ≡ some y
    → (get_elem? a v ≡ some (some y)) × (v < length a)
unfolding placed_all
placed_all-get [] cur v y e f =
    absurd (let q = subst (λ l. get_elem? l v ≡ some y) (sym (some-injective _ _ e)) f in cc)
placed_all-get (none ∷ a) cur v y e f = absurd (cc)
placed_all-get (some c ∷ a) cur zero y e f =
    let (rest, done, q) = bind-some (placed_all a) _ cur e in
    let at_v = subst (λ l. get_elem? l 0 ≡ some y) (sym (some-injective _ _ q)) f in
    (ap some at_v, omega arith)
placed_all-get (some c ∷ a) cur (suc v) y e f =
    let (rest, done, q) = bind-some (placed_all a) _ cur e in
    let at_v = subst (λ l. get_elem? l (suc v) ≡ some y) (sym (some-injective _ _ q)) f in
    let (at_a, lt) = placed_all-get a rest v y done at_v in (at_a, omega (arith, lt))

map-some-get :
    (prior : List ℕ) (v x : ℕ)
    → get_elem? prior v ≡ some x
    → get_elem? (map some prior) v ≡ some (some x)
map-some-get [] v x e = absurd (cc)
map-some-get (c ∷ prior) zero x e = ap some e
map-some-get (c ∷ prior) (suc v) x e = map-some-get prior v x e

map-some-Below : (d : ℕ) (prior : List ℕ) → All (λ c. c < d) prior → All (Below d) (map some prior)
map-some-Below d [] h = tt
map-some-Below d (c ∷ prior) h = (h.0, map-some-Below d prior h.1)

pub gather-All_of {ℓ κ} :
    {A : Type ℓ} (P : A → Type κ) (xs : List A) (order : List ℕ) (ys : List A)
    → All P xs
    → gather xs order ≡ some ys
    → All P ys
unfolding gather
gather-All_of P xs [] ys h e = subst (All P) (some-injective _ _ e) tt
gather-All_of P xs (i ∷ order) ys h e =
    let (x, rest, found, done, eq) = gather-cons xs ys i order e in
    subst (All P) (sym eq) (All-get P xs i x h found, gather-All_of P xs order rest h done)

-- On at most six devices, and on vertices and devices in range, there is a plan for a batch after
-- another: it places every vertex on one of the devices, counts the vertices of the prior assignment
-- that change their device, and neither these nor the bytes they migrate are more than the budget.
pub plan_incremental-within_budget :
    (un : Unique) (np : Argpartition) (src dst : List ℕ) (n d : ℕ) (prior : List ℕ)
    (lo budget mem_dim : ℕ)
    → 0 < d
    → d ≤ exact_match_max_dev
    → All (λ v. v < n) src
    → All (λ v. v < n) dst
    → All (λ c. c < d) prior
    → (plan : IncrementalPlan) × (plan_incremental un np src dst n d (some prior) lo budget mem_dim
        ≡ some plan)
      × (length plan.assignment ≡ n)
      × All (λ c. c < d) plan.assignment
      × (plan.moved_vertices ≡ changed prior plan.assignment)
      × (plan.moved_vertices ≤ budget)
      × (plan.migrated_bytes ≤ budget * mem_dim * 4)
unfolding plan_incremental
plan_incremental-within_budget un np src dst n d prior lo budget mem_dim pos few hs hd hp =
    let before = map some prior in
    let (a, done, len, homes) =
      partition_incremental-total un np src dst n d (some before) lo budget pos hs hd
        (map-some-Below d prior hp) in
    let (cur, placed, len_cur, below_d) = placed_all_total a n d len homes in
    let (moved, within, kept) =
      partition_incremental-kept un np src dst n d before lo budget a done in
    let (count, matched, remap, matching, perm, got, is_count, le, _) =
      migration_match-Relabels prior cur d few below_d in
    let stays = changed-le_length 0 prior cur moved (λ j x y at_x at_y out.
      let zero_shift : 0 + j ≡ j = omega arith in
      let (at_a, lt) = placed_all-get a cur j y placed at_y in
      let same =
        kept j x (omega (arith, lt, len)) (map-some-get prior j x at_x)
          (subst (λ m. contains m moved ≡ false) zero_shift out) in
      some-injective _ _ (some-injective _ _ (sym same ∙ at_a))) in
    let few_moved : count ≤ budget = omega (arith, le, stays, within) in
    (
      record {
        assignment = matched;
        moved_vertices = count;
        migrated_bytes = count * mem_dim * 4;
        new_vertices = n - min n (length prior);
      },
      rw (done, placed, matching) refl,
      length-gather remap cur matched got ∙ len_cur,
      gather-All_of (λ c. c < d) remap cur matched
          (All-Permᴰ (λ c. c < d) perm (range_up-bounds 0 d d (omega arith))) got,
      is_count,
      few_moved,
      omega (arith, scale-le count budget mem_dim few_moved),
    )
