-- ===== src/Schedule/Dynamic/Kept.antt =====
-- src/zord/schedule/dynamic.py: what the placement of the changed cone leaves as it is.
use zord.Base.{
  ℕ, zero, suc, ◌+◌, ◌-◌, ◌*◌, ◌/◌, sum, ◌≤◌, ◌<◌, ◌≡◌, ◌≢◌, refl, ap, subst, ◌∙◌, false, Option,
  none, some, some-injective, List, [], ◌∷◌, ◌++◌, length, get_elem?, ltb, arith, inl, inr,
  Bool-cases, Option-cases, ◌==◌, ==_iff,
}
use zord.Base.Options.{bind-some}
use zord.Base.Rows.{take}
use zord.Datasets.Numpy.{gather}
use zord.Datasets.Numpy.Gather.{length-gather}
use zord.Datasets.Unique.{Unique}
use zord.Datasets.Argpartition.{Argpartition}
use zord.Partition.Hetero.{update}
use zord.Partition.Hetero.Loads.{get-update_other}
use zord.Schedule.Dynamic.Sizes.{length-loads}
use zord.Schedule.Dynamic.Spill.{spill_keeps, length-take_le}
use zord.Schedule.Dynamic.{
  start_from, unplaced, touched, old_touched, most_crossing, old_move, clear, contains, settle,
  movers, put_all, spill, place_cone, partition_incremental, same_device, crossed, cross_keys,
  fixed_votes, tents, loads, all_below,
}

-- A vertex that is not among those of a list.
abbrev pub Absent : ℕ → List ℕ → Type 0
Absent v vs = contains v vs ≡ false

pub Absent-parts : (v u : ℕ) (us : List ℕ) → Absent v (u ∷ us) → (u ≢ v) × Absent v us
unfolding contains
Absent-parts v u us h = elim (Bool-cases (u == v)) [
  | inl same ↦ absurd (let q = rw same at h in cc)
  | inr differ ↦ ((λ e. (let q = (==_iff u v).1 e in cc)), rw differ at h)
]

pub Absent-append : (v : ℕ) (xs ys : List ℕ) → Absent v xs → Absent v ys → Absent v (xs ++ ys)
unfolding contains
Absent-append v [] ys h k = k
Absent-append v (x ∷ xs) ys h k =
    let (ne, h') = Absent-parts v x xs h in let ih = Absent-append v xs ys h' k in ground arith

Absent-take : (v n : ℕ) (xs : List ℕ) → Absent v xs → Absent v (take n xs)
unfolding contains
Absent-take v zero xs h = refl
Absent-take v (suc n) [] h = refl
Absent-take v (suc n) (x ∷ xs) h =
    let (ne, h') = Absent-parts v x xs h in let ih = Absent-take v n xs h' in ground arith

Absent-movers :
    (v : ℕ) (a : List (Option ℕ)) (c : ℕ) (vs : List ℕ) → Absent v vs → Absent v (movers a c vs)
unfolding contains movers
Absent-movers v a c [] h = refl
Absent-movers v a c (u ∷ us) h =
    let (ne, h') = Absent-parts v u us h in
    let ih = Absent-movers v a c us h' in
    elim (Option-cases (get_elem? a u)) [
      | inl out ↦ rw (out, movers) ih
      | inr (o, found) ↦ elim (Bool-cases (same_device o (some c))) [
        | inl on ↦ rw (found, movers, on) (ground arith)
        | inr off ↦ rw (found, movers, off) ih
      ]
    ]

pub clear-other :
    (v : ℕ) (vs : List ℕ) (a : List (Option ℕ))
    → Absent v vs
    → get_elem? (clear vs a) v ≡ get_elem? a v
unfolding clear
clear-other v [] a h = refl
clear-other v (u ∷ us) a h =
    let (ne, h') = Absent-parts v u us h in
    clear-other v us (update u (λ _. none) a) h' ∙ get-update_other u v (λ _. none) a ne

pub settle-other :
    (v : ℕ) (vs cs : List ℕ) (a : List (Option ℕ))
    → Absent v vs
    → get_elem? (settle vs cs a) v ≡ get_elem? a v
unfolding settle
settle-other v [] cs a h = refl
settle-other v (u ∷ us) [] a h = refl
settle-other v (u ∷ us) (c ∷ cs) a h =
    let (ne, h') = Absent-parts v u us h in
    settle-other v us cs (update u (λ _. some c) a) h' ∙ get-update_other u v (λ _. some c) a ne

put_all-other :
    (v : ℕ) (vs : List ℕ) (c : ℕ) (a : List (Option ℕ))
    → Absent v vs
    → get_elem? (put_all vs c a) v ≡ get_elem? a v
unfolding put_all
put_all-other v [] c a h = refl
put_all-other v (u ∷ us) c a h =
    let (ne, h') = Absent-parts v u us h in
    put_all-other v us c (update u (λ _. some c) a) h' ∙ get-update_other u v (λ _. some c) a ne

start_from-keeps :
    (n : ℕ) (prior : List (Option ℕ)) (v : ℕ) (o : Option ℕ)
    → v < n
    → get_elem? prior v ≡ some o
    → get_elem? (start_from n prior) v ≡ some o
unfolding start_from
start_from-keeps zero prior v o lt e = absurd (omega (arith, lt))
start_from-keeps (suc n) [] v o lt e = absurd (cc)
start_from-keeps (suc n) (x ∷ prior) zero o lt e = e
start_from-keeps (suc n) (x ∷ prior) (suc v) o lt e =
    start_from-keeps n prior v o (omega (arith, lt)) e

Absent-unplaced_before : (i j : ℕ) (a : List (Option ℕ)) → j < i → Absent j (unplaced i a)
unfolding unplaced contains
Absent-unplaced_before i j [] lt = refl
Absent-unplaced_before i j (none ∷ a) lt =
    let ih = Absent-unplaced_before (i + 1) j a (omega (arith, lt)) in ground arith
Absent-unplaced_before i j (some c ∷ a) lt = Absent-unplaced_before (i + 1) j a (omega (arith, lt))

-- A vertex with a device is not among those without.
pub Absent-unplaced :
    (i : ℕ) (a : List (Option ℕ)) (v c : ℕ)
    → get_elem? a v ≡ some (some c)
    → Absent (i + v) (unplaced i a)
unfolding unplaced contains
Absent-unplaced i [] v c e = absurd (cc)
Absent-unplaced i (none ∷ a) zero c e = absurd (cc)
Absent-unplaced i (some d ∷ a) zero c e = Absent-unplaced_before (i + 1) (i + 0) a (omega arith)
Absent-unplaced i (none ∷ a) (suc v) c e =
    let ih = Absent-unplaced (i + 1) a v c e in
    let same : i + 1 + v ≡ i + suc v = omega arith in
    let ih' = subst (λ j. contains j (unplaced (i + 1) a) ≡ false) same ih in ground arith
Absent-unplaced i (some d ∷ a) (suc v) c e =
    let same : i + 1 + v ≡ i + suc v = omega arith in
    subst (λ j. contains j (unplaced (i + 1) a) ≡ false) same (Absent-unplaced (i + 1) a v c e)

-- At most as many old vertices are placed again as the budget has.
length-old_move :
    (np : Argpartition) (a : List (Option ℕ)) (src dst : List ℕ) (budget : ℕ) (old olds : List ℕ)
    → old_move np a src dst budget old ≡ some olds
    → length olds ≤ budget
unfolding old_move most_crossing
length-old_move np a src dst budget old olds e = elim (Bool-cases (budget == 0)) [
  | inl none_left ↦
      let q : [] ≡ olds = some-injective _ _ (rw none_left at e) in
      subst (λ l. length l ≤ budget) q (omega arith)
  | inr some_left ↦ elim (Bool-cases (ltb budget (length old))) [
    | inr fit ↦
        let q : old ≡ olds = some-injective _ _ (rw (some_left, fit) at e) in
        subst (λ l. length l ≤ budget) q (ground arith)
    | inl many ↦
        let chain = rw (some_left, many) at e in
        let (as', e1, r1) = bind-some (gather a src) _ olds chain in
        let (bs, e2, r2) = bind-some (gather a dst) _ olds r1 in
        let ends = crossed as' bs src ++ crossed as' bs dst in
        let chosen = take budget (np.argpartition (cross_keys ends old) (budget - 1)) in
        omega (
          arith,
          length-gather old chosen olds r2,
          length-take_le budget (np.argpartition (cross_keys ends old) (budget - 1)),
        )
  ]
]

-- The loop runs on the settled assignment.
pub place_cone-spill :
    (n d : ℕ) (src dst place : List ℕ) (a a' : List (Option ℕ))
    → place_cone n d src dst place a ≡ some a'
    → let s = settle place (tents d src dst place a) a in
      spill (suc (sum (loads d s))) place (n / d + 1) (loads d s) s ≡ some a'
unfolding place_cone
place_cone-spill n d src dst place a a' e =
    let (x, e1, r1) = bind-some (gather a src) _ a' e in
    let (y, e2, r2) = bind-some (gather a dst) _ a' r1 in
    elim (Bool-cases (all_below (length place * d) (fixed_votes d src dst place a))) [
      | inl fit ↦ rw fit at r2
      | inr long ↦ absurd (let q = rw long at r2 in cc)
    ]

place_cone-other :
    (n d : ℕ) (src dst place : List ℕ) (a a' : List (Option ℕ)) (v : ℕ)
    → 0 < d
    → Absent v place
    → place_cone n d src dst place a ≡ some a'
    → get_elem? a' v ≡ get_elem? a v
place_cone-other n d src dst place a a' v pos absent e =
    let s = settle place (tents d src dst place a) a in
    spill_keeps place (n / d + 1) (λ b. get_elem? b v ≡ get_elem? a v) (length (loads d s))
      (omega (arith, length-loads d s, pos))
      (λ b m full c lt h.
        put_all-other v (take m (movers b full place)) c b
          (Absent-take v m (movers b full place) (Absent-movers v b full place absent))
        ∙ h)
      (suc (sum (loads d s))) (loads d s) s a' refl (place_cone-spill n d src dst place a a' e)
      (settle-other v place (tents d src dst place a) a absent)

-- At most `budget` vertices of the prior assignment change: any other keeps its device.
pub partition_incremental-kept :
    (un : Unique) (ap : Argpartition) (src dst : List ℕ) (n d : ℕ) (prior : List (Option ℕ))
    (lo budget : ℕ) (a' : List (Option ℕ))
    → partition_incremental un ap src dst n d (some prior) lo budget ≡ some a'
    → (moved : List ℕ) × (length moved ≤ budget)
      × ((v c : ℕ)
          → v < n
          → get_elem? prior v ≡ some (some c)
          → Absent v moved
          → get_elem? a' v ≡ some (some c))
unfolding partition_incremental
partition_incremental-kept un ap src dst n zero prior lo budget a' e = cc
partition_incremental-kept un ap src dst n (suc d) prior lo budget a' e =
    let a = start_from n prior in
    let (old, e1, r1) = bind-some (old_touched a (touched un src dst lo)) _ a' e in
    let (olds, e2, r2) = bind-some (old_move ap a src dst budget old) _ a' r1 in
    let place = unplaced 0 a ++ olds in
    (
      olds,
      length-old_move ap a src dst budget old olds e2,
      λ v c lt at_v absent.
          let found = start_from-keeps n prior v (some c) lt at_v in
          let same : 0 + v ≡ v = omega arith in
          let out =
            Absent-append v (unplaced 0 a) olds
              (subst (λ j. contains j (unplaced 0 a) ≡ false) same (Absent-unplaced 0 a v c found))
              absent in
          let cleared = clear-other v olds a absent ∙ found in
          elim (Bool-cases (length place == 0)) [
            | inl done ↦
                let q : some (clear olds a) ≡ some a' = rw done at r2 in
                subst (λ b. get_elem? b v ≡ some (some c)) (some-injective _ _ q) cleared
            | inr some_left ↦
                place_cone-other n (suc d) src dst place (clear olds a) a' v (omega arith) out
                  (rw some_left at r2)
                ∙ cleared
          ],
    )
