-- ===== src/Schedule/Dynamic/Around.antt =====
-- src/zord/schedule/dynamic.py: the assignments in which all vertices but those to place are on devices.
use zord.Base.{
  ℕ, zero, suc, ◌+◌, ◌<◌, ◌≡◌, ◌≢◌, refl, sym, subst, ◌∙◌, true, Option, none, some, some-injective,
  List, [], ◌∷◌, ◌++◌, length, get_elem?, All, All-get, arith, inl, inr, Bool-cases, Option-cases,
  ◌==◌, ==_iff,
}
use zord.Partition.Hetero.{update}
use zord.Partition.Hetero.Loads.{get-update_at, get-update_other, get-update-none}
use zord.Schedule.Dynamic.{start_from, unplaced, clear, contains, settle, put_all, devices}
use zord.Schedule.Dynamic.Sizes.{Tentative}
use zord.Schedule.Dynamic.Kept.{Absent, Absent-parts, clear-other}

-- A vertex is on one of `d` devices, or on none.
abbrev pub Below : ℕ → Option ℕ → Type 0
Below d none = Unit
Below d (some c) = c < d

abbrev pub Homed : ℕ → Option ℕ → Type 0
Homed d o = (c : ℕ) × (o ≡ some c) × (c < d)

-- All vertices but some to place are on devices.
abbrev pub Around : ℕ → List ℕ → List (Option ℕ) → Type 0
Around d place a = (v : ℕ) (o : Option ℕ) → Absent v place → get_elem? a v ≡ some o → Homed d o

update-Around :
    (d u c : ℕ) (us : List ℕ) (a : List (Option ℕ))
    → c < d
    → Around d (u ∷ us) a
    → Around d us (update u (λ _. some c) a)
unfolding contains
update-Around d u c us a lt h v o absent e = elim (Bool-cases (u == v)) [
  | inr differ ↦
      let ne : u ≢ v = λ q. (let r = (==_iff u v).1 q in cc) in
      let out : Absent v (u ∷ us) = rw differ absent in
      h v o out (sym (get-update_other u v (λ _. some c) a ne) ∙ e)
  | inl same ↦
      let q : u ≡ v = (==_iff u v).0 same in
      let e' : get_elem? (update u (λ _. some c) a) u ≡ some o =
        subst (λ w. get_elem? (update u (λ _. some c) a) w ≡ some o) (sym q) e in
      elim (Option-cases (get_elem? a u)) [
        | inl out ↦ absurd (let r = get-update-none u u (λ _. some c) a out in cc)
        | inr (x, found) ↦
            (c, some-injective _ _ (sym e' ∙ get-update_at u (λ _. some c) a x found), lt)
      ]
]

pub settle-Around :
    (d : ℕ) (vs cs : List ℕ) (a : List (Option ℕ))
    → Tentative d (length vs) cs
    → Around d vs a
    → Around d [] (settle vs cs a)
unfolding settle
settle-Around d [] cs a t h = h
settle-Around d (v ∷ vs) [] a t h = absurd (omega (arith, t.0))
settle-Around d (v ∷ vs) (c ∷ cs) a t h =
    settle-Around d vs cs (update v (λ _. some c) a) (omega (arith, t.0), t.1.1)
      (update-Around d v c vs a t.1.0 h)

update-Placed :
    (d u c : ℕ) (a : List (Option ℕ))
    → c < d
    → Around d [] a
    → Around d [] (update u (λ _. some c) a)
unfolding contains
update-Placed d u c a lt h = update-Around d u c [] a lt (λ v o absent e. h v o refl e)

pub put_all-Around :
    (d c : ℕ) (vs : List ℕ) (a : List (Option ℕ))
    → c < d
    → Around d [] a
    → Around d [] (put_all vs c a)
unfolding put_all
put_all-Around d c [] a lt h = h
put_all-Around d c (v ∷ vs) a lt h =
    put_all-Around d c vs (update v (λ _. some c) a) lt (update-Placed d v c a lt h)

-- Where all vertices are on devices below `d`, the devices are below `d`.
pub devices-below : (d : ℕ) (a : List (Option ℕ)) → Around d [] a → All (λ c. c < d) (devices a)
unfolding devices contains
devices-below d [] h = tt
devices-below d (none ∷ a) h = devices-below d a (λ v o absent e. h (suc v) o refl e)
devices-below d (some c ∷ a) h =
    let (c', q, lt) = h 0 (some c) refl refl in
    (
      omega (arith, some-injective _ _ q, lt),
      devices-below d a (λ v o absent e. h (suc v) o refl e),
    )

start_from-inverse :
    (n : ℕ) (prior : List (Option ℕ)) (v c : ℕ)
    → get_elem? (start_from n prior) v ≡ some (some c)
    → get_elem? prior v ≡ some (some c)
unfolding start_from
start_from-inverse zero prior v c e = absurd (cc)
start_from-inverse (suc n) [] zero c e = absurd (cc)
start_from-inverse (suc n) [] (suc v) c e = start_from-inverse n [] v c e
start_from-inverse (suc n) (x ∷ prior) zero c e = e
start_from-inverse (suc n) (x ∷ prior) (suc v) c e = start_from-inverse n prior v c e

pub start_from-Below :
    (n d : ℕ) (prior : List (Option ℕ)) (v c : ℕ)
    → All (Below d) prior
    → get_elem? (start_from n prior) v ≡ some (some c)
    → c < d
start_from-Below n d prior v c h e =
    All-get (Below d) prior v (some c) h (start_from-inverse n prior v c e)

-- A vertex without a device is among those to place.
unplaced-has :
    (i : ℕ) (a : List (Option ℕ)) (v : ℕ)
    → get_elem? a v ≡ some none
    → contains (i + v) (unplaced i a) ≡ true
unfolding unplaced contains
unplaced-has i [] v e = absurd (cc)
unplaced-has i (none ∷ a) zero e = ground arith
unplaced-has i (some c ∷ a) zero e = absurd (cc)
unplaced-has i (none ∷ a) (suc v) e =
    let ih = unplaced-has (i + 1) a v e in
    let same : i + 1 + v ≡ i + suc v = omega arith in
    let ih' = subst (λ j. contains j (unplaced (i + 1) a) ≡ true) same ih in ground arith
unplaced-has i (some c ∷ a) (suc v) e =
    let same : i + 1 + v ≡ i + suc v = omega arith in
    subst (λ j. contains j (unplaced (i + 1) a) ≡ true) same (unplaced-has (i + 1) a v e)

Absent-both : (v : ℕ) (xs ys : List ℕ) → Absent v (xs ++ ys) → Absent v xs × Absent v ys
unfolding contains
Absent-both v [] ys h = (refl, h)
Absent-both v (x ∷ xs) ys h =
    let (ne, h') = Absent-parts v x (xs ++ ys) h in
    let (l, r) = Absent-both v xs ys h' in
    elim (Bool-cases (x == v)) [
      | inl same ↦ absurd (ne ((==_iff x v).0 same))
      | inr differ ↦ (rw differ l, r)
    ]

-- The cleared assignment, with the new vertices and the cleared ones to place.
pub clear-Around :
    (n d : ℕ) (prior : List (Option ℕ)) (olds : List ℕ)
    → All (Below d) prior
    → Around d (unplaced 0 (start_from n prior) ++ olds) (clear olds (start_from n prior))
clear-Around n d prior olds h v none absent e =
    let a = start_from n prior in
    let (l, r) = Absent-both v (unplaced 0 a) olds absent in
    let found = unplaced-has 0 a v (sym (clear-other v olds a r) ∙ e) in
    let same : 0 + v ≡ v = omega arith in
    let found' = subst (λ j. contains j (unplaced 0 a) ≡ true) same found in absurd (cc)
clear-Around n d prior olds h v (some c) absent e =
    let a = start_from n prior in
    let (l, r) = Absent-both v (unplaced 0 a) olds absent in
    (c, refl, start_from-Below n d prior v c h (sym (clear-other v olds a r) ∙ e))

-- Clearing leaves no other device than before.
pub clear-some :
    (vs : List ℕ) (a : List (Option ℕ)) (v c : ℕ)
    → get_elem? (clear vs a) v ≡ some (some c)
    → get_elem? a v ≡ some (some c)
unfolding clear
clear-some [] a v c e = e
clear-some (u ∷ us) a v c e =
    let before = clear-some us (update u (λ _. none) a) v c e in
    elim (Bool-cases (u == v)) [
      | inr differ ↦
          let ne : u ≢ v = λ q. (let r = (==_iff u v).1 q in cc) in
          sym (get-update_other u v (λ _. none) a ne) ∙ before
      | inl same ↦
          let q : u ≡ v = (==_iff u v).0 same in
          let at_u : get_elem? (update u (λ _. none) a) u ≡ some (some c) =
            subst (λ w. get_elem? (update u (λ _. none) a) w ≡ some (some c)) (sym q) before in
          elim (Option-cases (get_elem? a u)) [
            | inl out ↦ absurd (let r = get-update-none u u (λ _. none) a out in cc)
            | inr (x, found) ↦ absurd (let r = get-update_at u (λ _. none) a x found in cc)
          ]
    ]
