-- ===== src/Schedule/Dynamic/Sizes.antt =====
-- src/zord/schedule/dynamic.py: the lengths of the assignments, the loads and the votes.
use zord.Base.{
  ℕ, zero, suc, ◌+◌, ◌*◌, ◌%◌, ◌≤◌, ◌<◌, ◌≡◌, refl, ap, ◌∙◌, Option, none, some, List, [], ◌∷◌,
  ◌++◌, length, All, arith, inl, inr, Bool-cases, ◌==◌, sum, map,
}
use zord.Partition.Hetero.{update}
use zord.Partition.Hetero.Loads.{length-update, argmax-lt_length}
use zord.Partition.Cost.{bins, counts_from}
use zord.Schedule.Dynamic.{
  start_from, clear, settle, put_all, loads, devices, votes, vote, flat, propagate, same_list,
  fixed_votes, tents, tent_rows, near, near_both,
}

pub length-counts_from : (i n : ℕ) (es : List ℕ) → length (counts_from i n es) ≡ n
unfolding counts_from
length-counts_from i zero es = refl
length-counts_from i (suc n) es = ap suc (length-counts_from (i + 1) n es)

pub bins-least : (n : ℕ) (es : List ℕ) → n ≤ bins n es
unfolding bins
bins-least n [] = omega arith
bins-least n (e ∷ es) = omega (arith, bins-least n es)

bins-below : (n : ℕ) (es : List ℕ) → All (λ e. e < n) es → bins n es ≡ n
unfolding bins
bins-below n [] h = refl
bins-below n (e ∷ es) h = omega (arith, bins-below n es h.1, h.0)

pub length-loads : (d : ℕ) (a : List (Option ℕ)) → d ≤ length (loads d a)
unfolding loads
length-loads d a =
    omega (arith, length-counts_from 0 (bins d (devices a)) (devices a), bins-least d (devices a))

pub length-loads_below :
    (d : ℕ) (a : List (Option ℕ)) → All (λ c. c < d) (devices a) → length (loads d a) ≡ d
unfolding loads
length-loads_below d a h =
    length-counts_from 0 (bins d (devices a)) (devices a) ∙ bins-below d (devices a) h

pub length-start_from : (n : ℕ) (prior : List (Option ℕ)) → length (start_from n prior) ≡ n
unfolding start_from
length-start_from zero prior = refl
length-start_from (suc n) [] = ap suc (length-start_from n [])
length-start_from (suc n) (c ∷ prior) = ap suc (length-start_from n prior)

pub length-clear : (vs : List ℕ) (a : List (Option ℕ)) → length (clear vs a) ≡ length a
unfolding clear
length-clear [] a = refl
length-clear (v ∷ vs) a = length-clear vs (update v (λ _. none) a) ∙ length-update v (λ _. none) a

pub length-settle : (vs cs : List ℕ) (a : List (Option ℕ)) → length (settle vs cs a) ≡ length a
unfolding settle
length-settle [] cs a = refl
length-settle (v ∷ vs) [] a = refl
length-settle (v ∷ vs) (c ∷ cs) a =
    length-settle vs cs (update v (λ _. some c) a) ∙ length-update v (λ _. some c) a

pub length-put_all :
    (vs : List ℕ) (c : ℕ) (a : List (Option ℕ)) → length (put_all vs c a) ≡ length a
unfolding put_all
length-put_all [] c a = refl
length-put_all (v ∷ vs) c a =
    length-put_all vs c (update v (λ _. some c) a) ∙ length-update v (λ _. some c) a

-- A list of as many devices as there are vertices to place, each of them below `d`.
abbrev pub Tentative : ℕ → ℕ → List ℕ → Type 0
Tentative d p tent = (length tent ≡ p) × All (λ c. c < d) tent

length-votes : (fixed tentative : List ℕ) (i n : ℕ) → length (votes fixed tentative i n) ≡ n
unfolding votes
length-votes fixed tentative i zero = refl
length-votes fixed tentative i (suc n) = ap suc (length-votes fixed tentative (i + 1) n)

vote-Tentative :
    (fixed tentative : List ℕ) (d r p : ℕ) (tent : List ℕ)
    → 0 < d
    → Tentative d p tent
    → Tentative d p (vote fixed tentative d r tent)
unfolding vote
vote-Tentative fixed tentative d r p [] pos h = h
vote-Tentative fixed tentative d r zero (t ∷ tent) pos h = absurd (omega (arith, h.0))
vote-Tentative fixed tentative d r (suc p) (t ∷ tent) pos h =
    let row = votes fixed tentative (r * d) d in
    let len = length-votes fixed tentative (r * d) d in
    let chosen = argmax-lt_length row (omega (arith, len, pos)) in
    let ih = vote-Tentative fixed tentative d (r + 1) p tent pos (omega (arith, h.0), h.1.1) in
    (
      omega (arith, ih.0),
      (
        elim (Bool-cases (sum row == 0)) [
          | inl still ↦ rw still h.1.0
          | inr some_vote ↦ rw some_vote (omega (arith, chosen, len))
        ],
        ih.1,
      ),
    )

propagate-Tentative :
    (d : ℕ) (fixed : List ℕ) (rows : List (ℕ × ℕ)) (rounds p : ℕ) (tent : List ℕ)
    → 0 < d
    → Tentative d p tent
    → Tentative d p (propagate d fixed rows rounds tent)
unfolding propagate
propagate-Tentative d fixed rows zero p tent pos h = h
propagate-Tentative d fixed rows (suc rounds) p tent pos h =
    let next = vote fixed (flat d tent rows) d 0 tent in
    elim (Bool-cases (same_list next tent)) [
      | inl same ↦ rw same h
      | inr new ↦ rw new (
          propagate-Tentative d fixed rows rounds p next pos
            (vote-Tentative fixed (flat d tent rows) d 0 p tent pos h))
    ]

remainders-Tentative : (d : ℕ) (vs : List ℕ) → 0 < d → Tentative d (length vs) (map (λ v. v % d) vs)
remainders-Tentative d [] pos = (refl, tt)
remainders-Tentative d (v ∷ vs) pos =
    let (len, below) = remainders-Tentative d vs pos in (ap suc len, (grind arith, below))

-- The label propagation gives each vertex one of the devices.
pub tents-Tentative :
    (d : ℕ) (src dst place : List ℕ) (a : List (Option ℕ))
    → 0 < d
    → Tentative d (length place) (tents d src dst place a)
unfolding tents
tents-Tentative d src dst place a pos =
    propagate-Tentative d (fixed_votes d src dst place a)
      (tent_rows place (near place src dst ++ near_both place src dst)) 6 (length place)
      (map (λ v. v % d) place) pos (remainders-Tentative d place pos)
