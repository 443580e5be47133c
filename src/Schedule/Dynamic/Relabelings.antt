-- ===== src/Schedule/Dynamic/Relabelings.antt =====
-- src/zord/schedule/dynamic.py: the relabellings that are tried, all the orders of the labels.
use zord.Base.{
  ℕ, zero, suc, ◌≡◌, refl, List, [], ◌∷◌, ◌++◌, length, All, All-append, All-append_left,
  All-append_right, ap, sym, subst, arith,
}
use zord.Datasets.Numpy.Gather.{length-Permᴰ}
use zord.Schedule.Dynamic.Migration.{behind, picks, before, each_pick, permutations_of}
use zord.Base.Members.{All-Memᴰ, All-of_Memᴰ}
use zord.Datasets.Numpy.Gather.{All-Permᴰ}
use mathlib.Core.Logic.{∥∥₁_elim}
use mathlib.Core.List.{Memᴰ, Permᴰ}
use mathlib.Core.List.Perm.{cons_inv}
use mathlib.Core.List.Permᴰ as Perms

abbrev Picked : List ℕ → ℕ × List ℕ → Type 0
Picked xs q = Permᴰ xs (q.0 ∷ q.1)

behind-All :
    (x : ℕ) (xs : List ℕ) (ps : List (ℕ × List ℕ))
    → All (Picked xs) ps
    → All (Picked (x ∷ xs)) (behind x ps)
unfolding behind
behind-All x xs [] h = tt
behind-All x xs ((y, rest) ∷ ps) h =
    (Permᴰ.trans (Permᴰ.cons refl h.0) (Permᴰ.swap refl refl), behind-All x xs ps h.1)

-- Each pick is an item with the others.
picks-All : (xs : List ℕ) → All (Picked xs) (picks xs)
unfolding picks
picks-All [] = tt
picks-All (x ∷ xs) = (Perms.refl (x ∷ xs), behind-All x xs (picks xs) (picks-All xs))

before-All :
    (x : ℕ) (xs rest : List ℕ) (ps : List (List ℕ))
    → Permᴰ xs (x ∷ rest)
    → All (Permᴰ rest) ps
    → All (Permᴰ xs) (before x ps)
unfolding before
before-All x xs rest [] q h = tt
before-All x xs rest (p ∷ ps) q h =
    (Permᴰ.trans q (Permᴰ.cons refl h.0), before-All x xs rest ps q h.1)

each_pick-All :
    (f : List ℕ → List (List ℕ)) (xs : List ℕ) (ps : List (ℕ × List ℕ))
    → All (Picked xs) ps
    → ((x : ℕ) (rest : List ℕ) → Permᴰ xs (x ∷ rest) → All (Permᴰ rest) (f rest))
    → All (Permᴰ xs) (each_pick f ps)
unfolding each_pick
each_pick-All f xs [] h k = tt
each_pick-All f xs ((x, rest) ∷ ps) h k =
    All-append (Permᴰ xs) (before x (f rest)) (each_pick f ps)
      (before-All x xs rest (f rest) h.0 (k x rest h.0)) (each_pick-All f xs ps h.1 k)

pub permutations_of-Permᴰ :
    (n : ℕ) (xs : List ℕ) → length xs ≡ n → All (Permᴰ xs) (permutations_of n xs)
unfolding permutations_of
permutations_of-Permᴰ zero [] e = (Permᴰ.nil, tt)
permutations_of-Permᴰ zero (x ∷ xs) e = absurd (omega (arith, e))
permutations_of-Permᴰ (suc n) xs e =
    each_pick-All (permutations_of n) xs (picks xs) (picks-All xs)
      (λ x rest p. permutations_of-Permᴰ n rest (omega (arith, e, length-Permᴰ p)))

-- The first permutation is the list itself.
pub permutations_of-first :
    (n : ℕ) (xs : List ℕ) → length xs ≡ n → (ps : List (List ℕ)) × (permutations_of n xs ≡ xs ∷ ps)
unfolding permutations_of picks each_pick before
permutations_of-first zero [] e = ([], refl)
permutations_of-first zero (x ∷ xs) e = absurd (omega (arith, e))
permutations_of-first (suc n) [] e = absurd (omega (arith, e))
permutations_of-first (suc n) (x ∷ xs) e =
    let (ps, first) = permutations_of-first n xs (omega (arith, e)) in
    (before x ps ++ each_pick (permutations_of n) (behind x (picks xs)), rw first refl)

behind-Memᴰ :
    (x y : ℕ) (rest : List ℕ) (ps : List (ℕ × List ℕ))
    → Memᴰ (y, rest) ps
    → Memᴰ (y, x ∷ rest) (behind x ps)
unfolding behind
behind-Memᴰ x y rest [] m = elim m [ ]
behind-Memᴰ x y rest (p ∷ ps) (Memᴰ.head e) = Memᴰ.head (ap (λ q. (q.0, x ∷ q.1)) e)
behind-Memᴰ x y rest (p ∷ ps) (Memᴰ.tail m) = Memᴰ.tail (behind-Memᴰ x y rest ps m)

-- Every item is picked.
picks-Memᴰ : (y : ℕ) (xs : List ℕ) → Memᴰ y xs → (rest : List ℕ) × Memᴰ (y, rest) (picks xs)
unfolding picks
picks-Memᴰ y [] m = elim m [ ]
picks-Memᴰ y (x ∷ xs) (Memᴰ.head e) = (xs, Memᴰ.head (ap (λ z. (z, xs)) e))
picks-Memᴰ y (x ∷ xs) (Memᴰ.tail m) =
    let (rest, p) = picks-Memᴰ y xs m in (x ∷ rest, Memᴰ.tail (behind-Memᴰ x y rest (picks xs) p))

module _ (R : List ℕ → Type 0) where
  before-All_of : (x : ℕ) (ps : List (List ℕ)) → All R (before x ps) → All (λ s. R (x ∷ s)) ps
  unfolding before
  before-All_of x [] h = tt
  before-All_of x (p ∷ ps) h = (h.0, before-All_of x ps h.1)

  each_pick-All_of :
      (f : List ℕ → List (List ℕ)) (y : ℕ) (rest : List ℕ) (ps : List (ℕ × List ℕ))
      → All R (each_pick f ps)
      → Memᴰ (y, rest) ps
      → All (λ s. R (y ∷ s)) (f rest)
  unfolding each_pick
  each_pick-All_of f y rest [] h m = elim m [ ]
  each_pick-All_of f y rest ((x, others) ∷ ps) h (Memᴰ.head e) =
      subst (λ q. All (λ s. R (q.0 ∷ s)) (f q.1)) (sym e)
        (before-All_of x (f others) (All-append_left R (before x (f others)) (each_pick f ps) h))
  each_pick-All_of f y rest ((x, others) ∷ ps) h (Memᴰ.tail m) =
      each_pick-All_of f y rest ps (All-append_right R (before x (f others)) (each_pick f ps) h) m

-- What holds of all the permutations that are tried holds of every permutation: they are all tried.
pub permutations_of-complete :
    (n : ℕ) (xs q : List ℕ) (R : List ℕ → Type 0)
    → ((s : List ℕ) → IsProp (R s))
    → length xs ≡ n
    → Permᴰ xs q
    → All R (permutations_of n xs)
    → R q
unfolding permutations_of
permutations_of-complete zero [] [] R prop e p h = h.0
permutations_of-complete zero [] (y ∷ q) R prop e p h = absurd (omega (arith, length-Permᴰ p))
permutations_of-complete zero (x ∷ xs) q R prop e p h = absurd (omega (arith, e))
permutations_of-complete (suc n) xs [] R prop e p h = absurd (omega (arith, e, length-Permᴰ p))
permutations_of-complete (suc n) xs (y ∷ q) R prop e p h =
    let found = All-Permᴰ (λ z. Memᴰ z xs) p (All-of_Memᴰ (λ z. Memᴰ z xs) xs (λ z m. m)) in
    let (rest, picked) = picks-Memᴰ y xs found.0 in
    let here = All-Memᴰ (Picked xs) (picks xs) (y, rest) (picks-All xs) picked in
    ∥∥₁_elim (cons_inv {a = y} {l₁ = rest} {l₂ = q} ∣ Permᴰ.trans (Perms.symm here) p ∣₁)
      (prop (y ∷ q))
      (λ d.
        permutations_of-complete n rest q (λ s. R (y ∷ s)) (λ s. prop (y ∷ s))
          (omega (arith, e, length-Permᴰ here)) d
          (each_pick-All_of R (permutations_of n) y rest (picks xs) h picked))
