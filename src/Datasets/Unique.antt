-- ===== src/Datasets/Unique.antt =====
-- What the program relies on of numpy's `unique`, with the search of Datasets.Numpy, and one that does it.
use zord.Base.{
  ℕ, zero, suc, ◌≤◌, ◌<◌, ◌≡◌, sym, ap, List, [], ◌∷◌, some, get_elem?, All, arith, inl, inr,
  Bool-cases, ltb, ◌==◌, if◌then◌else◌, ◌⊎◌,
}
use zord.Base.Rows.{take, drop}
use zord.Datasets.Numpy.{Numpy, Sorted, All-from}
use mathlib.Core.List.{Memᴰ}

-- `unique(xs)` is sorted and has the items of `xs`, and no other.
pub record Unique : Type 0 where
  pub unique : List ℕ → List ℕ
  pub unique_sorted : (xs : List ℕ) → Sorted (unique xs)
  pub unique_has : (xs : List ℕ) (x : ℕ) → Memᴰ x xs → Memᴰ x (unique xs)
  pub unique_only : (xs : List ℕ) (x : ℕ) → Memᴰ x (unique xs) → Memᴰ x xs

-- The search finds an item of a sorted list.
found :
    (x k : ℕ) (t : List ℕ)
    → Sorted t
    → All (λ y. y < x) (take k t)
    → All (λ y. x ≤ y) (drop k t)
    → Memᴰ x t
    → get_elem? t k ≡ some x
found x zero [] s lo hi m = elim m [ ]
found x (suc k) [] s lo hi m = elim m [ ]
found x zero (y ∷ t) s lo hi (Memᴰ.head e) = ap some (sym e)
found x zero (y ∷ t) s lo hi (Memᴰ.tail m) =
    let le = at_least t s.0 m in ap some (omega (arith, le, hi.0))
  where
    at_least : (l : List ℕ) → All (λ z. y ≤ z) l → Memᴰ x l → y ≤ x
    at_least [] h m = elim m [ ]
    at_least (z ∷ l) h (Memᴰ.head e) = omega (arith, h.0, e)
    at_least (z ∷ l) h (Memᴰ.tail m) = at_least l h.1 m
found x (suc k) (y ∷ t) s lo hi (Memᴰ.head e) = absurd (omega (arith, lo.0, e))
found x (suc k) (y ∷ t) s lo hi (Memᴰ.tail m) = found x k t s.1 lo.1 hi m

pub searchsorted-finds :
    (np : Numpy) (t : List ℕ) (x : ℕ)
    → Sorted t
    → Memᴰ x t
    → get_elem? t (np.searchsorted t x) ≡ some x
searchsorted-finds np t x s m =
    found x (np.searchsorted t x) t s (np.searchsorted_below t x s) (np.searchsorted_rest t x s) m

-- An insertion that leaves out what is there.
unfoldable place : ℕ → List ℕ → List ℕ
place x [] = x ∷ []
place x (y ∷ ys) =
    let rest = place x ys in if ltb x y then x ∷ y ∷ ys else if x == y then y ∷ ys else y ∷ rest

unfoldable pub distinct : List ℕ → List ℕ
unfolding place
distinct [] = []
distinct (x ∷ xs) = place x (distinct xs)

place-All : (a x : ℕ) (ys : List ℕ) → a ≤ x → All (λ y. a ≤ y) ys → All (λ y. a ≤ y) (place x ys)
unfolding place
place-All a x [] le h = (le, tt)
place-All a x (y ∷ ys) le h = elim (Bool-cases (ltb x y)) [
  | inl lt ↦ rw lt (le, h)
  | inr ge ↦ elim (Bool-cases (x == y)) [
    | inl same ↦ rw (ge, same) h
    | inr new ↦ rw (ge, new) (h.0, place-All a x ys le h.1)
  ]
]

place-Sorted : (x : ℕ) (ys : List ℕ) → Sorted ys → Sorted (place x ys)
unfolding place
place-Sorted x [] s = (tt, tt)
place-Sorted x (y ∷ ys) s = elim (Bool-cases (ltb x y)) [
  | inl lt ↦ rw lt ((ground arith, All-from x y ys (ground arith) s.0), s)
  | inr ge ↦ elim (Bool-cases (x == y)) [
    | inl same ↦ rw (ge, same) s
    | inr new ↦ rw (ge, new) (place-All y x ys (ground arith) s.0, place-Sorted x ys s.1)
  ]
]

place-Memᴰ : (x z : ℕ) (ys : List ℕ) → (z ≡ x) ⊎ Memᴰ z ys → Memᴰ z (place x ys)
unfolding place
place-Memᴰ x z [] (inl e) = Memᴰ.head e
place-Memᴰ x z [] (inr m) = elim m [ ]
place-Memᴰ x z (y ∷ ys) (inl e) = elim (Bool-cases (ltb x y)) [
  | inl lt ↦ rw lt (Memᴰ.head e)
  | inr ge ↦ elim (Bool-cases (x == y)) [
    | inl same ↦ rw (ge, same) (Memᴰ.head (ground arith))
    | inr new ↦ rw (ge, new) (Memᴰ.tail (place-Memᴰ x z ys (inl e)))
  ]
]
place-Memᴰ x z (y ∷ ys) (inr m) = elim (Bool-cases (ltb x y)) [
  | inl lt ↦ rw lt (Memᴰ.tail m)
  | inr ge ↦ elim (Bool-cases (x == y)) [
    | inl same ↦ rw (ge, same) m
    | inr new ↦ rw (ge, new) (behind m (λ m'. place-Memᴰ x z ys (inr m')))
  ]
]
  where
    behind : Memᴰ z (y ∷ ys) → (Memᴰ z ys → Memᴰ z (place x ys)) → Memᴰ z (y ∷ place x ys)
    behind (Memᴰ.head e) f = Memᴰ.head e
    behind (Memᴰ.tail m') f = Memᴰ.tail (f m')

pub distinct-Sorted : (xs : List ℕ) → Sorted (distinct xs)
unfolding distinct
distinct-Sorted [] = tt
distinct-Sorted (x ∷ xs) = place-Sorted x (distinct xs) (distinct-Sorted xs)

pub distinct-Memᴰ : (xs : List ℕ) (x : ℕ) → Memᴰ x xs → Memᴰ x (distinct xs)
unfolding distinct
distinct-Memᴰ [] x m = elim m [ ]
distinct-Memᴰ (y ∷ xs) x (Memᴰ.head e) = place-Memᴰ y x (distinct xs) (inl e)
distinct-Memᴰ (y ∷ xs) x (Memᴰ.tail m) = place-Memᴰ y x (distinct xs) (inr (distinct-Memᴰ xs x m))

place-only : (x z : ℕ) (ys : List ℕ) → Memᴰ z (place x ys) → (z ≡ x) ⊎ Memᴰ z ys
unfolding place
place-only x z [] (Memᴰ.head e) = inl e
place-only x z [] (Memᴰ.tail m) = inr m
place-only x z (y ∷ ys) m = elim (Bool-cases (ltb x y)) [
  | inl lt ↦ either (rw lt at m)
  | inr ge ↦ elim (Bool-cases (x == y)) [
    | inl same ↦ inr (rw (ge, same) at m)
    | inr new ↦ after (rw (ge, new) at m) (λ m'. place-only x z ys m')
  ]
]
  where
    either : Memᴰ z (x ∷ y ∷ ys) → (z ≡ x) ⊎ Memᴰ z (y ∷ ys)
    either (Memᴰ.head e) = inl e
    either (Memᴰ.tail m') = inr m'

    after :
        Memᴰ z (y ∷ place x ys)
        → (Memᴰ z (place x ys) → (z ≡ x) ⊎ Memᴰ z ys)
        → (z ≡ x) ⊎ Memᴰ z (y ∷ ys)
    after (Memᴰ.head e) f = inr (Memᴰ.head e)
    after (Memᴰ.tail m') f = elim (f m') [ inl e ↦ inl e | inr k ↦ inr (Memᴰ.tail k) ]

pub distinct-only : (xs : List ℕ) (x : ℕ) → Memᴰ x (distinct xs) → Memᴰ x xs
unfolding distinct
distinct-only [] x m = elim m [ ]
distinct-only (y ∷ xs) x m = elim (place-only y x (distinct xs) m) [
  | inl e ↦ Memᴰ.head e
  | inr k ↦ Memᴰ.tail (distinct-only xs x k)
]

abbrev pub distinct_items : Unique
distinct_items = record {
  unique = distinct;
  unique_sorted = distinct-Sorted;
  unique_has = distinct-Memᴰ;
  unique_only = distinct-only;
}
