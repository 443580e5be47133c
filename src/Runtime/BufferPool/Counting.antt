-- ===== src/Runtime/BufferPool/Counting.antt =====
-- src/zord/runtime/bufferpool.py: how many resident units have their next use before a position,
-- for a dict of priorities and for a plain list of units.
use zord.Base.{
  ℕ, ◌+◌, ◌≤◌, ◌<◌, ◌≡◌, ◌≢◌, refl, ap, inl, inr, true, false, some, List, [], ◌∷◌, arith, ltb,
  ◌==◌, if◌then◌else◌, length, Bool-cases,
}
use zord.Base.Dict.{get, has, put, del, has_of_get}
use zord.Runtime.BufferPool.Plan.{mem}
use zord.Runtime.BufferPool.Evict.{Distinct, AtMost}

abbrev pub before : ℕ → ℕ → ℕ
before t v = if ltb v t then 1 else 0

-- The entries whose value is below `t`.
unfoldable pub near : ℕ → List (ℕ × ℕ) → ℕ
near t [] = 0
near t ((k, v) ∷ d) = before t v + near t d

pub near-put_new :
    (t x p : ℕ) (d : List (ℕ × ℕ)) → has x d ≡ false → near t (put x p d) ≡ near t d + before t p
unfolding near put has
near-put_new t x p [] h = omega arith
near-put_new t x p ((k, v) ∷ d) h = ground (arith, near-put_new t x p d)

pub near-put_old :
    (t x p v : ℕ) (d : List (ℕ × ℕ))
    → get x d ≡ some v
    → near t (put x p d) + before t v ≡ near t d + before t p
unfolding near put get
near-put_old t x p v [] h = cc
near-put_old t x p v ((k, w) ∷ d) h = elim (Bool-cases (k == x)) [
  | inl e ↦ rw e (ground arith)
  | inr n ↦ rw n (omega (arith, near-put_old t x p v d (ground arith)))
]

pub near-del :
    (t u v : ℕ) (d : List (ℕ × ℕ)) → get u d ≡ some v → near t (del u d) + before t v ≡ near t d
unfolding near del get
near-del t u v [] h = cc
near-del t u v ((k, w) ∷ d) h = elim (Bool-cases (k == u)) [
  | inl e ↦ rw e (ground arith)
  | inr n ↦ rw n (omega (arith, near-del t u v d (ground arith)))
]

pub near-le-length : (t : ℕ) (d : List (ℕ × ℕ)) → near t d ≤ length d
unfolding near
near-le-length t [] = omega arith
near-le-length t ((k, v) ∷ d) = ground (arith, near-le-length t d)

pub near_all : (t m : ℕ) (d : List (ℕ × ℕ)) → AtMost m d → m < t → near t d ≡ length d
unfolding near
near_all t m [] h lt = refl
near_all t m ((k, v) ∷ d) h lt = ground (arith, near_all t m d h.1 lt)

pub near_none :
    (t : ℕ) (d : List (ℕ × ℕ)) → Distinct d → ((y v : ℕ) → get y d ≡ some v → t ≤ v) → near t d ≡ 0
unfolding near get
near_none t [] dis h = refl
near_none t ((k, v) ∷ d) dis h =
    let rest = near_none t d dis.1 (λ y w e. h y w (ground (arith, has_of_get y d w e))) in
    let first : t ≤ v = h k v (ground arith) in ground (arith, rest)

pub get-del :
    (k y : ℕ) (d : List (ℕ × ℕ))
    → Distinct d
    → (v : ℕ) → get y (del k d) ≡ some v
    → (k ≢ y) × (get y d ≡ some v)
unfolding get del
get-del k y [] dis v e = cc
get-del k y ((j, w) ∷ d) dis v e = elim (Bool-cases (j == k)) [
  | inl a ↦ ground (arith, has_of_get y d v)
  | inr b ↦ ground (arith, get-del k y d dis.1 v)
]

-- A list of units in which none stands twice, and its units whose next use is before `t`.
abbrev pub Apart : List ℕ → Type 0
Apart [] = Unit
Apart (x ∷ xs) = (mem x xs ≡ false) × Apart xs

unfoldable pub near_of : (ℕ → ℕ) → ℕ → List ℕ → ℕ
near_of ν t [] = 0
near_of ν t (x ∷ xs) = before t (ν x) + near_of ν t xs

pub near_of-le-length : (ν : ℕ → ℕ) (t : ℕ) (c : List ℕ) → near_of ν t c ≤ length c
unfolding near_of
near_of-le-length ν t [] = omega arith
near_of-le-length ν t (x ∷ xs) = ground (arith, near_of-le-length ν t xs)

module _ (ν μ : ℕ → ℕ) (x : ℕ) (same : (y : ℕ) → x ≢ y → ν y ≡ μ y) (t : ℕ) where
  pub near_of-absent : (c : List ℕ) → mem x c ≡ false → near_of μ t c ≡ near_of ν t c
  unfolding near_of mem
  near_of-absent [] h = refl
  near_of-absent (y ∷ c) h =
      let e : ν y ≡ μ y = same y (λ q. ground arith) in ground (arith, near_of-absent c)

  pub near_of-present :
      (c : List ℕ)
      → Apart c
      → mem x c ≡ true
      → near_of μ t c + before t (ν x) ≡ near_of ν t c + before t (μ x)
  unfolding near_of mem
  near_of-present [] a h = cc
  near_of-present (y ∷ c) a h = elim (Bool-cases (y == x)) [
    | inl e ↦ let q : y ≡ x = ground arith in ground (arith, near_of-absent c)
    | inr n ↦
        let e : ν y ≡ μ y = same y (λ q. ground arith) in
        omega (arith, near_of-present c a.1 (ground arith), ap (before t) e)
  ]
