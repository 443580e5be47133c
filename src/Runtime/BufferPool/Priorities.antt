-- ===== src/Runtime/BufferPool/Priorities.antt =====
-- src/zord/runtime/bufferpool.py: the stored priorities are the next uses, and stay so.
use zord.Base.{
  ℕ, ◌+◌, ◌≤◌, ◌<◌, ◌≡◌, ◌≢◌, ◌⊎◌, ◌∙◌, inl, inr, false, some, List, [], ◌∷◌, arith, leb, ltb, ◌==◌,
  length, Bool-cases, Option-cases,
}
use zord.Base.Dict.{get, has, put, del, get-put, has_of_get, max_key}
use zord.Runtime.BufferPool.{never, evict_max}
use zord.Runtime.BufferPool.Evict.{Distinct, max_key-is_max, has-evict_max}
use zord.Runtime.BufferPool.Runs.{after}
use zord.Runtime.BufferPool.Lookahead.{next_pos, next_pos-some, next_use}
use zord.Runtime.BufferPool.Counting.{
  before, near, near-put_new, near-put_old, near-del, near_all, get-del,
}

-- The next uses move on by one position.
module _ (x i : ℕ) (us : List ℕ) where
  pub next_use_self : next_use i (x ∷ us) x ≡ i
  unfolding next_use next_pos
  next_use_self = ground arith

  pub next_use_other : (y : ℕ) → x ≢ y → next_use i (x ∷ us) y ≡ next_use (i + 1) us y
  unfolding next_use next_pos
  next_use_other y h = ground arith

pub next_use-ge : (i : ℕ) (us : List ℕ) (y : ℕ) → i ≤ never → i ≤ next_use i us y
unfolding next_use
next_use-ge i us y h = elim (Option-cases (next_pos y i us)) [
  | inl e ↦ rw e h
  | inr (j, e) ↦
      let (k, at, _, _) = next_pos-some y i us j e in let le : i ≤ j = omega (arith, at) in rw e le
]

-- Every stored priority is the next use of its unit.
abbrev pub Valid : ℕ → List ℕ → List (ℕ × ℕ) → Type 0
Valid i us d = (y v : ℕ) → get y d ≡ some v → v ≡ next_use i us y

get-evict_max :
    (y v : ℕ) (d : List (ℕ × ℕ)) → Distinct d → get y (evict_max d) ≡ some v → get y d ≡ some v
unfolding evict_max max_key
get-evict_max y v [] dis h = h
get-evict_max y v ((k, w) ∷ d) dis h = (get-del _ y ((k, w) ∷ d) dis v h).1

module _ (cap x i : ℕ) (us : List ℕ) (d : List (ℕ × ℕ)) (dis : Distinct d) where
  Valid-put :
      (d' : List (ℕ × ℕ))
      → ((y v : ℕ) → get y d' ≡ some v → get y d ≡ some v)
      → Valid i (x ∷ us) d
      → Valid (i + 1) us (put x (next_use (i + 1) us x) d')
  Valid-put d' sub val y v h = elim (Bool-cases (x == y)) [
    | inl e ↦
        let q : x ≡ y = ground arith in
        let g : some (next_use (i + 1) us x) ≡ some v =
          ground (arith, get-put x y (next_use (i + 1) us x) d') in
        ground arith
    | inr n ↦
        let g : get y d' ≡ some v = ground (arith, get-put x y (next_use (i + 1) us x) d') in
        val y v (sub y v g) ∙ next_use_other x i us y (λ q. ground arith)
  ]

  -- What an access does to the number of near units: on a hit,
  pub near-after_hit :
      (t p v : ℕ) → get x d ≡ some v → near t (after cap x p d) + before t v ≡ near t d + before t p
  unfolding after
  near-after_hit t p v g = rw (has_of_get x d v g) (near-put_old t x p v d g)

  -- and on a miss, where the unit that goes has the farthest next use.
  pub near-after_miss :
      (t p : ℕ)
      → has x d ≡ false
      → 0 < cap
      → length d ≤ cap
      → (near t (after cap x p d) ≡ near t d + before t p)
        ⊎ (near t (after cap x p d) + 1 ≡ cap + before t p)
  unfolding after evict_max
  near-after_miss t p n pos fits = elim (Bool-cases (leb cap (length d))) [
    | inr r ↦ inl (rw (n, r) (near-put_new t x p d n))
    | inl f ↦
        let (u, m, key, g, present, all) = max_key-is_max d dis (ground arith) in
        let new = near-put_new t x p (evict_max d) (has-evict_max x d n) in
        let ev : evict_max d ≡ del u d = rw (key, evict_max) in
        let gone = near-del t u m d g in
        elim (Bool-cases (ltb m t)) [
          | inl lt ↦
              let whole = near_all t m d all (ground arith) in
              inr (rw (n, f) (ground (arith, new, ev, gone, whole)))
          | inr ge ↦ inl (rw (n, f) (ground (arith, new, ev, gone)))
        ]
  ]

  pub after-Valid : Valid i (x ∷ us) d → Valid (i + 1) us (after cap x (next_use (i + 1) us x) d)
  unfolding after
  after-Valid val = elim (Bool-cases (has x d)) [
    | inl h ↦ rw h (Valid-put d (λ y v e. e) val)
    | inr n ↦ elim (Bool-cases (leb cap (length d))) [
      | inl f ↦ rw (n, f) (Valid-put (evict_max d) (λ y v e. get-evict_max y v d dis e) val)
      | inr r ↦ rw (n, r) (Valid-put d (λ y v e. e) val)
    ]
  ]
