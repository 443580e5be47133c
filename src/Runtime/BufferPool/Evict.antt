-- ===== src/Runtime/BufferPool/Evict.antt =====
-- src/zord/runtime/bufferpool.py: what the eviction rule takes out of a dict with distinct keys.
use zord.Base.{
  ℕ, ◌+◌, ◌≤◌, ◌<◌, ◌≡◌, ◌⊎◌, refl, inl, inr, true, false, some, List, [], ◌∷◌, arith, ltb, ◌==◌,
  if◌then◌else◌, length, Bool-cases, ==_iff, subst,
}
use zord.Base.Dict.{get, has, put, del, max_from, max_key, length-del, has-put}
use zord.Runtime.BufferPool.{evict_max}

-- No key stands twice.
abbrev pub Distinct : List (ℕ × ℕ) → Type 0
Distinct [] = Unit
Distinct ((k, v) ∷ d) = (has k d ≡ false) × Distinct d

-- Every stored value is at most `m`.
abbrev pub AtMost : ℕ → List (ℕ × ℕ) → Type 0
AtMost m [] = Unit
AtMost m ((k, v) ∷ d) = (v ≤ m) × AtMost m d

pub AtMost-mono : (m n : ℕ) (d : List (ℕ × ℕ)) → m ≤ n → AtMost m d → AtMost n d
AtMost-mono m n [] h a = tt
AtMost-mono m n ((k, v) ∷ d) h a = (omega arith, AtMost-mono m n d h a.1)

pub AtMost-get : (m k : ℕ) (d : List (ℕ × ℕ)) (v : ℕ) → AtMost m d → get k d ≡ some v → v ≤ m
unfolding get
AtMost-get m k [] v a e = cc
AtMost-get m k ((j, w) ∷ d) v a e = elim (Bool-cases (j == k)) [
  | inl h ↦ ground arith
  | inr h ↦ AtMost-get m k d v a.1 (ground arith)
]

-- The largest value from a candidate on.
max_value : ℕ → List (ℕ × ℕ) → ℕ
max_value v [] = v
max_value v ((j, w) ∷ d) = max_value (if ltb v w then w else v) d

max_value-ge : (v : ℕ) (d : List (ℕ × ℕ)) → (v ≤ max_value v d) × AtMost (max_value v d) d
unfolding max_value
max_value-ge v [] = (omega arith, tt)
max_value-ge v ((j, w) ∷ d) =
    let (ge, all) = max_value-ge (if ltb v w then w else v) d in (ground arith, (ground arith, all))

-- `max_from` stays at the candidate, or it is a later key with the largest value.
max_from-cases :
    (k v : ℕ) (d : List (ℕ × ℕ))
    → Distinct d
    → ((max_from k v d ≡ k) × (max_value v d ≡ v))
      ⊎ ((has (max_from k v d) d ≡ true) × (get (max_from k v d) d ≡ some (max_value v d)))
unfolding max_from max_value has get
max_from-cases k v [] h = inl (refl, refl)
max_from-cases k v ((j, w) ∷ d) h = elim (Bool-cases (ltb v w)) [
  | inl up ↦ ground (arith, max_from-cases j w d h.1)
  | inr stay ↦ ground (arith, max_from-cases k v d h.1)
]

-- On a dict that is not empty, the victim is a key whose value is the largest of all.
pub max_key-is_max :
    (d : List (ℕ × ℕ))
    → Distinct d
    → 0 < length d
    → (u : ℕ) × (m : ℕ) × (max_key d ≡ some u) × (get u d ≡ some m) × (has u d ≡ true) × AtMost m d
unfolding max_key has get
max_key-is_max [] h p = absurd (omega arith)
max_key-is_max ((k, v) ∷ d) h p =
    let (ge, all) = max_value-ge v d in
    elim (max_from-cases k v d h.1) [
      | inl (e, m) ↦ (
        k,
        v,
        ground arith,
        ground arith,
        ground arith,
        (omega arith, subst (λ x. AtMost x d) m all),
      )
      | inr (hk, g) ↦ (max_from k v d, max_value v d, refl, ground arith, ground arith, (ge, all))
    ]

pub length-evict_max :
    (d : List (ℕ × ℕ)) → Distinct d → 0 < length d → length (evict_max d) + 1 ≡ length d
unfolding evict_max
length-evict_max d h p =
    let (u, m, key, g, present, all) = max_key-is_max d h p in ground (arith, length-del u d)

pub has-del : (k j : ℕ) (d : List (ℕ × ℕ)) → has j d ≡ false → has j (del k d) ≡ false
unfolding has del
has-del k j [] h = refl
has-del k j ((i, w) ∷ d) h = ground (arith, has-del k j d)

pub del-Distinct : (k : ℕ) (d : List (ℕ × ℕ)) → Distinct d → Distinct (del k d)
unfolding del
del-Distinct k [] h = tt
del-Distinct k ((i, w) ∷ d) h = elim (Bool-cases (i == k)) [
  | inl e ↦ rw e h.1
  | inr n ↦ rw n (has-del k i d h.0, del-Distinct k d h.1)
]

pub put-Distinct : (k v : ℕ) (d : List (ℕ × ℕ)) → Distinct d → Distinct (put k v d)
unfolding put has
put-Distinct k v [] h = (refl, tt)
put-Distinct k v ((i, w) ∷ d) h = elim (Bool-cases (i == k)) [
  | inl e ↦ rw e h
  | inr n ↦ rw n (ground (arith, has-put k i v d, ==_iff i k, ==_iff k i), put-Distinct k v d h.1)
]

pub evict_max-Distinct : (d : List (ℕ × ℕ)) → Distinct d → Distinct (evict_max d)
unfolding evict_max max_key
evict_max-Distinct [] h = h
evict_max-Distinct ((k, v) ∷ d) h = del-Distinct _ ((k, v) ∷ d) h

pub has-evict_max : (j : ℕ) (d : List (ℕ × ℕ)) → has j d ≡ false → has j (evict_max d) ≡ false
unfolding evict_max max_key
has-evict_max j [] h = h
has-evict_max j ((k, v) ∷ d) h = has-del _ j ((k, v) ∷ d) h
