-- ===== src/Runtime/BufferPool/Cold.antt =====
-- src/zord/runtime/bufferpool.py: the first touch of a unit, in the policies and in the naive baseline.
use zord.Base.{
  ℕ, suc, ◌+◌, ◌≤◌, ◌≡◌, refl, inl, inr, true, false, List, [], ◌∷◌, arith, ltb, leb, ◌==◌,
  if◌then◌else◌, length, sum, Bool-cases, ap, ◌∙◌,
}
use zord.Base.Dict.{has, put, has-put, length-put}
use zord.Runtime.BufferPool.{next_use_array}
use zord.Runtime.BufferPool.Plan.{
  Policy, belady, mrd, BufferPool, mem, naive_bytes, staged_bytes_naive,
}
use zord.Runtime.BufferPool.Runs.{zip, reuse_pairs, after, flag, flags}
use zord.Runtime.BufferPool.Accounting.{pairs_of, miss_flags, length-next_use_from}

-- How many different units are accessed, beside those seen.
unfoldable pub new_units : List ℕ → List ℕ → ℕ
new_units seen [] = 0
new_units seen (u ∷ us) = if mem u seen then new_units seen us else suc (new_units (u ∷ seen) us)

naive_bytes-fits :
    (rcap : ℕ) (pinned us bs : List ℕ) (total : ℕ)
    → length pinned + new_units pinned us ≤ rcap
    → naive_bytes rcap pinned us bs total ≡ total
unfolding naive_bytes new_units
naive_bytes-fits rcap pinned [] bs total h = refl
naive_bytes-fits rcap pinned (u ∷ us) [] total h = refl
naive_bytes-fits rcap pinned (u ∷ us) (b ∷ bs) total h = elim (Bool-cases (mem u pinned)) [
  | inl e ↦ rw e (naive_bytes-fits rcap pinned us bs total (ground arith))
  | inr n ↦
      let lt : ltb (length pinned) rcap ≡ true = ground arith in
      rw (n, lt) (naive_bytes-fits rcap (u ∷ pinned) us bs total (ground arith))
]

units : List (ℕ × ℕ) → List ℕ
units [] = []
units ((u, p) ∷ xs) = u ∷ units xs

module _ (slots u p : ℕ) (d : List (ℕ × ℕ)) where
  after_hit : has u d ≡ true → after slots u p d ≡ put u p d
  unfolding after
  after_hit h = rw h

  after_room : has u d ≡ false → leb slots (length d) ≡ false → after slots u p d ≡ put u p d
  unfolding after
  after_room h r = rw (h, r)

flags_fit :
    (slots : ℕ) (xs d : List (ℕ × ℕ)) (seen : List ℕ)
    → ((y : ℕ) → has y d ≡ mem y seen)
    → length d + new_units seen (units xs) ≤ slots
    → sum (flags slots xs d) ≡ new_units seen (units xs)
unfolding flags units new_units flag
flags_fit slots [] d seen same h = refl
flags_fit slots ((u, p) ∷ xs) d seen same h = elim (Bool-cases (mem u seen)) [
  | inl e ↦
      let b : has u d ≡ true = same u ∙ e in
      let ih =
        flags_fit slots xs (put u p d) seen (λ y. ground (arith, has-put u y p d, same y, b))
          (ground (arith, length-put u p d)) in
      ground (arith, ih, after_hit slots u p d b)
  | inr n ↦
      let b : has u d ≡ false = same u ∙ n in
      let room : leb slots (length d) ≡ false = ground arith in
      let ih =
        flags_fit slots xs (put u p d) (u ∷ seen)
          (λ y. has-put u y p d ∙ (unfold mem in ap (λ c. if u == y then true else c) (same y)))
          (ground (arith, length-put u p d)) in
      ground (arith, ih, after_room slots u p d b room)
]

units-zip : (us ps : List ℕ) → length ps ≡ length us → units (zip us ps) ≡ us
unfolding units zip
units-zip [] ps h = refl
units-zip (u ∷ us) [] h = absurd (omega arith)
units-zip (u ∷ us) (p ∷ ps) h = ap (λ l. u ∷ l) (units-zip us ps (omega arith))

units-reuse_pairs :
    (big i : ℕ) (last : List (ℕ × ℕ)) (us : List ℕ) → units (reuse_pairs big i last us) ≡ us
unfolding units reuse_pairs
units-reuse_pairs big i last [] = refl
units-reuse_pairs big i last (u ∷ us) =
    ap (λ l. u ∷ l) (units-reuse_pairs big (i + 1) (put u i last) us)

units-pairs_of : (policy : Policy) (us : List ℕ) → units (pairs_of policy us) ≡ us
unfolding pairs_of next_use_array
units-pairs_of belady us = units-zip us _ (length-next_use_from 0 us)
units-pairs_of mrd us = units-reuse_pairs (length us) 0 [] us

-- When all the accessed units fit the slots, a policy counts one miss for each different unit, and
-- the naive baseline counts no byte at all: the first touch of a unit is a miss of the policies
-- only.
pub first_touch :
    (p : BufferPool) (access ubytes : List ℕ)
    → new_units [] access ≤ p.num_slots
    → (sum (miss_flags p.policy access p.num_slots) ≡ new_units [] access)
      × (staged_bytes_naive p access ubytes ≡ 0)
unfolding miss_flags staged_bytes_naive
first_touch p access ubytes h = (
  let e = units-pairs_of p.policy access in
      flags_fit p.num_slots (pairs_of p.policy access) [] [] (λ y. unfold has mem in refl)
        (omega (arith, ap (new_units []) e))
      ∙ ap (new_units []) e,
  naive_bytes-fits p.num_slots [] access ubytes 0 (omega arith),
)
