-- ===== src/Runtime/BufferPool/Optimal.antt =====
-- src/zord/runtime/bufferpool.py: the Belady policy misses least. Any other way to serve the
-- accesses from a cache of the same size is a derivation of `Serves`.
use zord.Base.{
  ℕ, zero, suc, ◌+◌, ◌-◌, ◌≤◌, ◌<◌, ◌≡◌, ◌≢◌, ◌∙◌, ap, sym, inl, inr, true, false, some, List, [],
  ◌∷◌, arith, length, Bool-cases, sum, max, subst,
}
use zord.Base.Dict.{get, has, get_of_has, has_of_get}
use zord.Runtime.BufferPool.{belady_schedule, never, next_use_array}
use zord.Runtime.BufferPool.Plan.{mem, belady}
use zord.Runtime.BufferPool.Evict.{Distinct}
use zord.Runtime.BufferPool.Runs.{zip, after, after-Distinct, length-after, flag, flags}
use zord.Runtime.BufferPool.Lookahead.{next_use, next_uses, next_use_from-eq}
use zord.Runtime.BufferPool.Accounting.{pairs_of, miss_flags, schedule_for-Accounted}
use zord.Runtime.BufferPool.Plan.{schedule_for}
use zord.Runtime.BufferPool.Counting.{
  before, near, near_none, Apart, near_of, near_of-le-length, near_of-absent, near_of-present,
}
use zord.Runtime.BufferPool.Priorities.{
  next_use_self, next_use_other, next_use-ge, Valid, near-after_hit, near-after_miss, after-Valid,
}

-- What is left of a cache when some of its units are evicted.
pub data Kept : List ℕ → List ℕ → Type 0 where
  nothing : Kept [] []
  keep : {x : ℕ} {a b : List ℕ} → Kept a b → Kept (x ∷ a) (x ∷ b)
  drop : {x : ℕ} {a b : List ℕ} → Kept a b → Kept a (x ∷ b)

-- `Serves cap c us m`: from the cache `c` the accesses `us` can be served with `m` misses, by any
-- choice of what to evict at a miss, in a cache of at most `cap` units.
pub data Serves (cap : ℕ) : List ℕ → List ℕ → ℕ → Type 0 where
  done : {c : List ℕ} → Serves cap c [] zero
  hit : {c us : List ℕ} {x m : ℕ} → mem x c ≡ true → Serves cap c us m → Serves cap c (x ∷ us) m
  miss :
      {c c' us : List ℕ} {x m : ℕ}
      → mem x c ≡ false
      → Kept c' c
      → length c' < cap
      → Serves cap (x ∷ c') us m
      → Serves cap c (x ∷ us) (suc m)

mem-Kept : (x : ℕ) {a b : List ℕ} → Kept a b → mem x b ≡ false → mem x a ≡ false
unfolding mem
mem-Kept x nothing h = h
mem-Kept x (keep {x = y} k) h = ground (arith, mem-Kept x k)
mem-Kept x (drop {x = y} k) h = mem-Kept x k (ground arith)

Apart-Kept : {a b : List ℕ} → Kept a b → Apart b → Apart a
Apart-Kept nothing h = h
Apart-Kept (keep {x = y} k) h = (mem-Kept y k h.0, Apart-Kept k h.1)
Apart-Kept (drop k) h = Apart-Kept k h.1

near_of-Kept : (ν : ℕ → ℕ) (t : ℕ) {a b : List ℕ} → Kept a b → near_of ν t a ≤ near_of ν t b
unfolding near_of
near_of-Kept ν t nothing = omega arith
near_of-Kept ν t (keep k) = omega (arith, near_of-Kept ν t k)
near_of-Kept ν t (drop k) = omega (arith, near_of-Kept ν t k)

-- `e` is how many misses the policy is ahead of the other cache.
record Ahead (cap i : ℕ) (us : List ℕ) (d : List (ℕ × ℕ)) (c : List ℕ) (e : ℕ) : Type 0 where
  pos : 0 < cap
  distinct : Distinct d
  fits : length d ≤ cap
  valid : Valid i us d
  apart : Apart c
  c_fits : length c ≤ cap
  bound : i + length us ≤ never
  behind : (t : ℕ) → i < t → near_of (next_use i us) t c ≤ e + near t d

module _ (cap i x : ℕ) (us : List ℕ) (d : List (ℕ × ℕ)) (c : List ℕ) (e : ℕ)
    (a : Ahead cap i (x ∷ us) d c e) where
  abbrev p : ℕ
  p = next_use (i + 1) us x

  abbrev d' : List (ℕ × ℕ)
  d' = after cap x p d

  next-Ahead :
      (c' : List ℕ) (e' : ℕ)
      → Apart c'
      → length c' ≤ cap
      → ((t : ℕ) → i + 1 < t → near_of (next_use (i + 1) us) t c' ≤ e' + near t d')
      → Ahead cap (i + 1) us d' c' e'
  next-Ahead c' e' ap' fit' beh = record {
    pos = a.pos;
    distinct = after-Distinct cap x p d a.distinct;
    fits = omega (arith, length-after cap x p d a.distinct a.pos a.fits);
    valid = after-Valid cap x i us d a.distinct a.valid;
    apart = ap';
    c_fits = fit';
    bound = omega (arith, a.bound);
    behind = beh;
  }

  hit_at : has x d ≡ true → get x d ≡ some i
  hit_at h = let (v, g) = get_of_has x d h in g ∙ ap some (a.valid x v g ∙ next_use_self x i us)

  same : (y : ℕ) → x ≢ y → next_use i (x ∷ us) y ≡ next_use (i + 1) us y
  same = next_use_other x i us

  other_hit :
      (t : ℕ)
      → mem x c ≡ true
      → near_of (next_use (i + 1) us) t c + before t i
        ≡ near_of (next_use i (x ∷ us)) t c + before t p
  other_hit t h =
      subst
        (λ k.
          near_of (next_use (i + 1) us) t c + before t k
          ≡ near_of (next_use i (x ∷ us)) t c + before t p)
        (next_use_self x i us)
        (near_of-present (next_use i (x ∷ us)) (next_use (i + 1) us) x same t c a.apart h)

  -- A unit that the other cache holds and the policy does not is a miss that the policy is ahead.
  ahead-pos : has x d ≡ false → mem x c ≡ true → 0 < e
  ahead-pos n h =
      let all_later : (y v : ℕ) → get y d ≡ some v → i + 1 ≤ v = λ y v g.
        let other : x ≢ y = λ q.
          let g' : get x d ≡ some v = subst (λ k. get k d ≡ some v) (sym q) g in
          ground (arith, has_of_get x d v g') in
        subst (λ k. i + 1 ≤ k) (sym (a.valid y v g ∙ same y other))
          (next_use-ge (i + 1) us y (omega (arith, a.bound))) in
      let none_near = near_none (i + 1) d a.distinct all_later in
      let late = next_use-ge (i + 1) us x (omega (arith, a.bound)) in
      ground (arith, other_hit (i + 1) h, none_near, a.behind (i + 1) (omega arith), late)

  hit_hit : has x d ≡ true → mem x c ≡ true → Ahead cap (i + 1) us d' c e
  hit_hit hb hc = next-Ahead c e a.apart a.c_fits λ t lt. ground (
    arith,
    other_hit t hc,
    near-after_hit cap x i us d a.distinct t p i (hit_at hb),
    a.behind t (omega arith),
  )

  miss_hit : has x d ≡ false → mem x c ≡ true → (e' : ℕ) → e ≡ suc e' → Ahead cap (i + 1) us d' c e'
  miss_hit hb hc e' q = next-Ahead c e' a.apart a.c_fits λ t lt. ground (
    arith,
    other_hit t hc,
    near-after_miss cap x i us d a.distinct t p hb a.pos a.fits,
    a.behind t (omega arith),
    near_of-le-length (next_use i (x ∷ us)) t c,
    a.c_fits,
  )

  module _ (c' : List ℕ) (kept : Kept c' c) (room : length c' < cap)
      (absent : mem x c ≡ false) where
    other_miss : (t : ℕ) → near_of (next_use (i + 1) us) t c' ≤ near_of (next_use i (x ∷ us)) t c
    other_miss t = omega (
      arith,
      near_of-absent (next_use i (x ∷ us)) (next_use (i + 1) us) x same t c'
          (mem-Kept x kept absent),
      near_of-Kept (next_use i (x ∷ us)) t kept,
    )

    hit_miss : has x d ≡ true → Ahead cap (i + 1) us d' (x ∷ c') (suc e)
    unfolding near_of
    hit_miss hb =
        next-Ahead (x ∷ c') (suc e) (mem-Kept x kept absent, Apart-Kept kept a.apart) (omega arith)
          λ t lt. ground (
            arith,
            other_miss t,
            near-after_hit cap x i us d a.distinct t p i (hit_at hb),
            a.behind t (omega arith),
          )

    miss_miss : has x d ≡ false → Ahead cap (i + 1) us d' (x ∷ c') e
    unfolding near_of
    miss_miss hb =
        next-Ahead (x ∷ c') e (mem-Kept x kept absent, Apart-Kept kept a.apart) (omega arith)
          λ t lt. ground (
            arith,
            other_miss t,
            near-after_miss cap x i us d a.distinct t p hb a.pos a.fits,
            a.behind t (omega arith),
            near_of-le-length (next_use (i + 1) us) t c',
          )

belady-Ahead :
    (cap i : ℕ) (d : List (ℕ × ℕ)) (e : ℕ) {c us : List ℕ} {m : ℕ}
    → Serves cap c us m
    → Ahead cap i us d c e
    → sum (flags cap (zip us (next_uses i us)) d) ≤ e + m
unfolding flags zip next_uses flag
belady-Ahead cap i d e done a = omega arith
belady-Ahead cap i d e (hit {c = c} {us = us} {x = x} h s) a = elim (Bool-cases (has x d)) [
  | inl b ↦
      let ih = belady-Ahead cap (i + 1) _ e s (hit_hit cap i x us d c e a b h) in ground (arith, ih)
  | inr b ↦
      let q : e ≡ suc (e - 1) = omega (arith, ahead-pos cap i x us d c e a b h) in
      let ih = belady-Ahead cap (i + 1) _ (e - 1) s (miss_hit cap i x us d c e a b h (e - 1) q) in
      ground (arith, ih)
]
belady-Ahead cap i d e (miss {c = c} {c' = c'} {us = us} {x = x} h k room s) a =
    elim (Bool-cases (has x d)) [
      | inl b ↦
          let ih =
            belady-Ahead cap (i + 1) _ (suc e) s (hit_miss cap i x us d c e a c' k room h b) in
          ground (arith, ih)
      | inr b ↦
          let ih = belady-Ahead cap (i + 1) _ e s (miss_miss cap i x us d c e a c' k room h b) in
          ground (arith, ih)
    ]

misses-le_any :
    (access : List ℕ) (slots m : ℕ)
    → length access ≤ never
    → Serves (max 1 slots) [] access m
    → sum (miss_flags belady access (max 1 slots)) ≤ m
unfolding miss_flags pairs_of next_use_array
misses-le_any access slots m bound s =
    let ahead : Ahead (max 1 slots) 0 access [] [] 0 = record {
      pos = omega arith;
      distinct = tt;
      fits = omega arith;
      valid = λ y v g. absurd (unfold get in cc);
      apart = tt;
      c_fits = omega arith;
      bound = omega arith;
      behind = λ t lt. unfold near_of near in omega arith;
    } in
    rw next_use_from-eq (omega (arith, belady-Ahead (max 1 slots) 0 [] 0 s ahead))

-- For a sequence no longer than the sentinel `never`: however the accesses are served from an empty cache of the same number of slots, with any choice
-- of evictions at the misses, online or offline, there are at least as many misses as the Belady
-- schedule has admissions.
pub belady-le_any :
    (access : List ℕ) (slots m : ℕ)
    → length access ≤ never
    → Serves (max 1 slots) [] access m
    → (belady_schedule access slots).admissions ≤ m
unfolding belady_schedule schedule_for
belady-le_any access slots m bound s =
    subst (λ a. a ≤ m) (sym (schedule_for-Accounted belady access slots).admissions)
      (misses-le_any access slots m bound s)
