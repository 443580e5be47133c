-- ===== src/Schedule/Distributed/Check.antt =====
-- src/zord/schedule/distributed.py: what `verify_distributed_same_result` accepts.
use zord.Base.{
  ℕ, zero, suc, ◌<◌, ◌≡◌, refl, ap, List, [], ◌∷◌, ◌++◌, Option, none, some, length, get_elem?, All,
  All-append, true, false,
}
use zord.Datasets.Numpy.{gather}
use zord.Datasets.Numpy.Gather.{gather-to_item, gather-from_item, gather_total}
use zord.Schedule.Distributed.{none_bad, verify_distributed_same_result}

-- One replicated end with one that is not is found,
none_bad-finds :
    (s i : ℕ) (ras rbs : List (Option ℕ))
    → get_elem? ras i ≡ some none
    → get_elem? rbs i ≡ some (some s)
    → none_bad ras rbs ≡ false
unfolding none_bad
none_bad-finds s i [] rbs e f = absurd (cc)
none_bad-finds s i (a ∷ ras) [] e f = absurd (cc)
none_bad-finds s zero (none ∷ ras) (none ∷ rbs) e f = absurd (cc)
none_bad-finds s zero (none ∷ ras) (some c ∷ rbs) e f = refl
none_bad-finds s zero (some a ∷ ras) (c ∷ rbs) e f = absurd (cc)
none_bad-finds s (suc i) (none ∷ ras) (none ∷ rbs) e f = none_bad-finds s i ras rbs e f
none_bad-finds s (suc i) (none ∷ ras) (some c ∷ rbs) e f = refl
none_bad-finds s (suc i) (some a ∷ ras) (none ∷ rbs) e f = refl
none_bad-finds s (suc i) (some a ∷ ras) (some c ∷ rbs) e f = none_bad-finds s i ras rbs e f

-- and where every vertex is on a rank, nothing is.
none_bad-homed :
    (ras rbs : List (Option ℕ))
    → ((i : ℕ) (v : Option ℕ) → get_elem? ras i ≡ some v → (r : ℕ) × (v ≡ some r))
    → ((i : ℕ) (v : Option ℕ) → get_elem? rbs i ≡ some v → (r : ℕ) × (v ≡ some r))
    → none_bad ras rbs ≡ true
unfolding none_bad
none_bad-homed [] rbs h k = refl
none_bad-homed (none ∷ ras) rbs h k = absurd (let (r, e) = h 0 none refl in cc)
none_bad-homed (some a ∷ ras) [] h k = refl
none_bad-homed (some a ∷ ras) (none ∷ rbs) h k = absurd (let (r, e) = k 0 none refl in cc)
none_bad-homed (some a ∷ ras) (some c ∷ rbs) h k =
    none_bad-homed ras rbs (λ i v e. h (suc i) v e) (λ i v e. k (suc i) v e)

module _ (assignment : List (Option ℕ)) (src dst : List ℕ)
    (src_in : All (λ v. v < length assignment) src)
    (dst_in : All (λ v. v < length assignment) dst) where
  ranks_a : (ra : List (Option ℕ)) × (gather assignment (src ++ dst) ≡ some ra)
  ranks_a =
      gather_total assignment (src ++ dst)
        (All-append (λ v. v < length assignment) src dst src_in dst_in)

  ranks_b : (rb : List (Option ℕ)) × (gather assignment (dst ++ src) ≡ some rb)
  ranks_b =
      gather_total assignment (dst ++ src)
        (All-append (λ v. v < length assignment) dst src dst_in src_in)

  -- On edges between vertices that the assignment has, a partition that puts every vertex on a rank
  -- passes the check.
  pub verify_homed :
      ((v : ℕ) (a : Option ℕ) → get_elem? assignment v ≡ some a → (r : ℕ) × (a ≡ some r))
      → verify_distributed_same_result assignment src dst ≡ some true
  unfolding verify_distributed_same_result
  verify_homed homed =
      let (ra, ra_done) = ranks_a in
      let (rb, rb_done) = ranks_b in
      rw (ra_done, rb_done, verify_distributed_same_result)
        (ap some (
          none_bad-homed ra rb
            (λ i v e.
              let (a, _, q) = gather-from_item assignment (src ++ dst) ra i v ra_done e in
              homed a v q)
            (λ i v e.
              let (a, _, q) = gather-from_item assignment (dst ++ src) rb i v rb_done e in
              homed a v q)))

  -- On such edges, a partition with one end of an edge replicated and the other on a rank fails the
  -- check.
  pub verify_replicated :
      (i u v s : ℕ)
      → get_elem? (src ++ dst) i ≡ some u
      → get_elem? (dst ++ src) i ≡ some v
      → get_elem? assignment u ≡ some none
      → get_elem? assignment v ≡ some (some s)
      → verify_distributed_same_result assignment src dst ≡ some false
  unfolding verify_distributed_same_result
  verify_replicated i u v s at_u at_v rank_u rank_v =
      let (ra, ra_done) = ranks_a in
      let (rb, rb_done) = ranks_b in
      rw (ra_done, rb_done, verify_distributed_same_result)
        (ap some (
          none_bad-finds s i ra rb
            (gather-to_item assignment (src ++ dst) ra i u none ra_done at_u rank_u)
            (gather-to_item assignment (dst ++ src) rb i v (some s) rb_done at_v rank_v)))
