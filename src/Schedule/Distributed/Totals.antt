-- ===== src/Schedule/Distributed/Totals.antt =====
-- src/zord/schedule/distributed.py: the rows that the ranks receive, counted over the ranks.
use zord.Base.{
  ℕ, zero, suc, ◌+◌, ◌/◌, ◌≤◌, ◌<◌, ◌≡◌, refl, ap, subst, List, [], ◌∷◌, ◌++◌, Option, some,
  some-injective, length, All, arith, inl, inr, Bool, Bool-cases, true, false, ◌==◌, if◌then◌else◌,
}
use zord.Base.Options.{bind-some}
use zord.Datasets.Numpy.{Numpy, gather}
use zord.Datasets.Numpy.Gather.{gather-All}
use zord.Schedule.Distributed.{
  RankSpec, DistributedPlan, nodes, count, by_link, rank_plans, totals, halo, masked,
  plan_distributed,
}

-- How often the ranks from `r` on, `m` of them, occur.
abbrev tally : ℕ → ℕ → List ℕ → ℕ
tally r zero xs = 0
tally r (suc m) xs = count r xs + tally (r + 1) m xs

tally_none : (r m : ℕ) → tally r m [] ≡ 0
unfolding count
tally_none r zero = refl
tally_none r (suc m) = omega (arith, tally_none (r + 1) m)

tally_before : (r m x : ℕ) (xs : List ℕ) → x < r → tally r m (x ∷ xs) ≡ tally r m xs
unfolding count
tally_before r zero x xs lt = refl
tally_before r (suc m) x xs lt =
    let ih = tally_before (r + 1) m x xs (omega arith) in ground (arith, ih)

tally_one : (r m x : ℕ) (xs : List ℕ) → r ≤ x → x < r + m → tally r m (x ∷ xs) ≡ suc (tally r m xs)
unfolding count
tally_one r zero x xs le lt = absurd (omega arith)
tally_one r (suc m) x xs le lt = elim (Bool-cases (r == x)) [
  | inl here ↦ let rest = tally_before (r + 1) m x xs (ground arith) in ground (arith, rest)
  | inr later ↦ let ih = tally_one (r + 1) m x xs (ground arith) (omega arith) in ground (arith, ih)
]

tally_all : (m : ℕ) (xs : List ℕ) → All (λ x. x < m) xs → tally 0 m xs ≡ length xs
tally_all m [] h = tally_none 0 m
tally_all m (x ∷ xs) h =
    omega (arith, tally_one 0 m x xs (omega arith) (omega (arith, h.0)), tally_all m xs h.1)

module _ (n : ℕ) (node_of : List ℕ) where
  -- The rows are split into two lists of receiving ranks.
  record Split (rows : List (ℕ × ℕ)) (both : List ℕ × List ℕ) : Type 0 where
    lengths : length both.0 + length both.1 ≡ length rows
    intra_ranks : All (λ r. r < length node_of) both.0
    inter_ranks : All (λ r. r < length node_of) both.1

  by_link-Split :
      (rows : List (ℕ × ℕ)) (both : List ℕ × List ℕ)
      → by_link n node_of rows ≡ some both
      → Split rows both
  unfolding by_link
  by_link-Split [] both e =
      let q : ([], []) ≡ both = some-injective _ _ e in
      subst (Split []) q (record { lengths = omega arith; intra_ranks = tt; inter_ranks = tt })
  by_link-Split ((k, s) ∷ rows) both e =
      let (to, to_done, e1) = bind-some (gather node_of (k / n ∷ [])) _ both e in
      let (from, from_done, e2) = bind-some (gather node_of (s ∷ [])) _ both e1 in
      let (rest, rest_done, e3) = bind-some (by_link n node_of rows) _ both e2 in
      let ih = by_link-Split rows rest rest_done in
      let (here, _) = gather-All node_of (k / n ∷ []) to to_done in
      subst (Split ((k, s) ∷ rows)) (some-injective _ _ e3) (go _ ih here)
    where
      go :
          (c : Bool) {rest : List ℕ × List ℕ}
          → Split rows rest
          → k / n < length node_of
          → Split ((k, s) ∷ rows) (if c then (k / n ∷ rest.0, rest.1) else (rest.0, k / n ∷ rest.1))
      go true ih here = record {
        lengths = omega (arith, ih.lengths);
        intra_ranks = (here, ih.intra_ranks);
        inter_ranks = ih.inter_ranks;
      }
      go false ih here = record {
        lengths = omega (arith, ih.lengths);
        intra_ranks = ih.intra_ranks;
        inter_ranks = (here, ih.inter_ranks);
      }

module _ (assignment : List (Option ℕ)) (ends intra inter : List ℕ) where
  totals_intra :
      (r : ℕ) (node_of : List ℕ)
      → totals (λ p. p.recv_rows_intra) (rank_plans r node_of assignment ends intra inter)
        ≡ tally r (length node_of) intra
  unfolding rank_plans
  totals_intra r [] = refl
  totals_intra r (node ∷ node_of) = ap (λ k. count r intra + k) (totals_intra (r + 1) node_of)

  totals_inter :
      (r : ℕ) (node_of : List ℕ)
      → totals (λ p. p.recv_rows_inter) (rank_plans r node_of assignment ends intra inter)
        ≡ tally r (length node_of) inter
  unfolding rank_plans
  totals_inter r [] = refl
  totals_inter r (node ∷ node_of) = ap (λ k. count r inter + k) (totals_inter (r + 1) node_of)

module _ (np : Numpy) (assignment : List (Option ℕ)) (src dst : List ℕ) (n : ℕ)
    (ranks : List RankSpec) where
  -- A plan counts every distinct row of the halo once, on one of the two links.
  pub plan_distributed-totals :
      (p : DistributedPlan)
      → plan_distributed np assignment src dst n ranks ≡ some p
      → (rows : List (ℕ × ℕ)) × (halo np n assignment src dst ≡ some rows)
        × (p.total_intra_rows + p.total_inter_rows ≡ length rows)
  unfolding plan_distributed
  plan_distributed-totals p e =
      let (_, _, e0) = bind-some (masked n assignment (src ++ dst)) _ p e in
      let (rows, done, e1) = bind-some (halo np n assignment src dst) _ p e0 in
      let (both, split, e2) = bind-some (by_link n (nodes ranks) rows) _ p e1 in
      let q = some-injective _ _ e2 in
      let s = by_link-Split n (nodes ranks) rows both split in
      (
        rows,
        done,
        subst (λ d. d.total_intra_rows + d.total_inter_rows ≡ length rows) q
            (omega (
              arith,
              totals_intra assignment (src ++ dst) both.0 both.1 0 (nodes ranks),
              totals_inter assignment (src ++ dst) both.0 both.1 0 (nodes ranks),
              tally_all (length (nodes ranks)) both.0 s.intra_ranks,
              tally_all (length (nodes ranks)) both.1 s.inter_ranks,
              s.lengths,
            )),
      )
