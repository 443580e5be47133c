-- ===== src/Schedule/Distributed/Tests.antt =====
-- Tests and examples of the halo exchange.
use zord.Base.{
  ℕ, ◌+◌, ◌*◌, ◌≡◌, refl, sym, zero, suc, true, List, [], ◌∷◌, Option, none, some, some-injective,
  length, get_elem?, arith,
}
use zord.Datasets.Numpy.Insertion.{insertion, argsort}
use zord.Schedule.Distributed.{RankSpec, DistributedPlan, halo, plan_distributed}
use zord.Schedule.Distributed.Halo.{Received, halo_sound, halo-complete}
use zord.Schedule.Distributed.Totals.{plan_distributed-totals}
use mathlib.Core.List.{Memᴰ}

-- Two vertices on each of two ranks, and edges 0-2 and 1-2; the ranks are on different nodes.
abbrev assignment : List (Option ℕ)
assignment = some 0 ∷ some 0 ∷ some 1 ∷ some 1 ∷ []

abbrev src : List ℕ
src = 0 ∷ 1 ∷ []

abbrev dst : List ℕ
dst = 2 ∷ 2 ∷ []

abbrev ranks : List RankSpec
ranks = record { rank = 0; node = 0 } ∷ record { rank = 1; node = 1 } ∷ []

-- Rank 0 receives vertex 2 once, rank 1 receives the vertices 0 and 1.
abbrev rows : List (ℕ × ℕ)
rows = (2, 1) ∷ (4, 0) ∷ (5, 0) ∷ []

planned : halo insertion 4 assignment src dst ≡ some rows
unfolding halo argsort
planned = refl

halo_sound_example : Received 4 assignment src dst (2, 1)
halo_sound_example = halo_sound insertion 4 assignment src dst rows planned (2, 1) (Memᴰ.head refl)

halo-complete_example : (s' : ℕ) × Memᴰ (0 * 4 + 2, s') rows
halo-complete_example =
    halo-complete insertion 4 assignment src dst rows planned 1 1 2 0 1 refl refl refl refl
      (λ e. absurd (omega (arith, e)))

abbrev plan : DistributedPlan
plan = record {
  per_rank =
      record {
        rank = 0;
        node = 0;
        local = 2;
        recv_rows_intra = 0;
        recv_rows_inter = 1;
        incident_edges = 2;
      }
      ∷ record {
        rank = 1;
        node = 1;
        local = 2;
        recv_rows_intra = 0;
        recv_rows_inter = 2;
        incident_edges = 2;
      }
      ∷ [];
  total_intra_rows = 0;
  total_inter_rows = 3;
  same_result = true;
}

plans : plan_distributed insertion assignment src dst 4 ranks ≡ some plan
unfolding plan_distributed argsort
plans = refl

plan_distributed-totals_example :
    (rs : List (ℕ × ℕ)) × (halo insertion 4 assignment src dst ≡ some rs) × (0 + 3 ≡ length rs)
plan_distributed-totals_example =
    plan_distributed-totals insertion assignment src dst 4 ranks plan plans

homed : (v : ℕ) (a : Option ℕ) → get_elem? assignment v ≡ some a → (r : ℕ) × (a ≡ some r)
homed zero a e = (0, sym (some-injective _ _ e))
homed (suc zero) a e = (0, sym (some-injective _ _ e))
homed (suc (suc zero)) a e = (1, sym (some-injective _ _ e))
homed (suc (suc (suc zero))) a e = (1, sym (some-injective _ _ e))
homed (suc (suc (suc (suc v)))) a e = absurd (cc)

-- Vertex 0 is replicated, its neighbour 1 is not.
abbrev replicated : List (Option ℕ)
replicated = none ∷ some 0 ∷ []
