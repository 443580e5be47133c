-- ===== src/Partition/Hetero/Tests.antt =====
-- Tests and examples of the placement on unequal devices.
use zord.Base.{ℕ, ◌≡◌, refl, List, [], ◌∷◌, some, some-injective, sym, zero, suc, get_elem?, arith}
use zord.Base.Ranges.{range_up}
use zord.Datasets.Numpy.Insertion.{insertion, argsort}
use zord.Partition.Hetero.{Placement, Setting, capacities, neighbors}
use zord.Partition.Hetero.Run.{auto, partition}
use zord.Partition.Hetero.Loads.{homed}
use zord.Partition.Hetero.Moving.{Fits}
use zord.Partition.Hetero.Whole.{partition-Fits, partition_complete}

-- A square 0-1-2-3 and two devices that take two nodes each.
abbrev src : List ℕ
src = 0 ∷ 1 ∷ 2 ∷ 3 ∷ []

abbrev dst : List ℕ
dst = 1 ∷ 2 ∷ 3 ∷ 0 ∷ []

abbrev links : List (List ℕ)
links = (0 ∷ 10 ∷ []) ∷ (10 ∷ 0 ∷ []) ∷ []

abbrev flat : ℕ → ℕ → ℕ
flat l c = l

limits_hold : capacities 4 [] (some (2 ∷ 2 ∷ [])) ≡ 2 ∷ 2 ∷ []
unfolding capacities
limits_hold = refl

square :
    partition insertion flat links auto 1 src dst 4 [] (some (2 ∷ 2 ∷ []))
    ≡ record { assignment = some 0 ∷ some 0 ∷ some 1 ∷ some 1 ∷ []; load = 2 ∷ 2 ∷ [] }
unfolding partition argsort range_up
square = refl

abbrev setting : Setting
setting = record {
  pressure = flat;
  links = links;
  cap = capacities 4 [] (some (2 ∷ 2 ∷ []));
  adj = neighbors src dst;
}

partition-Fits_example :
    Fits setting (partition insertion flat links auto 1 src dst 4 [] (some (2 ∷ 2 ∷ [])))
unfolding capacities
partition-Fits_example =
    partition-Fits insertion flat links auto 1 src dst 4 [] (some (2 ∷ 2 ∷ [])) (omega arith) refl

partition_complete_example :
    (d : ℕ) × (get_elem?
        (partition insertion flat links auto 1 src dst 4 [] (some (2 ∷ 2 ∷ []))).assignment
        3
      ≡ some (some d))
unfolding capacities
partition_complete_example =
    partition_complete insertion flat links auto 1 src dst 4 [] (some (2 ∷ 2 ∷ [])) (omega arith)
      refl 3 (omega arith)

-- Node 1 is alone on device 1, which has room; its neighbours are on device 0.
abbrev uneven : Placement
uneven = record { assignment = some 0 ∷ some 1 ∷ some 0 ∷ []; load = 2 ∷ 1 ∷ [] }

abbrev roomy : Setting
roomy = record { pressure = flat; links = links; cap = 3 ∷ 3 ∷ []; adj = λ v. 0 ∷ 2 ∷ [] }

uneven-Fits : Fits roomy uneven
unfolding homed
uneven-Fits = record { within = (omega arith, (omega arith, tt)); tallied = go }
  where
    go : (d l : ℕ) → get_elem? uneven.load d ≡ some l → l ≡ homed d uneven.assignment
    go zero l e = sym (some-injective _ _ e)
    go (suc zero) l e = sym (some-injective _ _ e)
    go (suc (suc d)) l e = absurd (cc)
