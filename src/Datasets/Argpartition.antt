-- ===== src/Datasets/Argpartition.antt =====
-- What the program relies on of numpy's `argpartition`, with a full sort as an example of it.
use zord.Base.{ℕ, List, length}
use zord.Base.Ranges.{range_up}
use zord.Datasets.Numpy.Insertion.{argsort, argsort-Permᴰ}
use mathlib.Core.List.{Permᴰ}

-- `argpartition(keys, kth)` is an order of the indices.
pub record Argpartition : Type 0 where
  pub argpartition : List ℕ → ℕ → List ℕ
  pub argpartition_perm : (t : List ℕ) (k : ℕ) → Permᴰ (range_up 0 (length t)) (argpartition t k)

abbrev pub sorting : Argpartition
sorting = record { argpartition = λ t k. argsort t; argpartition_perm = λ t k. argsort-Permᴰ t }
