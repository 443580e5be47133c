-- ===== src/Base/Dict.antt =====
-- Python's `dict` with integer keys, as an association list in insertion order: an assignment to a
-- present key keeps its place, a new key goes to the end. `max(d, key=...)` returns the first key
-- of the largest value, so the order matters.
use zord.Base.Tests.{ltb, ◌==◌, if◌then◌else◌, Bool-cases}
use zord.Base.Lists.{length}
use Prim.Native.Nat.{ℕ, ◌+◌}
use mathlib.Core.Path.{◌≡◌, refl}
use mathlib.Core.Logic.{◌≢◌, inl, inr}
use mathlib.Core.Bool.{Bool, true, false}
use mathlib.Core.List.{List, [], ◌∷◌}
use mathlib.Core.Option.{Option, none, some}
use native.Mathlib.Omega.{arith}

module _ {ℓ} {V : Type ℓ} where
  unfoldable pub get : ℕ → List (ℕ × V) → Option V
  get k [] = none
  get k ((j, v) ∷ d) = if j == k then some v else get k d

  unfoldable pub has : ℕ → List (ℕ × V) → Bool
  has k [] = false
  has k ((j, v) ∷ d) = if j == k then true else has k d

  unfoldable pub put : ℕ → V → List (ℕ × V) → List (ℕ × V)
  put k v [] = (k, v) ∷ []
  put k v ((j, w) ∷ d) = if j == k then (j, v) ∷ d else (j, w) ∷ put k v d

  unfoldable pub del : ℕ → List (ℕ × V) → List (ℕ × V)
  del k [] = []
  del k ((j, w) ∷ d) = if j == k then d else (j, w) ∷ del k d

  pub get-put :
      (k j : ℕ) (v : V) (d : List (ℕ × V))
      → get j (put k v d) ≡ (if k == j then some v else get j d)
  unfolding get put
  get-put k j v [] = ground arith
  get-put k j v ((i, w) ∷ d) = ground (arith, get-put k j v d)

  pub has-put :
      (k j : ℕ) (v : V) (d : List (ℕ × V)) → has j (put k v d) ≡ (if k == j then true else has j d)
  unfolding has put
  has-put k j v [] = ground arith
  has-put k j v ((i, w) ∷ d) = ground (arith, has-put k j v d)

  pub length-put :
      (k : ℕ) (v : V) (d : List (ℕ × V))
      → length (put k v d) ≡ (if has k d then length d else length d + 1)
  unfolding has put
  length-put k v [] = ground arith
  length-put k v ((i, w) ∷ d) = ground (arith, length-put k v d)

  pub length-del :
      (k : ℕ) (d : List (ℕ × V)) → length (del k d) + (if has k d then 1 else 0) ≡ length d
  unfolding has del
  length-del k [] = ground arith
  length-del k ((i, w) ∷ d) = ground (arith, length-del k d)

  pub get-del_ne : (k j : ℕ) (d : List (ℕ × V)) → k ≢ j → get j (del k d) ≡ get j d
  unfolding get del
  get-del_ne k j [] h = refl
  get-del_ne k j ((i, w) ∷ d) h = ground (arith, get-del_ne k j d h)

  pub has-del_ne : (k j : ℕ) (d : List (ℕ × V)) → k ≢ j → has j (del k d) ≡ has j d
  unfolding has del
  has-del_ne k j [] h = refl
  has-del_ne k j ((i, w) ∷ d) h = ground (arith, has-del_ne k j d h)

  pub has_of_get : (k : ℕ) (d : List (ℕ × V)) (v : V) → get k d ≡ some v → has k d ≡ true
  unfolding get has
  has_of_get k [] v h = cc
  has_of_get k ((i, w) ∷ d) v h = ground (arith, has_of_get k d v)

  pub get_of_has : (k : ℕ) (d : List (ℕ × V)) → has k d ≡ true → (v : V) × (get k d ≡ some v)
  unfolding get has
  get_of_has k [] h = absurd (ground arith)
  get_of_has k ((i, w) ∷ d) h = elim (Bool-cases (i == k)) [
    | inl e ↦ (w, ground arith)
    | inr n ↦ let (v, p) = get_of_has k d (ground arith) in (v, ground arith)
  ]

-- The loop of `max(d, key=d.get)`: the first key of the largest value, from a candidate on.
unfoldable pub max_from : ℕ → ℕ → List (ℕ × ℕ) → ℕ
max_from k v [] = k
max_from k v ((j, w) ∷ d) = max_from (if ltb v w then j else k) (if ltb v w then w else v) d

-- `max` of an empty dict raises; `none` stands for that.
unfoldable pub max_key : List (ℕ × ℕ) → Option ℕ
unfolding max_from
max_key [] = none
max_key ((k, v) ∷ d) = some (max_from k v d)
