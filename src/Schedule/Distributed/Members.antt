-- ===== src/Schedule/Distributed/Members.antt =====
-- Members of lists of rows.
use zord.Base.{ℕ, ◌≡◌, ◌⊎◌, refl, ap, List, [], ◌∷◌, inl, inr}
use zord.Base.Rows.{zip}
use zord.Schedule.Distributed.{firsts, seconds}
use mathlib.Core.List.{Memᴰ}

pub uncons {ℓ} : {A : Type ℓ} {a x : A} {xs : List A} → Memᴰ a (x ∷ xs) → (a ≡ x) ⊎ Memᴰ a xs
uncons (Memᴰ.head q) = inl q
uncons (Memᴰ.tail m) = inr m

pub zip_parts : (ps : List (ℕ × ℕ)) → zip (firsts ps) (seconds ps) ≡ ps
zip_parts [] = refl
zip_parts (p ∷ ps) = ap (λ l. p ∷ l) (zip_parts ps)
