-- ===== src/Base/Members.antt =====
-- What holds of all the items of a list holds of each.
use mathlib.Core.Path.{refl, sym, subst}
use mathlib.Core.List.{List, [], ◌∷◌, Memᴰ}
use zord.Base.Lists.{All}

pub All-Memᴰ {ℓ κ} :
    {A : Type ℓ} (P : A → Type κ) (xs : List A) (x : A) → All P xs → Memᴰ x xs → P x
All-Memᴰ P [] x h m = elim m [ ]
All-Memᴰ P (y ∷ xs) x h (Memᴰ.head e) = subst P (sym e) h.0
All-Memᴰ P (y ∷ xs) x h (Memᴰ.tail m) = All-Memᴰ P xs x h.1 m

pub All-of_Memᴰ {ℓ κ} :
    {A : Type ℓ} (P : A → Type κ) (xs : List A) → ((x : A) → Memᴰ x xs → P x) → All P xs
All-of_Memᴰ P [] h = tt
All-of_Memᴰ P (x ∷ xs) h = (h x (Memᴰ.head refl), All-of_Memᴰ P xs (λ y m. h y (Memᴰ.tail m)))
