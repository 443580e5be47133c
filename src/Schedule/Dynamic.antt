-- ===== src/Schedule/Dynamic.antt =====
-- src/zord/schedule/dynamic.py: the placement of the changed cone on a prior assignment, in
-- `partition_incremental`. A vertex without a device (-1) is `none` in an assignment, and `none` of a
-- result is an error of an index or of a shape, or no fuel left. The budget is the number of vertices
-- `int(budget * N)`. The loads before the placement are never read, and are left out.
-- The two columns of edges are of the same length; the code raises where they are not.
pub mod Spill
pub mod Sizes
pub mod Kept
pub mod Around
pub mod Touched
pub mod Total
pub mod Migration
pub mod Relabelings
pub mod Matching
pub mod Idle
pub mod Budget
pub mod Tests
use zord.Base.{
  ℕ, zero, suc, ◌+◌, ◌-◌, ◌*◌, ◌/◌, ◌%◌, Bool, true, false, not, ◌&&◌, ◌||◌, Option, none, some,
  List, [], ◌∷◌, ◌++◌, ◌==◌, if◌then◌else◌, ltb, leb, length, sum, get_elem?, get_or, min, map,
}
use zord.Base.Options.{◌>>=◌}
use zord.Base.Rows.{take, drop, filter}
use zord.Datasets.Numpy.{gather}
use zord.Datasets.Unique.{Unique}
use zord.Datasets.Argpartition.{Argpartition}
use zord.Partition.Hetero.{update, argmax}
use zord.Partition.Cost.{count_of, bins, counts_from}

-- `assignment[:k] = prior[:k]` on a new assignment of `n` vertices.
unfoldable pub start_from : ℕ → List (Option ℕ) → List (Option ℕ)
start_from zero prior = []
start_from (suc n) [] = none ∷ start_from n []
start_from (suc n) (c ∷ prior) = c ∷ start_from n prior

-- `np.where(assignment < 0)[0]`, from the vertex `i` on.
unfoldable pub unplaced : ℕ → List (Option ℕ) → List ℕ
unplaced i [] = []
unplaced i (none ∷ a) = i ∷ unplaced (i + 1) a
unplaced i (some c ∷ a) = unplaced (i + 1) a

-- The vertices of the new edges.
unfoldable pub touched : Unique → List ℕ → List ℕ → ℕ → List ℕ
touched un src dst lo = if ltb lo (length src) then un.unique (drop lo src ++ drop lo dst) else []

-- `touched[~is_new[touched]]`
unfoldable pub old_touched : List (Option ℕ) → List ℕ → Option (List ℕ)
old_touched a [] = some []
old_touched a (v ∷ vs) = do
  c ← get_elem? a v
  rest ← old_touched a vs
  some (elim c [ none ↦ rest | some _ ↦ v ∷ rest ])

unfoldable pub same_device : Option ℕ → Option ℕ → Bool
same_device (some c) (some d) = c == d
same_device none none = true
same_device _ _ = false

-- `xs[cross]`
unfoldable pub crossed : List (Option ℕ) → List (Option ℕ) → List ℕ → List ℕ
unfolding same_device
crossed (c ∷ as') (d ∷ bs) (x ∷ xs) =
    let rest = crossed as' bs xs in if same_device c d then rest else x ∷ rest
crossed _ _ _ = []

-- The number of crossing edges, negated as its distance from the most there can be.
unfoldable pub cross_keys : List ℕ → List ℕ → List ℕ
unfolding count_of
cross_keys ends [] = []
cross_keys ends (v ∷ vs) = (length ends - count_of v ends) ∷ cross_keys ends vs

-- The old vertices of the new edges with the most crossing edges, `budget` of them.
unfoldable pub most_crossing :
    Argpartition → List (Option ℕ) → List ℕ → List ℕ → ℕ → List ℕ → Option (List ℕ)
unfolding crossed cross_keys gather
most_crossing ap a src dst budget old = do
  as' ← gather a src
  bs ← gather a dst
  let ends = crossed as' bs src ++ crossed as' bs dst
  gather old (take budget (ap.argpartition (cross_keys ends old) (budget - 1)))

-- The old vertices that are placed again, within the budget.
unfoldable pub old_move :
    Argpartition → List (Option ℕ) → List ℕ → List ℕ → ℕ → List ℕ → Option (List ℕ)
unfolding most_crossing
old_move ap a src dst budget old =
    if budget == 0
    then some []
    else if ltb budget (length old)
    then most_crossing ap a src dst budget old
    else some old

-- `assignment[vs] = -1`
unfoldable pub clear : List ℕ → List (Option ℕ) → List (Option ℕ)
unfolding update
clear [] a = a
clear (v ∷ vs) a = clear vs (update v (λ _. none) a)

unfoldable pub contains : ℕ → List ℕ → Bool
contains v [] = false
contains v (u ∷ us) = (u == v) || contains v us

-- `pn` and `other` of the edges with an end to place, and of those with both.
unfoldable pub near : List ℕ → List ℕ → List ℕ → List (ℕ × ℕ)
unfolding contains
near place (s ∷ src) (d ∷ dst) =
    let rest = near place src dst in
    if contains s place then (s, d) ∷ rest else if contains d place then (d, s) ∷ rest else rest
near place _ _ = []

unfoldable pub near_both : List ℕ → List ℕ → List ℕ → List (ℕ × ℕ)
unfolding contains
near_both place (s ∷ src) (d ∷ dst) =
    let rest = near_both place src dst in
    if contains s place && contains d place then (d, s) ∷ rest else rest
near_both place _ _ = []

-- `pos[v]` after `pos[to_place] = arange`: the last place of `v`, from the place `i` on.
unfoldable pub position : ℕ → ℕ → List ℕ → Option ℕ
position v i [] = none
position v i (u ∷ us) = elim (position v (i + 1) us) [
  | some p ↦ some p
  | none ↦ if u == v then some i else none
]

-- `fixed_flat`: the votes of the neighbours that stay, as places in a table of `d` columns.
unfoldable pub fixed_flat : ℕ → List (Option ℕ) → List ℕ → List (ℕ × ℕ) → List ℕ
unfolding contains position
fixed_flat d a place [] = []
fixed_flat d a place ((p, o) ∷ pairs) =
    let rest = fixed_flat d a place pairs in
    if contains o place then rest else elim (get_elem? a o) [
      | some (some c) ↦ elim (position p 0 place) [ some r ↦ (r * d + c) ∷ rest | none ↦ rest ]
      | some none ↦ rest
      | none ↦ rest
    ]

-- `t_rows` and `t_other_row`
unfoldable pub tent_rows : List ℕ → List (ℕ × ℕ) → List (ℕ × ℕ)
unfolding position
tent_rows place [] = []
tent_rows place ((p, o) ∷ pairs) =
    let rest = tent_rows place pairs in
    elim (position o 0 place) [
      | some q ↦ elim (position p 0 place) [ some r ↦ (r, q) ∷ rest | none ↦ rest ]
      | none ↦ rest
    ]

-- `t_rows * D + tent[t_other_row]`
unfoldable pub flat : ℕ → List ℕ → List (ℕ × ℕ) → List ℕ
flat d tent [] = []
flat d tent ((r, q) ∷ rows) = (r * d + get_or tent q 0) ∷ flat d tent rows

abbrev pub anchor_w : ℕ
anchor_w = 4

-- The row of `votes` from the place `i` on, of `n` devices.
unfoldable pub votes : List ℕ → List ℕ → ℕ → ℕ → List ℕ
unfolding count_of
votes fixed tentative i zero = []
votes fixed tentative i (suc n) =
    (anchor_w * count_of i fixed + count_of i tentative) ∷ votes fixed tentative (i + 1) n

unfoldable pub vote : List ℕ → List ℕ → ℕ → ℕ → List ℕ → List ℕ
unfolding votes argmax
vote fixed tentative d r [] = []
vote fixed tentative d r (t ∷ tent) =
    let row = votes fixed tentative (r * d) d in
    (if sum row == 0 then t else argmax row) ∷ vote fixed tentative d (r + 1) tent

unfoldable pub same_list : List ℕ → List ℕ → Bool
same_list (x ∷ xs) (y ∷ ys) = (x == y) && same_list xs ys
same_list [] [] = true
same_list _ _ = false

-- The rounds of the label propagation.
unfoldable pub propagate : ℕ → List ℕ → List (ℕ × ℕ) → ℕ → List ℕ → List ℕ
unfolding flat vote same_list
propagate d fixed rows zero tent = tent
propagate d fixed rows (suc rounds) tent =
    let next = vote fixed (flat d tent rows) d 0 tent in
    let rest = propagate d fixed rows rounds next in if same_list next tent then tent else rest

unfoldable pub all_below : ℕ → List ℕ → Bool
all_below n [] = true
all_below n (x ∷ xs) = ltb x n && all_below n xs

-- `assignment[vs] = devices`
unfoldable pub settle : List ℕ → List ℕ → List (Option ℕ) → List (Option ℕ)
unfolding update
settle (v ∷ vs) (c ∷ cs) a = settle vs cs (update v (λ _. some c) a)
settle _ _ a = a

-- `assignment[assignment >= 0]`
unfoldable pub devices : List (Option ℕ) → List ℕ
devices [] = []
devices (none ∷ a) = devices a
devices (some c ∷ a) = c ∷ devices a

unfoldable pub loads : ℕ → List (Option ℕ) → List ℕ
unfolding devices bins counts_from
loads d a = counts_from 0 (bins d (devices a)) (devices a)

unfoldable pub undercut : ℕ → List ℕ → Bool
undercut x [] = false
undercut x (y ∷ ys) = ltb y x || undercut x ys

unfoldable pub argmin : List ℕ → ℕ
unfolding undercut
argmin [] = 0
argmin (x ∷ xs) = let rest = argmin xs in if undercut x xs then suc rest else 0

-- `(over > 0).any()`
unfoldable pub any_over : ℕ → List ℕ → Bool
any_over cap [] = false
any_over cap (l ∷ load) = ltb cap l || any_over cap load

-- `to_place[assignment[to_place] == c]`
unfoldable pub movers : List (Option ℕ) → ℕ → List ℕ → List ℕ
unfolding same_device
movers a c [] = []
movers a c (v ∷ vs) =
    let rest = movers a c vs in
    elim (get_elem? a v) [
      | none ↦ rest
      | some o ↦ if same_device o (some c) then v ∷ rest else rest
    ]

unfoldable pub put_all : List ℕ → ℕ → List (Option ℕ) → List (Option ℕ)
unfolding update
put_all [] c a = a
put_all (v ∷ vs) c a = put_all vs c (update v (λ _. some c) a)

-- The loop that moves placed vertices from the fullest device to the least full one.
unfoldable pub spill : ℕ → List ℕ → ℕ → List ℕ → List (Option ℕ) → Option (List (Option ℕ))
unfolding any_over argmax argmin movers put_all update
spill zero place cap load a = none
spill (suc fuel) place cap load a =
    let full = argmax load in
    let open' = argmin load in
    let room = min (get_or load full 0 - cap) (cap - get_or load open' 0) in
    let moved = take room (movers a full place) in
    let load' = update open' (λ l. l + length moved) (update full (λ l. l - length moved) load) in
    let rest = spill fuel place cap load' (put_all moved open' a) in
    if not (any_over cap load)
    then some a
    else if leb cap (get_or load open' 0)
    then some a
    else if length moved == 0
    then some a
    else rest

unfoldable pub fixed_votes : ℕ → List ℕ → List ℕ → List ℕ → List (Option ℕ) → List ℕ
unfolding near near_both fixed_flat
fixed_votes d src dst place a = fixed_flat d a place (near place src dst ++ near_both place src dst)

-- `tent` after the label propagation, from the remainders of the vertices on.
unfoldable pub tents : ℕ → List ℕ → List ℕ → List ℕ → List (Option ℕ) → List ℕ
unfolding fixed_votes near near_both tent_rows propagate
tents d src dst place a =
    propagate d (fixed_votes d src dst place a)
      (tent_rows place (near place src dst ++ near_both place src dst)) 6 (map (λ v. v % d) place)

-- The placement of `place`, which is not empty, on the assignment without it.
unfoldable pub place_cone :
    ℕ → ℕ → List ℕ → List ℕ → List ℕ → List (Option ℕ) → Option (List (Option ℕ))
unfolding gather fixed_votes tents all_below settle loads spill
place_cone n d src dst place a = do
  _ ← gather a src
  _ ← gather a dst
  let settled = settle place (tents d src dst place a) a
  let load = loads d settled
  if all_below (length place * d) (fixed_votes d src dst place a)
      then spill (suc (sum load)) place (n / d + 1) load settled
      else none

-- No prior assignment places no vertex.
abbrev pub known : Option (List (Option ℕ)) → List (Option ℕ)
known none = []
known (some prior) = prior

unfoldable pub partition_incremental :
    Unique
    → Argpartition
    → List ℕ
    → List ℕ
    → ℕ
    → ℕ
    → Option (List (Option ℕ))
    → ℕ
    → ℕ
    → Option (List (Option ℕ))
unfolding start_from unplaced touched old_touched old_move clear place_cone
partition_incremental un ap src dst n zero prior lo budget = none
partition_incremental un ap src dst n (suc d) prior lo budget = do
  let a = start_from n (known prior)
  old ← old_touched a (touched un src dst lo)
  olds ← old_move ap a src dst budget old
  let place = unplaced 0 a ++ olds
  if length place == 0
      then some (clear olds a)
      else place_cone n (suc d) src dst place (clear olds a)
