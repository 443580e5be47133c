-- ===== src/Schedule/Dynamic/Idle.antt =====
-- src/zord/schedule/dynamic.py: without new edges and new vertices there is nothing to place.
use zord.Base.{
  ℕ, zero, suc, ◌+◌, ◌≤◌, ◌≡◌, refl, ap, ◌∙◌, Option, some, List, [], ◌∷◌, ◌++◌, length, map, arith,
  ◌==◌, if◌then◌else◌,
}
use zord.Base.Options.{◌>>=◌}
use zord.Datasets.Unique.{Unique}
use zord.Datasets.Argpartition.{Argpartition}
use zord.Schedule.Dynamic.{
  start_from, unplaced, touched, old_touched, old_move, clear, place_cone, partition_incremental,
}

start_from-whole : (prior : List ℕ) → start_from (length prior) (map some prior) ≡ map some prior
unfolding start_from
start_from-whole [] = refl
start_from-whole (c ∷ prior) = ap (λ a. some c ∷ a) (start_from-whole prior)

unplaced-whole : (i : ℕ) (prior : List ℕ) → unplaced i (map some prior) ≡ []
unfolding unplaced
unplaced-whole i [] = refl
unplaced-whole i (c ∷ prior) = unplaced-whole (i + 1) prior

touched-none :
    (un : Unique) (src dst : List ℕ) (lo : ℕ) → length src ≤ lo → touched un src dst lo ≡ []
unfolding touched
touched-none un src dst lo h = ground arith

old_move-none :
    (ap' : Argpartition) (a : List (Option ℕ)) (src dst : List ℕ) (budget : ℕ)
    → old_move ap' a src dst budget [] ≡ some []
unfolding old_move
old_move-none ap' a src dst zero = refl
old_move-none ap' a src dst (suc budget) = ground arith

nothing_placed :
    (np : Argpartition) (src dst : List ℕ) (n d : ℕ) (a : List (Option ℕ)) (budget : ℕ)
    → unplaced 0 a ≡ []
    → (old_move np a src dst budget [] >>= (λ olds.
        if length (unplaced 0 a ++ olds) == 0
        then some (clear olds a)
        else place_cone n (suc d) src dst (unplaced 0 a ++ olds) (clear olds a)))
      ≡ some a
unfolding clear
nothing_placed np src dst n d a budget none_new =
    ap
      (λ m. m >>= (λ olds.
        if length (unplaced 0 a ++ olds) == 0
        then some (clear olds a)
        else place_cone n (suc d) src dst (unplaced 0 a ++ olds) (clear olds a)))
      (old_move-none np a src dst budget)
    ∙ ap (λ u. if length (u ++ []) == 0 then some a else place_cone n (suc d) src dst (u ++ []) a)
        none_new

-- Without new edges, a prior assignment that places every vertex is the result: nothing moves,
-- whatever the budget and the graph.
pub partition_incremental-idle :
    (un : Unique) (np : Argpartition) (src dst : List ℕ) (d : ℕ) (prior : List ℕ) (lo budget : ℕ)
    → length src ≤ lo
    → partition_incremental un np src dst (length prior) (suc d) (some (map some prior)) lo budget
      ≡ some (map some prior)
unfolding partition_incremental old_touched
partition_incremental-idle un np src dst d prior lo budget h = rw (touched-none un src dst lo h) (
    rw (start_from-whole prior)
      (nothing_placed np src dst (length prior) d (map some prior) budget (unplaced-whole 0 prior)))
