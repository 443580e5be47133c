-- ===== src/Schedule/Online/Dependency.antt =====
-- src/zord/schedule/dynamic_online.py: the event-dependency graph of the new events. The native kernel
-- is a parameter, which gives no answer where it is absent or fails; -1 is `none`.
pub mod Last
pub mod Latest
use zord.Base.{
  ℕ, zero, suc, ◌+◌, ◌-◌, ◌^◌, Bool, ◌&&◌, Option, none, some, List, [], ◌∷◌, ◌++◌, ◌==◌,
  if◌then◌else◌, ltb, length, get_or, min,
}
use zord.Base.Dict.{get, put}
use zord.Base.Rows.{drop}
use zord.Datasets.Unique.{Unique}
use zord.Datasets.TemporalGraph.{bound}

pub record EventDependencyGraph : Type 0 where
  pub ear : List (Option ℕ)
  pub cone : List ℕ
  pub depth : List ℕ

-- `pu if pu > pv else pv`
unfoldable pub later : Option ℕ → Option ℕ → Option ℕ
later none q = q
later (some p) none = some p
later (some p) (some q) = if ltb q p then some p else some q

unfoldable pub depth_after : List ℕ → Option ℕ → ℕ
depth_after depth none = 0
depth_after depth (some p) = get_or depth p 0 + 1

-- The forward pass from the event `i` on, with what was seen last and the depths so far.
unfoldable pub pass : ℕ → List ℕ → List ℕ → List (ℕ × ℕ) → List ℕ → List (Option ℕ) × List ℕ
unfolding later depth_after get put
pass i (u ∷ ns) (v ∷ nd) seen depth =
    let p = later (get u seen) (get v seen) in
    let (ear, depths) =
      pass (i + 1) ns nd (put v i (put u i seen)) (depth ++ (depth_after depth p ∷ [])) in
    (p ∷ ear, depths)
pass i _ _ seen depth = ([], depth)

abbrev pub Kernel : Type 0
Kernel = List ℕ → List ℕ → ℕ → Option EventDependencyGraph

unfoldable pub by_pass : Unique → List ℕ → List ℕ → EventDependencyGraph
unfolding pass
by_pass un ns nd =
    let (ear, depth) = pass 0 ns nd [] [] in
    record { ear = ear; cone = un.unique (ns ++ nd); depth = depth }

unfoldable pub build_event_dependency : Unique → Kernel → List ℕ → List ℕ → ℕ → EventDependencyGraph
unfolding by_pass bound
build_event_dependency un kernel src dst new_edge_lo =
    let lo = min new_edge_lo (length src) in
    let fallback = by_pass un (drop lo src) (drop lo dst) in
    if length src - lo == 0
    then record { ear = []; cone = []; depth = [] }
    else if ltb (bound src) (2 ^ 31 + 1) && ltb (bound dst) (2 ^ 31 + 1)
    then elim (kernel src dst lo) [ none ↦ fallback | some answer ↦ answer ]
    else fallback
