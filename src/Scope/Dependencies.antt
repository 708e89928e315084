-- ===== src/Scope/Dependencies.antt =====
-- Dependency graphs: `assertAcyclic` of packages/runtime/src/scope.ts. A graph is the
-- map from each assignment to its predecessors, in insertion order; ids are numbers. The recursive
-- function `visit` runs on fuel: `out_of_fuel` never comes out of `assert_acyclic`.
pub mod Marks
pub mod Soundness
pub mod Completeness
use foundry_agent_workspace.Base.{
  ℕ, zero, suc, Bool, true, false, ◌||◌, Option, none, some, List, [], ◌∷◌, ◌==◌, if◌then◌else◌,
  Result, ok, err, ◌>>=◌, ◌>>◌, require, any, length,
}

pub data DependencyError : Type 0 where
  cycle unknown_assignment out_of_fuel : DependencyError

pub data Mark : Type 0 where
  visiting done : Mark

abbrev pub Graph : Type 0
Graph = List (ℕ × List ℕ)

abbrev pub Marks : Type 0
Marks = List (ℕ × Mark)

-- `edges.has(node)` and `edges.get(node) ?? []`
unfoldable pub has : Graph → ℕ → Bool
has [] node = false
has ((n, ps) ∷ g) node = n == node || has g node

unfoldable pub predecessors : Graph → ℕ → List ℕ
predecessors [] node = []
predecessors ((n, ps) ∷ g) node = if n == node then ps else predecessors g node

-- `state.get(node)`; `state.set` puts the newer mark in front.
unfoldable pub mark_of : Marks → ℕ → Option Mark
mark_of [] node = none
mark_of ((n, m) ∷ ms) node = if n == node then some m else mark_of ms node

-- The loop over the predecessors of a node; `visit` is the function for one of them.
unfoldable pub visit_all :
    (ℕ → Marks → Result DependencyError Marks)
    → Graph
    → List ℕ
    → Marks
    → Result DependencyError Marks
visit_all visit edges [] ms = ok ms
visit_all visit edges (p ∷ ps) ms = do
  require (has edges p) unknown_assignment
  next ← visit p ms
  visit_all visit edges ps next

abbrev pub finish : ℕ → Result DependencyError Marks → Result DependencyError Marks
finish node (ok ms) = ok ((node, done) ∷ ms)
finish node (err e) = err e

unfoldable pub visit : ℕ → Graph → ℕ → Marks → Result DependencyError Marks
visit zero edges node ms = err out_of_fuel
visit (suc fuel) edges node ms = elim (mark_of ms node) [
  | none ↦
      finish node
        (visit_all (visit fuel edges) edges (predecessors edges node) ((node, visiting) ∷ ms))
  | some done ↦ ok ms
  | some visiting ↦ err cycle
]

-- The loop over the keys.
unfoldable pub visit_keys : ℕ → Graph → Graph → Marks → Result DependencyError Marks
visit_keys fuel edges [] ms = ok ms
visit_keys fuel edges ((n, ps) ∷ g) ms = do
  next ← visit fuel edges n ms
  visit_keys fuel edges g next

unfoldable pub assert_acyclic : Graph → Result DependencyError Marks
assert_acyclic edges = visit_keys (suc (length edges)) edges edges []
