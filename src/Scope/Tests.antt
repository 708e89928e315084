-- ===== src/Scope/Tests.antt =====
-- The cases of packages/runtime/tests/scope.test.ts, and the scope theorems at concrete paths.
use foundry_agent_workspace.Base.{
  ◌≡◌, refl, ◌⊎◌, ◌↔◌, true, false, [], ◌∷◌, ok, err, Memᴰ, All, Text, codes, text_eq, starts_with,
  ends_with, lower, split,
}
use foundry_agent_workspace.Scope.{
  whole_repository, not_relative, bad_segment, not_permitted, case_clash, portable, strip_slashes,
  secret_name, reserved_windows_name, ends_dot_or_space, is_forbidden_unit, check_segment,
  check_segments, check_path, normalize_scope_path, covers, in_scope, scopes_overlap, normalize_all,
  distinct_from, check_keys, text_le, insert_sorted, sort, normalize_scope,
}
use foundry_agent_workspace.Scope.Segments.{segments, Within, covers_segments}
use foundry_agent_workspace.Scope.Overlap.{Below, disjoint_scopes}
use foundry_agent_workspace.Scope.Paths.{SafePath, normalize_scope_path-SafePath, in_scope_sound}
use foundry_agent_workspace.Scope.Dependencies.{
  Graph, Marks, visiting, done, cycle, unknown_assignment, has, predecessors, mark_of, visit_all,
  visit, visit_keys, assert_acyclic,
}
use foundry_agent_workspace.Scope.Dependencies.Soundness.{DependsOn, assert_acyclic_sound}
use foundry_agent_workspace.Scope.Dependencies.Completeness.{Fault, assert_acyclic_complete}

scopes : Unit {0}
unfolding text_eq starts_with ends_with lower split portable strip_slashes secret_name
    reserved_windows_name ends_dot_or_space is_forbidden_unit check_segment check_segments
    check_path normalize_scope_path covers in_scope scopes_overlap normalize_all distinct_from
    check_keys text_le insert_sorted sort normalize_scope
scopes = tt

accepted_paths :
    (normalize_scope_path (codes "src\\feature\\") false ≡ ok (codes "src/feature"))
    × (normalize_scope_path (codes "") true ≡ ok [])
    × (normalize_scope_path (codes "") false ≡ err whole_repository)
    × (normalize_scope_path (codes "a/../b") false ≡ err bad_segment)
    × (normalize_scope_path (codes "/abs") false ≡ err not_relative)
    × (normalize_scope_path (codes "C:x") false ≡ err not_relative)
    × (normalize_scope_path (codes "src/.GIT/x") false ≡ err not_permitted)
    × (normalize_scope_path (codes "config/.env") false ≡ err not_permitted)
    × (normalize_scope_path (codes "cert.pem") false ≡ err not_permitted)
    × (normalize_scope_path (codes "nul.txt") false ≡ err not_permitted)
    × (normalize_scope_path (codes "trailing.") false ≡ err not_permitted)
    × (normalize_scope (codes "src" ∷ codes "SRC" ∷ []) false ≡ err case_clash)
    × (normalize_scope (codes "src" ∷ codes "docs/" ∷ codes "src/" ∷ []) false
        ≡ ok (codes "docs" ∷ codes "src" ∷ []))
unfolding scopes
accepted_paths = (refl, refl, refl, refl, refl, refl, refl, refl, refl, refl, refl, refl, refl)

containment :
    (covers (codes "src") (codes "SRC/A.ts") ≡ true)
    × (covers (codes "src") (codes "src2/a.ts") ≡ false)
    × (covers (codes "src/a.ts") (codes "src/a.ts.bak") ≡ false)
    × (in_scope (codes "docs" ∷ []) (codes "docs/../secrets.txt") ≡ false)
    × (in_scope (codes "docs" ∷ []) (codes "docs/guide.md") ≡ true)
    × (scopes_overlap (codes "src/a.ts" ∷ []) (codes "SRC" ∷ []) ≡ true)
    × (scopes_overlap (codes "src/a" ∷ []) (codes "src/ab" ∷ []) ≡ false)
unfolding scopes
containment = (refl, refl, refl, refl, refl, refl, refl)

covers_segments_example : (covers (codes "src") (codes "src\\a") ≡ true) ↔ (
    (codes "src" ≡ [])
    ⊎ Within (segments (lower (codes "src"))) (segments (lower (portable (codes "src\\a")))))
covers_segments_example = covers_segments (codes "src") (codes "src\\a")

disjoint_scopes_example : in_scope (codes "src/ab" ∷ []) (codes "src\\a\\x.ts") ≡ false
unfolding scopes
disjoint_scopes_example =
    disjoint_scopes (codes "src/a" ∷ []) (codes "src/ab" ∷ []) (codes "src\\a\\x.ts") refl refl

normalize_scope_path-SafePath_example :
    ((codes "src/feature" ≡ []) × (false ≡ true)) ⊎ SafePath (codes "src/feature")
unfolding scopes
normalize_scope_path-SafePath_example =
    normalize_scope_path-SafePath (codes "src\\feature\\") false (codes "src/feature") refl

in_scope_sound_example :
    (p : Text) × (scope : Text) × (normalize_scope_path (codes "Docs\\guide.md") false ≡ ok p)
    × SafePath p
    × Memᴰ scope (codes "docs" ∷ [])
    × Below (lower scope) (lower p)
unfolding scopes
in_scope_sound_example = in_scope_sound (codes "docs" ∷ []) (codes "Docs\\guide.md") refl

abbrev chain : Graph
chain = (1, []) ∷ (2, 1 ∷ []) ∷ (3, 2 ∷ 1 ∷ []) ∷ []

abbrev chain_marks : Marks
chain_marks = (3, done) ∷ (3, visiting) ∷ (2, done) ∷ (2, visiting) ∷ (1, done) ∷ (1, visiting) ∷ []

abbrev ring : Graph
ring = (1, 2 ∷ []) ∷ (2, 1 ∷ []) ∷ []

graphs : Unit {0}
unfolding has predecessors mark_of visit_all visit visit_keys assert_acyclic
graphs = tt

dependency_graphs :
    (assert_acyclic ring ≡ err cycle) × (assert_acyclic ((1, 9 ∷ []) ∷ []) ≡ err unknown_assignment)
unfolding graphs
dependency_graphs = (refl, refl)

assert_acyclic_sound_example :
    All (λ p. has chain p ≡ true) (predecessors chain 3) × ¬ DependsOn chain 3 3
unfolding graphs
assert_acyclic_sound_example = assert_acyclic_sound chain chain_marks 3 refl refl

assert_acyclic_complete_example : Fault ring cycle
unfolding graphs
assert_acyclic_complete_example = assert_acyclic_complete ring cycle refl
