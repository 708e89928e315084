-- ===== src/Scope/Dependencies/Completeness.antt =====
-- Whatever `assertAcyclic` (packages/runtime/src/scope.ts) refuses is at fault, and its recursion
-- always ends.
use foundry_agent_workspace.Base.{
  Result-cases, ℕ, zero, suc, ◌+◌, ◌≤◌, ◌<◌, ◌≡◌, ◌≢◌, refl, sym, subst, ◌∙◌, ◌⊎◌, inl, inr, true,
  false, none, some, List, [], ◌∷◌, ◌==◌, arith, Bool-cases, err, Memᴰ, length, ==_iff,
}
use foundry_agent_workspace.Scope.Dependencies.{
  DependencyError, cycle, unknown_assignment, Mark, visiting, done, Graph, Marks, has, predecessors,
  mark_of, visit_all, visit, visit_keys, assert_acyclic,
}
use foundry_agent_workspace.Scope.Dependencies.Marks.{Mark-cases, visit-Visited, Grows}
use foundry_agent_workspace.Scope.Dependencies.Soundness.{DependsOn, direct, through}

-- The nodes of a list of edges that have no mark yet.
unmarked : Graph → Marks → ℕ
unmarked [] ms = 0
unmarked ((n, ps) ∷ g) ms = (elim (mark_of ms n) [ none ↦ 1 | some m ↦ 0 ]) + unmarked g ms

unmarked-Grows : (g : Graph) (a b : Marks) → Grows a b → unmarked g b ≤ unmarked g a
unfolding unmarked
unmarked-Grows [] a b gr = omega arith
unmarked-Grows ((n, ps) ∷ g) a b gr =
    ground (arith, unmarked-Grows g a b gr, gr.kept n visiting, gr.kept n done)

unmarked_mark_le :
    (g : Graph) (n : ℕ) (m : Mark) (ms : Marks) → unmarked g ((n, m) ∷ ms) ≤ unmarked g ms
unfolding unmarked mark_of
unmarked_mark_le [] n m ms = omega arith
unmarked_mark_le ((k, ps) ∷ g) n m ms = ground (arith, unmarked_mark_le g n m ms)

unmarked_mark :
    (g : Graph) (n : ℕ) (m : Mark) (ms : Marks)
    → has g n ≡ true
    → mark_of ms n ≡ none
    → unmarked g ((n, m) ∷ ms) < unmarked g ms
unfolding unmarked mark_of has
unmarked_mark [] n m ms h e = cc
unmarked_mark ((k, ps) ∷ g) n m ms h e = elim (Bool-cases (k == n)) [
  | inl hit ↦
      let same : mark_of ms k ≡ none = rw ((==_iff k n).0 hit) e in
      ground (arith, unmarked_mark_le g n m ms, same)
  | inr miss ↦ ground (arith, unmarked_mark g n m ms, unmarked_mark_le g n m ms)
]

mark_of_behind :
    (n k : ℕ) (m : Mark) (ms : Marks) → (n == k) ≡ false → mark_of ((n, m) ∷ ms) k ≡ mark_of ms k
unfolding mark_of
mark_of_behind n k m ms miss = ground arith

module _ (edges : Graph) where
  -- A refusal names a real fault of the graph.
  pub data Fault : DependencyError → Type 0 where
    has_cycle : (k : ℕ) → DependsOn edges k k → Fault cycle
    has_unknown :
        (n p : ℕ) → Memᴰ p (predecessors edges n) → has edges p ≡ false → Fault unknown_assignment

  -- Every node on the path depends on the node that is visited.
  abbrev PathTo : ℕ → Marks → Type 0
  PathTo n ms = (k : ℕ) → mark_of ms k ≡ some visiting → DependsOn edges k n

  loop-Fault :
      (fuel n : ℕ) (ps : List ℕ) (ms : Marks) (e : DependencyError)
      → ((p : ℕ) (a : Marks) (f : DependencyError)
          → has edges p ≡ true
          → unmarked edges a < fuel
          → PathTo p a
          → visit fuel edges p a ≡ err f
          → Fault f)
      → ((p : ℕ) → Memᴰ p ps → Memᴰ p (predecessors edges n))
      → unmarked edges ms < fuel
      → ((k : ℕ) → mark_of ms k ≡ some visiting → (k ≡ n) ⊎ DependsOn edges k n)
      → visit_all (visit fuel edges) edges ps ms ≡ err e
      → Fault e
  unfolding visit_all
  loop-Fault fuel n [] ms e each inside small path h = absurd (cc)
  loop-Fault fuel n (p ∷ ps) ms e each inside small path h = elim (Bool-cases (has edges p)) [
    | inr missing ↦
        let same : unknown_assignment ≡ e = ground (arith, missing) in
        subst Fault same (has_unknown n p (inside p (Memᴰ.head refl)) missing)
    | inl known ↦ elim (Result-cases (visit fuel edges p ms)) [
      | inr (f, bad) ↦
          let same : f ≡ e = ground (arith, known, bad) in
          subst Fault same (
            each p ms f known small
              (λ k v. elim (path k v) [
                | inl at ↦ direct (
                    subst (λ j. Memᴰ p (predecessors edges j)) (sym at) (inside p (Memᴰ.head refl)))
                | inr d ↦ through d (inside p (Memᴰ.head refl))
              ])
              bad)
      | inl (next, good) ↦
          let v = visit-Visited fuel edges p ms next good in
          loop-Fault fuel n ps next e each (λ q m. inside q (Memᴰ.tail m))
            (omega (arith, unmarked-Grows edges ms next v.grows))
            (λ k on. path k (v.grows.no_new_visiting k on)) (ground (arith, known, good))
    ]
  ]

  visit-Fault :
      (fuel n : ℕ) (ms : Marks) (e : DependencyError)
      → has edges n ≡ true
      → unmarked edges ms < fuel
      → PathTo n ms
      → visit fuel edges n ms ≡ err e
      → Fault e
  unfolding visit
  visit-Fault zero n ms e known small path h = elim small [ ]
  visit-Fault (suc fuel) n ms e known small path h = elim (Mark-cases (mark_of ms n)) [
    | inr (inl d) ↦ absurd (ground (arith, d))
    | inr (inr v) ↦
        let same : cycle ≡ e = ground (arith, v) in subst Fault same (has_cycle n (path n v))
    | inl fresh ↦
        loop-Fault fuel n (predecessors edges n) ((n, visiting) ∷ ms) e (visit-Fault fuel)
          (λ p m. m) (omega (arith, unmarked_mark edges n visiting ms known fresh))
          (λ k on. elim (Bool-cases (n == k)) [
            | inl hit ↦ inl (sym ((==_iff n k).0 hit))
            | inr miss ↦ inr (path k (sym (mark_of_behind n k visiting ms miss) ∙ on))
          ])
          (ground (arith, fresh))
  ]

  visit_keys-Fault :
      (fuel : ℕ) (g : Graph) (ms : Marks) (e : DependencyError)
      → ((n : ℕ) → has g n ≡ true → has edges n ≡ true)
      → unmarked edges ms < fuel
      → ((k : ℕ) → mark_of ms k ≢ some visiting)
      → visit_keys fuel edges g ms ≡ err e
      → Fault e
  unfolding visit_keys has
  visit_keys-Fault fuel [] ms e keys small idle h = absurd (cc)
  visit_keys-Fault fuel ((n, ps) ∷ g) ms e keys small idle h =
      elim (Result-cases (visit fuel edges n ms)) [
        | inr (f, bad) ↦
            let same : f ≡ e = ground (arith, bad) in
            subst Fault same (
              visit-Fault fuel n ms f (keys n (ground arith)) small (λ k on. absurd (idle k on))
                bad)
        | inl (next, good) ↦
            let v = visit-Visited fuel edges n ms next good in
            visit_keys-Fault fuel g next e (λ k on. keys k (ground (arith, on)))
              (omega (arith, unmarked-Grows edges ms next v.grows))
              (λ k on. idle k (v.grows.no_new_visiting k on)) (ground (arith, good))
      ]

unmarked-nil : (g : Graph) → unmarked g [] ≡ length g
unfolding unmarked mark_of
unmarked-nil [] = refl
unmarked-nil ((n, ps) ∷ g) = omega (arith, unmarked-nil g)

-- A refused graph has the fault that the error names: a node that depends on itself, or a
-- predecessor that is no node. So the recursion never runs out of its fuel, one more than there are
-- nodes.
pub assert_acyclic_complete :
    (edges : Graph) (e : DependencyError) → assert_acyclic edges ≡ err e → Fault edges e
unfolding assert_acyclic
assert_acyclic_complete edges e h =
    visit_keys-Fault edges (suc (length edges)) edges [] e (λ n k. k)
      (omega (arith, unmarked-nil edges)) (λ k on. unfold mark_of in cc) h
