-- ===== src/Scope/Dependencies/Marks.antt =====
-- What a call of `visit` in `assertAcyclic` (packages/runtime/src/scope.ts) does to the marks.
use foundry_agent_workspace.Base.{
  Result-cases, ℕ, zero, suc, ◌≡◌, refl, subst, ◌⊎◌, inl, inr, true, Option, none, some, List, [],
  ◌∷◌, arith, Bool-cases, Result, ok,
}
use foundry_agent_workspace.Scope.Dependencies.{
  DependencyError, Mark, visiting, done, Graph, Marks, has, predecessors, mark_of, visit_all, visit,
}

-- Marks are never taken back, and no node is left newly on the path.
pub record Grows (ms ms' : Marks) : Type 0 where
  pub kept : (k : ℕ) (m : Mark) → mark_of ms k ≡ some m → mark_of ms' k ≡ some m
  pub no_new_visiting : (k : ℕ) → mark_of ms' k ≡ some visiting → mark_of ms k ≡ some visiting

pub Grows-refl : (ms : Marks) → Grows ms ms
Grows-refl ms = record { kept = λ k m e. e; no_new_visiting = λ k e. e }

pub Grows-trans : {a b c : Marks} → Grows a b → Grows b c → Grows a c
Grows-trans g h = record {
  kept = λ k m e. h.kept k m (g.kept k m e);
  no_new_visiting = λ k e. g.no_new_visiting k (h.no_new_visiting k e);
}

pub Mark-cases : (o : Option Mark) → (o ≡ none) ⊎ ((o ≡ some done) ⊎ (o ≡ some visiting))
Mark-cases none = inl refl
Mark-cases (some done) = inr (inl refl)
Mark-cases (some visiting) = inr (inr refl)

-- How a call of `visit` that returns went: the node was done already, or its predecessors were
-- visited with the node on the path.
pub data Went (fuel : ℕ) (edges : Graph) (node : ℕ) (ms ms' : Marks) : Type 0 where
  before : mark_of ms node ≡ some done → ms' ≡ ms → Went fuel edges node ms ms'
  now :
      (next : Marks)
      → mark_of ms node ≡ none
      → visit_all (visit fuel edges) edges (predecessors edges node) ((node, visiting) ∷ ms)
        ≡ ok next
      → ms' ≡ (node, done) ∷ next
      → Went fuel edges node ms ms'

pub visit-Went :
    (fuel : ℕ) (edges : Graph) (node : ℕ) (ms ms' : Marks)
    → visit (suc fuel) edges node ms ≡ ok ms'
    → Went fuel edges node ms ms'
unfolding visit
visit-Went fuel edges node ms ms' e = elim (Mark-cases (mark_of ms node)) [
  | inr (inl d) ↦ before d (ground (arith, d))
  | inr (inr v) ↦ absurd (ground (arith, v))
  | inl fresh ↦
      elim (Result-cases
        (visit_all (visit fuel edges) edges (predecessors edges node) ((node, visiting) ∷ ms))) [
          | inl (next, went) ↦ now next fresh went (ground (arith, fresh, went))
          | inr (f, went) ↦ absurd (ground (arith, fresh, went))
        ]
]

-- The loop over the predecessors that returns.
pub data WentAll (visit_one : ℕ → Marks → Result DependencyError Marks) (edges : Graph)
    : List ℕ → Marks → Marks → Type 0 where
  none_left : {ms : Marks} → WentAll visit_one edges [] ms ms
  one_more :
      {p : ℕ} {ps : List ℕ} {ms next ms' : Marks}
      → has edges p ≡ true
      → visit_one p ms ≡ ok next
      → WentAll visit_one edges ps next ms'
      → WentAll visit_one edges (p ∷ ps) ms ms'

pub visit_all-WentAll :
    (visit_one : ℕ → Marks → Result DependencyError Marks) (edges : Graph) (ps : List ℕ)
    (ms ms' : Marks)
    → visit_all visit_one edges ps ms ≡ ok ms'
    → WentAll visit_one edges ps ms ms'
unfolding visit_all
visit_all-WentAll visit_one edges [] ms ms' e =
    let same : ms ≡ ms' = ground arith in subst (WentAll visit_one edges [] ms) same none_left
visit_all-WentAll visit_one edges (p ∷ ps) ms ms' e = elim (Bool-cases (has edges p)) [
  | inr missing ↦ absurd (ground (arith, missing))
  | inl known ↦ elim (Result-cases (visit_one p ms)) [
    | inr (f, bad) ↦ absurd (ground (arith, known, bad))
    | inl (next, good) ↦
        one_more known good
          (visit_all-WentAll visit_one edges ps next ms' (ground (arith, known, good)))
  ]
]

-- Every call of `visit` that returns marks its node as done and otherwise only grows the marks.
pub record Visited (node : ℕ) (ms ms' : Marks) : Type 0 where
  pub grows : Grows ms ms'
  pub is_done : mark_of ms' node ≡ some done

WentAll-Grows :
    {visit_one : ℕ → Marks → Result DependencyError Marks} {edges : Graph} {ps : List ℕ}
    {ms ms' : Marks}
    → ((p : ℕ) (a b : Marks) → visit_one p a ≡ ok b → Visited p a b)
    → WentAll visit_one edges ps ms ms'
    → Grows ms ms'
WentAll-Grows each none_left = Grows-refl _
WentAll-Grows each (one_more known good rest) =
    Grows-trans (each _ _ _ good).grows (WentAll-Grows each rest)

finished_Grows :
    (node : ℕ) (ms next : Marks)
    → mark_of ms node ≡ none
    → Grows ((node, visiting) ∷ ms) next
    → Grows ms ((node, done) ∷ next)
unfolding mark_of
finished_Grows node ms next fresh g = record {
  kept = λ k m e. ground (arith, g.kept k m);
  no_new_visiting = λ k e. ground (arith, g.no_new_visiting k);
}

pub visit-Visited :
    (fuel : ℕ) (edges : Graph) (node : ℕ) (ms ms' : Marks)
    → visit fuel edges node ms ≡ ok ms'
    → Visited node ms ms'
visit-Visited zero edges node ms ms' e = unfold visit in absurd (cc)
visit-Visited (suc fuel) edges node ms ms' e = elim (visit-Went fuel edges node ms ms' e) [
  | before d same ↦ record { grows = rw same (Grows-refl ms); is_done = rw same d }
  | now next fresh went same ↦
      let inner = WentAll-Grows (visit-Visited fuel edges) (
        visit_all-WentAll (visit fuel edges) edges (predecessors edges node) ((node, visiting) ∷ ms)
          next went) in
      rw same (record {
        grows = finished_Grows node ms next fresh inner;
        is_done = unfold mark_of in ground arith;
      })
]
