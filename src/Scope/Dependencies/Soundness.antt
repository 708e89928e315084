-- ===== src/Scope/Dependencies/Soundness.antt =====
-- A graph that `assertAcyclic` (packages/runtime/src/scope.ts) accepts has no cycle.
use mathlib.Core.WellFounded.{Acc}
use foundry_agent_workspace.Base.{
  Result-cases, ℕ, zero, suc, ◌≡◌, refl, sym, subst, ◌⊎◌, inl, inr, true, some, List, [], ◌∷◌, ◌==◌,
  arith, Bool-cases, Result, ok, Memᴰ, All, length, ==_iff,
}
use foundry_agent_workspace.Scope.Dependencies.{
  DependencyError, visiting, done, Graph, Marks, has, predecessors, mark_of, visit, visit_keys,
  assert_acyclic,
}
use foundry_agent_workspace.Scope.Dependencies.Marks.{
  before, now, visit-Went, WentAll, none_left, one_more, visit_all-WentAll, visit-Visited, Grows,
  Grows-refl, Grows-trans,
}

-- One assignment comes before another in one or more dependency steps.
pub data DependsOn (edges : Graph) : ℕ → ℕ → Type 0 where
  direct : {n p : ℕ} → Memᴰ p (predecessors edges n) → DependsOn edges n p
  through : {n m p : ℕ} → DependsOn edges n m → Memᴰ p (predecessors edges m) → DependsOn edges n p

module _ (edges : Graph) where
  abbrev Precedes : ℕ → ℕ → Type 0
  Precedes p n = Memᴰ p (predecessors edges n)

  -- Every chain of predecessors from the node ends, and every direct predecessor is a node.
  record Settled (n : ℕ) : Type 0 where
    grounded : Acc Precedes n
    known : All (λ p. has edges p ≡ true) (predecessors edges n)

  abbrev DoneSettled : Marks → Type 0
  DoneSettled ms = (k : ℕ) → mark_of ms k ≡ some done → Settled k

  Acc_of_mem : (ps : List ℕ) (p : ℕ) → All (Acc Precedes) ps → Memᴰ p ps → Acc Precedes p
  Acc_of_mem [] p a m = elim m [ ]
  Acc_of_mem (q ∷ ps) p a (Memᴰ.head e) = rw e a.0
  Acc_of_mem (q ∷ ps) p a (Memᴰ.tail m) = Acc_of_mem ps p a.1 m

  -- What the loop over the predecessors leaves behind.
  record LoopLeft (ps : List ℕ) (ms ms' : Marks) : Type 0 where
    settled : DoneSettled ms'
    grounded : All (Acc Precedes) ps
    known : All (λ p. has edges p ≡ true) ps

  loop-LoopLeft :
      {visit_one : ℕ → Marks → Result DependencyError Marks} {ps : List ℕ} {ms ms' : Marks}
      → ((p : ℕ) (a b : Marks)
          → visit_one p a ≡ ok b
          → DoneSettled a
          → DoneSettled b × (mark_of b p ≡ some done))
      → WentAll visit_one edges ps ms ms'
      → DoneSettled ms
      → LoopLeft ps ms ms'
  loop-LoopLeft each none_left s = record { settled = s; grounded = tt; known = tt }
  loop-LoopLeft each (one_more {p = p} {ms = a} {next = b} known good rest) s =
      let (s', d) = each p a b good s in
      let left = loop-LoopLeft each rest s' in
      record {
        settled = left.settled;
        grounded = ((s' p d).grounded, left.grounded);
        known = (known, left.known);
      }

  visiting-DoneSettled :
      (node : ℕ) (ms : Marks) → DoneSettled ms → DoneSettled ((node, visiting) ∷ ms)
  unfolding mark_of
  visiting-DoneSettled node ms s k e = s k (ground arith)

  done-DoneSettled :
      (node : ℕ) (ms : Marks) → DoneSettled ms → Settled node → DoneSettled ((node, done) ∷ ms)
  unfolding mark_of
  done-DoneSettled node ms s n k e = elim (Bool-cases (node == k)) [
    | inl hit ↦ subst Settled ((==_iff node k).0 hit) n
    | inr miss ↦ s k (ground arith)
  ]

  visit-DoneSettled :
      (fuel node : ℕ) (ms ms' : Marks)
      → visit fuel edges node ms ≡ ok ms'
      → DoneSettled ms
      → DoneSettled ms'
  visit-DoneSettled zero node ms ms' e s = unfold visit in absurd (cc)
  visit-DoneSettled (suc fuel) node ms ms' e s = elim (visit-Went fuel edges node ms ms' e) [
    | before d same ↦ subst DoneSettled (sym same) s
    | now next fresh went same ↦
        let left =
          loop-LoopLeft
            (λ p a b good s'.
              (visit-DoneSettled fuel p a b good s', (visit-Visited fuel edges p a b good).is_done))
            (visit_all-WentAll (visit fuel edges) edges (predecessors edges node)
              ((node, visiting) ∷ ms) next went)
            (visiting-DoneSettled node ms s) in
        subst DoneSettled (sym same) (
          done-DoneSettled node next left.settled (record {
            grounded =
                Acc.intro node (λ p m. Acc_of_mem (predecessors edges node) p left.grounded m);
            known = left.known;
          }))
  ]

  visit_keys-done :
      (fuel : ℕ) (g : Graph) (ms ms' : Marks)
      → visit_keys fuel edges g ms ≡ ok ms'
      → DoneSettled ms
      → DoneSettled ms' × Grows ms ms' × ((n : ℕ) → has g n ≡ true → mark_of ms' n ≡ some done)
  unfolding visit_keys has
  visit_keys-done fuel [] ms ms' e s =
      let same : ms ≡ ms' = ground arith in
      (subst DoneSettled same s, subst (Grows ms) same (Grows-refl ms), λ n h. absurd (cc))
  visit_keys-done fuel ((n, ps) ∷ g) ms ms' e s = elim (Result-cases (visit fuel edges n ms)) [
    | inr (f, bad) ↦ absurd (ground (arith, bad))
    | inl (next, good) ↦
        let v = visit-Visited fuel edges n ms next good in
        let (s', grows, all) =
          visit_keys-done fuel g next ms' (ground (arith, good))
            (visit-DoneSettled fuel n ms next good s) in
        (
          s',
          Grows-trans v.grows grows,
          λ k h. elim (Bool-cases (n == k)) [
            | inl hit ↦
                grows.kept k done
                  (subst (λ j. mark_of next j ≡ some done) ((==_iff n k).0 hit) v.is_done)
            | inr miss ↦ all k (ground arith)
          ],
        )
  ]

  first_step :
      {n q : ℕ}
      → DependsOn edges n q
      → (p : ℕ) × Memᴰ p (predecessors edges n) × ((p ≡ q) ⊎ DependsOn edges p q)
  first_step (direct {p = p} m) = (p, m, inl refl)
  first_step (through {m = k} {p = q} d m) =
      let (p, start, rest) = first_step d in
      (
        p,
        start,
        elim rest [
          | inl e ↦ inr (direct (subst (λ j. Memᴰ q (predecessors edges j)) (sym e) m))
          | inr d' ↦ inr (through d' m)
        ],
      )

  Acc-no_cycle : (n : ℕ) → Acc Precedes n → ¬ DependsOn edges n n
  Acc-no_cycle n (Acc.intro _ smaller) d =
      let (p, m, rest) = first_step d in
      elim rest [
        | inl e ↦ Acc-no_cycle p (smaller p m) (subst (λ j. DependsOn edges j j) (sym e) d)
        | inr d' ↦ Acc-no_cycle p (smaller p m) (through d' m)
      ]

-- An accepted graph names only its own nodes as predecessors, and no node depends on itself, however
-- many steps away.
pub assert_acyclic_sound :
    (edges : Graph) (ms : Marks) (n : ℕ)
    → assert_acyclic edges ≡ ok ms
    → has edges n ≡ true
    → All (λ p. has edges p ≡ true) (predecessors edges n) × ¬ DependsOn edges n n
unfolding assert_acyclic
assert_acyclic_sound edges ms n e h =
    let (settled, _, all) =
      visit_keys-done edges (suc (length edges)) edges [] ms e
        (λ k d. absurd (unfold mark_of in cc)) in
    let s = settled n (all n h) in (s.known, Acc-no_cycle edges n s.grounded)
