-- ===== src/Runs/Admission.antt =====
-- The bound on admitted children of packages/runtime/src/schema.ts (trigger
-- agent_runs_admission_bound) over the agent_runs methods of orchestration-records.ts.
use foundry_agent_workspace.Base.{
  ℕ, ◌+◌, ◌≤◌, ◌<◌, ok, ==_iff, if◌then◌else◌, subst, ◌≡◌, inl, inr, Bool, true, List, [], ◌∷◌,
  ◌++◌, ◌==◌, arith, Bool-cases, Result-cases, filter, update, length, length-append, filter-append,
}
use foundry_agent_workspace.Runs.{
  AgentRun, is_active_child, active_children, max_admitted_children, insert_coordinator_run,
  insert_child_run, set_lifecycle, finish_run, fence, advance_generation, new_coordinator,
  new_child, open_run, finished_row, fenced_row, advanced_row, of_task, not_cancelled,
}
use foundry_agent_workspace.Runs.Lifecycle.{
  RunOp, inserts_coordinator, inserts_child, sets_lifecycle, finishes, fences, advances, Typed,
  after, step, steps,
}

-- An update that makes no row an active child of the root adds none.
active-update :
    (root : ℕ) (p : AgentRun → Bool) (g : AgentRun → AgentRun) (rs : List AgentRun)
    → ((r : AgentRun)
        → p r ≡ true
        → is_active_child root (g r) ≡ true
        → is_active_child root r ≡ true)
    → length (filter (is_active_child root) (update p g rs))
      ≤ length (filter (is_active_child root) rs)
active-update root p g [] keep = omega arith
active-update root p g (r ∷ rs) keep = elim (Bool-cases (p r)) [
  | inl hit ↦ elim (Bool-cases (is_active_child root (g r))) [
    | inl active ↦ ground (arith, hit, active, keep r hit active, active-update root p g rs keep)
    | inr idle ↦ ground (arith, hit, idle, active-update root p g rs keep)
  ]
  | inr miss ↦ ground (arith, miss, active-update root p g rs keep)
]

pub insert_child_run-admitted :
    (rs rs' : List AgentRun) (root task a : ℕ)
    → insert_child_run rs root task a ≡ ok rs'
    → (rs' ≡ rs ++ new_child root task a ∷ []) × (active_children rs root < max_admitted_children)
unfolding insert_child_run
insert_child_run-admitted rs rs' root task a e = (ground arith, ground arith)

active-append :
    (k : ℕ) (rs : List AgentRun) (r : AgentRun)
    → active_children (rs ++ r ∷ []) k
      ≡ active_children rs k + (if is_active_child k r then 1 else 0)
unfolding active_children
active-append k rs r = ground (
  arith,
  filter-append (is_active_child k) rs (r ∷ []),
  length-append (filter (is_active_child k) rs) (filter (is_active_child k) (r ∷ [])),
)

insert_child-active :
    (rs : List AgentRun) (root task a k : ℕ)
    → active_children rs k ≤ max_admitted_children
    → active_children (after rs (insert_child_run rs root task a)) k ≤ max_admitted_children
insert_child-active rs root task a k bound = elim (Result-cases (insert_child_run rs root task a)) [
  | inr (f, e) ↦ rw e bound
  | inl (rs', e) ↦
      let i = insert_child_run-admitted rs rs' root task a e in
      let grown = active-append k rs (new_child root task a) in
      elim (Bool-cases (root == k)) [
        | inl mine ↦
            rw (e, i.0)
              (let below : active_children rs k < max_admitted_children =
                  subst (λ j. active_children rs j < max_admitted_children) ((==_iff root k).0 mine)
                    i.1 in
                ground (arith, grown, below))
        | inr other ↦ rw (e, i.0) (ground (arith, grown, other, bound))
      ]
]

insert_coordinator-active :
    (rs : List AgentRun) (root k : ℕ)
    → active_children (after rs (insert_coordinator_run rs root)) k ≤ active_children rs k
unfolding insert_coordinator_run
insert_coordinator-active rs root k = ground (arith, active-append k rs (new_coordinator root))

step-active :
    (rs : List AgentRun) (o : RunOp) (k : ℕ)
    → Typed o
    → active_children rs k ≤ max_admitted_children
    → active_children (step rs o) k ≤ max_admitted_children
unfolding step set_lifecycle finish_run fence advance_generation active_children
step-active rs (inserts_coordinator root) k t bound =
    omega (arith, bound, insert_coordinator-active rs root k)
step-active rs (inserts_child root task a) k t bound = insert_child-active rs root task a k bound
step-active rs (sets_lifecycle task lifecycle reason) k t bound = omega (
  arith,
  bound,
  active-update k (open_run task) (λ r. record r { lifecycle = lifecycle; wait_reason = reason }) rs
      (λ r o e. ground (arith, o, e)),
)
step-active rs (finishes task outcome) k t bound = omega (
  arith,
  bound,
  active-update k (open_run task) (finished_row outcome) rs (λ r o e. ground (arith, o, e)),
)
step-active rs (fences task) k t bound =
    ground (arith, bound, active-update k (of_task task) fenced_row rs (λ r o e. e))
step-active rs (advances task) k t bound =
    ground (arith, bound, active-update k (not_cancelled task) advanced_row rs (λ r o e. e))

-- The calls of a sequence are all ones that the argument types of the source allow.
abbrev pub AllTyped : List RunOp → Type 0
AllTyped [] = Unit
AllTyped (o ∷ os) = Typed o × AllTyped os

steps-active :
    (rs : List AgentRun) (os : List RunOp) (k : ℕ)
    → AllTyped os
    → active_children rs k ≤ max_admitted_children
    → active_children (steps rs os) k ≤ max_admitted_children
unfolding steps
steps-active rs [] k t bound = bound
steps-active rs (o ∷ os) k t bound =
    steps-active (step rs o) os k t.1 (step-active rs o k t.0 bound)

-- From an empty table, no sequence of calls gives any root more than two children that are not
-- terminal, as long as no call of `setLifecycle` sets `terminal`, which its type excludes.
pub admitted_children_bound :
    (os : List RunOp) (root : ℕ)
    → AllTyped os
    → active_children (steps [] os) root ≤ max_admitted_children
unfolding active_children
admitted_children_bound os root t = steps-active [] os root t (omega arith)
