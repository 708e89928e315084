-- ===== src/Runs/Lifecycle.antt =====
-- What the agent_runs methods of packages/runtime/src/orchestration-records.ts keep over any
-- sequence of calls: the checks of the table, finished runs, and cancellation.
use foundry_agent_workspace.Base.{
  is_some, ℕ, ◌+◌, ◌≤◌, ◌≡◌, ◌≢◌, refl, inl, inr, Bool, true, false, none, some, Option, List, [],
  ◌∷◌, ◌==◌, arith, Bool-cases, Result, ok, err, update, All, All-append,
}
use foundry_agent_workspace.Runs.{
  AgentRun, RunLifecycle, RunOutcome, WaitReason, RunError, is_terminal, is_child, of_task,
  insert_coordinator_run, insert_child_run, set_lifecycle, finish_run, fence, advance_generation,
  new_coordinator, new_child, open_run, finished_row, fenced_row, advanced_row, not_cancelled,
}

pub data RunOp : Type 0 where
  inserts_coordinator : (root : ℕ) → RunOp
  inserts_child : (root task assignment : ℕ) → RunOp
  sets_lifecycle : (task : ℕ) (lifecycle : RunLifecycle) → Option WaitReason → RunOp
  finishes : (task : ℕ) → RunOutcome → RunOp
  fences advances : (task : ℕ) → RunOp

-- A call that throws leaves the table as it was.
abbrev pub after : List AgentRun → Result RunError (List AgentRun) → List AgentRun
after rs (ok rs') = rs'
after rs (err e) = rs

abbrev pub after_pair : List AgentRun → Result RunError (List AgentRun × ℕ) → List AgentRun
after_pair rs (ok p) = p.0
after_pair rs (err e) = rs

unfoldable pub step : List AgentRun → RunOp → List AgentRun
step rs (inserts_coordinator root) = after rs (insert_coordinator_run rs root)
step rs (inserts_child root task a) = after rs (insert_child_run rs root task a)
step rs (sets_lifecycle task lifecycle reason) = set_lifecycle rs task lifecycle reason
step rs (finishes task outcome) = (finish_run rs task outcome).0
step rs (fences task) = after_pair rs (fence rs task)
step rs (advances task) = after_pair rs (advance_generation rs task)

unfoldable pub steps : List AgentRun → List RunOp → List AgentRun
steps rs [] = rs
steps rs (o ∷ os) = steps (step rs o) os

-- The argument type of `setLifecycle` excludes `terminal`.
abbrev pub Typed : RunOp → Type 0
Typed (sets_lifecycle task lifecycle reason) = is_terminal lifecycle ≡ false
Typed _ = Unit

-- The CHECK constraints of agent_runs.
pub record RowCheck (r : AgentRun) : Type 0 where
  pub outcome_iff : is_some r.outcome ≡ is_terminal r.lifecycle
  pub has_generation : 1 ≤ r.generation
  pub root_of_child :
      (is_child r.role ≡ true)
      → (r.parent_task_id ≡ some r.root_task_id) × (r.task_id ≢ r.root_task_id)
  pub root_of_coordinator :
      (is_child r.role ≡ false) → (r.parent_task_id ≡ none) × (r.root_task_id ≡ r.task_id)
  pub assigned : is_some r.assignment_id ≡ is_child r.role

All-update_of {ℓ} :
    {A : Type ℓ} (P : A → Type 0) (p : A → Bool) (g : A → A) (xs : List A)
    → ((x : A) → p x ≡ true → P x → P (g x))
    → All P xs
    → All P (update p g xs)
All-update_of P p g [] keep a = tt
All-update_of P p g (x ∷ xs) keep a = (
  elim (Bool-cases (p x)) [ inl e ↦ rw e (keep x e a.0) | inr e ↦ rw e a.0 ],
  All-update_of P p g xs keep a.1,
)

set_lifecycle-RowCheck :
    (task : ℕ) (lifecycle : RunLifecycle) (reason : Option WaitReason) (r : AgentRun)
    → is_terminal lifecycle ≡ false
    → open_run task r ≡ true
    → RowCheck r
    → RowCheck (record r { lifecycle = lifecycle; wait_reason = reason })
set_lifecycle-RowCheck task lifecycle reason r t o v = record {
  outcome_iff = ground (arith, v.outcome_iff);
  has_generation = v.has_generation;
  root_of_child = v.root_of_child;
  root_of_coordinator = v.root_of_coordinator;
  assigned = v.assigned;
}

finished_row-RowCheck :
    (outcome : RunOutcome) (r : AgentRun) → RowCheck r → RowCheck (finished_row outcome r)
finished_row-RowCheck outcome r v = record {
  outcome_iff = refl;
  has_generation = v.has_generation;
  root_of_child = v.root_of_child;
  root_of_coordinator = v.root_of_coordinator;
  assigned = v.assigned;
}

generation-RowCheck :
    (r : AgentRun) (c : Bool)
    → RowCheck r
    → RowCheck (record r { generation = r.generation + 1; cancel_requested = c })
generation-RowCheck r c v = record {
  outcome_iff = v.outcome_iff;
  has_generation = omega arith;
  root_of_child = v.root_of_child;
  root_of_coordinator = v.root_of_coordinator;
  assigned = v.assigned;
}

new_coordinator-RowCheck : (root : ℕ) → RowCheck (new_coordinator root)
new_coordinator-RowCheck root = record {
  outcome_iff = refl;
  has_generation = omega arith;
  root_of_child = λ e. absurd (cc);
  root_of_coordinator = λ e. (refl, refl);
  assigned = refl;
}

new_child-RowCheck : (root task a : ℕ) → task ≢ root → RowCheck (new_child root task a)
new_child-RowCheck root task a other = record {
  outcome_iff = refl;
  has_generation = omega arith;
  root_of_child = λ e. (refl, other);
  root_of_coordinator = λ e. absurd (cc);
  assigned = refl;
}

-- Every call writes rows that the CHECK constraints of the table accept: a run is terminal exactly
-- when it has an outcome, generations start at 1, a child has its root as parent and an assignment.
pub step-RowCheck :
    (rs : List AgentRun) (o : RunOp) → Typed o → All RowCheck rs → All RowCheck (step rs o)
unfolding step insert_coordinator_run insert_child_run set_lifecycle finish_run fence
    advance_generation
step-RowCheck rs (inserts_coordinator root) t a = ground (
  arith,
  a,
  All-append RowCheck rs (new_coordinator root ∷ []) a (new_coordinator-RowCheck root, tt),
)
step-RowCheck rs (inserts_child root task x) t a = elim (Bool-cases (task == root)) [
  | inl own ↦ ground (arith, a)
  | inr other ↦ ground (
    arith,
    a,
    All-append RowCheck rs (new_child root task x ∷ []) a
        (new_child-RowCheck root task x (ground arith), tt),
  )
]
step-RowCheck rs (sets_lifecycle task lifecycle reason) t a =
    All-update_of RowCheck (open_run task)
      (λ r. record r { lifecycle = lifecycle; wait_reason = reason }) rs
      (λ r o v. set_lifecycle-RowCheck task lifecycle reason r t o v) a
step-RowCheck rs (finishes task outcome) t a =
    All-update_of RowCheck (open_run task) (finished_row outcome) rs
      (λ r o v. finished_row-RowCheck outcome r v) a
step-RowCheck rs (fences task) t a = ground (
  arith,
  a,
  All-update_of RowCheck (of_task task) fenced_row rs (λ r o v. generation-RowCheck r true v) a,
)
step-RowCheck rs (advances task) t a = ground (
  arith,
  a,
  All-update_of RowCheck (not_cancelled task) advanced_row rs
      (λ r o v. generation-RowCheck r r.cancel_requested v) a,
)
