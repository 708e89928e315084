-- ===== src/Runs/Fencing.antt =====
-- Cancellation fences of packages/runtime/src/orchestration-records.ts (`fence`, `finishRun`): what
-- is fenced or finished stays so.
use foundry_agent_workspace.Base.{
  ℕ, ◌≡◌, ◌≢◌, refl, subst, inl, inr, Bool, true, false, some, Option, List, [], ◌∷◌, ◌++◌, arith,
  Option-cases, ok, find, any, filter, update, All, All-append,
}
use foundry_agent_workspace.Runs.{
  AgentRun, RunLifecycle, RunOutcome, WaitReason, of_task, run, insert_coordinator_run,
  insert_child_run, set_lifecycle, finish_run, fence, advance_generation, new_coordinator,
  new_child, open_run, finished_row, fenced_row, advanced_row, not_cancelled,
}
use foundry_agent_workspace.Runs.Lifecycle.{
  RunOp, inserts_coordinator, inserts_child, sets_lifecycle, finishes, fences, advances, step,
  steps,
}

-- The task has a row, and every row of it is cancelled.
pub record Cancelled (task : ℕ) (rs : List AgentRun) : Type 0 where
  pub present : any (of_task task) rs ≡ true
  pub every : All (λ r. r.task_id ≡ task → r.cancel_requested ≡ true) rs

abbrev CancelledRow : ℕ → AgentRun → Type 0
CancelledRow task r = r.task_id ≡ task → r.cancel_requested ≡ true

-- An update that keeps ids and never clears the flag.
update-Cancelled :
    (task : ℕ) (p : AgentRun → Bool) (g : AgentRun → AgentRun) (rs : List AgentRun)
    → ((r : AgentRun) → (g r).task_id ≡ r.task_id)
    → ((r : AgentRun) → r.cancel_requested ≡ true → (g r).cancel_requested ≡ true)
    → Cancelled task rs
    → Cancelled task (update p g rs)
update-Cancelled task p g rs same keep c = record {
  present = here rs c.present;
  every = each rs c.every;
}
  where
    here :
        (xs : List AgentRun)
        → any (of_task task) xs ≡ true
        → any (of_task task) (update p g xs) ≡ true
    here [] h = h
    here (x ∷ xs) h = ground (arith, same x, here xs)

    each :
        (xs : List AgentRun) → All (CancelledRow task) xs → All (CancelledRow task) (update p g xs)
    each [] h = tt
    each (x ∷ xs) h = ground (arith, same x, keep x, h.0, each xs h.1)

any-append :
    (p : AgentRun → Bool) (xs ys : List AgentRun) → any p xs ≡ true → any p (xs ++ ys) ≡ true
any-append p [] ys h = absurd (cc)
any-append p (x ∷ xs) ys h = ground (arith, any-append p xs ys)

append-Cancelled :
    (task : ℕ) (rs : List AgentRun) (r : AgentRun)
    → r.task_id ≢ task
    → Cancelled task rs
    → Cancelled task (rs ++ r ∷ [])
append-Cancelled task rs r other c = record {
  present = any-append (of_task task) rs (r ∷ []) c.present;
  every = All-append (CancelledRow task) rs (r ∷ []) c.every ((λ e. absurd (other e)), tt);
}

step-Cancelled :
    (task : ℕ) (rs : List AgentRun) (o : RunOp) → Cancelled task rs → Cancelled task (step rs o)
unfolding step insert_coordinator_run insert_child_run set_lifecycle finish_run fence
    advance_generation
step-Cancelled task rs (inserts_coordinator root) c =
    ground (arith, c.present, append-Cancelled task rs (new_coordinator root))
step-Cancelled task rs (inserts_child root t a) c =
    ground (arith, c.present, append-Cancelled task rs (new_child root t a))
step-Cancelled task rs (sets_lifecycle t lifecycle reason) c =
    update-Cancelled task (open_run t)
      (λ r. record r { lifecycle = lifecycle; wait_reason = reason }) rs (λ r. refl) (λ r e. e) c
step-Cancelled task rs (finishes t outcome) c =
    update-Cancelled task (open_run t) (finished_row outcome) rs (λ r. refl) (λ r e. e) c
step-Cancelled task rs (fences t) c =
    ground (arith, c, update-Cancelled task (of_task t) fenced_row rs (λ r. refl) (λ r e. refl) c)
step-Cancelled task rs (advances t) c =
    ground
      (arith, c, update-Cancelled task (not_cancelled t) advanced_row rs (λ r. refl) (λ r e. e) c)

pub steps-Cancelled :
    (task : ℕ) (rs : List AgentRun) (os : List RunOp)
    → Cancelled task rs
    → Cancelled task (steps rs os)
unfolding steps
steps-Cancelled task rs [] c = c
steps-Cancelled task rs (o ∷ os) c =
    steps-Cancelled task (step rs o) os (step-Cancelled task rs o c)

every-fenced :
    (task : ℕ) (rs : List AgentRun) → All (CancelledRow task) (update (of_task task) fenced_row rs)
every-fenced task [] = tt
every-fenced task (r ∷ rs) = ground (arith, every-fenced task rs)

any_of_found :
    (p : AgentRun → Bool) (rs : List AgentRun) (r : AgentRun) → find p rs ≡ some r → any p rs ≡ true
any_of_found p [] r h = cc
any_of_found p (x ∷ rs) r h = ground (arith, any_of_found p rs r)

pub fence-Cancelled :
    (task g : ℕ) (rs rs' : List AgentRun) → fence rs task ≡ ok (rs', g) → Cancelled task rs'
unfolding fence run
fence-Cancelled task g rs rs' e =
    elim (Option-cases (find (of_task task) (update (of_task task) fenced_row rs))) [
      | inl missing ↦ absurd (ground arith)
      | inr (r, found) ↦ subst (Cancelled task) (ground (arith, found)) (record {
        present = any_of_found (of_task task) (update (of_task task) fenced_row rs) r found;
        every = every-fenced task rs;
      })
    ]

closed-filter :
    (task : ℕ) (outcome : RunOutcome) (rs : List AgentRun)
    → filter (open_run task) (update (open_run task) (finished_row outcome) rs) ≡ []
closed-filter task outcome [] = refl
closed-filter task outcome (r ∷ rs) = ground (arith, closed-filter task outcome rs)

update_closed :
    (task : ℕ) (g : AgentRun → AgentRun) (rs : List AgentRun)
    → filter (open_run task) rs ≡ []
    → update (open_run task) g rs ≡ rs
update_closed task g [] h = refl
update_closed task g (r ∷ rs) h = ground (arith, update_closed task g rs)

-- A finished run is finished for good: a second `finishRun` reports that it changed nothing, and
-- neither it nor `setLifecycle` changes any row.
pub finish_run_final :
    (rs : List AgentRun) (task : ℕ) (outcome later : RunOutcome) (lifecycle : RunLifecycle)
    (reason : Option WaitReason)
    → let rs' = (finish_run rs task outcome).0 in
      (finish_run rs' task later ≡ (rs', false)) × (set_lifecycle rs' task lifecycle reason ≡ rs')
unfolding finish_run set_lifecycle
finish_run_final rs task outcome later lifecycle reason =
    let rs' = update (open_run task) (finished_row outcome) rs in
    let closed = closed-filter task outcome rs in
    (
      ground (arith, closed, update_closed task (finished_row later) rs' closed),
      update_closed task (λ r. record r { lifecycle = lifecycle; wait_reason = reason }) rs' closed,
    )
