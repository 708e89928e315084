-- ===== src/Budget/Fencing.antt =====
-- `fence` of packages/runtime/src/orchestration-records.ts against `reserve` of
-- packages/runtime/src/budget-ledger.ts: a cancelled run makes no request.
use foundry_agent_workspace.Base.{
  ℕ, ◌≡◌, ◌≢◌, sym, subst, ◌⊎◌, inl, inr, true, ◌&&◌, some, List, [], ◌∷◌, ◌==◌, arith,
  Option-cases, ok, err, find, All,
}
use foundry_agent_workspace.Runs.{AgentRun, of_task, run, fence}
use foundry_agent_workspace.Runs.Lifecycle.{RunOp, steps}
use foundry_agent_workspace.Runs.Fencing.{Cancelled, fence-Cancelled, steps-Cancelled}
use foundry_agent_workspace.Accounts.{Number, Ledger, fenced}
use foundry_agent_workspace.Budget.{live_run, reserve}
use foundry_agent_workspace.Budget.Reserving.{reserve-Reserved}

found_cancelled :
    (task root : ℕ) (rs : List AgentRun) (r : AgentRun)
    → All (λ x. x.task_id ≡ task → x.cancel_requested ≡ true) rs
    → find (λ x. x.task_id == task && x.root_task_id == root) rs ≡ some r
    → r.cancel_requested ≡ true
found_cancelled task root [] r a e = cc
found_cancelled task root (x ∷ rs) r a e = ground (arith, a.0, found_cancelled task root rs r a.1)

top_cancelled :
    (task : ℕ) (rs : List AgentRun) (r : AgentRun)
    → All (λ x. x.task_id ≡ task → x.cancel_requested ≡ true) rs
    → find (of_task task) rs ≡ some r
    → r.cancel_requested ≡ true
top_cancelled task [] r a e = cc
top_cancelled task (x ∷ rs) r a e = ground (arith, a.0, top_cancelled task rs r a.1)

live_run-Cancelled :
    (rs : List AgentRun) (root task generation : ℕ)
    → Cancelled task rs ⊎ Cancelled root rs
    → live_run rs root task generation ≡ err fenced
unfolding live_run run
live_run-Cancelled rs root task generation c =
    elim (Option-cases (find (λ x. x.task_id == task && x.root_task_id == root) rs)) [
      | inl missing ↦ ground (arith, missing)
      | inr (r, found) ↦ elim (Option-cases (find (of_task root) rs)) [
        | inl missing ↦ ground (arith, found, missing)
        | inr (top, here) ↦ elim c [
          | inl mine ↦ ground (arith, found, found_cancelled task root rs r mine.every)
          | inr whole ↦ ground (arith, found, here, top_cancelled root rs top whole.every)
        ]
      ]
    ]

-- Once a run, or the root of its tree, has been fenced, it reserves nothing: whatever happens to
-- the runs and the ledger afterwards, with whatever generation, amount and request id it asks.
pub fence_blocks_reserve :
    (rs rs' : List AgentRun) (fenced_task g : ℕ) (os : List RunOp) (l l' : Ledger)
    (root task generation : ℕ) (n : Number) (request : ℕ)
    → fence rs fenced_task ≡ ok (rs', g)
    → l.runs ≡ steps rs' os
    → (fenced_task ≡ task) ⊎ (fenced_task ≡ root)
    → reserve l root task generation n request ≢ ok l'
fence_blocks_reserve rs rs' fenced_task g os l l' root task generation n request f later which e =
    let c : Cancelled fenced_task l.runs =
      subst (Cancelled fenced_task) (sym later)
        (steps-Cancelled fenced_task rs' os (fence-Cancelled fenced_task g rs rs' f)) in
    let r = reserve-Reserved l root task generation n request e in
    let refused : live_run l.runs root task generation ≡ err fenced =
      live_run-Cancelled l.runs root task generation (elim which [
        | inl own ↦ inl (subst (λ k. Cancelled k l.runs) own c)
        | inr top ↦ inr (subst (λ k. Cancelled k l.runs) top c)
      ]) in
    cc (refused, r.live)
