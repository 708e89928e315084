-- ===== src/Budget/Summary.antt =====
-- What `summary` of packages/runtime/src/budget-ledger.ts reports, and what an overrun blocks.
use foundry_agent_workspace.Base.{ℕ, ◌≡◌, ◌≢◌, inl, inr, true, arith, Option-cases, ok, err}
use foundry_agent_workspace.Accounts.{Number, Ledger, totals, account_of, overrun}
use foundry_agent_workspace.Budget.{BudgetSummary, hold, reserve, summary}
use foundry_agent_workspace.Budget.Reserving.{reserve-Reserved}

-- An overrun that the summary reports blocks the root: no child is admitted and no run reserves,
-- until the recorded usage no longer exceeds the cap.
pub overrun_blocks :
    (l l' : Ledger) (root assignment child_task amount task generation request : ℕ) (n : Number)
    (s : BudgetSummary)
    → summary l root ≡ ok s
    → s.overrun ≡ true
    → (hold l root assignment child_task amount ≡ err overrun)
      × (reserve l root task generation n request ≢ ok l')
unfolding summary hold totals
overrun_blocks l l' root assignment child_task amount task generation request n s e over =
    elim (Option-cases (account_of l root)) [
      | inl missing ↦ absurd (ground arith)
      | inr (a, found) ↦ (
        ground (arith, found),
        λ w.
            let r = reserve-Reserved l root task generation n request w in
            ground (arith, found, r.found, r.below),
      )
    ]
