-- ===== src/Git/Recovery.antt =====
-- What reconcileIntegration of packages/runtime/src/git-operations.ts finds after cherryPick.
use foundry_agent_workspace.Base.{◌≡◌, ◌⊎◌, Result, ok, Text}
use foundry_agent_workspace.Git.{Host, Session, Failure}
use foundry_agent_workspace.Git.Manifests.{EffectManifest}
use foundry_agent_workspace.Git.Inspection.{WorktreeState, state}
use foundry_agent_workspace.Git.Integration.{
  Target, CherryPickOutcome, succeeded, mismatch, conflict, empty, no_effect, unknown, not_started,
  pick_outcome,
}
use foundry_agent_workspace.Git.Quiet.{ReadsOnly}

abbrev pub OffBranch : Result Failure CherryPickOutcome → Type 0
OffBranch r = r ≡ ok (unknown "Worktree is not on the expected branch.")

-- What a reconciliation finds after an outcome.
abbrev pub Found : CherryPickOutcome → Result Failure CherryPickOutcome → Type 0
Found (succeeded c) r = r ≡ ok (succeeded c)
Found (mismatch c) r = Unit
Found (conflict k paths f) r = (r ≡ ok (conflict k paths f)) ⊎ OffBranch r
Found (empty k) r = (r ≡ ok (empty k)) ⊎ OffBranch r
Found no_effect r =
    (r ≡ ok not_started)
    ⊎ (OffBranch r ⊎ (r ≡ ok (unknown "Unexpected repository state at the expected head.")))
Found (unknown d) r = Unit
Found not_started r = Unit

module _ {W : Type 0} (h : Host W) (reads : ReadsOnly (λ w. w) h) (p : Text) (target : Target)
    (approved : EffectManifest) where
  -- The worktree is in a state from which the outcome is drawn.
  Drawn : CherryPickOutcome → Session W → Type 0
  Drawn o t =
      (after : WorktreeState) × (state h p t ≡ (ok after, t))
      × ((pick_outcome h p target approved after t).0 ≡ ok o)
