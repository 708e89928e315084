-- ===== src/Git/Outcomes.antt =====
-- What the outcome of a failed createChildWorktree says, in packages/runtime/src/git-operations.ts under
-- `guardedMutation`. An outcome of none is to mean that
-- nothing has happened.
use Prim.Native.String.{String}
use foundry_agent_workspace.Base.{◌≡◌, ◌⊎◌, inl, true, Result, ok, err}
use foundry_agent_workspace.Git.{
  Session, Action, Failure, fault, git_operation_error, wrapped, effects_of,
}
use foundry_agent_workspace.Git.Quiet.{Quiet}

-- The mark is set, and what was thrown, if anything, is an `Error` without an outcome.
abbrev Flagged : {W A : Type 0} → Result Failure A × Session W → Type 0
Flagged (ok a, t) = t.mutation_started ≡ true
Flagged (err (fault message values), t) = t.mutation_started ≡ true
Flagged (err (git_operation_error outcome message values), t) = ⊥

-- Once the mark is set, it stays, and the action throws no error with an outcome of its own.
record Marked {W A : Type 0} (m : Action W A) : Type 0 where
  at : (s : Session W) → s.mutation_started ≡ true → Flagged (m s)

-- Where the mark is not yet set: either nothing that is seen has changed, or the mark is set and what
-- was thrown has no outcome of its own.
record Honest {W V A : Type 0} (v : W → V) (m : Action W A) : Type 0 where
  at : (s : Session W) → (v (m s).1.world ≡ v s.world) ⊎ Flagged (m s)

module _ {W V A : Type 0} {v : W → V} where
  Honest-Quiet : (m : Action W A) → Quiet v m → Honest v m
  Honest-Quiet m q = record { at = λ s. inl (q.at s) }

abbrev pub guarded_end :
    {W A : Type 0} → Session W → Result Failure A × Session W → Result Failure A × Session W
guarded_end s p = (
  wrapped (effects_of p.1.mutation_started) p.0,
  record p.1 { mutation_started = s.mutation_started },
)
