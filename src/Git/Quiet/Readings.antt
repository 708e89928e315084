-- ===== src/Git/Quiet/Readings.antt =====
-- Every reading operation of packages/runtime/src/git-operations.ts leaves what is seen alone.
use foundry_agent_workspace.Base.{◌≡◌, Bool, Option, Text}
use foundry_agent_workspace.Git.{
  Host, Session, Action, ◌>>=◌, pure, FileKind, missing, unreadable, symbolic_link, other_file,
  folder,
}
use foundry_agent_workspace.Git.Manifests.{EffectManifest}
use foundry_agent_workspace.Git.Inspection.{
  WorktreeState, state, changed_paths, commit_info, manifest, patch, is_ancestor,
}
use foundry_agent_workspace.Git.Repositories.{
  assert_git_outside, prepare_children_base, reject_core_worktree, require_root, require_repository,
  require_child_id, inspect_child, reconcile_found, reconcile_child_worktree,
  reject_tracked_filters, path_exists,
}
use foundry_agent_workspace.Git.Handoff.{HandoffInput, prepare_handoff}
use foundry_agent_workspace.Git.Commit.{reconcile_commit, reconcile_handoff}
use foundry_agent_workspace.Git.Integration.{
  Target, prepare_cherry_pick, prepare_continue, reconciled_commit, reconcile_outcome,
  reconcile_integration,
}
use foundry_agent_workspace.Git.Quiet.{
  Quiet, ReadsOnly, Aside, Quiet-makes, Quiet-mark, read_rules, quiet_rules, read_rules, Quiet-git,
  Quiet-pure, Quiet-raise, Quiet-bind,
}
use foundry_agent_workspace.Git.Quiet.Inspections.{
  Quiet-state, Quiet-changed_paths, Quiet-commit_info, Quiet-manifest, Quiet-patch,
  Quiet-is_ancestor,
}
use foundry_agent_workspace.Git.Quiet.Preparations.{
  Quiet-reject_filter_attributes, Quiet-prepare_handoff, Quiet-prepare_cherry_pick,
  Quiet-prepare_continue, Quiet-stopped_pick,
}

module _ {W V : Type 0} {v : W → V} (h : Host W) (reads : ReadsOnly v h) where
  pub Quiet-assert_git_outside :
      (inside : Text → Text → Bool) (root : Text) → Quiet v (assert_git_outside h inside root)
  unfolding assert_git_outside
  Quiet-assert_git_outside inside root = search (quiet_rules) depth 40 fits 6000

  pub Quiet-reject_core_worktree :
      (inside : Text → Text → Bool) (root : Text) → Quiet v (reject_core_worktree h inside root)
  unfolding reject_core_worktree
  Quiet-reject_core_worktree inside root =
      search (quiet_rules, read_rules, Quiet-git) depth 40 fits 6000

  pub Quiet-require_root :
      (inside : Text → Text → Bool) (candidate : Text) → Quiet v (require_root h inside candidate)
  unfolding require_root
  Quiet-require_root inside candidate = search (quiet_rules) depth 40 fits 6000

  pub Quiet-require_repository :
      (inside : Text → Text → Bool) (candidate : Text)
      → Quiet v (require_repository h inside candidate)
  unfolding require_repository
  Quiet-require_repository inside candidate =
      search
        (
          quiet_rules, read_rules, Quiet-git, Quiet-require_root, Quiet-assert_git_outside,
          Quiet-reject_core_worktree,
        )
        depth 40 fits 6000

  pub Quiet-reject_tracked_filters :
      (root source : Text) → Quiet v (reject_tracked_filters h root source)
  unfolding reject_tracked_filters
  Quiet-reject_tracked_filters root source =
      search (quiet_rules, read_rules, Quiet-git, Quiet-reject_filter_attributes) depth 40 fits 6000

  pub Quiet-require_child_id : (id : Text) → Quiet v (require_child_id h id)
  unfolding require_child_id
  Quiet-require_child_id id = search (quiet_rules) depth 40 fits 6000

  pub Quiet-inspect_child :
      (inside : Text → Text → Bool) (root p branch base : Text)
      → Quiet v (inspect_child h inside root p branch base)
  unfolding inspect_child
  Quiet-inspect_child inside root p branch base =
      search (quiet_rules, read_rules, Quiet-git, Quiet-state) depth 40 fits 6000

  Quiet-path_exists :
      (inside : Text → Text → Bool) (k : FileKind) → Quiet v (path_exists h inside k)
  Quiet-path_exists inside missing = Quiet-pure _
  Quiet-path_exists inside unreadable = Quiet-raise _ _
  Quiet-path_exists inside symbolic_link = Quiet-pure _
  Quiet-path_exists inside other_file = Quiet-pure _
  Quiet-path_exists inside (folder entries) = Quiet-pure _

  pub Quiet-reconcile_found :
      (inside : Text → Text → Bool) (root p branch base : Text) (head : Option Text)
      → Quiet v (reconcile_found h inside root p branch base head)
  unfolding reconcile_found
  Quiet-reconcile_found inside root p branch base head =
      search (quiet_rules, read_rules, Quiet-git, Quiet-path_exists, Quiet-inspect_child) depth 40
        fits 6000

  pub Quiet-reconcile_commit :
      (p e : Text) (approved : EffectManifest) (current : WorktreeState)
      → Quiet v (reconcile_commit h p e approved current)
  unfolding reconcile_commit
  Quiet-reconcile_commit p e approved current =
      search (quiet_rules, Quiet-commit_info, Quiet-manifest) depth 40 fits 6000

  pub Quiet-reconcile_handoff :
      (p branch e : Text) (approved : EffectManifest)
      → Quiet v (reconcile_handoff h p branch e approved)
  unfolding reconcile_handoff
  Quiet-reconcile_handoff p branch e approved =
      search (quiet_rules, Quiet-state, Quiet-reconcile_commit) depth 40 fits 6000

  pub Quiet-reconciled_commit :
      (p : Text) (target : Target) (approved : EffectManifest) (resolved : Option Text)
      (current : WorktreeState)
      → Quiet v (reconciled_commit h p target approved resolved current)
  unfolding reconciled_commit
  Quiet-reconciled_commit p target approved resolved current =
      search (quiet_rules, Quiet-commit_info, Quiet-manifest) depth 40 fits 6000

  pub Quiet-reconcile_outcome :
      (p : Text) (target : Target) (approved : EffectManifest) (resolved : Option Text)
      (current : WorktreeState)
      → Quiet v (reconcile_outcome h p target approved resolved current)
  unfolding reconcile_outcome
  Quiet-reconcile_outcome p target approved resolved current =
      search (quiet_rules, Quiet-reconciled_commit, Quiet-stopped_pick) depth 40 fits 6000

  pub Quiet-reconcile_integration :
      (p : Text) (target : Target) (approved : EffectManifest) (resolved : Option Text)
      → Quiet v (reconcile_integration h p target approved resolved)
  unfolding reconcile_integration
  Quiet-reconcile_integration p target approved resolved =
      search (quiet_rules, Quiet-state, Quiet-reconcile_outcome) depth 40 fits 6000

module _ {W V : Type 0} {v : W → V} (h : Host W) (reads : ReadsOnly v h) (aside : Aside v h) where
  pub Quiet-prepare_children_base : Quiet v (prepare_children_base h)
  unfolding prepare_children_base
  Quiet-prepare_children_base =
      search (quiet_rules, Quiet-makes, aside.children_folder) depth 40 fits 6000

  pub Quiet-reconcile_child_worktree :
      (inside : Text → Text → Bool) (source id base : Text)
      → Quiet v (reconcile_child_worktree h inside source id base)
  unfolding reconcile_child_worktree
  Quiet-reconcile_child_worktree inside source id base =
      search
        (
          quiet_rules, read_rules, Quiet-git, Quiet-prepare_children_base, Quiet-require_repository,
          Quiet-require_child_id, Quiet-reconcile_found,
        )
        depth 40 fits 6000

-- A call of a reading operation.
pub data Reading : Type 0 where
  reads_state reads_changes : Text → Reading
  reads_commit : (worktree_path sha : Text) → Reading
  reads_manifest reads_patch reads_ancestor : (worktree_path from to : Text) → Reading
  prepares_handoff : Text → HandoffInput → Reading
  prepares_pick prepares_continue : Text → Target → Text → Reading
  reconciles_handoff : (worktree_path branch expected_head : Text) → EffectManifest → Reading
  reconciles_integration : Text → Target → EffectManifest → Option Text → Reading
  reconciles_child : (source_project_path child_task_id base_commit : Text) → Reading

module _ {W : Type 0} (h : Host W) (inside : Text → Text → Bool) where
  abbrev discard : {A : Type 0} → Action W A → Action W (Unit {0})
  discard m = m >>= λ a. pure tt

  pub perform : Reading → Action W (Unit {0})
  perform (reads_state p) = discard (state h p)
  perform (reads_changes p) = discard (changed_paths h p)
  perform (reads_commit p sha) = discard (commit_info h p sha)
  perform (reads_manifest p from to) = discard (manifest h p from to)
  perform (reads_patch p from to) = discard (patch h p from to)
  perform (reads_ancestor p from to) = discard (is_ancestor h p from to)
  perform (prepares_handoff p input) = discard (prepare_handoff h p input)
  perform (prepares_pick p target sha) = discard (prepare_cherry_pick h p target sha)
  perform (prepares_continue p target head) = discard (prepare_continue h p target head)
  perform (reconciles_handoff p b e m) = discard (reconcile_handoff h p b e m)
  perform (reconciles_integration p t m r) = discard (reconcile_integration h p t m r)
  perform (reconciles_child p id base) = discard (reconcile_child_worktree h inside p id base)

  module _ {V : Type 0} {v : W → V} (reads : ReadsOnly v h) (aside : Aside v h) where
    Quiet-discard : {A : Type 0} (m : Action W A) → Quiet v m → Quiet v (discard m)
    Quiet-discard m q = Quiet-bind m _ q (λ a. Quiet-pure tt)

    Quiet-perform : (r : Reading) → Quiet v (perform r)
    unfolding perform
    Quiet-perform (reads_state p) = Quiet-discard _ (Quiet-state h reads p)
    Quiet-perform (reads_changes p) = Quiet-discard _ (Quiet-changed_paths h reads p)
    Quiet-perform (reads_commit p sha) = Quiet-discard _ (Quiet-commit_info h reads p sha)
    Quiet-perform (reads_manifest p a b) = Quiet-discard _ (Quiet-manifest h reads p a b)
    Quiet-perform (reads_patch p a b) = Quiet-discard _ (Quiet-patch h reads p a b)
    Quiet-perform (reads_ancestor p a b) = Quiet-discard _ (Quiet-is_ancestor h reads p a b)
    Quiet-perform (prepares_handoff p i) = Quiet-discard _ (Quiet-prepare_handoff h reads aside p i)
    Quiet-perform (prepares_pick p t a) = Quiet-discard _ (Quiet-prepare_cherry_pick h reads p t a)
    Quiet-perform (prepares_continue p t a) =
        Quiet-discard _ (Quiet-prepare_continue h reads aside p t a)
    Quiet-perform (reconciles_handoff p b e m) =
        Quiet-discard _ (Quiet-reconcile_handoff h reads p b e m)
    Quiet-perform (reconciles_integration p t m r) =
        Quiet-discard _ (Quiet-reconcile_integration h reads p t m r)
    Quiet-perform (reconciles_child p id base) =
        Quiet-discard _ (Quiet-reconcile_child_worktree h reads aside inside p id base)

    -- No reading operation changes what is seen of the world or the mark of a mutation: state, changedPaths, commitInfo, manifest, patch, isAncestor, the preparations of a handoff, a
    -- cherry-pick and a continuation, and the three reconciliations, whether they return or throw. It
    -- is for any view that the commands by which they read leave as it is, and that does not see what a
    -- worktree's diff, write-tree and the app's own folders and empty file add.
    pub perform_unchanged :
        (r : Reading) (s : Session W)
        → (v (perform r s).1.world ≡ v s.world)
          × ((perform r s).1.mutation_started ≡ s.mutation_started)
    perform_unchanged r s = ((Quiet-perform r).at s, Quiet-mark (Quiet-perform r) s)
