-- ===== src/Git/Integration.antt =====
-- Integration of a child's commit into the coordinator's worktree: prepareCherryPick, cherryPick,
-- prepareContinue, continueCherryPick and reconcileIntegration of
-- packages/runtime/src/git-operations.ts. What a method does after it has read the state of the
-- worktree is a function of its own. The details of an outcome keep their literal text only.
use Prim.Native.String.{String}
use foundry_agent_workspace.Base.{
  Bool, true, false, not, ◌&&◌, ◌||◌, Option, none, some, List, [], ◌∷◌, ◌++◌, map, ◌==◌,
  if◌then◌else◌, any, Text, text_eq, lower, split,
}
use foundry_agent_workspace.Git.{
  Host, Action, ◌>>=◌, ◌>>◌, pure, raise, check, for_each, mark_mutation, choose, guarded_none,
  guarded_mutation, git, plain, any_exit, lit, words, GitIdentity, GitCallOptions,
}
use foundry_agent_workspace.Git.Texts.{is_empty, not_empty, trim, slices, mem_text}
use foundry_agent_workspace.Git.Status.{untracked_file}
use foundry_agent_workspace.Git.Manifests.{EffectEntry, EffectManifest}
use foundry_agent_workspace.Git.Inspection.{
  WorktreeState, ChangedPath, Patch, state, changed_paths, commit_info, manifest, patch,
  index_fingerprint, is_no_operation, is_cherry_picking,
}
use foundry_agent_workspace.Git.Repositories.{posix_basename, reject_filter_attributes, eq_option}
use foundry_agent_workspace.Git.Handoff.{is_dangerous, committer_identity, read_identity}
use foundry_agent_workspace.Git.Commit.{Committed, single_parent}

pub record PreparedPick : Type 0 where
  pub head : Text
  pub tree : Text
  pub git_identity : GitIdentity
  pub source_parent : Text
  pub source_manifest : EffectManifest
  pub patch : Patch

pub record PreparedContinue : Type 0 where
  pub resolved_tree : Text
  pub manifest : EffectManifest
  pub patch : Patch
  pub git_identity : GitIdentity
  pub fingerprint : Text

pub record ContinuePrint : Type 0 where
  pub branch : Text
  pub expected_head : Text
  pub cherry_pick_head : Text
  pub resolved_tree : Text
  pub manifest : EffectManifest
  pub git_identity : GitIdentity
  pub patch_sha256 : Text

pub data CherryPickOutcome : Type 0 where
  succeeded : Committed → CherryPickOutcome
  mismatch : Committed → CherryPickOutcome
  conflict : (cherry_pick_head : Text) → List Text → (index_fingerprint : Text) → CherryPickOutcome
  empty : Option Text → CherryPickOutcome
  no_effect : CherryPickOutcome
  unknown : String → CherryPickOutcome
  not_started : CherryPickOutcome

pub record Target : Type 0 where
  pub branch : Text
  pub expected_head : Text

-- PERMITTED_MERGE_ATTRIBUTE_VALUES
abbrev pub permitted_merge_attribute_values : List Text
permitted_merge_attribute_values =
    words ("unspecified" ∷ "set" ∷ "unset" ∷ "text" ∷ "binary" ∷ "union" ∷ [])

-- Path, attribute and value in turn; a last group of fewer than three is not read.
unfoldable pub merge_values_ok : List Text → Bool
merge_values_ok (path ∷ (attribute ∷ (value ∷ tokens))) =
    mem_text value permitted_merge_attribute_values && merge_values_ok tokens
merge_values_ok _ = true

abbrev pub committed_of : WorktreeState → Committed
committed_of current = record { commit = current.head; tree = current.tree }

abbrev pub is_at_rest : WorktreeState → Bool
is_at_rest current = current.clean && is_no_operation current.operation

abbrev pub is_unfinished : ChangedPath → Bool
is_unfinished entry = elim entry.kind [ untracked_file ↦ true | _ ↦ not entry.staged ]

module _ {W : Type 0} (h : Host W) where
  unfoldable pub check_merge_slice : Text → List Text → Action W (Unit {0})
  check_merge_slice worktree_path batch = do
    out ← git h worktree_path (words ("check-attr" ∷ "-z" ∷ "merge" ∷ "--" ∷ []) ++ batch) plain
    check (merge_values_ok (split 0 out.stdout)) "Path uses a non-builtin merge driver attribute: "
        []

  unfoldable pub check_source_entry : EffectEntry → Action W (Unit {0})
  check_source_entry entry = do
    check (not (is_dangerous entry.old_mode || is_dangerous entry.new_mode))
        "Path has a symlink or gitlink mode: " (entry.path ∷ [])
    check
        (not (
          text_eq (lower (posix_basename entry.path)) (lit ".gitattributes")
          || text_eq (lower entry.path) (lit ".gitmodules")))
        "Integration cannot change Git attribute or submodule files: " (entry.path ∷ [])

  abbrev pub source_parent_of : List Text → Action W Text
  source_parent_of (parent ∷ []) =
      check (not_empty parent) "The source commit has no resolvable parent." [] >> pure parent
  source_parent_of _ = raise "The source commit must have exactly one parent." []

  unfoldable pub reject_merge_drivers : Text → Action W (Unit {0})
  reject_merge_drivers worktree_path = do
    drivers ←
        git h worktree_path (words ("config" ∷ "--get-regexp" ∷ "^merge\\..*\\.driver$" ∷ []))
          any_exit
    check (not (drivers.exit == 0 && not_empty (trim drivers.stdout)))
        "Repository configures a custom merge driver." []
    check (drivers.exit == 0 || drivers.exit == 1) "Unable to inspect merge driver configuration."
        []

  unfoldable pub prepare_cherry_pick : Text → Target → Text → Action W PreparedPick
  prepare_cherry_pick worktree_path target sha = guarded_none (do
    current ← state h worktree_path
    check (eq_option current.branch target.branch) "Worktree is not on the expected branch." []
    check (text_eq current.head target.expected_head)
        "Worktree HEAD does not match the expected target." []
    check (is_no_operation current.operation) "A Git operation is already in progress." []
    check current.clean "The target worktree is not clean." []
    info ← commit_info h worktree_path sha
    source_parent ← source_parent_of info.parents
    source_manifest ← manifest h worktree_path source_parent info.sha
    reject_merge_drivers worktree_path
    let paths = map (λ (e : EffectEntry). e.path) source_manifest.entries
    for_each (check_merge_slice worktree_path) (slices 100 paths)
    for_each check_source_entry source_manifest.entries
    reject_filter_attributes h worktree_path paths none
    reject_filter_attributes h worktree_path paths (some info.sha)
    committer_identity h worktree_path
    rendered ← patch h worktree_path source_parent info.sha
    identity ← read_identity h worktree_path
    pure (record {
      head = current.head;
      tree = current.tree;
      git_identity = identity;
      source_parent = source_parent;
      source_manifest = source_manifest;
      patch = rendered;
    }))

  -- A head that has moved: the commit must be the approved effect on the expected head.
  unfoldable pub picked_commit :
      Text → Target → EffectManifest → WorktreeState → Action W CherryPickOutcome
  picked_commit worktree_path target approved after =
      commit_info h worktree_path after.head >>= λ info.
      if single_parent target.expected_head info.parents
        && is_at_rest after
        && eq_option after.branch target.branch
      then (manifest h worktree_path target.expected_head after.head >>= λ effect. pure (
          if text_eq effect.sha256 approved.sha256
          then succeeded (committed_of after)
          else mismatch (committed_of after)))
      else pure (mismatch (committed_of after))

  -- A pick in progress at the expected head.
  unfoldable pub stopped_pick : Text → Text → WorktreeState → Action W CherryPickOutcome
  stopped_pick worktree_path cherry_pick_head current =
      if is_empty current.unmerged_paths
      then pure (empty (some cherry_pick_head))
      else (index_fingerprint h worktree_path >>= λ fingerprint.
          pure (conflict cherry_pick_head current.unmerged_paths fingerprint))

  abbrev pub picking_head : WorktreeState → Option Text
  picking_head current =
      if is_cherry_picking current.operation then current.cherry_pick_head else none

  abbrev pub standing : WorktreeState → CherryPickOutcome
  standing after =
      if after.clean && after.staged_clean
      then no_effect
      else unknown "Unexpected repository state after the cherry-pick."

  unfoldable pub pick_outcome :
      Text → Target → EffectManifest → WorktreeState → Action W CherryPickOutcome
  pick_outcome worktree_path target approved after =
      if not (text_eq after.head target.expected_head)
      then picked_commit worktree_path target approved after
      else choose (picking_head after)
          (λ cherry_pick_head. stopped_pick worktree_path cherry_pick_head after)
          (pure (standing after))

  abbrev pub pick_options : GitCallOptions
  pick_options = record { mutating = true; permit_truncation = false; allow_non_zero = true }

  unfoldable pub cherry_pick :
      Text → Target → (expected_tree sha : Text) → EffectManifest → Action W CherryPickOutcome
  cherry_pick worktree_path target expected_tree sha approved = guarded_mutation (do
    pre ← prepare_cherry_pick worktree_path target sha
    check (text_eq pre.tree expected_tree && text_eq pre.source_manifest.sha256 approved.sha256)
        "The approved cherry-pick is stale." []
    mark_mutation
    picked ←
        git h worktree_path (words ("cherry-pick" ∷ "--no-edit" ∷ "-x" ∷ []) ++ (sha ∷ []))
          pick_options
    after ← state h worktree_path
    pick_outcome worktree_path target approved after)

  unfoldable pub prepare_continue : Text → Target → Text → Action W PreparedContinue
  prepare_continue worktree_path target cherry_pick_head = guarded_none (do
    current ← state h worktree_path
    check (eq_option current.branch target.branch) "Worktree is not on the expected branch." []
    check (text_eq current.head target.expected_head)
        "Worktree HEAD does not match the expected base." []
    check (eq_option (picking_head current) cherry_pick_head)
        "No matching cherry-pick operation is in progress." []
    check (is_empty current.unmerged_paths) "Unresolved conflicts remain." []
    changed ← changed_paths h worktree_path
    check (not (any is_unfinished changed))
        "Unresolved, unstaged, or untracked changes remain in the worktree." []
    written ← git h worktree_path (words ("write-tree" ∷ [])) plain
    let resolved_tree = trim written.stdout
    check (not (text_eq resolved_tree current.tree))
        "The conflict resolution has no effect; nothing to continue." []
    effect ← manifest h worktree_path target.expected_head resolved_tree
    rendered ← patch h worktree_path target.expected_head resolved_tree
    identity ← read_identity h worktree_path
    let print : ContinuePrint = record {
      branch = target.branch;
      expected_head = target.expected_head;
      cherry_pick_head = cherry_pick_head;
      resolved_tree = resolved_tree;
      manifest = effect;
      git_identity = identity;
      patch_sha256 = h.sha256 rendered.patch;
    }
    pure (record {
      resolved_tree = resolved_tree;
      manifest = effect;
      patch = rendered;
      git_identity = identity;
      fingerprint = h.json_sha256 print;
    }))

  unfoldable pub continued_commit :
      Text → Target → Text → WorktreeState → Action W CherryPickOutcome
  continued_commit worktree_path target resolved_tree after =
      commit_info h worktree_path after.head >>= λ info. pure (
        if single_parent target.expected_head info.parents
          && text_eq after.tree resolved_tree
          && is_at_rest after
          && eq_option after.branch target.branch
        then succeeded (committed_of after)
        else mismatch (committed_of after))

  unfoldable pub continue_outcome :
      Text → Target → Text → WorktreeState → Action W CherryPickOutcome
  continue_outcome worktree_path target resolved_tree after =
      if not (text_eq after.head target.expected_head)
      then continued_commit worktree_path target resolved_tree after
      else if is_cherry_picking after.operation
      then pure (
          if is_empty after.unmerged_paths
          then empty after.cherry_pick_head
          else unknown "cherry-pick --continue left unresolved conflicts.")
      else pure (standing after)

  unfoldable pub continue_cherry_pick :
      Text → Target → Text → PreparedContinue → Action W CherryPickOutcome
  continue_cherry_pick worktree_path target cherry_pick_head prepared = guarded_mutation (do
    fresh ← prepare_continue worktree_path target cherry_pick_head
    check (text_eq fresh.fingerprint prepared.fingerprint) "The approved continuation is stale." []
    mark_mutation
    continued ← git h worktree_path (words ("cherry-pick" ∷ "--continue" ∷ [])) pick_options
    after ← state h worktree_path
    continue_outcome worktree_path target prepared.resolved_tree after)

  abbrev pub tree_matches : Option Text → Text → Bool
  tree_matches none tree = true
  tree_matches (some resolved) tree = text_eq tree resolved

  unfoldable pub reconciled_commit :
      Text → Target → EffectManifest → Option Text → WorktreeState → Action W CherryPickOutcome
  reconciled_commit worktree_path target approved resolved_tree current =
      commit_info h worktree_path current.head >>= λ info.
      if single_parent target.expected_head info.parents
      then (manifest h worktree_path target.expected_head current.head >>= λ effect. pure (
          if text_eq effect.sha256 approved.sha256
            && tree_matches resolved_tree current.tree
            && is_at_rest current
          then succeeded (committed_of current)
          else mismatch (committed_of current)))
      else pure (mismatch (committed_of current))

  unfoldable pub reconcile_outcome :
      Text → Target → EffectManifest → Option Text → WorktreeState → Action W CherryPickOutcome
  reconcile_outcome worktree_path target approved resolved_tree current =
      if not (eq_option current.branch target.branch)
      then pure (unknown "Worktree is not on the expected branch.")
      else if not (text_eq current.head target.expected_head)
      then reconciled_commit worktree_path target approved resolved_tree current
      else choose (picking_head current)
          (λ cherry_pick_head. stopped_pick worktree_path cherry_pick_head current)
          (pure (
            if is_at_rest current
            then not_started
            else unknown "Unexpected repository state at the expected head."))

  unfoldable pub reconcile_integration :
      Text → Target → EffectManifest → Option Text → Action W CherryPickOutcome
  reconcile_integration worktree_path target approved resolved_tree = guarded_none (do
    current ← state h worktree_path
    reconcile_outcome worktree_path target approved resolved_tree current)
