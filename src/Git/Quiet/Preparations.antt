-- ===== src/Git/Quiet/Preparations.antt =====
-- The preparations of a handoff, a pick and a continuation leave the session alone, for a host on
-- which a launch that is not marked as mutating reads only: prepareHandoff, prepareCherryPick and
-- prepareContinue of packages/runtime/src/git-operations.ts, with their guards.
use foundry_agent_workspace.Base.{Bool, Option, List, [], ◌∷◌, Text}
use foundry_agent_workspace.Git.{Host}
use foundry_agent_workspace.Git.Manifests.{EffectEntry, EffectManifest}
use foundry_agent_workspace.Git.Inspection.{WorktreeState, ChangedPath}
use foundry_agent_workspace.Git.Repositories.{reject_filter_slice, reject_filter_attributes}
use foundry_agent_workspace.Git.Handoff.{
  HandoffEntry, HandoffInput, validate_message, check_target, check_handoff_state,
  check_changed_path, check_case, check_tracked, check_entry_modes, check_modes,
  prepare_empty_diff_source, entry_patch, render_handoff_patch, handoff_entry, approved_changes,
  prepare_handoff,
}
use foundry_agent_workspace.Git.Integration.{
  Target, check_merge_slice, check_source_entry, reject_merge_drivers, source_parent_of,
  prepare_cherry_pick, stopped_pick, picked_commit, pick_outcome, prepare_continue,
}
use foundry_agent_workspace.Git.Quiet.{
  Quiet, ReadsOnly, Aside, aside_rules, Quiet-git-Aside, Quiet-makes, read_rules, quiet_rules,
  read_rules, Quiet-git, Quiet-pure, Quiet-raise, Quiet-check, Quiet-bind,
}
use foundry_agent_workspace.Git.Quiet.Inspections.{
  Quiet-state, Quiet-changed_paths, Quiet-commit_info, Quiet-manifest, Quiet-patch,
  Quiet-index_fingerprint, Quiet-ls_tree_modes, Quiet-list_tracked_paths, Quiet-hash_object_blob,
}

module _ {W V : Type 0} {v : W → V} (h : Host W) (reads : ReadsOnly v h) where
  pub Quiet-reject_filter_slice :
      (cwd : Text) (source : Option Text) (batch : List Text)
      → Quiet v (reject_filter_slice h cwd source batch)
  unfolding reject_filter_slice
  Quiet-reject_filter_slice cwd source batch =
      search (quiet_rules, read_rules, Quiet-git) depth 40 fits 6000

  pub Quiet-reject_filter_attributes :
      (cwd : Text) (paths : List Text) (source : Option Text)
      → Quiet v (reject_filter_attributes h cwd paths source)
  unfolding reject_filter_attributes
  Quiet-reject_filter_attributes cwd paths source =
      search (quiet_rules, Quiet-reject_filter_slice) depth 40 fits 6000

  pub Quiet-validate_message : (m : Text) → Quiet v (validate_message m)
  unfolding validate_message
  Quiet-validate_message m = search (quiet_rules) depth 40 fits 6000

  pub Quiet-check_target : (b e : Text) (c : WorktreeState) → Quiet v (check_target b e c)
  unfolding check_target
  Quiet-check_target b e c = search (quiet_rules) depth 40 fits 6000

  pub Quiet-check_handoff_state :
      (b e : Text) (c : WorktreeState) → Quiet v (check_handoff_state b e c)
  unfolding check_handoff_state
  Quiet-check_handoff_state b e c = search (quiet_rules, Quiet-check_target) depth 40 fits 6000

  pub Quiet-check_changed_path :
      (allowed : Text → Bool) (path : Text) → Quiet v (check_changed_path allowed path)
  unfolding check_changed_path
  Quiet-check_changed_path allowed path = search (quiet_rules) depth 40 fits 6000

  pub Quiet-check_case :
      (paths : List Text) (seen : List (Text × Text)) → Quiet v (check_case seen paths)
  unfolding check_case
  Quiet-check_case [] seen = Quiet-pure tt
  Quiet-check_case (path ∷ paths) seen =
      Quiet-bind _ _ (Quiet-check _ _ _) (λ _. Quiet-check_case paths _)

  pub Quiet-check_tracked :
      (tracked : List (Text × Text)) (path : Text) → Quiet v (check_tracked tracked path)
  unfolding check_tracked
  Quiet-check_tracked tracked path = search (quiet_rules) depth 40 fits 6000

  pub Quiet-check_entry_modes :
      (path : Text) (entry : ChangedPath) → Quiet v (check_entry_modes path entry)
  unfolding check_entry_modes
  Quiet-check_entry_modes path entry = search (quiet_rules) depth 40 fits 6000

  pub Quiet-check_modes :
      (modes : List (Text × Text)) (entry : Text × List ChangedPath)
      → Quiet v (check_modes modes entry)
  unfolding check_modes
  Quiet-check_modes modes entry = search (quiet_rules, Quiet-check_entry_modes) depth 40 fits 6000

  pub Quiet-handoff_entry :
      (p e : Text) (by_path : List (Text × List ChangedPath)) (modes : List (Text × Text))
      (path : Text)
      → Quiet v (handoff_entry h p e by_path modes path)
  unfolding handoff_entry
  Quiet-handoff_entry p e by_path modes path =
      search (quiet_rules, read_rules, Quiet-git, Quiet-hash_object_blob) depth 40 fits 6000

  pub Quiet-approved_changes :
      (p : Text) (input : HandoffInput) → Quiet v (approved_changes h p input)
  unfolding approved_changes
  Quiet-approved_changes p input =
      search
        (
          quiet_rules, read_rules, Quiet-git, Quiet-validate_message, Quiet-state,
          Quiet-check_handoff_state, Quiet-changed_paths, Quiet-check_changed_path,
          Quiet-check_case, Quiet-list_tracked_paths, Quiet-check_tracked, Quiet-ls_tree_modes,
          Quiet-check_modes, Quiet-reject_filter_attributes,
        )
        depth 40 fits 6000

  pub Quiet-check_merge_slice :
      (p : Text) (batch : List Text) → Quiet v (check_merge_slice h p batch)
  unfolding check_merge_slice
  Quiet-check_merge_slice p batch = search (quiet_rules, read_rules, Quiet-git) depth 40 fits 6000

  pub Quiet-check_source_entry : (entry : EffectEntry) → Quiet v (check_source_entry h entry)
  unfolding check_source_entry
  Quiet-check_source_entry entry = search (quiet_rules) depth 40 fits 6000

  pub Quiet-reject_merge_drivers : (p : Text) → Quiet v (reject_merge_drivers h p)
  unfolding reject_merge_drivers
  Quiet-reject_merge_drivers p = search (quiet_rules, read_rules, Quiet-git) depth 40 fits 6000

  Quiet-source_parent_of : (parents : List Text) → Quiet v (source_parent_of h parents)
  Quiet-source_parent_of [] = Quiet-raise _ _
  Quiet-source_parent_of (parent ∷ []) = search (quiet_rules) depth 30
  Quiet-source_parent_of (parent ∷ (other ∷ rest)) = Quiet-raise _ _

  pub Quiet-prepare_cherry_pick :
      (p : Text) (target : Target) (sha : Text) → Quiet v (prepare_cherry_pick h p target sha)
  unfolding prepare_cherry_pick
  Quiet-prepare_cherry_pick p target sha =
      search
        (
          quiet_rules, read_rules, Quiet-git, Quiet-state, Quiet-commit_info,
          Quiet-source_parent_of, Quiet-manifest, Quiet-reject_merge_drivers,
          Quiet-check_merge_slice, Quiet-check_source_entry, Quiet-reject_filter_attributes,
          Quiet-patch,
        )
        depth 40 fits 6000

  pub Quiet-stopped_pick :
      (p head : Text) (current : WorktreeState) → Quiet v (stopped_pick h p head current)
  unfolding stopped_pick
  Quiet-stopped_pick p head current =
      search (quiet_rules, Quiet-index_fingerprint) depth 40 fits 6000

  pub Quiet-picked_commit :
      (p : Text) (target : Target) (approved : EffectManifest) (after : WorktreeState)
      → Quiet v (picked_commit h p target approved after)
  unfolding picked_commit
  Quiet-picked_commit p target approved after =
      search (quiet_rules, Quiet-commit_info, Quiet-manifest) depth 40 fits 6000

  pub Quiet-pick_outcome :
      (p : Text) (target : Target) (approved : EffectManifest) (after : WorktreeState)
      → Quiet v (pick_outcome h p target approved after)
  unfolding pick_outcome
  Quiet-pick_outcome p target approved after =
      search (quiet_rules, Quiet-picked_commit, Quiet-stopped_pick) depth 40 fits 6000

module _ {W V : Type 0} {v : W → V} (h : Host W) (reads : ReadsOnly v h) (aside : Aside v h) where
  Quiet-prepare_empty_diff_source : Quiet v (prepare_empty_diff_source h)
  unfolding prepare_empty_diff_source
  Quiet-prepare_empty_diff_source =
      search (quiet_rules, Quiet-makes, aside.base_folder, aside.empty_file) depth 40 fits 6000

  pub Quiet-entry_patch :
      (empty p e : Text) (modes : List (Text × Text)) (entry : HandoffEntry)
      → Quiet v (entry_patch h empty p e modes entry)
  unfolding entry_patch
  Quiet-entry_patch empty p e modes entry =
      search (quiet_rules, aside_rules, Quiet-git-Aside) depth 40 fits 6000

  pub Quiet-render_handoff_patch :
      (p e : Text) (entries : List HandoffEntry) (modes : List (Text × Text))
      → Quiet v (render_handoff_patch h p e entries modes)
  unfolding render_handoff_patch
  Quiet-render_handoff_patch p e entries modes =
      search (quiet_rules, Quiet-prepare_empty_diff_source, Quiet-entry_patch) depth 40 fits 6000

  pub Quiet-prepare_handoff :
      (p : Text) (input : HandoffInput) → Quiet v (prepare_handoff h p input)
  unfolding prepare_handoff
  Quiet-prepare_handoff p input =
      search (quiet_rules, Quiet-approved_changes, Quiet-handoff_entry, Quiet-render_handoff_patch)
        depth 40 fits 6000

  pub Quiet-prepare_continue :
      (p : Text) (target : Target) (head : Text) → Quiet v (prepare_continue h p target head)
  unfolding prepare_continue
  Quiet-prepare_continue p target head =
      search
        (
          quiet_rules, aside_rules, Quiet-git-Aside, Quiet-state, Quiet-changed_paths,
          Quiet-manifest, Quiet-patch,
        )
        depth 40 fits 6000
