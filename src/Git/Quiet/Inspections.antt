-- ===== src/Git/Quiet/Inspections.antt =====
-- The inspections of a worktree leave the session alone, for a host on which a launch that is not
-- marked as mutating reads only: state, changedPaths, commitInfo, manifest, patch and isAncestor of
-- packages/runtime/src/git-operations.ts, with their helpers.
use foundry_agent_workspace.Base.{Option, List, [], ◌∷◌, Text}
use foundry_agent_workspace.Git.{Host, Action}
use foundry_agent_workspace.Git.Status.{RawStatusRecord, changed, renamed, unmerged, untracked}
use foundry_agent_workspace.Git.Inspection.{
  GitOperationKind, all_changes, changed_paths, commit_info, detect_operation, detect_rebase,
  found_or, git_path_if_exists, hash_object_blob, index_fingerprint, is_ancestor,
  list_tracked_paths, ls_tree_modes, manifest, patch, read_picked, record_changes, slice_modes,
  state, status_records,
}
use foundry_agent_workspace.Git.Quiet.{
  Quiet, ReadsOnly, read_rules, quiet_rules, read_rules, Quiet-git, Quiet-pure, Quiet-bind,
  Quiet-choose,
}

module _ {W V : Type 0} {v : W → V} (h : Host W) (reads : ReadsOnly v h) where
  pub Quiet-status_records : (p : Text) → Quiet v (status_records h p)
  unfolding status_records
  Quiet-status_records p = search (quiet_rules, read_rules, Quiet-git) depth 40 fits 6000

  pub Quiet-git_path_if_exists : (p r : Text) → Quiet v (git_path_if_exists h p r)
  unfolding git_path_if_exists
  Quiet-git_path_if_exists p r = search (quiet_rules, read_rules, Quiet-git) depth 40 fits 6000

  pub Quiet-read_picked : (f : Text) → Quiet v (read_picked h f)
  unfolding read_picked
  Quiet-read_picked f = search (quiet_rules) depth 40 fits 6000

  pub Quiet-found_or :
      {A : Type 0} (probe : Action W (Option Text)) (result : A) (rest : Action W A)
      → Quiet v probe
      → Quiet v rest
      → Quiet v (found_or h probe result rest)
  unfolding found_or
  Quiet-found_or probe result rest qp qr = search (quiet_rules, qp, qr) depth 30

  pub Quiet-detect_rebase :
      (p : Text) (rest : Action W (GitOperationKind × Option Text))
      → Quiet v rest
      → Quiet v (detect_rebase h p rest)
  unfolding detect_rebase
  Quiet-detect_rebase p rest q = Quiet-bind _ _ (Quiet-git_path_if_exists p _) (λ applying.
      Quiet-choose applying _ _
        (λ file. Quiet-found_or _ _ _ (Quiet-git_path_if_exists p _) (Quiet-pure _)) q)

  pub Quiet-detect_operation : (p : Text) → Quiet v (detect_operation h p)
  unfolding detect_operation
  Quiet-detect_operation p =
      search
        (
          quiet_rules, Quiet-git_path_if_exists, Quiet-found_or, Quiet-read_picked,
          Quiet-detect_rebase,
        )
        depth 40 fits 6000

  pub Quiet-state : (p : Text) → Quiet v (state h p)
  unfolding state
  Quiet-state p =
      search (quiet_rules, read_rules, Quiet-git, Quiet-status_records, Quiet-detect_operation)
        depth 40 fits 6000

  pub Quiet-record_changes : (p : Text) (r : RawStatusRecord) → Quiet v (record_changes h p r)
  unfolding record_changes
  Quiet-record_changes p (changed _ _ _ _ _) = Quiet-pure _
  Quiet-record_changes p (renamed _ _ _ _ _ _) = Quiet-pure _
  Quiet-record_changes p (unmerged _ _ _ _ _ _) = Quiet-pure _
  Quiet-record_changes p (untracked path) = search (quiet_rules) depth 30

  pub Quiet-all_changes : (p : Text) (rs : List RawStatusRecord) → Quiet v (all_changes h p rs)
  unfolding all_changes
  Quiet-all_changes p [] = Quiet-pure []
  Quiet-all_changes p (r ∷ rs) =
      Quiet-bind _ _ (Quiet-record_changes p r)
        (λ first. Quiet-bind _ _ (Quiet-all_changes p rs) (λ rest. Quiet-pure _))

  pub Quiet-changed_paths : (p : Text) → Quiet v (changed_paths h p)
  unfolding changed_paths
  Quiet-changed_paths p =
      search (quiet_rules, Quiet-status_records, Quiet-all_changes) depth 40 fits 6000

  pub Quiet-commit_info : (p sha : Text) → Quiet v (commit_info h p sha)
  unfolding commit_info
  Quiet-commit_info p sha = search (quiet_rules, read_rules, Quiet-git) depth 40 fits 6000

  pub Quiet-manifest : (p from to : Text) → Quiet v (manifest h p from to)
  unfolding manifest
  Quiet-manifest p from to = search (quiet_rules, read_rules, Quiet-git) depth 40 fits 6000

  pub Quiet-patch : (p from to : Text) → Quiet v (patch h p from to)
  unfolding patch
  Quiet-patch p from to = search (quiet_rules, read_rules, Quiet-git) depth 40 fits 6000

  pub Quiet-is_ancestor : (p a d : Text) → Quiet v (is_ancestor h p a d)
  unfolding is_ancestor
  Quiet-is_ancestor p a d = search (quiet_rules, read_rules, Quiet-git) depth 40 fits 6000

  pub Quiet-index_fingerprint : (p : Text) → Quiet v (index_fingerprint h p)
  unfolding index_fingerprint
  Quiet-index_fingerprint p = search (quiet_rules, read_rules, Quiet-git) depth 40 fits 6000

  pub Quiet-slice_modes :
      (p ref : Text) (batches : List (List Text)) (modes : List (Text × Text))
      → Quiet v (slice_modes h p ref batches modes)
  unfolding slice_modes
  Quiet-slice_modes p ref [] modes = Quiet-pure modes
  Quiet-slice_modes p ref (batch ∷ rest) modes =
      Quiet-bind _ _ (search (quiet_rules, read_rules, Quiet-git) depth 30)
        (λ out. Quiet-slice_modes p ref rest _)

  pub Quiet-ls_tree_modes :
      (p ref : Text) (paths : List Text) → Quiet v (ls_tree_modes h p ref paths)
  unfolding ls_tree_modes
  Quiet-ls_tree_modes p ref paths = search (quiet_rules, Quiet-slice_modes) depth 40 fits 6000

  pub Quiet-list_tracked_paths : (p ref : Text) → Quiet v (list_tracked_paths h p ref)
  unfolding list_tracked_paths
  Quiet-list_tracked_paths p ref = search (quiet_rules, read_rules, Quiet-git) depth 40 fits 6000

  pub Quiet-hash_object_blob : (p r : Text) → Quiet v (hash_object_blob h p r)
  unfolding hash_object_blob
  Quiet-hash_object_blob p r = search (quiet_rules, read_rules, Quiet-git) depth 40 fits 6000
