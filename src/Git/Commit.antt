-- ===== src/Git/Commit.antt =====
-- The commit of an approved handoff and its recovery: commitHandoff and reconcileHandoff of
-- packages/runtime/src/git-operations.ts. The hooks `staged` and `committed` only inform the caller
-- and are left out.
use Prim.Native.String.{String}
use foundry_agent_workspace.Base.{
  Bool, true, false, not, ◌&&◌, Option, none, some, List, [], ◌∷◌, ◌++◌, if◌then◌else◌, Text,
  text_eq,
}
use foundry_agent_workspace.Git.{
  Host, Action, ◌>>=◌, ◌>>◌, pure, check, for_each, mark_mutation, guarded_none, guarded_mutation,
  git, plain, mutation, lit, words,
}
use foundry_agent_workspace.Git.Texts.{trim, split_nul, slices, path_le, sort_by, mem_text}
use foundry_agent_workspace.Git.Manifests.{EffectManifest, get_text, index_records}
use foundry_agent_workspace.Git.Inspection.{
  WorktreeState, state, commit_info, manifest, is_no_operation,
}
use foundry_agent_workspace.Git.Repositories.{eq_option}
use foundry_agent_workspace.Git.Handoff.{HandoffEntry, PreparedHandoff, prepare_handoff}

unfoldable pub same_texts : List Text → List Text → Bool
same_texts [] [] = true
same_texts (s ∷ ss) (t ∷ ts) = text_eq s t && same_texts ss ts
same_texts _ _ = false

-- `info.parents.length === 1 && info.parents[0] === head`
abbrev pub single_parent : Text → List Text → Bool
single_parent head (parent ∷ []) = text_eq parent head
single_parent head _ = false

abbrev pub is_staged : HandoffEntry → Option (Text × Text) → Bool
is_staged entry actual = elim entry.blob [
  | none ↦ elim actual [ none ↦ true | some found ↦ false ]
  | some blob ↦ elim actual [
    | none ↦ false
    | some (mode, staged_blob) ↦ eq_option entry.mode mode && text_eq staged_blob blob
  ]
]

pub record Committed : Type 0 where
  pub commit : Text
  pub tree : Text

pub data HandoffReconciliation : Type 0 where
  complete : Committed → HandoffReconciliation
  not_started : HandoffReconciliation
  unknown : String → HandoffReconciliation

module _ {W : Type 0} (h : Host W) where
  unfoldable pub add_slice : Text → List Text → Action W (Unit {0})
  add_slice worktree_path batch =
      git h worktree_path (words ("add" ∷ "--all" ∷ "--" ∷ []) ++ batch) mutation >>= λ out. pure tt

  abbrev pub check_staged : List (Text × (Text × Text)) → HandoffEntry → Action W (Unit {0})
  check_staged staged entry =
      check (is_staged entry (get_text entry.path staged))
        "Staged content does not match the approved snapshot: " (entry.path ∷ [])

  -- Staging and the tree, up to the commit.
  unfoldable pub stage : PreparedHandoff → Action W Text
  stage prepared = do
    for_each (add_slice prepared.worktree_path) (slices 200 prepared.paths)
    names ←
        git h prepared.worktree_path
          (words ("diff" ∷ "--cached" ∷ "--name-only" ∷ "--no-renames" ∷ "-z" ∷ "HEAD" ∷ [])) plain
    check (same_texts (sort_by path_le (split_nul names.stdout)) (sort_by path_le prepared.paths))
        "Staged paths do not match the approved path set." []
    listed ←
        git h prepared.worktree_path
          (words ("ls-files" ∷ "-s" ∷ "-z" ∷ "--" ∷ []) ++ prepared.paths) plain
    for_each (check_staged (index_records (split_nul listed.stdout) [])) prepared.entries
    tree ← git h prepared.worktree_path (words ("write-tree" ∷ [])) plain
    tree_manifest ← manifest h prepared.worktree_path prepared.expected_head (trim tree.stdout)
    check (text_eq tree_manifest.sha256 prepared.manifest.sha256)
        "The staged tree does not match the approved effect manifest." []
    pure (trim tree.stdout)

  -- The commit, the update of the branch, and the tests of what was made.
  unfoldable pub commit_tree : PreparedHandoff → Text → Action W Committed
  commit_tree prepared tree = do
    made ←
        git h prepared.worktree_path
          (lit "commit-tree"
            ∷ tree
            ∷ lit "-p"
            ∷ prepared.expected_head
            ∷ lit "-m"
            ∷ prepared.message
            ∷ [])
          mutation
    let commit = trim made.stdout
    updated ←
        git h prepared.worktree_path
          (lit "update-ref"
            ∷ (lit "refs/heads/" ++ prepared.branch)
            ∷ commit
            ∷ prepared.expected_head
            ∷ [])
          mutation
    after ← state h prepared.worktree_path
    check (text_eq after.head commit) "HEAD does not reflect the new commit." []
    info ← commit_info h prepared.worktree_path commit
    check (single_parent prepared.expected_head info.parents)
        "The new commit does not have the expected single parent." []
    check (after.clean && is_no_operation after.operation)
        "The worktree is not clean after committing the handoff." []
    pure (record { commit = commit; tree = tree })

  unfoldable pub commit_handoff : PreparedHandoff → Action W Committed
  commit_handoff prepared = guarded_mutation (do
    fresh ← prepare_handoff h prepared.worktree_path (record {
      branch = prepared.branch;
      expected_head = prepared.expected_head;
      message = prepared.message;
      allowed = λ path. mem_text path prepared.paths;
    })
    check (text_eq fresh.fingerprint prepared.fingerprint) "The approved handoff is stale." []
    mark_mutation
    tree ← stage prepared
    commit_tree prepared tree)

  abbrev pub handoff_effect :
      Text → WorktreeState → EffectManifest → EffectManifest → HandoffReconciliation
  handoff_effect expected_head current approved effect =
      if not (text_eq effect.sha256 approved.sha256)
      then unknown "The resulting effect does not match the approved manifest."
      else if current.clean
      then complete (record { commit = current.head; tree = current.tree })
      else unknown "The worktree is not clean."

  -- A head that has moved.
  unfoldable pub reconcile_commit :
      Text → Text → EffectManifest → WorktreeState → Action W HandoffReconciliation
  reconcile_commit worktree_path expected_head approved current =
      commit_info h worktree_path current.head >>= λ info.
      if single_parent expected_head info.parents
      then (manifest h worktree_path expected_head current.head >>= λ effect.
          pure (handoff_effect expected_head current approved effect))
      else pure (unknown "The branch head does not have the expected single parent.")

  unfoldable pub reconcile_handoff :
      Text → (branch expected_head : Text) → EffectManifest → Action W HandoffReconciliation
  reconcile_handoff worktree_path branch expected_head approved = guarded_none (
      state h worktree_path >>= λ current.
      if not (eq_option current.branch branch)
      then pure (unknown "Worktree is not on the expected branch.")
      else if text_eq current.head expected_head
      then pure (
          if current.staged_clean
          then not_started
          else unknown "The index has staged content without a resulting commit.")
      else reconcile_commit worktree_path expected_head approved current)
