-- ===== src/Git/Inspection.antt =====
-- What is read of a worktree: state, changedPaths, commitInfo, manifest, patch, isAncestor, and
-- their helpers statusRecords, detectOperation, gitPathIfExists, indexFingerprint, lsTreeModes,
-- listTrackedPaths and hashObjectBlob of packages/runtime/src/git-operations.ts.
use Prim.Native.String.{String}
use foundry_agent_workspace.Base.{
  ℕ, Bool, true, false, not, ◌||◌, Option, none, some, List, [], ◌∷◌, ◌++◌, ◌==◌, if◌then◌else◌,
  any, filter, nth, Text, split, ends_with,
}
use foundry_agent_workspace.Git.{
  Host, Action, ◌>>=◌, ◌>>◌, pure, gets, from_option, lift, check, choose, guarded_none, git, plain,
  any_exit, lit, words, FileKind, missing, unreadable, symbolic_link, other_file, folder,
}
use foundry_agent_workspace.Git.Texts.{
  is_empty, not_empty, char_is, trim, split_nul, slices, is_object_id,
}
use foundry_agent_workspace.Git.Status.{
  RawStatusRecord, changed, renamed, unmerged, untracked, parse_status_v2, ChangeKind, added,
  deleted, untracked_file, unmerged_file, classify_status_code,
}
use foundry_agent_workspace.Git.Manifests.{
  EffectManifest, parse_diff_tree_raw, sort_by_path_bytes, hash_manifest_entries, tree_records,
}

pub data GitOperationKind : Type 0 where
  no_operation cherry_picking sequencer merge rebase revert am bisect : GitOperationKind

abbrev pub is_no_operation : GitOperationKind → Bool
is_no_operation no_operation = true
is_no_operation _ = false

abbrev pub is_cherry_picking : GitOperationKind → Bool
is_cherry_picking cherry_picking = true
is_cherry_picking _ = false

pub record WorktreeState : Type 0 where
  pub head : Text
  pub tree : Text
  pub branch : Option Text
  pub clean : Bool
  pub staged_clean : Bool
  pub operation : GitOperationKind
  pub cherry_pick_head : Option Text
  pub unmerged_paths : List Text

pub record ChangedPath : Type 0 where
  pub path : Text
  pub kind : ChangeKind
  pub staged : Bool
  pub index_mode : Option Text
  pub worktree_mode : Option Text

pub record CommitInfo : Type 0 where
  pub sha : Text
  pub tree : Text
  pub parents : List Text

pub record Patch : Type 0 where
  pub patch : Text
  pub truncated : Bool

abbrev pub is_staged_record : RawStatusRecord → Bool
is_staged_record (changed xy _ _ _ _) = not (char_is 0 b'.' xy)
is_staged_record (renamed _ _ _ _ _ _) = true
is_staged_record (unmerged _ _ _ _ _ _) = true
is_staged_record (untracked _) = false

unfoldable pub unmerged_paths_of : List RawStatusRecord → List Text
unmerged_paths_of [] = []
unmerged_paths_of (unmerged _ _ _ _ _ path ∷ rs) = path ∷ unmerged_paths_of rs
unmerged_paths_of (changed _ _ _ _ _ ∷ rs) = unmerged_paths_of rs
unmerged_paths_of (renamed _ _ _ _ _ _ ∷ rs) = unmerged_paths_of rs
unmerged_paths_of (untracked _ ∷ rs) = unmerged_paths_of rs

-- One side of a changed record, if its status letter is not a dot.
abbrev pub side : ℕ → Bool → (xy m_i m_w path : Text) → List ChangedPath
side i staged xy m_i m_w path =
    if char_is i b'.' xy
    then []
    else record {
      path = path;
      kind = classify_status_code (nth i xy);
      staged = staged;
      index_mode = some m_i;
      worktree_mode = some m_w;
    }
      ∷ []

-- What `lstat` says of an untracked path.
abbrev pub untracked_mode : Text → FileKind → Option Text
untracked_mode path missing = none
untracked_mode path unreadable = none
untracked_mode path symbolic_link = some (lit "120000")
untracked_mode path (folder entries) = some (lit "160000")
untracked_mode path other_file =
    some (if ends_with path (lit "/") then lit "160000" else lit "100644")

module _ {W : Type 0} (h : Host W) where
  unfoldable pub status_records : Text → Action W (List RawStatusRecord)
  status_records worktree_path = do
    out ←
        git h worktree_path
          (words (
            "-c" ∷ "status.renames=false" ∷ "status" ∷ "--porcelain=v2" ∷ "-z"
            ∷ "--untracked-files=all" ∷ []))
          plain
    lift (parse_status_v2 out.stdout)

  unfoldable pub git_path_if_exists : Text → Text → Action W (Option Text)
  git_path_if_exists worktree_path relative = do
    out ← git h worktree_path (lit "rev-parse" ∷ lit "--git-path" ∷ relative ∷ []) plain
    let resolved = trim out.stdout
    let absolute = if h.is_absolute resolved then resolved else h.join worktree_path resolved
    found ← gets (h.accessible absolute)
    pure (if found then some absolute else none)

  -- `if (await this.gitPathIfExists(…)) return result;`
  unfoldable pub found_or : {A : Type 0} → Action W (Option Text) → A → Action W A → Action W A
  found_or probe result rest = probe >>= λ path. choose path (λ file. pure result) rest

  abbrev pub picked_head : Text → Option Text
  picked_head content = if is_empty content then none else some content

  unfoldable pub read_picked : Text → Action W (GitOperationKind × Option Text)
  read_picked file = do
    read ← gets (h.read_file file)
    content ← from_option read "CHERRY_PICK_HEAD cannot be read" []
    pure (cherry_picking, picked_head (trim content))

  unfoldable pub detect_rebase :
      Text → Action W (GitOperationKind × Option Text) → Action W (GitOperationKind × Option Text)
  detect_rebase worktree_path rest =
      git_path_if_exists worktree_path (lit "rebase-apply") >>= λ applying.
      choose applying
        (λ file.
          found_or (git_path_if_exists worktree_path (lit "rebase-apply/rebasing")) (rebase, none)
            (pure (am, none)))
        rest

  -- The kind of operation in progress, with the head that is being picked.
  unfoldable pub detect_operation : Text → Action W (GitOperationKind × Option Text)
  detect_operation worktree_path =
      let found =
        λ (relative : String) (kind : GitOperationKind)
            (rest : Action W (GitOperationKind × Option Text)).
          found_or (git_path_if_exists worktree_path (lit relative)) (kind, none) rest in
      git_path_if_exists worktree_path (lit "CHERRY_PICK_HEAD") >>= λ picking.
      choose picking read_picked (
        found "sequencer" sequencer (
          found "MERGE_HEAD" merge (
            found "rebase-merge" rebase (
              detect_rebase worktree_path (
                found "REVERT_HEAD" revert
                  (found "BISECT_LOG" bisect (pure (no_operation, none))))))))

  unfoldable pub state : Text → Action W WorktreeState
  state worktree_path = guarded_none (do
    head ← git h worktree_path (words ("rev-parse" ∷ "--verify" ∷ "HEAD^{commit}" ∷ [])) plain
    tree ← git h worktree_path (words ("rev-parse" ∷ "--verify" ∷ "HEAD^{tree}" ∷ [])) plain
    branch ← git h worktree_path (words ("symbolic-ref" ∷ "--short" ∷ "-q" ∷ "HEAD" ∷ [])) any_exit
    records ← status_records worktree_path
    operation ← detect_operation worktree_path
    pure (record {
      head = trim head.stdout;
      tree = trim tree.stdout;
      branch = if branch.exit == 0 then some (trim branch.stdout) else none;
      clean = is_empty records;
      staged_clean = not (any is_staged_record records);
      operation = operation.0;
      cherry_pick_head = operation.1;
      unmerged_paths = unmerged_paths_of records;
    }))

  -- What one status record adds.
  unfoldable pub record_changes : Text → RawStatusRecord → Action W (List ChangedPath)
  record_changes worktree_path (changed xy m_h m_i m_w path) =
      pure (side 0 true xy m_i m_w path ++ side 1 false xy m_i m_w path)
  record_changes worktree_path (renamed xy m_h m_i m_w path orig_path) =
      let staged = not (char_is 0 b'.' xy) in
      pure (
        record {
          path = orig_path;
          kind = deleted;
          staged = staged;
          index_mode = some m_i;
          worktree_mode = some m_w;
        }
        ∷ record {
          path = path;
          kind = added;
          staged = staged;
          index_mode = some m_i;
          worktree_mode = some m_w;
        }
        ∷ [])
  record_changes worktree_path (unmerged xy m1 m2 m3 m_w path) = pure (
      record {
        path = path;
        kind = unmerged_file;
        staged = true;
        index_mode = none;
        worktree_mode = some m_w;
      }
      ∷ [])
  record_changes worktree_path (untracked path) = do
    found ← gets (h.file_kind (h.join worktree_path path))
    pure (
        record {
          path = path;
          kind = untracked_file;
          staged = false;
          index_mode = none;
          worktree_mode = untracked_mode path found;
        }
        ∷ [])

  unfoldable pub all_changes : Text → List RawStatusRecord → Action W (List ChangedPath)
  all_changes worktree_path [] = pure []
  all_changes worktree_path (r ∷ rs) = do
    first ← record_changes worktree_path r
    rest ← all_changes worktree_path rs
    pure (first ++ rest)

  unfoldable pub changed_paths : Text → Action W (List ChangedPath)
  changed_paths worktree_path =
      guarded_none (do records ← status_records worktree_path; all_changes worktree_path records)

  unfoldable pub commit_info : Text → Text → Action W CommitInfo
  commit_info worktree_path sha = guarded_none (do
    full ←
        git h worktree_path (lit "rev-parse" ∷ lit "--verify" ∷ (sha ++ lit "^{commit}") ∷ []) plain
    check (not_empty (trim full.stdout)) "Commit does not exist." []
    tree ←
        git h worktree_path
          (lit "rev-parse" ∷ lit "--verify" ∷ (trim full.stdout ++ lit "^{tree}") ∷ []) plain
    parents ←
        git h worktree_path (lit "show" ∷ lit "-s" ∷ lit "--format=%P" ∷ trim full.stdout ∷ [])
          plain
    pure (record {
      sha = trim full.stdout;
      tree = trim tree.stdout;
      parents = filter not_empty (split b' ' (trim parents.stdout));
    }))

  unfoldable pub manifest : Text → Text → Text → Action W EffectManifest
  manifest worktree_path from to = guarded_none (do
    raw ←
        git h worktree_path
          (words (
              "diff-tree" ∷ "-r" ∷ "-z" ∷ "--raw" ∷ "--full-index" ∷ "--no-renames"
              ∷ "--no-ext-diff" ∷ "--no-textconv" ∷ [])
            ++ (from ∷ to ∷ []))
          plain
    parsed ← lift (parse_diff_tree_raw raw.stdout)
    let entries = sort_by_path_bytes parsed
    pure (record { entries = entries; sha256 = hash_manifest_entries h entries }))

  unfoldable pub patch : Text → Text → Text → Action W Patch
  patch worktree_path from to = guarded_none (do
    result ←
        git h worktree_path
          (words ("diff" ∷ "--no-ext-diff" ∷ "--no-textconv" ∷ "--no-renames" ∷ "--binary" ∷ [])
            ++ (from ∷ to ∷ []))
          (record { mutating = false; permit_truncation = true; allow_non_zero = false })
    pure (record { patch = result.stdout; truncated = result.truncated }))

  unfoldable pub is_ancestor : Text → Text → Text → Action W Bool
  is_ancestor worktree_path ancestor descendant = guarded_none (do
    result ←
        git h worktree_path
          (words ("merge-base" ∷ "--is-ancestor" ∷ []) ++ (ancestor ∷ descendant ∷ [])) any_exit
    check (result.exit == 0 || result.exit == 1) "Unable to determine ancestry" []
    pure (result.exit == 0))

  unfoldable pub index_fingerprint : Text → Action W Text
  index_fingerprint worktree_path = do
    out ← git h worktree_path (words ("ls-files" ∷ "-s" ∷ "-z" ∷ [])) plain
    pure (h.sha256 out.stdout)

  -- The modes of the paths in slices of a hundred, in one map.
  unfoldable pub slice_modes :
      Text → Text → List (List Text) → List (Text × Text) → Action W (List (Text × Text))
  slice_modes worktree_path ref [] modes = pure modes
  slice_modes worktree_path ref (batch ∷ rest) modes = do
    out ← git h worktree_path (lit "ls-tree" ∷ lit "-z" ∷ ref ∷ lit "--" ∷ batch) plain
    slice_modes worktree_path ref rest (tree_records (split_nul out.stdout) modes)

  unfoldable pub ls_tree_modes : Text → Text → List Text → Action W (List (Text × Text))
  ls_tree_modes worktree_path ref paths = slice_modes worktree_path ref (slices 100 paths) []

  unfoldable pub list_tracked_paths : Text → Text → Action W (List Text)
  list_tracked_paths worktree_path ref = do
    out ←
        git h worktree_path (words ("ls-tree" ∷ "-r" ∷ "-z" ∷ "--name-only" ∷ []) ++ (ref ∷ []))
          plain
    pure (split_nul out.stdout)

  unfoldable pub hash_object_blob : Text → Text → Action W Text
  hash_object_blob worktree_path relative_path = do
    out ←
        git h worktree_path
          (words ("hash-object" ∷ "--no-filters" ∷ "--" ∷ []) ++ (relative_path ∷ [])) plain
    check (is_object_id (trim out.stdout)) "Unexpected hash-object output." []
    pure (trim out.stdout)
