-- ===== src/Git/Handoff.antt =====
-- Preparation of a child's handoff: prepareHandoff, validateMessage, renderHandoffPatch and
-- boundConcat of packages/runtime/src/git-operations.ts. Each loop over the changed paths is a
-- function of its own; `byPath` is the map from a path to its records.
use foundry_agent_workspace.Base.{
  ℕ, ◌*◌, Bool, true, false, not, ◌&&◌, ◌||◌, Option, none, some, List, [], ◌∷◌, ◌++◌, map, ◌==◌,
  ltb, leb, if◌then◌else◌, any, find, length, Text, text_eq, lower,
}
use foundry_agent_workspace.Git.{
  Host, Action, ◌>>=◌, ◌>>◌, pure, gets, from_option, check, makes, for_each, collect, guarded_none,
  git, plain, any_exit, lit, words, GitIdentity, GitCallOptions,
}
use foundry_agent_workspace.Git.Texts.{
  is_empty, not_empty, trim, byte_length, path_le, sort_by, text_or,
}
use foundry_agent_workspace.Git.Status.{ChangeKind, deleted}
use foundry_agent_workspace.Git.Manifests.{
  EffectEntry, EffectManifest, a_added, a_modified, a_deleted, a_typechange, hash_manifest_entries,
  get_text, set_text,
}
use foundry_agent_workspace.Git.Inspection.{
  WorktreeState, ChangedPath, Patch, state, changed_paths, list_tracked_paths, ls_tree_modes,
  hash_object_blob, is_no_operation,
}
use foundry_agent_workspace.Git.Repositories.{
  max_paths, has_forbidden_segment, posix_basename, reject_filter_attributes, eq_option,
}

-- The mode and the blob of a path; a deletion has neither.
pub record HandoffEntry : Type 0 where
  pub path : Text
  pub mode : Option Text
  pub blob : Option Text

pub record PreparedHandoff : Type 0 where
  pub worktree_path : Text
  pub branch : Text
  pub expected_head : Text
  pub paths : List Text
  pub entries : List HandoffEntry
  pub manifest : EffectManifest
  pub patch : Text
  pub patch_truncated : Bool
  pub message : Text
  pub git_identity : GitIdentity
  pub fingerprint : Text

-- What the fingerprint digests, beside the digest of the patch.
pub record HandoffPrint : Type 0 where
  pub worktree_path : Text
  pub branch : Text
  pub expected_head : Text
  pub paths : List Text
  pub entries : List HandoffEntry
  pub manifest : EffectManifest
  pub message : Text
  pub git_identity : GitIdentity
  pub patch_sha256 : Text

pub record HandoffInput : Type 0 where
  pub branch : Text
  pub expected_head : Text
  pub message : Text
  pub allowed : Text → Bool

abbrev pub patch_limit_bytes : ℕ
patch_limit_bytes = 256 * 1024

abbrev pub is_dangerous : Text → Bool
is_dangerous mode = text_eq mode (lit "120000") || text_eq mode (lit "160000")

abbrev pub is_dangerous_mode : Option Text → Bool
is_dangerous_mode none = false
is_dangerous_mode (some mode) = is_dangerous mode

abbrev pub no_mode : Text
no_mode = lit "000000"

abbrev pub no_blob : Text
no_blob = lit "0000000000000000000000000000000000000000"

unfoldable pub group_paths :
    List ChangedPath → List (Text × List ChangedPath) → List (Text × List ChangedPath)
group_paths [] by_path = by_path
group_paths (entry ∷ rest) by_path =
    let list : List ChangedPath = elim (get_text entry.path by_path) [
      | none ↦ []
      | some found ↦ found
    ] in
    group_paths rest (set_text entry.path (list ++ entry ∷ []) by_path)

abbrev pub key_of : Text × List ChangedPath → Text
key_of entry = entry.0

-- The longest run of parts whose concatenation stays within the limit.
unfoldable pub bound_concat_from : Text → List Text → Patch
bound_concat_from out [] = record { patch = out; truncated = false }
bound_concat_from out (part ∷ parts) =
    let rest = bound_concat_from (out ++ part) parts in
    if ltb patch_limit_bytes (byte_length (out ++ part))
    then record { patch = out; truncated = true }
    else rest

unfoldable pub bound_concat : List Text → Patch
bound_concat parts = bound_concat_from [] parts

-- entry.worktreeMode && entry.worktreeMode !== '000000'
abbrev pub names_mode : Option Text → Bool
names_mode none = false
names_mode (some mode) = not_empty mode && not (text_eq mode no_mode)

abbrev pub mode_or_head : Option ChangedPath → Text → Text
mode_or_head (some entry) head_mode = text_or entry.worktree_mode []
mode_or_head none head_mode = if text_eq head_mode no_mode then lit "100644" else head_mode

-- The mode that the worktree has, if a record of the path names one; else that of HEAD.
unfoldable pub new_mode_of : List ChangedPath → Text → Text
new_mode_of records head_mode =
    mode_or_head (find (λ entry. names_mode entry.worktree_mode) records) head_mode

abbrev pub is_deleted : ChangeKind → Bool
is_deleted deleted = true
is_deleted _ = false

abbrev pub clashes : Option Text → Text → Bool
clashes none path = false
clashes (some existing) path = not_empty existing && not (text_eq existing path)

unfoldable pub tracked_lower : List Text → List (Text × Text) → List (Text × Text)
tracked_lower [] seen = seen
tracked_lower (path ∷ paths) seen = tracked_lower paths (set_text (lower path) path seen)

module _ {W : Type 0} where
  unfoldable pub validate_message : Text → Action W (Unit {0})
  validate_message message = do
    check (not_empty message) "Commit message must not be empty." []
    check (not (any (λ c. c == 0) message)) "Commit message must not contain NUL." []
    check (leb (byte_length message) 4096) "Commit message exceeds 4096 bytes." []

  unfoldable pub check_target : Text → Text → WorktreeState → Action W (Unit {0})
  check_target branch expected_head current = do
    check (eq_option current.branch branch) "Worktree is not on the expected branch." []
    check (text_eq current.head expected_head) "Worktree HEAD does not match the expected base." []

  unfoldable pub check_handoff_state : Text → Text → WorktreeState → Action W (Unit {0})
  check_handoff_state branch expected_head current = do
    check_target branch expected_head current
    check (is_no_operation current.operation) "A Git operation is already in progress." []
    check current.staged_clean "The index already has staged content." []
    check (is_empty current.unmerged_paths) "Unmerged paths are present." []

  unfoldable pub check_changed_path : (Text → Bool) → Text → Action W (Unit {0})
  check_changed_path allowed path = do
    check (not (has_forbidden_segment path)) "Path uses a forbidden .git segment: " (path ∷ [])
    check (not (text_eq (lower path) (lit ".gitmodules")))
        "Changes to .gitmodules are not permitted." []
    check (not (text_eq (lower (posix_basename path)) (lit ".gitattributes")))
        "Changes to .gitattributes are not permitted in a handoff." []
    check (allowed path) "Path is outside the approved scope: " (path ∷ [])

  -- The paths seen before, by their lower case.
  unfoldable pub check_case : List (Text × Text) → List Text → Action W (Unit {0})
  check_case seen [] = pure tt
  check_case seen (path ∷ paths) =
      check (not (clashes (get_text (lower path) seen) path)) "Paths differ only by case: "
        (path ∷ [])
      >> check_case (set_text (lower path) path seen) paths

  unfoldable pub check_tracked : List (Text × Text) → Text → Action W (Unit {0})
  check_tracked tracked path =
      check (not (clashes (get_text (lower path) tracked) path))
        "Path collides with an existing tracked path by case only: " (path ∷ [])

  unfoldable pub check_entry_modes : Text → ChangedPath → Action W (Unit {0})
  check_entry_modes path entry = do
    check (not (is_dangerous_mode entry.index_mode)) "Path has a symlink or gitlink index mode: "
        (path ∷ [])
    check (not (is_dangerous_mode entry.worktree_mode))
        "Path has a symlink or gitlink worktree mode: " (path ∷ [])

  unfoldable pub check_modes : List (Text × Text) → Text × List ChangedPath → Action W (Unit {0})
  check_modes head_modes (path, records) = do
    check (not (is_dangerous_mode (get_text path head_modes)))
        "Path has a symlink or gitlink mode in HEAD: " (path ∷ [])
    for_each (check_entry_modes path) records

module _ {W : Type 0} (h : Host W) where
  -- The empty file of the app, made if need be. The instance keeps its promise; here each preparation
  -- is the first of its instance.
  unfoldable pub prepare_empty_diff_source : Action W Text
  prepare_empty_diff_source = do
    let base = h.resolve_path h.worktree_base
    makes (h.make_folder base) "The folder of the app cannot be made." []
    real ← gets (h.real_path base)
    resolved ← from_option real "The folder of the app cannot be resolved." []
    let file = h.join resolved (lit ".empty-git-diff-source")
    found ← gets (h.accessible file)
    (if found
        then pure file
        else (makes (h.write_file file []) "The empty file cannot be written." [] >> pure file))

  -- A path that HEAD has is compared with HEAD, a new one with the empty file.
  unfoldable pub entry_patch :
      Text → Text → Text → List (Text × Text) → HandoffEntry → Action W Text
  entry_patch empty_file worktree_path expected_head head_modes entry =
      let bounded : GitCallOptions = record {
        mutating = false;
        permit_truncation = true;
        allow_non_zero = false;
      } in
      let in_head : Bool = elim (get_text entry.path head_modes) [
        | none ↦ false
        | some mode ↦ true
      ] in
      let gone : Bool = elim entry.blob [ none ↦ true | some blob ↦ false ] in
      let against_head =
        git h worktree_path
          (words ("diff" ∷ "--no-ext-diff" ∷ "--no-textconv" ∷ "--no-renames" ∷ "--binary" ∷ [])
            ++ (expected_head ∷ lit "--" ∷ entry.path ∷ []))
          bounded in
      let against_nothing =
        git h worktree_path
          (words
              ("diff" ∷ "--no-index" ∷ "--no-ext-diff" ∷ "--no-textconv" ∷ "--binary" ∷ "--" ∷ [])
            ++ (empty_file ∷ h.join worktree_path entry.path ∷ []))
          (record bounded { allow_non_zero = true }) in
      (if gone || in_head then against_head else against_nothing) >>= λ result. pure result.stdout

  unfoldable pub render_handoff_patch :
      Text → Text → List HandoffEntry → List (Text × Text) → Action W Patch
  render_handoff_patch worktree_path expected_head entries head_modes = do
    empty_file ← prepare_empty_diff_source
    parts ← collect (entry_patch empty_file worktree_path expected_head head_modes) entries
    pure (bound_concat parts)

  abbrev pub head_blob : Text → Text → Text → Text → Action W Text
  head_blob worktree_path expected_head path head_mode =
      if text_eq head_mode no_mode
      then pure no_blob
      else (git h worktree_path (lit "rev-parse" ∷ (expected_head ++ (lit ":" ++ path)) ∷ []) plain
          >>= λ out. pure (trim out.stdout))

  -- The snapshot of one path, and its line of the manifest.
  unfoldable pub handoff_entry :
      Text
      → Text
      → List (Text × List ChangedPath)
      → List (Text × Text)
      → Text
      → Action W (HandoffEntry × EffectEntry)
  handoff_entry worktree_path expected_head by_path head_modes path =
      let records : List ChangedPath = elim (get_text path by_path) [
        | none ↦ []
        | some found ↦ found
      ] in
      let head_mode = text_or (get_text path head_modes) no_mode in
      let new_mode = new_mode_of records head_mode in
      let status =
        if text_eq head_mode no_mode
        then a_added
        else if text_eq new_mode head_mode
        then a_modified
        else a_typechange in
      head_blob worktree_path expected_head path head_mode >>= λ old_blob.
      if any (λ entry. is_deleted entry.kind) records
      then pure (
        record { path = path; mode = none; blob = none },
        record {
          path = path;
          status = a_deleted;
          old_mode = head_mode;
          new_mode = no_mode;
          old_blob = old_blob;
          new_blob = no_blob;
        },
      )
      else (hash_object_blob h worktree_path path >>= λ new_blob. pure (
        record { path = path; mode = some new_mode; blob = some new_blob },
        record {
          path = path;
          status = status;
          old_mode = head_mode;
          new_mode = new_mode;
          old_blob = old_blob;
          new_blob = new_blob;
        },
      ))

  abbrev pub committer_identity : Text → Action W (Unit {0})
  committer_identity worktree_path =
      git h worktree_path (words ("var" ∷ "GIT_COMMITTER_IDENT" ∷ [])) any_exit >>= λ ident.
      check (ident.exit == 0 && not_empty (trim ident.stdout))
        "A committer identity is not available." []

  abbrev pub read_identity : Text → Action W GitIdentity
  read_identity worktree_path = guarded_none (do
    found ← gets (h.identity worktree_path)
    from_option found "A Git executable was not found." [])

  -- The changed paths that pass every test, with the modes that HEAD has for them.
  unfoldable pub approved_changes :
      Text → HandoffInput → Action W (List (Text × List ChangedPath) × List (Text × Text))
  approved_changes worktree_path input = do
    validate_message input.message
    current ← state h worktree_path
    check_handoff_state input.branch input.expected_head current
    changed ← changed_paths h worktree_path
    check (not (is_empty changed)) "There are no changes to hand off." []
    let by_path = group_paths changed []
    let paths = map key_of by_path
    check (leb (length paths) max_paths) "Too many changed paths to safely hand off." []
    for_each (check_changed_path input.allowed) paths
    check_case [] paths
    tracked ← list_tracked_paths h worktree_path input.expected_head
    for_each (check_tracked (tracked_lower tracked [])) paths
    head_modes ← ls_tree_modes h worktree_path input.expected_head paths
    for_each (check_modes head_modes) by_path
    reject_filter_attributes h worktree_path paths none
    committer_identity worktree_path
    pure (by_path, head_modes)

  unfoldable pub prepare_handoff : Text → HandoffInput → Action W PreparedHandoff
  prepare_handoff worktree_path input = guarded_none (do
    approved ← approved_changes worktree_path input
    let paths = sort_by path_le (map key_of approved.0)
    made ← collect (handoff_entry worktree_path input.expected_head approved.0 approved.1) paths
    let entries = map (λ (e : HandoffEntry × EffectEntry). e.0) made
    let lines = map (λ (e : HandoffEntry × EffectEntry). e.1) made
    let manifest : EffectManifest = record {
      entries = lines;
      sha256 = hash_manifest_entries h lines;
    }
    rendered ← render_handoff_patch worktree_path input.expected_head entries approved.1
    identity ← read_identity worktree_path
    let print : HandoffPrint = record {
      worktree_path = worktree_path;
      branch = input.branch;
      expected_head = input.expected_head;
      paths = paths;
      entries = entries;
      manifest = manifest;
      message = input.message;
      git_identity = identity;
      patch_sha256 = h.sha256 rendered.patch;
    }
    pure (record {
      worktree_path = worktree_path;
      branch = input.branch;
      expected_head = input.expected_head;
      paths = paths;
      entries = entries;
      manifest = manifest;
      patch = rendered.patch;
      patch_truncated = rendered.truncated;
      message = input.message;
      git_identity = identity;
      fingerprint = h.json_sha256 print;
    }))
