-- ===== src/Git/Repositories.antt =====
-- Guards on repositories and paths, and the worktrees of children: requireRoot, requireRepository,
-- assertGitOutside, rejectCoreWorktree, rejectTrackedFilters, rejectFilterAttributes,
-- requireChildId, hasForbiddenSegment, createChildWorktree and reconcileChildWorktree of
-- packages/runtime/src/git-operations.ts. `inside` is isInside, which compares resolved paths.
use Prim.Native.String.{String}
use foundry_agent_workspace.Base.{
  drop, ℕ, zero, suc, Bool, true, false, not, ◌&&◌, ◌||◌, Option, none, some, List, [], ◌∷◌, ◌++◌,
  ◌==◌, leb, if◌then◌else◌, any, length, reverse, Text, text_eq, split, lower, starts_with,
}
use foundry_agent_workspace.Git.{
  Host, Action, ◌>>=◌, ◌>>◌, pure, raise, gets, from_option, check, makes, for_each, mark_mutation,
  guarded_none, guarded_mutation, git, plain, any_exit, mutation, lit, words, FileKind, missing,
  unreadable, folder,
}
use foundry_agent_workspace.Git.Texts.{not_empty, trim, split_nul, slices, is_object_id, is_uuid}
use foundry_agent_workspace.Git.Inspection.{WorktreeState, state, is_no_operation}

abbrev pub max_paths : ℕ
max_paths = 5000

unfoldable pub has_forbidden_segment : Text → Bool
has_forbidden_segment relative_path =
    any (λ segment. text_eq (lower segment) (lit ".git")) (split b'/' relative_path)

abbrev pub last_segment : List Text → Text
last_segment [] = []
last_segment (s ∷ []) = s
last_segment (s ∷ (t ∷ ts)) = last_segment (t ∷ ts)

unfoldable pub drop_slashes : Text → Text
drop_slashes [] = []
drop_slashes (c ∷ t) = if c == b'/' then drop_slashes t else c ∷ t

-- `path.posix.basename(text)`
unfoldable pub posix_basename : Text → Text
posix_basename t = last_segment (split b'/' (reverse (drop_slashes (reverse t))))

-- Every third value of `check-attr -z`, from the third on, is an attribute's value.
unfoldable pub has_filter : ℕ → List Text → Bool
has_filter position [] = false
has_filter zero (value ∷ values) =
    (not_empty value && not (text_eq value (lit "unspecified"))) || has_filter 2 values
has_filter (suc n) (value ∷ values) = has_filter n values

abbrev pub source_option : Option Text → List Text
source_option none = []
source_option (some source) = (lit "--source=" ++ source) ∷ []

-- What is inspected: registered worktree, branch head at the base, path.
pub data ChildWorktree : Type 0 where
  complete : (worktree_path branch base_commit base_tree : Text) → ChildWorktree
  not_started : ChildWorktree
  unknown : ChildWorktree

pub record CreatedWorktree : Type 0 where
  pub worktree_path : Text
  pub branch : Text
  pub base_commit : Text
  pub base_tree : Text

abbrev pub eq_option : Option Text → Text → Bool
eq_option none t = false
eq_option (some s) t = text_eq s t

abbrev pub is_registered : (Text → Text) → Text → Text → Bool
is_registered normalize worktree_path entry =
    starts_with entry (lit "worktree ")
    && text_eq (normalize (drop 9 entry)) (normalize worktree_path)

module _ {W : Type 0} (h : Host W) (inside : Text → Text → Bool) where
  unfoldable pub assert_git_outside : Text → Action W (Unit {0})
  assert_git_outside root = do
    resolved ← gets (h.executable root)
    executable ← from_option resolved "A Git executable was not found." []
    check (not (inside root executable)) "Git executable resolves inside the selected repository."
        []

  unfoldable pub reject_core_worktree : Text → Action W (Unit {0})
  reject_core_worktree root =
      git h root (words ("config" ∷ "--null" ∷ "--get-all" ∷ "core.worktree" ∷ [])) any_exit
      >>= λ result.
          if result.exit == 1
          then pure tt
          else (check (result.exit == 0) "Unable to inspect Git core.worktree configuration." []
              >> check (not (not_empty result.stdout)) "Repository configures core.worktree." [])

  unfoldable pub require_root : Text → Action W Text
  require_root candidate = do
    check (not_empty candidate && h.is_absolute candidate) "Path must be an absolute path." []
    check (not (h.is_network_path candidate)) "Projects on network shares are not supported." []
    resolved ← gets (h.real_path candidate)
    root ← from_option resolved "The path cannot be resolved." []
    kind ← gets (h.file_kind root)
    check
        (elim kind [ folder entries ↦ true | _ ↦ false ]
          && not (text_eq (lower (h.basename root)) (lit ".git")))
        "Path must be a working directory." []
    pure root

  unfoldable pub require_repository : Text → Action W Text
  require_repository candidate = do
    root ← require_root candidate
    assert_git_outside root
    reject_core_worktree root
    work_tree ← git h root (words ("rev-parse" ∷ "--is-inside-work-tree" ∷ [])) plain
    bare ← git h root (words ("rev-parse" ∷ "--is-bare-repository" ∷ [])) plain
    check (text_eq (trim work_tree.stdout) (lit "true") && text_eq (trim bare.stdout) (lit "false"))
        "Path must be a non-bare Git working tree." []
    pure root

module _ {W : Type 0} (h : Host W) where
  unfoldable pub reject_filter_slice : Text → Option Text → List Text → Action W (Unit {0})
  reject_filter_slice cwd source batch = do
    values ←
        git h cwd
          (words ("check-attr" ∷ "-z" ∷ [])
            ++ (source_option source ++ (words ("filter" ∷ "--" ∷ []) ++ batch)))
          plain
    check (not (has_filter 2 (split 0 values.stdout)))
        "A path uses a Git filter attribute; refusing because filters may execute code." []

  unfoldable pub reject_filter_attributes : Text → List Text → Option Text → Action W (Unit {0})
  reject_filter_attributes cwd paths source =
      for_each (reject_filter_slice cwd source) (slices 100 paths)

  unfoldable pub reject_tracked_filters : Text → Text → Action W (Unit {0})
  reject_tracked_filters root source = do
    out ←
        git h root
          (words ("ls-tree" ∷ "-r" ∷ "-z" ∷ "--name-only" ∷ "--full-tree" ∷ []) ++ (source ∷ []))
          plain
    check (leb (length (split_nul out.stdout)) max_paths)
        "Repository has too many tracked paths to safely inspect filters." []
    reject_filter_attributes root (split_nul out.stdout) (some source)

  unfoldable pub require_child_id : Text → Action W Text
  require_child_id child_task_id = do
    check (is_uuid child_task_id) "Child task id must be a UUID." []
    pure (lower child_task_id)

  -- The folder of the children's worktrees, made if need be.
  unfoldable pub prepare_children_base : Action W Text
  prepare_children_base = do
    let children = h.join (h.resolve_path h.worktree_base) (lit "children")
    makes (h.make_folder children) "The folder of the children cannot be made." []
    resolved ← gets (h.real_path children)
    from_option resolved "The folder of the children cannot be resolved." []

  abbrev pub revision : Text → String → List Text
  revision commit kind = lit "rev-parse" ∷ lit "--verify" ∷ (commit ++ lit kind) ∷ []

module _ {W : Type 0} (h : Host W) (inside : Text → Text → Bool) where
  unfoldable pub created : Text → Text → Text → Action W CreatedWorktree
  created source_project_path child_task_id base_commit = do
    root ← require_repository h inside source_project_path
    check (is_object_id base_commit) "Base commit must be a full 40-character hex commit id." []
    let base = lower base_commit
    verified ← git h root (revision h base "^{commit}") plain
    check (text_eq (lower (trim verified.stdout)) base)
        "Base commit does not exist in the source repository." []
    tree ← git h root (revision h base "^{tree}") plain
    reject_tracked_filters h root base
    id ← require_child_id h child_task_id
    let branch = lit "codex/child/" ++ id
    children_base ← prepare_children_base h
    let worktree_path = h.join children_base id
    mark_mutation
    added ←
        git h root
          (words ("worktree" ∷ "add" ∷ "--no-checkout" ∷ "-b" ∷ [])
            ++ (branch ∷ worktree_path ∷ base ∷ []))
          mutation
    checked_out ←
        git h worktree_path (words ("checkout" ∷ "--no-recurse-submodules" ∷ []) ++ (branch ∷ []))
          mutation
    pure (record {
      worktree_path = worktree_path;
      branch = branch;
      base_commit = base;
      base_tree = trim tree.stdout;
    })

  unfoldable pub create_child_worktree : Text → Text → Text → Action W CreatedWorktree
  create_child_worktree source_project_path child_task_id base_commit =
      guarded_mutation (created source_project_path child_task_id base_commit)

  unfoldable pub at_base : Text → Text → WorktreeState → Bool
  at_base base branch current =
      text_eq (lower current.head) base
      && eq_option current.branch branch
      && current.clean
      && is_no_operation current.operation

  -- What the branch, the registration and the path amount to, when all three are there.
  unfoldable pub inspect_child : Text → Text → Text → Text → Action W ChildWorktree
  inspect_child root worktree_path branch base = state h worktree_path >>= λ current.
      if at_base base branch current
      then (git h root (revision h base "^{tree}") plain >>= λ tree.
          pure (complete worktree_path branch base (trim tree.stdout)))
      else pure unknown

  -- An error of `lstat` other than a missing path is thrown on.
  abbrev pub path_exists : FileKind → Action W Bool
  path_exists missing = pure false
  path_exists unreadable = raise "The path cannot be inspected." []
  path_exists _ = pure true

  unfoldable pub reconcile_found : Text → Text → Text → Text → Option Text → Action W ChildWorktree
  reconcile_found root worktree_path branch base branch_head = do
    listing ← git h root (words ("worktree" ∷ "list" ∷ "--porcelain" ∷ "-z" ∷ [])) plain
    let registered =
        any (is_registered (λ value. lower (h.resolve_path value)) worktree_path)
          (split 0 listing.stdout)
    kind ← gets (h.file_kind worktree_path)
    exists ← path_exists kind
    let absent = not (elim branch_head [ none ↦ false | some head ↦ not_empty head ])
    (if absent && not registered && not exists
        then pure not_started
        else if eq_option branch_head base && registered && exists
        then inspect_child root worktree_path branch base
        else pure unknown)

  unfoldable pub reconcile_child_worktree : Text → Text → Text → Action W ChildWorktree
  reconcile_child_worktree source_project_path child_task_id base_commit = guarded_none (do
    root ← require_repository h inside source_project_path
    check (is_object_id base_commit) "Base commit must be a full 40-character hex commit id." []
    let base = lower base_commit
    id ← require_child_id h child_task_id
    let branch = lit "codex/child/" ++ id
    children_base ← prepare_children_base h
    let worktree_path = h.join children_base id
    ref ←
        git h root
          (words ("rev-parse" ∷ "--verify" ∷ "-q" ∷ [])
            ++ ((lit "refs/heads/" ++ (branch ++ lit "^{commit}")) ∷ []))
          any_exit
    (if not (ref.exit == 0) && not (ref.exit == 1)
        then pure unknown
        else reconcile_found root worktree_path branch base
            (if ref.exit == 0 then some (lower (trim ref.stdout)) else none)))
