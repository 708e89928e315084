-- ===== src/Git/Tests.antt =====
-- Runs of the Git operations of packages/runtime/src/git-operations.ts on a small host.
use foundry_agent_workspace.Base.{
  drop, take, ℕ, zero, suc, ◌≡◌, refl, true, false, none, some, List, [], ◌∷◌, ◌++◌, ◌==◌,
  if◌then◌else◌, text_eq, Text, ok, err, lower, split, starts_with, ends_with, nth, All,
}
use foundry_agent_workspace.Git.{
  Host, Session, Exit, success, exit_code, missing, folder, lit, words, git, launch, git_config,
  git_output, hooks_clear, check, ◌>>=◌, for_each, collect, choose, mark_mutation, guarded_none,
  guarded_mutation, git_operation_error, no_effects, GitOutput, makes,
}
use foundry_agent_workspace.Git.Texts.{
  mem_text, trim, trim_start, is_space, split_nul, slices, slices_on, char_is, pop_blank,
  is_object_id, is_hex, sort_by, insert_by, path_le, bytes_le, utf8, utf8_unit, byte_length,
}
use foundry_agent_workspace.Git.Status.{
  parse_status_v2, parse_tokens, split_fixed, cut, classify_status_code,
}
use foundry_agent_workspace.Git.Manifests.{
  parse_diff_tree_raw, parse_entries, parse_metadata, sort_by_path_bytes, hash_manifest_entries,
  get_text, set_text, tree_record, tree_records, EffectManifest, EffectEntry, a_modified, a_added,
  a_typechange,
}
use Prim.Native.String.{String}
use foundry_agent_workspace.Git.Inspection.{
  no_operation, state, status_records, detect_operation, detect_rebase, found_or,
  git_path_if_exists, unmerged_paths_of, commit_info, manifest, patch, changed_paths, all_changes,
  record_changes, list_tracked_paths, ls_tree_modes, slice_modes, hash_object_blob,
}
use foundry_agent_workspace.Git.Repositories.{
  has_forbidden_segment, posix_basename, drop_slashes, reject_filter_attributes,
  reject_filter_slice, has_filter,
}
use foundry_agent_workspace.Git.Integration.{
  Target, CherryPickOutcome, PreparedPick, pick_options, succeeded, cherry_pick,
  prepare_cherry_pick, reject_merge_drivers, check_merge_slice, merge_values_ok, check_source_entry,
}
use foundry_agent_workspace.Git.Handoff.{
  HandoffInput, PreparedHandoff, is_dangerous_mode, prepare_handoff, approved_changes,
  validate_message, check_handoff_state, check_target, check_changed_path, check_case,
  tracked_lower, check_tracked, check_modes, check_entry_modes, group_paths, handoff_entry,
  new_mode_of, render_handoff_patch, prepare_empty_diff_source, entry_patch, bound_concat,
  bound_concat_from,
}
use foundry_agent_workspace.Git.Scoped.Case.{DifferInLower, prepare_handoff_case}
use foundry_agent_workspace.Git.Scoped.Approval.{IsApproved, prepare_handoff-IsApproved}
use foundry_agent_workspace.Git.Quiet.{ReadsOnly, Aside}
use foundry_agent_workspace.Git.Quiet.Readings.{prepares_handoff, perform, perform_unchanged}

-- The first of the words that a launch names decides the answer.
abbrev Answers : Type 0
Answers = List (Text × Exit)

answer : Answers → List Text → Exit
answer [] args = exit_code 1 [] []
answer ((word, e) ∷ rest) args = if mem_text word args then e else answer rest args

abbrev out : String → Exit
out s = success (lit s)

abbrev record_m : Text
record_m = lit ":100644 100644 aa bb M" ++ (0 ∷ (lit "f" ++ (0 ∷ [])))

-- World 0 is a clean worktree, 1 the one after a pick.
answers : ℕ → Answers
answers w =
    (lit "HEAD^{commit}", (if w == 0 then out "c0" else out "c1"))
    ∷ (lit "HEAD^{tree}", (if w == 0 then out "t0" else out "t1"))
    ∷ (lit "symbolic-ref", out "main")
    ∷ (lit "status", out "")
    ∷ (lit "--git-path", out "/none")
    ∷ (lit "s^{commit}", out "s")
    ∷ (lit "s^{tree}", out "ts")
    ∷ (lit "c1^{commit}", out "c1")
    ∷ (lit "c1^{tree}", out "t1")
    ∷ (lit "show", (if w == 0 then out "p" else out "c0"))
    ∷ (lit "diff-tree", success record_m)
    ∷ (lit "--get-regexp", exit_code 1 [] [])
    ∷ (lit "check-attr", out "")
    ∷ (lit "var", out "me")
    ∷ (lit "diff", out "patch")
    ∷ (lit "cherry-pick", out "")
    ∷ []

-- The second number of a world counts what nobody looks at: every launch adds to it, and so do the
-- folders and files that the app makes.
abbrev World : Type 0
World = ℕ × ℕ

abbrev content : World → ℕ
content w = w.0

abbrev traced_on : (ℕ → Answers) → Host World
traced_on table = record {
  exec = λ l w. (answer (table w.0) l.args, ((if l.mutating then suc w.0 else w.0), suc w.1));
  file_kind = λ path w. if text_eq path (lit "/src") then folder 1 else missing;
  accessible = λ path w. false;
  make_folder = λ path w. (true, (w.0, suc w.1));
  write_file = λ path text w. (true, (w.0, suc w.1));
  read_file = λ path w. none;
  real_path = λ path w. some path;
  executable = λ root w. some (lit "/usr/bin/git");
  identity = λ root w. some (record { path = lit "/usr/bin/git"; sha256 = lit "g" });
  hooks_path = lit "/app/hooks";
  worktree_base = lit "/app";
  join = λ a b. a ++ (lit "/" ++ b);
  resolve_path = λ a. a;
  basename = λ a. a;
  is_absolute = λ a. starts_with a (lit "/");
  is_network_path = λ a. false;
  sha256 = λ a. a;
  json_sha256 = λ a. lit "digest";
}

-- The same, where nothing is counted.
abbrev host_on : (ℕ → Answers) → Host ℕ
host_on table = record {
  exec = λ l w. (answer (table w) l.args, (if l.mutating then suc w else w));
  file_kind = λ path w. if text_eq path (lit "/src") then folder 1 else missing;
  accessible = λ path w. false;
  make_folder = λ path w. (true, w);
  write_file = λ path text w. (true, w);
  read_file = λ path w. none;
  real_path = λ path w. some path;
  executable = λ root w. some (lit "/usr/bin/git");
  identity = λ root w. some (record { path = lit "/usr/bin/git"; sha256 = lit "g" });
  hooks_path = lit "/app/hooks";
  worktree_base = lit "/app";
  join = λ a b. a ++ (lit "/" ++ b);
  resolve_path = λ a. a;
  basename = λ a. a;
  is_absolute = λ a. starts_with a (lit "/");
  is_network_path = λ a. false;
  sha256 = λ a. a;
  json_sha256 = λ a. lit "digest";
}

traced_on-ReadsOnly : (table : ℕ → Answers) → ReadsOnly content (traced_on table)
traced_on-ReadsOnly table args r executable cwd w = refl

traced_on-Aside : (table : ℕ → Answers) → Aside content (traced_on table)
traced_on-Aside table = record {
  commands = λ args a executable cwd w. refl;
  base_folder = λ w. refl;
  children_folder = λ w. refl;
  empty_file = λ folder w. refl;
}

abbrev host : Host ℕ
host = host_on answers

abbrev session0 : Session ℕ
session0 = record { world = 0; mutation_started = false }

state_now :
    (state host (lit "/w") session0).0
    ≡ ok (record {
      head = lit "c0";
      tree = lit "t0";
      branch = some (lit "main");
      clean = true;
      staged_clean = true;
      operation = no_operation;
      cherry_pick_head = none;
      unmerged_paths = [];
    })
unfolding state guarded_none ◌>>=◌ git launch lit words answer answers git_config git_output
    hooks_clear check trim trim_start is_space status_records parse_status_v2 parse_tokens pop_blank
    split detect_operation detect_rebase found_or git_path_if_exists choose unmerged_paths_of
    text_eq starts_with
state_now = refl

abbrev target : Target
target = record { branch = lit "main"; expected_head = lit "c0" }

abbrev m_f : EffectManifest
m_f = record {
  entries =
      record {
        path = lit "f";
        status = a_modified;
        old_mode = lit "100644";
        new_mode = lit "100644";
        old_blob = lit "aa";
        new_blob = lit "bb";
      }
      ∷ [];
  sha256 = lit "digest";
}

abbrev picked_c1 : CherryPickOutcome
picked_c1 = succeeded (record { commit = lit "c1"; tree = lit "t1" })

-- A host on which HEAD cannot be read once the pick is made.
broken : ℕ → Answers
broken zero = answers 0
broken (suc w) = (lit "HEAD^{commit}", exit_code 128 [] (lit "locked")) ∷ answers (suc w)

abbrev marked : ℕ → Session ℕ
marked w = record { world = w; mutation_started = true }

abbrev prepared_pick : PreparedPick
prepared_pick = record {
  head = lit "c0";
  tree = lit "t0";
  git_identity = record { path = lit "/usr/bin/git"; sha256 = lit "g" };
  source_parent = lit "p";
  source_manifest = m_f;
  patch = record { patch = lit "patch"; truncated = false };
}

prepared_on_broken :
    prepare_cherry_pick (host_on broken) (lit "/w") target (lit "s") session0
    ≡ (ok prepared_pick, session0)
unfolding prepare_cherry_pick state guarded_none ◌>>=◌ git launch lit words answer answers broken
    git_config git_output hooks_clear check trim trim_start is_space status_records parse_status_v2
    parse_tokens pop_blank split detect_operation detect_rebase found_or git_path_if_exists choose
    unmerged_paths_of text_eq starts_with commit_info manifest parse_diff_tree_raw parse_entries
    parse_metadata sort_by_path_bytes sort_by insert_by path_le hash_manifest_entries
    reject_merge_drivers for_each check_merge_slice merge_values_ok slices slices_on take drop
    check_source_entry posix_basename drop_slashes lower reject_filter_attributes
    reject_filter_slice has_filter patch
prepared_on_broken = refl

abbrev nothing_out : GitOutput
nothing_out = record { stdout = []; truncated = false; exit = 0; stderr = [] }

picked_on_broken :
    git
      (host_on broken)
      (lit "/w")
      (words ("cherry-pick" ∷ "--no-edit" ∷ "-x" ∷ []) ++ lit "s" ∷ [])
      (pick_options (host_on broken))
      (marked 0)
    ≡ (ok nothing_out, marked 1)
unfolding ◌>>=◌ git launch lit words answer answers broken git_config git_output hooks_clear check
    text_eq
picked_on_broken = refl

unread_on_broken :
    state (host_on broken) (lit "/w") (marked 1)
    ≡ (err (git_operation_error no_effects "Git command failed: " (lit "locked" ∷ [])), marked 1)
unfolding state guarded_none ◌>>=◌ git launch lit words answer answers broken git_config git_output
    hooks_clear check text_eq
unread_on_broken = refl

-- The outcome none, though the commit is picked: the state is read after the pick, and cannot be.
misreported : cherry_pick (host_on broken) (lit "/w") target (lit "t0") (lit "s") m_f session0 ≡ (
  err (git_operation_error no_effects "Git command failed: " (lit "locked" ∷ [])),
  record { world = 1; mutation_started = false },
)
unfolding cherry_pick guarded_mutation ◌>>=◌ check mark_mutation text_eq lit
misreported = rw (prepared_on_broken, picked_on_broken, unread_on_broken) refl

-- A source repository, and a base commit that is no object id.
repository : ℕ → Answers
repository w =
    (lit "--is-inside-work-tree", out "true") ∷ (lit "--is-bare-repository", out "false") ∷ []

-- A worktree with a modified file `f` and a new file `g`, a path of which is executable.
abbrev status_fg : Text
status_fg = lit "1 .M N... 100644 100644 100755 aa bb f" ++ (0 ∷ (lit "? g" ++ (0 ∷ [])))

dirty : ℕ → Answers
dirty w =
    (lit "HEAD^{commit}", out "c0")
    ∷ (lit "HEAD^{tree}", out "t0")
    ∷ (lit "symbolic-ref", out "main")
    ∷ (lit "status", success status_fg)
    ∷ (lit "--git-path", out "/none")
    ∷ (lit "--name-only", success (lit "f" ++ (0 ∷ [])))
    ∷ (lit "ls-tree", success (lit "100644 blob aa" ++ (9 ∷ (lit "f" ++ (0 ∷ [])))))
    ∷ (lit "check-attr", out "")
    ∷ (lit "var", out "me")
    ∷ (lit "c0:f", out "aa")
    ∷ (lit "hash-object", out "0123456789012345678901234567890123456789")
    ∷ (lit "diff", out "+")
    ∷ []

abbrev input : HandoffInput
input = record {
  branch = lit "main";
  expected_head = lit "c0";
  message = lit "work";
  allowed = λ path. mem_text path (words ("f" ∷ "g" ∷ []));
}

abbrev new_blob : Text
new_blob = lit "0123456789012345678901234567890123456789"

abbrev handoff_lines : List EffectEntry
handoff_lines =
    record {
      path = lit "f";
      status = a_typechange;
      old_mode = lit "100644";
      new_mode = lit "100755";
      old_blob = lit "aa";
      new_blob = new_blob;
    }
    ∷ record {
      path = lit "g";
      status = a_added;
      old_mode = lit "000000";
      new_mode = lit "100644";
      old_blob = lit "0000000000000000000000000000000000000000";
      new_blob = new_blob;
    }
    ∷ []

abbrev prepared : PreparedHandoff
prepared = record {
  worktree_path = lit "/w";
  branch = lit "main";
  expected_head = lit "c0";
  paths = words ("f" ∷ "g" ∷ []);
  entries =
      record { path = lit "f"; mode = some (lit "100755"); blob = some new_blob }
      ∷ record { path = lit "g"; mode = some (lit "100644"); blob = some new_blob }
      ∷ [];
  manifest = record { entries = handoff_lines; sha256 = lit "digest" };
  patch = lit "++";
  patch_truncated = false;
  message = lit "work";
  git_identity = record { path = lit "/usr/bin/git"; sha256 = lit "g" };
  fingerprint = lit "digest";
}

handoff_run : prepare_handoff (host_on dirty) (lit "/w") input session0 ≡ (ok prepared, session0)
unfolding prepare_handoff approved_changes validate_message check_handoff_state check_target
    check_changed_path has_forbidden_segment check_case tracked_lower check_tracked check_modes
    check_entry_modes group_paths get_text set_text changed_paths all_changes record_changes
    classify_status_code char_is nth list_tracked_paths ls_tree_modes slice_modes tree_record
    tree_records split_nul handoff_entry new_mode_of hash_object_blob is_object_id is_hex
    render_handoff_patch prepare_empty_diff_source makes entry_patch bound_concat bound_concat_from
    collect byte_length utf8 utf8_unit bytes_le state guarded_none ◌>>=◌ git launch lit words answer
    dirty git_config git_output hooks_clear check trim trim_start is_space status_records
    parse_status_v2 parse_tokens split_fixed cut pop_blank split detect_operation detect_rebase
    found_or git_path_if_exists choose unmerged_paths_of text_eq starts_with ends_with sort_by
    insert_by path_le hash_manifest_entries for_each slices slices_on take drop posix_basename
    drop_slashes lower reject_filter_attributes reject_filter_slice has_filter
handoff_run = refl

prepare_handoff_case_example : DifferInLower prepared.paths
prepare_handoff_case_example =
    prepare_handoff_case (host_on dirty) (lit "/w") input session0 session0 prepared handoff_run

prepare_handoff-IsApproved_example :
    All (IsApproved input.allowed) prepared.paths
    × All (λ entry. is_dangerous_mode entry.mode ≡ false) prepared.entries
prepare_handoff-IsApproved_example =
    prepare_handoff-IsApproved (host_on dirty) (lit "/w") input session0 session0 prepared
      handoff_run

perform_unchanged_example :
    let s : Session World = record { world = (0, 0); mutation_started = false } in
    let after =
      (perform (traced_on dirty) (λ a b. false) (prepares_handoff (lit "/w") input) s).1 in
    (content after.world ≡ 0) × (after.mutation_started ≡ false)
perform_unchanged_example =
    perform_unchanged (traced_on dirty) (λ a b. false) (traced_on-ReadsOnly dirty)
      (traced_on-Aside dirty) (prepares_handoff (lit "/w") input)
      (record { world = (0, 0); mutation_started = false })
