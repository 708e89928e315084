-- ===== src/Git.antt =====
-- Git operations of the runtime: packages/runtime/src/git-operations.ts, class GitOperations. Here
-- are its errors, its guards and its private method `git`; what surrounds it is the record `Host`.
-- The hooks check is assertNoGitHooks of packages/runtime/src/git-environment.ts.
pub mod Texts
pub mod Status
pub mod Manifests
pub mod Inspection
pub mod Repositories
pub mod Handoff
pub mod Commit
pub mod Integration
pub mod Quiet
pub mod Outcomes
pub mod Running
pub mod Recovery
pub mod Scoped
mod Tests
use Prim.Native.String.{String}
use foundry_agent_workspace.Base.{
  take, ℕ, zero, suc, ◌*◌, Bool, true, false, Option, none, some, List, [], ◌∷◌, ◌++◌, map, ◌==◌,
  if◌then◌else◌, Result, ok, err, Text, codes,
}

-- A literal of the source, and a list of such.
unfoldable pub lit : String → Text
lit s = codes s

unfoldable pub words : List String → List Text
unfolding lit
words ss = map lit ss

pub data Effects : Type 0 where
  no_effects unknown_effects : Effects

-- What is thrown: an `Error`, or a `GitOperationError` with its outcome. A message is kept as the
-- literal text and the values that are put into it.
pub data Failure : Type 0 where
  fault : String → List Text → Failure
  git_operation_error : Effects → String → List Text → Failure

-- How `execFile` ends: its output, a number as exit code with both outputs, output beyond
-- `maxBuffer`, or any other error.
pub data Exit : Type 0 where
  success : Text → Exit
  exit_code : ℕ → Text → Text → Exit
  overflow : Text → Exit
  no_process : Text → Exit

-- What `lstat` and `readdir` find at a path.
pub data FileKind : Type 0 where
  missing unreadable symbolic_link other_file : FileKind
  folder : ℕ → FileKind

pub record GitIdentity : Type 0 where
  pub path : Text
  pub sha256 : Text

pub record Launch : Type 0 where
  pub executable : Text
  pub cwd : Text
  pub args : List Text
  pub mutating : Bool

-- The machine that the class runs on. `exec` is `execFile` of Git; a launch without `mutating` also
-- lacks the variables that are set for a mutation. `executable` is what getGitExecutable resolves,
-- `identity` its digest; `hooks_path` is what the promise of `hooksDirectory` has given, which the first
-- call of `git` has awaited; `accessible` is `access`, `make_folder` and `write_file` are `mkdir` and
-- `writeFile`, which fail with false; `worktree_base` is the folder of the app; `join`, `resolve_path`, `basename` and `is_absolute` are Node's; `sha256`
-- digests a text, and `json_sha256` the JSON text of the values of a type.
pub record Host (W : Type 0) : Type 1 where
  pub exec : Launch → W → Exit × W
  pub file_kind : Text → W → FileKind
  pub accessible : Text → W → Bool
  pub make_folder : Text → W → Bool × W
  pub write_file : (path content : Text) → W → Bool × W
  pub read_file : Text → W → Option Text
  pub real_path : Text → W → Option Text
  pub executable : Text → W → Option Text
  pub identity : Text → W → Option GitIdentity
  pub hooks_path : Text
  pub worktree_base : Text
  pub join : Text → Text → Text
  pub resolve_path : Text → Text
  pub basename : Text → Text
  pub is_absolute : Text → Bool
  pub is_network_path : Text → Bool
  pub sha256 : Text → Text
  pub json_sha256 : {A : Type 0} → A → Text

-- The world, and the flag that `markMutation` sets.
pub record Session (W : Type 0) : Type 0 where
  pub world : W
  pub mutation_started : Bool

abbrev pub Action : Type 0 → Type 0 → Type 0
Action W A = Session W → Result Failure A × Session W

module _ {W A : Type 0} where
  unfoldable pub pure : A → Action W A
  pure a s = (ok a, s)

  unfoldable pub raise : String → List Text → Action W A
  raise message values s = (err (fault message values), s)

  unfoldable pub gets : (W → A) → Action W A
  gets f s = (ok (f s.world), s)

  unfoldable pub from_option : Option A → String → List Text → Action W A
  unfolding raise pure
  from_option none message values = raise message values
  from_option (some a) message values = pure a

  unfoldable pub lift : Result Failure A → Action W A
  lift r s = (r, s)

module _ {W A B : Type 0} where
  abbrev pub continue : Result Failure A → (A → Action W B) → Action W B
  continue (ok a) f s = f a s
  continue (err e) f s = (err e, s)

  infixl 5 ◌>>=◌
  -- opening this opens `pure`, `throw`, `gets`, `from_option` and `lift` too
  unfoldable pub ◌>>=◌ : Action W A → (A → Action W B) → Action W B
  unfolding pure raise gets from_option lift
  ◌>>=◌ m f s = let (r, s') = m s in continue r f s'

module _ {W B : Type 0} where
  infixl 5 ◌>>◌
  abbrev pub ◌>>◌ : Action W (Unit {0}) → Action W B → Action W B
  m >> k = m >>= λ _. k

module _ {W : Type 0} where
  -- `if (!test) throw new Error(message)`
  unfoldable pub check : Bool → String → List Text → Action W (Unit {0})
  unfolding pure raise
  check true message values = pure tt
  check false message values = raise message values

  -- A call that changes the world, and throws on a failure.
  unfoldable pub makes : (W → Bool × W) → String → List Text → Action W (Unit {0})
  makes f message values s =
      let (done, w) = f s.world in check done message values (record s { world = w })

  unfoldable pub mark_mutation : Action W (Unit {0})
  mark_mutation s = (ok tt, record s { mutation_started = true })

  -- `for (const item of items) { … }`
  unfoldable pub for_each : {A : Type 0} → (A → Action W (Unit {0})) → List A → Action W (Unit {0})
  for_each f [] = pure tt
  for_each f (x ∷ xs) = f x >> for_each f xs

  unfoldable pub collect : {A B : Type 0} → (A → Action W B) → List A → Action W (List B)
  collect f [] = pure []
  collect f (x ∷ xs) = f x >>= λ y. collect f xs >>= λ ys. pure (y ∷ ys)

module _ {W A B : Type 0} where
  -- What is done with a value that may be missing.
  unfoldable pub choose : Option A → (A → Action W B) → Action W B → Action W B
  choose none found missing_one = missing_one
  choose (some a) found missing_one = found a

-- A `GitOperationError` passes; any other error becomes one with the given outcome.
abbrev pub wrap : Effects → Failure → Failure
wrap outcome (fault message values) = git_operation_error outcome message values
wrap outcome (git_operation_error own message values) = git_operation_error own message values

abbrev pub wrapped : {A : Type 0} → Effects → Result Failure A → Result Failure A
wrapped outcome (ok a) = ok a
wrapped outcome (err e) = err (wrap outcome e)

abbrev pub effects_of : Bool → Effects
effects_of started = if started then unknown_effects else no_effects

module _ {W A : Type 0} where
  unfoldable pub guarded_none : Action W A → Action W A
  guarded_none execute s = let (r, t) = execute s in (wrapped no_effects r, t)

  -- The flag is a local of the call.
  unfoldable pub guarded_mutation : Action W A → Action W A
  guarded_mutation execute s =
      let (r, t) = execute (record s { mutation_started = false }) in
      (
        wrapped (effects_of t.mutation_started) r,
        record t { mutation_started = s.mutation_started },
      )

-- The hooks folder must be absent, or a real and empty directory.
unfoldable pub hooks_clear : FileKind → Bool
hooks_clear missing = true
hooks_clear unreadable = false
hooks_clear symbolic_link = false
hooks_clear other_file = false
hooks_clear (folder entries) = entries == 0

pub record GitOutput : Type 0 where
  pub stdout : Text
  pub truncated : Bool
  pub exit : ℕ
  pub stderr : Text

pub record GitCallOptions : Type 0 where
  pub mutating : Bool
  pub permit_truncation : Bool
  pub allow_non_zero : Bool

abbrev pub plain : GitCallOptions
plain = record { mutating = false; permit_truncation = false; allow_non_zero = false }

abbrev pub mutation : GitCallOptions
mutation = record { mutating = true; permit_truncation = false; allow_non_zero = false }

abbrev pub any_exit : GitCallOptions
any_exit = record { mutating = false; permit_truncation = false; allow_non_zero = true }

-- The `-c` options that precede the arguments.
unfoldable pub git_config : Text → Bool → List Text
unfolding words lit
git_config hooks_path mutating =
    (lit "-c" ∷ (lit "core.hooksPath=" ++ hooks_path) ∷ [])
    ++ words ("-c" ∷ "core.fsmonitor=" ∷ "-c" ∷ "credential.helper=" ∷ [])
    ++ (if mutating
        then words (
            "-c" ∷ "commit.gpgSign=false" ∷ "-c" ∷ "tag.gpgSign=false" ∷ "-c"
            ∷ "rerere.enabled=false" ∷ "-c" ∷ "rerere.autoUpdate=false" ∷ "-c" ∷ "core.editor=:"
            ∷ "-c" ∷ "sequence.editor=:" ∷ "-c" ∷ "protocol.allow=never" ∷ "-c"
            ∷ "merge.renames=false" ∷ [])
        else [])

abbrev pub git_max_output_bytes : ℕ
git_max_output_bytes = 512 * 1024

-- What the call returns or throws for how the process ended.
unfoldable pub git_output : GitCallOptions → Exit → Result Failure GitOutput
git_output o (success stdout) =
    ok (record { stdout = stdout; truncated = false; exit = 0; stderr = [] })
git_output o (exit_code n stdout stderr) =
    if o.allow_non_zero
    then ok (record { stdout = stdout; truncated = false; exit = n; stderr = stderr })
    else err (fault "Git command failed: " (stderr ∷ []))
git_output o (overflow stdout) =
    if o.permit_truncation
    then ok (record {
      stdout = take git_max_output_bytes stdout;
      truncated = true;
      exit = 0;
      stderr = [];
    })
    else err (fault "Git command failed: " [])
git_output o (no_process detail) = err (fault "Git command failed: " (detail ∷ []))

-- The process that `git` starts.
abbrev pub command_of : (hooks_path executable cwd : Text) → Bool → List Text → Launch
command_of hooks_path executable cwd mutating args = record {
  executable = executable;
  cwd = cwd;
  args =
      words ("--literal-pathspecs" ∷ "--no-pager" ∷ []) ++ (git_config hooks_path mutating ++ args);
  mutating = mutating;
}

module _ {W : Type 0} (h : Host W) where
  unfoldable pub launch : Launch → Action W Exit
  launch l s = let (e, w) = h.exec l s.world in (ok e, record s { world = w })

  -- The check after the process runs in `finally`: it fails the call whatever Git reported.
  unfoldable pub git : Text → List Text → GitCallOptions → Action W GitOutput
  unfolding launch
  git cwd args o = do
    resolved ← gets (h.executable cwd)
    executable ← from_option resolved "Git command failed: " []
    before ← gets (h.file_kind h.hooks_path)
    check (hooks_clear before) "Git command failed: " (h.hooks_path ∷ [])
    e ← launch (command_of h.hooks_path executable cwd o.mutating args)
    after ← gets (h.file_kind h.hooks_path)
    check (hooks_clear after)
        "The app-owned Git hooks folder changed while Git ran; a hook may have run."
        (h.hooks_path ∷ [])
    lift (git_output o e)
