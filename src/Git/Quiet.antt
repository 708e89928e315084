-- ===== src/Git/Quiet.antt =====
-- What leaves alone what is seen of the world: one rule for each way to build an action, and what the
-- code of packages/runtime/src/git-operations.ts relies on when it does not ask for a mutation. A view
-- is what is seen of the world.
pub mod Inspections
pub mod Preparations
pub mod Readings
use Prim.Native.String.{String}
use foundry_agent_workspace.Base.{
  ◌≡◌, refl, Bool, true, false, Option, none, some, List, [], ◌∷◌, ◌++◌, if◌then◌else◌, Result, ok,
  err, Text, ◌∙◌, ap, subst, sym,
}
use foundry_agent_workspace.Git.{
  Host, Launch, Session, Action, Failure, pure, raise, gets, from_option, lift, continue, ◌>>=◌,
  check, makes, for_each, collect, choose, guarded_none, wrapped, no_effects, launch, command_of,
  git, GitCallOptions, words, lit,
}

-- The view of the world comes out as it went in, and what the action does does not depend on the mark,
-- which it leaves.
pub record Quiet {W V A : Type 0} (v : W → V) (m : Action W A) : Type 0 where
  pub at : (s : Session W) → v (m s).1.world ≡ v s.world
  pub blind :
      (s : Session W) (b : Bool)
      → m (record s { mutation_started = b }) ≡ ((m s).0, record (m s).1 { mutation_started = b })

module _ {W V A : Type 0} {v : W → V} where
  pub Quiet-pure : (a : A) → Quiet v (pure a)
  unfolding pure
  Quiet-pure a = record { at = λ s. refl; blind = λ s b. refl }

  pub Quiet-raise : (message : String) (values : List Text) → Quiet {A = A} v (raise message values)
  unfolding raise
  Quiet-raise message values = record { at = λ s. refl; blind = λ s b. refl }

  pub Quiet-gets : (f : W → A) → Quiet v (gets f)
  unfolding gets
  Quiet-gets f = record { at = λ s. refl; blind = λ s b. refl }

  pub Quiet-lift : (r : Result Failure A) → Quiet v (lift r)
  unfolding lift
  Quiet-lift r = record { at = λ s. refl; blind = λ s b. refl }

  pub Quiet-from_option :
      (o : Option A) (message : String) (values : List Text)
      → Quiet v (from_option o message values)
  unfolding from_option
  Quiet-from_option none message values = Quiet-raise message values
  Quiet-from_option (some a) message values = Quiet-pure a

  pub Quiet-if :
      (b : Bool) (m n : Action W A) → Quiet v m → Quiet v n → Quiet v (if b then m else n)
  Quiet-if true m n qm qn = qm
  Quiet-if false m n qm qn = qn

  pub Quiet-guarded_none : (m : Action W A) → Quiet v m → Quiet v (guarded_none m)
  unfolding guarded_none
  Quiet-guarded_none m q = record {
    at = λ s. q.at s;
    blind = λ s b.
        ap (λ (p : Result Failure A × Session W). (wrapped no_effects p.0, p.1)) (q.blind s b);
  }

module _ {W V A B : Type 0} {v : W → V} where
  Quiet-continue :
      (r : Result Failure A) (f : A → Action W B)
      → ((a : A) → Quiet v (f a))
      → Quiet v (continue r f)
  Quiet-continue (ok a) f q = q a
  Quiet-continue (err e) f q = record { at = λ s. refl; blind = λ s b. refl }

  pub Quiet-bind :
      (m : Action W A) (f : A → Action W B)
      → Quiet v m
      → ((a : A) → Quiet v (f a))
      → Quiet v (m >>= f)
  unfolding ◌>>=◌
  Quiet-bind m f q qf = record {
    at = λ s. (Quiet-continue (m s).0 f qf).at (m s).1 ∙ q.at s;
    blind = λ s b.
        ap (λ (p : Result Failure A × Session W). continue p.0 f p.1) (q.blind s b)
        ∙ (Quiet-continue (m s).0 f qf).blind (m s).1 b;
  }

  pub Quiet-choose :
      (o : Option A) (found : A → Action W B) (missing_one : Action W B)
      → ((a : A) → Quiet v (found a))
      → Quiet v missing_one
      → Quiet v (choose o found missing_one)
  unfolding choose
  Quiet-choose none found missing_one qf q = q
  Quiet-choose (some a) found missing_one qf q = qf a

module _ {W V A : Type 0} {v : W → V} {m : Action W A} where
  pub Quiet-mark : Quiet v m → (s : Session W) → (m s).1.mutation_started ≡ s.mutation_started
  Quiet-mark q s =
      ap (λ (p : Result Failure A × Session W). p.1.mutation_started) (q.blind s s.mutation_started)

module _ {W V : Type 0} {v : W → V} where
  pub Quiet-check :
      (b : Bool) (message : String) (values : List Text) → Quiet v (check b message values)
  unfolding check
  Quiet-check true message values = Quiet-pure tt
  Quiet-check false message values = Quiet-raise message values

  pub Quiet-makes :
      (f : W → Bool × W) (message : String) (values : List Text)
      → ((w : W) → v (f w).1 ≡ v w)
      → Quiet v (makes f message values)
  unfolding makes
  Quiet-makes f message values unseen = record {
    at = λ s.
        (Quiet-check (f s.world).0 message values).at (record s { world = (f s.world).1 })
        ∙ unseen s.world;
    blind = λ s b.
        (Quiet-check (f s.world).0 message values).blind (record s { world = (f s.world).1 }) b;
  }

  pub Quiet-for_each :
      {A : Type 0} (f : A → Action W (Unit {0})) (xs : List A)
      → ((a : A) → Quiet v (f a))
      → Quiet v (for_each f xs)
  unfolding for_each
  Quiet-for_each f [] q = Quiet-pure tt
  Quiet-for_each f (x ∷ xs) q = Quiet-bind _ _ (q x) (λ _. Quiet-for_each f xs q)

  pub Quiet-collect :
      {A B : Type 0} (f : A → Action W B) (xs : List A)
      → ((a : A) → Quiet v (f a))
      → Quiet v (collect f xs)
  unfolding collect
  Quiet-collect f [] q = Quiet-pure []
  Quiet-collect f (x ∷ xs) q =
      Quiet-bind _ _ (q x) (λ y. Quiet-bind _ _ (Quiet-collect f xs q) (λ ys. Quiet-pure (y ∷ ys)))

pub ruleset quiet_rules = (
  Quiet-pure, Quiet-raise, Quiet-gets, Quiet-lift, Quiet-from_option, Quiet-check, Quiet-if,
  Quiet-guarded_none, Quiet-bind, Quiet-choose, Quiet-for_each, Quiet-collect,
)

-- The commands by which the class reads a repository. The texts are revisions and paths, and no options.
-- The class sets GIT_OPTIONAL_LOCKS=0, with which `git status` does not refresh the index.
pub data ReadCommand : List Text → Type 0 where
  rev_parse : (rest : List Text) → ReadCommand (lit "rev-parse" ∷ rest)
  symbolic_ref : ReadCommand (words ("symbolic-ref" ∷ "--short" ∷ "-q" ∷ "HEAD" ∷ []))
  status : ReadCommand (
      words (
        "-c" ∷ "status.renames=false" ∷ "status" ∷ "--porcelain=v2" ∷ "-z" ∷ "--untracked-files=all"
        ∷ []))
  show_parents :
      (commit : Text) → ReadCommand (lit "show" ∷ lit "-s" ∷ lit "--format=%P" ∷ commit ∷ [])
  diff_tree :
      (from to : Text)
      → ReadCommand (
          words (
            "diff-tree" ∷ "-r" ∷ "-z" ∷ "--raw" ∷ "--full-index" ∷ "--no-renames" ∷ "--no-ext-diff"
            ∷ "--no-textconv" ∷ [])
          ++ (from ∷ to ∷ []))
  diff_commits :
      (from to : Text)
      → ReadCommand (
          words ("diff" ∷ "--no-ext-diff" ∷ "--no-textconv" ∷ "--no-renames" ∷ "--binary" ∷ [])
          ++ (from ∷ to ∷ []))
  merge_base :
      (ancestor descendant : Text)
      → ReadCommand (words ("merge-base" ∷ "--is-ancestor" ∷ []) ++ (ancestor ∷ descendant ∷ []))
  ls_files : ReadCommand (words ("ls-files" ∷ "-s" ∷ "-z" ∷ []))
  ls_tree : (rest : List Text) → ReadCommand (lit "ls-tree" ∷ rest)
  hash_object :
      (path : Text)
      → ReadCommand (words ("hash-object" ∷ "--no-filters" ∷ "--" ∷ []) ++ (path ∷ []))
  core_worktree : ReadCommand (words ("config" ∷ "--null" ∷ "--get-all" ∷ "core.worktree" ∷ []))
  merge_drivers : ReadCommand (words ("config" ∷ "--get-regexp" ∷ "^merge\\..*\\.driver$" ∷ []))
  filter_attributes : (rest : List Text) → ReadCommand (words ("check-attr" ∷ "-z" ∷ []) ++ rest)
  merge_attributes :
      (paths : List Text) → ReadCommand (words ("check-attr" ∷ "-z" ∷ "merge" ∷ "--" ∷ []) ++ paths)
  committer : ReadCommand (words ("var" ∷ "GIT_COMMITTER_IDENT" ∷ []))
  worktree_list : ReadCommand (words ("worktree" ∷ "list" ∷ "--porcelain" ∷ "-z" ∷ []))

pub rev_parse_words : (ss : List String) → ReadCommand (words ("rev-parse" ∷ ss))
unfolding words
rev_parse_words ss = rev_parse (words ss)

pub rev_parse_onto :
    (ss : List String) (rest : List Text) → ReadCommand (words ("rev-parse" ∷ ss) ++ rest)
unfolding words
rev_parse_onto ss rest = rev_parse (words ss ++ rest)

pub ls_tree_onto :
    (ss : List String) (rest : List Text) → ReadCommand (words ("ls-tree" ∷ ss) ++ rest)
unfolding words
ls_tree_onto ss rest = ls_tree (words ss ++ rest)

pub ruleset read_rules = (
  rev_parse, rev_parse_words, rev_parse_onto, symbolic_ref, status, show_parents, diff_tree,
  diff_commits, merge_base, ls_files, ls_tree, ls_tree_onto, hash_object, core_worktree,
  merge_drivers, filter_attributes, merge_attributes, committer, worktree_list,
)

-- The commands that the class does not mark as mutating either, though Git writes for them what is no
-- content: a worktree's diff refreshes the index, and write-tree stores the tree of the index.
pub data AsideCommand : List Text → Type 0 where
  worktree_diff :
      (head path : Text)
      → AsideCommand (
          words ("diff" ∷ "--no-ext-diff" ∷ "--no-textconv" ∷ "--no-renames" ∷ "--binary" ∷ [])
          ++ (head ∷ lit "--" ∷ path ∷ []))
  empty_diff :
      (empty path : Text)
      → AsideCommand (
          words ("diff" ∷ "--no-index" ∷ "--no-ext-diff" ∷ "--no-textconv" ∷ "--binary" ∷ "--" ∷ [])
          ++ (empty ∷ path ∷ []))
  write_tree : AsideCommand (words ("write-tree" ∷ []))

pub ruleset aside_rules = (worktree_diff, empty_diff, write_tree)

-- The process of a command that is not marked as mutating leaves the view as it was.
abbrev pub Unseen : {W V : Type 0} → (W → V) → Host W → List Text → Type 0
Unseen {W} v h args =
    (executable cwd : Text) (w : W)
    → v (h.exec (command_of h.hooks_path executable cwd false args) w).1 ≡ v w

-- What the code relies on: the commands by which it reads change nothing that is seen.
abbrev pub ReadsOnly : {W V : Type 0} → (W → V) → Host W → Type 0
ReadsOnly v h = (args : List Text) → ReadCommand args → Unseen v h args

-- The view sees neither what the other commands without the mark write, nor the folders and the empty
-- file that the app keeps for itself.
pub record Aside {W V : Type 0} (v : W → V) (h : Host W) : Type 0 where
  pub commands : (args : List Text) → AsideCommand args → Unseen v h args
  pub base_folder : (w : W) → v (h.make_folder (h.resolve_path h.worktree_base) w).1 ≡ v w
  pub children_folder :
      (w : W)
      → v (h.make_folder (h.join (h.resolve_path h.worktree_base) (lit "children")) w).1 ≡ v w
  pub empty_file :
      (folder : Text) (w : W)
      → v (h.write_file (h.join folder (lit ".empty-git-diff-source")) [] w).1 ≡ v w

module _ {W V : Type 0} {v : W → V} (h : Host W) where
  Quiet-launch :
      (executable cwd : Text) (mutating : Bool) (args : List Text)
      → Unseen v h args
      → mutating ≡ false
      → Quiet v (launch h (command_of h.hooks_path executable cwd mutating args))
  unfolding launch
  Quiet-launch executable cwd mutating args unseen e = record {
    at = λ s. rw e (unseen executable cwd s.world);
    blind = λ s b. refl;
  }

  Quiet-Unseen :
      (cwd : Text) (args : List Text) (o : GitCallOptions)
      → Unseen v h args
      → o.mutating ≡ false
      → Quiet v (git h cwd args o)
  unfolding git
  Quiet-Unseen cwd args o unseen e =
      search (quiet_rules, Quiet-launch, unseen, e) depth 30 fits 4000

  pub Quiet-git :
      ReadsOnly v h
      → (cwd : Text) (args : List Text) (o : GitCallOptions) → ReadCommand args
      → o.mutating ≡ false
      → Quiet v (git h cwd args o)
  Quiet-git reads cwd args o r e = Quiet-Unseen cwd args o (reads args r) e

  pub Quiet-git-Aside :
      Aside v h
      → (cwd : Text) (args : List Text) (o : GitCallOptions) → AsideCommand args
      → o.mutating ≡ false
      → Quiet v (git h cwd args o)
  Quiet-git-Aside aside cwd args o a e = Quiet-Unseen cwd args o (aside.commands args a) e
