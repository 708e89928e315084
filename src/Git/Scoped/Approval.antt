-- ===== src/Git/Scoped/Approval.antt =====
-- The tests of prepareHandoff in packages/runtime/src/git-operations.ts on each changed path and on
-- the modes, and what they mean for the paths and the entries of a prepared handoff.
use foundry_agent_workspace.Base.{
  arith, ◌≡◌, refl, Bool, true, false, not, Option, none, some, List, [], ◌∷◌, map, Memᴰ, Text,
  text_eq, if◌then◌else◌, All, lower, ok, find, find-mem, find-test,
}
use foundry_agent_workspace.Git.{Host, Session, Action, lit, collect}
use foundry_agent_workspace.Git.Texts.{path_le, sort_by, text_or}
use foundry_agent_workspace.Git.Manifests.{get_text, EffectEntry}
use foundry_agent_workspace.Git.Inspection.{ChangedPath}
use foundry_agent_workspace.Git.Repositories.{has_forbidden_segment, posix_basename}
use foundry_agent_workspace.Git.Handoff.{
  HandoffInput, HandoffEntry, PreparedHandoff, check_changed_path, check_modes, check_entry_modes,
  is_dangerous_mode, is_dangerous, new_mode_of, mode_or_head, names_mode, no_mode, approved_changes,
  prepare_handoff, key_of, handoff_entry,
}
use foundry_agent_workspace.Git.Running.{
  Ends, Ends-bind, Ends-step, Ends-pure, Ends-if, Ends-guarded_none, bind-ok, check-ok, for_each-ok,
}
use foundry_agent_workspace.Git.Scoped.{
  All-mem, All-of_mem, All-sort, mem_of_get_text, get_text_of_mem,
}

-- A path that lies in the approved scope, and is no file of Git's own.
pub record IsApproved (allowed : Text → Bool) (path : Text) : Type 0 where
  pub allowed_path : allowed path ≡ true
  pub no_git_segment : has_forbidden_segment path ≡ false
  pub no_modules : text_eq (lower path) (lit ".gitmodules") ≡ false
  pub no_attributes : text_eq (lower (posix_basename path)) (lit ".gitattributes") ≡ false

not-true : (b : Bool) → not b ≡ true → b ≡ false
not-true b h = ground arith

module _ {W : Type 0} where
  check_changed_path-ok :
      (allowed : Text → Bool) (path : Text) (s t : Session W)
      → check_changed_path allowed path s ≡ (ok tt, t)
      → IsApproved allowed path
  unfolding check_changed_path
  check_changed_path-ok allowed path s t e =
      let (_, s1, e1, r1) = bind-ok _ _ s t tt e in
      let (_, s2, e2, r2) = bind-ok _ _ s1 t tt r1 in
      let (_, s3, e3, r3) = bind-ok _ _ s2 t tt r2 in
      record {
        allowed_path = check-ok _ _ _ s3 t r3;
        no_git_segment = not-true _ (check-ok _ _ _ s s1 e1);
        no_modules = not-true _ (check-ok _ _ _ s1 s2 e2);
        no_attributes = not-true _ (check-ok _ _ _ s2 s3 e3);
      }

All-map :
    {A B : Type 0} (f : A → B) (P : B → Type 0) (xs : List A)
    → All (λ x. P (f x)) xs
    → All P (map f xs)
All-map f P [] a = tt
All-map f P (x ∷ xs) (h, a) = (h, All-map f P xs a)

abbrev IsPlain : ChangedPath → Type 0
IsPlain entry =
    (is_dangerous_mode entry.index_mode ≡ false) × (is_dangerous_mode entry.worktree_mode ≡ false)

-- Neither HEAD nor a record of the path has a symlink or gitlink mode.
abbrev ArePlain : List (Text × Text) → Text × List ChangedPath → Type 0
ArePlain head_modes (path, records) =
    (is_dangerous_mode (get_text path head_modes) ≡ false) × All IsPlain records

module _ {W : Type 0} where
  check_entry_modes-ok :
      (path : Text) (entry : ChangedPath) (s t : Session W)
      → check_entry_modes path entry s ≡ (ok tt, t)
      → IsPlain entry
  unfolding check_entry_modes
  check_entry_modes-ok path entry s t e =
      let (_, s1, e1, r1) = bind-ok _ _ s t tt e in
      (not-true _ (check-ok _ _ _ s s1 e1), not-true _ (check-ok _ _ _ s1 t r1))

  check_modes-ok :
      (head_modes : List (Text × Text)) (entry : Text × List ChangedPath) (s t : Session W)
      → check_modes head_modes entry s ≡ (ok tt, t)
      → ArePlain head_modes entry
  unfolding check_modes
  check_modes-ok head_modes (path, records) s t e =
      let (_, s1, e1, r1) = bind-ok _ _ s t tt e in
      (
        not-true _ (check-ok _ _ _ s s1 e1),
        for_each-ok (check_entry_modes path) IsPlain records s1 t (check_entry_modes-ok path) r1,
      )

  collect-ok :
      {A B : Type 0} (f : A → Action W B) (R : A → Type 0) (Q : B → Type 0) (xs : List A)
      → ((x : A) → R x → Ends (λ v t. Q v) (f x))
      → All R xs
      → Ends (λ vs t. All Q vs) (collect f xs)
  unfolding collect
  collect-ok f R Q [] q a = Ends-pure _ [] (λ t. tt)
  collect-ok f R Q (x ∷ xs) q (r, rs) = Ends-step _ _ _ (λ y s u e. Ends-step _ _ _ (λ ys s' u' e'.
      Ends-pure _ _ (λ t. ((q x r).at s u y e, (collect-ok f R Q xs q rs).at s' u' ys e'))))

named_plain :
    (m : Option Text)
    → is_dangerous_mode m ≡ false
    → names_mode m ≡ true
    → is_dangerous (text_or m []) ≡ false
named_plain none plain named = absurd (cc)
named_plain (some mode) plain named = plain

default_plain :
    (b : Bool) (head_mode : Text)
    → is_dangerous head_mode ≡ false
    → is_dangerous (if b then lit "100644" else head_mode) ≡ false
unfolding lit text_eq
default_plain true head_mode h = refl
default_plain false head_mode h = h

-- The mode that a path gets is one that has been tested, or that of a plain file.
new_mode_plain :
    (records : List ChangedPath) (head_mode : Text)
    → All IsPlain records
    → is_dangerous head_mode ≡ false
    → is_dangerous (new_mode_of records head_mode) ≡ false
unfolding new_mode_of
new_mode_plain records head_mode plain head =
    found_plain (find (λ entry. names_mode entry.worktree_mode) records) refl
  where
    found_plain :
        (found : Option ChangedPath)
        → find (λ entry. names_mode entry.worktree_mode) records ≡ found
        → is_dangerous (mode_or_head found head_mode) ≡ false
    found_plain none e = default_plain (text_eq head_mode no_mode) head_mode head
    found_plain (some entry) e =
        named_plain entry.worktree_mode
          (All-mem IsPlain entry records plain (find-mem _ records entry e)).1
          (find-test _ records entry e)

zero_mode_plain :
    (m : Option Text) → is_dangerous_mode m ≡ false → is_dangerous (text_or m no_mode) ≡ false
unfolding lit text_eq
zero_mode_plain none h = refl
zero_mode_plain (some mode) h = h

module _ {W : Type 0} (h : Host W) where
  Ends-handoff_entry :
      (p e : Text) (by_path : List (Text × List ChangedPath)) (modes : List (Text × Text))
      (path : Text) (records : List ChangedPath)
      → get_text path by_path ≡ some records
      → ArePlain modes (path, records)
      → Ends
          (λ (v : HandoffEntry × EffectEntry) s. is_dangerous_mode v.0.mode ≡ false)
          (handoff_entry h p e by_path modes path)
  unfolding handoff_entry
  Ends-handoff_entry p e by_path modes path records found plain = Ends-bind _ _ _ (λ old_blob.
      rw found (
        Ends-if _ _ _ _ (Ends-pure _ _ (λ t. refl)) (
          Ends-bind _ _ _ (λ new_blob. Ends-pure _ _ (λ t.
            new_mode_plain records (text_or (get_text path modes) no_mode) plain.1
              (zero_mode_plain (get_text path modes) plain.0))))))

  -- What approved_changes has tested, for the paths and for the modes.
  abbrev Tested : (Text → Bool) → List (Text × List ChangedPath) × List (Text × Text) → Type 0
  Tested allowed v = All (IsApproved allowed) (map key_of v.0) × All (ArePlain v.1) v.0

  Ends-Tested :
      (p : Text) (input : HandoffInput)
      → Ends (λ v s. Tested input.allowed v) (approved_changes h p input)
  unfolding approved_changes
  Ends-Tested p input =
      let P = λ (v : List (Text × List ChangedPath) × List (Text × Text)) (s : Session W).
        Tested input.allowed v in
      Ends-bind P _ _ (λ _. Ends-bind P _ _ (λ current. Ends-bind P _ _ (λ _.
        Ends-bind P _ _ (λ changed. Ends-bind P _ _ (λ _. Ends-bind P _ _ (λ _.
          Ends-step P _ _ (λ _ s u scoped. Ends-bind P _ _ (λ _. Ends-bind P _ _ (λ tracked.
            Ends-bind P _ _ (λ _. Ends-bind P _ _ (λ modes. Ends-step P _ _ (λ _ s' u' plain.
              Ends-bind P _ _ (λ _. Ends-bind P _ _ (λ _. Ends-pure P _ (λ t. (
                for_each-ok _ (IsApproved input.allowed) _ s u (check_changed_path-ok input.allowed)
                    scoped,
                for_each-ok _ (ArePlain modes) _ s' u' (check_modes-ok modes) plain,
              ))))))))))))))))

  -- The entry of a path that is among the keys.
  Ends-entry :
      (p e : Text) (by_path : List (Text × List ChangedPath)) (modes : List (Text × Text))
      → All (ArePlain modes) by_path
      → (path : Text) → Memᴰ path (map key_of by_path)
      → Ends
          (λ (v : HandoffEntry × EffectEntry) s. is_dangerous_mode v.0.mode ≡ false)
          (handoff_entry h p e by_path modes path)
  Ends-entry p e by_path modes plain path m =
      let (records, found) = get_text_of_mem path by_path m in
      Ends-handoff_entry p e by_path modes path records found (
        All-mem (ArePlain modes) (path, records) by_path plain
          (mem_of_get_text path records by_path found))

  Ends-entries :
      (p e : Text) (by_path : List (Text × List ChangedPath)) (modes : List (Text × Text))
      → All (ArePlain modes) by_path
      → Ends
          (λ vs s. All (λ (v : HandoffEntry × EffectEntry). is_dangerous_mode v.0.mode ≡ false) vs)
          (collect (handoff_entry h p e by_path modes) (sort_by path_le (map key_of by_path)))
  Ends-entries p e by_path modes plain =
      let R = λ (path : Text). Memᴰ path (map key_of by_path) in
      collect-ok (handoff_entry h p e by_path modes) R _ (sort_by path_le (map key_of by_path))
        (Ends-entry p e by_path modes plain) (All-sort path_le R _ (All-of_mem R _ (λ path m. m)))

  -- What is known of a prepared handoff.
  abbrev Prepared : (Text → Bool) → PreparedHandoff → Type 0
  Prepared allowed v =
      All (IsApproved allowed) v.paths
      × All (λ entry. is_dangerous_mode entry.mode ≡ false) v.entries

  Ends-Prepared :
      (p : Text) (input : HandoffInput)
      → Ends (λ v s. Prepared input.allowed v) (prepare_handoff h p input)
  unfolding prepare_handoff
  Ends-Prepared p input =
      let P = λ (v : PreparedHandoff) (s : Session W). Prepared input.allowed v in
      Ends-guarded_none P _ (
        Ends-step P _ _ (λ approved s u run.
          let tested = (Ends-Tested p input).at s u approved run in
          Ends-step P _ _ (λ made s' u' run'. Ends-bind P _ _ (λ rendered.
            Ends-bind P _ _ (λ identity. Ends-pure P _ (λ t. (
              All-sort path_le _ _ tested.0,
              All-map (λ (x : HandoffEntry × EffectEntry). x.0)
                  (λ entry. is_dangerous_mode entry.mode ≡ false) made
                  ((Ends-entries p input.expected_head approved.0 approved.1 tested.1).at s' u' made
                    run'),
            )))))))

  -- A prepared handoff stays in its scope: every path of it is one that the caller allows, has no
  -- `.git` segment and is no .gitmodules or .gitattributes file, and no entry of it has the mode of a
  -- symlink or of a gitlink.
  pub prepare_handoff-IsApproved :
      (p : Text) (input : HandoffInput) (s t : Session W) (prepared : PreparedHandoff)
      → prepare_handoff h p input s ≡ (ok prepared, t)
      → All (IsApproved input.allowed) prepared.paths
        × All (λ entry. is_dangerous_mode entry.mode ≡ false) prepared.entries
  prepare_handoff-IsApproved p input s t prepared e = (Ends-Prepared p input).at s t prepared e
