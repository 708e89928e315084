-- ===== src/Scope/Paths.antt =====
-- What a normalised scope path is: `normalizeScopePath` and `inScope` of
-- packages/runtime/src/scope.ts.
use foundry_agent_workspace.Base.{
  Result-cases, ◌≡◌, ◌≢◌, refl, sym, ap, subst, ◌∙◌, ◌⊎◌, inl, inr, Bool, true, false, List, [],
  ◌∷◌, ◌==◌, arith, Bool-cases, ok, any, All, Memᴰ, any_witness, Text, codes, text_eq, starts_with,
  lower, split, text_eq_iff,
}
use foundry_agent_workspace.Scope.{
  slash, portable, strip_slashes, drop_slash, secret_name, reserved_windows_name, check_segment,
  check_segments, check_path, normalize_scope_path, covers, in_scope, has_drive,
}
use foundry_agent_workspace.Scope.Overlap.{
  Below, covers_iff, NoBackslash, portable-NoBackslash, portable_of_NoBackslash,
}

-- A name that stays inside its directory and names no repository metadata, device, stream or secret.
pub record SafeSegment (s : Text) : Type 0 where
  pub not_empty : s ≢ []
  pub not_dot : s ≢ codes "."
  pub not_dot_dot : s ≢ codes ".."
  pub not_git : lower s ≢ codes ".git"
  pub no_colon : any (λ c. c == 58) s ≡ false
  pub not_reserved : reserved_windows_name (lower s) ≡ false
  pub not_secret : secret_name (lower s) ≡ false

check_segment-SafeSegment : (s : Text) → check_segment s ≡ ok tt → SafeSegment s
unfolding check_segment
check_segment-SafeSegment s h =
    let e1 = text_eq_iff s [] in
    let e2 = text_eq_iff s (codes ".") in
    let e3 = text_eq_iff s (codes "..") in
    let e4 = text_eq_iff (lower s) (codes ".git") in
    record {
      not_empty = λ e. ground (arith, e1.1 e);
      not_dot = λ e. ground (arith, e2.1 e);
      not_dot_dot = λ e. ground (arith, e3.1 e);
      not_git = λ e. ground (arith, e4.1 e);
      no_colon = ground arith;
      not_reserved = ground arith;
      not_secret = ground arith;
    }

check_segments-All : (ss : List Text) → check_segments ss ≡ ok tt → All SafeSegment ss
unfolding check_segments
check_segments-All [] h = tt
check_segments-All (s ∷ ss) h = elim (Result-cases (check_segment s)) [
  | inl (u, e) ↦
      (check_segment-SafeSegment s (ground (arith, e)), check_segments-All ss (ground (arith, e)))
  | inr (f, e) ↦ absurd (ground (arith, e))
]

pub record SafePath (p : Text) : Type 0 where
  pub portable_path : NoBackslash p
  pub relative : starts_with p (slash ∷ []) ≡ false
  pub no_drive : has_drive p ≡ false
  pub segments : All SafeSegment (split slash p)

NoBackslash-strip : (s : Text) → NoBackslash s → NoBackslash (strip_slashes s)
unfolding strip_slashes
NoBackslash-strip [] n = tt
NoBackslash-strip (c ∷ s) n = grow (strip_slashes s) (NoBackslash-strip s n.1)
  where
    grow : (t : Text) → NoBackslash t → NoBackslash (drop_slash c t)
    grow [] k = ground (arith, n.0)
    grow (d ∷ t) k = (n.0, k)

strip_slashes_idem : (s : Text) → strip_slashes (strip_slashes s) ≡ strip_slashes s
unfolding strip_slashes
strip_slashes_idem [] = refl
strip_slashes_idem (c ∷ s) = again (strip_slashes s) (strip_slashes_idem s)
  where
    again : (t : Text) → strip_slashes t ≡ t → strip_slashes (drop_slash c t) ≡ drop_slash c t
    again [] k = ground arith
    again (d ∷ t) k = ap (drop_slash c) k

-- An accepted path is the repository root, which only a read scope may be, or a relative path with
-- portable separators whose every segment is safe: none is empty, `.` or `..`.
pub normalize_scope_path-SafePath :
    (value : Text) (allow_root : Bool) (p : Text)
    → normalize_scope_path value allow_root ≡ ok p
    → ((p ≡ []) × (allow_root ≡ true)) ⊎ SafePath p
unfolding normalize_scope_path check_path
normalize_scope_path-SafePath value allow_root p h =
    let q = strip_slashes (portable value) in
    elim (Bool-cases (text_eq q [])) [
      | inl e ↦ inl (ground arith, ground arith)
      | inr e ↦ elim (Result-cases (check_segments (split slash q))) [
        | inr (f, bad) ↦ absurd (ground (arith, e, bad))
        | inl (u, good) ↦
            let same : q ≡ p = ground (arith, e, good) in
            inr (
              subst SafePath same (record {
                portable_path = NoBackslash-strip (portable value) (portable-NoBackslash value);
                relative = ground (arith, e, good);
                no_drive = ground (arith, e, good);
                segments = check_segments-All (split slash q) good;
              }))
      ]
    ]

-- Normalising an accepted path again gives the same path.
normalize_scope_path_idem :
    (value : Text) (allow_root : Bool) (p : Text)
    → normalize_scope_path value allow_root ≡ ok p
    → normalize_scope_path p allow_root ≡ ok p
unfolding normalize_scope_path check_path
normalize_scope_path_idem value allow_root p h =
    let q = strip_slashes (portable value) in
    let fixed : strip_slashes (portable q) ≡ q =
      ap strip_slashes (
        portable_of_NoBackslash q (NoBackslash-strip (portable value) (portable-NoBackslash value)))
      ∙ strip_slashes_idem (portable value) in
    let same : q ≡ p = ground (arith, (text_eq_iff q []).0) in
    subst (λ t. normalize_scope_path t allow_root ≡ ok t) same (rw fixed (h ∙ ap ok (sym same)))

-- A path that `inScope` accepts has a safe normal form that one of the scopes holds: it is that
-- scope or lies below it, whatever `..` or separators the candidate was written with.
pub in_scope_sound :
    (scopes : List Text) (candidate : Text)
    → in_scope scopes candidate ≡ true
    → (p : Text) × (scope : Text) × (normalize_scope_path candidate false ≡ ok p)
      × SafePath p
      × Memᴰ scope scopes
      × Below (lower scope) (lower p)
unfolding in_scope
in_scope_sound scopes candidate h = elim (Result-cases (normalize_scope_path candidate false)) [
  | inr (f, e) ↦ absurd (ground (arith, e))
  | inl (p, e) ↦
      let (scope, m, c) = any_witness (λ s. covers s p) scopes (ground (arith, e)) in
      let safe : SafePath p = elim (normalize_scope_path-SafePath candidate false p e) [
        | inl (root, no_root) ↦ absurd (cc)
        | inr s ↦ s
      ] in
      (
        p,
        scope,
        e,
        safe,
        m,
        subst (λ t. Below (lower scope) (lower t)) (portable_of_NoBackslash p safe.portable_path)
            ((covers_iff scope p).0 c),
      )
]
