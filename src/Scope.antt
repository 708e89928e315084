-- ===== src/Scope.antt =====
-- Assignment scopes: packages/runtime/src/scope.ts. A path is the list of its UTF-16 code units;
-- case is folded as in Base/Texts. The message of an error is left out, but which error is kept.
pub mod Paths
pub mod Overlap
pub mod Segments
pub mod Dependencies
mod Tests
use foundry_agent_workspace.Base.{
  ℕ, suc, Bool, true, false, not, ◌&&◌, ◌||◌, List, [], ◌∷◌, ◌++◌, map, ltb, leb, ◌==◌,
  if◌then◌else◌, Result, ok, err, ◌>>=◌, ◌>>◌, require, any, all, length, Text, codes, text_eq,
  starts_with, ends_with, lower, split,
}

pub data ScopeError : Type 0 where
  whole_repository not_relative bad_segment not_permitted too_many case_clash : ScopeError

abbrev pub slash : ℕ
slash = 47

abbrev pub backslash : ℕ
backslash = 92

-- `value.replaceAll('\\', '/')`
unfoldable pub portable : Text → Text
portable [] = []
portable (c ∷ s) = (if c == backslash then slash else c) ∷ portable s

-- `replace(/\/+$/, '')`
abbrev pub drop_slash : ℕ → Text → Text
drop_slash c [] = if c == slash then [] else c ∷ []
drop_slash c (d ∷ s) = c ∷ d ∷ s

unfoldable pub strip_slashes : Text → Text
strip_slashes [] = []
strip_slashes (c ∷ s) = drop_slash c (strip_slashes s)

-- What `.` does not match in a pattern without the s flag.
abbrev pub is_line_end : ℕ → Bool
is_line_end c = c == 10 || c == 13 || c == 8232 || c == 8233

-- `name(?:\..*)?` against the whole of a text
abbrev pub with_extension : Text → Text → Bool
with_extension s name =
    text_eq s name || starts_with s (name ++ codes ".") && not (any is_line_end s)

-- `.*\.ext` against the whole of a text
abbrev pub has_extension : Text → Text → Bool
has_extension s ext = ends_with s (codes "." ++ ext) && not (any is_line_end s)

-- SECRET_NAME, given the text in lower case
unfoldable pub secret_name : Text → Bool
secret_name s =
    with_extension s (codes ".env")
    || any (text_eq s) (
        codes ".envrc"
        ∷ codes ".npmrc"
        ∷ codes ".pypirc"
        ∷ codes ".netrc"
        ∷ codes ".pgpass"
        ∷ codes ".terraformrc"
        ∷ codes ".ssh"
        ∷ codes ".aws"
        ∷ codes ".azure"
        ∷ codes ".kube"
        ∷ codes ".docker"
        ∷ codes ".gnupg"
        ∷ codes "id_rsa"
        ∷ codes "id_dsa"
        ∷ codes "id_ecdsa"
        ∷ codes "id_ed25519"
        ∷ [])
    || any (with_extension s)
        (codes "credential" ∷ codes "credentials" ∷ codes "secret" ∷ codes "secrets" ∷ [])
    || any (has_extension s) (codes "pem" ∷ codes "key" ∷ codes "p12" ∷ codes "pfx" ∷ [])

-- RESERVED_WINDOWS_NAME, given the text in lower case
unfoldable pub reserved_windows_name : Text → Bool
reserved_windows_name s =
    any (with_extension s) (codes "con" ∷ codes "prn" ∷ codes "aux" ∷ codes "nul" ∷ [])
    || any
        (λ n. with_extension s (codes "com" ++ n ∷ []) || with_extension s (codes "lpt" ++ n ∷ []))
        (49 ∷ 50 ∷ 51 ∷ 52 ∷ 53 ∷ 54 ∷ 55 ∷ 56 ∷ 57 ∷ [])

-- `/[. ]$/`
unfoldable pub ends_dot_or_space : Text → Bool
ends_dot_or_space s = ends_with s (codes ".") || ends_with s (codes " ")

-- `/[\u0000-\u001f*?"<>|]/` on one unit
unfoldable pub is_forbidden_unit : ℕ → Bool
is_forbidden_unit c = ltb c 32 || any (λ d. c == d) (42 ∷ 63 ∷ 34 ∷ 60 ∷ 62 ∷ 124 ∷ [])

abbrev pub is_dots : Text → Bool
is_dots s = text_eq s [] || text_eq s (codes ".") || text_eq s (codes "..")

abbrev pub is_git_name : Text → Bool
is_git_name s =
    text_eq (lower s) (codes ".git")
    || text_eq (lower s) (codes ".gitmodules")
    || text_eq (lower s) (codes ".gitattributes")

-- The two tests of the loop over the segments.
unfoldable pub check_segment : Text → Result ScopeError (Unit {0})
check_segment s = do
  require (not (is_dots s)) bad_segment
  require
      (not (
        is_git_name s
        || any (λ c. c == 58) s
        || ends_dot_or_space s
        || reserved_windows_name (lower s)
        || secret_name (lower s)
        || any is_forbidden_unit s))
      not_permitted

unfoldable pub check_segments : List Text → Result ScopeError (Unit {0})
check_segments [] = ok tt
check_segments (s ∷ ss) = do check_segment s; check_segments ss

-- `/^[A-Za-z]:/`
abbrev pub has_drive : Text → Bool
has_drive (c ∷ d ∷ s) = (leb 65 c && leb c 90 || leb 97 c && leb c 122) && d == 58
has_drive _ = false

unfoldable pub check_path : Text → Result ScopeError Text
check_path p = do
  require (not (starts_with p (slash ∷ []) || has_drive p)) not_relative
  check_segments (split slash p)
  ok p

unfoldable pub normalize_scope_path : Text → Bool → Result ScopeError Text
normalize_scope_path value allow_root =
    let p = strip_slashes (portable value) in
    if text_eq p [] then (if allow_root then ok [] else err whole_repository) else check_path p

-- `covers` once both sides are folded.
abbrev pub covers_folded : Text → Text → Bool
covers_folded left right =
    text_eq left [] || text_eq right left || starts_with right (left ++ slash ∷ [])

unfoldable pub covers : Text → Text → Bool
covers scope candidate = covers_folded (lower scope) (lower (portable candidate))

unfoldable pub in_scope : List Text → Text → Bool
in_scope scopes candidate = elim (normalize_scope_path candidate false) [
  | ok normalized ↦ any (λ scope. covers scope normalized) scopes
  | err e ↦ false
]

unfoldable pub scopes_overlap : List Text → List Text → Bool
scopes_overlap left right = any (λ a. any (λ b. covers a b || covers b a) right) left

abbrev pub max_scope_paths : ℕ
max_scope_paths = 32

unfoldable pub normalize_all : List Text → Bool → Result ScopeError (List Text)
normalize_all [] allow_root = ok []
normalize_all (v ∷ vs) allow_root = do
  p ← normalize_scope_path v allow_root
  ps ← normalize_all vs allow_root
  ok (p ∷ ps)

-- `[...new Set(values)]`: the first of equal texts, in order.
unfoldable pub distinct_from : List Text → List Text → List Text
distinct_from seen [] = []
distinct_from seen (p ∷ ps) =
    if any (text_eq p) seen then distinct_from seen ps else p ∷ distinct_from (p ∷ seen) ps

-- The loop over `keys`.
unfoldable pub check_keys : List Text → List Text → Result ScopeError (Unit {0})
check_keys keys [] = ok tt
check_keys keys (p ∷ ps) = do
  require (not (any (text_eq (lower p)) keys)) case_clash
  check_keys (lower p ∷ keys) ps

-- `sort()`: by code units.
unfoldable pub text_le : Text → Text → Bool
text_le [] t = true
text_le (a ∷ s) [] = false
text_le (a ∷ s) (b ∷ t) = if a == b then text_le s t else ltb a b

unfoldable pub insert_sorted : Text → List Text → List Text
insert_sorted p [] = p ∷ []
insert_sorted p (q ∷ qs) = if text_le p q then p ∷ q ∷ qs else q ∷ insert_sorted p qs

unfoldable pub sort : List Text → List Text
sort [] = []
sort (p ∷ ps) = insert_sorted p (sort ps)

unfoldable pub normalize_scope : List Text → Bool → Result ScopeError (List Text)
normalize_scope values allow_root = do
  require (not (ltb max_scope_paths (length values))) too_many
  paths ← normalize_all values allow_root
  let entries = distinct_from [] paths
  check_keys [] entries
  ok (sort entries)
