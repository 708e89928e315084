-- ===== src/Git/Manifests.antt =====
-- Effect manifests and the listings of trees and of the index: parseDiffTreeRaw, sortByPathBytes,
-- hashManifestEntries, and the loops over the records of `ls-tree -z` and `ls-files -s -z` in
-- packages/runtime/src/git-operations.ts.
use foundry_agent_workspace.Base.{
  Option, none, some, List, [], ◌∷◌, ◌==◌, if◌then◌else◌, nth, Result, ok, err, ◌>>=◌, Text,
  text_eq, split,
}
use foundry_agent_workspace.Git.{Failure, fault, Host}
use foundry_agent_workspace.Git.Texts.{or_blank, pop_blank, is_empty, path_le, sort_by}
use foundry_agent_workspace.Git.Status.{cut}

pub data EffectStatus : Type 0 where
  a_added a_modified a_deleted a_typechange : EffectStatus

pub record EffectEntry : Type 0 where
  pub path : Text
  pub status : EffectStatus
  pub old_mode : Text
  pub new_mode : Text
  pub old_blob : Text
  pub new_blob : Text

pub record EffectManifest : Type 0 where
  pub entries : List EffectEntry
  pub sha256 : Text

abbrev pub status_code : Text → Option EffectStatus
status_code (c ∷ []) =
    if c == b'A'
    then some a_added
    else if c == b'M'
    then some a_modified
    else if c == b'D'
    then some a_deleted
    else if c == b'T'
    then some a_typechange
    else none
status_code _ = none

-- A field that is missing or empty is malformed; fields beyond the fifth are not read.
unfoldable pub parse_metadata : List Text → Text → Result Failure EffectEntry
parse_metadata
      ((o ∷ old_mode)
        ∷ ((n ∷ new_mode) ∷ ((a ∷ old_blob) ∷ ((b ∷ new_blob) ∷ ((s ∷ status) ∷ rest)))))
      path =
    elim (status_code (s ∷ status)) [
      | none ↦ err (fault "Unsupported diff-tree status: " ((s ∷ status) ∷ []))
      | some code ↦ ok (record {
        path = path;
        status = code;
        old_mode = o ∷ old_mode;
        new_mode = n ∷ new_mode;
        old_blob = a ∷ old_blob;
        new_blob = b ∷ new_blob;
      })
    ]
parse_metadata _ path = err (fault "Malformed diff-tree metadata." [])

abbrev pub malformed : Result Failure (List EffectEntry)
malformed = err (fault "Malformed diff-tree output." [])

-- Metadata and path are two tokens: the loop steps by two.
unfoldable pub parse_entries : List Text → Result Failure (List EffectEntry)
unfolding parse_metadata
parse_entries [] = ok []
parse_entries (meta ∷ []) = malformed
parse_entries ([] ∷ (path ∷ tokens)) = malformed
parse_entries ((c ∷ meta) ∷ (path ∷ tokens)) =
    let rest = parse_entries tokens in
    let followed = λ (entry : EffectEntry). rest >>= λ entries. ok (entry ∷ entries) in
    if c == b':' then (parse_metadata (split b' ' meta) path >>= followed) else malformed

unfoldable pub parse_diff_tree_raw : Text → Result Failure (List EffectEntry)
unfolding parse_entries pop_blank
parse_diff_tree_raw stdout = parse_entries (pop_blank (split 0 stdout))

unfoldable pub sort_by_path_bytes : List EffectEntry → List EffectEntry
unfolding sort_by path_le
sort_by_path_bytes = sort_by (λ a b. path_le a.path b.path)

unfoldable pub hash_manifest_entries : {W : Type 0} → Host W → List EffectEntry → Text
hash_manifest_entries h entries = h.json_sha256 entries

-- A JavaScript Map with texts as keys.
module _ {V : Type 0} where
  unfoldable pub get_text : Text → List (Text × V) → Option V
  get_text k [] = none
  get_text k ((j, v) ∷ m) = if text_eq j k then some v else get_text k m

  unfoldable pub set_text : Text → V → List (Text × V) → List (Text × V)
  set_text k v [] = (k, v) ∷ []
  set_text k v ((j, w) ∷ m) = if text_eq j k then (j, v) ∷ m else (j, w) ∷ set_text k v m

-- `mode<space>…<tab>path`: the mode of the path, if there is a mode.
unfoldable pub tree_record : Text → List (Text × Text) → List (Text × Text)
tree_record text modes = elim (cut 9 text) [
  | none ↦ modes
  | some (meta, path) ↦
      let mode = or_blank (nth 0 (split b' ' meta)) in
      if is_empty mode then modes else set_text path mode modes
]

unfoldable pub tree_records : List Text → List (Text × Text) → List (Text × Text)
unfolding tree_record
tree_records [] modes = modes
tree_records (text ∷ texts) modes = tree_records texts (tree_record text modes)

-- `mode<space>blob<space>stage<tab>path`
unfoldable pub index_record : Text → List (Text × (Text × Text)) → List (Text × (Text × Text))
index_record text staged = elim (cut 9 text) [
  | none ↦ staged
  | some (meta, path) ↦
      let mode = or_blank (nth 0 (split b' ' meta)) in
      let blob = or_blank (nth 1 (split b' ' meta)) in
      if is_empty mode
      then staged
      else if is_empty blob
      then staged
      else set_text path (mode, blob) staged
]

unfoldable pub index_records : List Text → List (Text × (Text × Text)) → List (Text × (Text × Text))
unfolding index_record
index_records [] staged = staged
index_records (text ∷ texts) staged = index_records texts (index_record text staged)
