-- ===== src/Etc/Merge.antt =====
-- The 3-way merge of mergetc.rs: the decision for one path, the step that writes it, and the loop.
-- Proofs are in the children.
pub mod Content
pub mod Steps
pub mod Law
pub mod Overrides
pub mod Success
use bootc_migrate.Prelude.{
  ◌≡◌, refl, Bool, true, false, ◌||◌, ◌&&◌, not, Option, none, some, List, [], ◌∷◌, ◌++◌, arith,
  if◌then◌else◌, Result, ok, err, ◌>>=◌, for_each, is_some,
}
use bootc_migrate.Text.{Text, text_eq, codes}
use bootc_migrate.Etc.Tree.{
  Bytes, Metadata, Node, regular, link, DirEntry, file, symlink, Dict, lookup, insert, keys,
  EtcTree, collect_relative_entries, read_file_at, union_paths, WriteError, write_file, write_link,
  bytes_of,
}
use bootc_migrate.Etc.Identity.{
  IdentityMergePolicy, source_first, is_identity_db, merge_identity_db,
}

abbrev pub rebase_old_suffix : Text
rebase_old_suffix = codes ".rebase-old"

pub record MergeContext : Type 0 where
  pub old_default : Option Bytes
  pub current : Option Bytes
  pub new_default : Option Bytes

pub choose_content : Option Bytes → Option Bytes → Option Bytes → Option Bytes
choose_content (some old) (some cur) (some new) = if text_eq old cur then some new else some cur
choose_content (some old) (some cur) none = if text_eq old cur then none else some cur
choose_content none (some cur) none = some cur
choose_content none none (some new) = some new
choose_content (some old) none (some new) = none
choose_content (some old) none none = none
choose_content none (some cur) (some new) = some cur
choose_content none none none = none

unfoldable pub choose_merged_content : MergeContext → Option Bytes
unfolding choose_content
choose_merged_content ctx = choose_content ctx.old_default ctx.current ctx.new_default

-- The comparison of two reads, `Option<Vec<u8>>`.
unfoldable pub same_bytes : Option Bytes → Option Bytes → Bool
same_bytes none none = true
same_bytes none (some d) = false
same_bytes (some c) none = false
same_bytes (some c) (some d) = text_eq c d

unfoldable pub entries_differ :
    Option DirEntry → Option DirEntry → Option Bytes → Option Bytes → Bool
unfolding same_bytes
entries_differ (some file) (some file) old cur = not (same_bytes old cur)
entries_differ (some (symlink o)) (some (symlink c)) old cur = not (text_eq o c)
entries_differ none (some c) old cur = true
entries_differ (some o) none old cur = true
entries_differ (some file) (some (symlink c)) old cur = true
entries_differ (some (symlink o)) (some file) old cur = true
entries_differ none none old cur = false

unfoldable pub user_modified_at :
    Option DirEntry → Option DirEntry → EtcTree → EtcTree → Text → Bool
unfolding entries_differ
user_modified_at old_entry cur_entry old_default current p =
    entries_differ old_entry cur_entry (read_file_at old_default p) (read_file_at current p)

pub record EtcDriftManifest : Type 0 where
  pub decisions : Dict Bool

unfoldable pub decision_for : EtcDriftManifest → Text → Option Bool
decision_for m p = if is_identity_db p then none else lookup p m.decisions

pub record MergePolicy : Type 0 where
  pub overrides : Option EtcDriftManifest
  pub identity : IdentityMergePolicy

unfoldable pub decision : Option EtcDriftManifest → Text → Option Bool
unfolding decision_for
decision none p = none
decision (some m) p = decision_for m p

-- The entry that the path takes, and whether the target's default is forced.
unfoldable pub choose_entry :
    Option Bool → Bool → Option DirEntry → Option DirEntry → Option DirEntry × Bool
choose_entry (some true) modified cur_entry new_entry = (cur_entry, false)
choose_entry (some false) modified cur_entry new_entry = (new_entry, true)
choose_entry none modified cur_entry new_entry = (if modified then cur_entry else new_entry, false)

-- The content of a path that merges as a file.
unfoldable pub merged_content :
    Bool → Text → IdentityMergePolicy → Option Bytes → Option Bytes → Option Bytes → Option Bytes
unfolding choose_merged_content
merged_content forced p identity old cur new =
    if forced
    then new
    else if is_identity_db p
    then merge_identity_db p cur new identity
    else choose_merged_content (record { old_default = old; current = cur; new_default = new })

-- Whose metadata the written file gets.
metadata_source : Bool → EtcTree → EtcTree → EtcTree → Text → Option Metadata
metadata_source forced old cur new p =
    if forced && is_some (new.stat p)
    then new.stat p
    else if is_some (cur.stat p)
    then cur.stat p
    else if is_some (new.stat p)
    then new.stat p
    else old.stat p

-- `fails` says where the file system refuses a write; `output` is what the output directory holds.
module _ (fails : Text → Bool) where
  unfoldable pub write_rebase_old_sidecar :
      DirEntry → EtcTree → Text → Dict Node → Result WriteError (Dict Node)
  write_rebase_old_sidecar (symlink target) cur p out =
      write_link fails (p ++ rebase_old_suffix) target out
  write_rebase_old_sidecar file cur p out = elim (read_file_at cur p) [
    | none ↦ err (WriteError.failed p)
    | some content ↦ write_file fails (p ++ rebase_old_suffix) content (cur.stat p) out
  ]

  sidecar_step : Bool → Option DirEntry → EtcTree → Text → Dict Node → Result WriteError (Dict Node)
  unfolding write_rebase_old_sidecar
  sidecar_step displaced none cur p out = ok out
  sidecar_step displaced (some entry) cur p out =
      if displaced then write_rebase_old_sidecar entry cur p out else ok out

  write_chosen :
      Option DirEntry
      → Option Bytes
      → Option Metadata
      → Text
      → Dict Node
      → Result WriteError (Dict Node)
  write_chosen none content m p out = ok out
  write_chosen (some (symlink target)) content m p out = write_link fails p target out
  write_chosen (some file) none m p out = ok out
  write_chosen (some file) (some content) m p out = write_file fails p content m out

  -- The body of the loop over the paths.
  unfoldable pub merge_path :
      EtcTree → EtcTree → EtcTree → MergePolicy → Dict Node → Text → Result WriteError (Dict Node)
  unfolding sidecar_step write_chosen metadata_source
  merge_path old cur new policy out p =
      let old_entry = lookup p (collect_relative_entries old) in
      let cur_entry = lookup p (collect_relative_entries cur) in
      let new_entry = lookup p (collect_relative_entries new) in
      let modified = user_modified_at old_entry cur_entry old cur p in
      let (chosen, forced) =
        choose_entry (decision policy.overrides p) modified cur_entry new_entry in
      let content =
        merged_content forced p policy.identity (read_file_at old p) (read_file_at cur p)
          (read_file_at new p) in
      sidecar_step (forced && modified) cur_entry cur p out
      >>= write_chosen chosen content (metadata_source forced old cur new p) p

  unfoldable pub merge_etc_files_with_policy :
      EtcTree → EtcTree → EtcTree → Dict Node → MergePolicy → Result WriteError (Dict Node)
  unfolding merge_path
  merge_etc_files_with_policy old cur new output policy =
      for_each (merge_path old cur new policy)
        (union_paths (
          keys (collect_relative_entries old)
          ++ (keys (collect_relative_entries cur) ++ keys (collect_relative_entries new))))
        output

  unfoldable pub merge_etc_files_with_overrides :
      EtcTree
      → EtcTree
      → EtcTree
      → Dict Node
      → Option EtcDriftManifest
      → Result WriteError (Dict Node)
  merge_etc_files_with_overrides old cur new output overrides =
      merge_etc_files_with_policy old cur new output
        (record { overrides = overrides; identity = source_first })

  unfoldable pub merge_etc_files :
      EtcTree → EtcTree → EtcTree → Dict Node → Result WriteError (Dict Node)
  unfolding merge_etc_files_with_overrides
  merge_etc_files old cur new output = merge_etc_files_with_overrides old cur new output none
