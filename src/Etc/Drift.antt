-- ===== src/Etc/Drift.antt =====
-- The drift report and the states of paths (mergetc.rs), which read the trees and write nothing.
pub mod Default
use bootc_migrate.Prelude.{
  ℕ, zero, suc, ◌+◌, ◌-◌, ◌*◌, ◌/◌, ◌%◌, ◌^◌, ◌≤◌, ◌<◌, String, ◌≡◌, refl, sym, ap, ◌∙◌, subst, ◌≢◌,
  ◌↔◌, ◌⊎◌, inl, inr, Bool, true, false, ◌&&◌, ◌||◌, not, Option, none, some, List, [], ◌∷◌, ◌++◌,
  map, reverse, arith, ltb, leb, ◌==◌, if◌then◌else◌, ltb→lt, lt→ltb, leb→le, ==_iff, Bool-cases,
  Option-cases, All, is_some, is_none, or_option, is_some_and, length, any, all, filter, find?,
  length-append, find?-eq-some, find?-eq-none, any-append, filter_map, Result, ok, err, ◌>>=◌,
  for_each, >>=-eq-ok,
}
use bootc_migrate.Text.{
  Text, codes, text_eq, text_le, contains, starts_with, ends_with, strip_prefix, split_by, split_on,
  lines, is_whitespace, is_control, trim_start_by, trim, is_empty, split_whitespace, join,
  eq_ignore_ascii_case, sort, dedup, parse_u32, parse_u64, show_nat, text_eq→eq, text_eq_self,
  text_eq_iff, text_eq_comm, contains-sort, contains-dedup, eq_ignore_ascii_case_self,
  eq_ignore_ascii_case_comm, eq_ignore_ascii_case_trans, ends_with-append, text_eq-append_self,
  text_eq-append_right,
}
use bootc_migrate.Etc.Tree.{
  Bytes, Node, DirEntry, file, symlink, Dict, lookup, keys, EtcTree, collect_relative_entries,
  read_file_at, union_paths,
}
use bootc_migrate.Etc.Merge.{EtcDriftManifest, same_bytes, user_modified_at}

pub data DriftKind : Type 0 where
  added modified removed type_changed : DriftKind

pub record EtcDriftEntry : Type 0 where
  pub path : Text
  pub kind : DriftKind

drift_kind : Option DirEntry → Option DirEntry → Option Bytes → Option Bytes → Option DriftKind
unfolding same_bytes text_eq
drift_kind none (some l) factory live = some added
drift_kind (some f) none factory live = some removed
drift_kind (some file) (some file) factory live =
    if same_bytes factory live then none else some modified
drift_kind (some (symlink f)) (some (symlink l)) factory live =
    if text_eq f l then none else some modified
drift_kind (some file) (some (symlink l)) factory live = some type_changed
drift_kind (some (symlink f)) (some file) factory live = some type_changed
drift_kind none none factory live = none

kind_at : EtcTree → EtcTree → Text → Option DriftKind
unfolding drift_kind
kind_at factory live p =
    drift_kind (lookup p (collect_relative_entries factory))
      (lookup p (collect_relative_entries live)) (read_file_at factory p) (read_file_at live p)

push_entry : Text → Option DriftKind → List EtcDriftEntry → List EtcDriftEntry
push_entry p none rest = rest
push_entry p (some kind) rest = record { path = p; kind = kind } ∷ rest

drift_over : EtcTree → EtcTree → List Text → List EtcDriftEntry
unfolding kind_at push_entry
drift_over factory live [] = []
drift_over factory live (p ∷ ps) =
    push_entry p (kind_at factory live p) (drift_over factory live ps)

unfoldable pub diff_etc_factory_vs_live : EtcTree → EtcTree → List EtcDriftEntry
unfolding drift_over
diff_etc_factory_vs_live factory live =
    drift_over factory live (
      union_paths (keys (collect_relative_entries factory) ++ keys (collect_relative_entries live)))

keep_all : List EtcDriftEntry → Dict Bool
keep_all [] = []
keep_all (e ∷ es) = (e.path, true) ∷ keep_all es

unfoldable pub default_for_drift : List EtcDriftEntry → EtcDriftManifest
unfolding keep_all
default_for_drift drift = record { decisions = keep_all drift }

pub record EtcPathState : Type 0 where
  pub path : Text
  pub in_source_default : Bool
  pub in_current : Bool
  pub in_target_default : Bool
  pub user_modified : Bool

state_of : EtcTree → EtcTree → EtcTree → Text → EtcPathState
state_of old cur new p = record {
  path = p;
  in_source_default = is_some (lookup p (collect_relative_entries old));
  in_current = is_some (lookup p (collect_relative_entries cur));
  in_target_default = is_some (lookup p (collect_relative_entries new));
  user_modified =
      user_modified_at (lookup p (collect_relative_entries old))
        (lookup p (collect_relative_entries cur)) old cur p;
}

unfoldable pub etc_path_states : EtcTree → EtcTree → EtcTree → List EtcPathState
unfolding state_of
etc_path_states old cur new = map (state_of old cur new) (
    union_paths (
      keys (collect_relative_entries old)
      ++ (keys (collect_relative_entries cur) ++ keys (collect_relative_entries new))))
