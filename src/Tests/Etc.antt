-- ===== src/Tests/Etc.antt =====
-- The merge and the drift report on small trees.
use bootc_migrate.Prelude.{
  String, ◌≡◌, refl, Bool, true, false, none, some, [], ◌∷◌, Result, ok, err, for_each,
}
use bootc_migrate.Text.{
  insert_sorted, Text, codes, text_eq, text_le, starts_with, ends_with, split_by, split_on, lines,
  sort, dedup,
}
use bootc_migrate.Etc.Tree.{
  blocked, Node, regular, Dict, lookup, insert, EtcTree, WriteError, write_file, write_link,
  collect_relative_entries, union_paths, read_file_at, bytes_of,
}
use bootc_migrate.Etc.Identity.{
  source_first, target_first, merge_identity_db, union_by_first_field, is_identity_db, from_utf8,
  is_password_db, key_of, takes_target,
}
use bootc_migrate.Etc.Identity.Union.{IsUnion, union_by_first_field_lem}
use bootc_migrate.Etc.Merge.{
  MergePolicy, EtcDriftManifest, decision, merge_etc_files, merge_etc_files_with_overrides,
  merge_etc_files_with_policy, merge_path, choose_entry, decision_for, user_modified_at,
  entries_differ, same_bytes, merged_content, choose_merged_content, write_rebase_old_sidecar,
}
use bootc_migrate.Etc.Merge.Content.{bytes, content_of, same_content, three_way}
use bootc_migrate.Etc.Merge.Law.{merge_etc_files-three_way, merge-identity}
use bootc_migrate.Etc.Merge.Overrides.{merge-rebase_old, merge-keep_unmodified}
use bootc_migrate.Etc.Drift.{diff_etc_factory_vs_live, default_for_drift}
use bootc_migrate.Etc.Drift.Default.{merge-default_for_drift}
use bootc_migrate.Etc.Merge.Success.{merge_etc_files-ok}

abbrev no_fails : Text → Bool
no_fails p = false

abbrev tree : Dict Node → EtcTree
tree nodes = record { nodes = nodes; stat = λ p. none }

abbrev plain_file : String → String → Text × Node
plain_file p content = (codes p, regular (codes content) none)

-- The user changed `app.conf`, left `keep.conf` and added an account.
abbrev old_tree : EtcTree
old_tree =
    tree
      (plain_file "app.conf" "a" ∷ plain_file "keep.conf" "k" ∷ plain_file "passwd" "root:0\n" ∷ [])

abbrev cur_tree : EtcTree
cur_tree = tree (
    plain_file "app.conf" "b"
    ∷ plain_file "keep.conf" "k"
    ∷ plain_file "passwd" "root:0\nme:9\n"
    ∷ [])

abbrev new_tree : EtcTree
new_tree = tree (
    plain_file "app.conf" "c"
    ∷ plain_file "keep.conf" "n"
    ∷ plain_file "passwd" "root:0\nsrv:5\n"
    ∷ [])

abbrev ok_or_empty : Result WriteError (Dict Node) → Dict Node
ok_or_empty (ok d) = d
ok_or_empty (err e) = []

abbrev merged : Dict Node
merged =
    plain_file "app.conf" "b"
    ∷ plain_file "keep.conf" "n"
    ∷ plain_file "passwd" "root:0\nme:9\nsrv:5\n"
    ∷ []

merged_test : merge_etc_files no_fails old_tree cur_tree new_tree [] ≡ ok merged
unfolding merge_etc_files merge_etc_files_with_overrides merge_etc_files_with_policy merge_path
    for_each union_paths dedup sort insert_sorted collect_relative_entries lookup choose_entry
    decision decision_for user_modified_at entries_differ same_bytes read_file_at merged_content
    choose_merged_content is_identity_db write_rebase_old_sidecar write_file write_link insert
    starts_with text_eq text_le merge_identity_db from_utf8 is_password_db key_of takes_target
    union_by_first_field lines split_by split_on
merged_test = refl

merge_etc_files-three_way_example :
    content_of (lookup (codes "app.conf") merged) ≡ some (bytes (codes "b"))
unfolding lookup is_identity_db ends_with same_content text_eq starts_with three_way
merge_etc_files-three_way_example =
    merge_etc_files-three_way no_fails old_tree cur_tree new_tree [] (codes "app.conf")
      {out = merged} merged_test refl refl refl

abbrev default_policy : MergePolicy
default_policy = record { overrides = none; identity = source_first }

merged_policy_test :
    merge_etc_files_with_policy no_fails old_tree cur_tree new_tree [] default_policy ≡ ok merged
unfolding merge_etc_files merge_etc_files_with_overrides merge_etc_files_with_policy merge_path
    for_each union_paths dedup sort insert_sorted collect_relative_entries lookup choose_entry
    decision decision_for user_modified_at entries_differ same_bytes read_file_at merged_content
    choose_merged_content is_identity_db write_rebase_old_sidecar write_file write_link insert
    starts_with text_eq text_le merge_identity_db from_utf8 is_password_db key_of takes_target
    union_by_first_field lines split_by split_on
merged_policy_test = refl

merge-identity_example :
    (r : Text) × (bytes_of (lookup (codes "passwd") merged) ≡ some r)
    × IsUnion (codes "root:0\nme:9\n") (codes "root:0\nsrv:5\n") r
unfolding lookup is_identity_db ends_with same_content text_eq starts_with from_utf8
merge-identity_example =
    merge-identity no_fails old_tree cur_tree new_tree [] (codes "passwd") default_policy
      (codes "root:0\nme:9\n") (codes "root:0\nsrv:5\n") {s = none} {t = none} {out = merged}
      merged_policy_test refl refl refl refl refl refl refl refl

-- The review decides for the target's `app.conf`, for the user's `keep.conf`, and against the
-- user's accounts, which it cannot.
abbrev review : EtcDriftManifest
review = record {
  decisions = (codes "app.conf", false) ∷ (codes "keep.conf", true) ∷ (codes "passwd", false) ∷ [];
}

abbrev reviewed : Dict Node
reviewed =
    plain_file "app.conf.rebase-old" "b"
    ∷ plain_file "app.conf" "c"
    ∷ plain_file "keep.conf" "n"
    ∷ plain_file "passwd" "root:0\nme:9\nsrv:5\n"
    ∷ []

reviewed_test :
    merge_etc_files_with_overrides no_fails old_tree cur_tree new_tree [] (some review)
    ≡ ok reviewed
unfolding merge_etc_files merge_etc_files_with_overrides merge_etc_files_with_policy merge_path
    for_each union_paths dedup sort insert_sorted collect_relative_entries lookup choose_entry
    decision decision_for user_modified_at entries_differ same_bytes read_file_at merged_content
    choose_merged_content is_identity_db write_rebase_old_sidecar write_file write_link insert
    starts_with text_eq text_le merge_identity_db from_utf8 is_password_db key_of takes_target
    union_by_first_field lines split_by split_on
reviewed_test = refl

unreviewed_test :
    merge_etc_files_with_overrides no_fails old_tree cur_tree new_tree [] none ≡ ok merged
unfolding merge_etc_files merge_etc_files_with_overrides merge_etc_files_with_policy merge_path
    for_each union_paths dedup sort insert_sorted collect_relative_entries lookup choose_entry
    decision decision_for user_modified_at entries_differ same_bytes read_file_at merged_content
    choose_merged_content is_identity_db write_rebase_old_sidecar write_file write_link insert
    starts_with text_eq text_le merge_identity_db from_utf8 is_password_db key_of takes_target
    union_by_first_field lines split_by split_on
unreviewed_test = refl

abbrev review_policy : MergePolicy
review_policy = record { overrides = some review; identity = source_first }

reviewed_policy_test :
    merge_etc_files_with_policy no_fails old_tree cur_tree new_tree [] review_policy ≡ ok reviewed
unfolding merge_etc_files merge_etc_files_with_overrides merge_etc_files_with_policy merge_path
    for_each union_paths dedup sort insert_sorted collect_relative_entries lookup choose_entry
    decision decision_for user_modified_at entries_differ same_bytes read_file_at merged_content
    choose_merged_content is_identity_db write_rebase_old_sidecar write_file write_link insert
    starts_with text_eq text_le merge_identity_db from_utf8 is_password_db key_of takes_target
    union_by_first_field lines split_by split_on
reviewed_policy_test = refl

merge-rebase_old_example :
    content_of (lookup (codes "app.conf.rebase-old") reviewed) ≡ some (bytes (codes "b"))
unfolding lookup is_identity_db ends_with same_content text_eq starts_with decision decision_for
merge-rebase_old_example =
    merge-rebase_old no_fails old_tree cur_tree new_tree review_policy [] (codes "app.conf") refl
      refl {out = reviewed} reviewed_policy_test refl refl refl refl

-- The review of a changed file keeps it.
abbrev keep_policy : MergePolicy
keep_policy = record {
  overrides =
      some (record { decisions = (codes "app.conf", true) ∷ (codes "keep.conf", true) ∷ [] });
  identity = target_first;
}

abbrev kept : Dict Node
kept =
    plain_file "app.conf" "b"
    ∷ plain_file "keep.conf" "n"
    ∷ plain_file "passwd" "root:0\nsrv:5\nme:9\n"
    ∷ []

kept_test : merge_etc_files_with_policy no_fails old_tree cur_tree new_tree [] keep_policy ≡ ok kept
unfolding merge_etc_files merge_etc_files_with_overrides merge_etc_files_with_policy merge_path
    for_each union_paths dedup sort insert_sorted collect_relative_entries lookup choose_entry
    decision decision_for user_modified_at entries_differ same_bytes read_file_at merged_content
    choose_merged_content is_identity_db write_rebase_old_sidecar write_file write_link insert
    starts_with text_eq text_le merge_identity_db from_utf8 is_password_db key_of takes_target
    union_by_first_field lines split_by split_on
kept_test = refl

-- The user's version of `keep.conf` was asked for, and the target's is there.
merge-keep_unmodified_example :
    content_of (lookup (codes "keep.conf") kept) ≡ some (bytes (codes "n"))
unfolding lookup is_identity_db ends_with same_content text_eq starts_with decision decision_for
merge-keep_unmodified_example =
    merge-keep_unmodified no_fails old_tree cur_tree new_tree keep_policy [] (codes "keep.conf")
      refl refl (codes "k") {s = none} {t = none} {out = kept} kept_test refl refl refl refl

merge-default_for_drift_example :
    merge_etc_files_with_overrides no_fails old_tree cur_tree new_tree []
      (some (default_for_drift (diff_etc_factory_vs_live old_tree cur_tree)))
    ≡ ok merged
unfolding merge_etc_files merge_etc_files_with_overrides merge_etc_files_with_policy merge_path
    for_each union_paths dedup sort insert_sorted collect_relative_entries lookup choose_entry
    decision decision_for user_modified_at entries_differ same_bytes read_file_at merged_content
    choose_merged_content is_identity_db write_rebase_old_sidecar write_file write_link insert
    starts_with text_eq text_le merge_identity_db from_utf8 is_password_db key_of takes_target
    union_by_first_field lines split_by split_on
merge-default_for_drift_example = merge-default_for_drift no_fails old_tree cur_tree new_tree []

union_by_first_field_lem_example :
    IsUnion
      (codes "a:1\n")
      (codes "b:2\na:3\n")
      (union_by_first_field (codes "a:1\n") (codes "b:2\na:3\n"))
union_by_first_field_lem_example = union_by_first_field_lem (codes "a:1\n") (codes "b:2\na:3\n")

merge_etc_files-ok_example :
    (out : Dict Node) × (merge_etc_files (λ p. false) old_tree cur_tree new_tree [] ≡ ok out)
unfolding starts_with
merge_etc_files-ok_example = merge_etc_files-ok old_tree cur_tree new_tree refl

-- A file in one tree where another has a directory stops the merge.
blocked_test :
    merge_etc_files no_fails
      (tree [])
      (tree (plain_file "a" "x" ∷ []))
      (tree (plain_file "a/b" "y" ∷ []))
      []
    ≡ err (blocked (codes "a/b"))
unfolding merge_etc_files merge_etc_files_with_overrides merge_etc_files_with_policy merge_path
    for_each union_paths dedup sort insert_sorted collect_relative_entries lookup choose_entry
    decision decision_for user_modified_at entries_differ same_bytes read_file_at merged_content
    choose_merged_content is_identity_db write_rebase_old_sidecar write_file write_link insert
    starts_with text_eq text_le merge_identity_db from_utf8 is_password_db key_of takes_target
    union_by_first_field lines split_by split_on
blocked_test = refl
