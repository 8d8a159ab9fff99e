-- ===== src/Etc/Drift/Default.antt =====
-- The drift report names the paths that the merge counts as modified, and the manifest made from
-- it changes no merge.
use mathlib.Core.Path.{fun_ext}
use bootc_migrate.Prelude.{
  ◌≡◌, refl, Bool, true, false, ◌&&◌, ◌||◌, not, Option, none, some, List, [], ◌∷◌, ◌++◌, arith,
  if◌then◌else◌, is_some, any, any-append,
}
use bootc_migrate.Text.{Text, text_eq, contains, text_eq_iff}
use bootc_migrate.Etc.Tree.{
  Bytes, Node, DirEntry, Dict, lookup, keys, EtcTree, collect_relative_entries, read_file_at,
  union_paths, lookup-collect, keys-collect, contains-union_paths, lookup-not_contains,
}
use bootc_migrate.Etc.Identity.{is_identity_db, source_first}
use bootc_migrate.Etc.Merge.{
  EtcDriftManifest, decision, choose_entry, user_modified_at, entries_differ, merge_path,
  merge_etc_files, merge_etc_files_with_overrides, merge_etc_files_with_policy,
}
use bootc_migrate.Etc.Merge.Content.{
  content_of, same_content, same_content_iff, entries_differ-content,
}
use bootc_migrate.Etc.Drift.{
  DriftKind, EtcDriftEntry, drift_kind, kind_at, push_entry, drift_over, diff_etc_factory_vs_live,
  keep_all, default_for_drift,
}

drift_kind-differs :
    (f l : Option DirEntry) (factory live : Option Bytes)
    → is_some (drift_kind f l factory live) ≡ entries_differ f l factory live
unfolding drift_kind entries_differ
drift_kind-differs f l factory live = ground arith

module _ (factory live : EtcTree) where
  abbrev modified : Text → Bool
  modified p =
      user_modified_at (lookup p (collect_relative_entries factory))
        (lookup p (collect_relative_entries live)) factory live p

  kind_at-modified : (p : Text) → is_some (kind_at factory live p) ≡ modified p
  unfolding kind_at user_modified_at
  kind_at-modified p =
      drift_kind-differs (lookup p (collect_relative_entries factory))
        (lookup p (collect_relative_entries live)) (read_file_at factory p) (read_file_at live p)

  abbrev names : Text → List EtcDriftEntry → Bool
  names p = any (λ e. text_eq p e.path)

  names-push :
      (p q : Text) (k : Option DriftKind) (rest : List EtcDriftEntry)
      → names p (push_entry q k rest) ≡ (is_some k && text_eq p q || names p rest)
  unfolding push_entry
  names-push p q none rest = refl
  names-push p q (some k) rest = refl

  names-drift_over :
      (p : Text) (ps : List Text)
      → names p (drift_over factory live ps) ≡ (contains ps p && modified p)
  unfolding drift_over
  names-drift_over p [] = refl
  names-drift_over p (q ∷ ps) = ground (
    arith,
    names-push p q (kind_at factory live q) (drift_over factory live ps),
    names-drift_over p ps,
    kind_at-modified q,
    text_eq_iff p q,
  )

  -- The drift report names a path exactly if its value in the live tree differs from the factory's.
  pub diff-names_modified :
      (p : Text)
      → any (λ e. text_eq p e.path) (diff_etc_factory_vs_live factory live)
        ≡ not
            (same_content (content_of (lookup p factory.nodes)) (content_of (lookup p live.nodes)))
  unfolding diff_etc_factory_vs_live user_modified_at read_file_at
  diff-names_modified p =
      let ps =
        union_paths
          (keys (collect_relative_entries factory) ++ keys (collect_relative_entries live)) in
      let listed : contains ps p
          ≡ (contains (keys factory.nodes) p || contains (keys live.nodes) p) =
        rw (contains-union_paths, keys-collect factory, keys-collect live)
          (any-append (text_eq p) (keys factory.nodes) (keys live.nodes)) in
      rw
        (
          names-drift_over p ps,
          listed,
          lookup-collect factory p,
          lookup-collect live p,
          entries_differ-content (lookup p factory.nodes) (lookup p live.nodes),
        )
        (absent_same (contains (keys factory.nodes) p) (contains (keys live.nodes) p)
          (lookup-not_contains p factory.nodes) (lookup-not_contains p live.nodes))
    where
      absent_same :
          (a b : Bool) {o c : Option Node}
          → (a ≡ false → o ≡ none)
          → (b ≡ false → c ≡ none)
          → ((a || b) && not (same_content (content_of o) (content_of c)))
            ≡ not (same_content (content_of o) (content_of c))
      absent_same true b h k = refl
      absent_same false true h k = refl
      absent_same false false h k = rw (h refl, k refl, (same_content_iff none none).1 refl)

lookup-keep_all :
    (p : Text) (es : List EtcDriftEntry)
    → lookup p (keep_all es) ≡ (if any (λ e. text_eq p e.path) es then some true else none)
unfolding lookup keep_all
lookup-keep_all p [] = refl
lookup-keep_all p (e ∷ es) = ground (arith, lookup-keep_all p es)

module _ (fails : Text → Bool) (old cur new : EtcTree) where
  abbrev default_manifest : EtcDriftManifest
  default_manifest = default_for_drift (diff_etc_factory_vs_live old cur)

  -- Where the manifest decides, it decides for a value that the user changed.
  choose_entry-default :
      (p : Text) (c n : Option DirEntry)
      → choose_entry (decision (some default_manifest) p) (modified old cur p) c n
        ≡ choose_entry none (modified old cur p) c n
  unfolding choose_entry decision default_for_drift user_modified_at read_file_at
  choose_entry-default p c n =
      rw
        (
          lookup-keep_all,
          diff-names_modified old cur p,
          lookup-collect old p,
          lookup-collect cur p,
          entries_differ-content (lookup p old.nodes) (lookup p cur.nodes),
        )
        (cases (is_identity_db p)
          (same_content (content_of (lookup p old.nodes)) (content_of (lookup p cur.nodes))))
    where
      cases :
          (db same : Bool)
          → choose_entry (if db then none else if not same then some true else none) (not same) c n
            ≡ choose_entry none (not same) c n
      cases true same = refl
      cases false true = refl
      cases false false = refl

  merge_path-default :
      (out : Dict Node) (p : Text)
      → merge_path fails old cur new
          (record { overrides = some default_manifest; identity = source_first })
          out
          p
        ≡ merge_path fails old cur new (record { overrides = none; identity = source_first }) out p
  unfolding merge_path decision
  merge_path-default out p = rw (
      choose_entry-default p (lookup p (collect_relative_entries cur))
        (lookup p (collect_relative_entries new)))

  -- A merge with the manifest that keeps every entry of the drift report is the merge with none.
  pub merge-default_for_drift :
      (output : Dict Node)
      → merge_etc_files_with_overrides fails old cur new output
          (some (default_for_drift (diff_etc_factory_vs_live old cur)))
        ≡ merge_etc_files fails old cur new output
  unfolding merge_etc_files merge_etc_files_with_overrides merge_etc_files_with_policy
  merge-default_for_drift output = rw (fun_ext (λ out. fun_ext (merge_path-default out)))
