-- ===== src/Etc/Merge/Law.antt =====
-- The whole merge at a path: the 3-way rule, and the union of the identity databases.
use bootc_migrate.Prelude.{
  ◌≡◌, refl, ◌∙◌, inl, inr, ◌||◌, Bool-cases, Bool, true, false, Option, none, some, arith,
  if◌then◌else◌, ok,
}
use bootc_migrate.Text.{Text, ends_with, codes, text_eq}
use bootc_migrate.Etc.Tree.{
  Bytes, Metadata, Node, regular, file, Dict, lookup, EtcTree, read_file_at, lookup-collect,
  bytes_of,
}
use bootc_migrate.Etc.Identity.{
  IdentityMergePolicy, source_first, target_first, is_identity_db, is_password_db,
  merge_identity_db, takes_target, union_sides, union_by_first_field, from_utf8,
}
use bootc_migrate.Etc.Identity.Union.{IsUnion, union_by_first_field_lem}
use bootc_migrate.Etc.Merge.{
  rebase_old_suffix, MergePolicy, EtcDriftManifest, decision, decision_for, choose_entry,
  merged_content, merge_etc_files_with_policy, merge_etc_files_with_overrides, merge_etc_files,
}
use bootc_migrate.Etc.Merge.Content.{
  content_of, three_way, result_at, result_at-three_way, chosen_node,
}
use bootc_migrate.Etc.Merge.Steps.{lookup-merge}

-- A merge that succeeds leaves, at every path that is no identity database and no sidecar and that
-- the output directory did not have before, the target's value if the user's value equals the source's default, and the user's value if not.
-- A value is the bytes of a file, the target of a symlink, or absence.
pub merge_etc_files-three_way :
    (fails : Text → Bool) (old cur new : EtcTree) (output : Dict Node) (p : Text) {out : Dict Node}
    → merge_etc_files fails old cur new output ≡ ok out
    → lookup p output ≡ none
    → is_identity_db p ≡ false
    → ends_with p rebase_old_suffix ≡ false
    → content_of (lookup p out)
      ≡ three_way
          (content_of (lookup p old.nodes))
          (content_of (lookup p cur.nodes))
          (content_of (lookup p new.nodes))
unfolding merge_etc_files merge_etc_files_with_overrides decision
merge_etc_files-three_way fails old cur new output p h fresh plain free =
    let policy : MergePolicy = record { overrides = none; identity = source_first } in
    rw (lookup-merge fails old cur new policy output p h fresh free)
      (result_at-three_way old cur new policy p plain refl)

identity_undecided :
    (overrides : Option EtcDriftManifest) (p : Text)
    → is_identity_db p ≡ true
    → decision overrides p ≡ none
unfolding decision decision_for
identity_undecided none p h = refl
identity_undecided (some m) p h = rw h

-- At an identity database that the output directory did not have before, two merges of the same
-- trees that succeed agree, whatever decisions each was given.
pub merge-identity_ignores_overrides :
    (fails : Text → Bool) (old cur new : EtcTree) (output : Dict Node) (p : Text)
    (first second : Option EtcDriftManifest) {out out' : Dict Node}
    → merge_etc_files_with_overrides fails old cur new output first ≡ ok out
    → merge_etc_files_with_overrides fails old cur new output second ≡ ok out'
    → lookup p output ≡ none
    → is_identity_db p ≡ true
    → ends_with p rebase_old_suffix ≡ false
    → lookup p out ≡ lookup p out'
unfolding merge_etc_files_with_overrides result_at
merge-identity_ignores_overrides fails old cur new output p first second h k fresh db free =
    rw
      (
        lookup-merge fails old cur new (record { overrides = first; identity = source_first })
            output p h fresh free,
        lookup-merge fails old cur new (record { overrides = second; identity = source_first })
            output p k fresh free,
        identity_undecided first p db,
        identity_undecided second p db,
      )
      refl

bytes_of-chosen_file :
    (b : Bool) (content : Option Bytes) (m : Option Metadata)
    → bytes_of (chosen_node (if b then some file else some file) content m) ≡ content
bytes_of-chosen_file b none m = ground arith
bytes_of-chosen_file b (some c) m = ground arith

-- At a database that both sides have as a file.
at_database :
    (fails : Text → Bool) (old cur new : EtcTree) (output : Dict Node) (p : Text)
    (policy : MergePolicy) (c n : Bytes) {s t : Option Metadata} {out : Dict Node}
    → merge_etc_files_with_policy fails old cur new output policy ≡ ok out
    → lookup p output ≡ none
    → is_identity_db p ≡ true
    → ends_with p rebase_old_suffix ≡ false
    → lookup p cur.nodes ≡ some (regular c s)
    → lookup p new.nodes ≡ some (regular n t)
    → bytes_of (lookup p out) ≡ merge_identity_db p (some c) (some n) policy.identity
unfolding result_at choose_entry merged_content read_file_at
at_database fails old cur new output p policy c n h fresh db free hc hn =
    rw
      (
        lookup-merge fails old cur new policy output p h fresh free,
        identity_undecided policy.overrides p db,
        lookup-collect cur p,
        lookup-collect new p,
        hc,
        hn,
        db,
      )
      (bytes_of-chosen_file _ _ _)

abbrev pub is_source_first : IdentityMergePolicy → Bool
is_source_first source_first = true
is_source_first target_first = false

union_sides-both :
    (first second : Bytes) {first_text second_text : Text}
    → from_utf8 first ≡ some first_text
    → from_utf8 second ≡ some second_text
    → union_sides (some first) (some second) ≡ some (union_by_first_field first_text second_text)
unfolding union_sides
union_sides-both first second h k = ground (arith, h, k)

-- What `merge_identity_db` makes of two tables in UTF-8.
merge_identity_db-IsUnion :
    (p : Text) (c n : Bytes) (policy : IdentityMergePolicy) {c_text n_text : Text}
    → text_eq p (codes "machine-id") ≡ false
    → from_utf8 c ≡ some c_text
    → from_utf8 n ≡ some n_text
    → let user_leads = is_source_first policy || is_password_db p in
      (r : Text) × (merge_identity_db p (some c) (some n) policy ≡ some r)
      × IsUnion (if user_leads then c_text else n_text) (if user_leads then n_text else c_text) r
unfolding merge_identity_db takes_target
merge_identity_db-IsUnion p c n source_first {c_text} {n_text} other hc hn = (
  union_by_first_field c_text n_text,
  rw other (union_sides-both c n hc hn),
  union_by_first_field_lem c_text n_text,
)
merge_identity_db-IsUnion p c n target_first {c_text} {n_text} other hc hn =
    elim (Bool-cases (is_password_db p)) [
      | inl password ↦ rw password (
        union_by_first_field c_text n_text,
        rw other (union_sides-both c n hc hn),
        union_by_first_field_lem c_text n_text,
      )
      | inr plain ↦ rw plain (
        union_by_first_field n_text c_text,
        rw other (union_sides-both n c hn hc),
        union_by_first_field_lem n_text c_text,
      )
    ]

-- Where the user and the target both have an identity database other than machine-id as a file in
-- valid UTF-8, and the output directory did not have it before, a merge that succeeds leaves the
-- union of the two by their keys: all lines of the side that leads, then for each key that it lacks
-- the other side's first line. The user's side leads, except under the target-first policy at a
-- table that is no password database.
pub merge-identity :
    (fails : Text → Bool) (old cur new : EtcTree) (output : Dict Node) (p : Text)
    (policy : MergePolicy) (c n : Bytes) {c_text n_text : Text} {s t : Option Metadata}
    {out : Dict Node}
    → merge_etc_files_with_policy fails old cur new output policy ≡ ok out
    → lookup p output ≡ none
    → is_identity_db p ≡ true
    → text_eq p (codes "machine-id") ≡ false
    → ends_with p rebase_old_suffix ≡ false
    → lookup p cur.nodes ≡ some (regular c s)
    → lookup p new.nodes ≡ some (regular n t)
    → from_utf8 c ≡ some c_text
    → from_utf8 n ≡ some n_text
    → let user_leads = is_source_first policy.identity || is_password_db p in
      (r : Text) × (bytes_of (lookup p out) ≡ some r)
      × IsUnion (if user_leads then c_text else n_text) (if user_leads then n_text else c_text) r
merge-identity fails old cur new output p policy c n h fresh db other free hc hn utf8_c utf8_n =
    let (r, united, is_union) =
      merge_identity_db-IsUnion p c n policy.identity other utf8_c utf8_n in
    (r, at_database fails old cur new output p policy c n h fresh db free hc hn ∙ united, is_union)
