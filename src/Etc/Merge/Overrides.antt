-- ===== src/Etc/Merge/Overrides.antt =====
-- What the decisions of a drift review do to a path.
use bootc_migrate.Prelude.{◌≡◌, refl, Bool, true, false, Option, none, some, ◌++◌, arith, ok}
use bootc_migrate.Text.{Text, contains, ends_with, text_eq_self}
use bootc_migrate.Etc.Tree.{
  Bytes, Metadata, Node, regular, link, file, Dict, lookup, EtcTree, read_file_at, entry_at,
  lookup-collect, bytes_of,
}
use bootc_migrate.Etc.Identity.{is_identity_db}
use bootc_migrate.Etc.Merge.{
  rebase_old_suffix, MergePolicy, decision, choose_entry, merged_content,
  merge_etc_files_with_policy, choose_merged_content, choose_content,
}
use bootc_migrate.Etc.Merge.Content.{
  tree_paths, Content, bytes, content_of, same_content, result_at, sidecar_at, modified_at-content,
  chosen_node,
}
use bootc_migrate.Etc.Merge.Steps.{lookup-merge, lookup-merge_sidecar}

content_of-chosen :
    (n : Option Node) (m : Option Metadata)
    → content_of (chosen_node (entry_at n) (bytes_of n) m) ≡ content_of n
content_of-chosen none m = refl
content_of-chosen (some (regular c s)) m = refl
content_of-chosen (some (link t)) m = refl

abbrev file_content : Option Bytes → Option Content
file_content none = none
file_content (some c) = some (bytes c)

content_of-kept :
    (o c : Option Node) (n : Option Bytes) (m : Option Metadata)
    → same_content (content_of o) (content_of c) ≡ false
    → content_of (chosen_node (entry_at c) (choose_content (bytes_of o) (bytes_of c) n) m)
      ≡ content_of c
unfolding same_content choose_merged_content
content_of-kept o c n m h = ground arith

content_of-unmodified :
    (c : Bytes) (n : Option Bytes) (m : Option Metadata)
    → content_of (chosen_node (some file) (choose_content (some c) (some c) n) m) ≡ file_content n
unfolding choose_merged_content
content_of-unmodified c none m = rw (text_eq_self c)
content_of-unmodified c (some d) m = rw (text_eq_self c)

module _ (fails : Text → Bool) (old cur new : EtcTree) (policy : MergePolicy) (output : Dict Node)
    (p : Text) (fresh : lookup p output ≡ none) (free : ends_with p rebase_old_suffix ≡ false) where
  -- In a merge that succeeds, a decision against the user's version leaves the target's value at the
  -- path, if it is no sidecar and the output directory did not have it before.
  pub merge-take_default :
      {out : Dict Node}
      → merge_etc_files_with_policy fails old cur new output policy ≡ ok out
      → decision policy.overrides p ≡ some false
      → content_of (lookup p out) ≡ content_of (lookup p new.nodes)
  unfolding result_at choose_entry merged_content read_file_at
  merge-take_default h against =
      rw
        (lookup-merge fails old cur new policy output p h fresh free, against, lookup-collect new p)
        (content_of-chosen (lookup p new.nodes) _)

  -- In a merge that succeeds, a decision against a value that the user changed keeps that value in
  -- the sidecar, if no tree has a path of the sidecar's name, the path is no sidecar itself, and the
  -- output directory had neither of them before.
  pub merge-rebase_old :
      {out : Dict Node}
      → merge_etc_files_with_policy fails old cur new output policy ≡ ok out
      → decision policy.overrides p ≡ some false
      → same_content (content_of (lookup p old.nodes)) (content_of (lookup p cur.nodes)) ≡ false
      → lookup (p ++ rebase_old_suffix) output ≡ none
      → contains (tree_paths old cur new) (p ++ rebase_old_suffix) ≡ false
      → content_of (lookup (p ++ rebase_old_suffix) out) ≡ content_of (lookup p cur.nodes)
  unfolding sidecar_at choose_entry read_file_at
  merge-rebase_old h against changed fresh_beside alone =
      rw
        (
          lookup-merge_sidecar fails old cur new policy output p h fresh_beside alone,
          against,
          modified_at-content old cur new policy p,
          changed,
          lookup-collect cur p,
        )
        (content_of-chosen (lookup p cur.nodes) _)

  -- In a merge that succeeds, a decision for the user's version keeps it where the user changed it, if
  -- the path is no identity database and no sidecar and the output directory did not have it before.
  pub merge-keep_modified :
      {out : Dict Node}
      → merge_etc_files_with_policy fails old cur new output policy ≡ ok out
      → decision policy.overrides p ≡ some true
      → is_identity_db p ≡ false
      → same_content (content_of (lookup p old.nodes)) (content_of (lookup p cur.nodes)) ≡ false
      → content_of (lookup p out) ≡ content_of (lookup p cur.nodes)
  unfolding result_at choose_entry merged_content read_file_at
  merge-keep_modified h wanted plain changed =
      rw
        (
          lookup-merge fails old cur new policy output p h fresh free,
          wanted,
          lookup-collect cur p,
          plain,
        )
        (content_of-kept (lookup p old.nodes) (lookup p cur.nodes) _ _ changed)

  -- Where the user left a file as the source had it, a decision for the user's version does not keep
  -- it: a merge that succeeds leaves the target's file at the path, and nothing if the target has no
  -- file there. The path is no identity database and no sidecar, and the output directory did not
  -- have it before.
  pub merge-keep_unmodified :
      (c : Bytes) {s t : Option Metadata} {out : Dict Node}
      → merge_etc_files_with_policy fails old cur new output policy ≡ ok out
      → decision policy.overrides p ≡ some true
      → is_identity_db p ≡ false
      → lookup p old.nodes ≡ some (regular c s)
      → lookup p cur.nodes ≡ some (regular c t)
      → content_of (lookup p out) ≡ file_content (bytes_of (lookup p new.nodes))
  unfolding result_at choose_entry merged_content read_file_at choose_merged_content
  merge-keep_unmodified c h wanted plain ho hc =
      rw
        (
          lookup-merge fails old cur new policy output p h fresh free,
          wanted,
          lookup-collect cur p,
          ho,
          hc,
          plain,
        )
        (content_of-unmodified c (read_file_at new p) _)
