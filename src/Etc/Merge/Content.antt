-- ===== src/Etc/Merge/Content.antt =====
-- The result of the merge at one path as a value, and the 3-way rule it is held against.
use bootc_migrate.Prelude.{
  ◌≡◌, refl, ◌↔◌, Bool, true, false, ◌&&◌, not, Option, none, some, List, ◌++◌, arith,
  if◌then◌else◌,
}
use bootc_migrate.Text.{Text, text_eq, text_eq_iff}
use bootc_migrate.Etc.Tree.{
  Bytes, Metadata, Node, regular, link, DirEntry, file, symlink, lookup, keys, EtcTree,
  collect_relative_entries, read_file_at, bytes_of, entry_at, lookup-collect,
}
use bootc_migrate.Etc.Identity.{is_identity_db}
use bootc_migrate.Etc.Merge.{
  choose_content, entries_differ, user_modified_at, MergePolicy, decision, choose_entry,
  merged_content, metadata_source,
}

-- What a leaf holds, its metadata aside.
pub data Content : Type 0 where
  bytes : Bytes → Content
  points_to : Text → Content

abbrev pub content_of : Option Node → Option Content
content_of none = none
content_of (some (regular c m)) = some (bytes c)
content_of (some (link t)) = some (points_to t)

unfoldable pub same_content : Option Content → Option Content → Bool
same_content none none = true
same_content none (some d) = false
same_content (some c) none = false
same_content (some (bytes c)) (some (bytes d)) = text_eq c d
same_content (some (bytes c)) (some (points_to d)) = false
same_content (some (points_to c)) (some (bytes d)) = false
same_content (some (points_to c)) (some (points_to d)) = text_eq c d

-- The Boolean test is equality of contents.
pub same_content_iff : (c d : Option Content) → (same_content c d ≡ true) ↔ (c ≡ d)
unfolding same_content
same_content_iff none none = ground arith
same_content_iff none (some d) = ground arith
same_content_iff (some c) none = ground arith
same_content_iff (some (bytes c)) (some (bytes d)) = ground (arith, text_eq_iff c d)
same_content_iff (some (bytes c)) (some (points_to d)) = ground arith
same_content_iff (some (points_to c)) (some (bytes d)) = ground arith
same_content_iff (some (points_to c)) (some (points_to d)) = ground (arith, text_eq_iff c d)

-- The 3-way rule: a path that the user left alone takes the target's value, else the user's stays.
unfoldable pub three_way : Option Content → Option Content → Option Content → Option Content
three_way old cur new = if same_content old cur then new else cur

-- The leaf that `write_chosen` leaves, if it writes.
abbrev pub chosen_node : Option DirEntry → Option Bytes → Option Metadata → Option Node
chosen_node none content m = none
chosen_node (some (symlink target)) content m = some (link target)
chosen_node (some file) none m = none
chosen_node (some file) (some content) m = some (regular content m)

-- Every path of the three trees.
abbrev pub tree_paths : EtcTree → EtcTree → EtcTree → List Text
tree_paths old cur new = keys old.nodes ++ (keys cur.nodes ++ keys new.nodes)

module _ (old cur new : EtcTree) (policy : MergePolicy) where
  -- Whether the loop counts the path as modified by the user.
  unfoldable pub modified_at : Text → Bool
  unfolding user_modified_at
  modified_at p =
      user_modified_at (lookup p (collect_relative_entries old))
        (lookup p (collect_relative_entries cur)) old cur p

  unfoldable pub chosen_at : Text → Option DirEntry × Bool
  unfolding modified_at
  chosen_at p =
      choose_entry (decision policy.overrides p) (modified_at p)
        (lookup p (collect_relative_entries cur)) (lookup p (collect_relative_entries new))

  -- The leaf that the merge writes at the path.
  unfoldable pub result_at : Text → Option Node
  unfolding chosen_at metadata_source
  result_at p =
      chosen_node (chosen_at p).0
        (merged_content (chosen_at p).1 p policy.identity (read_file_at old p) (read_file_at cur p)
          (read_file_at new p))
        (metadata_source (chosen_at p).1 old cur new p)

  -- The leaf that it writes beside the path.
  unfoldable pub sidecar_at : Text → Option Node
  unfolding chosen_at
  sidecar_at p =
      if (chosen_at p).1 && modified_at p
      then chosen_node (lookup p (collect_relative_entries cur)) (read_file_at cur p) (cur.stat p)
      else none

-- The user's change, seen on contents.
pub entries_differ-content :
    (o c : Option Node)
    → entries_differ (entry_at o) (entry_at c) (bytes_of o) (bytes_of c)
      ≡ not (same_content (content_of o) (content_of c))
unfolding entries_differ same_content
entries_differ-content none none = refl
entries_differ-content none (some c) = ground arith
entries_differ-content (some (regular o m)) none = refl
entries_differ-content (some (link o)) none = refl
entries_differ-content (some (regular o m)) (some (regular c s)) = refl
entries_differ-content (some (regular o m)) (some (link c)) = refl
entries_differ-content (some (link o)) (some (regular c s)) = refl
entries_differ-content (some (link o)) (some (link c)) = refl

-- With no decision, the entry and the content chosen make up the 3-way rule.
pub chosen_node-three_way :
    (o c n : Option Node) (m : Option Metadata)
    → content_of (
        chosen_node
          (if not (same_content (content_of o) (content_of c)) then entry_at c else entry_at n)
          (choose_content (bytes_of o) (bytes_of c) (bytes_of n))
          m)
      ≡ three_way (content_of o) (content_of c) (content_of n)
unfolding three_way same_content choose_content
chosen_node-three_way o c n m = ground arith

pub modified_at-content :
    (old cur new : EtcTree) (policy : MergePolicy) (p : Text)
    → modified_at old cur new policy p
      ≡ not (same_content (content_of (lookup p old.nodes)) (content_of (lookup p cur.nodes)))
unfolding modified_at read_file_at
modified_at-content old cur new policy p =
    rw (lookup-collect old p, lookup-collect cur p)
      (entries_differ-content (lookup p old.nodes) (lookup p cur.nodes))

-- A path with no decision that is no identity database follows the 3-way rule.
pub result_at-three_way :
    (old cur new : EtcTree) (policy : MergePolicy) (p : Text)
    → is_identity_db p ≡ false
    → decision policy.overrides p ≡ none
    → content_of (result_at old cur new policy p)
      ≡ three_way
          (content_of (lookup p old.nodes))
          (content_of (lookup p cur.nodes))
          (content_of (lookup p new.nodes))
unfolding result_at choose_entry merged_content read_file_at
result_at-three_way old cur new policy p plain free =
    rw
      (
        free,
        modified_at-content old cur new policy p,
        plain,
        lookup-collect cur p,
        lookup-collect new p,
      )
      (chosen_node-three_way (lookup p old.nodes) (lookup p cur.nodes) (lookup p new.nodes) _)
