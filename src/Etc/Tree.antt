-- ===== src/Etc/Tree.antt =====
-- Directory trees as the walk of mergetc.rs sees them: their files and symlinks by relative path.
use bootc_migrate.Prelude.{
  ℕ, ◌≡◌, refl, ◌∙◌, Bool, true, false, ◌||◌, Option, none, some, List, [], ◌∷◌, ◌++◌, arith,
  if◌then◌else◌, Result, ok, err,
}
use bootc_migrate.Text.{
  Text, text_eq, contains, sort, dedup, starts_with, codes, text_eq_iff, contains-sort,
  contains-dedup,
}

abbrev pub Bytes : Type 0
Bytes = List ℕ

-- Mode and extended attributes of a file, as one value.
abbrev pub Metadata : Type 0
Metadata = ℕ

-- What stands at a path. A file written with no metadata to copy has `none`.
pub data Node : Type 0 where
  regular : Bytes → Option Metadata → Node
  link : Text → Node

-- What the walk records of a path.
pub data DirEntry : Type 0 where
  file : DirEntry
  symlink : Text → DirEntry

abbrev pub entry_of : Node → DirEntry
entry_of (regular content m) = file
entry_of (link target) = symlink target

abbrev pub Dict : Type 0 → Type 0
Dict V = List (Text × V)

module _ {V : Type 0} where
  unfoldable pub lookup : Text → Dict V → Option V
  lookup p [] = none
  lookup p ((q, v) ∷ m) = let rest = lookup p m in if text_eq p q then some v else rest

  unfoldable pub insert : Text → V → Dict V → Dict V
  insert p v [] = (p, v) ∷ []
  insert p v ((q, w) ∷ m) =
      let rest = insert p v m in if text_eq p q then (p, v) ∷ m else (q, w) ∷ rest

  unfoldable pub remove : Text → Dict V → Dict V
  remove p [] = []
  remove p ((q, v) ∷ m) = let rest = remove p m in if text_eq p q then rest else (q, v) ∷ rest

  abbrev pub keys : Dict V → List Text
  keys [] = []
  keys ((q, v) ∷ m) = q ∷ keys m

  pub lookup-insert :
      (p q : Text) (v : V) (m : Dict V)
      → lookup q (insert p v m) ≡ (if text_eq q p then some v else lookup q m)
  unfolding lookup insert
  lookup-insert p q v [] = refl
  lookup-insert p q v ((r, w) ∷ m) =
      ground (arith, text_eq_iff q p, text_eq_iff p r, text_eq_iff q r, lookup-insert p q v m)

  pub lookup-remove :
      (p q : Text) (m : Dict V) → lookup q (remove p m) ≡ (if text_eq q p then none else lookup q m)
  unfolding lookup remove
  lookup-remove p q [] = ground arith
  lookup-remove p q ((r, w) ∷ m) =
      ground (arith, text_eq_iff q p, text_eq_iff p r, text_eq_iff q r, lookup-remove p q m)

  pub lookup-not_contains :
      (p : Text) (m : Dict V) → contains (keys m) p ≡ false → lookup p m ≡ none
  unfolding lookup
  lookup-not_contains p [] h = refl
  lookup-not_contains p ((q, v) ∷ m) h = ground (arith, lookup-not_contains p m)

-- A tree: its leaves, and what `stat` (which follows symlinks) reports at a path.
pub record EtcTree : Type 0 where
  pub nodes : Dict Node
  pub stat : Text → Option Metadata

entries_of : Dict Node → Dict DirEntry
entries_of [] = []
entries_of ((p, n) ∷ m) = (p, entry_of n) ∷ entries_of m

unfoldable pub collect_relative_entries : EtcTree → Dict DirEntry
unfolding entries_of
collect_relative_entries t = entries_of t.nodes

abbrev pub bytes_of : Option Node → Option Bytes
bytes_of none = none
bytes_of (some (regular content m)) = some content
bytes_of (some (link target)) = none

-- A symlink is not followed, and reads as nothing.
unfoldable pub read_file_at : EtcTree → Text → Option Bytes
read_file_at t p = bytes_of (lookup p t.nodes)

-- The sorted union of the collected paths.
unfoldable pub union_paths : List Text → List Text
union_paths ps = dedup (sort ps)

abbrev map_entry : Option Node → Option DirEntry
map_entry none = none
map_entry (some n) = some (entry_of n)

lookup-entries_of : (p : Text) (m : Dict Node) → lookup p (entries_of m) ≡ map_entry (lookup p m)
unfolding lookup entries_of
lookup-entries_of p [] = refl
lookup-entries_of p ((q, n) ∷ m) = ground (arith, lookup-entries_of p m)

keys-entries_of : (m : Dict Node) → keys (entries_of m) ≡ keys m
unfolding entries_of
keys-entries_of [] = refl
keys-entries_of ((q, n) ∷ m) = rw (keys-entries_of m)

abbrev pub entry_at : Option Node → Option DirEntry
entry_at = map_entry

pub lookup-collect :
    (t : EtcTree) (p : Text) → lookup p (collect_relative_entries t) ≡ entry_at (lookup p t.nodes)
unfolding collect_relative_entries
lookup-collect t p = lookup-entries_of p t.nodes

pub keys-collect : (t : EtcTree) → keys (collect_relative_entries t) ≡ keys t.nodes
unfolding collect_relative_entries
keys-collect t = keys-entries_of t.nodes

pub contains-union_paths : (ps : List Text) (p : Text) → contains (union_paths ps) p ≡ contains ps p
unfolding union_paths
contains-union_paths ps p = contains-dedup (sort ps) p ∙ contains-sort ps p

-- Why a merge stops: a call of the file system failed at the path, or a leaf stands where the
-- path needs a directory (the write then fails, or goes through a symlink).
pub data WriteError : Type 0 where
  failed : Text → WriteError
  blocked : Text → WriteError

abbrev pub slash : Text
slash = codes "/"

unfoldable pub is_blocked : Text → Dict Node → Bool
is_blocked p [] = false
is_blocked p ((q, n) ∷ m) =
    starts_with p (q ++ slash) || starts_with q (p ++ slash) || is_blocked p m

-- A regular file is written through a symlink that already stands at its path.
unfoldable pub is_link_at : Text → Dict Node → Bool
is_link_at p m = elim (lookup p m) [
  | none ↦ false
  | some n ↦ elim n [ regular c s ↦ false | link t ↦ true ]
]

-- `create_dir_all` on the parent and the write itself. `fails` says where the system refuses.
unfoldable pub write_file :
    (Text → Bool) → Text → Bytes → Option Metadata → Dict Node → Result WriteError (Dict Node)
unfolding is_blocked is_link_at
write_file fails p content m out =
    if fails p
    then err (failed p)
    else if is_blocked p out || is_link_at p out
    then err (blocked p)
    else ok (insert p (regular content m) out)

-- The old leaf is removed first, and the symlink made.
unfoldable pub write_link : (Text → Bool) → Text → Text → Dict Node → Result WriteError (Dict Node)
unfolding is_blocked
write_link fails p target out =
    if fails p
    then err (failed p)
    else if is_blocked p out
    then err (blocked p)
    else ok (insert p (link target) out)

pub lookup-write_file :
    (fails : Text → Bool) (p : Text) (content : Bytes) (m : Option Metadata) (out : Dict Node)
    {out' : Dict Node} (q : Text)
    → write_file fails p content m out ≡ ok out'
    → lookup q out' ≡ (if text_eq q p then some (regular content m) else lookup q out)
unfolding write_file
lookup-write_file fails p content m out q h =
    ground (arith, lookup-insert p q (regular content m) out)

pub lookup-write_link :
    (fails : Text → Bool) (p target : Text) (out : Dict Node) {out' : Dict Node} (q : Text)
    → write_link fails p target out ≡ ok out'
    → lookup q out' ≡ (if text_eq q p then some (link target) else lookup q out)
unfolding write_link
lookup-write_link fails p target out q h = ground (arith, lookup-insert p q (link target) out)
