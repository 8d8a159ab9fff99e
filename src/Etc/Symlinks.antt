-- ===== src/Etc/Symlinks.antt =====
-- Dangling symlinks of the merged `/etc`: `logical_symlink_target`, `on_disk_location` and
-- `prune_recursive` of mergetc.rs.
pub mod Kept
use bootc_migrate.Prelude.{
  ℕ, zero, suc, ◌+◌, ◌-◌, ◌*◌, ◌/◌, ◌%◌, ◌^◌, ◌≤◌, ◌<◌, String, ◌≡◌, refl, sym, ap, ◌∙◌, subst, ◌≢◌,
  ◌↔◌, ◌⊎◌, inl, inr, Bool, true, false, ◌&&◌, ◌||◌, not, Option, none, some, List, [], ◌∷◌, ◌++◌,
  map, reverse, arith, ltb, leb, ◌==◌, if◌then◌else◌, ltb→lt, lt→ltb, leb→le, ==_iff, Bool-cases,
  Option-cases, All, is_some, is_none, or_option, is_some_and, length, any, all, filter, find?,
  length-append, find?-eq-some, find?-eq-none, any-append, filter_map, Result, ok, err, ◌>>=◌,
  for_each, >>=-eq-ok,
}
use bootc_migrate.Text.{
  Text, codes, text_eq, text_le, contains, starts_with, ends_with, strip_prefix, split_by, split_on,
  lines, is_whitespace, is_control, trim_start_by, trim, is_empty, split_whitespace, join,
  eq_ignore_ascii_case, sort, dedup, parse_u32, parse_u64, show_nat, text_eq→eq, text_eq_self,
  text_eq_iff, text_eq_comm, contains-sort, contains-dedup, eq_ignore_ascii_case_self,
  eq_ignore_ascii_case_comm, eq_ignore_ascii_case_trans, ends_with-append, text_eq-append_self,
  text_eq-append_right,
}
use bootc_migrate.Etc.Tree.{Node, regular, link, Dict, WriteError, remove}

-- `std::path::Component`, on a Unix path.
pub data Component : Type 0 where
  root_dir cur_dir parent_dir : Component
  normal : Text → Component

unfoldable pub component_of : Text → Component
unfolding text_eq
component_of piece =
    if text_eq piece (codes ".")
    then cur_dir
    else if text_eq piece (codes "..")
    then parent_dir
    else normal piece

-- Empty pieces are dropped, and so is `.` except at the front of a relative path.
unfoldable pub inner_components : List Text → List Component
unfolding component_of
inner_components pieces =
    map component_of
      (filter (λ piece. not (is_empty piece) && not (text_eq piece (codes "."))) pieces)

unfoldable pub leading : List Text → List Component
leading [] = []
leading (piece ∷ pieces) = if text_eq piece (codes ".") then cur_dir ∷ [] else []

abbrev pub is_absolute : Text → Bool
is_absolute p = starts_with p (codes "/")

unfoldable pub components : Text → List Component
unfolding inner_components leading split_on starts_with
components p =
    if is_absolute p
    then root_dir ∷ inner_components (split_on b'/' p)
    else leading (split_on b'/' p) ++ inner_components (split_on b'/' p)

-- The components of `Path::parent`, or of the empty path where there is none.
parent_components : List Component → List Component
parent_components [] = []
parent_components (c ∷ []) = []
parent_components (c ∷ d ∷ cs) = c ∷ parent_components (d ∷ cs)

-- `/etc` joined with the link's directory; an absolute path replaces what it is joined to.
base_components : Text → Text → List Component
unfolding parent_components components
base_components link_rel target =
    if is_absolute target
    then root_dir ∷ []
    else if is_absolute link_rel
    then parent_components (components link_rel)
    else (root_dir ∷ normal (codes "etc") ∷ []) ++ parent_components (components link_rel)

pop : List Text → List Text
pop [] = []
pop (n ∷ ns) = ns

-- One round of the loop over the components; the last name comes first.
fold_component : List Text → Component → List Text
unfolding pop
fold_component names root_dir = names
fold_component names cur_dir = names
fold_component names parent_dir = pop names
fold_component names (normal n) = n ∷ names

fold_components : List Text → List Component → List Text
unfolding fold_component
fold_components names [] = names
fold_components names (c ∷ cs) = fold_components (fold_component names c) cs

-- An absolute path is the list of its names.
unfoldable pub logical_symlink_target : Text → Text → List Text
unfolding base_components fold_components
logical_symlink_target link_rel target =
    reverse (fold_components [] (base_components link_rel target ++ components target))

-- Where a logical path is looked up before the boot.
pub data Location : Type 0 where
  in_target_root in_etc : List Text → Location

unfoldable pub on_disk_location : List Text → Option Location
unfolding text_eq
on_disk_location [] = none
on_disk_location (n ∷ ns) =
    if text_eq n (codes "usr")
    then some (in_target_root (n ∷ ns))
    else if text_eq n (codes "etc")
    then some (in_etc ns)
    else none

-- `exists` is `fs::metadata` at a location, which may depend on what the directory holds by then;
-- `fails` says which leaves the system refuses to remove.
module _ (exists : Dict Node → Location → Bool) (fails : Text → Bool) where
  remove_if_dangling : Text → Option Location → Dict Node × ℕ → Result WriteError (Dict Node × ℕ)
  remove_if_dangling p none (etc, removed) = ok (etc, removed)
  remove_if_dangling p (some place) (etc, removed) =
      if exists etc place
      then ok (etc, removed)
      else if fails p
      then err (WriteError.failed p)
      else ok (remove p etc, removed + 1)

  prune_entry : Dict Node × ℕ → Text × Node → Result WriteError (Dict Node × ℕ)
  unfolding remove_if_dangling remove
  prune_entry s (p, regular content m) = ok s
  prune_entry s (p, link target) =
      remove_if_dangling p (on_disk_location (logical_symlink_target p target)) s

  -- The walk visits the leaves in the order of the listing.
  unfoldable pub prune_dangling_symlinks : Dict Node → Result WriteError (Dict Node × ℕ)
  unfolding prune_entry logical_symlink_target on_disk_location
  prune_dangling_symlinks etc = for_each prune_entry etc (etc, 0)
