-- ===== src/PackageEtc/Accounts.antt =====
-- The tables of package_etc.rs: `parse_passwd_lines`, `parse_group_lines`, `parse_uid_min`, and the
-- lines that are merged by name.
use bootc_migrate.Prelude.{
  ℕ, ◌&&◌, not, Option, none, some, List, [], ◌∷◌, ◌++◌, map, if◌then◌else◌, filter, filter_map,
}
use bootc_migrate.Text.{
  Text, codes, text_eq, contains, split_on, lines, trim, is_empty, split_whitespace, join, sort,
  dedup, parse_u32,
}
use bootc_migrate.Kernel.Karg.{find_map}

pub record PasswdLine : Type 0 where
  pub name : Text
  pub fields : List Text
  pub uid : ℕ
  pub gid : ℕ

pub record GroupLine : Type 0 where
  pub name : Text
  pub fields : List Text
  pub gid : ℕ

-- A `BTreeSet` of strings, in its order.
unfoldable pub text_set : List Text → List Text
text_set names = dedup (sort names)

uid_min_line : List Text → Option ℕ
uid_min_line (key ∷ value ∷ rest) = if text_eq key (codes "UID_MIN") then parse_u32 value else none
uid_min_line _ = none

first_piece : List Text → Text
first_piece [] = []
first_piece (piece ∷ pieces) = piece

-- `UID_MIN` of the first line that has one, comments left off.
unfoldable pub parse_uid_min : Text → ℕ
unfolding uid_min_line first_piece
parse_uid_min login_defs =
    elim (find_map
      (λ line. uid_min_line (split_whitespace (trim (first_piece (split_on b'#' line)))))
      (lines login_defs)) [ none ↦ 1000 | some uid ↦ uid ]

unfoldable pub passwd_line : Text → List Text → Option ℕ → Option ℕ → Option PasswdLine
passwd_line name fields (some uid) (some gid) =
    some (record { name = name; fields = fields; uid = uid; gid = gid })
passwd_line name fields none gid = none
passwd_line name fields (some uid) none = none

unfoldable pub passwd_of : List Text → Option PasswdLine
unfolding passwd_line
passwd_of (name ∷ password ∷ uid ∷ gid ∷ gecos ∷ home ∷ shell ∷ rest) =
    passwd_line name (name ∷ password ∷ uid ∷ gid ∷ gecos ∷ home ∷ shell ∷ rest) (parse_u32 uid)
      (parse_u32 gid)
passwd_of _ = none

unfoldable pub parse_passwd_lines : Text → List PasswdLine
unfolding passwd_of
parse_passwd_lines text = filter_map (λ line. passwd_of (split_on b':' line)) (lines text)

group_line : Text → List Text → Option ℕ → Option GroupLine
group_line name fields none = none
group_line name fields (some gid) = some (record { name = name; fields = fields; gid = gid })

unfoldable pub group_of : List Text → Option GroupLine
unfolding group_line
group_of (name ∷ password ∷ gid ∷ members ∷ rest) =
    group_line name (name ∷ password ∷ gid ∷ members ∷ rest) (parse_u32 gid)
group_of _ = none

unfoldable pub parse_group_lines : Text → List GroupLine
unfolding group_of
parse_group_lines text = filter_map (λ line. group_of (split_on b':' line)) (lines text)

-- The members of the fourth field, if there is one.
member_names : Text → List Text
member_names field = filter (λ m. not (is_empty m)) (split_on b',' field)

unfoldable pub members_of : List Text → List Text
unfolding member_names
members_of (name ∷ password ∷ gid ∷ members ∷ rest) = member_names members
members_of _ = []

unfoldable pub line_key : Text → Text
unfolding first_piece
line_key line = first_piece (split_on b':' line)

-- Every line ended by a line feed.
unfoldable pub end_lines : List Text → Text
end_lines [] = []
end_lines (l ∷ ls) = l ++ (10 ∷ end_lines ls)

unfoldable pub append_new : List Text → List Text → List Text → Text
unfolding line_key
append_new names present [] = []
append_new names present (line ∷ rest) =
    let key = line_key line in
    let fresh = contains names key && not (contains present key) in
    let more = append_new names (if fresh then key ∷ present else present) rest in
    if fresh then line ++ (10 ∷ more) else more

-- The lines of the target, then those of the source whose key is wanted and new.
unfoldable pub append_named_lines : Text → Text → List Text → Text
unfolding line_key end_lines append_new
append_named_lines target source names =
    end_lines (lines target)
    ++ append_new names (filter (λ key. not (is_empty key)) (map line_key (lines target)))
        (lines source)

merge_members : List Text → Text → Text → Text
unfolding text_set member_names
merge_members human_names target source =
    join (codes ",")
      (text_set (member_names target ++ filter (contains human_names) (split_on b',' source)))

-- The source's human members are added to those of the target's line.
merge_fields : List Text → List Text → List Text → List Text
unfolding merge_members
merge_fields human_names (n ∷ p ∷ g ∷ members ∷ rest) (n' ∷ p' ∷ g' ∷ source ∷ rest') =
    n ∷ p ∷ g ∷ merge_members human_names members source ∷ rest
merge_fields human_names target source = target

unfoldable pub merge_member_field : List Text → Text → Text → Text
unfolding merge_fields
merge_member_field human_names source target =
    join (codes ":") (merge_fields human_names (split_on b':' target) (split_on b':' source))
