-- ===== src/Remap/Accounts.antt =====
-- The account tables of remap.rs: `parse_passwd`, `parse_group`, `missing_target_sysusers`.
use bootc_migrate.Prelude.{
  ℕ, Bool, false, ◌||◌, not, Option, none, some, List, [], ◌∷◌, map, ◌==◌, if◌then◌else◌, any,
  filter, filter_map,
}
use bootc_migrate.Text.{
  Text, codes, text_eq, starts_with, split_on, lines, trim, is_empty, sort, dedup, parse_u32,
}

pub record PasswdEntry : Type 0 where
  pub name : Text
  pub uid : ℕ
  pub gid : ℕ

pub record GroupEntry : Type 0 where
  pub name : Text
  pub gid : ℕ

-- A line of `sysusers.d`: `u` or `g`, the name, and the id if one is fixed.
pub record SysusersEntry : Type 0 where
  pub kind : ℕ
  pub name : Text
  pub id : Option ℕ

skipped_name : Text → Bool
skipped_name name = is_empty name || starts_with name (codes "#")

passwd_entry : Text → Option ℕ → Option ℕ → Option PasswdEntry
passwd_entry name (some uid) (some gid) = some (record { name = name; uid = uid; gid = gid })
passwd_entry name none gid = none
passwd_entry name (some uid) none = none

passwd_fields : List Text → Option PasswdEntry
unfolding skipped_name passwd_entry
passwd_fields (n ∷ password ∷ u ∷ g ∷ rest) =
    if skipped_name (trim n)
    then none
    else passwd_entry (trim n) (parse_u32 (trim u)) (parse_u32 (trim g))
passwd_fields [] = none
passwd_fields (n ∷ []) = none
passwd_fields (n ∷ password ∷ []) = none
passwd_fields (n ∷ password ∷ u ∷ []) = none

unfoldable pub parse_passwd_line : Text → Option PasswdEntry
unfolding passwd_fields
parse_passwd_line line = passwd_fields (split_on b':' line)

unfoldable pub parse_passwd : Text → List PasswdEntry
unfolding parse_passwd_line
parse_passwd content = filter_map parse_passwd_line (lines content)

group_entry : Text → Option ℕ → Option GroupEntry
group_entry name none = none
group_entry name (some gid) = some (record { name = name; gid = gid })

group_fields : List Text → Option GroupEntry
unfolding skipped_name group_entry
group_fields (n ∷ password ∷ g ∷ rest) =
    if skipped_name (trim n) then none else group_entry (trim n) (parse_u32 (trim g))
group_fields [] = none
group_fields (n ∷ []) = none
group_fields (n ∷ password ∷ []) = none

unfoldable pub parse_group : Text → List GroupEntry
unfolding group_fields
parse_group content = filter_map (λ line. group_fields (split_on b':' line)) (lines content)

-- A line of kind `u` or `g` whose name the host's table lacks.
is_missing : List PasswdEntry → List GroupEntry → SysusersEntry → Bool
is_missing passwd group e =
    if e.kind == b'u'
    then not (any (λ p. text_eq e.name p.name) passwd)
    else if e.kind == b'g'
    then not (any (λ g. text_eq e.name g.name) group)
    else false

unfoldable pub missing_target_sysusers :
    List SysusersEntry → List PasswdEntry → List GroupEntry → List Text
unfolding is_missing
missing_target_sysusers target passwd group =
    dedup (sort (map (λ e. e.name) (filter (is_missing passwd group) target)))
