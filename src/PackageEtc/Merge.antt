-- ===== src/PackageEtc/Merge.antt =====
-- `merge_identity` of package_etc.rs as a whole.
use bootc_migrate.Prelude.{
  ℕ, Option, none, some, List, [], ◌∷◌, ◌++◌, map, if◌then◌else◌, find?, Result, ok, err, ◌>>=◌,
  for_each,
}
use bootc_migrate.Text.{Text, contains, lines, is_empty, join}
use bootc_migrate.Remap.Plan.{collect_map}
use bootc_migrate.PackageEtc.Accounts.{
  PasswdLine, GroupLine, text_set, parse_uid_min, parse_passwd_lines, parse_group_lines, line_key,
  end_lines, append_named_lines,
}
use bootc_migrate.PackageEtc.Ids.{
  MergeError, no_target_accounts, no_target_groups, account_in_both, Allocation, map_user,
}
use bootc_migrate.PackageEtc.Explicit.{plan_explicit}
use bootc_migrate.PackageEtc.Identity.{
  Tables, IdentityMerge, id_set, human_accounts, selected, map_group, map_primary, user_line,
  merge_groups, merge_gshadow, places,
}

abbrev pub uids_of : List PasswdLine → List ℕ
uids_of = map (λ u. u.uid)

abbrev pub names_of : List PasswdLine → List Text
names_of = map (λ u. u.name)

abbrev pub gids_of : List GroupLine → List ℕ
gids_of = map (λ g. g.gid)

-- The ids of both sides are in use from the start.
unfoldable pub allocate_uids : ℕ → List PasswdLine → List PasswdLine → Result MergeError Allocation
unfolding for_each map_user
allocate_uids uid_min target_users source_users =
    for_each (map_user (uids_of target_users) uid_min) source_users
      (record { used = uids_of target_users ++ uids_of source_users; mapping = []; remaps = [] })

unfoldable pub allocate_gids :
    ℕ → List GroupLine → List GroupLine → List ℕ → Result MergeError Allocation
unfolding for_each map_group map_primary collect_map
allocate_gids uid_min target_groups carried primary =
    let by_name = collect_map [] (map (λ g. (g.name, g.gid)) target_groups) in
    let start : Allocation = record {
      used = gids_of target_groups ++ (gids_of carried ++ primary);
      mapping = [];
      remaps = [];
    } in
    for_each (map_group by_name (gids_of target_groups) uid_min) carried start >>= λ a.
    for_each (map_primary (gids_of target_groups) uid_min) primary a

unfoldable pub merged_tables :
    Tables
    → Tables
    → List PasswdLine
    → List GroupLine
    → List GroupLine
    → Allocation
    → Allocation
    → Tables
unfolding end_lines user_line merge_groups merge_gshadow append_named_lines collect_map places
merged_tables source target source_users target_groups carried u g =
    let human_names = text_set (names_of source_users) in
    let group_index = collect_map [] (places 0 (map (λ h. h.name) target_groups)) in
    let gshadow_index = collect_map [] (places 0 (map line_key (lines target.gshadow))) in
    record {
      passwd = end_lines (lines target.passwd ++ map (user_line u.mapping g.mapping) source_users);
      group =
          join (10 ∷ [])
            (merge_groups group_index human_names g.mapping (lines target.group) carried)
          ++ (10 ∷ []);
      shadow = append_named_lines target.shadow source.shadow human_names;
      gshadow =
          join (10 ∷ []) (
            merge_gshadow gshadow_index human_names (map (λ h. h.name) carried)
              (lines target.gshadow) (lines source.gshadow))
          ++ (10 ∷ []);
    }

-- The merge of tables in which no name is refused.
unfoldable pub merge_accepted :
    ℕ
    → Tables
    → Tables
    → List PasswdLine
    → List PasswdLine
    → List GroupLine
    → Result MergeError IdentityMerge
unfolding merged_tables allocate_uids allocate_gids selected id_set plan_explicit
merge_accepted uid_min source target target_users source_users target_groups =
    let human_names = text_set (names_of source_users) in
    let primary = id_set (map (λ u. u.gid) source_users) in
    let carried = selected primary human_names (parse_group_lines source.group) in
    allocate_uids uid_min target_users source_users >>= λ u.
    allocate_gids uid_min target_groups carried primary >>= λ g. ok (record {
      tables = merged_tables source target source_users target_groups carried u g;
      remap = plan_explicit (u.remaps ++ g.remaps) (u.used ++ g.used);
      human_users = human_names;
      carried_groups = map (λ h. h.name) carried;
    })

unfoldable pub merge_named :
    ℕ
    → Tables
    → Tables
    → List PasswdLine
    → List PasswdLine
    → Option Text
    → Result MergeError IdentityMerge
unfolding merge_accepted
merge_named uid_min source target target_users source_users (some name) = err (account_in_both name)
merge_named uid_min source target target_users source_users none =
    let target_groups = parse_group_lines target.group in
    if is_empty target_groups
    then err no_target_groups
    else merge_accepted uid_min source target target_users source_users target_groups

unfoldable pub merge_identity : Tables → Tables → Text → Result MergeError IdentityMerge
unfolding merge_named human_accounts parse_uid_min text_set
merge_identity source target login_defs =
    let uid_min = parse_uid_min login_defs in
    let source_users = human_accounts uid_min source.passwd in
    let target_users = parse_passwd_lines target.passwd in
    if is_empty target_users
    then err no_target_accounts
    else merge_named uid_min source target target_users source_users
        (find? (contains (names_of target_users)) (text_set (names_of source_users)))
