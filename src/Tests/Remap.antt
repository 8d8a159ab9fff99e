-- ===== src/Tests/Remap.antt =====
-- The account remap on tables that swap two ids.
use bootc_migrate.Prelude.{
  ℕ, String, ◌≡◌, refl, Bool, true, false, Option, none, some, List, [], ◌∷◌, All, filter_map,
}
use bootc_migrate.Text.{
  codes, text_eq, text_le, starts_with, split_by, split_on, lines, trim, parse_u32,
}
use bootc_migrate.Remap.Accounts.{PasswdEntry, parse_passwd, parse_passwd_line}
use bootc_migrate.Remap.Plan.{
  uid_kind, RemapEntry, used_ids, plan_remap, build_steps, diff_by_name, add_names, add_name,
  map_get, collect_map, map_insert, in_system_range,
}
use bootc_migrate.Remap.Apply.{Owned, apply_remap_plan_to_dirs}
use bootc_migrate.Remap.Steps.{renumber, run_ids, build_steps-renumber}
use bootc_migrate.Remap.Entries.{IsEntry, plan_remap-entries}
use bootc_migrate.Remap.Files.{renumber_file, apply-plan_remap}

abbrev account : String → ℕ → PasswdEntry
account name id = record { name = codes name; uid = id; gid = id }

parse_test :
    parse_passwd (codes "dnsmasq:x:980:980::/:\n# note:x:1:1\nbad:x:oops:4\nrtkit:x:981:981::/:\n")
    ≡ account "dnsmasq" 980 ∷ account "rtkit" 981 ∷ []
unfolding parse_passwd parse_passwd_line filter_map lines split_on split_by trim parse_u32 text_eq
    starts_with
parse_test = refl

abbrev source_passwd : List PasswdEntry
source_passwd = account "dnsmasq" 980 ∷ account "rtkit" 981 ∷ account "gone" 970 ∷ []

abbrev target_passwd : List PasswdEntry
target_passwd = account "dnsmasq" 981 ∷ account "rtkit" 980 ∷ []

abbrev swap : List RemapEntry
swap =
    record { name = codes "dnsmasq"; kind = uid_kind; old_id = 980; new_id = 981 }
    ∷ record { name = codes "rtkit"; kind = uid_kind; old_id = 981; new_id = 980 }
    ∷ []

swap_test : (plan_remap source_passwd [] target_passwd []).remaps ≡ swap
unfolding plan_remap diff_by_name add_names add_name map_get collect_map map_insert in_system_range
    text_eq text_le
swap_test = refl

abbrev in_use : List ℕ
in_use = 980 ∷ 981 ∷ 970 ∷ 981 ∷ 980 ∷ []

build_steps-renumber_example : run_ids uid_kind (build_steps swap in_use) 980 ≡ 981
unfolding renumber
build_steps-renumber_example =
    build_steps-renumber uid_kind swap in_use 980 ((refl, refl), ((refl, refl), tt)) refl

plan_remap-entries_example :
    All
      (IsEntry (used_ids source_passwd [] target_passwd []))
      (plan_remap source_passwd [] target_passwd []).remaps
plan_remap-entries_example = plan_remap-entries source_passwd target_passwd [] []

abbrev owned : ℕ → ℕ → Bool → Owned
owned u g r = record { uid = u; gid = g; refuses = r }

abbrev dirs : List (Option (List Owned))
dirs =
    some (owned 980 0 false ∷ owned 981 980 false ∷ owned 980 0 true ∷ [])
    ∷ none
    ∷ some (owned 1000 1000 false ∷ [])
    ∷ []

-- The two accounts are swapped, and the file that refuses is left.
apply-plan_remap_example :
    (apply_remap_plan_to_dirs dirs (plan_remap source_passwd [] target_passwd [])).0
    ≡ some (owned 981 0 false ∷ owned 980 980 false ∷ owned 980 0 true ∷ [])
      ∷ none
      ∷ some (owned 1000 1000 false ∷ [])
      ∷ []
unfolding renumber_file renumber used_ids plan_remap diff_by_name add_names add_name map_get
    collect_map map_insert in_system_range text_eq text_le
apply-plan_remap_example =
    apply-plan_remap source_passwd [] target_passwd [] dirs
      (((refl, refl), ((refl, refl), ((refl, refl), tt))), (((refl, refl), tt), tt))
