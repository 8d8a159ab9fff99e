-- ===== src/Tests/PackageEtc.antt =====
-- The tables of a package host with one user, merged into those of an image whose account has the
-- same uid; and the `/etc` plan of an inventory that could not be read.
use bootc_migrate.Prelude.{
  ℕ, ◌+◌, ◌≤◌, ◌<◌, ◌≡◌, refl, true, false, some, List, [], ◌∷◌, ◌++◌, map, arith, length, any,
  filter_map, Result, ok, err, for_each,
}
use bootc_migrate.Text.{
  Text, codes, text_eq, text_le, contains, split_by, split_on, lines, trim, split_whitespace, join,
  sort, dedup, u32_bound, parse_u32, show_nat,
}
use bootc_migrate.PackageEtc.Output.{
  parse_owned, parse_verify, parse_rpm_verify, parse_dpkg_owned, rewrite_fstab,
}
use mathlib.Core.List.{Memᴰ}
use bootc_migrate.Etc.Identity.{is_identity_db}
use bootc_migrate.Etc.Merge.{decision_for}
use bootc_migrate.Etc.Drift.{EtcPathState}
use bootc_migrate.Remap.Plan.{empty_plan, holds}
use bootc_migrate.PackageEtc.Accounts.{
  PasswdLine, parse_uid_min, parse_passwd_lines, parse_group_lines, end_lines, text_set,
}
use bootc_migrate.PackageEtc.Free.{next_free_id_lem}
use bootc_migrate.PackageEtc.Ids.{next_free_id, MergeError, account_in_both, Allocation}
use bootc_migrate.PackageEtc.Identity.{Tables, IdentityMerge, human_accounts, id_set, selected}
use bootc_migrate.PackageEtc.Written.{AreWritten}
use bootc_migrate.PackageEtc.Merge.{uids_of, names_of, allocate_uids, allocate_gids, merge_identity}
use bootc_migrate.PackageEtc.Final.{AreApart, merge_identity-passwd}
use bootc_migrate.PackageEtc.Total.{allocate_uids-total}
use bootc_migrate.PackageEtc.Inventory.{PackageEtcInventory, package_plan_etc, package_overrides}
use bootc_migrate.PackageEtc.Evidence.{package_overrides-live}

abbrev source : Tables
source = record {
  passwd = codes "root:x:0:0::/root:/bin/sh\nana:x:1000:1000::/home/ana:/bin/sh\n";
  group = codes "ana:x:1000:\nwheel:x:10:ana\n";
  shadow = codes "root:!::\nana:secret::\n";
  gshadow = codes "wheel:::ana\n";
}

abbrev target : Tables
target = record {
  passwd = codes "root:x:0:0::/root:/bin/bash\ncore:x:1000:1000::/home/core:/bin/sh\n";
  group = codes "root:x:0:\ncore:x:1000:\nwheel:x:10:core\n";
  shadow = codes "root:*::\n";
  gshadow = codes "wheel:::core\n";
}

abbrev nothing : IdentityMerge
nothing = record {
  tables = record { passwd = []; group = []; shadow = []; gshadow = [] };
  remap = empty_plan;
  human_users = [];
  carried_groups = [];
}

abbrev merge_of : Result MergeError IdentityMerge → IdentityMerge
merge_of (err e) = nothing
merge_of (ok m) = m

abbrev merge : IdentityMerge
merge = merge_of (merge_identity source target [])

merge_succeeds : merge_identity source target [] ≡ ok merge
unfolding merge_identity lines split_on split_by trim parse_u32 text_eq sort dedup text_le
    split_whitespace for_each filter_map parse_group_lines
merge_succeeds = refl

merge_passwd :
    merge.tables.passwd
    ≡ codes
        "root:x:0:0::/root:/bin/bash\ncore:x:1000:1000::/home/core:/bin/sh\nana:x:1001:1001::/home/ana:/bin/sh\n"
unfolding merge_identity lines split_on split_by trim parse_u32 text_eq sort dedup text_le
    split_whitespace for_each filter_map show_nat join parse_group_lines
merge_passwd = refl

abbrev target_users : List PasswdLine
target_users = parse_passwd_lines target.passwd

abbrev source_users : List PasswdLine
source_users = human_accounts (parse_uid_min []) source.passwd

-- The ids of both sides: two of the target's, and one.
room :
    parse_uid_min [] + length (uids_of target_users ++ uids_of source_users) + length source_users
    < u32_bound
unfolding parse_uid_min human_accounts parse_passwd_lines lines split_on split_by trim parse_u32
    filter_map text_eq split_whitespace
room = omega arith

merge_identity-passwd_example :
    (u : Allocation) × (g : Allocation) × (written : List Text) × (merge.tables.passwd
      ≡ end_lines (lines target.passwd ++ written))
    × AreWritten u.mapping g.mapping source_users written
    × AreApart target_users source_users u.mapping
    × (allocate_gids 1000
          (parse_group_lines target.group)
          (selected
            (id_set (map (λ (p : PasswdLine). p.gid) source_users))
            (text_set (names_of source_users))
            (parse_group_lines source.group))
          (id_set (map (λ (p : PasswdLine). p.gid) source_users))
        ≡ ok g)
    × (any (contains (names_of target_users)) (text_set (names_of source_users)) ≡ false)
unfolding parse_uid_min lines split_on split_by
merge_identity-passwd_example = merge_identity-passwd source target [] room merge_succeeds

abbrev user : ℕ → PasswdLine
user n = record { name = codes "u"; fields = []; uid = n; gid = n }

allocate_uids-total_example :
    (a : Allocation) × (allocate_uids 1000 (user 1000 ∷ user 1001 ∷ []) (user 1000 ∷ user 1500 ∷ [])
      ≡ ok a)
    × AreApart (user 1000 ∷ user 1001 ∷ []) (user 1000 ∷ user 1500 ∷ []) a.mapping
allocate_uids-total_example =
    allocate_uids-total 1000 (user 1000 ∷ user 1001 ∷ []) (user 1000 ∷ user 1500 ∷ [])
      ((refl, tt), (tt, tt)) (omega arith)

-- An inventory that could not be read, and a live path that both sides ship.
abbrev unread : PackageEtcInventory
unread = record { owned = []; modified = []; complete = false; warnings = codes "no rpm" ∷ [] }

abbrev motd : EtcPathState
motd = record {
  path = codes "motd";
  in_source_default = false;
  in_current = true;
  in_target_default = true;
  user_modified = true;
}

motd_ordinary : is_identity_db (codes "motd") ≡ false
unfolding is_identity_db
motd_ordinary = refl

package_overrides-live_example :
    decision_for (package_overrides (package_plan_etc (motd ∷ []) unread)) (codes "motd")
    ≡ some true
package_overrides-live_example =
    package_overrides-live unread (motd ∷ []) motd (Memᴰ.head refl) refl motd_ordinary refl

-- A comment in front of the target's groups: the members of `wheel` are merged into the line of
-- `root`, which stands where the second valid group's index points.
abbrev commented : Tables
commented = record target { group = codes "#x\nroot:x:0:\nwheel:x:10:core\n" }

commented_group :
    (merge_of (merge_identity source commented [])).tables.group
    ≡ codes "#x\nroot:x:0:ana\nwheel:x:10:core\nana:x:1000:\n"
unfolding merge_identity lines split_on split_by trim parse_u32 text_eq sort dedup text_le
    split_whitespace for_each filter_map show_nat join parse_group_lines
commented_group = refl

-- The account that both sides have for an id that is unmapped is refused as a human one.
abbrev overflow_user : Text
overflow_user = codes "nobody:x:65534:65534:Kernel Overflow User:/:/sbin/nologin\n"

nobody_refused :
    merge_identity
      (record source { passwd = overflow_user })
      (record target { passwd = overflow_user })
      []
    ≡ err (account_in_both (codes "nobody"))
unfolding merge_identity lines split_on split_by trim parse_u32 text_eq sort dedup text_le
    split_whitespace for_each filter_map
nobody_refused = refl

next_free_id_lem_example :
    let (id, after) = next_free_id (1000 ∷ 1001 ∷ []) 1000 in
    (holds (1000 ∷ 1001 ∷ []) id ≡ false)
    × (1000 ≤ id)
    × (id ≤ 1002)
    × (after ≡ id ∷ 1000 ∷ 1001 ∷ [])
next_free_id_lem_example = next_free_id_lem (1000 ∷ 1001 ∷ []) 1000 (omega arith)

fstab_rewritten :
    rewrite_fstab (codes "# x\n/dev/a / ext4 rw 0 1\n/dev/b\t/home xfs rw\n/dev/c /data xfs rw")
    ≡ codes "# x\n/dev/b\t/var/home xfs rw\n/dev/c /data xfs rw"
unfolding rewrite_fstab
fstab_rewritten = refl

rpm_read :
    parse_rpm_verify (codes "S.5....T.  c /etc/foo.conf\n..5....T.    /etc/bar\n")
    ≡ codes "foo.conf" ∷ []
unfolding parse_rpm_verify dedup sort filter_map trim
rpm_read = refl

dpkg_read : parse_dpkg_owned (codes "a, b: /etc/x/\nc: /usr/y\n") ≡ codes "x" ∷ []
unfolding parse_dpkg_owned dedup sort filter_map trim
dpkg_read = refl

pacman_read : parse_verify (codes "pkg: /etc/foo (Size mismatch)\n") ≡ codes "foo" ∷ []
unfolding parse_verify dedup sort filter_map trim
pacman_read = refl

owned_read : parse_owned (codes "/usr/x\n/etc/b\n/etc/a/\n/etc/\n") ≡ codes "a" ∷ codes "b" ∷ []
unfolding parse_owned dedup sort filter_map trim
owned_read = refl
