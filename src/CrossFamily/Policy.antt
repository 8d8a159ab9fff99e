-- ===== src/CrossFamily/Policy.antt =====
-- The `/etc` policy of cross_family.rs (crates/bootc-migrate-core/src): what the target's image
-- replaces, what is dropped, and what is carried.
use bootc_migrate.Prelude.{Bool, false, ◌&&◌, ◌||◌, List, [], ◌∷◌, ◌++◌, map, if◌then◌else◌, any}
use bootc_migrate.Text.{Text, codes, contains, starts_with, sort, dedup}
use bootc_migrate.Etc.Tree.{Dict}
use bootc_migrate.Etc.Identity.{is_identity_db}
use bootc_migrate.Etc.Merge.{EtcDriftManifest}
use bootc_migrate.Etc.Drift.{EtcPathState}

abbrev pub carry_over_exact : List Text
carry_over_exact =
    codes "fstab"
    ∷ codes "crypttab"
    ∷ codes "mdadm.conf"
    ∷ codes "hostname"
    ∷ codes "hosts"
    ∷ codes "localtime"
    ∷ codes "locale.conf"
    ∷ codes "vconsole.conf"
    ∷ codes "adjtime"
    ∷ codes "machine-info"
    ∷ []

abbrev pub carry_over_prefixes : List Text
carry_over_prefixes =
    codes "ssh/ssh_host_"
    ∷ codes "ssh/sshd_config.d/"
    ∷ codes "NetworkManager/system-connections/"
    ∷ codes "systemd/network/"
    ∷ codes "sudoers.d/"
    ∷ codes "cryptsetup-keys.d/"
    ∷ []

unfoldable pub is_carried_over : Text → Bool
unfolding starts_with
is_carried_over rel_path =
    contains carry_over_exact rel_path || any (starts_with rel_path) carry_over_prefixes

pub record EtcCrossFamilyPlan : Type 0 where
  pub take_target : List Text
  pub dropped : List Text
  pub carried : List Text
  pub identity : List Text
  pub sidecars : List Text

abbrev pub empty_policy : EtcCrossFamilyPlan
empty_policy = record { take_target = []; dropped = []; carried = []; identity = []; sidecars = [] }

unfoldable pub with_sidecar : EtcPathState → EtcCrossFamilyPlan → EtcCrossFamilyPlan
with_sidecar st plan =
    if st.in_current && st.user_modified
    then record plan { sidecars = plan.sidecars ++ (st.path ∷ []) }
    else plan

-- The verdict on one path.
unfoldable pub place_path : EtcCrossFamilyPlan → EtcPathState → EtcCrossFamilyPlan
unfolding is_identity_db is_carried_over with_sidecar
place_path plan st =
    let p = st.path ∷ [] in
    if is_identity_db st.path
    then record plan { identity = plan.identity ++ p }
    else if is_carried_over st.path
    then (if st.in_current then record plan { carried = plan.carried ++ p } else plan)
    else if st.in_target_default
    then record (with_sidecar st plan) { take_target = plan.take_target ++ p }
    else if st.in_source_default
    then record (with_sidecar st plan) { dropped = plan.dropped ++ p }
    else if st.in_current
    then record plan { carried = plan.carried ++ p }
    else plan

unfoldable pub place_paths : EtcCrossFamilyPlan → List EtcPathState → EtcCrossFamilyPlan
unfolding place_path
place_paths plan [] = plan
place_paths plan (st ∷ states) = place_paths (place_path plan st) states

abbrev pub in_order : List Text → List Text
in_order paths = dedup (sort paths)

unfoldable pub plan_etc : List EtcPathState → EtcCrossFamilyPlan
unfolding place_paths
plan_etc states =
    let plan = place_paths empty_policy states in
    record {
      take_target = in_order plan.take_target;
      dropped = in_order plan.dropped;
      carried = in_order plan.carried;
      identity = in_order plan.identity;
      sidecars = in_order plan.sidecars;
    }

abbrev pub decide_all : Bool → List Text → Dict Bool
decide_all keep = map (λ p. (p, keep))

-- Every replaced or dropped path is decided for the target.
unfoldable pub overrides : EtcCrossFamilyPlan → EtcDriftManifest
overrides plan = record { decisions = decide_all false (plan.take_target ++ plan.dropped) }
