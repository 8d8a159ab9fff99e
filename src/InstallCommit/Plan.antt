-- ===== src/InstallCommit/Plan.antt =====
-- The targets and the plan of a commit.
use bootc_migrate.Prelude.{
  ℕ, ◌+◌, ◌%◌, ◌^◌, Bool, true, false, ◌&&◌, ◌||◌, not, Option, none, some, List, [], ◌∷◌, ◌++◌,
  map, if◌then◌else◌, is_some, is_none, filter, Result, ok, err, ◌>>=◌,
}
use bootc_migrate.Text.{Text, codes, text_eq, sort}
use bootc_migrate.InstallCommit.Paths.{
  old_stateroot_var, old_deploy_dir, composefs_store, composefs_loopback, is_deletable,
  parse_mountpoints, join_path,
}
use bootc_migrate.InstallCommit.Tree.{Kind, kind_of, meta_of}
use bootc_migrate.InstallCommit.Var.{VarDiff, diff_var}
use bootc_migrate.InstallCommit.Usage.{tree_usage}
use bootc_migrate.InstallCommit.Checks.{
  Check, Target, CommitPlan, HostFacts, Layout, Host, old_var, find_report, check, check_boot,
  report_checks, path_of_report, esp_resident, firmware_entry, is_empty_list, check_not_live,
  mounted_inside,
}

-- The names of the deployments; a directory that cannot be read is an error.
pub deployment_names : Host → Text → Result Text (List Text)
deployment_names host deploy =
    if host.is_dir deploy
    then elim (host.list_dir deploy) [ none ↦ err deploy | some names ↦ ok (sort names) ]
    else ok []

abbrev pub target_spec : List Text → List (Text × Text)
target_spec names =
    (old_stateroot_var, codes "old composefs stateroot /var")
    ∷ (composefs_store, codes "composefs object store")
    ∷ (composefs_loopback, codes "composefs store loopback image")
    ∷ map (λ n. (old_deploy_dir ++ (codes "/" ++ n), codes "composefs deployment")) names

-- A path that is not there is no target; a protected one stops the planning.
unfoldable pub plan_target : Host → Layout → Text × Text → Result Text (Option Target)
plan_target host layout (rel, what) =
    let path = join_path layout.sysroot rel in
    if is_none (host.tree_at path)
    then ok none
    else if not (is_deletable rel)
    then err rel
    else tree_usage (host.tree_at path) >>= λ bytes.
        ok (some (record { rel = rel; path = path; bytes = bytes; what = what }))

abbrev pub push_target : Option Target → List Target → List Target
push_target none ts = ts
push_target (some t) ts = t ∷ ts

unfoldable pub plan_each : Host → Layout → List (Text × Text) → Result Text (List Target)
unfolding plan_target
plan_each host layout [] = ok []
plan_each host layout (s ∷ spec) =
    plan_target host layout s >>= λ t. plan_each host layout spec >>= λ ts. ok (push_target t ts)

unfoldable pub plan_targets : Host → Layout → Result Text (List Target)
unfolding deployment_names plan_each
plan_targets host layout =
    deployment_names host (join_path layout.sysroot old_deploy_dir) >>= λ names.
    plan_each host layout (target_spec names)

-- What the live `/var` has at a path of it.
abbrev pub live_at : Host → Layout → Text → Option (Kind × ℕ)
live_at host layout rel = elim (host.tree_at (join_path layout.live_var rel)) [
  | none ↦ none
  | some t ↦ some (kind_of t, (meta_of t).len)
]

unfoldable pub plan_checks : Host → Layout → HostFacts → VarDiff → List Target → List Check
unfolding check_boot find_report report_checks check_not_live mounted_inside
plan_checks host layout facts diff targets =
    let report = find_report host layout in
    check_boot facts.cmdline
    ∷ check (codes "install report") (is_some report) false
    ∷ (report_checks host layout facts.cmdline report
        ++ (check (codes "firmware reaches the OSTree deployment")
              (is_some (firmware_entry (esp_resident report) facts.efibootmgr)) false
            ∷ check (codes "old /var is carried into the live /var") (is_empty_list diff.missing)
                false
            ∷ (check_not_live (host.dev_ino (old_var layout)) (host.dev_ino layout.live_var)
                ++ (check (codes "no filesystem mounted inside a target")
                      (is_empty_list (mounted_inside targets (parse_mountpoints facts.proc_mounts)))
                      true
                    ∷ []))))

-- What else stands in the old state directory: it is named as kept.
pub kept_names : Host → Text → Result Text (List Text)
kept_names host state =
    if host.is_dir state
    then elim (host.list_dir state) [
      | none ↦ err state
      | some names ↦ ok (
          map (join_path state)
            (sort (filter (λ n. not (text_eq n (codes "os") || text_eq n (codes "deploy"))) names)))
    ]
    else ok []

-- Read-only: the plan, or the error of a directory that cannot be read.
unfoldable pub plan : Host → Layout → HostFacts → Result Text CommitPlan
unfolding plan_targets plan_checks kept_names
plan host layout facts = diff_var (host.tree_at (old_var layout)) (live_at host layout) >>= λ diff.
    plan_targets host layout >>= λ targets.
    kept_names host (join_path layout.sysroot (codes "state")) >>= λ kept. ok record {
      checks = plan_checks host layout facts diff targets;
      report_path = path_of_report (find_report host layout);
      diff = diff;
      targets = targets;
      kept = kept;
    }

unfoldable pub is_blocking : Bool → Check → Bool
is_blocking force c = not c.ok_now && (c.hard || not force)

unfoldable pub blocking : CommitPlan → Bool → List Check
unfolding is_blocking
blocking p force = filter (is_blocking force) p.checks

unfoldable pub total_bytes : List Target → ℕ
total_bytes [] = 0
total_bytes (t ∷ ts) = (t.bytes + total_bytes ts) % 2 ^ 64
