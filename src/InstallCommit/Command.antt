-- ===== src/InstallCommit/Command.antt =====
-- `bootc-rebase commit`, and the remount around the deletions.
use bootc_migrate.Prelude.{
  Bool, true, false, ◌&&◌, not, none, some, List, [], ◌∷◌, map, if◌then◌else◌, all, Result, ok, err,
}
use bootc_migrate.Text.{Text, codes, trim, eq_ignore_ascii_case}
use bootc_migrate.InstallCommit.Checks.{CommitPlan, Layout, Host, HostFacts, is_empty_list}
use bootc_migrate.InstallCommit.Plan.{blocking, plan}
use bootc_migrate.InstallCommit.Disk.{Disk, ◌>=>◌}
use bootc_migrate.InstallCommit.Execute.{CommitOutcome, execute, require}

abbrev pub host_layout : Layout
host_layout = record { sysroot = codes "/sysroot"; live_var = codes "/var" }

unfoldable pub remount_command : Text → Bool → List Text
remount_command path read_only =
    codes "mount"
    ∷ codes "-o"
    ∷ (if read_only then codes "remount,bind,ro" else codes "remount,bind,rw")
    ∷ path
    ∷ []

abbrev pub confirmation_accepted : Text → Bool
confirmation_accepted input = eq_ignore_ascii_case (trim input) (codes "yes")

pub record CommitArgs : Type 0 where
  pub apply_now : Bool
  pub assume_yes : Bool
  pub force : Bool

pub data Outcome : Type 0 where
  nothing_to_delete dry_run not_confirmed : Outcome
  committed : CommitOutcome → Outcome

-- The names of the failed checks, and whether `--force` would have gone on.
pub data Refusal : Type 0 where
  refused : List Text → Bool → Refusal
  failed : Text → Refusal

module _ {S : Type 0} (disk : Disk S) where
  -- The file system is mounted read-only again whatever the deletions returned.
  abbrev pub remount_after : Text → S × Result Text CommitOutcome → S × Result Text CommitOutcome
  remount_after path (s, result) = ((disk.remount s (remount_command path true)).0, result)

  pub execute_host : CommitPlan → Bool → S → S × Result Text CommitOutcome
  unfolding execute
  execute_host p forced s =
      require (disk.remount s (remount_command (codes "/sysroot") false)) (codes "/sysroot")
        (codes "/sysroot")
      >=> λ s done. elim (disk.proc_mounts s) [
        | none ↦ (s, err (codes "/proc/mounts"))
        | some proc_mounts ↦
            remount_after (codes "/sysroot") (execute disk host_layout p proc_mounts forced s)
      ]

  abbrev pub finish : S × Result Text CommitOutcome → S × Result Refusal Outcome
  finish (s, err e) = (s, err (failed e))
  finish (s, ok o) = (s, ok (committed o))

  -- After the checks have passed: `answer` is what is typed at the prompt.
  unfoldable pub apply_plan : CommitArgs → Text → CommitPlan → S → S × Result Refusal Outcome
  unfolding execute_host
  apply_plan args answer p s =
      if is_empty_list p.targets
      then (s, ok nothing_to_delete)
      else if not args.apply_now
      then (s, ok dry_run)
      else if not args.assume_yes && not (confirmation_accepted answer)
      then (s, ok not_confirmed)
      else finish (execute_host p args.force s)

  unfoldable pub run_plan : CommitArgs → Text → CommitPlan → S → S × Result Refusal Outcome
  unfolding apply_plan blocking
  run_plan args answer p s =
      let blocked = blocking p args.force in
      if not (is_empty_list blocked)
      then (s, err (refused (map (λ c. c.name) blocked) (all (λ c. not c.hard) blocked)))
      else apply_plan args answer p s

  abbrev pub run_result :
      CommitArgs → Text → Result Text CommitPlan → S → S × Result Refusal Outcome
  run_result args answer (err e) s = (s, err (failed e))
  run_result args answer (ok p) s = run_plan args answer p s

  -- `observe` and `facts` are what the file system and the host show before the command.
  unfoldable pub run : CommitArgs → Text → Host → HostFacts → S → S × Result Refusal Outcome
  unfolding run_plan plan
  run args answer observe facts s = run_result args answer (plan observe host_layout facts) s
