-- ===== src/InstallCommit/Committed.antt =====
-- What a commit that ran had before it, and what stops one.
use bootc_migrate.Prelude.{
  ok-inj, ◌≡◌, refl, sym, ap, ◌∙◌, subst, inl, inr, Bool, true, false, ◌&&◌, ◌||◌, not, some, List,
  [], ◌∷◌, map, Bool-cases, is_some, any, all, Result, ok, err, >>=-eq-ok,
}
use bootc_migrate.Text.{Text, codes}
use bootc_migrate.InstallCommit.Paths.{
  join_path, ostree_cmdline_path, booted_composefs, parse_mountpoints,
}
use bootc_migrate.InstallCommit.Checks.{
  CommitPlan, Host, HostFacts, is_empty_list, mounted_inside, old_var,
}
use bootc_migrate.InstallCommit.Plan.{
  is_blocking, blocking, plan, plan_checks, plan_targets, kept_names, live_at,
}
use bootc_migrate.InstallCommit.Disk.{Disk}
use bootc_migrate.InstallCommit.Execute.{CommitOutcome}
use bootc_migrate.InstallCommit.Command.{
  host_layout, CommitArgs, committed, Refusal, refused, failed, apply_plan, run_plan, run_result,
  run, execute_host, confirmation_accepted,
}
use bootc_migrate.InstallCommit.Tree.{
  Meta, special, Tree, dir, Items, kind_of, same_kind, find_at, all_on_device,
}
use bootc_migrate.InstallCommit.Var.{diff_var}
use bootc_migrate.InstallCommit.Clean.{below_path, is_carried_over, on_the_way}
use bootc_migrate.InstallCommit.Carried.{diff_var_lem}
use bootc_migrate.InstallCommit.Gate.{
  is_empty_list-filter, plan-eq-ok, plan-blocks, not-true, not-false, demorgan, run_result-dry,
  apply-shape, finish-eq-ok, run-shape, run_result-eq-committed,
}

-- What holds of the host and of the arguments when the deletions start.
pub record IsCleared (args : CommitArgs) (answer : Text) (facts : HostFacts) (p : CommitPlan)
    : Type 0 where
  pub applied : args.apply_now ≡ true
  pub consented : (args.assume_yes || confirmation_accepted answer) ≡ true
  pub on_ostree :
      (is_some (ostree_cmdline_path facts.cmdline) && not (booted_composefs facts.cmdline)) ≡ true
  pub unmounted :
      is_empty_list (mounted_inside p.targets (parse_mountpoints facts.proc_mounts)) ≡ true
  pub var_carried : (args.force || is_empty_list p.diff.missing) ≡ true

cleared_checks :
    (force : Bool) (observe : Host) (facts : HostFacts) (p : CommitPlan)
    → plan observe host_layout facts ≡ ok p
    → is_empty_list (blocking p force) ≡ true
    → any (is_blocking force) (plan_checks observe host_layout facts p.diff p.targets) ≡ false
unfolding blocking
cleared_checks force observe facts p planned h =
    subst (λ cs. any (is_blocking force) cs ≡ false)
      (plan-eq-ok observe host_layout facts p planned)
      (not-true (any (is_blocking force) p.checks)
        (sym (is_empty_list-filter (is_blocking force) p.checks) ∙ h))

-- The first check contradicts a boot from composefs.
booted-blocks {ℓ} : {P : Type ℓ} (b c : Bool) → b ≡ true → (c && not b) ≡ true → P
booted-blocks true true e h = cc
booted-blocks true false e h = cc
booted-blocks false c e h = cc

or_left : (a b : Bool) → a ≡ false → (a || b) ≡ true → b ≡ true
or_left a b e h = cc

is_nil : (ts : List Text) → is_empty_list ts ≡ true → ts ≡ []
is_nil [] h = refl
is_nil (t ∷ ts) h = cc

plan-diff :
    (observe : Host) (facts : HostFacts) (p : CommitPlan)
    → plan observe host_layout facts ≡ ok p
    → diff_var (observe.tree_at (old_var host_layout)) (live_at observe host_layout) ≡ ok p.diff
unfolding plan
plan-diff observe facts p e =
    let (diff, compared, rest) =
      >>=-eq-ok (diff_var (observe.tree_at (old_var host_layout)) (live_at observe host_layout)) _
        e in
    let (targets, planned, more) = >>=-eq-ok (plan_targets observe host_layout) _ rest in
    let (kept, listed, last) =
      >>=-eq-ok (kept_names observe (join_path host_layout.sysroot (codes "state"))) _ more in
    compared ∙ ap ok (ap (λ q. q.diff) (ok-inj last))

module _ {S : Type 0} (disk : Disk S) where
  -- Without `--apply` the command leaves the disk as it is, whatever it finds.
  pub run-dry :
      (args : CommitArgs) (answer : Text) (observe : Host) (facts : HostFacts) (s : S)
      → args.apply_now ≡ false
      → (run disk args answer observe facts s).0 ≡ s
  unfolding run
  run-dry args answer observe facts s h =
      run_result-dry disk args answer (plan observe host_layout facts) s h

  -- A commit that is reported as done had a plan, was asked for with `--apply`
  -- and confirmed, was not booted from composefs, had nothing mounted inside a
  -- target and, unless forced, missed no path of the old `/var`; and it is the
  -- result of `execute_host` on that plan.
  pub run-eq-committed :
      (args : CommitArgs) (answer : Text) (observe : Host) (facts : HostFacts) (s s' : S)
      (o : CommitOutcome)
      → run disk args answer observe facts s ≡ (s', ok (committed o))
      → (p : CommitPlan) × (plan observe host_layout facts ≡ ok p)
        × IsCleared args answer facts p
        × (execute_host disk p args.force s ≡ (s', ok o))
  unfolding run run_plan apply_plan
  run-eq-committed args answer observe facts s s' o h =
      let (p, planned, ran) =
        run_result-eq-committed disk args answer (plan observe host_layout facts) s s' o h in
      let (unblocked, applied) =
        run-shape disk (is_empty_list (blocking p args.force)) s s' _ _ o ran in
      let (asked, (yes_typed, finished)) =
        apply-shape disk (is_empty_list p.targets) (not args.apply_now)
          (not args.assume_yes && not (confirmation_accepted answer)) s s' _ o applied in
      let (boot, (var, mounts)) =
        plan-blocks args.force observe host_layout facts p.diff p.targets
          (cleared_checks args.force observe facts p planned unblocked) in
      (
        p,
        planned,
        record {
          applied = not-false args.apply_now asked;
          consented = demorgan args.assume_yes (confirmation_accepted answer) yes_typed;
          on_ostree = boot;
          unmounted = mounts;
          var_carried = var;
        },
        finish-eq-ok disk (execute_host disk p args.force s) s' o finished,
      )

  refuses :
      (args : CommitArgs) (answer : Text) (observe : Host) (facts : HostFacts)
      (r : Result Text CommitPlan) (s : S)
      → plan observe host_layout facts ≡ r
      → booted_composefs facts.cmdline ≡ true
      → (e : Refusal) × (run_result disk args answer r s ≡ (s, err e))
  unfolding run_plan
  refuses args answer observe facts (err e) s planned h = (failed e, refl)
  refuses args answer observe facts (ok p) s planned h =
      elim (Bool-cases (is_empty_list (blocking p args.force))) [
        | inl t ↦
            booted-blocks (booted_composefs facts.cmdline)
              (is_some (ostree_cmdline_path facts.cmdline)) h
              (plan-blocks args.force observe host_layout facts p.diff p.targets
                (cleared_checks args.force observe facts p planned t)).0
        | inr f ↦ (
          refused (map (λ c. c.name) (blocking p args.force))
              (all (λ c. not c.hard) (blocking p args.force)),
          rw f,
        )
      ]

  -- Booted from composefs, the command is an error that leaves the disk as it
  -- is, with `--apply`, `--yes` and `--force` too.
  pub run-refuses :
      (args : CommitArgs) (answer : Text) (observe : Host) (facts : HostFacts) (s : S)
      → booted_composefs facts.cmdline ≡ true
      → (e : Refusal) × (run disk args answer observe facts s ≡ (s, err e))
  unfolding run
  run-refuses args answer observe facts s h =
      refuses args answer observe facts (plan observe host_layout facts) s refl h

  -- Once an unforced commit is reported as done, every path of the old `/var` (not a socket, a FIFO
  -- or a device node, all directories on one file system) was live with the same file type when the
  -- plan was made, or is a volatile path, or the plan lists it, or a directory above it, as live
  -- with another file type.
  pub run-carried :
      (args : CommitArgs) (answer : Text) (observe : Host) (facts : HostFacts) (s s' : S)
      (o : CommitOutcome) (p : CommitPlan) (m : Meta) (items : Items) (n : Text) (ns : List Text)
      (t : Tree)
      → run disk args answer observe facts s ≡ (s', ok (committed o))
      → args.force ≡ false
      → plan observe host_layout facts ≡ ok p
      → observe.tree_at (old_var host_layout) ≡ some (dir m items)
      → all_on_device m.dev items ≡ true
      → find_at (dir m items) (n ∷ ns) ≡ some t
      → same_kind (kind_of t) special ≡ false
      → (on_the_way p.diff.type_changed n ns
          || is_carried_over (live_at observe host_layout) (below_path n ns) (kind_of t))
        ≡ true
  run-carried args answer observe facts s s' o p m items n ns t ran unforced planned old device
        found ordinary =
      let (q, planned', cleared, ran') = run-eq-committed args answer observe facts s s' o ran in
      let same = ok-inj (sym planned' ∙ planned) in
      diff_var_lem (live_at observe host_layout) m items p.diff n ns t device
        (subst (λ u. diff_var u (live_at observe host_layout) ≡ ok p.diff) old
          (plan-diff observe facts p planned))
        (is_nil p.diff.missing (
          subst (λ u. is_empty_list u.diff.missing ≡ true) same
            (or_left args.force _ unforced cleared.var_carried)))
        found ordinary
