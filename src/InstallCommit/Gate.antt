-- ===== src/InstallCommit/Gate.antt =====
-- When a commit runs, and when it refuses.
use bootc_migrate.Prelude.{
  or_false, ok-inj, ◌≡◌, refl, sym, ◌∙◌, subst, inl, inr, Bool, true, false, ◌&&◌, ◌||◌, not, List,
  [], ◌∷◌, ◌++◌, if◌then◌else◌, Bool-cases, is_some, any, filter, any-append, Result, ok, err,
  >>=-eq-ok,
}
use bootc_migrate.Text.{Text, codes}
use bootc_migrate.InstallCommit.Paths.{
  join_path, ostree_cmdline_path, booted_composefs, parse_mountpoints,
}
use bootc_migrate.InstallCommit.Var.{VarDiff, diff_var}
use bootc_migrate.InstallCommit.Checks.{
  Target, CommitPlan, Layout, Host, HostFacts, is_empty_list, check_boot, mounted_inside, old_var,
  check,
}
use bootc_migrate.InstallCommit.Plan.{
  is_blocking, blocking, plan, plan_targets, kept_names, plan_checks, live_at,
}
use bootc_migrate.InstallCommit.Disk.{Disk}
use bootc_migrate.InstallCommit.Execute.{CommitOutcome}
use bootc_migrate.InstallCommit.Command.{
  CommitArgs, Outcome, nothing_to_delete, dry_run, not_confirmed, committed, Refusal, apply_plan,
  run_plan, run_result, finish,
}

pub is_empty_list-filter {ℓ} :
    {A : Type ℓ} (f : A → Bool) (xs : List A) → is_empty_list (filter f xs) ≡ not (any f xs)
is_empty_list-filter f [] = refl
is_empty_list-filter f (x ∷ xs) = elim (Bool-cases (f x)) [
  | inl t ↦ rw t
  | inr e ↦ rw (e, is_empty_list-filter f xs)
]

-- What the checks of a plan are.
pub plan-eq-ok :
    (observe : Host) (layout : Layout) (facts : HostFacts) (p : CommitPlan)
    → plan observe layout facts ≡ ok p
    → p.checks ≡ plan_checks observe layout facts p.diff p.targets
unfolding plan
plan-eq-ok observe layout facts p e =
    let (diff, compared, rest) =
      >>=-eq-ok (diff_var (observe.tree_at (old_var layout)) (live_at observe layout)) _ e in
    let (targets, planned, more) = >>=-eq-ok (plan_targets observe layout) _ rest in
    let (kept, listed, last) =
      >>=-eq-ok (kept_names observe (join_path layout.sysroot (codes "state"))) _ more in
    subst (λ q. q.checks ≡ plan_checks observe layout facts q.diff q.targets) (ok-inj last) refl

any-later {ℓ} :
    {A : Type ℓ} (f : A → Bool) (xs ys : List A) → any f (xs ++ ys) ≡ false → any f ys ≡ false
any-later f xs ys h = (or_false (any f xs) (any f ys) (sym (any-append f xs ys) ∙ h)).1

-- The first, the fourth and the last check of a plan do not block.
checks-shape {ℓ} :
    {A : Type ℓ} (f : A → Bool) (c0 c1 c2 c3 c4 : A) (xs ys : List A)
    → any f (c0 ∷ c1 ∷ (xs ++ (c2 ∷ c3 ∷ (ys ++ (c4 ∷ []))))) ≡ false
    → (f c0 ≡ false) × ((f c3 ≡ false) × (f c4 ≡ false))
checks-shape f c0 c1 c2 c3 c4 xs ys h =
    let (first, r1) = or_false (f c0) _ h in
    let (second, r2) = or_false (f c1) _ r1 in
    let (third, r3) = or_false (f c2) _ (any-later f xs (c2 ∷ c3 ∷ (ys ++ (c4 ∷ []))) r2) in
    let (fourth, r4) = or_false (f c3) _ r3 in
    (first, (fourth, (or_false (f c4) false (any-later f ys (c4 ∷ []) r4)).0))

hard-holds :
    (force : Bool) (name : Text) (good : Bool)
    → is_blocking force (check name good true) ≡ false
    → good ≡ true
unfolding is_blocking
hard-holds force name true h = refl
hard-holds force name false h = cc

soft-holds :
    (force : Bool) (name : Text) (good : Bool)
    → is_blocking force (check name good false) ≡ false
    → (force || good) ≡ true
unfolding is_blocking
soft-holds true name good h = refl
soft-holds false name true h = refl
soft-holds false name false h = cc

pub plan-blocks :
    (force : Bool) (observe : Host) (layout : Layout) (facts : HostFacts) (diff : VarDiff)
    (targets : List Target)
    → any (is_blocking force) (plan_checks observe layout facts diff targets) ≡ false
    → ((is_some (ostree_cmdline_path facts.cmdline) && not (booted_composefs facts.cmdline)) ≡ true)
      × (((force || is_empty_list diff.missing) ≡ true)
          × (is_empty_list (mounted_inside targets (parse_mountpoints facts.proc_mounts)) ≡ true))
unfolding plan_checks check_boot
plan-blocks force observe layout facts diff targets h =
    let (boot, (var, mounts)) = checks-shape (is_blocking force) _ _ _ _ _ _ _ h in
    (hard-holds force _ _ boot, (soft-holds force _ _ var, hard-holds force _ _ mounts))

if-fst {ℓ} :
    {A : Type ℓ} {S : Type 0} (b : Bool) (x y : S × A) {s : S}
    → x.0 ≡ s
    → y.0 ≡ s
    → (if b then x else y).0 ≡ s
if-fst true x y h k = h
if-fst false x y h k = k

pub not-true : (b : Bool) → not b ≡ true → b ≡ false
not-true true e = cc
not-true false e = refl

pub not-false : (b : Bool) → not b ≡ false → b ≡ true
not-false true e = refl
not-false false e = cc

pub demorgan : (a b : Bool) → (not a && not b) ≡ false → (a || b) ≡ true
demorgan true b e = refl
demorgan false true e = refl
demorgan false false e = cc

module _ {S : Type 0} (disk : Disk S) where
  apply_plan-dry :
      (args : CommitArgs) (answer : Text) (p : CommitPlan) (s : S)
      → args.apply_now ≡ false
      → (apply_plan disk args answer p s).0 ≡ s
  unfolding apply_plan
  apply_plan-dry args answer p s h = if-fst (is_empty_list p.targets) _ _ refl (rw h)

  run_plan-dry :
      (args : CommitArgs) (answer : Text) (p : CommitPlan) (s : S)
      → args.apply_now ≡ false
      → (run_plan disk args answer p s).0 ≡ s
  unfolding run_plan
  run_plan-dry args answer p s h =
      if-fst (not (is_empty_list (blocking p args.force))) _ _ refl
        (apply_plan-dry args answer p s h)

  pub run_result-dry :
      (args : CommitArgs) (answer : Text) (p : Result Text CommitPlan) (s : S)
      → args.apply_now ≡ false
      → (run_result disk args answer p s).0 ≡ s
  run_result-dry args answer (err e) s h = refl
  run_result-dry args answer (ok p) s h = run_plan-dry args answer p s h

  pub apply-shape :
      (b1 b2 b3 : Bool) (s s' : S) (x : S × Result Refusal Outcome) (o : CommitOutcome)
      → (if b1
          then (s, ok nothing_to_delete)
          else if b2
          then (s, ok dry_run)
          else if b3
          then (s, ok not_confirmed)
          else x)
        ≡ (s', ok (committed o))
      → (b2 ≡ false) × ((b3 ≡ false) × (x ≡ (s', ok (committed o))))
  apply-shape true b2 b3 s s' x o e = cc
  apply-shape false true b3 s s' x o e = cc
  apply-shape false false true s s' x o e = cc
  apply-shape false false false s s' x o e = (refl, (refl, e))

  pub finish-eq-ok :
      (x : S × Result Text CommitOutcome) (s' : S) (o : CommitOutcome)
      → finish disk x ≡ (s', ok (committed o))
      → x ≡ (s', ok o)
  finish-eq-ok (s, err e) s' o h = cc
  finish-eq-ok (s, ok p) s' o h = cc

  pub run-shape :
      (b : Bool) (s s' : S) (r : Refusal) (x : S × Result Refusal Outcome) (o : CommitOutcome)
      → (if not b then (s, err r) else x) ≡ (s', ok (committed o))
      → (b ≡ true) × (x ≡ (s', ok (committed o)))
  run-shape true s s' r x o e = (refl, e)
  run-shape false s s' r x o e = cc

  pub run_result-eq-committed :
      (args : CommitArgs) (answer : Text) (r : Result Text CommitPlan) (s s' : S)
      (o : CommitOutcome)
      → run_result disk args answer r s ≡ (s', ok (committed o))
      → (p : CommitPlan) × (r ≡ ok p) × (run_plan disk args answer p s ≡ (s', ok (committed o)))
  run_result-eq-committed args answer (err e) s s' o h = cc
  run_result-eq-committed args answer (ok p) s s' o h = (p, refl, h)
