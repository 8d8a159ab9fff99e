-- ===== src/InstallCommit/Planned.antt =====
-- The targets of a plan, and that they are deleted.
use bootc_migrate.Prelude.{
  ok-inj, ℕ, ◌≡◌, refl, sym, subst, ◌⊎◌, inl, inr, Bool, true, false, ◌&&◌, not, Option, none, some,
  List, [], ◌∷◌, arith, if◌then◌else◌, is_some, is_none, all, Result, ok, err, ◌>>=◌, >>=-eq-ok,
}
use bootc_migrate.Text.{Text, text_eq, text_eq_self}
use bootc_migrate.InstallCommit.Paths.{old_deploy_dir, is_deletable, join_path}
use bootc_migrate.InstallCommit.Usage.{tree_usage}
use bootc_migrate.InstallCommit.Checks.{Target, Layout, Host}
use bootc_migrate.InstallCommit.Plan.{
  deployment_names, target_spec, plan_target, push_target, plan_each, plan_targets,
}

-- A target that the deletions accept: deletable, and at its path below the root.
abbrev pub is_admissible : Layout → Target → Bool
is_admissible layout t = is_deletable t.rel && text_eq t.path (join_path layout.sysroot t.rel)

-- What a plan says of a target: it is admissible, and was there.
abbrev pub is_sound : Host → Layout → Target → Bool
is_sound host layout t = is_some (host.tree_at t.path) && is_admissible layout t

plan_target-shape :
    (host : Host) (layout : Layout) (rel what : Text) (absent deletable : Bool)
    (usage : Result Text ℕ) {t : Option Target}
    → (if absent
        then ok none
        else if not deletable
        then err rel
        else usage >>= λ bytes. ok (
            some (record {
              rel = rel;
              path = join_path layout.sysroot rel;
              bytes = bytes;
              what = what;
            })))
      ≡ ok t
    → (t ≡ none)
      ⊎ ((absent ≡ false)
          × ((deletable ≡ true)
              × ((b : ℕ) × (t
                    ≡ some (record {
                      rel = rel;
                      path = join_path layout.sysroot rel;
                      bytes = b;
                      what = what;
                    })))))
plan_target-shape host layout rel what true deletable usage e = inl (sym (ok-inj e))
plan_target-shape host layout rel what false false usage e = cc
plan_target-shape host layout rel what false true (err u) e = cc
plan_target-shape host layout rel what false true (ok bytes) e =
    inr (refl, (refl, (bytes, sym (ok-inj e))))

none_or_some {ℓ} : {A : Type ℓ} (o : Option A) → is_none o ≡ false → is_some o ≡ true
none_or_some none h = cc
none_or_some (some a) h = refl

plan_target-is_sound :
    (host : Host) (layout : Layout) (spec : Text × Text) (t : Option Target)
    → plan_target host layout spec ≡ ok t
    → all (is_sound host layout) (push_target t []) ≡ true
unfolding plan_target
plan_target-is_sound host layout (rel, what) t e =
    elim (plan_target-shape host layout rel what
      (is_none (host.tree_at (join_path layout.sysroot rel))) (is_deletable rel)
      (tree_usage (host.tree_at (join_path layout.sysroot rel))) e) [
        | inl nothing ↦ rw nothing
        | inr (there, (deletable, (b, built))) ↦ rw (
          built,
          none_or_some (host.tree_at (join_path layout.sysroot rel)) there,
          deletable,
          text_eq_self (join_path layout.sysroot rel),
        )
      ]

push_target-all :
    (f : Target → Bool) (t : Option Target) (ts : List Target)
    → all f (push_target t []) ≡ true
    → all f ts ≡ true
    → all f (push_target t ts) ≡ true
push_target-all f none ts h k = k
push_target-all f (some t) ts h k = ground (arith, h, k)

plan_each-is_sound :
    (host : Host) (layout : Layout) (spec : List (Text × Text)) (ts : List Target)
    → plan_each host layout spec ≡ ok ts
    → all (is_sound host layout) ts ≡ true
unfolding plan_each
plan_each-is_sound host layout [] ts e =
    subst (λ us. all (is_sound host layout) us ≡ true) (ok-inj e) refl
plan_each-is_sound host layout (x ∷ spec) ts e =
    let (t, first, rest) = >>=-eq-ok (plan_target host layout x) _ e in
    let (us, later, last) =
      >>=-eq-ok (plan_each host layout spec) (λ us. ok (push_target t us)) rest in
    subst (λ vs. all (is_sound host layout) vs ≡ true) (ok-inj last)
      (push_target-all (is_sound host layout) t us (plan_target-is_sound host layout x t first)
        (plan_each-is_sound host layout spec us later))

-- Every target of a plan is at its path below the root, may be deleted, and was there.
pub plan_targets-is_sound :
    (host : Host) (layout : Layout) (ts : List Target)
    → plan_targets host layout ≡ ok ts
    → all (is_sound host layout) ts ≡ true
unfolding plan_targets
plan_targets-is_sound host layout ts e =
    let (names, listed, rest) =
      >>=-eq-ok (deployment_names host (join_path layout.sysroot old_deploy_dir)) _ e in
    plan_each-is_sound host layout (target_spec names) ts rest
