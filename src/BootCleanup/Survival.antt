-- ===== src/BootCleanup/Survival.antt =====
-- A plan leaves a bootable entry.
use bootc_migrate.Prelude.{
  ◌<◌, ◌≡◌, inl, inr, Bool, true, ◌&&◌, not, List, [], ◌∷◌, arith, Bool-cases, All, length, any,
  filter, ok,
}
use bootc_migrate.Text.{Text, eq_ignore_ascii_case}
use bootc_migrate.BootCleanup.Audit.{AuditedEntry}
use bootc_migrate.BootCleanup.Plan.{
  NvramFacts, PlannedOp, CleanupPlan, CleanupSelection, is_bootable, bootable_after, plan_cleanup,
}
use bootc_migrate.BootCleanup.Safety.{deletes, Asked, plan_cleanup-eq-ok}

nonempty-any {ℓ} :
    {A : Type ℓ} (p : A → Bool) (xs : List A) → 0 < length (filter p xs) → any p xs ≡ true
nonempty-any p [] h = absurd (omega arith)
nonempty-any p (x ∷ xs) h = elim (Bool-cases (p x)) [
  | inl e ↦ rw e
  | inr e ↦ rw e (nonempty-any p xs (rw e at h))
]

any-nonempty {ℓ} :
    {A : Type ℓ} (p : A → Bool) (xs : List A) → any p xs ≡ true → 0 < length (filter p xs)
any-nonempty p [] h = absurd (cc)
any-nonempty p (x ∷ xs) h = ground (arith, any-nonempty p xs)

any_mono {ℓ} :
    {A : Type ℓ} (p q : A → Bool) (xs : List A)
    → ((x : A) → p x ≡ true → q x ≡ true)
    → any p xs ≡ true
    → any q xs ≡ true
any_mono p q [] h k = k
any_mono p q (x ∷ xs) h k = ground (arith, h x, any_mono p q xs h)

any-deletes-Asked :
    (ids : List Text) (ops : List PlannedOp) (j : Text)
    → All (Asked ids) ops
    → any (deletes j) ops ≡ true
    → any (λ id. eq_ignore_ascii_case id j) ids ≡ true
any-deletes-Asked ids [] j h k = absurd (cc)
any-deletes-Asked ids (op ∷ ops) j h k = ground (arith, h.0 j, any-deletes-Asked ids ops j h.1)

-- If the audit has a bootable entry, it has one that no operation of the plan deletes.
pub plan_cleanup-keeps_bootable :
    (audited : List AuditedEntry) (facts : NvramFacts) (selection : CleanupSelection)
    {plan : CleanupPlan}
    → plan_cleanup audited facts selection ≡ ok plan
    → any is_bootable audited ≡ true
    → any (λ a. is_bootable a && not (any (deletes a.entry.id) plan.ops)) audited ≡ true
unfolding bootable_after
plan_cleanup-keeps_bootable audited facts selection {plan} h some_bootable =
    let (good, last) = plan_cleanup-eq-ok audited facts selection h in
    elim last [
      | inl kept ↦
          let left : 0 < length (bootable_after audited selection.delete_ids) =
            ground (arith, any-nonempty is_bootable audited some_bootable) in
          any_mono
            (λ a.
              is_bootable a
              && not (any (λ id. eq_ignore_ascii_case id a.entry.id) selection.delete_ids))
            (λ a. is_bootable a && not (any (deletes a.entry.id) plan.ops)) audited
            (λ a k.
              ground (arith, any-deletes-Asked selection.delete_ids plan.ops a.entry.id good.1))
            (nonempty-any _ audited left)
      | inr empty ↦ rw empty (any_mono is_bootable _ audited (λ a k. ground arith) some_bootable)
    ]
