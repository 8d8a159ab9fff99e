-- ===== src/BootCleanup/Preselection.antt =====
-- What becomes of the selection proposed by default.
use mathlib.Core.List.{Memᴰ, append-nil, append_assoc}
use bootc_migrate.Prelude.{
  ℕ, ◌≡◌, refl, sym, ap, ◌∙◌, subst, inl, inr, Bool, true, false, ◌&&◌, none, some, List, [], ◌∷◌,
  ◌++◌, map, arith, ltb, ◌==◌, if◌then◌else◌, Bool-cases, is_none, length, any, filter, find?,
  Result, ok, err, not, for_each, any_of_mem,
}
use bootc_migrate.Text.{
  Text, is_empty, eq_ignore_ascii_case, eq_ignore_ascii_case_self, eq_ignore_ascii_case_comm,
}
use bootc_migrate.BootCleanup.Audit.{AuditedEntry, safe_to_preselect}
use bootc_migrate.BootCleanup.Plan.{
  NvramFacts, PlannedOp, delete, CleanupPlan, PlanError, is_bootable, delete_protection,
  default_delete_selection, find_entry, delete_op, plan_delete, evidence_implausible,
  esp_evidence_implausible, loader_entries, bootable_after, check_last, plan_cleanup,
}

-- No two entries of the audit have one id, its case ignored.
abbrev pub DistinctIds : List AuditedEntry → Type 0
DistinctIds [] = Unit
DistinctIds (a ∷ bs) =
    (any (λ b. eq_ignore_ascii_case b.entry.id a.entry.id) bs ≡ false) × DistinctIds bs

preselected : NvramFacts → AuditedEntry → Bool
preselected facts a = safe_to_preselect a && is_none (delete_protection a facts)

abbrev delete_of : AuditedEntry → PlannedOp
delete_of a = delete a.entry.id a.entry.label a.flags

-- An entry of an audit with distinct ids is the one that its id finds.
find?-self :
    (bs : List AuditedEntry) {a : AuditedEntry}
    → DistinctIds bs
    → Memᴰ a bs
    → find? (λ b. eq_ignore_ascii_case b.entry.id a.entry.id) bs ≡ some a
find?-self [] d m = elim m [ ]
find?-self (b ∷ bs) {a} d (Memᴰ.head e) =
    subst
      (λ (c : AuditedEntry).
        find? (λ x. eq_ignore_ascii_case x.entry.id c.entry.id) (b ∷ bs) ≡ some c)
      (sym e) (rw (eq_ignore_ascii_case_self b.entry.id))
find?-self (b ∷ bs) {a} d (Memᴰ.tail m) =
    elim (Bool-cases (eq_ignore_ascii_case b.entry.id a.entry.id)) [
      | inl same ↦ absurd (
          clash (
            any_of_mem (λ x. eq_ignore_ascii_case x.entry.id b.entry.id) m
              (eq_ignore_ascii_case_comm a.entry.id b.entry.id ∙ same)))
      | inr other ↦ rw other (find?-self bs d.1 m)
    ]
  where
    clash : any (λ x. eq_ignore_ascii_case x.entry.id b.entry.id) bs ≡ true → ⊥
    clash h = ground (arith, h, d.0)

module _ (audited : List AuditedEntry) (facts : NvramFacts) (distinct : DistinctIds audited) where
  find_entry_self : (a : AuditedEntry) → Memᴰ a audited → find_entry audited a.entry.id ≡ ok a
  unfolding find_entry
  find_entry_self a m = rw (find?-self audited distinct m, find_entry)

  unprotected :
      (a : AuditedEntry)
      → preselected facts a ≡ true
      → delete_op facts a.entry.id a ≡ ok (delete_of a)
  unfolding delete_op preselected
  unprotected a h =
      let free : delete_protection a facts ≡ none = ground arith in rw (free, delete_op)

  plan_delete-preselected :
      (a : AuditedEntry) (ops : List PlannedOp)
      → Memᴰ a audited
      → preselected facts a ≡ true
      → plan_delete audited facts [] ops a.entry.id ≡ ok (ops ++ (delete_of a ∷ []))
  unfolding plan_delete
  plan_delete-preselected a ops m h = rw (find_entry_self a m, plan_delete) (rw (unprotected a h))

  loop-preselected :
      (bs : List AuditedEntry) (ops : List PlannedOp)
      → ((a : AuditedEntry) → Memᴰ a bs → Memᴰ a audited)
      → for_each
          (plan_delete audited facts [])
          (map (λ a. a.entry.id) (filter (preselected facts) bs))
          ops
        ≡ ok (ops ++ map delete_of (filter (preselected facts) bs))
  unfolding for_each
  loop-preselected [] ops sub = rw append-nil
  loop-preselected (a ∷ bs) ops sub = elim (Bool-cases (preselected facts a)) [
    | inr e ↦ rw e (loop-preselected bs ops (λ b m. sub b (Memᴰ.tail m)))
    | inl e ↦ rw e (
        rw (plan_delete-preselected a ops (sub a (Memᴰ.head refl)) e) (
          loop-preselected bs (ops ++ (delete_of a ∷ [])) (λ b m. sub b (Memᴰ.tail m))
          ∙ ap ok (
              append_assoc ops (delete_of a ∷ []) (map delete_of (filter (preselected facts) bs)))))
  ]

-- With distinct ids, an entry found by the id of `a` is `a`.
distinct-any :
    (q : AuditedEntry → Bool) (bs : List AuditedEntry) {a : AuditedEntry}
    → DistinctIds bs
    → Memᴰ a bs
    → any (λ b. eq_ignore_ascii_case b.entry.id a.entry.id && q b) bs ≡ true
    → q a ≡ true
distinct-any q [] d m h = elim m [ ]
distinct-any q (b ∷ bs) {a} d (Memᴰ.head e) h =
    subst (λ c. q c ≡ true) (sym e)
      (head_case (
        subst (λ c. any (λ x. eq_ignore_ascii_case x.entry.id c.entry.id && q x) (b ∷ bs) ≡ true) e
          h))
  where
    weaker :
        (cs : List AuditedEntry)
        → any (λ x. eq_ignore_ascii_case x.entry.id b.entry.id) cs ≡ false
        → any (λ x. eq_ignore_ascii_case x.entry.id b.entry.id && q x) cs ≡ false
    weaker [] k = refl
    weaker (c ∷ cs) k = ground (arith, weaker cs)

    head_case :
        any (λ x. eq_ignore_ascii_case x.entry.id b.entry.id && q x) (b ∷ bs) ≡ true → q b ≡ true
    head_case k = ground (arith, k, weaker bs d.0)
distinct-any q (b ∷ bs) {a} d (Memᴰ.tail m) h =
    elim (Bool-cases (eq_ignore_ascii_case b.entry.id a.entry.id)) [
      | inl same ↦ absurd (
          clash (
            any_of_mem (λ x. eq_ignore_ascii_case x.entry.id b.entry.id) m
              (eq_ignore_ascii_case_comm a.entry.id b.entry.id ∙ same)))
      | inr other ↦ distinct-any q bs d.1 m (ground arith)
    ]
  where
    clash : any (λ x. eq_ignore_ascii_case x.entry.id b.entry.id) bs ≡ true → ⊥
    clash k = ground (arith, k, d.0)

any-selected :
    (q : AuditedEntry → Bool) (j : Text) (bs : List AuditedEntry)
    → any (λ id. eq_ignore_ascii_case id j) (map (λ a. a.entry.id) (filter q bs))
      ≡ any (λ b. eq_ignore_ascii_case b.entry.id j && q b) bs
any-selected q j [] = refl
any-selected q j (b ∷ bs) = ground (arith, any-selected q j bs)

filter-congr {ℓ} :
    {A : Type ℓ} (p q : A → Bool) (xs : List A)
    → ((x : A) → Memᴰ x xs → p x ≡ q x)
    → filter p xs ≡ filter q xs
filter-congr p q [] h = refl
filter-congr p q (x ∷ xs) h =
    rw (h x (Memᴰ.head refl), filter-congr p q xs (λ y m. h y (Memᴰ.tail m)))

module _ (audited : List AuditedEntry) (facts : NvramFacts) (distinct : DistinctIds audited) where
  -- What is preselected is dead, so nothing bootable is selected.
  bootable_after-default :
      bootable_after audited (default_delete_selection audited facts) ≡ filter is_bootable audited
  unfolding bootable_after default_delete_selection is_bootable safe_to_preselect preselected
  bootable_after-default = filter-congr _ is_bootable audited λ a m. ground (
    arith,
    any-selected (preselected facts) a.entry.id audited,
    distinct-any (preselected facts) audited {a = a} distinct m,
  )

  abbrev default_ops : List PlannedOp
  default_ops = map delete_of (filter (preselected facts) audited)

  check_last-default :
      check_last audited (default_delete_selection audited facts) default_ops
      ≡ ok (record { ops = default_ops })
  unfolding check_last
  check_last-default = rw bootable_after-default (settle (length (filter is_bootable audited)) _ _)
    where
      settle :
          (n : ℕ) (s r : Result PlanError CleanupPlan) → (if ltb 0 n && n == 0 then s else r) ≡ r
      settle n s r = ground arith

  -- An empty selection gives the empty plan, which is what its deletions make up.
  empty_or :
      (bs : List AuditedEntry) (bad : Bool) (e : PlanError) {r : Result PlanError CleanupPlan}
      → r ≡ ok (record { ops = map delete_of bs })
      → (if is_empty (map (λ (a : AuditedEntry). a.entry.id) bs) && true
          then ok (record { ops = [] })
          else if bad
          then err e
          else r)
        ≡ (if not (is_empty bs) && bad then err e else ok (record { ops = map delete_of bs }))
  empty_or [] bad e h = refl
  empty_or (b ∷ bs) true e h = refl
  empty_or (b ∷ bs) false e h = h

  -- Where no two ids are equal, the selection proposed by default is refused only if it is not
  -- empty and the audit is implausible, as `esp_evidence_implausible`; else it is planned in full:
  -- one deletion for each dead entry that is not protected, in order.
  pub plan_cleanup-default :
      let chosen =
        filter (λ a. safe_to_preselect a && is_none (delete_protection a facts)) audited in
      plan_cleanup audited facts
        (record { delete_ids = default_delete_selection audited facts; renames = [] })
      ≡ (if not (is_empty chosen) && evidence_implausible audited facts
          then err (esp_evidence_implausible (loader_entries audited))
          else ok (record { ops = map (λ a. delete a.entry.id a.entry.label a.flags) chosen }))
  unfolding plan_cleanup default_delete_selection preselected for_each
  plan_cleanup-default =
      empty_or (filter (preselected facts) audited) (evidence_implausible audited facts)
        (esp_evidence_implausible (loader_entries audited))
        (rw (loop-preselected audited facts distinct audited [] (λ b m. m)) check_last-default)
