-- ===== src/BootCleanup/Branding.antt =====
-- The renames that are proposed from the name of the operating system.
use mathlib.Core.List.{Memᴰ}
use bootc_migrate.BootCleanup.Preselection.{DistinctIds}
use bootc_migrate.Prelude.{
  ◌≤◌, ◌≡◌, refl, ◌∙◌, inl, inr, true, false, Option, none, some, List, [], ◌∷◌, arith, Bool-cases,
  All, is_none, is_some_and, length, any,
}
use bootc_migrate.Text.{
  Text, trim, eq_ignore_ascii_case, eq_ignore_ascii_case_comm, eq_ignore_ascii_case_trans,
}
use bootc_migrate.BootCleanup.Audit.{generic_label, AuditedEntry, has_flag}
use bootc_migrate.BootCleanup.Plan.{
  NvramFacts, rename_block, label_is_valid, booted_renames, branding_renames,
}

-- What a proposed rename satisfies: it is of an audited entry with a generic label, which was booted
-- from, the safety rules allow it, and the label is usable.
pub record IsBranding (audited : List AuditedEntry) (facts : NvramFacts) (r : Text × Text)
    : Type 0 where
  pub named : AuditedEntry
  pub listed : Memᴰ named audited
  pub same_id : r.0 ≡ named.entry.id
  pub booted : is_some_and facts.boot_current (λ b. eq_ignore_ascii_case named.entry.id b) ≡ true
  pub generic : has_flag generic_label named ≡ true
  pub allowed : rename_block named r.1 ≡ none
  pub usable : label_is_valid r.1 ≡ true

is_none-true {ℓ} : {A : Type ℓ} (o : Option A) → is_none o ≡ true → o ≡ none
is_none-true none h = refl
is_none-true (some a) h = cc

module _ (audited : List AuditedEntry) (facts : NvramFacts) (booted label : Text)
    (current : facts.boot_current ≡ some booted) (valid : label_is_valid label ≡ true) where
  booted_renames-IsBranding :
      (bs : List AuditedEntry)
      → ((a : AuditedEntry) → Memᴰ a bs → Memᴰ a audited)
      → All (IsBranding audited facts) (booted_renames bs booted label)
  unfolding booted_renames
  booted_renames-IsBranding [] within = tt
  booted_renames-IsBranding (a ∷ bs) within =
      let rest = booted_renames-IsBranding bs (λ b m. within b (Memᴰ.tail m)) in
      elim (Bool-cases (eq_ignore_ascii_case a.entry.id booted)) [
        | inr other ↦ rw other rest
        | inl same ↦ elim (Bool-cases (has_flag generic_label a)) [
          | inr named ↦ rw (same, named) rest
          | inl generic ↦ elim (Bool-cases (is_none (rename_block a label))) [
            | inr blocked ↦ rw (same, generic, blocked) rest
            | inl allowed ↦
                rw (same, generic, allowed)
                  (
                    record {
                      named = a;
                      listed = within a (Memᴰ.head refl);
                      same_id = refl;
                      booted = rw current same;
                      generic = generic;
                      allowed = is_none-true (rename_block a label) allowed;
                      usable = valid;
                    },
                    rest,
                  )
          ]
        ]
      ]

-- Every proposed rename is of an audited entry with a generic label, the one booted from, and it
-- passes the rules that a cleanup applies to a rename.
pub branding_renames-IsBranding :
    (audited : List AuditedEntry) (facts : NvramFacts) (pretty_name : Text)
    → All (IsBranding audited facts) (branding_renames audited facts pretty_name)
unfolding branding_renames
branding_renames-IsBranding audited facts pretty_name =
    elim (Bool-cases (label_is_valid (trim pretty_name))) [
      | inr unusable ↦ rw unusable tt
      | inl valid ↦ rw valid (go valid facts.boot_current refl)
    ]
  where
    go :
        label_is_valid (trim pretty_name) ≡ true
        → (current : Option Text) → facts.boot_current ≡ current
        → All (IsBranding audited facts) (elim current [
          | none ↦ []
          | some booted ↦ booted_renames audited booted (trim pretty_name)
        ])
    go valid none e = tt
    go valid (some booted) e =
        booted_renames-IsBranding audited facts booted (trim pretty_name) e valid audited (λ a m. m)

booted_renames-none :
    (bs : List AuditedEntry) (booted label : Text)
    → any (λ b. eq_ignore_ascii_case b.entry.id booted) bs ≡ false
    → booted_renames bs booted label ≡ []
unfolding booted_renames
booted_renames-none [] booted label h = refl
booted_renames-none (b ∷ bs) booted label h =
    rw (show_other) (booted_renames-none bs booted label (ground arith))
  where
    show_other : eq_ignore_ascii_case b.entry.id booted ≡ false
    show_other = ground arith

no_second :
    (a : AuditedEntry) (bs : List AuditedEntry) (booted : Text)
    → any (λ b. eq_ignore_ascii_case b.entry.id a.entry.id) bs ≡ false
    → eq_ignore_ascii_case a.entry.id booted ≡ true
    → any (λ b. eq_ignore_ascii_case b.entry.id booted) bs ≡ false
no_second a [] booted h same = refl
no_second a (b ∷ bs) booted h same =
    let rest = no_second a bs booted (ground arith) same in
    elim (Bool-cases (eq_ignore_ascii_case b.entry.id booted)) [
      | inl both ↦
          let twice =
            eq_ignore_ascii_case_trans b.entry.id booted a.entry.id both
              (eq_ignore_ascii_case_comm booted a.entry.id ∙ same) in
          ground arith
      | inr other ↦ ground arith
    ]

booted_renames-le :
    (bs : List AuditedEntry) (booted label : Text)
    → DistinctIds bs
    → length (booted_renames bs booted label) ≤ 1
unfolding booted_renames
booted_renames-le [] booted label d = omega arith
booted_renames-le (a ∷ bs) booted label d =
    let rest = booted_renames-le bs booted label d.1 in
    elim (Bool-cases (eq_ignore_ascii_case a.entry.id booted)) [
      | inr other ↦ rw other rest
      | inl same ↦
          let alone = booted_renames-none bs booted label (no_second a bs booted d.0 same) in
          elim (Bool-cases (has_flag generic_label a)) [
            | inr named ↦ rw (same, named) rest
            | inl generic ↦ elim (Bool-cases (is_none (rename_block a label))) [
              | inr blocked ↦ rw (same, generic, blocked) rest
              | inl allowed ↦ rw (same, generic, allowed, alone) (omega arith)
            ]
          ]
    ]

-- Where no two ids are equal, at most one rename is proposed.
pub branding_renames-le :
    (audited : List AuditedEntry) (facts : NvramFacts) (pretty_name : Text)
    → DistinctIds audited
    → length (branding_renames audited facts pretty_name) ≤ 1
unfolding branding_renames
branding_renames-le audited facts pretty_name d =
    elim (Bool-cases (label_is_valid (trim pretty_name))) [
      | inr unusable ↦ rw unusable (omega arith)
      | inl valid ↦ rw valid (go facts.boot_current)
    ]
  where
    go :
        (current : Option Text)
        → length (elim current [
          | none ↦ []
          | some booted ↦ booted_renames audited booted (trim pretty_name)
        ])
          ≤ 1
    go none = omega arith
    go (some booted) = booted_renames-le audited booted (trim pretty_name) d
