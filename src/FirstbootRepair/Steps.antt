-- ===== src/FirstbootRepair/Steps.antt =====
-- One record of the ownership pass: which entry it changes, and what that entry is afterwards.
use bootc_migrate.Prelude.{
  ℕ, suc, ◌≡◌, refl, sym, ap, ◌∙◌, subst, ◌≢◌, ◌⊎◌, inl, inr, Bool, true, false, Option, none, some,
  List, [], ◌∷◌, arith, ltb, ◌==◌, if◌then◌else◌, ==_iff, Bool-cases, Option-cases, length,
}
use mathlib.Core.Option
use mathlib.Core.Bool.{true≢false}
use mathlib.Core.Option.{none-ne-some}
use bootc_migrate.Text.{Text}
use bootc_migrate.FirstbootRepair.Records.{IdentityRecord}
use bootc_migrate.FirstbootRepair.Ownership.{
  Place, Metadata, OwnershipOutcome, Calls, is_clean, push_error, restore_mode, chown_result,
  apply_chown, mtime_result, apply_mtime, repair_present, repair_found, repair_at,
}
use bootc_migrate.FirstbootRepair.Laws.{
  perm, has_special_bits, Inodes, Near, Chowned, Lawful, Near-refl, Near-trans, Matches, live_drift,
  live_drift-chown, live_drift-mtime, is_clean-iff-Matches,
}

filled :
    (b c : Bool) (e : Text) (xs ys zs : List Text)
    → (if b then e ∷ xs else if c then e ∷ ys else e ∷ zs) ≢ []
filled true c e xs ys zs h = cc
filled false true e xs ys zs h = cc
filled false false e xs ys zs h = cc

-- An error leaves a line in the log.
pub push_error-filled : (errors : List Text) (line : Text) → push_error errors line ≢ []
unfolding push_error
push_error-filled [] line h = cc
push_error-filled (e ∷ errors) line h =
    filled (ltb (suc (length errors)) 20) (suc (length errors) == 20) e _ _ _ h

module _ {S : Type 0} (os : Calls S) (fs : Inodes S) (laws : Lawful os fs) where
  -- The disk and the log of errors.
  abbrev pub logged : S × OwnershipOutcome → S × List Text
  logged (s, out) = (s, out.errors)

  -- Every change of a mode succeeds.
  abbrev pub Modes : Type 0
  Modes = (s : S) (p : Place) (mode : ℕ) → (os.chmodat s p mode).1 ≡ true

  -- What the change of the owner leaves of inode `i`, the mode put back.
  abbrev OwnedAs : ℕ → ℕ → Metadata → Metadata → Type 0
  OwnedAs uid gid before after =
      (after.uid ≡ uid)
      × (after.gid ≡ gid)
      × (after.mtime_sec ≡ before.mtime_sec)
      × (after.mtime_nsec ≡ before.mtime_nsec)
      × (Modes → perm after ≡ perm before)

  lstat_at :
      (s : S) (p : Place) (i : ℕ)
      → fs.inode s p ≡ some i
      → os.symlink_metadata s p ≡ some (fs.stat s i)
  lstat_at s p i here = laws.lstat s p ∙ ap (Option.map (fs.stat s)) here

  -- The mode is left alone, or set.
  restore_mode-cases :
      (before : Metadata) (t : S) (p : Place) (i : ℕ)
      → fs.inode t p ≡ some i
      → (restore_mode os p before t ≡ t)
          × ((has_special_bits before ≡ false) ⊎ (perm (fs.stat t i) ≡ perm before))
        ⊎ (has_special_bits before ≡ true)
          × (restore_mode os p before t ≡ (os.chmodat t p (perm before)).0)
  unfolding restore_mode
  restore_mode-cases before t p i here = elim (Bool-cases (has_special_bits before)) [
    | inl special ↦ elim (Bool-cases (perm (fs.stat t i) == perm before)) [
      | inl same ↦ inl (
        rw (special, lstat_at t p i here, same),
        inr ((==_iff (perm (fs.stat t i)) (perm before)).0 same),
      )
      | inr other ↦ inr (special, rw (special, lstat_at t p i here, other))
    ]
    | inr plain ↦ inl (rw plain, inl plain)
  ]

  Modes_result :
      (s : S) (p : Place) (mode : ℕ) {A : Type 0} → (os.chmodat s p mode).1 ≡ false → Modes → A
  Modes_result s p mode e modes = absurd (true≢false (sym (modes s p mode) ∙ e))

  pair : {A : Type 0} {x : A × Bool} {b : Bool} → x.1 ≡ b → x ≡ (x.0, b)
  pair {x} e = ap (λ c. (x.0, c)) e

  no_link : (m : Metadata) → has_special_bits m ≡ true → m.is_symlink ≡ false
  no_link m h = ground arith

  restore_mode_lem :
      (s t : S) (p : Place) (uid gid i : ℕ)
      → fs.inode t p ≡ some i
      → Chowned uid gid (fs.stat s i) (fs.stat t i)
      → Near os fs i t (restore_mode os p (fs.stat s i) t)
        × OwnedAs uid gid (fs.stat s i) (fs.stat (restore_mode os p (fs.stat s i) t) i)
  restore_mode_lem s t p uid gid i here (u, g, a, b, l, bits) =
      let P = λ (x : S). Near os fs i t x × OwnedAs uid gid (fs.stat s i) (fs.stat x i) in
      elim (restore_mode-cases (fs.stat s i) t p i here) [
        | inl (stays, inl plain) ↦
            subst P (sym stays) (Near-refl os fs i t, (u, g, a, b, λ _. bits plain))
        | inl (stays, inr same) ↦ subst P (sym stays) (Near-refl os fs i t, (u, g, a, b, λ _. same))
        | inr (special, moves) ↦ subst P (sym moves) (chmodded special)
      ]
    where
      chmodded :
          has_special_bits (fs.stat s i) ≡ true
          → Near os fs i t (os.chmodat t p (perm (fs.stat s i))).0
            × OwnedAs uid gid (fs.stat s i) (fs.stat (os.chmodat t p (perm (fs.stat s i))).0 i)
      chmodded special = elim (Bool-cases (os.chmodat t p (perm (fs.stat s i))).1) [
        | inl done ↦
            let (near, (v, h, c, d, kept)) =
              laws.chmod-ok t (os.chmodat t p (perm (fs.stat s i))).0 p (perm (fs.stat s i)) i
                (pair done) here (l ∙ no_link (fs.stat s i) special) in
            (near, (v ∙ u, h ∙ g, c ∙ a, d ∙ b, λ _. kept ∙ omega arith))
        | inr refused ↦
            let P = λ (x : S). Near os fs i t x × OwnedAs uid gid (fs.stat s i) (fs.stat x i) in
            subst P (sym (laws.chmod-refused t _ p (perm (fs.stat s i)) (pair refused)))
              (Near-refl os fs i t, (u, g, a, b, Modes_result t p (perm (fs.stat s i)) refused))
      ]

  -- What the change of the owner does to the entry, errors included.
  chown_result_lem :
      (s : S) (p : Place) (uid gid i : ℕ) (out : OwnershipOutcome) (result : S × Option Text)
      → os.chownat s p uid gid ≡ result
      → fs.inode s p ≡ some i
      → let (t, o) = chown_result os p (fs.stat s i) out result in
        Near os fs i s t
        × ((o.errors ≡ []) → (out.errors ≡ []) × OwnedAs uid gid (fs.stat s i) (fs.stat t i))
  unfolding chown_result
  chown_result_lem s p uid gid i out (t, none) call here =
      let (near, owner) = laws.chown-ok s t p uid gid i call here in
      let (back, owned) = restore_mode_lem s t p uid gid i (near.0 p ∙ here) owner in
      (
        Near-trans os fs i s t (restore_mode os p (fs.stat s i) t) near back,
        λ quiet. (quiet, owned),
      )
  chown_result_lem s p uid gid i out (t, some line) call here = (
    subst (λ x. Near os fs i s x) (sym (laws.chown-refused s t p uid gid line call))
        (Near-refl os fs i s),
    λ noisy. absurd (push_error-filled out.errors line noisy),
  )

  apply_chown_lem :
      (r : IdentityRecord) (s : S) (p : Place) (i : ℕ) (out : OwnershipOutcome)
      → fs.inode s p ≡ some i
      → let (t, o) = apply_chown os p (fs.stat s i) (live_drift r (fs.stat s i)).chown (s, out) in
        Near os fs i s t
        × ((o.errors ≡ []) → (out.errors ≡ []) × OwnedAs r.uid r.gid (fs.stat s i) (fs.stat t i))
  unfolding apply_chown
  apply_chown_lem r s p i out here = elim (live_drift-chown r (fs.stat s i)) [
    | inl (still, u, g) ↦
        rw still (Near-refl os fs i s, λ quiet. (quiet, (u, g, refl, refl, λ _. refl)))
    | inr moved ↦
        rw moved (chown_result_lem s p r.uid r.gid i out (os.chownat s p r.uid r.gid) refl here)
  ]

  -- What the change of the time does to the entry, errors included.
  abbrev Timed : IdentityRecord → Metadata → Metadata → Type 0
  Timed r before after =
      (after.uid ≡ before.uid)
      × (after.gid ≡ before.gid)
      × (after.mtime_sec ≡ r.mtime_sec)
      × (after.mtime_nsec ≡ r.mtime_nsec)
      × (perm after ≡ perm before)

  mtime_result_lem :
      (r : IdentityRecord) (s : S) (p : Place) (i : ℕ) (out : OwnershipOutcome)
      (result : S × Option Text)
      → os.utimensat s p r.mtime_sec r.mtime_nsec ≡ result
      → fs.inode s p ≡ some i
      → let (t, o) = mtime_result os out result in
        Near os fs i s t
        × ((o.errors ≡ []) → (out.errors ≡ []) × Timed r (fs.stat s i) (fs.stat t i))
  unfolding mtime_result
  mtime_result_lem r s p i out (t, none) call here =
      let (near, after) = laws.utimens-ok s t p r.mtime_sec r.mtime_nsec i call here in
      (
        near,
        λ quiet. (
          quiet,
          (
            ap (λ m. m.uid) after,
            ap (λ m. m.gid) after,
            ap (λ m. m.mtime_sec) after,
            ap (λ m. m.mtime_nsec) after,
            ap perm after,
          ),
        ),
      )
  mtime_result_lem r s p i out (t, some line) call here = (
    subst (λ x. Near os fs i s x)
        (sym (laws.utimens-refused s t p r.mtime_sec r.mtime_nsec line call)) (Near-refl os fs i s),
    λ noisy. absurd (push_error-filled out.errors line noisy),
  )

  -- The drift of the time is that of the entry before its owner was changed.
  apply_mtime_lem :
      (r : IdentityRecord) (before : Metadata) (s : S) (p : Place) (i : ℕ) (out : OwnershipOutcome)
      → fs.inode s p ≡ some i
      → let (t, o) = apply_mtime os p (live_drift r before).mtime (s, out) in
        Near os fs i s t
        × ((o.errors ≡ [])
            → (out.errors ≡ [])
              × ((fs.stat s i).mtime_sec ≡ before.mtime_sec
                  → (fs.stat s i).mtime_nsec ≡ before.mtime_nsec
                  → Timed r (fs.stat s i) (fs.stat t i)))
  unfolding apply_mtime
  apply_mtime_lem r before s p i out here = elim (live_drift-mtime r before) [
    | inl (still, sec, nsec) ↦
        rw still
          (Near-refl os fs i s, λ quiet. (quiet, λ a b. (refl, refl, a ∙ sec, b ∙ nsec, refl)))
    | inr moved ↦ rw moved timed
  ]
    where
      timed :
          let (t, o) = apply_mtime os p (some (r.mtime_sec, r.mtime_nsec)) (s, out) in
          Near os fs i s t
          × ((o.errors ≡ [])
              → (out.errors ≡ [])
                × ((fs.stat s i).mtime_sec ≡ before.mtime_sec
                    → (fs.stat s i).mtime_nsec ≡ before.mtime_nsec
                    → Timed r (fs.stat s i) (fs.stat t i)))
      timed =
          let (near, q) =
            mtime_result_lem r s p i out (os.utimensat s p r.mtime_sec r.mtime_nsec) refl here in
          (near, λ quiet. ((q quiet).0, λ a b. (q quiet).1))

  -- What the pass does to an entry that it finds: nothing else changes, and if the log of errors
  -- is still empty then the entry is as the manifest has it, with its permission bits.
  abbrev pub Repaired : IdentityRecord → ℕ → S × List Text → S × List Text → Type 0
  Repaired r i (s, errors) (t, more) =
      Near os fs i s t
      × ((more ≡ [])
          → (errors ≡ [])
            × Matches r (fs.stat t i)
            × (Modes → perm (fs.stat t i) ≡ perm (fs.stat s i)))

  repair_drift_lem :
      (r : IdentityRecord) (s : S) (p : Place) (i : ℕ) (out : OwnershipOutcome)
      → fs.inode s p ≡ some i
      → let d = live_drift r (fs.stat s i) in
        Repaired r i
          (logged (s, out))
          (logged (apply_mtime os p d.mtime (apply_chown os p (fs.stat s i) d.chown (s, out))))
  repair_drift_lem r s p i out here =
      let d = live_drift r (fs.stat s i) in
      let first = apply_chown os p (fs.stat s i) d.chown (s, out) in
      let (near, owned) = apply_chown_lem r s p i out here in
      let (near_too, timed) =
        apply_mtime_lem r (fs.stat s i) first.0 p i first.1 (near.0 p ∙ here) in
      (
        Near-trans os fs i s first.0 (apply_mtime os p d.mtime first).0 near near_too,
        λ quiet.
            let (quiet_first, later) = timed quiet in
            let (quiet_out, (u, g, a, b, bits)) = owned quiet_first in
            let (u', g', sec, nsec, bits') = later a b in
            (quiet_out, (u' ∙ u, g' ∙ g, sec, nsec), λ modes. bits' ∙ bits modes),
      )

  repair_present_lem :
      (r : IdentityRecord) (s : S) (p : Place) (i : ℕ) (out : OwnershipOutcome)
      → fs.inode s p ≡ some i
      → Repaired r i (logged (s, out)) (logged (repair_present os false r p (fs.stat s i) (s, out)))
  unfolding repair_present
  repair_present_lem r s p i out here = elim (Bool-cases (is_clean (live_drift r (fs.stat s i)))) [
    | inl clean ↦ rw clean (
      Near-refl os fs i s,
      λ quiet. (quiet, (is_clean-iff-Matches r (fs.stat s i)).0 clean, λ modes. refl),
    )
    | inr drifted ↦ rw drifted (repair_drift_lem r s p i out here)
  ]

  -- One record: it is passed over without a change, or its entry is repaired.
  pub repair_at_lem :
      (r : IdentityRecord) (s : S) (p : Place) (inside : Bool) (out : OwnershipOutcome)
      → let (t, o) = repair_at os false r p inside (s, out) in
        (t ≡ s) × (o.errors ≡ out.errors) × (inside ≡ true → fs.inode s p ≡ none)
        ⊎ (inside ≡ true)
          × ((i : ℕ) × (fs.inode s p ≡ some i) × Repaired r i (s, out.errors) (t, o.errors))
  unfolding repair_at repair_found
  repair_at_lem r s p false out = inl (refl, refl, λ e. absurd (true≢false (sym e)))
  repair_at_lem r s p true out = elim (Option-cases (fs.inode s p)) [
    | inl gone ↦
        let seen = laws.lstat s p ∙ ap (Option.map (fs.stat s)) gone in
        inl (rw seen refl, rw seen refl, λ _. gone)
    | inr (i, here) ↦
        inr (refl, (i, here, rw (lstat_at s p i here) (repair_present_lem r s p i out here)))
  ]
