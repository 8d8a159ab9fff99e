-- ===== src/FirstbootRepair/Bounds.antt =====
-- The ownership pass: the bounds of its log and of its counts, and the pass that only counts.
use bootc_migrate.Prelude.{
  ℕ, suc, ◌+◌, ◌≤◌, ◌≡◌, refl, sym, ap, ◌∙◌, subst, inl, inr, Bool, true, false, Option, none, some,
  List, [], ◌∷◌, ◌++◌, arith, ltb, ◌==◌, Bool-cases, is_some, length, length-append, ok, ok-inj,
}
use bootc_migrate.Text.{Text, is_empty}
use bootc_migrate.FirstbootRepair.Signed.{ℤ}
use bootc_migrate.FirstbootRepair.Records.{IdentityRecord, parse_record}
use bootc_migrate.FirstbootRepair.Ownership.{
  Place, Metadata, OwnershipOutcome, Calls, Verdict, home_dir, drift, is_clean, count, count_drift,
  push_error, chown_result, apply_chown, mtime_result, apply_mtime, repair_present, repair_found,
  repair_at, repair_record, repair_parsed, next_line, repair_lines, repair_resolved, repair_opened,
  repair_ownership, no_outcome,
}

push_error-le :
    (errors : List Text) (line : Text) → length errors ≤ 21 → length (push_error errors line) ≤ 21
unfolding push_error
push_error-le errors line h = elim (Bool-cases (ltb (length errors) 20)) [
  | inl few ↦ rw (few, length-append errors (line ∷ [])) (ground (arith, few))
  | inr many ↦ elim (Bool-cases (length errors == 20)) [
    | inl full ↦ rw (many, full, length-append errors (_ ∷ [])) (ground (arith, full))
    | inr over ↦ rw (many, over) h
  ]
]

-- What handling one record may add to the counts.
abbrev Grows : OwnershipOutcome → OwnershipOutcome → Type 0
Grows out o =
    (o.records ≡ out.records)
    × (o.malformed ≡ out.malformed)
    × (o.refused + o.missing ≤ out.refused + out.missing + 1)
    × (o.rechowned ≤ out.rechowned + 1)
    × (o.retimed ≤ out.retimed + 1)
    × (length out.errors ≤ 21 → length o.errors ≤ 21)

-- What the change of the owner, or that of the time, may add to them.
abbrev GrowsBy : ℕ → ℕ → OwnershipOutcome → OwnershipOutcome → Type 0
GrowsBy a b out o =
    (o.records ≡ out.records)
    × (o.malformed ≡ out.malformed)
    × (o.refused + o.missing ≡ out.refused + out.missing)
    × (o.rechowned ≤ out.rechowned + a)
    × (o.retimed ≤ out.retimed + b)
    × (length out.errors ≤ 21 → length o.errors ≤ 21)

-- The counts of a pass over `n` lines.
abbrev pub IsBounded : ℕ → OwnershipOutcome → Type 0
IsBounded n o =
    (o.records + o.malformed ≤ n)
    × (o.refused + o.missing ≤ o.records)
    × (o.rechowned ≤ o.records)
    × (o.retimed ≤ o.records)
    × (length o.errors ≤ 21)

module _ {S : Type 0} (os : Calls S) where
  chown-grows :
      (p : Place) (m : Metadata) (out : OwnershipOutcome) (result : S × Option Text)
      → GrowsBy 1 0 out (chown_result os p m out result).1
  unfolding chown_result
  chown-grows p m out (t, none) = (refl, refl, refl, omega arith, omega arith, λ h. h)
  chown-grows p m out (t, some line) =
      (refl, refl, refl, omega arith, omega arith, λ h. push_error-le out.errors line h)

  apply_chown-grows :
      (p : Place) (m : Metadata) (c : Option (ℕ × ℕ)) (x : S × OwnershipOutcome)
      → GrowsBy 1 0 x.1 (apply_chown os p m c x).1
  unfolding apply_chown
  apply_chown-grows p m none (s, out) = (refl, refl, refl, omega arith, omega arith, λ h. h)
  apply_chown-grows p m (some (u, g)) (s, out) = chown-grows p m out (os.chownat s p u g)

  mtime-grows :
      (out : OwnershipOutcome) (result : S × Option Text)
      → GrowsBy 0 1 out (mtime_result os out result).1
  unfolding mtime_result
  mtime-grows out (t, none) = (refl, refl, refl, omega arith, omega arith, λ h. h)
  mtime-grows out (t, some line) =
      (refl, refl, refl, omega arith, omega arith, λ h. push_error-le out.errors line h)

  apply_mtime-grows :
      (p : Place) (c : Option (ℤ × ℤ)) (x : S × OwnershipOutcome)
      → GrowsBy 0 1 x.1 (apply_mtime os p c x).1
  unfolding apply_mtime
  apply_mtime-grows p none (s, out) = (refl, refl, refl, omega arith, omega arith, λ h. h)
  apply_mtime-grows p (some (a, b)) (s, out) = mtime-grows out (os.utimensat s p a b)

  both-grow : (a b c : OwnershipOutcome) → GrowsBy 1 0 a b → GrowsBy 0 1 b c → Grows a c
  both-grow a b c (r, m, f, u, v, e) (r', m', f', u', v', e') =
      (r' ∙ r, m' ∙ m, omega arith, omega arith, omega arith, λ h. e' (e h))

  count-le : (b : Bool) → count b ≤ 1
  unfolding count
  count-le true = omega arith
  count-le false = omega arith

  repair_present-Grows :
      (dry : Bool) (r : IdentityRecord) (p : Place) (m : Metadata) (s : S) (out : OwnershipOutcome)
      → Grows out (repair_present os dry r p m (s, out)).1
  unfolding repair_present count_drift
  repair_present-Grows dry r p m s out =
      let d = drift r m.uid m.gid m.mtime_sec m.mtime_nsec in
      elim (Bool-cases (is_clean d)) [
        | inl clean ↦ rw clean (refl, refl, omega arith, omega arith, omega arith, λ h. h)
        | inr drifted ↦ elim (Bool-cases dry) [
          | inl counts ↦
              rw (drifted, counts)
                (
                  refl,
                  refl,
                  omega arith,
                  omega (arith, count-le (is_some d.chown)),
                  omega (arith, count-le (is_some d.mtime)),
                  λ h. h,
                )
          | inr acts ↦
              rw (drifted, acts)
                (both-grow out _ _ (apply_chown-grows p m d.chown (s, out))
                  (apply_mtime-grows p d.mtime (apply_chown os p m d.chown (s, out))))
        ]
      ]

  repair_found-Grows :
      (dry : Bool) (r : IdentityRecord) (p : Place) (m : Option Metadata) (s : S)
      (out : OwnershipOutcome)
      → Grows out (repair_found os dry r p m (s, out)).1
  unfolding repair_found
  repair_found-Grows dry r p none s out =
      (refl, refl, omega arith, omega arith, omega arith, λ h. h)
  repair_found-Grows dry r p (some m) s out = repair_present-Grows dry r p m s out

  repair_at-Grows :
      (dry : Bool) (r : IdentityRecord) (p : Place) (inside : Bool) (s : S) (out : OwnershipOutcome)
      → Grows out (repair_at os dry r p inside (s, out)).1
  unfolding repair_at
  repair_at-Grows dry r p true s out = repair_found-Grows dry r p (os.symlink_metadata s p) s out
  repair_at-Grows dry r p false s out = (refl, refl, omega arith, omega arith, omega arith, λ h. h)

  one_more :
      (n : ℕ) (out o : OwnershipOutcome)
      → IsBounded n out
      → Grows (record out { records = out.records + 1 }) o
      → IsBounded (n + 1) o
  one_more n out o (a, b, c, d, e) (r, m, f, u, v, g) =
      (omega arith, omega arith, omega arith, omega arith, g e)

  IsBounded-le : (m n : ℕ) (o : OwnershipOutcome) → m ≤ n → IsBounded m o → IsBounded n o
  IsBounded-le m n o h (a, b, c, d, e) = (omega arith, b, c, d, e)

  repair_parsed-IsBounded :
      (dry : Bool) (root home : Place) (parsed : Option IdentityRecord) (last : Verdict) (s : S)
      (out : OwnershipOutcome) (n : ℕ)
      → IsBounded n out
      → IsBounded (n + 1) (repair_parsed os dry root home parsed last (s, out)).2
  unfolding repair_parsed repair_record
  repair_parsed-IsBounded dry root home none last s out n (a, b, c, d, e) =
      (omega arith, b, c, d, e)
  repair_parsed-IsBounded dry root home (some r) last s out n h =
      one_more n out _ h (repair_at-Grows dry r _ _ s (record out { records = out.records + 1 }))

  next_line-IsBounded :
      (dry : Bool) (root home : Place) (line : Text) (x : Verdict × S × OwnershipOutcome) (n : ℕ)
      → IsBounded n x.2
      → IsBounded (n + 1) (next_line os dry root home line x).2
  unfolding next_line
  next_line-IsBounded dry root home line (last, s, out) n h = elim (Bool-cases (is_empty line)) [
    | inl empty ↦ rw empty (IsBounded-le n (n + 1) out (omega arith) h)
    | inr filled ↦
        rw filled (repair_parsed-IsBounded dry root home (parse_record line) last s out n h)
  ]

  repair_lines-IsBounded :
      (dry : Bool) (root home : Place) (lines : List (Option Text))
      (x : Verdict × S × OwnershipOutcome) (n : ℕ) {o : OwnershipOutcome}
      → IsBounded n x.2
      → (repair_lines os dry root home lines x).1 ≡ ok o
      → IsBounded (n + length lines) o
  unfolding repair_lines
  repair_lines-IsBounded dry root home [] (last, s, out) n {o} h e =
      subst (IsBounded (n + 0)) (ok-inj e) (IsBounded-le n (n + 0) out (omega arith) h)
  repair_lines-IsBounded dry root home (none ∷ lines) (last, s, out) n h e = cc
  repair_lines-IsBounded dry root home (some line ∷ lines) x n {o} h e =
      IsBounded-le (n + 1 + length lines) (n + suc (length lines)) o (omega arith) (
        repair_lines-IsBounded dry root home lines (next_line os dry root home line x) (n + 1)
          (next_line-IsBounded dry root home line x n h) e)

  repair_opened-IsBounded :
      (dry : Bool) (root : Place) (lines : List (Option Text)) (home : Option Place) (s : S)
      {o : OwnershipOutcome}
      → (repair_resolved os dry root lines home s).1 ≡ ok o
      → IsBounded (length lines) o
  unfolding repair_resolved
  repair_opened-IsBounded dry root lines none s e = cc
  repair_opened-IsBounded dry root lines (some home) s {o} e =
      IsBounded-le (0 + length lines) (length lines) o (omega arith) (
        repair_lines-IsBounded dry root home lines (none, s, no_outcome) 0 {o = o}
          (omega arith, omega arith, omega arith, omega arith, omega arith) e)

-- A pass that succeeds logs at most 21 errors, counts no more records and malformed lines than the manifest has lines, refuses or misses at most as many entries as there are records, and counts at most one change of owner and one of time for each record.
pub repair_ownership-IsBounded :
    {S : Type 0} (os : Calls S) (var_root : Place) (manifest : Text) (dry_run : Bool) (s : S)
    (lines : List (Option Text)) {out : OwnershipOutcome}
    → os.open_lines s manifest ≡ some lines
    → (repair_ownership os var_root manifest dry_run s).1 ≡ ok out
    → IsBounded (length lines) out
unfolding repair_ownership repair_opened
repair_ownership-IsBounded os var_root manifest dry_run s lines {out} opened e =
    repair_opened-IsBounded os dry_run var_root lines (os.canonicalize s (var_root ++ home_dir)) s
      {o = out} (ap (λ o. (repair_opened os dry_run var_root o s).1) (sym opened) ∙ e)

module _ {S : Type 0} (os : Calls S) where
  repair_at-dry :
      (r : IdentityRecord) (p : Place) (inside : Bool) (s : S) (out : OwnershipOutcome)
      → (repair_at os true r p inside (s, out)).0 ≡ s
  unfolding repair_at repair_found repair_present
  repair_at-dry r p false s out = refl
  repair_at-dry r p true s out = found (os.symlink_metadata s p)
    where
      found : (m : Option Metadata) → (repair_found os true r p m (s, out)).0 ≡ s
      found none = refl
      found (some m) = elim (Bool-cases (is_clean (drift r m.uid m.gid m.mtime_sec m.mtime_nsec))) [
        | inl clean ↦ rw clean refl
        | inr drifted ↦ rw drifted refl
      ]

  repair_lines-dry :
      (root home : Place) (lines : List (Option Text)) (x : Verdict × S × OwnershipOutcome)
      → (repair_lines os true root home lines x).0 ≡ x.1
  unfolding repair_lines next_line repair_parsed repair_record
  repair_lines-dry root home [] x = refl
  repair_lines-dry root home (none ∷ lines) x = refl
  repair_lines-dry root home (some line ∷ lines) (last, s, out) =
      repair_lines-dry root home lines (next_line os true root home line (last, s, out))
      ∙ elim (Bool-cases (is_empty line)) [
        | inl empty ↦ rw empty refl
        | inr filled ↦ rw filled (one (parse_record line))
      ]
    where
      one :
          (parsed : Option IdentityRecord)
          → (repair_parsed os true root home parsed last (s, out)).1 ≡ s
      one none = refl
      one (some r) = repair_at-dry r _ _ s (record out { records = out.records + 1 })

-- A pass that only counts leaves the disk as it is, however it ends.
pub repair_ownership-dry :
    {S : Type 0} (os : Calls S) (var_root : Place) (manifest : Text) (s : S)
    → (repair_ownership os var_root manifest true s).0 ≡ s
unfolding repair_ownership repair_opened repair_resolved
repair_ownership-dry os var_root manifest s = opened (os.open_lines s manifest)
  where
    resolved :
        (lines : List (Option Text)) (home : Option Place)
        → (repair_resolved os true var_root lines home s).0 ≡ s
    resolved lines none = refl
    resolved lines (some home) = repair_lines-dry os var_root home lines (none, s, no_outcome)

    opened : (lines : Option (List (Option Text))) → (repair_opened os true var_root lines s).0 ≡ s
    opened none = refl
    opened (some lines) = resolved lines (os.canonicalize s (var_root ++ home_dir))
