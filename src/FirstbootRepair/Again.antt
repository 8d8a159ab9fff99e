-- ===== src/FirstbootRepair/Again.antt =====
-- The ownership pass run a second time.
use bootc_migrate.Prelude.{
  ℕ, ◌+◌, ◌≡◌, refl, sym, ap, ◌∙◌, subst, inl, inr, Bool, true, false, Option, none, some, List, [],
  ◌∷◌, ◌++◌, Option-cases, All, is_some, push_some, ok,
}
use mathlib.Core.Option
use mathlib.Core.List.{Memᴰ}
use bootc_migrate.Text.{Text}
use bootc_migrate.FirstbootRepair.Records.{IdentityRecord, parse_record}
use bootc_migrate.FirstbootRepair.Ownership.{
  Place, OwnershipOutcome, Calls, Verdict, verdict, remember, is_inside, home_dir, next_line,
  repair_present, repair_found, repair_at, repair_record, repair_lines, repair_ownership,
  no_outcome, changed,
}
use bootc_migrate.FirstbootRepair.Laws.{Inodes, Lawful, Matches, is_clean-iff-Matches}
use bootc_migrate.FirstbootRepair.Cache.{
  place, directory, IsShaped, inside, IsKnown, verdict_lem, remember-IsKnown,
}
use bootc_migrate.FirstbootRepair.Restored.{
  records_of, IsCovered, IsLike, Trace, Handled-IsLike, inside_now, next_line-none, next_line-some,
}
use bootc_migrate.FirstbootRepair.Pass.{
  AreConsistent, opened_pass, trace_pass, repair_ownership-restores,
}

-- Nothing is counted as changed, and no error is logged.
abbrev SameReport : OwnershipOutcome → OwnershipOutcome → Type 0
SameReport out o = (changed o ≡ changed out) × (o.errors ≡ out.errors)

-- Every line could be read.
abbrev AreRead : List (Option Text) → Type 0
AreRead = All (λ line. is_some line ≡ true)

module _ {S : Type 0} (os : Calls S) (fs : Inodes S) (laws : Lawful os fs) (var_root home : Place)
    (start : S) where
  AreRead_lem :
      (lines : List (Option Text)) (x : Verdict × S × OwnershipOutcome) {o : OwnershipOutcome}
      → (repair_lines os false var_root home lines x).1 ≡ ok o
      → AreRead lines
  unfolding repair_lines
  AreRead_lem [] x e = tt
  AreRead_lem (none ∷ lines) x e = cc
  AreRead_lem (some line ∷ lines) x {o} e =
      (refl, AreRead_lem lines (next_line os false var_root home line x) {o = o} e)

  repair_at-idle :
      (r : IdentityRecord) (s : S) (p : Place) (within : Bool) (out : OwnershipOutcome)
      → ((i : ℕ) → within ≡ true → fs.inode s p ≡ some i → Matches r (fs.stat s i))
      → (o : OwnershipOutcome) × (repair_at os false r p within (s, out) ≡ (s, o))
        × SameReport out o
  unfolding repair_at repair_found repair_present changed
  repair_at-idle r s p false out h = (record out { refused = out.refused + 1 }, refl, (refl, refl))
  repair_at-idle r s p true out h = elim (Option-cases (fs.inode s p)) [
    | inl gone ↦ (
      record out { missing = out.missing + 1 },
      rw (laws.lstat s p ∙ ap (Option.map (fs.stat s)) gone) refl,
      (refl, refl),
    )
    | inr (i, here) ↦ (
      out,
      rw
          (
            laws.lstat s p ∙ ap (Option.map (fs.stat s)) here,
            (is_clean-iff-Matches r (fs.stat s i)).1 (h i refl here),
          )
          refl,
      (refl, refl),
    )
  ]

  repair_record-idle :
      (r : IdentityRecord) (last : Verdict) (s : S) (out : OwnershipOutcome)
      → IsKnown os var_root home start last
      → IsShaped var_root r
      → IsLike os fs laws var_root home start s
      → ((i : ℕ) → IsCovered os fs laws var_root home start r i → Matches r (fs.stat s i))
      → (next : Verdict) × (o : OwnershipOutcome) × (repair_record os false var_root home r last
            (s, out)
          ≡ (next, s, o))
        × IsKnown os var_root home start next
        × SameReport out o
  unfolding repair_record changed
  repair_record-idle r last s out known shaped like fits =
      let seen = inside os var_root home start r in
      let as_seen : verdict last (directory var_root r)
            (is_inside os home r (directory var_root r) s)
          ≡ seen =
        ap (verdict last (directory var_root r))
          (inside_now os fs laws var_root home start r s like)
        ∙ verdict_lem os var_root home start last r known shaped in
      let (o, same, report) =
        repair_at-idle r s (place var_root r) seen (record out { records = out.records + 1 })
          (λ i in_home here. fits i (in_home, sym (like.0 (place var_root r)) ∙ here)) in
      (
        remember last (directory var_root r) seen,
        o,
        rw as_seen (ap (λ x. (remember last (directory var_root r) seen, x.0, x.1)) same),
        remember-IsKnown os var_root home start last r known shaped,
        report,
      )

  -- A loop over records whose entries are all as the manifest has them.
  repair_lines-idle :
      (lines : List (Option Text)) (last : Verdict) (s : S) (out : OwnershipOutcome)
      → AreRead lines
      → IsKnown os var_root home start last
      → ((r : IdentityRecord) → Memᴰ r (records_of lines) → IsShaped var_root r)
      → IsLike os fs laws var_root home start s
      → ((r : IdentityRecord) (i : ℕ)
          → Memᴰ r (records_of lines)
          → IsCovered os fs laws var_root home start r i
          → Matches r (fs.stat s i))
      → (o : OwnershipOutcome) × (repair_lines os false var_root home lines (last, s, out)
          ≡ (s, ok o))
        × SameReport out o
  unfolding repair_lines push_some
  repair_lines-idle [] last s out read known shaped like fits = (out, refl, (refl, refl))
  repair_lines-idle (none ∷ lines) last s out (read, _) known shaped like fits = cc
  repair_lines-idle (some line ∷ lines) last s out (_, read) known shaped like fits =
      elim (Option-cases (parse_record line)) [
        | inl malformed ↦
            let (o, next, quiet, counted) =
              next_line-none os fs laws var_root home start line last s out malformed in
            let (o', rest, (counts, errors)) =
              repair_lines-idle lines last s o read known (λ r m. shaped r (rw malformed m)) like
                (λ r i m. fits r i (rw malformed m)) in
            (
              o',
              ap (repair_lines os false var_root home lines) next ∙ rest,
              (counts ∙ counted, errors ∙ quiet),
            )
        | inr (r, parsed) ↦
            let (seen, o, same, still_known, (counted, quiet)) =
              repair_record-idle r last s out known (shaped r (rw parsed (Memᴰ.head refl))) like
                (λ i. fits r i (rw parsed (Memᴰ.head refl))) in
            let (o', rest, (counts, errors)) =
              repair_lines-idle lines seen s o read still_known
                (λ q m. shaped q (rw parsed (Memᴰ.tail m))) like
                (λ q i m. fits q i (rw parsed (Memᴰ.tail m))) in
            (
              o',
              ap (repair_lines os false var_root home lines)
                    (next_line-some os fs laws var_root home start line last s out r parsed ∙ same)
                  ∙ rest,
              (counts ∙ counted, errors ∙ quiet),
            )
      ]

  Trace-IsLike :
      (rs : List IdentityRecord) (x y : S × List Text)
      → IsLike os fs laws var_root home start x.0
      → Trace os fs laws var_root home start rs x y
      → IsLike os fs laws var_root home start y.0
  Trace-IsLike [] x y like (still, _) =
      subst (IsLike os fs laws var_root home start) (sym still) like
  Trace-IsLike (r ∷ rs) x y like (mid, first, rest) =
      Trace-IsLike rs mid y (Handled-IsLike os fs laws var_root home start r x mid like first) rest

-- After a pass that reports no error, under the conditions in which it restores every entry, a second pass over the same manifest succeeds, changes nothing on the disk, counts no change and reports no error.
pub repair_ownership-again :
    {S : Type 0} (os : Calls S) (fs : Inodes S) (laws : Lawful os fs) (var_root home : Place)
    (manifest : Text) (lines : List (Option Text)) (start : S) {t : S} {out : OwnershipOutcome}
    → os.open_lines start manifest ≡ some lines
    → os.open_lines t manifest ≡ some lines
    → os.canonicalize start (var_root ++ home_dir) ≡ some home
    → ((r : IdentityRecord) → Memᴰ r (records_of lines) → IsShaped var_root r)
    → AreConsistent os fs laws var_root home start (records_of lines)
    → repair_ownership os var_root manifest false start ≡ (t, ok out)
    → out.errors ≡ []
    → (o : OwnershipOutcome) × (repair_ownership os var_root manifest false t ≡ (t, ok o))
      × (changed o ≡ 0)
      × (o.errors ≡ [])
unfolding changed
repair_ownership-again os fs laws var_root home manifest lines start {t} {out} opened reopened
      resolved shaped fits runs quiet =
    let result = repair_lines os false var_root home lines (none, start, no_outcome) in
    let same : result ≡ (t, ok out) =
      sym (opened_pass os var_root home manifest false lines start opened resolved) ∙ runs in
    let (more, trace, log) = trace_pass os fs laws var_root home start lines shaped in
    let like : IsLike os fs laws var_root home start t =
      subst (IsLike os fs laws var_root home start) (ap (λ x. x.0) same) (
        Trace-IsLike os fs laws var_root home start (records_of lines) (start, []) (result.0, more)
          (λ p. refl, λ p. refl) trace) in
    let restored =
      repair_ownership-restores os fs laws var_root home manifest lines start opened resolved shaped
        fits runs quiet in
    let (o, idle, (counts, errors)) =
      repair_lines-idle os fs laws var_root home start lines none t no_outcome
        (AreRead_lem os fs laws var_root home start lines (none, start, no_outcome) {o = out}
          (ap (λ x. x.1) same))
        tt shaped like (λ r i m (in_home, named). restored.0 r i m in_home named) in
    (
      o,
      opened_pass os var_root home manifest false lines t reopened
            (like.1 (var_root ++ home_dir) ∙ resolved)
          ∙ idle,
      counts,
      errors,
    )
