-- ===== src/FirstbootRepair/Restored.antt =====
-- The whole ownership pass: what it changes, and what holds of every record when it is done.
use bootc_migrate.Prelude.{
  ℕ, ◌+◌, ◌≡◌, refl, sym, ap, ◌∙◌, subst, ◌⊎◌, inl, inr, true, false, Option, none, some, List, [],
  ◌∷◌, Bool-cases, Option-cases, push_some, Result, ok, ok-inj,
}
use mathlib.Core.Option.{none-ne-some}
use mathlib.Core.List.{Memᴰ}
use bootc_migrate.Text.{Text, is_empty}
use bootc_migrate.FirstbootRepair.Records.{IdentityRecord, parse_record}
use bootc_migrate.FirstbootRepair.Ownership.{
  Place, OwnershipOutcome, Calls, Verdict, verdict, is_inside, repair_at, repair_record,
  repair_parsed, next_line, repair_lines, RepairError, changed,
}
use bootc_migrate.FirstbootRepair.Laws.{Inodes, Lawful}
use bootc_migrate.FirstbootRepair.Steps.{Repaired, repair_at_lem}
use bootc_migrate.FirstbootRepair.Cache.{
  place, directory, IsShaped, inside, IsKnown, verdict_lem, remember-IsKnown,
}

-- The records of a manifest, up to a line that cannot be read.
abbrev pub records_of : List (Option Text) → List IdentityRecord
records_of [] = []
records_of (none ∷ lines) = []
records_of (some line ∷ lines) = push_some (parse_record line) (records_of lines)

module _ {S : Type 0} (os : Calls S) (fs : Inodes S) (laws : Lawful os fs) (var_root home : Place)
    (start : S) where
  -- Paths are resolved as they were at the start.
  abbrev pub IsLike : S → Type 0
  IsLike s =
      ((p : Place) → fs.inode s p ≡ fs.inode start p)
      × ((p : Place) → os.canonicalize s p ≡ os.canonicalize start p)

  -- The record is one that the pass may act on.
  abbrev pub IsCovered : IdentityRecord → ℕ → Type 0
  IsCovered r i =
      (inside os var_root home start r ≡ true) × (fs.inode start (place var_root r) ≡ some i)

  -- One record of the manifest: nothing changes, or its entry is repaired.
  abbrev pub Handled : IdentityRecord → S × List Text → S × List Text → Type 0
  Handled r (s, errors) (t, more) =
      (t ≡ s) × (more ≡ errors) × ((i : ℕ) → IsCovered r i → ⊥)
      ⊎ ((i : ℕ) × IsCovered r i × Repaired os fs laws r i (s, errors) (t, more))

  pub inside_now :
      (r : IdentityRecord) (s : S)
      → IsLike s
      → is_inside os home r (directory var_root r) s ≡ inside os var_root home start r
  unfolding is_inside
  inside_now r s (same, resolved) = rw (resolved (directory var_root r))

  repair_record_lem :
      (r : IdentityRecord) (last : Verdict) (s : S) (out : OwnershipOutcome)
      → IsKnown os var_root home start last
      → IsShaped var_root r
      → IsLike s
      → let (next, t, o) = repair_record os false var_root home r last (s, out) in
        IsKnown os var_root home start next × Handled r (s, out.errors) (t, o.errors)
  unfolding repair_record
  repair_record_lem r last s out known shaped like =
      let seen = inside os var_root home start r in
      let as_seen : verdict last (directory var_root r)
            (is_inside os home r (directory var_root r) s)
          ≡ seen =
        ap (verdict last (directory var_root r)) (inside_now r s like)
        ∙ verdict_lem os var_root home start last r known shaped in
      rw as_seen (remember-IsKnown os var_root home start last r known shaped, handled)
    where
      handled :
          let (t, o) =
            repair_at os false r
              (place var_root r)
              (inside os var_root home start r)
              (s, record out { records = out.records + 1 }) in
          Handled r (s, out.errors) (t, o.errors)
      handled =
          elim (repair_at_lem os fs laws r s (place var_root r) (inside os var_root home start r)
            (record out { records = out.records + 1 })) [
              | inl (still, quiet, gone) ↦ inl (
                still,
                quiet,
                λ i (at, named).
                    none-ne-some i (sym (gone at) ∙ (like.0 (place var_root r) ∙ named)),
              )
              | inr (in_home, (i, here, repaired)) ↦
                  inr (i, (in_home, sym (like.0 (place var_root r)) ∙ here), repaired)
            ]

  abbrev pub Trace : List IdentityRecord → S × List Text → S × List Text → Type 0
  Trace [] (s, errors) (t, more) = (t ≡ s) × (more ≡ errors)
  Trace (r ∷ rs) x y = (mid : S × List Text) × Handled r x mid × Trace rs mid y

  -- A run of the loop and the log it ends with.
  abbrev pub Traced :
      List IdentityRecord → S × List Text → S × Result RepairError OwnershipOutcome → Type 0
  Traced rs x (t, result) =
      (more : List Text) × Trace rs x (t, more)
      × ((o : OwnershipOutcome) → result ≡ ok o → o.errors ≡ more)

  pub Handled-IsLike :
      (r : IdentityRecord) (x y : S × List Text) → IsLike x.0 → Handled r x y → IsLike y.0
  Handled-IsLike r (s, errors) (t, more) like (inl (still, _, _)) = subst IsLike (sym still) like
  Handled-IsLike r (s, errors) (t, more) like (inr (i, _, ((same, resolved, _), _))) =
      (λ p. same p ∙ like.0 p, λ p. resolved p ∙ like.1 p)

  parse_record-empty : (line : Text) → is_empty line ≡ true → parse_record line ≡ none
  unfolding parse_record
  parse_record-empty [] h = refl
  parse_record-empty (b ∷ line) h = cc

  pub next_line-none :
      (line : Text) (last : Verdict) (s : S) (out : OwnershipOutcome)
      → parse_record line ≡ none
      → (o : OwnershipOutcome) × (next_line os false var_root home line (last, s, out)
          ≡ (last, s, o))
        × (o.errors ≡ out.errors)
        × (changed o ≡ changed out)
  unfolding next_line repair_parsed changed
  next_line-none line last s out malformed = elim (Bool-cases (is_empty line)) [
    | inl empty ↦ (out, rw empty refl, refl, refl)
    | inr filled ↦
        (record out { malformed = out.malformed + 1 }, rw (filled, malformed) refl, refl, refl)
  ]

  pub next_line-some :
      (line : Text) (last : Verdict) (s : S) (out : OwnershipOutcome) (r : IdentityRecord)
      → parse_record line ≡ some r
      → next_line os false var_root home line (last, s, out)
        ≡ repair_record os false var_root home r last (s, out)
  unfolding next_line repair_parsed
  next_line-some line last s out r parsed = elim (Bool-cases (is_empty line)) [
    | inl empty ↦ absurd (none-ne-some r (sym (parse_record-empty line empty) ∙ parsed))
    | inr filled ↦ rw (filled, parsed) refl
  ]

  pass_from :
      List (Option Text) → Verdict × S × OwnershipOutcome → S × Result RepairError OwnershipOutcome
  pass_from = repair_lines os false var_root home

  -- A run from a state, for the state and the records that it is known to be.
  moved :
      (parsed : Option IdentityRecord) (rest rs : List IdentityRecord) (lines : List (Option Text))
      (e : S × List Text) (x y : Verdict × S × OwnershipOutcome)
      → push_some parsed rest ≡ rs
      → x ≡ y
      → Traced rs e (pass_from lines y)
      → Traced (push_some parsed rest) e (pass_from lines x)
  moved parsed rest rs lines e x y p q t =
      subst (λ z. Traced (push_some parsed rest) e (pass_from lines z)) (sym q)
        (subst (λ z. Traced z e (pass_from lines y)) (sym p) t)

  pub trace_lines :
      (lines : List (Option Text)) (last : Verdict) (s : S) (out : OwnershipOutcome)
      → IsKnown os var_root home start last
      → ((r : IdentityRecord) → Memᴰ r (records_of lines) → IsShaped var_root r)
      → IsLike s
      → Traced
          (records_of lines)
          (s, out.errors)
          (repair_lines os false var_root home lines (last, s, out))
  unfolding repair_lines push_some pass_from
  trace_lines [] last s out known shaped like =
      (out.errors, (refl, refl), λ o e. ap (λ x. x.errors) (sym (ok-inj e)))
  trace_lines (none ∷ lines) last s out known shaped like = (out.errors, (refl, refl), λ o e. cc)
  trace_lines (some line ∷ lines) last s out known shaped like =
      elim (Option-cases (parse_record line)) [
        | inl malformed ↦
            let (o, next, quiet, _) = next_line-none line last s out malformed in
            moved (parse_record line) (records_of lines) (records_of lines) lines (s, out.errors) _
              (last, s, o) (rw malformed refl) next
              (subst (λ es. Traced (records_of lines) (s, es) (pass_from lines (last, s, o))) quiet
                (trace_lines lines last s o known (λ r m. shaped r (rw malformed m)) like))
        | inr (r, parsed) ↦
            let next = repair_record os false var_root home r last (s, out) in
            let (still_known, handled) =
              repair_record_lem r last s out known (shaped r (rw parsed (Memᴰ.head refl))) like in
            let (more, trace, log) =
              trace_lines lines next.0 next.1 next.2 still_known
                (λ q m. shaped q (rw parsed (Memᴰ.tail m)))
                (Handled-IsLike r (s, out.errors) (next.1, next.2.errors) like handled) in
            moved (parse_record line) (records_of lines) (r ∷ records_of lines) lines
              (s, out.errors) _ next (rw parsed refl) (next_line-some line last s out r parsed)
              (more, ((next.1, next.2.errors), handled, trace), log)
      ]
