-- ===== src/FirstbootRepair/Pass.antt =====
-- The ownership pass as a whole: what it restores, what it leaves alone, and the bounds of its log.
use bootc_migrate.Prelude.{
  ℕ, ◌≡◌, refl, sym, ap, ◌∙◌, subst, ◌≢◌, ◌⊎◌, inl, inr, Bool, true, false, Option, none, some,
  List, [], ◌∷◌, ◌++◌, ◌==◌, ==_iff, Bool-cases, ok,
}
use mathlib.Core.Bool.{true≢false}
use mathlib.Core.Option.{some-injective}
use mathlib.Core.List.{Memᴰ}
use bootc_migrate.Text.{Text}
use bootc_migrate.FirstbootRepair.Records.{IdentityRecord}
use bootc_migrate.FirstbootRepair.Ownership.{
  Place, Metadata, OwnershipOutcome, Calls, home_dir, repair_lines, repair_resolved, repair_opened,
  repair_ownership, no_outcome,
}
use bootc_migrate.FirstbootRepair.Laws.{perm, Inodes, Lawful, Matches}
use bootc_migrate.FirstbootRepair.Steps.{Modes}
use bootc_migrate.FirstbootRepair.Cache.{place, IsShaped, inside}
use bootc_migrate.FirstbootRepair.Restored.{
  records_of, IsCovered, Handled, Trace, Traced, trace_lines,
}

-- Two records say the same of an entry.
abbrev pub Agree : IdentityRecord → IdentityRecord → Type 0
Agree q r =
    (q.uid ≡ r.uid) × (q.gid ≡ r.gid) × (q.mtime_sec ≡ r.mtime_sec) × (q.mtime_nsec ≡ r.mtime_nsec)

agree : (q r : IdentityRecord) (m : Metadata) → Agree q r → Matches r m → Matches q m
agree q r m (a, b, c, d) (u, g, s, n) = (u ∙ sym a, g ∙ sym b, s ∙ sym c, n ∙ sym d)

module _ {S : Type 0} (os : Calls S) (fs : Inodes S) (laws : Lawful os fs) (var_root home : Place)
    (start : S) where
  abbrev Covers : IdentityRecord → ℕ → Type 0
  Covers r i = IsCovered os fs laws var_root home start r i

  abbrev Runs : List IdentityRecord → S × List Text → S × List Text → Type 0
  Runs rs x y = Trace os fs laws var_root home start rs x y

  same_or_other : (i j : ℕ) → (i ≡ j) ⊎ (j ≢ i)
  same_or_other i j = elim (Bool-cases (i == j)) [
    | inl same ↦ inl ((==_iff i j).0 same)
    | inr other ↦ inr (λ e. true≢false (sym ((==_iff i j).1 (sym e)) ∙ other))
  ]

  Handled-quiet :
      (r : IdentityRecord) (x y : S × List Text)
      → Handled os fs laws var_root home start r x y
      → y.1 ≡ []
      → x.1 ≡ []
  Handled-quiet r x y (inl (_, same, _)) quiet = sym same ∙ quiet
  Handled-quiet r x y (inr (i, _, (_, after))) quiet = (after quiet).0

  Trace-quiet : (rs : List IdentityRecord) (x y : S × List Text) → Runs rs x y → y.1 ≡ [] → x.1 ≡ []
  Trace-quiet [] x y (_, same) quiet = sym same ∙ quiet
  Trace-quiet (r ∷ rs) x y (mid, first, rest) quiet =
      Handled-quiet r x mid first (Trace-quiet rs mid y rest quiet)

  -- An entry that no record covers stays as it is.
  Trace-frame :
      (rs : List IdentityRecord) (x y : S × List Text) (j : ℕ)
      → ((r : IdentityRecord) → Memᴰ r rs → Covers r j → ⊥)
      → Runs rs x y
      → fs.stat y.0 j ≡ fs.stat x.0 j
  Trace-frame [] x y j apart (still, _) = ap (λ s. fs.stat s j) still
  Trace-frame (r ∷ rs) x y j apart (mid, first, rest) =
      Trace-frame rs mid y j (λ q m. apart q (Memᴰ.tail m)) rest ∙ one first
    where
      one : Handled os fs laws var_root home start r x mid → fs.stat mid.0 j ≡ fs.stat x.0 j
      one (inl (still, _, _)) = ap (λ s. fs.stat s j) still
      one (inr (i, covered, ((_, _, others), _))) = elim (same_or_other i j) [
        | inl same ↦ absurd (apart r (Memᴰ.head refl) (subst (λ k. Covers r k) same covered))
        | inr other ↦ others j other
      ]

  -- What an entry has of a record, later records that agree leave it.
  Trace-keeps :
      (rs : List IdentityRecord) (x y : S × List Text) (q : IdentityRecord) (i : ℕ)
      → ((r : IdentityRecord) → Memᴰ r rs → Covers r i → Agree q r)
      → Runs rs x y
      → y.1 ≡ []
      → Matches q (fs.stat x.0 i)
      → Matches q (fs.stat y.0 i)
  Trace-keeps [] x y q i agrees (still, _) quiet h =
      subst (λ s. Matches q (fs.stat s i)) (sym still) h
  Trace-keeps (r ∷ rs) x y q i agrees (mid, first, rest) quiet h =
      Trace-keeps rs mid y q i (λ p m. agrees p (Memᴰ.tail m)) rest quiet (one first)
    where
      one : Handled os fs laws var_root home start r x mid → Matches q (fs.stat mid.0 i)
      one (inl (still, _, _)) = subst (λ s. Matches q (fs.stat s i)) (sym still) h
      one (inr (j, covered, ((_, _, others), after))) = elim (same_or_other j i) [
        | inl same ↦
            subst (λ k. Matches q (fs.stat mid.0 k)) same
              (agree q r (fs.stat mid.0 j)
                (agrees r (Memᴰ.head refl) (subst (λ k. Covers r k) same covered))
                (after (Trace-quiet rs mid y rest quiet)).1)
        | inr other ↦ subst (λ m. Matches q m) (sym (others i other)) h
      ]

  -- Records that cover one entry agree.
  abbrev pub AreConsistent : List IdentityRecord → Type 0
  AreConsistent rs =
      (q r : IdentityRecord) (i : ℕ) → Memᴰ q rs → Memᴰ r rs → Covers q i → Covers r i → Agree q r

  Trace-Matches :
      (rs : List IdentityRecord) (x y : S × List Text) (q : IdentityRecord) (i : ℕ)
      → AreConsistent rs
      → Runs rs x y
      → y.1 ≡ []
      → Memᴰ q rs
      → Covers q i
      → Matches q (fs.stat y.0 i)
  Trace-Matches [] x y q i fits _ quiet m c = elim m [ ]
  Trace-Matches (r ∷ rs) x y q i fits (mid, first, rest) quiet (Memᴰ.tail m) c =
      Trace-Matches rs mid y q i (λ p p' k a b. fits p p' k (Memᴰ.tail a) (Memᴰ.tail b)) rest quiet
        m c
  Trace-Matches (r ∷ rs) x y q i fits (mid, first, rest) quiet (Memᴰ.head e) c =
      Trace-keeps rs mid y q i (λ p m. fits q p i (Memᴰ.head e) (Memᴰ.tail m) c) rest quiet
        (one first)
    where
      one : Handled os fs laws var_root home start r x mid → Matches q (fs.stat mid.0 i)
      one (inl (_, _, none_covered)) = absurd (none_covered i (subst (λ p. Covers p i) e c))
      one (inr (j, covered, (_, after))) =
          let same = some-injective _ _ (sym covered.1 ∙ (subst (λ p. Covers p i) e c).1) in
          subst (λ k. Matches q (fs.stat mid.0 k)) same
            (subst (λ p. Matches p (fs.stat mid.0 j)) (sym e)
              (after (Trace-quiet rs mid y rest quiet)).1)

  -- Where every change of a mode succeeds, no entry's permission bits differ afterwards.
  Trace-perm :
      (rs : List IdentityRecord) (x y : S × List Text) (j : ℕ)
      → Modes os fs laws
      → Runs rs x y
      → y.1 ≡ []
      → perm (fs.stat y.0 j) ≡ perm (fs.stat x.0 j)
  Trace-perm [] x y j modes (still, _) quiet = ap (λ s. perm (fs.stat s j)) still
  Trace-perm (r ∷ rs) x y j modes (mid, first, rest) quiet =
      Trace-perm rs mid y j modes rest quiet ∙ one first
    where
      one :
          Handled os fs laws var_root home start r x mid
          → perm (fs.stat mid.0 j) ≡ perm (fs.stat x.0 j)
      one (inl (still, _, _)) = ap (λ s. perm (fs.stat s j)) still
      one (inr (i, covered, ((_, _, others), after))) = elim (same_or_other i j) [
        | inl same ↦
            subst (λ k. perm (fs.stat mid.0 k) ≡ perm (fs.stat x.0 k)) same
              ((after (Trace-quiet rs mid y rest quiet)).2 modes)
        | inr other ↦ ap perm (others j other)
      ]

  -- The loop, from its start.
  pub trace_pass :
      (lines : List (Option Text))
      → ((r : IdentityRecord) → Memᴰ r (records_of lines) → IsShaped var_root r)
      → Traced os fs laws var_root home start
          (records_of lines)
          (start, [])
          (repair_lines os false var_root home lines (none, start, no_outcome))
  trace_pass lines shaped =
      trace_lines os fs laws var_root home start lines none start no_outcome tt shaped
        (λ p. refl, λ p. refl)

pub opened_pass :
    {S : Type 0} (os : Calls S) (var_root home : Place) (manifest : Text) (dry_run : Bool)
    (lines : List (Option Text)) (s : S)
    → os.open_lines s manifest ≡ some lines
    → os.canonicalize s (var_root ++ home_dir) ≡ some home
    → repair_ownership os var_root manifest dry_run s
      ≡ repair_lines os dry_run var_root home lines (none, s, no_outcome)
unfolding repair_ownership repair_opened repair_resolved
opened_pass os var_root home manifest dry_run lines s opened resolved =
    ap (λ o. repair_opened os dry_run var_root o s) opened
    ∙ ap (λ h. repair_resolved os dry_run var_root lines h s) resolved

-- When the manifest and the home directory can be opened, every record lies below the home directory's parent by more than one name or is the home directory's, and records of one file agree, then a pass that reports no error leaves every file that a record names, inside the home directory, with that record's owner, group and time; and, where changes of a mode succeed, every file with the permission bits it had.
pub repair_ownership-restores :
    {S : Type 0} (os : Calls S) (fs : Inodes S) (laws : Lawful os fs) (var_root home : Place)
    (manifest : Text) (lines : List (Option Text)) (start : S) {t : S} {out : OwnershipOutcome}
    → os.open_lines start manifest ≡ some lines
    → os.canonicalize start (var_root ++ home_dir) ≡ some home
    → ((r : IdentityRecord) → Memᴰ r (records_of lines) → IsShaped var_root r)
    → AreConsistent os fs laws var_root home start (records_of lines)
    → repair_ownership os var_root manifest false start ≡ (t, ok out)
    → out.errors ≡ []
    → ((r : IdentityRecord) (i : ℕ)
        → Memᴰ r (records_of lines)
        → inside os var_root home start r ≡ true
        → fs.inode start (place var_root r) ≡ some i
        → Matches r (fs.stat t i))
      × (Modes os fs laws → (i : ℕ) → perm (fs.stat t i) ≡ perm (fs.stat start i))
repair_ownership-restores os fs laws var_root home manifest lines start {t} {out} opened resolved
      shaped fits runs quiet =
    let result = repair_lines os false var_root home lines (none, start, no_outcome) in
    let same : result ≡ (t, ok out) =
      sym (opened_pass os var_root home manifest false lines start opened resolved) ∙ runs in
    let (more, trace, log) = trace_pass os fs laws var_root home start lines shaped in
    let no_errors : more ≡ [] = sym (log out (ap (λ x. x.1) same)) ∙ quiet in
    let at_end : result.0 ≡ t = ap (λ x. x.0) same in
    (
      λ r i m in_home named.
          subst (λ s. Matches r (fs.stat s i)) at_end
            (Trace-Matches os fs laws var_root home start (records_of lines) (start, [])
              (result.0, more) r i fits trace no_errors m (in_home, named)),
      λ modes i.
          subst (λ s. perm (fs.stat s i) ≡ perm (fs.stat start i)) at_end
            (Trace-perm os fs laws var_root home start (records_of lines) (start, [])
              (result.0, more) i modes trace no_errors),
    )

-- However the pass ends, errors included, a file that no record of the manifest names inside the home directory keeps its owner, group, mode and time, when the manifest and the home directory can be opened and every record is the home directory's or lies below the root by more than one name.
pub repair_ownership-frame :
    {S : Type 0} (os : Calls S) (fs : Inodes S) (laws : Lawful os fs) (var_root home : Place)
    (manifest : Text) (lines : List (Option Text)) (start : S) (i : ℕ)
    → os.open_lines start manifest ≡ some lines
    → os.canonicalize start (var_root ++ home_dir) ≡ some home
    → ((r : IdentityRecord) → Memᴰ r (records_of lines) → IsShaped var_root r)
    → ((r : IdentityRecord)
        → Memᴰ r (records_of lines)
        → inside os var_root home start r ≡ true
        → fs.inode start (place var_root r) ≢ some i)
    → fs.stat (repair_ownership os var_root manifest false start).0 i ≡ fs.stat start i
repair_ownership-frame os fs laws var_root home manifest lines start i opened resolved shaped
      apart =
    let (more, trace, log) = trace_pass os fs laws var_root home start lines shaped in
    ap (λ x. fs.stat x.0 i)
      (opened_pass os var_root home manifest false lines start opened resolved)
    ∙ Trace-frame os fs laws var_root home start (records_of lines) (start, []) _ i
        (λ r m (in_home, named). apart r m in_home named) trace
