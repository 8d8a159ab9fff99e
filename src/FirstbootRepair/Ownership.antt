-- ===== src/FirstbootRepair/Ownership.antt =====
-- The ownership pass of firstboot_repair.rs: what differs from the manifest, and its repair.
-- A path is the list of its components, which is how `Path` compares.
use bootc_migrate.Prelude.{
  ℕ, ◌+◌, ◌%◌, Bool, true, false, ◌&&◌, ◌||◌, not, Option, none, some, List, [], ◌∷◌, ◌++◌, ltb,
  leb, ◌==◌, if◌then◌else◌, is_some, is_none, is_some_and, length, Result, ok, err,
}
use bootc_migrate.Text.{Text, codes, lines, is_empty}
use mathlib.Core.Option
use bootc_migrate.Etc.Symlinks.{Component, root_dir, normal, components}
use bootc_migrate.InstallCommit.Paths.{same_component, components_start_with}
use bootc_migrate.FirstbootRepair.Signed.{ℤ, eq_ℤ}
use bootc_migrate.FirstbootRepair.Records.{IdentityRecord, parse_record}

abbrev pub Place : Type 0
Place = List Component

pub record Drift : Type 0 where
  pub chown : Option (ℕ × ℕ)
  pub mtime : Option (ℤ × ℤ)

-- What `lstat` shows of an entry.
pub record Metadata : Type 0 where
  pub uid : ℕ
  pub gid : ℕ
  pub mode : ℕ
  pub mtime_sec : ℤ
  pub mtime_nsec : ℤ
  pub is_symlink : Bool

pub record OwnershipOutcome : Type 0 where
  pub records : ℕ
  pub missing : ℕ
  pub rechowned : ℕ
  pub retimed : ℕ
  pub refused : ℕ
  pub malformed : ℕ
  pub errors : List Text

unfoldable pub is_clean : Drift → Bool
is_clean d = is_none d.chown && is_none d.mtime

unfoldable pub drift : IdentityRecord → ℕ → ℕ → ℤ → ℤ → Drift
unfolding eq_ℤ
drift r uid gid sec nsec = record {
  chown = if not (uid == r.uid) || not (gid == r.gid) then some (r.uid, r.gid) else none;
  mtime =
      if not (eq_ℤ sec r.mtime_sec) || not (eq_ℤ nsec r.mtime_nsec)
      then some (r.mtime_sec, r.mtime_nsec)
      else none;
}

unfoldable pub changed : OwnershipOutcome → ℕ
changed o = o.rechowned + o.retimed

-- The first 20 errors, then a notice.
unfoldable pub push_error : List Text → Text → List Text
push_error errors line =
    if ltb (length errors) 20
    then errors ++ (line ∷ [])
    else if length errors == 20
    then errors ++ (codes "further errors omitted" ∷ [])
    else errors

abbrev pub no_outcome : OwnershipOutcome
no_outcome = record {
  records = 0;
  missing = 0;
  rechowned = 0;
  retimed = 0;
  refused = 0;
  malformed = 0;
  errors = [];
}

-- The calls of the operating system. Each that may fail gives the line of the log for its error;
-- a manifest is read line by line, and a read may fail between two lines.
pub record Calls (S : Type 0) : Type 0 where
  pub open_lines : S → Text → Option (List (Option Text))
  pub canonicalize : S → Place → Option Place
  pub symlink_metadata : S → Place → Option Metadata
  pub chownat : S → Place → ℕ → ℕ → S × Option Text
  pub chmodat : S → Place → ℕ → S × Bool
  pub utimensat : S → Place → ℤ → ℤ → S × Option Text

-- `Path::parent`
unfoldable pub parent : Place → Option Place
parent [] = none
parent (root_dir ∷ []) = none
parent (c ∷ []) = some []
parent (c ∷ d ∷ cs) = Option.map (λ p. c ∷ p) (parent (d ∷ cs))

abbrev pub unwrap_or : Option Place → Place → Place
unwrap_or none p = p
unwrap_or (some q) p = q

unfoldable pub parent_or : Place → Place → Place
unfolding parent
parent_or path root = unwrap_or (parent path) root

-- `==` on paths.
unfoldable pub same_place : Place → Place → Bool
unfolding same_component
same_place [] [] = true
same_place [] (d ∷ ds) = false
same_place (c ∷ cs) [] = false
same_place (c ∷ cs) (d ∷ ds) = same_component c d && same_place cs ds

abbrev pub home_dir : Place
home_dir = normal (codes "home") ∷ []

-- The verdict on the last parent.
abbrev pub Verdict : Type 0
Verdict = Option (Place × Bool)

unfoldable pub verdict : Verdict → Place → Bool → Bool
unfolding same_place
verdict none here fresh = fresh
verdict (some (p, inside)) here fresh = if same_place p here then inside else fresh

unfoldable pub remember : Verdict → Place → Bool → Verdict
unfolding same_place
remember none here inside = some (here, inside)
remember (some (p, seen)) here inside =
    if same_place p here then some (p, seen) else some (here, inside)

unfoldable pub count : Bool → ℕ
count b = if b then 1 else 0

unfoldable pub count_drift : Drift → OwnershipOutcome → OwnershipOutcome
unfolding count
count_drift d out = record out {
  rechowned = out.rechowned + count (is_some d.chown);
  retimed = out.retimed + count (is_some d.mtime);
}

pub data RepairError : Type 0 where
  open_failed unresolved_home read_failed : RepairError

module _ {S : Type 0} (os : Calls S) where
  -- The mode of the entry is put back where the change of its owner took bits from it.
  unfoldable pub restore_mode : Place → Metadata → S → S
  restore_mode path before s =
      if not before.is_symlink && leb 1024 (before.mode % 4096)
      then elim (os.symlink_metadata s path) [
        | none ↦ s
        | some after ↦
            if after.mode % 4096 == before.mode % 4096
            then s
            else (os.chmodat s path (before.mode % 4096)).0
      ]
      else s

  unfoldable pub chown_result :
      Place → Metadata → OwnershipOutcome → S × Option Text → S × OwnershipOutcome
  unfolding restore_mode
  chown_result path before out (s, none) =
      (restore_mode path before s, record out { rechowned = out.rechowned + 1 })
  chown_result path before out (s, some line) =
      (s, record out { errors = push_error out.errors line })

  unfoldable pub apply_chown :
      Place → Metadata → Option (ℕ × ℕ) → S × OwnershipOutcome → S × OwnershipOutcome
  unfolding chown_result
  apply_chown path before none (s, out) = (s, out)
  apply_chown path before (some (uid, gid)) (s, out) =
      chown_result path before out (os.chownat s path uid gid)

  unfoldable pub mtime_result : OwnershipOutcome → S × Option Text → S × OwnershipOutcome
  mtime_result out (s, none) = (s, record out { retimed = out.retimed + 1 })
  mtime_result out (s, some line) = (s, record out { errors = push_error out.errors line })

  unfoldable pub apply_mtime : Place → Option (ℤ × ℤ) → S × OwnershipOutcome → S × OwnershipOutcome
  unfolding mtime_result
  apply_mtime path none (s, out) = (s, out)
  apply_mtime path (some (sec, nsec)) (s, out) = mtime_result out (os.utimensat s path sec nsec)

  unfoldable pub repair_present :
      Bool → IdentityRecord → Place → Metadata → S × OwnershipOutcome → S × OwnershipOutcome
  unfolding drift is_clean count_drift apply_chown apply_mtime
  repair_present dry_run r path meta (s, out) =
      let d = drift r meta.uid meta.gid meta.mtime_sec meta.mtime_nsec in
      if is_clean d
      then (s, out)
      else if dry_run
      then (s, count_drift d out)
      else apply_mtime path d.mtime (apply_chown path meta d.chown (s, out))

  unfoldable pub repair_found :
      Bool → IdentityRecord → Place → Option Metadata → S × OwnershipOutcome → S × OwnershipOutcome
  unfolding repair_present
  repair_found dry_run r path none (s, out) = (s, record out { missing = out.missing + 1 })
  repair_found dry_run r path (some meta) (s, out) = repair_present dry_run r path meta (s, out)

  unfoldable pub repair_at :
      Bool → IdentityRecord → Place → Bool → S × OwnershipOutcome → S × OwnershipOutcome
  unfolding repair_found
  repair_at dry_run r path inside (s, out) =
      if inside
      then repair_found dry_run r path (os.symlink_metadata s path) (s, out)
      else (s, record out { refused = out.refused + 1 })

  -- The test that the verdict is made by when the last one was on another parent.
  unfoldable pub is_inside : Place → IdentityRecord → Place → S → Bool
  unfolding same_place
  is_inside home r here s =
      same_place (components r.rel) home_dir
      || is_some_and (os.canonicalize s here) (λ p. components_start_with p home)

  unfoldable pub repair_record :
      Bool
      → Place
      → Place
      → IdentityRecord
      → Verdict
      → S × OwnershipOutcome
      → Verdict × S × OwnershipOutcome
  unfolding parent_or verdict remember repair_at is_inside
  repair_record dry_run var_root home r last (s, out) =
      let path = var_root ++ components r.rel in
      let here = parent_or path var_root in
      let inside = verdict last here (is_inside home r here s) in
      let (t, after) =
        repair_at dry_run r path inside (s, record out { records = out.records + 1 }) in
      (remember last here inside, t, after)

  unfoldable pub repair_parsed :
      Bool
      → Place
      → Place
      → Option IdentityRecord
      → Verdict
      → S × OwnershipOutcome
      → Verdict × S × OwnershipOutcome
  unfolding repair_record
  repair_parsed dry_run var_root home none last (s, out) =
      (last, s, record out { malformed = out.malformed + 1 })
  repair_parsed dry_run var_root home (some r) last (s, out) =
      repair_record dry_run var_root home r last (s, out)

  -- One round of the loop, with the verdict on the last parent.
  unfoldable pub next_line :
      Bool → Place → Place → Text → Verdict × S × OwnershipOutcome → Verdict × S × OwnershipOutcome
  unfolding repair_parsed
  next_line dry_run var_root home line (last, s, out) =
      if is_empty line
      then (last, s, out)
      else repair_parsed dry_run var_root home (parse_record line) last (s, out)

  unfoldable pub repair_lines :
      Bool
      → Place
      → Place
      → List (Option Text)
      → Verdict × S × OwnershipOutcome
      → S × Result RepairError OwnershipOutcome
  unfolding next_line
  repair_lines dry_run var_root home [] (last, s, out) = (s, ok out)
  repair_lines dry_run var_root home (none ∷ lines) (last, s, out) = (s, err read_failed)
  repair_lines dry_run var_root home (some line ∷ lines) x =
      repair_lines dry_run var_root home lines (next_line dry_run var_root home line x)

  unfoldable pub repair_resolved :
      Bool → Place → List (Option Text) → Option Place → S → S × Result RepairError OwnershipOutcome
  unfolding repair_lines
  repair_resolved dry_run var_root lines none s = (s, err unresolved_home)
  repair_resolved dry_run var_root lines (some home) s =
      repair_lines dry_run var_root home lines (none, s, no_outcome)

  unfoldable pub repair_opened :
      Bool → Place → Option (List (Option Text)) → S → S × Result RepairError OwnershipOutcome
  unfolding repair_resolved
  repair_opened dry_run var_root none s = (s, err open_failed)
  repair_opened dry_run var_root (some lines) s =
      repair_resolved dry_run var_root lines (os.canonicalize s (var_root ++ home_dir)) s

  unfoldable pub repair_ownership :
      Place → Text → Bool → S → S × Result RepairError OwnershipOutcome
  unfolding repair_opened
  repair_ownership var_root manifest dry_run s =
      repair_opened dry_run var_root (os.open_lines s manifest) s
