-- ===== src/FirstbootRepair/Laws.antt =====
-- What the ownership pass relies on in the file system's calls: entries are inodes with metadata.
use bootc_migrate.Prelude.{
  ℕ, ◌%◌, ◌≡◌, refl, sym, ◌∙◌, ◌≢◌, ◌↔◌, ◌⊎◌, inl, inr, Bool, true, false, ◌&&◌, not, Option, none,
  some, leb, ◌==◌, ==_iff, Bool-cases, is_none,
}
use mathlib.Core.Option
use mathlib.Core.Option.{none-ne-some}
use bootc_migrate.Text.{Text}
use bootc_migrate.FirstbootRepair.Signed.{ℤ, eq_ℤ, eq_ℤ→eq, eq_ℤ_self}
use bootc_migrate.FirstbootRepair.Records.{IdentityRecord}
use bootc_migrate.FirstbootRepair.Ownership.{Place, Drift, Metadata, Calls, drift, is_clean}

-- The permission bits.
abbrev pub perm : Metadata → ℕ
perm m = m.mode % 4096

-- A set-user-id or set-group-id bit (0o6000) of an entry that is no link.
abbrev pub has_special_bits : Metadata → Bool
has_special_bits m = not m.is_symlink && leb 1024 (perm m)

-- A file system: which inode a path names, without following a link at its end, and what it has.
pub record Inodes (S : Type 0) : Type 0 where
  pub inode : S → Place → Option ℕ
  pub stat : S → ℕ → Metadata

-- A change of owner may take the special bits from the mode, and no other bit. The id 2^32 - 1, which
-- asks a chown to leave the owner, is taken to be nobody's.
abbrev pub Chowned : ℕ → ℕ → Metadata → Metadata → Type 0
Chowned uid gid before after =
    (after.uid ≡ uid)
    × (after.gid ≡ gid)
    × (after.mtime_sec ≡ before.mtime_sec)
    × (after.mtime_nsec ≡ before.mtime_nsec)
    × (after.is_symlink ≡ before.is_symlink)
    × (has_special_bits before ≡ false → perm after ≡ perm before)

abbrev pub Chmodded : ℕ → Metadata → Metadata → Type 0
Chmodded mode before after =
    (after.uid ≡ before.uid)
    × (after.gid ≡ before.gid)
    × (after.mtime_sec ≡ before.mtime_sec)
    × (after.mtime_nsec ≡ before.mtime_nsec)
    × (perm after ≡ mode % 4096)

module _ {S : Type 0} (os : Calls S) (fs : Inodes S) where
  -- No path is resolved in another way, and only inode `i` may have changed.
  abbrev pub Near : ℕ → S → S → Type 0
  Near i s t =
      ((p : Place) → fs.inode t p ≡ fs.inode s p)
      × ((p : Place) → os.canonicalize t p ≡ os.canonicalize s p)
      × ((j : ℕ) → j ≢ i → fs.stat t j ≡ fs.stat s j)

  pub record Lawful : Type 0 where
    pub lstat :
        (s : S) (p : Place) → os.symlink_metadata s p ≡ Option.map (fs.stat s) (fs.inode s p)
    pub chown-ok :
        (s t : S) (p : Place) (uid gid i : ℕ)
        → os.chownat s p uid gid ≡ (t, none)
        → fs.inode s p ≡ some i
        → Near i s t × Chowned uid gid (fs.stat s i) (fs.stat t i)
    pub chown-refused :
        (s t : S) (p : Place) (uid gid : ℕ) (line : Text)
        → os.chownat s p uid gid ≡ (t, some line)
        → t ≡ s
    pub chmod-ok :
        (s t : S) (p : Place) (mode i : ℕ)
        → os.chmodat s p mode ≡ (t, true)
        → fs.inode s p ≡ some i
        → (fs.stat s i).is_symlink ≡ false
        → Near i s t × Chmodded mode (fs.stat s i) (fs.stat t i)
    pub chmod-refused : (s t : S) (p : Place) (mode : ℕ) → os.chmodat s p mode ≡ (t, false) → t ≡ s
    pub utimens-ok :
        (s t : S) (p : Place) (sec nsec : ℤ) (i : ℕ)
        → os.utimensat s p sec nsec ≡ (t, none)
        → fs.inode s p ≡ some i
        → Near i s t × (fs.stat t i ≡ record (fs.stat s i) { mtime_sec = sec; mtime_nsec = nsec })
    pub utimens-refused :
        (s t : S) (p : Place) (sec nsec : ℤ) (line : Text)
        → os.utimensat s p sec nsec ≡ (t, some line)
        → t ≡ s

  pub Near-refl : (i : ℕ) (s : S) → Near i s s
  Near-refl i s = (λ p. refl, λ p. refl, λ j n. refl)

  pub Near-trans : (i : ℕ) (s t u : S) → Near i s t → Near i t u → Near i s u
  Near-trans i s t u (a, b, c) (d, e, f) = (λ p. d p ∙ a p, λ p. e p ∙ b p, λ j n. f j n ∙ c j n)

-- The entry is as the manifest has it.
abbrev pub Matches : IdentityRecord → Metadata → Type 0
Matches r m =
    (m.uid ≡ r.uid) × (m.gid ≡ r.gid) × (m.mtime_sec ≡ r.mtime_sec) × (m.mtime_nsec ≡ r.mtime_nsec)

abbrev pub live_drift : IdentityRecord → Metadata → Drift
live_drift r m = drift r m.uid m.gid m.mtime_sec m.mtime_nsec

pub live_drift-chown :
    (r : IdentityRecord) (m : Metadata)
    → ((live_drift r m).chown ≡ none) × (m.uid ≡ r.uid) × (m.gid ≡ r.gid)
      ⊎ ((live_drift r m).chown ≡ some (r.uid, r.gid))
unfolding drift
live_drift-chown r m = elim (Bool-cases (m.uid == r.uid)) [
  | inl same_uid ↦ elim (Bool-cases (m.gid == r.gid)) [
    | inl same_gid ↦
        inl (
          rw (same_uid, same_gid),
          (==_iff m.uid r.uid).0 same_uid,
          (==_iff m.gid r.gid).0 same_gid,
        )
    | inr other ↦ inr (rw (same_uid, other))
  ]
  | inr other ↦ inr (rw other)
]

pub live_drift-mtime :
    (r : IdentityRecord) (m : Metadata)
    → ((live_drift r m).mtime ≡ none) × (m.mtime_sec ≡ r.mtime_sec) × (m.mtime_nsec ≡ r.mtime_nsec)
      ⊎ ((live_drift r m).mtime ≡ some (r.mtime_sec, r.mtime_nsec))
unfolding drift
live_drift-mtime r m = elim (Bool-cases (eq_ℤ m.mtime_sec r.mtime_sec)) [
  | inl same_sec ↦ elim (Bool-cases (eq_ℤ m.mtime_nsec r.mtime_nsec)) [
    | inl same_nsec ↦ inl (
      rw (same_sec, same_nsec),
      eq_ℤ→eq m.mtime_sec r.mtime_sec same_sec,
      eq_ℤ→eq m.mtime_nsec r.mtime_nsec same_nsec,
    )
    | inr other ↦ inr (rw (same_sec, other))
  ]
  | inr other ↦ inr (rw other)
]

both_none :
    {A B : Type 0} (a : Option A) (b : Option B)
    → (is_none a && is_none b) ≡ true
    → (a ≡ none) × (b ≡ none)
both_none none none h = (refl, refl)
both_none none (some b) h = cc
both_none (some a) b h = cc

-- No drift is found exactly in an entry that is as the manifest has it.
pub is_clean-iff-Matches :
    (r : IdentityRecord) (m : Metadata) → (is_clean (live_drift r m) ≡ true) ↔ Matches r m
unfolding is_clean drift
is_clean-iff-Matches r m = (matches, clean)
  where
    matches : is_clean (live_drift r m) ≡ true → Matches r m
    matches h =
        let (no_chown, no_mtime) = both_none (live_drift r m).chown (live_drift r m).mtime h in
        elim (live_drift-chown r m) [
          | inl (_, u, g) ↦ elim (live_drift-mtime r m) [
            | inl (_, s, n) ↦ (u, g, s, n)
            | inr e ↦ absurd (none-ne-some _ (sym no_mtime ∙ e))
          ]
          | inr e ↦ absurd (none-ne-some _ (sym no_chown ∙ e))
        ]

    clean : Matches r m → is_clean (live_drift r m) ≡ true
    clean (u, g, s, n) = rw (
      (==_iff m.uid r.uid).1 u,
      (==_iff m.gid r.gid).1 g,
      s,
      n,
      eq_ℤ_self r.mtime_sec,
      eq_ℤ_self r.mtime_nsec,
    )
