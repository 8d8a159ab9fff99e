-- ===== src/Tests/FirstbootRepair.antt =====
-- A small file system with the home tree of one user, and the ownership pass run on it.
use bootc_migrate.Prelude.{
  ℕ, ◌≡◌, refl, sym, ap, ◌∙◌, subst, ◌≢◌, ◌⊎◌, inl, inr, true, false, Option, none, some, List, [],
  ◌∷◌, ◌++◌, arith, ◌==◌, if◌then◌else◌, ==_iff, Bool-cases, filter_map, push_some, ok,
}
use bootc_migrate.Text.{Text, codes, split_on, lines, trim, is_empty, join}
use mathlib.Core.Bool.{true≢false}
use mathlib.Core.Option
use mathlib.Core.Option.{none-ne-some, some-injective}
use mathlib.Core.List.{Memᴰ}
use bootc_migrate.Etc.Symlinks.{root_dir, normal, components}
use bootc_migrate.InstallCommit.Paths.{components_start_with}
use bootc_migrate.FirstbootRepair.Signed.{ℤ, pos, negsuc, is_i64}
use bootc_migrate.FirstbootRepair.Records.{
  IdentityRecord, parse_record, write_records, in_nanoseconds, is_plain,
}
use bootc_migrate.FirstbootRepair.Roundtrip.{IsRecord, filter_map-parse_record-write_records}
use bootc_migrate.FirstbootRepair.Ownership.{
  Place, Metadata, OwnershipOutcome, Calls, home_dir, parent_or, same_place, repair_ownership,
  changed,
}
use bootc_migrate.FirstbootRepair.Laws.{Inodes, Near, Lawful, Matches, perm}
use bootc_migrate.FirstbootRepair.Steps.{Modes}
use bootc_migrate.FirstbootRepair.Cache.{IsShaped, inside, place}
use bootc_migrate.FirstbootRepair.Restored.{records_of}
use bootc_migrate.FirstbootRepair.Pass.{
  Agree, AreConsistent, repair_ownership-restores, repair_ownership-frame,
}
use bootc_migrate.FirstbootRepair.Bounds.{
  IsBounded, repair_ownership-IsBounded, repair_ownership-dry,
}
use bootc_migrate.FirstbootRepair.Again.{repair_ownership-again}
use bootc_migrate.FirstbootRepair.Classes.{
  clean, repaired, failed, repair_machine_id, repair_machine_id-distinct,
}

-- The metadata of every inode.
abbrev Store : Type 0
Store = ℕ → Metadata

abbrev var_root : Place
var_root = root_dir ∷ normal (codes "var") ∷ []

abbrev home_path : Place
home_path = var_root ++ home_dir

abbrev ana_path : Place
ana_path = home_path ++ (normal (codes "ana") ∷ [])

abbrev spool_path : Place
spool_path = var_root ++ (normal (codes "spool") ∷ [])

unfoldable inode_of : Place → Option ℕ
unfolding same_place
inode_of p =
    if same_place p home_path
    then some 1
    else if same_place p ana_path
    then some 2
    else if same_place p spool_path
    then some 3
    else none

unfoldable update : Store → ℕ → Metadata → Store
update s i m j = if j == i then m else s j

-- A change of the metadata of the inode, if there is one, and the two results of the call.
abbrev edit_at : {R : Type 0} → Store → (Metadata → Metadata) → R → R → Option ℕ → Store × R
edit_at s f done missing none = (s, missing)
edit_at s f done missing (some i) = (update s i (f (s i)), done)

abbrev set_owner : ℕ → ℕ → Metadata → Metadata
set_owner uid gid m = record m { uid = uid; gid = gid }

abbrev set_mode : ℕ → Metadata → Metadata
set_mode mode m = record m { mode = mode }

abbrev set_mtime : ℤ → ℤ → Metadata → Metadata
set_mtime sec nsec m = record m { mtime_sec = sec; mtime_nsec = nsec }

abbrev line : Text → Text → Text
line id path = join (9 ∷ []) (id ∷ id ∷ codes "755" ∷ codes "5" ∷ codes "0" ∷ path ∷ [])

abbrev home_lines : List (Option Text)
home_lines =
    some (line (codes "0") (codes "home")) ∷ some (line (codes "1000") (codes "home/ana")) ∷ []

abbrev small_calls : List (Option Text) → Calls Store
small_calls lines = record {
  open_lines = λ s manifest. some lines;
  canonicalize = λ s p. some p;
  symlink_metadata = λ s p. Option.map s (inode_of p);
  chownat = λ s p uid gid. edit_at s (set_owner uid gid) none (some (codes "chown")) (inode_of p);
  chmodat = λ s p mode. edit_at s (set_mode mode) true false (inode_of p);
  utimensat =
      λ s p sec nsec. edit_at s (set_mtime sec nsec) none (some (codes "set mtime")) (inode_of p);
}

abbrev small_inodes : Inodes Store
small_inodes = record { inode = λ s p. inode_of p; stat = λ s i. s i }

update_same : (s : Store) (i : ℕ) (m : Metadata) → update s i m i ≡ m
unfolding update
update_same s i m = rw ((==_iff i i).1 refl) refl

update_other : (s : Store) (i j : ℕ) (m : Metadata) → j ≢ i → update s i m j ≡ s j
unfolding update
update_other s i j m n = elim (Bool-cases (j == i)) [
  | inl same ↦ absurd (n ((==_iff j i).0 same))
  | inr other ↦ rw other refl
]

update-Near :
    (lines : List (Option Text)) (s : Store) (i : ℕ) (m : Metadata)
    → Near (small_calls lines) small_inodes i s (update s i m)
update-Near lines s i m = (λ p. refl, λ p. refl, λ j n. update_other s i j m n)

edit-ok :
    {R : Type 0} (lines : List (Option Text)) (s t : Store) (f : Metadata → Metadata)
    (done missing : R) (i : ℕ) (o : Option ℕ)
    → edit_at s f done missing o ≡ (t, done)
    → o ≡ some i
    → Near (small_calls lines) small_inodes i s t × (t i ≡ f (s i))
edit-ok lines s t f done missing i none e at = absurd (none-ne-some i at)
edit-ok lines s t f done missing i (some k) e at =
    let same : t ≡ update s i (f (s i)) =
      ap (λ x. x.0) (sym e) ∙ ap (λ x. update s x (f (s x))) (some-injective _ _ at) in
    (
      subst (Near (small_calls lines) small_inodes i s) (sym same)
          (update-Near lines s i (f (s i))),
      ap (λ u. u i) same ∙ update_same s i (f (s i)),
    )

edit-refused :
    {R : Type 0} (s t : Store) (f : Metadata → Metadata) (done missing r : R) (o : Option ℕ)
    → edit_at s f done missing o ≡ (t, r)
    → done ≢ r
    → t ≡ s
edit-refused s t f done missing r none e n = ap (λ x. x.0) (sym e)
edit-refused s t f done missing r (some k) e n = absurd (n (ap (λ x. x.1) e))

small_laws : (lines : List (Option Text)) → Lawful (small_calls lines) small_inodes
small_laws lines = record {
  lstat = λ s p. refl;
  chown-ok = λ s t p uid gid i e at.
      let (near, value) =
        edit-ok lines s t (set_owner uid gid) none (some (codes "chown")) i (inode_of p) e at in
      (
        near,
        (
          ap (λ m. m.uid) value,
          ap (λ m. m.gid) value,
          ap (λ m. m.mtime_sec) value,
          ap (λ m. m.mtime_nsec) value,
          ap (λ m. m.is_symlink) value,
          λ plain. ap perm value,
        ),
      );
  chown-refused = λ s t p uid gid l e.
      edit-refused s t (set_owner uid gid) none (some (codes "chown")) (some l) (inode_of p) e
        (none-ne-some l);
  chmod-ok = λ s t p mode i e at link.
      let (near, value) = edit-ok lines s t (set_mode mode) true false i (inode_of p) e at in
      (
        near,
        (
          ap (λ m. m.uid) value,
          ap (λ m. m.gid) value,
          ap (λ m. m.mtime_sec) value,
          ap (λ m. m.mtime_nsec) value,
          ap perm value,
        ),
      );
  chmod-refused =
      λ s t p mode e. edit-refused s t (set_mode mode) true false false (inode_of p) e true≢false;
  utimens-ok = λ s t p sec nsec i e at.
      edit-ok lines s t (set_mtime sec nsec) none (some (codes "set mtime")) i (inode_of p) e at;
  utimens-refused = λ s t p sec nsec l e.
      edit-refused s t (set_mtime sec nsec) none (some (codes "set mtime")) (some l) (inode_of p) e
        (none-ne-some l);
}

abbrev metadata : ℕ → ℤ → Metadata
metadata id sec = record {
  uid = id;
  gid = id;
  mode = 493;
  mtime_sec = sec;
  mtime_nsec = pos 0;
  is_symlink = false;
}

-- The tree of the user has drifted: it belongs to another id, and has another time.
abbrev drifted : Store
drifted i = if i == 1 then metadata 0 (pos 5) else metadata 500 (pos 9)

abbrev home_record : IdentityRecord
home_record = record {
  rel = codes "home";
  uid = 0;
  gid = 0;
  mode = 493;
  mtime_sec = pos 5;
  mtime_nsec = pos 0;
}

abbrev ana_record : IdentityRecord
ana_record = record home_record { rel = codes "home/ana"; uid = 1000; gid = 1000 }

home_lines_records : records_of home_lines ≡ home_record ∷ ana_record ∷ []
unfolding parse_record push_some join
home_lines_records = refl

abbrev calls : Calls Store
calls = small_calls home_lines

abbrev outcome : ℕ → ℕ → OwnershipOutcome
outcome rechowned retimed = record {
  records = 2;
  missing = 0;
  rechowned = rechowned;
  retimed = retimed;
  refused = 0;
  malformed = 0;
  errors = [];
}

abbrev restored : Store
restored = (repair_ownership calls var_root [] false drifted).0

-- The pass puts back the owner and the time of the user's directory.
restored_run : repair_ownership calls var_root [] false drifted ≡ (restored, ok (outcome 1 1))
unfolding repair_ownership push_some inode_of update join parse_record components_start_with
restored_run = refl

restored_ana : restored 2 ≡ metadata 1000 (pos 5)
unfolding repair_ownership push_some inode_of update join parse_record components_start_with
restored_ana = refl

listed :
    (r : IdentityRecord)
    → Memᴰ r (home_record ∷ ana_record ∷ [])
    → (r ≡ home_record) ⊎ (r ≡ ana_record)
listed r (Memᴰ.head e) = inl e
listed r (Memᴰ.tail (Memᴰ.head e)) = inr e
listed r (Memᴰ.tail (Memᴰ.tail m)) = elim m [ ]

two_records :
    (r : IdentityRecord) → Memᴰ r (records_of home_lines) → (r ≡ home_record) ⊎ (r ≡ ana_record)
two_records r m = listed r (subst (Memᴰ r) home_lines_records m)

home-IsShaped : IsShaped var_root home_record
unfolding components same_place
home-IsShaped = inl refl

ana-IsShaped : IsShaped var_root ana_record
unfolding components same_place parent_or
ana-IsShaped = inr refl

shaped : (r : IdentityRecord) → Memᴰ r (records_of home_lines) → IsShaped var_root r
shaped r m = elim (two_records r m) [
  | inl e ↦ subst (IsShaped var_root) (sym e) home-IsShaped
  | inr e ↦ subst (IsShaped var_root) (sym e) ana-IsShaped
]

home_inode : inode_of (place var_root home_record) ≡ some 1
unfolding inode_of components
home_inode = refl

ana_inode : inode_of (place var_root ana_record) ≡ some 2
unfolding inode_of components
ana_inode = refl

apart_inodes :
    (i : ℕ)
    → inode_of (place var_root home_record) ≡ some i
    → inode_of (place var_root ana_record) ≡ some i
    → ⊥
apart_inodes i h k =
    let one = some-injective _ _ (sym home_inode ∙ h) in
    let two = some-injective _ _ (sym ana_inode ∙ k) in omega arith

consistent :
    AreConsistent calls small_inodes
      (small_laws home_lines)
      var_root
      home_path
      drifted
      (records_of home_lines)
consistent q r i mq mr (_, at_q) (_, at_r) = elim (two_records q mq) [
  | inl q_home ↦ elim (two_records r mr) [
    | inl r_home ↦ agree (q_home ∙ sym r_home)
    | inr r_ana ↦ absurd (apart_inodes i (subst (At i) q_home at_q) (subst (At i) r_ana at_r))
  ]
  | inr q_ana ↦ elim (two_records r mr) [
    | inl r_home ↦ absurd (apart_inodes i (subst (At i) r_home at_r) (subst (At i) q_ana at_q))
    | inr r_ana ↦ agree (q_ana ∙ sym r_ana)
  ]
]
  where
    At : ℕ → IdentityRecord → Type 0
    At i p = inode_of (place var_root p) ≡ some i

    agree : q ≡ r → Agree q r
    agree e =
        (ap (λ p. p.uid) e, ap (λ p. p.gid) e, ap (λ p. p.mtime_sec) e, ap (λ p. p.mtime_nsec) e)

repair_ownership-restores_example :
    ((r : IdentityRecord) (i : ℕ)
      → Memᴰ r (records_of home_lines)
      → inside calls var_root home_path drifted r ≡ true
      → inode_of (place var_root r) ≡ some i
      → Matches r (restored i))
    × (Modes calls small_inodes (small_laws home_lines)
        → (i : ℕ) → perm (restored i) ≡ perm (drifted i))
repair_ownership-restores_example =
    repair_ownership-restores calls small_inodes (small_laws home_lines) var_root home_path []
      home_lines drifted refl refl shaped consistent restored_run refl

repair_ownership-again_example :
    (o : OwnershipOutcome) × (repair_ownership calls var_root [] false restored ≡ (restored, ok o))
    × (changed o ≡ 0)
    × (o.errors ≡ [])
repair_ownership-again_example =
    repair_ownership-again calls small_inodes (small_laws home_lines) var_root home_path []
      home_lines drifted refl refl refl shaped consistent restored_run refl

not_named :
    (r : IdentityRecord)
    → Memᴰ r (records_of home_lines)
    → inside calls var_root home_path drifted r ≡ true
    → inode_of (place var_root r) ≢ some 3
not_named r m in_home at = elim (two_records r m) [
  | inl e ↦
      let one =
        some-injective _ _
          (sym home_inode ∙ (ap (λ p. inode_of (place var_root p)) (sym e) ∙ at)) in
      omega arith
  | inr e ↦
      let two =
        some-injective _ _ (sym ana_inode ∙ (ap (λ p. inode_of (place var_root p)) (sym e) ∙ at)) in
      omega arith
]

repair_ownership-frame_example : (repair_ownership calls var_root [] false drifted).0 3 ≡ drifted 3
repair_ownership-frame_example =
    repair_ownership-frame calls small_inodes (small_laws home_lines) var_root home_path []
      home_lines drifted 3 refl refl shaped not_named

repair_ownership-IsBounded_example : IsBounded 2 (outcome 1 1)
repair_ownership-IsBounded_example =
    repair_ownership-IsBounded calls var_root [] false drifted home_lines refl
      (ap (λ x. x.1) restored_run)

repair_ownership-dry_example : (repair_ownership calls var_root [] true drifted).0 ≡ drifted
repair_ownership-dry_example = repair_ownership-dry calls var_root [] drifted

-- A record outside the home directory that follows that of the home directory: the verdict on the
-- root is that on the home directory, and the entry is changed.
abbrev spool_lines : List (Option Text)
spool_lines = some (line (codes "0") (codes "home")) ∷ some (line (codes "7") (codes "spool")) ∷ []

spool_changed :
    (repair_ownership (small_calls spool_lines) var_root [] false drifted).0 3 ≡ metadata 7 (pos 5)
unfolding repair_ownership push_some inode_of update join parse_record components_start_with
spool_changed = refl

-- By itself the same record is refused.
spool_alone :
    (repair_ownership
        (small_calls (some (line (codes "7") (codes "spool")) ∷ []))
        var_root
        []
        false
        drifted).0
      3
    ≡ metadata 500 (pos 9)
unfolding repair_ownership push_some inode_of update join parse_record components_start_with
spool_alone = refl

-- A name with a newline, a tab and a backslash.
awkward : IdentityRecord
awkward = record {
  rel = codes "home/a" ++ (10 ∷ 9 ∷ codes "\\b");
  uid = 4294967295;
  gid = 0;
  mode = 2541;
  mtime_sec = negsuc 0;
  mtime_nsec = pos 999999999;
}

awkward-IsRecord : IsRecord awkward
unfolding awkward is_i64 in_nanoseconds is_plain
awkward-IsRecord = (omega arith, omega arith, omega arith, refl, refl, refl)

filter_map-parse_record-write_records_example :
    filter_map parse_record (split_on 10 (write_records (awkward ∷ awkward ∷ [])))
    ≡ awkward ∷ awkward ∷ []
filter_map-parse_record-write_records_example =
    filter_map-parse_record-write_records (awkward ∷ awkward ∷ [])
      (awkward-IsRecord, (awkward-IsRecord, tt))

abbrev old_id : Text
old_id = codes "0123abcd\n"

old_id_repaired : repair_machine_id old_id false true old_id ≡ (repaired, [])
unfolding repair_machine_id trim
old_id_repaired = refl

repaired≢failed : repaired ≢ failed
repaired≢failed e = cc

recorded : is_empty (trim old_id) ≡ false
unfolding trim
recorded = refl

repair_machine_id-distinct_example :
    (trim [] ≢ trim old_id) × (repair_machine_id old_id false true [] ≡ (clean, []))
repair_machine_id-distinct_example =
    repair_machine_id-distinct old_id old_id true recorded old_id_repaired repaired≢failed
