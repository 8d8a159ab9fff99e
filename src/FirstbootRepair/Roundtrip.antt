-- ===== src/FirstbootRepair/Roundtrip.antt =====
-- The manifest of firstboot_repair.rs: writing and reading it undo each other.
use bootc_migrate.Prelude.{
  ℕ, suc, ◌<◌, ◌≡◌, refl, ap, ◌∙◌, inl, inr, true, false, some, List, [], ◌∷◌, ◌++◌, arith, ltb,
  ◌==◌, lt→ltb, Bool-cases, All, length, all, filter_map, push_some,
}
use bootc_migrate.Text.{Text, split_on, join, u32_bound}
use bootc_migrate.Text.Fields.{lacks, lacks-append, split_on-append, split_once-append}
use bootc_migrate.FirstbootRepair.Signed.{
  ℤ, lacks-show_radix, lacks-show_ℤ, from_str_radix-show_radix, from_str_radix-show_ℤ, is_i64,
  show_radix, show_ℤ,
}
use mathlib.Core.List.{append_assoc}
use bootc_migrate.FirstbootRepair.Records.{
  IdentityRecord, tab, newline, escape_byte, unescaped, push_byte, escape_path, unescape_path,
  record_fields, format_record, write_records, splitn, splitn_found, u32_of, in_nanoseconds,
  is_plain, numbers_of, record_of, parse_fields, parse_record,
}

unescape_plain :
    (b : ℕ) (rest : Text)
    → b == b'\\' ≡ false
    → unescape_path (b ∷ rest) ≡ push_byte (some b) (unescape_path rest)
unfolding unescape_path push_byte
unescape_plain b [] h = rw h
unescape_plain b (c ∷ rest) h = rw h

unescape-escape_byte :
    (b : ℕ) (rest : Text)
    → unescape_path (escape_byte b rest) ≡ push_byte (some b) (unescape_path rest)
unfolding escape_byte unescaped unescape_path push_byte
unescape-escape_byte b rest = elim (Bool-cases (b == b'\\')) [
  | inl slash ↦ rw slash (ap (λ c. push_byte (some c) (unescape_path rest)) (ground (arith, slash)))
  | inr other ↦ elim (Bool-cases (b == newline)) [
    | inl feed ↦
        rw (other, feed) (ap (λ c. push_byte (some c) (unescape_path rest)) (ground (arith, feed)))
    | inr same_line ↦ elim (Bool-cases (b == tab)) [
      | inl stop ↦
          rw (other, same_line, stop)
            (ap (λ c. push_byte (some c) (unescape_path rest)) (ground (arith, stop)))
      | inr plain ↦ rw (other, same_line, plain) (unescape_plain b rest other)
    ]
  ]
]

unescape-escape : (bytes : Text) → unescape_path (escape_path bytes) ≡ some bytes
unfolding escape_path unescape_path push_byte
unescape-escape [] = refl
unescape-escape (b ∷ bytes) =
    unescape-escape_byte b (escape_path bytes) ∙ ap (push_byte (some b)) (unescape-escape bytes)

lacks-escape_path :
    (bytes : Text)
    → (lacks tab (escape_path bytes) ≡ true) × (lacks newline (escape_path bytes) ≡ true)
unfolding escape_path escape_byte
lacks-escape_path [] = (refl, refl)
lacks-escape_path (b ∷ bytes) = let (no_tab, no_newline) = lacks-escape_path bytes in ground arith

splitn_step :
    (n c : ℕ) (s t : Text)
    → lacks c s ≡ true
    → splitn (suc (suc n)) c (s ++ (c ∷ t)) ≡ s ∷ splitn (suc n) c t
unfolding splitn
splitn_step n c s t h =
    ap (splitn_found (splitn (suc n) c) (s ++ (c ∷ t))) (split_once-append c s t h)

-- A line without its newline.
line_of : IdentityRecord → Text
unfolding record_fields join
line_of r = join (tab ∷ []) (record_fields r)

-- What an entry of a home tree has: ids of 32 bits, times of 64 bits, a plain path.
abbrev pub IsRecord : IdentityRecord → Type 0
IsRecord r =
    (r.uid < u32_bound)
    × (r.gid < u32_bound)
    × (r.mode < 4096)
    × (is_i64 r.mtime_sec ≡ true)
    × (in_nanoseconds r.mtime_nsec ≡ true)
    × (is_plain r.rel ≡ true)

splitn-join :
    (c : ℕ) (s : Text) (ss : List Text)
    → all (lacks c) (s ∷ ss) ≡ true
    → splitn (suc (length ss)) c (join (c ∷ []) (s ∷ ss)) ≡ s ∷ ss
unfolding splitn join
splitn-join c s [] h = refl
splitn-join c s (t ∷ ts) h =
    splitn_step (length ts) c s (join (c ∷ []) (t ∷ ts)) (ground arith)
    ∙ ap (λ r. s ∷ r) (splitn-join c t ts (ground arith))

-- No field has a tab or a newline.
fields_lack :
    (r : IdentityRecord) (c : ℕ)
    → ltb c 45 ≡ true
    → lacks c (escape_path r.rel) ≡ true
    → all (lacks c) (record_fields r) ≡ true
unfolding record_fields
fields_lack r c h e = rw (
  lacks-show_radix c 10 r.uid h (omega arith) (omega arith),
  lacks-show_radix c 10 r.gid h (omega arith) (omega arith),
  lacks-show_radix c 8 r.mode h (omega arith) (omega arith),
  lacks-show_ℤ c r.mtime_sec h,
  lacks-show_ℤ c r.mtime_nsec h,
  e,
)

lacks-join :
    (c d : ℕ) (pieces : List Text)
    → d == c ≡ false
    → all (lacks c) pieces ≡ true
    → lacks c (join (d ∷ []) pieces) ≡ true
unfolding join
lacks-join c d [] n h = refl
lacks-join c d (s ∷ []) n h = ground arith
lacks-join c d (s ∷ t ∷ ts) n h =
    rw (lacks-append c s (d ∷ join (d ∷ []) (t ∷ ts)), n)
      (ground (arith, lacks-join c d (t ∷ ts) n (ground arith)))

in_nanoseconds-is_i64 : (i : ℤ) → in_nanoseconds i ≡ true → is_i64 i ≡ true
unfolding in_nanoseconds is_i64
in_nanoseconds-is_i64 i h = ground arith

numbers_of-fields :
    (r : IdentityRecord)
    → IsRecord r
    → numbers_of
        (show_radix 10 r.uid)
        (show_radix 10 r.gid)
        (show_radix 8 r.mode)
        (show_ℤ r.mtime_sec)
        (show_ℤ r.mtime_nsec)
      ≡ some (r.uid, r.gid, r.mode, r.mtime_sec, r.mtime_nsec)
unfolding numbers_of u32_of in_nanoseconds is_i64
numbers_of-fields r (u, g, m, s, n, _) =
    rw
      (
        from_str_radix-show_radix 10 r.uid (omega arith) (omega arith) (omega arith),
        lt→ltb r.uid u32_bound u,
        from_str_radix-show_radix 10 r.gid (omega arith) (omega arith) (omega arith),
        lt→ltb r.gid u32_bound g,
        from_str_radix-show_radix 8 r.mode (omega arith) (omega arith) (omega arith),
        lt→ltb r.mode u32_bound (omega arith),
        from_str_radix-show_ℤ r.mtime_sec s,
        from_str_radix-show_ℤ r.mtime_nsec (in_nanoseconds-is_i64 r.mtime_nsec n),
        n,
      )
      (ap (λ m. some (r.uid, r.gid, m, r.mtime_sec, r.mtime_nsec)) (omega arith))

-- A written record, without its newline, is read back.
parse_record-line_of : (r : IdentityRecord) → IsRecord r → parse_record (line_of r) ≡ some r
unfolding parse_record line_of record_fields record_of
parse_record-line_of r h =
    ap parse_fields (
      splitn-join tab (show_radix 10 r.uid)
        (show_radix 10 r.gid
          ∷ show_radix 8 r.mode
          ∷ show_ℤ r.mtime_sec
          ∷ show_ℤ r.mtime_nsec
          ∷ escape_path r.rel
          ∷ [])
        (fields_lack r tab refl (lacks-escape_path r.rel).0))
    ∙ (ap (λ n. record_of n (unescape_path (escape_path r.rel))) (numbers_of-fields r h)
        ∙ (ap (record_of (some (r.uid, r.gid, r.mode, r.mtime_sec, r.mtime_nsec)))
              (unescape-escape r.rel)
            ∙ rw (h.5)))

lacks-line_of : (r : IdentityRecord) → lacks newline (line_of r) ≡ true
unfolding line_of
lacks-line_of r =
    lacks-join newline tab (record_fields r) refl
      (fields_lack r newline refl (lacks-escape_path r.rel).1)

no_records : filter_map parse_record (split_on newline []) ≡ []
unfolding parse_record split_on filter_map
no_records = refl

-- A manifest, split at its newlines and read line by line, has the records it was written from, in
-- their order, whatever bytes their paths have, when each has ids of 32 bits, permission bits, a
-- time in the range of its fields and a plain relative path.
pub filter_map-parse_record-write_records :
    (rs : List IdentityRecord)
    → All IsRecord rs
    → filter_map parse_record (split_on newline (write_records rs)) ≡ rs
unfolding write_records format_record line_of filter_map push_some
filter_map-parse_record-write_records [] h = no_records
filter_map-parse_record-write_records (r ∷ rs) (first, rest) =
    ap (λ t. filter_map parse_record (split_on newline t))
      (append_assoc (line_of r) (newline ∷ []) (write_records rs))
    ∙ (ap (filter_map parse_record)
          (split_on-append newline (line_of r) (write_records rs) (lacks-line_of r))
        ∙ (ap (λ o. push_some o (filter_map parse_record (split_on newline (write_records rs))))
              (parse_record-line_of r first)
            ∙ ap (λ t. r ∷ t) (filter_map-parse_record-write_records rs rest)))
