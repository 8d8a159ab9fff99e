-- ===== src/FirstbootRepair/Records.antt =====
-- The identity manifest of firstboot_repair.rs: its records, written as lines and read back.
-- Paths and lines are bytes here.
use bootc_migrate.Prelude.{
  ℕ, zero, suc, ◌%◌, Bool, false, ◌&&◌, not, Option, none, some, List, [], ◌∷◌, ◌++◌, ltb, ◌==◌,
  if◌then◌else◌, all,
}
use bootc_migrate.Text.{Text, is_empty, join, u32_bound, split_once}
use bootc_migrate.Etc.Symlinks.{components}
use bootc_migrate.InstallCommit.Paths.{is_normal}
use bootc_migrate.FirstbootRepair.Signed.{ℤ, pos, negsuc, from_str_radix, show_radix, show_ℤ}

pub record IdentityRecord : Type 0 where
  pub rel : Text
  pub uid : ℕ
  pub gid : ℕ
  pub mode : ℕ
  pub mtime_sec : ℤ
  pub mtime_nsec : ℤ

abbrev pub tab : ℕ
tab = 9

abbrev pub newline : ℕ
newline = 10

unfoldable pub escape_byte : ℕ → Text → Text
escape_byte b rest =
    if b == b'\\'
    then b'\\' ∷ b'\\' ∷ rest
    else if b == newline
    then b'\\' ∷ b'n' ∷ rest
    else if b == tab
    then b'\\' ∷ b't' ∷ rest
    else b ∷ rest

unfoldable pub escape_path : Text → Text
unfolding escape_byte
escape_path [] = []
escape_path (b ∷ bytes) = escape_byte b (escape_path bytes)

unfoldable pub unescaped : ℕ → Option ℕ
unescaped b =
    if b == b'\\'
    then some b'\\'
    else if b == b'n'
    then some newline
    else if b == b't'
    then some tab
    else none

unfoldable pub push_byte : Option ℕ → Option Text → Option Text
push_byte none rest = none
push_byte (some b) none = none
push_byte (some b) (some rest) = some (b ∷ rest)

unfoldable pub unescape_path : Text → Option Text
unfolding unescaped push_byte
unescape_path [] = some []
unescape_path (b ∷ []) = if b == b'\\' then none else some (b ∷ [])
unescape_path (b ∷ c ∷ bytes) =
    let after_one = unescape_path (c ∷ bytes) in
    let after_two = unescape_path bytes in
    if b == b'\\' then push_byte (unescaped c) after_two else push_byte (some b) after_one

-- The six fields, tab-separated, without the newline.
unfoldable pub record_fields : IdentityRecord → List Text
unfolding show_radix show_ℤ escape_path
record_fields r =
    show_radix 10 r.uid
    ∷ show_radix 10 r.gid
    ∷ show_radix 8 r.mode
    ∷ show_ℤ r.mtime_sec
    ∷ show_ℤ r.mtime_nsec
    ∷ escape_path r.rel
    ∷ []

unfoldable pub format_record : IdentityRecord → Text
unfolding record_fields join
format_record r = join (tab ∷ []) (record_fields r) ++ (newline ∷ [])

-- What the walk over the home tree writes, for the records in the order it makes them.
unfoldable pub write_records : List IdentityRecord → Text
unfolding format_record
write_records [] = []
write_records (r ∷ rs) = format_record r ++ write_records rs

-- `splitn`: at most `n` pieces, the last one with the separators that are left.
unfoldable pub splitn_found : (Text → List Text) → Text → Option (Text × Text) → List Text
splitn_found next s none = s ∷ []
splitn_found next s (some (before, after)) = before ∷ next after

unfoldable pub splitn : ℕ → ℕ → Text → List Text
unfolding splitn_found split_once
splitn zero c s = []
splitn (suc zero) c s = s ∷ []
splitn (suc (suc n)) c s = splitn_found (splitn (suc n) c) s (split_once c s)

-- The `?` operator on options.
infixl 5 ◌>>=◌
abbrev pub ◌>>=◌ : {A B : Type 0} → Option A → (A → Option B) → Option B
none >>= next = none
some a >>= next = next a

-- `u32::try_from`
unfoldable pub u32_of : ℤ → Option ℕ
u32_of (pos n) = if ltb n u32_bound then some n else none
u32_of (negsuc n) = none

unfoldable pub in_nanoseconds : ℤ → Bool
in_nanoseconds (pos n) = ltb n 1000000000
in_nanoseconds (negsuc n) = false

-- A relative path, not empty, of names only.
unfoldable pub is_plain : Text → Bool
unfolding components
is_plain rel = not (is_empty rel) && all is_normal (components rel)

unfoldable pub numbers_of : Text → Text → Text → Text → Text → Option (ℕ × ℕ × ℕ × ℤ × ℤ)
unfolding from_str_radix u32_of in_nanoseconds
numbers_of f0 f1 f2 f3 f4 = do
  uid ← u32_of (← from_str_radix 10 f0)
  gid ← u32_of (← from_str_radix 10 f1)
  mode ← u32_of (← from_str_radix 8 f2)
  sec ← from_str_radix 10 f3
  nsec ← from_str_radix 10 f4
  if in_nanoseconds nsec then some (uid, gid, mode % 4096, sec, nsec) else none

unfoldable pub record_of : Option (ℕ × ℕ × ℕ × ℤ × ℤ) → Option Text → Option IdentityRecord
unfolding is_plain
record_of none rel = none
record_of (some n) none = none
record_of (some (uid, gid, mode, sec, nsec)) (some rel) =
    if is_plain rel
    then some (record {
      rel = rel;
      uid = uid;
      gid = gid;
      mode = mode;
      mtime_sec = sec;
      mtime_nsec = nsec;
    })
    else none

-- A field that is missing makes the line malformed, as any malformed one does.
unfoldable pub parse_fields : List Text → Option IdentityRecord
unfolding numbers_of record_of unescape_path
parse_fields (f0 ∷ f1 ∷ f2 ∷ f3 ∷ f4 ∷ f5 ∷ []) =
    record_of (numbers_of f0 f1 f2 f3 f4) (unescape_path f5)
parse_fields _ = none

unfoldable pub parse_record : Text → Option IdentityRecord
unfolding parse_fields splitn
parse_record line = parse_fields (splitn 6 tab line)
