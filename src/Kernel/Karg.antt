-- ===== src/Kernel/Karg.antt =====
-- The argument that names the composefs image: composefs_karg.rs, and `VerityDigest` of types.rs.
use bootc_migrate.Prelude.{
  ℕ, Bool, ◌&&◌, ◌||◌, Option, none, some, List, [], ◌∷◌, leb, ◌==◌, if◌then◌else◌, or_option, any,
  all,
}
use bootc_migrate.Text.{
  Text, codes, starts_with, strip_prefix, trim_start_by, is_empty, split_whitespace,
}

abbrev pub prefixes : List Text
prefixes = codes "composefs=" ∷ codes "composefs.digest=" ∷ []

unfoldable pub is_arg : Text → Bool
is_arg arg = any (λ prefix. starts_with arg prefix) prefixes

unfoldable pub present : Text → Bool
unfolding is_arg
present cmdline = any is_arg (split_whitespace cmdline)

-- `strip_prefix(..).unwrap_or(..)`
unfoldable pub strip_optional : Text → Text → Text
strip_optional s prefix = elim (strip_prefix s prefix) [ none ↦ s | some rest ↦ rest ]

-- What stands behind the last colon, or the whole text.
pub after_last_colon : Text → Text
after_last_colon [] = []
after_last_colon (c ∷ s) =
    let rest = after_last_colon s in
    if any (λ d. d == b':') s then rest else if c == b':' then s else c ∷ s

non_empty : Text → Option Text
non_empty s = if is_empty s then none else some s

unfoldable pub arg_digest : Text → Option Text
unfolding non_empty strip_optional after_last_colon
arg_digest arg = elim (strip_prefix arg (codes "composefs=")) [
  | some value ↦ non_empty (strip_optional (trim_start_by (λ c. c == b'?') value) (codes "sha512:"))
  | none ↦ elim (strip_prefix arg (codes "composefs.digest=")) [
    | none ↦ none
    | some value ↦ non_empty (after_last_colon value)
  ]
]

-- `find_map`
abbrev pub find_map {ℓ κ} : {A : Type ℓ} {B : Type κ} → (A → Option B) → List A → Option B
find_map f [] = none
find_map f (x ∷ xs) = or_option (f x) (find_map f xs)

unfoldable pub digest : Text → Option Text
unfolding arg_digest
digest cmdline = find_map arg_digest (split_whitespace cmdline)

-- `char::is_ascii_hexdigit`
abbrev pub is_ascii_hexdigit : ℕ → Bool
is_ascii_hexdigit c = leb 48 c && leb c 57 || leb 97 c && leb c 102 || leb 65 c && leb c 70

-- `from_prefixed_or_hex`; `none` is the panic of `from_hex`.
unfoldable pub from_prefixed_or_hex : Text → Option Text
unfolding strip_optional
from_prefixed_or_hex s =
    let hex = strip_optional s (codes "sha512:") in
    if any (λ c. c == b':') hex then none else if all is_ascii_hexdigit hex then some hex else none
