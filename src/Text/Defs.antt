-- ===== src/Text/Defs.antt =====
-- A `str` is the list of its characters (scalar values). Where the program handles raw bytes, the
-- same functions run on the bytes: they look only for ASCII separators there.
use Prim.Native.Char.{code}
use bootc_migrate.Prelude.{
  ℕ, ◌+◌, String, Bool, true, false, ◌&&◌, ◌||◌, not, Option, none, some, List, [], ◌∷◌, ◌++◌, map,
  reverse, if◌then◌else◌, ltb, leb, ◌==◌, any, filter,
}

abbrev pub Text : Type 0
Text = List ℕ

-- A literal.
abbrev pub codes : String → Text
codes String.[] = []
codes (String.◌∷◌ c s) = code c ∷ codes s

unfoldable pub text_eq : Text → Text → Bool
text_eq [] [] = true
text_eq [] (d ∷ t) = false
text_eq (c ∷ s) [] = false
text_eq (c ∷ s) (d ∷ t) = c == d && text_eq s t

-- `Ord for str`: lexicographic. The order of UTF-8 bytes and that of characters agree.
unfoldable pub text_le : Text → Text → Bool
text_le [] t = true
text_le (c ∷ s) [] = false
text_le (c ∷ s) (d ∷ t) = ltb c d || c == d && text_le s t

abbrev pub contains : List Text → Text → Bool
contains xs s = any (text_eq s) xs

unfoldable pub starts_with : Text → Text → Bool
starts_with s [] = true
starts_with [] (d ∷ p) = false
starts_with (c ∷ s) (d ∷ p) = c == d && starts_with s p

unfoldable pub ends_with : Text → Text → Bool
unfolding starts_with
ends_with s p = starts_with (reverse s) (reverse p)

unfoldable pub strip_prefix : Text → Text → Option Text
strip_prefix s [] = some s
strip_prefix [] (d ∷ p) = none
strip_prefix (c ∷ s) (d ∷ p) = let rest = strip_prefix s p in if c == d then rest else none

unfoldable pub push_head : ℕ → List Text → List Text
push_head c [] = (c ∷ []) ∷ []
push_head c (piece ∷ pieces) = (c ∷ piece) ∷ pieces

-- `split` by a test on characters. There is always a first piece.
unfoldable pub split_by : (ℕ → Bool) → Text → List Text
unfolding push_head
split_by p [] = [] ∷ []
split_by p (c ∷ s) = let rest = split_by p s in if p c then [] ∷ rest else push_head c rest

unfoldable pub split_on : ℕ → Text → List Text
unfolding split_by
split_on c = split_by (λ d. d == c)

strip_cr : Text → Text
strip_cr [] = []
strip_cr (c ∷ []) = if c == 13 then [] else c ∷ []
strip_cr (c ∷ d ∷ s) = c ∷ strip_cr (d ∷ s)

finish_lines : List Text → List Text
unfolding strip_cr
finish_lines [] = []
finish_lines ([] ∷ []) = []
finish_lines ((c ∷ s) ∷ []) = (c ∷ s) ∷ []
finish_lines (l ∷ m ∷ ls) = strip_cr l ∷ finish_lines (m ∷ ls)

-- `lines`: a final line feed opens no line, and "\r\n" ends a line too.
unfoldable pub lines : Text → List Text
unfolding split_on finish_lines
lines s = finish_lines (split_on 10 s)

-- `char::is_whitespace`: the characters of the property White_Space.
unfoldable pub is_whitespace : ℕ → Bool
is_whitespace c =
    leb 9 c && leb c 13
    || c == 32
    || c == 0x85
    || c == 0xa0
    || c == 0x1680
    || leb 0x2000 c && leb c 0x200a
    || c == 0x2028
    || c == 0x2029
    || c == 0x202f
    || c == 0x205f
    || c == 0x3000

-- `char::is_control`: the category Cc.
unfoldable pub is_control : ℕ → Bool
is_control c = ltb c 32 || leb 127 c && leb c 159

unfoldable pub trim_start_by : (ℕ → Bool) → Text → Text
trim_start_by p [] = []
trim_start_by p (c ∷ s) = let rest = trim_start_by p s in if p c then rest else c ∷ s

unfoldable pub trim : Text → Text
unfolding trim_start_by is_whitespace
trim s = reverse (trim_start_by is_whitespace (reverse (trim_start_by is_whitespace s)))

abbrev pub is_empty {ℓ} : {A : Type ℓ} → List A → Bool
is_empty [] = true
is_empty (x ∷ xs) = false

unfoldable pub split_whitespace : Text → List Text
unfolding split_by is_whitespace
split_whitespace s = filter (λ w. not (is_empty w)) (split_by is_whitespace s)

-- `join`
unfoldable pub join : Text → List Text → Text
join sep [] = []
join sep (s ∷ []) = s
join sep (s ∷ t ∷ ts) = s ++ (sep ++ join sep (t ∷ ts))

-- `u8::to_ascii_lowercase`
unfoldable pub to_lower : ℕ → ℕ
to_lower c = if leb 65 c && leb c 90 then c + 32 else c

unfoldable pub eq_ignore_ascii_case : Text → Text → Bool
unfolding text_eq to_lower
eq_ignore_ascii_case s t = text_eq (map to_lower s) (map to_lower t)

unfoldable pub insert_sorted : Text → List Text → List Text
insert_sorted s [] = s ∷ []
insert_sorted s (t ∷ ts) =
    let rest = insert_sorted s ts in if text_le s t then s ∷ t ∷ ts else t ∷ rest

-- `sort` on a vector of strings.
unfoldable pub sort : List Text → List Text
unfolding insert_sorted text_le
sort [] = []
sort (s ∷ ss) = insert_sorted s (sort ss)

-- `dedup`: removes repeats that stand side by side.
unfoldable pub dedup : List Text → List Text
unfolding text_eq
dedup [] = []
dedup (s ∷ []) = s ∷ []
dedup (s ∷ t ∷ ts) = let rest = dedup (t ∷ ts) in if text_eq s t then rest else s ∷ rest

-- `str::contains`
unfoldable pub has_substring : Text → Text → Bool
unfolding starts_with
has_substring [] m = is_empty m
has_substring (c ∷ s) m = starts_with (c ∷ s) m || has_substring s m

unfoldable pub to_ascii_lowercase : Text → Text
unfolding to_lower
to_ascii_lowercase = map to_lower

unfoldable pub trim_start : Text → Text
unfolding trim_start_by is_whitespace
trim_start = trim_start_by is_whitespace

unfoldable pub split_once_at : ℕ → ℕ → Text → Option (Text × Text) → Option (Text × Text)
split_once_at c d s none = if d == c then some ([], s) else none
split_once_at c d s (some (before, after)) =
    if d == c then some ([], s) else some (d ∷ before, after)

-- `split_once` at a character.
unfoldable pub split_once : ℕ → Text → Option (Text × Text)
unfolding split_once_at
split_once c [] = none
split_once c (d ∷ s) = split_once_at c d s (split_once c s)
