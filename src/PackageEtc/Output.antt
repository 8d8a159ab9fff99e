-- ===== src/PackageEtc/Output.antt =====
-- The text formats of package_etc.rs: what rpm, dpkg and pacman print of `/etc`, and the fstab.
use bootc_migrate.Prelude.{
  ℕ, Bool, true, false, ◌||◌, not, Option, none, some, List, [], ◌∷◌, ◌++◌, map, reverse, ◌==◌,
  if◌then◌else◌, any, filter, filter_map,
}
use bootc_migrate.Text.{
  Text, codes, text_eq, starts_with, strip_prefix, split_on, lines, is_whitespace, trim_start_by,
  trim, is_empty, split_whitespace,
}
use bootc_migrate.PackageEtc.Accounts.{text_set}

abbrev trim_by : (ℕ → Bool) → Text → Text
trim_by p s = reverse (trim_start_by p (reverse (trim_start_by p s)))

relative : Text → Option Text
relative rest =
    let rel = reverse (trim_start_by (λ c. c == b'/') (reverse rest)) in
    if is_empty rel then none else some rel

below_etc : Option Text → Option Text → Option Text
unfolding relative
below_etc (some rest) other = relative rest
below_etc none (some rest) = relative rest
below_etc none none = none

unfoldable pub etc_relative : Text → Option Text
unfolding below_etc strip_prefix trim_start_by
etc_relative path =
    let bare = trim_by (λ c. c == b'"') (trim path) in
    below_etc (strip_prefix bare (codes "/etc/")) (strip_prefix bare (codes "etc/"))

-- The text up to the first occurrence of a pattern, and from it on.
unfoldable pub before : Text → Text → Text
unfolding starts_with
before m [] = []
before m (c ∷ s) = let rest = before m s in if starts_with (c ∷ s) m then [] else c ∷ rest

unfoldable pub from_match : Text → Text → Option Text
unfolding starts_with
from_match m [] = none
from_match m (c ∷ s) =
    let rest = from_match m s in if starts_with (c ∷ s) m then some (c ∷ s) else rest

etc_path : Option Text → Option Text
unfolding etc_relative before
etc_path none = none
etc_path (some path) = etc_relative (before (codes " (") path)

unfoldable pub etc_path_in_output : Text → Option Text
unfolding etc_path from_match
etc_path_in_output line = etc_path (from_match (codes "/etc/") line)

-- `parse_rpm_owned` and `parse_pacman_owned`.
unfoldable pub parse_owned : Text → List Text
unfolding etc_relative text_set lines
parse_owned output = text_set (filter_map etc_relative (lines output))

-- `parse_dpkg_verify` and `parse_pacman_verify`.
unfoldable pub parse_verify : Text → List Text
unfolding etc_path_in_output text_set lines
parse_verify output = text_set (filter_map etc_path_in_output (lines output))

-- A finding on a configuration file.
is_config : Text → Bool
unfolding before split_whitespace text_eq
is_config line =
    any (λ field. text_eq field (codes "c")) (split_whitespace (before (codes "/etc/") line))

unfoldable pub parse_rpm_verify : Text → List Text
unfolding is_config etc_path_in_output text_set lines
parse_rpm_verify output = text_set (filter_map etc_path_in_output (filter is_config (lines output)))

owned_path : Option Text → Option Text
unfolding etc_relative
owned_path none = none
owned_path (some (c ∷ d ∷ path)) = etc_relative path
owned_path (some _) = none

unfoldable pub parse_dpkg_owned : Text → List Text
unfolding owned_path from_match text_set lines
parse_dpkg_owned output =
    text_set (filter_map (λ line. owned_path (from_match (codes ": ") line)) (lines output))

-- `split_inclusive('\n')`, each piece with whether a line feed ends it.
inclusive : List Text → List (Text × Bool)
inclusive [] = []
inclusive (last ∷ []) = if is_empty last then [] else (last, false) ∷ []
inclusive (piece ∷ next ∷ pieces) = (piece, true) ∷ inclusive (next ∷ pieces)

take_by : (ℕ → Bool) → Text → Text
take_by p [] = []
take_by p (c ∷ s) = let rest = take_by p s in if p c then c ∷ rest else []

not_whitespace : ℕ → Bool
unfolding is_whitespace
not_whitespace c = not (is_whitespace c)

with_feed : Bool → Text → Text
with_feed feed body = if feed then body ++ (10 ∷ []) else body

-- One line: the root mount goes, `/home` moves, every other line stays.
unfoldable pub rewrite_line : Text × Bool → Text
unfolding take_by not_whitespace with_feed trim_start_by starts_with text_eq
rewrite_line (body, feed) =
    let first_on = trim_start_by is_whitespace body in
    let after_first = trim_start_by not_whitespace first_on in
    let second_on = trim_start_by is_whitespace after_first in
    let second = take_by not_whitespace second_on in
    let front =
      take_by is_whitespace body
      ++ (take_by not_whitespace first_on ++ take_by is_whitespace after_first) in
    if is_empty first_on || starts_with first_on (codes "#") || is_empty second_on
    then with_feed feed body
    else if text_eq second (codes "/")
    then []
    else if text_eq second (codes "/home")
    then with_feed feed (front ++ (codes "/var/home" ++ trim_start_by not_whitespace second_on))
    else with_feed feed body

concat : List Text → Text
concat [] = []
concat (s ∷ ss) = s ++ concat ss

unfoldable pub rewrite_fstab : Text → Text
unfolding rewrite_line inclusive concat split_on
rewrite_fstab contents = concat (map rewrite_line (inclusive (split_on 10 contents)))
