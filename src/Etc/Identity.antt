-- ===== src/Etc/Identity.antt =====
-- The union of the identity databases: `merge_identity_db` and its helpers in mergetc.rs.
pub mod Union
use bootc_migrate.Prelude.{
  ℕ, zero, suc, ◌≡◌, refl, Bool, true, false, ◌||◌, ◌&&◌, not, Option, none, some, List, [], ◌∷◌,
  ◌++◌, arith, if◌then◌else◌, or_option, leb, ltb, ◌==◌,
}
use bootc_migrate.Text.{Text, text_eq, contains, codes, split_on, lines, is_empty}
use bootc_migrate.Etc.Tree.{Bytes}

pub data IdentityMergePolicy : Type 0 where
  source_first target_first : IdentityMergePolicy

unfoldable pub is_identity_db : Text → Bool
unfolding text_eq
is_identity_db p =
    contains
      (codes "passwd"
        ∷ codes "passwd-"
        ∷ codes "shadow"
        ∷ codes "shadow-"
        ∷ codes "group"
        ∷ codes "group-"
        ∷ codes "gshadow"
        ∷ codes "gshadow-"
        ∷ codes "subuid"
        ∷ codes "subuid-"
        ∷ codes "subgid"
        ∷ codes "subgid-"
        ∷ codes "machine-id"
        ∷ [])
      p

unfoldable pub is_password_db : Text → Bool
unfolding text_eq
is_password_db p =
    contains (codes "shadow" ∷ codes "shadow-" ∷ codes "gshadow" ∷ codes "gshadow-" ∷ []) p

-- A lead byte of UTF-8: how many bytes follow it, and the range of the first of them.
lead : ℕ → Option (ℕ × ℕ × ℕ)
lead b =
    if ltb b 0x80
    then some (0, 0x80, 0xbf)
    else if leb 0xc2 b && leb b 0xdf
    then some (1, 0x80, 0xbf)
    else if b == 0xe0
    then some (2, 0xa0, 0xbf)
    else if b == 0xed
    then some (2, 0x80, 0x9f)
    else if leb 0xe1 b && leb b 0xef
    then some (2, 0x80, 0xbf)
    else if b == 0xf0
    then some (3, 0x90, 0xbf)
    else if leb 0xf1 b && leb b 0xf3
    then some (3, 0x80, 0xbf)
    else if b == 0xf4
    then some (3, 0x80, 0x8f)
    else none

valid_from : ℕ → ℕ → ℕ → Bytes → Bool
unfolding lead
valid_from zero lo hi [] = true
valid_from (suc k) lo hi [] = false
valid_from zero lo hi (b ∷ s) = elim (lead b) [ none ↦ false | some (k, l, h) ↦ valid_from k l h s ]
valid_from (suc k) lo hi (b ∷ s) = leb lo b && leb b hi && valid_from k 0x80 0xbf s

-- `std::str::from_utf8`: the same bytes, if they are valid.
unfoldable pub from_utf8 : Bytes → Option Text
unfolding valid_from
from_utf8 s = if valid_from 0 0x80 0xbf s then some s else none

first_piece : List Text → Text
first_piece [] = []
first_piece (piece ∷ pieces) = piece

-- `key_of`: the text before the first colon.
unfoldable pub key_of : Text → Text
unfolding first_piece split_on
key_of line = first_piece (split_on b':' line)

-- The first loop: every line is copied, and the keys of those that are not empty are noted.
pub first_loop : List Text → List Text → Text → List Text × Text
first_loop [] keys out = (keys, out)
first_loop (line ∷ rest) keys out =
    first_loop rest (if is_empty line then keys else key_of line ∷ keys)
      (out ++ (line ++ codes "\n"))

-- The second loop: a line whose key is known is passed over.
second_loop : List Text → List Text → Text → Text
second_loop [] keys out = out
second_loop (line ∷ rest) keys out =
    let skipped = second_loop rest keys out in
    let added = second_loop rest (key_of line ∷ keys) (out ++ (line ++ codes "\n")) in
    if is_empty line then skipped else if contains keys (key_of line) then skipped else added

unfoldable pub union_by_first_field : Text → Text → Text
unfolding first_loop second_loop
union_by_first_field first second =
    let (keys, out) = first_loop (lines first) [] [] in second_loop (lines second) keys out

-- Which side leads.
unfoldable pub takes_target : Text → IdentityMergePolicy → Bool
unfolding is_password_db
takes_target p source_first = false
takes_target p target_first = not (is_password_db p)

unfoldable pub union_sides : Option Bytes → Option Bytes → Option Bytes
unfolding from_utf8
union_sides none second = second
union_sides (some first) second = elim (from_utf8 first) [
  | none ↦ none
  | some first_text ↦ elim second [
    | none ↦ some first_text
    | some s ↦ elim (from_utf8 s) [
      | none ↦ none
      | some second_text ↦ some (union_by_first_field first_text second_text)
    ]
  ]
]

unfoldable pub merge_identity_db :
    Text → Option Bytes → Option Bytes → IdentityMergePolicy → Option Bytes
unfolding union_sides takes_target text_eq
merge_identity_db p current new policy =
    if text_eq p (codes "machine-id")
    then or_option current new
    else if takes_target p policy
    then union_sides new current
    else union_sides current new
