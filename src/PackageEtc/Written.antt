-- ===== src/PackageEtc/Written.antt =====
-- The lines that `merge_identity` of package_etc.rs writes for the human users.
use bootc_migrate.Prelude.{
  ℕ, ◌≡◌, refl, sym, ap, ◌∙◌, inl, inr, Bool, true, ◌&&◌, Option, none, some, List, [], ◌∷◌, map,
  arith, Bool-cases, Option-cases, All, all, filter, filter_map,
}
use bootc_migrate.Text.{Text, codes, split_on, lines, join, parse_u32, show_nat}
use bootc_migrate.Text.Fields.{lacks, split_on-join, split_on-all-lacks}
use bootc_migrate.Text.Decimal.{is_digit, all_digit-show_nat}
use bootc_migrate.PackageEtc.Accounts.{PasswdLine, passwd_line, passwd_of, parse_passwd_lines}
use bootc_migrate.PackageEtc.Ids.{final_id}
use bootc_migrate.PackageEtc.Identity.{set_uid_gid, user_line, human_accounts}

-- A line has the user's fields, with the two final ids in place of the third and the fourth.
abbrev pub IsWritten : List (ℕ × ℕ) → List (ℕ × ℕ) → PasswdLine → Text → Type 0
IsWritten uids gids user line =
    (password : Text) × (uid : Text) × (gid : Text) × (rest : List Text) × (user.fields
      ≡ user.name ∷ password ∷ uid ∷ gid ∷ rest)
    × (split_on b':' line
        ≡ user.name
          ∷ password
          ∷ show_nat (final_id uids user.uid)
          ∷ show_nat (final_id gids user.gid)
          ∷ rest)

-- One line for each user, in their order.
abbrev pub AreWritten : List (ℕ × ℕ) → List (ℕ × ℕ) → List PasswdLine → List Text → Type 0
AreWritten uids gids [] [] = Unit
AreWritten uids gids [] (line ∷ written) = ⊥
AreWritten uids gids (user ∷ users) [] = ⊥
AreWritten uids gids (user ∷ users) (line ∷ written) =
    IsWritten uids gids user line × AreWritten uids gids users written

-- What the parser promises of the fields of a user.
abbrev HasFields : PasswdLine → Type 0
HasFields user =
    (password : Text) × (uid : Text) × (gid : Text) × (rest : List Text) × (user.fields
      ≡ user.name ∷ password ∷ uid ∷ gid ∷ rest)
    × (all (lacks b':') user.fields ≡ true)

passwd_line-fields :
    (name : Text) (fields : List Text) (uid gid : Option ℕ) {user : PasswdLine}
    → passwd_line name fields uid gid ≡ some user
    → (user.name ≡ name) × (user.fields ≡ fields)
unfolding passwd_line
passwd_line-fields name fields none none e = cc
passwd_line-fields name fields none (some gid) e = cc
passwd_line-fields name fields (some uid) none e = cc
passwd_line-fields name fields (some uid) (some gid) e = (cc, cc)

passwd_of-fields :
    (fields : List Text) {user : PasswdLine}
    → passwd_of fields ≡ some user
    → all (lacks b':') fields ≡ true
    → HasFields user
unfolding passwd_of
passwd_of-fields [] e h = cc
passwd_of-fields (a ∷ []) e h = cc
passwd_of-fields (a ∷ b ∷ []) e h = cc
passwd_of-fields (a ∷ b ∷ c ∷ []) e h = cc
passwd_of-fields (a ∷ b ∷ c ∷ d ∷ []) e h = cc
passwd_of-fields (a ∷ b ∷ c ∷ d ∷ f ∷ []) e h = cc
passwd_of-fields (a ∷ b ∷ c ∷ d ∷ f ∷ g ∷ []) e h = cc
passwd_of-fields (a ∷ b ∷ c ∷ d ∷ f ∷ g ∷ i ∷ rest) e h =
    let (named, same) =
      passwd_line-fields a (a ∷ b ∷ c ∷ d ∷ f ∷ g ∷ i ∷ rest) (parse_u32 c) (parse_u32 d) e in
    (
      b,
      c,
      d,
      f ∷ g ∷ i ∷ rest,
      same ∙ ap (λ n. n ∷ b ∷ c ∷ d ∷ f ∷ g ∷ i ∷ rest) (sym named),
      ap (all (lacks b':')) same ∙ h,
    )

All-filter_map {ℓ} :
    {A B : Type ℓ} (P : B → Type 0) (f : A → Option B) (xs : List A)
    → ((x : A) (y : B) → f x ≡ some y → P y)
    → All P (filter_map f xs)
unfolding filter_map
All-filter_map P f [] h = tt
All-filter_map P f (x ∷ xs) h = elim (Option-cases (f x)) [
  | inl missing ↦ rw missing (All-filter_map P f xs h)
  | inr (y, found) ↦ rw found (h x y found, All-filter_map P f xs h)
]

All-filter {ℓ} :
    {A : Type ℓ} (P : A → Type 0) (p : A → Bool) (xs : List A) → All P xs → All P (filter p xs)
All-filter P p [] h = tt
All-filter P p (x ∷ xs) h =
    let rest = All-filter P p xs h.1 in
    elim (Bool-cases (p x)) [ inl kept ↦ rw kept (h.0, rest) | inr dropped ↦ rw dropped rest ]

human_accounts-HasFields :
    (uid_min : ℕ) (passwd : Text) → All HasFields (human_accounts uid_min passwd)
unfolding human_accounts parse_passwd_lines
human_accounts-HasFields uid_min passwd = All-filter HasFields _ (parse_passwd_lines passwd) (
    All-filter_map HasFields (λ line. passwd_of (split_on b':' line)) (lines passwd)
      (λ line user e. passwd_of-fields (split_on b':' line) e (split_on-all-lacks b':' line)))

lacks_of_digits : (s : Text) → all is_digit s ≡ true → lacks b':' s ≡ true
lacks_of_digits [] h = refl
lacks_of_digits (d ∷ s) h = ground (arith, lacks_of_digits s)

lacks-show_nat : (n : ℕ) → lacks b':' (show_nat n) ≡ true
lacks-show_nat n = lacks_of_digits (show_nat n) (all_digit-show_nat n)

user_line-IsWritten :
    (uids gids : List (ℕ × ℕ)) (user : PasswdLine)
    → HasFields user
    → IsWritten uids gids user (user_line uids gids user)
unfolding user_line set_uid_gid
user_line-IsWritten uids gids user (password, uid, gid, rest, same, free) =
    let new_uid = show_nat (final_id uids user.uid) in
    let new_gid = show_nat (final_id gids user.gid) in
    (
      password,
      uid,
      gid,
      rest,
      same,
      ap (λ fields. split_on b':' (join (codes ":") (set_uid_gid new_uid new_gid fields))) same
          ∙ split_on-join b':' user.name (password ∷ new_uid ∷ new_gid ∷ rest) (
              still (lacks b':' user.name) (lacks b':' password) (lacks b':' uid) (lacks b':' gid) _
                _ _ (lacks-show_nat (final_id uids user.uid))
                (lacks-show_nat (final_id gids user.gid))
                (sym (ap (all (lacks b':')) same) ∙ free)),
    )
  where
    still :
        (a b c d e f g : Bool)
        → e ≡ true
        → f ≡ true
        → (a && (b && (c && (d && g)))) ≡ true
        → (a && (b && (e && (f && g)))) ≡ true
    still a b c d e f g h k l = ground (arith, h, k, l)

user_line-AreWritten :
    (uids gids : List (ℕ × ℕ)) (users : List PasswdLine)
    → All HasFields users
    → AreWritten uids gids users (map (user_line uids gids) users)
user_line-AreWritten uids gids [] h = tt
user_line-AreWritten uids gids (user ∷ users) h =
    (user_line-IsWritten uids gids user h.0, user_line-AreWritten uids gids users h.1)

pub human_users-AreWritten :
    (uids gids : List (ℕ × ℕ)) (uid_min : ℕ) (passwd : Text)
    → let users = human_accounts uid_min passwd in
      AreWritten uids gids users (map (user_line uids gids) users)
human_users-AreWritten uids gids uid_min passwd =
    user_line-AreWritten uids gids (human_accounts uid_min passwd)
      (human_accounts-HasFields uid_min passwd)
