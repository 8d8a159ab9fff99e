-- ===== src/PackageEtc/Final.antt =====
-- The merged passwd table: the target's accounts as they are, and the carried ones apart from them.
use bootc_migrate.Prelude.{
  ℕ, ◌+◌, ◌<◌, ◌≡◌, refl, sym, ap, ◌∙◌, ◌⊎◌, inl, inr, Bool, true, false, ◌||◌, Option, none, some,
  List, [], ◌∷◌, ◌++◌, map, ◌==◌, if◌then◌else◌, ==_iff, Bool-cases, Option-cases, is_some, length,
  any, find?, find?-eq-none, any-append, Result, ok, err, >>=-eq-ok, or_false, ok-inj,
}
use mathlib.Core.Bool.{true≢false}
use mathlib.Core.List.{Memᴰ}
use bootc_migrate.Text.{Text, contains, lines, is_empty, u32_bound}
use bootc_migrate.Remap.Plan.{holds}
use bootc_migrate.PackageEtc.Accounts.{
  PasswdLine, GroupLine, text_set, parse_uid_min, parse_passwd_lines, parse_group_lines, end_lines,
}
use bootc_migrate.PackageEtc.Ids.{id_get, Allocation, or_old, final_id}
use bootc_migrate.PackageEtc.Identity.{
  Tables, IdentityMerge, id_set, selected, human_accounts, user_line,
}
use bootc_migrate.PackageEtc.Merge.{
  uids_of, names_of, allocate_uids, allocate_gids, merged_tables, merge_accepted, merge_named,
  merge_identity,
}
use bootc_migrate.PackageEtc.Written.{AreWritten, human_users-AreWritten}
use bootc_migrate.PackageEtc.Apart.{IsApart, loop-IsApart}

-- No final uid is one of the target's, users with one final uid had one uid before, and a uid that the target does not own is kept.
abbrev pub AreApart : List PasswdLine → List PasswdLine → List (ℕ × ℕ) → Type 0
AreApart target_users source_users uids =
    ((u : PasswdLine)
      → Memᴰ u source_users
      → holds (uids_of target_users) (final_id uids u.uid) ≡ false)
    × ((u v : PasswdLine)
        → Memᴰ u source_users
        → Memᴰ v source_users
        → final_id uids u.uid ≡ final_id uids v.uid
        → u.uid ≡ v.uid)
    × ((n : ℕ) → holds (uids_of target_users) n ≡ false → final_id uids n ≡ n)

holds-left : (xs ys : List ℕ) (n : ℕ) → holds (xs ++ ys) n ≡ false → holds xs n ≡ false
holds-left xs ys n h = (or_false (holds xs n) (holds ys n) (sym (any-append _ xs ys) ∙ h)).0

true_right : (a : Bool) {b : Bool} → b ≡ true → (a || b) ≡ true
true_right true h = refl
true_right false h = h

holds-right : (xs ys : List ℕ) (n : ℕ) → holds ys n ≡ true → holds (xs ++ ys) n ≡ true
holds-right xs ys n h = any-append (λ i. n == i) xs ys ∙ true_right (any (λ i. n == i) xs) h

holds_uid :
    (users : List PasswdLine) (u : PasswdLine) → Memᴰ u users → holds (uids_of users) u.uid ≡ true
holds_uid (v ∷ users) u (Memᴰ.head e) = rw ((==_iff u.uid v.uid).1 (ap (λ w. w.uid) e)) refl
holds_uid (v ∷ users) u (Memᴰ.tail m) = true_right (u.uid == v.uid) (holds_uid users u m)
holds_uid [] u m = elim m [ ]

final_id-cases :
    (m : List (ℕ × ℕ)) (n : ℕ)
    → (id_get n m ≡ none) × (final_id m n ≡ n) ⊎ (id_get n m ≡ some (final_id m n))
unfolding final_id
final_id-cases m n = elim (Option-cases (id_get n m)) [
  | inl missing ↦ inl (missing, ap (or_old n) missing)
  | inr (v, found) ↦ inr (found ∙ ap some (sym (ap (or_old n) found)))
]

-- What the loop keeps, as a statement on the final ids.
settle :
    (target_users source_users : List PasswdLine) (a : Allocation)
    → IsApart (uids_of target_users) (uids_of target_users ++ uids_of source_users) a
    → ((u : PasswdLine)
        → Memᴰ u source_users
        → holds (uids_of target_users) u.uid ≡ true
        → is_some (id_get u.uid a.mapping) ≡ true)
    → AreApart target_users source_users a.mapping
settle target_users source_users a (in_use, sound, apart) named = (free, one_to_one, kept)
  where
    owned : List ℕ
    owned = uids_of target_users

    base : List ℕ
    base = owned ++ uids_of source_users

    not_owned : (n : ℕ) → (holds owned n ≡ true → ⊥) → holds owned n ≡ false
    not_owned n h = elim (Bool-cases (holds owned n)) [
      | inl owns ↦ absurd (h owns)
      | inr other ↦ other
    ]

    free : (u : PasswdLine) → Memᴰ u source_users → holds owned (final_id a.mapping u.uid) ≡ false
    free u m = elim (final_id-cases a.mapping u.uid) [
      | inl (missing, same) ↦
          ap (holds owned) same
          ∙ not_owned u.uid (λ owns. true≢false (sym (named u m owns) ∙ ap is_some missing))
      | inr found ↦
          holds-left owned (uids_of source_users) _ (sound u.uid (final_id a.mapping u.uid) found).1
    ]

    unmapped : (u : PasswdLine) (n : ℕ) → Memᴰ u source_users → id_get n a.mapping ≡ some u.uid → ⊥
    unmapped u n m h = true≢false (
        sym (holds-right owned (uids_of source_users) u.uid (holds_uid source_users u m))
        ∙ (sound n u.uid h).1)

    one_to_one :
        (u v : PasswdLine)
        → Memᴰ u source_users
        → Memᴰ v source_users
        → final_id a.mapping u.uid ≡ final_id a.mapping v.uid
        → u.uid ≡ v.uid
    one_to_one u v mu mv e = elim (final_id-cases a.mapping u.uid) [
      | inl (_, same_u) ↦ elim (final_id-cases a.mapping v.uid) [
        | inl (_, same_v) ↦ sym same_u ∙ (e ∙ same_v)
        | inr found ↦ absurd (unmapped u v.uid mu (found ∙ ap some (sym e ∙ same_u)))
      ]
      | inr found ↦ elim (final_id-cases a.mapping v.uid) [
        | inl (_, same_v) ↦ absurd (unmapped v u.uid mv (found ∙ ap some (e ∙ same_v)))
        | inr other ↦ apart u.uid v.uid (final_id a.mapping v.uid) (found ∙ ap some e) other
      ]
    ]

    kept : (n : ℕ) → holds owned n ≡ false → final_id a.mapping n ≡ n
    kept n other = elim (final_id-cases a.mapping n) [
      | inl (_, same) ↦ same
      | inr found ↦ absurd (true≢false (sym (sound n (final_id a.mapping n) found).0 ∙ other))
    ]

pub allocate_uids-AreApart :
    (uid_min : ℕ) (target_users source_users : List PasswdLine) (a : Allocation)
    → uid_min + length (uids_of target_users ++ uids_of source_users) + length source_users
      < u32_bound
    → allocate_uids uid_min target_users source_users ≡ ok a
    → AreApart target_users source_users a.mapping
unfolding allocate_uids id_get
allocate_uids-AreApart uid_min target_users source_users a room e =
    let owned = uids_of target_users in
    let base = owned ++ uids_of source_users in
    let start : Allocation = record { used = base; mapping = []; remaps = [] } in
    let (inv, grows, named) =
      loop-IsApart owned base uid_min source_users start a
        ((λ n h. h), (λ o n h. cc), (λ o p n h k. cc))
        (λ u m. holds-right owned (uids_of source_users) u.uid (holds_uid source_users u m)) room
        e in
    settle target_users source_users a inv named

no_ok :
    (b : Bool) {E A : Type 0} (x : E) (y : Result E A) (z : A)
    → (if b then err x else y) ≡ ok z
    → (b ≡ false) × (y ≡ ok z)
no_ok true x y z e = cc
no_ok false x y z e = (refl, e)

merge_named-ok :
    (uid_min : ℕ) (source target : Tables) (target_users source_users : List PasswdLine)
    (clash : Option Text) (merge : IdentityMerge)
    → merge_named uid_min source target target_users source_users clash ≡ ok merge
    → (clash ≡ none)
      × (merge_accepted uid_min source target target_users source_users
            (parse_group_lines target.group)
          ≡ ok merge)
unfolding merge_named
merge_named-ok uid_min source target target_users source_users (some name) merge e = cc
merge_named-ok uid_min source target target_users source_users none merge e =
    (refl, (no_ok (is_empty (parse_group_lines target.group)) _ _ merge e).1)

merge_accepted-ok :
    (uid_min : ℕ) (source target : Tables) (target_users source_users : List PasswdLine)
    (target_groups : List GroupLine) (merge : IdentityMerge)
    → merge_accepted uid_min source target target_users source_users target_groups ≡ ok merge
    → let primary = id_set (map (λ (p : PasswdLine). p.gid) source_users) in
      let carried =
        selected primary (text_set (names_of source_users)) (parse_group_lines source.group) in
      (u : Allocation) × (g : Allocation) × (allocate_uids uid_min target_users source_users ≡ ok u)
      × (allocate_gids uid_min target_groups carried primary ≡ ok g)
      × (merge.tables.passwd
          ≡ end_lines (lines target.passwd ++ map (user_line u.mapping g.mapping) source_users))
unfolding merge_accepted merged_tables
merge_accepted-ok uid_min source target target_users source_users target_groups merge e =
    let (u, users, after) = >>=-eq-ok (allocate_uids uid_min target_users source_users) _ e in
    let primary = id_set (map (λ (p : PasswdLine). p.gid) source_users) in
    let carried =
      selected primary (text_set (names_of source_users)) (parse_group_lines source.group) in
    let (g, groups, built) =
      >>=-eq-ok (allocate_gids uid_min target_groups carried primary) _ after in
    (u, g, users, groups, ap (λ (m : IdentityMerge). m.tables.passwd) (sym (ok-inj built)))

-- A merge that succeeds, where the ids of both sides and one more for each human user stay below
-- 2^32 from UID_MIN on, writes the target's passwd lines as they are and then one line for each human
-- user: it has the user's fields, with the new uid and the gid that the allocation of gids maps the
-- old one to in place of the old ones. No name of a human user is one of the target's, no new uid is one of the
-- target's, users with one new uid had one uid, and a uid that the target does not own is kept.
pub merge_identity-passwd :
    (source target : Tables) (login_defs : Text) {merge : IdentityMerge}
    → let uid_min = parse_uid_min login_defs in
      let target_users = parse_passwd_lines target.passwd in
      let source_users = human_accounts uid_min source.passwd in
      let primary = id_set (map (λ (p : PasswdLine). p.gid) source_users) in
      let carried =
        selected primary (text_set (names_of source_users)) (parse_group_lines source.group) in
      uid_min + length (uids_of target_users ++ uids_of source_users) + length source_users
        < u32_bound
      → merge_identity source target login_defs ≡ ok merge
      → (u : Allocation) × (g : Allocation) × (written : List Text) × (merge.tables.passwd
          ≡ end_lines (lines target.passwd ++ written))
        × AreWritten u.mapping g.mapping source_users written
        × AreApart target_users source_users u.mapping
        × (allocate_gids uid_min (parse_group_lines target.group) carried primary ≡ ok g)
        × (any (contains (names_of target_users)) (text_set (names_of source_users)) ≡ false)
unfolding merge_identity
merge_identity-passwd source target login_defs {merge} room e =
    let uid_min = parse_uid_min login_defs in
    let target_users = parse_passwd_lines target.passwd in
    let source_users = human_accounts uid_min source.passwd in
    let human_names = text_set (names_of source_users) in
    let clash = find? (contains (names_of target_users)) human_names in
    let named = (no_ok (is_empty target_users) _ _ merge e).1 in
    let (no_clash, accepted) =
      merge_named-ok uid_min source target target_users source_users clash merge named in
    let (u, g, users, groups, passwd) =
      merge_accepted-ok uid_min source target target_users source_users
        (parse_group_lines target.group) merge accepted in
    (
      u,
      g,
      map (user_line u.mapping g.mapping) source_users,
      passwd,
      human_users-AreWritten u.mapping g.mapping uid_min source.passwd,
      allocate_uids-AreApart uid_min target_users source_users u room users,
      groups,
      find?-eq-none (contains (names_of target_users)) human_names no_clash,
    )
