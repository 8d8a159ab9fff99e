-- ===== src/PackageEtc/Total.antt =====
-- When the loop over the human users succeeds: the two-mappings error takes two users of one uid.
use bootc_migrate.Prelude.{
  ℕ, ◌+◌, ◌<◌, ◌≡◌, refl, ap, ◌∙◌, inl, inr, false, none, List, [], ◌∷◌, ◌++◌, ◌==◌, Bool-cases,
  All, length, Result, ok, ◌>>=◌, for_each,
}
use bootc_migrate.Text.{u32_bound}
use bootc_migrate.PackageEtc.Accounts.{PasswdLine}
use bootc_migrate.PackageEtc.Ids.{
  MergeError, id_get, mapped, record_mapping, Allocation, choose_id, note_user, map_user,
}
use bootc_migrate.PackageEtc.Merge.{uids_of, allocate_uids}
use bootc_migrate.PackageEtc.Apart.{id_get-tail, moved}
use bootc_migrate.PackageEtc.Final.{AreApart, allocate_uids-AreApart}

-- No two users have one uid.
abbrev pub AreDistinct : List PasswdLine → Type 0
AreDistinct [] = Unit
AreDistinct (u ∷ us) = All (λ v. v.uid == u.uid ≡ false) us × AreDistinct us

abbrev AreUnmapped : List PasswdLine → Allocation → Type 0
AreUnmapped us a = All (λ v. id_get v.uid a.mapping ≡ none) us

-- A round that succeeds and touches the entry of no other id.
abbrev Succeeds : PasswdLine → Allocation → Result MergeError Allocation → Type 0
Succeeds user a result =
    (b : Allocation) × (result ≡ ok b)
    × ((o : ℕ) → o == user.uid ≡ false → id_get o b.mapping ≡ id_get o a.mapping)

note_user-ok :
    (user : PasswdLine) (a : Allocation) (x : ℕ × List ℕ)
    → id_get user.uid a.mapping ≡ none
    → Succeeds user a (note_user user a x)
unfolding note_user record_mapping mapped
note_user-ok user a (chosen, used) fresh = elim (Bool-cases (chosen == user.uid)) [
  | inl same ↦ (record a { used = used }, rw same refl, λ o n. refl)
  | inr other ↦ (
    record (moved user a chosen ((user.uid, chosen) ∷ a.mapping)) { used = used },
    rw (other, fresh) refl,
    λ o n. id_get-tail o user.uid chosen a.mapping n,
  )
]

still_unmapped :
    (user : PasswdLine) (us : List PasswdLine) (a b : Allocation)
    → All (λ v. v.uid == user.uid ≡ false) us
    → ((o : ℕ) → o == user.uid ≡ false → id_get o b.mapping ≡ id_get o a.mapping)
    → AreUnmapped us a
    → AreUnmapped us b
still_unmapped user [] a b d same h = tt
still_unmapped user (v ∷ us) a b (other, d) same (none_yet, h) =
    (same v.uid other ∙ none_yet, still_unmapped user us a b d same h)

loop-ok :
    (owned : List ℕ) (uid_min : ℕ) (us : List PasswdLine) (a : Allocation)
    → AreDistinct us
    → AreUnmapped us a
    → (b : Allocation) × (for_each (map_user owned uid_min) us a ≡ ok b)
unfolding for_each map_user
loop-ok owned uid_min [] a d h = (a, refl)
loop-ok owned uid_min (user ∷ us) a (apart, d) (fresh, h) =
    let (mid, first, same) = note_user-ok user a (choose_id owned uid_min user.uid a.used) fresh in
    let (b, rest) = loop-ok owned uid_min us mid d (still_unmapped user us a mid apart same h) in
    (b, ap (λ r. r >>= (λ m. for_each (map_user owned uid_min) us m)) first ∙ rest)

none_mapped : (us : List PasswdLine) → All (λ v. id_get v.uid [] ≡ none) us
unfolding id_get
none_mapped [] = tt
none_mapped (u ∷ us) = (refl, none_mapped us)

-- Users of distinct uids are all given an id.
pub allocate_uids-ok :
    (uid_min : ℕ) (target_users source_users : List PasswdLine)
    → AreDistinct source_users
    → (a : Allocation) × (allocate_uids uid_min target_users source_users ≡ ok a)
unfolding allocate_uids
allocate_uids-ok uid_min target_users source_users distinct =
    loop-ok (uids_of target_users) uid_min source_users _ distinct (none_mapped source_users)

-- Where no two human users have one uid and the ids of both sides, with one more for each human user, stay below 2^32 from the minimum on, every human user is given an id: none of the target's, no two the same for two uids, and the old one if the target does not own it.
pub allocate_uids-total :
    (uid_min : ℕ) (target_users source_users : List PasswdLine)
    → AreDistinct source_users
    → uid_min + length (uids_of target_users ++ uids_of source_users) + length source_users
      < u32_bound
    → (a : Allocation) × (allocate_uids uid_min target_users source_users ≡ ok a)
      × AreApart target_users source_users a.mapping
allocate_uids-total uid_min target_users source_users distinct room =
    let (a, succeeds) = allocate_uids-ok uid_min target_users source_users distinct in
    (a, succeeds, allocate_uids-AreApart uid_min target_users source_users a room succeeds)
