-- ===== src/PackageEtc/Apart.antt =====
-- The final uids of the carried users: none is the target's, and no two are the same.
use bootc_migrate.Prelude.{
  ℕ, ◌+◌, ◌≤◌, ◌<◌, ◌≡◌, refl, sym, ap, ◌∙◌, subst, ◌⊎◌, inl, inr, Bool, true, false, Option, none,
  some, List, [], ◌∷◌, ◌++◌, arith, ◌==◌, if◌then◌else◌, ==_iff, Bool-cases, Option-cases, is_some,
  length, Result, ok, err, for_each, >>=-eq-ok, if_false, ok-inj,
}
use mathlib.Core.Bool.{true≢false}
use mathlib.Core.Option.{none-ne-some, some-injective}
use mathlib.Core.List.{Memᴰ}
use bootc_migrate.Text.{u32_bound}
use bootc_migrate.Remap.Plan.{holds, uid_kind, RemapEntry}
use bootc_migrate.PackageEtc.Accounts.{PasswdLine}
use bootc_migrate.PackageEtc.Ids.{
  MergeError, next_free_id, id_get, mapped, record_mapping, Allocation, choose_id, note_user,
  map_user,
}
use bootc_migrate.PackageEtc.Free.{next_free_id_lem}

-- What the loop keeps: the ids of both sides are in use; an id is mapped only if the target owns
-- it, to one that neither side had; and no two ids are mapped to one.
abbrev pub IsApart : List ℕ → List ℕ → Allocation → Type 0
IsApart owned base a =
    ((n : ℕ) → holds base n ≡ true → holds a.used n ≡ true)
    × ((o n : ℕ)
        → id_get o a.mapping ≡ some n
        → (holds owned o ≡ true) × (holds base n ≡ false) × (holds a.used n ≡ true))
    × ((o p n : ℕ) → id_get o a.mapping ≡ some n → id_get p a.mapping ≡ some n → o ≡ p)

abbrev pub Extends : Allocation → Allocation → Type 0
Extends a b = (o n : ℕ) → id_get o a.mapping ≡ some n → id_get o b.mapping ≡ some n

holds-cons : (used : List ℕ) (c n : ℕ) → holds used n ≡ true → holds (c ∷ used) n ≡ true
holds-cons used c n h = ground (arith, h)

holds_self : (used : List ℕ) (c : ℕ) → holds (c ∷ used) c ≡ true
holds_self used c = ground arith

not_held : (used : List ℕ) (c n : ℕ) → holds used c ≡ false → holds used n ≡ true → c == n ≡ false
not_held used c n free taken = elim (Bool-cases (c == n)) [
  | inl same ↦
      absurd (true≢false (sym taken ∙ (ap (holds used) (sym ((==_iff c n).0 same)) ∙ free)))
  | inr other ↦ other
]

id_get-head : (o n : ℕ) (m : List (ℕ × ℕ)) → id_get o ((o, n) ∷ m) ≡ some n
unfolding id_get
id_get-head o n m = rw ((==_iff o o).1 refl) refl

pub id_get-tail :
    (o k n : ℕ) (m : List (ℕ × ℕ)) → o == k ≡ false → id_get o ((k, n) ∷ m) ≡ id_get o m
unfolding id_get
id_get-tail o k n m h = rw h refl

-- A new entry for an id that had none.
add-IsApart :
    (owned base : List ℕ) (a : Allocation) (o c : ℕ) (remaps : List RemapEntry)
    → IsApart owned base a
    → holds owned o ≡ true
    → holds a.used c ≡ false
    → id_get o a.mapping ≡ none
    → let b : Allocation = record {
      used = c ∷ a.used;
      mapping = (o, c) ∷ a.mapping;
      remaps = remaps;
    } in
      IsApart owned base b × Extends a b
add-IsApart owned base a o c remaps (in_use, sound, apart) owns free fresh =
    ((λ n h. holds-cons a.used c n (in_use n h), sound_now, apart_now), extends)
  where
    not_base : holds base c ≡ false
    not_base = elim (Bool-cases (holds base c)) [
      | inl old ↦ absurd (true≢false (sym (in_use c old) ∙ free))
      | inr new ↦ new
    ]

    not_value : (p : ℕ) → id_get p a.mapping ≡ some c → ⊥
    not_value p h = true≢false (sym (sound p c h).2 ∙ free)

    value_of :
        (p n : ℕ)
        → id_get p ((o, c) ∷ a.mapping) ≡ some n
        → (p ≡ o) × (c ≡ n) ⊎ (id_get p a.mapping ≡ some n)
    value_of p n h = elim (Bool-cases (p == o)) [
      | inl same ↦
          let at_o = (==_iff p o).0 same in
          inl (
            at_o,
            some-injective _ _ (
                sym (id_get-head o c a.mapping)
                ∙ (ap (λ q. id_get q ((o, c) ∷ a.mapping)) (sym at_o) ∙ h)),
          )
      | inr other ↦ inr (sym (id_get-tail p o c a.mapping other) ∙ h)
    ]

    sound_now :
        (p n : ℕ)
        → id_get p ((o, c) ∷ a.mapping) ≡ some n
        → (holds owned p ≡ true) × (holds base n ≡ false) × (holds (c ∷ a.used) n ≡ true)
    sound_now p n h = elim (value_of p n h) [
      | inl (at_o, value) ↦ (
        ap (holds owned) at_o ∙ owns,
        ap (holds base) (sym value) ∙ not_base,
        ap (holds (c ∷ a.used)) (sym value) ∙ holds_self a.used c,
      )
      | inr old ↦ let (own, new, used) = sound p n old in (own, new, holds-cons a.used c n used)
    ]

    apart_now :
        (p q n : ℕ)
        → id_get p ((o, c) ∷ a.mapping) ≡ some n
        → id_get q ((o, c) ∷ a.mapping) ≡ some n
        → p ≡ q
    apart_now p q n h k = elim (value_of p n h) [
      | inl (at_p, c_p) ↦ elim (value_of q n k) [
        | inl (at_q, c_q) ↦ at_p ∙ sym at_q
        | inr old ↦ absurd (not_value q (old ∙ ap some (sym c_p)))
      ]
      | inr old ↦ elim (value_of q n k) [
        | inl (at_q, c_q) ↦ absurd (not_value p (old ∙ ap some (sym c_q)))
        | inr older ↦ apart p q n old older
      ]
    ]

    extends : (p n : ℕ) → id_get p a.mapping ≡ some n → id_get p ((o, c) ∷ a.mapping) ≡ some n
    extends p n h = elim (Bool-cases (p == o)) [
      | inl same ↦ absurd (
          none-ne-some n
            (sym fresh ∙ (ap (λ q. id_get q a.mapping) (sym ((==_iff p o).0 same)) ∙ h)))
      | inr other ↦ id_get-tail p o c a.mapping other ∙ h
    ]

-- The mapping of an id that is free: it had none before.
mapped_lem :
    (o c : ℕ) (m n : List (ℕ × ℕ)) (previous : Option ℕ)
    → mapped o c m previous ≡ ok n
    → (previous ≡ none) × (n ≡ (o, c) ∷ m) ⊎ (previous ≡ some c)
unfolding mapped
mapped_lem o c m n none e = inl (refl, sym (ok-inj e))
mapped_lem o c m n (some p) e = elim (Bool-cases (p == c)) [
  | inl same ↦ inr (ap some ((==_iff p c).0 same))
  | inr other ↦ absurd (clash (p == c) _ _ _ other e)
]
  where
    clash :
        (b : Bool) (x y : List (ℕ × ℕ)) (z : MergeError)
        → b ≡ false
        → ◌≡◌ {A = Result MergeError (List (ℕ × ℕ))} (if b then ok x else err z) (ok y)
        → ⊥
    clash true x y z f g = cc
    clash false x y z f g = cc

-- What one user's round makes of the allocation.
abbrev Round : List ℕ → List ℕ → PasswdLine → Allocation → Allocation → Type 0
Round owned base user a b =
    IsApart owned base b
    × Extends a b
    × (holds owned user.uid ≡ true → is_some (id_get user.uid b.mapping) ≡ true)
    × (length b.used ≤ length a.used + 1)

-- The allocation after a user got a new id.
abbrev pub moved : PasswdLine → Allocation → ℕ → List (ℕ × ℕ) → Allocation
moved user a c m = record {
  used = c ∷ a.used;
  mapping = m;
  remaps =
      a.remaps
      ++ (record { name = user.name; kind = uid_kind; old_id = user.uid; new_id = c } ∷ []);
}

note_user-moved :
    (owned base : List ℕ) (user : PasswdLine) (a b : Allocation) (c : ℕ)
    → IsApart owned base a
    → holds base user.uid ≡ true
    → holds owned user.uid ≡ true
    → holds a.used c ≡ false
    → note_user user a (c, c ∷ a.used) ≡ ok b
    → Round owned base user a b
unfolding note_user record_mapping
note_user-moved owned base user a b c inv known owns free e =
    let changed : c == user.uid ≡ false = not_held a.used c user.uid free (inv.0 user.uid known) in
    let runs = if_false (c == user.uid) _ _ changed e in
    let (m, maps, built) =
      >>=-eq-ok (mapped user.uid c a.mapping (id_get user.uid a.mapping)) _ runs in
    elim (mapped_lem user.uid c a.mapping m (id_get user.uid a.mapping) maps) [
      | inl (fresh, added) ↦
          let new = (user.uid, c) ∷ a.mapping in
          let (apart, extends) =
            add-IsApart owned base a user.uid c (moved user a c new).remaps inv owns free fresh in
          let round : Round owned base user a (moved user a c new) =
            (apart, extends, λ _. ap is_some (id_get-head user.uid c a.mapping), omega arith) in
          subst (Round owned base user a) (ap (moved user a c) (sym added) ∙ ok-inj built) round
      | inr before ↦ absurd (true≢false (sym (inv.1 user.uid c before).2 ∙ free))
    ]

note_user-kept : (user : PasswdLine) (a : Allocation) → note_user user a (user.uid, a.used) ≡ ok a
unfolding note_user
note_user-kept user a = rw ((==_iff user.uid user.uid).1 refl) refl

map_user-Round :
    (owned base : List ℕ) (uid_min : ℕ) (user : PasswdLine) (a b : Allocation)
    → IsApart owned base a
    → holds base user.uid ≡ true
    → uid_min + length a.used < u32_bound
    → map_user owned uid_min a user ≡ ok b
    → Round owned base user a b
unfolding map_user choose_id
map_user-Round owned base uid_min user a b inv known room e =
    elim (Bool-cases (holds owned user.uid)) [
      | inl owns ↦
          let (c, after) = next_free_id a.used uid_min in
          let (free, low, high, taken) = next_free_id_lem a.used uid_min room in
          note_user-moved owned base user a b c inv known owns free
            (subst (λ x. note_user user a x ≡ ok b) (rw owns refl) e)
      | inr other ↦
          let same : a ≡ b =
            ok-inj (sym (note_user-kept user a) ∙ (ap (note_user user a) (sym (kept other)) ∙ e)) in
          subst (Round owned base user a) same
            (inv, λ o n h. h, λ owns. absurd (true≢false (sym owns ∙ other)), omega arith)
    ]
  where
    kept :
        holds owned user.uid ≡ false → choose_id owned uid_min user.uid a.used ≡ (user.uid, a.used)
    kept other = rw other refl

-- After the loop: what it keeps, and a new id for every user whose id the target owns.
pub loop-IsApart :
    (owned base : List ℕ) (uid_min : ℕ) (users : List PasswdLine) (a b : Allocation)
    → IsApart owned base a
    → ((u : PasswdLine) → Memᴰ u users → holds base u.uid ≡ true)
    → uid_min + length a.used + length users < u32_bound
    → for_each (map_user owned uid_min) users a ≡ ok b
    → IsApart owned base b
      × Extends a b
      × ((u : PasswdLine)
          → Memᴰ u users
          → holds owned u.uid ≡ true
          → is_some (id_get u.uid b.mapping) ≡ true)
unfolding for_each
loop-IsApart owned base uid_min [] a b inv known room e =
    let same = ok-inj e in
    (subst (IsApart owned base) same inv, subst (Extends a) same (λ o n h. h), λ u m. elim m [ ])
loop-IsApart owned base uid_min (user ∷ users) a b inv known room e =
    let (mid, first, rest) =
      >>=-eq-ok (map_user owned uid_min a user) (λ m. for_each (map_user owned uid_min) users m)
        e in
    let (mid_inv, grows, named, count) =
      map_user-Round owned base uid_min user a mid inv (known user (Memᴰ.head refl)) (omega arith)
        first in
    let (end_inv, extends, all_named) =
      loop-IsApart owned base uid_min users mid b mid_inv (λ u m. known u (Memᴰ.tail m))
        (omega arith) rest in
    (end_inv, λ o n h. extends o n (grows o n h), covered mid extends named all_named)
  where
    covered :
        (mid : Allocation)
        → Extends mid b
        → (holds owned user.uid ≡ true → is_some (id_get user.uid mid.mapping) ≡ true)
        → ((u : PasswdLine)
            → Memᴰ u users
            → holds owned u.uid ≡ true
            → is_some (id_get u.uid b.mapping) ≡ true)
        → (u : PasswdLine) → Memᴰ u (user ∷ users)
        → holds owned u.uid ≡ true
        → is_some (id_get u.uid b.mapping) ≡ true
    covered mid extends named rest u (Memᴰ.tail m) owns = rest u m owns
    covered mid extends named rest u (Memᴰ.head same) owns =
        elim (Option-cases (id_get u.uid mid.mapping)) [
          | inl missing ↦ absurd (
              true≢false (
                sym (named (ap (λ v. holds owned v.uid) (sym same) ∙ owns))
                ∙ (ap (λ v. is_some (id_get v.uid mid.mapping)) (sym same) ∙ ap is_some missing)))
          | inr (n, found) ↦ ap is_some (extends u.uid n found)
        ]
