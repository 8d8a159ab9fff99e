-- ===== src/BootCleanup/Fields.antt =====
-- A `BootOrder` as text and as the list of its ids.
use bootc_migrate.Prelude.{
  ◌≡◌, refl, sym, ap, ◌∙◌, subst, ◌||◌, any, any-append, inl, inr, Bool, true, false, not, List, [],
  ◌∷◌, ◌++◌, map, arith, Bool-cases, All, all, filter,
}
use bootc_migrate.Text.{Text, codes, split_on, trim, is_empty, join, eq_ignore_ascii_case}
use bootc_migrate.Text.Fields.{lacks, trim-trim, lacks-trim, split_on-join, split_on-all-lacks}
use bootc_migrate.BootCleanup.Restore.{order_ids, merged_ids, merge_boot_order}
use bootc_migrate.BootCleanup.Order.{merged_ids-keeps}
use bootc_migrate.BootCleanup.Rollback.{new_order_ids, build_new_boot_order}

-- What an id of an order is: trimmed, not empty, and without a comma.
pub record IsField (id : Text) : Type 0 where
  pub trimmed : trim id ≡ id
  pub nonempty : is_empty id ≡ false
  pub whole : lacks b',' id ≡ true

fields_kept :
    (ids : List Text) → All IsField ids → filter (λ id. not (is_empty id)) (map trim ids) ≡ ids
fields_kept [] h = refl
fields_kept (id ∷ ids) h = rw (h.0.trimmed, h.0.nonempty, fields_kept ids h.1)

fields_whole : (ids : List Text) → All IsField ids → all (lacks b',') ids ≡ true
fields_whole [] h = refl
fields_whole (id ∷ ids) h = rw (h.0.whole, fields_whole ids h.1)

-- Reading an order back gives the ids it was written from.
order_ids-join : (ids : List Text) → All IsField ids → order_ids (join (codes ",") ids) ≡ ids
unfolding order_ids split_on join trim
order_ids-join [] h = refl
order_ids-join (id ∷ ids) h =
    rw (split_on-join b',' id ids (fields_whole (id ∷ ids) h)) (fields_kept (id ∷ ids) h)

pieces-IsField :
    (pieces : List Text)
    → all (lacks b',') pieces ≡ true
    → All IsField (filter (λ id. not (is_empty id)) (map trim pieces))
pieces-IsField [] h = tt
pieces-IsField (p ∷ ps) h =
    let rest = pieces-IsField ps (ground arith) in
    elim (Bool-cases (is_empty (trim p))) [
      | inl empty ↦ rw empty rest
      | inr nonempty ↦ rw nonempty (
        record {
          trimmed = trim-trim p;
          nonempty = nonempty;
          whole = lacks-trim b',' p (ground arith);
        },
        rest,
      )
    ]

order_ids-IsField : (order : Text) → All IsField (order_ids order)
unfolding order_ids
order_ids-IsField order = pieces-IsField (split_on b',' order) (split_on-all-lacks b',' order)

filter-IsField : (p : Text → Bool) (ids : List Text) → All IsField ids → All IsField (filter p ids)
filter-IsField p [] h = tt
filter-IsField p (id ∷ ids) h =
    let rest = filter-IsField p ids h.1 in
    elim (Bool-cases (p id)) [ inl kept ↦ rw kept (h.0, rest) | inr dropped ↦ rw dropped rest ]

append-IsField : (xs ys : List Text) → All IsField xs → All IsField ys → All IsField (xs ++ ys)
append-IsField [] ys h k = k
append-IsField (x ∷ xs) ys h k = (h.0, append-IsField xs ys h.1 k)

-- The merged order, read back, is the recorded one's ids followed by those of the current order that
-- it lacks.
pub order_ids-merge_boot_order :
    (restored current : Text)
    → order_ids (merge_boot_order restored current)
      ≡ merged_ids (order_ids restored) (order_ids current)
unfolding merge_boot_order merged_ids
order_ids-merge_boot_order restored current =
    order_ids-join (merged_ids (order_ids restored) (order_ids current)) (
      append-IsField (order_ids restored) _ (order_ids-IsField restored)
        (filter-IsField _ (order_ids current) (order_ids-IsField current)))

-- No id stands twice, its case ignored.
abbrev pub NoTwice : List Text → Type 0
NoTwice [] = Unit
NoTwice (id ∷ ids) = (any (λ j. eq_ignore_ascii_case id j) ids ≡ false) × NoTwice ids

any-filter-false :
    (p q : Text → Bool) (xs : List Text) → any q xs ≡ false → any q (filter p xs) ≡ false
any-filter-false p q [] h = refl
any-filter-false p q (x ∷ xs) h = ground (arith, any-filter-false p q xs)

filter-NoTwice : (p : Text → Bool) (xs : List Text) → NoTwice xs → NoTwice (filter p xs)
filter-NoTwice p [] h = tt
filter-NoTwice p (x ∷ xs) h =
    let rest = filter-NoTwice p xs h.1 in
    elim (Bool-cases (p x)) [
      | inl kept ↦ rw kept (any-filter-false p (λ j. eq_ignore_ascii_case x j) xs h.0, rest)
      | inr dropped ↦ rw dropped rest
    ]

-- What is left out for an id is not equal to it.
any-unlisted :
    (rs cs : List Text) (r : Text)
    → ((c : Text) → eq_ignore_ascii_case r c ≡ true → any (λ k. eq_ignore_ascii_case k c) rs ≡ true)
    → any
        (λ c. eq_ignore_ascii_case r c)
        (filter (λ c. not (any (λ k. eq_ignore_ascii_case k c) rs)) cs)
      ≡ false
any-unlisted rs [] r listed = refl
any-unlisted rs (c ∷ cs) r listed = ground (arith, any-unlisted rs cs r listed, listed c)

append-NoTwice :
    (rs all_ids cs : List Text)
    → ((c : Text)
        → any (λ k. eq_ignore_ascii_case k c) rs ≡ true
        → any (λ k. eq_ignore_ascii_case k c) all_ids ≡ true)
    → NoTwice rs
    → NoTwice cs
    → NoTwice (rs ++ filter (λ c. not (any (λ k. eq_ignore_ascii_case k c) all_ids)) cs)
append-NoTwice [] all_ids cs sub h k = filter-NoTwice _ cs k
append-NoTwice (r ∷ rs) all_ids cs sub h k =
    let extras = filter (λ c. not (any (λ k. eq_ignore_ascii_case k c) all_ids)) cs in
    let apart = any-unlisted all_ids cs r (λ c e. sub c (ground (arith, e))) in
    let parts = any-append (λ j. eq_ignore_ascii_case r j) rs extras in
    (
      ground (arith, h.0, apart, parts),
      append-NoTwice rs all_ids cs (λ c e. sub c (ground (arith, e))) h.1 k,
    )

-- Where neither order has an id twice, the merged `BootOrder`, read back, is the recorded ids in
-- their order and then, in their order, the current ids that are not among them, and has no id
-- twice. It has the ids of both orders and no other. The case of ids is ignored.
pub merge_boot_order_lem :
    (restored current : Text)
    → NoTwice (order_ids restored)
    → NoTwice (order_ids current)
    → let ids = order_ids (merge_boot_order restored current) in
      (ids
        ≡ order_ids restored
          ++ filter
              (λ id. not (any (λ r. eq_ignore_ascii_case r id) (order_ids restored)))
              (order_ids current))
      × NoTwice ids
      × ((id : Text)
          → any (λ m. eq_ignore_ascii_case m id) ids ≡ (
              any (λ m. eq_ignore_ascii_case m id) (order_ids restored)
              || any (λ m. eq_ignore_ascii_case m id) (order_ids current)))
unfolding merged_ids
merge_boot_order_lem restored current h k =
    let rs = order_ids restored in
    let cs = order_ids current in
    let read = order_ids-merge_boot_order restored current in
    (
      read,
      subst NoTwice (sym read) (append-NoTwice rs rs cs (λ c e. e) h k),
      λ id. ap (any (λ m. eq_ignore_ascii_case m id)) read ∙ merged_ids-keeps rs cs id,
    )

-- The order written for a rollback to an id, read back, is that id and then the other ids of the
-- current order, as they stood.
pub order_ids-build_new_boot_order :
    (order target : Text)
    → IsField target
    → order_ids (build_new_boot_order order target) ≡ new_order_ids (order_ids order) target
unfolding build_new_boot_order new_order_ids
order_ids-build_new_boot_order order target field =
    order_ids-join (new_order_ids (order_ids order) target)
      (field, filter-IsField _ (order_ids order) (order_ids-IsField order))
