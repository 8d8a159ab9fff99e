-- ===== src/InstallCommit/Carried.antt =====
-- What the comparison of the two `/var` trees promises.
use bootc_migrate.Prelude.{
  if_true, if_false, ok-inj, and_true, ℕ, ◌≡◌, refl, sym, ap, ◌∙◌, subst, inl, inr, true, false,
  Option, none, some, Bool, ◌||◌, List, [], ◌∷◌, arith, ◌==◌, Bool-cases, Result, ok, >>=-eq-ok,
}
use bootc_migrate.Text.{Text, text_eq, contains, sort, text_eq→eq, contains-sort}
use bootc_migrate.InstallCommit.Paths.{is_volatile}
use bootc_migrate.InstallCommit.Tree.{
  Meta, Kind, a_dir, special, Tree, leaf, closed, dir, Items, nil, entry, kind_of, same_kind,
  find_in, find_at, all_on_device, on_device,
}
use bootc_migrate.InstallCommit.Var.{
  VarDiff, child, look, diff_items, diff_entry, diff_var, report, sorted, enter,
}
use bootc_migrate.InstallCommit.Clean.{
  IsClean, on_the_way, contains_head, below_path, is_carried_over, is_volatile-below_path,
  plus_result-eq-ok, plus-IsClean, IsPresent, look-IsClean,
}

carried_of_volatile :
    (live : Text → Option (Kind × ℕ)) (rel : Text) (k : Kind)
    → is_volatile rel ≡ true
    → is_carried_over live rel k ≡ true
carried_of_volatile live rel k h = rw h

carried_of_present :
    (live : Text → Option (Kind × ℕ)) (rel : Text) (k : Kind) (same : ℕ → Result Text VarDiff)
    (d : VarDiff)
    → IsPresent rel k (live rel) same d
    → is_carried_over live rel k ≡ true
unfolding IsPresent
carried_of_present live rel k same d (live_kind, len, found, equal, next) =
    ground (arith, found, equal)

-- The path, or a directory above it, is among `changed`, or the path is carried over.
abbrev pub is_accounted : List Text → (Text → Option (Kind × ℕ)) → Text → List Text → Kind → Bool
is_accounted changed live rel ns k =
    on_the_way changed rel ns || is_carried_over live (below_path rel ns) k

accounted_of_carried :
    (changed : List Text) (live : Text → Option (Kind × ℕ)) (rel : Text) (ns : List Text) (k : Kind)
    → is_carried_over live (below_path rel ns) k ≡ true
    → is_accounted changed live rel ns k ≡ true
accounted_of_carried changed live rel ns k h = right_true (on_the_way changed rel ns) _ h
  where
    right_true : (a b : Bool) → b ≡ true → (a || b) ≡ true
    right_true a b h = ground (arith, h)

accounted_of_changed :
    (changed : List Text) (live : Text → Option (Kind × ℕ)) (rel : Text) (ns : List Text) (k : Kind)
    → contains changed rel ≡ true
    → is_accounted changed live rel ns k ≡ true
accounted_of_changed changed live rel [] k h = rw h refl
accounted_of_changed changed live rel (n ∷ ns) k h = rw h refl

accounted_of_below :
    (changed : List Text) (live : Text → Option (Kind × ℕ)) (rel n : Text) (ns : List Text)
    (k : Kind)
    → is_accounted changed live (child rel n) ns k ≡ true
    → is_accounted changed live rel (n ∷ ns) k ≡ true
accounted_of_below changed live rel n ns k h =
    widen (contains changed rel) (on_the_way changed (child rel n) ns) _ h
  where
    widen : (a b c : Bool) → (b || c) ≡ true → ((a || b) || c) ≡ true
    widen a b c h = ground (arith, h)

at_look :
    (changed : List Text) (live : Text → Option (Kind × ℕ)) (rel : Text) (k : Kind)
    (same : ℕ → Result Text VarDiff) {d : VarDiff}
    → same_kind k special ≡ false
    → look rel k (live rel) same ≡ ok d
    → IsClean changed d
    → is_accounted changed live rel [] k ≡ true
at_look changed live rel k same ordinary e clean =
    elim (look-IsClean changed rel k (live rel) same ordinary e clean) [
      | inl c ↦ accounted_of_changed changed live rel [] k c
      | inr (inl v) ↦ accounted_of_carried changed live rel [] k (carried_of_volatile live rel k v)
      | inr (inr p) ↦
          accounted_of_carried changed live rel [] k (carried_of_present live rel k same _ p)
    ]

none_is_some {ℓ κ} : {A : Type ℓ} {P : Type κ} {a : A} → none ≡ some a → P
none_is_some e = cc

some-inj {ℓ} : {A : Type ℓ} {a b : A} → some a ≡ some b → a ≡ b
some-inj e = cc

-- What the walk below a directory reports, when nothing is missing live and the directory is entered.
enter-IsClean :
    (changed : List Text) (root : ℕ) (m : Meta) (below : Result Text VarDiff) {d : VarDiff}
    → m.dev == root ≡ true
    → enter root m below ≡ ok d
    → IsClean changed d
    → (b : VarDiff) × (below ≡ ok b) × IsClean changed b
unfolding enter
enter-IsClean changed root m below device e clean =
    let (a, b, first, rest, sum) =
      plus_result-eq-ok (ok (report 0 [] [])) below (if_true (m.dev == root) _ _ device e) in
    (b, rest, (plus-IsClean changed a b sum clean).1)

at_itself :
    (changed : List Text) (live : Text → Option (Kind × ℕ)) (rel : Text) (t t' : Tree)
    → some t ≡ some t'
    → same_kind (kind_of t') special ≡ false
    → (same_kind (kind_of t) special ≡ false → is_accounted changed live rel [] (kind_of t) ≡ true)
    → is_accounted changed live rel [] (kind_of t') ≡ true
at_itself changed live rel t t' e ordinary h =
    subst (λ u. is_accounted changed live rel [] (kind_of u) ≡ true) (some-inj e)
      (h (subst (λ u. same_kind (kind_of u) special ≡ false) (sym (some-inj e)) ordinary))

mutual
  unfolding diff_items find_in all_on_device IsPresent

  items-IsClean :
      (changed : List Text) (live : Text → Option (Kind × ℕ)) (root : ℕ) (rel : Text)
      (items : Items) (d : VarDiff) (n : Text) (ns : List Text) (t' : Tree)
      → all_on_device root items ≡ true
      → diff_items live root rel items ≡ ok d
      → IsClean changed d
      → find_in items (n ∷ ns) ≡ some t'
      → same_kind (kind_of t') special ≡ false
      → is_accounted changed live (child rel n) ns (kind_of t') ≡ true
  items-IsClean changed live root rel nil d n ns t' device e clean found ordinary =
      none_is_some found
  items-IsClean changed live root rel (entry m t rest) d n ns t' device e clean found ordinary =
      let (a, b, first, later, sum) =
        plus_result-eq-ok (diff_entry live root (child rel m) t) (diff_items live root rel rest)
          e in
      let (clean_a, clean_b) = plus-IsClean changed a b sum clean in
      elim (Bool-cases (text_eq n m)) [
        | inl t_eq ↦
            subst (λ x. is_accounted changed live (child rel x) ns (kind_of t') ≡ true)
              (sym (text_eq→eq n m t_eq))
              (entry-IsClean changed live root (child rel m) t a ns t'
                ((and_true (on_device root t) (all_on_device root rest) device).0) first clean_a
                (if_true (text_eq n m) _ _ t_eq found) ordinary)
        | inr f ↦
            items-IsClean changed live root rel rest b n ns t'
              ((and_true (on_device root t) (all_on_device root rest) device).1) later clean_b
              (if_false (text_eq n m) _ _ f found) ordinary
      ]

  entry-IsClean :
      (changed : List Text) (live : Text → Option (Kind × ℕ)) (root : ℕ) (rel : Text) (t : Tree)
      (d : VarDiff) (ns : List Text) (t' : Tree)
      → on_device root t ≡ true
      → diff_entry live root rel t ≡ ok d
      → IsClean changed d
      → find_at t ns ≡ some t'
      → same_kind (kind_of t') special ≡ false
      → is_accounted changed live rel ns (kind_of t') ≡ true
  entry-IsClean changed live root rel (leaf k m) d [] t' device e clean found ordinary =
      at_itself changed live rel (leaf k m) t' found ordinary
        (λ o. at_look changed live rel k _ o e clean)
  entry-IsClean changed live root rel (closed m) d [] t' device e clean found ordinary =
      at_itself changed live rel (closed m) t' found ordinary
        (λ o. at_look changed live rel a_dir _ o e clean)
  entry-IsClean changed live root rel (dir m items) d [] t' device e clean found ordinary =
      at_itself changed live rel (dir m items) t' found ordinary
        (λ o. at_look changed live rel a_dir _ o e clean)
  entry-IsClean changed live root rel (leaf k m) d (n ∷ ns) t' device e clean found ordinary =
      none_is_some found
  entry-IsClean changed live root rel (closed m) d (n ∷ ns) t' device e clean found ordinary =
      none_is_some found
  entry-IsClean changed live root rel (dir m items) d (n ∷ ns) t' device e clean found ordinary =
      let below = diff_items live root rel items in
      elim (look-IsClean changed rel a_dir (live rel) (λ len. enter root m below) refl e clean) [
        | inl c ↦ accounted_of_changed changed live rel (n ∷ ns) (kind_of t') c
        | inr (inl v) ↦ accounted_of_carried changed live rel (n ∷ ns) (kind_of t') (
            carried_of_volatile live (below_path rel (n ∷ ns)) (kind_of t')
              (is_volatile-below_path rel (n ∷ ns) v))
        | inr (inr p) ↦
            let (live_kind, len, seen, equal, next) = p in
            let (on_it, all_below) = and_true (m.dev == root) (all_on_device root items) device in
            let (b, walked, clean_b) = enter-IsClean changed root m below on_it next clean in
            accounted_of_below changed live rel n ns (kind_of t') (
              items-IsClean changed live root rel items b n ns t' all_below walked clean_b found
                ordinary)
      ]

contains_nothing {ℓ} : {P : Type ℓ} (x : Text) → contains [] x ≡ true → P
contains_nothing x e = cc

sort-eq-nil : (xs : List Text) → sort xs ≡ [] → xs ≡ []
sort-eq-nil [] e = refl
sort-eq-nil (x ∷ xs) e =
    contains_nothing x
      (sym (ap (λ ys. contains ys x) e) ∙ contains-sort (x ∷ xs) x ∙ contains_head x xs)

sorted-IsClean :
    (d : VarDiff) {s : VarDiff} → sorted d ≡ s → s.missing ≡ [] → IsClean s.type_changed d
unfolding sorted IsClean
sorted-IsClean d {s} e absent = (
  sort-eq-nil d.missing (ap (λ s. s.missing) e ∙ absent),
  λ x h. ap (λ s. contains s.type_changed x) (sym e) ∙ contains-sort d.type_changed x ∙ h,
)

-- A comparison that succeeds, with no path missing, vouches for the whole old `/var`: when all its
-- directories lie on one file system, every path of it, except those of sockets, FIFOs and device
-- nodes, is in the live `/var` with the same file type, or is a volatile path, or it or a directory
-- above it is reported to be there with another file type.
pub diff_var_lem :
    (live : Text → Option (Kind × ℕ)) (m : Meta) (items : Items) (d : VarDiff) (n : Text)
    (ns : List Text) (t : Tree)
    → all_on_device m.dev items ≡ true
    → diff_var (some (dir m items)) live ≡ ok d
    → d.missing ≡ []
    → find_at (dir m items) (n ∷ ns) ≡ some t
    → same_kind (kind_of t) special ≡ false
    → is_accounted d.type_changed live n ns (kind_of t) ≡ true
unfolding diff_var find_in
diff_var_lem live m items d n ns t device e absent found ordinary =
    let (b, walked, last) = >>=-eq-ok (diff_items live m.dev [] items) (λ b. ok (sorted b)) e in
    items-IsClean d.type_changed live m.dev [] items b n ns t device walked
      (sorted-IsClean b (ok-inj last) absent) found ordinary
