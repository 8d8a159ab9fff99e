-- ===== src/InstallCommit/Var.antt =====
-- What the old stateroot `/var` has that the live `/var` does not.
use bootc_migrate.Prelude.{
  ℕ, ◌+◌, Option, none, some, List, [], ◌∷◌, ◌++◌, ◌==◌, if◌then◌else◌, Result, ok, err, ◌>>=◌,
}
use bootc_migrate.Text.{Text, codes, sort}
use bootc_migrate.InstallCommit.Paths.{is_volatile}
use bootc_migrate.InstallCommit.Tree.{
  Meta, Kind, a_file, a_dir, special, Tree, leaf, closed, dir, Items, nil, entry, same_kind,
}

pub record VarDiff : Type 0 where
  pub entries : ℕ
  pub missing : List Text
  pub volatile_missing : ℕ
  pub size_changed : List Text
  pub type_changed : List Text

abbrev pub empty_diff : VarDiff
empty_diff = record {
  entries = 0;
  missing = [];
  volatile_missing = 0;
  size_changed = [];
  type_changed = [];
}

-- One path compared, and what there is to report of it.
abbrev pub report : ℕ → List Text → List Text → VarDiff
report volatile absent changed = record {
  entries = 1;
  missing = absent;
  volatile_missing = volatile;
  size_changed = [];
  type_changed = changed;
}

abbrev pub size_report : Text → ℕ → ℕ → VarDiff
size_report rel old_len live_len = record {
  entries = 1;
  missing = [];
  volatile_missing = 0;
  size_changed = if old_len == live_len then [] else (rel ∷ []);
  type_changed = [];
}

abbrev pub plus : VarDiff → VarDiff → VarDiff
plus d e = record {
  entries = d.entries + e.entries;
  missing = d.missing ++ e.missing;
  volatile_missing = d.volatile_missing + e.volatile_missing;
  size_changed = d.size_changed ++ e.size_changed;
  type_changed = d.type_changed ++ e.type_changed;
}

unfoldable pub plus_result : Result Text VarDiff → Result Text VarDiff → Result Text VarDiff
plus_result (err e) q = err e
plus_result (ok d) (err e) = err e
plus_result (ok d) (ok e) = ok (plus d e)

-- `rel_dir.join(name)` inside the tree.
abbrev pub child : Text → Text → Text
child [] name = name
child (c ∷ rel) name = c ∷ (rel ++ (codes "/" ++ name))

abbrev pub absent_report : Text → VarDiff
absent_report rel = if is_volatile rel then report 1 [] [] else report 0 (rel ∷ []) []

-- An ordinary entry against what the live `/var` has at its path: its kind and its length.
unfoldable pub look_live :
    Text → Kind → Option (Kind × ℕ) → (ℕ → Result Text VarDiff) → Result Text VarDiff
look_live rel old_kind none same = ok (absent_report rel)
look_live rel old_kind (some (live_kind, live_len)) same =
    let equal = same live_len in
    if same_kind old_kind live_kind then equal else ok (report 0 [] (rel ∷ []))

-- Sockets, FIFOs and device nodes are skipped.
unfoldable pub look :
    Text → Kind → Option (Kind × ℕ) → (ℕ → Result Text VarDiff) → Result Text VarDiff
unfolding look_live
look rel old_kind found same =
    let compared = look_live rel old_kind found same in
    if same_kind old_kind special then ok empty_diff else compared

pub compare_leaf : Text → Kind → ℕ → ℕ → Result Text VarDiff
compare_leaf rel a_file old_len live_len = ok (size_report rel old_len live_len)
compare_leaf rel _ old_len live_len = ok (report 0 [] [])

-- A directory of another file system is compared and not entered.
unfoldable pub enter : ℕ → Meta → Result Text VarDiff → Result Text VarDiff
unfolding plus_result
enter root_dev m below =
    if m.dev == root_dev then plus_result (ok (report 0 [] [])) below else ok (report 0 [] [])

-- The walk below one directory, from its path in the tree.
unfoldable mutual
  unfolding look compare_leaf enter plus_result

  pub diff_items : (Text → Option (Kind × ℕ)) → ℕ → Text → Items → Result Text VarDiff
  diff_items live root_dev rel nil = ok empty_diff
  diff_items live root_dev rel (entry n t rest) =
      plus_result (diff_entry live root_dev (child rel n) t) (diff_items live root_dev rel rest)

  pub diff_entry : (Text → Option (Kind × ℕ)) → ℕ → Text → Tree → Result Text VarDiff
  diff_entry live root_dev rel (leaf k m) = look rel k (live rel) (compare_leaf rel k m.len)
  diff_entry live root_dev rel (closed m) =
      look rel a_dir (live rel) (λ len. enter root_dev m (err rel))
  diff_entry live root_dev rel (dir m items) =
      let below = diff_items live root_dev rel items in
      look rel a_dir (live rel) (λ len. enter root_dev m below)

unfoldable pub sorted : VarDiff → VarDiff
sorted d = record {
  entries = d.entries;
  missing = sort d.missing;
  volatile_missing = d.volatile_missing;
  size_changed = sort d.size_changed;
  type_changed = sort d.type_changed;
}

-- The old `/var` as it is on disk (`none`: nothing is there) against the live one.
unfoldable pub diff_var : Option Tree → (Text → Option (Kind × ℕ)) → Result Text VarDiff
unfolding diff_items sorted
diff_var none live = ok empty_diff
diff_var (some (leaf k m)) live = ok empty_diff
diff_var (some (closed m)) live = err []
diff_var (some (dir m items)) live = diff_items live m.dev [] items >>= λ d. ok (sorted d)
