-- ===== src/InstallCommit/Usage.antt =====
-- The bytes a deletion frees.
use bootc_migrate.Prelude.{
  ℕ, ◌+◌, ◌*◌, ◌%◌, ◌^◌, Bool, ◌&&◌, Option, none, some, List, [], ◌∷◌, ltb, ◌==◌, if◌then◌else◌,
  any, Result, ok, err, ◌>>=◌,
}
use bootc_migrate.Text.{Text}
use bootc_migrate.InstallCommit.Tree.{Meta, Tree, leaf, closed, dir, Items, nil, entry}

-- The hard links seen, by device and inode, and the total so far, a u64.
abbrev pub Walk : Type 0
Walk = List (ℕ × ℕ) × ℕ

abbrev pub was_seen : List (ℕ × ℕ) → Meta → Bool
was_seen seen m = any (λ link. link.0 == m.dev && link.1 == m.ino) seen

abbrev pub add_blocks : ℕ → Meta → ℕ
add_blocks total m = (total + m.blocks * 512) % 2 ^ 64

-- A file with several links is counted at its first one.
pub count_leaf : Meta → Walk → Walk
count_leaf m (seen, total) =
    if ltb 1 m.nlink
    then (if was_seen seen m then (seen, total) else ((m.dev, m.ino) ∷ seen, add_blocks total m))
    else (seen, add_blocks total m)

-- The last entry pushed on the stack is the first one taken from it.
unfoldable mutual
  unfolding count_leaf

  pub usage_items : ℕ → Items → Walk → Result Text Walk
  usage_items root_dev nil w = ok w
  usage_items root_dev (entry n t rest) w =
      usage_items root_dev rest w >>= λ v. usage_entry root_dev t v

  pub usage_entry : ℕ → Tree → Walk → Result Text Walk
  usage_entry root_dev (leaf k m) w = ok (if m.dev == root_dev then count_leaf m w else w)
  usage_entry root_dev (closed m) w = if m.dev == root_dev then err [] else ok w
  usage_entry root_dev (dir m items) (seen, total) =
      let below = usage_items root_dev items (seen, add_blocks total m) in
      if m.dev == root_dev then below else ok (seen, total)

abbrev pub device_of : Tree → ℕ
device_of (leaf k m) = m.dev
device_of (closed m) = m.dev
device_of (dir m items) = m.dev

unfoldable pub tree_usage : Option Tree → Result Text ℕ
unfolding usage_entry
tree_usage none = ok 0
tree_usage (some t) = usage_entry (device_of t) t ([], 0) >>= λ w. ok (w.1)
