-- ===== src/Tests/Symlinks.antt =====
-- Resolving and pruning symlinks on small inputs.
use bootc_migrate.Prelude.{◌≡◌, refl, Bool, false, none, [], ◌∷◌, any, ok, for_each}
use bootc_migrate.Text.{Text, codes, text_eq, starts_with, split_by, split_on}
use bootc_migrate.Etc.Tree.{remove, Node, link, Dict, lookup}
use bootc_migrate.Etc.Symlinks.{
  Location, prune_dangling_symlinks, logical_symlink_target, in_target_root, in_etc,
  on_disk_location, components,
}
use bootc_migrate.Etc.Symlinks.Kept.{lookup-prune}

abbrev no_fails : Text → Bool
no_fails p = false

-- Nothing is there but `/usr/lib/os-release`.
abbrev only_release : Location → Bool
only_release (in_target_root names) = any (text_eq (codes "os-release")) names
only_release (in_etc names) = false

abbrev etc_links : Dict Node
etc_links =
    (codes "os-release", link (codes "../usr/lib/os-release"))
    ∷ (codes "gone", link (codes "/usr/lib/gone"))
    ∷ (codes "run", link (codes "/run/x"))
    ∷ []

abbrev etc_pruned : Dict Node
etc_pruned =
    (codes "os-release", link (codes "../usr/lib/os-release"))
    ∷ (codes "run", link (codes "/run/x"))
    ∷ []

pruned_test :
    prune_dangling_symlinks (λ etc place. only_release place) no_fails etc_links
    ≡ ok (etc_pruned, 1)
unfolding prune_dangling_symlinks for_each logical_symlink_target on_disk_location components
    split_on split_by starts_with text_eq remove
pruned_test = refl

lookup-prune_example : lookup (codes "gone") etc_pruned ≡ none
unfolding lookup logical_symlink_target on_disk_location components split_on split_by starts_with
    text_eq
lookup-prune_example =
    lookup-prune only_release no_fails (codes "gone") etc_links {etc' = etc_pruned} {k = 1}
      pruned_test
