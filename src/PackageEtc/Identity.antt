-- ===== src/PackageEtc/Identity.antt =====
-- `merge_identity` of package_etc.rs: the target's tables first, then the source's human users and
-- their groups.
use bootc_migrate.Prelude.{
  ℕ, zero, suc, ◌+◌, ◌||◌, Option, none, some, List, [], ◌∷◌, ◌++◌, ltb, leb, ◌==◌, if◌then◌else◌,
  is_some, any, filter, Result, ok, ◌>>=◌,
}
use bootc_migrate.Text.{Text, codes, contains, lines, join, show_nat}
use bootc_migrate.Remap.Plan.{holds, gid_kind, RemapPlan, map_get}
use bootc_migrate.PackageEtc.Accounts.{
  PasswdLine, GroupLine, parse_passwd_lines, members_of, line_key, merge_member_field,
}
use bootc_migrate.PackageEtc.Ids.{
  MergeError, id_get, record_mapping, Allocation, choose_id, final_id,
}

-- The four tables of one side.
pub record Tables : Type 0 where
  pub passwd : Text
  pub group : Text
  pub shadow : Text
  pub gshadow : Text

pub record IdentityMerge : Type 0 where
  pub tables : Tables
  pub remap : RemapPlan
  pub human_users : List Text
  pub carried_groups : List Text

insert_id : ℕ → List ℕ → List ℕ
insert_id n [] = n ∷ []
insert_id n (m ∷ ms) =
    let rest = insert_id n ms in if n == m then m ∷ ms else if ltb n m then n ∷ m ∷ ms else m ∷ rest

-- A `BTreeSet` of ids, in its order.
unfoldable pub id_set : List ℕ → List ℕ
unfolding insert_id
id_set [] = []
id_set (n ∷ ns) = insert_id n (id_set ns)

unfoldable pub human_accounts : ℕ → Text → List PasswdLine
unfolding parse_passwd_lines
human_accounts uid_min passwd = filter (λ user. leb uid_min user.uid) (parse_passwd_lines passwd)

-- Primary groups of the human users, and groups that one of them is a member of.
unfoldable pub selected : List ℕ → List Text → List GroupLine → List GroupLine
unfolding members_of
selected primary human_names =
    filter (λ g. holds primary g.gid || any (contains human_names) (members_of g.fields))

-- The gid of a carried group: that of the target's group of its name, or a free one.
unfoldable pub choose_gid : List (Text × ℕ) → List ℕ → ℕ → GroupLine → List ℕ → ℕ × List ℕ
unfolding choose_id map_get
choose_gid by_name owned minimum group used = elim (map_get group.name by_name) [
  | some gid ↦ (gid, used)
  | none ↦ choose_id owned minimum group.gid used
]

note_gid : Text → ℕ → Allocation → ℕ × List ℕ → Result MergeError Allocation
unfolding record_mapping
note_gid name old a (chosen, used) = record_mapping old chosen a.mapping >>= λ m. ok (record {
  used = used;
  mapping = m;
  remaps =
      if chosen == old
      then a.remaps
      else a.remaps
        ++ (record { name = name; kind = gid_kind; old_id = old; new_id = chosen } ∷ []);
})

unfoldable pub map_group :
    List (Text × ℕ) → List ℕ → ℕ → Allocation → GroupLine → Result MergeError Allocation
unfolding note_gid choose_gid
map_group by_name owned uid_min a group =
    note_gid group.name group.gid a (choose_gid by_name owned uid_min group a.used)

-- A primary gid that no carried group has.
unfoldable pub map_primary : List ℕ → ℕ → Allocation → ℕ → Result MergeError Allocation
unfolding note_gid choose_id id_get
map_primary owned uid_min a gid =
    let noted =
      note_gid (codes "primary-gid-" ++ show_nat gid) gid a (choose_id owned uid_min gid a.used) in
    if is_some (id_get gid a.mapping) then ok a else noted

unfoldable pub set_uid_gid : Text → Text → List Text → List Text
set_uid_gid uid gid (name ∷ password ∷ u ∷ g ∷ rest) = name ∷ password ∷ uid ∷ gid ∷ rest
set_uid_gid uid gid fields = fields

-- A human user's line with its final ids.
unfoldable pub user_line : List (ℕ × ℕ) → List (ℕ × ℕ) → PasswdLine → Text
unfolding set_uid_gid final_id
user_line uids gids user = join (codes ":") (
    set_uid_gid (show_nat (final_id uids user.uid)) (show_nat (final_id gids user.gid)) user.fields)

set_gid : Text → List Text → List Text
set_gid gid (name ∷ password ∷ g ∷ rest) = name ∷ password ∷ gid ∷ rest
set_gid gid fields = fields

modify_at : ℕ → (Text → Text) → List Text → List Text
modify_at n f [] = []
modify_at zero f (l ∷ ls) = f l ∷ ls
modify_at (suc n) f (l ∷ ls) = l ∷ modify_at n f ls

merge_line : Option ℕ → (Text → Text) → Text → List Text → List Text
unfolding modify_at
merge_line (some index) merge added lines = modify_at index merge lines
merge_line none merge added lines = lines ++ (added ∷ [])

-- One carried group: merged into the line at the index of its name, or added.
unfoldable pub merge_group :
    List (Text × ℕ) → List Text → List (ℕ × ℕ) → List Text → GroupLine → List Text
unfolding merge_line merge_member_field set_gid final_id map_get
merge_group index human_names gids lines group =
    merge_line (map_get group.name index)
      (merge_member_field human_names (join (codes ":") group.fields))
      (join (codes ":") (set_gid (show_nat (final_id gids group.gid)) group.fields)) lines

unfoldable pub merge_groups :
    List (Text × ℕ) → List Text → List (ℕ × ℕ) → List Text → List GroupLine → List Text
unfolding merge_group
merge_groups index human_names gids lines [] = lines
merge_groups index human_names gids lines (g ∷ gs) =
    merge_groups index human_names gids (merge_group index human_names gids lines g) gs

-- The lines of gshadow for the carried groups, by the index of the lines that the target has.
unfoldable pub merge_gshadow :
    List (Text × ℕ) → List Text → List Text → List Text → List Text → List Text
unfolding merge_line merge_member_field line_key map_get
merge_gshadow index human_names carried lines [] = lines
merge_gshadow index human_names carried lines (source ∷ rest) =
    let merged =
      if contains carried (line_key source)
      then merge_line (map_get (line_key source) index) (merge_member_field human_names source)
          source lines
      else lines in
    merge_gshadow index human_names carried merged rest

-- `enumerate`, the names with their places.
unfoldable pub places : ℕ → List Text → List (Text × ℕ)
places n [] = []
places n (name ∷ names) = (name, n) ∷ places (n + 1) names
