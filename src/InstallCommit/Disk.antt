-- ===== src/InstallCommit/Disk.antt =====
-- The calls of the operating system that a commit makes, over a state of the disk.
use bootc_migrate.Prelude.{Bool, Option, List, Result, ok, err}
use bootc_migrate.Text.{Text}
use bootc_migrate.InstallCommit.Tree.{Tree}

-- An effect on the disk that returns a value or an error.
abbrev pub Action : Type 0 → Type 0 → Type 0
Action S A = S → S × Result Text A

infixl 5 ◌>=>◌
abbrev pub ◌>=>◌ :
    {S A B : Type 0} → S × Result Text A → (S → A → S × Result Text B) → S × Result Text B
(s, err e) >=> next = (s, err e)
(s, ok a) >=> next = next s a

-- What `lstat` and `read_dir` show at a path, and the calls that change the
-- disk; their Boolean says whether the call succeeded.
pub record Disk (S : Type 0) : Type 0 where
  pub view : S → Text → Option Tree
  pub remove_file : S → Text → S × Bool
  pub remove_dir_all : S → Text → S × Bool
  pub remove_dir : S → Text → S × Bool
  pub create_dir_all : S → Text → S × Bool
  pub copy : S → Text → Text → S × Bool
  pub copy_link : S → Text → Text → S × Bool
  pub write : S → Text → S × Bool
  pub remount : S → List Text → S × Bool
  pub proc_mounts : S → Option Text
