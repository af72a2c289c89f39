-- ===== src/Os.antt =====
-- The state outside the program that its packages share, and the actions on it: what the code uses
-- of Go's package `os`.
--
-- A file is known by the text of its path; every path that the code builds is a result of
-- filepath.Join. A file system can refuse any call for reasons that this state does not hold (no
-- space, permissions, a lost device, a missing parent): `faults` is the schedule of such refusals,
-- one entry for each call, and calls after its end are not refused. A theorem over all states is one
-- over all schedules.
mod Monad
pub mod Calm
pub mod Devices
pub mod EndsIn
pub mod Ensures
pub mod Free
pub mod Invert
pub mod Keeps
pub mod Post
pub mod Quiet
pub mod Taken
pub mod Tree
unfoldable pub use Monad.*
use nexus_erofs.Prelude.{
  ℕ, zero, suc, Bool, true, false, not, ◌&&◌, ◌||◌, List, [], ◌∷◌, ◌++◌, Option, none, some, Bytes,
  drop, length, ◌==◌, bytes_eq, if◌then◌else◌,
}
use nexus_erofs.Errors.{Error, Result, ok, err, os_error, Errno, enoent, eexist}
use Tree.{
  Node, Files, file, folder, lookup, insert, erase, erase_tree, rename_tree, names_in, has_below,
}

abbrev is_empty : List Bytes → Bool
is_empty [] = true
is_empty (_ ∷ _) = false

stat_in : Option Node → Result Node
stat_in none = err (os_error enoent)
stat_in (some n) = ok n

read_in : Option Node → Result Bytes
read_in none = err (os_error enoent)
read_in (some (file content)) = ok content
read_in (some folder) = err (os_error (Errno.eother 21))

-- what a file of this size holds that had this content
resized : ℕ → Bytes → Bytes
resized zero content = []
resized (suc n) [] = 0 ∷ resized n []
resized (suc n) (c ∷ cs) = c ∷ resized n cs

module _ {Meta : Type 0} where
  -- os.Stat
  unfoldable pub stat : Bytes → Exec Meta Node
  unfolding stat_in lookup
  stat p = system_call λ w. (stat_in (lookup p w.files), w)

  -- os.ReadFile, and os.Open with reads of the whole file
  unfoldable pub read_file : Bytes → Exec Meta Bytes
  unfolding read_in lookup
  read_file p = system_call λ w. (read_in (lookup p w.files), w)

  -- os.WriteFile and os.Create
  unfoldable pub write_file : Bytes → Bytes → Exec Meta Unit
  unfolding insert
  write_file p content =
      system_call λ w. (ok tt, record w { files = insert p (file content) w.files })

  resize_in : Bytes → ℕ → Option Node → World Meta → Result (Unit {0}) × World Meta
  unfolding resized insert
  resize_in p size none w = (ok tt, w)
  resize_in p size (some folder) w = (err (os_error (Errno.eother 22)), w)
  resize_in p size (some (file content)) w =
      (ok tt, record w { files = insert p (file (resized size content)) w.files })

  -- Truncate of an opened file; it has no effect on what can be seen if the name is gone.
  unfoldable pub truncate_file : Bytes → ℕ → Exec Meta Unit
  unfolding resize_in lookup
  truncate_file p size = system_call λ w. resize_in p size (lookup p w.files) w

  create_in : Bytes → Node → Option Node → World Meta → Result (Unit {0}) × World Meta
  unfolding insert
  create_in p n none w = (ok tt, record w { files = insert p n w.files })
  create_in p n (some m) w = (err (os_error eexist), w)

  -- os.OpenFile with O_CREATE|O_EXCL, and Close
  unfoldable pub create_exclusive : Bytes → Exec Meta Unit
  unfolding create_in lookup
  create_exclusive p = system_call λ w. create_in p (file []) (lookup p w.files) w

  -- os.Mkdir
  unfoldable pub mkdir : Bytes → Exec Meta Unit
  unfolding create_in lookup
  mkdir p = system_call λ w. create_in p folder (lookup p w.files) w

  mkdir_all_in : Bytes → Option Node → World Meta → Result (Unit {0}) × World Meta
  unfolding insert
  mkdir_all_in p none w = (ok tt, record w { files = insert p folder w.files })
  mkdir_all_in p (some folder) w = (ok tt, w)
  mkdir_all_in p (some (file _)) w = (err (os_error (Errno.eother 20)), w)

  -- os.MkdirAll
  unfoldable pub mkdir_all : Bytes → Exec Meta Unit
  unfolding mkdir_all_in lookup
  mkdir_all p = system_call λ w. mkdir_all_in p (lookup p w.files) w

  remove_in : Bytes → Option Node → World Meta → Result (Unit {0}) × World Meta
  unfolding erase
  remove_in p none w = (err (os_error enoent), w)
  remove_in p (some n) w = (ok tt, record w { files = erase p w.files })

  -- os.Remove, of a file
  unfoldable pub remove : Bytes → Exec Meta Unit
  unfolding remove_in lookup
  remove p = system_call λ w. remove_in p (lookup p w.files) w

  -- os.RemoveAll. The flag of an immutable file below makes it fail, with nothing removed.
  remove_all_in : Bool → Bytes → World Meta → Result (Unit {0}) × World Meta
  unfolding erase_tree
  remove_all_in true p w = (err (os_error (Errno.eother 1)), w)
  remove_all_in false p w = (ok tt, record w { files = erase_tree p w.files })

  unfoldable pub remove_all : Bytes → Exec Meta Unit
  unfolding remove_all_in has_below
  remove_all p = system_call λ w. remove_all_in (has_below p w.immutable) p w

  -- A directory that is not empty stays in the way.
  is_full : Bytes → Option Node → World Meta → Bool
  unfolding names_in
  is_full to none w = false
  is_full to (some (file _)) w = false
  is_full to (some folder) w = not (is_empty (names_in to w.files))

  rename_in : Bytes → Bytes → Option Node → World Meta → Result (Unit {0}) × World Meta
  unfolding rename_tree is_full lookup
  rename_in from to none w = (err (os_error enoent), w)
  rename_in from to (some n) w =
      if is_full to (lookup to w.files) w
      then (err (os_error (Errno.eother 39)), w)
      else (ok tt, record w { files = rename_tree from to w.files })

  -- os.Rename to another path: what stood there is replaced.
  unfoldable pub rename : Bytes → Bytes → Exec Meta Unit
  unfolding rename_in lookup
  rename from to = system_call λ w. rename_in from to (lookup from w.files) w

  list_in : Bytes → Option Node → World Meta → Result (List Bytes)
  unfolding names_in
  list_in p none w = err (os_error enoent)
  list_in p (some (file _)) w = err (os_error (Errno.eother 20))
  list_in p (some folder) w = ok (names_in p w.files)

  -- os.ReadDir, and Readdirnames of an opened directory
  unfoldable pub read_dir : Bytes → Exec Meta (List Bytes)
  unfolding list_in lookup
  read_dir p = system_call λ w. (list_in p (lookup p w.files) w, w)
