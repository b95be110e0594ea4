-- ===== src/File.antt =====
-- storage/file/file.go: the storage backend over files, with the struct and the helpers that the other
-- files of the package share. `Checkin` is the rest of file.go and bstoken.go, `Queue` queue.go,
-- `CertHash` certauth.go, `PushCert` pushcert.go, `Push` push.go and migrate.go.
pub mod Disk
pub mod Runs
pub mod Checkin
pub mod Queue
pub mod CertHash
pub mod Lines
pub mod PushCert
pub mod Push
pub mod Tests
use Prim.Native.Nat.{◌%◌}
use Prim.Native.String.{len}
use nanomdm.Common.{
  ℕ, ◌+◌, String, Bool, true, false, Option, none, some, List, [], ◌∷◌, ◌==◌, ◌^^◌, ltb,
  if◌then◌else◌,
}
use nanomdm.Common.Fault.{Error, Result, ok, err, fault, is_not_exist}
use nanomdm.Common.Exec.{Exec, pure, raise, lift, attempt, ◌>>=◌, ◌>>◌}
use nanomdm.Common.Decimal.{word, atoi, itoa}
use nanomdm.File.Disk.{Os, join}

-- The struct `FileStorage`, over the files of the operating system.
pub record FileStorage (S : Type 0) : Type 0 where
  pub os : Os S
  pub path : String

-- `err != nil && !errors.Is(err, os.ErrNotExist)`
abbrev pub ignore_missing : Result (Unit {0}) → Result (Unit {0})
ignore_missing (ok u) = ok u
ignore_missing (err e) = if is_not_exist e then ok tt else err e

-- the contents of a file that may be missing
abbrev pub read_or_empty : Result String → Result String
read_or_empty (ok v) = ok v
read_or_empty (err e) = if is_not_exist e then ok "" else err e

abbrev pub found_file : Result (Unit {0}) → Result Bool
found_file (ok u) = ok true
found_file (err e) = if is_not_exist e then ok false else err e

-- the names that listSubEnrollments keeps
abbrev sub_ids : List (String × Bool) → List String
sub_ids [] = []
sub_ids ((name, is_dir) ∷ entries) =
    let rest = sub_ids entries in if ltb 10 (len name) then name ∷ rest else rest

-- an error other than a missing directory is dropped too, with the entries
abbrev pub listed : Result (List (String × Bool)) → List (String × Bool)
listed (ok entries) = entries
listed (err e) = []

module _ {S : Type 0} where
  -- `for … { if err := …; err != nil { return err } }`
  abbrev pub each : (String → Exec S Unit) → List String → Exec S Unit
  each f [] = pure tt
  each f (x ∷ xs) = f x >> each f xs

  abbrev pub quietly : Exec S (Unit {0}) → Exec S Unit
  quietly m = attempt m λ r. lift (ignore_missing r)

module _ {S : Type 0} (fs : FileStorage S) where
  -- the methods of the struct `enrollment`, by its ID
  abbrev pub dir : String → String
  dir id = join fs.path id

  abbrev pub dir_prefix : String → String → String
  dir_prefix id name = join (dir id) name

  -- writeFile and readFile, whose names are constants that are not empty
  unfoldable pub write_file : String → String → String → Exec S Unit
  write_file id name bytes = fs.os.mkdir_all (dir id) >> fs.os.write_file (dir_prefix id name) bytes

  abbrev pub read_file : String → String → Exec S String
  read_file id name = fs.os.read_file (dir_prefix id name)

  unfoldable pub file_exists : String → String → Exec S Bool
  file_exists id name = attempt (fs.os.stat (dir_prefix id name)) λ r. lift (found_file r)

  unfoldable pub read_numeric_file : String → String → Exec S ℕ
  read_numeric_file id name =
      attempt (read_file id name) λ r. lift (read_or_empty r) >>= λ val. pure (atoi val)

  unfoldable pub bump_numeric_file : String → String → Exec S Unit
  bump_numeric_file id name =
      read_numeric_file id name >>= λ ctr. write_file id name (itoa ((ctr + 1) % word))

  unfoldable pub reset_numeric_file : String → String → Exec S Unit
  reset_numeric_file id name = write_file id name "0"

  unfoldable pub assoc_sub_enrollment : String → String → Exec S Unit
  assoc_sub_enrollment parent id =
      let sub_path = dir_prefix parent "SubEnrollments" in
      fs.os.mkdir_all sub_path >> fs.os.create (join sub_path id)

  unfoldable pub list_sub_enrollments : String → Exec S (List String)
  list_sub_enrollments id =
      attempt (fs.os.read_dir (dir_prefix id "SubEnrollments")) λ r. pure (sub_ids (listed r))

  unfoldable pub remove_sub_enrollments : String → Exec S Unit
  remove_sub_enrollments id = fs.os.remove_all (dir_prefix id "SubEnrollments")
