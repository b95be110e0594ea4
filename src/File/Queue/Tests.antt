-- ===== src/File/Queue/Tests.antt =====
-- A command put off with "NotNow" that ClearQueue moves away, on a disk whose directories are lists of
-- names beside the files.
use Prim.Native.String.{slice, len}
use text.Mathlib.Text.{starts_with}
use nanomdm.Common.{
  suc, String, ◌≡◌, refl, Bool, false, Option, none, some, List, [], ◌∷◌, ◌++◌, ◌==◌, ◌^^◌, elem,
  if◌then◌else◌,
}
use nanomdm.Common.Fault.{Result, ok, err, fault, not_exist}
use nanomdm.Mdm.Command.{Command}
use nanomdm.Kv.CommandQueue.Tests.{dev}
use nanomdm.Bucket.Memory.{Assoc, lookup, without}
use nanomdm.File.{FileStorage}
use nanomdm.File.Disk.{Os, got, gone}
use nanomdm.File.Queue.{clear_queue, retrieve_next_command}
use nanomdm.File.Queue.Leftover.{clear_queue-leftover}

abbrev Disk : Type 0
Disk = List String × Assoc

-- the names of the files in a directory, in the order in which they are kept
abbrev names_in : String → Assoc → List (String × Bool)
names_in d [] = []
names_in d ((k, v) ∷ files) =
    let rest = names_in d files in
    if starts_with k (d ^^ "/") then (slice k (suc (len d)) (len k), false) ∷ rest else rest

abbrev renamed : String → String → Option String → Disk → Result (Unit {0}) × Disk
renamed a b none s = (err not_exist, s)
renamed a b (some v) (dirs, files) = (ok tt, (dirs, without a files ++ ((b, v) ∷ [])))

abbrev os : Os Disk
os = record {
  mkdir = λ k (dirs, files). (ok tt, (k ∷ dirs, files));
  mkdir_all = λ k (dirs, files). (ok tt, (k ∷ dirs, files));
  write_file = λ k v (dirs, files). (ok tt, (dirs, without k files ++ ((k, v) ∷ [])));
  read_file = λ k s. (got (lookup k s.1), s);
  append_file = λ k v s. (err (fault "append"), s);
  create = λ k (dirs, files). (ok tt, (dirs, without k files ++ ((k, "") ∷ [])));
  stat = λ k s. (gone (lookup k s.1), s);
  mod_time = λ k s. (ok "0", s);
  remove = λ k (dirs, files). (gone (lookup k files), (dirs, without k files));
  remove_all = λ k s. (ok tt, s);
  rename = λ a b s. renamed a b (lookup a s.1) s;
  read_dir = λ k s. (if elem k s.0 then ok (names_in k s.1) else err not_exist, s);
}

abbrev fs : FileStorage Disk
fs = record { os = os; path = "db" }

abbrev lock : Command
lock = record { command_uuid = "a"; request_type = "DeviceLock"; raw = "<lock/>" }

abbrev decode : String → Result Command
decode raw = if raw == "<lock/>" then ok lock else err (fault "empty RequestType")

abbrev put_off : Disk
put_off = (
  "db/d/Queue" ∷ "db/d/QueueNotNow" ∷ [],
  ("db/d/QueueNotNow/a.plist", "<lock/>") ∷ ("db/d/QueueNotNow/a.result.plist", "<not_now/>") ∷ [],
)

abbrev made : Disk
made = ("db/d/QueueInactive" ∷ put_off.0, put_off.1)

abbrev cleared : Disk
cleared = (
  made.0,
  ("db/d/QueueNotNow/a.result.plist", "<not_now/>")
      ∷ ("db/d/QueueInactive/a.plist", "<lock/>")
      ∷ [],
)

clear_queue-leftover_example :
    (clear_queue fs decode 2 dev put_off ≡ (err (fault "empty RequestType"), cleared))
    × (retrieve_next_command fs decode dev false cleared
        ≡ (err (fault "empty RequestType"), cleared))
clear_queue-leftover_example =
    clear_queue-leftover fs decode dev "<lock/>" "<not_now/>" lock (fault "empty RequestType") 1
      put_off made cleared refl refl refl refl refl refl refl refl refl refl refl
