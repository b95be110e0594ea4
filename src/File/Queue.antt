-- ===== src/File/Queue.antt =====
-- storage/file/queue.go: the commands of an enrollment, in a directory for each state.
pub mod Leftover
mod Tests
use Prim.Native.String.{slice, len}
use nanomdm.Common.{
  ℕ, zero, suc, ◌-◌, String, Bool, false, not, Option, none, some, List, [], ◌∷◌, ◌++◌, ◌==◌, ◌^^◌,
  if◌then◌else◌,
}
use nanomdm.Common.Fault.{Error, Result, ok, err, fault, is_not_exist, diverged}
use nanomdm.Common.Exec.{Exec, pure, raise, lift, attempt, beside, ◌>>=◌, ◌>>◌}
use nanomdm.Common.GoMap.{GoMap, set}
use nanomdm.Mdm.Enroll.{Enrolled}
use nanomdm.Mdm.Command.{Command, CommandResults}
use nanomdm.File.{FileStorage, dir, found_file, list_sub_enrollments, each}
use nanomdm.File.Disk.{join}

-- The struct `queue`: the enrollment's ID and the subdirectory.
pub record Queue : Type 0 where
  pub id : String
  pub sub : String

-- newQueue, with a subdirectory that is not empty
abbrev pub queue : String → String → Queue
queue id sub = record { id = id; sub = sub }

abbrev pub not_now : String
not_now = "QueueNotNow"

abbrev pub main : String
main = "Queue"

abbrev pub done : String
done = "QueueDone"

abbrev pub inactive : String
inactive = "QueueInactive"

-- strings.HasSuffix
abbrev pub has_suffix : String → String → Bool
has_suffix s t = slice s (len s - len t) (len s) == t

-- the entries of a directory that may be missing
abbrev pub entries_of : Result (List (String × Bool)) → Result (List (String × Bool))
entries_of (ok entries) = ok entries
entries_of (err e) = if is_not_exist e then ok [] else err e

-- the first name that ends in ".plist"
abbrev pub first_plist : List (String × Bool) → Option String
first_plist [] = none
first_plist ((name, is_dir) ∷ entries) =
    let rest = first_plist entries in if has_suffix name ".plist" then some name else rest

-- `decode` is mdm.DecodeCommand with the plist decoder in it.
module _ {S : Type 0} (fs : FileStorage S) (decode : String → Result Command) where
  abbrev pub queue_dir : Queue → String
  queue_dir q = join (dir fs q.id) q.sub

  abbrev pub command_file : Queue → String → String
  command_file q uuid = join (queue_dir q) (uuid ^^ ".plist")

  abbrev pub result_file : Queue → String → String
  result_file q uuid = join (queue_dir q) (uuid ^^ ".result.plist")

  unfoldable pub enqueue : Queue → String → String → Exec S Unit
  enqueue q uuid raw = fs.os.mkdir_all (queue_dir q) >> fs.os.write_file (command_file q uuid) raw

  unfoldable pub exists : Queue → String → Exec S Bool
  exists q uuid = attempt (fs.os.stat (command_file q uuid)) λ r. lift (found_file r)

  unfoldable pub move : Queue → String → Queue → Exec S Unit
  move q uuid dest =
      fs.os.mkdir_all (queue_dir dest)
      >> fs.os.rename (command_file q uuid) (command_file dest uuid)

  unfoldable pub remove_results : Queue → String → Exec S Unit
  remove_results q uuid = fs.os.remove (result_file q uuid)

  unfoldable pub write_results : Queue → String → String → Exec S Unit
  write_results q uuid raw = fs.os.write_file (result_file q uuid) raw

  unfoldable read_command : Queue → Option String → Exec S (Option Command)
  read_command q none = pure none
  read_command q (some name) = fs.os.read_file (join (queue_dir q) name) >>= λ raw.
      lift (decode raw) >>= λ cmd. pure (some cmd)

  -- getNext
  unfoldable pub get_next : Queue → Exec S (Option Command)
  unfolding read_command
  get_next q =
      attempt (fs.os.read_dir (queue_dir q))
        λ r. lift (entries_of r) >>= λ entries. read_command q (first_plist entries)

  note_id_error : String → Result (Unit {0}) → Exec (GoMap (Option Error) × S) Unit
  note_id_error id (ok u) s = (ok tt, s)
  note_id_error id (err e) (errs, s) = (ok tt, (set id (some e) errs, s))

  enqueue_each : Command → List String → Exec (GoMap (Option Error) × S) Unit
  unfolding note_id_error
  enqueue_each cmd [] = pure tt
  enqueue_each cmd (id ∷ ids) =
      attempt (beside (enqueue (queue id main) cmd.command_uuid cmd.raw)) (note_id_error id)
      >> enqueue_each cmd ids

  -- EnqueueCommand: the errors by enrollment, and no error beside them
  unfoldable pub enqueue_command :
      List String → Command → S → (GoMap (Option Error) × Option Error) × S
  unfolding enqueue_each
  enqueue_command ids cmd s =
      let (r, (errs, s')) = enqueue_each cmd ids ([], s) in ((errs, none), s')

  -- the part of StoreCommandReport behind the look-ups: `in_not_now` is `nnqExists`
  unfoldable pub file_report : String → CommandResults → Bool → Exec S Unit
  file_report id report in_not_now =
      let src = queue id (if in_not_now then not_now else main) in
      let dest = queue id (if report.status == "NotNow" then not_now else done) in
      move src report.command_uuid dest
      >> attempt
          (if in_not_now then remove_results (queue id not_now) report.command_uuid else pure tt)
          (λ _. write_results dest report.command_uuid report.raw)

  -- StoreCommandReport
  unfoldable pub store_command_report : Enrolled → CommandResults → Exec S Unit
  store_command_report r report =
      if report.status == "Idle"
      then pure tt
      else exists (queue r.id main) report.command_uuid >>= λ q_exists.
          (if not q_exists then exists (queue r.id not_now) report.command_uuid else pure false)
          >>= file_report r.id report

  unfoldable or_main : String → Option Command → Exec S (Option Command)
  or_main id (some cmd) = pure (some cmd)
  or_main id none = get_next (queue id main)

  -- RetrieveNextCommand
  unfoldable pub retrieve_next_command : Enrolled → Bool → Exec S (Option Command)
  unfolding or_main
  retrieve_next_command r skip_not_now =
      if not skip_not_now
      then get_next (queue r.id not_now) >>= or_main r.id
      else get_next (queue r.id main)

  -- The loop of ClearQueue over the commands of a queue, from one that was read.
  unfoldable pub clear_from : ℕ → Queue → Queue → Option Command → Exec S Unit
  clear_from fuel q dest none = pure tt
  clear_from zero q dest (some cmd) = raise diverged
  clear_from (suc fuel) q dest (some cmd) =
      move q cmd.command_uuid dest >> (get_next q >>= clear_from fuel q dest)

  unfoldable pub clear_enrollment : ℕ → String → Exec S Unit
  clear_enrollment fuel id =
      (get_next (queue id main) >>= clear_from fuel (queue id main) (queue id inactive))
      >> (get_next (queue id not_now) >>= clear_from fuel (queue id not_now) (queue id inactive))

  -- ClearQueue
  unfoldable pub clear_queue : ℕ → Enrolled → Exec S Unit
  clear_queue fuel r =
      if not (r.parent_id == "")
      then raise (fault "can only clear a device channel queue")
      else list_sub_enrollments fs r.id >>= λ ids. each (clear_enrollment fuel) (ids ++ (r.id ∷ []))
