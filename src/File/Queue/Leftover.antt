-- ===== src/File/Queue/Leftover.antt =====
-- What ClearQueue of storage/file/queue.go leaves of a command that a device put off with "NotNow".
use Prim.Native.String.{slice, len}
use text.Mathlib.TextLemmas.{append_assoc}
use text.Mathlib.TextPositions.{slice-append_right, len-append}
use nanomdm.Common.{
  ℕ, suc, ◌+◌, ◌-◌, String, ◌≡◌, refl, ap, ◌∙◌, sym, true, false, [], ◌∷◌, ◌^^◌, eq_iff, arith,
}
use nanomdm.Common.Fault.{Error, Result, ok, err, not_exist}
use nanomdm.Mdm.Enroll.{Enrolled}
use nanomdm.Mdm.Command.{Command}
use nanomdm.File.{FileStorage, dir_prefix, list_sub_enrollments}
use nanomdm.File.Queue.{
  queue, not_now, main, inactive, has_suffix, queue_dir, command_file, result_file, move, get_next,
  read_command, clear_from, clear_enrollment, clear_queue, retrieve_next_command,
}

has_suffix-append : (s t : String) → has_suffix (s ^^ t) t ≡ true
has_suffix-append s t =
    let total : len (s ^^ t) ≡ len s + len t = len-append s t in
    (eq_iff (slice (s ^^ t) (len (s ^^ t) - len t) (len (s ^^ t))) t).1 (
      ap (λ (k : ℕ). slice (s ^^ t) (k - len t) k) total
      ∙ (ap (λ (k : ℕ). slice (s ^^ t) k (len s + len t)) {x = len s + len t - len t} {y = len s}
            (omega arith)
          ∙ slice-append_right s t))

result_suffix : (uuid : String) → has_suffix (uuid ^^ ".result.plist") ".plist" ≡ true
result_suffix uuid =
    ap (λ (k : String). has_suffix k ".plist") (sym (append_assoc uuid ".result" ".plist"))
    ∙ has_suffix-append (uuid ^^ ".result") ".plist"

module _ {S : Type 0} (fs : FileStorage S) (decode : String → Result Command) where
  -- Where a device without user channels has one command, which waits in its "NotNow" directory
  -- beside the report that put it off, and the report does not decode as a command, ClearQueue of
  -- the file backend, with any positive fuel, moves the command and fails with the error of decoding the
  -- report, and so does a RetrieveNextCommand after it that does not skip "NotNow".
  pub clear_queue-leftover :
      (r : Enrolled) (raw report : String) (cmd : Command) (e : Error) (fuel : ℕ) (s s₁ s' : S)
      → r.parent_id ≡ ""
      → fs.os.read_dir (dir_prefix fs r.id "SubEnrollments") s ≡ (err not_exist, s)
      → fs.os.read_dir (queue_dir fs decode (queue r.id main)) s ≡ (ok [], s)
      → fs.os.read_dir (queue_dir fs decode (queue r.id not_now)) s ≡ (
        ok (
            (cmd.command_uuid ^^ ".plist", false)
            ∷ (cmd.command_uuid ^^ ".result.plist", false)
            ∷ []),
        s,
      )
      → fs.os.read_file (command_file fs decode (queue r.id not_now) cmd.command_uuid) s
        ≡ (ok raw, s)
      → decode raw ≡ ok cmd
      → fs.os.mkdir_all (queue_dir fs decode (queue r.id inactive)) s ≡ (ok tt, s₁)
      → fs.os.rename
          (command_file fs decode (queue r.id not_now) cmd.command_uuid)
          (command_file fs decode (queue r.id inactive) cmd.command_uuid)
          s₁
        ≡ (ok tt, s')
      → fs.os.read_dir (queue_dir fs decode (queue r.id not_now)) s'
        ≡ (ok ((cmd.command_uuid ^^ ".result.plist", false) ∷ []), s')
      → fs.os.read_file (result_file fs decode (queue r.id not_now) cmd.command_uuid) s'
        ≡ (ok report, s')
      → decode report ≡ err e
      → (clear_queue fs decode (suc fuel) r s ≡ (err e, s'))
        × (retrieve_next_command fs decode r false s' ≡ (err e, s'))
  unfolding clear_queue clear_enrollment clear_from move get_next read_command list_sub_enrollments
      retrieve_next_command
  clear_queue-leftover r raw report cmd e fuel s s₁ s' device subs ready waits read is_cmd made
        moved left result bad =
      let first = has_suffix-append cmd.command_uuid ".plist" in
      let second = result_suffix cmd.command_uuid in
      (
        rw
            (
              (eq_iff r.parent_id "").1 device,
              subs,
              ready,
              waits,
              first,
              read,
              is_cmd,
              made,
              moved,
              left,
              second,
              result,
              bad,
            )
            refl,
        rw (left, second, result, bad) refl,
      )
