-- ===== src/File/Tests.antt =====
-- The theorems about storage/file at concrete inputs, on files in memory.
use nanomdm.Common.{
  String, ap, ◌∙◌, Option, some, ne_refl, eq_refl, ◌&&◌, not, if◌then◌else◌, ◌≡◌, refl, none, [],
  arith,
}
use nanomdm.Common.Fault.{ok, err, fault, not_exist}
use nanomdm.Common.Exec.{Exec}
use nanomdm.Bucket.{is_some}
use nanomdm.Bucket.Memory.{Memory, contents, bucket-IsReliable, empty}
use nanomdm.Mdm.Checkin.{TokenUpdate}
use nanomdm.Kv.CommandQueue.Tests.{dev, results}
use nanomdm.File.{FileStorage, dir_prefix, read_numeric_file}
use nanomdm.File.Disk.{Os, Contents, IsReliable, parent, parent-ne, got, gone}
use nanomdm.File.Checkin.{disabled_file, store_token_update, retrieve_token_update_tally}
use nanomdm.File.Checkin.Laws.{retrieve_token_update_tally-store_token_update}

-- the files, and beside them the directories that were made
abbrev files : Contents Memory
files =
    let c = contents 0 in
    record {
      find = c.find;
      put = c.put;
      del = c.del;
      is_dir = λ s k. is_some ((contents 1).find s k);
    }

abbrev write_in : Option String → String → String → Exec Memory Unit
write_in none k v s = (err not_exist, s)
write_in (some d) k v s =
    if files.is_dir s d && not (files.is_dir s k)
    then (ok tt, files.put k v s)
    else (err not_exist, s)

-- A write needs its directory.
abbrev os : Os Memory
os = record {
  mkdir = λ k s. (ok tt, (contents 1).put k "" s);
  mkdir_all = λ k s. (ok tt, (contents 1).put k "" s);
  write_file = λ k v s. write_in (parent k) k v s;
  read_file =
      λ k s. (if files.is_dir s k then err (fault "is a directory") else got (files.find s k), s);
  append_file = λ k v s. (err (fault "append"), s);
  create = λ k s. write_in (parent k) k "" s;
  stat = λ k s. (gone (files.find s k), s);
  mod_time = λ k s. (ok "0", s);
  remove = λ k s. (gone (files.find s k), files.del k s);
  remove_all = λ k s. (ok tt, s);
  rename = λ k j s. (err (fault "rename"), s);
  read_dir = λ k s. (ok [], s);
}

os-IsReliable : IsReliable os files
os-IsReliable =
    let b = bucket-IsReliable 0 in
    let d = bucket-IsReliable 1 in
    record {
      find-put = b.find-put;
      find-del = b.find-del;
      is_dir-put = λ k v s j. refl;
      is_dir-del = λ k s j. refl;
      mkdir_all-makes = λ k s. (
        (contents 1).put k "" s,
        refl,
        rw (d.find-put k "" s k, eq_refl k) refl,
        (λ j e.
            rw (d.find-put k "" s j, ne_refl k j (λ same. parent-ne k (ap parent same ∙ e))) refl),
        (λ j. refl),
      );
      write_file-eq = λ k d v s e made plain. rw (e, made, plain) refl;
      read_file-eq = λ k s plain. rw plain refl;
      remove-eq = λ k s plain. refl;
    }

abbrev fs : FileStorage Memory
fs = record { os = os; path = "db" }

computes : Unit {0}
unfolding retrieve_token_update_tally read_numeric_file
computes = tt

abbrev token_update : TokenUpdate
token_update = record {
  enrollment = (results "" "").enrollment;
  message_type = "TokenUpdate";
  push = record { topic = "com.example"; push_magic = "magic"; token = "t" };
  unlock_token = "unlock";
  raw = "<plist/>";
}

retrieve_token_update_tally-store_token_update_example :
    (s' : Memory) × (store_token_update fs dev token_update empty ≡ (ok tt, s'))
    × (retrieve_token_update_tally fs "d" s' ≡ (ok 1, s'))
    × (files.find s' (dir_prefix fs "d" disabled_file) ≡ none)
unfolding computes
retrieve_token_update_tally-store_token_update_example =
    retrieve_token_update_tally-store_token_update fs files os-IsReliable dev token_update 0 empty
      refl (refl, (refl, (refl, (refl, tt)))) refl (omega arith)
