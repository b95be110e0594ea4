-- ===== src/Api/Tests.antt =====
-- The theorems about api/api.go at concrete inputs.
use nanomdm.Common.{ℕ, suc, ◌+◌, ◌≡◌, refl, true, false, none, some, [], ◌∷◌, map}
use nanomdm.Common.Fault.{err, fault}
use nanomdm.Bucket.{CommitsBody, TxnBucket}
use nanomdm.Bucket.Memory.{Memory, bucket, empty, contents}
use nanomdm.Mdm.Command.{Command}
use nanomdm.Kv.Backend.{Backend}
use nanomdm.Kv.CommandQueue.Tests.{kv}
use nanomdm.Api.{ApiResult, CommandEnqueuer, PushEnqueuer, enqueue_with_push}
use nanomdm.Api.Queue.{push_enqueuer, enqueue_with_push_all_fail}

abbrev cmd : Command
cmd = record { command_uuid = "a"; request_type = "DeviceLock"; raw = "<plist/>" }

-- a store that counts its calls and fails, and a pusher that counts in tens
abbrev failing_enqueue : CommandEnqueuer ℕ
failing_enqueue ids c n = ((("d", some (fault "full")) ∷ [], some (fault "disk")), suc n)

abbrev pusher_and_store : PushEnqueuer ℕ
pusher_and_store = record {
  store = some failing_enqueue;
  pusher = some (λ ids n. (([], none), n + 10));
  no_push = false;
}

-- queues that can be written but not read
abbrev unreadable : TxnBucket Memory
unreadable =
    let b = record (bucket 1) { get = λ k s. (err (fault "disk"), s) } in
    record { bucket = b; txn = λ f s. f b s; txn_noting = λ f s. f b s }

unreadable-CommitsBody : CommitsBody unreadable
unreadable-CommitsBody = record { txn-eq = λ f s s' run. run; txn_noting-eq = λ f s s' run. run }

abbrev unreadable_kv : Backend Memory
unreadable_kv = record kv { queue = unreadable }

abbrev written : Memory
written = (contents 1).put "a.req_type" "DeviceLock" ((contents 1).put "a.raw" "<plist/>" empty)

enqueue_with_push_all_fail_example :
    (r : ApiResult) × (enqueue_with_push
        (push_enqueuer unreadable_kv)
        (some cmd)
        ("d" ∷ "e" ∷ [])
        true
        empty
      ≡ ((r, 207, none), written))
    × (map (λ e. e.0) r.status ≡ "a" ∷ [])
enqueue_with_push_all_fail_example =
    enqueue_with_push_all_fail unreadable_kv (fault "disk") refl (λ k s. refl)
      unreadable-CommitsBody cmd "d" "e" [] empty empty written refl refl
