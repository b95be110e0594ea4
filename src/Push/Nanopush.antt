-- ===== src/Push/Nanopush.antt =====
-- push/nanopush/provider.go: how a provider sends a list of pushes, one after another or by workers.
-- The push of one device (`do`) is an argument; Push/Nanopush/Request models it.
pub mod Pool
pub mod Request
use Prim.Native.Nat.{min}
use nanomdm.Common.{ℕ, suc, ◌+◌, ◌<◌, String, ◌≡◌, List, [], ◌∷◌, ◌++◌, length, ltb, if◌then◌else◌}
use nanomdm.Common.Fault.{Error, fault}
use nanomdm.Common.Fault.{Result, ok, err, fault}
use nanomdm.Common.GoMap.{GoMap, set}
use nanomdm.Mdm.Checkin
use nanomdm.Push.{Response}

-- the number of workers that the option WithWorkers sets
abbrev pub with_workers : ℕ → ℕ
with_workers workers = if ltb workers 1 then 1 else workers

-- how many of them pushConcurrent starts
abbrev pub worker_count : ℕ → List Checkin.Push → ℕ
worker_count workers infos = min workers (length infos)

-- The goroutines of pushConcurrent: what the feeder has left, the pushes that workers hold, the answers
-- that workers wait to send (the struct `response`), the collector's map, and the world of `do`.
pub record Workers (S : Type 0) : Type 0 where
  pub todo : List Checkin.Push
  pub busy : List Checkin.Push
  pub answered : List (String × Response)
  pub ret : GoMap Response
  pub world : S

-- a state in which nothing is left to do, so that pushConcurrent returns
abbrev pub IsFinished : {S : Type 0} → Workers S → Type 0
IsFinished p = (p.todo ≡ []) × (p.busy ≡ []) × (p.answered ≡ [])

module _ {S : Type 0} (token_text : String → String)
    (do_push : Checkin.Push → S → Response × S) where
  -- pushSerial, of details that are not nil, from the map that is filled so far
  unfoldable pub push_serial : List Checkin.Push → GoMap Response → S → GoMap Response × S
  push_serial [] ret s = (ret, s)
  push_serial (info ∷ infos) ret s =
      let (r, s') = do_push info s in push_serial infos (set (token_text info.token) r ret) s'

  -- One step of pushConcurrent with `workers` workers, of details that are not nil: the feeder hands a
  -- push to a free worker, a worker's request is answered, or the collector takes a worker's answer.
  pub data Step (workers : ℕ) : Workers S → Workers S → Type 0 where
    feed :
        (info : Checkin.Push) (todo busy : List Checkin.Push) (answered : List (String × Response))
        (ret : GoMap Response) (world : S)
        → length busy + length answered < workers
        → Step workers
            (record {
              todo = info ∷ todo;
              busy = busy;
              answered = answered;
              ret = ret;
              world = world;
            })
            (record {
              todo = todo;
              busy = info ∷ busy;
              answered = answered;
              ret = ret;
              world = world;
            })
    answer :
        (info : Checkin.Push) (before after todo : List Checkin.Push)
        (answered : List (String × Response)) (ret : GoMap Response) (world : S)
        → Step workers
            (record {
              todo = todo;
              busy = before ++ info ∷ after;
              answered = answered;
              ret = ret;
              world = world;
            })
            (record {
              todo = todo;
              busy = before ++ after;
              answered = (token_text info.token, (do_push info world).0) ∷ answered;
              ret = ret;
              world = (do_push info world).1;
            })
    collect :
        (token : String) (r : Response) (before after : List (String × Response))
        (todo busy : List Checkin.Push) (ret : GoMap Response) (world : S)
        → Step workers
            (record {
              todo = todo;
              busy = busy;
              answered = before ++ (token, r) ∷ after;
              ret = ret;
              world = world;
            })
            (record {
              todo = todo;
              busy = busy;
              answered = before ++ after;
              ret = set token r ret;
              world = world;
            })

  -- a run of pushConcurrent, with the number of its steps
  pub data Run (workers : ℕ) : ℕ → Workers S → Workers S → Type 0 where
    stay : (p : Workers S) → Run workers 0 p p
    go :
        (n : ℕ) (p q r : Workers S) → Step workers p q → Run workers n q r → Run workers (suc n) p r

  -- the state that pushConcurrent starts from
  abbrev pub started : List Checkin.Push → S → Workers S
  started infos s = record { todo = infos; busy = []; answered = []; ret = []; world = s }

  -- What Push may return for details, with the worlds before and after.
  pub data Pushed (workers : ℕ) : List Checkin.Push → S → Result (GoMap Response) → S → Type 0 where
    nothing : (s : S) → Pushed workers [] s (err (fault "no push data provided")) s
    serial :
        (info : Checkin.Push) (s : S)
        → Pushed workers
            (info ∷ [])
            s
            (ok (push_serial (info ∷ []) [] s).0)
            (push_serial (info ∷ []) [] s).1
    concurrent :
        (a b : Checkin.Push) (infos : List Checkin.Push) (s : S) (n : ℕ) (q : Workers S)
        → Run (worker_count workers (a ∷ b ∷ infos)) n (started (a ∷ b ∷ infos) s) q
        → IsFinished q
        → Pushed workers (a ∷ b ∷ infos) s (ok q.ret) q.world
