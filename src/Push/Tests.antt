-- ===== src/Push/Tests.antt =====
-- The theorems about push/service and push/nanopush at concrete inputs.
use nanomdm.Common.{
  ℕ, suc, ◌≤◌, String, ◌≡◌, refl, ◌⊎◌, true, none, some, List, [], ◌∷◌, length, arith,
}
use Prim.Native.Nat.{◌*◌}
use nanomdm.Common.Fault.{ok}
use nanomdm.Common.GoMap.{GoMap, get}
use nanomdm.Mdm.Checkin
use nanomdm.Push.{Response, PushProvider, PushStores}
use nanomdm.Push.Service.{get_provider, push}
use nanomdm.Push.Service.Cache.{IsCached, get_provider-IsCached}
use nanomdm.Push.Service.Ids.{not_found, push-id_not_found}
use nanomdm.Push.Nanopush.{
  Workers, IsFinished, with_workers, worker_count, concurrent, Step, feed, answer, collect, Run,
  stay, go, started, push_serial,
}
use nanomdm.Push.Nanopush.Pool.{has, Run-ends, Pushed-push_serial}

abbrev token_text : String → String
token_text t = t

abbrev details : String → Checkin.Push
details t = record { topic = "com.example"; push_magic = "magic"; token = t }

abbrev do_push : Checkin.Push → ℕ → Response × ℕ
do_push info n = (record { id = info.token; error = none }, suc n)

abbrev answers : List Checkin.Push → GoMap Response
answers [] = []
answers (info ∷ infos) = (info.token, record { id = "x"; error = none }) ∷ answers infos

-- a provider that answers for every token, and for one that nobody asked for
abbrev provider : PushProvider ℕ
provider infos n = ((("other", record { id = "x"; error = none }) ∷ answers infos, none), n)

abbrev found : GoMap Checkin.Push
found = ("d", details "t") ∷ []

abbrev stores : PushStores ℕ String
stores = record {
  retrieve_push_info = λ ids n. (ok found, n);
  is_push_cert_stale = λ topic token n. (ok true, n);
  retrieve_push_cert = λ topic n. (ok ("cert", "1"), n);
  new_push_provider = λ cert n. (ok provider, n);
}

push-id_not_found_example :
    get "e" (push stores token_text ("d" ∷ "e" ∷ []) ([], 0)).0.0 ≡ some not_found
push-id_not_found_example =
    push-id_not_found stores token_text ("d" ∷ "e" ∷ []) "e" found [] 0 0 refl refl refl

get_provider-IsCached_example :
    IsCached stores "com.example" [] 0 (get_provider stores "com.example" ([], 0))
get_provider-IsCached_example = get_provider-IsCached stores "com.example" [] 0

abbrev two : List Checkin.Push
two = details "t" ∷ details "u" ∷ []

abbrev after : ℕ → Workers ℕ
after n = record {
  todo = [];
  busy = [];
  answered = [];
  ret = ("t", (do_push (details "t") 0).0) ∷ ("u", (do_push (details "u") 1).0) ∷ [];
  world = n;
}

-- the run of one worker
one_by_one : Run token_text do_push 1 6 (started token_text do_push two 0) (after 2)
one_by_one = go _ _ _ _ (feed (details "t") (details "u" ∷ []) [] [] [] 0 (omega arith)) (
    go _ _ _ _ (answer (details "t") [] [] (details "u" ∷ []) [] [] 0) (
      go _ _ _ _ (collect "t" _ [] [] (details "u" ∷ []) [] [] 1) (
        go _ _ _ _ (feed (details "u") [] [] [] _ 1 (omega arith)) (
          go _ _ _ _ (answer (details "u") [] [] [] [] _ 1)
            (go _ _ _ _ (collect "u" _ [] [] [] [] _ 2) (stay _))))))

Run-ends_example :
    (6 ≤ 3 * length two)
    × (IsFinished (after 2)
        ⊎ ((r : Workers ℕ) × Step token_text do_push
              (worker_count (with_workers 0) two)
              (after 2)
              r))
Run-ends_example =
    Run-ends token_text do_push 0 6 (details "t") (details "u" ∷ []) 0 (after 2) one_by_one

Pushed-push_serial_example :
    has "u" (after 2).ret ≡ has "u" (push_serial token_text do_push two [] 0).0
Pushed-push_serial_example =
    Pushed-push_serial token_text do_push 1 two 0 2 (after 2).ret "u"
      (concurrent (details "t") (details "u") [] 0 6 (after 2) one_by_one (refl, refl, refl))
