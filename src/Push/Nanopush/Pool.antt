-- ===== src/Push/Nanopush/Pool.antt =====
-- What the workers of push/nanopush/provider.go come to, in whatever order their steps are taken.
use Prim.Native.Nat.{◌*◌}
use nanomdm.Common.{
  ℕ, suc, ◌+◌, ◌<◌, ◌≤◌, String, ◌≡◌, refl, ap, ◌∙◌, ◌⊎◌, inl, inr, Bool, true, false, ◌||◌, Option,
  none, some, List, [], ◌∷◌, ◌++◌, ◌==◌, length, arith,
}
use nanomdm.Common.Fault.{ok}
use nanomdm.Common.GoMap.{GoMap, get, set, get-set}
use nanomdm.Mdm.Checkin
use nanomdm.Push.{Response}
use nanomdm.Push.Nanopush.{
  Workers, push_serial, IsFinished, with_workers, worker_count, Pushed, serial, concurrent, Step,
  feed, answer, collect, Run, stay, go, started,
}

abbrev is_some {ℓ} : {A : Type ℓ} → Option A → Bool
is_some none = false
is_some (some _) = true

-- whether a map has an entry for a token
abbrev pub has : String → GoMap Response → Bool
has token m = is_some (get token m)

has-set :
    (t token : String) (r : Response) (m : GoMap Response)
    → has t (set token r m) ≡ (token == t || has t m)
has-set t token r m = ground (arith, get-set t token r m)

length-insert {ℓ} :
    {A : Type ℓ} (before : List A) (x : A) (after : List A)
    → length (before ++ x ∷ after) ≡ suc (length (before ++ after))
length-insert [] x after = refl
length-insert (y ∷ before) x after = ap suc (length-insert before x after)

-- waiting answers that have a token
abbrev waits : String → List (String × Response) → Bool
waits t [] = false
waits t ((token, r) ∷ rs) = token == t || waits t rs

waits-insert :
    (t token : String) (r : Response) (before after : List (String × Response))
    → waits t (before ++ (token, r) ∷ after) ≡ (token == t || waits t (before ++ after))
waits-insert t token r [] after = refl
waits-insert t token r ((u, q) ∷ before) after = ground (arith, waits-insert t token r before after)

-- there is a worker where there is a push
some_workers :
    (configured : ℕ) (info : Checkin.Push) (infos : List Checkin.Push)
    → 0 < worker_count (with_workers configured) (info ∷ infos)
some_workers configured info infos = ground arith

abbrev weight : {S : Type 0} → Workers S → ℕ
weight p = 3 * length p.todo + (2 * length p.busy + length p.answered)

module _ {S : Type 0} (token_text : String → String)
    (do_push : Checkin.Push → S → Response × S) where
  abbrev pub mentions : String → List Checkin.Push → Bool
  mentions t [] = false
  mentions t (p ∷ ps) = token_text p.token == t || mentions t ps

  mentions-insert :
      (t : String) (p : Checkin.Push) (before after : List Checkin.Push)
      → mentions t (before ++ p ∷ after) ≡ (token_text p.token == t || mentions t (before ++ after))
  mentions-insert t p [] after = refl
  mentions-insert t p (q ∷ before) after = ground (arith, mentions-insert t p before after)

  -- a token that the run has been asked for and that has not got lost
  abbrev known : String → Workers S → Bool
  known t p = mentions t p.todo || mentions t p.busy || waits t p.answered || has t p.ret

  step-known :
      (workers : ℕ) (t : String) (p q : Workers S)
      → Step token_text do_push workers p q
      → known t q ≡ known t p
  step-known workers t _ _ (feed info todo busy answered ret world lt) = ground arith
  step-known workers t _ _ (answer info before after todo answered ret world) =
      ground (arith, mentions-insert t info before after)
  step-known workers t _ _ (collect token r before after todo busy ret world) =
      ground (arith, waits-insert t token r before after, has-set t token r ret)

  Run-known :
      (workers n : ℕ) (t : String) (p q : Workers S)
      → Run token_text do_push workers n p q
      → known t q ≡ known t p
  Run-known workers _ t _ _ (stay p) = refl
  Run-known workers _ t _ _ (go n p q r step run) =
      Run-known workers n t q r run ∙ step-known workers t p q step

  step-weight :
      (workers : ℕ) (p q : Workers S)
      → Step token_text do_push workers p q
      → weight p ≡ suc (weight q)
  step-weight workers _ _ (feed info todo busy answered ret world lt) = omega arith
  step-weight workers _ _ (answer info before after todo answered ret world) =
      let more = length-insert before info after in omega arith
  step-weight workers _ _ (collect token r before after todo busy ret world) =
      let more = length-insert before (token, r) after in omega arith

  Run-weight :
      (workers n : ℕ) (p q : Workers S)
      → Run token_text do_push workers n p q
      → weight p ≡ n + weight q
  Run-weight workers _ _ _ (stay p) = omega arith
  Run-weight workers _ _ _ (go n p q r step run) =
      let a = step-weight workers p q step in let b = Run-weight workers n q r run in omega arith

  -- a state with something left to do has a step
  step_unless_done :
      (workers : ℕ)
      → 0 < workers
      → (p : Workers S) → IsFinished p ⊎ ((q : Workers S) × Step token_text do_push workers p q)
  step_unless_done workers pos p = next p.todo p.busy p.answered
    where
      next :
          (todo busy : List Checkin.Push) (answered : List (String × Response))
          → IsFinished (record p { todo = todo; busy = busy; answered = answered })
            ⊎ ((q : Workers S) × Step token_text do_push workers
                  (record p { todo = todo; busy = busy; answered = answered })
                  q)
      next todo busy ((token, r) ∷ rs) = inr (_, collect token r [] rs todo busy p.ret p.world)
      next todo (info ∷ busy) [] = inr (_, answer info [] busy todo [] p.ret p.world)
      next (info ∷ todo) [] [] = inr (_, feed info todo [] [] p.ret p.world (omega arith))
      next [] [] [] = inl (refl, refl, refl)

  -- For details to push, and whatever number of workers is set: every run of the workers that
  -- pushConcurrent starts makes at most three steps for each push, and where it has not finished
  -- it has a next step.
  pub Run-ends :
      (configured n : ℕ) (info : Checkin.Push) (infos : List Checkin.Push) (s : S) (q : Workers S)
      → Run token_text do_push
          (worker_count (with_workers configured) (info ∷ infos))
          n
          (started token_text do_push (info ∷ infos) s)
          q
      → (n ≤ 3 * length (info ∷ infos))
        × (IsFinished q
            ⊎ ((r : Workers S) × Step token_text do_push
                  (worker_count (with_workers configured) (info ∷ infos))
                  q
                  r))
  Run-ends configured n info infos s q run =
      let workers = worker_count (with_workers configured) (info ∷ infos) in
      let w = Run-weight workers n _ q run in
      (omega arith, step_unless_done workers (some_workers configured info infos) q)

  serial-has :
      (t : String) (infos : List Checkin.Push) (m : GoMap Response) (s : S)
      → has t (push_serial token_text do_push infos m s).0 ≡ (mentions t infos || has t m)
  unfolding push_serial
  serial-has t [] m s = refl
  serial-has t (p ∷ ps) m s =
      let (r, s') = do_push p s in
      ground (
        arith,
        serial-has t ps (set (token_text p.token) r m) s',
        has-set t (token_text p.token) r m,
      )

  finished-push_serial :
      (workers n : ℕ) (infos : List Checkin.Push) (s : S) (q : Workers S) (token : String)
      → Run token_text do_push workers n (started token_text do_push infos s) q
      → IsFinished q
      → has token q.ret ≡ has token (push_serial token_text do_push infos [] s).0
  finished-push_serial workers n infos s q token run (a, b, d) =
      let k = Run-known workers n token _ q run in
      ground (arith, k, a, b, d, serial-has token infos [] s)

  -- Where Push of the provider returns responses, whether it has sent one push or left several to
  -- workers whose steps came in any order, they are for exactly the tokens for which pushSerial has one.
  pub Pushed-push_serial :
      (workers : ℕ) (infos : List Checkin.Push) (s s' : S) (m : GoMap Response) (token : String)
      → Pushed token_text do_push workers infos s (ok m) s'
      → has token m ≡ has token (push_serial token_text do_push infos [] s).0
  Pushed-push_serial workers _ _ _ _ token (serial info s) = refl
  Pushed-push_serial workers _ _ _ _ token (concurrent a b infos s n q run done) =
      finished-push_serial (worker_count workers (a ∷ b ∷ infos)) n (a ∷ b ∷ infos) s q token run
        done
