-- ===== src/Push/Service.antt =====
-- push/service/service.go: the service that finds the push details of enrollments and sends pushes
-- through one provider for each topic, which it keeps. The mutex and logging are left out.
pub mod Ids
pub mod Cache
use nanomdm.Common.{
  ℕ, String, Bool, true, false, Option, none, some, List, [], ◌∷◌, ◌++◌, ◌==◌, ◌^^◌, if◌then◌else◌,
}
use nanomdm.Common.Fault.{Error, Result, ok, err, fault, wrap}
use nanomdm.Common.Exec.{Exec, pure, raise, map_error, beside, attempt, ◌>>=◌, ◌>>◌}
use nanomdm.Common.GoMap.{GoMap, get, get_or, set}
use nanomdm.Mdm.Checkin
use nanomdm.Push.{Response, PushProvider, PushStores}

-- the struct `provider`
pub record Provider (S : Type 0) : Type 0 where
  pub provider : PushProvider S
  pub stale_token : String

-- `s.providers`, which the service keeps beside the stores
abbrev pub Providers : Type 0 → Type 0
Providers S = GoMap (Provider S)

-- `append` to the slice of a topic
abbrev pub by_topic : List Checkin.Push → GoMap (List Checkin.Push) → GoMap (List Checkin.Push)
by_topic [] groups = groups
by_topic (p ∷ ps) groups = by_topic ps (set p.topic (get_or [] p.topic groups ++ (p ∷ [])) groups)

-- `responses[token] = pushResp` for each
abbrev pub merge : GoMap Response → GoMap Response → GoMap Response
merge [] responses = responses
merge ((token, r) ∷ rs) responses = merge rs (set token r responses)

-- `if finalErr == nil && feedback.Err != nil`
abbrev first_error : Option Error → String → Option Error → Option Error
first_error (some e) topic feedback = some e
first_error none topic none = none
first_error none topic (some e) = some (wrap ("topic " ^^ topic) e)

-- `%q`, for a topic that has no character to escape
abbrev quoted : String → String
quoted s = "\"" ^^ (s ^^ "\"")

-- a group of pushes with the provider for its topic
abbrev pub Job : Type 0 → Type 0
Job S = String × PushProvider S × List Checkin.Push

module _ {S Cert : Type 0} (st : PushStores S Cert) where
  unfoldable renew : String → Exec (Providers S × S) (PushProvider S)
  renew topic = do
    (cert, stale_token) ←
        map_error (wrap ("retrieving push cert for topic " ^^ quoted topic))
          (beside (st.retrieve_push_cert topic))
    new_provider ←
        map_error (wrap "creating new push provider") (beside (st.new_push_provider cert))
    λ (ps, s). (
      ok new_provider,
      (set topic (record { provider = new_provider; stale_token = stale_token }) ps, s),
    )

  unfoldable get_cached : String → Option (Provider S) → Exec (Providers S × S) (PushProvider S)
  get_cached topic none = renew topic
  get_cached topic (some prov) =
      map_error (wrap "checking push cert stale")
        (beside (st.is_push_cert_stale topic prov.stale_token))
      >>= λ stale. if stale then renew topic else pure prov.provider

  -- getProvider
  unfoldable pub get_provider : String → Exec (Providers S × S) (PushProvider S)
  unfolding renew get_cached
  get_provider topic (ps, s) = get_cached topic (get topic ps) (ps, s)

  -- The loop of pushMulti over the topics: the last error, and the pushes to start.
  unfoldable pub find_providers :
      GoMap (List Checkin.Push)
      → Option Error
      → Exec (Providers S × S) (Option Error × List (Job S))
  find_providers [] final = pure (final, [])
  find_providers ((topic, infos) ∷ groups) final = attempt (get_provider topic) λ got. elim got [
    | err e ↦ find_providers groups (some e)
    | ok prov ↦
        find_providers groups final >>= λ (last, jobs). pure (last, (topic, prov, infos) ∷ jobs)
  ]

  -- Its second loop: each goroutine's push is one step, in the order in which the feedback arrives, and
  -- is taken after the first loop, which the goroutines do not wait for.
  unfoldable pub run_jobs :
      List (Job S) → Option Error → GoMap Response → S → (GoMap Response × Option Error) × S
  run_jobs [] final responses s = ((responses, final), s)
  run_jobs ((topic, prov, infos) ∷ jobs) final responses s =
      let ((resp, e), s') = prov infos s in
      run_jobs jobs (first_error final topic e) (merge resp responses) s'

  unfoldable push_all_from :
      Result (Option Error × List (Job S)) × (Providers S × S)
      → (GoMap Response × Option Error) × (Providers S × S)
  push_all_from (ok (final, jobs), (ps, s)) =
      let (out, s') = run_jobs jobs final [] s in (out, (ps, s'))
  push_all_from (err e, rest) = (([], some e), rest)

  -- pushMulti. Go visits the topics in any order, here it is that of their first push.
  unfoldable pub push_multi :
      List Checkin.Push → Providers S × S → (GoMap Response × Option Error) × (Providers S × S)
  unfolding push_all_from
  push_multi infos rest = push_all_from (find_providers (by_topic infos []) none rest)

  unfoldable push_one_from :
      Checkin.Push
      → Result (PushProvider S) × (Providers S × S)
      → (GoMap Response × Option Error) × (Providers S × S)
  push_one_from info (ok prov, (ps, s)) = let (out, s') = prov (info ∷ []) s in (out, (ps, s'))
  push_one_from info (err e, rest) = (([], some e), rest)

  -- pushSingle, of details that are there
  unfoldable pub push_single :
      Checkin.Push → Providers S × S → (GoMap Response × Option Error) × (Providers S × S)
  unfolding push_one_from
  push_single info rest = push_one_from info (get_provider info.topic rest)

  -- the branches of Push by how many details there are
  unfoldable pub push_found :
      List Checkin.Push → Providers S × S → (GoMap Response × Option Error) × (Providers S × S)
  push_found [] rest = (([], none), rest)
  push_found (info ∷ []) rest = push_single info rest
  push_found (i ∷ j ∷ infos) rest = push_multi (i ∷ j ∷ infos) rest

-- ErrIdNotFound
abbrev pub id_not_found : Error
id_not_found = fault "push data missing for id"

-- what the first loop of Push fills
pub record Gathered : Type 0 where
  pub infos : List Checkin.Push
  pub token_to_id : GoMap String
  pub id_to_response : GoMap Response

-- `token_text` is hexData.String, the text by which providers name a token.
module _ (token_text : String → String) where
  abbrev add_id : String → Option Checkin.Push → Gathered → Gathered
  add_id id none g = record g {
    id_to_response = set id (record { id = ""; error = some id_not_found }) g.id_to_response;
  }
  add_id id (some info) g = record g {
    infos = g.infos ++ (info ∷ []);
    token_to_id = set (token_text info.token) id g.token_to_id;
  }

  abbrev pub gather : List String → GoMap Checkin.Push → Gathered → Gathered
  gather [] found g = g
  gather (id ∷ ids) found g = gather ids found (add_id id (get id found) g)

-- the last loop: responses for tokens that were not asked for are dropped
abbrev add_response : Option String → Response → GoMap Response → GoMap Response
add_response none r m = m
add_response (some id) r m = set id r m

abbrev pub reassociate : GoMap String → GoMap Response → GoMap Response → GoMap Response
reassociate token_to_id [] m = m
reassociate token_to_id ((token, r) ∷ rs) m =
    reassociate token_to_id rs (add_response (get token token_to_id) r m)

module _ {S Cert : Type 0} (st : PushStores S Cert) (token_text : String → String) where
  -- what Push does with the details that the store returns
  unfoldable pub push_gathered :
      Gathered → Providers S × S → (GoMap Response × Option Error) × (Providers S × S)
  push_gathered g rest =
      let ((responses, e), rest') = push_found st g.infos rest in
      ((reassociate g.token_to_id responses g.id_to_response, e), rest')

  unfoldable push_from :
      List String
      → Result (GoMap Checkin.Push) × (Providers S × S)
      → (GoMap Response × Option Error) × (Providers S × S)
  push_from ids (err e, rest) = (([], some (wrap "push storage" e)), rest)
  push_from ids (ok found, rest) =
      push_gathered
        (gather token_text ids found (record { infos = []; token_to_id = []; id_to_response = [] }))
        rest

  -- Push
  unfoldable pub push :
      List String → Providers S × S → (GoMap Response × Option Error) × (Providers S × S)
  unfolding push_from
  push ids rest = push_from ids (beside (st.retrieve_push_info ids) rest)
