-- ===== src/Push/Nanopush/Request.antt =====
-- push/nanopush/provider.go and push/nanopush/nanopush.go: the HTTP request of one push, what is made of
-- its answer, and the factory of providers. The making of requests, encoding/json, net/http and the clock
-- are parameters.
pub mod Outcome
mod Tests
use nanomdm.Common.{
  ℕ, ◌+◌, String, Option, none, some, not, ltb, eqb, List, [], ◌∷◌, ◌==◌, ◌^^◌, if◌then◌else◌,
}
use nanomdm.Common.Fault.{Error, Result, ok, err, fault, wrap}
use nanomdm.Common.Exec.{Exec, pure, ◌>>=◌}
use nanomdm.Common.Decimal.{itoa}
use nanomdm.Common.GoMap.{GoMap, get_or, set}
use nanomdm.Mdm.Checkin
use nanomdm.Http.Client.{ClientRequest, ClientResponse}
use nanomdm.Push.{Response}
use nanomdm.Push.Nanopush.{with_workers}

-- What the client's Do returns: a response, an error that errors.As takes for an http2.GoAwayError, by
-- its DebugData and its ErrCode, or another one.
pub data Answer : Type 0 where
  responded : ClientResponse → Answer
  go_away : String → ℕ → Answer
  failed : Error → Answer

-- The struct `Provider`. A duration is the number of its nanoseconds, 0 where it is not positive.
pub record Provider (S : Type 0) : Type 0 where
  pub client : ClientRequest → S → Answer × S
  pub expiration : ℕ
  pub workers : ℕ
  pub base_url : String

-- JSONPushError; the timestamp is 0 where it is not positive
pub record JsonPushError : Type 0 where
  pub reason : String
  pub timestamp : ℕ

-- Error, of an error that is not nil
unfoldable pub push_error_text : JsonPushError → String
push_error_text e =
    let s : String = "APNs push error" in
    let reason = if not (e.reason == "") then s ^^ (": " ^^ e.reason) else s in
    if ltb 0 e.timestamp then reason ^^ (": timestamp " ^^ itoa e.timestamp) else reason

-- `decode` is json.NewDecoder(body).Decode
module _ (decode : Result String → Result JsonPushError) where
  decoded_error : Result JsonPushError → Error
  decoded_error (ok e) = fault (push_error_text e)
  decoded_error (err e) = wrap "decoding JSON push error" e

  -- newError
  unfoldable pub new_error : Result String → ℕ → Error
  unfolding decoded_error
  new_error body status_code =
      wrap ("push HTTP status: " ^^ itoa status_code) (decoded_error (decode body))

  module _ {S : Type 0} (p : Provider S) (token_text : String → String)
      (new_request : String → String → String → Result ClientRequest)
      (expires : S → ℕ → String) where
    abbrev pub failure : Error → Response
    failure e = record { id = ""; error = some e }

    unfoldable pub response_of : Answer → Response
    response_of (responded r) = record {
      id = get_or "" "Apns-Id" r.headers;
      error = if not (eqb r.status_code 200) then some (new_error r.body r.status_code) else none;
    }
    response_of (go_away text code) = failure (new_error (ok text) code)
    response_of (failed e) = failure e

    -- the headers of a request
    unfoldable pub with_headers : S → ClientRequest → ClientRequest
    with_headers s req =
        let h = set "Content-Type" "application/json" req.headers in
        record req {
          headers =
              if ltb 0 p.expiration then set "Apns-Expiration" (expires s p.expiration) h else h;
        }

    unfoldable made_request : Result ClientRequest → S → Response × S
    unfolding response_of with_headers
    made_request (ok req) s = let (a, s') = p.client (with_headers s req) s in (response_of a, s')
    made_request (err e) s = (failure e, s)

    abbrev pub payload : Checkin.Push → String
    payload info = "{\"mdm\":\"" ^^ (info.push_magic ^^ "\"}")

    abbrev pub device_url : Checkin.Push → String
    device_url info = p.base_url ^^ ("/3/device/" ^^ token_text info.token)

    -- do
    unfoldable pub do_push : Checkin.Push → S → Response × S
    unfolding made_request
    do_push info s = made_request (new_request "POST" (device_url info) (payload info)) s

-- The struct `Factory`, whose newClient makes a client from a certificate
pub record Factory (S Cert : Type 0) : Type 0 where
  pub new_client : Cert → Exec S (ClientRequest → S → Answer × S)
  pub expiration : ℕ
  pub workers : ℕ

-- Option, with WithNewClient and WithExpiration; WithWorkers by the number that it sets
abbrev pub FactoryOption : Type 0 → Type 0 → Type 0
FactoryOption S Cert = Factory S Cert → Factory S Cert

module _ {S Cert : Type 0} where
  abbrev pub with_new_client :
      (Cert → Exec S (ClientRequest → S → Answer × S)) → FactoryOption S Cert
  with_new_client new_client f = record f { new_client = new_client }

  abbrev pub with_expiration : ℕ → FactoryOption S Cert
  with_expiration expiration f = record f { expiration = expiration }

  abbrev pub with_worker_number : ℕ → FactoryOption S Cert
  with_worker_number workers f = record f { workers = with_workers workers }

  apply_options : List (FactoryOption S Cert) → Factory S Cert → Factory S Cert
  apply_options [] f = f
  apply_options (opt ∷ opts) f = apply_options opts (opt f)

  -- NewFactory, of defaultNewClient
  unfoldable pub new_factory :
      (Cert → Exec S (ClientRequest → S → Answer × S))
      → List (FactoryOption S Cert)
      → Factory S Cert
  unfolding apply_options
  new_factory default_new_client opts =
      apply_options opts (record { new_client = default_new_client; expiration = 0; workers = 5 })

  -- NewPushProvider; Go returns a provider without a client beside an error
  unfoldable pub new_push_provider : Factory S Cert → Cert → Exec S (Provider S)
  new_push_provider f cert = f.new_client cert >>= λ client. pure (record {
    client = client;
    expiration = f.expiration;
    workers = f.workers;
    base_url = "https://api.push.apple.com";
  })
