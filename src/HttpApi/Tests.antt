-- ===== src/HttpApi/Tests.antt =====
-- Requests to the API on stores in memory, with the last answer kept beside them.
use Prim.Native.String.{slice}
use nanomdm.Common.GoMap.{GoMap}
use nanomdm.Common.{
  ℕ, Bool, Option, ltb, ◌^^◌, String, ◌≡◌, refl, false, none, some, List, [], ◌∷◌, ◌==◌,
  if◌then◌else◌, arith, ne_of_test,
}
use nanomdm.Common.Fault.{Error, Result, ok}
use nanomdm.Common.Exec.{Exec}
use nanomdm.Common.Decimal.{itoa}
use nanomdm.Bucket.Memory.{
  Memory, contents, bucket-IsReliable, txn_bucket-CommitsBody, at_number, empty,
}
use nanomdm.Api.{CommandEnqueuer}
use nanomdm.Mdm.Command.{Command}
use nanomdm.Push.{Pusher}
use nanomdm.Kv.CommandQueue.Tests.{kv}
use nanomdm.Http.Client.{ClientRequest, Doer}
use nanomdm.HttpApi.{ApiRequest, JsonWriter, write_json, push_cert_response}
use nanomdm.HttpApi.PushCert.{Pem, read_pem_cert_and_key}
use nanomdm.HttpApi.PushCert.Upload.{endpoint, push_cert_endpoint-upload}
use nanomdm.HttpApi.Unlock.{
  do_escrow_key_unlock, fill_unlock_params, is_valid, query_params, form_params,
  escrow_key_unlock_handler,
}
use nanomdm.HttpApi.Unlock.Headers.{escrow_key_unlock_handler-write_header}

-- a writer that keeps the status and the body
abbrev writer : JsonWriter Memory
writer = record {
  json_header = λ code s. at_number 9 (("status", itoa code) ∷ []) s;
  encode = λ v s. s;
  write_header = λ code s. at_number 9 (("status", itoa code) ∷ []) s;
  add_header = λ k v s. (contents 9).put k v s;
  write_body = λ body s. (contents 9).put "body" body s;
  error = λ code s. at_number 9 (("status", itoa code) ∷ []) s;
}

-- an enqueuer and a pusher that leave a note of their call
abbrev enqueuer : CommandEnqueuer Memory
enqueuer ids cmd s = (([], none), (contents 7).put "enqueued" cmd.command_uuid s)

abbrev pusher : Pusher Memory
pusher ids s = (([], none), (contents 7).put "pushed" "yes" s)

abbrev decode : String → Result Command
decode body = ok (record { command_uuid = "a"; request_type = "DeviceLock"; raw = body })

abbrev split : String → String → List String
split text sep = text ∷ []

abbrev lock : ApiRequest
lock = record { method = "PUT"; path = "d"; query = λ name. ""; body = ok "<plist/>" }

-- a decoder of two blocks
abbrev pem : Pem String (String × String)
pem = record {
  replace_all = λ text old new. text;
  blocks = λ text.
      record { type = "CERTIFICATE"; is_encrypted = false; encoded = "<pem>" }
      ∷ record { type = "RSA PRIVATE KEY"; is_encrypted = false; encoded = "<key>" }
      ∷ [];
  quote = λ text. text;
  key_pair = λ cert key. ok (cert, key);
  decode = λ cert. ok cert;
  topic_of = λ cert. ok "com.example";
  not_after = λ cert. "2027";
  parse_leaf = λ pair. ok pair.0;
}

abbrev upload : ApiRequest
upload = record { method = "PUT"; path = ""; query = λ name. ""; body = ok "<pem><key>" }

abbrev ask : ApiRequest
ask = record { method = "GET"; path = ""; query = λ name. "com.example"; body = ok "" }

abbrev seven : Memory
seven = at_number 2 (("com.example.stale_token", "7") ∷ []) empty

abbrev error_text : Error → String
error_text e = "error"

abbrev push_cert : ApiRequest → Memory → Memory
push_cert =
    endpoint pem writer error_text kv (contents 2) (bucket-IsReliable 2) (txn_bucket-CommitsBody 2)

push_cert_endpoint-upload_example :
    (s' : Memory) × (push_cert upload seven
      ≡ write_json writer (push_cert_response "com.example" "2027") 200 s')
    × (push_cert ask s' ≡ write_json writer (push_cert_response "com.example" "2027") 200 s')
unfolding read_pem_cert_and_key
push_cert_endpoint-upload_example =
    push_cert_endpoint-upload pem writer error_text kv (contents 2) (bucket-IsReliable 2)
      (txn_bucket-CommitsBody 2) upload ask "<pem><key>" "<pem>" "<key>" "com.example" "<pem>"
      ("<pem>", "<key>") 7 seven refl refl refl refl (ne_of_test "com.example" "" refl) refl refl
      refl refl refl refl (omega arith)

-- what goes out to a client: the headers that were added in time, the status, the body
record Sent : Type 0 where
  headers : GoMap String
  status : Option ℕ
  body : String

abbrev is_trailer : Sent → String → Bool
is_trailer s k = slice k 0 8 == "Trailer:"

abbrev add : String → String → Sent → Sent
add k v s = record s { headers = (k, v) ∷ s.headers }

-- a writer of such answers, over net/http
abbrev sending : JsonWriter Sent
sending = record {
  json_header = λ code s. begin code (add "Content-Type" "application/json" s);
  encode = λ v s. record s { body = s.body ^^ "{}" };
  write_header = begin;
  add_header = λ k v s. elim s.status [
    | none ↦ add k v s
    | some code ↦ if is_trailer s k then add k v s else s
  ];
  write_body = λ body s. record s { body = s.body ^^ body };
  error = λ code s. begin code s;
}
  where
    begin : ℕ → Sent → Sent
    begin code s = if ltb code 200 then s else record s { status = some code }

late :
    (k v : String) (code : ℕ) (s : Sent)
    → ltb code 200 ≡ false
    → is_trailer s k ≡ false
    → sending.add_header k v (sending.write_header code s) ≡ sending.write_header code s
late k v code s final plain = rw (final, plain) refl

abbrev nothing : Sent
nothing = record { headers = []; status = none; body = "" }

abbrev form : String → String
form name = if name == "imei" then "" else name

abbrev apple : Doer Sent
apple req s = (
  ok (record {
    status_code = 404;
    status = "404 Not Found";
    headers = ("Content-Type", "text/html") ∷ [];
    body = ok "not found";
  }),
  s,
)

abbrev retrieve : String → Exec Sent (String × String)
retrieve topic s = (ok ("<pem>", "7"), s)

abbrev new_request : String → String → String → Result ClientRequest
new_request method url body =
    ok (record { method = method; url = url; headers = []; body = ok body })

escrow_key_unlock_handler-write_header_example :
    escrow_key_unlock_handler retrieve
      (λ cert. ok apple)
      (λ values. "values")
      new_request
      sending
      error_text
      form
      nothing
    ≡ record nothing { status = some 404; body = "not found" }
unfolding do_escrow_key_unlock is_valid fill_unlock_params query_params form_params
escrow_key_unlock_handler-write_header_example =
    escrow_key_unlock_handler-write_header retrieve (λ cert. ok apple) (λ values. "values")
      new_request sending error_text is_trailer late form
      (record {
        status_code = 404;
        status = "404 Not Found";
        headers = ("Content-Type", "text/html") ∷ [];
        body = ok "not found";
      })
      "not found" nothing nothing refl (ne_of_test "topic" "" refl) refl refl refl (refl, tt)
