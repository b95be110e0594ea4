-- ===== src/HttpApi/Unlock/Headers.antt =====
-- What http/api/escrowkeyunlock.go passes on of Apple's answer.
use nanomdm.Common.{ℕ, String, ◌≡◌, ◌≢◌, refl, Bool, true, false, [], ◌∷◌, All, ltb, ne_refl}
use nanomdm.Common.Fault.{Error, Result, ok}
use nanomdm.Common.Exec.{Exec}
use nanomdm.Common.GoMap.{GoMap}
use nanomdm.Http.Client.{ClientRequest, ClientResponse, Doer}
use nanomdm.HttpApi.{JsonWriter}
use nanomdm.HttpApi.Unlock.{
  fill_unlock_params, is_valid, query_params, form_params, do_escrow_key_unlock, copy_headers,
  copy_response, copy_body, escrow_key_unlock_handler,
}

module _ {S Cert : Type 0} (retrieve : String → Exec S (Cert × String))
    (client_with_cert : Cert → Result (Doer S)) (encode_values : GoMap String → String)
    (new_request : String → String → String → Result ClientRequest) (w : JsonWriter S)
    (error_text : Error → String) (is_trailer : S → String → Bool)
    (late : (k v : String) (code : ℕ) (s : S)
      → ltb code 200 ≡ false
      → is_trailer s k ≡ false
      → w.add_header k v (w.write_header code s) ≡ w.write_header code s) where
  -- no header of these is a trailer, by its prefix or since it was announced
  abbrev pub HasNoTrailer : S → GoMap String → Type 0
  HasNoTrailer s h = All (λ kv. is_trailer s kv.0 ≡ false) h

  copy_headers-write_header :
      (h : GoMap String) (code : ℕ) (s : S)
      → ltb code 200 ≡ false
      → HasNoTrailer s h
      → copy_headers retrieve client_with_cert encode_values new_request w error_text h
          (w.write_header code s)
        ≡ w.write_header code s
  unfolding copy_headers
  copy_headers-write_header [] code s final plain = refl
  copy_headers-write_header ((k, v) ∷ h) code s final plain =
      rw (late k v code s final plain.0) (copy_headers-write_header h code s final plain.1)

  -- Where a header that is added after WriteHeader is not sent, unless the status was of the 1xx class
  -- or the header is a trailer: the handler answers valid parameters and a topic, for which Apple's
  -- server answers with a status of at least 200, headers that are no trailers, and a body that can
  -- be read, with the status and the body of that answer and with none of its headers.
  pub escrow_key_unlock_handler-write_header :
      (get : String → String) (resp : ClientResponse) (body : String) (s s' : S)
      → is_valid (fill_unlock_params get) ≡ true
      → get "topic" ≢ ""
      → do_escrow_key_unlock retrieve client_with_cert encode_values new_request
          (get "topic")
          (query_params (fill_unlock_params get))
          (form_params (fill_unlock_params get))
          s
        ≡ (ok resp, s')
      → resp.body ≡ ok body
      → ltb resp.status_code 200 ≡ false
      → HasNoTrailer s' resp.headers
      → escrow_key_unlock_handler retrieve client_with_cert encode_values new_request w error_text
          get s
        ≡ w.write_body body (w.write_header resp.status_code s')
  unfolding escrow_key_unlock_handler copy_response copy_body
  escrow_key_unlock_handler-write_header get resp body s s' valid named done read final plain =
      rw
        (
          valid,
          ne_refl (get "topic") "" named,
          done,
          read,
          copy_headers-write_header resp.headers resp.status_code s' final plain,
        )
        refl
