-- ===== src/HttpApi/Unlock.antt =====
-- http/api/escrowkeyunlock.go, http/escrowkeyunlock/activationlock.go and params.go: the removal of an
-- activation lock by a request to Apple. The encoding of URL values and ClientWithCert (over net/http)
-- are parameters.
pub mod Headers
use nanomdm.Common.{String, Bool, not, ◌||◌, List, [], ◌∷◌, ◌==◌, ◌^^◌, if◌then◌else◌}
use nanomdm.Common.Fault.{Error, Result, ok, err, fault, wrap}
use nanomdm.Common.Exec.{Exec, lift, map_error, ◌>>=◌}
use nanomdm.Common.GoMap.{GoMap, set}
use nanomdm.Http.Client.{ClientRequest, ClientResponse, Doer}
use nanomdm.HttpApi.{JsonWriter, log_and_write_json_error}

-- EscrowKeyUnlockParams
pub record EscrowKeyUnlockParams : Type 0 where
  pub serial : String
  pub imei : String
  pub imei2 : String
  pub meid : String
  pub product_type : String
  pub org_name : String
  pub guid : String
  pub escrow_key : String

-- fillUnlockParams, of `Get` of the form's values
unfoldable pub fill_unlock_params : (String → String) → EscrowKeyUnlockParams
fill_unlock_params get = record {
  serial = get "serial";
  imei = get "imei";
  imei2 = get "imei2";
  meid = get "meid";
  product_type = get "productType";
  org_name = get "orgName";
  guid = get "guid";
  escrow_key = get "escrowKey";
}

module _ (e : EscrowKeyUnlockParams) where
  -- Valid, of parameters that are not nil
  unfoldable pub is_valid : Bool
  is_valid = not (
      e.serial == ""
      || e.product_type == ""
      || e.org_name == ""
      || e.guid == ""
      || e.escrow_key == "")

  set_non_empty : String → String → GoMap String → GoMap String
  set_non_empty k v q = if not (v == "") then set k v q else q

  -- QueryParams
  unfoldable pub query_params : GoMap String
  unfolding set_non_empty
  query_params = set_non_empty "meid" e.meid (
      set_non_empty "imei2" e.imei2
        (set_non_empty "imei" e.imei (set "productType" e.product_type (set "serial" e.serial []))))

  -- FormParams
  unfoldable pub form_params : GoMap String
  form_params = set "escrowKey" e.escrow_key (set "guid" e.guid (set "orgName" e.org_name []))

module _ {S Cert : Type 0} (retrieve : String → Exec S (Cert × String))
    (client_with_cert : Cert → Result (Doer S)) (encode_values : GoMap String → String)
    (new_request : String → String → String → Result ClientRequest) where
  abbrev escrow_key_unlock_url : String
  escrow_key_unlock_url =
      "https://deviceservices-external.apple.com/deviceservicesworkers/escrowKeyUnlock"

  -- DoEscrowKeyUnlock, whose client is always nil
  unfoldable pub do_escrow_key_unlock : String → GoMap String → GoMap String → Exec S ClientResponse
  do_escrow_key_unlock topic query form =
      map_error (wrap ("retrieve push cert for topic: " ^^ topic)) (retrieve topic)
      >>= λ (cert, token).
          map_error (wrap "adapting client for mTLS") (lift (client_with_cert cert)) >>= λ client.
          map_error (wrap "creating request") (
            lift (
              new_request "POST" (escrow_key_unlock_url ^^ ("?" ^^ encode_values query))
                (encode_values form)))
          >>= λ req. client (record req {
            headers = set "Content-Type" "application/x-www-form-urlencoded" req.headers;
          })

  module _ (w : JsonWriter S) (error_text : Error → String) where
    -- the loop over the headers of the response
    unfoldable pub copy_headers : GoMap String → S → S
    copy_headers [] s = s
    copy_headers ((k, v) ∷ h) s = copy_headers h (w.add_header k v s)

    -- A body that cannot be copied is only logged.
    unfoldable copy_body : Result String → S → S
    copy_body (ok body) s = w.write_body body s
    copy_body (err e) s = s

    unfoldable copy_response : Result ClientResponse × S → S
    unfolding copy_body
    copy_response (ok resp, s) =
        copy_body resp.body (copy_headers resp.headers (w.write_header resp.status_code s))
    copy_response (err e, s) = log_and_write_json_error w error_text e 0 s

    -- NewEscrowKeyUnlockHandler, of `Get` of the parsed form
    unfoldable pub escrow_key_unlock_handler : (String → String) → S → S
    unfolding copy_response
    escrow_key_unlock_handler get s =
        let params = fill_unlock_params get in
        let topic = get "topic" in
        if not (is_valid params)
        then log_and_write_json_error w error_text (fault "invalid or missing parameters") 400 s
        else if topic == ""
        then log_and_write_json_error w error_text (fault "empty topic") 400 s
        else copy_response (do_escrow_key_unlock topic (query_params params) (form_params params) s)
