-- ===== src/HttpApi/PushCert.antt =====
-- http/api/pushcert.go: push certificates that are uploaded and asked for, and the route to the two
-- handlers in http/api/v1.go. Decoding PEM and certificates is a parameter.
pub mod Upload
use Prim.Native.String.{slice, len}
use nanomdm.Common.{String, Bool, ◌-◌, not, ◌||◌, ltb, List, [], ◌∷◌, ◌==◌, ◌^^◌, if◌then◌else◌}
use nanomdm.Common.Fault.{Error, Result, ok, err, fault, ◌>>=◌}
use nanomdm.Common.Exec.{Exec}
use nanomdm.HttpApi.{
  ApiRequest, JsonWriter, ApiHandler, write_json, log_and_write_json_error, push_cert_response,
}

-- pem.Block: its type, whether it is encrypted, and pem.EncodeToMemory of it
pub record Block : Type 0 where
  pub type : String
  pub is_encrypted : Bool
  pub encoded : String

-- strings.HasSuffix
has_suffix : String → String → Bool
has_suffix s suffix =
    let n = len suffix in
    if ltb (len s) n then s == suffix else slice s (len s - n) (len s) == suffix

-- The loop of readPEMCertAndKey over the blocks of an input, with the certificate and the key so far.
-- What it has read beside an error is not used.
unfoldable read_blocks : (String → String) → List Block → String → String → Result (String × String)
unfolding has_suffix
read_blocks quote [] cert key = ok (cert, key)
read_blocks quote (b ∷ bs) cert key =
    let with_cert = read_blocks quote bs b.encoded key in
    let with_key = read_blocks quote bs cert b.encoded in
    if b.type == "CERTIFICATE"
    then with_cert
    else if b.type == "PRIVATE KEY" || has_suffix b.type " PRIVATE KEY"
    then if b.is_encrypted then err (fault "private key PEM appears to be encrypted") else with_key
    else err (fault ("unrecognized PEM type: " ^^ quote b.type))

-- What the handlers call: bytes.ReplaceAll, the blocks that pem.Decode finds one after the other in an
-- input, the format %q, tls.X509KeyPair, DecodePEMCertificate, TopicFromCert, the certificate's
-- NotAfter, and x509.ParseCertificate of the first certificate of a pair.
pub record Pem (Cert Pair : Type 0) : Type 0 where
  pub replace_all : String → String → String → String
  pub blocks : String → List Block
  pub quote : String → String
  pub key_pair : String → String → Result Pair
  pub decode : String → Result Cert
  pub topic_of : Cert → Result String
  pub not_after : Cert → String
  pub parse_leaf : Pair → Result Cert

module _ {Cert Pair : Type 0} (p : Pem Cert Pair) where
  -- readPEMCertAndKey
  unfoldable pub read_pem_cert_and_key : String → Result (String × String)
  unfolding read_blocks
  read_pem_cert_and_key input =
      read_blocks p.quote (p.blocks (p.replace_all input "----------" "-----\n-----")) "" ""

  module _ {S : Type 0} (w : JsonWriter S) (error_text : Error → String) where
    fail : Error → S → S
    fail e = log_and_write_json_error w error_text e 0

    refuse : Error → S → S
    refuse e = log_and_write_json_error w error_text e 400

    module _ (retrieve : String → Exec S (Pair × String)) where
      unfoldable leaf_response : String → Result Cert → S → S
      unfolding fail
      leaf_response topic (ok leaf) s =
          write_json w (push_cert_response topic (p.not_after leaf)) 200 s
      leaf_response topic (err e) s = fail e s

      unfoldable pair_response : String → Result (Pair × String) × S → S
      unfolding leaf_response fail
      pair_response topic (ok (pair, stale_token), s) = leaf_response topic (p.parse_leaf pair) s
      pair_response topic (err e, s) = fail e s

      -- NewRetrievePushCertHandler
      unfoldable pub retrieve_push_cert_handler : ApiHandler S
      unfolding pair_response refuse
      retrieve_push_cert_handler r s =
          let topic = r.query "topic" in
          if topic == ""
          then refuse (fault "missing required query parameter: topic") s
          else pair_response topic (retrieve topic s)

    module _ (store : String → String → Exec S Unit) where
      unfoldable stored_response : String → Cert → Result (Unit {0}) × S → S
      unfolding fail
      stored_response topic cert (ok u, s) =
          write_json w (push_cert_response topic (p.not_after cert)) 200 s
      stored_response topic cert (err e, s) = fail e s

      -- the certificate and its topic, once the pair is known to be usable
      unfoldable checked : String × String → Result (Cert × String)
      checked (cert_pem, key_pem) = p.key_pair cert_pem key_pem >>= λ pair.
          p.decode cert_pem >>= λ cert. p.topic_of cert >>= λ topic. ok (cert, topic)

      unfoldable store_checked : String × String → Result (Cert × String) → S → S
      unfolding stored_response refuse
      store_checked (cert_pem, key_pem) (ok (cert, topic)) s =
          stored_response topic cert (store cert_pem key_pem s)
      store_checked pair (err e) s = refuse e s

      unfoldable store_read : Result (String × String) → S → S
      unfolding store_checked checked refuse
      store_read (ok pair) s = store_checked pair (checked pair) s
      store_read (err e) s = refuse e s

      unfoldable store_body : Result String → S → S
      unfolding store_read fail
      store_body (ok input) s = store_read (read_pem_cert_and_key input) s
      store_body (err e) s = fail e s

      -- NewStorePushCertHandler
      unfoldable pub store_push_cert_handler : ApiHandler S
      unfolding store_body
      store_push_cert_handler r s = store_body r.body s

      -- the handler of APIEndpointPushCert that HandleAPIv1 registers
      unfoldable pub push_cert_endpoint : (String → Exec S (Pair × String)) → ApiHandler S
      push_cert_endpoint retrieve r s =
          if r.method == "PUT"
          then store_push_cert_handler r s
          else if r.method == "GET"
          then retrieve_push_cert_handler retrieve r s
          else w.error 405 s
