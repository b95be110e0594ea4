-- ===== src/File/PushCert.antt =====
-- storage/file/pushcert.go: push certificates in files named by their topic. Parsing certificates
-- (crypto/tls, crypto/x509 and cryptoutil.TopicFromPEMCert over them) is a parameter.
use nanomdm.Common.{String, Bool, true, false, not, ◌==◌, ◌^^◌, if◌then◌else◌}
use nanomdm.Common.Fault.{Result, fault}
use nanomdm.Common.Exec.{Exec, pure, raise, lift, ◌>>=◌, ◌>>◌}
use nanomdm.File.{FileStorage}
use nanomdm.File.Disk.{Os, join}

-- The struct `PushCertFileStorage`.
pub record PushCertFileStorage : Type 0 where
  pub cert_filepath : String
  pub key_filepath : String
  pub allow_store : Bool

module _ {S Cert : Type 0} (os : Os S) (topic_of : String → Result String)
    (key_pair : String → String → Result Cert) where
  -- RetrievePushCert of the struct; an error of the last read comes beside the pair in Go
  unfoldable pub retrieve_push_cert_files : PushCertFileStorage → String → Exec S (Cert × String)
  retrieve_push_cert_files p topic = do
    pem_cert ← os.read_file p.cert_filepath
    cert_topic ← lift (topic_of pem_cert)
    (if cert_topic == topic then pure tt else raise (fault "certificate topic mismatch"))
    pem_key ← os.read_file p.key_filepath
    cert ← lift (key_pair pem_cert pem_key)
    stale_token ← os.mod_time p.cert_filepath
    pure (cert, stale_token)

  -- IsPushCertStale of the struct; Go returns true beside an error
  unfoldable pub is_push_cert_file_stale : PushCertFileStorage → String → Exec S Bool
  is_push_cert_file_stale p provided =
      os.mod_time p.cert_filepath >>= λ stale_token. pure (not (provided == stale_token))

  -- StorePushCert of the struct
  unfoldable pub store_push_cert_files : PushCertFileStorage → String → String → Exec S Unit
  store_push_cert_files p pem_cert pem_key =
      if not p.allow_store
      then raise (fault "store push cert: not permitted")
      else os.write_file p.cert_filepath pem_cert >> os.write_file p.key_filepath pem_key

module _ {S Cert : Type 0} (fs : FileStorage S) (topic_of : String → Result String)
    (key_pair : String → String → Result Cert) where
  abbrev pub push_cert_files : String → Bool → PushCertFileStorage
  push_cert_files topic allow = record {
    cert_filepath = join fs.path (topic ^^ ".pem");
    key_filepath = join fs.path (topic ^^ ".key");
    allow_store = allow;
  }

  -- RetrievePushCert, IsPushCertStale and StorePushCert of FileStorage
  unfoldable pub retrieve_push_cert : String → Exec S (Cert × String)
  retrieve_push_cert topic =
      retrieve_push_cert_files fs.os topic_of key_pair (push_cert_files topic false) topic

  unfoldable pub is_push_cert_stale : String → String → Exec S Bool
  is_push_cert_stale topic provided =
      is_push_cert_file_stale fs.os topic_of key_pair (push_cert_files topic false) provided

  unfoldable pub store_push_cert : String → String → Exec S Unit
  store_push_cert pem_cert pem_key = lift (topic_of pem_cert) >>= λ topic.
      store_push_cert_files fs.os topic_of key_pair (push_cert_files topic true) pem_cert pem_key
