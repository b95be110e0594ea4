-- ===== src/File/Checkin.antt =====
-- storage/file/file.go and bstoken.go: what check-in messages leave in the files of an enrollment.
pub mod Laws
use nanomdm.Common.{
  ℕ, String, Bool, true, false, not, Option, none, some, List, [], ◌∷◌, ◌++◌, ◌==◌, ◌^^◌,
  if◌then◌else◌,
}
use nanomdm.Common.Fault.{Error, Result, ok, err, fault, is_not_exist}
use nanomdm.Common.Exec.{Exec, pure, raise, lift, attempt, ◌>>=◌, ◌>>◌}
use nanomdm.Mdm.Enroll.{Enrolled, Certificate}
use nanomdm.Mdm.Checkin.{
  Authenticate, TokenUpdate, UserAuthenticate, SetBootstrapToken, GetBootstrapToken, BootstrapToken,
}
use nanomdm.File.{
  FileStorage, dir_prefix, write_file, read_file, reset_numeric_file, bump_numeric_file,
  read_numeric_file, assoc_sub_enrollment, list_sub_enrollments, remove_sub_enrollments, each,
  quietly,
}

abbrev pub tally_file : String
tally_file = "TokenUpdate.tally.txt"

abbrev pub disabled_file : String
disabled_file = "Disabled"

abbrev pub bootstrap_file : String
bootstrap_file = "BootstrapToken.dat"

abbrev found_token : Result String → Result (Option BootstrapToken)
found_token (ok raw) = ok (some (record { bootstrap_token = raw }))
found_token (err e) = if is_not_exist e then ok none else err e

-- `pem_certificate` is cryptoutil.PEMCertificate, the encoding of encoding/pem.
module _ {S : Type 0} (fs : FileStorage S) (pem_certificate : String → String) where
  write_identity : String → Option Certificate → Exec S Unit
  write_identity id none = pure tt
  write_identity id (some cert) = write_file fs id "Identity.pem" (pem_certificate cert.raw)

  -- StoreAuthenticate
  unfoldable pub store_authenticate : Enrolled → Authenticate → Exec S Unit
  unfolding write_identity
  store_authenticate r msg =
      write_identity r.id r.certificate
      >> (if not (msg.serial_number == "")
          then write_file fs r.id "SerialNumber.txt" msg.serial_number
          else pure tt)
      >> reset_numeric_file fs r.id tally_file
      >> quietly (fs.os.remove (dir_prefix fs r.id bootstrap_file))
      >> write_file fs r.id "Authenticate.plist" msg.raw

module _ {S : Type 0} (fs : FileStorage S) where
  -- StoreTokenUpdate
  unfoldable pub store_token_update : Enrolled → TokenUpdate → Exec S Unit
  store_token_update r msg =
      (if not (msg.unlock_token == "")
        then write_file fs r.id "UnlockToken.dat" msg.unlock_token
        else pure tt)
      >> (if not (r.parent_id == "") then assoc_sub_enrollment fs r.parent_id r.id else pure tt)
      >> write_file fs r.id "TokenUpdate.plist" msg.raw
      >> bump_numeric_file fs r.id tally_file
      >> quietly (fs.os.remove (dir_prefix fs r.id disabled_file))

  -- RetrieveTokenUpdateTally
  unfoldable pub retrieve_token_update_tally : String → Exec S ℕ
  retrieve_token_update_tally id = read_numeric_file fs id tally_file

  -- StoreUserAuthenticate
  unfoldable pub store_user_authenticate : Enrolled → UserAuthenticate → Exec S Unit
  store_user_authenticate r msg =
      write_file fs r.id
        (if not (msg.digest_response == "")
          then "UserAuthenticate.Digest.plist"
          else "UserAuthenticate.plist")
        msg.raw

  -- Disable
  unfoldable pub disable : Enrolled → Exec S Unit
  disable r =
      if not (r.parent_id == "")
      then raise (fault "can only disable a device channel")
      else list_sub_enrollments fs r.id >>= λ ids.
          each (λ id. write_file fs id disabled_file "") (ids ++ (r.id ∷ []))
          >> remove_sub_enrollments fs r.id

  -- StoreBootstrapToken
  unfoldable pub store_bootstrap_token : Enrolled → SetBootstrapToken → Exec S Unit
  store_bootstrap_token r msg =
      let token = msg.bootstrap_token.bootstrap_token in
      if not (token == "")
      then write_file fs r.id bootstrap_file token
      else quietly (fs.os.remove (dir_prefix fs r.id bootstrap_file))

  -- RetrieveBootstrapToken
  unfoldable pub retrieve_bootstrap_token :
      Enrolled → GetBootstrapToken → Exec S (Option BootstrapToken)
  retrieve_bootstrap_token r _ =
      attempt (read_file fs r.id bootstrap_file) λ got. lift (found_token got)
