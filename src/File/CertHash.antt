-- ===== src/File/CertHash.antt =====
-- storage/file/certauth.go: a file of lines "ID,hash" and, for each enrollment, its latest hash.
use nanomdm.Common.{
  String, Bool, true, false, Option, none, some, List, [], ◌∷◌, ◌==◌, ◌^^◌, if◌then◌else◌,
}
use nanomdm.Common.Fault.{Result, ok, err, fault, is_not_exist, ◌>>=◌}
use nanomdm.Common.Exec.{Exec, lift, attempt, ◌>>◌}
use nanomdm.Mdm.Enroll.{Enrolled}
use nanomdm.Service.{CertAuthStore}
use nanomdm.File.{FileStorage, read_file, write_file}
use nanomdm.File.Disk.{join}
use nanomdm.File.Lines.{contains, pieces, lines}

abbrev pub hash_file : String
hash_file = "CertAuth.sha256.txt"

-- the first line that contains a hash
abbrev pub find_line : String → List String → Option String
find_line hash [] = none
find_line hash (line ∷ rest) =
    let later = find_line hash rest in if contains line hash then some line else later

abbrev pub is_found : Option String → Bool
is_found none = false
is_found (some _) = true

abbrev is_there : Result String → Result Bool
is_there (ok b) = ok true
is_there (err e) = if is_not_exist e then ok false else err e

abbrev mentioned : String → Result String → Result Bool
mentioned hash (ok text) = ok (is_found (find_line hash (lines text)))
mentioned hash (err e) = if is_not_exist e then ok false else err e

-- the ID on a line, which must have a comma in it
abbrev id_of : String × List String → Result String
id_of (id, []) = err (fault "hash and enrollment id not present on line")
id_of (id, rest ∷ more) = ok id

abbrev id_on : Option String → Result String
id_on none = ok ""
id_on (some line) = id_of (pieces 44 line)

-- `to_lower` is strings.ToLower.
module _ {S : Type 0} (fs : FileStorage S) (to_lower : String → String) where
  abbrev same_hash : String → Result String → Result Bool
  same_hash hash (ok b) = ok (to_lower b == to_lower hash)
  same_hash hash (err e) = if is_not_exist e then ok false else err e

  abbrev pub associations : String
  associations = join fs.path "CertAuth.txt"

  -- EnrollmentHasCertHash
  unfoldable pub enrollment_has_cert_hash : Enrolled → String → Exec S Bool
  enrollment_has_cert_hash r _ = attempt (read_file fs r.id hash_file) λ got. lift (is_there got)

  -- HasCertHash
  unfoldable pub has_cert_hash : Enrolled → String → Exec S Bool
  has_cert_hash r hash = attempt (fs.os.read_file associations) λ got. lift (mentioned hash got)

  -- IsCertHashAssociated
  unfoldable pub is_cert_hash_associated : Enrolled → String → Exec S Bool
  is_cert_hash_associated r hash =
      attempt (read_file fs r.id hash_file) λ got. lift (same_hash hash got)

  -- AssociateCertHash
  unfoldable pub associate_cert_hash : Enrolled → String → Exec S Unit
  associate_cert_hash r hash =
      fs.os.append_file associations (r.id ^^ ("," ^^ (hash ^^ "\n")))
      >> write_file fs r.id hash_file hash

  -- EnrollmentFromHash; here a missing file is an error
  unfoldable pub enrollment_from_hash : String → Exec S String
  enrollment_from_hash hash =
      attempt (fs.os.read_file associations)
        λ got. lift (got >>= λ text. id_on (find_line hash (lines text)))

  abbrev pub cert_auth_store : CertAuthStore S
  cert_auth_store = record {
    has_cert_hash = has_cert_hash;
    enrollment_has_cert_hash = enrollment_has_cert_hash;
    is_cert_hash_associated = is_cert_hash_associated;
    associate_cert_hash = associate_cert_hash;
  }
