-- ===== src/Http/Extract.antt =====
-- http/mdm/cert_extract.go: certificates from the values of headers. Base64, X.509, URL and PEM
-- decoding are parameters.
use Prim.Native.String.{slice, len}
use nanomdm.Common.{String, ◌-◌, Option, some, none, ltb, not, ◌==◌, ◌||◌, if◌then◌else◌}
use nanomdm.Common.Fault.{Result, ok, err, fault, wrap, ◌>>=◌}
use nanomdm.Mdm.Enroll.{Certificate}

-- base64.StdEncoding.DecodeString, x509.ParseCertificate, url.QueryUnescape, and pem.Decode, which
-- gives the type and the bytes of the first block
pub record Decoders : Type 0 where
  pub base64 : String → Result String
  pub parse_certificate : String → Result Certificate
  pub query_unescape : String → Result String
  pub pem_block : String → Option (String × String)

wrapped : {A : Type 0} → String → Result A → Result A
wrapped text (ok a) = ok a
wrapped text (err e) = err (wrap text e)

module _ (d : Decoders) where
  -- ExtractRFC9440
  unfoldable pub extract_rfc9440 : String → Result Certificate
  unfolding wrapped
  extract_rfc9440 value =
      let n = len value in
      if ltb n 3
      then err (fault "header too short")
      else if not (slice value 0 1 == ":") || not (slice value (n - 1) n == ":")
      then err (fault "invalid prefix or suffix")
      else wrapped "decoding base64" (d.base64 (slice value 1 (n - 1))) >>= λ bytes.
          wrapped "parse certificate" (d.parse_certificate bytes)

  -- cryptoutil.DecodePEMCertificate, of the block that pem.Decode found
  decode_block : Option (String × String) → Result Certificate
  decode_block none = err (fault "failed to decode PEM certificate")
  decode_block (some (t, bytes)) =
      if not (t == "CERTIFICATE")
      then err (fault "failed to decode PEM certificate")
      else d.parse_certificate bytes

  unfoldable pub decode_pem_certificate : String → Result Certificate
  unfolding decode_block
  decode_pem_certificate pem = decode_block (d.pem_block pem)

  -- ExtractQueryEscapedPEM
  unfoldable pub extract_query_escaped_pem : String → Result Certificate
  unfolding wrapped
  extract_query_escaped_pem value =
      if ltb (len value) 1
      then err (fault "header too short")
      else wrapped "query unescape" (d.query_unescape value) >>= λ pem.
          wrapped "decode certificate" (decode_pem_certificate pem)

  -- the certificate of a header's value, in the format that its first character tells
  unfoldable pub extract : String → Result Certificate
  unfolding wrapped
  extract value =
      if slice value 0 1 == ":"
      then wrapped "rfc9440" (extract_rfc9440 value)
      else wrapped "query escaped" (extract_query_escaped_pem value)
