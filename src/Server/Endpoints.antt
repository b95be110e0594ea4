-- ===== src/Server/Endpoints.antt =====
-- cmd/nanomdm/main.go: the middlewares, the handlers and the routes of the server.
use nanomdm.Common.{String, Bool, [], ◌∷◌, ◌++◌, ◌==◌, if◌then◌else◌}
use nanomdm.Common.Fault.{Result, ok, ◌>>=◌}
use nanomdm.Common.Exec.{Exec, lift}
use nanomdm.Service.{CheckinAndCommandService}
use nanomdm.Service.Nano.{nano}
use nanomdm.Service.Dump.{Written}
use nanomdm.CertVerify.{pool_verify}
use nanomdm.Http.{
  HttpRequest, Handler, checkin_handler, command_and_report_results_handler,
  checkin_and_command_handler,
}
use nanomdm.Http.Identity.{
  cert_extract_pem_header_middleware, cert_extract_mdm_signature_middleware, cert_verify_middleware,
  cert_with_enrollment_id_middleware,
}
use nanomdm.Http.AuthProxy.{with_header_func, auth_proxy}
use nanomdm.Server.{Flags, Parts, Routes, Middleware, silent, core, mdm_service}

module _ {S : Type 0} where
  -- a middleware's call of the storage
  unlogged : {A : Type 0} → Exec S A → Exec (Written × S) A
  unlogged call (log, s) = let (r, s') = call s in (r, (log, s'))

module _ {S : Type 0} (p : Parts S) (f : Flags) where
  -- the middlewares of `mdmAuthMux`
  unfoldable pub extract_certificate : Middleware (Written × S)
  extract_certificate h =
      if f.cert_header == ""
      then cert_extract_mdm_signature_middleware h p.writer p.verify_mdm_signature
      else cert_extract_pem_header_middleware h p.decoders f.cert_header

  unfoldable pub verify_certificate : Middleware (Written × S)
  verify_certificate h =
      cert_verify_middleware h p.writer λ cert. lift (pool_verify p.verify_chain cert)

  unfoldable pub mdm_auth : Middleware (Written × S)
  unfolding extract_certificate verify_certificate
  mdm_auth = p.chain (extract_certificate ∷ verify_certificate ∷ [])

  -- the 'core' MDM HTTP handlers
  unfoldable pub mdm_handlers : CheckinAndCommandService S → Routes S
  unfolding mdm_service mdm_auth
  mdm_handlers svc =
      let s = mdm_service p f svc in
      if f.checkin
      then ("/checkin", mdm_auth (checkin_handler p.writer s p.marshal p.plist p.unmarshal))
        ∷ (
          "/mdm",
          mdm_auth (command_and_report_results_handler p.writer s p.marshal p.plist p.unmarshal),
        )
        ∷ []
      else ("/mdm", mdm_auth (checkin_and_command_handler p.writer s p.marshal p.plist p.unmarshal))
        ∷ []

  -- the proxy, behind the look-up of the enrollment ID
  unfoldable pub proxy_handler : String × (HttpRequest → HttpRequest) → Handler (Written × S)
  unfolding unlogged mdm_auth
  proxy_handler (host, dir) =
      let config = with_header_func "X-Trace-ID" p.trace_id (
        with_header_func "X-Enrollment-ID" (λ r. r.enrollment_id)
          (record { fwd_sig = Bool.false; header_funcs = [] })) in
      let identify : Middleware (Written × S) = λ h.
        cert_with_enrollment_id_middleware h p.writer p.hash_cert
          (λ hash. unlogged (p.enrollment_from_hash hash)) Bool.true in
      mdm_auth (
        p.chain (identify ∷ [])
          (p.strip_prefix "/authproxy/" (auth_proxy config host dir p.forward)))

  unfoldable pub proxy_handlers : Result (Routes S)
  unfolding proxy_handler
  proxy_handlers =
      if f.auth_proxy_url == ""
      then ok []
      else p.new_proxy f.auth_proxy_url >>= λ target.
          ok (("/authproxy/", proxy_handler target) ∷ [])

  -- `if !*flDisableMDM`
  unfoldable pub mdm_routes : CheckinAndCommandService S → Result (Routes S)
  unfolding mdm_handlers proxy_handlers
  mdm_routes svc =
      if f.disable_mdm
      then ok []
      else proxy_handlers >>= λ proxies. ok (mdm_handlers svc ++ proxies)

  -- the endpoint of migrations, straight to the 'core' service
  unfoldable pub migration_routes : CheckinAndCommandService S → Routes S
  migration_routes svc =
      if f.api_key == ""
      then []
      else if f.migration
      then (
        "/migration",
        p.chain (p.basic_auth f.api_key ∷ [])
            (checkin_handler p.writer (silent svc) p.marshal p.plist p.unmarshal),
      )
        ∷ []
      else []

  -- the routes of the server, or the error that ends it
  unfoldable pub routes : Result (Routes S)
  unfolding core mdm_routes migration_routes
  routes = core p f >>= λ n. mdm_routes (nano n) >>= λ mdm. ok (mdm ++ migration_routes (nano n))
