-- ===== src/Server/Routes.antt =====
-- The endpoints that cmd/nanomdm/main.go registers for devices, whatever its flags are.
use mathlib.Core.Path.{subst}
use nanomdm.Common.{
  String, ◌≡◌, ◌⊎◌, inl, inr, none, [], ◌∷◌, ◌++◌, ◌==◌, All, All-append, Bool-cases,
}
use nanomdm.Common.Fault.{Result, ok, err, ◌>>=◌}
use nanomdm.Mdm.Enroll.{Certificate}
use nanomdm.Service.{CheckinAndCommandService}
use nanomdm.Service.Dump.{Written}
use nanomdm.Http.{HttpRequest, Handler}
use nanomdm.Server.{Flags, Parts, Routes}
use nanomdm.Server.Endpoints.{mdm_auth, mdm_handlers, proxy_handler, proxy_handlers, mdm_routes}
use nanomdm.Server.Verified.{RunsInOrder, Presents, Refused, mdm_auth-Verdict}

module _ {S : Type 0} (p : Parts S) (f : Flags) where
  -- A request that comes without a certificate in its context is refused, with nothing written, or it
  -- presents a certificate that was verified.
  abbrev pub Guards : Handler (Written × S) → Type 0
  Guards h =
      (r : HttpRequest) (ls : Written × S)
      → r.certificate ≡ none
      → Refused p f ls (h r ls)
        ⊎ ((c : Certificate) × Presents p f r c × (p.verify_chain c ≡ ok tt))

  abbrev pub AllGuard : Routes S → Type 0
  AllGuard = All (λ route. Guards route.1)

  module _ (o : RunsInOrder p) where
    mdm_auth-Guards : (next : Handler (Written × S)) → Guards (mdm_auth p f next)
    mdm_auth-Guards next r ls bare = elim (mdm_auth-Verdict p f next o r ls bare) [
      | inl x ↦ inl x
      | inr x ↦ inr (x.0, x.1, x.2)
    ]

    mdm_handlers-AllGuard : (svc : CheckinAndCommandService S) → AllGuard (mdm_handlers p f svc)
    unfolding mdm_handlers
    mdm_handlers-AllGuard svc = elim (Bool-cases f.checkin) [
      | inl e ↦ rw e (mdm_auth-Guards _, (mdm_auth-Guards _, tt))
      | inr e ↦ rw e (mdm_auth-Guards _, tt)
    ]

    -- what is registered, where it is
    abbrev AllGuardOf : Result (Routes S) → Type 0
    AllGuardOf (ok rs) = AllGuard rs
    AllGuardOf (err e) = Unit

    AllGuardOf-target :
        (target : Result (String × (HttpRequest → HttpRequest)))
        → AllGuardOf (target >>= λ t. ok (("/authproxy/", proxy_handler p f t) ∷ []))
    unfolding proxy_handler
    AllGuardOf-target (ok t) = (mdm_auth-Guards _, tt)
    AllGuardOf-target (err e) = tt

    proxy_handlers-AllGuardOf : AllGuardOf (proxy_handlers p f)
    unfolding proxy_handlers
    proxy_handlers-AllGuardOf = elim (Bool-cases (f.auth_proxy_url == "")) [
      | inl e ↦ rw e tt
      | inr e ↦ rw e (AllGuardOf-target (p.new_proxy f.auth_proxy_url))
    ]

    AllGuardOf-append :
        (svc : CheckinAndCommandService S) (proxies : Result (Routes S))
        → AllGuardOf proxies
        → AllGuardOf (proxies >>= λ more. ok (mdm_handlers p f svc ++ more))
    AllGuardOf-append svc (ok more) h =
        All-append _ (mdm_handlers p f svc) more (mdm_handlers-AllGuard svc) h
    AllGuardOf-append svc (err e) h = tt

    mdm_routes-AllGuardOf : (svc : CheckinAndCommandService S) → AllGuardOf (mdm_routes p f svc)
    unfolding mdm_routes
    mdm_routes-AllGuardOf svc = elim (Bool-cases f.disable_mdm) [
      | inl e ↦ rw e tt
      | inr e ↦ rw e (AllGuardOf-append svc (proxy_handlers p f) proxy_handlers-AllGuardOf)
    ]

    -- Where the middlewares of a mux run in the order in which they were used: every endpoint that the
    -- server has for devices, the proxy included and whatever the flags are, answers a request that
    -- comes without a certificate in its context with the status 400 or 500 and writes nothing to the
    -- stores or to stdout, or the request presents a certificate, by the header that the flag names or
    -- by a signature of its body, and that was verified.
    pub mdm_routes-AllGuard :
        (svc : CheckinAndCommandService S) (rs : Routes S)
        → mdm_routes p f svc ≡ ok rs
        → AllGuard rs
    mdm_routes-AllGuard svc rs e = subst AllGuardOf e (mdm_routes-AllGuardOf svc)
