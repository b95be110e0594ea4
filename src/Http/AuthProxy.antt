-- ===== src/Http/AuthProxy.antt =====
-- http/authproxy/authproxy.go: the reverse proxy, by what its Director makes of a request. The proxy
-- itself (net/http/httputil) is a parameter: its own director, and what it does after the Director,
-- the removal of hop-by-hop headers included. Names of headers are taken in
-- their canonical form, as net/http keeps them.
pub mod Identified
mod Tests
use nanomdm.Common.{String, Bool, true, false, not, ◌&&◌, List, [], ◌∷◌, ◌==◌, if◌then◌else◌}
use nanomdm.Http.{HttpRequest, Handler}

-- HeaderFunc, of the context of a request
abbrev pub HeaderFunc : Type 0
HeaderFunc = HttpRequest → String

-- The struct `config`, without its logger. A Go map has one entry for a name, in no fixed order.
pub record Config : Type 0 where
  pub fwd_sig : Bool
  pub header_funcs : List (String × HeaderFunc)

without : String → List (String × HeaderFunc) → List (String × HeaderFunc)
without k [] = []
without k ((j, f) ∷ m) = let rest = without k m in if j == k then rest else (j, f) ∷ rest

-- WithHeaderFunc and WithForwardMDMSignature
unfoldable pub with_header_func : String → HeaderFunc → Config → Config
unfolding without
with_header_func header fn c = record c {
  header_funcs = (header, fn) ∷ without header c.header_funcs;
}

abbrev pub with_forward_mdm_signature : Config → Config
with_forward_mdm_signature c = record c { fwd_sig = true }

-- Header.Set, and with the text "" as good as Header.Del
abbrev pub set_header : String → String → HttpRequest → HttpRequest
set_header k v r = record r { header = λ name. if name == k then v else r.header name }

-- the loop over the header functions, of the context of the request that came in
unfoldable pub set_headers : List (String × HeaderFunc) → HttpRequest → HttpRequest → HttpRequest
set_headers [] ctx req = req
set_headers ((k, fn) ∷ fns) ctx req =
    let v = fn ctx in
    set_headers fns ctx (if not (k == "") && not (v == "") then set_header k v req else req)

module _ (c : Config) (host : String) (dir : HttpRequest → HttpRequest) where
  -- The Director of the proxy: the host and the request as the Director leaves it. The proxy then
  -- removes hop-by-hop headers before it sends the request.
  unfoldable pub director : HttpRequest → String × HttpRequest
  director r =
      let req = dir r in
      let unsigned = if not c.fwd_sig then set_header "Mdm-Signature" "" req else req in
      (host, set_headers c.header_funcs req unsigned)

  -- the handler that New makes, of what the proxy does with the Director's request
  unfoldable pub auth_proxy : {S : Type 0} → (String × HttpRequest → S → S) → Handler S
  auth_proxy forward r = forward (director r)
