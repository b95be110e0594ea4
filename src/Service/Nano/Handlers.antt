-- ===== src/Service/Nano/Handlers.antt =====
-- service/nanomdm/ua.go and token.go: the handlers of UserAuthenticate and GetToken messages that
-- the service can be given.
use nanomdm.Common.{
  String, Bool, ◌||◌, Option, none, some, List, [], ◌∷◌, ◌==◌, ◌^^◌, if◌then◌else◌,
}
use nanomdm.Common.Fault.{fault, status}
use nanomdm.Common.Exec.{Exec, pure, raise, ◌>>◌}
use nanomdm.Mdm.Enroll.{Request, Enrolled}
use nanomdm.Mdm.Checkin.{UserAuthenticate, GetToken, GetTokenResponse}
use nanomdm.Service.{Method}

abbrev pub empty_digest_challenge : String
empty_digest_challenge =
    "<?xml version=\"1.0\" encoding=\"UTF-8\"?>\n<!DOCTYPE plist PUBLIC \"-//Apple//DTD PLIST 1.0//EN\" \"http://www.apple.com/DTDs/PropertyList-1.0.dtd\">\n<plist version=\"1.0\">\n<dict>\n\t<key>DigestChallenge</key>\n\t<string></string>\n</dict>\n</plist>"

-- The struct `UAService`; its store is the one method of storage.UserAuthenticateStore.
pub record UaService (S : Type 0) : Type 0 where
  pub store_user_authenticate : Enrolled → UserAuthenticate → Exec S Unit
  pub send_empty_digest_challenge : Bool
  pub store_rejected_user_auth : Bool

module _ {S : Type 0} (u : UaService S) where
  -- UAService.UserAuthenticate, for a request whose enrollment ID is set, as `setupRequest` leaves it
  unfoldable pub ua_user_authenticate : Enrolled → UserAuthenticate → Exec S (Option String)
  ua_user_authenticate r message =
      (if u.send_empty_digest_challenge || u.store_rejected_user_auth
        then u.store_user_authenticate r message
        else pure tt)
      >> (if message.digest_response == ""
          then (if u.send_empty_digest_challenge
              then pure (some empty_digest_challenge)
              else raise (status 410 (fault ("declining management of user: " ^^ r.id))))
          else pure none)

-- The map of the struct `TokenMux`, from a TokenServiceType to a handler. A nil map is an empty one.
abbrev pub TokenMux : Type 0 → Type 0
TokenMux S = List (String × Method S GetToken (Option GetTokenResponse))

module _ {S : Type 0} where
  -- StaticToken.GetToken
  abbrev pub static_token : String → Method S GetToken (Option GetTokenResponse)
  static_token token _ = pure (some (record { token_data = token }))

  unfoldable pub handler_for :
      String → TokenMux S → Option (Method S GetToken (Option GetTokenResponse))
  handler_for t [] = none
  handler_for t ((k, h) ∷ mux) = if k == t then some h else handler_for t mux

  unfoldable pub is_registered : Option (Method S GetToken (Option GetTokenResponse)) → Bool
  is_registered none = Bool.false
  is_registered (some _) = Bool.true

  -- TokenMux.Handle of a handler that is not nil; `none` is a panic
  unfoldable pub handle :
      String → Method S GetToken (Option GetTokenResponse) → TokenMux S → Option (TokenMux S)
  unfolding is_registered
  handle service_type handler mux =
      if service_type == ""
      then none
      else if is_registered (handler_for service_type mux)
      then none
      else some ((service_type, handler) ∷ mux)

  dispatch_to :
      String
      → Option (Method S GetToken (Option GetTokenResponse))
      → Method S GetToken (Option GetTokenResponse)
  dispatch_to t none m = raise (fault ("no handler for TokenServiceType: " ^^ t))
  dispatch_to t (some next) m = next m

  -- TokenMux.GetToken
  unfoldable pub mux_get_token :
      TokenMux S → Option GetToken → Exec (Request × S) (Option GetTokenResponse)
  unfolding dispatch_to
  mux_get_token mux none = raise (fault "nil MDM GetToken")
  mux_get_token mux (some t) =
      dispatch_to t.token_service_type (handler_for t.token_service_type mux) t
