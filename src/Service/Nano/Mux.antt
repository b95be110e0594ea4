-- ===== src/Service/Nano/Mux.antt =====
-- Which handler TokenMux of service/nanomdm/token.go calls.
use nanomdm.Common.{
  String, ◌≡◌, refl, sym, ◌≢◌, Bool-cases, Option, some, ◌∷◌, ◌==◌, eq_iff, ne_refl, inl, inr,
}
use mathlib.Core.Option.{some-injective, none-ne-some}
use nanomdm.Mdm.Enroll.{Request}
use nanomdm.Mdm.Checkin.{GetToken, GetTokenResponse}
use nanomdm.Service.{Method}
use nanomdm.Service.Nano.Handlers.{TokenMux, handler_for, handle, mux_get_token, is_registered}

module _ {S : Type 0} where
  handle-extends :
      (t : String) (h : Method S GetToken (Option GetTokenResponse)) (mux mux' : TokenMux S)
      → handle t h mux ≡ some mux'
      → mux' ≡ (t, h) ∷ mux
  unfolding handle
  handle-extends t h mux mux' e = elim (Bool-cases (t == "")) [
    | inl n ↦ absurd (none-ne-some mux' (rw n at e))
    | inr y ↦ elim (Bool-cases (is_registered (handler_for t mux))) [
      | inl n ↦ absurd (none-ne-some mux' (rw (y, n) at e))
      | inr z ↦ some-injective _ _ (sym (rw (y, z) at e))
    ]
  ]

  -- Once a handler is registered without a panic, GetToken messages of its service type go to it,
  -- and those of every other service type are answered as before.
  pub mux_get_token-handle :
      (t : String) (h : Method S GetToken (Option GetTokenResponse)) (mux mux' : TokenMux S)
      (m : GetToken) (rs : Request × S)
      → handle t h mux ≡ some mux'
      → (m.token_service_type ≡ t → mux_get_token mux' (some m) rs ≡ h m rs)
        × (m.token_service_type ≢ t
            → mux_get_token mux' (some m) rs ≡ mux_get_token mux (some m) rs)
  unfolding handle handler_for mux_get_token
  mux_get_token-handle t h mux mux' m rs e = (
    λ same. rw (handle-extends t h mux mux' e, (eq_iff t m.token_service_type).1 (sym same)) refl,
    λ other.
        rw (handle-extends t h mux mux' e, ne_refl t m.token_service_type (λ q. other (sym q)))
          refl,
  )
