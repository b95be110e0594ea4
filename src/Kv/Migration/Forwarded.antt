-- ===== src/Kv/Migration/Forwarded.antt =====
-- What a server is sent of a device by cmd/nano2nano/main.go over the key-value storage.
use nanomdm.Common.{String, ◌≡◌, ◌≢◌, refl, ap, ◌∙◌, List, [], ◌∷◌, ◌++◌, map, some}
use nanomdm.Common.Fault.{Result, ok}
use nanomdm.Common.Exec.{Exec}
use nanomdm.Mdm.Enroll.{ResolvedEnrollment, resolved}
use nanomdm.Mdm.Checkin
use nanomdm.Mdm.Checkin.{Plist, SetBootstrapToken}
use nanomdm.Http.Client.{ClientRequest, Doer}
use nanomdm.Kv.Backend.{Backend}
use nanomdm.Kv.Enrollments.{field}
use nanomdm.Kv.Migration.{get_decode_checkin, send_device}
use nanomdm.Kv.Migration.Order.{send_device-order}
use nanomdm.Nano2nano.{message, forward_all}
use nanomdm.Nano2nano.Order.{raws, before_panic, put, forward_all-raws}

-- `seen` is what the server has been sent, `made` the requests of the bodies.
module _ {T : Type 0} (client : Doer T)
    (new_request : String → String → String → Result ClientRequest)
    (set_basic_auth : String → String → ClientRequest → ClientRequest) (url key : String)
    (seen : T → List ClientRequest)
    (is_seen : (req : ClientRequest) (t : T) → seen (client req t).1 ≡ seen t ++ (req ∷ []))
    (made : String → ClientRequest)
    (is_made : (raw : String) → new_request "PUT" url raw ≡ ok (made raw)) where
  abbrev pub request : String → ClientRequest
  request = put client new_request set_basic_auth url key seen is_seen made is_made

  -- Where a request can be made of every body, the URL and the key are given, and the messages under a
  -- device's "auth" and "tok_upd" keys can be read and decoded as an Authenticate and a TokenUpdate, of
  -- enrollments that have a UDID or an enrollment ID: of what the storage sends for the device on a new
  -- channel, the migration program first sends the server the Authenticate and then the TokenUpdate,
  -- whatever the server answers and comes after them.
  pub forward_all-send_device :
      {S : Type 0} (kv : Backend S) (p : Plist) (keys : Exec S (List String))
      (marshal : SetBootstrapToken → Result String) (id : String) (s s1 s2 : S)
      (a : Checkin.Authenticate) (u : Checkin.TokenUpdate) (ra ru : ResolvedEnrollment) (t : T)
      → url ≢ ""
      → key ≢ ""
      → get_decode_checkin kv p keys marshal kv.devices.bucket (field id "auth") s
        ≡ (ok (Checkin.authenticate a), s1)
      → get_decode_checkin kv p keys marshal kv.devices.bucket (field id "tok_upd") s1
        ≡ (ok (Checkin.token_update u), s2)
      → resolved a.enrollment ≡ some ra
      → resolved u.enrollment ≡ some ru
      → (more : List ClientRequest) × (seen
            (forward_all client new_request set_basic_auth url key
              (map message (send_device kv p keys marshal id ([], s)).1.0)
              t).1
          ≡ seen t ++ (request a.raw ∷ request u.raw ∷ more))
  forward_all-send_device kv p keys marshal id s s1 s2 a u ra ru t has_url has_key ea eu ha hu =
      let (more, e) =
        send_device-order kv p keys marshal id [] s s1 s2 (Checkin.authenticate a)
          (Checkin.token_update u) ea eu in
      let rest = raws (map message more) in
      let both : before_panic (resolved a.enrollment) a.raw
            (before_panic (resolved u.enrollment) u.raw rest)
          ≡ a.raw ∷ u.raw ∷ rest =
        rw (ha, hu) refl in
      (
        map request rest,
        forward_all-raws client new_request set_basic_auth url key seen is_seen made is_made
              (map message (send_device kv p keys marshal id ([], s)).1.0) t has_url has_key
            ∙ ap (λ ms. seen t ++ map request (raws (map message ms))) e
            ∙ ap (λ l. seen t ++ map request l) both,
      )
