-- ===== src/Kv/Migration.antt =====
-- storage/kv/migrate.go: the check-in messages that are stored, sent on a channel in an order in which
-- another server can take them. The channel is the list of what was sent, beside the stores.
pub mod Order
pub mod Forwarded
mod Tests
use Prim.Native.String.{slice, len}
use nanomdm.Common.{◌-◌, String, List, [], ◌∷◌, ◌++◌, ◌==◌, ◌^^◌, map, if◌then◌else◌}
use nanomdm.Common.Fault.{Result, ok, err, wrap, is_not_found}
use nanomdm.Common.Exec.{Exec, pure, raise, lift, map_error, beside, attempt, ◌>>=◌, ◌>>◌}
use nanomdm.Bucket.{Bucket}
use nanomdm.Mdm.Checkin
use nanomdm.Mdm.Checkin.{Plist, SetBootstrapToken, decode_checkin, no_enrollment}
use nanomdm.Kv.Key.{key_sep}
use nanomdm.Kv.Backend.{Backend}
use nanomdm.Kv.Enrollments.{field, user_channel_prefix}

-- the IDs in the keys that end in ".auth"
abbrev device_ids : List String → List String
device_ids [] = []
device_ids (key ∷ keys) =
    let ids = device_ids keys in
    let suffix = key_sep ^^ "auth" in
    if slice key (len key - len suffix) (len key) == suffix
    then slice key 0 (len key - len suffix) ∷ ids
    else ids

-- the message of synthesizeBSTokenMsg, before it is encoded
abbrev bootstrap_message : String → String → SetBootstrapToken
bootstrap_message udid token = record {
  enrollment = record no_enrollment { udid = udid };
  message_type = "SetBootstrapToken";
  bootstrap_token = record { bootstrap_token = token };
  raw = "";
}

-- `keys` is `s.devices.Keys`, `marshal` plist.Marshal.
module _ {S : Type 0} (kv : Backend S) (p : Plist) (keys : Exec S (List String))
    (marshal : SetBootstrapToken → Result String) where
  -- a step on the channel and the stores
  abbrev pub Sending : Type 0 → Type 0
  Sending A = Exec (List Checkin.Checkin × S) A

  -- `out <- m`
  abbrev pub send : Checkin.Checkin → Sending Unit
  send m (sent, s) = (ok tt, (sent ++ (m ∷ []), s))

  -- getDecodeCheckIn
  unfoldable get_decode_checkin : Bucket S → String → Exec S Checkin.Checkin
  get_decode_checkin b key =
      map_error (wrap "getting check-in message") (b.get key) >>= λ raw. lift (decode_checkin p raw)

  -- synthesizeBSTokenMsg
  unfoldable synthesize_bs_token_msg : String → String → Result SetBootstrapToken
  synthesize_bs_token_msg udid token =
      let m = bootstrap_message udid token in
      elim (marshal m) [ ok raw ↦ ok (record m { raw = raw }) | err e ↦ err e ]

  -- a message that goes on to `next` once it is sent, and to `skip` where it is missing
  unfoldable after_message :
      String → Sending Unit → Sending Unit → Result Checkin.Checkin → Sending Unit
  after_message what skip next (ok m) = send m >> next
  after_message what skip next (err e) = if is_not_found e then skip else raise (wrap what e)

  -- the messages of a user, by the names of their keys
  unfoldable send_user_messages : String → List String → Sending Unit
  unfolding after_message
  send_user_messages user [] = pure tt
  send_user_messages user (name ∷ names) =
      let rest = send_user_messages user names in
      attempt (beside (get_decode_checkin kv.users.bucket (field user name)))
        (after_message ("getting check-in message for " ^^ user) rest rest)

  unfoldable unless_disabled : String → String → Sending Unit → Sending Unit
  unless_disabled whose id enabled =
      map_error (wrap ("checking for disablement for " ^^ whose))
        (beside (kv.enrollments.has (field id "disabled")))
      >>= λ disabled. if disabled then pure tt else enabled

  -- the loop over the user channels of a device
  unfoldable send_users : String → List String → Sending Unit
  unfolding send_user_messages unless_disabled
  send_users id [] = pure tt
  send_users id (user ∷ users) =
      unless_disabled id user
        (send_user_messages user ("user_auth" ∷ "user_auth_digest" ∷ "tok_upd" ∷ []))
      >> send_users id users

  unfoldable send_synthesized : Result SetBootstrapToken → Sending Unit
  send_synthesized (ok m) = send (Checkin.set_bootstrap_token m)
  send_synthesized (err e) = pure tt

  unfoldable send_bootstrap_token : String → Result String → Sending Unit
  unfolding send_synthesized
  send_bootstrap_token id (ok token) = send_synthesized (synthesize_bs_token_msg id token)
  send_bootstrap_token id (err e) =
      if is_not_found e then pure tt else raise (wrap ("getting bootstrap token for " ^^ id) e)

  -- the users whose keys start with the ID of the device
  unfoldable send_found : String → List String → Sending Unit
  send_found id found =
      let pfx = user_channel_prefix id in
      send_users id (map (λ key. slice key (len pfx) (len key)) found)

  -- the bootstrap token of a device, and then its users
  unfoldable send_others : String → Sending Unit
  send_others id =
      attempt (beside (kv.devices.bucket.get (field id "bstoken"))) (send_bootstrap_token id)
      >> (beside (kv.enrollments.keys_prefix (user_channel_prefix id)) >>= send_found id)

  -- the messages of a device that is not disabled, and of its users
  unfoldable send_device : String → Sending Unit
  send_device id =
      let b = kv.devices.bucket in
      let update =
        attempt (beside (get_decode_checkin b (field id "tok_upd")))
          (after_message ("getting token update check-in for " ^^ id) (pure tt) (send_others id)) in
      attempt (beside (get_decode_checkin b (field id "auth")))
        (after_message ("getting authenticate check-in for " ^^ id) (pure tt) update)

  unfoldable send_devices : List String → Sending Unit
  unfolding unless_disabled send_device
  send_devices [] = pure tt
  send_devices (id ∷ ids) = unless_disabled id id (send_device id) >> send_devices ids

  -- RetrieveMigrationCheckins
  unfoldable retrieve_migration_checkins : Sending Unit
  unfolding send_devices
  retrieve_migration_checkins = beside keys >>= λ found. send_devices (device_ids found)
