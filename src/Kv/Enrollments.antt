-- ===== src/Kv/Enrollments.antt =====
-- storage/kv/mdm.go, bstoken.go and push.go: what check-in messages leave in the
-- stores, and the disabling of enrollments.
pub mod Laws
pub mod Enabled
pub mod PushInfo
pub mod Bootstrap
use Prim.Native.Nat.{◌%◌}
use Prim.Native.String.{slice, len}
use nanomdm.Common.{
  ℕ, ◌+◌, String, Bool, not, Option, none, some, List, [], ◌∷◌, map, ◌==◌, ◌^^◌, eqb, lookup_text,
  ◌++◌, if◌then◌else◌,
}
use nanomdm.Common.Fault.{Error, Result, ok, err, is_not_found, wrap, flat, device_channel_only}
use nanomdm.Common.Exec.{Exec, pure, raise, lift, map_error, attempt, ◌>>=◌, ◌>>◌}
use nanomdm.Bucket.{Bucket, TxnBucket}
use nanomdm.Mdm.Enroll.{Enrolled, Certificate, type_name}
use nanomdm.Mdm.Checkin.{
  Push, Authenticate, TokenUpdate, UserAuthenticate, SetBootstrapToken, GetBootstrapToken,
  BootstrapToken,
}
use nanomdm.Service.{ServiceStore}
use nanomdm.Kv.Key.{key_sep, join}
use nanomdm.Common.Decimal.{word, atoi, itoa}
use nanomdm.Kv.Backend.{Backend, update_last_seen}
use nanomdm.Kv.CommandQueue.{store_command_report, retrieve_next_command, clear_queue}

-- the key of a field of an enrollment
abbrev pub field : String → String → String
field id name = join (id ∷ name ∷ [])

abbrev pub user_channel_prefix : String → String
user_channel_prefix id = field id "user_ch" ^^ key_sep

-- a Go map's value for a missing key, and whether the error is another
abbrev tally_bytes : Result String → Result String
tally_bytes (ok v) = ok v
tally_bytes (err e) = if is_not_found e then ok "" else err e

abbrev found_token : Result String → Result (Option BootstrapToken)
found_token (ok v) = ok (some (record { bootstrap_token = v }))
found_token (err e) = if is_not_found e then ok none else err (wrap "retrieving bootstrap token" e)

raw_of : Option Certificate → Option String
raw_of none = none
raw_of (some cert) = some cert.raw

non_empty : String → Option String
non_empty s = if s == "" then none else some s

-- what a look-up adds to the map: nothing where a key is missing
unfoldable push_of : String → Result (List (String × String)) → Result (List (String × Push))
push_of id (ok m) = ok (
    (
      id,
      record {
        topic = lookup_text (field id "topic") m;
        push_magic = lookup_text (field id "push_magic") m;
        token = lookup_text (field id "token") m;
      },
    )
    ∷ [])
push_of id (err e) =
    if is_not_found e then ok [] else err (wrap ("retrieving push info for " ^^ id) e)

module _ {S : Type 0} where
  -- `for _, id := range ids { if err := …; err != nil { return err } }`
  abbrev pub each : (String → Exec S Unit) → List String → Exec S Unit
  each f [] = pure tt
  each f (x ∷ xs) = f x >> each f xs

  -- a value that is written, or else its key is cleared
  set_or_delete : Bucket S → String → Option String → Exec S Unit
  set_or_delete b key none = b.delete key
  set_or_delete b key (some v) = b.set key v

  -- userChannelEnrollments: `key[0:pfxLen]` of each key, in bytes
  unfoldable pub user_channel_enrollments : String → Bucket S → Exec S (List String)
  user_channel_enrollments id b =
      let pfx = user_channel_prefix id in
      b.keys_prefix pfx >>= λ keys. pure (map (λ key. slice key 0 (len pfx)) keys)

  -- the bodies of the two transactions of StoreAuthenticate
  unfoldable pub device_details : Enrolled → Authenticate → Bucket S → Exec S Unit
  unfolding set_or_delete raw_of non_empty
  device_details r msg b =
      b.set (field r.id "auth") msg.raw
      >> set_or_delete b (field r.id "cert") (raw_of r.certificate)
      >> set_or_delete b (field r.id "serial") (non_empty msg.serial_number)
      >> b.delete (field r.id "bstoken")

  unfoldable pub enrollment_details : Enrolled → Bucket S → Exec S Unit
  enrollment_details r b =
      b.delete_slice (field r.id "unl_tok" ∷ field r.id "tok_tal" ∷ field r.id "enrolled_at" ∷ [])
      >> (user_channel_enrollments r.id b >>= each (λ id. b.delete (field id "tok_tal")))

  -- bumpTally
  unfoldable pub bump_tally : String → Bucket S → Exec S ℕ
  bump_tally id b = attempt (b.get (field id "tok_tal")) λ got. lift (tally_bytes got) >>= λ bytes.
      let tally = (atoi bytes + 1) % word in b.set (field id "tok_tal") (itoa tally) >> pure tally

  -- getTally
  unfoldable pub get_tally : Bucket S → String → Exec S ℕ
  get_tally b id =
      attempt (b.get (field id "tok_tal"))
        λ got. lift (tally_bytes got) >>= λ bytes. pure (atoi bytes)

  -- assocUserChannel
  unfoldable pub assoc_user_channel : Bucket S → String → String → Exec S Unit
  assoc_user_channel b id parent_id = b.set (join (parent_id ∷ "user_ch" ∷ id ∷ [])) "1"

  -- storePushInfo
  unfoldable pub store_push_info : Bucket S → String → TokenUpdate → Exec S Unit
  store_push_info b id msg = b.set_map (
      (field id "topic", msg.push.topic)
      ∷ (field id "push_magic", msg.push.push_magic)
      ∷ (field id "token", msg.push.token)
      ∷ [])

  -- the body of the first transaction of StoreTokenUpdate
  unfoldable pub token_update_message : Enrolled → TokenUpdate → Bucket S → Exec S Unit
  token_update_message r msg b =
      (if not (r.parent_id == "") then b.set (field r.id "device_ch") r.parent_id else pure tt)
      >> b.set (field r.id "tok_upd") msg.raw

module _ {S : Type 0} (kv : Backend S) where
  seen : Enrolled → Option (Bucket S) → Exec S Unit
  seen r b = map_error (flat "updating last seen") (update_last_seen kv r b)

  -- StoreAuthenticate
  unfoldable pub store_authenticate : Enrolled → Authenticate → Exec S Unit
  store_authenticate r msg =
      if not (r.parent_id == "")
      then raise device_channel_only
      else kv.devices.txn (device_details r msg) >> kv.enrollments.txn (enrollment_details r)

  -- the body of the second transaction of StoreTokenUpdate
  unfoldable pub enable : Enrolled → TokenUpdate → Bucket S → Exec S Unit
  unfolding seen assoc_user_channel
  enable r msg b =
      seen r (some b)
      >> b.set (field r.id "type") (type_name r.type)
      >> store_push_info b r.id msg
      >> (if not (msg.unlock_token == "")
          then b.set (field r.id "unl_tok") msg.unlock_token
          else pure tt)
      >> (if not (r.parent_id == "") then assoc_user_channel b r.id r.parent_id else pure tt)
      >> (bump_tally r.id b >>= λ tally.
          if eqb tally 1 then (λ s. b.set (field r.id "enrolled_at") (kv.now s) s) else pure tt)
      >> b.delete (field r.id "disabled")

  -- StoreTokenUpdate
  unfoldable pub store_token_update : Enrolled → TokenUpdate → Exec S Unit
  store_token_update r msg =
      let messages : TxnBucket S = if not (r.parent_id == "") then kv.users else kv.devices in
      messages.txn (token_update_message r msg) >> kv.enrollments.txn (enable r msg)

  -- the body of the transaction of Disable
  unfoldable pub disable_all : Enrolled → Bucket S → Exec S Unit
  unfolding seen
  disable_all r b =
      seen r (some b)
      >> b.set (field r.id "disabled") "1"
      >> (if not (r.parent_id == "")
          then pure tt
          else (user_channel_enrollments r.id b >>= each (λ id. b.set (field id "disabled") "1")))

  -- Disable
  unfoldable pub disable : Enrolled → Exec S Unit
  disable r = kv.enrollments.txn (disable_all r)

  -- StoreUserAuthenticate
  unfoldable pub store_user_authenticate : Enrolled → UserAuthenticate → Exec S Unit
  unfolding seen
  store_user_authenticate r msg =
      let key = if msg.digest_response == "" then "user_auth" else "user_auth_digest" in
      seen r none
      >> kv.users.set (field r.id key) msg.raw
      >> kv.enrollments.set (field r.id "disabled") "1"

  -- RetrieveTokenUpdateTally
  unfoldable pub retrieve_token_update_tally : String → Exec S ℕ
  retrieve_token_update_tally id = get_tally kv.enrollments.bucket id

  -- RetrievePushInfo. With an error Go also returns the entries made so far.
  unfoldable pub retrieve_push_info : List String → Exec S (List (String × Push))
  unfolding push_of
  retrieve_push_info [] = pure []
  retrieve_push_info (id ∷ ids) =
      attempt
        (kv.enrollments.get_map (field id "topic" ∷ field id "push_magic" ∷ field id "token" ∷ []))
        λ got.
          lift (push_of id got) >>= λ found. retrieve_push_info ids >>= λ rest. pure (found ++ rest)

  -- StoreBootstrapToken
  unfoldable pub store_bootstrap_token : Enrolled → SetBootstrapToken → Exec S Unit
  unfolding seen
  store_bootstrap_token r msg =
      seen r none
      >> (if not (r.parent_id == "")
          then raise device_channel_only
          else kv.devices.set (field r.id "bstoken") msg.bootstrap_token.bootstrap_token)

  -- RetrieveBootstrapToken
  unfoldable pub retrieve_bootstrap_token :
      Enrolled → GetBootstrapToken → Exec S (Option BootstrapToken)
  unfolding seen
  retrieve_bootstrap_token r _ =
      seen r none
      >> (if not (r.parent_id == "")
          then raise device_channel_only
          else attempt (kv.devices.get (field r.id "bstoken")) λ got. lift (found_token got))

  -- The backend as the service's store, with the fuel of its two loops over a queue.
  abbrev pub kv_store : ℕ → ServiceStore S
  kv_store fuel = record {
    store_authenticate = store_authenticate;
    store_token_update = store_token_update;
    disable = disable;
    store_user_authenticate = store_user_authenticate;
    store_command_report = store_command_report kv;
    retrieve_next_command = retrieve_next_command kv fuel;
    clear_queue = clear_queue kv fuel;
    store_bootstrap_token = store_bootstrap_token;
    retrieve_bootstrap_token = retrieve_bootstrap_token;
  }
