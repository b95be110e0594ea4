-- ===== src/File/Push.antt =====
-- storage/file/push.go and migrate.go: the messages in the files, read back. The channel of a
-- migration is the list of what was sent on it.
use nanomdm.Common.{String, Bool, true, false, not, ◌&&◌, List, [], ◌∷◌, ◌++◌, if◌then◌else◌}
use nanomdm.Common.Fault.{Error, Result, ok, err, fault, is_not_exist}
use nanomdm.Common.Exec.{Exec, pure, raise, lift, attempt, ◌>>=◌}
use nanomdm.Common.GoMap.{GoMap, set}
use nanomdm.Mdm.Checkin.{Checkin, Push, Plist, token_update, decode_checkin}
use nanomdm.File.{FileStorage, read_file, file_exists}

-- `msg.(*mdm.TokenUpdate)`
abbrev push_in : Checkin → Result Push
push_in (token_update m) = ok m.push
push_in _ = err (fault "saved TokenUpdate is not a TokenUpdate")

-- what is sent on the channel of a migration
pub data Sent : Type 0 where
  message : Checkin → Sent
  failure : Error → Sent

abbrev to_sent : Result Checkin → Sent
to_sent (ok m) = message m
to_sent (err e) = failure e

module _ {S : Type 0} (fs : FileStorage S) (p : Plist) where
  read_push : GoMap Push → String → Result String → Exec S (GoMap Push)
  read_push found id (ok raw) =
      lift (decode_checkin p raw) >>= λ m. lift (push_in m) >>= λ info. pure (set id info found)
  read_push found id (err e) = if is_not_exist e then pure found else raise e

  -- RetrievePushInfo, from the map that is filled so far
  unfoldable pub retrieve_push_info : GoMap Push → List String → Exec S (GoMap Push)
  unfolding read_push
  retrieve_push_info found [] = pure found
  retrieve_push_info found (id ∷ ids) =
      attempt (read_file fs id "TokenUpdate.plist") (read_push found id) >>= λ more.
      retrieve_push_info more ids

  decoded : Result String → Result Checkin
  decoded (ok raw) = decode_checkin p raw
  decoded (err e) = err e

  -- sendCheckinMessage
  unfoldable pub send_checkin_message : String → String → Exec S (List Sent)
  unfolding decoded
  send_checkin_message id name =
      attempt (read_file fs id name) λ got. pure (to_sent (decoded got) ∷ [])

  -- an error of fileExists is sent, and then taken for no
  noted : Result Bool → Bool × List Sent
  noted (ok b) = (b, [])
  noted (err e) = (false, failure e ∷ [])

  send_token_update : String → Bool → List Sent → Bool × List Sent → Exec S (List Sent)
  send_token_update id auth_exists sent (tok_exists, errors) =
      if not tok_exists && not auth_exists
      then pure (sent ++ errors)
      else send_checkin_message id "TokenUpdate.plist" >>= λ more. pure (sent ++ (errors ++ more))

  send_messages : Bool → String → Bool × List Sent → Exec S (List Sent)
  unfolding noted send_token_update
  send_messages user_loop id (auth_exists, errors) =
      if user_loop && auth_exists
      then pure errors
      else (if auth_exists then send_checkin_message id "Authenticate.plist" else pure [])
        >>= λ auth.
            attempt (file_exists fs id "TokenUpdate.plist")
              λ got. send_token_update id auth_exists (errors ++ auth) (noted got)

  -- one entry of the storage's directory in one of the two loops
  unfoldable pub send_entry : Bool → String × Bool → Exec S (List Sent)
  unfolding noted send_messages
  send_entry user_loop (name, is_dir) =
      if not is_dir
      then pure []
      else attempt (file_exists fs name "Authenticate.plist")
          λ got. send_messages user_loop name (noted got)

  unfoldable pub send_entries : Bool → List (String × Bool) → Exec S (List Sent)
  send_entries user_loop [] = pure []
  send_entries user_loop (entry ∷ entries) = send_entry user_loop entry >>= λ sent.
      send_entries user_loop entries >>= λ more. pure (sent ++ more)

  -- RetrieveMigrationCheckins
  unfoldable pub retrieve_migration_checkins : Exec S (List Sent)
  retrieve_migration_checkins = fs.os.read_dir fs.path >>= λ entries.
      send_entries false entries >>= λ devices. fs.os.read_dir fs.path >>= λ again.
      send_entries true again >>= λ users. pure (devices ++ users)
