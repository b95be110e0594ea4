-- ===== src/Nano2nano.antt =====
-- cmd/nano2nano/main.go: the program that puts the messages of a storage's migration to a server. The
-- channel is the list of what comes over it. Flags, standard output and the writing of logs are left
-- out.
pub mod Order
use nanomdm.Common.{
  String, Bool, ◌||◌, List, [], ◌∷◌, ◌==◌, ◌^^◌, eqb, not, Option, none, some, ◌++◌, if◌then◌else◌,
}
use nanomdm.Common.Fault.{Error, Result, ok, err, fault, nil_dereference}
use nanomdm.Common.Exec.{Exec, pure, raise, lift, ◌>>=◌, ◌>>◌}
use nanomdm.Common.Decimal.{itoa}
use nanomdm.Mdm.Enroll.{Enrollment, ResolvedEnrollment, type_name, resolved}
use nanomdm.Mdm.Checkin
use nanomdm.Http.Client.{ClientRequest, ClientResponse, Doer}

-- what comes over the channel
pub data Item : Type 0 where
  message : Checkin.Checkin → Item
  failed : Error → Item

unfoldable logs_of_resolved : String → Enrollment → Option ResolvedEnrollment → Result (List String)
logs_of_resolved checkin e none = err nil_dereference
logs_of_resolved checkin e (some r) = ok (
    ("checkin" ∷ checkin ∷ "device_id" ∷ r.device_channel_id ∷ [])
    ++ ((if not (r.user_channel_id == "") then "user_id" ∷ r.user_channel_id ∷ [] else [])
        ++ ((if not (e.user_short_name == "")
              then "user_short_name" ∷ e.user_short_name ∷ []
              else [])
            ++ ("type" ∷ type_name r.type ∷ []))))

-- logsFromEnrollment: without a UDID and an enrollment ID, `Resolved` gives the nil pointer `r`, whose
-- field is read.
unfoldable pub logs_from_enrollment : String → Enrollment → Result (List String)
unfolding logs_of_resolved
logs_from_enrollment checkin e = logs_of_resolved checkin e (resolved e)

-- http.NewRequest of a method, a URL and a body, and SetBasicAuth of a name and a password
module _ {S : Type 0} (client : Doer S)
    (new_request : String → String → String → Result ClientRequest)
    (set_basic_auth : String → String → ClientRequest → ClientRequest) (url key : String) where
  -- `skipServer`
  abbrev pub skip_server : Bool
  skip_server = url == "" || key == ""

  -- httpPut
  unfoldable http_put : String → Exec S Unit
  http_put raw =
      if url == "" || key == ""
      then raise (fault "no URL or API key")
      else lift (new_request "PUT" url raw) >>= λ req.
          client (set_basic_auth "nanomdm" key req) >>= λ resp. lift resp.body >>= λ _.
          if eqb resp.status_code 200
          then pure tt
          else raise (fault ("Check-in Request failed with HTTP status: " ^^ itoa resp.status_code))

  -- the put of one message, whose error is only logged
  unfoldable forward_raw : String → S → S
  unfolding http_put
  forward_raw raw s = if skip_server then s else (http_put raw s).1

  -- one message, by what its log line is made of: a panic ends the program before the put
  unfoldable forward_logged : Result (List String) → String → Exec S Unit
  unfolding forward_raw
  forward_logged (ok logs) raw s = (ok tt, forward_raw raw s)
  forward_logged (err panic) raw s = (err panic, s)

  -- the type switch of the loop
  unfoldable forward_item : Item → Exec S Unit
  unfolding forward_logged
  forward_item (message (Checkin.authenticate m)) =
      forward_logged (logs_from_enrollment "Authenticate" m.enrollment) m.raw
  forward_item (message (Checkin.token_update m)) =
      forward_logged (logs_from_enrollment "TokenUpdate" m.enrollment) m.raw
  forward_item (message (Checkin.set_bootstrap_token m)) =
      forward_logged (logs_from_enrollment "SetBootstrapToken" m.enrollment) m.raw
  forward_item (message _) = pure tt
  forward_item (failed e) = pure tt

  -- the loop over the channel, up to a panic
  unfoldable pub forward_all : List Item → Exec S Unit
  unfolding forward_item
  forward_all [] = pure tt
  forward_all (item ∷ items) = let rest = forward_all items in forward_item item >> rest
