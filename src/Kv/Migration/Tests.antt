-- ===== src/Kv/Migration/Tests.antt =====
-- A device whose messages are sent from a store in memory.
use nanomdm.Common.{String, false, ◌≡◌, refl, [], ◌∷◌, List, ◌++◌, map, ◌^^◌, ne_of_test}
use nanomdm.Common.Fault.{Result, ok, err, nil_dereference}
use nanomdm.Common.Exec.{Exec}
use nanomdm.Bucket.Memory.{Memory, at_number, empty}
use nanomdm.Mdm.Checkin
use nanomdm.Mdm.Checkin.{Plist, SetBootstrapToken, new_checkin_message_for_type, decode_checkin}
use nanomdm.Kv.CommandQueue.Tests.{kv}
use nanomdm.Kv.Migration.{get_decode_checkin, send_device}
use nanomdm.Kv.Migration.Forwarded.{forward_all-send_device}
use nanomdm.Http.Client.{ClientRequest, Doer}
use nanomdm.Nano2nano.{message, forward_all, logs_from_enrollment}
use nanomdm.Mdm.Enroll.{Enrollment, ResolvedEnrollment, resolved}

abbrev enrollment : Enrollment
enrollment = record Checkin.no_enrollment { udid = "d" }

-- a message as the device sends it
abbrev identified : Checkin.Checkin → Checkin.Checkin
identified (Checkin.authenticate m) = Checkin.authenticate (record m { enrollment = enrollment })
identified (Checkin.token_update m) = Checkin.token_update (record m { enrollment = enrollment })
identified m = m

abbrev device : ResolvedEnrollment
device = record { type = 1; device_channel_id = "d"; user_channel_id = ""; is_user_channel = false }

-- a decoder of documents that are the name of a message's type, of the device "d"
abbrev names : Plist
names = record {
  Document = String;
  parse = λ body. ok body;
  read_type = λ doc. ok doc;
  read_message = λ doc m. ok (identified m);
}

abbrev keys : Exec Memory (List String)
keys s = (ok ("d.auth" ∷ "d.bstoken" ∷ "d.tok_upd" ∷ []), s)

abbrev marshal : SetBootstrapToken → Result String
marshal m = ok "SetBootstrapToken"

abbrev enrolled : Memory
enrolled =
    at_number 4
      (("d.bstoken", "secret") ∷ ("d.tok_upd", "TokenUpdate") ∷ ("d.auth", "Authenticate") ∷ [])
      empty

abbrev authenticate : Checkin.Authenticate
authenticate = record {
  enrollment = enrollment;
  message_type = "";
  topic = "";
  raw = "Authenticate";
  serial_number = "";
}

abbrev token_update : Checkin.TokenUpdate
token_update = record {
  enrollment = enrollment;
  message_type = "";
  push = record { topic = ""; push_magic = ""; token = "" };
  unlock_token = "";
  raw = "TokenUpdate";
}

-- a server that answers every request with an error
abbrev client : Doer (List ClientRequest)
client req sent = (
  ok (record { status_code = 500; status = "500"; headers = []; body = ok "" }),
  sent ++ (req ∷ []),
)

abbrev made : String → ClientRequest
made raw = record { method = "PUT"; url = "http://server/"; headers = []; body = ok raw }

abbrev signed : String → String → ClientRequest → ClientRequest
signed name password req = record req {
  headers = ("Authorization", name ^^ (":" ^^ password)) ∷ [];
}

-- The second message is of no enrollment, where the program ends.
one_sent :
    forward_all client
      (λ method url raw. ok (made raw))
      signed
      "http://server/"
      "secret"
      (message (Checkin.authenticate authenticate)
        ∷ message
            (Checkin.token_update (record token_update { enrollment = Checkin.no_enrollment }))
        ∷ message (Checkin.token_update token_update)
        ∷ [])
      []
    ≡ (err nil_dereference, signed "nanomdm" "secret" (made "Authenticate") ∷ [])
unfolding forward_all logs_from_enrollment resolved
one_sent = refl

forward_all-send_device_example :
    (more : List ClientRequest) × ((forward_all client
        (λ method url raw. ok (made raw))
        signed
        "http://server/"
        "secret"
        (map message (send_device kv names keys marshal "d" ([], enrolled)).1.0)
        []).1
      ≡ signed "nanomdm" "secret" (made "Authenticate")
        ∷ signed "nanomdm" "secret" (made "TokenUpdate")
        ∷ more)
unfolding get_decode_checkin decode_checkin new_checkin_message_for_type resolved
forward_all-send_device_example =
    forward_all-send_device client (λ method url raw. ok (made raw)) signed "http://server/"
      "secret" (λ sent. sent) (λ req sent. refl) made (λ raw. refl) kv names keys marshal "d"
      enrolled enrolled enrolled authenticate token_update device device []
      (ne_of_test "http://server/" "" refl) (ne_of_test "secret" "" refl) refl refl refl refl
