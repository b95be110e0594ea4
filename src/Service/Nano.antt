-- ===== src/Service/Nano.antt =====
-- service/nanomdm/service.go: the main service, which gives a request its enrollment ID and hands
-- the message to the storage. Logging is left out. ua.go and token.go are in `Handlers`.
pub mod Laws
pub mod Handlers
pub mod Mux
pub mod Delivery
use nanomdm.Common.{String, ℕ, Bool, Option, none, some, ◌==◌, ◌^^◌, if◌then◌else◌}
use nanomdm.Common.Fault.{Error, Result, ok, err, fault, wrap}
use nanomdm.Common.Exec.{Exec, raise, map_error, beside, ◌>>=◌, ◌>>◌}
use nanomdm.Mdm.Enroll.{
  Enrollment, EnrollId, Request, Enrolled, Certificate, ResolvedEnrollment, resolved, validate,
}
use nanomdm.Mdm.Checkin.{
  Authenticate, TokenUpdate, CheckOut, UserAuthenticate, BootstrapToken, SetBootstrapToken,
  GetBootstrapToken, DeclarativeManagement, GetTokenResponse, GetToken,
}
use nanomdm.Mdm.Command.{Command, CommandResults}
use nanomdm.Service.{Method, CheckinAndCommandService, ServiceStore}

channel_id : ResolvedEnrollment → EnrollId
channel_id r =
    if r.is_user_channel
    then record {
      type = r.type;
      id = r.device_channel_id ^^ (":" ^^ r.user_channel_id);
      parent_id = r.device_channel_id;
    }
    else record { type = r.type; id = r.device_channel_id; parent_id = "" }

channel_id_of : Option ResolvedEnrollment → Option EnrollId
channel_id_of none = none
channel_id_of (some r) = some (channel_id r)

-- normalize
unfoldable pub normalize : Enrollment → Option EnrollId
unfolding channel_id channel_id_of
normalize e = channel_id_of (resolved e)

-- The struct `Service`, without its logger; the three handlers may be nil.
pub record Nano (S : Type 0) : Type 0 where
  pub normalizer : Enrollment → Option EnrollId
  pub store : ServiceStore S
  pub dm : Option (Method S DeclarativeManagement (Option String))
  pub ua : Option (Method S UserAuthenticate (Option String))
  pub gt : Option (Method S GetToken (Option GetTokenResponse))

-- New, without options
abbrev pub new_nano : {S : Type 0} → ServiceStore S → Nano S
new_nano store = record { normalizer = normalize; store = store; dm = none; ua = none; gt = none }

-- the request that the stores read, once its enrollment ID is valid
enrolled_by : Option Certificate → Result EnrollId → Result Enrolled
enrolled_by cert (ok eid) = ok (record { enroll_id = eid; certificate = cert })
enrolled_by cert (err x) = err x

module _ {S : Type 0} (n : Nano S) where
  -- setupRequest: the enrollment ID of the caller's request is overwritten before it is validated
  unfoldable pub setup_request : Enrollment → Exec (Request × S) Enrolled
  unfolding enrolled_by
  setup_request e (r, s) = (
    enrolled_by r.certificate (validate (n.normalizer e)),
    (record r { enroll_id = n.normalizer e }, s),
  )

  -- A handler gets the copy of the request that `r.WithContext` makes, or is missing.
  call_handler : {M A : Type 0} → String → Option (Method S M A) → M → Exec (Request × S) A
  call_handler what none m rs = raise (fault what) rs
  call_handler what (some h) m (r, s) = let (res, rs) = h m (r, s) in (res, (r, rs.1))

  unfoldable pub authenticate : Method S Authenticate Unit
  authenticate m = setup_request m.enrollment >>= λ r.
      beside (n.store.store_authenticate r m)
      >> beside (n.store.clear_queue r)
      >> beside (n.store.disable r)

  unfoldable pub token_update : Method S TokenUpdate Unit
  token_update m = setup_request m.enrollment >>= λ r. beside (n.store.store_token_update r m)

  unfoldable pub check_out : Method S CheckOut Unit
  check_out m = setup_request m.enrollment >>= λ r. beside (n.store.disable r)

  unfoldable pub user_authenticate : Method S UserAuthenticate (Option String)
  unfolding call_handler
  user_authenticate m =
      setup_request m.enrollment >>= λ _. call_handler "no UserAuthenticate handler" n.ua m

  unfoldable pub set_bootstrap_token : Method S SetBootstrapToken Unit
  set_bootstrap_token m =
      setup_request m.enrollment >>= λ r. beside (n.store.store_bootstrap_token r m)

  unfoldable pub get_bootstrap_token : Method S GetBootstrapToken (Option BootstrapToken)
  get_bootstrap_token m =
      setup_request m.enrollment >>= λ r. beside (n.store.retrieve_bootstrap_token r m)

  unfoldable pub declarative_management : Method S DeclarativeManagement (Option String)
  unfolding call_handler
  declarative_management m =
      setup_request m.enrollment >>= λ _. call_handler "no Declarative Management handler" n.dm m

  unfoldable pub get_token : Method S GetToken (Option GetTokenResponse)
  unfolding call_handler
  get_token m = setup_request m.enrollment >>= λ _. call_handler "no GetToken handler" n.gt m

  unfoldable pub command_and_report_results : Method S CommandResults (Option Command)
  command_and_report_results m = setup_request m.enrollment >>= λ r.
      map_error (wrap "storing command report") (beside (n.store.store_command_report r m))
      >> map_error (wrap "retrieving next command")
          (beside (n.store.retrieve_next_command r (m.status == "NotNow")))

  abbrev pub nano : CheckinAndCommandService S
  nano = record {
    authenticate = authenticate;
    token_update = token_update;
    check_out = check_out;
    user_authenticate = user_authenticate;
    set_bootstrap_token = set_bootstrap_token;
    get_bootstrap_token = get_bootstrap_token;
    declarative_management = declarative_management;
    get_token = get_token;
    command_and_report_results = command_and_report_results;
  }
