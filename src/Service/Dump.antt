-- ===== src/Service/Dump.antt =====
-- service/dump/dump.go: a service that writes what it passes on to another one, and some answers. The
-- log is the list of what was written, in front of the store; that a write may fail is left out, since
-- the code ignores it.
pub mod Laws
mod Tests
use nanomdm.Common.{
  String, Bool, true, false, not, ◌&&◌, Option, none, some, List, [], ◌∷◌, ◌++◌, ◌==◌, ◌^^◌,
  if◌then◌else◌,
}
use nanomdm.Common.Fault.{Error, Result, ok, err}
use nanomdm.Common.Exec.{Exec}
use nanomdm.Mdm.Enroll.{Request}
use nanomdm.Mdm.Checkin.{BootstrapToken, GetTokenResponse}
use nanomdm.Mdm.Command.{Command}
use nanomdm.Service.{CheckinAndCommandService}

-- The struct `Dumper`, with base64.StdEncoding.EncodeToString and the String method of the bytes of a
-- bootstrap token.
pub record Dumper (S : Type 0) : Type 0 where
  pub next : CheckinAndCommandService S
  pub cmd : Bool
  pub bst : Bool
  pub usr : Bool
  pub dm : Bool
  pub encode_base64 : String → String
  pub token_text : String → String

-- The two values that a method of Go returns, nil beside an error.
unfoldable pub both : {A : Type 0} → Result (Option A) → Option A × Bool
both (ok a) = (a, false)
both (err e) = (none, true)

-- what one call adds to the log
abbrev pub Written : Type 0
Written = List String

abbrev pub when : Bool → String → Written
when b text = if b then text ∷ [] else []

module _ {S : Type 0} (d : Dumper S) where
  unfoldable pub user_written : Option String × Bool → Written
  user_written (none, failed) = []
  user_written (some bytes, failed) = when (d.usr && not (bytes == "")) bytes

  unfoldable pub bootstrap_written : Option BootstrapToken × Bool → Written
  bootstrap_written (none, failed) = []
  bootstrap_written (some t, failed) =
      when (d.bst && not (t.bootstrap_token == ""))
        ("Bootstrap token: " ^^ (d.token_text t.bootstrap_token ^^ "\n"))

  unfoldable pub token_written : Option GetTokenResponse × Bool → Written
  token_written (none, failed) = []
  token_written (some t, failed) =
      when (not (t.token_data == ""))
        ("GetToken TokenData: " ^^ (d.encode_base64 t.token_data ^^ "\n"))

  unfoldable pub command_written : Option Command × Bool → Written
  command_written (none, failed) = []
  command_written (some cmd, failed) = when (d.cmd && failed) cmd.raw

  unfoldable pub dm_written : Option String × Bool → Written
  dm_written (none, failed) = when (d.dm && failed) ""
  dm_written (some bytes, failed) = when (d.dm && failed) bytes

  -- A method: the message is written, the next service is called, and `more` of its answer is written.
  unfoldable pub dumping :
      {A : Type 0}
      → Written
      → (Result A → Written)
      → Exec (Request × S) A
      → Exec (Request × (Written × S)) A
  dumping raw more call (q, (log, s)) =
      let (r, (q', s')) = call (q, s) in (r, (q', ((log ++ raw) ++ more r, s')))

  unfoldable pub nothing : {A : Type 0} → Result A → Written
  nothing r = []

  unfoldable pub dump : CheckinAndCommandService (Written × S)
  unfolding dumping nothing both user_written bootstrap_written token_written command_written
      dm_written
  dump = record {
    authenticate = λ m. dumping (m.raw ∷ []) nothing (d.next.authenticate m);
    token_update = λ m. dumping (m.raw ∷ []) nothing (d.next.token_update m);
    check_out = λ m. dumping (m.raw ∷ []) nothing (d.next.check_out m);
    user_authenticate =
        λ m. dumping (m.raw ∷ []) (λ r. user_written (both r)) (d.next.user_authenticate m);
    set_bootstrap_token = λ m. dumping (m.raw ∷ []) nothing (d.next.set_bootstrap_token m);
    get_bootstrap_token =
        λ m. dumping (m.raw ∷ []) (λ r. bootstrap_written (both r)) (d.next.get_bootstrap_token m);
    declarative_management = λ m.
        dumping (m.raw ∷ when (not (m.content == "")) m.content) (λ r. dm_written (both r))
          (d.next.declarative_management m);
    get_token = λ m. dumping (m.raw ∷ []) (λ r. token_written (both r)) (d.next.get_token m);
    command_and_report_results = λ m.
        dumping (m.raw ∷ []) (λ r. command_written (both r)) (d.next.command_and_report_results m);
  }
