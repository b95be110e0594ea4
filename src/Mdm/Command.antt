-- ===== src/Mdm/Command.antt =====
-- mdm/command.go: command results, commands, and their decoding. The plist decoder is a parameter.
pub mod Laws
use nanomdm.Common.{String, ℕ, List, ◌||◌, ◌==◌, if◌then◌else◌}
use nanomdm.Common.Fault.{
  Result, ok, err, invalid_command_result, invalid_command, empty_command, ◌>>=◌,
}
use nanomdm.Mdm.Enroll.{Enrollment}
use nanomdm.Mdm.Checkin.{as_parse_error}

pub record ErrorChain : Type 0 where
  pub error_code : ℕ
  pub error_domain : String
  pub localized_description : String
  pub us_english_description : String

pub record CommandResults : Type 0 where
  pub enrollment : Enrollment
  pub command_uuid : String
  pub status : String
  pub error_chain : List ErrorChain
  pub raw : String

-- Command; the nested struct has the one field `RequestType`
pub record Command : Type 0 where
  pub command_uuid : String
  pub request_type : String
  pub raw : String

module _ (unmarshal : String → Result CommandResults) where
  -- DecodeCommandResults. With the sentinel error Go also returns the results.
  unfoldable pub decode_command_results : String → Result CommandResults
  decode_command_results raw_results =
      as_parse_error raw_results (unmarshal raw_results) >>= λ results.
      if results.status == ""
      then err invalid_command_result
      else ok (record results { raw = raw_results })

module _ (unmarshal : String → Result Command) where
  -- DecodeCommand. With the sentinel `ErrInvalidCommand` Go also returns the command.
  unfoldable pub decode_command : String → Result Command
  decode_command raw_command =
      if raw_command == ""
      then err empty_command
      else as_parse_error raw_command (unmarshal raw_command) >>= λ command.
          if command.command_uuid == "" || command.request_type == ""
          then err invalid_command
          else ok (record command { raw = raw_command })
