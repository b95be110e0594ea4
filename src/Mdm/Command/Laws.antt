-- ===== src/Mdm/Command/Laws.antt =====
-- What the decoders of mdm/command.go let through.
use nanomdm.Common.{String, ◌≡◌, ◌≢◌, arith, eq_iff}
use nanomdm.Common.Fault.{Result, ok}
use nanomdm.Mdm.Command.{Command, decode_command}

-- Whatever the plist decoder does: a command that `DecodeCommand` accepts has a UUID, a request type
-- and the document that it was decoded from as its raw bytes, and these are not empty.
pub decode_command-accepts :
    (unmarshal : String → Result Command) (raw : String) (c : Command)
    → decode_command unmarshal raw ≡ ok c
    → (c.command_uuid ≢ "") × (c.request_type ≢ "") × (c.raw ≡ raw) × (raw ≢ "")
unfolding decode_command
decode_command-accepts unmarshal raw c h =
    ground (arith, eq_iff c.command_uuid "", eq_iff c.request_type "", eq_iff raw "")
