-- ===== src/Mdm.antt =====
-- mdm/: the structures of the MDM protocol. `Enroll` is mdm.go and type.go, `Checkin` checkin.go,
-- `Command` command.go.
pub mod Enroll
pub mod Checkin
pub mod Command
