-- ===== src/Lib.antt =====
-- nanomdm: a server of Apple's MDM protocol.
--
-- A device (or a user on it, an "enrollment") sends check-in messages and command reports. An adapter
-- decodes the body and calls a service; the certificate middleware ties the enrollment to the
-- certificate of the request and calls the main service; that gives the request its enrollment ID and
-- hands it to the storage, which keeps the enrollments and a queue of commands for each; the backends
-- over key-value stores and over files are modelled. The API enqueues commands and sends push
-- notifications, by a push service that keeps a provider for each push topic.
--
--   Common         shared names, texts, tests and lists; Common/Fault the errors of Go as values,
--                  Common/Exec operations on a state that may fail, Common/Decimal strconv,
--                  Common/GoMap maps with string keys
--   Mdm/Enroll     mdm/mdm.go, mdm/type.go: Enrollment, EnrollID, Request, Resolved, Validate
--   Mdm/Checkin    mdm/checkin.go, mdm/push.go: the check-in messages, DecodeCheckin
--   Mdm/Command    mdm/command.go: CommandResults, Command, their decoding
--   Bucket         github.com/micromdm/nanolib/storage/kv: buckets as a record of operations, and
--                  what the code relies on (IsReliable, CommitsBody); Bucket/Memory an instance
--   Kv/Key, Kv/Backend      storage/kv/kv.go: keys, the struct KV, updateLastSeen
--   Kv/LinkedQueue          storage/kv/queue_ll.go: the linked list of a queue; its children relate
--                           the keys of a queue (Slots) to a list of items (Shape), and run the
--                           operations on it (Relink, Unlink, Runs, Clear)
--   Kv/CommandQueue         storage/kv/queue.go: StoreCommandReport, RetrieveNextCommand, ClearQueue,
--                           EnqueueCommand
--   Kv/CertHash             storage/kv/certauth.go: enrollment IDs and certificate hashes
--   Kv/Enrollments          storage/kv/mdm.go, storage/kv/bstoken.go, storage/kv/push.go:
--                           StoreAuthenticate, StoreTokenUpdate, Disable, push details, ...
--   Kv/PushCert             storage/kv/pushcert.go: push certificates and their stale tokens
--   Kv/Migration            storage/kv/migrate.go: stored messages sent to another server, and what
--                           Nano2nano makes of them
--   Service                 service/service.go, storage/storage.go, storage/certauth.go: interfaces
--   Service/Dispatch        service/request.go: CheckinRequest, CommandAndReportResultsRequest
--   Service/Nano            service/nanomdm/service.go: the main service; Service/Nano/Handlers
--                           service/nanomdm/ua.go and service/nanomdm/token.go
--   Service/Multi           service/multi/multi.go: several services for the same calls
--   Service/Dump            service/dump/dump.go: a service that writes what passes through it
--   Service/DmHook          service/dmhook/dmhook.go: declarative management by another server, over
--                           Http/HashBody, http/hashbody: the HMAC of a body in a header
--   Service/Webhook         service/webhook/service.go, service/webhook/event.go
--   CertVerify              certverify, cryptoutil: the verifiers of a certificate, its topic
--   CertAuth                service/certauth/certauth.go, service/certauth/service.go
--   Push, Push/Service      push/push.go, push/service/service.go: Push, providers kept by topic
--   Push/Nanopush           push/nanopush/provider.go: pushSerial, and pushConcurrent as steps;
--                           Push/Nanopush/Request the request and the response of one push (do)
--   File, File/Checkin      storage/file/file.go, storage/file/bstoken.go; File/Disk is what they are
--                           written over, Go's os functions, with named laws (IsReliable)
--   File/Queue, File/CertHash, File/PushCert, File/Push
--                           storage/file/queue.go, certauth.go, pushcert.go, and push.go, migrate.go
--   Api                     api/api.go, api/do.go, api/types.go: EnqueueWithPush and its status code
--   Allmulti                storage/allmulti: a storage over several others, with the first's answers;
--                           Allmulti/Databases over stores with databases of their own
--   Http, Http/Extract      http/mdm/mdm.go, http/mdm/cert_extract.go: handlers, and certificates in
--                           headers; Http/Identity http/mdm/mdm_cert.go: certificate middleware;
--                           Http/AuthProxy http/authproxy/authproxy.go; Http/Client clients of HTTP
--   HttpApi                 http/api/api.go: the API's handlers; HttpApi/PushCert http/api/pushcert.go;
--                           HttpApi/Unlock http/api/escrowkeyunlock.go, http/escrowkeyunlock
--   Cli                     cli/cli.go: the storage that flags ask for
--   Nano2nano               cmd/nano2nano/main.go: migration messages put to a server
--   Server                  cmd/nanomdm/main.go: the services that its flags put together;
--                           Server/Endpoints the handlers and routes
--   Tests, CertAuth/Tests, Kv/CommandQueue/Tests, Kv/CommandQueue/Session/Tests,
--   Kv/CommandQueue/Broadcast/Tests, Kv/PushCert/Tests, Kv/Migration/Tests, Service/Webhook/Tests,
--   Service/Dump/Tests, Service/DmHook/Tests, Push/Tests, Push/Nanopush/Request/Tests, File/Tests,
--   File/Queue/Tests, Api/Tests, Allmulti/Tests, Http/Tests, Http/HashBody/Tests,
--   Http/AuthProxy/Tests, HttpApi/Tests, CertVerify/Tests, Cli/Tests, Server/Tests
--                           the theorems at concrete inputs, on stores in memory
--
-- State is passed explicitly. An operation is a function from a state to a result and a state: what was
-- written before an error stays written. A service's state is the caller's request beside the store,
-- since a method gets a pointer to the request; where the code makes a copy, the model does too. Byte
-- strings are texts, and nil pointers and slices are `none`. Ints of 64 bits are kept modulo 2 ^ 64.
--
-- The two loops over a queue (`next_command_from`, `clear_from`) follow pointers of the store and need
-- not end in the program, so they run on fuel and answer `diverged` when it is used up. On a well-formed
-- queue any fuel above the number of its items is enough, and the theorems about them say so. The loop
-- of ClearQueue over files (File/Queue.clear_from) has fuel for the same reason: a name that the
-- directory keeps listing is moved forever. The goroutines of pushConcurrent are a step relation.
--
-- Parameters: the buckets of nanolib and their transactions, the plist decoder and encoder
-- (github.com/micromdm/plist), hashes and encodings, Go's os functions, the parsing and the checks of
-- certificates and keys, JSON, net/http (a client is a function of a request) and its reverse proxy,
-- which removes hop-by-hop headers after the Director that http/authproxy gives it.
-- "Files with no faults" are those of File/Disk.IsReliable: a directory can be made, and a write into a
-- directory that exists, to a path that is no directory, is what later reads find.
-- "Stores with no faults" in the list below are buckets where no call fails but for a missing key,
-- a write is what later reads find, and a transaction whose body succeeds has its body's effects.
--
-- Not modelled: logging and contexts; the SQL backends, whose behaviour is in their queries; the push
-- provider over buford, a third-party library; the set-up of HTTP/2 clients; the
-- flags, files and start-up of the programs.
pub mod Common
pub mod Mdm
pub mod Bucket
pub mod Kv
pub mod Service
pub mod CertAuth
pub mod Push
pub mod File
pub mod Api
pub mod Allmulti
pub mod Http
pub mod HttpApi
pub mod CertVerify
pub mod Cli
pub mod Nano2nano
pub mod Server
pub mod Tests
