-- ===== src/Kv.antt =====
-- storage/kv: the storage backend over key-value buckets. `Key` is the key format and the struct of
-- kv.go, `LinkedQueue` queue_ll.go, `CommandQueue` queue.go, `CertHash` certauth.go,
-- `Enrollments` mdm.go, bstoken.go and push.go, `PushCert` pushcert.go.
-- `Migration` is migrate.go, and `Fields` has lemmas on the keys.
pub mod Key
pub mod Backend
pub mod LinkedQueue
pub mod CommandQueue
pub mod CertHash
pub mod Enrollments
pub mod PushCert
pub mod Migration
pub mod Fields
