-- ===== src/Kv/CertHash/Laws.antt =====
-- The key-value backend keeps what service/certauth relies on.
use Prim.Native.String.{count}
use text.Mathlib.TextLemmas.{append_inj, length-append}
use nanomdm.Common.{
  String, ◌≡◌, refl, ap, ◌∙◌, sym, ◌≢◌, Bool, true, false, Option, none, some, [], ◌∷◌, arith, ◌==◌,
  eq_refl, ne_refl, ne_of_test,
}
use nanomdm.Common.Fault.{ok}
use nanomdm.Bucket.{Contents, IsReliable, CommitsBody, got, is_some, text_of}
use nanomdm.Mdm.Enroll.{Enrolled}
use nanomdm.Kv.Backend.{Backend}
use nanomdm.CertAuth.Policy.{Associations, IsFaithful}
use nanomdm.Kv.CertHash.{
  id_key, hash_key, same_hash, found_id, has_cert_hash, enrollment_has_cert_hash,
  is_cert_hash_associated, associate_cert_hash, enrollment_from_hash, cert_auth_store,
}

-- The two kinds of keys never collide, whatever the enrollment ID and the hash.
pub id_key-ne-hash_key : (id hash : String) → id_key id ≢ hash_key hash
id_key-ne-hash_key id hash e =
    let same_length : count id ≡ count hash =
      omega (arith, ap count e, length-append id ".cert_hash", length-append hash ".hash_cert") in
    ne_of_test ".cert_hash" ".hash_cert" refl (append_inj e same_length).1

key_tests :
    (id hash : String)
    → ((id_key id == hash_key hash) ≡ false) × ((hash_key hash == id_key id) ≡ false)
key_tests id hash = (
  ne_refl _ _ (id_key-ne-hash_key id hash),
  ne_refl _ _ (λ e. id_key-ne-hash_key id hash (sym e)),
)

abbrev pub is_hash : String → Option String → Bool
is_hash hash none = false
is_hash hash (some v) = hash == v

same_hash-got : (hash : String) (o : Option String) → same_hash hash (got o) ≡ ok (is_hash hash o)
same_hash-got hash none = refl
same_hash-got hash (some v) = refl

found_id-got : (o : Option String) → found_id (got o) ≡ ok (text_of o)
found_id-got none = refl
found_id-got (some v) = refl

abbrev pub linking : {S : Type 0} → Contents S → String → String → S → S
linking c id hash s = c.put (hash_key hash) id (c.put (id_key id) hash s)

-- the associations that the bucket holds
abbrev pub associations : {S : Type 0} → Contents S → Associations S
associations c = record {
  seen = λ s hash. is_some (c.find s (hash_key hash));
  bound = λ s id. is_some (c.find s (id_key id));
  linked = λ s id hash. is_hash hash (c.find s (id_key id));
  link = linking c;
}

module _ {S : Type 0} (kv : Backend S) (c : Contents S) (rel : IsReliable kv.cert_auth.bucket c)
    (commits : CommitsBody kv.cert_auth) where
  find_hash : (id hash : String) (s : S) → c.find (linking c id hash s) (id_key id) ≡ some hash
  find_hash id hash s =
      rel.find-put (hash_key hash) id (c.put (id_key id) hash s) (id_key id)
      ∙ rw ((key_tests id hash).1, rel.find-put (id_key id) hash s (id_key id), eq_refl (id_key id))
          refl

  find_id : (id hash : String) (s : S) → c.find (linking c id hash s) (hash_key hash) ≡ some id
  find_id id hash s =
      rel.find-put (hash_key hash) id (c.put (id_key id) hash s) (hash_key hash)
      ∙ rw (eq_refl (hash_key hash)) refl

  associate-run :
      (r : Enrolled) (hash : String) (s : S)
      → associate_cert_hash kv r hash s ≡ (ok tt, linking c r.id hash s)
  unfolding associate_cert_hash
  associate-run r hash s =
      commits.txn-eq _ s (linking c r.id hash s)
        (rel.set_map-eq ((id_key r.id, hash) ∷ (hash_key hash, r.id) ∷ []) s)

  -- On a store with no faults, the backend's four operations answer and record associations the way
  -- that the certificate middleware relies on: a hash is seen once it is associated, an enrollment
  -- is bound to its latest hash, and these readings change nothing.
  pub cert_auth_store-IsFaithful : IsFaithful (cert_auth_store kv) (associations c)
  unfolding has_cert_hash enrollment_has_cert_hash is_cert_hash_associated
  cert_auth_store-IsFaithful = record {
    has-eq = λ r h s. rel.has-eq (hash_key h) s;
    bound-eq = λ r h s. rel.has-eq (id_key r.id) s;
    linked-eq = λ r h s. rw (rel.get-eq, same_hash-got) refl;
    associate-eq = associate-run;
    linked-link = λ i h s. rw (find_hash i h s) (eq_refl h);
    seen-link = λ i h s. rw (find_id i h s) refl;
  }

  -- On a store with no faults, `EnrollmentFromHash` of a hash that was just associated returns the
  -- enrollment's ID, and `IsCertHashAssociated` for the two returns true.
  enrollment_from_hash-associate_cert_hash :
      (r : Enrolled) (hash : String) (s : S)
      → (s' : S) × (associate_cert_hash kv r hash s ≡ (ok tt, s'))
        × (enrollment_from_hash kv hash s' ≡ (ok r.id, s'))
        × (is_cert_hash_associated kv r hash s' ≡ (ok true, s'))
  unfolding enrollment_from_hash is_cert_hash_associated
  enrollment_from_hash-associate_cert_hash r hash s = (
    linking c r.id hash s,
    associate-run r hash s,
    rw (rel.get-eq, found_id-got, find_id r.id hash s) refl,
    rw (rel.get-eq, same_hash-got, find_hash r.id hash s, eq_refl hash) refl,
  )
