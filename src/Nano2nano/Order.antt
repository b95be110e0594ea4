-- ===== src/Nano2nano/Order.antt =====
-- What a server is sent by cmd/nano2nano/main.go.
use mathlib.Core.List.{append-nil, append_assoc}
use nanomdm.Common.{
  String, ◌≡◌, ◌≢◌, refl, ap, sym, ◌∙◌, List, [], ◌∷◌, ◌++◌, map, ne_refl, ◌^^◌, eqb, if◌then◌else◌,
  Bool-cases, inl, inr, Option, none, some,
}
use nanomdm.Common.Fault.{Result, ok, err, fault}
use nanomdm.Common.Exec.{Exec, pure, raise, lift, ◌>>=◌, ◌>>◌}
use nanomdm.Common.Decimal.{itoa}
use nanomdm.Mdm.Checkin
use nanomdm.Mdm.Checkin.{Plist, SetBootstrapToken}
use nanomdm.Http.Client.{ClientRequest, ClientResponse, Doer}
use nanomdm.Nano2nano.{
  Item, message, failed, http_put, forward_raw, forward_logged, forward_item, forward_all,
  logs_from_enrollment, logs_of_resolved,
}
use nanomdm.Mdm.Enroll.{Enrollment, ResolvedEnrollment, resolved}

-- the bytes of a message before those of later ones, up to a message that does not resolve
abbrev pub before_panic : Option ResolvedEnrollment → String → List String → List String
before_panic none raw later = []
before_panic (some r) raw later = raw ∷ later

-- the bytes of the messages that a migration consists of
abbrev pub raws : List Item → List String
raws [] = []
raws (message (Checkin.authenticate m) ∷ items) =
    let later = raws items in before_panic (resolved m.enrollment) m.raw later
raws (message (Checkin.token_update m) ∷ items) =
    let later = raws items in before_panic (resolved m.enrollment) m.raw later
raws (message (Checkin.set_bootstrap_token m) ∷ items) =
    let later = raws items in before_panic (resolved m.enrollment) m.raw later
raws (_ ∷ items) = raws items

-- `seen` is what the server has been sent.
module _ {S : Type 0} (client : Doer S)
    (new_request : String → String → String → Result ClientRequest)
    (set_basic_auth : String → String → ClientRequest → ClientRequest) (url key : String)
    (seen : S → List ClientRequest)
    (is_seen : (req : ClientRequest) (s : S) → seen (client req s).1 ≡ seen s ++ (req ∷ []))
    (made : String → ClientRequest)
    (is_made : (raw : String) → new_request "PUT" url raw ≡ ok (made raw)) where
  abbrev pub put : String → ClientRequest
  put raw = set_basic_auth "nanomdm" key (made raw)

  -- whatever the answer, the state is the one that the client leaves
  answered :
      (out : Result ClientResponse × S) (k : ClientResponse → Exec S Unit)
      → ((resp : ClientResponse) (s : S) → (k resp s).1 ≡ s)
      → (((λ (s : S). out) >>= k) out.1).1 ≡ out.1
  answered (ok resp, s) k h = h resp s
  answered (err e, s) k h = refl

  replied :
      (resp : ClientResponse) (s : S) (body : Result String)
      → ((lift body >>= λ _.
            if eqb resp.status_code 200
            then pure tt
            else raise
                (fault ("Check-in Request failed with HTTP status: " ^^ itoa resp.status_code)))
          s).1
        ≡ s
  replied resp s (err e) = refl
  replied resp s (ok text) = elim (Bool-cases (eqb resp.status_code 200)) [
    | inl e ↦ rw e refl
    | inr e ↦ rw e refl
  ]

  forward_raw-seen :
      (raw : String) (s : S)
      → url ≢ ""
      → key ≢ ""
      → seen (forward_raw client new_request set_basic_auth url key raw s)
        ≡ seen s ++ (put raw ∷ [])
  unfolding forward_raw http_put
  forward_raw-seen raw s u k =
      rw (ne_refl url "" u, ne_refl key "" k, is_made raw)
        (ap seen (answered (client (put raw) s) _ λ resp t. replied resp t resp.body)
          ∙ is_seen (put raw) s)

  -- a message, and what comes behind it unless it panics
  forward_logged-seen :
      (what raw : String) (e : Enrollment) (rest : Exec S Unit) (later : List String) (s : S)
      → url ≢ ""
      → key ≢ ""
      → ((t : S) → seen (rest t).1 ≡ seen t ++ map put later)
      → seen
          ((forward_logged client new_request set_basic_auth url key
                (logs_from_enrollment what e)
                raw
              >> rest)
            s).1
        ≡ seen s ++ map put (before_panic (resolved e) raw later)
  unfolding forward_logged logs_from_enrollment logs_of_resolved
  forward_logged-seen what raw e rest later s u k h = go (resolved e) refl
    where
      go :
          (r : Option ResolvedEnrollment)
          → resolved e ≡ r
          → seen
              ((forward_logged client new_request set_basic_auth url key
                    (logs_of_resolved what e r)
                    raw
                  >> rest)
                s).1
            ≡ seen s ++ map put (before_panic r raw later)
      go none p = sym (append-nil (seen s))
      go (some r) p =
          h (forward_raw client new_request set_basic_auth url key raw s)
          ∙ ap (λ l. l ++ map put later) (forward_raw-seen raw s u k)
          ∙ append_assoc (seen s) (put raw ∷ []) (map put later)

  -- Where a request can be made of every body, and the URL and the key are given: the server is sent
  -- the bytes of each message, in the order in which they came over the channel, whatever it answers,
  -- up to the first message of an enrollment without a UDID and an enrollment ID.
  pub forward_all-raws :
      (items : List Item) (s : S)
      → url ≢ ""
      → key ≢ ""
      → seen (forward_all client new_request set_basic_auth url key items s).1
        ≡ seen s ++ map put (raws items)
  unfolding forward_all forward_item
  forward_all-raws [] s u k = sym (append-nil (seen s))
  forward_all-raws (message (Checkin.authenticate m) ∷ items) s u k =
      forward_logged-seen "Authenticate" m.raw m.enrollment _ (raws items) s u k
        (λ t. forward_all-raws items t u k)
  forward_all-raws (message (Checkin.token_update m) ∷ items) s u k =
      forward_logged-seen "TokenUpdate" m.raw m.enrollment _ (raws items) s u k
        (λ t. forward_all-raws items t u k)
  forward_all-raws (message (Checkin.set_bootstrap_token m) ∷ items) s u k =
      forward_logged-seen "SetBootstrapToken" m.raw m.enrollment _ (raws items) s u k
        (λ t. forward_all-raws items t u k)
  forward_all-raws (message (Checkin.check_out m) ∷ items) s u k = forward_all-raws items s u k
  forward_all-raws (message (Checkin.user_authenticate m) ∷ items) s u k =
      forward_all-raws items s u k
  forward_all-raws (message (Checkin.get_bootstrap_token m) ∷ items) s u k =
      forward_all-raws items s u k
  forward_all-raws (message (Checkin.declarative_management m) ∷ items) s u k =
      forward_all-raws items s u k
  forward_all-raws (message (Checkin.get_token m) ∷ items) s u k = forward_all-raws items s u k
  forward_all-raws (failed e ∷ items) s u k = forward_all-raws items s u k
