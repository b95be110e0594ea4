-- ===== src/Kv/Migration/Order.antt =====
-- The order in which storage/kv/migrate.go sends the messages of a device.
use mathlib.Core.List.{append-nil, append_assoc}
use nanomdm.Common.{
  String, ◌≡◌, refl, ap, ◌∙◌, sym, Bool, true, false, List, [], ◌∷◌, ◌++◌, ◌^^◌, if◌then◌else◌,
}
use nanomdm.Common.Fault.{Error, Result, ok, err, wrap, is_not_found}
use nanomdm.Common.Exec.{Exec, pure, raise, beside, attempt, follow, map_error, ◌>>=◌}
use nanomdm.Mdm.Checkin
use nanomdm.Mdm.Checkin.{Plist, SetBootstrapToken, decode_checkin}
use nanomdm.Kv.Backend.{Backend}
use nanomdm.Kv.Enrollments.{field, user_channel_prefix}
use nanomdm.Kv.Migration.{
  get_decode_checkin, synthesize_bs_token_msg, after_message, send_user_messages, unless_disabled,
  send_users, send_found, send_others, send_synthesized, send_bootstrap_token, send_device,
}

abbrev Channel : Type 0
Channel = List Checkin.Checkin

-- what was sent is still there, with more behind it
abbrev Extends : Channel → Channel → Type 0
Extends sent sent' = (more : Channel) × (sent' ≡ sent ++ more)

still : (sent : Channel) → Extends sent sent
still sent = ([], sym (append-nil sent))

further : (a b c : Channel) → Extends a b → Extends b c → Extends a c
further a b c (m, e) (n, d) = (m ++ n, d ∙ (ap (λ (l : Channel). l ++ n) e ∙ append_assoc a m n))

module _ {S A : Type 0} where
  -- a step that only adds to what was sent
  abbrev Adds : Exec (Channel × S) A → Type 0
  Adds m = (sent : Channel) (s : S) → Extends sent (m (sent, s)).1.0

  Adds-beside : (m : Exec S A) → Adds (beside m)
  Adds-beside m sent s = still sent

  Adds-if : (b : Bool) (m n : Exec (Channel × S) A) → Adds m → Adds n → Adds (if b then m else n)
  Adds-if true m n h k = h
  Adds-if false m n h k = k

  Adds-map_error : (f : Error → Error) (m : Exec S A) → Adds (map_error f (beside {L = Channel} m))
  Adds-map_error f m sent s = on (m s).0 (m s).1
    where
      on :
          (r : Result A) (t : S)
          → Extends sent (map_error {S = Channel × S} f (λ _. (r, (sent, t))) (sent, s)).1.0
      on (ok a) t = still sent
      on (err e) t = still sent

module _ {S A B : Type 0} where
  Adds-attempt :
      (m : Exec (Channel × S) A) (k : Result A → Exec (Channel × S) B)
      → Adds m
      → ((r : Result A) → Adds (k r))
      → Adds (attempt m k)
  Adds-attempt m k h g sent s =
      let out = m (sent, s) in further sent out.1.0 _ (h sent s) (g out.0 out.1.0 out.1.1)

  follow-Extends :
      (k : A → Exec (Channel × S) B)
      → ((a : A) → Adds (k a))
      → (r : Result A) (l : Channel) (t : S) → Extends l (follow k (r, (l, t))).1.0
  follow-Extends k g (ok a) l t = g a l t
  follow-Extends k g (err e) l t = still l

  Adds-bind :
      (m : Exec (Channel × S) A) (k : A → Exec (Channel × S) B)
      → Adds m
      → ((a : A) → Adds (k a))
      → Adds (m >>= k)
  Adds-bind m k h g sent s =
      let out = m (sent, s) in
      further sent out.1.0 _ (h sent s) (follow-Extends k g out.0 out.1.0 out.1.1)

module _ {S : Type 0} (kv : Backend S) (p : Plist) (keys : Exec S (List String))
    (marshal : SetBootstrapToken → Result String) where
  Adds-after_message :
      (what : String) (skip next : Exec (Channel × S) Unit)
      → Adds skip
      → Adds next
      → (r : Result Checkin.Checkin) → Adds (after_message kv p keys marshal what skip next r)
  unfolding after_message
  Adds-after_message what skip next h k (ok m) sent s =
      further sent (sent ++ (m ∷ [])) _ (m ∷ [], refl) (k (sent ++ (m ∷ [])) s)
  Adds-after_message what skip next h k (err e) sent s =
      Adds-if (is_not_found e) skip (raise (wrap what e)) h (λ sent s. still sent) sent s

  Adds-send_user_messages :
      (user : String) (names : List String) → Adds (send_user_messages kv p keys marshal user names)
  unfolding send_user_messages
  Adds-send_user_messages user [] sent s = still sent
  Adds-send_user_messages user (name ∷ names) sent s =
      let get = get_decode_checkin kv p keys marshal kv.users.bucket (field user name) in
      let what = "getting check-in message for " ^^ user in
      let rest = send_user_messages kv p keys marshal user names in
      let h = Adds-send_user_messages user names in
      Adds-attempt (beside get) (after_message kv p keys marshal what rest rest) (Adds-beside get)
        (Adds-after_message what rest rest h h) sent s

  Adds-unless_disabled :
      (whose id : String) (m : Exec (Channel × S) Unit)
      → Adds m
      → Adds (unless_disabled kv p keys marshal whose id m)
  unfolding unless_disabled
  Adds-unless_disabled whose id m h =
      let say = wrap ("checking for disablement for " ^^ whose) in
      let has = kv.enrollments.has (field id "disabled") in
      Adds-bind (map_error say (beside has)) (λ disabled. if disabled then pure tt else m)
        (Adds-map_error say has) (λ d. Adds-if d (pure tt) m (λ sent s. still sent) h)

  Adds-send_users :
      (id : String) (users : List String) → Adds (send_users kv p keys marshal id users)
  unfolding send_users
  Adds-send_users id [] sent s = still sent
  Adds-send_users id (user ∷ users) sent s =
      let names = "user_auth" ∷ "user_auth_digest" ∷ "tok_upd" ∷ [] in
      let messages = send_user_messages kv p keys marshal user names in
      Adds-bind (unless_disabled kv p keys marshal id user messages)
        (λ _. send_users kv p keys marshal id users)
        (Adds-unless_disabled id user messages (Adds-send_user_messages user names))
        (λ _. Adds-send_users id users) sent s

  Adds-send_synthesized :
      (r : Result SetBootstrapToken) → Adds (send_synthesized kv p keys marshal r)
  unfolding send_synthesized
  Adds-send_synthesized (ok m) sent s = (Checkin.set_bootstrap_token m ∷ [], refl)
  Adds-send_synthesized (err e) sent s = still sent

  Adds-send_bootstrap_token :
      (id : String) (r : Result String) → Adds (send_bootstrap_token kv p keys marshal id r)
  unfolding send_bootstrap_token
  Adds-send_bootstrap_token id (ok token) =
      Adds-send_synthesized (synthesize_bs_token_msg kv p keys marshal id token)
  Adds-send_bootstrap_token id (err e) =
      Adds-if (is_not_found e) (pure tt) (raise _) (λ sent s. still sent) (λ sent s. still sent)

  Adds-send_others : (id : String) → Adds (send_others kv p keys marshal id)
  unfolding send_others send_found
  Adds-send_others id =
      let get = kv.devices.bucket.get (field id "bstoken") in
      let find = kv.enrollments.keys_prefix (user_channel_prefix id) in
      let token = send_bootstrap_token kv p keys marshal id in
      let found = send_found kv p keys marshal id in
      Adds-bind (attempt (beside get) token) (λ _. beside find >>= found)
        (Adds-attempt (beside get) token (Adds-beside get) (Adds-send_bootstrap_token id))
        (λ _. Adds-bind (beside find) found (Adds-beside find) (λ l. Adds-send_users id _))

  after_message-sent :
      (m : Exec S Checkin.Checkin) (what : String) (skip next : Exec (Channel × S) Unit)
      (sent : Channel) (s s' : S) (c : Checkin.Checkin)
      → m s ≡ (ok c, s')
      → attempt (beside m) (after_message kv p keys marshal what skip next) (sent, s)
        ≡ next (sent ++ (c ∷ []), s')
  unfolding after_message
  after_message-sent m what skip next sent s s' c e =
      ap
        (λ (out : Result Checkin.Checkin × S).
          after_message kv p keys marshal what skip next out.0 (sent, out.1))
        e

  -- Where the check-in messages under a device's "auth" and "tok_upd" keys can be read and decoded, one
  -- after the other, what was on the channel stays, they are sent behind it in this order, and all that
  -- is sent for the device and its users comes after them, whether the sending fails later or not.
  pub send_device-order :
      (id : String) (sent : Channel) (s s1 s2 : S) (a t : Checkin.Checkin)
      → get_decode_checkin kv p keys marshal kv.devices.bucket (field id "auth") s ≡ (ok a, s1)
      → get_decode_checkin kv p keys marshal kv.devices.bucket (field id "tok_upd") s1 ≡ (ok t, s2)
      → (more : Channel) × ((send_device kv p keys marshal id (sent, s)).1.0
          ≡ sent ++ (a ∷ t ∷ more))
  unfolding send_device
  send_device-order id sent s s1 s2 a t ea et =
      let get : String → Exec S Checkin.Checkin =
        λ name. get_decode_checkin kv p keys marshal kv.devices.bucket (field id name) in
      let others = send_others kv p keys marshal id in
      let update = "getting token update check-in for " ^^ id in
      let next =
        attempt (beside (get "tok_upd"))
          (after_message kv p keys marshal update (pure tt) others) in
      let what = "getting authenticate check-in for " ^^ id in
      let first = after_message-sent (get "auth") what (pure tt) next sent s s1 a ea in
      let second =
        after_message-sent (get "tok_upd") update (pure tt) others (sent ++ (a ∷ [])) s1 s2 t et in
      let (more, e) = Adds-send_others id ((sent ++ (a ∷ [])) ++ (t ∷ [])) s2 in
      (
        more,
        ap (λ (out : Result Unit × (Channel × S)). out.1.0) (first ∙ second)
            ∙ (e
                ∙ (append_assoc (sent ++ (a ∷ [])) (t ∷ []) more
                    ∙ append_assoc sent (a ∷ []) (t ∷ more))),
      )
