-- ===== src/Push/Service/Ids.antt =====
-- Which enrollments Push of push/service answers for, whatever the providers answer.
use nanomdm.Common.{
  String, ◌≡◌, refl, ap, ◌∙◌, sym, ◌≢◌, inl, inr, true, false, Option, none, some, List, [], ◌∷◌,
  ◌==◌, arith, elem, ne_refl, ne_of_test, eq_refl, Bool-cases, text-cases,
}
use mathlib.Core.Path.{subst}
use nanomdm.Common.Fault.{Result, ok, err}
use nanomdm.Common.GoMap.{GoMap, get, get-set}
use nanomdm.Mdm.Checkin
use nanomdm.Push.{Response, PushStores}
use nanomdm.Push.Service.{
  Providers, Gathered, id_not_found, add_id, gather, add_response, reassociate, push_found,
  push_gathered, push_from, push,
}

abbrev pub not_found : Response
not_found = record { id = ""; error = some id_not_found }

-- No token is known for an ID.
abbrev NoToken : String → GoMap String → Type 0
NoToken id m = (token : String) → get token m ≢ some id

add_response-other :
    (o : Option String) (id : String)
    → o ≢ some id
    → (r : Response) (m : GoMap Response) → get id (add_response o r m) ≡ get id m
add_response-other none id h r m = refl
add_response-other (some x) id h r m =
    get-set id x r m ∙ rw (ne_refl x id (λ e. h (ap some e))) refl

-- responses under tokens of other enrollments leave an entry as it is
reassociate-other :
    (tokens : GoMap String) (id : String)
    → NoToken id tokens
    → (rs m : GoMap Response) → get id (reassociate tokens rs m) ≡ get id m
reassociate-other tokens id none_for [] m = refl
reassociate-other tokens id none_for ((token, r) ∷ rs) m =
    reassociate-other tokens id none_for rs (add_response (get token tokens) r m)
    ∙ add_response-other (get token tokens) id (none_for token) r m

module _ (token_text : String → String) (id : String) where
  add_id-NoToken :
      (x : String) (o : Option Checkin.Push)
      → (x ≡ id → o ≡ none)
      → (g : Gathered) → NoToken id g.token_to_id
      → NoToken id (add_id token_text x o g).token_to_id
  add_id-NoToken x none c g h token e = h token e
  add_id-NoToken x (some info) c g h token e = elim (Bool-cases (token_text info.token == token)) [
    | inl t ↦ ground (arith, c, t, e, get-set token (token_text info.token) x g.token_to_id)
    | inr t ↦ h token (ground (arith, t, e, get-set token (token_text info.token) x g.token_to_id))
  ]

  add_id-untouched :
      (x : String) (o : Option Checkin.Push)
      → x ≢ id
      → (g : Gathered) → get id (add_id token_text x o g).id_to_response ≡ get id g.id_to_response
  add_id-untouched x none n g = get-set id x not_found g.id_to_response ∙ rw (ne_refl x id n) refl
  add_id-untouched x (some info) n g = refl

  gather-untouched :
      (found : GoMap Checkin.Push) (ids : List String) (g : Gathered)
      → elem id ids ≡ false
      → NoToken id g.token_to_id
      → NoToken id (gather token_text ids found g).token_to_id
        × (get id (gather token_text ids found g).id_to_response ≡ get id g.id_to_response)
  gather-untouched found [] g h k = (k, refl)
  gather-untouched found (x ∷ ids) g h k =
      let n : x ≢ id = ne_of_test x id (ground (arith, h)) in
      let (a, b) =
        gather-untouched found ids (add_id token_text x (get x found) g) (ground (arith, h))
          (add_id-NoToken x (get x found) (λ e. absurd (n e)) g k) in
      (a, b ∙ add_id-untouched x (get x found) n g)

module _ (token_text : String → String) (found : GoMap Checkin.Push) (id : String)
    (missing : get id found ≡ none) where
  same_missing : (x : String) → x ≡ id → get x found ≡ none
  same_missing x e = ap (λ (k : String). get k found) e ∙ missing

  add_id-keeps :
      (x : String) (o : Option Checkin.Push) (g : Gathered)
      → get id g.id_to_response ≡ some not_found
      → get id (add_id token_text x o g).id_to_response ≡ some not_found
  add_id-keeps x none g h = ground (arith, get-set id x not_found g.id_to_response, h)
  add_id-keeps x (some info) g h = h

  add_id-missing :
      (o : Option Checkin.Push) (g : Gathered)
      → o ≡ none
      → get id (add_id token_text id o g).id_to_response ≡ some not_found
  add_id-missing none g e = ground (arith, get-set id id not_found g.id_to_response, eq_refl id)
  add_id-missing (some info) g e = absurd (ground (arith, e))

  gather-NoToken :
      (ids : List String) (g : Gathered)
      → NoToken id g.token_to_id
      → NoToken id (gather token_text ids found g).token_to_id
  gather-NoToken [] g h = h
  gather-NoToken (x ∷ ids) g h =
      gather-NoToken ids (add_id token_text x (get x found) g)
        (add_id-NoToken token_text id x (get x found) (same_missing x) g h)

  gather-keeps :
      (ids : List String) (g : Gathered)
      → get id g.id_to_response ≡ some not_found
      → get id (gather token_text ids found g).id_to_response ≡ some not_found
  gather-keeps [] g h = h
  gather-keeps (x ∷ ids) g h =
      gather-keeps ids (add_id token_text x (get x found) g) (add_id-keeps x (get x found) g h)

  gather-missing :
      (ids : List String) (g : Gathered)
      → elem id ids ≡ true
      → get id (gather token_text ids found g).id_to_response ≡ some not_found
  gather-missing [] g h = absurd (ground (arith, h))
  gather-missing (x ∷ ids) g h = elim (text-cases x id) [
    | inl e ↦ gather-keeps ids (add_id token_text x (get x found) g) (
        subst
          (λ (k : String).
            get id (add_id token_text k (get k found) g).id_to_response ≡ some not_found)
          (sym e) (add_id-missing (get id found) g missing))
    | inr n ↦ gather-missing ids (add_id token_text x (get x found) g) (ground (arith, h, n.1))
  ]

module _ {S Cert : Type 0} (st : PushStores S Cert) (token_text : String → String) where
  -- Where the store returns push details without an error, Push answers "push data missing for id"
  -- for every ID that was asked for and that has none among them, whatever certificates, providers
  -- and responses there are for the others.
  pub push-id_not_found :
      (ids : List String) (id : String) (found : GoMap Checkin.Push) (ps : Providers S) (s s' : S)
      → st.retrieve_push_info ids s ≡ (ok found, s')
      → get id found ≡ none
      → elem id ids ≡ true
      → get id (push st token_text ids (ps, s)).0.0 ≡ some not_found
  unfolding push push_from push_gathered
  push-id_not_found ids id found ps s s' run missing asked =
      let g =
        gather token_text ids found
          (record { infos = []; token_to_id = []; id_to_response = [] }) in
      rw run (
        reassociate-other g.token_to_id id
          (gather-NoToken token_text found id missing ids _ λ token e. absurd (ground (arith, e)))
          (push_found st g.infos (ps, s')).0.0 g.id_to_response
        ∙ gather-missing token_text found id missing ids _ asked)

  push_from-asked_only :
      (ids : List String) (id : String)
      → elem id ids ≡ false
      → (r : Result (GoMap Checkin.Push)) (rest : Providers S × S)
      → get id (push_from st token_text ids (r, rest)).0.0 ≡ none
  unfolding push_from push_gathered
  push_from-asked_only ids id h (err e) rest = refl
  push_from-asked_only ids id h (ok found) rest =
      let g =
        gather token_text ids found
          (record { infos = []; token_to_id = []; id_to_response = [] }) in
      let (a, b) =
        gather-untouched token_text id found ids _ h (λ token e. absurd (ground (arith, e))) in
      reassociate-other g.token_to_id id a (push_found st g.infos rest).0.0 g.id_to_response ∙ b

  -- Push answers for no ID that was not asked for, whatever the stores and the providers answer.
  push-asked_only :
      (ids : List String) (id : String) (ps : Providers S) (s : S)
      → elem id ids ≡ false
      → get id (push st token_text ids (ps, s)).0.0 ≡ none
  unfolding push
  push-asked_only ids id ps s h =
      let got = st.retrieve_push_info ids s in push_from-asked_only ids id h got.0 (ps, got.1)
