-- ===== src/Push/Service/Cache.antt =====
-- The providers that push/service keeps by topic.
use nanomdm.Common.{
  String, ◌≡◌, refl, ◌∙◌, sym, ◌≢◌, ◌⊎◌, inl, inr, true, false, Option, none, some, ne_refl,
  eq_refl,
}
use nanomdm.Common.Fault.{Error, Result, ok, err}
use nanomdm.Common.GoMap.{get, get-set}
use nanomdm.Push.{PushProvider, PushStores}
use nanomdm.Push.Service.{Provider, Providers, renew, get_cached, get_provider}

-- the split on what a step returns
outcome :
    {S A : Type 0} (r : Result A × S)
    → ((a : A) × (s' : S) × (r ≡ (ok a, s'))) ⊎ ((e : Error) × (s' : S) × (r ≡ (err e, s')))
outcome (ok a, s') = inl (a, s', refl)
outcome (err e, s') = inr (e, s', refl)

module _ {S Cert : Type 0} (st : PushStores S Cert) (topic : String) where
  -- A provider with its token that was made of the certificate that the storage returned with it.
  abbrev pub IsRenewed : Provider S → S → Type 0
  IsRenewed p s' =
      (cert : Cert) × (s₁ : S) × (s₂ : S) × (st.retrieve_push_cert topic s₁
        ≡ (ok (cert, p.stale_token), s₂))
      × (st.new_push_provider cert s₂ ≡ (ok p.provider, s'))

  -- the provider that was kept, with a token that the storage says is not stale
  abbrev pub IsFresh : Provider S → Providers S → S → S → Type 0
  IsFresh p ps s s' =
      (get topic ps ≡ some p) × (st.is_push_cert_stale topic p.stale_token s ≡ (ok false, s'))

  abbrev pub IsCached : Providers S → S → Result (PushProvider S) × (Providers S × S) → Type 0
  IsCached ps s (ok prov, (ps', s')) =
      (p : Provider S) × (p.provider ≡ prov)
      × (get topic ps' ≡ some p)
      × (IsFresh p ps s s' ⊎ IsRenewed p s')
      × ((other : String) → other ≢ topic → get other ps' ≡ get other ps)
  IsCached ps s (err e, (ps', s')) = ps' ≡ ps

  renew-IsCached : (ps : Providers S) (s₀ s : S) → IsCached ps s₀ (renew st topic (ps, s))
  unfolding renew
  renew-IsCached ps s₀ s = elim (outcome (st.retrieve_push_cert topic s)) [
    | inr (e, s', run) ↦ rw run refl
    | inl ((cert, token), s₁, run) ↦ elim (outcome (st.new_push_provider cert s₁)) [
      | inr (e, s', made) ↦ rw (run, made) refl
      | inl (prov, s₂, made) ↦
          rw (run, made)
            (
              record { provider = prov; stale_token = token },
              refl,
              get-set topic topic _ ps ∙ rw (eq_refl topic) refl,
              inr (cert, s, s₁, run, made),
              (λ other n.
                  get-set other topic _ ps ∙ rw (ne_refl topic other (λ e. n (sym e))) refl),
            )
    ]
  ]

  get_cached-IsCached :
      (ps : Providers S) (s : S) (o : Option (Provider S))
      → get topic ps ≡ o
      → IsCached ps s (get_cached st topic o (ps, s))
  unfolding get_cached
  get_cached-IsCached ps s none kept = renew-IsCached ps s s
  get_cached-IsCached ps s (some p) kept =
      elim (outcome (st.is_push_cert_stale topic p.stale_token s)) [
        | inr (e, s', run) ↦ rw run refl
        | inl (true, s', run) ↦ rw run (renew-IsCached ps s s')
        | inl (false, s', run) ↦ rw run (p, refl, kept, inl (kept, run), (λ other n. refl))
      ]

  -- A successful getProvider keeps, for the topic, the provider that it returns with its token: the
  -- one that was kept, whose token the storage says is not stale, or one that was made of the
  -- certificate that the storage returned with that token. One that fails leaves the kept providers
  -- as they were, and none changes what is kept for another topic.
  pub get_provider-IsCached :
      (ps : Providers S) (s : S) → IsCached ps s (get_provider st topic (ps, s))
  unfolding get_provider
  get_provider-IsCached ps s = get_cached-IsCached ps s (get topic ps) refl
