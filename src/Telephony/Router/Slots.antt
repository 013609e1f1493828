-- ===== src/Telephony/Router/Slots.antt =====
-- internal/routing/routing.go: the slots that calls take.
use lead.Prelude.{
  ℕ, ◌+◌, ◌<◌, ◌≡◌, refl, ap, ◌⊎◌, inl, inr, String, true, false, List, arith, string_eq, Result,
  ok, err, Bool-cases,
}
use lead.Telephony.FakeLimiter.{
  FakeLimiter, fake_limiter, count, fake_incr, fake_incr_lem, fake_decr_lem, Counted,
}
use lead.Telephony.Store.{CallSession, Store}
use lead.Telephony.Router.{
  CallRequest, Telephony, Env, Router, select_for_call, is_capped, filled, session_of, stored,
  on_answer, on_slot, with_provider, place_call,
}

-- A router over the in-memory limiter.
abbrev pub over_fake : {S : Type 0} → Store S → List Telephony → ℕ → Env → Router S FakeLimiter
over_fake store adapters window env = record {
  store = store;
  limiter = fake_limiter;
  adapters = adapters;
  window = window;
  env = env;
}

module _ {S : Type 0} (store : Store S) (adapters : List Telephony) (window : ℕ) (env : Env) where
  -- A slot was taken: for a call that a capped provider has accepted, and below the cap.
  abbrev pub Took : CallRequest → S → FakeLimiter → Type 0
  Took req s l =
      (a : Telephony) × (call_id : String) × (select_for_call (over_fake store adapters window env)
          req s
        ≡ ok a)
      × (is_capped (over_fake store adapters window env) a req ≡ true)
      × (a.place_call req ≡ ok call_id)
      × (count req.tenant_id l < l.max)

  -- What became of the slots of the tenant.
  abbrev pub Kept : CallRequest → S → FakeLimiter → FakeLimiter → Type 0
  Kept req s l l' =
      (count req.tenant_id l' ≡ count req.tenant_id l)
      ⊎ ((count req.tenant_id l' ≡ count req.tenant_id l + 1) × Took req s l)

  abbrev router : Router S FakeLimiter
  router = over_fake store adapters window env

  limiter-stored :
      (session : CallSession) (p : Result (Unit {0}) × S) (l : FakeLimiter)
      → (stored router session p l).2 ≡ l
  limiter-stored session (ok u, s) l = refl
  limiter-stored session (err x, s) l = refl

  on_answer_free :
      (now : ℕ) (req : CallRequest) (a : Telephony) (x : Result String) (s : S) (l : FakeLimiter)
      → is_capped router a req ≡ false
      → (on_answer router now req a x s l).2 ≡ l
  on_answer_free now req a (ok call_id) s l free =
      let session = session_of router now req a call_id in
      limiter-stored session (store.store_call_session session s) l
  on_answer_free now req a (err x) s l free = rw free refl

  on_answer-Kept :
      (now : ℕ) (req : CallRequest) (a : Telephony) (x : Result String) (s : S) (l l' : FakeLimiter)
      → select_for_call router req s ≡ ok a
      → is_capped router a req ≡ true
      → a.place_call req ≡ x
      → count req.tenant_id l < l.max
      → count req.tenant_id l' ≡ count req.tenant_id l + 1
      → Kept req s l (on_answer router now req a x s l').2
  on_answer-Kept now req a (ok call_id) s l l' chosen capped answered below raised =
      let session = session_of router now req a call_id in
      rw (limiter-stored session (store.store_call_session session s) l')
        (inr (raised, (a, call_id, chosen, capped, answered, below)))
  on_answer-Kept now req a (err x) s l l' chosen capped answered below raised =
      rw capped (inl (omega (arith, (fake_decr_lem req.tenant_id req.tenant_id l').0, raised)))

  on_slot-Kept :
      (now : ℕ) (req : CallRequest) (a : Telephony) (p : Result (Unit {0}) × FakeLimiter) (s : S)
      (l : FakeLimiter)
      → select_for_call router req s ≡ ok a
      → is_capped router a req ≡ true
      → Counted l.max (count req.tenant_id l) p.0 (count req.tenant_id p.1)
      → Kept req s l (on_slot router now req a p s).2
  on_slot-Kept now req a (ok u, l') s l chosen capped c =
      on_answer-Kept now req a (a.place_call req) s l l' chosen capped refl c.0 c.1
  on_slot-Kept now req a (err x, l') s l chosen capped c = inl c.2

  with_provider-Kept :
      (now : ℕ) (req : CallRequest) (x : Result Telephony) (s : S) (l : FakeLimiter)
      → select_for_call router req s ≡ x
      → Kept req s l (with_provider router now req x s l).2
  unfolding with_provider
  with_provider-Kept now req (err e) s l chosen = inl refl
  with_provider-Kept now req (ok a) s l chosen = elim (Bool-cases (is_capped router a req)) [
    | inl capped ↦ rw capped (
        on_slot-Kept now req a (fake_incr req.tenant_id l) s l chosen capped
          (fake_incr_lem req.tenant_id req.tenant_id l).0)
    | inr free ↦
        rw free
          (inl (ap (count req.tenant_id) (on_answer_free now req a (a.place_call req) s l free)))
  ]

  -- Over the in-memory limiter, a call that is placed leaves the count of its tenant as it was, or
  -- has raised it by one from below the cap for a call that a capped provider has accepted: a
  -- call that is refused, by the cap or by the provider, keeps no slot.
  pub place_call-Kept :
      (now : ℕ) (fresh_id : String) (req : CallRequest) (s : S) (l : FakeLimiter)
      → let req' = filled router fresh_id req in
        Kept req' s l (place_call router now fresh_id req s l).2
  unfolding place_call
  place_call-Kept now fresh_id req s l =
      let req' = filled router fresh_id req in
      with_provider-Kept now req' (select_for_call router req' s) s l refl
