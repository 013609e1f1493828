-- ===== src/Telephony/Router/Release.antt =====
-- internal/routing/routing.go: the release of a slot when a call has ended.
use lead.Prelude.{
  ℕ, ◌≡◌, ◌≢◌, refl, ◌⊎◌, inl, inr, String, true, false, List, arith, if◌then◌else◌, ◌==◌,
  string_eq, eq_iff, string_beq_refl, ok, Bool-cases,
}
use lead.Telephony.FakeLimiter.{Limiter}
use lead.Telephony.Store.{Fake, fake_store, fake_set_idempotency_key, has_key}
use lead.Telephony.Router.{
  Telephony, Env, Router, tenant_of, decr_key, on_claim, on_check, decr_concurrency_for_call,
}

-- A router over the in-memory store.
module _ {L : Type 0} (limiter : Limiter L) (adapters : List Telephony) (window : ℕ) (env : Env)
    (now : ℕ) where
  abbrev pub on_fake : Router Fake L
  on_fake = record {
    store = fake_store now;
    limiter = limiter;
    adapters = adapters;
    window = window;
    env = env;
  }

  -- The signal that finds its key set changes nothing.
  decr_again :
      (call_id hint : String) (s : Fake) (l : L)
      → call_id ≢ ""
      → has_key (decr_key on_fake call_id) s.idempotency_keys ≡ true
      → decr_concurrency_for_call on_fake call_id hint s l ≡ (ok tt, s, l)
  unfolding decr_concurrency_for_call
  decr_again call_id hint s l named seen =
      let e : (call_id == "") ≡ false = ground (arith, eq_iff call_id "") in rw e (rw seen refl)

  claims :
      (call_id tenant_id : String) (s : Fake) (l : L)
      → has_key (decr_key on_fake call_id) s.idempotency_keys ≡ false
      → let key = decr_key on_fake call_id in
        let (_, s₁, l₁) = on_claim on_fake tenant_id (fake_set_idempotency_key key s) l in
        has_key key s₁.idempotency_keys ≡ true
  unfolding fake_set_idempotency_key
  claims call_id tenant_id s l fresh =
      rw fresh (rw (string_beq_refl (decr_key on_fake call_id)) refl)

  on_check-once :
      (call_id hint : String) (s : Fake) (l : L)
      → has_key (decr_key on_fake call_id) s.idempotency_keys ≡ false
      → let (_, s₁, l₁) = on_check on_fake call_id hint (ok false) s l in
        (l₁ ≡ l) ⊎ (has_key (decr_key on_fake call_id) s₁.idempotency_keys ≡ true)
  on_check-once call_id hint s l fresh =
      let tenant_id =
        if hint == ""
        then tenant_of on_fake ((fake_store now).session_by_provider_call_id call_id s)
        else hint in
      elim (Bool-cases (tenant_id == "")) [
        | inl unknown ↦ rw unknown (inl refl)
        | inr known ↦ rw known (inr (claims call_id tenant_id s l fresh))
      ]

  decr_first :
      (call_id hint : String) (s : Fake) (l : L)
      → call_id ≢ ""
      → let (_, s₁, l₁) = decr_concurrency_for_call on_fake call_id hint s l in
        (l₁ ≡ l) ⊎ (has_key (decr_key on_fake call_id) s₁.idempotency_keys ≡ true)
  unfolding decr_concurrency_for_call
  decr_first call_id hint s l named =
      let e : (call_id == "") ≡ false = ground (arith, eq_iff call_id "") in
      elim (Bool-cases (has_key (decr_key on_fake call_id) s.idempotency_keys)) [
        | inl seen ↦ rw e (rw seen (inl refl))
        | inr fresh ↦ rw e (rw fresh (on_check-once call_id hint s l fresh))
      ]

  -- Over the in-memory store, of two terminal signals that name one call by its id, one after the
  -- other and whatever tenant each of them names, at most one gives a slot back. This holds of
  -- any limiter.
  pub decr_once :
      (call_id hint hint' : String) (s : Fake) (l : L)
      → call_id ≢ ""
      → let (_, s₁, l₁) = decr_concurrency_for_call on_fake call_id hint s l in
        let (_, s₂, l₂) = decr_concurrency_for_call on_fake call_id hint' s₁ l₁ in
        (l₁ ≡ l) ⊎ ((l₂ ≡ l₁) × (s₂ ≡ s₁))
  decr_once call_id hint hint' s l named =
      let (_, s₁, l₁) = decr_concurrency_for_call on_fake call_id hint s l in
      elim (decr_first call_id hint s l named) [
        | inl same ↦ inl same
        | inr seen ↦ rw (decr_again call_id hint' s₁ l₁ named seen) (inr (refl, refl))
      ]
