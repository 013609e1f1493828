-- ===== src/Telephony/Router/Demo.antt =====
-- internal/routing/routing.go: the calls of demo tenants.
use lead.Prelude.{
  ℕ, ◌≡◌, refl, ◌∙◌, subst, inl, inr, String, true, false, ◌||◌, Option, none, some, List, [], ◌∷◌,
  arith, string_eq, eq_iff, Result, ok, err, Bool-cases, Option-cases,
}
use lead.Telephony.Store.{CallSession}
use lead.Telephony.Router.{
  CallRequest, Telephony, Router, adapter, or_this, select_for_call, mock_only, demo_mode,
  is_capped, filled, session_of, stored, on_answer, with_provider, place_call,
}

adapter-name :
    (name : String) (others : List Telephony) {a : Telephony}
    → adapter name others ≡ some a
    → a.name ≡ name
adapter-name name [] e = ground arith
adapter-name name (b ∷ others) {a} e = elim (Option-cases (adapter name others)) [
  | inl none_left ↦
      let e' : or_this b name none ≡ some a = subst (λ o. or_this b name o ≡ some a) none_left e in
      ground (arith, eq_iff b.name name, e')
  | inr (c, found) ↦
      let e' : some c ≡ some a = subst (λ o. or_this b name o ≡ some a) found e in
      adapter-name name others {a = a} (found ∙ e')
]

-- What a demo request may come to: an error, or a session of the mock provider.
abbrev pub OnMock : Result CallSession → Type 0
OnMock (ok session) = session.provider_name ≡ "mock"
OnMock (err e) = Unit {0}

module _ {S L : Type 0} (r : Router S L) where
  stored-OnMock :
      (session : CallSession) (p : Result (Unit {0}) × S) (l : L)
      → session.provider_name ≡ "mock"
      → let (res, s', l') = stored r session p l in OnMock res × (l' ≡ l)
  stored-OnMock session (ok u, s) l e = (e, refl)
  stored-OnMock session (err x, s) l e = (tt, refl)

  on_answer-OnMock :
      (now : ℕ) (req : CallRequest) (a : Telephony) (x : Result String) (s : S) (l : L)
      → is_capped r a req ≡ false
      → a.name ≡ "mock"
      → let (res, s', l') = on_answer r now req a x s l in OnMock res × (l' ≡ l)
  on_answer-OnMock now req a (ok call_id) s l free e =
      let session = session_of r now req a call_id in
      stored-OnMock session (r.store.store_call_session session s) l e
  on_answer-OnMock now req a (err x) s l free e = (tt, rw free refl)

  mock_only-OnMock :
      (now : ℕ) (req : CallRequest) (o : Option Telephony) (s : S) (l : L)
      → ((a : Telephony) → o ≡ some a → a.name ≡ "mock")
      → let (res, s', l') = with_provider r now req (mock_only r o) s l in OnMock res × (l' ≡ l)
  unfolding with_provider
  mock_only-OnMock now req none s l named = (tt, refl)
  mock_only-OnMock now req (some a) s l named = elim (Bool-cases a.healthy) [
    | inl up_ ↦
        let free : is_capped r a req ≡ false = rw (named a refl) refl in
        rw up_ (rw free (on_answer-OnMock now req a (a.place_call req) s l free (named a refl)))
    | inr down ↦ rw down (tt, refl)
  ]

  -- A demo request, or any request of a demo tenant, is placed with the provider mock or not at
  -- all, and takes no slot. This holds of any store and any limiter.
  pub demo_isolated :
      (now : ℕ) (fresh_id : String) (req : CallRequest) (s : S) (l : L)
      → (req.demo || demo_mode r.env req.tenant_id) ≡ true
      → let (res, s', l') = place_call r now fresh_id req s l in OnMock res × (l' ≡ l)
  unfolding place_call select_for_call
  demo_isolated now fresh_id req s l demo = rw demo (
      mock_only-OnMock now (filled r fresh_id req) (adapter "mock" r.adapters) s l
        (λ a e. adapter-name "mock" r.adapters {a = a} e))
