-- ===== src/Telephony/FakeLimiter.antt =====
-- internal/concurrency/limiter.go: the interface `Limiter` and the in-memory `FakeLimiter`.
use lead.Prelude.{
  ℕ, ◌+◌, ◌-◌, ◌≤◌, ◌<◌, ◌≡◌, ◌⊎◌, String, Option, none, some, List, [], ◌∷◌, ◌++◌, arith, ltb,
  Dict, lookup, insert, lookup-insert, if◌then◌else◌, string_eq, eq_iff, string_beq_refl, Result,
  ok, err, limit_reached,
}

-- `Incr` and `Decr` over a state `L`.
pub record Limiter (L : Type 0) : Type 0 where
  pub incr : String → L → Result (Unit {0}) × L
  pub decr : String → L → L

pub record FakeLimiter : Type 0 where
  pub counts : Dict ℕ
  pub max : ℕ
  pub incrted : List String

abbrev pub or_zero : Option ℕ → ℕ
or_zero none = 0
or_zero (some n) = n

-- `Count`
abbrev pub count : String → FakeLimiter → ℕ
count tenant_id f = or_zero (lookup tenant_id f.counts)

-- The counter is raised, and taken back if it is then over the cap.
unfoldable pub fake_incr : String → FakeLimiter → Result (Unit {0}) × FakeLimiter
fake_incr tenant_id f =
    let raised = insert tenant_id (count tenant_id f + 1) f.counts in
    let called = f.incrted ++ (tenant_id ∷ []) in
    if ltb f.max (or_zero (lookup tenant_id raised))
    then (
      err limit_reached,
      record f {
        counts = insert tenant_id (or_zero (lookup tenant_id raised) - 1) raised;
        incrted = called;
      },
    )
    else (ok tt, record f { counts = raised; incrted = called })

unfoldable pub fake_decr : String → FakeLimiter → FakeLimiter
fake_decr tenant_id f =
    if ltb 0 (count tenant_id f)
    then record f { counts = insert tenant_id (count tenant_id f - 1) f.counts }
    else f

abbrev pub fake_limiter : Limiter FakeLimiter
fake_limiter = record { incr = fake_incr; decr = fake_decr }

-- `noopLimiter`
abbrev pub noop_limiter : Limiter (Unit {0})
noop_limiter = record { incr = λ tenant_id l. (ok tt, l); decr = λ tenant_id l. l }

-- What a call of `Incr` makes of the count `n` of its tenant under the cap `max`.
abbrev pub Counted : ℕ → ℕ → Result (Unit {0}) → ℕ → Type 0
Counted max n (ok u) n' = (n < max) × (n' ≡ n + 1)
Counted max n (err e) n' = (max ≤ n) × (e ≡ limit_reached) × (n' ≡ n)

-- `Incr` takes a slot of the tenant exactly if one is free, and otherwise reports the limit and
-- leaves the count as it was. The count of another tenant stays.
pub fake_incr_lem :
    (a b : String) (f : FakeLimiter)
    → let (r, f') = fake_incr a f in
      Counted f.max (count a f) r (count a f')
      × ((a ≡ b) ⊎ (count b f' ≡ count b f))
      × (f'.max ≡ f.max)
unfolding fake_incr
fake_incr_lem a b f =
    let raised = insert a (count a f + 1) f.counts in
    ground (
      arith,
      string_beq_refl a,
      eq_iff a b,
      lookup-insert a a (count a f + 1) f.counts,
      lookup-insert a b (count a f + 1) f.counts,
      lookup-insert a a (or_zero (lookup a raised) - 1) raised,
      lookup-insert a b (or_zero (lookup a raised) - 1) raised,
    )

-- `Decr` gives a slot of the tenant back and stops at zero. The count of another tenant stays.
pub fake_decr_lem :
    (a b : String) (f : FakeLimiter)
    → let f' = fake_decr a f in (count a f' ≡ count a f - 1) × ((a ≡ b) ⊎ (count b f' ≡ count b f))
unfolding fake_decr
fake_decr_lem a b f = ground (
  arith,
  string_beq_refl a,
  eq_iff a b,
  lookup-insert a a (count a f - 1) f.counts,
  lookup-insert a b (count a f - 1) f.counts,
)
