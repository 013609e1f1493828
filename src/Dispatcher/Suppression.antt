-- ===== src/Dispatcher/Suppression.antt =====
-- The do-not-disturb list: the interface `SuppressionStore` and its in-memory implementation of
-- dispatcher.go, and the durable one in store_pgkv.go.
use lead.Prelude.{
  Option-cases, inl, inr, refl, ℕ, String, ◌^^◌, Bool, true, false, ◌≡◌, Option, none, some, arith,
  Dict, lookup, insert, lookup-insert, string_beq_refl, Result, ok, err,
}
use lead.Pgkv.{Kv, Action, up, put, get}

pub record SuppressionEntry : Type 0 where
  pub reason : String
  pub created_at : ℕ

-- The interface, of which the dispatcher uses the check only.
pub record SuppressionStore (S : Type 0) : Type 0 where
  pub is_suppressed : String → String → S → Bool × S

abbrev pub suppression_key : String → String → String
suppression_key tenant_id phone = (tenant_id ^^ ":") ^^ phone

abbrev pub found : Result (Option SuppressionEntry) → Bool
found (ok (some _)) = true
found (ok none) = false
found (err _) = false

abbrev pub is_entry {ℓ} : {A : Type ℓ} → Option A → Bool
is_entry none = false
is_entry (some entry) = true

-- A database error counts as not suppressed.
unfoldable pub is_suppressed : String → String → Kv SuppressionEntry → Bool × Kv SuppressionEntry
is_suppressed tenant_id phone s =
    let (r, s') = get (suppression_key tenant_id phone) s in (found r, s')

unfoldable pub suppress : String → String → String → ℕ → Action (Kv SuppressionEntry) (Unit {0})
suppress tenant_id phone reason now =
    put (suppression_key tenant_id phone) (record { reason = reason; created_at = now })

abbrev pub pgkv_suppression : SuppressionStore (Kv SuppressionEntry)
pgkv_suppression = record { is_suppressed = is_suppressed }

-- `FakeSuppressionStore`, from a key to a reason.
unfoldable pub fake_is_suppressed : String → String → Dict String → Bool × Dict String
fake_is_suppressed tenant_id phone entries =
    (is_entry (lookup (suppression_key tenant_id phone) entries), entries)

unfoldable pub fake_suppress : String → String → String → Action (Dict String) (Unit {0})
fake_suppress tenant_id phone reason entries =
    (ok tt, insert (suppression_key tenant_id phone) reason entries)

abbrev pub fake_suppression : SuppressionStore (Dict String)
fake_suppression = record { is_suppressed = fake_is_suppressed }

-- `NoopSuppressionStore`
abbrev pub noop_suppression : SuppressionStore (Unit {0})
noop_suppression = record { is_suppressed = λ _ _ u. (false, u) }

-- A phone that was suppressed without an error is found suppressed by the next check that reaches
-- the database, and stays so whatever else is suppressed after it.
pub is_suppressed-suppress :
    (tenant_id phone reason other_tenant other_phone other_reason : String) (now later : ℕ)
    (t : Dict SuppressionEntry)
    → let s = (suppress tenant_id phone reason now (up t)).1 in
      let s' = (suppress other_tenant other_phone other_reason later s).1 in
      ((is_suppressed tenant_id phone s).0 ≡ true) × ((is_suppressed tenant_id phone s').0 ≡ true)
unfolding is_suppressed suppress get put
is_suppressed-suppress tenant_id phone reason other_tenant other_phone other_reason now later t =
    let k = suppression_key tenant_id phone in
    let e : SuppressionEntry = record { reason = reason; created_at = now } in
    let e' : SuppressionEntry = record { reason = other_reason; created_at = later } in
    ground (
      arith,
      string_beq_refl k,
      lookup-insert k k e t,
      lookup-insert (suppression_key other_tenant other_phone) k e' (insert k e t),
    )

-- While the list can be read, a check tells whether the phone stands on it, and changes nothing.
pub is_suppressed-up :
    (tenant_id phone : String) (t : Dict SuppressionEntry)
    → is_suppressed tenant_id phone (up t)
      ≡ (is_entry (lookup (suppression_key tenant_id phone) t), up t)
unfolding is_suppressed get
is_suppressed-up tenant_id phone t =
    elim (Option-cases (lookup (suppression_key tenant_id phone) t)) [
      | inl e ↦ rw e refl
      | inr (v, e) ↦ rw e refl
    ]
