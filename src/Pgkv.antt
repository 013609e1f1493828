-- ===== src/Pgkv.antt =====
-- libs/go/pgkv/pgkv.go: one collection of the key-value table that the services keep in Postgres.
-- A statement that reaches Postgres reads or writes the whole table state; `faults` says which of
-- the next statements fail, so that every error path can be run.
pub mod Post
use lead.Prelude.{
  ◌≡◌, ◌⊎◌, arith, ap, String, Bool, true, false, Option, none, some, List, [], ◌∷◌, Dict, lookup,
  insert, erase, values, if◌then◌else◌, Result, ok, err, Error, backend,
}

pub record Kv {ℓ} (V : Type ℓ) : Type ℓ where
  pub table : Dict V
  pub faults : List Bool

-- A reachable database: no statement fails.
abbrev pub up {ℓ} : {V : Type ℓ} → Dict V → Kv V
up t = record { table = t; faults = [] }

-- An operation returns its result and the state that it leaves behind, also when it fails.
abbrev pub Action {ℓ κ} : Type ℓ → Type κ → Type (ℓ ⊔ κ)
Action Q A = Q → Result A × Q

-- What follows an action runs only if the action succeeded.
abbrev pub and_then {ℓ κ μ} :
    {Q : Type ℓ} {A : Type κ} {B : Type μ} → Result A × Q → (A → Q → Result B × Q) → Result B × Q
and_then (ok a, q) f = f a q
and_then (err e, q) f = (err e, q)

infixl 5 ◌>>=◌ ◌>>◌
abbrev pub ◌>>=◌ {ℓ κ μ} :
    {Q : Type ℓ} {A : Type κ} {B : Type μ} → Action Q A → (A → Action Q B) → Action Q B
◌>>=◌ m f q = and_then (m q) f

abbrev pub ◌>>◌ {ℓ κ} : {Q : Type ℓ} {B : Type κ} → Action Q (Unit {0}) → Action Q B → Action Q B
m >> k = m >>= λ _. k

module _ {ℓ κ μ} {Q : Type ℓ} {A : Type κ} {B : Type μ} where
  -- How a sequence goes on, by how its first action ended.
  pub bind-ok :
      (m : Action Q A) (f : A → Action Q B) (q : Q) {a : A} {q' : Q}
      → m q ≡ (ok a, q')
      → (m >>= f) q ≡ f a q'
  bind-ok m f q e = ap (λ p. and_then p f) e

  pub bind-err :
      (m : Action Q A) (f : A → Action Q B) (q : Q) {e : Error} {q' : Q}
      → m q ≡ (err e, q')
      → (m >>= f) q ≡ (err e, q')
  bind-err m f q e = ap (λ p. and_then p f) e

abbrev pub pure {ℓ κ} : {Q : Type ℓ} {A : Type κ} → A → Action Q A
pure a q = (ok a, q)

abbrev pub throw {ℓ κ} : {Q : Type ℓ} {A : Type κ} → Error → Action Q A
throw e q = (err e, q)

abbrev pub next_fails : List Bool → Bool
next_fails [] = false
next_fails (b ∷ fs) = b

abbrev pub later_faults : List Bool → List Bool
later_faults [] = []
later_faults (b ∷ fs) = fs

module _ {ℓ} {V : Type ℓ} where
  -- One statement: it runs on the table unless the next fault says that it fails.
  abbrev pub statement {κ} : {A : Type κ} → (Dict V → A × Dict V) → Kv V → Result A × Kv V
  statement run s =
      let (a, t) = run s.table in
      if next_fails s.faults
      then (err backend, record s { faults = later_faults s.faults })
      else (ok a, record { table = t; faults = later_faults s.faults })

  -- `Put`: INSERT … ON CONFLICT (kind, key) DO UPDATE SET data.
  unfoldable pub put : String → V → Action (Kv V) (Unit {0})
  put k v s = statement (λ t. (tt, insert k v t)) s

  -- `Get`: the value and whether the key exists.
  unfoldable pub get : String → Action (Kv V) (Option V)
  get k s = statement (λ t. (lookup k t, t)) s

  -- `List`: ORDER BY created_at, key. An update keeps `created_at`.
  unfoldable pub list : Action (Kv V) (List V)
  list s = statement (λ t. (values t, t)) s

  -- `Insert`: ON CONFLICT DO NOTHING, and whether a row was written.
  unfoldable pub insert_new : String → V → Action (Kv V) Bool
  insert_new k v s =
      statement (λ t. elim (lookup k t) [ none ↦ (true, insert k v t) | some _ ↦ (false, t) ]) s

  -- `Delete`: deleting an absent key is no error.
  unfoldable pub delete : String → Action (Kv V) (Unit {0})
  delete k s = statement (λ t. (tt, erase k t)) s

  -- What a statement did: it failed, or it ran.
  pub get-cases :
      (k : String) (s : Kv V)
      → (get k s ≡ (err backend, record s { faults = later_faults s.faults }))
        ⊎ (get k s ≡ (ok (lookup k s.table), record s { faults = later_faults s.faults }))
  unfolding get
  get-cases k s = ground arith

  pub put-cases :
      (k : String) (v : V) (s : Kv V)
      → (put k v s ≡ (err backend, record s { faults = later_faults s.faults }))
        ⊎ (put k v s
            ≡ (ok tt, record { table = insert k v s.table; faults = later_faults s.faults }))
  unfolding put
  put-cases k v s = ground arith

  pub list-cases :
      (s : Kv V)
      → (list s ≡ (err backend, record s { faults = later_faults s.faults }))
        ⊎ (list s ≡ (ok (values s.table), record s { faults = later_faults s.faults }))
  unfolding list
  list-cases s = ground arith
