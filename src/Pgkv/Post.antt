-- ===== src/Pgkv/Post.antt =====
-- libs/go/pgkv/pgkv.go: what holds after an action, by how it ended.
use lead.Prelude.{
  inl, inr, String, Option, Dict, lookup, insert, values, List, Bool-cases, Result, ok, err,
}
use lead.Pgkv.{Kv, Action, and_then, next_fails, later_faults, statement, put, get, list}

-- `S` holds of the result and the state of a success, `F` of the state of a failure.
abbrev pub Post {ℓ κ} :
    {A : Type κ} {Q : Type ℓ} → (A → Q → Type 0) → (Q → Type 0) → Result A × Q → Type 0
Post S F (ok a, q) = S a q
Post S F (err e, q) = F q

module _ {ℓ κ μ} {Q : Type ℓ} {A : Type κ} {B : Type μ} where
  pub Post-and_then :
      (S : A → Q → Type 0) (T : B → Q → Type 0) (F : Q → Type 0) (x : Result A × Q)
      (f : A → Action Q B)
      → Post S F x
      → ((a : A) (q : Q) → S a q → Post T F (f a q))
      → Post T F (and_then x f)
  Post-and_then S T F (ok a, q) f h next = next a q h
  Post-and_then S T F (err e, q) f h next = h

module _ {ℓ κ μ} {Q : Type ℓ} {R : Type κ} {A : Type μ} where
  -- An action on one table of several.
  pub Post-lift :
      (S : A → R → Type 0) (F : R → Type 0) (g : Q → R) (x : Result A × Q)
      → Post (λ a s. S a (g s)) (λ s. F (g s)) x
      → Post S F (x.0, g x.1)
  Post-lift S F g (ok a, s) h = h
  Post-lift S F g (err e, s) h = h

abbrev pub failed {ℓ} : {V : Type ℓ} → Kv V → Kv V
failed s = record s { faults = later_faults s.faults }

module _ {ℓ} {V : Type ℓ} where
  pub Post-statement {κ} :
      {A : Type κ} (S : A → Kv V → Type 0) (F : Kv V → Type 0) (run : Dict V → A × Dict V)
      (s : Kv V)
      → F (failed s)
      → S (run s.table).0 (record (failed s) { table = (run s.table).1 })
      → Post S F (statement run s)
  Post-statement S F run s f h = elim (Bool-cases (next_fails s.faults)) [
    | inl e ↦ rw e f
    | inr e ↦ rw e h
  ]

  pub Post-put :
      (S : Unit {0} → Kv V → Type 0) (F : Kv V → Type 0) (k : String) (v : V) (s : Kv V)
      → F (failed s)
      → S tt (record (failed s) { table = insert k v s.table })
      → Post S F (put k v s)
  unfolding put
  Post-put S F k v s f h = Post-statement S F (λ t. (tt, insert k v t)) s f h

  pub Post-get :
      (S : Option V → Kv V → Type 0) (F : Kv V → Type 0) (k : String) (s : Kv V)
      → F (failed s)
      → S (lookup k s.table) (failed s)
      → Post S F (get k s)
  unfolding get
  Post-get S F k s f h = Post-statement S F (λ t. (lookup k t, t)) s f h

  pub Post-list :
      (S : List V → Kv V → Type 0) (F : Kv V → Type 0) (s : Kv V)
      → F (failed s)
      → S (values s.table) (failed s)
      → Post S F (list s)
  unfolding list
  Post-list S F s f h = Post-statement S F (λ t. (values t, t)) s f h

-- What holds however an action ended holds of the state after it.
pub Post-state {ℓ κ} :
    {Q : Type ℓ} {A : Type κ} (P : Q → Type 0) (x : Result A × Q) → Post (λ a. P) P x → P x.1
Post-state P (ok a, q) h = h
Post-state P (err e, q) h = h

pub Post-mono {ℓ κ} :
    {Q : Type ℓ} {A : Type κ} (S T : A → Q → Type 0) (F G : Q → Type 0) (x : Result A × Q)
    → ((a : A) (q : Q) → S a q → T a q)
    → ((q : Q) → F q → G q)
    → Post S F x
    → Post T G x
Post-mono S T F G (ok a, q) s f h = s a q h
Post-mono S T F G (err e, q) s f h = f q h
