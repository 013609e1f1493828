-- ===== src/Picker/Refinement.antt =====
-- internal/store/postgres.go against internal/store/fake.go: one claim over a reachable database,
-- run alone, and the claim that holds the mutex.
use lead.Prelude.{
  ℕ, ◌+◌, ◌≡◌, refl, sym, ap, ◌∙◌, ◌⊎◌, inl, inr, subst, String, false, List, [], ◌∷◌, arith, ◌==◌,
  string_eq, eq_iff, All, All-mono, Bool-cases, Dict, insert, values, ok,
}
use lead.Pgkv.{up, put}
use lead.Picker.Store.{Lead, Fake, choose, leased, is_among, lease_all, stamp, put_lead}
use lead.Picker.Store
use lead.Picker.Durable.{claim_all, claim_read}
use lead.Picker.Durable
use lead.Picker.Claims.{choose-All}

-- No lead has the id.
abbrev pub Without : String → List Lead → Type 0
Without id ls = All (λ m. (m.id == id) ≡ false) ls

-- No two leads have one id.
abbrev pub Distinct : List Lead → Type 0
Distinct [] = Unit
Distinct (l ∷ ls) = Without l.id ls × Distinct ls

-- A table of leads, each under its id.
abbrev pub Filed : Dict Lead → Type 0
Filed [] = Unit
Filed ((k, l) ∷ d) = (k ≡ l.id) × Filed d

values-insert :
    (l : Lead) (d : Dict Lead) → Filed d → values (insert l.id l d) ≡ put_lead l (values d)
unfolding insert put_lead
values-insert l [] h = refl
values-insert l ((k, m) ∷ d) h = rw h.0 (ground (arith, values-insert l d h.1))

insert-Filed : (l : Lead) (d : Dict Lead) → Filed d → Filed (insert l.id l d)
unfolding insert
insert-Filed l [] h = (refl, tt)
insert-Filed l ((k, m) ∷ d) h = elim (Bool-cases (k == l.id)) [
  | inl e ↦ rw e (refl, h.1)
  | inr e ↦ rw e (h.0, insert-Filed l d h.1)
]

module _ (worker_id : String) (until : ℕ) where
  -- The list holds one lead of the id, and its lease makes the same lead.
  Holds : Lead → List Lead → Type 0
  Holds b [] = ⊥
  Holds b (m ∷ ms) =
      ((leased worker_id until m ≡ leased worker_id until b) × Without b.id ms)
      ⊎ (((m.id == b.id) ≡ false) × Holds b ms)

  put_all : List Lead → List Lead → List Lead
  put_all [] ls = ls
  put_all (b ∷ bs) ls = put_all bs (put_lead (leased worker_id until b) ls)

  stamp-nil : (ls : List Lead) → stamp worker_id until [] ls ≡ ls
  unfolding stamp
  stamp-nil [] = refl
  stamp-nil (l ∷ ls) = ap (λ rest. l ∷ rest) (stamp-nil ls)

  stamp-cons :
      (b : Lead) (bs ls : List Lead)
      → stamp worker_id until bs (stamp worker_id until (b ∷ []) ls)
        ≡ stamp worker_id until (b ∷ bs) ls
  unfolding stamp leased
  stamp-cons b bs [] = refl
  stamp-cons b bs (l ∷ ls) = ground (arith, stamp-cons b bs ls)

  stamp-Without :
      (b : Lead) (ls : List Lead) → Without b.id ls → stamp worker_id until (b ∷ []) ls ≡ ls
  unfolding stamp
  stamp-Without b [] h = refl
  stamp-Without b (l ∷ ls) h =
      ground (arith, stamp-Without b ls h.1, eq_iff l.id b.id, eq_iff b.id l.id)

  put_lead-stamp :
      (b : Lead) (ls : List Lead)
      → Holds b ls
      → put_lead (leased worker_id until b) ls ≡ stamp worker_id until (b ∷ []) ls
  unfolding put_lead stamp leased Holds
  put_lead-stamp b [] h = elim h [ ]
  put_lead-stamp b (l ∷ ls) (inl h) =
      let same : l.id ≡ b.id = ap (λ (m : Lead). m.id) h.0 in
      ground (arith, stamp-Without b ls h.1, eq_iff l.id b.id, eq_iff b.id l.id)
  put_lead-stamp b (l ∷ ls) (inr h) =
      ground (arith, put_lead-stamp b ls h.1, eq_iff l.id b.id, eq_iff b.id l.id)

  put_lead-Without :
      (id : String) (b : Lead) (ls : List Lead)
      → (b.id == id) ≡ false
      → Without id ls
      → Without id (put_lead (leased worker_id until b) ls)
  unfolding put_lead leased
  put_lead-Without id b [] e h = (e, tt)
  put_lead-Without id b (l ∷ ls) e h = ground (arith, put_lead-Without id b ls e h.1)

  put_lead-Holds :
      (a b : Lead) (ls : List Lead)
      → Holds a ls
      → Holds b ls
      → Holds a (put_lead (leased worker_id until b) ls)
  unfolding put_lead leased Holds
  put_lead-Holds a b [] h k = elim h [ ]
  put_lead-Holds a b (l ∷ ls) (inl h) (inl k) =
      let same : l.id ≡ b.id = ap (λ (m : Lead). m.id) k.0 in
      rw ((eq_iff l.id b.id).1 same) (inl (sym k.0 ∙ h.0, h.1))
  put_lead-Holds a b (l ∷ ls) (inl h) (inr k) =
      let same : l.id ≡ a.id = ap (λ (m : Lead). m.id) h.0 in
      rw k.0 (
        inl (
          h.0,
          put_lead-Without a.id b ls (ground (arith, eq_iff l.id b.id, eq_iff b.id a.id, same)) h.1,
        ))
  put_lead-Holds a b (l ∷ ls) (inr h) (inl k) =
      let same : l.id ≡ b.id = ap (λ (m : Lead). m.id) k.0 in
      rw ((eq_iff l.id b.id).1 same) (inr (subst (λ id. (id == a.id) ≡ false) same h.0, h.1))
  put_lead-Holds a b (l ∷ ls) (inr h) (inr k) = rw k.0 (inr (h.0, put_lead-Holds a b ls h.1 k.1))

  put_all-stamp :
      (bs ls : List Lead) → All (λ b. Holds b ls) bs → put_all bs ls ≡ stamp worker_id until bs ls
  unfolding put_all
  put_all-stamp [] ls h = sym (stamp-nil ls)
  put_all-stamp (b ∷ bs) ls h =
      put_all-stamp bs (put_lead (leased worker_id until b) ls) (
        All-mono (λ a. Holds a ls) (λ a. Holds a (put_lead (leased worker_id until b) ls))
          (λ a ha. put_lead-Holds a b ls ha h.0) bs h.1)
      ∙ ap (stamp worker_id until bs) (put_lead-stamp b ls h.0)
      ∙ stamp-cons b bs ls

  Distinct-Holds : (ls : List Lead) → Distinct ls → All (λ b. Holds b ls) ls
  unfolding Holds
  Distinct-Holds [] h = tt
  Distinct-Holds (l ∷ ls) h = (inl (refl, h.0), behind ls h.0 (Distinct-Holds ls h.1))
    where
      behind :
          (ms : List Lead)
          → Without l.id ms
          → All (λ b. Holds b ls) ms
          → All (λ b. Holds b (l ∷ ls)) ms
      behind [] a b = tt
      behind (m ∷ ms) a b =
          (inr (ground (arith, eq_iff m.id l.id, eq_iff l.id m.id), b.0), behind ms a.1 b.1)

  -- The writes of a claim over a reachable database.
  claim_all-up :
      (bs : List Lead) (d : Dict Lead)
      → Filed d
      → (d' : Dict Lead) × (claim_all worker_id until bs (up d)
          ≡ (ok (lease_all worker_id until bs), up d'))
        × (values d' ≡ put_all bs (values d))
        × Filed d'
  unfolding claim_all put put_all leased
  claim_all-up [] d h = (d, refl, refl, h)
  claim_all-up (b ∷ bs) d h =
      let b' = leased worker_id until b in
      let (d', run, vals, filed) = claim_all-up bs (insert b.id b' d) (insert-Filed b' d h) in
      (d', rw run refl, vals ∙ ap (put_all bs) (values-insert b' d h), filed)

-- Over a reachable database whose leads stand under their ids, which differ, a claim that no other
-- call interrupts answers as the claim of the in-memory store over the same leads does, and leaves
-- the same leads behind, under their ids again.
pub pick_and_claim_refines :
    (campaign_id worker_id : String) (batch_size now lease_ttl : ℕ) (d : Dict Lead) (f : Fake)
    → Filed d
    → Distinct (values d)
    → f.leads ≡ values d
    → (d' : Dict Lead) × (Durable.pick_and_claim campaign_id worker_id batch_size now lease_ttl
          (up d)
        ≡ (ok (Store.pick_and_claim campaign_id worker_id batch_size now lease_ttl f).0, up d'))
      × (values d'
          ≡ (Store.pick_and_claim campaign_id worker_id batch_size now lease_ttl f).1.leads)
      × Filed d'
unfolding Store.pick_and_claim Durable.pick_and_claim
pick_and_claim_refines campaign_id worker_id batch_size now lease_ttl d f filed distinct same =
    let until = now + lease_ttl in
    let batch = choose campaign_id batch_size now (values d) in
    let (d', run, vals, filed') = claim_all-up worker_id until batch d filed in
    let held =
      choose-All campaign_id batch_size now (λ b. Holds worker_id until b (values d)) (values d)
        (Distinct-Holds worker_id until (values d) distinct) in
    (d', rw same run, rw same (vals ∙ put_all-stamp worker_id until batch (values d) held), filed')
