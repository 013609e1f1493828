-- ===== src/Picker/Claims.antt =====
-- internal/store/fake.go: who holds which lead, and which leads are claimed first.
use lead.Prelude.{
  ℕ, zero, suc, ◌+◌, ◌≡◌, refl, ◌∙◌, ◌⊎◌, inl, inr, String, true, false, List, [], ◌∷◌, arith, ℤ,
  string_eq, keep, take, All, All-keep, Bool-cases, All-sort_by,
}
use lead.Picker.Store.{
  pick_next, at_least_one, default_lease_ttl, Lead, processing, is_eligible, comes_before, choose,
  leased, Fake, is_among, lease_all, stamp,
}

All-take {κ} : (P : Lead → Type κ) (n : ℕ) (ls : List Lead) → All P ls → All P (take n ls)
All-take P zero ls h = tt
All-take P (suc n) [] h = tt
All-take P (suc n) (l ∷ ls) h = (h.0, All-take P n ls h.1)

-- What a claim starts from: the leads of the store that are chosen are eligible and stand in it.
module _ (campaign_id : String) (batch_size now : ℕ) where
  pub choose-All :
      (P : Lead → Type 0) (ls : List Lead) → All P ls → All P (choose campaign_id batch_size now ls)
  unfolding choose
  choose-All P ls h =
      All-take P batch_size _
        (All-sort_by comes_before P (keep (is_eligible campaign_id now) ls) (kept ls h))
    where
      kept : (ms : List Lead) → All P ms → All P (keep (is_eligible campaign_id now) ms)
      kept [] k = tt
      kept (m ∷ ms) k = elim (Bool-cases (is_eligible campaign_id now m)) [
        | inl e ↦ rw e (k.0, kept ms k.1)
        | inr e ↦ rw e (kept ms k.1)
      ]

  pub choose-is_eligible :
      (ls : List Lead)
      → All (λ l. is_eligible campaign_id now l ≡ true) (choose campaign_id batch_size now ls)
  unfolding choose
  choose-is_eligible ls =
      All-take (λ l. is_eligible campaign_id now l ≡ true) batch_size _
        (All-sort_by comes_before (λ l. is_eligible campaign_id now l ≡ true)
          (keep (is_eligible campaign_id now) ls)
          (All-keep (λ l. is_eligible campaign_id now l ≡ true) (is_eligible campaign_id now)
            (λ l e. e) ls))

-- A lead of an id in the batch is being processed.
abbrev Held : List Lead → Lead → Type 0
Held batch l = (is_among l.id batch ≡ false) ⊎ (l.status ≡ processing)

stamp-Held :
    (worker_id : String) (until : ℕ) (batch ls : List Lead)
    → All (Held batch) (stamp worker_id until batch ls)
unfolding stamp leased
stamp-Held worker_id until batch [] = tt
stamp-Held worker_id until batch (l ∷ ls) = (ground arith, stamp-Held worker_id until batch ls)

-- The leads of two claims are different.
abbrev pub Apart : List Lead → List Lead → Type 0
Apart first second = All (λ l. is_among l.id first ≡ false) second

is_among-lease_all :
    (id worker_id : String) (until : ℕ) (ls : List Lead)
    → is_among id (lease_all worker_id until ls) ≡ is_among id ls
unfolding leased
is_among-lease_all id worker_id until [] = refl
is_among-lease_all id worker_id until (l ∷ ls) =
    ground (arith, is_among-lease_all id worker_id until ls)

lease_all-Apart :
    (first second : List Lead) (worker worker' : String) (until until' : ℕ)
    → Apart first second
    → Apart (lease_all worker until first) (lease_all worker' until' second)
unfolding leased
lease_all-Apart first [] worker worker' until until' h = tt
lease_all-Apart first (l ∷ ls) worker worker' until until' h = (
  is_among-lease_all l.id worker until first ∙ h.0,
  lease_all-Apart first ls worker worker' until until' h.1,
)

Held-Apart :
    (first : List Lead) (campaign_id : String) (now : ℕ) (ls : List Lead)
    → All (Held first) ls
    → All (λ l. is_eligible campaign_id now l ≡ true) ls
    → Apart first ls
Held-Apart first campaign_id now [] h e = tt
Held-Apart first campaign_id now (l ∷ ls) h e =
    (free l h.0 e.0, Held-Apart first campaign_id now ls h.1 e.1)
  where
    free :
        (m : Lead)
        → Held first m
        → is_eligible campaign_id now m ≡ true
        → is_among m.id first ≡ false
    free m (inl out) k = out
    free m (inr busy) k = ground arith

-- A claim keeps what an earlier one holds.
stamp-keeps-Held :
    (first : List Lead) (worker_id : String) (until : ℕ) (batch ls : List Lead)
    → All (Held first) ls
    → All (Held first) (stamp worker_id until batch ls)
unfolding stamp leased
stamp-keeps-Held first worker_id until batch [] h = tt
stamp-keeps-Held first worker_id until batch (l ∷ ls) h =
    (ground arith, stamp-keeps-Held first worker_id until batch ls h.1)

-- One call of the picker: the campaign, the worker, the batch size it asks for and the time.
pub record Pick : Type 0 where
  pub campaign_id : String
  pub worker_id : String
  pub batch_size : ℤ
  pub now : ℕ

-- The batches of calls that follow one another, by any workers.
unfoldable pub pick_all : List Pick → Fake → List (List Lead)
unfolding pick_next
pick_all [] f = []
pick_all (p ∷ ps) f =
    let (batch, f') = pick_next p.campaign_id p.worker_id p.batch_size p.now f in
    batch ∷ pick_all ps f'

abbrev pub AllApart : List (List Lead) → Type 0
AllApart [] = Unit
AllApart (b ∷ bs) = All (Apart b) bs × AllApart bs

pick_all-Apart :
    (first : List Lead) (worker : String) (until : ℕ) (ps : List Pick) (f : Fake)
    → All (Held first) f.leads
    → All (Apart (lease_all worker until first)) (pick_all ps f)
unfolding pick_all
pick_all-Apart first worker until [] f h = tt
pick_all-Apart first worker until (p ∷ ps) f h =
    let size = at_least_one p.batch_size in
    let batch = choose p.campaign_id size p.now f.leads in
    (
      lease_all-Apart first batch worker p.worker_id until (p.now + default_lease_ttl) (
          Held-Apart first p.campaign_id p.now batch
            (choose-All p.campaign_id size p.now (Held first) f.leads h)
            (choose-is_eligible p.campaign_id size p.now f.leads)),
      pick_all-Apart first worker until ps _
          (stamp-keeps-Held first p.worker_id (p.now + default_lease_ttl) batch f.leads h),
    )

-- However many calls of the picker follow one another, by whichever workers, for whichever
-- campaigns, batch sizes and times, and with no other operation between them, no lead is in two
-- of their batches; not even after its lease has run out.
pub pick_all-AllApart : (ps : List Pick) (f : Fake) → AllApart (pick_all ps f)
unfolding pick_all
pick_all-AllApart [] f = tt
pick_all-AllApart (p ∷ ps) f =
    let size = at_least_one p.batch_size in
    let batch = choose p.campaign_id size p.now f.leads in
    (
      pick_all-Apart batch p.worker_id (p.now + default_lease_ttl) ps _
          (stamp-Held p.worker_id (p.now + default_lease_ttl) batch f.leads),
      pick_all-AllApart ps _,
    )
