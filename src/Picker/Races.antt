-- ===== src/Picker/Races.antt =====
-- internal/store/postgres.go: two claims whose reads both come before the first write.
use lead.Prelude.{ℕ, ◌+◌, ◌≡◌, refl, String, List, [], ◌∷◌, Dict, insert, values, Result, ok}
use lead.Pgkv.{Kv, up, and_then, put, list}
use lead.Picker.Store.{Lead, choose, leased, lease_all}
use lead.Picker.Durable.{claim_all, claim_read}

-- A worker's call: who it is, how many leads it asks for and when.
pub record Claim : Type 0 where
  pub worker_id : String
  pub batch_size : ℕ
  pub now : ℕ
  pub lease_ttl : ℕ

-- Both calls have read the leads; then the first one writes, and after it the second.
unfoldable pub race :
    String → Claim → Claim → Kv Lead → (Result (List Lead) × Result (List Lead)) × Kv Lead
unfolding claim_read list
race campaign_id a b s =
    let (read_a, s1) = list s in
    let (read_b, s2) = list s1 in
    let (batch_a, s3) =
      and_then (read_a, s2) (claim_read campaign_id a.worker_id a.batch_size a.now a.lease_ttl) in
    let (batch_b, s4) =
      and_then (read_b, s3) (claim_read campaign_id b.worker_id b.batch_size b.now b.lease_ttl) in
    ((batch_a, batch_b), s4)

claim_all-answer :
    (worker_id : String) (until : ℕ) (bs : List Lead) (d : Dict Lead)
    → (d' : Dict Lead) × (claim_all worker_id until bs (up d)
        ≡ (ok (lease_all worker_id until bs), up d'))
unfolding claim_all put leased
claim_all-answer worker_id until [] d = (d, refl)
claim_all-answer worker_id until (l ∷ ls) d =
    let (d', run) =
      claim_all-answer worker_id until ls (insert l.id (leased worker_id until l) d) in
    (d', rw run refl)

-- Over every reachable database, two calls of `PickAndClaim` for one campaign whose reads both come
-- before the first write both succeed, and each is given all that it would be given alone: at the
-- same time and batch size, both workers are given the very same leads, each under its own lease.
pub race_shares :
    (campaign_id : String) (a b : Claim) (d : Dict Lead)
    → (race campaign_id a b (up d)).0 ≡ (
      ok (
          lease_all a.worker_id
            (a.now + a.lease_ttl)
            (choose campaign_id a.batch_size a.now (values d))),
      ok (
          lease_all b.worker_id
            (b.now + b.lease_ttl)
            (choose campaign_id b.batch_size b.now (values d))),
    )
unfolding race
race_shares campaign_id a b d =
    let (d1, run_a) =
      claim_all-answer a.worker_id (a.now + a.lease_ttl)
        (choose campaign_id a.batch_size a.now (values d)) d in
    let (d2, run_b) =
      claim_all-answer b.worker_id (b.now + b.lease_ttl)
        (choose campaign_id b.batch_size b.now (values d)) d1 in
    rw run_a (rw run_b refl)
