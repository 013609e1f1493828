-- ===== src/Import/Durable/Pages.antt =====
-- internal/store/postgres.go, `ListLeads`: which leads a page holds.
use lead.Prelude.{
  ◌≡◌, refl, arith, inl, inr, ℕ, zero, suc, ◌+◌, String, Bool, List, [], ◌∷◌, keep, take, drop,
  values, Bool-cases, pos_part, ok, Dict, sym, ◌∙◌,
}
use lead.Pgkv.{up, list}
use lead.Import.Store.{Lead, LeadFilters}
use lead.Import.Durable.{Tables, passes, page, list_leads}

-- A page of a list: all but the first `start`, and of those the first `limit`, or all for 0.
abbrev pub window : ℕ → ℕ → List Lead → List Lead
window start zero xs = drop start xs
window start (suc k) xs = take (suc k) (drop start xs)

module _ (p : Lead → Bool) where
  page-unlimited : (n : ℕ) (ls : List Lead) → page p 0 0 n ls ≡ keep p ls
  unfolding page
  page-unlimited n [] = refl
  page-unlimited n (l ∷ ls) = ground (arith, page-unlimited n ls, page-unlimited (suc n) ls)

  page-limited :
      (k n limit : ℕ) (ls : List Lead)
      → limit ≡ n + suc k
      → page p 0 limit n ls ≡ take (suc k) (keep p ls)
  unfolding page
  page-limited k n limit [] e = refl
  page-limited zero n limit (l ∷ ls) e = ground (arith, page-limited zero n limit ls e)
  page-limited (suc k) n limit (l ∷ ls) e =
      ground
        (arith, page-limited (suc k) n limit ls e, page-limited k (suc n) limit ls (omega arith))

  page-unskipped : (limit : ℕ) (ls : List Lead) → page p 0 limit 0 ls ≡ window 0 limit (keep p ls)
  page-unskipped zero ls = page-unlimited 0 ls
  page-unskipped (suc k) ls = page-limited k 0 (suc k) ls (omega arith)

  window-cons :
      (start limit : ℕ) (l : Lead) (ls : List Lead)
      → window (suc start) limit (l ∷ ls) ≡ window start limit ls
  window-cons start zero l ls = refl
  window-cons start (suc k) l ls = refl

  window-nil : (start limit : ℕ) → window start limit [] ≡ []
  window-nil zero zero = refl
  window-nil zero (suc k) = refl
  window-nil (suc start) zero = refl
  window-nil (suc start) (suc k) = refl

  pub page_lem :
      (start limit : ℕ) (ls : List Lead) → page p start limit 0 ls ≡ window start limit (keep p ls)
  unfolding page
  page_lem zero limit ls = page-unskipped limit ls
  page_lem (suc start) limit [] = sym (window-nil (suc start) limit)
  page_lem (suc start) limit (l ∷ ls) = elim (Bool-cases (p l)) [
    | inl e ↦ rw e (page_lem start limit ls ∙ sym (window-cons start limit l (keep p ls)))
    | inr e ↦ rw e (page_lem (suc start) limit ls)
  ]

-- On a reachable database the loop of ListLeads gives what its filters and its page say: of the
-- tenant's leads that pass the filters, in the order of the table, it leaves out as many as the
-- offset says (none if it is negative) and returns as many as the limit says (all of the rest if the
-- limit is not positive). The tables stay as they are.
pub list_leads_lem :
    (tenant_id : String) (f : LeadFilters) (ls : Dict Lead) (q : Tables)
    → q.leads ≡ up ls
    → list_leads tenant_id f q ≡ (
      ok (window (pos_part f.offset) (pos_part f.limit) (keep (passes tenant_id f) (values ls))),
      record q { leads = up ls },
    )
unfolding list_leads list
list_leads_lem tenant_id f ls q e =
    rw (e, page_lem (passes tenant_id f) (pos_part f.offset) (pos_part f.limit) (values ls)) refl
