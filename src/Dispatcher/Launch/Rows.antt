-- ===== src/Dispatcher/Launch/Rows.antt =====
-- dispatcher.go, `onCampaignLaunched`: the rows that a launch seeds.
use lead.Prelude.{
  ℕ, ◌≡◌, refl, inl, inr, String, true, none, some, List, [], ◌∷◌, arith, Dict, nat_eq, string_eq,
  Result, ok, err, All, Result-cases,
}
use lead.Pgkv.{up}
use lead.Dispatcher.Row.{Value, DialRow, pending}
use lead.Dispatcher.Queue.{pgkv_store, row_key}
use lead.Dispatcher.Queue.Seed.{IsPresent, seed_rows_idempotent, seed_rows_present}
use lead.Dispatcher.Launch.{
  Services, CampaignResponse, LeadResponse, Fetched, unreachable, answer, CampaignLimits,
  build_rows, add_row, resolve_phone, is_filled, campaign_ctx_map, on_campaign_launched,
  launch_with, seed, on_seeded, fetch_campaign, fetch_limits, fetch_campaign_leads,
}

-- A phone that is resolved is not empty.
resolve_phone_filled :
    (a : Fetched LeadResponse) {phone : String}
    → resolve_phone a ≡ ok phone
    → is_filled phone ≡ true
unfolding resolve_phone
resolve_phone_filled unreachable e = cc
resolve_phone_filled (answer status none) e = ground arith
resolve_phone_filled (answer status (some out)) e = ground arith

-- A row that a launch makes: pending, never tried, due at once, with a phone.
abbrev pub IsNew : String → ℕ → DialRow → Type 0
IsNew campaign_id now r =
    (r.campaign_id ≡ campaign_id)
    × (r.status ≡ pending)
    × (r.attempts ≡ 0)
    × (r.next_attempt_at ≡ now)
    × (is_filled r.phone ≡ true)

module _ (services : Services) (campaign_id : String) (c : CampaignResponse) where
  -- Every row of a launch is new.
  pub build_rows-IsNew :
      (now : ℕ) (uuid : String → String) (ctx : Dict Value) (ids : List String)
      → All (IsNew campaign_id now) (build_rows services campaign_id now uuid c ctx ids)
  unfolding build_rows
  build_rows-IsNew now uuid ctx [] = tt
  build_rows-IsNew now uuid ctx (lead_id ∷ ids) =
      let rest = build_rows-IsNew now uuid ctx ids in
      elim (Result-cases (resolve_phone (services.lead c.tenant_id lead_id))) [
        | inl (phone, e) ↦ rw e (
          (
            refl,
            refl,
            refl,
            refl,
            resolve_phone_filled (services.lead c.tenant_id lead_id) {phone = phone} e,
          ),
          rest,
        )
        | inr (x, e) ↦ rw e rest
      ]

  add_row-IsPresent :
      (now later : ℕ) (uuid uuid' : String → String) (ctx ctx' : Dict Value) (t : Dict DialRow)
      (lead_id : String) (r : Result String) (rows rows' : List DialRow)
      → (All (IsPresent t) rows → All (IsPresent t) rows')
      → All (IsPresent t) (add_row services campaign_id now uuid c ctx lead_id r rows)
      → All (IsPresent t) (add_row services campaign_id later uuid' c ctx' lead_id r rows')
  unfolding add_row
  add_row-IsPresent now later uuid uuid' ctx ctx' t lead_id (ok phone) rows rows' ih h =
      (h.0, ih h.1)
  add_row-IsPresent now later uuid uuid' ctx ctx' t lead_id (err e) rows rows' ih h = ih h

  -- The keys of the rows depend on neither the time nor the random ids nor the limits.
  build_rows-IsPresent :
      (now later : ℕ) (uuid uuid' : String → String) (ctx ctx' : Dict Value) (t : Dict DialRow)
      (ids : List String)
      → All (IsPresent t) (build_rows services campaign_id now uuid c ctx ids)
      → All (IsPresent t) (build_rows services campaign_id later uuid' c ctx' ids)
  unfolding build_rows
  build_rows-IsPresent now later uuid uuid' ctx ctx' t [] h = tt
  build_rows-IsPresent now later uuid uuid' ctx ctx' t (lead_id ∷ ids) h =
      add_row-IsPresent now later uuid uuid' ctx ctx' t lead_id
        (resolve_phone (services.lead c.tenant_id lead_id))
        (build_rows services campaign_id now uuid c ctx ids)
        (build_rows services campaign_id later uuid' c ctx' ids)
        (build_rows-IsPresent now later uuid uuid' ctx ctx' t ids) h

module _ (services : Services) (campaign_id : String) (now later : ℕ)
    (uuid uuid' : String → String) where
  seed_first :
      (rs : List DialRow) (t : Dict DialRow) (active : List String)
      → (t' : Dict DialRow) × ((seed pgkv_store services uuid campaign_id now rs (up t) active).1
          ≡ up t')
        × All (IsPresent t') rs
  unfolding seed on_seeded
  seed_first [] t active = (t, refl, tt)
  seed_first (r ∷ rs) t active =
      let (t', run, _, all, _) = seed_rows_idempotent (r ∷ rs) t (row_key r) in
      (t', rw run refl, all)

  seed_again :
      (rs : List DialRow) (t : Dict DialRow) (active : List String)
      → All (IsPresent t) rs
      → (seed pgkv_store services uuid' campaign_id later rs (up t) active).1 ≡ up t
  unfolding seed on_seeded
  seed_again [] t active h = refl
  seed_again (r ∷ rs) t active h = rw (seed_rows_present (r ∷ rs) t h) refl

  relaunch_with :
      (c : Result CampaignResponse) (l : Result CampaignLimits) (ids : Result (List String))
      (t : Dict DialRow) (active active' : List String)
      → let q = (launch_with pgkv_store services uuid campaign_id now c l ids (up t) active).1 in
        (launch_with pgkv_store services uuid' campaign_id later c l ids q active').1 ≡ q
  unfolding launch_with
  relaunch_with (err e) l ids t active active' = refl
  relaunch_with (ok c) (err e) ids t active active' = refl
  relaunch_with (ok c) (ok l) (err e) t active active' = refl
  relaunch_with (ok c) (ok l) (ok ids) t active active' =
      let ctx = campaign_ctx_map c.context l in
      let rows = build_rows services campaign_id now uuid c ctx ids in
      let (t', run, all) = seed_first rows t active in
      rw run (
        seed_again (build_rows services campaign_id later uuid' c ctx ids) t' active'
          (build_rows-IsPresent services campaign_id c now later uuid uuid' ctx ctx t' ids all))

  -- On a reachable database, an event `campaign.launched` that is delivered again, at another time
  -- and with other random ids, leaves the queue as the first delivery left it, if the other
  -- services answer as they did.
  pub on_campaign_launched_again :
      (t : Dict DialRow) (active active' : List String)
      → let q = (on_campaign_launched pgkv_store services uuid campaign_id now (up t) active).1 in
        (on_campaign_launched pgkv_store services uuid' campaign_id later q active').1 ≡ q
  unfolding on_campaign_launched
  on_campaign_launched_again t active active' =
      relaunch_with (fetch_campaign (services.campaign campaign_id))
        (fetch_limits (services.limits campaign_id))
        (fetch_campaign_leads (services.leads campaign_id)) t active active'
