-- ===== src/Whatsapp/Stopped/Checks.antt =====
-- internal/service/service.go: what the checks before a call know of its addressee.
use lead.Prelude.{
  ◌≡◌, ◌≢◌, refl, inl, inr, ap, subst, ℕ, String, Bool, true, false, not, Option, none, some,
  Option-cases, List, ◌∷◌, Dict, lookup, ◌==◌, string_eq, Result, ok, err, Error, opted_out,
  rate_limited, not_found, backend, rejected, malformed, limit_reached, consent_blocked,
  outside_service_window, claim_blocked, invalid_signature, ◌&&◌,
}
use lead.Pgkv.{◌>>=◌}
use lead.Pgkv.Post.{Post, Post-and_then, Post-lift, Post-get}
use lead.Whatsapp.Model.{Thread, Outgoing, Services, WhatsAppOptOut}
use lead.Whatsapp.Durable.{
  Tables, Accepted, opt_out_key, is_there, is_opted_out, get_credential, find_thread_by_lead,
  find_thread_by_phone, save_thread,
}
use lead.Whatsapp.Service.{
  lift_result, attempt, allowed_or, refused_if, claim_answer, new_thread, enqueue_rate_limit_retry,
  deliver, ensure_can_contact, ensure_claim_allowed,
}
use lead.Whatsapp.Sending.{
  adopt_phone, adopt_lead, on_phone_found, thread_by_phone, on_lead_found, thread_for_outbound,
}
use lead.Whatsapp.Stopped.{
  IsSpared, Spared, in_turn, branch, find_thread_by_lead-Spared, find_thread_by_phone-Spared,
  get_credential-Spared, save_thread-Spared, enqueue_retry-Spared,
}

module _ (k : String) (base : List Accepted) where
  pub lift_result-Spared :
      {A : Type 0} (r : Result A) (q : Tables) → IsSpared k base q → Spared k base (lift_result r q)
  lift_result-Spared (ok a) q h = h
  lift_result-Spared (err e) q h = h

  pub attempt-Spared : {A : Type 0} (x : Result A × Tables) → Spared k base x → IsSpared k base x.1
  attempt-Spared (ok a, q) h = h
  attempt-Spared (err e, q) h = h

  allowed_or-Spared :
      (e : Error) (b : Bool) (q : Tables) → IsSpared k base q → Spared k base (allowed_or e b q)
  allowed_or-Spared e true q h = h
  allowed_or-Spared e false q h = h

  pub refused_if-Spared :
      (e : Error) (b : Bool) (q : Tables) → IsSpared k base q → Spared k base (refused_if e b q)
  refused_if-Spared e true q h = h
  refused_if-Spared e false q h = h

  -- That a check has found the addressee not to have opted out.
  abbrev pub IsOther : String → String → Tables → Type 0
  IsOther tenant_id lead_id q = IsSpared k base q × (opt_out_key tenant_id lead_id "whatsapp" ≢ k)

  missing : (found : Option WhatsAppOptOut) → is_there found ≡ false → found ≡ none
  missing none e = refl
  missing (some o) e = cc

  not_opted :
      (j : String) (d : Dict WhatsAppOptOut)
      → lookup k d ≢ none
      → is_there (lookup j d) ≡ false
      → j ≢ k
  not_opted j d there out same =
      there (missing (lookup k d) (subst (λ i. is_there (lookup i d) ≡ false) same out))

  -- A read that says "not opted out" while `k` has opted out was a read of another lead.
  abbrev Answered : String → String → Bool → Tables → Type 0
  Answered tenant_id lead_id out q =
      IsSpared k base q × (out ≡ false → opt_out_key tenant_id lead_id "whatsapp" ≢ k)

  is_opted_out-Answered :
      (tenant_id lead_id : String) (q : Tables)
      → IsSpared k base q
      → Post (Answered tenant_id lead_id) (IsSpared k base) (is_opted_out tenant_id lead_id q)
  unfolding is_opted_out
  is_opted_out-Answered tenant_id lead_id q h =
      let S : Option WhatsAppOptOut → Tables → Type 0 =
        λ found r. Answered tenant_id lead_id (is_there found) r in
      Post-and_then S (Answered tenant_id lead_id) (IsSpared k base) _ _
        (Post-lift S (IsSpared k base) (λ s. record q { opt_outs = s }) _
          (Post-get _ _ _ q.opt_outs h (h, not_opted _ q.opt_outs.table h.0)))
        λ found r g. g

  refused_if-IsOther :
      (tenant_id lead_id : String) (out : Bool) (q : Tables)
      → Answered tenant_id lead_id out q
      → Post (λ u. IsOther tenant_id lead_id) (IsSpared k base) (refused_if opted_out out q)
  refused_if-IsOther tenant_id lead_id true q (h, other) = h
  refused_if-IsOther tenant_id lead_id false q (h, other) = (h, other refl)

  lift-IsOther :
      {A : Type 0} (tenant_id lead_id : String) (r : Result A) (q : Tables)
      → IsOther tenant_id lead_id q
      → Post (λ a. IsOther tenant_id lead_id) (IsSpared k base) (lift_result r q)
  lift-IsOther tenant_id lead_id (ok a) q h = h
  lift-IsOther tenant_id lead_id (err e) q h = h.0

  allowed_or-IsOther :
      (tenant_id lead_id : String) (e : Error) (b : Bool) (q : Tables)
      → IsOther tenant_id lead_id q
      → Post (λ u. IsOther tenant_id lead_id) (IsSpared k base) (allowed_or e b q)
  allowed_or-IsOther tenant_id lead_id e true q h = h
  allowed_or-IsOther tenant_id lead_id e false q h = h.0

  module _ (new_id : ℕ → String) (now : ℕ) where
    pub enqueue-Spared :
        (tenant_id operation : String) (payload : Dict String) (e : Error) (q : Tables)
        → IsSpared k base q
        → Spared k base (enqueue_rate_limit_retry new_id now tenant_id operation payload e q)
    unfolding enqueue_rate_limit_retry
    enqueue-Spared tenant_id operation payload (rate_limited delay) q h =
        attempt-Spared _ (enqueue_retry-Spared k base new_id now q h _)
    enqueue-Spared tenant_id operation payload not_found q h = h
    enqueue-Spared tenant_id operation payload backend q h = h
    enqueue-Spared tenant_id operation payload rejected q h = h
    enqueue-Spared tenant_id operation payload malformed q h = h
    enqueue-Spared tenant_id operation payload limit_reached q h = h
    enqueue-Spared tenant_id operation payload opted_out q h = h
    enqueue-Spared tenant_id operation payload consent_blocked q h = h
    enqueue-Spared tenant_id operation payload outside_service_window q h = h
    enqueue-Spared tenant_id operation payload claim_blocked q h = h
    enqueue-Spared tenant_id operation payload invalid_signature q h = h

    -- A call is accepted for another than `k`.
    pub deliver-Spared :
        (tenant_id operation : String) (payload : Dict String) (lead_id phone : String)
        (call : Outgoing) (answer : Result String) (q : Tables)
        → IsOther tenant_id lead_id q
        → Spared k base (deliver new_id now tenant_id operation payload lead_id phone call answer q)
    unfolding deliver
    deliver-Spared tenant_id operation payload lead_id phone call (err e) q (h, other) =
        in_turn k base _ _ (enqueue-Spared tenant_id operation payload e q h) λ u r g. g
    deliver-Spared tenant_id operation payload lead_id phone call (ok id) q
          ((there, (calls, log, spared)), other) =
        let c : Accepted = record {
          tenant_id = tenant_id;
          lead_id = lead_id;
          phone = phone;
          call = call;
        } in
        (there, (c ∷ calls, ap (λ l. c ∷ l) log, (other, spared)))

    adopt_phone-Spared :
        (phone : String) (t : Thread) (q : Tables)
        → IsSpared k base q
        → Spared k base (adopt_phone new_id now phone t q)
    adopt_phone-Spared phone t q h =
        branch k base (not (phone == "") && t.phone == "") (save_thread new_id now _)
          (λ r. (ok t, r)) q (save_thread-Spared k base new_id now q h (record t { phone = phone }))
          h

    adopt_lead-Spared :
        (lead_id : String) (t : Thread) (q : Tables)
        → IsSpared k base q
        → Spared k base (adopt_lead new_id now lead_id t q)
    adopt_lead-Spared lead_id t q h =
        branch k base (not (lead_id == "") && t.lead_id == "") (save_thread new_id now _)
          (λ r. (ok t, r)) q
          (save_thread-Spared k base new_id now q h (record t { lead_id = lead_id })) h

    module _ (tenant_id lead_id phone : String) where
      on_phone_found-Spared :
          (r : Result Thread) (q : Tables)
          → IsSpared k base q
          → Spared k base (on_phone_found new_id now tenant_id lead_id phone r q)
      on_phone_found-Spared (ok t) q h = adopt_lead-Spared lead_id t q h
      on_phone_found-Spared (err e) q h =
          save_thread-Spared k base new_id now q h (new_thread tenant_id lead_id phone now)

      looked_up-Spared :
          (q : Tables)
          → IsSpared k base q
          → Spared k base (
              (attempt (find_thread_by_phone tenant_id phone)
                  >>= on_phone_found new_id now tenant_id lead_id phone)
                q)
      looked_up-Spared q h =
          on_phone_found-Spared _ _
            (attempt-Spared _ (find_thread_by_phone-Spared k base q h tenant_id phone))

      thread_by_phone-Spared :
          (q : Tables)
          → IsSpared k base q
          → Spared k base (thread_by_phone new_id now tenant_id lead_id phone q)
      unfolding thread_by_phone
      thread_by_phone-Spared q h =
          branch k base (phone == "")
            (save_thread new_id now (new_thread tenant_id lead_id phone now))
            (attempt (find_thread_by_phone tenant_id phone)
              >>= on_phone_found new_id now tenant_id lead_id phone)
            q (save_thread-Spared k base new_id now q h (new_thread tenant_id lead_id phone now))
            (looked_up-Spared q h)

      on_lead_found-Spared :
          (r : Result Thread) (q : Tables)
          → IsSpared k base q
          → Spared k base (on_lead_found new_id now tenant_id lead_id phone r q)
      on_lead_found-Spared (ok t) q h = adopt_phone-Spared phone t q h
      on_lead_found-Spared (err e) q h = thread_by_phone-Spared q h

      pub thread_for_outbound-Spared :
          (q : Tables)
          → IsSpared k base q
          → Spared k base (thread_for_outbound new_id now tenant_id lead_id phone q)
      unfolding thread_for_outbound
      thread_for_outbound-Spared q h =
          branch k base (lead_id == "") (thread_by_phone new_id now tenant_id lead_id phone)
            (attempt (find_thread_by_lead tenant_id lead_id)
              >>= on_lead_found new_id now tenant_id lead_id phone)
            q (thread_by_phone-Spared q h)
            (on_lead_found-Spared _ _
              (attempt-Spared _ (find_thread_by_lead-Spared k base q h tenant_id lead_id)))

    module _ (svc : Services) where
      pub ensure_can_contact-IsOther :
          (tenant_id lead_id phone : String) (q : Tables)
          → IsSpared k base q
          → Post
              (λ u. IsOther tenant_id lead_id)
              (IsSpared k base)
              (ensure_can_contact new_id now svc tenant_id lead_id phone q)
      unfolding ensure_can_contact
      ensure_can_contact-IsOther tenant_id lead_id phone q h =
          let other = IsOther tenant_id lead_id in
          Post-and_then (Answered tenant_id lead_id) (λ u. other) (IsSpared k base) _ _
            (is_opted_out-Answered tenant_id lead_id q h)
            λ out r g.
              Post-and_then (λ u. other) (λ u. other) (IsSpared k base) _ _
                (refused_if-IsOther tenant_id lead_id out r g)
                λ u r' g'.
                  Post-and_then (λ u. other) (λ u. other) (IsSpared k base) _ _
                    (lift-IsOther tenant_id lead_id _ r' g')
                    λ b r'' g''. allowed_or-IsOther tenant_id lead_id consent_blocked b r'' g''

      claim_answer-IsOther :
          (tenant_id lead_id : String) (r : Result Bool) (q : Tables)
          → IsOther tenant_id lead_id q
          → Post (λ u. IsOther tenant_id lead_id) (IsSpared k base) (claim_answer r q)
      claim_answer-IsOther tenant_id lead_id (ok b) q h =
          allowed_or-IsOther tenant_id lead_id claim_blocked b q h
      claim_answer-IsOther tenant_id lead_id (err e) q h = h.0

      pub ensure_claim_allowed-IsOther :
          (tenant_id project_id lead_id text : String) (q : Tables)
          → IsOther tenant_id lead_id q
          → Post
              (λ u. IsOther tenant_id lead_id)
              (IsSpared k base)
              (ensure_claim_allowed new_id now svc tenant_id project_id lead_id text q)
      unfolding ensure_claim_allowed
      ensure_claim_allowed-IsOther tenant_id project_id lead_id text q h =
          elim (Option-cases svc.claims) [
            | inl e ↦ rw e h
            | inr (check, e) ↦ rw e (claim_answer-IsOther tenant_id lead_id _ q h)
          ]

  pub get_credential-IsOther :
      (tenant_id lead_id : String) (q : Tables)
      → IsOther tenant_id lead_id q
      → Post (λ c. IsOther tenant_id lead_id) (IsSpared k base) (get_credential tenant_id q)
  get_credential-IsOther tenant_id lead_id q (h, other) =
      with_other _ (get_credential-Spared k base q h tenant_id)
    where
      with_other :
          {A : Type 0} (x : Result A × Tables)
          → Spared k base x
          → Post (λ c. IsOther tenant_id lead_id) (IsSpared k base) x
      with_other (ok c, r) g = (g, other)
      with_other (err e, r) g = g
