-- ===== src/Whatsapp/Closed.antt =====
-- internal/service/service.go: without consent nothing is sent.
use lead.Prelude.{
  ◌≡◌, ◌≢◌, refl, ℕ, String, Bool, true, false, not, Option, none, some, List, string_eq, Result,
  ok, err, opted_out, consent_blocked, outside_service_window,
}
use lead.Pgkv.{Action, and_then}
use lead.Pgkv.Post.{Post, Post-and_then, Post-lift, Post-get}
use lead.Whatsapp.Model.{
  Template, Thread, Message, SendTemplateRequest, SendMessageRequest, SendFlowRequest,
  OutreachRequest, Services, validate_category, is_open,
}
use lead.Whatsapp.Durable.{Tables, Accepted, or_missing, is_opted_out, get_template, get_thread}
use lead.Whatsapp.Service.{default_to, lift_result, allowed_or, refused_if, ensure_can_contact}
use lead.Whatsapp.Sending.{
  send_found_template, send_template, send_in_thread, send_message, send_flow,
}

module _ (log : List Accepted) where
  abbrev IsLog : Tables → Type 0
  IsLog q = q.accepted ≡ log

  -- An action that never succeeds, and leaves the accepted calls as they are.
  abbrev Fails {ℓ} : {A : Type ℓ} → Result A × Tables → Type 0
  Fails = Post (λ a q. ⊥) IsLog

  abbrev Quiet {ℓ} : {A : Type ℓ} → Result A × Tables → Type 0
  Quiet = Post (λ a. IsLog) IsLog

  then-Fails {ℓ κ} :
      {A : Type ℓ} {B : Type κ} (x : Result A × Tables) (f : A → Action Tables B)
      → Quiet x
      → ((a : A) (q : Tables) → IsLog q → Fails (f a q))
      → Fails (and_then x f)
  then-Fails (ok a, q) f h next = next a q h
  then-Fails (err e, q) f h next = h

  failed_already {ℓ κ} :
      {A : Type ℓ} {B : Type κ} (x : Result A × Tables) (f : A → Action Tables B)
      → Fails x
      → Fails (and_then x f)
  failed_already (ok a, q) f h = absurd h
  failed_already (err e, q) f h = h

  or_missing-Quiet : {A : Type 0} (o : Option A) (q : Tables) → IsLog q → Quiet (or_missing o q)
  or_missing-Quiet none q h = h
  or_missing-Quiet (some a) q h = h

  lift_result-Quiet : {A : Type 0} (r : Result A) (q : Tables) → IsLog q → Quiet (lift_result r q)
  lift_result-Quiet (ok a) q h = h
  lift_result-Quiet (err e) q h = h

  refused_if-Quiet : (b : Bool) (q : Tables) → IsLog q → Quiet (refused_if opted_out b q)
  refused_if-Quiet true q h = h
  refused_if-Quiet false q h = h

  window-Quiet : (b : Bool) (q : Tables) → IsLog q → Quiet (refused_if outside_service_window b q)
  window-Quiet true q h = h
  window-Quiet false q h = h

  is_opted_out-Quiet :
      (tenant_id lead_id : String) (q : Tables) → IsLog q → Quiet (is_opted_out tenant_id lead_id q)
  unfolding is_opted_out
  is_opted_out-Quiet tenant_id lead_id q h =
      Post-and_then (λ found. IsLog) (λ b. IsLog) IsLog _ _
        (Post-lift (λ found. IsLog) IsLog (λ s. record q { opt_outs = s }) _
          (Post-get _ _ _ q.opt_outs h h))
        λ found r g. g

  get_template-Quiet : (id : String) (q : Tables) → IsLog q → Quiet (get_template id q)
  unfolding get_template
  get_template-Quiet id q h =
      Post-and_then (λ found. IsLog) (λ t. IsLog) IsLog _ _
        (Post-lift (λ found. IsLog) IsLog (λ s. record q { templates = s }) _
          (Post-get _ _ _ q.templates h h))
        or_missing-Quiet

  get_thread-Quiet : (id : String) (q : Tables) → IsLog q → Quiet (get_thread id q)
  unfolding get_thread
  get_thread-Quiet id q h =
      Post-and_then (λ found. IsLog) (λ t. IsLog) IsLog _ _
        (Post-lift (λ found. IsLog) IsLog (λ s. record q { threads = s }) _
          (Post-get _ _ _ q.threads h h))
        or_missing-Quiet

  module _ (new_id : ℕ → String) (now : ℕ) (svc : Services)
      (denied : (r : OutreachRequest) → svc.check_outreach_allowed r ≢ ok true) where
    checked-Fails :
        (r : Result Bool) (q : Tables)
        → r ≢ ok true
        → IsLog q
        → Fails (and_then (lift_result r q) (λ b. allowed_or consent_blocked b))
    checked-Fails (ok true) q not_ok h = not_ok refl
    checked-Fails (ok false) q not_ok h = h
    checked-Fails (err e) q not_ok h = h

    ensure_can_contact-Fails :
        (tenant_id lead_id phone : String) (q : Tables)
        → IsLog q
        → Fails (ensure_can_contact new_id now svc tenant_id lead_id phone q)
    unfolding ensure_can_contact
    ensure_can_contact-Fails tenant_id lead_id phone q h =
        then-Fails _ _ (is_opted_out-Quiet tenant_id lead_id q h) λ out r g.
          then-Fails _ _ (refused_if-Quiet out r g)
            λ u r' g'. checked-Fails (svc.check_outreach_allowed _) r' (denied _) g'

    found_template-Fails :
        (req : SendTemplateRequest) (t : Template) (q : Tables)
        → IsLog q
        → Fails (send_found_template new_id now svc req t q)
    unfolding send_found_template
    found_template-Fails req t q h =
        let tenant_id = default_to t.tenant_id req.tenant_id in
        failed_already _ _ (
          failed_already _ _ (
            failed_already _ _ (
              then-Fails _ _ (lift_result-Quiet (validate_category t.category) q h)
                λ u r g. ensure_can_contact-Fails tenant_id req.lead_id req.phone r g)))

    in_thread-Fails :
        (req : SendMessageRequest) (t : Thread) (q : Tables)
        → IsLog q
        → Fails (send_in_thread new_id now svc req t q)
    unfolding send_in_thread
    in_thread-Fails req t q h =
        let tenant_id = default_to t.tenant_id req.tenant_id in
        failed_already _ _ (
          failed_already _ _ (
            failed_already _ _ (
              then-Fails _ _ (window-Quiet (not (is_open now t.last_inbound_at)) q h)
                λ u r g. ensure_can_contact-Fails tenant_id t.lead_id t.phone r g)))

    send_template-Fails :
        (req : SendTemplateRequest) (q : Tables)
        → IsLog q
        → Fails (send_template new_id now svc req q)
    unfolding send_template
    send_template-Fails req q h =
        then-Fails _ _ (get_template-Quiet req.template_id q h) (found_template-Fails req)

    send_message-Fails :
        (req : SendMessageRequest) (q : Tables)
        → IsLog q
        → Fails (send_message new_id now svc req q)
    unfolding send_message
    send_message-Fails req q h =
        then-Fails _ _ (get_thread-Quiet req.thread_id q h) (in_thread-Fails req)

    send_flow-Fails :
        (req : SendFlowRequest) (q : Tables) → IsLog q → Fails (send_flow new_id now svc req q)
    unfolding send_flow
    send_flow-Fails req q h =
        failed_already _ _
          (failed_already _ _ (ensure_can_contact-Fails req.tenant_id req.lead_id req.phone q h))

-- A request that was refused: an error, and no call more than before.
abbrev pub Refused : Tables → Result Message × Tables → Type 0
Refused q (r, q') = ((m : Message) → r ≢ ok m) × (q'.accepted ≡ q.accepted)

refused : (q : Tables) (x : Result Message × Tables) → Fails q.accepted x → Refused q x
refused q (ok m, q') h = absurd h
refused q (err e, q') h = (λ m same. cc, h)

-- A denial is obeyed: with a consent checker that allows nothing at the time of a request, be it that
-- it denies, that it cannot be reached or that its answer cannot be read, no template, no message and no
-- flow is sent: each of the three requests ends in an error, and Meta accepts no call, whatever else is
-- stored and whichever statements the database fails. The checker that the server is wired with allows
-- everything, so that this is about the other checkers of the code.
pub no_consent_no_call :
    (new_id : ℕ → String) (now : ℕ) (svc : Services)
    → ((r : OutreachRequest) → svc.check_outreach_allowed r ≢ ok true)
    → (q : Tables) (t : SendTemplateRequest) (m : SendMessageRequest) (f : SendFlowRequest)
    → Refused q (send_template new_id now svc t q)
      × Refused q (send_message new_id now svc m q)
      × Refused q (send_flow new_id now svc f q)
no_consent_no_call new_id now svc denied q t m f = (
  refused q (send_template new_id now svc t q)
      (send_template-Fails q.accepted new_id now svc denied t q refl),
  refused q (send_message new_id now svc m q)
      (send_message-Fails q.accepted new_id now svc denied m q refl),
  refused q (send_flow new_id now svc f q)
      (send_flow-Fails q.accepted new_id now svc denied f q refl),
)
