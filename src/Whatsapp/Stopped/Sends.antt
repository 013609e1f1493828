-- ===== src/Whatsapp/Stopped/Sends.antt =====
-- internal/service/service.go: no call goes to a lead who has opted out.
use lead.Prelude.{ℕ, String, not, List, string_eq, outside_service_window}
use lead.Pgkv.Post.{Post-and_then}
use lead.Whatsapp.Model.{
  Template, Thread, SendTemplateRequest, SendMessageRequest, SendFlowRequest, Services,
  validate_category, template_cost, is_open,
}
use lead.Whatsapp.Durable.{Tables, Accepted}
use lead.Whatsapp.Service.{default_to}
use lead.Whatsapp.Sending.{
  template_message, keep_template, send_found_template, send_template, text_message, send_in_thread,
  send_message, flow_message, send_flow,
}
use lead.Whatsapp.Stopped.{
  IsSpared, Spared, in_turn, get_template-Spared, get_thread-Spared, save_message-Spared,
  add_usage_event-Spared,
}
use lead.Whatsapp.Stopped.Checks.{
  IsOther, refused_if-Spared, lift_result-Spared, deliver-Spared, thread_for_outbound-Spared,
  ensure_can_contact-IsOther, ensure_claim_allowed-IsOther, get_credential-IsOther,
}

module _ (k : String) (base : List Accepted) (new_id : ℕ → String) (now : ℕ) (svc : Services) where
  keep_template-Spared :
      (req : SendTemplateRequest) (tenant_id : String) (t : Template) (id : String) (q : Tables)
      → IsSpared k base q
      → Spared k base (keep_template new_id now svc req tenant_id t id q)
  unfolding keep_template
  keep_template-Spared req tenant_id t id q h =
      in_turn k base _ _
        (thread_for_outbound-Spared k base new_id now tenant_id req.lead_id req.phone q h)
        λ thread r g.
          in_turn k base _ _
            (save_message-Spared k base new_id now r g
              (template_message new_id now svc req tenant_id t thread id))
            λ msg r' g'.
              in_turn k base _ _ (lift_result-Spared k base (template_cost t.category) r' g')
                λ cost r'' g''.
                  in_turn k base _ _ (add_usage_event-Spared k base new_id now r'' g'' _)
                    λ usage s f. f

  send_found_template-Spared :
      (req : SendTemplateRequest) (t : Template) (q : Tables)
      → IsSpared k base q
      → Spared k base (send_found_template new_id now svc req t q)
  unfolding send_found_template
  send_found_template-Spared req t q h =
      let tenant_id = default_to t.tenant_id req.tenant_id in
      let other = IsOther k base tenant_id req.lead_id in
      Post-and_then (λ c. other) (λ m. IsSpared k base) (IsSpared k base) _ _
        (Post-and_then (λ u. other) (λ c. other) (IsSpared k base) _ _
          (Post-and_then (λ u. other) (λ u. other) (IsSpared k base) _ _
            (Post-and_then (λ u. IsSpared k base) (λ u. other) (IsSpared k base) _ _
              (lift_result-Spared k base (validate_category t.category) q h)
              λ u r g.
                ensure_can_contact-IsOther k base new_id now svc tenant_id req.lead_id req.phone r
                  g)
            λ u r g.
              ensure_claim_allowed-IsOther k base new_id now svc tenant_id req.project_id
                req.lead_id t.body r g)
          λ u r g. get_credential-IsOther k base tenant_id req.lead_id r g)
        λ cred r g.
          in_turn k base _ _
            (deliver-Spared k base new_id now tenant_id _ _ req.lead_id req.phone _ _ r g)
            λ id r' g'. keep_template-Spared req tenant_id t id r' g'

  pub send_template-Spared :
      (req : SendTemplateRequest) (q : Tables)
      → IsSpared k base q
      → Spared k base (send_template new_id now svc req q)
  unfolding send_template
  send_template-Spared req q h =
      in_turn k base _ _ (get_template-Spared k base q h req.template_id)
        λ t r g. send_found_template-Spared req t r g

  send_in_thread-Spared :
      (req : SendMessageRequest) (thread : Thread) (q : Tables)
      → IsSpared k base q
      → Spared k base (send_in_thread new_id now svc req thread q)
  unfolding send_in_thread
  send_in_thread-Spared req thread q h =
      let tenant_id = default_to thread.tenant_id req.tenant_id in
      let other = IsOther k base tenant_id thread.lead_id in
      Post-and_then (λ c. other) (λ m. IsSpared k base) (IsSpared k base) _ _
        (Post-and_then (λ u. other) (λ c. other) (IsSpared k base) _ _
          (Post-and_then (λ u. other) (λ u. other) (IsSpared k base) _ _
            (Post-and_then (λ u. IsSpared k base) (λ u. other) (IsSpared k base) _ _
              (refused_if-Spared k base outside_service_window
                (not (is_open now thread.last_inbound_at)) q h)
              λ u r g.
                ensure_can_contact-IsOther k base new_id now svc tenant_id thread.lead_id
                  thread.phone r g)
            λ u r g.
              ensure_claim_allowed-IsOther k base new_id now svc tenant_id req.project_id
                thread.lead_id req.body r g)
          λ u r g. get_credential-IsOther k base tenant_id thread.lead_id r g)
        λ cred r g.
          in_turn k base _ _
            (deliver-Spared k base new_id now tenant_id _ _ thread.lead_id thread.phone _ _ r g)
            λ id r' g'.
              save_message-Spared k base new_id now r' g'
                (text_message new_id now svc req tenant_id thread id)

  pub send_message-Spared :
      (req : SendMessageRequest) (q : Tables)
      → IsSpared k base q
      → Spared k base (send_message new_id now svc req q)
  unfolding send_message
  send_message-Spared req q h =
      in_turn k base _ _ (get_thread-Spared k base q h req.thread_id)
        λ t r g. send_in_thread-Spared req t r g

  pub send_flow-Spared :
      (req : SendFlowRequest) (q : Tables)
      → IsSpared k base q
      → Spared k base (send_flow new_id now svc req q)
  unfolding send_flow
  send_flow-Spared req q h =
      let other = IsOther k base req.tenant_id req.lead_id in
      Post-and_then (λ c. other) (λ m. IsSpared k base) (IsSpared k base) _ _
        (Post-and_then (λ u. other) (λ c. other) (IsSpared k base) _ _
          (ensure_can_contact-IsOther k base new_id now svc req.tenant_id req.lead_id req.phone q h)
          λ u r g. get_credential-IsOther k base req.tenant_id req.lead_id r g)
        λ cred r g.
          in_turn k base _ _
            (deliver-Spared k base new_id now req.tenant_id _ _ req.lead_id req.phone _ _ r g)
            λ id r' g'.
              in_turn k base _ _
                (thread_for_outbound-Spared k base new_id now req.tenant_id req.lead_id req.phone r'
                  g')
                λ thread r'' g''.
                  save_message-Spared k base new_id now r'' g''
                    (flow_message new_id now svc req thread id)
