-- ===== src/Whatsapp/Sending.antt =====
-- internal/service/service.go: `SendTemplate`, `SendMessage` and `SendFlow`.
use lead.Prelude.{
  ℕ, String, ◌&&◌, not, some, [], ◌∷◌, Result, ok, err, outside_service_window, if◌then◌else◌, ◌==◌,
  string_eq,
}
use lead.Pgkv.{Action, ◌>>=◌, ◌>>◌, pure}
use lead.Whatsapp.Model.{
  Template, Thread, Message, SendTemplateRequest, SendMessageRequest, SendFlowRequest,
  template_call, text_call, flow_call, Services, MessageKind, validate_category, template_cost,
  is_open,
}
use lead.Whatsapp.Durable.{
  Tables, get_template, get_thread, find_thread_by_lead, find_thread_by_phone, get_credential,
  save_thread, save_message, add_usage_event,
}
use lead.Whatsapp.Service.{
  default_to, lift_result, attempt, refused_if, client_for_tenant, no_message, new_thread,
  ensure_can_contact, ensure_claim_allowed, deliver,
}

module _ (new_id : ℕ → String) (now : ℕ) where
  abbrev pub adopt_phone : String → Thread → Action Tables Thread
  adopt_phone phone t =
      if not (phone == "") && t.phone == ""
      then save_thread new_id now (record t { phone = phone })
      else pure t

  abbrev pub adopt_lead : String → Thread → Action Tables Thread
  adopt_lead lead_id t =
      if not (lead_id == "") && t.lead_id == ""
      then save_thread new_id now (record t { lead_id = lead_id })
      else pure t

  abbrev pub on_phone_found : String → String → String → Result Thread → Action Tables Thread
  on_phone_found tenant_id lead_id phone (ok t) = adopt_lead lead_id t
  on_phone_found tenant_id lead_id phone (err e) =
      save_thread new_id now (new_thread tenant_id lead_id phone now)

  unfoldable pub thread_by_phone : String → String → String → Action Tables Thread
  thread_by_phone tenant_id lead_id phone =
      if phone == ""
      then save_thread new_id now (new_thread tenant_id lead_id phone now)
      else attempt (find_thread_by_phone tenant_id phone) >>= on_phone_found tenant_id lead_id phone

  abbrev pub on_lead_found : String → String → String → Result Thread → Action Tables Thread
  on_lead_found tenant_id lead_id phone (ok t) = adopt_phone phone t
  on_lead_found tenant_id lead_id phone (err e) = thread_by_phone tenant_id lead_id phone

  -- `threadForOutbound`: an error of a read counts as a thread that is not there.
  unfoldable pub thread_for_outbound : String → String → String → Action Tables Thread
  thread_for_outbound tenant_id lead_id phone =
      if lead_id == ""
      then thread_by_phone tenant_id lead_id phone
      else attempt (find_thread_by_lead tenant_id lead_id) >>= on_lead_found tenant_id lead_id phone

  module _ (svc : Services) where
    abbrev pub template_message :
        SendTemplateRequest → String → Template → Thread → String → Message
    template_message req tenant_id t thread message_id = record no_message {
      tenant_id = tenant_id;
      thread_id = thread.id;
      lead_id = req.lead_id;
      phone = req.phone;
      kind = MessageKind.template;
      body = t.body;
      template_id = t.id;
      meta_message_id = message_id;
      created_at = some now;
    }

    -- What follows an accepted template: its thread, its message and its cost.
    unfoldable pub keep_template :
        SendTemplateRequest → String → Template → String → Action Tables Message
    keep_template req tenant_id t message_id = do
      thread ← thread_for_outbound tenant_id req.lead_id req.phone
      msg ← save_message new_id now (template_message req tenant_id t thread message_id)
      unit_cost ← lift_result (template_cost t.category)
      usage ← add_usage_event new_id now (record {
        id = "";
        tenant_id = tenant_id;
        lead_id = req.lead_id;
        message_id = msg.id;
        event_type = "whatsapp_template_message";
        quantity = 1;
        unit_cost = unit_cost;
        total_cost = unit_cost;
        created_at = some now;
      })
      pure msg

    unfoldable pub send_found_template : SendTemplateRequest → Template → Action Tables Message
    send_found_template req t =
        let tenant_id = default_to t.tenant_id req.tenant_id in
        let language = default_to t.language req.language in
        let call = template_call req.phone t.meta_name language req.variables in
        lift_result (validate_category t.category)
        >> ensure_can_contact new_id now svc tenant_id req.lead_id req.phone
        >> ensure_claim_allowed new_id now svc tenant_id req.project_id req.lead_id t.body
        >> get_credential tenant_id
        >>= λ cred.
            deliver new_id now tenant_id "send_template"
              (("lead_id", req.lead_id) ∷ ("template_id", req.template_id) ∷ []) req.lead_id
              req.phone call ((client_for_tenant svc tenant_id).send cred call)
            >>= keep_template req tenant_id t

    -- `SendTemplate`
    unfoldable pub send_template : SendTemplateRequest → Action Tables Message
    send_template req = get_template req.template_id >>= send_found_template req

    abbrev pub text_message : SendMessageRequest → String → Thread → String → Message
    text_message req tenant_id thread message_id = record no_message {
      tenant_id = tenant_id;
      thread_id = thread.id;
      lead_id = thread.lead_id;
      phone = thread.phone;
      kind = MessageKind.text;
      body = req.body;
      attachments = req.attachments;
      meta_message_id = message_id;
      created_at = some now;
    }

    unfoldable pub send_in_thread : SendMessageRequest → Thread → Action Tables Message
    send_in_thread req thread =
        let tenant_id = default_to thread.tenant_id req.tenant_id in
        let call = text_call thread.phone req.body in
        refused_if outside_service_window (not (is_open now thread.last_inbound_at))
        >> ensure_can_contact new_id now svc tenant_id thread.lead_id thread.phone
        >> ensure_claim_allowed new_id now svc tenant_id req.project_id thread.lead_id req.body
        >> get_credential tenant_id
        >>= λ cred.
            deliver new_id now tenant_id "send_message" (("thread_id", req.thread_id) ∷ [])
              thread.lead_id thread.phone call ((client_for_tenant svc tenant_id).send cred call)
            >>= λ message_id. save_message new_id now (text_message req tenant_id thread message_id)

    -- `SendMessage`
    unfoldable pub send_message : SendMessageRequest → Action Tables Message
    send_message req = get_thread req.thread_id >>= send_in_thread req

    abbrev pub flow_message : SendFlowRequest → Thread → String → Message
    flow_message req thread message_id = record no_message {
      tenant_id = req.tenant_id;
      thread_id = thread.id;
      lead_id = req.lead_id;
      phone = req.phone;
      kind = MessageKind.flow;
      flow_id = req.flow_id;
      meta_message_id = message_id;
      created_at = some now;
    }

    -- `SendFlow`
    unfoldable pub send_flow : SendFlowRequest → Action Tables Message
    send_flow req =
        let call = flow_call req.phone req.flow_id req.payload in
        ensure_can_contact new_id now svc req.tenant_id req.lead_id req.phone
        >> get_credential req.tenant_id
        >>= λ cred.
            deliver new_id now req.tenant_id "send_flow"
              (("lead_id", req.lead_id) ∷ ("flow_id", req.flow_id) ∷ []) req.lead_id req.phone call
              ((client_for_tenant svc req.tenant_id).send cred call)
            >>= λ message_id. thread_for_outbound req.tenant_id req.lead_id req.phone >>= λ thread.
                save_message new_id now (flow_message req thread message_id)
