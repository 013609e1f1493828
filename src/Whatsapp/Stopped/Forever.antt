-- ===== src/Whatsapp/Stopped/Forever.antt =====
-- internal/service/service.go: the operations of the adapter, in any order.
use lead.Prelude.{◌≢◌, refl, ℕ, String, Option, none, List, [], ◌∷◌, lookup}
use lead.Pgkv.Post.{Post-state}
use lead.Whatsapp.Model.{
  Template, VaultCredential, SendTemplateRequest, SendMessageRequest, SendFlowRequest, Services,
}
use lead.Whatsapp.Durable.{Tables, Accepted, opt_out_key, upsert_credential}
use lead.Whatsapp.Webhook.{NormalizedEvent}
use lead.Whatsapp.Service.{register_template, seed_prebuilt_templates, sync_templates}
use lead.Whatsapp.Sending.{send_template, send_message, send_flow}
use lead.Whatsapp.Inbound.{process_webhook}
use lead.Whatsapp.Stopped.{SparedSince, IsSpared, upsert_credential-Spared}
use lead.Whatsapp.Stopped.Sends.{send_template-Spared, send_message-Spared, send_flow-Spared}
use lead.Whatsapp.Stopped.Events.{
  process_webhook-Spared, register_template-Spared, seed_prebuilt_templates-Spared,
  sync_templates-Spared,
}

-- What the adapter is asked. A webhook comes with the events that `Normalize` makes of its body.
pub data Request : Type 0 where
  template : SendTemplateRequest → Request
  message : SendMessageRequest → Request
  flow : SendFlowRequest → Request
  webhook : String → String → String → Option (List NormalizedEvent) → Request
  register : Template → Request
  seed : String → Request
  sync : String → Request
  credential : VaultCredential → Request

module _ (new_id : ℕ → String) where
  -- The tables after a request, at a time and with the answers of the services at that time.
  abbrev pub serve : Request × ℕ × Services → Tables → Tables
  serve (template req, now, svc) q = (send_template new_id now svc req q).1
  serve (message req, now, svc) q = (send_message new_id now svc req q).1
  serve (flow req, now, svc) q = (send_flow new_id now svc req q).1
  serve (webhook tenant_id body header es, now, svc) q =
      (process_webhook new_id now svc tenant_id body header es q).1
  serve (register t, now, svc) q = (register_template new_id now t q).1
  serve (seed tenant_id, now, svc) q = (seed_prebuilt_templates new_id now tenant_id q).1
  serve (sync tenant_id, now, svc) q = (sync_templates new_id now svc tenant_id q).1
  serve (credential cred, now, svc) q = (upsert_credential now cred q).1

  abbrev pub serve_all : List (Request × ℕ × Services) → Tables → Tables
  serve_all [] q = q
  serve_all (r ∷ rs) q = serve_all rs (serve r q)

  module _ (k : String) (base : List Accepted) where
    serve-Spared :
        (r : Request × ℕ × Services) (q : Tables) → IsSpared k base q → IsSpared k base (serve r q)
    serve-Spared (template req, now, svc) q h =
        Post-state (IsSpared k base) _ (send_template-Spared k base new_id now svc req q h)
    serve-Spared (message req, now, svc) q h =
        Post-state (IsSpared k base) _ (send_message-Spared k base new_id now svc req q h)
    serve-Spared (flow req, now, svc) q h =
        Post-state (IsSpared k base) _ (send_flow-Spared k base new_id now svc req q h)
    serve-Spared (webhook tenant_id body header es, now, svc) q h =
        Post-state (IsSpared k base) _
          (process_webhook-Spared k base new_id now svc tenant_id body header es q h)
    serve-Spared (register t, now, svc) q h =
        Post-state (IsSpared k base) _ (register_template-Spared k base new_id now t q h)
    serve-Spared (seed tenant_id, now, svc) q h =
        Post-state (IsSpared k base) _
          (seed_prebuilt_templates-Spared k base new_id now tenant_id q h)
    serve-Spared (sync tenant_id, now, svc) q h =
        Post-state (IsSpared k base) _ (sync_templates-Spared k base new_id now svc tenant_id q h)
    serve-Spared (credential cred, now, svc) q h =
        Post-state (IsSpared k base) _ (upsert_credential-Spared k base q h now cred)

    serve_all-Spared :
        (rs : List (Request × ℕ × Services)) (q : Tables)
        → IsSpared k base q
        → IsSpared k base (serve_all rs q)
    serve_all-Spared [] q h = h
    serve_all-Spared (r ∷ rs) q h = serve_all-Spared rs (serve r q) (serve-Spared r q h)

  -- Once the list holds an opt-out of a lead of a tenant, then whatever requests and webhooks come, in
  -- whatever order, whatever the consent service, claim control and Meta answer, and whichever
  -- statements the database fails: the opt-out stays, and of the calls that Meta accepts from then on
  -- none is for that lead of that tenant.
  pub opted_out_forever :
      (tenant_id lead_id : String) (rs : List (Request × ℕ × Services)) (q : Tables)
      → lookup (opt_out_key tenant_id lead_id "whatsapp") q.opt_outs.table ≢ none
      → let q' = serve_all rs q in
        let k = opt_out_key tenant_id lead_id "whatsapp" in
        (lookup k q'.opt_outs.table ≢ none) × (SparedSince k q.accepted q'.accepted)
  opted_out_forever tenant_id lead_id rs q there =
      serve_all-Spared (opt_out_key tenant_id lead_id "whatsapp") q.accepted rs q
        (there, ([], refl, tt))
