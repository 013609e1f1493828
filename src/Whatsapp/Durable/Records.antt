-- ===== src/Whatsapp/Durable/Records.antt =====
-- internal/store/postgres.go, `filterTenant`: the lists that a tenant reads.
use lead.Prelude.{String, List, keep}
use lead.Pgkv.{Action, ◌>>=◌, pure, list}
use lead.Whatsapp.Model.{WhatsAppOptOut, ConsentLedgerEntry, OutboxEvent, UsageEvent, RetryTask}
use lead.Whatsapp.Durable.{
  Tables, on_opt_outs, on_ledger, on_outbox, on_usage, on_retries, of_tenant,
}

-- `ListOptOuts`
unfoldable pub list_opt_outs : String → Action Tables (List WhatsAppOptOut)
list_opt_outs tenant_id = do
  items ← on_opt_outs list
  pure (keep (λ (o : WhatsAppOptOut). of_tenant tenant_id o.tenant_id) items)

-- `ListConsentLedger`
unfoldable pub list_consent_ledger : String → Action Tables (List ConsentLedgerEntry)
list_consent_ledger tenant_id = do
  items ← on_ledger list
  pure (keep (λ (e : ConsentLedgerEntry). of_tenant tenant_id e.tenant_id) items)

-- `ListOutboxEvents`
unfoldable pub list_outbox_events : String → Action Tables (List OutboxEvent)
list_outbox_events tenant_id = do
  items ← on_outbox list
  pure (keep (λ (e : OutboxEvent). of_tenant tenant_id e.tenant_id) items)

-- `ListUsageEvents`
unfoldable pub list_usage_events : String → Action Tables (List UsageEvent)
list_usage_events tenant_id = do
  items ← on_usage list
  pure (keep (λ (e : UsageEvent). of_tenant tenant_id e.tenant_id) items)

-- `ListRetryTasks`
unfoldable pub list_retry_tasks : String → Action Tables (List RetryTask)
list_retry_tasks tenant_id = do
  items ← on_retries list
  pure (keep (λ (t : RetryTask). of_tenant tenant_id t.tenant_id) items)
