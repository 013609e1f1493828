-- ===== src/Whatsapp.antt =====
-- services/whatsapp-adapter: templates, conversations and opt-outs over WhatsApp.
pub mod Model
pub mod Durable
pub mod Webhook
pub mod Service
pub mod Sending
pub mod Inbound
pub mod Closed
pub mod Stopped
pub mod Redelivered
pub mod Tests
