-- ===== src/Whatsapp/Webhook.antt =====
-- internal/webhook/webhook.go: the events of a webhook's body in one form.
use lead.Prelude.{
  ℕ, suc, ◌%◌, String, Bool, ◌||◌, ◌&&◌, not, Option, none, some, List, [], ◌∷◌, ◌++◌, ◌^^◌,
  if◌then◌else◌, ◌==◌, string_eq,
}

-- The type of an event is any text; these are the ones that the code names.
abbrev pub reply : String
reply = "reply"

abbrev pub opt_out : String
opt_out = "opt_out"

abbrev pub delivery : String
delivery = "delivery"

abbrev pub read_event : String
read_event = "read"

pub record NormalizedEvent : Type 0 where
  pub id : String
  pub type : String
  pub tenant_id : String
  pub lead_id : String
  pub phone : String
  pub body : String
  pub message_id : String
  pub status : String
  pub timestamp : Option ℕ

pub record RawEvent : Type 0 where
  pub id : String
  pub type : String
  pub tenant_id : String
  pub lead_id : String
  pub phone : String
  pub body : String
  pub message_id : String
  pub status : String
  pub timestamp : String

pub record RawMessage : Type 0 where
  pub id : String
  pub from : String
  pub text : String
  pub timestamp : String

pub record RawStatus : Type 0 where
  pub id : String
  pub status : String
  pub recipient_id : String
  pub timestamp : String

pub record Change : Type 0 where
  pub messages : List RawMessage
  pub statuses : List RawStatus

pub record Payload : Type 0 where
  pub tenant_id : String
  pub lead_id : String
  pub events : List RawEvent
  pub entry : List (List Change)

-- What the code calls of `strings`, `time` and `crypto/sha256`: a text in lower case without the
-- characters " \t\r\n.!?" around it, a time as RFC 3339 writes it, and the hash of a body with a byte
-- behind it or with none.
pub record Texts : Type 0 where
  pub trimmed_lower : String → String
  pub parse_rfc3339 : String → Option ℕ
  pub sum : String → Option ℕ → String

-- `first`, of two values.
abbrev pub first : String → String → String
first a b = if a == "" then b else a

module _ (x : Texts) where
  -- `IsOptOutBody`
  unfoldable pub is_opt_out_body : String → Bool
  is_opt_out_body body =
      let n = x.trimmed_lower body in
      n == "stop" || (n == "unsubscribe" || (n == "opt out" || n == "opt-out"))

  -- `parseTimestamp`
  unfoldable pub parse_timestamp : String → Option ℕ
  parse_timestamp value = if value == "" then none else x.parse_rfc3339 value

  abbrev pub typed_by_status : RawEvent → String
  typed_by_status e =
      if e.type == "" && not (e.status == "")
      then (if e.status == "read" then read_event else delivery)
      else e.type

  abbrev pub event_type : RawEvent → String
  event_type e =
      let type = typed_by_status e in
      if type == reply && is_opt_out_body e.body then opt_out else type

  unfoldable pub from_event : Payload → RawEvent → NormalizedEvent
  unfolding is_opt_out_body parse_timestamp
  from_event p e = record {
    id = e.id;
    type = event_type e;
    tenant_id = first e.tenant_id p.tenant_id;
    lead_id = first e.lead_id p.lead_id;
    phone = e.phone;
    body = e.body;
    message_id = e.message_id;
    status = e.status;
    timestamp = parse_timestamp e.timestamp;
  }

  unfoldable pub from_message : Payload → RawMessage → NormalizedEvent
  unfolding is_opt_out_body parse_timestamp
  from_message p m = record {
    id = m.id;
    type = if is_opt_out_body m.text then opt_out else reply;
    tenant_id = p.tenant_id;
    lead_id = p.lead_id;
    phone = m.from;
    body = m.text;
    message_id = m.id;
    status = "";
    timestamp = parse_timestamp m.timestamp;
  }

  unfoldable pub from_status : Payload → RawStatus → NormalizedEvent
  unfolding parse_timestamp
  from_status p s = record {
    id = s.id ^^ (":" ^^ s.status);
    type = if s.status == "read" then read_event else delivery;
    tenant_id = p.tenant_id;
    lead_id = p.lead_id;
    phone = s.recipient_id;
    body = "";
    message_id = s.id;
    status = s.status;
    timestamp = parse_timestamp s.timestamp;
  }

  unfoldable pub from_events : Payload → List RawEvent → List NormalizedEvent
  unfolding from_event
  from_events p [] = []
  from_events p (e ∷ es) = from_event p e ∷ from_events p es

  unfoldable pub from_messages : Payload → List RawMessage → List NormalizedEvent
  unfolding from_message
  from_messages p [] = []
  from_messages p (m ∷ ms) = from_message p m ∷ from_messages p ms

  unfoldable pub from_statuses : Payload → List RawStatus → List NormalizedEvent
  unfolding from_status
  from_statuses p [] = []
  from_statuses p (s ∷ ss) = from_status p s ∷ from_statuses p ss

  unfoldable pub from_changes : Payload → List Change → List NormalizedEvent
  unfolding from_messages from_statuses
  from_changes p [] = []
  from_changes p (c ∷ cs) =
      from_messages p c.messages ++ (from_statuses p c.statuses ++ from_changes p cs)

  unfoldable pub from_entries : Payload → List (List Change) → List NormalizedEvent
  unfolding from_changes
  from_entries p [] = []
  from_entries p (cs ∷ es) = from_changes p cs ++ from_entries p es

  -- A body without events counts as one delivery under the body's hash.
  abbrev pub or_whole : String → ℕ → Payload → List NormalizedEvent → List NormalizedEvent
  or_whole body now p (e ∷ es) = e ∷ es
  or_whole body now p [] =
      record {
        id = x.sum body none;
        type = delivery;
        tenant_id = p.tenant_id;
        lead_id = p.lead_id;
        phone = "";
        body = "";
        message_id = "";
        status = "";
        timestamp = some now;
      }
      ∷ []

  abbrev pub or_time : ℕ → Option ℕ → Option ℕ
  or_time now none = some now
  or_time now (some t) = some t

  -- An event without an id gets the hash of the body and the byte of its place.
  unfoldable pub completed : String → ℕ → ℕ → List NormalizedEvent → List NormalizedEvent
  completed body now i [] = []
  completed body now i (e ∷ es) =
      record e {
        id = if e.id == "" then x.sum body (some (i % 256)) else e.id;
        timestamp = or_time now e.timestamp;
      }
      ∷ completed body now (suc i) es

  -- `Normalize`, on a body and what `json.Unmarshal` makes of it.
  unfoldable pub normalize : String → ℕ → Option Payload → Option (List NormalizedEvent)
  unfolding from_events from_entries completed
  normalize body now none = none
  normalize body now (some p) = some (
      completed body now 0 (or_whole body now p (from_events p p.events ++ from_entries p p.entry)))
