-- ===== src/Dispatcher/Call.antt =====
-- dispatcher.go, `placeCall`: one request to the telephony adapter, and what its reply changes.
pub mod Replies
use lead.Prelude.{
  ℕ, suc, ◌+◌, ◌≡◌, String, ◌^^◌, Bool, true, false, Option, none, some, List, [], ◌∷◌, ◌++◌, arith,
  ℤ, pos, negsuc, leb, if◌then◌else◌, ◌==◌, nat_eq, string_eq, Result, ok, err,
}
use lead.Pgkv.{Kv, Action, put}
use lead.Dispatcher.Row.{Ctx, DialRow, read_num, read_str, int_of}
use lead.Dispatcher.Window.{positive}
use lead.Dispatcher.Retry.{or_default}
use lead.Dispatcher.Queue.{DialQueueStore}
use lead.Dispatcher.Suppression.{SuppressionEntry}

-- The payload of `POST /v1/calls`.
pub record CallRequest : Type 0 where
  pub url : String
  pub session_id : String
  pub tenant_id : String
  pub campaign_id : String
  pub lead_id : String
  pub project_id : String
  pub from_number : String
  pub to_number : String
  pub callback_url : String
  pub max_duration : ℕ

-- What comes back: an error of the transport, or a status and a body, which is decoded to
-- `provider_call_id` (empty if the field is absent) or is no JSON.
pub data Reply : Type 0 where
  transport_error : Reply
  response : ℕ → Option String → Reply

-- The session context for the voice agent, under `call:session:<provider call id>`.
pub record Session : Type 0 where
  pub tenant_id : String
  pub campaign_id : String
  pub kb_version_id : String
  pub project_id : String
  pub lead_id : String
  pub lang : String
  pub system_prompt_version : String
  pub campaign_context : Ctx

-- `parses` says whether `http.NewRequestWithContext` accepts a url.
pub record Config : Type 0 where
  pub parses : String → Bool
  pub telephony_url : String
  pub from_number : String
  pub public_webhook_base_url : String

-- The dispatcher's stores and the world outside it. `replies` are the answers still to come from
-- the telephony adapter (when they run out the adapter is unreachable), `dnd` the do-not-disturb list, `session_ids` the next
-- random ids (when they run out the empty text), and `sent` the requests made so far.
pub record World (Q L : Type 0) : Type 0 where
  pub queue : Q
  pub limiter : L
  pub redis : Kv Session
  pub dnd : Kv SuppressionEntry
  pub replies : List Reply
  pub session_ids : List String
  pub sent : List CallRequest

-- `strings.TrimRight(s, "/")`
unfoldable pub trim_right_slash : String → String
trim_right_slash String.[] = String.[]
trim_right_slash (String.◌∷◌ c s) =
    let rest = trim_right_slash s in
    if rest == ""
    then (if String.◌∷◌ c String.[] == "/" then "" else String.◌∷◌ c rest)
    else String.◌∷◌ c rest

abbrev pub max_duration_of : Ctx → ℕ
max_duration_of c = or_default (positive (read_num "max_call_seconds" c)) 300

abbrev pub lang_or_default : Option String → String
lang_or_default none = "en-IN"
lang_or_default (some s) = if s == "" then "en-IN" else s

abbrev pub lang_of : Ctx → String
lang_of c = lang_or_default (read_str "language" c)

abbrev pub head_or {ℓ} : {A : Type ℓ} → List A → A → A
head_or [] a = a
head_or (x ∷ xs) a = x

abbrev pub rest_of {ℓ} : {A : Type ℓ} → List A → List A
rest_of [] = []
rest_of (x ∷ xs) = xs

unfoldable pub call_request : Config → String → DialRow → CallRequest
unfolding trim_right_slash
call_request cfg session_id row = record {
  url = trim_right_slash cfg.telephony_url ^^ "/v1/calls";
  session_id = session_id;
  tenant_id = row.tenant_id;
  campaign_id = row.campaign_id;
  lead_id = row.lead_id;
  project_id = row.project_id;
  from_number = cfg.from_number;
  to_number = row.phone;
  callback_url = trim_right_slash cfg.public_webhook_base_url ^^ "/wh/vobiz/answer";
  max_duration = max_duration_of row.campaign_ctx;
}

unfoldable pub session_of : DialRow → Session
session_of row = record {
  tenant_id = row.tenant_id;
  campaign_id = row.campaign_id;
  kb_version_id = row.kb_version_id;
  project_id = row.project_id;
  lead_id = row.lead_id;
  lang = lang_of row.campaign_ctx;
  system_prompt_version = "v1";
  campaign_context = row.campaign_ctx;
}

-- `(placed, stop)`
pub data Placement : Type 0 where
  placed stop skipped : Placement

module _ {Q L : Type 0} (store : DialQueueStore Q) (cfg : Config) where
  -- `_ = d.queue.MarkFailed(ctx, row.ID)`: its error is dropped.
  abbrev pub give_up : DialRow → World Q L → Placement × World Q L
  give_up row w = (skipped, record w { queue = (store.mark_failed row.id w.queue).1 })

  -- A 2xx reply that names the call: the session context is written (an error is only logged),
  -- then the row is marked in flight (an error is only logged).
  unfoldable pub accept_call : DialRow → String → World Q L → Placement × World Q L
  unfolding session_of
  accept_call row call_id w = (
    placed,
    record w {
      redis = (put ("call:session:" ^^ call_id) (session_of row) w.redis).1;
      queue = (store.mark_in_flight row.id call_id w.queue).1;
    },
  )

  unfoldable pub on_body : DialRow → String → Option String → World Q L → Placement × World Q L
  unfolding accept_call
  on_body row session_id none w = give_up row w
  on_body row session_id (some id) w = accept_call row (if id == "" then session_id else id) w

  unfoldable pub on_reply : DialRow → String → Reply → World Q L → Placement × World Q L
  unfolding on_body
  on_reply row session_id transport_error w = give_up row w
  on_reply row session_id (response status body) w =
      if status == 503
      then (stop, w)
      else (if leb 300 status then give_up row w else on_body row session_id body w)

  unfoldable pub place_call : DialRow → World Q L → Placement × World Q L
  unfolding on_reply call_request
  place_call row w =
      let session_id = head_or w.session_ids "" in
      let request = call_request cfg session_id row in
      let w' = record w { session_ids = rest_of w.session_ids } in
      if cfg.parses request.url
      then on_reply row session_id (head_or w.replies transport_error)
          (record w' { replies = rest_of w.replies; sent = w.sent ++ (request ∷ []) })
      else (skipped, w')
