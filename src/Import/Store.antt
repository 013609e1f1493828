-- ===== src/Import/Store.antt =====
-- internal/model/model.go and internal/store/store.go: jobs, contacts and leads.
use lead.Prelude.{ℕ, ℤ, String, Option, none, some, List, Dict, Error}

-- `none` is the zero time.
pub record Contact : Type 0 where
  pub id : String
  pub tenant_id : String
  pub phone_e164 : String
  pub email : String
  pub name : String
  pub created_at : Option ℕ
  pub updated_at : Option ℕ

pub record Lead : Type 0 where
  pub id : String
  pub tenant_id : String
  pub contact_id : String
  pub source_id : String
  pub status : String
  pub score : ℤ
  pub assigned_to : String
  pub created_at : Option ℕ
  pub updated_at : Option ℕ

-- The error stands for the text of its message.
pub record RowError : Type 0 where
  pub row : ℕ
  pub message : Error

pub record LeadImportJob : Type 0 where
  pub id : String
  pub tenant_id : String
  pub source_id : String
  pub file_url : String
  pub mapping : Dict String
  pub status : String
  pub total_rows : ℕ
  pub imported_rows : ℕ
  pub error_rows : ℕ
  pub errors : List RowError
  pub created_at : Option ℕ
  pub updated_at : Option ℕ

-- The payload of an activity is kept as its JSON text.
pub record LeadActivity : Type 0 where
  pub id : String
  pub lead_id : String
  pub type : String
  pub payload : String
  pub actor_id : String
  pub occurred_at : Option ℕ

pub record LeadStatusHistory : Type 0 where
  pub id : String
  pub lead_id : String
  pub old_status : String
  pub new_status : String
  pub actor_id : String
  pub changed_at : Option ℕ

pub record LeadFilters : Type 0 where
  pub status : String
  pub source_id : String
  pub assigned_to : String
  pub limit : ℤ
  pub offset : ℤ

-- `if x.IsZero() { x = now }`
abbrev pub or_now : ℕ → Option ℕ → Option ℕ
or_now now none = some now
or_now now (some t) = some t
