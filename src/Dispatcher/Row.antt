-- ===== src/Dispatcher/Row.antt =====
-- dispatcher.go: the dial row and the campaign context that it carries.
-- Instants are numbers of seconds. A JSON number of the context is held in hundredths, the
-- precision of the paise amounts that the code compares.
use lead.Prelude.{ℕ, zero, suc, ◌/◌, String, Option, none, some, Dict, lookup, ℤ, pos, negsuc}

-- A value of a `map[string]any` that came out of JSON.
pub data Value : Type 0 where
  num : ℤ → Value
  str : String → Value
  other : Value

-- `nil` is `none`.
abbrev pub Ctx : Type 0
Ctx = Option (Dict Value)

pub data RowStatus : Type 0 where
  pending in_flight done failed suppressed : RowStatus

pub RowStatus-discrete : Discrete RowStatus
RowStatus-discrete = hlevel

pub record DialRow : Type 0 where
  pub id : String
  pub campaign_id : String
  pub tenant_id : String
  pub lead_id : String
  pub phone : String
  pub project_id : String
  pub kb_version_id : String
  pub attempts : ℕ
  pub status : RowStatus
  pub next_attempt_at : ℕ
  pub disposition : String
  pub provider_call_id : String
  pub campaign_ctx : Ctx

abbrev pub minus : ℕ → ℤ
minus zero = pos 0
minus (suc n) = negsuc n

-- `int(v)` of a float64: rounds toward zero.
unfoldable pub int_of : ℤ → ℤ
int_of (pos n) = pos (n / 100)
int_of (negsuc n) = minus (suc n / 100)

-- A read of a `nil` map finds nothing.
abbrev pub read : String → Ctx → Option Value
read k none = none
read k (some m) = lookup k m

abbrev pub as_num : Option Value → Option ℤ
as_num (some (num n)) = some n
as_num _ = none

abbrev pub as_str : Option Value → Option String
as_str (some (str s)) = some s
as_str _ = none

-- `v, ok := ctx[k].(float64)`
abbrev pub read_num : String → Ctx → Option ℤ
read_num k c = as_num (read k c)

-- `v, ok := ctx[k].(string)`
abbrev pub read_str : String → Ctx → Option String
read_str k c = as_str (read k c)
