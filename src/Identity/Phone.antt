-- ===== src/Identity/Phone.antt =====
-- internal/phone/phone.go: phones in one form.
use lead.Prelude.{
  String, Bool, Option, none, some, if◌then◌else◌, ◌==◌, string_eq, Result, ok, err, malformed,
}

-- What the code calls of `strings` and of the package `phonenumbers`.
pub record PhoneNumbers (Number : Type 0) : Type 0 where
  pub trim_space : String → String
  pub parse : String → String → Option Number
  pub is_valid_number : Number → Bool
  pub format_e164 : Number → String

module _ {Number : Type 0} (p : PhoneNumbers Number) where
  abbrev pub on_parsed : Option Number → Result String
  on_parsed none = err malformed
  on_parsed (some n) = if p.is_valid_number n then ok (p.format_e164 n) else err malformed

  -- `Normalize`
  unfoldable pub normalize : String → String → Result String
  normalize raw country =
      let trimmed = p.trim_space raw in
      if trimmed == "" then err malformed else on_parsed (p.parse trimmed country)
