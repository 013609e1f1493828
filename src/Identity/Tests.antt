-- ===== src/Identity/Tests.antt =====
-- services/lead-identity: the theorems and the code on two contacts of one tenant.
use lead.Prelude.{◌≡◌, refl, String, true, false, some, [], ◌∷◌, Dict, ok, lookup}
use lead.Identity.Phone.{PhoneNumbers, normalize}
use lead.Identity.Durable.{
  Contact, phone_key, new_contact, get_or_create_contact, merge_contacts, merged,
}
use lead.Identity.Service.{ResolveBody, resolved, handle_resolve_identity}
use lead.Identity.Merged.{reachable, merged_phone_is_new}

-- Phones that are given in their normal form.
abbrev plain : PhoneNumbers String
plain = record {
  trim_space = λ s. s;
  parse = λ s country. some s;
  is_valid_number = λ n. true;
  format_e164 = λ n. n;
}

abbrev a_contact : Contact
a_contact = new_contact "c1" 5 "acme" "+911" "" "Ann"

abbrev b_contact : Contact
b_contact = new_contact "c2" 6 "acme" "+912" "" "Ann B"

abbrev contacts : Dict Contact
contacts = ("c1", a_contact) ∷ ("c2", b_contact) ∷ []

abbrev index : Dict Contact
index = (phone_key "acme" "+911", a_contact) ∷ (phone_key "acme" "+912", b_contact) ∷ []

abbrev a_body : ResolveBody
a_body = record { tenant_id = "acme"; phone = "+912"; email = ""; name = "" }

resolved_again :
    (handle_resolve_identity plain "c3" 9 (some a_body) (reachable contacts index [])).0
    ≡ resolved b_contact false
unfolding handle_resolve_identity lookup normalize get_or_create_contact
resolved_again = refl

merged_phone_is_new_example :
    let (r, q) = merge_contacts "m1" 7 "acme" "c1" "c2" "admin" (reachable contacts index []) in
    (r ≡ ok tt)
    × (lookup "c2" q.contacts.table ≡ some (merged "c1" 7 b_contact))
    × ((get_or_create_contact "c3" 8 "acme" "+912" "" "" q).0
        ≡ ok (new_contact "c3" 8 "acme" "+912" "" "", true))
unfolding lookup
merged_phone_is_new_example =
    merged_phone_is_new contacts index [] b_contact "m1" "c3" "c1" "admin" "c2" 7 8 "" "" refl
