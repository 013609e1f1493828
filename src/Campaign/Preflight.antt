-- ===== src/Campaign/Preflight.antt =====
-- internal/preflight/preflight.go: every check before a launch, with all failures kept.
use lead.Prelude.{
  ◌≡◌, refl, ◌≢◌, ◌↔◌, ◌⊎◌, String, Bool, true, false, ◌&&◌, ◌||◌, not, Option, none, some, List,
  [], ◌∷◌, ◌++◌, arith, pos, ltb_ℤ, ◌≤ℤ◌, ◌<ℤ◌, lookup, if◌then◌else◌, ◌==◌, string_eq, eq_iff,
}
use lead.Campaign.Store.{
  Campaign, KbVersion, TenantStatus, Fake, has_script, has_prompt, get_tenant_status,
}

pub data PreflightError : Type 0 where
  kb_missing kb_not_approved missing_rera missing_brochure missing_price_sheet : PreflightError
  script_required script_not_found prompt_required prompt_not_found : PreflightError
  source_filter_required tenant_suspended billing_cap_reached schedule_required : PreflightError
  cli_required : PreflightError

-- One error where a condition fails.
abbrev pub unless : Bool → PreflightError → List PreflightError
unless b e = if b then [] else e ∷ []

abbrev pub is_set : String → Bool
is_set s = if s == "" then false else true

abbrev pub is_real_estate : KbVersion → Bool
is_real_estate kb = kb.project_type == "real-estate"

abbrev pub is_approved : KbVersion → Bool
is_approved kb = kb.status == "approved" || kb.status == "published"

unfoldable pub check_kb : Option KbVersion → List PreflightError
check_kb none = kb_missing ∷ []
check_kb (some kb) =
    unless (is_approved kb) kb_not_approved
    ++ (if is_real_estate kb
        then unless kb.has_rera missing_rera
          ++ (unless kb.has_brochure missing_brochure
              ++ unless kb.has_price_sheet missing_price_sheet)
        else [])

unfoldable pub check_versions : Campaign → Fake → List PreflightError
check_versions c f =
    (if is_set c.script_version_id
      then unless (has_script c.id c.script_version_id f) script_not_found
      else script_required ∷ [])
    ++ (if is_set c.prompt_version_id
        then unless (has_prompt c.id c.prompt_version_id f) prompt_not_found
        else prompt_required ∷ [])

-- The cap counts if it is positive, and is reached at `used >= cap`.
abbrev pub is_below_cap : TenantStatus → Bool
is_below_cap t =
    if ltb_ℤ (pos 0) t.billing_cap_inr then ltb_ℤ t.used_inr t.billing_cap_inr else true

unfoldable pub check_tenant : TenantStatus → List PreflightError
check_tenant t =
    unless (not t.suspended) tenant_suspended ++ unless (is_below_cap t) billing_cap_reached

unfoldable pub check_cli : Campaign → Option KbVersion → List PreflightError
check_cli c none = []
check_cli c (some kb) =
    if is_real_estate kb then unless (is_set c.source_filter) cli_required else []

-- `Checker.Run`: the errors, in their order. It has passed if there is none.
unfoldable pub preflight : Campaign → Fake → List PreflightError
unfolding check_kb check_versions check_tenant check_cli
preflight c f =
    let kb = lookup c.kb_version_id f.kb_versions in
    check_kb kb
    ++ (check_versions c f
        ++ (unless (is_set c.source_filter) source_filter_required
            ++ (check_tenant (get_tenant_status c.tenant_id f)
                ++ (unless (is_set c.schedule) schedule_required ++ check_cli c kb))))

abbrev pub passed : List PreflightError → Bool
passed [] = true
passed (e ∷ es) = false

-- A knowledge base that may be called with: approved, and complete if it is real estate.
abbrev pub KbReady : Option KbVersion → Type 0
KbReady none = ⊥
KbReady (some kb) =
    ((kb.status ≡ "approved") ⊎ (kb.status ≡ "published"))
    × ((kb.project_type ≢ "real-estate")
        ⊎ ((kb.has_rera ≡ true) × (kb.has_brochure ≡ true) × (kb.has_price_sheet ≡ true)))

-- What a campaign needs for a launch.
abbrev pub Ready : Fake → Campaign → Type 0
Ready f c =
    let t = get_tenant_status c.tenant_id f in
    KbReady (lookup c.kb_version_id f.kb_versions)
    × ((c.script_version_id ≢ "") × (has_script c.id c.script_version_id f ≡ true))
    × ((c.prompt_version_id ≢ "") × (has_prompt c.id c.prompt_version_id f ≡ true))
    × (c.source_filter ≢ "")
    × (c.schedule ≢ "")
    × (t.suspended ≡ false)
    × ((t.billing_cap_inr ≤ℤ pos 0) ⊎ (t.used_inr <ℤ t.billing_cap_inr))

passed-append : (xs ys : List PreflightError) → passed (xs ++ ys) ≡ passed xs && passed ys
passed-append [] ys = refl
passed-append (x ∷ xs) ys = refl

passed-unless : (b : Bool) (e : PreflightError) → passed (unless b e) ≡ b
passed-unless true e = refl
passed-unless false e = refl

check_kb-KbReady : (o : Option KbVersion) → (passed (check_kb o) ≡ true) ↔ KbReady o
unfolding check_kb
check_kb-KbReady none = ground arith
check_kb-KbReady (some kb) = ground (
  arith,
  eq_iff kb.status "approved",
  eq_iff kb.status "published",
  eq_iff kb.project_type "real-estate",
)

check_versions_lem :
    (c : Campaign) (f : Fake)
    → (passed (check_versions c f) ≡ true) ↔ (
        ((c.script_version_id ≢ "") × (has_script c.id c.script_version_id f ≡ true))
        × ((c.prompt_version_id ≢ "") × (has_prompt c.id c.prompt_version_id f ≡ true)))
unfolding check_versions
check_versions_lem c f =
    ground (arith, eq_iff c.script_version_id "", eq_iff c.prompt_version_id "")

check_tenant_lem :
    (t : TenantStatus)
    → (passed (check_tenant t) ≡ true)
      ↔ ((t.suspended ≡ false) × ((t.billing_cap_inr ≤ℤ pos 0) ⊎ (t.used_inr <ℤ t.billing_cap_inr)))
unfolding check_tenant
check_tenant_lem t = ground arith

check_cli_lem :
    (c : Campaign) (o : Option KbVersion)
    → is_set c.source_filter ≡ true
    → passed (check_cli c o) ≡ true
unfolding check_cli
check_cli_lem c none e = refl
check_cli_lem c (some kb) e = ground (arith, e)

passed-preflight :
    (c : Campaign) (f : Fake)
    → let kb = lookup c.kb_version_id f.kb_versions in
      passed (preflight c f) ≡ (
        passed (check_kb kb)
        && (passed (check_versions c f)
            && (is_set c.source_filter
                && (passed (check_tenant (get_tenant_status c.tenant_id f))
                    && (is_set c.schedule && passed (check_cli c kb))))))
unfolding preflight
passed-preflight c f = simp (passed-append, passed-unless)

-- The checks find no error exactly if the knowledge base is approved, and complete for real
-- estate, both versions are named and exist, the source and the schedule are set, and the tenant is
-- neither suspended nor at its billing cap. Any source will do, for real estate too.
pub preflight-Ready : (c : Campaign) (f : Fake) → (passed (preflight c f) ≡ true) ↔ Ready f c
preflight-Ready c f =
    let kb = lookup c.kb_version_id f.kb_versions in
    ground (
      arith,
      passed-preflight c f,
      check_kb-KbReady kb,
      check_versions_lem c f,
      check_tenant_lem (get_tenant_status c.tenant_id f),
      check_cli_lem c kb,
      eq_iff c.source_filter "",
      eq_iff c.schedule "",
    )
