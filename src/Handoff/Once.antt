-- ===== src/Handoff/Once.antt =====
-- internal/service/service.go: how often a missed handoff is reported.
use lead.Prelude.{
  ℕ, ◌+◌, ◌≤◌, ◌≡◌, refl, subst, ap, ◌∙◌, inl, inr, String, Bool, true, false, ◌&&◌, not, List, [],
  ◌∷◌, ◌++◌, arith, if◌then◌else◌, ◌==◌, string_eq, count_if, eq_iff, Bool-cases,
}
use lead.Handoff.Store.{Handoff, SlaEvent, Fake, is_event, any_event, has_sla_event, add_sla_event}
use lead.Handoff.Service.{
  evaluate_all, evaluate_one, has_waited, rep_stage, manager_stage, owner_stage, escalate,
  sla_event, is_watched,
}

-- How many events of a kind a handoff has.
abbrev pub events_of : String → String → String → Fake → ℕ
events_of id stage type f = count_if (is_event id stage type) f.sla_events

-- Each of the three alarms was raised at most once.
abbrev pub Once : String → Fake → Type 0
Once id f =
    (events_of id "rep" "sla_missed" f ≤ 1)
    × (events_of id "manager" "sla_missed" f ≤ 1)
    × (events_of id "tenant_owner" "alerted" f ≤ 1)

count_if-snoc :
    (p : SlaEvent → Bool) (es : List SlaEvent) (e : SlaEvent)
    → count_if p (es ++ (e ∷ [])) ≡ count_if p es + (if p e then 1 else 0)
count_if-snoc p [] e = ground arith
count_if-snoc p (d ∷ es) e = ground (arith, count_if-snoc p es e)

any_event-count :
    (id stage type : String) (es : List SlaEvent)
    → any_event id stage type es ≡ false
    → count_if (is_event id stage type) es ≡ 0
any_event-count id stage type [] h = refl
any_event-count id stage type (e ∷ es) h = ground (arith, any_event-count id stage type es)

all_three : (a b c : Bool) → (a && (b && c)) ≡ true → (a ≡ true) × (b ≡ true) × (c ≡ true)
all_three a b c h = ground arith

module _ (sprint : String → ℕ → String) (id : String) where
  sla_event-count :
      (st ty : String) (h : Handoff) (stage type user : String) (now : ℕ) (f : Fake)
      → events_of id st ty (sla_event sprint h stage type user now f)
        ≡ events_of id st ty f + (if h.id == id && (stage == st && type == ty) then 1 else 0)
  unfolding add_sla_event
  sla_event-count st ty h stage type user now f = count_if-snoc (is_event id st ty) f.sla_events _

  -- One more event of a kind that the handoff does not have.
  raised_one :
      (kst kty st ty : String) (h : Handoff) (user : String) (now : ℕ) (f : Fake)
      → events_of id kst kty f ≤ 1
      → ((h.id == id) ≡ true → events_of id st ty f ≡ 0)
      → events_of id kst kty (sla_event sprint h st ty user now f) ≤ 1
  raised_one kst kty st ty h user now f o fresh =
      rw (sla_event-count kst kty h st ty user now f)
        (elim (Bool-cases (h.id == id && (st == kst && ty == kty))) [
          | inr e ↦ rw e (omega arith)
          | inl e ↦
              let (a, b, c) = all_three (h.id == id) (st == kst) (ty == kty) e in
              let z : events_of id kst kty f ≡ 0 =
                subst (λ s. events_of id s kty f ≡ 0) ((eq_iff st kst).0 b)
                  (subst (λ t. events_of id st t f ≡ 0) ((eq_iff ty kty).0 c) (fresh a)) in
              rw (e, z) (omega arith)
        ])

  raised :
      (st ty : String) (h : Handoff) (user : String) (now : ℕ) (f : Fake)
      → Once id f
      → ((h.id == id) ≡ true → events_of id st ty f ≡ 0)
      → Once id (sla_event sprint h st ty user now f)
  raised st ty h user now f o fresh = (
    raised_one "rep" "sla_missed" st ty h user now f o.0 fresh,
    raised_one "manager" "sla_missed" st ty h user now f o.1 fresh,
    raised_one "tenant_owner" "alerted" st ty h user now f o.2 fresh,
  )

  -- An alarm that was not raised yet.
  unraised :
      (h : Handoff) (st ty : String) (f : Fake)
      → has_sla_event h.id st ty f ≡ false
      → (h.id == id) ≡ true
      → events_of id st ty f ≡ 0
  unfolding has_sla_event
  unraised h st ty f unseen same =
      subst (λ i. events_of i st ty f ≡ 0) ((eq_iff h.id id).0 same)
        (any_event-count h.id st ty f.sla_events unseen)

  guard_false : (w b : Bool) → (w && not b) ≡ true → b ≡ false
  guard_false w b h = ground arith

  -- An event of another type.
  pub quiet :
      (st ty : String) (e : SlaEvent) (f g : Fake)
      → g.sla_events ≡ f.sla_events ++ (e ∷ [])
      → (e.type == ty) ≡ false
      → events_of id st ty g ≡ events_of id st ty f
  quiet st ty e f g written other =
      ap (count_if (is_event id st ty)) written
      ∙ count_if-snoc (is_event id st ty) f.sla_events e
      ∙ ground arith

  pub escalate-Once :
      (clock : ℕ) (h : Handoff) (f : Fake) → Once id f → Once id (escalate sprint clock h f).1
  unfolding escalate
  escalate-Once clock h f o =
      let g = (escalate sprint clock h f).1 in
      (
        rw (quiet "rep" "sla_missed" _ f g refl refl) o.0,
        rw (quiet "manager" "sla_missed" _ f g refl refl) o.1,
        rw (quiet "tenant_owner" "alerted" _ f g refl refl) o.2,
      )

  rep_stage-Once :
      (clock now : ℕ) (h : Handoff) (f : Fake)
      → Once id f
      → Once id (rep_stage sprint clock now h f)
  unfolding rep_stage
  rep_stage-Once clock now h f o =
      elim (Bool-cases (has_waited now 300 h && not (has_sla_event h.id "rep" "sla_missed" f))) [
        | inr e ↦ rw e o
        | inl e ↦
            let new = unraised h "rep" "sla_missed" f (guard_false (has_waited now 300 h) _ e) in
            rw e (
              escalate-Once clock h (sla_event sprint h "rep" "sla_missed" h.assigned_user_id now f)
                (raised "rep" "sla_missed" h h.assigned_user_id now f o new))
      ]

  manager_stage-Once :
      (now : ℕ) (h : Handoff) (f : Fake) → Once id f → Once id (manager_stage sprint now h f)
  unfolding manager_stage
  manager_stage-Once now h f o =
      elim (Bool-cases
        (has_waited now 600 h && not (has_sla_event h.id "manager" "sla_missed" f))) [
          | inr e ↦ rw e o
          | inl e ↦
              let new =
                unraised h "manager" "sla_missed" f (guard_false (has_waited now 600 h) _ e) in
              rw e (raised "manager" "sla_missed" h h.manager_user_id now f o new)
        ]

  owner_stage-Once :
      (now : ℕ) (h : Handoff) (f : Fake) → Once id f → Once id (owner_stage sprint now h f)
  unfolding owner_stage
  owner_stage-Once now h f o =
      elim (Bool-cases
        (has_waited now 1200 h && not (has_sla_event h.id "tenant_owner" "alerted" f))) [
          | inr e ↦ rw e o
          | inl e ↦
              let new =
                unraised h "tenant_owner" "alerted" f (guard_false (has_waited now 1200 h) _ e) in
              rw e (raised "tenant_owner" "alerted" h "" now f o new)
        ]

  pub evaluate_all-Once :
      (clock now : ℕ) (hs : List Handoff) (f : Fake)
      → Once id f
      → Once id (evaluate_all sprint clock now hs f)
  unfolding evaluate_all evaluate_one
  evaluate_all-Once clock now [] f o = o
  evaluate_all-Once clock now (h ∷ hs) f o =
      evaluate_all-Once clock now hs _ (elim (Bool-cases (is_watched h.status)) [
        | inr e ↦ rw e o
        | inl e ↦
            rw e (
              owner_stage-Once now h _
                (manager_stage-Once now h _ (rep_stage-Once clock now h f o)))
      ])
