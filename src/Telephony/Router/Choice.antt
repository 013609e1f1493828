-- ===== src/Telephony/Router/Choice.antt =====
-- internal/routing/routing.go: which provider is chosen.
use lead.Prelude.{
  subst, ap, ◌≡◌, refl, ◌⊎◌, inl, inr, String, eq_iff, string_eq, ◌*◌, ◌≤◌, ◌↔◌, Result, err, ◌||◌,
  ◌==◌, Bool, true, Option, none, some, List, [], ◌∷◌, arith, ◌≤ℤ◌, leb_ℤ, if◌then◌else◌, ok, All,
  All-mono, Bool-cases, Option-cases,
}
use lead.Telephony.Store.{Rule, Rate}
use lead.Telephony.Router.{
  Telephony, Router, adapter, sort_rules, insert_rule, candidate, first_candidate, select, by_rules,
  or_else, usable, within,
}

-- The rule stands in the list.
abbrev pub Listed : Rule → List Rule → Type 0
Listed r [] = ⊥
Listed r (s ∷ ss) = (s ≡ r) ⊎ Listed r ss

-- No rule comes before a rule that is preferred to it.
abbrev Ascending : List Rule → Type 0
Ascending [] = Unit {0}
Ascending (r ∷ rs) = All (λ s. r.priority ≤ℤ s.priority) rs × Ascending rs

All-insert_rule :
    (P : Rule → Type 0) (r : Rule) (rs : List Rule) → P r → All P rs → All P (insert_rule r rs)
All-insert_rule P r [] h hs = (h, tt)
All-insert_rule P r (s ∷ ss) h hs = let ih = All-insert_rule P r ss h hs.1 in ground arith

insert_rule-Ascending : (r : Rule) (rs : List Rule) → Ascending rs → Ascending (insert_rule r rs)
insert_rule-Ascending r [] h = (tt, tt)
insert_rule-Ascending r (s ∷ ss) h = elim (Bool-cases (leb_ℤ r.priority s.priority)) [
  | inl le ↦ rw le (
    (
      ground arith,
      All-mono (λ q. s.priority ≤ℤ q.priority) (λ q. r.priority ≤ℤ q.priority)
          (λ q h'. ground arith) ss h.0,
    ),
    h,
  )
  | inr gt ↦ rw gt (
    All-insert_rule (λ q. s.priority ≤ℤ q.priority) r ss (ground arith) h.0,
    insert_rule-Ascending r ss h.1,
  )
]

sort_rules-Ascending : (rs : List Rule) → Ascending (sort_rules rs)
unfolding sort_rules
sort_rules-Ascending [] = tt
sort_rules-Ascending (r ∷ rs) = insert_rule-Ascending r (sort_rules rs) (sort_rules-Ascending rs)

insert_rule-All :
    (P : Rule → Type 0) (r : Rule) (rs : List Rule) → All P (insert_rule r rs) → P r × All P rs
insert_rule-All P r [] h = h
insert_rule-All P r (s ∷ ss) h =
    let at : Bool → Type 0 = λ b. All P (if b then r ∷ s ∷ ss else s ∷ insert_rule r ss) in
    elim (Bool-cases (leb_ℤ r.priority s.priority)) [
      | inl le ↦ subst at le h
      | inr gt ↦
          let (hs, rest) : P s × All P (insert_rule r ss) = subst at gt h in
          let (hr, hss) = insert_rule-All P r ss rest in (hr, (hs, hss))
    ]

sort_rules-All : (P : Rule → Type 0) (rs : List Rule) → All P (sort_rules rs) → All P rs
unfolding sort_rules
sort_rules-All P [] h = h
sort_rules-All P (r ∷ rs) h =
    let (hr, hrs) = insert_rule-All P r (sort_rules rs) h in (hr, sort_rules-All P rs hrs)

Listed-insert_rule :
    (q r : Rule) (rs : List Rule) → Listed q (insert_rule r rs) → (r ≡ q) ⊎ Listed q rs
Listed-insert_rule q r [] h = h
Listed-insert_rule q r (s ∷ ss) h =
    let at : Bool → Type 0 = λ b. Listed q (if b then r ∷ s ∷ ss else s ∷ insert_rule r ss) in
    elim (Bool-cases (leb_ℤ r.priority s.priority)) [
      | inl le ↦ subst at le h
      | inr gt ↦
          let h' : (s ≡ q) ⊎ Listed q (insert_rule r ss) = subst at gt h in
          elim h' [
            | inl e ↦ inr (inl e)
            | inr l ↦ elim (Listed-insert_rule q r ss l) [ inl e ↦ inl e | inr l' ↦ inr (inr l') ]
          ]
    ]

Listed-sort_rules : (q : Rule) (rs : List Rule) → Listed q (sort_rules rs) → Listed q rs
unfolding sort_rules
Listed-sort_rules q [] h = h
Listed-sort_rules q (r ∷ rs) h = elim (Listed-insert_rule q r (sort_rules rs) h) [
  | inl e ↦ inl e
  | inr l ↦ inr (Listed-sort_rules q rs l)
]

module _ {S L : Type 0} (r : Router S L) (region : String) (s : S) where
  -- The failures of the rule's provider are known, and at most its percentage of its calls.
  abbrev pub FailsSeldom : Rule → Type 0
  FailsSeldom rule =
      (rate : Rate) × (r.store.failure_rate r.window rule.provider_id s ≡ ok rate)
      × (100 * rate.fails ≤ rule.max_fail_rate * rate.total)

  -- What a rule asks of the provider that it offers.
  abbrev pub Offers : Rule → Telephony → Type 0
  Offers rule a =
      ((rule.region ≡ "") ⊎ (rule.region ≡ region))
      × (adapter rule.provider_id r.adapters ≡ some a)
      × (a.healthy ≡ true)
      × FailsSeldom rule

  within-FailsSeldom :
      (rule : Rule) (x : Result Rate)
      → (within r rule x ≡ true)
        ↔ ((rate : Rate) × (x ≡ ok rate) × (100 * rate.fails ≤ rule.max_fail_rate * rate.total))
  within-FailsSeldom rule (ok rate) =
      (λ e. (rate, refl, ground (arith, e)), λ (rate', same, le). ground (arith, same, le))
  within-FailsSeldom rule (err e) = (λ no. cc, λ (rate, same, le). cc)

  usable-Offers :
      (rule : Rule) (o : Option Telephony) (a : Telephony)
      → (usable r rule s o ≡ some a) ↔ ((o ≡ some a) × (a.healthy ≡ true) × FailsSeldom rule)
  usable-Offers rule none a = (λ e. cc, λ (e, healthy, seldom). cc)
  usable-Offers rule (some b) a =
      let w = within-FailsSeldom rule (r.store.failure_rate r.window rule.provider_id s) in
      (
        λ e.
            let both : (b ≡ a)
                × (b.healthy ≡ true)
                × (within r rule (r.store.failure_rate r.window rule.provider_id s) ≡ true) =
              ground (arith, e) in
            (ap some both.0, subst (λ t. t.healthy ≡ true) both.0 both.1, w.0 both.2),
        λ (same, healthy, seldom).
            let ok_rate = w.1 seldom in ground (arith, same, healthy, ok_rate),
      )

  candidate-Offers :
      (rule : Rule) (a : Telephony) → (candidate r region s rule ≡ some a) ↔ Offers rule a
  unfolding candidate
  candidate-Offers rule a =
      let u = usable-Offers rule (adapter rule.provider_id r.adapters) a in
      elim (Bool-cases (rule.region == "" || rule.region == region)) [
        | inl covers ↦
            let here : (rule.region ≡ "") ⊎ (rule.region ≡ region) =
              ground (arith, covers, eq_iff rule.region "", eq_iff rule.region region) in
            rw covers (
              λ e. let (there, healthy, seldom) = u.0 e in (here, there, healthy, seldom),
              λ (h, there, healthy, seldom). u.1 (there, healthy, seldom),
            )
        | inr other ↦ rw other (
          λ e. cc,
          λ (h, there, healthy, seldom).
              absurd (ground (arith, other, h, eq_iff rule.region "", eq_iff rule.region region)),
        )
      ]

  not-Offers :
      (rule : Rule) → candidate r region s rule ≡ none → (a : Telephony) → ¬ (Offers rule a)
  not-Offers rule none_left a offers = let hit = (candidate-Offers rule a).1 offers in cc

  -- The provider is the one that a listed rule offers, and every rule that is preferred to that
  -- rule offers none.
  abbrev pub Chosen : List Rule → Telephony → Type 0
  Chosen rules a =
      (rule : Rule) × Listed rule rules
      × Offers rule a
      × All (λ q. (rule.priority ≤ℤ q.priority) ⊎ ((b : Telephony) → ¬ (Offers q b))) rules

  first_candidate-Chosen :
      (rules : List Rule) {a : Telephony}
      → Ascending rules
      → first_candidate r region s rules ≡ ok a
      → Chosen rules a
  unfolding first_candidate
  first_candidate-Chosen [] up_ e = ground arith
  first_candidate-Chosen (rule ∷ rules) {a} up_ e =
      elim (Option-cases (candidate r region s rule)) [
        | inl skip ↦
            let (q, listed, offers, least) =
              first_candidate-Chosen rules {a = a} up_.1
                (subst (λ o. or_else r o (first_candidate r region s rules) ≡ ok a) skip e) in
            (q, inr listed, offers, (inr (not-Offers rule skip), least))
        | inr (b, hit) ↦
            let same : ok b ≡ ok a =
              subst (λ o. or_else r o (first_candidate r region s rules) ≡ ok a) hit e in
            (
              rule,
              inl refl,
              (candidate-Offers rule a).0 (ground (arith, hit, same)),
              (
                inl (omega arith),
                All-mono (λ q. rule.priority ≤ℤ q.priority)
                    (λ q. (rule.priority ≤ℤ q.priority) ⊎ ((b : Telephony) → ¬ (Offers q b)))
                    (λ q le. inl le) rules up_.0,
              ),
            )
      ]

  -- A provider is chosen only by a rule of the store that covers the region and whose provider is
  -- registered, healthy and within its failure rate, and every rule of a lower priority number
  -- offers none: it is for another region, or its provider is not registered, not healthy, of an
  -- unknown failure rate or above its rate.
  pub select-Chosen :
      (rules : List Rule) {a : Telephony}
      → r.store.list_routing_rules s ≡ ok rules
      → select r region s ≡ ok a
      → Chosen rules a
  unfolding select
  select-Chosen rules {a} listed e =
      let (rule, member, offers, least) =
        first_candidate-Chosen (sort_rules rules) {a = a} (sort_rules-Ascending rules)
          (subst (λ x. by_rules r region s x ≡ ok a) listed e) in
      (
        rule,
        Listed-sort_rules rule rules member,
        offers,
        sort_rules-All (λ q. (rule.priority ≤ℤ q.priority) ⊎ ((b : Telephony) → ¬ (Offers q b)))
            rules least,
      )
