-- ===== src/Picker/Order.antt =====
-- internal/store/fake.go, internal/store/postgres.go: which of the eligible leads are claimed.
use lead.Prelude.{
  ℕ, zero, suc, ◌≡◌, ◌⊎◌, String, Bool, true, Option, List, [], ◌∷◌, ltb_ℤ, keep, length, All,
  text_ltb, Perm, ◌++◌, ◌≤◌, ◌<◌, ◌<ℤ◌, string_eq, none, some,
}
use lead.Picker.Store.{pending, Lead, is_eligible, time_ltb}

by_priority : Lead → Lead → Bool
by_priority a b = ltb_ℤ b.priority_score a.priority_score

by_attempt : Lead → Lead → Bool
by_attempt a b = time_ltb a.last_attempt_at b.last_attempt_at

by_id : Lead → Lead → Bool
by_id a b = text_ltb a.id b.id

-- What stands behind the first elements.
abbrev pub left_over : ℕ → List Lead → List Lead
left_over zero ls = ls
left_over (suc n) [] = []
left_over (suc n) (l ∷ ls) = left_over n ls

-- A lead that may be claimed: of the campaign, pending, and with no lease that lies ahead.
abbrev pub IsLeaseOver : ℕ → Option ℕ → Type 0
IsLeaseOver now none = Unit
IsLeaseOver now (some until) = until ≤ now

abbrev pub Eligible : String → ℕ → Lead → Type 0
Eligible campaign_id now l =
    (l.campaign_id ≡ campaign_id) × (l.status ≡ pending) × IsLeaseOver now l.processing_until

-- Of two times, the first lies before the second; a lead without an attempt is before all others.
abbrev pub Earlier : Option ℕ → Option ℕ → Type 0
Earlier t none = ⊥
Earlier none (some u) = Unit
Earlier (some t) (some u) = t < u

-- The order of the claims: a higher priority, then an earlier attempt, then a smaller id.
abbrev pub Precedes : Lead → Lead → Type 0
Precedes a b =
    (b.priority_score <ℤ a.priority_score)
    ⊎ ((a.priority_score ≡ b.priority_score)
        × (Earlier a.last_attempt_at b.last_attempt_at
            ⊎ ((a.last_attempt_at ≡ b.last_attempt_at) × (text_ltb a.id b.id ≡ true))))

-- No lead of the list is preceded by one that stands behind it.
abbrev pub InOrder : List Lead → Type 0
InOrder [] = Unit
InOrder (l ∷ ls) = All (λ m. ¬ (Precedes m l)) ls × InOrder ls

-- No lead that is left over precedes one that is chosen.
abbrev pub Best : List Lead → List Lead → Type 0
Best chosen rest = All (λ l. All (λ m. ¬ (Precedes m l)) rest) chosen

-- A choice among the leads that may be claimed, and the others.
abbrev pub IsChoice : String → ℕ → ℕ → List Lead → List Lead → List Lead → Type 0
IsChoice campaign_id batch_size now leads chosen rest =
    Perm (chosen ++ rest) (keep (is_eligible campaign_id now) leads)
    × All (Eligible campaign_id now) chosen
    × InOrder chosen
    × Best chosen rest
    × ((length chosen ≡ batch_size) ⊎ (rest ≡ []))
