-- ===== src/Telephony/Limiter.antt =====
-- internal/concurrency/limiter.go, `redisLimiter`: the counter of one tenant in Redis, and the calls
-- that use it at the same time. Each command runs alone in Redis, and between two commands of a
-- call other calls may run theirs. The cap is positive, as `defaultVobizMaxConcurrent` gives it. A
-- command that is lost has no effect in Redis, and the EXPIRE after each INCR is not a step of its
-- own: the key may expire at any time.
pub mod Cap
use lead.Prelude.{
  ℕ, zero, suc, ◌+◌, ◌≡◌, Bool, true, false, ◌||◌, List, [], ◌∷◌, ℤ, pos, negsuc, ltb_ℤ,
  if◌then◌else◌,
}

-- Where a call stands: which command it sends next, or how its `Incr` ended.
pub data Slot : Type 0 where
  incrementing : Slot  -- `Incr`, before INCR
  rolling_back : Slot  -- `Incr` over the cap, before the DECR of `decrKey`
  fixing_rollback : Slot  -- before the INCR that corrects a negative counter
  rejected : Slot  -- `Incr` has returned `ErrConcurrencyLimit`
  holding : Slot  -- `Incr` has returned nil: the call goes on
  releasing : Slot  -- `Decr`, before DECR
  fixing_release : Slot  -- before the INCR that corrects a negative counter
  released : Slot  -- `Decr` has returned

abbrev pub incr : ℤ → ℤ
incr (pos n) = pos (suc n)
incr (negsuc zero) = pos zero
incr (negsuc (suc n)) = negsuc n

abbrev pub decr : ℤ → ℤ
decr (pos zero) = negsuc zero
decr (pos (suc n)) = pos n
decr (negsuc n) = negsuc (suc n)

-- `decrKey` after its DECR has answered `val`: a negative value is corrected.
abbrev pub floor : Slot → Slot → ℤ → Slot
floor fixing ended val = if ltb_ℤ val (pos 0) then fixing else ended

-- The next step of one call, with the counter before and after it.
unfoldable pub advance : ℕ → Slot → ℤ → Slot × ℤ
advance max incrementing c =
    let val = incr c in ((if ltb_ℤ (pos max) val then rolling_back else holding), val)
advance max rolling_back c = let val = decr c in (floor fixing_rollback rejected val, val)
advance max fixing_rollback c = (rejected, incr c)
advance max rejected c = (rejected, c)
advance max holding c = (releasing, c)
advance max releasing c = let val = decr c in (floor fixing_release released val, val)
advance max fixing_release c = (released, incr c)
advance max released c = (released, c)

-- The same step when Redis does not answer: `Incr` lets the call go on, the other commands give up.
unfoldable pub give_up : Slot → Slot
give_up incrementing = holding
give_up rolling_back = rejected
give_up fixing_rollback = rejected
give_up rejected = rejected
give_up holding = releasing
give_up releasing = released
give_up fixing_release = released
give_up released = released

-- A call runs its next command, or its command is lost, or the key expires.
pub data Event : Type 0 where
  runs : ℕ → Event
  loses : ℕ → Event
  expires : Event

pub record Calls : Type 0 where
  pub slots : List Slot
  pub counter : ℤ

unfoldable pub advance_at : ℕ → ℕ → List Slot → ℤ → List Slot × ℤ
unfolding advance
advance_at max i [] c = ([], c)
advance_at max zero (s ∷ ss) c = let (s', c') = advance max s c in (s' ∷ ss, c')
advance_at max (suc i) (s ∷ ss) c = let (ss', c') = advance_at max i ss c in (s ∷ ss', c')

unfoldable pub give_up_at : ℕ → List Slot → List Slot
unfolding give_up
give_up_at i [] = []
give_up_at zero (s ∷ ss) = give_up s ∷ ss
give_up_at (suc i) (s ∷ ss) = s ∷ give_up_at i ss

unfoldable pub step : ℕ → Event → Calls → Calls
unfolding advance_at give_up_at
step max (runs i) s =
    let (slots, c) = advance_at max i s.slots s.counter in record { slots = slots; counter = c }
step max (loses i) s = record s { slots = give_up_at i s.slots }
step max expires s = record s { counter = pos 0 }

unfoldable pub run : ℕ → List Event → Calls → Calls
unfolding step
run max [] s = s
run max (e ∷ es) s = run max es (step max e s)

-- `n` calls that are about to ask for a slot, under a counter that does not exist yet.
abbrev pub waiting : ℕ → List Slot
waiting zero = []
waiting (suc n) = incrementing ∷ waiting n

abbrev pub start : ℕ → Calls
start n = record { slots = waiting n; counter = pos 0 }

-- Whether the `i`-th call is about to ask for a slot.
abbrev pub asks : ℕ → List Slot → Bool
asks i [] = false
asks zero (incrementing ∷ ss) = true
asks zero (_ ∷ ss) = false
asks (suc i) (s ∷ ss) = asks i ss

-- Whether the run lets a call go on without counting it, or forgets the count.
unfoldable pub slips : ℕ → List Event → Calls → Bool
unfolding step
slips max [] s = false
slips max (runs i ∷ es) s = slips max es (step max (runs i) s)
slips max (loses i ∷ es) s = asks i s.slots || slips max es (step max (loses i) s)
slips max (expires ∷ es) s = true
