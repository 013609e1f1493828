-- ===== src/Telephony/Limiter/Cap.antt =====
-- internal/concurrency/limiter.go: the live calls and the counter, whatever the interleaving.
use lead.Prelude.{
  ℕ, zero, suc, ◌+◌, ◌≤◌, ◌≡◌, refl, ◌∙◌, ◌-◌, ◌⊎◌, inl, inr, ap, Bool, true, false, List, [], ◌∷◌,
  arith, ℤ, pos, All,
}
use lead.Telephony.Limiter.{
  Slot, incrementing, rolling_back, fixing_rollback, rejected, holding, releasing, fixing_release,
  released, advance, give_up, Event, runs, loses, expires, Calls, advance_at, give_up_at, step, run,
  waiting, start, asks, slips,
}

-- What a call has added to the counter and not yet taken back.
abbrev weight : Slot → ℕ
weight rolling_back = 1
weight holding = 1
weight releasing = 1
weight _ = 0

-- A call whose `Incr` has let it go on and whose `Decr` has not sent its DECR.
abbrev live : Slot → ℕ
live holding = 1
live releasing = 1
live _ = 0

-- The steps that the invariant allows: no call corrects the counter.
abbrev Plain : Slot → Type 0
Plain fixing_rollback = ⊥
Plain fixing_release = ⊥
Plain _ = Unit {0}

abbrev weights : List Slot → ℕ
weights [] = 0
weights (s ∷ ss) = weight s + weights ss

abbrev pub lives : List Slot → ℕ
lives [] = 0
lives (s ∷ ss) = live s + lives ss

live-weight : (s : Slot) → live s ≤ weight s
live-weight s = ground arith

lives-weights : (ss : List Slot) → lives ss ≤ weights ss
lives-weights [] = omega arith
lives-weights (s ∷ ss) = let ih = lives-weights ss in ground arith

-- One step of a call: its share of the counter is kept, and a call is let go on only below the cap.
advance_lem :
    (max k : ℕ) (s : Slot)
    → Plain s
    → let (s', c') = advance max s (pos (weight s + k)) in
      (c' ≡ pos (weight s' + k)) × Plain s' × ((live s' ≤ live s) ⊎ (weight s' + k ≤ max))
unfolding advance
advance_lem max k incrementing p = ground arith
advance_lem max k rolling_back p = ground arith
advance_lem max k fixing_rollback p = elim p [ ]
advance_lem max k rejected p = ground arith
advance_lem max k holding p = ground arith
advance_lem max k releasing p = ground arith
advance_lem max k fixing_release p = elim p [ ]
advance_lem max k released p = ground arith

-- The counter is what the calls `ss` have added to it and `k` more, of which `m` are other live
-- calls, and no more calls are live than the cap allows.
abbrev Sound : ℕ → ℕ → ℕ → List Slot → ℤ → Type 0
Sound max m k ss c = (c ≡ pos (weights ss + k)) × All Plain ss × (m ≤ k) × (lives ss + m ≤ max)

advance_at-Sound :
    (max i m k : ℕ) (ss : List Slot) (c : ℤ)
    → Sound max m k ss c
    → let (ss', c') = advance_at max i ss c in Sound max m k ss' c'
unfolding advance_at
advance_at-Sound max i m k [] c h = h
advance_at-Sound max zero m k (s ∷ ss) c h =
    let e : c ≡ pos (weight s + (weights ss + k)) = ground (arith, h.0) in
    let (counted, plain, below) = advance_lem max (weights ss + k) s h.1.0 in
    let s' = (advance max s (pos (weight s + (weights ss + k)))).0 in
    rw e (
      counted ∙ ap pos (omega arith),
      (plain, h.1.1),
      h.2,
      elim below [
        | inl le ↦ omega (arith, le, h.3)
        | inr le ↦ omega (arith, le, live-weight s', lives-weights ss, h.2)
      ],
    )
advance_at-Sound max (suc i) m k (s ∷ ss) c h =
    let ih =
      advance_at-Sound max i (live s + m) (weight s + k) ss c (
        h.0 ∙ ap pos (omega arith),
        h.1.1,
        omega (arith, live-weight s, h.2),
        omega (arith, h.3),
      ) in
    (ih.0 ∙ ap pos (omega arith), (h.1.0, ih.1), h.2, omega (arith, ih.3))

give_up_lem :
    (s : Slot) (ss : List Slot)
    → asks zero (s ∷ ss) ≡ false
    → Plain s
    → (w : ℕ) × (weight (give_up s) + w ≡ weight s)
      × Plain (give_up s)
      × (live (give_up s) ≤ live s)
unfolding give_up
give_up_lem incrementing ss quiet p = ground arith
give_up_lem rolling_back ss quiet p = (1, refl, tt, omega arith)
give_up_lem fixing_rollback ss quiet p = elim p [ ]
give_up_lem rejected ss quiet p = (0, refl, tt, omega arith)
give_up_lem holding ss quiet p = (0, refl, tt, omega arith)
give_up_lem releasing ss quiet p = (1, refl, tt, omega arith)
give_up_lem fixing_release ss quiet p = elim p [ ]
give_up_lem released ss quiet p = (0, refl, tt, omega arith)

-- A command that is lost leaves the counter as it is: what the call had added stays behind.
give_up_at-Sound :
    (max i m k : ℕ) (ss : List Slot) (c : ℤ)
    → asks i ss ≡ false
    → Sound max m k ss c
    → (k' : ℕ) × (k ≤ k') × Sound max m k' (give_up_at i ss) c
unfolding give_up_at
give_up_at-Sound max i m k [] c quiet h = (k, omega arith, h)
give_up_at-Sound max zero m k (s ∷ ss) c quiet h =
    let (w, kept, plain, le) = give_up_lem s ss quiet h.1.0 in
    (
      w + k,
      omega arith,
      (
        h.0 ∙ ap pos (omega (arith, kept)),
        (plain, h.1.1),
        omega (arith, h.2),
        omega (arith, le, h.3),
      ),
    )
give_up_at-Sound max (suc i) m k (s ∷ ss) c quiet h =
    let (k', more, (counted, plain, le, cap)) =
      give_up_at-Sound max i (live s + m) (weight s + k) ss c quiet (
        h.0 ∙ ap pos (omega arith),
        h.1.1,
        omega (arith, live-weight s, h.2),
        omega (arith, h.3),
      ) in
    (
      k' - weight s,
      omega (arith, more),
      (
        counted ∙ ap pos (omega (arith, more)),
        (h.1.0, plain),
        omega (arith, more, h.2),
        omega (arith, cap),
      ),
    )

run-Sound :
    (max k : ℕ) (es : List Event) (s : Calls)
    → slips max es s ≡ false
    → Sound max 0 k s.slots s.counter
    → let s' = run max es s in (k' : ℕ) × Sound max 0 k' s'.slots s'.counter
unfolding run step slips
run-Sound max k [] s quiet h = (k, h)
run-Sound max k (runs i ∷ es) s quiet h =
    run-Sound max k es (step max (runs i) s) quiet (advance_at-Sound max i 0 k s.slots s.counter h)
run-Sound max k (loses i ∷ es) s quiet h =
    let quiet' : (asks i s.slots ≡ false) × (slips max es (step max (loses i) s) ≡ false) =
      ground arith in
    let (k', _, sound) = give_up_at-Sound max i 0 k s.slots s.counter quiet'.0 h in
    run-Sound max k' es (step max (loses i) s) quiet'.1 sound
run-Sound max k (expires ∷ es) s quiet h = ground arith

waiting-Sound : (max n : ℕ) → Sound max 0 0 (waiting n) (pos 0)
waiting-Sound max zero = (refl, tt, omega arith, omega arith)
waiting-Sound max (suc n) =
    let ih = waiting-Sound max n in
    (ih.0 ∙ ap pos (omega arith), (tt, ih.1), ih.2, omega (arith, ih.3))

-- However the commands of any number of calls interleave, and whichever of them are lost after
-- their call has its slot, no more calls are let go on at once than the cap, unless an INCR is lost
-- or the key expires.
pub cap_held :
    (max n : ℕ) (es : List Event)
    → slips max es (start n) ≡ false
    → lives (run max es (start n)).slots ≤ max
cap_held max n es quiet =
    let (_, (_, _, _, cap)) = run-Sound max 0 es (start n) quiet (waiting-Sound max n) in
    omega (arith, cap)

-- Whether the run loses nothing.
abbrev pub all_run : List Event → Bool
all_run [] = true
all_run (runs i ∷ es) = all_run es
all_run (_ ∷ es) = false

run-exact :
    (max : ℕ) (es : List Event) (s : Calls)
    → all_run es ≡ true
    → Sound max 0 0 s.slots s.counter
    → let s' = run max es s in Sound max 0 0 s'.slots s'.counter
unfolding run step
run-exact max [] s quiet h = h
run-exact max (runs i ∷ es) s quiet h =
    run-exact max es (step max (runs i) s) quiet (advance_at-Sound max i 0 0 s.slots s.counter h)
run-exact max (loses i ∷ es) s quiet h = ground arith
run-exact max (expires ∷ es) s quiet h = ground arith

-- A call that has ended holds nothing.
abbrev pub IsOver : Slot → Type 0
IsOver rejected = Unit {0}
IsOver released = Unit {0}
IsOver _ = ⊥

weights-IsOver : (ss : List Slot) → All IsOver ss → weights ss ≡ 0
weights-IsOver [] h = refl
weights-IsOver (incrementing ∷ ss) h = elim h.0 [ ]
weights-IsOver (rolling_back ∷ ss) h = elim h.0 [ ]
weights-IsOver (fixing_rollback ∷ ss) h = elim h.0 [ ]
weights-IsOver (holding ∷ ss) h = elim h.0 [ ]
weights-IsOver (releasing ∷ ss) h = elim h.0 [ ]
weights-IsOver (fixing_release ∷ ss) h = elim h.0 [ ]
weights-IsOver (rejected ∷ ss) h = ap (λ n. 0 + n) (weights-IsOver ss h.1)
weights-IsOver (released ∷ ss) h = ap (λ n. 0 + n) (weights-IsOver ss h.1)

-- If no command is lost and the key does not expire, the counter is back at zero when every call
-- has been rejected or released, however they interleaved.
pub counter_drained :
    (max n : ℕ) (es : List Event)
    → all_run es ≡ true
    → All IsOver (run max es (start n)).slots
    → (run max es (start n)).counter ≡ pos 0
counter_drained max n es quiet over =
    let (counted, _, _, _) = run-exact max es (start n) quiet (waiting-Sound max n) in
    counted ∙ ap pos (omega (arith, weights-IsOver (run max es (start n)).slots over))
