-- ===== src/Dispatcher/Window/Opening.antt =====
-- compliance.go: when the calling window is open, and when it next opens.
use lead.Prelude.{
  ℕ, ◌+◌, ◌≤◌, ◌<◌, ◌≡◌, refl, ◌⊎◌, inl, inr, true, false, none, arith, ltb, Bool-cases,
}
use lead.Dispatcher.Row.{Ctx, read_num}
use lead.Dispatcher.Window.{
  Calendar, IsSteady, positive, window_hours, in_calling_window, next_window_open,
}

-- The end hour that the dispatcher uses is at least 1, and unless the context configures one the
-- window is 10 to 19.
pub window_hours_lem :
    (c : Ctx)
    → (0 < (window_hours c).1)
      × (positive (read_num "_call_window_end_hour" c) ≡ none → window_hours c ≡ (10, 19))
unfolding window_hours
window_hours_lem c = ground arith

module _ {L : Type 0} (cal : Calendar L) (loc : L) (steady : IsSteady cal loc) where
  -- The opening at hour `start_h` of day `d`, which lies after `now`.
  opening :
      (now start_h end_h d : ℕ)
      → (cal.day now loc < d) ⊎ ((cal.day now loc ≡ d) × (cal.hour now loc < start_h))
      → start_h < 24
      → start_h < end_h
      → (now < cal.date d start_h loc)
        × (in_calling_window cal (cal.date d start_h loc) start_h end_h loc ≡ true)
  unfolding in_calling_window
  opening now start_h end_h d later h lt =
      let at = steady.date_day now d start_h later h in
      (
        grind (
          arith,
          at,
          steady.day_mono (cal.date d start_h loc) now,
          steady.hour_mono (cal.date d start_h loc) now,
        ),
        ground (arith, at),
      )

  shut_until :
      (now start_h end_h d u : ℕ)
      → (cal.day now loc < d) ⊎ ((cal.day now loc ≡ d) × (cal.hour now loc < start_h))
      → (d ≡ cal.day now loc) ⊎ ((d ≡ cal.day now loc + 1) × (start_h ≤ cal.hour now loc))
      → start_h < 24
      → start_h < end_h
      → in_calling_window cal now start_h end_h loc ≡ false
      → now ≤ u
      → u < cal.date d start_h loc
      → in_calling_window cal u start_h end_h loc ≡ false
  unfolding in_calling_window
  shut_until now start_h end_h d u later next h lt shut le before = ground (
    arith,
    steady.date_first now d start_h u later h before,
    steady.day_mono now u le,
    steady.hour_mono now u le,
  )

  -- In a location with a steady clock, the next opening is later than now and lies in the window,
  -- if the window starts before midnight and ends after it starts.
  pub next_window_open_lem :
      (now start_h end_h : ℕ)
      → start_h < 24
      → start_h < end_h
      → (now < next_window_open cal now start_h loc)
        × (in_calling_window cal (next_window_open cal now start_h loc) start_h end_h loc ≡ true)
  unfolding next_window_open
  next_window_open_lem now start_h end_h h lt = elim (Bool-cases (ltb (cal.hour now loc) start_h)) [
    | inl early ↦ rw early (opening now start_h end_h (cal.day now loc) (ground arith) h lt)
    | inr late ↦ rw late (opening now start_h end_h (cal.day now loc + 1) (ground arith) h lt)
  ]

  -- A row that is deferred outside the window misses no opening: in a location with a steady
  -- clock, for a window that starts before midnight and ends after it starts and is shut now, it
  -- is shut at every instant from now until the next opening.
  pub next_window_open_first :
      (now start_h end_h u : ℕ)
      → start_h < 24
      → start_h < end_h
      → in_calling_window cal now start_h end_h loc ≡ false
      → now ≤ u
      → u < next_window_open cal now start_h loc
      → in_calling_window cal u start_h end_h loc ≡ false
  unfolding next_window_open
  next_window_open_first now start_h end_h u h lt shut le =
      elim (Bool-cases (ltb (cal.hour now loc) start_h)) [
        | inl early ↦ rw early (
            shut_until now start_h end_h (cal.day now loc) u (ground arith) (inl refl) h lt shut le)
        | inr late ↦ rw late (
            shut_until now start_h end_h (cal.day now loc + 1) u (ground arith) (ground arith) h lt
              shut le)
      ]
