-- ===== src/Flow/Windows/Cursor.antt =====
-- The walk of deepCab/flow_v2/nightly.py over the year: what `next_window` returns, how one window
-- follows another, and that `_simulate_impl` makes one chunk of it.
use deep_cab.Prelude.{
  ℕ, suc, ◌+◌, ◌-◌, ◌≤◌, ◌<◌, ◌≡◌, ◌≢◌, refl, false, Option, some, [], ◌∷◌, arith, ltb, lt→ltb, min,
}
use deep_cab.Flow.Windows.{Window, chunk_loop, chunks, start_of, next_window}

-- What a good next window is, for a walk that has reached `reached`.
pub record IsNext (reached period floor horizon : ℕ) (w : Window) : Type 0 where
  pub above : floor ≤ w.0
  pub nonempty : w.0 < w.1
  pub within : w.1 ≤ horizon
  pub narrow : w.1 ≤ w.0 + period
  pub follows : reached < horizon → w.0 ≡ reached
  pub wraps : horizon ≤ reached → w.0 ≡ floor
  pub full : w.1 ≢ horizon → w.1 ≡ w.0 + period

-- With a positive period, a floor below the horizon and a cursor not below the floor, the next
-- window is not empty, is at most a period wide, lies in the year, and begins where the last one
-- ended, or at the floor if there is none or the year is over; it is narrower than a period only
-- at the end of the year.
pub next_window-IsNext :
    (last_end : Option ℕ) (period floor horizon : ℕ)
    → floor < horizon
    → 0 < period
    → floor ≤ start_of last_end floor
    → IsNext
        (start_of last_end floor)
        period
        floor
        horizon
        (next_window last_end period floor horizon)
unfolding next_window
next_window-IsNext last_end period floor horizon year pos above = record {
  above = ground arith;
  nonempty = ground arith;
  within = ground arith;
  narrow = ground arith;
  follows = λ h. ground arith;
  wraps = λ h. ground arith;
  full = λ h. ground arith;
}

-- An interval that is split by its own width is one chunk.
chunks_single :
    (fuel start end : ℕ)
    → start < end
    → chunks (suc (suc fuel)) start end (end - start) ≡ some ((start, end) ∷ [])
unfolding chunks chunk_loop
chunks_single fuel start end h =
    let whole : min (start + (end - start)) end ≡ end = omega arith in
    let over : ltb end end ≡ false = ground arith in rw (lt→ltb start end h, whole, over) refl

-- With a positive period, a floor below the horizon and a cursor not below the floor, `_chunks`
-- with the width of the next window as its period returns that window as the one chunk.
pub chunks-next_window :
    (fuel : ℕ) (last_end : Option ℕ) (period floor horizon : ℕ)
    → floor < horizon
    → 0 < period
    → floor ≤ start_of last_end floor
    → let (start, end) = next_window last_end period floor horizon in
      chunks (suc (suc fuel)) start end (end - start) ≡ some ((start, end) ∷ [])
chunks-next_window fuel last_end period floor horizon year pos above =
    chunks_single fuel _ _
      (next_window-IsNext last_end period floor horizon year pos above).nonempty
