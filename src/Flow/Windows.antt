-- ===== src/Flow/Windows.antt =====
-- The time windows of the flows: `_chunks` of deepCab/flow_v2/simulate.py and `next_window` of
-- deepCab/flow_v2/nightly.py. A datetime is a number of time units from a fixed origin, and a
-- timedelta a number of units; both flows build non-negative periods.
pub mod Tiling
pub mod Cursor
use deep_cab.Prelude.{
  ℕ, zero, suc, ◌+◌, min, Option, none, some, List, [], ◌∷◌, ◌++◌, ltb, leb, if◌then◌else◌,
}

abbrev pub Window : Type 0
Window = ℕ × ℕ

-- The `while cursor < end` loop of `_chunks`, on fuel; `none` means that the fuel ran out.
pub chunk_loop : ℕ → ℕ → ℕ → ℕ → List Window → Option (List Window)
chunk_loop zero cursor end period out = none
chunk_loop (suc fuel) cursor end period out =
    let nxt : ℕ = min (cursor + period) end in
    let rest = chunk_loop fuel nxt end period (out ++ (cursor, nxt) ∷ []) in
    if ltb cursor end then rest else some out

-- `_chunks(start, end, period)`.
unfoldable pub chunks : ℕ → ℕ → ℕ → ℕ → Option (List Window)
unfolding chunk_loop
chunks fuel start end period = chunk_loop fuel start end period []

-- `last_end or floor`: a datetime is always true in Python.
abbrev pub start_of : Option ℕ → ℕ → ℕ
start_of none floor = floor
start_of (some last_end) floor = last_end

-- `next_window(last_end, period, floor=..., horizon=...)`.
unfoldable pub next_window : Option ℕ → ℕ → ℕ → ℕ → Window
next_window last_end period floor horizon =
    let start : ℕ = start_of last_end floor in
    let from : ℕ = if leb horizon start then floor else start in (from, min (from + period) horizon)
