-- ===== src/Flow/Windows/Tiling.antt =====
-- What `_chunks` of deepCab/flow_v2/simulate.py returns: the loop ends for every positive period,
-- and its windows tile the interval.
use deep_cab.Prelude.{
  ℕ, zero, suc, ◌+◌, ◌*◌, ◌≤◌, ◌<◌, ◌-◌, ◌≡◌, refl, ◌∙◌, ap, ◌⊎◌, inl, inr, ◌&&◌, none, some, List,
  [], ◌∷◌, ◌++◌, append_assoc, append-nil, arith, ltb, leb, lt→ltb, Bool-cases, if◌then◌else◌,
  length, min, max,
}
use deep_cab.Flow.Windows.{Window, chunk_loop, chunks}

-- The windows follow one another from `start`: each begins where the one before it ended, is not
-- empty, lies below `end`, and is as wide as `period` unless it ends at `end`; the last ends there.
abbrev pub Tiles : ℕ → ℕ → ℕ → List Window → Type 0
Tiles period end start [] = end ≤ start
Tiles period end start ((a, b) ∷ cs) =
    (a ≡ start)
    × (a < b)
    × (b ≤ end)
    × ((b ≡ a + period) ⊎ ((b ≡ end) × (end < a + period)))
    × Tiles period end b cs

-- The number of windows `[a, b)` that hold `t`.
abbrev pub holding : ℕ → List Window → ℕ
holding t [] = 0
holding t ((a, b) ∷ cs) = (if leb a t && ltb t b then 1 else 0) + holding t cs

-- With fuel above the distance to go, the loop returns what it has and a tiling of the rest.
chunk_loop-Tiles :
    (fuel cursor end period : ℕ) (out : List Window)
    → 0 < period
    → end - cursor < fuel
    → (cs : List Window) × (chunk_loop fuel cursor end period out ≡ some (out ++ cs))
      × Tiles period end cursor cs
unfolding chunk_loop
chunk_loop-Tiles zero cursor end period out pos enough = absurd (omega arith)
chunk_loop-Tiles (suc fuel) cursor end period out pos enough = elim (Bool-cases (ltb cursor end)) [
  | inr done ↦ ([], rw done (rw append-nil), ground arith)
  | inl more ↦
      let nxt : ℕ = min (cursor + period) end in
      let (cs, runs, tiles) =
        chunk_loop-Tiles fuel nxt end period (out ++ (cursor, nxt) ∷ []) pos (ground arith) in
      (
        (cursor, nxt) ∷ cs,
        rw more (runs ∙ ap some (append_assoc out ((cursor, nxt) ∷ []) cs)),
        (refl, ground arith, omega arith, omega arith, tiles),
      )
]

-- With a positive period, and fuel above the length of the interval, `_chunks` returns a tiling of
-- the interval.
pub chunks-Tiles :
    (fuel start end period : ℕ)
    → 0 < period
    → end - start < fuel
    → (cs : List Window) × (chunks fuel start end period ≡ some cs) × Tiles period end start cs
unfolding chunks
chunks-Tiles fuel start end period pos enough = chunk_loop-Tiles fuel start end period [] pos enough

holding-Tiles :
    (period end start t : ℕ) (cs : List Window)
    → Tiles period end start cs
    → holding t cs ≡ (if leb start t && ltb t end then 1 else 0)
holding-Tiles period end start t [] tiles = ground arith
holding-Tiles period end start t ((a, b) ∷ cs) tiles =
    ground (arith, holding-Tiles period end b t cs)

-- With a positive period, and fuel above the length of the interval, a time is in exactly one
-- chunk if it lies in `[start, end)`, and in none otherwise.
pub chunks_partition :
    (fuel start end period t : ℕ)
    → 0 < period
    → end - start < fuel
    → (cs : List Window) × (chunks fuel start end period ≡ some cs)
      × (holding t cs ≡ (if leb start t && ltb t end then 1 else 0))
chunks_partition fuel start end period t pos enough =
    let (cs, runs, tiles) = chunks-Tiles fuel start end period pos enough in
    (cs, runs, holding-Tiles period end start t cs tiles)

length-Tiles_done :
    (period end start : ℕ) (cs : List Window)
    → end ≤ start
    → Tiles period end start cs
    → length cs ≡ 0
length-Tiles_done period end start [] h tiles = refl
length-Tiles_done period end start ((a, b) ∷ cs) h tiles = absurd (omega arith)

length-Tiles :
    (period end start : ℕ) (cs : List Window)
    → 0 < period
    → Tiles period end start cs
    → (end ≤ start + length cs * period) × (start + length cs * period < max end start + period)
length-Tiles period end start [] pos tiles = omega arith
length-Tiles period end start ((a, b) ∷ cs) pos tiles = elim tiles.3 [
  | inl full ↦
      let ih : (end ≤ b + length cs * period) × (b + length cs * period < max end b + period) =
        length-Tiles period end b cs pos tiles.4 in
      omega arith
  | inr (last, short) ↦
      let none_left : length cs ≡ 0 = length-Tiles_done period end b cs (omega arith) tiles.4 in
      rw none_left (omega arith)
]

-- With a positive period, and fuel above the length of the interval, the number of chunks is that
-- length divided by the period, rounded up.
pub chunks_count :
    (fuel start end period : ℕ)
    → 0 < period
    → end - start < fuel
    → (cs : List Window) × (chunks fuel start end period ≡ some cs)
      × (end - start ≤ length cs * period)
      × (length cs * period < end - start + period)
chunks_count fuel start end period pos enough =
    let (cs, runs, tiles) = chunks-Tiles fuel start end period pos enough in
    let (above, below) = length-Tiles period end start cs pos tiles in
    (cs, runs, omega arith, omega arith)

loop_stuck :
    (fuel cursor end : ℕ) (out : List Window)
    → cursor < end
    → chunk_loop fuel cursor end 0 out ≡ none
unfolding chunk_loop
loop_stuck zero cursor end out gap = refl
loop_stuck (suc fuel) cursor end out gap =
    let same : min (cursor + 0) end ≡ cursor = omega arith in
    rw (lt→ltb cursor end gap, same) (loop_stuck fuel cursor end (out ++ (cursor, cursor) ∷ []) gap)

-- With a period of zero and an interval that is not empty, the loop runs out of any fuel.
pub chunks_stuck : (fuel start end : ℕ) → start < end → chunks fuel start end 0 ≡ none
unfolding chunks
chunks_stuck fuel start end gap = loop_stuck fuel start end [] gap
