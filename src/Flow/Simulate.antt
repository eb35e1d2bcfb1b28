-- ===== src/Flow/Simulate.antt =====
-- The simulate flow of deepCab/flow_v2/simulate.py: one training, evaluation and promotion for each chunk
-- of a window. The executor that trains, the evaluation of the loaded model, the promotion service and
-- the printing of numbers are fields of `Flow`; a datetime is a number, as in deep_cab.Flow.Windows.
pub mod Tallies
use deep_cab.Prelude.{
  ℕ, suc, ◌+◌, String, ◌<>◌, Bool, true, false, Option, none, some, min, ◌*◌, List, [], ◌∷◌, ◌++◌,
  ◌||◌, if◌then◌else◌, length,
}
use deep_cab.Prelude.Floats.{FloatOps}
use deep_cab.Prelude.Exec.{ok, Exec, pure, ◌>>=◌, ◌>>◌}
use deep_cab.Schemas.Enums.{BackendKind, backend_value}
use deep_cab.Schemas.Settings.{ObsSettings, text_or, or_else}
use deep_cab.Obs.Notify.{Delivery, post, notify_flow_event}
use deep_cab.Training.Evaluate.{EvalResult}
use deep_cab.Registry.Promotion.{PromotionResult}
use deep_cab.Flow.Overlay.{Process, Overrides, env_overlay}
use deep_cab.Flow.Windows.{Window, chunks}

pub record ChunkResult (F : Type 0) : Type 0 where
  pub chunk_index : ℕ
  pub where_clause : String
  pub train_run_id : Option String
  pub challenger_metric : F
  pub promotion : PromotionResult F

pub record SimulateResult (F : Type 0) : Type 0 where
  pub backend : BackendKind
  pub chunks : List (ChunkResult F)
  pub promotions : ℕ
  pub final_champion_version : Option String
  pub mae_trajectory : List F
  pub estimated_total_cost_usd : F

-- What happens outside: the notifications sent, and the rest.
pub record Scene (S : Type 0) : Type 0 where
  pub outbox : List Delivery
  pub outside : S

-- The collaborators of the flow. `train` is the executor's call on a run name and a WHERE clause, and
-- gives the run id; `promote` is given the run id as text and the threshold.
pub record Flow (F S : Type 0) : Type 0 where
  pub floats : FloatOps F
  pub obs : ObsSettings
  pub backend : BackendKind
  pub train : String → String → Exec (Process (Scene S)) (Option String)
  pub cost_per_call : F
  pub evaluate : Exec (Process (Scene S)) (EvalResult F)
  pub promote : Option String → F → Exec (Process (Scene S)) (PromotionResult F)
  -- `datetime.isoformat(" ")`, `f"{n}"`, `f"{n:03d}"`, `f"{x:.3f}"`
  pub isoformat : ℕ → String
  pub show_ℕ : ℕ → String
  pub show_padded : ℕ → String
  pub show_metric : F → String

-- `chunk_where_clause` of deepCab/data/bigquery.py, on its default column
unfoldable pub chunk_where_clause : String → String → String
chunk_where_clause chunk_start chunk_end =
    "pickup_datetime >= TIMESTAMP('" <> chunk_start <> "') AND pickup_datetime < TIMESTAMP('"
    <> chunk_end <> "')"

abbrev pub show_bool : Bool → String
show_bool true = "True"
show_bool false = "False"

module _ {F S : Type 0} (fl : Flow F S) where
  abbrev pub P : Type 0
  P = Process (Scene S)

  abbrev pub ingest : Window → String
  ingest (start, end) = chunk_where_clause (fl.isoformat start) (fl.isoformat end)

  -- `train_chunk_task`
  unfoldable pub train_chunk : String → String → Exec P (Option String)
  unfolding env_overlay
  train_chunk run_name clause =
      env_overlay (("DATA_SOURCE", some "query") ∷ ("DATA_BQ_WHERE", some clause) ∷ []) true
        (fl.train run_name clause)

  abbrev pub send : List Delivery → Exec P (Unit {0})
  send ds p = (ok tt, record p { rest = record p.rest { outbox = p.rest.outbox ++ ds } })

  -- `notify_chunk_task`
  unfoldable pub notify_chunk : ChunkResult F → ℕ → List Delivery
  notify_chunk chunk total =
      post fl.obs
        ("chunk "
          <> fl.show_ℕ (chunk.chunk_index + 1)
          <> "/"
          <> fl.show_ℕ total
          <> " · mae="
          <> fl.show_metric chunk.challenger_metric
          <> " · promoted="
          <> show_bool chunk.promotion.promoted
          <> " ("
          <> chunk.promotion.reason
          <> ")")
        "simulate" (("run", text_or "" (or_else chunk.train_run_id (some "?"))) ∷ [])

  -- What the flow's result gains from a chunk.
  unfoldable pub add_chunk : ChunkResult F → SimulateResult F → SimulateResult F
  add_chunk chunk result = record {
    backend = result.backend;
    chunks = result.chunks ++ chunk ∷ [];
    promotions = if chunk.promotion.promoted then result.promotions + 1 else result.promotions;
    final_champion_version =
        if chunk.promotion.promoted
        then chunk.promotion.new_champion_version
        else result.final_champion_version;
    mae_trajectory = result.mae_trajectory ++ chunk.challenger_metric ∷ [];
    estimated_total_cost_usd = fl.floats.add result.estimated_total_cost_usd fl.cost_per_call;
  }

  -- The end of a round: the chunk is recorded, and announced if it is to be.
  unfoldable pub record_chunk :
      Bool
      → ℕ
      → ℕ
      → String
      → Option String
      → EvalResult F
      → PromotionResult F
      → SimulateResult F
      → Exec P (SimulateResult F)
  unfolding notify_chunk add_chunk
  record_chunk every_chunk total i clause run_id score promotion result = do
    let chunk : ChunkResult F = record {
      chunk_index = i;
      where_clause = clause;
      train_run_id = run_id;
      challenger_metric = score.mae;
      promotion = promotion;
    }
    send (if every_chunk || promotion.promoted then notify_chunk chunk total else [])
    pure (add_chunk chunk result)

  -- One round of the loop over the chunks.
  unfoldable pub simulate_chunk :
      F → Bool → ℕ → ℕ → Window → SimulateResult F → Exec P (SimulateResult F)
  unfolding train_chunk
  simulate_chunk threshold every_chunk total i window result = do
    let clause = ingest window
    run_id ← train_chunk ("sim-" <> fl.show_padded i <> "-" <> backend_value fl.backend) clause
    score ← fl.evaluate
    promotion ← fl.promote run_id threshold
    record_chunk every_chunk total i clause run_id score promotion result

  unfoldable pub simulate_chunks :
      F → Bool → ℕ → ℕ → List Window → SimulateResult F → Exec P (SimulateResult F)
  simulate_chunks threshold every_chunk total i [] result = pure result
  simulate_chunks threshold every_chunk total i (window ∷ windows) result =
      simulate_chunk threshold every_chunk total i window result
      >>= simulate_chunks threshold every_chunk total (suc i) windows

  abbrev pub start_result : SimulateResult F
  start_result = record {
    backend = fl.backend;
    chunks = [];
    promotions = 0;
    final_champion_version = none;
    mae_trajectory = [];
    estimated_total_cost_usd = fl.floats.of_ℕ 0;
  }

  abbrev pub flow_event : String → ℕ → List Delivery
  flow_event state total =
      notify_flow_event fl.obs "simulate" state
        (backend_value fl.backend <> "-" <> fl.show_ℕ total <> "chunks")

  -- `_simulate_impl`, once its chunks are cut.
  unfoldable pub simulate_windows : F → Bool → List Window → Exec P (SimulateResult F)
  unfolding simulate_chunks
  simulate_windows threshold every_chunk windows = do
    send (flow_event "running" (length windows))
    result ← simulate_chunks threshold every_chunk (length windows) 0 windows start_result
    send (flow_event "success" (length windows))
    pure result

  -- `_simulate_impl`; none means that the cutting into chunks ran out of fuel.
  unfoldable pub simulate : ℕ → ℕ → ℕ → ℕ → F → Bool → Option (Exec P (SimulateResult F))
  unfolding chunks simulate_windows
  simulate fuel start end period threshold every_chunk = elim (chunks fuel start end period) [
    | none ↦ none
    | some windows ↦ some (simulate_windows threshold every_chunk windows)
  ]

-- The end that `_main` of the module passes on, with `--max-chunks`.
unfoldable pub trimmed_end : ℕ → ℕ → ℕ → Option ℕ → ℕ
trimmed_end start end period none = end
trimmed_end start end period (some max_chunks) = min end (start + period * max_chunks)
