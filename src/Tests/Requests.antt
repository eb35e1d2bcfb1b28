-- ===== src/Tests/Requests.antt =====
-- Predictions, batches, summaries and spans on concrete requests.
use deep_cab.Prelude.{
  ℕ, ◌+◌, ◌*◌, String, true, false, none, some, List, [], ◌∷◌, ◌++◌, ◌≡◌, ◌≢◌, inl, inr, refl,
  arith, map, str_eq, eq_iff, false≢true,
}
use deep_cab.Prelude.Floats.{fixed}
use deep_cab.Prelude.Dict.{lookup}
use deep_cab.Prelude.Exec.{ok, raised, Exec}
use deep_cab.Models.Conformal.{AciRegressor}
use deep_cab.Registry.Runs.{ModelHandle}
use deep_cab.Api.Predictions.{FeatureRow, Predictor, point_predict, predict_many, predict_stream}
use deep_cab.Api.Predictions.Batching.{predict_many-predict_stream}
use deep_cab.Serving.Batcher.{Item, answer_batch}
use deep_cab.Serving.Batcher.Answers.{answer_batch-own}
use deep_cab.Explain.Cache.{GlobalSummary, Redis, Caches, get_cached, get_global_summary}
use deep_cab.Explain.Cache.Lookups.{HasOnly}
use deep_cab.Obs.Tracer.{Clock, Tracer, Traced, Span, Event, end, span, note, write, span_id_of}
use deep_cab.Obs.Tracer.Spans.{Encloses, span-Encloses}

text_differs : (a b : String) → str_eq a b ≡ false → a ≢ b
text_differs a b h e = false≢true (ground (arith, h, (eq_iff a b).1 e))

abbrev fare : FeatureRow ℕ → ℕ
fare row = row.pickup_latitude + 3

-- The features of rows are the rows, and the estimator adds 3.
abbrev predictor : Predictor ℕ ℕ (List (FeatureRow ℕ)) ℕ
predictor = record {
  floats = fixed;
  radians = λ x. x;
  sin = λ x. x;
  cos = λ x. x;
  asin = λ x. x;
  round = λ x digits. x;
  uniform = λ j seed. (seed, seed + 1);
  preprocess_features = λ rows. rows;
  estimate = λ e rows. map fare rows;
  quantile = λ xs q. 2;
  active = none;
}

abbrev regressor : AciRegressor ℕ (List (FeatureRow ℕ))
regressor = record {
  base = λ rows. map fare rows;
  alpha = 10_000_000;
  gamma = 500_000;
  residuals = some (1 ∷ 2 ∷ []);
  alpha_t = 10_000_000;
}

abbrev model : ModelHandle ℕ ℕ (List (FeatureRow ℕ))
model = record { estimator = 3; backend_kind = "xgb"; background = none; aci = some regressor }

rowwise_lem :
    (rows : List (FeatureRow ℕ))
    → point_predict predictor model (predictor.preprocess_features rows) ≡ map fare rows
unfolding point_predict
rowwise_lem rows = refl

abbrev row_at : ℕ → FeatureRow ℕ
row_at n = record {
  pickup_latitude = n;
  pickup_longitude = 0;
  dropoff_latitude = 0;
  dropoff_longitude = 0;
}

predict_many-predict_stream_example :
    predict_many predictor model (row_at 1 ∷ row_at 5 ∷ [])
    ≡ predict_stream predictor model (row_at 1 ∷ row_at 5 ∷ [])
predict_many-predict_stream_example =
    predict_many-predict_stream predictor model fare rowwise_lem
      (inr (regressor, 1 ∷ 2 ∷ [], refl, refl)) (row_at 1 ∷ row_at 5 ∷ [])

abbrev first_or_zero : List ℕ → ℕ
first_or_zero [] = 0
first_or_zero (x ∷ xs) = x * 2

abbrev item_of : String → List ℕ → Item ℕ
item_of name row = record { fut = name; row = row }

answer_batch-own_example :
    lookup "b" (
      answer_batch
        (λ rows. ok (map first_or_zero rows))
        ((item_of "a" (1 ∷ []) ∷ item_of "stop" [] ∷ []) ++ item_of "b" (2 ∷ []) ∷ [])
        [])
    ≡ some (ok 4)
unfolding lookup
answer_batch-own_example =
    answer_batch-own (λ rows. ok (map first_or_zero rows)) first_or_zero
      (item_of "a" (1 ∷ []) ∷ item_of "stop" [] ∷ []) [] (item_of "b" (2 ∷ [])) 2 [] []
      (λ rows. refl) refl (text_differs "a" "b" refl, (text_differs "stop" "b" refl, tt)) refl

abbrev summary : GlobalSummary ℕ
summary = record { by_feature = ("distance", 7) ∷ []; n_background = 200; fingerprint = "f" }

-- A server that accepts nothing.
abbrev broken : Redis ℕ ℕ
broken = record {
  get = λ key s. (raised "ConnectionError", s + 1);
  set = λ key value s. (raised "ConnectionError", s + 1);
}

abbrev caches : Caches ℕ ℕ
caches = record { local = []; server = 0 }

cold : (get_cached (some broken) "f" caches).0 ≡ none
unfolding get_cached lookup
cold = refl

still_broken :
    HasOnly (some broken) "f" summary (get_global_summary (some broken) "f" (ok summary) caches).1
still_broken = inl refl

abbrev clock : Clock ℕ ℕ
clock = record {
  floats = fixed;
  time = λ w. (w, w + 1);
  hex = λ w. ("id", w + 1);
  trace_text = λ e. e;
}

abbrev tracer : Tracer
tracer = record { run_id = "run"; enabled = true }

abbrev traced : Traced ℕ ℕ
traced = record { current = none; file = []; world = 0 }

-- A block that notes something, and then raises.
abbrev failing : Span ℕ → Exec (Traced ℕ ℕ) (Unit {0})
failing sp s = (raised "ValueError: x", note clock tracer "retry" s)

-- The event of that note, at the time and below the span of the state
abbrev noted : Span ℕ → Traced ℕ ℕ → List (Event ℕ)
noted sp s =
    record {
      ts = s.world;
      run_id = "run";
      span_id = "id";
      parent_id = span_id_of clock tracer s.current;
      kind = "note";
      name = "retry";
      phase = end;
      latency_ms = none;
      error = none;
    }
    ∷ []

failing-appends : (sp : Span ℕ) (s : Traced ℕ ℕ) → (failing sp s).1.file ≡ s.file ++ noted sp s
unfolding note write
failing-appends sp s = refl

span-Encloses_example :
    ((span clock tracer "tool" "train" failing traced).1.current ≡ none)
    × Encloses clock tracer none [] failing noted
        (span clock tracer "tool" "train" failing traced).0
        (span clock tracer "tool" "train" failing traced).1.file
span-Encloses_example =
    span-Encloses clock tracer "tool" "train" failing traced noted refl failing-appends
