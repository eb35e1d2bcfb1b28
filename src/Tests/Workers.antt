-- ===== src/Tests/Workers.antt =====
-- The worker of the batcher, the background tasks, and the polling for a training that runs elsewhere.
use deep_cab.Prelude.{
  ℕ, suc, ◌+◌, ◌≤◌, String, false, Option, none, some, List, [], ◌∷◌, ◌++◌, ◌≡◌, ◌⊎◌, refl, sym, ap,
  map, length, leb, if◌then◌else◌,
}
use deep_cab.Prelude.Dict.{lookup, insert, erase}
use deep_cab.Prelude.Exec.{Result, ok, raised}
use deep_cab.Schemas.Enums.{xgb}
use deep_cab.Serving.Batcher.{Item, collect_rest, collect_batch, answer_batch}
use deep_cab.Serving.Batcher.Worker.{collecting, Worker, submit, submits, Way, here, ◌then◌, rounds}
use deep_cab.Serving.Batcher.Worker.Rounds.{IsRowwise, IsAnswered}
use deep_cab.Serving.Batcher.Worker.Draining.{queued-IsAnswered}
use deep_cab.Serving.Batcher.Worker.Stopping.{after_stop, stop_strands}
use deep_cab.Api.Tasks.{new_record, running}
use deep_cab.Api.Tasks.Steps.{
  Service, empty_service, enqueue, begin, finish, starts, begins, finishes, Reach, here as idle,
  next,
}
use deep_cab.Api.Tasks.Steps.Diagram.{view, ◌⟶*◌, Reach-⟶*}
use deep_cab.Flow.Vm.{VmTrainExecutor, Remote}

abbrev first_of : List ℕ → ℕ
first_of [] = 0
first_of (x ∷ xs) = x

abbrev predict : List (List ℕ) → Result (List ℕ)
predict rows = ok (map first_of rows)

length-first_of : (rows : List (List ℕ)) → length (map first_of rows) ≡ length rows
length-first_of [] = refl
length-first_of (row ∷ rows) = ap (λ n. suc n) (length-first_of rows)

predict-IsRowwise : IsRowwise predict
predict-IsRowwise rows ys h = cc (h, length-first_of rows)

abbrev item : String → ℕ → Item ℕ
item fut x = record { fut = fut; row = x ∷ [] }

-- Three rows wait, and the worker collects.
abbrev busy : Worker ℕ
busy = record {
  queue = item "a" 1 ∷ item "b" 2 ∷ item "c" 3 ∷ [];
  closed = false;
  phase = collecting;
  futures = [];
}

abbrev one_more : Worker ℕ
one_more = record busy { queue = item "a" 1 ∷ item "b" 2 ∷ item "c" 3 ∷ item "d" 4 ∷ [] }

submitted : Way 2 predict busy one_more
unfolding submit
submitted = submits busy (item "d" 4) refl then here one_more

queued-IsAnswered_example :
    ((rounds submitted ≤ length (item "a" 1 ∷ [])) ⊎ IsAnswered one_more.futures (item "b" 2))
    × ((v : Worker ℕ) × Way 2 predict busy v × IsAnswered v.futures (item "b" 2))
queued-IsAnswered_example =
    queued-IsAnswered (item "a" 1 ∷ []) (item "c" 3 ∷ []) (item "b" 2) predict-IsRowwise (λ e. cc e)
      refl refl submitted

abbrev waits : List (Option (Item ℕ))
waits = some (item "b" 2) ∷ []

batch_lem : collect_batch 2 (item "a" 1) waits ≡ item "a" 1 ∷ item "b" 2 ∷ []
unfolding collect_batch collect_rest
batch_lem = refl

stop_strands_example :
    let batch = collect_batch 2 (item "a" 1) waits in
    let stopped = after_stop predict "s" batch (item "c" 3 ∷ []) busy in
    Way 2 predict busy stopped × (stopped.futures ≡ answer_batch predict batch [])
stop_strands_example =
    stop_strands busy (item "a" 1) waits (item "c" 3 ∷ []) "s" refl
      (sym (ap (λ batch. batch ++ item "c" 3 ∷ []) batch_lem)) (here _)

abbrev minted : Service
minted = enqueue "a" empty_service

abbrev begun : Service
begun = begin "a" (new_record "a") minted

abbrev ended : Service
ended = finish "a" (raised "OSError: disk") (record (new_record "a") { status = running }) begun

lived : Reach empty_service ended
unfolding empty_service enqueue begin finish lookup insert erase
lived =
    next
      (next (next idle (starts empty_service "a" refl))
        (begins minted "a" (new_record "a") refl refl))
      (finishes begun "a" (raised "OSError: disk") (record (new_record "a") { status = running })
        refl refl)

Reach-⟶*_example : view "a" empty_service ⟶* view "a" ended
Reach-⟶*_example = Reach-⟶* "a" idle lived

-- The clock is the state, and the run is there from the second hour on.
abbrev pub remote : Remote ℕ
remote = record {
  launch = λ args run_name s. (ok tt, s + 60);
  monotonic = λ s. s;
  sleep = λ n s. s + n;
  experiment = none;
  experiment_by_name = λ name s. (ok (some "1"), s);
  search_runs = λ ids filter s.
      (ok (record { run_id = "r7"; status = if leb 600 s then "FINISHED" else "RUNNING" } ∷ []), s);
}

abbrev pub executor : VmTrainExecutor
executor = record {
  backend = xgb;
  data_size = "10k";
  env = "dev";
  poll_interval_seconds = 30;
  timeout_seconds = 2700;
}
