-- ===== src/Flow/Vm/Polling.antt =====
-- The polling of deepCab/flow_v2/simulate.py ends, and how.
use deep_cab.Prelude.{ℕ, ◌+◌, ◌≤◌, ◌<◌, String, none, some, List, ◌≡◌}
use deep_cab.Prelude.Exec.{Result, ok, raised}
use deep_cab.Flow.Vm.{RunInfo, Remote, finished_id, query}

module _ {S : Type 0} (rm : Remote S) where
  -- Sleeping takes its time, and no call turns the clock back.
  pub record IsClock (run_name : String) : Type 0 where
    pub sleeps : (n : ℕ) (s : S) → rm.monotonic s + n ≤ rm.monotonic (rm.sleep n s)
    pub runs_on : (s : S) → rm.monotonic s ≤ rm.monotonic (query rm run_name s).1

  -- How a polling can go from a state to its outcome.
  pub data Polls (interval : ℕ) (run_name : String) (deadline : ℕ)
      : S → Result String × S → Type 0 where
    times_out :
        {s : S}
        → deadline ≤ rm.monotonic s
        → Polls interval run_name deadline s (raised "TimeoutError", s)
    fails :
        {s s' : S} {e : String}
        → rm.monotonic s < deadline
        → query rm run_name s ≡ (raised e, s')
        → Polls interval run_name deadline s (raised e, s')
    finds :
        {s s' : S} {runs : List RunInfo} {id : String}
        → rm.monotonic s < deadline
        → query rm run_name s ≡ (ok runs, s')
        → finished_id runs ≡ some id
        → Polls interval run_name deadline s (ok id, s')
    waits :
        {s s' : S} {runs : List RunInfo} {outcome : Result String × S}
        → rm.monotonic s < deadline
        → query rm run_name s ≡ (ok runs, s')
        → finished_id runs ≡ none
        → Polls interval run_name deadline (rm.sleep interval s') outcome
        → Polls interval run_name deadline s outcome
