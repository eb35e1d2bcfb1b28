-- ===== src/Obs/Tracer.antt =====
-- `Tracer` of deepCab/obs/jsonl.py: the spans, and the events that they write. The arguments, results and
-- meta data of an event are left out; the clock and the random ids are fields of `Clock`.
pub mod Spans
use deep_cab.Prelude.{
  String, Bool, true, false, Option, none, some, List, [], ◌∷◌, ◌++◌, if◌then◌else◌,
}
use deep_cab.Prelude.Floats.{FloatOps}
use deep_cab.Prelude.Exec.{Result, ok, raised, Exec}

pub data Phase : Type 0 where
  start end : Phase

pub record Event (F : Type 0) : Type 0 where
  pub ts : F
  pub run_id : String
  pub span_id : String
  pub parent_id : Option String
  pub kind : String
  pub name : String
  pub phase : Phase
  pub latency_ms : Option F
  pub error : Option String

pub record Span (F : Type 0) : Type 0 where
  pub run_id : String
  pub span_id : String
  pub parent_id : Option String
  pub kind : String
  pub name : String
  pub started : F

pub record Clock (F W : Type 0) : Type 0 where
  pub floats : FloatOps F
  pub time : W → F × W
  -- `uuid.uuid4().hex[:10]`
  pub hex : W → String × W
  -- the exception's text with its traceback
  pub trace_text : String → String

-- `Tracer`, less its paths
pub record Tracer : Type 0 where
  pub run_id : String
  pub enabled : Bool

-- The context's current span, the file, and the world.
pub record Traced (F W : Type 0) : Type 0 where
  pub current : Option (Span F)
  pub file : List (Event F)
  pub world : W

module _ {F W : Type 0} (ck : Clock F W) (tr : Tracer) where
  -- `_write`
  unfoldable pub write : Event F → Traced F W → Traced F W
  write ev s = if tr.enabled then record s { file = s.file ++ ev ∷ [] } else s

  abbrev pub span_id_of : Option (Span F) → Option String
  span_id_of none = none
  span_id_of (some sp) = some sp.span_id

  -- The span that `span` makes, and the state with it as the current one.
  unfoldable pub open_span : String → String → Traced F W → Span F × Traced F W
  open_span kind name s =
      let (id, w) = ck.hex s.world in
      let (now, w') = ck.time w in
      let sp : Span F = record {
        run_id = tr.run_id;
        span_id = id;
        parent_id = span_id_of s.current;
        kind = kind;
        name = name;
        started = now;
      } in
      (sp, record s { current = some sp; world = w' })

  abbrev pub start_event : Span F → Event F
  start_event sp = record {
    ts = sp.started;
    run_id = sp.run_id;
    span_id = sp.span_id;
    parent_id = sp.parent_id;
    kind = sp.kind;
    name = sp.name;
    phase = start;
    latency_ms = none;
    error = none;
  }

  abbrev pub end_event : Span F → F → F → Option String → Event F
  end_event sp ts now error = record {
    ts = ts;
    run_id = sp.run_id;
    span_id = sp.span_id;
    parent_id = sp.parent_id;
    kind = sp.kind;
    name = sp.name;
    phase = end;
    latency_ms = some (ck.floats.mul (ck.floats.sub now sp.started) (ck.floats.of_ℕ 1000));
    error = error;
  }

  abbrev pub error_of : {A : Type 0} → Result A → Option String
  error_of (ok a) = none
  error_of (raised e) = some (ck.trace_text e)

  -- The `finally`: the context's span from before, and the end event.
  unfoldable pub close_span : Span F → Option (Span F) → Option String → Traced F W → Traced F W
  unfolding write
  close_span sp before error s =
      let (ts, w) = ck.time s.world in
      let (now, w') = ck.time w in
      write (end_event sp ts now error) (record s { current = before; world = w' })

  -- `with tracer.span(kind, name) as sp: block`
  unfoldable pub span :
      {A : Type 0} → String → String → (Span F → Exec (Traced F W) A) → Exec (Traced F W) A
  unfolding open_span close_span write
  span kind name block s =
      let (sp, s₁) = open_span kind name s in
      let (r, s₂) = block sp (write (start_event sp) s₁) in
      (r, close_span sp s.current (error_of r) s₂)

  -- `note`
  unfoldable pub note : String → Traced F W → Traced F W
  unfolding write
  note name s =
      if tr.enabled
      then (let (ts, w) = ck.time s.world in
          let (id, w') = ck.hex w in
          write
            (record {
              ts = ts;
              run_id = tr.run_id;
              span_id = id;
              parent_id = span_id_of s.current;
              kind = "note";
              name = name;
              phase = end;
              latency_ms = none;
              error = none;
            })
            (record s { world = w' }))
      else s
