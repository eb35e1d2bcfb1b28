-- ===== src/Obs/Tracer/Spans.antt =====
-- What a span of deepCab/obs/jsonl.py leaves in its file and in its context.
use deep_cab.Prelude.{
  String, true, Option, none, some, List, [], ◌∷◌, ◌++◌, ◌≡◌, refl, ◌∙◌, ap, arith, append_assoc,
}
use deep_cab.Prelude.Exec.{Result, Exec}
use deep_cab.Obs.Tracer.{
  Event, Span, Clock, Tracer, Traced, start, end, write, open_span, close_span, span, start_event,
  end_event, error_of, span_id_of,
}

module _ {F W : Type 0} (ck : Clock F W) (tr : Tracer) where
  -- The block runs within the span `sp`, from a state in which the file has the first event of the span;
  -- the two events enclose what the block wrote, are about this span, and have the enclosing span as
  -- their parent; the second has an error exactly if the block raised.
  pub record Encloses {A : Type 0} (outer : Option (Span F)) (before : List (Event F))
      (block : Span F → Exec (Traced F W) A) (wrote : Span F → Traced F W → List (Event F))
      (answer : Result A) (after : List (Event F)) : Type 0 where
    pub sp : Span F
    pub entered : Traced F W
    pub first : Event F
    pub last : Event F
    pub current : entered.current ≡ some sp
    pub opened : entered.file ≡ before ++ first ∷ []
    pub answered : answer ≡ (block sp entered).0
    pub enclosed : after ≡ before ++ ((first ∷ wrote sp entered) ++ (last ∷ []))
    pub phases : (first.phase ≡ start) × (last.phase ≡ end)
    pub same_span : (first.span_id ≡ sp.span_id) × (last.span_id ≡ sp.span_id)
    pub parents :
        (first.parent_id ≡ span_id_of ck tr outer) × (last.parent_id ≡ span_id_of ck tr outer)
    pub errors : (first.error ≡ none) × (last.error ≡ error_of ck tr (block sp entered).0)

  -- A block that only appends events to the file, those that `wrote` gives for its span and for the
  -- state in which it begins, is enclosed by the events of its span, in a tracer that is enabled and
  -- whether the block returns or raises; the context's span afterwards is the one from before.
  pub span-Encloses :
      {A : Type 0} (kind name : String) (block : Span F → Exec (Traced F W) A) (s : Traced F W)
      (wrote : Span F → Traced F W → List (Event F))
      → tr.enabled ≡ true
      → ((sp : Span F) (s' : Traced F W) → (block sp s').1.file ≡ s'.file ++ wrote sp s')
      → ((span ck tr kind name block s).1.current ≡ s.current)
        × Encloses s.current s.file block wrote
            (span ck tr kind name block s).0
            (span ck tr kind name block s).1.file
  unfolding span close_span open_span write
  span-Encloses kind name block s wrote on appends =
      let (sp, s₁) = open_span ck tr kind name s in
      let s₂ = write ck tr (start_event ck tr sp) s₁ in
      let (r, s₃) = block sp s₂ in
      let (ts, w) = ck.time s₃.world in
      let (now, _) = ck.time w in
      let inner = wrote sp s₂ in
      let first = start_event ck tr sp in
      let last = end_event ck tr sp ts now (error_of ck tr r) in
      let opened : s₂.file ≡ s.file ++ first ∷ [] = ground (arith, on) in
      let closed : (span ck tr kind name block s).1.file ≡ s₃.file ++ last ∷ [] =
        ground (arith, on) in
      (
        ground (arith, on),
        record {
          sp = sp;
          entered = s₂;
          first = first;
          last = last;
          current = ground (arith, on);
          opened = opened;
          answered = refl;
          enclosed =
              closed
              ∙ ap (λ (evs : List (Event F)). evs ++ last ∷ [])
                  (appends sp s₂
                    ∙ ap (λ (evs : List (Event F)). evs ++ inner) opened
                    ∙ append_assoc s.file (first ∷ []) inner)
              ∙ append_assoc s.file (first ∷ inner) (last ∷ []);
          phases = (refl, refl);
          same_span = (refl, refl);
          parents = (refl, refl);
          errors = (refl, refl);
        },
      )
