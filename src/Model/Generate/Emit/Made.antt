-- ===== src/Model/Generate/Emit/Made.antt =====
-- The span that `emitSpan` fills in.
use spangen.Base.{
  ℕ, ◌≡◌, refl, ◌⊎◌, inl, inr, List, [], ◌∷◌, Bool, true, false, Text, codes, arith, if◌then◌else◌,
}
use spangen.Base.Int.{ℤ, ◌+ℤ◌, to_u64}
use spangen.Base.State.{Returns, returned, bind, pure}
use spangen.Model.{Source}
use spangen.Model.Draw.{pick, draw_float, draw_u64, Any, Any-float, Any-u64, Any-pick}
use spangen.Model.Catalog.{Operation}
use spangen.Model.Spans.{StatusCode, Event, Span, status_unset, status_error}
use spangen.Model.Generate.{Settings}
use spangen.Model.Generate.Attributes.{
  exception_types, info_stages, apply_attributes, exception_event, info_event,
}
use spangen.Model.Generate.Attributes.Total.{Any-apply_attributes}
use spangen.Model.Generate.Emit.{fill_span_id, parent_of, processing, span_events, make_span}

-- The events of a span that failed, and of one that did not.
abbrev pub HasEvents : Bool → List Event → Type 0
HasEvents true es = (e : Event) × (es ≡ e ∷ []) × (e.name ≡ codes "exception")
HasEvents false es = (es ≡ []) ⊎ ((e : Event) × (es ≡ e ∷ []) × (e.name ≡ codes "processing"))

-- A span that failed has the error status, its message and one exception event; another has neither,
-- and one processing event at most.
abbrev pub HasOutcome : StatusCode → Text → List Event → Type 0
HasOutcome code message es =
    ((code ≡ status_error) × (message ≡ codes "operation failed") × HasEvents true es)
    ⊎ ((code ≡ status_unset) × (message ≡ []) × HasEvents false es)

-- The span of an operation, in a trace, under a parent.
pub record IsMade {F : Type 0} (trace_id parent : List ℕ) (op : Operation F) (from lasting : ℤ)
    (sp : Span) : Type 0 where
  pub trace : sp.trace_id ≡ trace_id
  pub under : sp.parent ≡ parent_of parent
  pub named : sp.name ≡ op.name
  pub kind : sp.kind ≡ op.kind
  pub start : sp.start ≡ to_u64 from
  pub end : sp.end ≡ to_u64 (from +ℤ lasting)
  pub outcome : HasOutcome sp.code sp.message sp.events

module _ (o : Source) where
  open o use {Float, Rng}

  fill_span_id-Returns : (r : Rng) → Returns Any (fill_span_id o r)
  unfolding fill_span_id
  fill_span_id-Returns r = bind (draw_u64 o) _ r (Any-u64 o r) λ a t _. returned tt

  exception_event-Returns :
      (t : ℕ) (r : Rng) → Returns (λ e _. e.name ≡ codes "exception") (exception_event o t r)
  unfolding exception_event
  exception_event-Returns t r =
      bind (pick o exception_types) _ r (Any-pick o exception_types r (omega arith))
        λ _ r2 _. returned refl

  info_event-Returns :
      (t : ℕ) (r : Rng) → Returns (λ e _. e.name ≡ codes "processing") (info_event o t r)
  unfolding info_event
  info_event-Returns t r =
      bind (pick o info_stages) _ r (Any-pick o info_stages r (omega arith)) λ _ r2 _. returned refl

  processing-Returns :
      (start dur : ℤ) (r : Rng) → Returns (λ es _. HasEvents false es) (processing o start dur r)
  unfolding processing
  processing-Returns start dur r =
      bind (info_event o _) _ r (info_event-Returns _ r) λ e r2 h. returned (inr (e, refl, h))

  span_events-Returns :
      (rate : Float) (start dur : ℤ) (failed : Bool) (r : Rng)
      → Returns (λ es _. HasEvents failed es) (span_events o rate start dur failed r)
  unfolding span_events
  span_events-Returns rate start dur true r =
      bind (exception_event o _) _ r (exception_event-Returns _ r) λ e r2 h. returned (e, refl, h)
  span_events-Returns rate start dur false r =
      bind (draw_float o) _ r (Any-float o r) λ y r2 _. sometimes (o.less y rate) r2
    where
      sometimes :
          (b : Bool) (t : Rng)
          → Returns (λ es _. HasEvents false es) ((if b then processing o start dur else pure []) t)
      sometimes true t = processing-Returns start dur t
      sometimes false t = returned (inl refl)

  -- The outcome as `make_span` writes it.
  outcome_of :
      (failed : Bool) {es : List Event}
      → HasEvents failed es
      → HasOutcome
          (if failed then status_error else status_unset)
          (if failed then codes "operation failed" else [])
          es
  outcome_of true h = inl (refl, refl, h)
  outcome_of false h = inr (refl, refl, h)

  -- `emitSpan` fills its span without a panic, whatever the operation: with the trace, the parent and
  -- the times that it is given, the name and kind of the operation, and an outcome: the error status,
  -- its message and one exception event, or none of these and one processing event at most.
  pub make_span-Returns :
      (settings : Settings Float) (trace_id parent : List ℕ) (op : Operation Float) (start dur : ℤ)
      (r : Rng)
      → Returns
          (λ sp _. IsMade trace_id parent op start dur sp)
          (make_span o settings trace_id parent op start dur r)
  unfolding make_span
  make_span-Returns settings trace_id parent op start dur r =
      bind (fill_span_id o) _ r (fill_span_id-Returns r) λ id r1 _.
        bind (draw_float o) _ r1 (Any-float o r1) λ x r2 _.
          bind (apply_attributes o op _) _ r2 (Any-apply_attributes o op _ r2) λ attributes r3 _.
            bind (span_events o settings.event_rate start dur _) _ r3
              (span_events-Returns settings.event_rate start dur _ r3)
              λ es r4 h. returned (record {
                trace = refl;
                under = refl;
                named = refl;
                kind = refl;
                start = refl;
                end = refl;
                outcome = outcome_of (o.less x settings.error_rate) h;
              })
