-- ===== src/Model/Generate/Emit/Laws.antt =====
-- `emitSpan` keeps the resources of a batch in step with the spans of each service.
use spangen.Base.{
  inl, inr, map-append, ℕ, ◌+◌, ◌≡◌, refl, sym, ap, ◌∙◌, subst, List, [], ◌∷◌, ◌++◌, map, Option,
  none, some, length, length-map, get_elem?, arith, Option-cases,
}
use spangen.Base.Int.{ℤ}
use spangen.Base.State.{M, Returns, returned, bind, implies}
use spangen.Model.{Source}
use spangen.Model.Catalog.{Operation, Service}
use spangen.Model.Spans.{Span, add_to, Pdata}
use spangen.Model.Generate.{Settings, State, on_rng}
use spangen.Model.Generate.Batch.{
  Batch, add_for, group_of, positions, IsAdded, add_for-present, open-IsOpened,
}
use spangen.Model.Generate.Emit.{find_scope, make_span, add_scope, scope_for, add_made, emit_span}
use spangen.Model.Generate.Emit.Made.{IsMade, make_span-Returns}

module _ {o : Source} {p : Pdata} where
  pub on_rng-Returns :
      {A : Type 0} {P : A → Type 0} (m : M o.Rng A) (s : State o p)
      → Returns (λ a _. P a) (m s.rng)
      → Returns (λ a t. P a × (t.scopes ≡ s.scopes) × (t.td ≡ s.td)) (on_rng m s)
  on_rng-Returns {A} {P} m s h = go (m s.rng) h
    where
      go :
          (x : Option (A × o.Rng))
          → Returns (λ a _. P a) x
          → Returns
              (λ a (t : State o p). P a × (t.scopes ≡ s.scopes) × (t.td ≡ s.td))
              (elim x [ none ↦ none | some (a, r) ↦ some (a, record s { rng = r }) ])
      go none x = elim x [ ]
      go (some (a, r)) (returned q) = returned (q, refl, refl)

module _ (o : Source) (p : Pdata) (settings : Settings o.Float) where
  open o use {Float}

  -- The state holds a batch: a resource for each service, and the positions of the resources.
  pub record Represents (s : State o p) (b : Batch Float) : Type 0 where
    pub scopes : s.scopes ≡ positions 0 b
    pub stored : p.resource_spans s.td ≡ map (group_of settings.cat) b

  -- After `scopeFor` the service has a resource, at the position k.
  record IsReady (svc : Service Float) (b : Batch Float) (k : ℕ) (s : State o p) : Type 0 where
    opened : Batch Float
    holds : Represents s opened
    at : find_scope svc.idx (positions 0 opened) ≡ some k
    same : (sp : Span) → add_for svc sp opened ≡ add_for svc sp b

  size :
      (b : Batch Float) (s : State o p)
      → Represents s b
      → length (p.resource_spans s.td) ≡ 0 + length b
  size b s h = omega (arith, ap length h.stored, length-map (group_of settings.cat) b)

  add_scope-IsReady :
      (svc : Service Float) (b : Batch Float) (s : State o p)
      → Represents s b
      → find_scope svc.idx (positions 0 b) ≡ none
      → Returns (IsReady svc b) (add_scope o p settings svc svc.idx s)
  unfolding add_scope group_of
  add_scope-IsReady svc b s h absent =
      let new = open-IsOpened 0 b svc absent in
      let n : length (p.resource_spans s.td) ≡ 0 + length b = size b s h in
      returned (record {
        opened = b ++ (svc, []) ∷ [];
        holds = record {
          scopes = rw (h.scopes, n) (sym new.places);
          stored =
              p.read-add_resource _ s.td
              ∙ rw h.stored (sym (map-append (group_of settings.cat) b ((svc, []) ∷ [])));
        };
        at = rw n new.found;
        same = new.same;
      })

  scope_for-Returns :
      (svc : Service Float) (b : Batch Float) (s : State o p)
      → get_elem? settings.cat.services svc.idx ≡ some svc
      → Represents s b
      → Returns (IsReady svc b) (scope_for o p settings svc.idx s)
  unfolding scope_for
  scope_for-Returns svc b s known h = elim (Option-cases (find_scope svc.idx s.scopes)) [
    | inl e ↦
        rw (e, known, scope_for)
          (add_scope-IsReady svc b s h (subst (λ ps. find_scope svc.idx ps ≡ none) h.scopes e))
    | inr (k, e) ↦
        rw (e, scope_for)
          (returned (record {
            opened = b;
            holds = h;
            at = subst (λ ps. find_scope svc.idx ps ≡ some k) h.scopes e;
            same = λ sp. refl;
          }))
  ]

  pub Represents-same :
      {s t : State o p} {b : Batch Float}
      → Represents s b
      → t.scopes ≡ s.scopes
      → t.td ≡ s.td
      → Represents t b
  Represents-same h e f = record {
    scopes = e ∙ h.scopes;
    stored = ap p.resource_spans f ∙ h.stored;
  }

  -- The draws of a span touch neither the positions nor the batch.
  IsReady-same :
      {svc : Service Float} {b : Batch Float} {k : ℕ} {s t : State o p}
      → IsReady svc b k s
      → t.scopes ≡ s.scopes
      → t.td ≡ s.td
      → IsReady svc b k t
  IsReady-same r e f = record {
    opened = r.opened;
    holds = Represents-same r.holds e f;
    at = r.at;
    same = r.same;
  }

  add_made-Returns :
      (svc : Service Float) (b : Batch Float) (k : ℕ) (sp : Span) (s : State o p)
      → IsReady svc b k s
      → Returns
          (λ _ t. Represents t (add_for svc sp b) × (t.last_span_id ≡ sp.span_id))
          (add_made o p settings k sp s)
  unfolding add_made
  add_made-Returns svc b k sp s r = made (add_for-present settings.cat 0 r.opened svc sp r.at)
    where
      made :
          (i : ℕ) × (k ≡ 0 + i) × IsAdded settings.cat 0 i svc sp r.opened
          → Returns
              (λ u t. Represents t (add_for svc sp b) × (t.last_span_id ≡ sp.span_id))
              (add_made o p settings k sp s)
      made (i, e, ok) = returned (
        record {
          scopes = r.holds.scopes ∙ sym ok.still ∙ ap (positions 0) (r.same sp);
          stored =
              p.read-add_span k sp s.td (omega (arith, e, ok.inside, size r.opened s r.holds))
              ∙ rw (r.holds.stored, ← r.same sp, ok.added)
                  (ap (λ j. add_to j sp (map (group_of settings.cat) r.opened)) (omega arith));
        },
        refl,
      )

  -- For a service of the topology `emitSpan` returns and adds its span to those of its service,
  -- whatever the batch holds already: to the resource of the service where there is one, else to a new
  -- one behind the others; and it notes the identifier of the span.
  pub emit_span-Represents :
      (trace_id parent : List ℕ) (svc : Service Float) (op : Operation Float) (start dur : ℤ)
      (b : Batch Float) (s : State o p)
      → get_elem? settings.cat.services svc.idx ≡ some svc
      → Represents s b
      → Returns
          (λ _ t.
            (sp : Span) × IsMade trace_id parent op start dur sp
            × Represents t (add_for svc sp b)
            × (t.last_span_id ≡ sp.span_id))
          (emit_span o p settings trace_id parent svc op start dur s)
  unfolding emit_span
  emit_span-Represents trace_id parent svc op start dur b s known h =
      bind (scope_for o p settings svc.idx) _ s (scope_for-Returns svc b s known h) λ k s1 r.
        bind (on_rng (make_span o settings trace_id parent op start dur)) _ s1
          (on_rng-Returns (make_span o settings trace_id parent op start dur) s1
            (make_span-Returns o settings trace_id parent op start dur s1.rng))
          λ sp s2 m.
            implies (add_made-Returns svc b k sp s2 (IsReady-same r m.1 m.2))
              λ u t h. (sp, m.0, h.0, h.1)
