-- ===== src/Model/Generate/Tree/Traces.antt =====
-- `genTrace` on a topology.
use spangen.Base.{
  ℕ, ◌+◌, ◌-◌, ◌^◌, ◌≤◌, ◌<◌, ◌≡◌, refl, ap, ◌∙◌, inl, List, [], ◌∷◌, ◌++◌, length, some, get_elem?,
  arith,
}
use spangen.Base.Int.{pos, ◌+i64◌, ◌-i64◌}
use spangen.Base.Int.Laws.{add_i64-pos, sub_i64-pos}
use spangen.Base.State.{Returns, returned, bind, implies}
use spangen.Model.{Source}
use spangen.Model.Draw.{
  draw, pick, draw_u64, Any, Any-u64, Any-draw, Any-pick, draw-Returns, pick_at-Returns,
}
use spangen.Model.Catalog.{Service}
use spangen.Model.Catalog.Build.Services.{IsService, IsTopology}
use spangen.Model.Spans.{Span, Pdata}
use spangen.Model.Generate.{Settings, State}
use spangen.Model.Generate.Batch.{Log, Batch, add_for, add_log}
use spangen.Model.Generate.Emit.{is_empty_id, no_span_id, parent_of, fill_trace_id}
use spangen.Model.Generate.Emit.Laws.{Represents}
use spangen.Model.Generate.Tree.{
  bounded, int_n_of, sample_dur, read_clock, add_children, grow, gen_trace,
}
use spangen.Model.Generate.Tree.Grown.{Linked}
use spangen.Model.Generate.Tree.Steps.{service_is, drawing, emitting, Any-sample_dur}
use spangen.Model.Generate.Tree.Laws.{add_children-Grown}

-- A trace: a root without a parent, and spans of the same trace, each under an earlier one of it.
pub record IsTrace {F : Type 0} (log : Log F) : Type 0 where
  pub trace_id : List ℕ
  pub owner : Service F
  pub root : Span
  pub rest : Log F
  pub shape : log ≡ (owner, root) ∷ rest
  pub top : root.parent ≡ no_span_id
  pub member : root.trace_id ≡ trace_id
  pub linked : Linked trace_id (root.span_id ∷ []) rest

-- Whole traces, one after the other, none longer than a bound.
pub data AreTraces {F : Type 0} (longest : ℕ) : Log F → Type 0 where
  no_trace : AreTraces longest []
  first_trace :
      {k l : Log F}
      → IsTrace k
      → length k ≤ longest
      → AreTraces longest l
      → AreTraces longest (k ++ l)

pub bounded-le :
    (m budget : ℕ)
    → 1 ≤ m
    → 1 ≤ budget
    → (1 ≤ bounded (pos m) budget)
      × (bounded (pos m) budget ≤ budget)
      × (bounded (pos m) budget ≤ m)
unfolding bounded
bounded-le m budget h g = ground arith

int_n_of-Returns :
    (o : Source) (n : ℕ) (r : o.Rng) → 0 < n → Returns (λ i _. i < n) (int_n_of o (pos n) r)
unfolding int_n_of
int_n_of-Returns o n r h = draw-Returns o n r h

-- What the settings have to be: a topology of n services, and a range of sizes.
pub record IsRunnable {F : Type 0} (n shortest longest : ℕ) (settings : Settings F) : Type 0 where
  pub topology : IsTopology n settings.cat
  pub some_service : 0 < n
  pub min : settings.spans_per_trace_min ≡ pos shortest
  pub max : settings.spans_per_trace_max ≡ pos longest
  pub range : (1 ≤ shortest) × (shortest ≤ longest) × (longest < 2 ^ 63)

module _ (o : Source) (p : Pdata) (settings : Settings o.Float) {n shortest longest : ℕ}
    (ok : IsRunnable n shortest longest settings) where
  open o use {Float}

  -- A trace of k spans was added to the batch b.
  pub record HasTrace (b : Batch Float) (most k : ℕ) (t : State o p) : Type 0 where
    pub log : Log Float
    pub holds : Represents o p settings t (add_log b log)
    pub count : length log ≡ k
    pub some_span : 1 ≤ k
    pub fits : k ≤ most
    pub is : IsTrace log

  sizes :
      (d : ℕ)
      → d < longest - shortest + 1
      → (settings.spans_per_trace_min +i64 pos d) ≡ pos (shortest + d)
  sizes d h = rw ok.min (add_i64-pos shortest d (omega (arith, ok.range)))

  spread :
      (settings.spans_per_trace_max -i64 settings.spans_per_trace_min +i64 pos 1)
      ≡ pos (longest - shortest + 1)
  spread =
      rw
        (
          ok.max,
          ok.min,
          sub_i64-pos longest shortest (omega (arith, ok.range)) (omega (arith, ok.range)),
        )
        (add_i64-pos (longest - shortest) 1 (omega (arith, ok.range)))

  grow-HasTrace :
      (trace_id : List ℕ) (most i : ℕ) (root : Service Float) (b : Batch Float) (s : State o p)
      → 1 ≤ most
      → i < n
      → get_elem? settings.cat.services i ≡ some root
      → IsService n n i root
      → Represents o p settings s b
      → Returns (HasTrace b most) (grow o p settings trace_id most root s)
  unfolding grow
  grow-HasTrace trace_id most i root b s some_left inside e is h =
      drawing o p settings (pick o root.entry_ops) _ s h
        (Any-pick o root.entry_ops s.rng (omega (arith, is.entries)))
        λ entry s1 _ h1.
          bind (read_clock o p settings) _ s1 (clock-Represents s1 b h1) λ instant s2 h2.
            drawing o p settings (draw o 2000) _ s2 h2 (Any-draw o 2000 s2.rng (omega arith))
              λ back s3 _ h3.
                drawing o p settings (sample_dur o entry) _ s3 h3
                  (Any-sample_dur o p settings entry s3.rng)
                  λ dur s4 _ h4.
                    emitting o p settings trace_id no_span_id root entry _ dur _ s4
                      (ap (λ j. get_elem? settings.cat.services j) is.position ∙ e) h4
                      λ sp s5 m h5.
                        bind (add_children o p settings 7 trace_id _ (most - 1) 1) _ s5
                          (add_children-Grown o p settings n ok.topology trace_id 7 1 (omega arith)
                            (omega arith) _ (most - 1) (sp.span_id ∷ []) (add_for root sp b) s5
                            (omega (arith, is.position)) (inl refl) h5)
                          λ rest t g. returned (record {
                            log = (root, sp) ∷ g.log;
                            holds = unfold add_log in g.holds;
                            count = omega (arith, g.count);
                            some_span = omega (arith, g.count);
                            fits = omega (arith, g.count);
                            is = record {
                              trace_id = trace_id;
                              owner = root;
                              root = sp;
                              rest = g.log;
                              shape = refl;
                              top = m.under ∙ unfold parent_of is_empty_id in refl;
                              member = m.trace;
                              linked = g.linked;
                            };
                          })
    where
      clock-Represents :
          (s : State o p) (b : Batch Float)
          → Represents o p settings s b
          → Returns (λ _ t. Represents o p settings t b) (read_clock o p settings s)
      clock-Represents s b h =
          unfold read_clock in returned (record { scopes = h.scopes; stored = h.stored })

  grow_sized :
      (trace_id : List ℕ) (m budget i : ℕ) (root : Service Float) (b : Batch Float) (s : State o p)
      → 1 ≤ m
      → m ≤ longest
      → 1 ≤ budget
      → i < n
      → get_elem? settings.cat.services i ≡ some root
      → Represents o p settings s b
      → Returns
          (λ k t. HasTrace b budget k t × (k ≤ longest))
          (grow o p settings trace_id (bounded (pos m) budget) root s)
  grow_sized trace_id m budget i root b s low high some_left inside found h =
      within (bounded (pos m) budget) (bounded-le m budget low some_left)
    where
      within :
          (most : ℕ)
          → (1 ≤ most) × (most ≤ budget) × (most ≤ m)
          → Returns
              (λ k t. HasTrace b budget k t × (k ≤ longest))
              (grow o p settings trace_id most root s)
      within most (some_span, fits, short) =
          implies
            (grow-HasTrace trace_id most i root b s some_span inside found
              (service_is n settings.cat i ok.topology found) h)
            λ k t g. (
              record {
                log = g.log;
                holds = g.holds;
                count = g.count;
                some_span = g.some_span;
                fits = omega (arith, g.fits);
                is = g.is;
              },
              omega (arith, g.fits),
            )

  -- `genTrace` adds a whole trace of one span at least, within its budget and the bound.
  pub gen_trace-HasTrace :
      (budget : ℕ) (b : Batch Float) (s : State o p)
      → 1 ≤ budget
      → Represents o p settings s b
      → Returns (λ k t. HasTrace b budget k t × (k ≤ longest)) (gen_trace o p settings budget s)
  unfolding gen_trace
  gen_trace-HasTrace budget b s some_left h =
      drawing o p settings (fill_trace_id o) _ s h (Any-trace_id s.rng) λ trace_id s1 _ h1.
        drawing o p settings (int_n_of o _) _ s1 h1
          (rw spread (int_n_of-Returns o (longest - shortest + 1) s1.rng (omega arith)))
          λ d s2 few h2.
            drawing o p settings (pick o settings.cat.services) _ s2 h2
              (pick_at-Returns o settings.cat.services s2.rng
                (omega (arith, ok.topology.size, ok.some_service)))
              λ root s3 (i, inside, found) h3. rw (sizes d few) (
                grow_sized trace_id (shortest + d) budget i root b s3 (omega (arith, ok.range))
                  (omega (arith, few, ok.range)) some_left (omega (arith, inside, ok.topology.size))
                  found h3)
    where
      Any-trace_id : (r : o.Rng) → Returns Any (fill_trace_id o r)
      Any-trace_id r =
          unfold fill_trace_id in
          bind (draw_u64 o) _ r (Any-u64 o r)
            λ a t _. bind (draw_u64 o) _ t (Any-u64 o t) λ c u _. returned tt
