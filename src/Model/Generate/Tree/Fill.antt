-- ===== src/Model/Generate/Tree/Fill.antt =====
-- `FillBatch` on a topology.
use spangen.Base.{
  map, sum_of, ℕ, zero, suc, ◌+◌, ◌-◌, ◌≤◌, ◌<◌, ◌≡◌, refl, sym, ap, ◌∙◌, subst, inl, [], ◌++◌,
  length, length-append, some, Bool-cases, inr, ltb, ltb→lt, ltb→le, le→ltb, arith,
}
use spangen.Base.Int.{ℤ, pos_part}
use spangen.Base.State.{Returns, Returns-some, returned, bind, implies}
use spangen.Model.{Source}
use spangen.Model.Spans.{Pdata}
use spangen.Model.Generate.{Settings, State}
use spangen.Model.Generate.Batch.{Log, Batch, add_log, add_log-append, group_of, positions}
use spangen.Model.Generate.Emit.Laws.{Represents}
use spangen.Model.Generate.Tree.{gen_trace, fill_loop, clear_scopes, fill_batch}
use spangen.Model.Generate.Batch.Laws.{
  AreDistinct, AreDistinct-add_log, spans_of, stored_for, stored_for-add_log, size_of,
  size_of-add_log,
}
use spangen.Model.Generate.Tree.Traces.{
  AreTraces, no_trace, first_trace, IsRunnable, HasTrace, gen_trace-HasTrace,
}

module _ (o : Source) (p : Pdata) (settings : Settings o.Float) {n shortest longest : ℕ}
    (ok : IsRunnable n shortest longest settings) where
  open o use {Float}

  -- From a batch b, spans of whole traces were added.
  pub record IsFilled (b : Batch Float) (k : ℕ) (t : State o p) : Type 0 where
    pub log : Log Float
    pub holds : Represents o p settings t (add_log b log)
    pub count : length log ≡ k
    pub traces : AreTraces longest log

  nothing_added :
      (b : Batch Float) (k : ℕ) (s : State o p)
      → k ≡ 0
      → Represents o p settings s b
      → IsFilled b k s
  nothing_added b k s e h = record {
    log = [];
    holds = unfold add_log in h;
    count = sym e;
    traces = no_trace;
  }

  trace_added :
      {b : Batch Float} {most k m : ℕ} {s t : State o p}
      → (g : HasTrace o p settings ok b most k s) → k ≤ longest
      → IsFilled (add_log b g.log) m t
      → IsFilled b (k + m) t
  trace_added {b} {k} {m} {t} g short f = record {
    log = g.log ++ f.log;
    holds = subst (Represents o p settings t) (sym (add_log-append b g.log f.log)) f.holds;
    count = omega (arith, length-append g.log f.log, g.count, f.count);
    traces = first_trace g.is (omega (arith, g.count)) f.traces;
  }

  fill_loop-IsFilled :
      (fuel target count : ℕ) (b : Batch Float) (s : State o p)
      → count ≤ target
      → target ≤ fuel + count
      → Represents o p settings s b
      → Returns
          (λ c t. (c ≡ target) × IsFilled b (target - count) t)
          (fill_loop o p settings fuel target count s)
  unfolding fill_loop
  fill_loop-IsFilled zero target count b s le enough h =
      rw (le→ltb count target (omega arith))
        (returned (omega arith, nothing_added b (target - count) s (omega arith) h))
  fill_loop-IsFilled (suc fuel) target count b s le enough h =
      elim (Bool-cases (ltb count target)) [
        | inl e ↦
            let below : count < target = ltb→lt count target e in
            rw e (
              bind (gen_trace o p settings (target - count)) _ s
                (gen_trace-HasTrace o p settings ok (target - count) b s (omega arith) h)
                λ k t g.
                  implies
                    (fill_loop-IsFilled fuel target (count + k) _ t (omega (arith, g.0.fits))
                      (omega (arith, g.0.some_span)) g.0.holds)
                    λ c u f. (
                      f.0,
                      subst (λ m. IsFilled b m u) (omega (arith, g.0.fits))
                          (trace_added g.0 g.1 f.1),
                    ))
        | inr e ↦ rw e (
            returned (
              omega (arith, ltb→le count target e),
              nothing_added b (target - count) s (omega (arith, ltb→le count target e)) h,
            ))
      ]

  fill_batch-IsFilled :
      (target : ℤ) (s : State o p)
      → p.resource_spans s.td ≡ []
      → Returns
          (λ count t. (count ≡ pos_part target) × IsFilled [] (pos_part target) t)
          (fill_batch o p settings target s)
  unfolding fill_batch clear_scopes
  fill_batch-IsFilled target s empty =
      implies
        (fill_loop-IsFilled (pos_part target) (pos_part target) 0 [] (record s { scopes = [] })
          (omega arith) (omega arith)
          (record { scopes = unfold positions in refl; stored = empty }))
        λ c t f. (f.0, subst (λ m. IsFilled [] m t) (omega arith) f.1)

  -- `FillBatch` on an empty batch, with a topology and a range of sizes as a valid configuration has
  -- them, ends without a panic and returns exactly its target, or 0 for a negative one. The batch then
  -- holds the spans of a log of so many, by service; the log consists of whole traces, none longer
  -- than the maximum, in which every span but the root is under an earlier span of its trace.
  pub fill_batch-AreTraces :
      (target : ℤ) (s : State o p)
      → p.resource_spans s.td ≡ []
      → (t : State o p) × (log : Log Float) × (fill_batch o p settings target s
          ≡ some (pos_part target, t))
        × (p.resource_spans t.td ≡ map (group_of settings.cat) (add_log [] log))
        × (length log ≡ pos_part target)
        × AreTraces longest log
  fill_batch-AreTraces target s empty =
      let (c, t, e, (same, f)) = Returns-some (fill_batch-IsFilled target s empty) in
      (t, f.log, e ∙ ap (λ k. some (k, t)) same, f.holds.stored, f.count, f.traces)

  -- In that batch each service has one resource at most, which holds its spans of the log and no
  -- others, in their order; the resources together hold as many spans as `FillBatch` returns.
  pub fill_batch-AreDistinct :
      (target : ℤ) (s : State o p)
      → p.resource_spans s.td ≡ []
      → (t : State o p) × (log : Log Float) × (b : Batch Float) × (fill_batch o p settings target s
          ≡ some (pos_part target, t))
        × AreTraces longest log
        × (p.resource_spans t.td ≡ map (group_of settings.cat) b)
        × AreDistinct b
        × ((i : ℕ) → stored_for i b ≡ spans_of i log)
        × (size_of b ≡ pos_part target)
  unfolding AreDistinct stored_for sum_of
  fill_batch-AreDistinct target s empty =
      let (t, log, e, held, count, traces) = fill_batch-AreTraces target s empty in
      (
        t,
        log,
        add_log [] log,
        e,
        traces,
        held,
        AreDistinct-add_log [] log tt,
        λ i. stored_for-add_log i [] log,
        omega (arith, size_of-add_log [] log, count),
      )
