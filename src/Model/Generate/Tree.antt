-- ===== src/Model/Generate/Tree.antt =====
-- generator.go: `genTrace`, `addChildren`, `FillBatch` and what they draw for a span.
pub mod Grown
pub mod Steps
pub mod Laws
pub mod Traces
pub mod Fill
use spangen.Base.{
  ℕ, zero, suc, ◌+◌, ◌-◌, ◌*◌, ◌≤◌, ◌<◌, List, [], ◌∷◌, ◌++◌, Option, none, some, Bool, true, false,
  ◌&&◌, ◌||◌, Text, codes, length, get_elem?, ◌==◌, ltb, leb, if◌then◌else◌,
}
use spangen.Base.Int.{ℤ, pos, negsuc, ◌+ℤ◌, ◌+i64◌, ◌-i64◌, pos_part, ltb_ℤ, leb_ℤ, sub_ℕ}
use spangen.Base.State.{M, ◌>>=◌, ◌>>◌, pure, panic, or_panic}
use spangen.Model.{Source}
use spangen.Model.Draw.{draw, pick, draw_float, draw_norm}
use spangen.Model.Catalog.{
  OpType, http_server, rpc_server, rpc_client, internal, kind_server, Operation, Service, plain,
}
use spangen.Model.Spans.{Pdata}
use spangen.Model.Generate.{Settings, State, on_rng}
use spangen.Model.Generate.Emit.{fill_trace_id, no_span_id, emit_span}

-- `op.typ == opInternal`
abbrev pub is_internal : OpType → Bool
is_internal internal = true
is_internal _ = false

abbrev pub is_rpc_client : OpType → Bool
is_rpc_client rpc_client = true
is_rpc_client _ = false

-- `maxSpans`, for `spansPerTraceMin + rng.IntN(…)` and the budget.
unfoldable pub bounded : ℤ → ℕ → ℕ
bounded drawn budget =
    let capped = if ltb_ℤ (pos budget) drawn then pos budget else drawn in
    if ltb_ℤ capped (pos 1) then 1 else pos_part capped

-- `if rem := pDur - offset; cDur > rem && rem > 0 { cDur = rem }`
unfoldable pub clip : ℤ → ℤ → ℤ
clip dur rem = if ltb_ℤ rem dur && ltb_ℤ (pos 0) rem then rem else dur

-- The span under which children are added.
pub record Parent : Type 0 where
  pub id : List ℕ
  pub service : ℕ
  pub start : ℤ
  pub dur : ℤ

module _ (o : Source) where
  open o use {Float, lit, sub, add, mul, exp, less, of_i64, Rng}

  unfoldable pub server_counterpart : Operation Float → Operation Float
  server_counterpart client =
      if is_rpc_client client.typ
      then record (plain (client.rpc_service ++ b'/' ∷ client.rpc_method) rpc_server kind_server
          (sub client.mu_log (lit 3 1)) client.sigma_log) {
            rpc_service = client.rpc_service;
            rpc_method = client.rpc_method;
          }
      else record (plain (client.method ++ b' ' ∷ client.route) http_server kind_server
          (sub client.mu_log (lit 3 1)) client.sigma_log) {
            method = client.method;
            route = client.route;
          }

  -- At least 1µs.
  unfoldable pub floored : Float → ℤ
  floored ns = o.to_i64 (if less ns (lit 1000 0) then lit 1000 0 else ns)

  unfoldable pub sample_dur : Operation Float → M Rng ℤ
  sample_dur op = do x ← draw_norm o; pure (floored (exp (add op.mu_log (mul op.sigma_log x))))

  -- `rng.IntN(n)` for any n.
  unfoldable pub int_n_of : ℤ → M Rng ℕ
  int_n_of (pos n) = draw o n
  int_n_of (negsuc n) = panic

module _ (o : Source) (p : Pdata) (settings : Settings o.Float) where
  open o use {Float, lit, mul, of_i64, now}

  abbrev St : Type 0
  St = State o p

  unfoldable pub read_last_id : M St (List ℕ)
  read_last_id s = some (s.last_span_id, s)

  -- `time.Now()`
  unfoldable pub read_clock : M St ℤ
  read_clock s = some (now s.clock, record s { clock = s.clock + 1 })

  -- `addChildren` for a parent, the spans that remain and a depth; it returns those that then remain.
  abbrev pub Descend : Type 0
  Descend = Parent → ℕ → ℕ → M St ℕ

  -- The SERVER span in the peer, and its children.
  unfoldable pub call_peer :
      Descend → List ℕ → ℕ → Operation Float → ℤ → ℤ → ℕ → ℕ → List ℕ → M St ℕ
  call_peer descend trace_id j op c_start c_dur remaining depth client_id = do
    peer ← or_panic (get_elem? settings.cat.services j)
    let s_start = c_start +ℤ o.to_i64 (mul (of_i64 c_dur) (lit 1 1))
    let s_dur = o.to_i64 (mul (of_i64 c_dur) (lit 85 2))
    emit_span o p settings trace_id client_id peer (server_counterpart o op) s_start s_dur
    id ← read_last_id
    descend (record { id = id; service = peer.idx; start = s_start; dur = s_dur }) (remaining - 1)
        (depth + 1)

  -- What follows the span of a child.
  unfoldable pub follow : Descend → List ℕ → ℕ → Operation Float → ℤ → ℤ → ℕ → ℕ → List ℕ → M St ℕ
  unfolding call_peer
  follow descend trace_id svc op c_start c_dur remaining depth client_id =
      if leb_ℤ (pos 0) op.peer && ltb 0 remaining
      then call_peer descend trace_id (pos_part op.peer) op c_start c_dur remaining depth client_id
      else if is_internal op.typ && (ltb 0 remaining && ltb depth 3)
      then descend (record { id = client_id; service = svc; start = c_start; dur = c_dur })
          remaining (depth + 1)
      else pure remaining

  -- The body of the loop over the children.
  unfoldable pub add_child : Descend → List ℕ → Service Float → Parent → ℕ → ℕ → M St ℕ
  add_child descend trace_id s parent remaining depth = do
    op ← on_rng (pick o s.child_ops)
    r ← on_rng (draw_float o)
    let offset = o.to_i64 (mul (mul (of_i64 parent.dur) (lit 7 1)) r)
    let c_start = parent.start +ℤ offset
    drawn ← on_rng (sample_dur o op)
    let c_dur = clip drawn (parent.dur -i64 offset)
    emit_span o p settings trace_id parent.id s op c_start c_dur
    client_id ← read_last_id
    follow descend trace_id parent.service op c_start c_dur (remaining - 1) depth client_id

  unfoldable pub child_loop : Descend → List ℕ → Service Float → Parent → ℕ → ℕ → ℕ → M St ℕ
  child_loop descend trace_id s parent zero remaining depth = pure remaining
  child_loop descend trace_id s parent (suc n) remaining depth =
      if ltb 0 remaining
      then (add_child descend trace_id s parent remaining depth >>= λ rest.
          child_loop descend trace_id s parent n rest depth)
      else pure remaining

  unfoldable pub draw_children : Descend → List ℕ → Service Float → Parent → ℕ → ℕ → M St ℕ
  draw_children descend trace_id s parent remaining depth = do
    more ← on_rng (draw o 3)
    child_loop descend trace_id s parent (1 + more) remaining depth

  -- The children of a parent that may have some.
  unfoldable pub add_some : Descend → List ℕ → Parent → ℕ → ℕ → M St ℕ
  add_some descend trace_id parent remaining depth = do
    s ← or_panic (get_elem? settings.cat.services parent.service)
    if length s.child_ops == 0
        then pure remaining
        else draw_children descend trace_id s parent remaining depth

  -- On fuel: the depth cap of 6 bounds it.
  unfoldable pub add_children : ℕ → List ℕ → Descend
  add_children zero trace_id parent remaining depth = panic
  add_children (suc fuel) trace_id parent remaining depth =
      if remaining == 0 || ltb 6 depth
      then pure remaining
      else add_some (add_children fuel trace_id) trace_id parent remaining depth

  -- `genTrace` for a budget, from the root's service on.
  unfoldable pub grow : List ℕ → ℕ → Service Float → M St ℕ
  grow trace_id max_spans root = do
    entry ← on_rng (pick o root.entry_ops)
    instant ← read_clock
    back ← on_rng (draw o 2000)
    let start = instant +ℤ sub_ℕ 0 (back * 1000000)
    dur ← on_rng (sample_dur o entry)
    emit_span o p settings trace_id no_span_id root entry start dur
    id ← read_last_id
    rest ←
        add_children 7 trace_id (record { id = id; service = root.idx; start = start; dur = dur })
          (max_spans - 1) 1
    pure (max_spans - rest)

  unfoldable pub gen_trace : ℕ → M St ℕ
  gen_trace budget = do
    trace_id ← on_rng (fill_trace_id o)
    d ←
        on_rng
          (int_n_of o (settings.spans_per_trace_max -i64 settings.spans_per_trace_min +i64 pos 1))
    root ← on_rng (pick o settings.cat.services)
    grow trace_id (bounded (settings.spans_per_trace_min +i64 pos d) budget) root

  -- `for count < target`, on fuel: each trace has a span.
  unfoldable pub fill_loop : ℕ → ℕ → ℕ → M St ℕ
  fill_loop zero target count = if ltb count target then panic else pure count
  fill_loop (suc fuel) target count =
      if ltb count target
      then (gen_trace (target - count) >>= λ n. fill_loop fuel target (count + n))
      else pure count

  unfoldable pub clear_scopes : M St (Unit {0})
  clear_scopes s = some (tt, record s { scopes = [] })

  unfoldable pub fill_batch : ℤ → M St ℕ
  fill_batch target = clear_scopes >> fill_loop (pos_part target) (pos_part target) 0
