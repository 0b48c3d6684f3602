-- ===== src/Sink/Clickhouse/Send/Balance.antt =====
-- `Send` leaves no batch open, over any client whose calls open and close batches as they should.
use spangen.Base.{
  ℕ, suc, ◌≡◌, refl, sym, ap, ◌∙◌, List, [], ◌∷◌, Option, none, some, some-injective, Bool, Text,
}
use spangen.Base.Result.{Result}
use spangen.Model.Spans.{Span, ScopeSpans, ResourceSpans}
use spangen.Sink.Clickhouse.Rows.{Codec, Cell, Context, attr_map, append_span}
use spangen.Sink.Clickhouse.Pick.{pick}
use spangen.Sink.Clickhouse.Send.{
  Client, SendError, ChSink, State, begin, append_one, commit_batch, abort_batch, go_on, span_loop,
  context_of, scope_loop, resource_loop, close_batch, conclude, fill, send,
}

-- A count of what is open: a batch that was begun counts for one until it is sent or aborted.
pub record IsBalanced (cl : Client) : Type 0 where
  pub open_in : cl.World → ℕ
  pub begun :
      (conn : cl.Conn) (sql : Text) (w : cl.World)
      → (cl.new_batch conn sql w).0 ≡ none
      → open_in (cl.new_batch conn sql w).1 ≡ suc (open_in w)
  pub not_begun :
      (conn : cl.Conn) (sql : Text) (w : cl.World) {e : cl.Err}
      → (cl.new_batch conn sql w).0 ≡ some e
      → open_in (cl.new_batch conn sql w).1 ≡ open_in w
  pub appended : (row : List Cell) (w : cl.World) → open_in (cl.append row w).1 ≡ open_in w
  pub sent : (w : cl.World) (n : ℕ) → open_in w ≡ suc n → open_in (cl.send w).1 ≡ n
  pub aborted : (w : cl.World) (n : ℕ) → open_in w ≡ suc n → open_in (cl.abort w) ≡ n

module _ (c : Codec) (cl : Client) (b : IsBalanced cl) where
  open cl use {Err, Conn, World}
  open b use {open_in}

  go_on_open :
      (n : ℕ) (m : Option Err × State c cl) (k : State c cl → Option Err × State c cl)
      → open_in m.1.world ≡ n
      → ((t : State c cl) → open_in t.world ≡ n → open_in (k t).1.world ≡ n)
      → open_in (go_on c cl m k).1.world ≡ n
  go_on_open n (none, s) k h f = f s h
  go_on_open n (some e, s) k h f = h

  span_loop_open :
      (n : ℕ) (json : Bool) (x : Context) (sps : List Span) (s : State c cl)
      → open_in s.world ≡ n
      → open_in (span_loop c cl json x sps s).1.world ≡ n
  unfolding span_loop append_one
  span_loop_open n json x [] s h = h
  span_loop_open n json x (sp ∷ sps) s h =
      go_on_open n (append_one c cl (append_span c json x sp) s) _ (b.appended _ s.world ∙ h)
        (span_loop_open n json x sps)

  scope_loop_open :
      (n : ℕ) (json : Bool) (res_attrs : List (Text × Text)) (scopes : List ScopeSpans)
      (s : State c cl)
      → open_in s.world ≡ n
      → open_in (scope_loop c cl json res_attrs scopes s).1.world ≡ n
  unfolding scope_loop
  scope_loop_open n json res_attrs [] s h = h
  scope_loop_open n json res_attrs (scope ∷ scopes) s h =
      go_on_open n (span_loop c cl json (context_of c res_attrs scope) scope.spans s) _
        (span_loop_open n json (context_of c res_attrs scope) scope.spans s h)
        (scope_loop_open n json res_attrs scopes)

  resource_loop_open :
      (n : ℕ) (json : Bool) (rs : List ResourceSpans) (s : State c cl)
      → open_in s.world ≡ n
      → open_in (resource_loop c cl json rs s).1.world ≡ n
  unfolding resource_loop
  resource_loop_open n json [] s h = h
  resource_loop_open n json (r ∷ rs) s h =
      go_on_open n (scope_loop c cl json (attr_map c r.attributes) r.scopes s) _
        (scope_loop_open n json (attr_map c r.attributes) r.scopes s h)
        (resource_loop_open n json rs)

  close_batch_world : (m : Option Err × State c cl) → (close_batch c cl m).1.world ≡ m.1.world
  close_batch_world (none, s) = refl
  close_batch_world (some e, s) = refl

  conclude_open :
      (n : ℕ) (m : Option Err × State c cl)
      → open_in m.1.world ≡ suc n
      → open_in (conclude c cl m).1.world ≡ n
  unfolding commit_batch abort_batch
  conclude_open n (none, s) h =
      ap open_in (close_batch_world (commit_batch c cl s)) ∙ b.sent s.world n h
  conclude_open n (some e, s) h = b.aborted s.world n h

  fill_open :
      (n : ℕ) (json : Bool) (rs : List ResourceSpans) (m : Option Err × State c cl)
      → (m.0 ≡ none → open_in m.1.world ≡ suc n)
      → ((e : Err) → m.0 ≡ some e → open_in m.1.world ≡ n)
      → open_in (fill c cl json rs m).1.world ≡ n
  fill_open n json rs (none, s) h g =
      conclude_open n (resource_loop c cl json rs s) (resource_loop_open (suc n) json rs s (h refl))
  fill_open n json rs (some e, s) h g = g e refl

  -- Whatever `Send` returns, it leaves as much open as it finds: a batch that it began was sent or
  -- aborted.
  pub send_balanced :
      (sink : ChSink Conn) (rs : List ResourceSpans) (s : State c cl)
      {r : Result (SendError Err) (Unit {0})} {t : State c cl}
      → send c cl sink rs s ≡ some (r, t)
      → open_in t.world ≡ open_in s.world
  unfolding send begin
  send_balanced sink rs s {r} {t} h = picked (pick sink.conns s.next) h
    where
      picked :
          (p : Option (Conn × ℕ))
          → elim p [
            | none ↦ none
            | some (conn, next) ↦ some (
                fill c cl sink.json_attrs rs
                  (begin c cl conn sink.insert_sql (record s { next = next })))
          ]
            ≡ some (r, t)
          → open_in t.world ≡ open_in s.world
      picked none h = cc
      picked (some (conn, next)) h =
          ap (λ (m : Result (SendError Err) (Unit {0}) × State c cl). open_in m.1.world)
            (sym (some-injective _ _ h))
          ∙ fill_open (open_in s.world) sink.json_attrs rs
              (begin c cl conn sink.insert_sql (record s { next = next }))
              (b.begun conn sink.insert_sql s.world) (λ e. b.not_begun conn sink.insert_sql s.world)
