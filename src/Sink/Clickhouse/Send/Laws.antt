-- ===== src/Sink/Clickhouse/Send/Laws.antt =====
-- `Send` appends the rows of all spans in order, and then commits or aborts, once.
use spangen.Base.{
  ℕ, ◌<◌, ◌≡◌, refl, sym, ap, ◌∙◌, List, [], ◌∷◌, ◌++◌, map, Option, none, some, Bool, Text, length,
  get_elem?,
}
use mathlib.Core.List.{append_assoc, append-nil}
use spangen.Base.Result.{Result, ok, err}
use spangen.Model.Spans.{ResourceSpans}
use spangen.Sink.Clickhouse.Rows.{Codec, Cell}
use spangen.Sink.Clickhouse.Pick.{position, counter_behind, pick-position}
use spangen.Sink.Clickhouse.Send.Rows.{rows_of, append_rows, resource_loop-flat}
use spangen.Sink.Clickhouse.Send.{
  Client, BatchCall, prepare, append, commit, abort, SendError, prepare_batch, append_row,
  send_batch, ChSink, State, begin, append_one, commit_batch, abort_batch, go_on, close_batch,
  conclude, fill, send,
}

module _ (c : Codec) (cl : Client) where
  open cl use {Err, Conn, World}

  -- The client takes each of these rows, from one world to another.
  pub data Accepts : List (List Cell) → World → World → Type 0 where
    no_rows : {w : World} → Accepts [] w w
    one_more :
        {row : List Cell} {rows : List (List Cell)} {w v u : World}
        → cl.append row w ≡ (none, v)
        → Accepts rows v u
        → Accepts (row ∷ rows) w u

  -- Rows appended until the client's first error: all of them without one, else those up to the row refused.
  data Appended (rows : List (List Cell)) (s : State c cl) : Option Err × State c cl → Type 0 where
    all_rows :
        {t : State c cl}
        → t.calls ≡ s.calls ++ map append rows
        → t.next ≡ s.next
        → Accepts rows s.world t.world
        → Appended rows s (none, t)
    refused :
        (k l : List (List Cell)) (row : List Cell) {e : Err} {t : State c cl} {u : World}
        → rows ≡ k ++ row ∷ l
        → t.calls ≡ s.calls ++ map append (k ++ row ∷ [])
        → t.next ≡ s.next
        → Accepts k s.world u
        → cl.append row u ≡ (some e, t.world)
        → Appended rows s (some e, t)

  append_rows-Appended :
      (rows : List (List Cell)) (s : State c cl) → Appended rows s (append_rows c cl rows s)
  unfolding append_rows
  append_rows-Appended [] s = all_rows (sym (append-nil s.calls)) refl no_rows
  append_rows-Appended (row ∷ rows) s =
      first (append_one c cl row s) (unfold append_one in refl) (unfold append_one in refl)
        (unfold append_one in refl) (λ t. append_rows-Appended rows t)
    where
      then_more :
          (t : State c cl) (m : Option Err × State c cl)
          → t.calls ≡ s.calls ++ append row ∷ []
          → t.next ≡ s.next
          → cl.append row s.world ≡ (none, t.world)
          → Appended rows t m
          → Appended (row ∷ rows) s m
      then_more t (none, u) h n a (all_rows e f g) =
          all_rows
            (e
              ∙ ap (λ calls. calls ++ map append rows) h
              ∙ append_assoc s.calls (append row ∷ []) (map append rows))
            (f ∙ n) (one_more a g)
      then_more t (some x, u) h n a (refused k l r e f i g b) =
          refused (row ∷ k) l r (ap (◌∷◌ row) e)
            (f
              ∙ ap (λ calls. calls ++ map append (k ++ r ∷ [])) h
              ∙ append_assoc s.calls (append row ∷ []) (map append (k ++ r ∷ [])))
            (i ∙ n) (one_more a g) b

      first :
          (m : Option Err × State c cl)
          → m.1.calls ≡ s.calls ++ append row ∷ []
          → m.1.next ≡ s.next
          → cl.append row s.world ≡ (m.0, m.1.world)
          → ((t : State c cl) → Appended rows t (append_rows c cl rows t))
          → Appended (row ∷ rows) s (go_on c cl m (append_rows c cl rows))
      first (none, t) h n a more = then_more t (append_rows c cl rows t) h n a (more t)
      first (some e, t) h n a more = refused [] rows row refl h n no_rows a

  -- What the client answers to `Send` on a connection, for these rows and from the world w: the result, the
  -- calls and the world behind them.
  pub data Outcome (conn : Conn) (sql : Text) (rows : List (List Cell)) (w : World)
      : Result (SendError Err) (Unit {0}) → List (BatchCall Conn) → World → Type 0 where
    not_prepared :
        {e : Err} {v : World}
        → cl.new_batch conn sql w ≡ (some e, v)
        → Outcome conn sql rows w (err (prepare_batch e)) (prepare conn sql ∷ []) v
    aborted :
        (k l : List (List Cell)) (row : List Cell) {e : Err} {v u x : World}
        → rows ≡ k ++ row ∷ l
        → cl.new_batch conn sql w ≡ (none, v)
        → Accepts k v u
        → cl.append row u ≡ (some e, x)
        → Outcome conn sql rows w
            (err (append_row e))
            (prepare conn sql ∷ map append (k ++ row ∷ []) ++ abort ∷ [])
            (cl.abort x)
    not_committed :
        {e : Err} {v u x : World}
        → cl.new_batch conn sql w ≡ (none, v)
        → Accepts rows v u
        → cl.send u ≡ (some e, x)
        → Outcome conn sql rows w
            (err (send_batch e))
            (prepare conn sql ∷ map append rows ++ commit ∷ [])
            x
    delivered :
        {v u x : World}
        → cl.new_batch conn sql w ≡ (none, v)
        → Accepts rows v u
        → cl.send u ≡ (none, x)
        → Outcome conn sql rows w (ok tt) (prepare conn sql ∷ map append rows ++ commit ∷ []) x

  -- The outcome of a batch, the calls behind those that were made before, and the counter.
  record HasOutcome (conn : Conn) (sql : Text) (rows : List (List Cell)) (w : World) (next : ℕ)
      (before : List (BatchCall Conn)) (r : Result (SendError Err) (Unit {0}) × State c cl)
      : Type 0 where
    made : List (BatchCall Conn)
    calls : r.1.calls ≡ before ++ made
    counter : r.1.next ≡ next
    is : Outcome conn sql rows w r.0 made r.1.world

  regroup :
      (b m e : List (BatchCall Conn)) (x : BatchCall Conn)
      → ((b ++ x ∷ []) ++ m) ++ e ≡ b ++ ((x ∷ m) ++ e)
  regroup b m e x = ap (λ l. l ++ e) (append_assoc b (x ∷ []) m) ∙ append_assoc b (x ∷ m) e

  module _ (conn : Conn) (sql : Text) (rows : List (List Cell)) (w : World) (next : ℕ)
      (before : List (BatchCall Conn)) where
    closed :
        {v u : World} (m : Option Err × State c cl)
        → m.1.calls ≡ before ++ ((prepare conn sql ∷ map append rows) ++ commit ∷ [])
        → m.1.next ≡ next
        → cl.new_batch conn sql w ≡ (none, v)
        → Accepts rows v u
        → cl.send u ≡ (m.0, m.1.world)
        → HasOutcome conn sql rows w next before (close_batch c cl m)
    closed (none, s) h n b a e = record {
      made = (prepare conn sql ∷ map append rows) ++ commit ∷ [];
      calls = h;
      counter = n;
      is = delivered b a e;
    }
    closed (some x, s) h n b a e = record {
      made = (prepare conn sql ∷ map append rows) ++ commit ∷ [];
      calls = h;
      counter = n;
      is = not_committed b a e;
    }

    concluded :
        (s : State c cl) (m : Option Err × State c cl)
        → s.calls ≡ before ++ prepare conn sql ∷ []
        → s.next ≡ next
        → cl.new_batch conn sql w ≡ (none, s.world)
        → Appended rows s m
        → HasOutcome conn sql rows w next before (conclude c cl m)
    concluded s (none, t) h n b (all_rows e i a) =
        closed (commit_batch c cl t)
          (unfold commit_batch in
            rw (e, h) (regroup before (map append rows) (commit ∷ []) (prepare conn sql)))
          (unfold commit_batch in i ∙ n) b a (unfold commit_batch in refl)
    concluded s (some x, t) h n b (refused k l row e f i a g) = record {
      made = (prepare conn sql ∷ map append (k ++ row ∷ [])) ++ abort ∷ [];
      calls =
          unfold abort_batch in
          rw (f, h) (regroup before (map append (k ++ row ∷ [])) (abort ∷ []) (prepare conn sql));
      counter = unfold abort_batch in i ∙ n;
      is = unfold abort_batch in aborted k l row e b a g;
    }

    filled :
        (json : Bool) (rs : List ResourceSpans) (m : Option Err × State c cl)
        → rows ≡ rows_of c json rs
        → m.1.calls ≡ before ++ prepare conn sql ∷ []
        → m.1.next ≡ next
        → cl.new_batch conn sql w ≡ (m.0, m.1.world)
        → HasOutcome conn sql rows w next before (fill c cl json rs m)
    filled json rs (some e, s) same h n b = record {
      made = prepare conn sql ∷ [];
      calls = h;
      counter = n;
      is = not_prepared b;
    }
    filled json rs (none, s) same h n b =
        rw (resource_loop-flat c cl json rs s, fill, ← same)
          (concluded s (append_rows c cl rows s) h n b (append_rows-Appended rows s))

  -- With a connection `Send` always returns. It prepares one batch, on the only connection, or else on that
  -- at the remainder of the next value of the counter, and appends the rows of the spans, resource by
  -- resource, scope by scope and in order. It then commits once; or, where the client refuses a row, it
  -- aborts once and commits nothing. It returns no error exactly where the client has answered the batch, each
  -- of its rows and the commit without one, and else the first error.
  pub send-Outcome :
      (sink : ChSink Conn) (rs : List ResourceSpans) (s : State c cl)
      → 0 < length sink.conns
      → (conn : Conn) × (r : Result (SendError Err) (Unit {0})) × (t : State c cl) × (made : List
          (BatchCall Conn))
        × (send c cl sink rs s ≡ some (r, t))
        × (get_elem? sink.conns (position (length sink.conns) s.next) ≡ some conn)
        × (t.next ≡ counter_behind (length sink.conns) s.next)
        × (t.calls ≡ s.calls ++ made)
        × Outcome conn sink.insert_sql (rows_of c sink.json_attrs rs) s.world r made t.world
  unfolding send
  send-Outcome sink rs s h =
      let (conn, at, picked) = pick-position sink.conns s.next h in
      let next : ℕ = counter_behind (length sink.conns) s.next in
      let opened : Option Err × State c cl =
        begin c cl conn sink.insert_sql (record s { next = next }) in
      let ended : Result (SendError Err) (Unit {0}) × State c cl =
        fill c cl sink.json_attrs rs opened in
      let out : HasOutcome conn sink.insert_sql (rows_of c sink.json_attrs rs) s.world next s.calls
          ended =
        filled conn sink.insert_sql (rows_of c sink.json_attrs rs) s.world next s.calls
          sink.json_attrs rs opened refl (unfold begin in refl) (unfold begin in refl)
          (unfold begin in refl) in
      (conn, ended.0, ended.1, out.made, rw (picked, send) refl, at, out.counter, out.calls, out.is)
