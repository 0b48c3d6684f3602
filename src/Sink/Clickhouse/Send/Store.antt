-- ===== src/Sink/Clickhouse/Send/Store.antt =====
-- `Send` and the rows that the client acknowledges.
use spangen.Base.{
  ℕ, suc, ◌+◌, ◌≡◌, refl, sym, ◌∙◌, List, [], ◌∷◌, length, Option, none, some, some-injective,
  subst, Bool, Text, arith,
}
use spangen.Base.Result.{Result, ok, err}
use spangen.Model.Spans.{ResourceSpans}
use spangen.Sink.Clickhouse.Rows.{Codec, Cell}
use spangen.Sink.Clickhouse.Pick.{pick}
use spangen.Sink.Clickhouse.Send.{
  Client, SendError, ChSink, State, begin, append_one, commit_batch, abort_batch, go_on,
  resource_loop, close_batch, conclude, fill, send,
}
use spangen.Sink.Clickhouse.Send.Rows.{rows_of, append_rows, resource_loop-flat}

-- A client with a record of its answers: the rows that it has acknowledged, which are those of the batches
-- whose rows and whose commit it answered without an error; and the rows that it took since the last batch
-- was begun.
pub record Audit (W : Type 0) : Type 0 where
  pub world : W
  pub acknowledged : ℕ
  pub taken : ℕ

abbrev pub row_answered : {W E : Type 0} → Audit W → Option E × W → Option E × Audit W
row_answered w (none, v) = (none, record w { world = v; taken = suc w.taken })
row_answered w (some e, v) = (some e, record w { world = v })

abbrev pub commit_answered : {W E : Type 0} → Audit W → Option E × W → Option E × Audit W
commit_answered w (none, v) =
    (none, record { world = v; acknowledged = w.acknowledged + w.taken; taken = 0 })
commit_answered w (some e, v) = (some e, record w { world = v; taken = 0 })

abbrev pub audited : Client → Client
audited cl = record {
  World = Audit cl.World;
  Conn = cl.Conn;
  Err = cl.Err;
  new_batch = λ conn sql w.
      let (e, v) = cl.new_batch conn sql w.world in (e, record w { world = v; taken = 0 });
  append = λ row w. row_answered w (cl.append row w.world);
  send = λ w. commit_answered w (cl.send w.world);
  abort = λ w. record w { world = cl.abort w.world; taken = 0 };
}

-- Two counts that follow the answers of a client: `stored` goes up by `pending` at a commit without an error.
pub record IsStoring (cl : Client) : Type 0 where
  pub stored : cl.World → ℕ
  pub pending : cl.World → ℕ
  pub prepares :
      (conn : cl.Conn) (sql : Text) (w : cl.World) → stored (cl.new_batch conn sql w).1 ≡ stored w
  pub begins :
      (conn : cl.Conn) (sql : Text) (w : cl.World) → pending (cl.new_batch conn sql w).1 ≡ 0
  pub keeps : (row : List Cell) (w : cl.World) → stored (cl.append row w).1 ≡ stored w
  pub appends :
      (row : List Cell) (w : cl.World)
      → (cl.append row w).0 ≡ none
      → pending (cl.append row w).1 ≡ suc (pending w)
  pub commits : (w : cl.World) → (cl.send w).0 ≡ none → stored (cl.send w).1 ≡ stored w + pending w
  pub fails : (w : cl.World) {e : cl.Err} → (cl.send w).0 ≡ some e → stored (cl.send w).1 ≡ stored w
  pub aborts : (w : cl.World) → stored (cl.abort w) ≡ stored w

-- Every audited client has them, whatever it answers.
unfoldable pub audited-IsStoring : (cl : Client) → IsStoring (audited cl)
audited-IsStoring cl = record {
  stored = λ w. w.acknowledged;
  pending = λ w. w.taken;
  prepares = λ conn sql w. refl;
  begins = λ conn sql w. refl;
  keeps = λ row w. kept w (cl.append row w.world);
  appends = λ row w q. one_more w (cl.append row w.world) q;
  commits = λ w q. added w (cl.send w.world) q;
  fails = λ w q. not_added w (cl.send w.world) q;
  aborts = λ w. refl;
}
  where
    kept :
        (w : Audit cl.World) (m : Option cl.Err × cl.World)
        → (row_answered w m).1.acknowledged ≡ w.acknowledged
    kept w (none, v) = refl
    kept w (some e, v) = refl

    one_more :
        (w : Audit cl.World) (m : Option cl.Err × cl.World)
        → (row_answered w m).0 ≡ none
        → (row_answered w m).1.taken ≡ suc w.taken
    one_more w (none, v) q = refl
    one_more w (some e, v) q = cc

    added :
        (w : Audit cl.World) (m : Option cl.Err × cl.World)
        → (commit_answered w m).0 ≡ none
        → (commit_answered w m).1.acknowledged ≡ w.acknowledged + w.taken
    added w (none, v) q = refl
    added w (some e, v) q = cc

    not_added :
        (w : Audit cl.World) (m : Option cl.Err × cl.World) {e : cl.Err}
        → (commit_answered w m).0 ≡ some e
        → (commit_answered w m).1.acknowledged ≡ w.acknowledged
    not_added w (none, v) q = cc
    not_added w (some e, v) q = refl

module _ (c : Codec) (cl : Client) (b : IsStoring cl) where
  open cl use {Err, Conn, World}
  open b use {stored, pending}

  -- Nothing is added to `stored`, and without an error so many rows to `pending`.
  record Appends (n : ℕ) (s : State c cl) (m : Option Err × State c cl) : Type 0 where
    pub same : stored m.1.world ≡ stored s.world
    pub more : m.0 ≡ none → pending m.1.world ≡ pending s.world + n

  go_on-Appends :
      (i j n : ℕ) (s : State c cl) (m : Option Err × State c cl)
      (k : State c cl → Option Err × State c cl)
      → i + j ≡ n
      → Appends i s m
      → ((t : State c cl) → Appends j t (k t))
      → Appends n s (go_on c cl m k)
  go_on-Appends i j n s (none, t) k sum h f = record {
    same = (f t).same ∙ h.same;
    more = λ q. omega (arith, (f t).more q, h.more refl, sum);
  }
  go_on-Appends i j n s (some e, t) k sum h f = record { same = h.same; more = λ q. cc }

  nothing-Appends : (s : State c cl) → Appends 0 s (none, s)
  nothing-Appends s = record { same = refl; more = λ q. omega arith }

  append_rows-Appends :
      (rows : List (List Cell)) (s : State c cl) → Appends (length rows) s (append_rows c cl rows s)
  unfolding append_rows append_one
  append_rows-Appends [] s = nothing-Appends s
  append_rows-Appends (row ∷ rows) s =
      go_on-Appends 1 (length rows) (suc (length rows)) s (append_one c cl row s)
        (append_rows c cl rows) (omega arith)
        (record { same = b.keeps row s.world; more = λ q. omega (arith, b.appends row s.world q) })
        (append_rows-Appends rows)

  -- What `Send` adds to the count.
  abbrev pub Stores : ℕ → ℕ → Result (SendError Err) (Unit {0}) × State c cl → Type 0
  Stores before n (ok u, t) = stored t.world ≡ before + n
  Stores before n (err e, t) = stored t.world ≡ before

  close_batch-Stores :
      (before n : ℕ) (m : Option Err × State c cl)
      → (m.0 ≡ none → stored m.1.world ≡ before + n)
      → ((e : Err) → m.0 ≡ some e → stored m.1.world ≡ before)
      → Stores before n (close_batch c cl m)
  close_batch-Stores before n (none, s) h g = h refl
  close_batch-Stores before n (some e, s) h g = g e refl

  conclude-Stores :
      (n : ℕ) (s : State c cl) (m : Option Err × State c cl)
      → pending s.world ≡ 0
      → Appends n s m
      → Stores (stored s.world) n (conclude c cl m)
  unfolding commit_batch abort_batch
  conclude-Stores n s (none, t) empty a =
      close_batch-Stores (stored s.world) n (commit_batch c cl t)
        (λ q. omega (arith, b.commits t.world q, a.same, a.more refl, empty))
        (λ e q. b.fails t.world q ∙ a.same)
  conclude-Stores n s (some e, t) empty a = b.aborts t.world ∙ a.same

  fill-Stores :
      (before : ℕ) (json : Bool) (rs : List ResourceSpans) (m : Option Err × State c cl)
      → stored m.1.world ≡ before
      → (m.0 ≡ none → pending m.1.world ≡ 0)
      → Stores before (length (rows_of c json rs)) (fill c cl json rs m)
  fill-Stores before json rs (some e, s) h empty = h
  fill-Stores before json rs (none, s) h empty =
      subst
        (λ k. Stores k (length (rows_of c json rs)) (conclude c cl (resource_loop c cl json rs s)))
        h
        (conclude-Stores (length (rows_of c json rs)) s (resource_loop c cl json rs s) (empty refl)
          (subst (Appends (length (rows_of c json rs)) s) (sym (resource_loop-flat c cl json rs s))
            (append_rows-Appends (rows_of c json rs) s)))

  -- Where `Send` returns no error, the count goes up by all rows of its batch, and else not at all.
  pub send-Stores :
      (sink : ChSink Conn) (rs : List ResourceSpans) (s : State c cl)
      {r : Result (SendError Err) (Unit {0})} {t : State c cl}
      → send c cl sink rs s ≡ some (r, t)
      → Stores (stored s.world) (length (rows_of c sink.json_attrs rs)) (r, t)
  unfolding send begin
  send-Stores sink rs s {r} {t} h = picked (pick sink.conns s.next) h
    where
      picked :
          (p : Option (Conn × ℕ))
          → elim p [
            | none ↦ none
            | some (conn, next) ↦ some (
                fill c cl sink.json_attrs rs
                  (begin c cl conn sink.insert_sql (record s { next = next })))
          ]
            ≡ some (r, t)
          → Stores (stored s.world) (length (rows_of c sink.json_attrs rs)) (r, t)
      picked none h = cc
      picked (some (conn, next)) h =
          subst (Stores (stored s.world) (length (rows_of c sink.json_attrs rs)))
            (some-injective _ _ h)
            (fill-Stores (stored s.world) sink.json_attrs rs
              (begin c cl conn sink.insert_sql (record s { next = next }))
              (b.prepares conn sink.insert_sql s.world)
              (λ q. b.begins conn sink.insert_sql s.world))
