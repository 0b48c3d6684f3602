-- ===== src/Tests/Models.antt =====
-- The topology at concrete inputs.
use spangen.Base.{
  ◌/◌, refl, List, [], ◌∷◌, ◌++◌, map, length, ℕ, ◌+◌, ◌-◌, ◌*◌, ◌%◌, ◌^◌, ◌≡◌, some, codes, ltb,
  leb, arith,
}
use spangen.Base.Int.{pos, pos_part}
use spangen.Model.{Source}
use spangen.Model.Catalog.{
  Catalog, Operation, Service, plain, http_server, db_client, internal, kind_server, kind_client,
  kind_internal,
}
use spangen.Model.Catalog.Build.{build_catalog}
use spangen.Model.Catalog.Build.Services.{IsTopology}
use spangen.Model.Catalog.Build.Links.{build_catalog-IsTopology}
use spangen.Base.State.{Returns}
use spangen.Model.Spans.{Span, ResourceSpans, add_to, Pdata}
use spangen.Model.Generate.{Settings, State}
use spangen.Model.Generate.Batch.{Log, Batch, add_for, add_log, group_of, positions}
use spangen.Model.Generate.Batch.Laws.{AreDistinct, spans_of, stored_for, size_of}
use spangen.Model.Generate.Emit.{no_span_id, make_span, emit_span}
use spangen.Model.Generate.Emit.Made.{IsMade, make_span-Returns}
use spangen.Model.Generate.Emit.Laws.{Represents, emit_span-Represents}
use spangen.Model.Generate.Tree.{fill_batch}
use spangen.Model.Generate.Tree.Traces.{AreTraces, IsRunnable}
use spangen.Model.Generate.Tree.Fill.{fill_batch-AreTraces, fill_batch-AreDistinct}

-- A counter for the random generator, and numbers for floats.
abbrev pub counting : Source
counting = record {
  Float = ℕ;
  lit = λ m e. m;
  add = λ x y. x + y;
  sub = λ x y. x - y;
  mul = λ x y. x * y;
  div = λ x y. x / y;
  exp = λ x. x;
  less = ltb;
  leq = leb;
  of_i64 = λ x. 0;
  of_u64 = λ n. n;
  seconds = pos_part;
  to_i64 = λ x. pos x;
  Rng = ℕ;
  new_pcg = λ a b. a;
  uint64 = λ r. (r % 2 ^ 64, r + 1);
  uint32 = λ r. (r % 2 ^ 32, r + 1);
  int_n = λ n r. (r % n, r + 1);
  float64 = λ r. (r, r + 1);
  norm_float64 = λ r. (r, r + 1);
  int_n-lt = λ n r h. omega arith;
  now = λ k. pos (1700000000000000000 + k);
}

build_catalog-IsTopology_example :
    (c : Catalog ℕ) × (build_catalog counting 3 (codes "spangen") (codes "1.0.0") 7 ≡ some c)
    × IsTopology 3 c
build_catalog-IsTopology_example =
    build_catalog-IsTopology counting 3 (codes "spangen") (codes "1.0.0") 7

-- Lists for the store of a batch.
abbrev pub lists : Pdata
lists = record {
  Td = List ResourceSpans;
  new_traces = [];
  resource_spans = λ td. td;
  add_resource = λ r td. td ++ r ∷ [];
  add_span = add_to;
  read-new_traces = refl;
  read-add_resource = λ r td. refl;
  read-add_span = λ k sp td h. refl;
}

abbrev shop : Service ℕ
shop = record {
  idx = 0;
  name = codes "shop";
  namespace = codes "shop";
  version = codes "1.0.0";
  host = codes "shop.local";
  resource_attrs = (codes "service.name", codes "shop") ∷ [];
  entry_ops =
      plain (codes "GET /") http_server kind_server 160 6
      ∷ plain (codes "POST /") http_server kind_server 160 6
      ∷ [];
  child_ops =
      plain (codes "SELECT orders") db_client kind_client 135 8
      ∷ plain (codes "compute.shop") internal kind_internal 130 9
      ∷ [];
}

abbrev pub one_service : Settings ℕ
one_service = record {
  cat = record { services = shop ∷ []; scope_name = codes "spangen"; scope_ver = codes "1.0.0" };
  spans_per_trace_min = pos 1;
  spans_per_trace_max = pos 2;
  error_rate = 5;
  event_rate = 0;
}

abbrev pub fresh : State counting lists
fresh = record { rng = 0; scopes = []; last_span_id = []; td = []; clock = 0 }

pub one_service-IsRunnable : IsRunnable 1 1 2 one_service
one_service-IsRunnable = record {
  topology = record {
    size = refl;
    services = (
      record {
        position = refl;
        entries = (omega arith, omega arith);
        peers = (tt, (tt, tt));
        children = λ h. omega arith;
      },
      tt,
    );
  };
  some_service = omega arith;
  min = refl;
  max = refl;
  range = (omega arith, omega arith, omega arith);
}

fill_batch-AreTraces_example :
    (t : State counting lists) × (log : Log ℕ) × (fill_batch counting lists one_service
        (pos 3)
        fresh
      ≡ some (3, t))
    × (t.td ≡ map (group_of one_service.cat) (add_log [] log))
    × (length log ≡ 3)
    × AreTraces 2 log
fill_batch-AreTraces_example =
    fill_batch-AreTraces counting lists one_service one_service-IsRunnable (pos 3) fresh refl

fill_batch-AreDistinct_example :
    (t : State counting lists) × (log : Log ℕ) × (b : Batch ℕ) × (fill_batch counting lists
        one_service
        (pos 3)
        fresh
      ≡ some (3, t))
    × AreTraces 2 log
    × (t.td ≡ map (group_of one_service.cat) b)
    × AreDistinct b
    × ((i : ℕ) → stored_for i b ≡ spans_of i log)
    × (size_of b ≡ 3)
fill_batch-AreDistinct_example =
    fill_batch-AreDistinct counting lists one_service one_service-IsRunnable (pos 3) fresh refl

abbrev home : Operation ℕ
home = plain (codes "GET /") http_server kind_server 160 6

make_span-Returns_example :
    Returns
      (λ sp _. IsMade [] no_span_id home (pos 9) (pos 3) sp)
      (make_span counting one_service [] no_span_id home (pos 9) (pos 3) 0)
make_span-Returns_example =
    make_span-Returns counting one_service [] no_span_id home (pos 9) (pos 3) 0

emit_span-Represents_example :
    Returns
      (λ _ t.
        (sp : Span) × IsMade [] no_span_id home (pos 9) (pos 3) sp
        × Represents counting lists one_service t (add_for shop sp [])
        × (t.last_span_id ≡ sp.span_id))
      (emit_span counting lists one_service [] no_span_id shop home (pos 9) (pos 3) fresh)
unfolding positions
emit_span-Represents_example =
    emit_span-Represents counting lists one_service [] no_span_id shop home (pos 9) (pos 3) [] fresh
      refl (record { scopes = refl; stored = refl })
