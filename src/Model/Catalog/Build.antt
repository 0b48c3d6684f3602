-- ===== src/Model/Catalog/Build.antt =====
-- catalog.go: `BuildCatalog`, its two loops over the services.
pub mod Services
pub mod Links
use spangen.Base.{
  ℕ, zero, suc, ◌+◌, ◌-◌, ◌*◌, ◌/◌, ◌%◌, ◌^◌, List, [], ◌∷◌, ◌++◌, Option, none, some, Bool, true,
  false, Text, codes, length, get_elem?, set, if◌then◌else◌, ltb,
}
use spangen.Base.Int.{ℤ, pos, negsuc}
use spangen.Base.Format.{decimal, hex}
use spangen.Base.State.{M, ◌>>=◌, ◌>>◌, pure, or_panic, collect}
use spangen.Model.{Source}
use spangen.Model.Draw.{draw, pick, draw_float, draw_u32}
use spangen.Model.Catalog.{
  OpType, http_server, http_client, db_client, rpc_client, internal, msg_consumer, SpanKind,
  kind_server, kind_client, kind_internal, kind_consumer, Operation, Service, Catalog, plain,
  service_names, Route, http_routes, DbSystem, db_systems, environments, regions,
}

-- A number behind the name from the second round of the names on.
unfoldable pub numbered : ℕ → Text → Text
unfolding decimal
numbered i name =
    if ltb i (length service_names) then name else name ++ b'-' ∷ decimal (i / length service_names)

-- `serviceNames[i%len(serviceNames)]`, numbered.
unfoldable pub service_name : ℕ → Option Text
unfolding numbered
service_name i = elim (get_elem? service_names (i % length service_names)) [
  | none ↦ none
  | some name ↦ some (numbered i name)
]

pub record Labels : Type 0 where
  pub minor : ℕ
  pub patch : ℕ
  pub env : Text
  pub region : Text
  pub instance_no : ℕ
  pub host_no : ℕ
  pub pod : ℕ
  pub node : ℕ

unfoldable pub version_of : Labels → Text
unfolding decimal
version_of l = codes "1." ++ decimal l.minor ++ b'.' ∷ decimal l.patch

unfoldable pub resource_attrs_of : Text → Labels → List (Text × Text)
unfolding version_of decimal hex
resource_attrs_of name l =
    (codes "service.name", name)
    ∷ (codes "service.namespace", codes "shop")
    ∷ (codes "service.version", version_of l)
    ∷ (codes "service.instance.id", name ++ b'-' ∷ decimal l.instance_no)
    ∷ (codes "deployment.environment", l.env)
    ∷ (codes "telemetry.sdk.name", codes "opentelemetry")
    ∷ (codes "telemetry.sdk.language", codes "go")
    ∷ (codes "telemetry.sdk.version", codes "1.31.0")
    ∷ (codes "host.name", codes "node-" ++ decimal l.host_no)
    ∷ (codes "host.arch", codes "amd64")
    ∷ (codes "os.type", codes "linux")
    ∷ (codes "cloud.provider", codes "onprem")
    ∷ (codes "cloud.region", l.region)
    ∷ (codes "k8s.namespace.name", codes "shop")
    ∷ (codes "k8s.deployment.name", name)
    ∷ (codes "k8s.pod.name", name ++ b'-' ∷ hex l.pod)
    ∷ (codes "k8s.node.name", codes "worker-" ++ decimal l.node)
    ∷ []

module _ (o : Source) where
  open o use {Float, lit, Rng, less}

  abbrev Op : Type 0
  Op = Operation Float

  unfoldable pub http_entry : M Rng Op
  http_entry = do
    r ← pick o http_routes
    pure
        (record (plain (r.method ++ b' ' ∷ r.route) http_server kind_server (lit 160 1) (lit 6 1)) {
          method = r.method;
          route = r.route;
        })

  -- The consumer entry, for a float below 0.4.
  unfoldable pub consumer_entry : Text → Float → List Op
  consumer_entry name x =
      let dst = name ++ codes ".events" in
      if less x (lit 4 1)
      then record (plain (dst ++ codes " process") msg_consumer kind_consumer (lit 155 1)
          (lit 7 1)) { destination = dst }
        ∷ []
      else []

  -- The random parts of a service's labels, in the order of the draws.
  unfoldable pub draw_labels : M Rng Labels
  draw_labels = do
    minor ← draw o 8
    patch ← draw o 20
    env ← pick o environments
    region ← pick o regions
    instance_no ← draw o 3
    host_no ← draw o 12
    pod ← draw_u32 o
    node ← draw o 12
    pure (record {
      minor = minor;
      patch = patch;
      env = env;
      region = region;
      instance_no = instance_no;
      host_no = host_no;
      pod = pod % 2 ^ 16;
      node = node;
    })

  unfoldable pub draw_entries : M Rng (List Op)
  draw_entries = do extra ← draw o 3; collect (2 + extra) http_entry

  -- The body of the first loop.
  unfoldable pub build_service : ℕ → M Rng (Service Float)
  unfolding version_of resource_attrs_of
  build_service i = do
    name ← or_panic (service_name i)
    labels ← draw_labels
    entries ← draw_entries
    x ← draw_float o
    pure (record {
      idx = i;
      name = name;
      namespace = codes "shop";
      version = version_of labels;
      host = name ++ codes ".shop.svc.cluster.local";
      resource_attrs = resource_attrs_of name labels;
      entry_ops = entries ++ consumer_entry name x;
      child_ops = [];
    })

  -- The first loop, over the number of services left, from service i on.
  unfoldable pub build_services : ℕ → ℕ → M Rng (List (Service Float))
  build_services zero i = pure []
  build_services (suc left) i = do
    s ← build_service i
    rest ← build_services left (i + 1)
    pure (s ∷ rest)

  -- A call of the service at `peer`: HTTP for a float below one half, else RPC.
  unfoldable pub http_call : ℕ → M Rng Op
  http_call peer = do
    r ← pick o http_routes
    pure
        (record (plain (r.method ++ b' ' ∷ r.route) http_client kind_client (lit 150 1) (lit 7 1)) {
          method = r.method;
          route = r.route;
          peer = pos peer;
        })

  unfoldable pub rpc_call : List (Service Float) → ℕ → M Rng Op
  rpc_call services peer = do
    callee ← or_panic (get_elem? services peer)
    pure
        (record (plain (codes "grpc." ++ callee.name ++ codes "/Get") rpc_client kind_client
          (lit 145 1) (lit 7 1)) {
            rpc_service = callee.name ++ codes ".v1.Service";
            rpc_method = codes "Get";
            peer = pos peer;
          })

  unfoldable pub peer_call : List (Service Float) → ℕ → M Rng Op
  peer_call services i = do
    d ← draw o (length services - i - 1)
    x ← draw_float o
    if less x (lit 5 1) then http_call (i + 1 + d) else rpc_call services (i + 1 + d)

  unfoldable pub db_call : Text → M Rng Op
  db_call namespace = do
    d ← pick o db_systems
    pure (record (plain (d.op ++ b' ' ∷ d.coll) db_client kind_client (lit 135 1) (lit 8 1)) {
      db_system = d.system;
      db_op = d.op;
      collection = d.coll;
      db_name = namespace;
    })

  -- The body of the second loop: the children of service i. No call is made from the last service.
  unfoldable pub build_children : List (Service Float) → ℕ → M Rng (List Op)
  build_children services i = do
    s ← or_panic (get_elem? services i)
    n_peers ← draw o 3
    peers ← collect (if ltb (i + 1) (length services) then n_peers else 0) (peer_call services i)
    extra ← draw o 2
    dbs ← collect (1 + extra) (db_call s.namespace)
    pure (
        peers
        ++ dbs
        ++ plain (codes "compute." ++ s.name) internal kind_internal (lit 130 1) (lit 9 1) ∷ [])

  -- `s.childOps = append(…)` for service i.
  unfoldable pub add_children_to : List (Service Float) → ℕ → List Op → List (Service Float)
  add_children_to services i ops = elim (get_elem? services i) [
    | none ↦ services
    | some s ↦ set services i (record s { child_ops = s.child_ops ++ ops })
  ]

  -- The second loop.
  unfoldable pub link_services : ℕ → ℕ → List (Service Float) → M Rng (List (Service Float))
  link_services zero i services = pure services
  link_services (suc left) i services = do
    ops ← build_children services i
    link_services left (i + 1) (add_children_to services i ops)

  unfoldable pub build_topology : ℕ → M Rng (List (Service Float))
  build_topology n = do services ← build_services n 0; link_services n 0 services

  unfoldable pub build_catalog : ℕ → Text → Text → ℕ → Option (Catalog Float)
  unfolding build_topology
  build_catalog n scope_name scope_ver seed =
      elim (build_topology n (o.new_pcg seed 0xD1B54A32D192ED03)) [
        | none ↦ none
        | some (services, _) ↦
            some (record { services = services; scope_name = scope_name; scope_ver = scope_ver })
      ]
