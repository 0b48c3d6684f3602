-- ===== src/Model/Catalog.antt =====
-- internal/model/catalog.go: the types of the topology and the pools of values.
pub mod Build
use spangen.Base.{ℕ, List, [], ◌∷◌, Text, codes}
use spangen.Base.Int.{ℤ, negsuc}

pub data OpType : Type 0 where
  http_server http_client db_client rpc_server rpc_client internal msg_producer msg_consumer :
      OpType

-- The constants of ptrace.SpanKind that the source names.
pub data SpanKind : Type 0 where
  kind_server kind_client kind_internal kind_consumer : SpanKind

pub record Operation (F : Type 0) : Type 0 where
  pub name : Text
  pub typ : OpType
  pub kind : SpanKind
  pub mu_log : F
  pub sigma_log : F
  pub method : Text
  pub route : Text
  pub db_system : Text
  pub db_name : Text
  pub db_op : Text
  pub collection : Text
  pub rpc_service : Text
  pub rpc_method : Text
  pub destination : Text
  pub peer : ℤ

pub record Service (F : Type 0) : Type 0 where
  pub idx : ℕ
  pub name : Text
  pub namespace : Text
  pub version : Text
  pub host : Text
  pub resource_attrs : List (Text × Text)
  pub entry_ops : List (Operation F)
  pub child_ops : List (Operation F)

pub record Catalog (F : Type 0) : Type 0 where
  pub services : List (Service F)
  pub scope_name : Text
  pub scope_ver : Text

-- An operation with no descriptor and no peer.
abbrev pub plain : {F : Type 0} → Text → OpType → SpanKind → F → F → Operation F
plain name typ kind mu sigma = record {
  name = name;
  typ = typ;
  kind = kind;
  mu_log = mu;
  sigma_log = sigma;
  method = [];
  route = [];
  db_system = [];
  db_name = [];
  db_op = [];
  collection = [];
  rpc_service = [];
  rpc_method = [];
  destination = [];
  peer = negsuc 0;
}

abbrev pub service_names : List Text
service_names =
    codes "frontend"
    ∷ codes "api-gateway"
    ∷ codes "checkout"
    ∷ codes "cart"
    ∷ codes "catalog"
    ∷ codes "payment"
    ∷ codes "shipping"
    ∷ codes "inventory"
    ∷ codes "user"
    ∷ codes "auth"
    ∷ codes "recommendation"
    ∷ codes "search"
    ∷ codes "pricing"
    ∷ codes "promotion"
    ∷ codes "order"
    ∷ codes "notification"
    ∷ codes "email"
    ∷ codes "fraud"
    ∷ codes "analytics"
    ∷ codes "loyalty"
    ∷ codes "wishlist"
    ∷ codes "review"
    ∷ codes "media"
    ∷ codes "session"
    ∷ []

pub record Route : Type 0 where
  pub method : Text
  pub route : Text

abbrev get : Text → Route
get route = record { method = codes "GET"; route = route }

abbrev post : Text → Route
post route = record { method = codes "POST"; route = route }

abbrev pub http_routes : List Route
http_routes =
    get (codes "/api/products")
    ∷ get (codes "/api/products/{id}")
    ∷ post (codes "/api/cart")
    ∷ get (codes "/api/cart")
    ∷ post (codes "/api/checkout")
    ∷ post (codes "/api/orders")
    ∷ get (codes "/api/orders/{id}")
    ∷ post (codes "/api/payments")
    ∷ get (codes "/api/users/{id}")
    ∷ post (codes "/api/login")
    ∷ get (codes "/api/search")
    ∷ post (codes "/api/recommendations")
    ∷ []

pub record DbSystem : Type 0 where
  pub system : Text
  pub op : Text
  pub coll : Text

abbrev pub db_systems : List DbSystem
db_systems =
    db (codes "postgresql") (codes "SELECT") (codes "orders")
    ∷ db (codes "postgresql") (codes "INSERT") (codes "orders")
    ∷ db (codes "postgresql") (codes "SELECT") (codes "products")
    ∷ db (codes "mysql") (codes "SELECT") (codes "users")
    ∷ db (codes "redis") (codes "GET") (codes "session")
    ∷ db (codes "redis") (codes "SETEX") (codes "cart")
    ∷ db (codes "mongodb") (codes "find") (codes "catalog")
    ∷ db (codes "cassandra") (codes "SELECT") (codes "events")
    ∷ []
  where
    db : Text → Text → Text → DbSystem
    db system op coll = record { system = system; op = op; coll = coll }

abbrev pub environments : List Text
environments = codes "production" ∷ codes "staging" ∷ []

abbrev pub regions : List Text
regions = codes "us-east-1" ∷ codes "us-west-2" ∷ codes "eu-central-1" ∷ []
