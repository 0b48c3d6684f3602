-- ===== src/Model/Generate/Attributes/Total.antt =====
-- The attributes of every operation are drawn without a panic.
use spangen.Base.{Bool, true, false, arith}
use spangen.Base.State.{Returns, returned, bind}
use spangen.Model.{Source}
use spangen.Model.Draw.{draw, Any, Any-draw, Any-pick}
use spangen.Model.Catalog.{
  OpType, http_server, http_client, db_client, rpc_server, rpc_client, internal, msg_producer,
  msg_consumer, Operation,
}
use spangen.Model.Generate.Attributes.{
  user_agents, error_statuses, good_statuses, grpc_errors, status_code, grpc_status, client_ip,
  user_agent, server_attributes, rpc_attributes, msg_attributes, internal_attributes,
  http_server_attributes, http_client_attributes, attributes_of, apply_attributes,
}

module _ (o : Source) where
  open o use {Float, Rng}

  Any-status_code : (e : Bool) (r : Rng) → Returns Any (status_code o e r)
  unfolding status_code
  Any-status_code true r = Any-pick o error_statuses r (omega arith)
  Any-status_code false r = Any-pick o good_statuses r (omega arith)

  Any-grpc_status : (e : Bool) (r : Rng) → Returns Any (grpc_status o e r)
  unfolding grpc_status
  Any-grpc_status true r = Any-pick o grpc_errors r (omega arith)
  Any-grpc_status false r = returned tt

  Any-client_ip : (r : Rng) → Returns Any (client_ip o r)
  unfolding client_ip
  Any-client_ip r = bind (draw o 4) _ r (Any-draw o 4 r (omega arith)) λ _ r2 _.
      bind (draw o 256) _ r2 (Any-draw o 256 r2 (omega arith))
        λ _ r3 _. bind (draw o 256) _ r3 (Any-draw o 256 r3 (omega arith)) λ _ r4 _. returned tt

  Any-user_agent : (r : Rng) → Returns Any (user_agent o r)
  unfolding user_agent
  Any-user_agent r = Any-pick o user_agents r (omega arith)

  Any-server_attributes : (op : Operation Float) (r : Rng) → Returns Any (server_attributes o op r)
  unfolding server_attributes
  Any-server_attributes op r =
      bind (client_ip o) _ r (Any-client_ip r)
        λ _ r2 _. bind (user_agent o) _ r2 (Any-user_agent r2) λ _ r3 _. returned tt

  Any-rpc_attributes :
      (op : Operation Float) (e : Bool) (r : Rng) → Returns Any (rpc_attributes o op e r)
  unfolding rpc_attributes
  Any-rpc_attributes op e r = bind (grpc_status o e) _ r (Any-grpc_status e r) λ _ r2 _. returned tt

  Any-msg_attributes : (op : Operation Float) (r : Rng) → Returns Any (msg_attributes o op r)
  unfolding msg_attributes
  Any-msg_attributes op r =
      bind (draw o 8192) _ r (Any-draw o 8192 r (omega arith)) λ _ r2 _. returned tt

  Any-internal_attributes :
      (op : Operation Float) (r : Rng) → Returns Any (internal_attributes o op r)
  unfolding internal_attributes
  Any-internal_attributes op r =
      bind (draw o 16) _ r (Any-draw o 16 r (omega arith)) λ _ r2 _. returned tt

  Any-http_server_attributes :
      (op : Operation Float) (e : Bool) (r : Rng) → Returns Any (http_server_attributes o op e r)
  unfolding http_server_attributes
  Any-http_server_attributes op e r = bind (status_code o e) _ r (Any-status_code e r) λ _ r2 _.
      bind (server_attributes o op) _ r2 (Any-server_attributes op r2) λ _ r3 _. returned tt

  Any-http_client_attributes :
      (op : Operation Float) (e : Bool) (r : Rng) → Returns Any (http_client_attributes o op e r)
  unfolding http_client_attributes
  Any-http_client_attributes op e r =
      bind (status_code o e) _ r (Any-status_code e r) λ _ r2 _. returned tt

  Any-attributes_of :
      (t : OpType) (op : Operation Float) (e : Bool) (r : Rng)
      → Returns Any (attributes_of o t op e r)
  unfolding attributes_of
  Any-attributes_of http_server op e r = Any-http_server_attributes op e r
  Any-attributes_of http_client op e r = Any-http_client_attributes op e r
  Any-attributes_of db_client op e r = returned tt
  Any-attributes_of rpc_server op e r = Any-rpc_attributes op e r
  Any-attributes_of rpc_client op e r = Any-rpc_attributes op e r
  Any-attributes_of msg_producer op e r = Any-msg_attributes op r
  Any-attributes_of msg_consumer op e r = Any-msg_attributes op r
  Any-attributes_of internal op e r = Any-internal_attributes op r

  pub Any-apply_attributes :
      (op : Operation Float) (e : Bool) (r : Rng) → Returns Any (apply_attributes o op e r)
  unfolding apply_attributes
  Any-apply_attributes op e r = Any-attributes_of op.typ op e r
