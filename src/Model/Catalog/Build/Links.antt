-- ===== src/Model/Catalog/Build/Links.antt =====
-- The second loop of `BuildCatalog`: the children of the services, and the topology that results. It
-- is a graph without cycles on which the generator can run.
use spangen.Base.{
  ℕ, zero, suc, ◌+◌, ◌-◌, ◌≤◌, ◌<◌, ◌≡◌, refl, sym, subst, ◌≢◌, List, ◌++◌, some, All, All-append,
  Indexed, Indexed-get_elem?, Indexed-set, length-set, length-append, Text, length, get_elem?,
  get_elem?-lt, arith, if◌then◌else◌, ltb, ltb→lt, Bool-cases, inl, inr,
}
use native.Mathlib.Nat.{zero-add}
use spangen.Base.State.{
  or_panic, collect, Returns, returned, Returns-some, bind, implies, or_panic-Returns,
  collect-Returns,
}
use spangen.Model.{Source}
use spangen.Model.Draw.{draw, pick, draw_float, Any-float, Any-draw, Any-pick, draw-Returns}
use spangen.Model.Catalog.{Operation, Service, Catalog, http_routes, db_systems}
use spangen.Model.Catalog.Build.{
  build_services, http_call, rpc_call, peer_call, db_call, build_children, add_children_to,
  link_services, build_topology, build_catalog,
}
use spangen.Model.Catalog.Build.Services.{PeerIn, IsService, IsTopology, build_services-Returns}

module _ (o : Source) where
  open o use {Float, Rng}

  -- A call goes from service i to a later one of the n.
  Calls : ℕ → ℕ → Operation Float → Type 0
  Calls n i op = PeerIn i n op.peer

  module _ (services : List (Service Float)) (n i : ℕ) (size : length services ≡ n) where
    http_call-Returns :
        (peer : ℕ) (r : Rng)
        → i < peer
        → peer < n
        → Returns (λ op _. Calls n i op) (http_call o peer r)
    unfolding http_call Calls
    http_call-Returns peer r lo hi =
        bind (pick o http_routes) _ r (Any-pick o http_routes r (omega arith))
          λ _ t _. returned (lo, hi)

    rpc_call-Returns :
        (peer : ℕ) (r : Rng)
        → i < peer
        → peer < n
        → Returns (λ op _. Calls n i op) (rpc_call o services peer r)
    unfolding rpc_call Calls
    rpc_call-Returns peer r lo hi =
        bind (or_panic (get_elem? services peer)) _ r
          (or_panic-Returns r _ (get_elem?-lt services peer (omega arith)).1)
          λ _ t _. returned (lo, hi)

    peer_call-Returns :
        (r : Rng) → i + 1 < n → Returns (λ op _. Calls n i op) (peer_call o services i r)
    unfolding peer_call
    peer_call-Returns r room =
        bind (draw o (length services - i - 1)) _ r
          (draw-Returns o (length services - i - 1) r (omega arith))
          λ d r1 lt. bind (draw_float o) _ r1 (Any-float o r1) λ x r2 _.
            elim (Bool-cases (o.less x (o.lit 5 1))) [
              | inl http ↦ rw http (http_call-Returns (i + 1 + d) r2 (omega arith) (omega arith))
              | inr rpc ↦ rw rpc (rpc_call-Returns (i + 1 + d) r2 (omega arith) (omega arith))
            ]

    peers-Returns :
        (k : ℕ) (r : Rng)
        → Returns
            (λ ops _. All (Calls n i) ops)
            (collect (if ltb (i + 1) (length services) then k else 0) (peer_call o services i) r)
    unfolding collect
    peers-Returns k r = elim (Bool-cases (ltb (i + 1) (length services))) [
      | inl room ↦ rw room (
          implies
            (collect-Returns k (peer_call o services i) r
              (λ t. peer_call-Returns t (omega (arith, ltb→lt (i + 1) (length services) room))))
            (λ _ _ h. h.0))
      | inr last ↦ rw last (returned tt)
    ]

    db_call-Returns :
        (namespace : Text) (r : Rng) → Returns (λ op _. Calls n i op) (db_call o namespace r)
    unfolding db_call Calls
    db_call-Returns namespace r =
        bind (pick o db_systems) _ r (Any-pick o db_systems r (omega arith)) λ _ t _. returned tt

    build_children-Returns :
        (r : Rng)
        → i < n
        → Returns (λ ops _. All (Calls n i) ops × (2 ≤ length ops)) (build_children o services i r)
    unfolding build_children Calls
    build_children-Returns r lt =
        bind (or_panic (get_elem? services i)) _ r
          (or_panic-Returns r _ (get_elem?-lt services i (omega arith)).1)
          λ s r1 _. bind (draw o 3) _ r1 (Any-draw o 3 r1 (omega arith)) λ k r2 _.
            bind (collect _ (peer_call o services i)) _ r2 (peers-Returns k r2) λ peers r3 hp.
              bind (draw o 2) _ r3 (Any-draw o 2 r3 (omega arith)) λ extra r4 _.
                bind (collect (1 + extra) (db_call o s.namespace)) _ r4
                  (collect-Returns (1 + extra) (db_call o s.namespace) r4
                    (db_call-Returns s.namespace))
                  λ dbs r5 hd. returned (
                    All-append (Calls n i) (peers ++ dbs) _
                        (All-append (Calls n i) peers dbs hp hd.0) (tt, tt),
                    omega (arith, length-append (peers ++ dbs), length-append peers dbs),
                  )

  module _ (n i : ℕ) (ops : List (Operation Float)) (calls : All (Calls n i) ops)
      (many : 2 ≤ length ops) where
    -- Service i gets its children; the others stay, so one more service is linked.
    add_children_to-Indexed :
        (services : List (Service Float))
        → i < length services
        → Indexed (IsService n i) 0 services
        → Indexed (IsService n (suc i)) 0 (add_children_to o services i ops)
          × (length (add_children_to o services i ops) ≡ length services)
    unfolding add_children_to Calls
    add_children_to-Indexed services lt h = grown (get_elem?-lt services i lt)
      where
        extended : (s : Service Float) → IsService n i i s → Service Float
        extended s v = record s { child_ops = s.child_ops ++ ops }

        linked : (s : Service Float) (v : IsService n i i s) → IsService n (suc i) i (extended s v)
        linked s v = record {
          position = v.position;
          entries = v.entries;
          peers = All-append _ s.child_ops ops v.peers calls;
          children = λ _. omega (arith, length-append s.child_ops ops);
        }

        kept : (j : ℕ) (s : Service Float) → j ≢ 0 + i → IsService n i j s → IsService n (suc i) j s
        kept j s ne v = record {
          position = v.position;
          entries = v.entries;
          peers = v.peers;
          children = λ below. v.children (omega arith);
        }

        grown :
            (s : Service Float) × (get_elem? services i ≡ some s)
            → Indexed (IsService n (suc i)) 0 (add_children_to o services i ops)
              × (length (add_children_to o services i ops) ≡ length services)
        grown (s, e) =
            let v : IsService n i i s =
              subst (λ j. IsService n i j s) (zero-add i)
                (Indexed-get_elem? (IsService n i) 0 i services h e) in
            rw (e, add_children_to)
              (
                Indexed-set (IsService n i) (IsService n (suc i)) 0 i services (extended s v) kept
                    (subst (λ j. IsService n (suc i) j (extended s v)) (sym (zero-add i))
                      (linked s v))
                    h,
                length-set services i (extended s v),
              )

  link_services-Returns :
      (n left i : ℕ) (services : List (Service Float)) (r : Rng)
      → i + left ≡ n
      → length services ≡ n
      → Indexed (IsService n i) 0 services
      → Returns
          (λ ss _. Indexed (IsService n n) 0 ss × (length ss ≡ n))
          (link_services o left i services r)
  unfolding link_services
  link_services-Returns n zero i services r e size h =
      returned (subst (λ k. Indexed (IsService n k) 0 services) (omega arith) h, size)
  link_services-Returns n (suc left) i services r e size h =
      bind (build_children o services i) _ r
        (build_children-Returns services n i size r (omega arith))
        λ ops t made.
          let (linked, same) =
            add_children_to-Indexed n i ops made.0 made.1 services (omega arith) h in
          link_services-Returns n left (i + 1) (add_children_to o services i ops) t (omega arith)
            (omega arith)
            (subst (λ k. Indexed (IsService n k) 0 (add_children_to o services i ops)) (omega arith)
              linked)

  build_topology-Returns :
      (n : ℕ) (r : Rng)
      → Returns (λ ss _. Indexed (IsService n n) 0 ss × (length ss ≡ n)) (build_topology o n r)
  unfolding build_topology
  build_topology-Returns n r =
      bind (build_services o n 0) _ r (build_services-Returns o n n 0 r)
        λ ss t h. link_services-Returns n n 0 ss t (omega arith) h.1 h.0

  -- For every number of services and every seed `BuildCatalog` returns, without a panic, a topology of
  -- so many services in their order, each with two to five entries and at least two children, and
  -- calls to later services only.
  pub build_catalog-IsTopology :
      (n : ℕ) (scope_name scope_ver : Text) (seed : ℕ)
      → (c : Catalog Float) × (build_catalog o n scope_name scope_ver seed ≡ some c)
        × IsTopology n c
  unfolding build_catalog
  build_catalog-IsTopology n scope_name scope_ver seed =
      named (Returns-some (build_topology-Returns n (o.new_pcg seed 0xD1B54A32D192ED03)))
    where
      named :
          (ss : List (Service Float)) × (r : Rng) × (build_topology o n
                (o.new_pcg seed 0xD1B54A32D192ED03)
              ≡ some (ss, r))
            × (Indexed (IsService n n) 0 ss × (length ss ≡ n))
          → (c : Catalog Float) × (build_catalog o n scope_name scope_ver seed ≡ some c)
            × IsTopology n c
      named (ss, r, e, h) = (
        record { services = ss; scope_name = scope_name; scope_ver = scope_ver },
        rw (e, build_catalog) refl,
        record { size = h.1; services = h.0 },
      )
