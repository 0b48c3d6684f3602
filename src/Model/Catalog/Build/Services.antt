-- ===== src/Model/Catalog/Build/Services.antt =====
-- What a topology is, and the first loop of `BuildCatalog`: the services and their entries.
use spangen.Base.{
  ℕ, zero, suc, ◌+◌, ◌%◌, ◌≤◌, ◌<◌, ◌≡◌, refl, subst, some, All, Indexed, length-append, Text,
  length, get_elem?, get_elem?-lt, arith,
}
use spangen.Base.Int.{ℤ, pos, negsuc}
use spangen.Base.State.{
  or_panic, Returns, returned, bind, implies, or_panic-Returns, collect-Returns,
}
use spangen.Model.{Source}
use spangen.Model.Draw.{
  draw, pick, draw_float, draw_u32, Any, Any-float, Any-u32, Any-draw, Any-pick, draw-Returns,
}
use spangen.Model.Catalog.{
  Operation, Service, Catalog, service_names, http_routes, environments, regions,
}
use spangen.Model.Catalog.Build.{
  numbered, service_name, http_entry, consumer_entry, draw_labels, draw_entries, build_service,
  build_services,
}

-- A call from service i among n: to a later one.
abbrev pub PeerIn : ℕ → ℕ → ℤ → Type 0
PeerIn i n (pos j) = (i < j) × (j < n)
PeerIn i n (negsuc k) = Unit

module _ {F : Type 0} where
  -- Service i of n, of which the first k are linked.
  pub record IsService (n k i : ℕ) (s : Service F) : Type 0 where
    pub position : s.idx ≡ i
    pub entries : (2 ≤ length s.entry_ops) × (length s.entry_ops ≤ 5)
    pub peers : All (λ (op : Operation F). PeerIn i n op.peer) s.child_ops
    pub children : i < k → 2 ≤ length s.child_ops

  -- A topology of n services, linked.
  pub record IsTopology (n : ℕ) (c : Catalog F) : Type 0 where
    pub size : length c.services ≡ n
    pub services : Indexed (IsService n n) 0 c.services

service_name_total : (i : ℕ) → (name : Text) × (service_name i ≡ some name)
unfolding service_name
service_name_total i = found (get_elem?-lt service_names (i % 24) (omega arith))
  where
    found :
        (a : Text) × (get_elem? service_names (i % 24) ≡ some a)
        → (name : Text) × (service_name i ≡ some name)
    found (a, e) = (numbered i a, rw (e, service_name) refl)

module _ (o : Source) where
  open o use {Float, Rng}

  http_entry-Returns : (r : Rng) → Returns Any (http_entry o r)
  unfolding http_entry
  http_entry-Returns r =
      bind (pick o http_routes) _ r (Any-pick o http_routes r (omega arith)) λ a t _. returned tt

  consumer_entry-le : (name : Text) (x : Float) → length (consumer_entry o name x) ≤ 1
  unfolding consumer_entry
  consumer_entry-le name x = ground arith

  draw_labels-Returns : (r : Rng) → Returns Any (draw_labels o r)
  unfolding draw_labels
  draw_labels-Returns r = bind (draw o 8) _ r (Any-draw o 8 r (omega arith)) λ _ r2 _.
      bind (draw o 20) _ r2 (Any-draw o 20 r2 (omega arith)) λ _ r3 _.
        bind (pick o environments) _ r3 (Any-pick o environments r3 (omega arith)) λ _ r4 _.
          bind (pick o regions) _ r4 (Any-pick o regions r4 (omega arith)) λ _ r5 _.
            bind (draw o 3) _ r5 (Any-draw o 3 r5 (omega arith)) λ _ r6 _.
              bind (draw o 12) _ r6 (Any-draw o 12 r6 (omega arith)) λ _ r7 _.
                bind (draw_u32 o) _ r7 (Any-u32 o r7) λ _ r8 _.
                  bind (draw o 12) _ r8 (Any-draw o 12 r8 (omega arith)) λ _ r9 _. returned tt

  draw_entries-Returns :
      (r : Rng) → Returns (λ es _. (2 ≤ length es) × (length es ≤ 4)) (draw_entries o r)
  unfolding draw_entries
  draw_entries-Returns r = bind (draw o 3) _ r (draw-Returns o 3 r (omega arith)) λ extra t few.
      implies (collect-Returns (2 + extra) (http_entry o) t http_entry-Returns)
        λ es _ made. omega arith

  build_service-Returns :
      (n i : ℕ) (r : Rng) → Returns (λ s _. IsService n 0 i s) (build_service o i r)
  unfolding build_service
  build_service-Returns n i r =
      bind (or_panic (service_name i)) _ r (or_panic-Returns r _ (service_name_total i).1)
        λ name r1 _. bind (draw_labels o) _ r1 (draw_labels-Returns r1) λ labels r2 _.
          bind (draw_entries o) _ r2 (draw_entries-Returns r2) λ es r3 made.
            bind (draw_float o) _ r3 (Any-float o r3) λ x r4 _. returned (record {
              position = refl;
              entries =
                  omega
                    (arith, length-append es (consumer_entry o name x), consumer_entry-le name x);
              peers = tt;
              children = λ h. absurd (omega arith);
            })

  pub build_services-Returns :
      (n left i : ℕ) (r : Rng)
      → Returns
          (λ ss _. Indexed (IsService n 0) i ss × (length ss ≡ left))
          (build_services o left i r)
  unfolding build_services
  build_services-Returns n zero i r = returned (tt, refl)
  build_services-Returns n (suc left) i r =
      bind (build_service o i) _ r (build_service-Returns n i r) λ s r1 h.
        bind (build_services o left (i + 1)) _ r1 (build_services-Returns n left (i + 1) r1)
          λ ss r2 hs.
            returned (
              (h, subst (λ k. Indexed (IsService n 0) k ss) (omega arith) hs.0),
              omega (arith, hs.1),
            )
