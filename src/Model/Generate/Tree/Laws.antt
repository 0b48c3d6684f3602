-- ===== src/Model/Generate/Tree/Laws.antt =====
-- `addChildren` on a topology: it ends within its fuel, without a panic, and grows the trace.
use spangen.Base.{
  ℕ, zero, suc, ◌+◌, ◌-◌, ◌≤◌, ◌<◌, ◌≡◌, refl, ap, ◌∙◌, inl, inr, List, ◌∷◌, some, Bool, true,
  false, ◌&&◌, ◌||◌, ◌==◌, length, get_elem?, if◌then◌else◌, ltb, Bool-cases, ltb→lt, arith,
}
use spangen.Base.Int.{ℤ, pos, negsuc, pos_part, leb_ℤ}
use spangen.Base.State.{pure, or_panic, Returns, returned, bind, implies, or_panic-Returns}
use spangen.Model.{Source}
use spangen.Model.Draw.{draw, pick, draw_float, Any-float, Any-draw, pick-Returns}
use spangen.Model.Catalog.{Operation, Service}
use spangen.Model.Catalog.Build.Services.{PeerIn, IsService, IsTopology}
use spangen.Model.Spans.{Pdata}
use spangen.Model.Generate.{Settings, State}
use spangen.Model.Generate.Batch.{Batch, add_log}
use spangen.Model.Generate.Emit.Laws.{Represents}
use spangen.Model.Generate.Tree.{
  Parent, server_counterpart, sample_dur, Descend, call_peer, follow, add_child, child_loop,
  draw_children, add_some, add_children,
}
use spangen.Model.Generate.Tree.Grown.{
  IsKnown, known_after, IsKnown-after, Grown, Grown-none, Grown-cons, Grown-append,
}
use spangen.Model.Generate.Tree.Steps.{service_at, drawing, emitting, Any-sample_dur}

callable :
    (i n m : ℕ) (x : ℤ)
    → PeerIn i n x
    → (leb_ℤ (pos 0) x && ltb 0 m) ≡ true
    → (pos_part x < n) × (0 < m)
callable i n m (pos j) h e = ground arith
callable i n m (negsuc j) h e = ground arith

module _ (o : Source) (p : Pdata) (settings : Settings o.Float) where
  open o use {Float}

  module _ (n : ℕ) (topology : IsTopology n settings.cat) (trace_id : List ℕ) where
    -- At a depth, whatever the parent and the batch, the call returns and the trace has grown.
    abbrev pub Descends : Descend o p settings → ℕ → Type 0
    Descends d depth =
        (parent : Parent) (remaining : ℕ) (known : List (List ℕ)) (b : Batch Float) (s : State o p)
        → parent.service < n
        → IsKnown parent.id known
        → Represents o p settings s b
        → Returns (Grown settings trace_id known b remaining) (d parent remaining depth s)

    module _ (d : Descend o p settings) (depth : ℕ) (deeper : Descends d (depth + 1)) where
      call_peer-Grown :
          (j : ℕ) (op : Operation Float) (start dur : ℤ) (remaining : ℕ) (client : List ℕ)
          (known : List (List ℕ)) (b : Batch Float) (s : State o p)
          → j < n
          → 0 < remaining
          → IsKnown client known
          → Represents o p settings s b
          → Returns
              (Grown settings trace_id known b remaining)
              (call_peer o p settings d trace_id j op start dur remaining depth client s)
      unfolding call_peer
      call_peer-Grown j op start dur remaining client known b s jn some_left k h =
          let (peer, e, is) = service_at n settings.cat j topology jn in
          bind (or_panic (get_elem? settings.cat.services j)) _ s (or_panic-Returns s peer e)
            λ found t same.
              rw (same.0, same.1)
                (emitting o p settings trace_id client peer (server_counterpart o op) _ _ _ s
                  (ap (λ i. get_elem? settings.cat.services i) is.position ∙ e) h
                  λ sp u m g.
                    implies
                      (deeper _ (remaining - 1) (sp.span_id ∷ known) _ u
                        (omega (arith, is.position)) (inl refl) g)
                      λ rest v grown. Grown-cons settings peer some_left k m grown)

      follow-Grown :
          (svc : ℕ) (op : Operation Float) (start dur : ℤ) (remaining : ℕ) (client : List ℕ)
          (known : List (List ℕ)) (b : Batch Float) (s : State o p)
          → svc < n
          → PeerIn svc n op.peer
          → IsKnown client known
          → Represents o p settings s b
          → Returns
              (Grown settings trace_id known b remaining)
              (follow o p settings d trace_id svc op start dur remaining depth client s)
      unfolding follow
      follow-Grown svc op start dur remaining client known b s inside peer k h =
          elim (Bool-cases (leb_ℤ (pos 0) op.peer && ltb 0 remaining)) [
            | inl e ↦
                let (jn, some_left) = callable svc n remaining op.peer peer e in
                rw e (
                  call_peer-Grown (pos_part op.peer) op start dur remaining client known b s jn
                    some_left k h)
            | inr e ↦ rw e (no_call _)
          ]
        where
          no_call :
              (c : Bool)
              → Returns (Grown settings trace_id known b remaining) (
                  (if c
                      then d
                          (record { id = client; service = svc; start = start; dur = dur })
                          remaining
                          (depth + 1)
                      else pure remaining)
                    s)
          no_call true = deeper _ remaining known b s inside k h
          no_call false = returned (Grown-none settings h)

      module _ (parent : Parent) (svc : Service Float) (inside : parent.service < n)
          (e : get_elem? settings.cat.services parent.service ≡ some svc)
          (is : IsService n n parent.service svc) where
        add_child-Grown :
            (remaining : ℕ) (known : List (List ℕ)) (b : Batch Float) (s : State o p)
            → 0 < remaining
            → IsKnown parent.id known
            → Represents o p settings s b
            → Returns
                (Grown settings trace_id known b remaining)
                (add_child o p settings d trace_id svc parent remaining depth s)
        unfolding add_child
        add_child-Grown remaining known b s some_left k h =
            drawing o p settings (pick o svc.child_ops) _ s h
              (pick-Returns o (λ (op : Operation Float). PeerIn parent.service n op.peer)
                svc.child_ops s.rng (omega (arith, is.children inside)) is.peers)
              λ op s1 peer h1.
                drawing o p settings (draw_float o) _ s1 h1 (Any-float o s1.rng) λ r s2 _ h2.
                  drawing o p settings (sample_dur o op) _ s2 h2
                    (Any-sample_dur o p settings op s2.rng)
                    λ dur s3 _ h3.
                      emitting o p settings trace_id parent.id svc op _ _ _ s3
                        (ap (λ i. get_elem? settings.cat.services i) is.position ∙ e) h3
                        λ sp s4 m h4.
                          implies
                            (follow-Grown parent.service op _ _ (remaining - 1) sp.span_id
                              (sp.span_id ∷ known) _ s4 inside peer (inl refl) h4)
                            λ rest t grown. Grown-cons settings svc some_left k m grown

        child_loop-Grown :
            (k remaining : ℕ) (known : List (List ℕ)) (b : Batch Float) (s : State o p)
            → IsKnown parent.id known
            → Represents o p settings s b
            → Returns
                (Grown settings trace_id known b remaining)
                (child_loop o p settings d trace_id svc parent k remaining depth s)
        unfolding child_loop
        child_loop-Grown zero remaining known b s in_known h = returned (Grown-none settings h)
        child_loop-Grown (suc k) remaining known b s in_known h =
            elim (Bool-cases (ltb 0 remaining)) [
              | inl some_left ↦ rw some_left (
                  bind (add_child o p settings d trace_id svc parent remaining depth) _ s
                    (add_child-Grown remaining known b s (ltb→lt 0 remaining some_left) in_known h)
                    λ m t first.
                      implies
                        (child_loop-Grown k m (known_after known first.log) (add_log b first.log) t
                          (IsKnown-after parent.id known first.log in_known) first.holds)
                        λ rest u others. Grown-append settings first others)
              | inr none_left ↦ rw none_left (returned (Grown-none settings h))
            ]

        draw_children-Grown :
            (remaining : ℕ) (known : List (List ℕ)) (b : Batch Float) (s : State o p)
            → IsKnown parent.id known
            → Represents o p settings s b
            → Returns
                (Grown settings trace_id known b remaining)
                (draw_children o p settings d trace_id svc parent remaining depth s)
        unfolding draw_children
        draw_children-Grown remaining known b s k h =
            drawing o p settings (draw o 3) _ s h (Any-draw o 3 s.rng (omega arith))
              λ more s1 _ h1. child_loop-Grown (1 + more) remaining known b s1 k h1

      add_some-Grown :
          (parent : Parent) (remaining : ℕ) (known : List (List ℕ)) (b : Batch Float)
          (s : State o p)
          → parent.service < n
          → IsKnown parent.id known
          → Represents o p settings s b
          → Returns
              (Grown settings trace_id known b remaining)
              (add_some o p settings d trace_id parent remaining depth s)
      unfolding add_some
      add_some-Grown parent remaining known b s inside k h =
          let (svc, e, is) = service_at n settings.cat parent.service topology inside in
          bind (or_panic (get_elem? settings.cat.services parent.service)) _ s
            (or_panic-Returns s svc e)
            λ found t same. rw (same.0, same.1) (some_children svc e is (length svc.child_ops == 0))
        where
          some_children :
              (svc : Service Float)
              → get_elem? settings.cat.services parent.service ≡ some svc
              → IsService n n parent.service svc
              → (leaf : Bool)
              → Returns (Grown settings trace_id known b remaining) (
                  (if leaf
                      then pure remaining
                      else draw_children o p settings d trace_id svc parent remaining depth)
                    s)
          some_children svc e is true = returned (Grown-none settings h)
          some_children svc e is false =
              draw_children-Grown parent svc inside e is remaining known b s k h

    -- The fuel is enough at every depth, counted from the cap on.
    pub add_children-Grown :
        (fuel depth : ℕ)
        → 8 ≤ fuel + depth
        → depth ≤ 7
        → Descends (add_children o p settings fuel trace_id) depth
    unfolding add_children
    add_children-Grown zero depth enough shallow parent remaining known b s inside k h =
        absurd (omega arith)
    add_children-Grown (suc fuel) depth enough shallow parent remaining known b s inside k h =
        elim (Bool-cases (remaining == 0 || ltb 6 depth)) [
          | inl e ↦ rw e (returned (Grown-none settings h))
          | inr e ↦ rw e (
              add_some-Grown (add_children o p settings fuel trace_id) depth
                (add_children-Grown fuel (depth + 1) (omega arith) (below_cap e)) parent remaining
                known b s inside k h)
        ]
      where
        below_cap : (remaining == 0 || ltb 6 depth) ≡ false → depth + 1 ≤ 7
        below_cap e = ground arith
