-- ===== src/Sink/Clickhouse/Pick.antt =====
-- The choice of a connection for a batch, in both sinks: `pick` of clickhouse.go, and the first lines
-- of `Send` in otlp.go. The counter is an atomic.Uint64, so concurrent batches take its values in turn.
use spangen.Base.{
  ℕ, zero, suc, ◌+◌, ◌-◌, ◌%◌, ◌^◌, ◌≤◌, ◌<◌, ◌≡◌, refl, sym, ap, ◌∙◌, ◌⊎◌, inl, inr, List, [], ◌∷◌,
  Option, none, some, false, length, get_elem?, get_elem?-lt, ◌==◌, ltb, lt→ltb, if◌then◌else◌,
  arith,
}
use native.Mathlib.Nat.{mod-lt, mod-eq_of_lt, mod-add-mod, add-mod_left}

-- Every remainder comes up among n successive numbers.
residue : (n a i : ℕ) → i < n → (j : ℕ) × (j < n) × ((a + j) % n ≡ i)
residue n a i h = elim (below i (a % n)) [
  | inl ge ↦ (
    i - a % n,
    omega arith,
    sym (mod-add-mod a n (i - a % n)) ∙ ap (λ m. m % n) (omega arith) ∙ mod-eq_of_lt h,
  )
  | inr lt ↦ (
    n + i - a % n,
    omega (arith, mod-lt a (positive h)),
    sym (mod-add-mod a n (n + i - a % n))
        ∙ ap (λ m. m % n) (omega (arith, mod-lt a (positive h)))
        ∙ add-mod_left n i
        ∙ mod-eq_of_lt h,
  )
]
  where
    positive : i < n → 0 < n
    positive h = omega arith

    below : (x y : ℕ) → (y ≤ x) ⊎ (x < y)
    below x y = ground arith

-- Where the connection of a batch stands among n, and the counter behind it, at a counter so far: the
-- only one, or else the one at the remainder of the next value.
abbrev pub position : ℕ → ℕ → ℕ
position n next = if n == 1 then 0 else (next + 1) % 2 ^ 64 % n

abbrev pub counter_behind : ℕ → ℕ → ℕ
counter_behind n next = if n == 1 then next else (next + 1) % 2 ^ 64

module _ {C : Type 0} where
  -- The element at an index, or the panic, with the counter.
  abbrev at_index : List C → ℕ → ℕ → Option (C × ℕ)
  at_index conns i next = elim (get_elem? conns i) [ none ↦ none | some c ↦ some (c, next) ]

  -- `none` is the panic of a remainder by zero, or of an index out of range.
  unfoldable pub pick : List C → ℕ → Option (C × ℕ)
  pick conns next =
      let i = (next + 1) % 2 ^ 64 in
      if length conns == 1
      then at_index conns 0 next
      else if length conns == 0
      then none
      else at_index conns (i % length conns) i

  unfoldable pub pick_client : List C → ℕ → Option (C × ℕ)
  pick_client clients next =
      let i = (next + 1) % 2 ^ 64 in
      if length clients == 0
      then none
      else if ltb 1 (length clients)
      then at_index clients (i % length clients) i
      else at_index clients 0 next

  -- The connections of k successive batches.
  unfoldable pub picks : ℕ → List C → ℕ → Option (List C × ℕ)
  picks zero conns next = some ([], next)
  picks (suc k) conns next = elim (pick conns next) [
    | none ↦ none
    | some (c, after) ↦ elim (picks k conns after) [
      | none ↦ none
      | some (cs, last) ↦ some (c ∷ cs, last)
    ]
  ]

  at_index-lt :
      (conns : List C) (i next : ℕ)
      → i < length conns
      → (c : C) × (get_elem? conns i ≡ some c) × (at_index conns i next ≡ some (c, next))
  at_index-lt conns i next h = let (c, e) = get_elem?-lt conns i h in (c, e, rw (e, at_index) refl)

  -- With more connections than one both sinks take the one at the next value of the counter.
  picked_among :
      (conns : List C) (next : ℕ)
      → 1 < length conns
      → (pick conns next
          ≡ at_index conns ((next + 1) % 2 ^ 64 % length conns) ((next + 1) % 2 ^ 64))
        × (pick_client conns next
            ≡ at_index conns ((next + 1) % 2 ^ 64 % length conns) ((next + 1) % 2 ^ 64))
  unfolding pick pick_client
  picked_among conns next h =
      (rw (not_one, not_zero) refl, rw (not_zero, lt→ltb 1 (length conns) h) refl)
    where
      not_one : (length conns == 1) ≡ false
      not_one = ground arith

      not_zero : (length conns == 0) ≡ false
      not_zero = ground arith

  -- A sink with a connection always picks one, and both sinks the same: the only one, or else the one
  -- at the next value of the counter.
  pub pick-pick_client :
      (conns : List C) (next : ℕ)
      → 0 < length conns
      → (c : C) × (i : ℕ) × (after : ℕ) × (pick conns next ≡ some (c, after))
        × (pick_client conns next ≡ some (c, after))
        × (get_elem? conns i ≡ some c)
  unfolding pick pick_client
  pick-pick_client [] next h = absurd (omega arith)
  pick-pick_client (c ∷ []) next h = (c, 0, next, refl, refl, refl)
  pick-pick_client (c ∷ d ∷ conns) next h = found (c ∷ d ∷ conns) (omega arith)
    where
      found :
          (all : List C)
          → 1 < length all
          → (c : C) × (i : ℕ) × (after : ℕ) × (pick all next ≡ some (c, after))
            × (pick_client all next ≡ some (c, after))
            × (get_elem? all i ≡ some c)
      found all several =
          let i : ℕ = (next + 1) % 2 ^ 64 in
          let (c, e, at) = at_index-lt all (i % length all) i (mod-lt i (omega arith)) in
          let (p, q) = picked_among all next several in (c, i % length all, i, p ∙ at, q ∙ at, e)

  -- With a connection `pick` takes the one at that position.
  pub pick-position :
      (conns : List C) (next : ℕ)
      → 0 < length conns
      → (c : C) × (get_elem? conns (position (length conns) next) ≡ some c)
        × (pick conns next ≡ some (c, counter_behind (length conns) next))
  unfolding pick
  pick-position [] next h = absurd (omega arith)
  pick-position (c ∷ []) next h = (c, refl, refl)
  pick-position (c ∷ d ∷ conns) next h = found (c ∷ d ∷ conns) (omega arith)
    where
      found :
          (all : List C)
          → 1 < length all
          → (c : C) × (get_elem? all (position (length all) next) ≡ some c)
            × (pick all next ≡ some (c, counter_behind (length all) next))
      found all several =
          let i : ℕ = (next + 1) % 2 ^ 64 in
          let not_one : (length all == 1) ≡ false = ground arith in
          let (c, e, at) = at_index-lt all (i % length all) i (mod-lt i (omega arith)) in
          let behind : counter_behind (length all) next ≡ i = rw not_one refl in
          (
            c,
            rw not_one e,
            (picked_among all next several).0 ∙ at ∙ ap (λ k. some (c, k)) (sym behind),
          )

  -- One pick, away from the wrap of the counter.
  pub picked_next :
      (conns : List C) (next : ℕ)
      → 1 < length conns
      → next + 1 < 2 ^ 64
      → (c : C) × (pick conns next ≡ some (c, next + 1))
        × (get_elem? conns ((next + 1) % length conns) ≡ some c)
  picked_next conns next h fits =
      let (c, e, at) =
        at_index-lt conns ((next + 1) % length conns) (next + 1)
          (mod-lt (next + 1) (omega arith)) in
      let small : (next + 1) % 2 ^ 64 ≡ next + 1 = omega arith in
      (
        c,
        (picked_among conns next h).0 ∙ ap (λ i. at_index conns (i % length conns) i) small ∙ at,
        e,
      )

  -- k batches take the connections at k successive values of the counter.
  picks-nth :
      (k : ℕ) (conns : List C) (next : ℕ)
      → 1 < length conns
      → next + k < 2 ^ 64
      → (cs : List C) × (picks k conns next ≡ some (cs, next + k))
        × (length cs ≡ k)
        × ((j : ℕ) → j < k → get_elem? cs j ≡ get_elem? conns ((next + 1 + j) % length conns))
  unfolding picks
  picks-nth zero conns next h fits =
      ([], ap (λ n. some ([], n)) (omega arith), refl, λ j lt. absurd (omega arith))
  picks-nth (suc k) conns next h fits =
      let (c, p, e) = picked_next conns next h (omega arith) in
      let (cs, ps, n, at) = picks-nth k conns (next + 1) h (omega arith) in
      (
        c ∷ cs,
        rw (p, picks, ps) (ap (λ m. some (c ∷ cs, m)) (omega arith)),
        ap suc n,
        nth c cs e at,
      )
    where
      nth :
          (c : C) (cs : List C)
          → get_elem? conns ((next + 1) % length conns) ≡ some c
          → ((j : ℕ) → j < k → get_elem? cs j ≡ get_elem? conns ((next + 1 + 1 + j) % length conns))
          → (j : ℕ) → j < suc k
          → get_elem? (c ∷ cs) j ≡ get_elem? conns ((next + 1 + j) % length conns)
      nth c cs e at zero lt = sym e ∙ ap (λ m. get_elem? conns (m % length conns)) (omega arith)
      nth c cs e at (suc j) lt =
          at j (omega arith) ∙ ap (λ m. get_elem? conns (m % length conns)) (omega arith)

  -- As long as the counter does not wrap, as many successive batches as there are connections reach
  -- every one of them.
  pub picks-visits :
      (conns : List C) (next : ℕ)
      → 1 < length conns
      → next + length conns < 2 ^ 64
      → (cs : List C) × (picks (length conns) conns next ≡ some (cs, next + length conns))
        × (length cs ≡ length conns)
        × ((i : ℕ) → i < length conns → (j : ℕ) × (get_elem? cs j ≡ get_elem? conns i))
  picks-visits conns next h fits =
      let (cs, e, n, at) = picks-nth (length conns) conns next h fits in
      (
        cs,
        e,
        n,
        λ i lt.
            let (j, less, same) = residue (length conns) (next + 1) i lt in
            (j, at j less ∙ ap (get_elem? conns) same),
      )
