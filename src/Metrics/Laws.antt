-- ===== src/Metrics/Laws.antt =====
-- What `New` registers, and that it does not panic.
use spangen.Base.{
  ℕ, ◌*◌, ◌^◌, ◌≡◌, refl, sym, ap, subst, ◌∙◌, List, [], ◌∷◌, ◌++◌, some, Bool, true, false, not,
  ◌&&◌, ◌||◌, Text, codes, text_eq, ltb, leb, ◌==◌, arith,
}
use mathlib.Core.List.{append_assoc, append-nil}
use spangen.Base.Int.{ℤ}
use spangen.Metrics.{
  Kind, counter, gauge, histogram, Collector, named, go_collector, process_collector, Prometheus,
  collectors, register_all, new_metrics,
}

unfoldable pub every {ℓ} : {A : Type ℓ} → (A → Bool) → List A → Bool
every test [] = true
every test (x ∷ xs) = test x && every test xs

-- Lower-case letters and underscores: a name that Prometheus allows.
unfoldable pub is_name_char : ℕ → Bool
is_name_char c = c == 95 || (leb 97 c && leb c 122)

unfoldable pub is_ascii : Text → Bool
unfolding every
is_ascii = every λ c. ltb c 128

unfoldable pub increasing : List (ℕ × ℕ) → Bool
increasing [] = true
increasing ((m, e) ∷ []) = true
increasing ((m, e) ∷ (n, f) ∷ bs) = ltb (m * 10 ^ f) (n * 10 ^ e) && increasing ((n, f) ∷ bs)

unfoldable pub sound_kind : Kind → Bool
unfolding increasing
sound_kind counter = true
sound_kind gauge = true
sound_kind (histogram bs) = increasing bs

-- A collector that Prometheus takes on its own: with such names, values of labels in ASCII, which is
-- UTF-8, and increasing buckets.
unfoldable pub sound : Collector → Bool
unfolding every is_name_char is_ascii sound_kind
sound (named kind name help labels) =
    sound_kind kind
    && (every is_name_char name
        && every (λ (l : Text × Text). every is_name_char l.0 && is_ascii l.1) labels)
sound go_collector = true
sound process_collector = true

unfoldable pub has_prefix : Text → Text → Bool
has_prefix [] s = true
has_prefix (c ∷ p) [] = false
has_prefix (c ∷ p) (d ∷ s) = c == d && has_prefix p s

-- Collectors without a name in common; those of the client are called go_… and process_….
unfoldable pub apart : Collector → Collector → Bool
unfolding has_prefix text_eq
apart (named k a h l) (named m b i n) = not (text_eq a b)
apart (named k a h l) go_collector = not (has_prefix (codes "go_") a)
apart (named k a h l) process_collector = not (has_prefix (codes "process_") a)
apart go_collector (named m b i n) = not (has_prefix (codes "go_") b)
apart go_collector go_collector = false
apart go_collector process_collector = true
apart process_collector (named m b i n) = not (has_prefix (codes "process_") b)
apart process_collector go_collector = true
apart process_collector process_collector = false

-- "Register returns an error if the descriptors provided by the Collector are invalid or if they, in
-- combination with descriptors of already registered Collectors, do not fulfill the consistency and
-- uniqueness criteria"; MustRegister panics on an error.
pub record IsRegistry (p : Prometheus) : Type 0 where
  pub held : p.Registry → List Collector
  pub held_new : held p.new_registry ≡ []
  pub registers :
      (c : Collector) (r : p.Registry)
      → sound c ≡ true
      → every (apart c) (held r) ≡ true
      → (u : p.Registry) × (p.must_register c r ≡ some u) × (held u ≡ held r ++ c ∷ [])

-- Each one apart from those in front of it.
unfoldable all_apart : List Collector → List Collector → Bool
unfolding every apart
all_apart before [] = true
all_apart before (c ∷ cs) = every (apart c) before && all_apart (before ++ c ∷ []) cs

both : (a b : Bool) → (a && b) ≡ true → (a ≡ true) × (b ≡ true)
both a b h = ground arith

module _ (p : Prometheus) (k : IsRegistry p) where
  open k use {held}

  register_all-held :
      (cs before : List Collector) (r : p.Registry)
      → held r ≡ before
      → every sound cs ≡ true
      → all_apart before cs ≡ true
      → (u : p.Registry) × (register_all p cs r ≡ some u) × (held u ≡ before ++ cs)
  unfolding register_all all_apart every
  register_all-held [] before r h s a = (r, refl, h ∙ sym (append-nil before))
  register_all-held (c ∷ cs) before r h s a =
      let front : every (apart c) before ≡ true =
        (both (every (apart c) before) (all_apart (before ++ c ∷ []) cs) a).0 in
      let back : all_apart (before ++ c ∷ []) cs ≡ true =
        (both (every (apart c) before) (all_apart (before ++ c ∷ []) cs) a).1 in
      let one : sound c ≡ true = (both (sound c) (every sound cs) s).0 in
      let others : every sound cs ≡ true = (both (sound c) (every sound cs) s).1 in
      let (u, e, now) = k.registers c r one (subst (λ l. every (apart c) l ≡ true) (sym h) front) in
      let (t, f, then) =
        register_all-held cs (before ++ c ∷ []) u (now ∙ ap (λ l. l ++ c ∷ []) h) others back in
      (t, rw (register_all, e) f, then ∙ append_assoc before (c ∷ []) cs)

  -- For a sink whose name is in ASCII `New` does not panic: no two of its collectors have a name in common.
  -- It registers these, with the sink as their only constant label, whatever the replica.
  pub new_metrics-held :
      (sink : Text) (replica : ℤ)
      → is_ascii sink ≡ true
      → (u : p.Registry) × (new_metrics p sink replica ≡ some u) × (held u ≡ collectors sink)
  unfolding new_metrics collectors every sound sound_kind increasing is_name_char all_apart apart
  new_metrics-held sink replica ascii =
      register_all-held (collectors sink) [] p.new_registry k.held_new collectors_sound
        collectors_apart
    where
      collectors_sound : every sound (collectors sink) ≡ true
      collectors_sound = rw ascii refl

      collectors_apart : all_apart [] (collectors sink) ≡ true
      collectors_apart = refl
