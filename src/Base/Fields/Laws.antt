-- ===== src/Base/Fields/Laws.antt =====
-- Trimming is idempotent, and what `Split` and `Cut` find.
use Prim.Native.Nat.{ℕ, ◌≤◌}
use mathlib.Core.Path.{◌≡◌, refl, ap, ◌∙◌}
use mathlib.Core.Logic.{◌≢◌, inl, inr}
use mathlib.Core.Bool.{false}
use mathlib.Core.Option.{some}
use mathlib.Core.List.{List, [], ◌∷◌, ◌++◌}
use native.Mathlib.Omega.{arith}
use spangen.Base.Tests.{Bool-cases}
use spangen.Base.Lists.{All, length}
use spangen.Base.Strings.{Text}
use spangen.Base.Fields.{is_space, trim_left, keep, trim_right, trim_space, push, split, join, cut}

abbrev pub Lacks : ℕ → Text → Type 0
Lacks c = All (λ d. d ≢ c)

pub record IsTrimmed (s : Text) : Type 0 where
  pub left : trim_left s ≡ s
  pub right : trim_right s ≡ s

pub keep_fixed : (c : ℕ) (s : Text) → trim_right s ≡ s → s ≢ [] → trim_right (c ∷ s) ≡ c ∷ s
unfolding trim_right
keep_fixed c [] e h = absurd (h refl)
keep_fixed c (d ∷ s) e h = rw e refl

trim_right-keep : (c : ℕ) (s : Text) → trim_right s ≡ s → trim_right (keep c s) ≡ keep c s
unfolding keep trim_right
trim_right-keep c [] e = ground arith
trim_right-keep c (d ∷ s) e = keep_fixed c (d ∷ s) e (λ h. cc)

trim_right_idem : (s : Text) → trim_right (trim_right s) ≡ trim_right s
unfolding trim_right
trim_right_idem [] = refl
trim_right_idem (c ∷ s) = trim_right-keep c (trim_right s) (trim_right_idem s)

trim_left_idem : (s : Text) → trim_left (trim_left s) ≡ trim_left s
unfolding trim_left
trim_left_idem [] = refl
trim_left_idem (c ∷ s) = ground (arith, trim_left_idem s)

keep-tail : (c : ℕ) (r s : Text) → keep c r ≡ c ∷ s → r ≡ s
unfolding keep
keep-tail c [] s e = ground arith
keep-tail c (d ∷ r) s e = cc

trim_right-tail : (c : ℕ) (s : Text) → trim_right (c ∷ s) ≡ c ∷ s → trim_right s ≡ s
unfolding trim_right
trim_right-tail c s e = keep-tail c (trim_right s) s e

-- Trimming on the left keeps a text whose end is trimmed.
trim_right-trim_left : (s : Text) → trim_right s ≡ s → trim_right (trim_left s) ≡ trim_left s
unfolding trim_left
trim_right-trim_left [] e = e
trim_right-trim_left (c ∷ s) e = ground (arith, trim_right-trim_left s, trim_right-tail c s)

pub trim_space-IsTrimmed : (s : Text) → IsTrimmed (trim_space s)
unfolding trim_space
trim_space-IsTrimmed s = record {
  left = trim_left_idem (trim_right s);
  right = trim_right-trim_left (trim_right s) (trim_right_idem s);
}

pub trim_space_fixed : (s : Text) → IsTrimmed s → trim_space s ≡ s
unfolding trim_space
trim_space_fixed s t = rw t.right t.left

trim_left-le : (s : Text) → length (trim_left s) ≤ length s
unfolding trim_left
trim_left-le [] = omega arith
trim_left-le (c ∷ s) = ground (arith, trim_left-le s)

-- A text that trimming leaves alone begins with no space.
head_not_space : (c : ℕ) (s : Text) → trim_left (c ∷ s) ≡ c ∷ s → is_space c ≡ false
unfolding trim_left
head_not_space c s e = elim (Bool-cases (is_space c)) [
  | inl space ↦
      absurd (omega (arith, trim_left-le s, ap (length {A = ℕ}) ((rw (space, trim_left) at e))))
  | inr solid ↦ solid
]

trim_left-append : (k w : Text) → k ≢ [] → trim_left k ≡ k → trim_left (k ++ w) ≡ k ++ w
unfolding trim_left
trim_left-append [] w n e = absurd (n refl)
trim_left-append (c ∷ k) w n e = ground (arith, head_not_space c k e)

trim_right-append : (k w : Text) → w ≢ [] → trim_right w ≡ w → trim_right (k ++ w) ≡ k ++ w
trim_right-append [] w n e = e
trim_right-append (c ∷ k) w n e =
    keep_fixed c (k ++ w) (trim_right-append k w n e) (append-ne-nil k w n)
  where
    append-ne-nil : (k w : Text) → w ≢ [] → k ++ w ≢ []
    append-ne-nil [] w n = n
    append-ne-nil (c ∷ k) w n = λ e. cc

trim_right-cons :
    (c : ℕ) (s : Text) → is_space c ≡ false → trim_right s ≡ s → trim_right (c ∷ s) ≡ c ∷ s
unfolding trim_right keep
trim_right-cons c [] h e = ground arith
trim_right-cons c (d ∷ s) h e = keep_fixed c (d ∷ s) e (λ h. cc)

-- Two trimmed texts round a character that is no space are a trimmed text.
pub IsTrimmed-between :
    (k v : Text) (c : ℕ)
    → k ≢ []
    → is_space c ≡ false
    → IsTrimmed k
    → IsTrimmed v
    → IsTrimmed (k ++ c ∷ v)
IsTrimmed-between k v c n h tk tv = record {
  left = trim_left-append k (c ∷ v) n tk.left;
  right = trim_right-append k (c ∷ v) (λ e. cc) (trim_right-cons c v h tv.right);
}

-- Trimming adds no character.
trim_left-Lacks : (c : ℕ) (s : Text) → Lacks c s → Lacks c (trim_left s)
unfolding trim_left
trim_left-Lacks c [] h = tt
trim_left-Lacks c (d ∷ s) h = ground (arith, trim_left-Lacks c s h.1)

keep-Lacks : (c d : ℕ) (s : Text) → d ≢ c → Lacks c s → Lacks c (keep d s)
unfolding keep
keep-Lacks c d [] n h = ground arith
keep-Lacks c d (e ∷ s) n h = (n, h)

trim_right-Lacks : (c : ℕ) (s : Text) → Lacks c s → Lacks c (trim_right s)
unfolding trim_right
trim_right-Lacks c [] h = tt
trim_right-Lacks c (d ∷ s) h = keep-Lacks c d _ h.0 (trim_right-Lacks c s h.1)

pub trim_space-Lacks : (c : ℕ) (s : Text) → Lacks c s → Lacks c (trim_space s)
unfolding trim_space
trim_space-Lacks c s h = trim_left-Lacks c _ (trim_right-Lacks c s h)

push-Lacks :
    (sep c : ℕ) (ps : List Text) → c ≢ sep → All (Lacks sep) ps → All (Lacks sep) (push c ps)
unfolding push
push-Lacks sep c [] n h = ((n, tt), tt)
push-Lacks sep c (p ∷ ps) n h = ((n, h.0), h.1)

-- No part of a split holds the separator.
pub split-Lacks : (s : Text) (sep : ℕ) → All (Lacks sep) (split s sep)
unfolding split
split-Lacks [] sep = (tt, tt)
split-Lacks (c ∷ s) sep = ground (arith, split-Lacks s sep, push-Lacks sep c (split s sep))

split-ne : (p : Text) (sep : ℕ) → Lacks sep p → split p sep ≡ p ∷ []
unfolding split push
split-ne [] sep h = refl
split-ne (c ∷ p) sep h = ground (arith, split-ne p sep h.1)

split-append : (p s : Text) (sep : ℕ) → Lacks sep p → split (p ++ sep ∷ s) sep ≡ p ∷ split s sep
unfolding split push
split-append [] s sep h = ground arith
split-append (c ∷ p) s sep h = ground (arith, split-append p s sep h.1)

-- A split undoes a join of parts without the separator.
pub split-join :
    (ps : List Text) (sep : ℕ) → ps ≢ [] → All (Lacks sep) ps → split (join ps sep) sep ≡ ps
unfolding join
split-join [] sep n h = absurd (n refl)
split-join (p ∷ []) sep n h = split-ne p sep h.0
split-join (p ∷ q ∷ ps) sep n h =
    split-append p _ sep h.0 ∙ ap (◌∷◌ p) (split-join (q ∷ ps) sep (λ e. cc) h.1)

-- `Cut` splits at the first occurrence.
pub cut-append : (k v : Text) (c : ℕ) → Lacks c k → cut (k ++ c ∷ v) c ≡ some (k, v)
unfolding cut
cut-append [] v c h = ground arith
cut-append (d ∷ k) v c h = ground (arith, cut-append k v c h.1)
