-- ===== src/Config/Hash/Laws.antt =====
-- FNV-1a loses nothing: a step is injective in the state and in the byte.
use spangen.Base.{
  ℕ, ◌<◌, ◌≡◌, refl, sym, ◌∙◌, ◌≢◌, bit_xor, List, [], ◌∷◌, ◌++◌, Option, All, Text, arith,
}
use spangen.Base.Word.{u64_mod, xor-lt-pow, xor-cancel_left, xor-cancel_right, mul-cancel_fnv}
use spangen.Config.Hash.{offset64, fnv64_step, fnv64, host_id}

abbrev pub IsBytes : Text → Type 0
IsBytes = All (λ c. c < 256)

xor-lt_u64 : (a b : ℕ) → a < u64_mod → b < 256 → bit_xor a b < u64_mod
xor-lt_u64 a b ha hb = xor-lt-pow 64 a b ha (omega arith)

fnv64_step-lt : (a c : ℕ) → fnv64_step a c < u64_mod
unfolding fnv64_step
fnv64_step-lt a c = omega arith

fnv64_step_state :
    (a b c : ℕ) → a < u64_mod → b < u64_mod → c < 256 → fnv64_step a c ≡ fnv64_step b c → a ≡ b
unfolding fnv64_step
fnv64_step_state a b c ha hb hc e =
    xor-cancel_right c a b (mul-cancel_fnv _ _ (xor-lt_u64 a c ha hc) (xor-lt_u64 b c hb hc) e)

fnv64_step_byte :
    (a c d : ℕ) → a < u64_mod → c < 256 → d < 256 → fnv64_step a c ≡ fnv64_step a d → c ≡ d
unfolding fnv64_step
fnv64_step_byte a c d ha hc hd e =
    xor-cancel_left a c d (mul-cancel_fnv _ _ (xor-lt_u64 a c ha hc) (xor-lt_u64 a d ha hd) e)

pub fnv64-lt : (a : ℕ) (h : Text) → a < u64_mod → fnv64 a h < u64_mod
unfolding fnv64
fnv64-lt a [] ha = ha
fnv64-lt a (c ∷ h) ha = fnv64-lt (fnv64_step a c) h (fnv64_step-lt a c)

-- Two states that a name takes to one hash are one state.
pub fnv64_injective :
    (a b : ℕ) (h : Text) → a < u64_mod → b < u64_mod → IsBytes h → fnv64 a h ≡ fnv64 b h → a ≡ b
unfolding fnv64
fnv64_injective a b [] ha hb hh e = e
fnv64_injective a b (c ∷ h) ha hb hh e = fnv64_step_state a b c ha hb hh.0 (
    fnv64_injective (fnv64_step a c) (fnv64_step b c) h (fnv64_step-lt a c) (fnv64_step-lt b c) hh.1
      e)

fnv64-append : (a : ℕ) (p s : Text) → fnv64 a (p ++ s) ≡ fnv64 (fnv64 a p) s
unfolding fnv64
fnv64-append a [] s = refl
fnv64-append a (c ∷ p) s = fnv64-append (fnv64_step a c) p s

-- The published FNV-1a-64: the offset basis 0xcbf29ce484222325, and the same step.
unfoldable pub published_offset : ℕ
published_offset = 0xcbf29ce484222325

-- No host name has the FNV-1a-64 hash that the comment on the offset basis names: the basis in the
-- source lacks a digit, and the hash loses nothing.
pub host_id-ne-published :
    (c : ℕ) (h env_host : Text) (random : Option (List ℕ)) (now : ℕ)
    → IsBytes (c ∷ h)
    → host_id (c ∷ h) env_host random now ≢ fnv64 published_offset (c ∷ h)
unfolding host_id published_offset
host_id-ne-published c h env_host random now b e = absurd (
    omega
      (arith, fnv64_injective offset64 published_offset (c ∷ h) (omega arith) (omega arith) b e))

-- Names that differ in one byte are hashed apart, from any state.
fnv64_one_byte :
    (a : ℕ) (p s : Text) (c d : ℕ)
    → a < u64_mod
    → IsBytes (p ++ c ∷ s)
    → IsBytes (p ++ d ∷ s)
    → fnv64 a (p ++ c ∷ s) ≡ fnv64 a (p ++ d ∷ s)
    → c ≡ d
unfolding fnv64
fnv64_one_byte a [] s c d ha hc hd e = fnv64_step_byte a c d ha hc.0 hd.0 (
    fnv64_injective (fnv64_step a c) (fnv64_step a d) s (fnv64_step-lt a c) (fnv64_step-lt a d) hc.1
      e)
fnv64_one_byte a (b ∷ p) s c d ha hc hd e =
    fnv64_one_byte (fnv64_step a b) p s c d (fnv64_step-lt a b) hc.1 hd.1 e

host_id-fnv64 :
    (p s : Text) (c : ℕ) (env_host : Text) (random : Option (List ℕ)) (now : ℕ)
    → host_id (p ++ c ∷ s) env_host random now ≡ fnv64 offset64 (p ++ c ∷ s)
unfolding host_id
host_id-fnv64 [] s c env_host random now = refl
host_id-fnv64 (b ∷ p) s c env_host random now = refl

-- Two pods whose names differ in one byte have different host identifiers, whatever the rest of
-- the environment answers.
pub host_id_one_byte :
    (p s : Text) (c d : ℕ) (env_host : Text) (random random' : Option (List ℕ)) (now now' : ℕ)
    → IsBytes (p ++ c ∷ s)
    → IsBytes (p ++ d ∷ s)
    → c ≢ d
    → host_id (p ++ c ∷ s) env_host random now ≢ host_id (p ++ d ∷ s) env_host random' now'
host_id_one_byte p s c d env_host random random' now now' hc hd n e = n (
    fnv64_one_byte offset64 p s c d (omega arith) hc hd (
      sym (host_id-fnv64 p s c env_host random now)
      ∙ e
      ∙ host_id-fnv64 p s d env_host random' now'))
