-- ===== src/Ids/Sizes.antt =====
-- Slices and joins of texts, by their sizes.
use text.Mathlib.TextLemmas.{nil-append, cons-append}
use deep_thought.Prelude.{ℕ, zero, suc, ◌+◌, ◌≤◌, String, ◌&◌, ◌≡◌, refl, ap, arith}
use deep_thought.Ids.{size, take_chars}

pub size-append : (s t : String) → size (s & t) ≡ size s + size t
size-append String.[] t = rw nil-append (omega arith)
size-append (String.◌∷◌ c s) t = rw cons-append (omega (arith, size-append s t))

-- A slice that is long enough leaves a text as it is.
pub take_chars-all : (n : ℕ) (s : String) → size s ≤ n → take_chars n s ≡ s
unfolding take_chars
take_chars-all zero String.[] h = refl
take_chars-all zero (String.◌∷◌ c s) h = absurd (omega arith)
take_chars-all (suc n) String.[] h = refl
take_chars-all (suc n) (String.◌∷◌ c s) h =
    ap (λ t. String.◌∷◌ c t) (take_chars-all n s (omega arith))
