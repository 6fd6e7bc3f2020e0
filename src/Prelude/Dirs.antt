-- ===== src/Prelude/Dirs.antt =====
-- A directory of records: its files by name, in the order of `sorted(path.glob("*.md"))`.
use Prim.Native.String.{String, compare}
use mathlib.Core.Path.{◌≡◌, subst}
use mathlib.Core.Logic.{inl, inr}
use mathlib.Core.Bool.{Bool, true, false}
use mathlib.Core.Option.{Option, none, some}
use mathlib.Core.List.{List, [], ◌∷◌}
use native.Mathlib.Omega.{arith}
use text.Mathlib.Text.{◌==◌, is_lt}
use text.Mathlib.TextEquality.{eq_iff}
use deep_thought.Prelude.Tests.{if◌then◌else◌, is_some, Bool-cases}
use deep_thought.Prelude.Lists.{All}

abbrev pub Dir {ℓ} : Type ℓ → Type ℓ
Dir V = List (String × V)

module _ {ℓ} {V : Type ℓ} where
  -- the content of a file, if it exists
  unfoldable pub lookup : String → Dir V → Option V
  lookup k [] = none
  lookup k ((j, v) ∷ d) = if j == k then some v else lookup k d

  replace : String → V → Dir V → Dir V
  replace k v [] = []
  replace k v ((j, w) ∷ d) = if j == k then (k, v) ∷ d else (j, w) ∷ replace k v d

  insert : String → V → Dir V → Dir V
  insert k v [] = (k, v) ∷ []
  insert k v ((j, w) ∷ d) =
      let rest = insert k v d in if is_lt (compare k j) then (k, v) ∷ (j, w) ∷ d else (j, w) ∷ rest

  -- a file written, over the old one if there is one
  unfoldable pub write : String → V → Dir V → Dir V
  unfolding lookup replace insert
  write k v d = if is_some (lookup k d) then replace k v d else insert k v d

  -- a file removed
  unfoldable pub unlink : String → Dir V → Dir V
  unlink k [] = []
  unlink k ((j, w) ∷ d) = let rest = unlink k d in if j == k then rest else (j, w) ∷ rest

  -- the records, in the order of their file names
  unfoldable pub values : Dir V → List V
  values [] = []
  values ((j, v) ∷ d) = v ∷ values d

  lookup-replace :
      (k j : String) (v : V) (d : Dir V)
      → is_some (lookup k d) ≡ true
      → lookup j (replace k v d) ≡ (if k == j then some v else lookup j d)
  unfolding lookup replace
  lookup-replace k j v [] h = ground arith
  lookup-replace k j v ((i, w) ∷ d) h =
      ground (arith, eq_iff k j, eq_iff i k, eq_iff i j, lookup-replace k j v d)

  lookup-insert :
      (k j : String) (v : V) (d : Dir V)
      → is_some (lookup k d) ≡ false
      → lookup j (insert k v d) ≡ (if k == j then some v else lookup j d)
  unfolding lookup insert
  lookup-insert k j v [] h = ground arith
  lookup-insert k j v ((i, w) ∷ d) h =
      ground (arith, eq_iff k j, eq_iff i k, eq_iff i j, lookup-insert k j v d)

  pub lookup-write :
      (k j : String) (v : V) (d : Dir V)
      → lookup j (write k v d) ≡ (if k == j then some v else lookup j d)
  unfolding write
  lookup-write k j v d = ground (arith, lookup-replace k j v d, lookup-insert k j v d)

module _ {ℓ κ} {V : Type ℓ} (P : V → Type κ) where
  All-if :
      (b : Bool) (d e : Dir V)
      → All P (values d)
      → All P (values e)
      → All P (values (if b then d else e))
  All-if true d e hd he = hd
  All-if false d e hd he = he

  All-replace :
      (k : String) (v : V) (d : Dir V) → P v → All P (values d) → All P (values (replace k v d))
  unfolding values replace
  All-replace k v [] p h = h
  All-replace k v ((i, w) ∷ d) p h = All-if (i == k) _ _ (p, h.1) (h.0, All-replace k v d p h.1)

  All-insert :
      (k : String) (v : V) (d : Dir V) → P v → All P (values d) → All P (values (insert k v d))
  unfolding values insert
  All-insert k v [] p h = (p, tt)
  All-insert k v ((i, w) ∷ d) p h =
      All-if (is_lt (compare k i)) _ _ (p, (h.0, h.1)) (h.0, All-insert k v d p h.1)

  pub All-write :
      (k : String) (v : V) (d : Dir V) → P v → All P (values d) → All P (values (write k v d))
  unfolding write
  All-write k v d p h =
      All-if (is_some (lookup k d)) _ _ (All-replace k v d p h) (All-insert k v d p h)

  some_eq :
      {b : Bool} {v w : V} (o : Option V) → b ≡ true → (if b then some w else o) ≡ some v → w ≡ v
  some_eq o h e = ground arith

  -- What holds of every record holds of the one that a lookup finds.
  pub All-lookup : (k : String) (d : Dir V) (v : V) → All P (values d) → lookup k d ≡ some v → P v
  unfolding values lookup
  All-lookup k [] v h e = cc
  All-lookup k ((i, w) ∷ d) v h e = elim (Bool-cases (i == k)) [
    | inl here ↦ subst P (some_eq _ here e) h.0
    | inr there ↦ All-lookup k d v h.1 (rw there at e)
  ]
