-- ===== src/Common/SortedMap.antt =====
-- A BTreeMap with number keys: a list of pairs in ascending order of the keys.
use Prim.Native.Nat.{ℕ, ◌<◌, ◌≤◌}
use mathlib.Core.Path.{◌≡◌, refl}
use mathlib.Core.Bool.{Bool, false, ◌||◌}
use mathlib.Core.Option.{Option, none, some}
use mathlib.Core.List.{List, [], ◌∷◌}
use native.Mathlib.Omega.{arith}
use pvlog.Common.Tests.{ltb, ◌==◌, if◌then◌else◌}

abbrev pub contains : ℕ → List ℕ → Bool
contains k [] = false
contains k (j ∷ js) = (k == j) || contains k js

module _ {ℓ} {V : Type ℓ} where
  abbrev pub lookup : ℕ → List (ℕ × V) → Option V
  lookup k [] = none
  lookup k ((j, v) ∷ m) = if k == j then some v else lookup k m

  unfoldable pub insert : ℕ → V → List (ℕ × V) → List (ℕ × V)
  insert k v [] = (k, v) ∷ []
  insert k v ((j, w) ∷ m) =
      if ltb k j then (k, v) ∷ (j, w) ∷ m else if k == j then (k, v) ∷ m else (j, w) ∷ insert k v m

  abbrev pub keys : List (ℕ × V) → List ℕ
  keys [] = []
  keys ((k, v) ∷ m) = k ∷ keys m

  -- Every key is above the bound.
  abbrev pub Above : ℕ → List (ℕ × V) → Type 0
  Above b [] = Unit {0}
  Above b ((k, v) ∷ m) = (b < k) × Above b m

  abbrev pub IsSorted : List (ℕ × V) → Type 0
  IsSorted [] = Unit {0}
  IsSorted ((k, v) ∷ m) = Above k m × IsSorted m

module _ {ℓ} {V : Type ℓ} where
  pub lookup-insert :
      (j k : ℕ) (v : V) (m : List (ℕ × V))
      → lookup j (insert k v m) ≡ (if j == k then some v else lookup j m)
  unfolding insert
  lookup-insert j k v [] = refl
  lookup-insert j k v ((i, w) ∷ m) = ground (arith, lookup-insert j k v m)

  Above-insert : (b k : ℕ) (v : V) (m : List (ℕ × V)) → b < k → Above b m → Above b (insert k v m)
  unfolding insert
  Above-insert b k v [] h a = (h, tt)
  Above-insert b k v ((i, w) ∷ m) h a = ground (arith, Above-insert b k v m)

  Above-mono : (a b : ℕ) (m : List (ℕ × V)) → a < b → Above b m → Above a m
  Above-mono a b [] h p = tt
  Above-mono a b ((i, w) ∷ m) h p = (omega arith, Above-mono a b m h p.1)

  pub insert-IsSorted : (k : ℕ) (v : V) (m : List (ℕ × V)) → IsSorted m → IsSorted (insert k v m)
  unfolding insert
  insert-IsSorted k v [] s = (tt, tt)
  insert-IsSorted k v ((i, w) ∷ m) s =
      ground (arith, insert-IsSorted k v m s.1, Above-insert i k v m, Above-mono k i m)

  pub lookup_not-Above : (b k : ℕ) (m : List (ℕ × V)) → Above b m → k ≤ b → lookup k m ≡ none
  lookup_not-Above b k [] a h = refl
  lookup_not-Above b k ((i, w) ∷ m) a h = ground (arith, lookup_not-Above b k m a.1)

  pub lookup-eq-none : (k : ℕ) (m : List (ℕ × V)) → contains k (keys m) ≡ false → lookup k m ≡ none
  lookup-eq-none k [] h = refl
  lookup-eq-none k ((i, w) ∷ m) h = ground (arith, lookup-eq-none k m)

module _ {V : Type 0} where
  ext_heads :
      (k : ℕ) (v : V) (m : List (ℕ × V)) (j : ℕ) (w : V) (n : List (ℕ × V))
      → Above k m
      → Above j n
      → lookup k ((k, v) ∷ m) ≡ lookup k ((j, w) ∷ n)
      → lookup j ((k, v) ∷ m) ≡ lookup j ((j, w) ∷ n)
      → (k ≡ j) × (v ≡ w)
  ext_heads k v m j w n a b hk hj =
      ground (arith, lookup_not-Above k j m a, lookup_not-Above j k n b)

  ext_tails :
      (k : ℕ) (v : V) (m : List (ℕ × V)) (j : ℕ) (w : V) (n : List (ℕ × V)) (i : ℕ)
      → Above k m
      → Above j n
      → k ≡ j
      → lookup i ((k, v) ∷ m) ≡ lookup i ((j, w) ∷ n)
      → lookup i m ≡ lookup i n
  ext_tails k v m j w n i a b e h =
      ground (arith, lookup_not-Above k i m a, lookup_not-Above j i n b)

  -- A map is determined by its lookups.
  pub IsSorted-ext :
      (m n : List (ℕ × V)) → IsSorted m → IsSorted n → ((k : ℕ) → lookup k m ≡ lookup k n) → m ≡ n
  IsSorted-ext [] [] s t h = refl
  IsSorted-ext [] ((j, w) ∷ n) s t h = ground (arith, h j)
  IsSorted-ext ((k, v) ∷ m) [] s t h = ground (arith, h k)
  IsSorted-ext ((k, v) ∷ m) ((j, w) ∷ n) s t h =
      let heads = ext_heads k v m j w n s.0 t.0 (h k) (h j) in
      cc (
        heads.0,
        heads.1,
        IsSorted-ext m n s.1 t.1 (λ i. ext_tails k v m j w n i s.0 t.0 heads.0 (h i)),
      )
