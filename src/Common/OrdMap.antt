-- ===== src/Common/OrdMap.antt =====
-- A B-tree map over numbers as the list of its bindings in ascending order.
use Prim.Native.Nat.{ℕ, suc, ◌+◌, ◌≤◌, ◌<◌}
use mathlib.Core.Path.{◌≡◌, refl, subst}
use mathlib.Core.Logic.{inl, inr}
use mathlib.Core.Option.{Option, none, some}
use mathlib.Core.List.{List, [], ◌∷◌}
use native.Mathlib.Omega.{arith}
use ghal_bol.Common.Tests.{ltb, ◌==◌, if◌then◌else◌, Bool-cases}
use ghal_bol.Common.Lists.{All, length}

abbrev pub OrdMap {ℓ} : Type ℓ → Type ℓ
OrdMap V = List (ℕ × V)

module _ {ℓ} {V : Type ℓ} where
  unfoldable pub get : ℕ → OrdMap V → Option V
  get k [] = none
  get k ((j, v) ∷ m) = if j == k then some v else get k m

  unfoldable pub insert : ℕ → V → OrdMap V → OrdMap V
  insert k v [] = (k, v) ∷ []
  insert k v ((j, w) ∷ m) =
      if ltb k j then (k, v) ∷ (j, w) ∷ m else if j == k then (k, v) ∷ m else (j, w) ∷ insert k v m

  unfoldable pub remove : ℕ → OrdMap V → OrdMap V
  remove k [] = []
  remove k ((j, w) ∷ m) = if j == k then m else (j, w) ∷ remove k m

  -- `keys().next()`: the least key.
  abbrev pub first_key : OrdMap V → Option ℕ
  first_key [] = none
  first_key ((k, _) ∷ _) = some k

  -- The keys ascend, from `lo` at least.
  abbrev pub Sorted : ℕ → OrdMap V → Type 0
  Sorted lo [] = Unit
  Sorted lo ((k, _) ∷ m) = (lo ≤ k) × Sorted (suc k) m

  pub Sorted-mono : {lo hi : ℕ} (m : OrdMap V) → lo ≤ hi → Sorted hi m → Sorted lo m
  Sorted-mono [] h s = tt
  Sorted-mono ((k, v) ∷ m) h s = (omega arith, s.1)

  pub insert-Sorted :
      (lo k : ℕ) (v : V) (m : OrdMap V) → lo ≤ k → Sorted lo m → Sorted lo (insert k v m)
  unfolding insert
  insert-Sorted lo k v [] h s = (h, tt)
  insert-Sorted lo k v ((j, w) ∷ m) h s = ground (arith, insert-Sorted (suc j) k v m)

  pub remove-Sorted : (lo k : ℕ) (m : OrdMap V) → Sorted lo m → Sorted lo (remove k m)
  unfolding remove
  remove-Sorted lo k [] s = tt
  remove-Sorted lo k ((j, w) ∷ m) s =
      ground (arith, remove-Sorted (suc j) k m s.1, Sorted-mono {lo = lo} {hi = suc j} m)

  pub length-insert-le : (k : ℕ) (v : V) (m : OrdMap V) → length (insert k v m) ≤ length m + 1
  unfolding insert
  length-insert-le k v [] = omega arith
  length-insert-le k v ((j, w) ∷ m) = ground (arith, length-insert-le k v m)

  pub length-remove-le : (k : ℕ) (m : OrdMap V) → length (remove k m) ≤ length m
  unfolding remove
  length-remove-le k [] = omega arith
  length-remove-le k ((j, w) ∷ m) = ground (arith, length-remove-le k m)

  pub get_below : (k lo : ℕ) (m : OrdMap V) → k < lo → Sorted lo m → get k m ≡ none
  unfolding get
  get_below k lo [] h s = refl
  get_below k lo ((j, w) ∷ m) h s = ground (arith, get_below k (suc j) m)

  pub get-insert :
      (k j : ℕ) (v : V) (m : OrdMap V) → get j (insert k v m) ≡ (if k == j then some v else get j m)
  unfolding get insert
  get-insert k j v [] = refl
  get-insert k j v ((i, w) ∷ m) = ground (arith, get-insert k j v m)

module _ {ℓ κ} {V : Type ℓ} (P : ℕ × V → Type κ) where
  pub insert-All : (k : ℕ) (v : V) (m : OrdMap V) → P (k, v) → All P m → All P (insert k v m)
  unfolding insert
  insert-All k v [] p h = (p, tt)
  insert-All k v ((j, w) ∷ m) p h = ground (arith, insert-All k v m p h.1)

  pub remove-All : (k : ℕ) (m : OrdMap V) → All P m → All P (remove k m)
  unfolding remove
  remove-All k [] h = tt
  remove-All k ((j, w) ∷ m) h = ground (arith, remove-All k m h.1)

  pub get-All : (k : ℕ) (m : OrdMap V) {v : V} → All P m → get k m ≡ some v → P (k, v)
  unfolding get
  get-All k [] h g = cc
  get-All k ((j, w) ∷ m) h g = elim (Bool-cases (j == k)) [
    | inl t ↦ subst P (ground arith) h.0
    | inr t ↦ get-All k m h.1 (ground arith)
  ]

module _ {ℓ} {V : Type ℓ} where
  -- What is taken out at the cursor leaves an order that begins behind it.
  pub remove-Sorted_next : (k : ℕ) (m : OrdMap V) → Sorted k m → Sorted (suc k) (remove k m)
  unfolding remove
  remove-Sorted_next k [] s = tt
  remove-Sorted_next k ((j, w) ∷ m) s =
      ground (arith, remove-Sorted (suc j) k m s.1, Sorted-mono {lo = suc k} {hi = suc j} m)

  pub Sorted-absent : (k : ℕ) (m : OrdMap V) → get k m ≡ none → Sorted k m → Sorted (suc k) m
  unfolding get
  Sorted-absent k [] h s = tt
  Sorted-absent k ((j, w) ∷ m) h s = ground arith

  pub Sorted-first :
      (lo k : ℕ) (m : OrdMap V) → first_key m ≡ some k → Sorted lo m → (lo ≤ k) × Sorted k m
  Sorted-first lo k [] h s = cc
  Sorted-first lo k ((j, w) ∷ m) h s = ground arith

  pub length-insert_new :
      (k : ℕ) (v : V) (m : OrdMap V) → get k m ≡ none → length (insert k v m) ≡ suc (length m)
  unfolding get insert
  length-insert_new k v [] h = refl
  length-insert_new k v ((j, w) ∷ m) h = ground (arith, length-insert_new k v m)
