-- ===== src/Common/Map.antt =====
-- A hash map as an association list: each key is met once.
use Prim.Native.Nat.{◌+◌, ◌≤◌}
use mathlib.Core.Path.{◌≡◌, refl, subst}
use mathlib.Core.Logic.{inl, inr}
use mathlib.Core.Bool.{Bool, true, false}
use mathlib.Core.Option.{Option, none, some}
use mathlib.Core.List.{List, [], ◌∷◌}
use native.Mathlib.Omega.{arith}
use ghal_bol.Common.Tests.{if◌then◌else◌, Eq, Bool-cases}
use ghal_bol.Common.Lists.{All, All-keep_if, length, keep_if}

abbrev pub Map {ℓ} : Type 0 → Type ℓ → Type ℓ
Map K V = List (K × V)

pub beq_self : {K : Type 0} ⦃e : Eq K⦄ (k : K) → e.beq k k ≡ true
beq_self ⦃e⦄ k = (e.beq_iff k k).1 refl

module _ {ℓ} {K : Type 0} {V : Type ℓ} ⦃e : Eq K⦄ where
  unfoldable pub get : K → Map K V → Option V
  get k [] = none
  get k ((j, v) ∷ m) = if e.beq j k then some v else get k m

  unfoldable pub insert : K → V → Map K V → Map K V
  insert k v [] = (k, v) ∷ []
  insert k v ((j, w) ∷ m) = if e.beq j k then (k, v) ∷ m else (j, w) ∷ insert k v m

  unfoldable pub remove : K → Map K V → Map K V
  remove k [] = []
  remove k ((j, w) ∷ m) = if e.beq j k then remove k m else (j, w) ∷ remove k m

  abbrev pub contains : K → Map K V → Bool
  contains k m = elim (get k m) [ none ↦ false | some v ↦ true ]

  pub get-insert :
      (k j : K) (v : V) (m : Map K V)
      → get j (insert k v m) ≡ (if e.beq k j then some v else get j m)
  unfolding get insert
  get-insert k j v [] = refl
  get-insert k j v ((i, w) ∷ m) =
      ground (arith, e.beq_iff k j, e.beq_iff i k, e.beq_iff i j, get-insert k j v m)

  pub get-remove :
      (k j : K) (m : Map K V) → get j (remove k m) ≡ (if e.beq k j then none else get j m)
  unfolding get remove
  get-remove k j [] = ground arith
  get-remove k j ((i, w) ∷ m) =
      ground (arith, e.beq_iff k j, e.beq_iff i k, e.beq_iff i j, get-remove k j m)

  pub get-insert_self : (k : K) (v : V) (m : Map K V) → get k (insert k v m) ≡ some v
  get-insert_self k v m = rw (get-insert, beq_self)

  pub length-insert-le : (k : K) (v : V) (m : Map K V) → length (insert k v m) ≤ length m + 1
  unfolding insert
  length-insert-le k v [] = omega arith
  length-insert-le k v ((j, w) ∷ m) = ground (arith, length-insert-le k v m)

  -- A second value under a key takes no more room.
  pub length-insert_again :
      (k : K) (v w : V) (m : Map K V) → length (insert k v (insert k w m)) ≡ length (insert k w m)
  unfolding insert
  length-insert_again k v w [] = ground (arith, e.beq_iff k k)
  length-insert_again k v w ((j, u) ∷ m) =
      ground (arith, e.beq_iff k k, e.beq_iff j k, length-insert_again k v w m)

  pub length-remove-le : (k : K) (m : Map K V) → length (remove k m) ≤ length m
  unfolding remove
  length-remove-le k [] = omega arith
  length-remove-le k ((j, w) ∷ m) = ground (arith, length-remove-le k m)

  -- No key is met twice.
  abbrev pub Fresh : K → Map K V → Type 0
  Fresh k [] = Unit
  Fresh k ((j, _) ∷ m) = (e.beq j k ≡ false) × Fresh k m

  abbrev pub Unique : Map K V → Type 0
  Unique [] = Unit
  Unique ((k, _) ∷ m) = Fresh k m × Unique m

  pub get_of_Fresh : (k : K) (m : Map K V) → Fresh k m → get k m ≡ none
  unfolding get
  get_of_Fresh k [] h = refl
  get_of_Fresh k ((j, v) ∷ m) h = rw (h.0) (get_of_Fresh k m h.1)

  insert-Fresh :
      (i k : K) (v : V) (m : Map K V) → e.beq k i ≡ false → Fresh i m → Fresh i (insert k v m)
  unfolding insert
  insert-Fresh i k v [] n h = (n, tt)
  insert-Fresh i k v ((j, w) ∷ m) n h = ground (arith, insert-Fresh i k v m n h.1)

  pub insert-Unique : (k : K) (v : V) (m : Map K V) → Unique m → Unique (insert k v m)
  unfolding insert
  insert-Unique k v [] u = (tt, tt)
  insert-Unique k v ((j, w) ∷ m) u =
      ground (arith, e.beq_iff j k, e.beq_iff k j, insert-Fresh j k v m, insert-Unique k v m u.1)

  remove-Fresh : (i k : K) (m : Map K V) → Fresh i m → Fresh i (remove k m)
  unfolding remove
  remove-Fresh i k [] h = tt
  remove-Fresh i k ((j, w) ∷ m) h = ground (arith, remove-Fresh i k m h.1)

  pub remove-Unique : (k : K) (m : Map K V) → Unique m → Unique (remove k m)
  unfolding remove
  remove-Unique k [] u = tt
  remove-Unique k ((j, w) ∷ m) u = ground (arith, remove-Fresh j k m u.0, remove-Unique k m u.1)

module _ {ℓ} {K : Type 0} {V : Type ℓ} where
  -- `HashMap::retain`.
  abbrev pub retain : (V → Bool) → Map K V → Map K V
  retain p = keep_if (λ b. p b.1)

module _ {ℓ} {K : Type 0} {V : Type ℓ} ⦃e : Eq K⦄ where
  keep_if-Fresh : (i : K) (p : V → Bool) (m : Map K V) → Fresh i m → Fresh i (retain p m)
  keep_if-Fresh i p [] h = tt
  keep_if-Fresh i p ((j, w) ∷ m) h = ground (arith, keep_if-Fresh i p m h.1)

  pub retain-Unique : (p : V → Bool) (m : Map K V) → Unique m → Unique (retain p m)
  retain-Unique p [] u = tt
  retain-Unique p ((j, w) ∷ m) u = ground (arith, keep_if-Fresh j p m u.0, retain-Unique p m u.1)

  -- Of a map with unique keys, `retain` keeps exactly the bindings that pass the test.
  pub get-retain :
      (p : V → Bool) (k : K) (m : Map K V)
      → Unique m
      → get k (retain p m) ≡ elim (get k m) [ none ↦ none | some v ↦ if p v then some v else none ]
  unfolding get
  get-retain p k [] u = refl
  get-retain p k ((j, w) ∷ m) u = ground (
    arith,
    e.beq_iff j k,
    get_of_Fresh k m,
    get-retain p k m u.1,
    keep_if-Fresh j p m u.0,
    get_of_Fresh j (retain p m),
    get_of_Fresh j m u.0,
  )

module _ {ℓ κ} {K : Type 0} {V : Type ℓ} (P : V → Type κ) where
  -- A property of all values.
  abbrev pub Every : Map K V → Type κ
  Every = All (λ b. P b.1)

  pub retain-Every : (p : V → Bool) (m : Map K V) → Every m → Every (retain p m)
  retain-Every p m h = All-keep_if (λ b. P b.1) (λ b. p b.1) m h

module _ {ℓ κ} {K : Type 0} {V : Type ℓ} ⦃e : Eq K⦄ (P : V → Type κ) where
  pub insert-Every : (k : K) (v : V) (m : Map K V) → P v → Every P m → Every P (insert k v m)
  unfolding insert
  insert-Every k v [] p h = (p, tt)
  insert-Every k v ((j, w) ∷ m) p h = ground (arith, insert-Every k v m p h.1)

  pub remove-Every : (k : K) (m : Map K V) → Every P m → Every P (remove k m)
  unfolding remove
  remove-Every k [] h = tt
  remove-Every k ((j, w) ∷ m) h = ground (arith, remove-Every k m h.1)

  pub get-Every : (k : K) (m : Map K V) {v : V} → Every P m → get k m ≡ some v → P v
  unfolding get
  get-Every k [] h g = cc
  get-Every k ((j, w) ∷ m) h g = elim (Bool-cases (e.beq j k)) [
    | inl t ↦ subst P (ground arith) h.0
    | inr t ↦ get-Every k m h.1 (ground arith)
  ]
