-- ===== src/Session/Acks/Queues.antt =====
-- Bounded queues of things with an id, which hold each id once.
use ghal_bol.Common.{
  ◌≤◌, ◌≡◌, refl, inl, inr, Bool, false, not, List, [], ◌∷◌, ◌++◌, arith, leb, length,
  length-append, keep_if, any, map, Text, text_eq, text_eq_iff, Bool-cases,
}
use ghal_bol.Session.State.{has, add, discard}
use ghal_bol.Session.Acks.{ack_queue_max, push_bounded}

-- No id twice.
abbrev pub Distinct : List Text → Type 0
Distinct [] = Unit
Distinct (x ∷ xs) = (has x xs ≡ false) × Distinct xs

-- No id in both lists.
abbrev pub Apart : List Text → List Text → Type 0
Apart [] ys = Unit
Apart (x ∷ xs) ys = (has x ys ≡ false) × Apart xs ys

-- A queue of anything with an id.
module _ {A : Type 0} (id_of : A → Text) where
  abbrev ids : List A → List Text
  ids q = map id_of q

  pub push_bound :
      (a : A) (q : List A) → length q ≤ ack_queue_max → length (push_bounded a q) ≤ ack_queue_max
  push_bound a [] h = omega arith
  push_bound a (x ∷ q) h =
      ground (arith, h, length-append q (a ∷ []), length-append (x ∷ q) (a ∷ []))

  has-append :
      (x : Text) (a : A) (q : List A)
      → has x (ids q) ≡ false
      → text_eq (id_of a) x ≡ false
      → has x (ids (q ++ a ∷ [])) ≡ false
  unfolding has
  has-append x a [] h n = ground arith
  has-append x a (y ∷ q) h n = ground (arith, has-append x a q)

  append-Distinct :
      (a : A) (q : List A)
      → Distinct (ids q)
      → any (λ p. text_eq (id_of p) (id_of a)) q ≡ false
      → Distinct (ids (q ++ a ∷ []))
  unfolding has
  append-Distinct a [] d h = (refl, tt)
  append-Distinct a (y ∷ q) d h = (
    has-append (id_of y) a q d.0
        (ground (arith, text_eq_iff (id_of a) (id_of y), text_eq_iff (id_of y) (id_of a))),
    append-Distinct a q d.1 (ground arith),
  )

  pub push-Distinct :
      (a : A) (q : List A)
      → Distinct (ids q)
      → any (λ p. text_eq (id_of p) (id_of a)) q ≡ false
      → Distinct (ids (push_bounded a q))
  push-Distinct a [] d h = append-Distinct a [] d h
  push-Distinct a (x ∷ q) d h = elim (Bool-cases (leb ack_queue_max (length (x ∷ q)))) [
    | inl full ↦ rw full (append-Distinct a q d.1 (ground arith))
    | inr room ↦ rw room (append-Distinct a (x ∷ q) d h)
  ]

  append-Apart :
      (a : A) (q : List A) (c : List Text)
      → Apart (ids q) c
      → has (id_of a) c ≡ false
      → Apart (ids (q ++ a ∷ [])) c
  append-Apart a [] c d h = (h, tt)
  append-Apart a (y ∷ q) c d h = (d.0, append-Apart a q c d.1 h)

  pub push-Apart :
      (a : A) (q : List A) (c : List Text)
      → Apart (ids q) c
      → has (id_of a) c ≡ false
      → Apart (ids (push_bounded a q)) c
  push-Apart a [] c d h = append-Apart a [] c d h
  push-Apart a (x ∷ q) c d h = elim (Bool-cases (leb ack_queue_max (length (x ∷ q)))) [
    | inl full ↦ rw full (append-Apart a q c d.1 h)
    | inr room ↦ rw room (append-Apart a (x ∷ q) c d h)
  ]

  has-keep :
      (x : Text) (p : A → Bool) (q : List A)
      → has x (ids q) ≡ false
      → has x (ids (keep_if p q)) ≡ false
  unfolding has
  has-keep x p [] h = refl
  has-keep x p (y ∷ q) h = ground (arith, has-keep x p q)

  pub keep-Distinct : (p : A → Bool) (q : List A) → Distinct (ids q) → Distinct (ids (keep_if p q))
  keep-Distinct p [] d = tt
  keep-Distinct p (y ∷ q) d = ground (arith, has-keep (id_of y) p q d.0, keep-Distinct p q d.1)

  -- What is left without an id, against the others with it.
  pub keep-Apart :
      (x : Text) (q : List A) (c : List Text)
      → Apart (ids q) c
      → Apart (ids (keep_if (λ p. not (text_eq (id_of p) x)) q)) (add x c)
  unfolding has add
  keep-Apart x [] c d = tt
  keep-Apart x (y ∷ q) c d =
      ground (arith, keep-Apart x q c d.1, text_eq_iff x (id_of y), text_eq_iff (id_of y) x)

has-discard : (y x : Text) (c : List Text) → has y c ≡ false → has y (discard x c) ≡ false
unfolding has discard
has-discard y x [] h = refl
has-discard y x (z ∷ c) h = ground (arith, has-discard y x c)

pub discard_gone : (x : Text) (c : List Text) → has x (discard x c) ≡ false
unfolding has discard
discard_gone x [] = refl
discard_gone x (z ∷ c) = ground (arith, discard_gone x c)

pub discard-Apart : (x : Text) (xs c : List Text) → Apart xs c → Apart xs (discard x c)
discard-Apart x [] c d = tt
discard-Apart x (y ∷ xs) c d = (has-discard y x c d.0, discard-Apart x xs c d.1)
