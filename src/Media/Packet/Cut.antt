-- ===== src/Media/Packet/Cut.antt =====
-- How a frame is cut into chunks.
use ghal_bol.Common.{
  ℕ, zero, suc, ◌-◌, ◌≤◌, ◌≡◌, refl, ap, ◌∙◌, sym, List, [], ◌∷◌, ◌++◌, arith, length, take, drop,
  take-append-drop, length-drop,
}
use native.Mathlib.Nat.{div-eq_of_lt}
use ghal_bol.Media.Packet.{chunks, div_ceil}

-- The data of all chunks, one behind the other.
abbrev pub join : List (List ℕ) → List ℕ
join [] = []
join (d ∷ ds) = d ++ join ds

pub join-chunks :
    (fuel n : ℕ) (xs : List ℕ) → 1 ≤ n → length xs ≤ fuel → join (chunks fuel n xs) ≡ xs
unfolding chunks
join-chunks zero n [] p h = refl
join-chunks zero n (x ∷ xs) p h = absurd (omega arith)
join-chunks (suc fuel) n [] p h = refl
join-chunks (suc fuel) n (x ∷ xs) p h =
    let rest = join-chunks fuel n (drop n (x ∷ xs)) p (omega (arith, length-drop n (x ∷ xs))) in
    ap (◌++◌ (take n (x ∷ xs))) rest ∙ take-append-drop n (x ∷ xs)

div_ceil_zero : (n : ℕ) → 1 ≤ n → div_ceil 0 n ≡ 0
div_ceil_zero n p = div-eq_of_lt (omega arith)

div_ceil_step : (m n : ℕ) → 1 ≤ n → 1 ≤ m → div_ceil m n ≡ suc (div_ceil (m - n) n)
div_ceil_step m n p q = grind arith

pub length-chunks :
    (fuel n : ℕ) (xs : List ℕ)
    → 1 ≤ n
    → length xs ≤ fuel
    → length (chunks fuel n xs) ≡ div_ceil (length xs) n
unfolding chunks
length-chunks zero n [] p h = sym (div_ceil_zero n p)
length-chunks zero n (x ∷ xs) p h = absurd (omega arith)
length-chunks (suc fuel) n [] p h = sym (div_ceil_zero n p)
length-chunks (suc fuel) n (x ∷ xs) p h =
    let tail = drop n (x ∷ xs) in
    let rest = length-chunks fuel n tail p (omega (arith, length-drop n (x ∷ xs))) in
    ap suc (rest ∙ ap (λ (m : ℕ). div_ceil m n) (length-drop n (x ∷ xs)))
    ∙ sym (div_ceil_step (suc (length xs)) n p (omega arith))
