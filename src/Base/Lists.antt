-- ===== src/Base/Lists.antt =====
-- Lists measured by the native numbers, under the library's names.
use Prim.Native.Nat.{ℕ, zero, suc, ◌+◌, ◌-◌, min}
use mathlib.Core.Path.{◌≡◌, refl}
use mathlib.Core.Bool.{Bool, true, false}
use mathlib.Core.Logic.{◌⊎◌, inl, inr}
use mathlib.Core.List.{List, [], ◌∷◌, ◌++◌, Memᴰ}
use native.Mathlib.Omega.{arith}
use sp4rk.Base.Tests.{if◌then◌else◌}

module _ {ℓ} {A : Type ℓ} where
  abbrev pub length : List A → ℕ
  length [] = 0
  length (x ∷ xs) = suc (length xs)

  -- xs[:n]
  abbrev pub take : ℕ → List A → List A
  take zero xs = []
  take (suc n) [] = []
  take (suc n) (x ∷ xs) = x ∷ take n xs

  -- xs[n:]
  abbrev pub drop : ℕ → List A → List A
  drop zero xs = xs
  drop (suc n) [] = []
  drop (suc n) (x ∷ xs) = drop n xs

  pub length-append : (xs ys : List A) → length (xs ++ ys) ≡ length xs + length ys
  length-append [] ys = omega arith
  length-append (x ∷ xs) ys = omega (arith, length-append xs ys)

module _ {ℓ} {A : Type ℓ} where
  pub take-append-drop : (n : ℕ) (xs : List A) → take n xs ++ drop n xs ≡ xs
  take-append-drop zero xs = refl
  take-append-drop (suc n) [] = refl
  take-append-drop (suc n) (x ∷ xs) = rw (take-append-drop n xs)

  pub length-take : (n : ℕ) (xs : List A) → length (take n xs) ≡ min n (length xs)
  length-take zero xs = omega arith
  length-take (suc n) [] = omega arith
  length-take (suc n) (x ∷ xs) = omega (arith, length-take n xs)

  pub length-drop : (n : ℕ) (xs : List A) → length (drop n xs) ≡ length xs - n
  length-drop zero xs = omega arith
  length-drop (suc n) [] = omega arith
  length-drop (suc n) (x ∷ xs) = omega (arith, length-drop n xs)

  -- A slice that reaches the end is the whole.
  pub take-length : (n : ℕ) (xs : List A) → length xs ≡ n → take n xs ≡ xs
  take-length zero [] h = refl
  take-length zero (x ∷ xs) h = absurd (omega arith)
  take-length (suc n) [] h = refl
  take-length (suc n) (x ∷ xs) h = rw (take-length n xs (omega arith))

-- Membership in a list built by a loop that appends under a test.
module _ {ℓ} {A : Type ℓ} {a : A} where
  pub mem-if :
      (b : Bool) (x : A) (rest : List A)
      → Memᴰ a (if b then x ∷ rest else rest)
      → Memᴰ a rest ⊎ ((a ≡ x) × (b ≡ true))
  mem-if true x rest (Memᴰ.head e) = inr (e, refl)
  mem-if true x rest (Memᴰ.tail m) = inl m
  mem-if false x rest m = inl m

  pub mem-if_tail :
      (b : Bool) (x : A) (rest : List A) → Memᴰ a rest → Memᴰ a (if b then x ∷ rest else rest)
  mem-if_tail true x rest m = Memᴰ.tail m
  mem-if_tail false x rest m = m

  pub mem-if_head :
      (b : Bool) (x : A) (rest : List A) → b ≡ true → a ≡ x → Memᴰ a (if b then x ∷ rest else rest)
  mem-if_head b x rest p e = rw p (Memᴰ.head e)

  -- A member of `xs ++ ys` is a member of one of them.
  pub mem-append : (xs ys : List A) → Memᴰ a (xs ++ ys) → Memᴰ a xs ⊎ Memᴰ a ys
  mem-append [] ys m = inr m
  mem-append (x ∷ xs) ys (Memᴰ.head e) = inl (Memᴰ.head e)
  mem-append (x ∷ xs) ys (Memᴰ.tail m) = elim (mem-append xs ys m) [
    | inl l ↦ inl (Memᴰ.tail l)
    | inr r ↦ inr r
  ]

  pub mem-append_left : (xs ys : List A) → Memᴰ a xs → Memᴰ a (xs ++ ys)
  mem-append_left [] ys m = elim m [ ]
  mem-append_left (x ∷ xs) ys (Memᴰ.head e) = Memᴰ.head e
  mem-append_left (x ∷ xs) ys (Memᴰ.tail m) = Memᴰ.tail (mem-append_left xs ys m)

  pub mem-append_right : (xs ys : List A) → Memᴰ a ys → Memᴰ a (xs ++ ys)
  mem-append_right [] ys m = m
  mem-append_right (x ∷ xs) ys m = Memᴰ.tail (mem-append_right xs ys m)

-- Every element satisfies the predicate.
abbrev pub All {ℓ κ} : {A : Type ℓ} → (A → Type κ) → List A → Type κ
All P [] = Unit
All P (x ∷ xs) = P x × All P xs
