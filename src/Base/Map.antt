-- ===== src/Base/Map.antt =====
-- Go's `map[string]V` as an association list with the key's binding in front, and
-- `map[string]bool` / `map[string]struct{}` used as a set, as a list of keys.
use mathlib.Core.Path.{◌≡◌, refl}
use mathlib.Core.Logic.{◌≢◌, ◌↔◌, inl, inr}
use mathlib.Core.Bool.{Bool, true, false, ◌||◌}
use mathlib.Core.Option.{Option, none, some}
use mathlib.Core.List.{List, [], ◌∷◌, Memᴰ}
use native.Mathlib.Omega.{arith}
use Prim.Native.Nat.{◌≤◌, ◌<◌}
use sp4rk.Base.Lists.{length}
use sp4rk.Base.Tests.{if◌then◌else◌, is_some, Bool-cases}
use sp4rk.Base.Strings.{Text, text_eq, text_eq_iff, text_eq_refl, text-eq_cases}

abbrev pub Map {ℓ} : Type ℓ → Type ℓ
Map V = List (Text × V)

module _ {ℓ} {V : Type ℓ} where
  unfoldable pub lookup : Text → Map V → Option V
  lookup k [] = none
  lookup k ((j, v) ∷ m) = if text_eq j k then some v else lookup k m

  -- delete(m, k)
  unfoldable pub delete : Text → Map V → Map V
  delete k [] = []
  delete k ((j, v) ∷ m) = let rest = delete k m in if text_eq j k then rest else (j, v) ∷ rest

  -- m[k] = v
  unfoldable pub insert : Text → V → Map V → Map V
  unfolding delete
  insert k v m = (k, v) ∷ delete k m

  pub lookup-delete :
      (k j : Text) (m : Map V) → lookup j (delete k m) ≡ (if text_eq k j then none else lookup j m)
  unfolding lookup delete
  lookup-delete k j [] = ground arith
  lookup-delete k j ((i, v) ∷ m) =
      ground (arith, lookup-delete k j m, text_eq_iff i k, text_eq_iff i j, text_eq_iff k j)

  pub lookup-insert :
      (k j : Text) (v : V) (m : Map V)
      → lookup j (insert k v m) ≡ (if text_eq k j then some v else lookup j m)
  unfolding lookup insert
  lookup-insert k j v m = ground (arith, lookup-delete k j m)

  pub lookup-delete_other : (k j : Text) (m : Map V) → k ≢ j → lookup j (delete k m) ≡ lookup j m
  lookup-delete_other k j m n = ground (arith, lookup-delete k j m, text_eq_iff k j)

  pub lookup-insert_own : (k : Text) (v : V) (m : Map V) → lookup k (insert k v m) ≡ some v
  lookup-insert_own k v m = ground (arith, lookup-insert k k v m, text_eq_refl k)

  pub lookup-delete_own : (k : Text) (m : Map V) → lookup k (delete k m) ≡ none
  lookup-delete_own k m = ground (arith, lookup-delete k k m, text_eq_refl k)

  pub lookup-insert_other :
      (k j : Text) (v : V) (m : Map V) → k ≢ j → lookup j (insert k v m) ≡ lookup j m
  lookup-insert_other k j v m n = ground (arith, lookup-insert k j v m, text_eq_iff k j)

module _ {ℓ} {V : Type ℓ} where
  pub length-delete_le : (k : Text) (m : Map V) → length (delete k m) ≤ length m
  unfolding delete
  length-delete_le k [] = omega arith
  length-delete_le k ((j, v) ∷ m) = ground (arith, length-delete_le k m)

  -- Deleting a key that is there shortens the map.
  pub length-delete_lt :
      (k : Text) (m : Map V) → is_some (lookup k m) ≡ true → length (delete k m) < length m
  unfolding delete lookup
  length-delete_lt k [] h = cc
  length-delete_lt k ((j, v) ∷ m) h = elim (Bool-cases (text_eq j k)) [
    | inl e ↦ ground (arith, length-delete_le k m)
    | inr e ↦ ground (arith, length-delete_lt k m)
  ]

-- A set of strings.
abbrev pub Keys : Type 0
Keys = List Text

-- The keys that a `range` over the map visits.
abbrev pub keys_of {ℓ} : {V : Type ℓ} → Map V → Keys
keys_of [] = []
keys_of ((k, v) ∷ m) = k ∷ keys_of m

unfoldable pub member : Text → Keys → Bool
member k [] = false
member k (j ∷ s) = text_eq j k || member k s

pub member-cons : (x k : Text) (s : Keys) → member x (k ∷ s) ≡ (text_eq k x || member x s)
unfolding member
member-cons x k s = refl

member-Memᴰ : (k : Text) (s : Keys) → member k s ≡ true → Memᴰ k s
unfolding member
member-Memᴰ k [] h = cc
member-Memᴰ k (j ∷ s) h = elim (text-eq_cases k j) [
  | inl e ↦ Memᴰ.head e
  | inr n ↦ Memᴰ.tail (member-Memᴰ k s (ground (arith, text_eq_iff j k)))
]

Memᴰ-member : (k : Text) (s : Keys) → Memᴰ k s → member k s ≡ true
unfolding member
Memᴰ-member k [] h = elim h [ ]
Memᴰ-member k (j ∷ s) (Memᴰ.head e) = ground (arith, text_eq_iff j k)
Memᴰ-member k (j ∷ s) (Memᴰ.tail m) = ground (arith, Memᴰ-member k s m)

pub member_iff : (k : Text) (s : Keys) → (member k s ≡ true) ↔ Memᴰ k s
member_iff k s = (member-Memᴰ k s, Memᴰ-member k s)

pub lookup-keys_of {ℓ} :
    {V : Type ℓ} (k : Text) (v : V) (m : Map V) → lookup k m ≡ some v → Memᴰ k (keys_of m)
unfolding lookup
lookup-keys_of k v [] h = cc
lookup-keys_of k v ((j, w) ∷ m) h = elim (text-eq_cases k j) [
  | inl e ↦ Memᴰ.head e
  | inr n ↦ Memᴰ.tail (lookup-keys_of k v m (ground (arith, text_eq_iff j k)))
]
