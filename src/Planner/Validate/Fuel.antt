-- ===== src/Planner/Validate/Fuel.antt =====
-- planner/planner.go: how deep the depth-first search of validatePlanDAG goes.
use sp4rk.Base.{
  Text, List, [], ◌∷◌, ℕ, zero, suc, ◌≤◌, ◌<◌, ◌≡◌, ◌≢◌, refl, subst, arith, length, Memᴰ, inl, inr,
  text_eq_refl,
}
use sp4rk.Base.Map.{Map, insert}
use sp4rk.Planner.Validate.{
  Result, ok, err, ◌>>=◌, duplicate_id, unknown_dependency, cycle, out_of_fuel, Color, white, gray,
  color_of, deps_of, each, visit,
}
use sp4rk.Planner.Validate.Search.{
  Search, Finishes, visit-Finishes, visit_white, visit_gray, visit_black, Color-cases,
  color_of-insert,
}

-- A search ended: with colours, or with a cycle.
abbrev pub Settles {ℓ} : {A : Type ℓ} → Result A → Type 0
Settles (ok _) = Unit
Settles (err (cycle _)) = Unit
Settles (err _) = ⊥

Settles-bind {ℓ κ} :
    {A : Type ℓ} {B : Type κ} (r : Result A) (f : A → Result B)
    → Settles r
    → ((a : A) → r ≡ ok a → Settles (f a))
    → Settles (r >>= f)
Settles-bind (ok a) f h k = k a refl
Settles-bind (err (cycle x)) f h k = tt
Settles-bind (err out_of_fuel) f h k = h
Settles-bind (err (duplicate_id x)) f h k = h
Settles-bind (err (unknown_dependency x y)) f h k = h

-- The nodes of a list that are still white.
abbrev whites : List Text → Map Color → ℕ
whites [] c = 0
whites (x ∷ xs) c = elim (color_of c x) [ white ↦ suc (whites xs c) | _ ↦ whites xs c ]

abbrev NoNewWhite : Map Color → Map Color → Type 0
NoNewWhite c d = (x : Text) → color_of d x ≡ white → color_of c x ≡ white

whites-le : (xs : List Text) (c d : Map Color) → NoNewWhite c d → whites xs d ≤ whites xs c
whites-le [] c d h = omega arith
whites-le (x ∷ xs) c d h = ground (arith, h x, whites-le xs c d h)

whites-lt :
    (xs : List Text) (c d : Map Color) (id : Text)
    → NoNewWhite c d
    → Memᴰ id xs
    → color_of c id ≡ white
    → color_of d id ≢ white
    → whites xs d < whites xs c
whites-lt [] c d id h m w n = elim m [ ]
whites-lt (x ∷ xs) c d id h (Memᴰ.head e) w n =
    let w' : color_of c x ≡ white = subst (λ y. color_of c y ≡ white) e w in
    let n' : color_of d x ≢ white = subst (λ y. color_of d y ≢ white) e n in
    ground (arith, whites-le xs c d h)
whites-lt (x ∷ xs) c d id h (Memᴰ.tail m) w n = ground (arith, h x, whites-lt xs c d id h m w n)

whites-le_length : (xs : List Text) (c : Map Color) → whites xs c ≤ length xs
whites-le_length [] c = omega arith
whites-le_length (x ∷ xs) c = ground (arith, whites-le_length xs c)

module _ (deps : Map (List Text)) (nodes : List Text)
    (closed : (x d : Text) → Memᴰ d (deps_of deps x) → Memᴰ d nodes) where
  each-Settles :
      (v : Search) (n : ℕ)
      → Finishes v
      → ((id : Text) (c : Map Color) → Memᴰ id nodes → whites nodes c ≤ n → Settles (v id c))
      → (ids : List Text) (c : Map Color) → ((id : Text) → Memᴰ id ids → Memᴰ id nodes)
      → whites nodes c ≤ n
      → Settles (each v ids c)
  unfolding each
  each-Settles v n fin h [] c sub w = tt
  each-Settles v n fin h (i ∷ is) c sub w =
      Settles-bind (v i c) (each v is) (h i c (sub i (Memᴰ.head refl)) w) λ e p.
        each-Settles v n fin h is e (λ id m. sub id (Memᴰ.tail m))
          (omega (arith, whites-le nodes c e (fin i c e p).0.white_was))

  gray-NoNewWhite : (id : Text) (c : Map Color) → NoNewWhite c (insert id gray c)
  gray-NoNewWhite id c x h = ground (arith, color_of-insert id x gray c)

  visit-Settles :
      (f : ℕ) (id : Text) (c : Map Color)
      → Memᴰ id nodes
      → whites nodes c < f
      → Settles (visit f deps id c)
  visit-Settles zero id c m w = absurd (omega arith)
  visit-Settles (suc f) id c m w = elim (Color-cases (color_of c id)) [
    | inl e ↦ rw (visit_white f deps id c e) (
        Settles-bind _ _
          (each-Settles (visit f deps) (whites nodes (insert id gray c)) (visit-Finishes f deps)
            (λ x c' mx le. visit-Settles f x c' mx (omega (arith, fewer e))) (deps_of deps id)
            (insert id gray c) (closed id) (omega arith))
          (λ a _. tt))
    | inr (inl e) ↦ rw (visit_gray f deps id c e) tt
    | inr (inr e) ↦ rw (visit_black f deps id c e) tt
  ]
    where
      fewer : color_of c id ≡ white → whites nodes (insert id gray c) < whites nodes c
      fewer e =
          whites-lt nodes c (insert id gray c) id (gray-NoNewWhite id c) m e
            (λ p. ground (arith, color_of-insert id id gray c, text_eq_refl id))

  pub search-Settles :
      (f : ℕ) (ids : List Text)
      → ((id : Text) → Memᴰ id ids → Memᴰ id nodes)
      → length nodes < f
      → Settles (each (visit f deps) ids [])
  search-Settles f ids sub h =
      each-Settles (visit f deps) (length nodes) (visit-Finishes f deps)
        (λ x c m le. visit-Settles f x c m (omega arith)) ids [] sub (whites-le_length nodes [])
