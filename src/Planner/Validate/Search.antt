-- ===== src/Planner/Validate/Search.antt =====
-- planner/planner.go: the depth-first search of validatePlanDAG. What a search that succeeds leaves
-- black, white and gray.
use sp4rk.Base.{
  Text, List, [], ◌∷◌, ℕ, zero, suc, if◌then◌else◌, ◌≡◌, refl, subst, arith, Memᴰ, text_eq,
  text_eq_iff, inl, inr, ◌⊎◌, text_eq_refl,
}
use sp4rk.Base.Map.{Map, insert, lookup-insert}
use sp4rk.Planner.Validate.{
  Result, ok, err, ◌>>=◌, >>=-eq_ok, cycle, Color, white, gray, black, color_of, deps_of, each,
  visit,
}

pub color_of-insert :
    (k j : Text) (v : Color) (c : Map Color)
    → color_of (insert k v c) j ≡ (if text_eq k j then v else color_of c j)
unfolding color_of
color_of-insert k j v c = ground (arith, lookup-insert k j v c)

pub color_of-insert_self : (k : Text) (v : Color) (c : Map Color) → color_of (insert k v c) k ≡ v
color_of-insert_self k v c = rw (color_of-insert, text_eq_refl)

-- From `c` to `d` no node loses its black, none becomes white, and none becomes gray.
pub record Grows (c d : Map Color) : Type 0 where
  pub black_stays : (x : Text) → color_of c x ≡ black → color_of d x ≡ black
  pub white_was : (x : Text) → color_of d x ≡ white → color_of c x ≡ white
  pub gray_was : (x : Text) → color_of d x ≡ gray → color_of c x ≡ gray

Grows-refl : (c : Map Color) → Grows c c
Grows-refl c = record { black_stays = λ x h. h; white_was = λ x h. h; gray_was = λ x h. h }

Grows-trans : (c d e : Map Color) → Grows c d → Grows d e → Grows c e
Grows-trans c d e g h = record {
  black_stays = λ x p. h.black_stays x (g.black_stays x p);
  white_was = λ x p. g.white_was x (h.white_was x p);
  gray_was = λ x p. g.gray_was x (h.gray_was x p);
}

-- Marking a white node gray, searching below it, and marking it black.
Grows-visit :
    (id : Text) (c d : Map Color)
    → color_of c id ≡ white
    → Grows (insert id gray c) d
    → Grows c (insert id black d)
Grows-visit id c d w g = record {
  black_stays = λ x p. ground (
    arith,
    color_of-insert id x black d,
    color_of-insert id x gray c,
    g.black_stays x,
    text_eq_iff id x,
  );
  white_was = λ x p. ground (
    arith,
    color_of-insert id x black d,
    color_of-insert id x gray c,
    g.white_was x,
    text_eq_iff id x,
  );
  gray_was = λ x p. ground (
    arith,
    color_of-insert id x black d,
    color_of-insert id x gray c,
    g.gray_was x,
    text_eq_iff id x,
  );
}

abbrev pub Search : Type 0
Search = Text → Map Color → Result (Map Color)

-- A search that, where it succeeds, grows the colours and makes its node black.
abbrev pub Finishes : Search → Type 0
Finishes v = (id : Text) (c d : Map Color) → v id c ≡ ok d → Grows c d × (color_of d id ≡ black)

pub each-Finishes :
    (v : Search)
    → Finishes v
    → (ids : List Text) (c d : Map Color) → each v ids c ≡ ok d
    → Grows c d × ((id : Text) → Memᴰ id ids → color_of d id ≡ black)
unfolding each
each-Finishes v fin [] c d h =
    (subst (λ e. Grows c e) (ground arith) (Grows-refl c), λ id m. elim m [ ])
each-Finishes v fin (i ∷ is) c d h =
    let (e, p, q) = >>=-eq_ok (v i c) (each v is) h in
    let (g, b) = fin i c e p in
    let (g', b') = each-Finishes v fin is e d q in
    (Grows-trans c e d g g', λ id m. later g' b b' id m)
  where
    later :
        {e : Map Color}
        → Grows e d
        → color_of e i ≡ black
        → ((id : Text) → Memᴰ id is → color_of d id ≡ black)
        → (id : Text) → Memᴰ id (i ∷ is)
        → color_of d id ≡ black
    later g' b b' id (Memᴰ.head p) = rw p (g'.black_stays i b)
    later g' b b' id (Memᴰ.tail m) = b' id m

-- The three cases of a visit.
module _ (f : ℕ) (deps : Map (List Text)) (id : Text) (c : Map Color) where
  pub visit_white :
      color_of c id ≡ white
      → visit (suc f) deps id c ≡ (
          each (visit f deps) (deps_of deps id) (insert id gray c) >>= λ c'.
          ok (insert id black c'))
  unfolding visit
  visit_white e = rw (e, visit)

  pub visit_gray : color_of c id ≡ gray → visit (suc f) deps id c ≡ err (cycle id)
  unfolding visit
  visit_gray e = rw (e, visit)

  pub visit_black : color_of c id ≡ black → visit (suc f) deps id c ≡ ok c
  unfolding visit
  visit_black e = rw (e, visit)

pub Color-cases : (k : Color) → (k ≡ white) ⊎ ((k ≡ gray) ⊎ (k ≡ black))
Color-cases white = inl refl
Color-cases gray = inr (inl refl)
Color-cases black = inr (inr refl)

pub ok-injective {ℓ} : {A : Type ℓ} {a b : A} → ok a ≡ ok b → a ≡ b
ok-injective h = cc

-- What a successful visit of a white node did.
pub visit_white-eq_ok :
    (f : ℕ) (deps : Map (List Text)) (id : Text) (c d : Map Color)
    → color_of c id ≡ white
    → visit (suc f) deps id c ≡ ok d
    → (c' : Map Color) × (each (visit f deps) (deps_of deps id) (insert id gray c) ≡ ok c')
      × (insert id black c' ≡ d)
visit_white-eq_ok f deps id c d e h =
    let (c', p, q) = >>=-eq_ok _ _ (rw (visit_white f deps id c e) at h) in (c', p, ok-injective q)

pub visit-Finishes : (fuel : ℕ) (deps : Map (List Text)) → Finishes (visit fuel deps)
visit-Finishes zero deps id c d h = unfold visit in cc
visit-Finishes (suc f) deps id c d h = elim (Color-cases (color_of c id)) [
  | inl e ↦
      let (c', p, q) = visit_white-eq_ok f deps id c d e h in
      let (g, _) =
        each-Finishes (visit f deps) (visit-Finishes f deps) (deps_of deps id) (insert id gray c) c'
          p in
      (subst (Grows c) q (Grows-visit id c c' e g), rw (← q) (color_of-insert_self id black c'))
  | inr (inl e) ↦ absurd (cc (visit_gray f deps id c e))
  | inr (inr e) ↦
      let same : c ≡ d = cc (visit_black f deps id c e) in
      (subst (Grows c) same (Grows-refl c), rw (← same) e)
]
