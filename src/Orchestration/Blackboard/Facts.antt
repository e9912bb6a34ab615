-- ===== src/Orchestration/Blackboard/Facts.antt =====
-- orchestration/blackboard.go: which facts a search finds, and in which order.
use sp4rk.Base.{
  Text, List, [], ◌∷◌, ℕ, ◌≤◌, true, ◌||◌, is_empty, ltb, map, ◌≡◌, ◌↔◌, false≢true, refl, sym, ap,
  ◌∙◌, subst, arith, inl, inr, Bool-cases, Memᴰ, mem-if, mem-if_tail,
}
use sp4rk.Base.Map.{member, member_iff}
use sp4rk.Orchestration.Blackboard.{
  Fact, Scored, MapBlackboard, match_count, scored_facts, search_facts,
}

-- One of the fact's keywords is one of those searched for, the case of letters aside.
pub record Matches (to_lower : Text → Text) (keywords : List Text) (f : Fact) : Type 0 where
  pub keyword : Text
  pub is_keyword : Memᴰ keyword f.keywords
  pub is_query : Memᴰ (to_lower keyword) (map to_lower keywords)

-- The score of every element is at least that of the next.
pub data Descending {A : Type 0} (score : A → ℕ) : List A → Type 0 where
  none_left : Descending score []
  last : (s : A) → Descending score (s ∷ [])
  next :
      (s t : A) {ss : List A}
      → score t ≤ score s
      → Descending score (t ∷ ss)
      → Descending score (s ∷ t ∷ ss)

abbrev pub score_of : Scored → ℕ
score_of s = s.score

-- What sort.Slice by descending scores promises.
pub record Sorts (sort : List Scored → List Scored) : Type 0 where
  pub keeps : (l : List Scored) (s : Scored) → Memᴰ s (sort l) ↔ Memᴰ s l
  pub orders : (l : List Scored) → Descending score_of (sort l)

module _ (to_lower : Text → Text) (queries : List Text) where
  match_count-pos :
      (ks : List Text) (k : Text)
      → Memᴰ k ks
      → Memᴰ (to_lower k) queries
      → ltb 0 (match_count to_lower queries ks) ≡ true
  unfolding match_count
  match_count-pos [] k i q = elim i [ ]
  match_count-pos (j ∷ ks) k (Memᴰ.head e) q =
      let found : member (to_lower j) queries ≡ true =
        (member_iff (to_lower j) queries).1 (subst (λ x. Memᴰ (to_lower x) queries) e q) in
      rw found (ground arith)
  match_count-pos (j ∷ ks) k (Memᴰ.tail i) q = ground (arith, match_count-pos ks k i q)

  match_count-found :
      (ks : List Text)
      → ltb 0 (match_count to_lower queries ks) ≡ true
      → (k : Text) × Memᴰ k ks × Memᴰ (to_lower k) queries
  unfolding match_count
  match_count-found [] h = absurd (ground arith)
  match_count-found (j ∷ ks) h = elim (Bool-cases (member (to_lower j) queries)) [
    | inl e ↦ (j, Memᴰ.head refl, (member_iff (to_lower j) queries).0 e)
    | inr e ↦ let (k, i, q) = match_count-found ks (rw e at h) in (k, Memᴰ.tail i, q)
  ]

  -- A fact with its score.
  abbrev scored : Fact → Scored
  scored f = record { fact = f; score = match_count to_lower queries f.keywords }

  scored_facts-in :
      (fs : List Fact) (f : Fact)
      → Memᴰ f fs
      → ltb 0 (match_count to_lower queries f.keywords) ≡ true
      → Memᴰ (scored f) (scored_facts to_lower queries fs)
  unfolding scored_facts
  scored_facts-in [] f i h = elim i [ ]
  scored_facts-in (g ∷ fs) f (Memᴰ.head e) h = rw (← e, h) (Memᴰ.head refl)
  scored_facts-in (g ∷ fs) f (Memᴰ.tail i) h = mem-if_tail _ (scored g) _ (scored_facts-in fs f i h)

  scored_facts-out :
      (fs : List Fact) (s : Scored)
      → Memᴰ s (scored_facts to_lower queries fs)
      → Memᴰ s.fact fs
        × (s ≡ scored s.fact)
        × (ltb 0 (match_count to_lower queries s.fact.keywords) ≡ true)
  unfolding scored_facts
  scored_facts-out [] s i = elim i [ ]
  scored_facts-out (g ∷ fs) s i =
      elim (mem-if (ltb 0 (match_count to_lower queries g.keywords)) (scored g)
        (scored_facts to_lower queries fs) i) [
          | inl j ↦ let (k, e, h) = scored_facts-out fs s j in (Memᴰ.tail k, e, h)
          | inr (e, h) ↦
              let same : s.fact ≡ g = ap (λ (x : Scored). x.fact) e in
              (Memᴰ.head same, e ∙ rw same refl, rw same h)
        ]

nothing-matches :
    (to_lower : Text → Text) (keywords : List Text) (fs : List Fact) (f : Fact) {q : Text}
    → (is_empty keywords || is_empty fs) ≡ true
    → Memᴰ f fs
    → Memᴰ q (map to_lower keywords)
    → ⊥
nothing-matches to_lower [] fs f e i j = elim j [ ]
nothing-matches to_lower (k ∷ keywords) [] f e i j = elim i [ ]
nothing-matches to_lower (k ∷ keywords) (g ∷ fs) f e i j = false≢true e

map-Memᴰ : (l : List Scored) (s : Scored) → Memᴰ s l → Memᴰ s.fact (map (λ (x : Scored). x.fact) l)
map-Memᴰ [] s i = elim i [ ]
map-Memᴰ (x ∷ l) s (Memᴰ.head e) = Memᴰ.head (ap (λ (y : Scored). y.fact) e)
map-Memᴰ (x ∷ l) s (Memᴰ.tail i) = Memᴰ.tail (map-Memᴰ l s i)

fact-Memᴰ :
    (l : List Scored) (f : Fact)
    → Memᴰ f (map (λ (x : Scored). x.fact) l)
    → (s : Scored) × Memᴰ s l × (f ≡ s.fact)
fact-Memᴰ [] f i = elim i [ ]
fact-Memᴰ (x ∷ l) f (Memᴰ.head e) = (x, Memᴰ.head refl, e)
fact-Memᴰ (x ∷ l) f (Memᴰ.tail i) = let (s, j, e) = fact-Memᴰ l f i in (s, Memᴰ.tail j, e)

-- The facts are ordered as their scores are, where these are those of a function.
map-Descending :
    (count : Fact → ℕ) (l : List Scored)
    → ((s : Scored) → Memᴰ s l → s.score ≡ count s.fact)
    → Descending score_of l
    → Descending count (map (λ (x : Scored). x.fact) l)
map-Descending count [] e none_left = none_left
map-Descending count (s ∷ []) e (last _) = last s.fact
map-Descending count (s ∷ t ∷ l) e (next _ _ h d) =
    next s.fact t.fact
      (subst (λ n. count t.fact ≤ n) (e s (Memᴰ.head refl))
        (subst (λ n. n ≤ s.score) (e t (Memᴰ.tail (Memᴰ.head refl))) h))
      (map-Descending count (t ∷ l) (λ x i. e x (Memᴰ.tail i)) d)

module _ {P : Type 0} (to_lower : Text → Text) (sort : List Scored → List Scored)
    (sorts : Sorts sort) (keywords : List Text) (b : MapBlackboard P) where
  -- A search finds exactly the stored facts with a keyword that is searched for, the case of
  -- letters aside, where sorting keeps the elements.
  pub search_facts_iff :
      (f : Fact)
      → Memᴰ f (search_facts to_lower sort keywords b)
        ↔ (Memᴰ f b.facts × Matches to_lower keywords f)
  unfolding search_facts
  search_facts_iff f =
      let queries = map to_lower keywords in
      let found = scored_facts to_lower queries b.facts in
      elim (Bool-cases (is_empty keywords || is_empty b.facts)) [
        | inl e ↦
            rw (e, search_facts)
              (
                λ i. elim i [ ],
                λ p. absurd (nothing-matches to_lower keywords b.facts f e p.0 p.1.is_query),
              )
        | inr e ↦
            rw (e, search_facts)
              (
                λ i.
                    let (s, j, q) = fact-Memᴰ (sort found) f i in
                    let (k, same, h) =
                      scored_facts-out to_lower queries b.facts s ((sorts.keeps found s).0 j) in
                    let (keyword, in_fact, is_query) =
                      match_count-found to_lower queries s.fact.keywords h in
                    (
                      subst (λ x. Memᴰ x b.facts) (sym q) k,
                      subst (Matches to_lower keywords) (sym q)
                          (record { keyword = keyword; is_keyword = in_fact; is_query = is_query }),
                    ),
                λ p.
                    let h =
                      match_count-pos to_lower queries f.keywords p.1.keyword p.1.is_keyword
                        p.1.is_query in
                    let own = scored to_lower queries f in
                    map-Memᴰ (sort found) own (
                      (sorts.keeps found own).1 (scored_facts-in to_lower queries b.facts f p.0 h)),
              )
      ]

  -- The facts that a search finds stand in the order of the numbers of their matching keywords,
  -- the largest first, where sorting keeps the elements and orders them by their scores.
  pub search_facts-Descending :
      Descending
        (λ (f : Fact). match_count to_lower (map to_lower keywords) f.keywords)
        (search_facts to_lower sort keywords b)
  unfolding search_facts
  search_facts-Descending =
      let queries = map to_lower keywords in
      let found = scored_facts to_lower queries b.facts in
      elim (Bool-cases (is_empty keywords || is_empty b.facts)) [
        | inl e ↦ rw (e, search_facts) none_left
        | inr e ↦
            rw (e, search_facts)
              (map-Descending _ (sort found)
                (λ s i.
                  let out =
                    scored_facts-out to_lower queries b.facts s ((sorts.keeps found s).0 i) in
                  ap (λ (x : Scored). x.score) (out.1))
                (sorts.orders found))
      ]
