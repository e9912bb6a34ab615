-- ===== src/Agent/ToolCache/Abbreviate.antt =====
-- agent/tool_cache.go: the prefix that abbreviateLocked chooses.
use sp4rk.Base.{
  length-take, Text, [], ◌∷◌, ℕ, zero, suc, ◌+◌, ◌≤◌, ◌<◌, true, false, if◌then◌else◌, length, take,
  leb, ◌≡◌, refl, subst, arith, inl, inr, ◌⊎◌, Bool-cases, take-length, ap,
}
use sp4rk.Agent.ToolCache.{ToolResultCache, taken, abbreviate_from, abbreviate}

module _ (c : ToolResultCache) (full : Text) where
  -- Every prefix with a length from `n` up to `m` (not reached) is live or retired.
  abbrev pub TakenFrom : ℕ → ℕ → Type 0
  TakenFrom n m = (k : ℕ) → n ≤ k → k < m → taken c (take k full) ≡ true

  -- `r` is the shortest free prefix with a length from `n` up to `m`, or all are taken.
  abbrev pub Shortest : ℕ → ℕ → Text → Type 0
  Shortest n m r =
      ((k : ℕ) × (n ≤ k) × (k < m) × (r ≡ take k full) × (taken c r ≡ false) × TakenFrom n k)
      ⊎ ((r ≡ full) × TakenFrom n m)

  TakenFrom-cons : (n m : ℕ) → taken c (take n full) ≡ true → TakenFrom (n + 1) m → TakenFrom n m
  TakenFrom-cons n m t h k le lt = elim (Bool-cases (leb k n)) [
    | inl e ↦ subst (λ j. taken c (take j full) ≡ true) (ground arith) t
    | inr e ↦ h k (ground arith) lt
  ]

  Shortest-cons :
      (n m : ℕ) (r : Text) → taken c (take n full) ≡ true → Shortest (n + 1) m r → Shortest n m r
  Shortest-cons n m r t (inl (k, le, lt, e, free, h)) =
      inl (k, omega arith, lt, e, free, TakenFrom-cons n k t h)
  Shortest-cons n m r t (inr (e, h)) = inr (e, TakenFrom-cons n m t h)

  abbreviate_from-step :
      (rounds n : ℕ)
      → abbreviate_from (suc rounds) n c full
        ≡ (if taken c (take n full) then abbreviate_from rounds (n + 1) c full else take n full)
  unfolding abbreviate_from taken
  abbreviate_from-step rounds n = ground arith

  abbreviate_from-Shortest :
      (rounds n m : ℕ) → n + rounds ≡ m → Shortest n m (abbreviate_from rounds n c full)
  abbreviate_from-Shortest zero n m e =
      inr (unfold abbreviate_from in refl, λ k le lt. absurd (omega arith))
  abbreviate_from-Shortest (suc rounds) n m e = elim (Bool-cases (taken c (take n full))) [
    | inl t ↦
        rw (abbreviate_from-step rounds n, t)
          (Shortest-cons n m (abbreviate_from rounds (n + 1) c full) t
            (abbreviate_from-Shortest rounds (n + 1) m (omega arith)))
    | inr t ↦
        rw (abbreviate_from-step rounds n, t)
          (inl (n, omega arith, omega arith, refl, t, λ k le lt. absurd (omega arith)))
  ]

  -- The key is the shortest prefix of the full hash, of 4 to 64 characters, that is neither live nor
  -- retired; where all of these are taken it is the full hash.
  pub abbreviate-Shortest : Shortest 4 65 (abbreviate c full)
  unfolding abbreviate
  abbreviate-Shortest = abbreviate_from-Shortest 61 4 65 (omega arith)

take-take-length : (n : ℕ) (xs : Text) → take (length (take n xs)) xs ≡ take n xs
take-take-length zero xs = refl
take-take-length (suc n) [] = refl
take-take-length (suc n) (x ∷ xs) = ap (λ l. x ∷ l) (take-take-length n xs)

-- A key that was handed out for a full hash.
abbrev pub KeyOf : Text → Text → Type 0
KeyOf key full = take (length key) full ≡ key

pub abbreviate-KeyOf : (c : ToolResultCache) (full : Text) → KeyOf (abbreviate c full) full
abbreviate-KeyOf c full = elim (abbreviate-Shortest c full) [
  | inl (k, _, _, e, _, _) ↦ rw e (take-take-length k full)
  | inr (e, _) ↦ rw e (take-length (length full) full refl)
]

-- Handed out, a key was free, or it is the whole hash.
pub abbreviate_free :
    (c : ToolResultCache) (full : Text)
    → (taken c (abbreviate c full) ≡ false) ⊎ (abbreviate c full ≡ full)
abbreviate_free c full = elim (abbreviate-Shortest c full) [
  | inl (k, _, _, _, free, _) ↦ inl free
  | inr (e, _) ↦ inr e
]

-- A key has at least four characters.
pub abbreviate-length :
    (c : ToolResultCache) (full : Text) → length full ≡ 64 → 4 ≤ length (abbreviate c full)
abbreviate-length c full size = elim (abbreviate-Shortest c full) [
  | inl (k, le, lt, e, _, _) ↦ rw e (omega (arith, length-take k full))
  | inr (e, _) ↦ rw e (omega arith)
]
