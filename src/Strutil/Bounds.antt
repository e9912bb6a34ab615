-- ===== src/Strutil/Bounds.antt =====
-- strutil/truncate.go: how long a truncated text is, and what of a text is left.
use sp4rk.Base.{
  Text, [], ◌∷◌, ◌++◌, ℕ, ◌-◌, ◌≤◌, ◌<◌, true, some, leb, ◌==◌, is_empty, length, take, drop,
  take-append-drop, append-nil, append_assoc, length-take, length-append, ◌≡◌, ◌≢◌, refl, sym, ap,
  ◌∙◌, arith, inl, inr, Bool-cases, Option-cases,
}
use sp4rk.Strutil.{
  trim_right, contains, invisible_trim_set, truncate_utf8, through_newline,
  truncate_utf8_at_line_boundary,
}

-- A truncated text has at most `n` characters, the ellipsis counted, for every limit but 1.
pub length-truncate_utf8 : (s : Text) (n : ℕ) → n ≢ 1 → length (truncate_utf8 s n) ≤ n
unfolding truncate_utf8
length-truncate_utf8 s n h = ground (
  arith,
  length-append (take n s) (0x2026 ∷ []),
  length-append (take (n - 1) s) (0x2026 ∷ []),
  length-take n s,
  length-take (n - 1) s,
)

-- With the limit 1, a text of more than one character is cut to two: a character and the ellipsis.
pub length-truncate_utf8_one : (s : Text) → 1 < length s → length (truncate_utf8 s 1) ≡ 2
unfolding truncate_utf8
length-truncate_utf8_one s h =
    ground (arith, length-append (take 1 s) (0x2026 ∷ []), length-take 1 s)

-- The text starts with `t`.
abbrev pub StartsWith : Text → Text → Type 0
StartsWith s t = (u : Text) × (s ≡ t ++ u)

through_newline-StartsWith : (s t : Text) → through_newline s ≡ some t → StartsWith s t
unfolding through_newline
through_newline-StartsWith [] t h = cc
through_newline-StartsWith (c ∷ s) t h = elim (Option-cases (through_newline s)) [
  | inr (x, p) ↦
      let (u, e) = through_newline-StartsWith s x p in
      let same : t ≡ c ∷ x = ground arith in (u, rw same (ap (λ l. c ∷ l) e))
  | inl p ↦ elim (Bool-cases (c == 10)) [
    | inl b ↦ let same : t ≡ c ∷ [] = ground arith in (s, rw same refl)
    | inr b ↦ absurd (ground arith)
  ]
]

is_empty-nil : (s : Text) → is_empty s ≡ true → s ≡ []
is_empty-nil [] h = refl
is_empty-nil (c ∷ s) h = cc

-- Every character is in the trim set.
abbrev pub Invisible : Text → Type 0
Invisible [] = Unit
Invisible (c ∷ s) = (contains c invisible_trim_set ≡ true) × Invisible s

-- Trimming cuts off an end that is invisible, and nothing else.
pub trim_right-splits : (s : Text) → (u : Text) × (s ≡ trim_right s ++ u) × Invisible u
unfolding trim_right contains
trim_right-splits [] = ([], refl, tt)
trim_right-splits (c ∷ s) =
    let (u, e, h) = trim_right-splits s in
    elim (Bool-cases (is_empty (trim_right s))) [
      | inr b ↦ (u, rw b (ap (λ l. c ∷ l) e), h)
      | inl b ↦ elim (Bool-cases (contains c invisible_trim_set)) [
        | inl v ↦
            let gone : trim_right s ≡ [] = is_empty-nil (trim_right s) b in
            (c ∷ u, rw (b, v) (ap (λ l. c ∷ l) (rw gone at e)), (v, h))
        | inr v ↦ (u, rw (b, v) (ap (λ l. c ∷ l) e), h)
      ]
    ]

-- Cutting at a line boundary leaves a start of the text with at most `n` characters.
pub truncate_utf8_at_line_boundary-StartsWith :
    (s : Text) (n : ℕ)
    → StartsWith s (truncate_utf8_at_line_boundary s n)
      × (length (truncate_utf8_at_line_boundary s n) ≤ n)
unfolding truncate_utf8_at_line_boundary
truncate_utf8_at_line_boundary-StartsWith s n = elim (Bool-cases (n == 0)) [
  | inl z ↦ rw (z, truncate_utf8_at_line_boundary) ((s, refl), omega arith)
  | inr z ↦ elim (Bool-cases (leb (length s) n)) [
    | inl l ↦ rw (z, l, truncate_utf8_at_line_boundary) (([], sym (append-nil s)), ground arith)
    | inr l ↦ elim (Option-cases (through_newline (take n s))) [
      | inl p ↦
          rw (z, l, p, truncate_utf8_at_line_boundary)
            ((drop n s, sym (take-append-drop n s)), omega (arith, length-take n s))
      | inr (t, p) ↦
          let (u, e) = through_newline-StartsWith (take n s) t p in
          let whole : s ≡ t ++ (u ++ drop n s) =
            sym (take-append-drop n s)
            ∙ (ap (λ l. l ++ drop n s) e ∙ append_assoc t u (drop n s)) in
          rw (z, l, p, truncate_utf8_at_line_boundary)
            ((u ++ drop n s, whole), omega (arith, length-take n s, length-append t u, ap length e))
    ]
  ]
]
