-- ===== src/Orchestration/Summary/Headings.antt =====
-- orchestration/blackboard.go: outputs of headings and blank lines, and their summaries.
use sp4rk.Base.{
  Text, List, [], ◌∷◌, ℕ, suc, ◌≤◌, true, false, is_empty, ◌==◌, All, ◌≡◌, ◌≢◌, refl, ◌∙◌, subst,
  arith, inl, inr, ◌⊎◌, Bool-cases,
}
use sp4rk.Prompt.{trim_space, split}
use sp4rk.Orchestration.Summary.{
  all_same_byte, is_setext_underline, heading_from, is_atx_heading, is_skipped, skip_lines,
  generate_summary, generate_summary-silent,
}

-- What follows `n` characters `#` in a heading: more of them, up to six in all, and then the end, a
-- space or a tab.
pub data HeadingAfter : ℕ → Text → Type 0 where
  ends : {n : ℕ} → 1 ≤ n → n ≤ 6 → HeadingAfter n []
  spaced : {n c : ℕ} {s : Text} → 1 ≤ n → n ≤ 6 → (c ≡ 32) ⊎ (c ≡ 9) → HeadingAfter n (c ∷ s)
  more : {n : ℕ} {s : Text} → HeadingAfter (suc n) s → HeadingAfter n (35 ∷ s)

-- A line that is blank or a heading with `#`.
abbrev pub IsBlankOrHeading : Text → Type 0
IsBlankOrHeading line = (trim_space line ≡ []) ⊎ HeadingAfter 0 (trim_space line)

-- A line of `=` or of `-`.
abbrev pub IsUnderline : Text → Type 0
IsUnderline line =
    (trim_space line ≢ [])
    × (All (λ c. c ≡ 61) (trim_space line) ⊎ All (λ c. c ≡ 45) (trim_space line))

-- Blank lines, headings with `#`, and underlined headings.
pub data OnlyHeadings : List Text → Type 0 where
  none_left : OnlyHeadings []
  skipped :
      {line : Text} {rest : List Text}
      → IsBlankOrHeading line
      → OnlyHeadings rest
      → OnlyHeadings (line ∷ rest)
  underlined :
      {line under : Text} {rest : List Text}
      → ¬ IsBlankOrHeading line
      → IsUnderline under
      → OnlyHeadings rest
      → OnlyHeadings (line ∷ under ∷ rest)

pub HeadingAfter-from : {n : ℕ} {t : Text} → HeadingAfter n t → heading_from n t ≡ true
unfolding heading_from
HeadingAfter-from (ends a b) = ground arith
HeadingAfter-from (spaced a b (inl e)) = ground arith
HeadingAfter-from (spaced a b (inr e)) = ground arith
HeadingAfter-from (more h) = HeadingAfter-from h

from-HeadingAfter : (n : ℕ) (t : Text) → heading_from n t ≡ true → HeadingAfter n t
unfolding heading_from
from-HeadingAfter n [] h = ends (ground arith) (ground arith)
from-HeadingAfter n (c ∷ t) h = elim (Bool-cases (c == 35)) [
  | inl e ↦
      let is_hash : 35 ≡ c = ground arith in
      subst (λ d. HeadingAfter n (d ∷ t)) is_hash
        (more (from-HeadingAfter (suc n) t (ground arith)))
  | inr e ↦
      spaced (ground arith) (ground arith)
        (elim (Bool-cases (c == 32)) [ inl x ↦ inl (ground arith) | inr x ↦ inr (ground arith) ])
]

is_empty-nil : (t : Text) → is_empty t ≡ true → t ≡ []
is_empty-nil [] h = refl
is_empty-nil (c ∷ t) h = cc

all_same_byte-All : (b : ℕ) (t : Text) → All (λ c. c ≡ b) t → all_same_byte b t ≡ true
unfolding all_same_byte
all_same_byte-All b [] a = refl
all_same_byte-All b (c ∷ t) a = ground (arith, all_same_byte-All b t a.1)

IsBlankOrHeading-skipped : (line : Text) → IsBlankOrHeading line → is_skipped line ≡ true
unfolding is_skipped is_atx_heading
IsBlankOrHeading-skipped line (inl e) = rw (e, is_skipped) refl
IsBlankOrHeading-skipped line (inr h) = let p = HeadingAfter-from h in ground arith

skipped-IsBlankOrHeading : (line : Text) → is_skipped line ≡ true → IsBlankOrHeading line
unfolding is_skipped is_atx_heading
skipped-IsBlankOrHeading line h = elim (Bool-cases (is_empty (trim_space line))) [
  | inl e ↦ inl (is_empty-nil (trim_space line) e)
  | inr e ↦ inr (from-HeadingAfter 0 (trim_space line) (ground arith))
]

IsUnderline-setext : (line : Text) → IsUnderline line → is_setext_underline (trim_space line) ≡ true
unfolding is_setext_underline
IsUnderline-setext line (n, a) =
    let full : is_empty (trim_space line) ≡ false = elim (Bool-cases (is_empty (trim_space line))) [
      | inl e ↦ absurd (n (is_empty-nil (trim_space line) e))
      | inr e ↦ e
    ] in
    elim a [
      | inl x ↦ let p = all_same_byte-All 61 (trim_space line) x in ground arith
      | inr x ↦ let p = all_same_byte-All 45 (trim_space line) x in ground arith
    ]

skip_lines-skipped :
    (line : Text) (rest : List Text)
    → is_skipped line ≡ true
    → skip_lines (line ∷ rest) ≡ skip_lines rest
unfolding skip_lines
skip_lines-skipped line [] h = rw h refl
skip_lines-skipped line (l ∷ rest) h = rw (h, skip_lines) refl

skip_lines-OnlyHeadings : {ls : List Text} → OnlyHeadings ls → skip_lines ls ≡ []
unfolding skip_lines
skip_lines-OnlyHeadings none_left = refl
skip_lines-OnlyHeadings (skipped {line} {rest} h o) =
    skip_lines-skipped line rest (IsBlankOrHeading-skipped line h) ∙ skip_lines-OnlyHeadings o
skip_lines-OnlyHeadings (underlined {line} {under} {rest} n u o) =
    elim (Bool-cases (is_skipped line)) [
      | inl y ↦ absurd (n (skipped-IsBlankOrHeading line y))
      | inr f ↦ rw (f, IsUnderline-setext under u, skip_lines) (skip_lines-OnlyHeadings o)
    ]

-- An output that starts with two newlines, and has no other lines than blank ones, headings with one
-- to six `#`, and headings underlined with `=` or `-`, has an empty summary, whatever the limit.
pub generate_summary-OnlyHeadings :
    (s : Text) (max_len : ℕ)
    → OnlyHeadings (split (10 ∷ 10 ∷ s) (10 ∷ []))
    → generate_summary (10 ∷ 10 ∷ s) max_len ≡ []
generate_summary-OnlyHeadings s max_len o =
    generate_summary-silent s max_len (skip_lines-OnlyHeadings o)
