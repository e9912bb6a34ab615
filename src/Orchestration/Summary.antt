-- ===== src/Orchestration/Summary.antt =====
-- orchestration/blackboard.go: GenerateSummary and the Markdown headings that it skips.
pub mod Headings
use sp4rk.Base.{
  Text, List, [], ◌∷◌, ℕ, suc, ◌≤◌, ◌≢◌, ◌≡◌, refl, arith, Bool, true, false, ◌&&◌, ◌||◌, not,
  is_empty, leb, ltb, ◌==◌, if◌then◌else◌, length, byte_length, join, length-byte_length,
}
use sp4rk.Prompt.{trim_space, split}
use sp4rk.Strutil.{truncate_utf8}
use sp4rk.Strutil.Bounds.{length-truncate_utf8}

unfoldable pub all_same_byte : ℕ → Text → Bool
all_same_byte b [] = true
all_same_byte b (c ∷ s) = c == b && all_same_byte b s

unfoldable pub is_setext_underline : Text → Bool
unfolding all_same_byte
is_setext_underline s = not (is_empty s) && (all_same_byte 61 s || all_same_byte 45 s)

-- What follows the `#` characters in front, of which `n` were read, and at most six may be.
unfoldable pub heading_from : ℕ → Text → Bool
heading_from n [] = ltb 0 n && leb n 6
heading_from n (c ∷ s) =
    let rest = heading_from (suc n) s in
    if c == 35 then rest else (ltb 0 n && leb n 6) && (c == 32 || c == 9)

unfoldable pub is_atx_heading : Text → Bool
unfolding heading_from
is_atx_heading s = heading_from 0 s

-- A line that is skipped by itself.
unfoldable pub is_skipped : Text → Bool
unfolding trim_space is_atx_heading
is_skipped line = is_empty (trim_space line) || is_atx_heading (trim_space line)

-- The lines from the first content on.
unfoldable pub skip_lines : List Text → List Text
unfolding is_skipped is_setext_underline
skip_lines [] = []
skip_lines (l ∷ []) = if is_skipped l then [] else l ∷ []
skip_lines (l ∷ u ∷ ls) = elim (is_skipped l) [
  | true ↦ skip_lines (u ∷ ls)
  | false ↦ elim (is_setext_underline (trim_space u)) [ true ↦ skip_lines ls | false ↦ l ∷ u ∷ ls ]
]

unfoldable pub skip_leading_headings : Text → Text
unfolding skip_lines split
skip_leading_headings s =
    let rest = skip_lines (split s (10 ∷ [])) in if is_empty rest then s else join (10 ∷ []) rest

-- The text up to its first empty line.
unfoldable pub before_break : Text → Text
before_break [] = []
before_break (c ∷ []) = c ∷ []
before_break (c ∷ d ∷ s) =
    let rest = before_break (d ∷ s) in if c == 10 && d == 10 then [] else c ∷ rest

abbrev pub summary_limit : ℕ → ℕ
summary_limit max_len = if max_len == 0 then 500 else max_len

unfoldable pub generate_summary : Text → ℕ → Text
unfolding skip_leading_headings before_break
generate_summary output max_len =
    let paragraph = before_break (skip_leading_headings output) in
    if is_empty output
    then []
    else if ltb (summary_limit max_len) (byte_length paragraph)
    then truncate_utf8 paragraph (summary_limit max_len)
    else paragraph

truncate_utf8-nil : (n : ℕ) → truncate_utf8 [] n ≡ []
unfolding truncate_utf8
truncate_utf8-nil n = ground arith

-- A summary has at most as many characters as the limit says, 500 where it is zero, for every
-- limit but 1.
pub length-generate_summary :
    (output : Text) (max_len : ℕ)
    → max_len ≢ 1
    → length (generate_summary output max_len) ≤ summary_limit max_len
unfolding generate_summary
length-generate_summary output max_len h =
    let paragraph = before_break (skip_leading_headings output) in
    let limit : summary_limit max_len ≢ 1 = λ p. ground arith in
    ground (
      arith,
      length-byte_length paragraph,
      length-truncate_utf8 paragraph (summary_limit max_len) limit,
    )

-- An output that starts with two newlines, and of which no line is left when the headings and the
-- blank lines in front are skipped, has an empty summary.
pub generate_summary-silent :
    (s : Text) (max_len : ℕ)
    → skip_lines (split (10 ∷ 10 ∷ s) (10 ∷ [])) ≡ []
    → generate_summary (10 ∷ 10 ∷ s) max_len ≡ []
unfolding generate_summary skip_leading_headings before_break
generate_summary-silent s max_len h =
    let whole : skip_leading_headings (10 ∷ 10 ∷ s) ≡ 10 ∷ 10 ∷ s =
      rw (h, skip_leading_headings) refl in
    rw (whole, before_break) (ground (arith, truncate_utf8-nil (summary_limit max_len)))
