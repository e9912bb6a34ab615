-- ===== src/Strutil.antt =====
-- strutil/truncate.go: trimming and truncating of texts by code points.
pub mod Bounds
use sp4rk.Base.{
  Text, [], ◌∷◌, ◌++◌, ℕ, ◌-◌, Bool, true, false, ◌&&◌, ◌||◌, not, Option, none, some, is_empty,
  leb, ◌==◌, if◌then◌else◌, length, take,
}

-- InvisibleTrimSet
abbrev pub invisible_trim_set : Text
invisible_trim_set = 32 ∷ 9 ∷ 10 ∷ 13 ∷ 0 ∷ 12 ∷ 11 ∷ 0x200b ∷ 0x200c ∷ 0x200d ∷ 0xfeff ∷ []

unfoldable pub contains : ℕ → Text → Bool
contains c [] = false
contains c (d ∷ s) = c == d || contains c s

-- strings.TrimRight(s, InvisibleTrimSet)
unfoldable pub trim_right : Text → Text
unfolding contains
trim_right [] = []
trim_right (c ∷ s) =
    let rest = trim_right s in
    if is_empty rest && contains c invisible_trim_set then [] else c ∷ rest

unfoldable pub has_visible_content : Text → Bool
unfolding trim_right
has_visible_content s = not (is_empty (trim_right s))

unfoldable pub truncate_utf8 : Text → ℕ → Text
truncate_utf8 s max_chars =
    if max_chars == 0
    then []
    else if leb (length s) max_chars
    then s
    else if leb max_chars 1
    then take max_chars s ++ (0x2026 ∷ [])
    else take (max_chars - 1) s ++ (0x2026 ∷ [])

-- The text up to its last newline, that included.
unfoldable pub through_newline : Text → Option Text
through_newline [] = none
through_newline (c ∷ s) = elim (through_newline s) [
  | some t ↦ some (c ∷ t)
  | none ↦ if c == 10 then some (c ∷ []) else none
]

unfoldable pub truncate_utf8_at_line_boundary : Text → ℕ → Text
unfolding through_newline
truncate_utf8_at_line_boundary s max_chars =
    if max_chars == 0
    then []
    else if leb (length s) max_chars
    then s
    else elim (through_newline (take max_chars s)) [ some t ↦ t | none ↦ take max_chars s ]
