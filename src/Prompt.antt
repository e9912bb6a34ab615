-- ===== src/Prompt.antt =====
-- prompt/builder.go: SplitCacheBreak. A white-space character is one that Go's unicode.IsSpace takes.
use sp4rk.Base.{
  Text, List, [], ◌∷◌, ℕ, zero, suc, ◌+◌, Bool, ◌&&◌, ◌||◌, is_empty, leb, ◌==◌, if◌then◌else◌,
  codes, length, drop, has_prefix, ◌++◌,
}

-- CacheBreakMarker
abbrev pub cache_break_marker : Text
cache_break_marker = 0 ∷ (codes "CACHE_BREAK" ++ (0 ∷ []))

is_white : ℕ → Bool
is_white c =
    c == 32
    || ((leb 9 c && leb c 13)
        || ((c == 0x85 || c == 0xa0)
            || ((c == 0x1680 || (leb 0x2000 c && leb c 0x200a))
                || ((c == 0x2028 || c == 0x2029)
                    || (c == 0x202f || (c == 0x205f || c == 0x3000))))))

trim_space_left : Text → Text
trim_space_left [] = []
trim_space_left (c ∷ s) = let rest = trim_space_left s in if is_white c then rest else c ∷ s

trim_space_right : Text → Text
trim_space_right [] = []
trim_space_right (c ∷ s) =
    let rest = trim_space_right s in if is_empty rest && is_white c then [] else c ∷ rest

-- strings.TrimSpace
unfoldable pub trim_space : Text → Text
unfolding trim_space_left trim_space_right is_white
trim_space s = trim_space_right (trim_space_left s)

onto_first : ℕ → List Text → List Text
onto_first c [] = (c ∷ []) ∷ []
onto_first c (t ∷ ts) = (c ∷ t) ∷ ts

split_from : ℕ → Text → Text → List Text
unfolding onto_first
split_from zero sep s = s ∷ []
split_from (suc fuel) sep [] = [] ∷ []
split_from (suc fuel) sep (c ∷ s) =
    let past = split_from fuel sep (drop (length sep) (c ∷ s)) in
    let rest = split_from fuel sep s in
    if has_prefix (c ∷ s) sep then [] ∷ past else onto_first c rest

-- strings.Split for a separator that is not empty; each round of the fuel takes a character.
unfoldable pub split : Text → Text → List Text
unfolding split_from
split s sep = split_from (length s + 1) sep s

unfoldable pub trimmed_parts : List Text → List Text
unfolding trim_space
trimmed_parts [] = []
trimmed_parts (p ∷ parts) =
    let rest = trimmed_parts parts in if is_empty (trim_space p) then rest else trim_space p ∷ rest

unfoldable pub split_cache_break : Text → List Text
unfolding split trimmed_parts
split_cache_break system_prompt = trimmed_parts (split system_prompt cache_break_marker)
