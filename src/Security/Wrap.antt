-- ===== src/Security/Wrap.antt =====
-- security/wrap.go: the tags around untrusted content. The regular expressions are written out: `\s`
-- is one of tab, newline, form feed, carriage return and space, and a letter under (?i) is matched by
-- both of its cases, an s by the long s as well. A match holds one `<`, in front, so no two overlap.
pub mod Boundary
use sp4rk.Base.{
  Text, List, [], ◌∷◌, ◌++◌, ℕ, ◌-◌, Bool, true, false, ◌&&◌, ◌||◌, none, some, leb, ◌==◌,
  if◌then◌else◌, codes, sort_texts,
}
use sp4rk.Base.Map.{Map, Keys, keys_of, lookup}

abbrev pub untrusted_tag : Text
untrusted_tag = codes "untrusted-content"

unfoldable pub is_space : ℕ → Bool
is_space c = c == 32 || ((c == 10) || ((c == 9) || ((c == 13) || (c == 12))))

-- `\s*`, which takes all that it can
unfoldable pub skip_space : Text → Text
unfolding is_space
skip_space [] = []
skip_space (c ∷ s) = let rest = skip_space s in if is_space c then rest else c ∷ s

unfoldable pub is_lower : ℕ → Bool
is_lower c = leb 97 c && leb c 122

-- The character `c` matches the character `l` of the pattern.
unfoldable pub folds : ℕ → ℕ → Bool
unfolding is_lower
folds l c = c == l || ((is_lower l && c == (l - 32)) || ((l == 115) && (c == 0x17f)))

unfoldable pub starts_folded : Text → Text → Bool
unfolding folds
starts_folded [] s = true
starts_folded (l ∷ p) [] = false
starts_folded (l ∷ p) (c ∷ s) = folds l c && starts_folded p s

-- What follows a `<` makes it the start of an opening tag (tagOpenRe).
unfoldable pub at_open : Text → Bool
unfolding starts_folded skip_space
at_open s = starts_folded untrusted_tag (skip_space s)

unfoldable pub after_slash : Text → Bool
unfolding at_open
after_slash [] = false
after_slash (c ∷ s) = c == 47 && at_open s

-- What follows a `<` makes it the start of a closing tag (tagCloseRe).
unfoldable pub at_close : Text → Bool
unfolding after_slash skip_space
at_close s = after_slash (skip_space s)

-- ReplaceAllStringFunc, where `test` says what follows the `<` of a match.
unfoldable pub escape_tags : (Text → Bool) → Text → Text
escape_tags test [] = []
escape_tags test (c ∷ s) =
    let rest = escape_tags test s in
    if c == 60 && test s then 38 ∷ 108 ∷ 116 ∷ 59 ∷ rest else c ∷ rest

unfoldable pub strip_untrusted_tags : Text → Text
unfolding escape_tags at_open at_close
strip_untrusted_tags content = escape_tags at_close (escape_tags at_open content)

unfoldable pub escape_char : ℕ → Text
escape_char c =
    if c == 38
    then codes "&amp;"
    else if c == 60
    then codes "&lt;"
    else if c == 62
    then codes "&gt;"
    else if c == 34
    then codes "&quot;"
    else c ∷ []

-- attributeValueEscaper.Replace
unfoldable pub escape_attribute : Text → Text
unfolding escape_char
escape_attribute [] = []
escape_attribute (c ∷ s) = escape_char c ++ escape_attribute s

unfoldable pub is_letter : ℕ → Bool
unfolding is_lower
is_letter c = is_lower c || (leb 65 c && leb c 90)

unfoldable pub is_key_char : ℕ → Bool
unfolding is_letter
is_key_char c = is_letter c || ((leb 48 c && leb c 57) || (c == 95 || c == 45))

unfoldable pub all_key_chars : Text → Bool
unfolding is_key_char
all_key_chars [] = true
all_key_chars (c ∷ s) = is_key_char c && all_key_chars s

-- metadataKeyRe
unfoldable pub is_metadata_key : Text → Bool
unfolding all_key_chars
is_metadata_key [] = false
is_metadata_key (c ∷ s) = is_letter c && all_key_chars s

abbrev pub value_of : Text → Map Text → Text
value_of key metadata = elim (lookup key metadata) [ none ↦ [] | some v ↦ v ]

-- The attributes of the metadata, over the sorted keys.
unfoldable pub attributes : Map Text → Keys → Text
unfolding is_metadata_key escape_attribute
attributes metadata [] = []
attributes metadata (key ∷ keys) =
    let rest = attributes metadata keys in
    if is_metadata_key key
    then 32 ∷ (key ++ (codes "=\"" ++ (escape_attribute (value_of key metadata) ++ (34 ∷ rest))))
    else rest

unfoldable pub wrap_untrusted_content : Text → Text → Map Text → Text
unfolding strip_untrusted_tags escape_attribute attributes
wrap_untrusted_content content source metadata =
    codes "<untrusted-content source=\""
    ++ (escape_attribute source
        ++ (34
            ∷ (attributes metadata (sort_texts (keys_of metadata))
                ++ (codes ">\n"
                    ++ (strip_untrusted_tags content ++ codes "\n</untrusted-content>")))))
