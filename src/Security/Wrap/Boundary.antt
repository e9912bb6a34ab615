-- ===== src/Security/Wrap/Boundary.antt =====
-- security/wrap.go: the boundary tags that a wrapped or a stripped text shows to a reader of its
-- characters.
use sp4rk.Base.{
  Text, [], ◌∷◌, ◌++◌, ℕ, ◌+◌, ◌≤◌, Bool, true, false, ◌&&◌, ◌==◌, if◌then◌else◌, codes, ◌≡◌, refl,
  sym, ap, ◌∙◌, subst, arith, inl, inr, Bool-cases, sort_texts,
}
use sp4rk.Base.Map.{Map, Keys, keys_of}
use sp4rk.Security.Wrap.{
  untrusted_tag, is_space, skip_space, is_lower, folds, starts_folded, at_open, after_slash,
  at_close, escape_tags, strip_untrusted_tags, escape_char, escape_attribute, is_letter,
  is_key_char, all_key_chars, is_metadata_key, value_of, attributes, wrap_untrusted_content,
}

-- The places of a text where a tag starts, by the test on what follows the `<`.
unfoldable pub tags : (Text → Bool) → Text → ℕ
tags test [] = 0
tags test (c ∷ s) = (if c == 60 && test s then 1 else 0) + tags test s

-- `t` is `s` with some `<` replaced by `&lt;`.
data Escaped : Text → Text → Type 0 where
  nil : Escaped [] []
  keep : (c : ℕ) {s t : Text} → Escaped s t → Escaped (c ∷ s) (c ∷ t)
  replace : {s t : Text} → Escaped s t → Escaped (60 ∷ s) (38 ∷ 108 ∷ 116 ∷ 59 ∷ t)

Escaped-refl : (s : Text) → Escaped s s
Escaped-refl [] = nil
Escaped-refl (c ∷ s) = keep c (Escaped-refl s)

escape_tags-Escaped : (test : Text → Bool) (s : Text) → Escaped s (escape_tags test s)
unfolding escape_tags
escape_tags-Escaped test [] = nil
escape_tags-Escaped test (c ∷ s) = elim (Bool-cases (c == 60)) [
  | inr e ↦ rw e (keep c (escape_tags-Escaped test s))
  | inl e ↦ elim (Bool-cases (test s)) [
    | inr f ↦ rw (e, f) (keep c (escape_tags-Escaped test s))
    | inl f ↦
        let same : c ≡ 60 = ground arith in
        rw (e, f)
          (subst (λ d. Escaped (d ∷ s) (38 ∷ 108 ∷ 116 ∷ 59 ∷ escape_tags test s)) (sym same)
            (replace (escape_tags-Escaped test s)))
  ]
]

-- The characters of a pattern that match neither `<` nor `&` nor a newline.
abbrev Plain : Text → Type 0
Plain [] = Unit
Plain (l ∷ p) = (folds l 60 ≡ false) × (folds l 38 ≡ false) × (folds l 10 ≡ false) × Plain p

untrusted_tag-Plain : Plain untrusted_tag
unfolding folds is_lower
untrusted_tag-Plain = ground arith

starts_folded-Escaped :
    (p : Text) {s t : Text} → Plain p → Escaped s t → starts_folded p s ≡ starts_folded p t
unfolding starts_folded
starts_folded-Escaped [] h e = refl
starts_folded-Escaped (l ∷ p) h nil = refl
starts_folded-Escaped (l ∷ p) (a, b, n, h) (keep c e) = rw (starts_folded-Escaped p h e) refl
starts_folded-Escaped (l ∷ p) (a, b, n, h) (replace e) = rw (a, b) refl

skip_space-Escaped : {s t : Text} → Escaped s t → Escaped (skip_space s) (skip_space t)
unfolding skip_space is_space
skip_space-Escaped nil = nil
skip_space-Escaped (keep c {s} {t} e) = elim (Bool-cases (is_space c)) [
  | inl b ↦ rw b (skip_space-Escaped e)
  | inr b ↦ rw b (keep c e)
]
skip_space-Escaped (replace e) = replace e

at_open-Escaped : {s t : Text} → Escaped s t → at_open s ≡ at_open t
unfolding at_open
at_open-Escaped e = starts_folded-Escaped untrusted_tag untrusted_tag-Plain (skip_space-Escaped e)

after_slash-Escaped : {s t : Text} → Escaped s t → after_slash s ≡ after_slash t
unfolding after_slash
after_slash-Escaped nil = refl
after_slash-Escaped (keep c e) = rw (at_open-Escaped e) refl
after_slash-Escaped (replace e) = refl

at_close-Escaped : {s t : Text} → Escaped s t → at_close s ≡ at_close t
unfolding at_close
at_close-Escaped e = after_slash-Escaped (skip_space-Escaped e)

-- For a test that an escape does not change.
module _ (test : Text → Bool) (stable : (s t : Text) → Escaped s t → test s ≡ test t) where
  -- An escape makes no new tag.
  tags-Escaped : {s t : Text} → Escaped s t → tags test t ≤ tags test s
  unfolding tags
  tags-Escaped nil = omega arith
  tags-Escaped (keep c {s} {t} e) = rw (stable s t e) (omega (arith, tags-Escaped e))
  tags-Escaped (replace {s} {t} e) = omega (arith, tags-Escaped e)

  tags-escape_tags : (s : Text) → tags test (escape_tags test s) ≡ 0
  unfolding tags escape_tags
  tags-escape_tags [] = refl
  tags-escape_tags (c ∷ s) =
      let same = stable s (escape_tags test s) (escape_tags-Escaped test s) in
      let rest = tags-escape_tags s in
      elim (Bool-cases (c == 60)) [
        | inr e ↦ rw e (rw e (omega (arith, rest)))
        | inl e ↦ elim (Bool-cases (test s)) [
          | inl f ↦ rw (e, f) (omega (arith, rest))
          | inr f ↦ rw (e, f) (rw (e, ← same, f) (omega (arith, rest)))
        ]
      ]

-- Text without a `<`.
abbrev Bare : Text → Type 0
Bare [] = Unit
Bare (c ∷ s) = ((c == 60) ≡ false) × Bare s

tags-Bare : (test : Text → Bool) (s t : Text) → Bare s → tags test (s ++ t) ≡ tags test t
unfolding tags
tags-Bare test [] t h = refl
tags-Bare test (c ∷ s) t (e, h) = rw e (omega (arith, tags-Bare test s t h))

Bare-append : (s t : Text) → Bare s → Bare t → Bare (s ++ t)
Bare-append [] t h k = k
Bare-append (c ∷ s) t (e, h) k = (e, Bare-append s t h k)

escape_char-Bare : (c : ℕ) → Bare (escape_char c)
unfolding escape_char
escape_char-Bare c = elim (Bool-cases (c == 38)) [
  | inl e ↦ rw e (ground arith)
  | inr e ↦ elim (Bool-cases (c == 60)) [
    | inl f ↦ rw (e, f) (ground arith)
    | inr f ↦ elim (Bool-cases (c == 62)) [
      | inl g ↦ rw (e, f, g) (ground arith)
      | inr g ↦ elim (Bool-cases (c == 34)) [
        | inl h ↦ rw (e, f, g, h) (ground arith)
        | inr h ↦ rw (e, f, g, h) (f, tt)
      ]
    ]
  ]
]

escape_attribute-Bare : (s : Text) → Bare (escape_attribute s)
unfolding escape_attribute
escape_attribute-Bare [] = tt
escape_attribute-Bare (c ∷ s) =
    Bare-append (escape_char c) (escape_attribute s) (escape_char-Bare c) (escape_attribute-Bare s)

key_char-other : (c : ℕ) → is_key_char c ≡ true → (c == 60) ≡ false
unfolding is_key_char is_letter is_lower
key_char-other c h = ground arith

letter_other : (c : ℕ) → is_letter c ≡ true → (c == 60) ≡ false
unfolding is_letter is_lower
letter_other c h = ground arith

all_key_chars-Bare : (s : Text) → all_key_chars s ≡ true → Bare s
unfolding all_key_chars
all_key_chars-Bare [] h = tt
all_key_chars-Bare (c ∷ s) h =
    (ground (arith, key_char-other c), all_key_chars-Bare s (ground arith))

is_metadata_key-Bare : (s : Text) → is_metadata_key s ≡ true → Bare s
unfolding is_metadata_key
is_metadata_key-Bare [] h = tt
is_metadata_key-Bare (c ∷ s) h =
    let letter : is_letter c ≡ true = ground arith in
    (letter_other c letter, all_key_chars-Bare s (ground arith))

attributes-Bare : (metadata : Map Text) (keys : Keys) → Bare (attributes metadata keys)
unfolding attributes
attributes-Bare metadata [] = tt
attributes-Bare metadata (key ∷ keys) = elim (Bool-cases (is_metadata_key key)) [
  | inr e ↦ rw e (attributes-Bare metadata keys)
  | inl e ↦
      let value =
        Bare-append (escape_attribute (value_of key metadata)) (34 ∷ attributes metadata keys)
          (escape_attribute-Bare (value_of key metadata)) (refl, attributes-Bare metadata keys) in
      rw e (refl, Bare-append key _ (is_metadata_key-Bare key e) (refl, (refl, value)))
]

-- A newline and a `<` after a text neither complete a tag in it nor break one.
module _ (r : Text) where
  starts_folded-line :
      (p v : Text) → Plain p → starts_folded p (v ++ (10 ∷ 60 ∷ r)) ≡ starts_folded p v
  unfolding starts_folded
  starts_folded-line [] v h = refl
  starts_folded-line (l ∷ p) [] (a, b, n, h) = rw n refl
  starts_folded-line (l ∷ p) (c ∷ v) (a, b, n, h) = rw (starts_folded-line p v h) refl

  skip_space-line :
      (l : ℕ) (p s : Text)
      → Plain (l ∷ p)
      → starts_folded (l ∷ p) (skip_space (s ++ (10 ∷ 60 ∷ r)))
        ≡ starts_folded (l ∷ p) (skip_space s)
  unfolding skip_space is_space
  skip_space-line l p [] (a, b, n, h) = unfold starts_folded in rw a refl
  skip_space-line l p (c ∷ s) h = elim (Bool-cases (is_space c)) [
    | inl e ↦ rw e (skip_space-line l p s h)
    | inr e ↦ rw e (starts_folded-line (l ∷ p) (c ∷ s) h)
  ]

  at_open-line : (s : Text) → at_open (s ++ (10 ∷ 60 ∷ r)) ≡ at_open s
  unfolding at_open
  at_open-line s = skip_space-line 117 (codes "ntrusted-content") s untrusted_tag-Plain

  at_close-line : (s : Text) → at_close (s ++ (10 ∷ 60 ∷ r)) ≡ at_close s
  unfolding at_close skip_space is_space after_slash
  at_close-line [] = refl
  at_close-line (c ∷ s) = elim (Bool-cases (is_space c)) [
    | inl e ↦ rw e (at_close-line s)
    | inr e ↦ rw e (rw (at_open-line s) refl)
  ]

  tags-line :
      (test : Text → Bool)
      → ((s : Text) → test (s ++ (10 ∷ 60 ∷ r)) ≡ test s)
      → (s : Text) → tags test (s ++ (10 ∷ 60 ∷ r)) ≡ tags test s + tags test (10 ∷ 60 ∷ r)
  unfolding tags
  tags-line test h [] = omega arith
  tags-line test h (c ∷ s) = rw (h s) (omega (arith, tags-line test h s))

opens-strip : (content : Text) → tags at_open (strip_untrusted_tags content) ≡ 0
unfolding strip_untrusted_tags
opens-strip content =
    let once = tags-escape_tags at_open (λ s t e. at_open-Escaped e) content in
    let twice =
      tags-Escaped at_open (λ s t e. at_open-Escaped e)
        (escape_tags-Escaped at_close (escape_tags at_open content)) in
    omega arith

closes-strip : (content : Text) → tags at_close (strip_untrusted_tags content) ≡ 0
unfolding strip_untrusted_tags
closes-strip content =
    tags-escape_tags at_close (λ s t e. at_close-Escaped e) (escape_tags at_open content)

-- The wrapped text without the `<` in front.
abbrev wrapped_tail : Text → Text → Map Text → Text
wrapped_tail content source metadata =
    codes "untrusted-content source=\""
    ++ (escape_attribute source
        ++ (34
            ∷ (attributes metadata (sort_texts (keys_of metadata))
                ++ (codes ">\n"
                    ++ (strip_untrusted_tags content ++ codes "\n</untrusted-content>")))))

tags-wrapped_tail :
    (test : Text → Bool)
    → ((s : Text) → test (s ++ codes "\n</untrusted-content>") ≡ test s)
    → (content source : Text) (metadata : Map Text)
    → tags test (wrapped_tail content source metadata)
      ≡ tags test (strip_untrusted_tags content) + tags test (codes "\n</untrusted-content>")
unfolding tags
tags-wrapped_tail test h content source metadata =
    let inner = strip_untrusted_tags content ++ codes "\n</untrusted-content>" in
    let attrs = attributes metadata (sort_texts (keys_of metadata)) in
    let line = tags-line (codes "/untrusted-content>") test h (strip_untrusted_tags content) in
    let third =
      tags-Bare test attrs (codes ">\n" ++ inner)
        (attributes-Bare metadata (sort_texts (keys_of metadata))) in
    let second =
      tags-Bare test (escape_attribute source) (34 ∷ (attrs ++ (codes ">\n" ++ inner)))
        (escape_attribute-Bare source) in
    omega (arith, line, third, second)

last_line-tags :
    (tags at_open (codes "\n</untrusted-content>") ≡ 0)
    × (tags at_close (codes "\n</untrusted-content>") ≡ 1)
unfolding tags at_open at_close starts_folded skip_space is_space folds is_lower after_slash
last_line-tags = (refl, refl)

module _ (content source : Text) (metadata : Map Text) where
  -- The first character counts by what follows it.
  step :
      (test : Text → Bool) (b : Bool)
      → test (wrapped_tail content source metadata) ≡ b
      → tags test (60 ∷ wrapped_tail content source metadata)
        ≡ (if b then 1 else 0) + tags test (wrapped_tail content source metadata)
  unfolding tags
  step test b e = rw e refl

  front_opens : at_open (wrapped_tail content source metadata) ≡ true
  unfolding at_open starts_folded skip_space is_space folds is_lower
  front_opens = refl

  front_not_closes : at_close (wrapped_tail content source metadata) ≡ false
  unfolding at_close skip_space is_space after_slash
  front_not_closes = refl

  opens-wrap : tags at_open (wrap_untrusted_content content source metadata) ≡ 1
  unfolding wrap_untrusted_content
  opens-wrap =
      let rest =
        tags-wrapped_tail at_open (at_open-line (codes "/untrusted-content>")) content source
          metadata in
      step at_open true front_opens ∙ omega (arith, rest, opens-strip content, last_line-tags.0)

  closes-wrap : tags at_close (wrap_untrusted_content content source metadata) ≡ 1
  unfolding wrap_untrusted_content
  closes-wrap =
      let rest =
        tags-wrapped_tail at_close (at_close-line (codes "/untrusted-content>")) content source
          metadata in
      step at_close false front_not_closes
      ∙ omega (arith, rest, closes-strip content, last_line-tags.1)

-- However hostile the content, its source and the values of its metadata are, the wrapped text has
-- one place where an opening tag starts and one where a closing tag starts, as the two patterns of
-- the code read tags.
pub wrap_untrusted_content-tags :
    (content source : Text) (metadata : Map Text)
    → (tags at_open (wrap_untrusted_content content source metadata) ≡ 1)
      × (tags at_close (wrap_untrusted_content content source metadata) ≡ 1)
wrap_untrusted_content-tags content source metadata =
    (opens-wrap content source metadata, closes-wrap content source metadata)

-- Stripping leaves no place where a boundary tag starts.
pub strip_untrusted_tags-tags :
    (content : Text)
    → (tags at_open (strip_untrusted_tags content) ≡ 0)
      × (tags at_close (strip_untrusted_tags content) ≡ 0)
strip_untrusted_tags-tags content = (opens-strip content, closes-strip content)

escape_tags-none : (test : Text → Bool) (s : Text) → tags test s ≡ 0 → escape_tags test s ≡ s
unfolding escape_tags tags
escape_tags-none test [] h = refl
escape_tags-none test (c ∷ s) h = elim (Bool-cases (c == 60 && test s)) [
  | inl e ↦ absurd (ground arith)
  | inr e ↦ rw e (ap (λ l. c ∷ l) (escape_tags-none test s (ground arith)))
]

-- Stripping what was stripped changes nothing, so content may be wrapped again.
pub strip-strip_untrusted_tags :
    (content : Text)
    → strip_untrusted_tags (strip_untrusted_tags content) ≡ strip_untrusted_tags content
strip-strip_untrusted_tags content =
    let once = strip_untrusted_tags content in
    let no_open = escape_tags-none at_open once (opens-strip content) in
    let no_close = escape_tags-none at_close once (closes-strip content) in
    unfold strip_untrusted_tags in rw no_open no_close
