-- ===== src/Llm/Blocks.antt =====
-- llm/message.go: NormalizeContentBlocks and ValidateContentBlocks.
use sp4rk.Base.{
  Text, List, [], ◌∷◌, ◌++◌, ℕ, ◌+◌, Bool, true, false, ◌&&◌, ◌||◌, not, Option, none, some,
  is_empty, if◌then◌else◌, codes, decimal, text_eq, text_eq_iff, text_eq_refl, ◌≡◌, refl, sym, ◌∙◌,
  arith, inl, inr, ◌↔◌, Bool-cases, Option-cases,
}
use sp4rk.Llm.Message.{ContentBlock, Message}

-- hasText
unfoldable pub has_text : List ContentBlock → Bool
has_text [] = false
has_text (b ∷ bs) = text_eq b.kind (codes "text") || has_text bs

abbrev text_block : Text → ContentBlock
text_block text = record { kind = codes "text"; text = text; image_b64 = []; media_type = [] }

unfoldable pub normalize_content_blocks : Message → List ContentBlock
unfolding has_text
normalize_content_blocks m =
    if is_empty m.content_blocks
    then []
    else if not (has_text m.content_blocks) && not (is_empty m.content)
    then text_block m.content ∷ m.content_blocks
    else m.content_blocks

-- What is wrong with one block.
unfoldable pub block_error : ContentBlock → Option Text
block_error b =
    if text_eq b.kind (codes "text")
    then (if is_empty b.text then some (codes "text block missing text") else none)
    else if text_eq b.kind (codes "image")
    then (if is_empty b.media_type
        then some (codes "image block missing media_type")
        else if is_empty b.image_b64
        then some (codes "image block missing image_b64")
        else none)
    else none

unfoldable pub validate_from : ℕ → List ContentBlock → Option Text
unfolding block_error
validate_from i [] = none
validate_from i (b ∷ bs) =
    let rest = validate_from (i + 1) bs in
    elim (block_error b) [
      | some e ↦ some (codes "content block " ++ (decimal i ++ (codes ": " ++ e)))
      | none ↦ rest
    ]

unfoldable pub validate_content_blocks : List ContentBlock → Option Text
unfolding validate_from
validate_content_blocks blocks = validate_from 0 blocks

-- The text of a message with blocks reaches the model: if it has a text, some block of those that
-- are rendered is a text block.
pub normalize_content_blocks-has_text :
    (m : Message)
    → is_empty m.content_blocks ≡ false
    → is_empty m.content ≡ false
    → has_text (normalize_content_blocks m) ≡ true
unfolding normalize_content_blocks
normalize_content_blocks-has_text m b c = elim (Bool-cases (has_text m.content_blocks)) [
  | inl h ↦ rw (b, h) h
  | inr h ↦ rw (b, h, c) (unfold has_text in rw text_eq_refl refl)
]

abbrev pub IsWellFormed : ContentBlock → Type 0
IsWellFormed b =
    (b.kind ≡ codes "text" → is_empty b.text ≡ false)
    × (b.kind ≡ codes "image" → (is_empty b.media_type ≡ false) × (is_empty b.image_b64 ≡ false))

abbrev pub AllWellFormed : List ContentBlock → Type 0
AllWellFormed [] = Unit
AllWellFormed (b ∷ bs) = IsWellFormed b × AllWellFormed bs

block_error_iff : (b : ContentBlock) → (block_error b ≡ none) ↔ IsWellFormed b
unfolding block_error
block_error_iff b = (λ h. (λ k. by_text h k, λ k. by_image h k), λ w. conversely w)
  where
    by_text : block_error b ≡ none → b.kind ≡ codes "text" → is_empty b.text ≡ false
    by_text h k = ground (arith, text_eq_iff b.kind (codes "text"))

    by_image :
        block_error b ≡ none
        → b.kind ≡ codes "image"
        → (is_empty b.media_type ≡ false) × (is_empty b.image_b64 ≡ false)
    by_image h k =
        let other : text_eq b.kind (codes "text") ≡ false = rw k (unfold text_eq in refl) in
        (
          ground (arith, text_eq_iff b.kind (codes "image")),
          ground (arith, text_eq_iff b.kind (codes "image")),
        )

    conversely : IsWellFormed b → block_error b ≡ none
    conversely (t, i) = elim (Bool-cases (text_eq b.kind (codes "text"))) [
      | inl e ↦ let x = t ((text_eq_iff b.kind (codes "text")).0 e) in rw (e, x) refl
      | inr e ↦ elim (Bool-cases (text_eq b.kind (codes "image"))) [
        | inl f ↦ let (x, y) = i ((text_eq_iff b.kind (codes "image")).0 f) in rw (e, f, x, y) refl
        | inr f ↦ rw (e, f) refl
      ]
    ]

validate_from_iff :
    (i : ℕ) (bs : List ContentBlock) → (validate_from i bs ≡ none) ↔ AllWellFormed bs
unfolding validate_from
validate_from_iff i [] = (λ h. tt, λ h. refl)
validate_from_iff i (b ∷ bs) =
    let (f, g) = validate_from_iff (i + 1) bs in
    let (p, q) = block_error_iff b in
    elim (Option-cases (block_error b)) [
      | inl e ↦
          let step : validate_from i (b ∷ bs) ≡ validate_from (i + 1) bs =
            rw (e, validate_from) refl in
          (λ h. (p e, f (sym step ∙ h)), λ w. step ∙ g w.1)
      | inr (x, e) ↦ (λ h. absurd (refused x e h), λ w. absurd (ground (arith, q w.0)))
    ]
  where
    refused : (x : Text) → block_error b ≡ some x → validate_from i (b ∷ bs) ≡ none → ⊥
    refused x e h = ground arith

-- ValidateContentBlocks returns no error exactly when every text block has a text and every image
-- block has a media type and its data; a block of another kind passes.
pub validate_content_blocks_iff :
    (bs : List ContentBlock) → (validate_content_blocks bs ≡ none) ↔ AllWellFormed bs
unfolding validate_content_blocks
validate_content_blocks_iff bs = validate_from_iff 0 bs
