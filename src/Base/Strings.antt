-- ===== src/Base/Strings.antt =====
-- Go strings that hold valid UTF-8, as their code points. `len(s)` counts bytes: `byte_length`.
use Prim.Native.Nat.{ℕ, zero, suc, ◌+◌, ◌/◌, ◌%◌, ◌≤◌}
use Prim.Native.Char.{code}
use Prim.Native.String.{String}
use mathlib.Core.Path.{◌≡◌, refl}
use mathlib.Core.Logic.{◌≢◌, ◌↔◌, ◌⊎◌, inl, inr}
use mathlib.Core.Bool.{◌||◌, Bool, true, false, ◌&&◌}
use mathlib.Core.List.{List, [], ◌∷◌, ◌++◌}
use native.Mathlib.Omega.{arith}
use mathlib.Core.Option.{Option, none, some}
use sp4rk.Base.Lists.{length, take, drop}
use sp4rk.Base.Tests.{ltb, ◌==◌, if◌then◌else◌, Bool-cases}

abbrev pub Text : Type 0
Text = List ℕ

-- A literal.
abbrev pub codes : String → Text
codes String.[] = []
codes (String.◌∷◌ c s) = code c ∷ codes s

unfoldable pub text_eq : Text → Text → Bool
text_eq [] [] = true
text_eq (a ∷ s) (b ∷ t) = (a == b) && text_eq s t
text_eq _ _ = false

text_eq_sound : (s t : Text) → text_eq s t ≡ true → s ≡ t
unfolding text_eq
text_eq_sound [] [] h = refl
text_eq_sound [] (b ∷ t) h = cc
text_eq_sound (a ∷ s) [] h = cc
text_eq_sound (a ∷ s) (b ∷ t) h = ground (arith, text_eq_sound s t)

pub text_eq_refl : (s : Text) → text_eq s s ≡ true
unfolding text_eq
text_eq_refl [] = refl
text_eq_refl (a ∷ s) = ground (arith, text_eq_refl s)

pub text_eq_iff : (s t : Text) → (text_eq s t ≡ true) ↔ (s ≡ t)
text_eq_iff s t = (text_eq_sound s t, λ e. rw e (text_eq_refl t))

pub text-eq_cases : (s t : Text) → (s ≡ t) ⊎ (s ≢ t)
text-eq_cases s t = elim (Bool-cases (text_eq s t)) [
  | inl e ↦ inl (text_eq_sound s t e)
  | inr e ↦ inr (λ p. ground (arith, text_eq_iff s t))
]

abbrev pub is_empty {ℓ} : {A : Type ℓ} → List A → Bool
is_empty [] = true
is_empty (_ ∷ _) = false

-- strings.HasPrefix
unfoldable pub has_prefix : Text → Text → Bool
unfolding text_eq
has_prefix s p = text_eq (take (length p) s) p

-- strings.CutPrefix
unfoldable pub cut_prefix : Text → Text → Option Text
unfolding has_prefix
cut_prefix s p = if has_prefix s p then some (drop (length p) s) else none

-- The bytes of one code point in UTF-8.
rune_width : ℕ → ℕ
rune_width c = if ltb c 0x80 then 1 else if ltb c 0x800 then 2 else if ltb c 0x10000 then 3 else 4

unfoldable pub byte_length : Text → ℕ
unfolding rune_width
byte_length [] = 0
byte_length (c ∷ s) = rune_width c + byte_length s

-- A text has at least as many bytes as characters.
pub length-byte_length : (s : Text) → length s ≤ byte_length s
unfolding byte_length rune_width
length-byte_length [] = omega arith
length-byte_length (c ∷ s) = ground (arith, length-byte_length s)

-- s < t, in the order of bytes, which is that of code points
unfoldable pub text_lt : Text → Text → Bool
text_lt [] [] = false
text_lt [] (_ ∷ _) = true
text_lt (_ ∷ _) [] = false
text_lt (a ∷ s) (b ∷ t) = ltb a b || ((a == b) && text_lt s t)

insert_text : Text → List Text → List Text
insert_text t [] = t ∷ []
insert_text t (u ∷ us) = let rest = insert_text t us in if text_lt u t then u ∷ rest else t ∷ u ∷ us

-- sort.Strings
unfoldable pub sort_texts : List Text → List Text
unfolding insert_text text_lt
sort_texts [] = []
sort_texts (t ∷ ts) = insert_text t (sort_texts ts)

-- strings.Join
unfoldable pub join : Text → List Text → Text
join sep [] = []
join sep (s ∷ []) = s
join sep (s ∷ t ∷ ts) = s ++ (sep ++ join sep (t ∷ ts))

-- The decimal digits of `n` in front of `rest`; there are at most as many as the fuel.
digits_of : ℕ → ℕ → Text → Text
digits_of zero n rest = rest
digits_of (suc fuel) n rest =
    let more = digits_of fuel (n / 10) ((48 + n % 10) ∷ rest) in
    if ltb n 10 then (48 + n) ∷ rest else more

-- strconv.Itoa, and `%d`, of a number that is not negative
unfoldable pub decimal : ℕ → Text
unfolding digits_of
decimal n = digits_of (n + 1) n []
