-- ===== src/Tools/Filter.antt =====
-- tools/filter.go: FilterToolsByProfile. A nil list of names is none.
use sp4rk.Base.{
  Text, List, [], ◌∷◌, true, Option, none, some, if◌then◌else◌, ◌≡◌, sym, subst, Memᴰ, inl, inr,
  ◌↔◌, Bool-cases,
}
use sp4rk.Base.Map.{Keys, member}
use sp4rk.Tools.Tool.{ToolDescriptor}

-- The loop over the descriptors.
unfoldable pub allowed_only : Keys → List ToolDescriptor → List ToolDescriptor
allowed_only names [] = []
allowed_only names (t ∷ ts) =
    let rest = allowed_only names ts in if member t.name names then t ∷ rest else rest

unfoldable pub filter_tools_by_profile :
    List ToolDescriptor → Option (List Text) → List ToolDescriptor
unfolding allowed_only
filter_tools_by_profile tools none = tools
filter_tools_by_profile tools (some []) = []
filter_tools_by_profile tools (some (name ∷ names)) = allowed_only (name ∷ names) tools

allowed_only_sound :
    (names : Keys) (ts : List ToolDescriptor) (t : ToolDescriptor)
    → Memᴰ t (allowed_only names ts)
    → Memᴰ t ts × (member t.name names ≡ true)
unfolding allowed_only
allowed_only_sound names [] t m = elim m [ ]
allowed_only_sound names (x ∷ xs) t m = elim (Bool-cases (member x.name names)) [
  | inl e ↦ kept e (allowed_only_sound names xs t) (rw e at m)
  | inr e ↦ let (a, b) = allowed_only_sound names xs t (rw e at m) in (Memᴰ.tail a, b)
]
  where
    kept :
        member x.name names ≡ true
        → (Memᴰ t (allowed_only names xs) → Memᴰ t xs × (member t.name names ≡ true))
        → Memᴰ t (x ∷ allowed_only names xs)
        → Memᴰ t (x ∷ xs) × (member t.name names ≡ true)
    kept e rest (Memᴰ.head same) =
        (Memᴰ.head same, subst (λ (y : ToolDescriptor). member y.name names ≡ true) (sym same) e)
    kept e rest (Memᴰ.tail n) = let (a, b) = rest n in (Memᴰ.tail a, b)

allowed_only_complete :
    (names : Keys) (ts : List ToolDescriptor) (t : ToolDescriptor)
    → Memᴰ t ts
    → member t.name names ≡ true
    → Memᴰ t (allowed_only names ts)
unfolding allowed_only
allowed_only_complete names [] t m h = elim m [ ]
allowed_only_complete names (x ∷ xs) t (Memᴰ.head same) h =
    let e : member x.name names ≡ true =
      subst (λ (y : ToolDescriptor). member y.name names ≡ true) same h in
    rw e (Memᴰ.head same)
allowed_only_complete names (x ∷ xs) t (Memᴰ.tail m) h =
    let rest = allowed_only_complete names xs t m h in
    elim (Bool-cases (member x.name names)) [ inl e ↦ rw e (Memᴰ.tail rest) | inr e ↦ rw e rest ]

-- With an allow-list, the tools that are left are exactly those whose name is on it; an empty
-- list leaves none.
pub filter_tools_by_profile_iff :
    (tools : List ToolDescriptor) (names : List Text) (t : ToolDescriptor)
    → Memᴰ t (filter_tools_by_profile tools (some names))
      ↔ (Memᴰ t tools × (member t.name names ≡ true))
unfolding filter_tools_by_profile
filter_tools_by_profile_iff tools [] t = (λ m. elim m [ ], λ h. absurd (unfold member in cc (h.1)))
filter_tools_by_profile_iff tools (n ∷ ns) t =
    (allowed_only_sound (n ∷ ns) tools t, λ h. allowed_only_complete (n ∷ ns) tools t h.0 h.1)
