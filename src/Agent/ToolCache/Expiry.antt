-- ===== src/Agent/ToolCache/Expiry.antt =====
-- agent/tool_cache.go: what evictExpiredLocked removes, and what it leaves.
use sp4rk.Base.{
  Text, [], ◌∷◌, ℕ, true, false, none, some, ◌≡◌, sym, subst, arith, Memᴰ, inl, inr, ◌⊎◌, ◌≤◌, ◌<◌,
  ◌-◌, ltb, Bool-cases, ◌∙◌, ◌↔◌, false≢true, Option-cases, text_eq_iff, text_eq_refl,
  text-eq_cases,
}
use sp4rk.Base.Map.{Keys, keys_of, lookup, lookup-delete, lookup-keys_of, member, member-cons}
use sp4rk.Agent.ToolCache.{
  ToolResultCache, Entry, drop_entry, expired, evict_key, evict_keys, evict_expired,
}

-- The rule for a sweep: what removing a live entry that has expired keeps, the sweep keeps.
module _ {κ} (Q : ToolResultCache → Type κ) (now : ℕ)
    (keep : (key : Text) (e : Entry) (c : ToolResultCache)
      → lookup key c.entries ≡ some e
      → expired now e ≡ true
      → Q c
      → Q (drop_entry key e c)) where
  evict_key_inv : (key : Text) (c : ToolResultCache) → Q c → Q (evict_key now key c)
  unfolding evict_key
  evict_key_inv key c q = elim (Option-cases (lookup key c.entries)) [
    | inl p ↦ rw (p, evict_key) q
    | inr (e, p) ↦ elim (Bool-cases (expired now e)) [
      | inl x ↦ rw (p, x, evict_key) (keep key e c p x q)
      | inr x ↦ rw (p, x, evict_key) q
    ]
  ]

  evict_keys_inv : (keys : Keys) (c : ToolResultCache) → Q c → Q (evict_keys now keys c)
  unfolding evict_keys
  evict_keys_inv [] c q = q
  evict_keys_inv (k ∷ ks) c q = evict_keys_inv ks (evict_key now k c) (evict_key_inv k c q)

  pub evict_inv : (c : ToolResultCache) → Q c → Q (evict_expired now c)
  unfolding evict_expired
  evict_inv c q = evict_keys_inv (keys_of c.entries) c q

module _ (now : ℕ) (c : ToolResultCache) where
  -- `d` has no entry that `c` lacks.
  abbrev Within : ToolResultCache → Type 0
  Within d = (k : Text) (e : Entry) → lookup k d.entries ≡ some e → lookup k c.entries ≡ some e

  evict-Within : Within (evict_expired now c)
  evict-Within = evict_inv Within now step c (λ k e h. h)
    where
      step :
          (key : Text) (x : Entry) (d : ToolResultCache)
          → lookup key d.entries ≡ some x
          → expired now x ≡ true
          → Within d
          → Within (drop_entry key x d)
      step key x d p q h k e r =
          h k e (unfold drop_entry in ground (arith, lookup-delete key k d.entries))

  evict-keeps :
      (k : Text) (e : Entry)
      → lookup k c.entries ≡ some e
      → expired now e ≡ false
      → lookup k (evict_expired now c).entries ≡ some e
  evict-keeps k e h f = evict_inv (λ d. lookup k d.entries ≡ some e) now step c h
    where
      step :
          (key : Text) (x : Entry) (d : ToolResultCache)
          → lookup key d.entries ≡ some x
          → expired now x ≡ true
          → lookup k d.entries ≡ some e
          → lookup k (drop_entry key x d).entries ≡ some e
      step key x d p q r = elim (text-eq_cases key k) [
        | inl same ↦
            let x_is_e : some x ≡ some e = sym p ∙ (rw same r) in
            absurd (false≢true (sym f ∙ cc (x_is_e, q)))
        | inr n ↦
            unfold drop_entry in ground (arith, lookup-delete key k d.entries, text_eq_iff key k)
      ]

  -- The entry of `k`, if there is one, has not expired.
  abbrev CleanAt : Text → ToolResultCache → Type 0
  CleanAt k d = (e : Entry) → lookup k d.entries ≡ some e → expired now e ≡ false

  CleanAt-drop :
      (k key : Text) (x : Entry) (d : ToolResultCache)
      → lookup key d.entries ≡ some x
      → expired now x ≡ true
      → CleanAt k d
      → CleanAt k (drop_entry key x d)
  CleanAt-drop k key x d p q h e r =
      h e (unfold drop_entry in ground (arith, lookup-delete key k d.entries))

  CleanAt-evict_key : (k : Text) (d : ToolResultCache) → CleanAt k (evict_key now k d)
  unfolding evict_key
  CleanAt-evict_key k d e h = ground (arith, lookup-delete k k d.entries, text_eq_refl k)

  evict_keys-CleanAt :
      (keys : Keys) (d : ToolResultCache) (k : Text)
      → Memᴰ k keys
      → CleanAt k (evict_keys now keys d)
  unfolding evict_keys
  evict_keys-CleanAt [] d k m = elim m [ ]
  evict_keys-CleanAt (j ∷ js) d k (Memᴰ.head same) =
      evict_keys_inv (CleanAt k) now (CleanAt-drop k) js (evict_key now j d)
        (subst (λ i. CleanAt k (evict_key now i d)) same (CleanAt-evict_key k d))
  evict_keys-CleanAt (j ∷ js) d k (Memᴰ.tail m) = evict_keys-CleanAt js (evict_key now j d) k m

  evict-CleanAt : (k : Text) → CleanAt k (evict_expired now c)
  unfolding evict_expired
  evict-CleanAt k e h =
      evict_keys-CleanAt (keys_of c.entries) c k (lookup-keys_of k e c.entries (evict-Within k e h))
        e h

  -- A key that is gone is retired.
  evict-retires :
      (k : Text) (e : Entry)
      → lookup k c.entries ≡ some e
      → lookup k (evict_expired now c).entries ≡ none
      → member k (evict_expired now c).retired_short ≡ true
  evict-retires k e h =
      evict_inv (λ d. lookup k d.entries ≡ none → member k d.retired_short ≡ true) now step c
        (λ p. cc)
    where
      step :
          (key : Text) (x : Entry) (d : ToolResultCache)
          → lookup key d.entries ≡ some x
          → expired now x ≡ true
          → (lookup k d.entries ≡ none → member k d.retired_short ≡ true)
          → lookup k (drop_entry key x d).entries ≡ none
          → member k (drop_entry key x d).retired_short ≡ true
      step key x d p q r g =
          unfold drop_entry in
          ground (arith, lookup-delete key k d.entries, member-cons k key d.retired_short)

-- An entry with no time to live, or one that is not older than it.
abbrev pub Lives : ℕ → Entry → Type 0
Lives now e = (e.ttl ≡ 0) ⊎ (now - e.created_at ≤ e.ttl)

expired-Lives : (now : ℕ) (e : Entry) → expired now e ≡ false → Lives now e
unfolding expired
expired-Lives now e h = elim (Bool-cases (ltb 0 e.ttl)) [
  | inl p ↦ inr (ground arith)
  | inr p ↦ inl (ground arith)
]

Lives-expired : (now : ℕ) (e : Entry) → Lives now e → expired now e ≡ false
unfolding expired
Lives-expired now e (inl z) = ground arith
Lives-expired now e (inr le) = ground arith

-- The sweep leaves exactly the entries that have no time to live or are not older than it, each as
-- it was.
pub evict_expired_exact :
    (now : ℕ) (c : ToolResultCache) (k : Text) (e : Entry)
    → (lookup k (evict_expired now c).entries ≡ some e)
      ↔ ((lookup k c.entries ≡ some e) × Lives now e)
evict_expired_exact now c k e = (
  λ h. (evict-Within now c k e h, expired-Lives now e (evict-CleanAt now c k e h)),
  λ h. evict-keeps now c k e h.0 (Lives-expired now e h.1),
)

-- The key of an entry that is older than its time to live, which is not zero, is gone after the
-- sweep, and retired.
pub evict_expired_retires :
    (now : ℕ) (c : ToolResultCache) (k : Text) (e : Entry)
    → lookup k c.entries ≡ some e
    → 0 < e.ttl
    → e.ttl < now - e.created_at
    → (lookup k (evict_expired now c).entries ≡ none)
      × (member k (evict_expired now c).retired_short ≡ true)
evict_expired_retires now c k e h set old = (absent, evict-retires now c k e h absent)
  where
    absent : lookup k (evict_expired now c).entries ≡ none
    absent = elim (Option-cases (lookup k (evict_expired now c).entries)) [
      | inl p ↦ p
      | inr (f, p) ↦
          let same : f ≡ e = cc (evict-Within now c k f p, h) in
          let lives = subst (Lives now) same (((evict_expired_exact now c k f).0 p).1) in
          absurd (elim lives [ inl z ↦ omega arith | inr le ↦ omega arith ])
    ]
