-- ===== src/Agent/ToolCache/Histories.antt =====
-- agent/tool_cache.go: sequences of the critical sections of all goroutines.
use sp4rk.Base.{
  Text, ℕ, Bool, true, false, some, is_empty, if◌then◌else◌, length, ◌≡◌, sym, arith, inl, inr, ◌∙◌,
  Bool-cases, Option-cases, ap,
}
use sp4rk.Base.Map.{lookup}
use sp4rk.Agent.ToolCache.{
  ToolResultCache, Entry, CacheMeta, new_tool_result_cache, store_full, store, full_hash,
  get_locked, get, resolve,
}
use sp4rk.Agent.ToolCache.Resolve.{resolve_retired, resolve_key}
use sp4rk.Agent.ToolCache.Invariant.{
  IsConsistent, new-IsConsistent, get_locked-IsConsistent, store_full-IsConsistent,
}
use sp4rk.Agent.ToolCache.Issued.{Issued, Issued-get, Issued-store_full, Issued-of_store}

-- The critical sections that change the cache, made by any goroutine at any time.
module _ (sha256hex : Text → Text) where
  pub data Step : ToolResultCache → ToolResultCache → Type 0 where
    storing :
        (now later : ℕ) (c : ToolResultCache) (tool_name content : Text) (meta : CacheMeta)
        → Step c (store sha256hex now later c tool_name content meta).1
    getting : (now : ℕ) (c : ToolResultCache) (hash : Text) → Step c (get_locked now c hash).1

  pub data Reach (c : ToolResultCache) : ToolResultCache → Type 0 where
    here : Reach c c
    next : {d e : ToolResultCache} → Reach c d → Step d e → Reach c e

  module _ (sha_length : (s : Text) → length (sha256hex s) ≡ 64) where
    either_length : (b : Bool) (x y : Text) → length (if b then sha256hex x else sha256hex y) ≡ 64
    either_length true x y = sha_length x
    either_length false x y = sha_length y

    pub full_hash-length :
        (tool_name content : Text) (meta : CacheMeta)
        → length (full_hash sha256hex tool_name content meta) ≡ 64
    unfolding full_hash
    full_hash-length tool_name content meta = either_length meta.file_backed _ _

    pub Step-IsConsistent : {c d : ToolResultCache} → Step c d → IsConsistent c → IsConsistent d
    unfolding store
    Step-IsConsistent (storing now later c tool_name content meta) v =
        store_full-IsConsistent now later c (full_hash sha256hex tool_name content meta) tool_name
          content meta (full_hash-length tool_name content meta) v
    Step-IsConsistent (getting now c hash) v = get_locked-IsConsistent now c hash v

    pub Step-Issued :
        (key h : Text) {c d : ToolResultCache}
        → Step c d
        → IsConsistent c
        → Issued key h c
        → Issued key h d
    unfolding store
    Step-Issued key h (storing now later c tool_name content meta) v i =
        Issued-store_full now later c (full_hash sha256hex tool_name content meta) tool_name content
          meta (full_hash-length tool_name content meta) v key h i
    Step-Issued key h (getting now c hash) v i = Issued-get key h now c hash i

    Reach-Issued :
        (key h : Text) {c d : ToolResultCache}
        → Reach c d
        → IsConsistent c
        → Issued key h c
        → IsConsistent d × Issued key h d
    Reach-Issued key h here v i = (v, i)
    Reach-Issued key h (next r s) v i =
        let (w, j) = Reach-Issued key h r v i in (Step-IsConsistent s w, Step-Issued key h s w j)

    pub Reach-IsConsistent : {c d : ToolResultCache} → Reach c d → IsConsistent c → IsConsistent d
    Reach-IsConsistent here v = v
    Reach-IsConsistent (next r s) v = Step-IsConsistent s (Reach-IsConsistent r v)

-- An issued key resolves to an entry of its hash, or to nothing.
resolve-Issued :
    (key h : Text) (c : ToolResultCache) (e : Entry) (k : Text)
    → Issued key h c
    → resolve c key ≡ some (e, k)
    → e.hash ≡ h
resolve-Issued key h c e k i r = elim (Option-cases (lookup key c.entries)) [
  | inl p ↦ let nothing = resolve_retired c key p (i.retired p) in absurd (ground arith)
  | inr (x, p) ↦ elim (Bool-cases (is_empty key)) [
    | inl b ↦ absurd (unfold resolve in ground arith)
    | inr b ↦
        let found = resolve_key c key x b p in
        let same : x ≡ e = ground arith in ap (λ (t : Entry). t.hash) (sym same) ∙ i.owner x p
  ]
]

get-Issued :
    (key h : Text) (c : ToolResultCache) (t u : ℕ) (e : Entry)
    → Issued key h c
    → (get t u c key).0 ≡ some e
    → e.hash ≡ h
get-Issued key h c t u e i g = elim (Option-cases (resolve c key)) [
  | inl p ↦ absurd (unfold get get_locked in ground arith)
  | inr ((x, k), p) ↦
      let same : x ≡ e = unfold get get_locked in ground arith in
      ap (λ (y : Entry). y.hash) (sym same) ∙ resolve-Issued key h c x k i p
]

-- For a hash function that returns 64 characters: the caches that any sequence of critical sections
-- reaches from a new one keep the two maps inverse to each other, every key a prefix of the full
-- hash of its entry.
pub Reach-new-IsConsistent :
    (sha256hex : Text → Text)
    → ((s : Text) → length (sha256hex s) ≡ 64)
    → (ttl : ℕ) (c : ToolResultCache) → Reach sha256hex (new_tool_result_cache ttl) c
    → IsConsistent c
Reach-new-IsConsistent sha256hex sha_length ttl c r =
    Reach-IsConsistent sha256hex sha_length r (new-IsConsistent ttl)

-- For a hash function that returns 64 characters and a cache that is reached from a new one: after
-- Store has returned a short hash, and after any further critical sections (other calls of Store and
-- Get, expiries and sweeps), Get of that short hash returns nothing, or an entry with the full hash
-- of what was stored.
pub get-store_no_alias :
    (sha256hex : Text → Text)
    → ((s : Text) → length (sha256hex s) ≡ 64)
    → (ttl : ℕ) (c : ToolResultCache) → Reach sha256hex (new_tool_result_cache ttl) c
    → (now later : ℕ) (tool_name content : Text) (meta : CacheMeta) (d : ToolResultCache)
    → Reach sha256hex (store sha256hex now later c tool_name content meta).1 d
    → (t u : ℕ) (e : Entry)
    → (get t u d (store sha256hex now later c tool_name content meta).0).0 ≡ some e
    → e.hash ≡ full_hash sha256hex tool_name content meta
unfolding store
get-store_no_alias sha256hex sha_length ttl c r now later tool_name content meta d r' t u e g =
    let v = Reach-new-IsConsistent sha256hex sha_length ttl c r in
    let full = full_hash sha256hex tool_name content meta in
    let size = full_hash-length sha256hex sha_length tool_name content meta in
    let i = Issued-of_store now later c full tool_name content meta size v in
    let w = store_full-IsConsistent now later c full tool_name content meta size v in
    let (_, j) =
      Reach-Issued sha256hex sha_length (store_full now later c full tool_name content meta).0 full
        r' w i in
    get-Issued (store_full now later c full tool_name content meta).0 full d t u e j g
