-- ===== src/Agent/ToolCache/RoundTrip.antt =====
-- agent/tool_cache.go: what becomes of a result right after Store.
use sp4rk.Base.{
  Text, [], ◌∷◌, ℕ, ◌+◌, ◌-◌, ◌≤◌, ◌%◌, ◌==◌, Bool, true, false, some, is_empty, if◌then◌else◌,
  length, ◌≡◌, refl, arith, inl, inr, Option-cases, Bool-cases, ◌&&◌, ltb, text_eq_refl,
}
use sp4rk.Base.Map.{lookup, lookup-insert}
use sp4rk.Agent.ToolCache.{
  ToolResultCache, Entry, CacheMeta, evict_expired, abbreviate, store_full, store, full_hash,
  resolve, new_tool_result_cache,
}
use sp4rk.Agent.ToolCache.Abbreviate.{abbreviate-length}
use sp4rk.Agent.ToolCache.Expiry.{evict_expired_exact, Lives}
use sp4rk.Agent.ToolCache.Resolve.{resolve_key}
use sp4rk.Agent.ToolCache.Stored.{added, stored, swept, store_full-known, store_full-unknown}
use sp4rk.Agent.ToolCache.Invariant.{IsConsistent}
use sp4rk.Agent.ToolCache.Histories.{Reach, Reach-new-IsConsistent, full_hash-length}

long-is_empty : (s : Text) → 4 ≤ length s → is_empty s ≡ false
long-is_empty [] h = absurd (omega arith)
long-is_empty (x ∷ s) h = refl

-- The entry that `key` resolves to has the hash `full`.
abbrev pub ResolvesTo : ToolResultCache → Text → Text → Type 0
ResolvesTo c key full = (e : Entry) × (resolve c key ≡ some (e, key)) × (e.hash ≡ full)

module _ (now later : ℕ) (c : ToolResultCache) (full tool_name content : Text) (meta : CacheMeta)
    (size : length full ≡ 64) (v : IsConsistent c) (soon : later - now ≤ c.ttl) where
  abbrev new : Entry
  new = added now later c full tool_name content meta

  abbrev after : ToolResultCache
  after = stored now later c full tool_name content meta

  new-live : lookup (abbreviate c full) after.entries ≡ some new
  new-live = rw lookup-insert (rw text_eq_refl refl)

  new-Lives : Lives later new
  new-Lives = elim (Bool-cases (meta.is_mcp && ltb 0 c.ttl)) [
    | inl b ↦ inr (rw b soon)
    | inr b ↦ inl (rw b refl)
  ]

  swept-live :
      (b : Bool)
      → lookup (abbreviate c full) (if b then evict_expired later after else after).entries
        ≡ some new
  swept-live true =
      (evict_expired_exact later after (abbreviate c full) new).1 (new-live, new-Lives)
  swept-live false = new-live

  store_full-ResolvesTo :
      ResolvesTo
        (store_full now later c full tool_name content meta).1
        (store_full now later c full tool_name content meta).0
        full
  store_full-ResolvesTo = elim (Option-cases (lookup full c.full_to_short)) [
    | inl p ↦ rw (store_full-unknown now later c full tool_name content meta p) (
      new,
      resolve_key (swept now later c full tool_name content meta) (abbreviate c full) new
          (long-is_empty (abbreviate c full) (abbreviate-length c full size))
          (swept-live ((c.store_count + 1) % 100 == 0)),
      refl,
    )
    | inr (short, p) ↦ rw (store_full-known now later c full tool_name content meta short p) (
        let (e, l, q) = v.backed full short p in
        (
          e,
          resolve_key (record c { store_count = c.store_count + 1 }) short e
              (long-is_empty short (v.key_length short e l)) l,
          q,
        ))
  ]

-- For a hash function that returns 64 characters and a cache that is reached from a new one: right
-- after Store, the short hash that it returned resolves to an entry with the full hash of what was
-- stored, if the call did not itself outlast the cache's time to live.
pub resolve-store :
    (sha256hex : Text → Text)
    → ((s : Text) → length (sha256hex s) ≡ 64)
    → (ttl : ℕ) (c : ToolResultCache) → Reach sha256hex (new_tool_result_cache ttl) c
    → (now later : ℕ) (tool_name content : Text) (meta : CacheMeta) → later - now ≤ c.ttl
    → ResolvesTo
        (store sha256hex now later c tool_name content meta).1
        (store sha256hex now later c tool_name content meta).0
        (full_hash sha256hex tool_name content meta)
unfolding store
resolve-store sha256hex sha_length ttl c r now later tool_name content meta soon =
    store_full-ResolvesTo now later c (full_hash sha256hex tool_name content meta) tool_name content
      meta (full_hash-length sha256hex sha_length tool_name content meta)
      (Reach-new-IsConsistent sha256hex sha_length ttl c r) soon
