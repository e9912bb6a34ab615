-- ===== src/Agent/ToolCache/Stored.antt =====
-- agent/tool_cache.go: the two outcomes of Store.
use sp4rk.Base.{
  Text, ℕ, zero, suc, ◌+◌, ◌%◌, ◌==◌, none, some, if◌then◌else◌, ◌≡◌, ◌≢◌, refl, arith, inl, inr,
  ◌⊎◌, text_eq_iff, text-eq_cases,
}
use sp4rk.Base.Map.{lookup, insert, lookup-insert}
use sp4rk.Agent.ToolCache.{
  ToolResultCache, Entry, CacheMeta, evict_expired, abbreviate, abbreviate_from, store_full,
  new_entry,
}

-- The counter does not enter into the choice of a key.
abbreviate_from-count :
    (rounds n s : ℕ) (c : ToolResultCache) (full : Text)
    → abbreviate_from rounds n (record c { store_count = s }) full ≡ abbreviate_from rounds n c full
unfolding abbreviate_from
abbreviate_from-count zero n s c full = refl
abbreviate_from-count (suc r) n s c full = rw (abbreviate_from-count r (n + 1) s c full)

abbreviate-count :
    (s : ℕ) (c : ToolResultCache) (full : Text)
    → abbreviate (record c { store_count = s }) full ≡ abbreviate c full
unfolding abbreviate
abbreviate-count s c full = abbreviate_from-count 61 4 s c full

module _ (now later : ℕ) (c : ToolResultCache) (full tool_name content : Text)
    (meta : CacheMeta) where
  abbrev pub added : Entry
  added = new_entry now c.ttl full tool_name content meta

  abbrev pub stored : ToolResultCache
  stored = record c {
    entries = insert (abbreviate c full) added c.entries;
    full_to_short = insert full (abbreviate c full) c.full_to_short;
    store_count = c.store_count + 1;
  }

  abbrev pub swept : ToolResultCache
  swept = if (c.store_count + 1) % 100 == 0 then evict_expired later stored else stored

  -- A hash that is known keeps its key; only the counter moves.
  pub store_full-known :
      (short : Text)
      → lookup full c.full_to_short ≡ some short
      → store_full now later c full tool_name content meta
        ≡ (short, record c { store_count = c.store_count + 1 })
  unfolding store_full
  store_full-known short e = rw (e, store_full)

  -- A hash that is new is stored under its abbreviation, and every hundredth call sweeps.
  pub store_full-unknown :
      lookup full c.full_to_short ≡ none
      → store_full now later c full tool_name content meta ≡ (abbreviate c full, swept)
  unfolding store_full
  store_full-unknown e = rw (e, store_full) (rw (abbreviate-count (c.store_count + 1) c full) refl)

  -- An entry of the new cache is the new one, or an old one under another key.
  pub stored-cases :
      (k : Text) (e : Entry)
      → lookup k stored.entries ≡ some e
      → ((abbreviate c full ≡ k) × (added ≡ e))
        ⊎ ((abbreviate c full ≢ k) × (lookup k c.entries ≡ some e))
  stored-cases k e h = elim (text-eq_cases (abbreviate c full) k) [
    | inl p ↦ inl (
      p,
      ground (
        arith,
        lookup-insert (abbreviate c full) k added c.entries,
        text_eq_iff (abbreviate c full) k,
      ),
    )
    | inr n ↦ inr (
      n,
      ground (
        arith,
        lookup-insert (abbreviate c full) k added c.entries,
        text_eq_iff (abbreviate c full) k,
      ),
    )
  ]
