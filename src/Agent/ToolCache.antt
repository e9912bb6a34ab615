-- ===== src/Agent/ToolCache.antt =====
-- agent/tool_cache.go: the session's cache of tool results under abbreviated hashes. Each operation
-- that the mutex makes atomic is a function on the cache; times are nanoseconds. `sha256hex` is the
-- hash function of the standard library, a parameter of what hashes.
pub mod Abbreviate
pub mod Expiry
pub mod Invariant
pub mod Issued
pub mod Histories
pub mod Stored
pub mod RoundTrip
pub mod Resolve
use sp4rk.Base.{
  Text, List, [], ◌∷◌, ◌++◌, ℕ, zero, suc, ◌+◌, ◌-◌, ◌%◌, Bool, true, false, ◌&&◌, ◌||◌, Option,
  none, some, is_some, is_empty, if◌then◌else◌, length, take, text_eq, decimal, ltb, leb, ◌==◌,
  byte_length, has_prefix,
}
use sp4rk.Base.Map.{Map, Keys, keys_of, lookup, insert, delete, member}

abbrev pub min_abbrev_len : ℕ
min_abbrev_len = 4

-- sha256.Size * 2
abbrev pub full_hash_len : ℕ
full_hash_len = 64

abbrev pub max_cache_input_bytes : ℕ
max_cache_input_bytes = 4096

pub record Entry : Type 0 where
  pub hash : Text
  pub content : Text
  pub tool_name : Text
  pub created_at : ℕ
  pub input : Text
  pub file_path : Text
  pub file_mtime : ℕ
  pub file_size : ℕ
  pub file_backed : Bool
  pub ttl : ℕ
  pub is_mcp : Bool

-- ToolCacheMeta
pub record CacheMeta : Type 0 where
  pub file_path : Text
  pub file_mtime : ℕ
  pub file_size : ℕ
  pub is_mcp : Bool
  pub input : Text
  pub file_backed : Bool

pub record ToolResultCache : Type 0 where
  pub entries : Map Entry
  pub full_to_short : Map Text
  pub retired_short : Keys
  pub ttl : ℕ
  pub store_count : ℕ

unfoldable pub new_tool_result_cache : ℕ → ToolResultCache
new_tool_result_cache ttl = record {
  entries = [];
  full_to_short = [];
  retired_short = [];
  ttl = ttl;
  store_count = 0;
}

-- Removes an entry and retires its key.
unfoldable pub drop_entry : Text → Entry → ToolResultCache → ToolResultCache
drop_entry key e c = record c {
  entries = delete key c.entries;
  full_to_short = delete e.hash c.full_to_short;
  retired_short = key ∷ c.retired_short;
}

-- entry.TTL > 0 && time.Since(entry.CreatedAt) > entry.TTL
unfoldable pub expired : ℕ → Entry → Bool
expired now e = ltb 0 e.ttl && ltb e.ttl (now - e.created_at)

-- entry.TTL == 0 || time.Since(entry.CreatedAt) <= entry.TTL
unfoldable pub unexpired : ℕ → Entry → Bool
unexpired now e = e.ttl == 0 || leb (now - e.created_at) e.ttl

-- One round of evictExpiredLocked: a `range` visits a key with the value that it then has.
unfoldable pub evict_key : ℕ → Text → ToolResultCache → ToolResultCache
unfolding drop_entry expired
evict_key now key c = elim (lookup key c.entries) [
  | none ↦ c
  | some e ↦ if expired now e then drop_entry key e c else c
]

unfoldable pub evict_keys : ℕ → Keys → ToolResultCache → ToolResultCache
unfolding evict_key
evict_keys now [] c = c
evict_keys now (key ∷ keys) c = evict_keys now keys (evict_key now key c)

unfoldable pub evict_expired : ℕ → ToolResultCache → ToolResultCache
unfolding evict_keys
evict_expired now c = evict_keys now (keys_of c.entries) c

-- A live or a retired key.
unfoldable pub taken : ToolResultCache → Text → Bool
taken c prefix = is_some (lookup prefix c.entries) || member prefix c.retired_short

-- The loop of abbreviateLocked, with `rounds` prefix lengths left from `n` on.
unfoldable pub abbreviate_from : ℕ → ℕ → ToolResultCache → Text → Text
abbreviate_from zero n c full = full
abbreviate_from (suc rounds) n c full =
    let longer = abbreviate_from rounds (n + 1) c full in
    if is_some (lookup (take n full) c.entries)
    then longer
    else if member (take n full) c.retired_short
    then longer
    else take n full

unfoldable pub abbreviate : ToolResultCache → Text → Text
unfolding abbreviate_from
abbreviate c full = abbreviate_from (full_hash_len - min_abbrev_len + 1) min_abbrev_len c full

-- e.Hash == hash || strings.HasPrefix(e.Hash, hash)
unfoldable pub hits : Text → Entry → Bool
unfolding has_prefix
hits hash e = text_eq e.hash hash || has_prefix e.hash hash

-- The scan of resolveLocked over the keys; a second match is ambiguous.
unfoldable pub scan : Text → Map Entry → Keys → Option (Entry × Text) → Option (Entry × Text)
unfolding hits
scan hash entries [] found = found
scan hash entries (key ∷ keys) found =
    let onward = scan hash entries keys found in
    elim (lookup key entries) [
      | none ↦ onward
      | some e ↦
          let first = scan hash entries keys (some (e, key)) in
          if hits hash e then elim found [ none ↦ first | some _ ↦ none ] else onward
    ]

unfoldable pub resolve : ToolResultCache → Text → Option (Entry × Text)
unfolding scan
resolve c hash = if is_empty hash then none else elim (lookup hash c.entries) [
  | some e ↦ some (e, hash)
  | none ↦
      if member hash c.retired_short then none else scan hash c.entries (keys_of c.entries) none
]

-- The part of Get under the write lock, at the time `now`.
unfoldable pub get_locked : ℕ → ToolResultCache → Text → Option Entry × ToolResultCache
unfolding resolve unexpired drop_entry
get_locked now c hash = elim (resolve c hash) [
  | none ↦ (none, c)
  | some (e, key) ↦ if unexpired now e then (some e, c) else (none, drop_entry key e c)
]

-- Get with nothing in between its two critical sections.
unfoldable pub get : ℕ → ℕ → ToolResultCache → Text → Option Entry × ToolResultCache
unfolding get_locked
get now later c hash = elim (resolve c hash) [
  | none ↦ (none, c)
  | some (e, key) ↦ if unexpired now e then (some e, c) else get_locked later c hash
]

pub data Coherence : Type 0 where
  valid not_found entry_expired : Coherence
  inaccessible modified : Text → Coherence

-- `stat` is os.Stat: the modification time and the size of a file that is there.
unfoldable pub check_coherence : ℕ → (Text → Option (ℕ × ℕ)) → ToolResultCache → Text → Coherence
unfolding resolve expired
check_coherence now stat c hash = elim (resolve c hash) [
  | none ↦ not_found
  | some (e, key) ↦
      if expired now e
      then entry_expired
      else if is_empty e.file_path
      then valid
      else elim (stat e.file_path) [
        | none ↦ inaccessible e.file_path
        | some (mtime, size) ↦
            if mtime == e.file_mtime && size == e.file_size then valid else modified e.file_path
      ]
]

unfoldable pub cache_len : ToolResultCache → ℕ
cache_len c = length c.entries

module _ (sha256hex : Text → Text) where
  unfoldable pub compute_tool_result_hash : Text → Text → Text
  compute_tool_result_hash tool_name content = sha256hex (tool_name ++ (0 ∷ content))

  unfoldable pub compute_file_backed_hash : Text → Text → ℕ → ℕ → Text
  compute_file_backed_hash tool_name file_path mtime size =
      sha256hex (tool_name ++ (0 ∷ (file_path ++ (0 ∷ (decimal mtime ++ (0 ∷ decimal size))))))

  unfoldable pub full_hash : Text → Text → CacheMeta → Text
  unfolding compute_tool_result_hash compute_file_backed_hash
  full_hash tool_name content meta =
      if meta.file_backed
      then compute_file_backed_hash tool_name meta.file_path meta.file_mtime meta.file_size
      else compute_tool_result_hash tool_name content

abbrev pub new_entry : ℕ → ℕ → Text → Text → Text → CacheMeta → Entry
new_entry now ttl full tool_name content meta = record {
  hash = full;
  content = if meta.file_backed then [] else content;
  tool_name = tool_name;
  created_at = now;
  input = if ltb max_cache_input_bytes (byte_length meta.input) then [] else meta.input;
  file_path = meta.file_path;
  file_mtime = meta.file_mtime;
  file_size = meta.file_size;
  file_backed = meta.file_backed;
  ttl = if meta.is_mcp && ltb 0 ttl then ttl else 0;
  is_mcp = meta.is_mcp;
}

-- The critical section of Store, for a full hash; the sweep runs at the time `later`.
unfoldable pub store_full :
    ℕ → ℕ → ToolResultCache → Text → Text → Text → CacheMeta → Text × ToolResultCache
store_full now later c full tool_name content meta =
    let counted = record c { store_count = c.store_count + 1 } in
    elim (lookup full c.full_to_short) [
      | some short ↦ (short, counted)
      | none ↦
          let short = abbreviate counted full in
          let stored = record counted {
            entries = insert short (new_entry now c.ttl full tool_name content meta) c.entries;
            full_to_short = insert full short c.full_to_short;
          } in
          (short, if (c.store_count + 1) % 100 == 0 then evict_expired later stored else stored)
    ]

module _ (sha256hex : Text → Text) where
  unfoldable pub store : ℕ → ℕ → ToolResultCache → Text → Text → CacheMeta → Text × ToolResultCache
  unfolding full_hash store_full
  store now later c tool_name content meta =
      store_full now later c (full_hash sha256hex tool_name content meta) tool_name content meta
