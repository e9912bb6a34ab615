-- ===== src/Tests/Cache.antt =====
-- Runs of agent/tool_cache.go with a hash function that pads a text to 64 characters.
use sp4rk.Base.{
  Text, [], ◌∷◌, ◌++◌, ℕ, zero, suc, ◌+◌, true, false, none, some, ◌≡◌, ◌≢◌, refl, arith, ◌↔◌,
  codes, text_eq, length, take, length-take, length-append,
}
use sp4rk.Base.Map.{lookup, insert, delete, member}
use sp4rk.Agent.ToolCache.{
  ToolResultCache, Entry, CacheMeta, new_tool_result_cache, store, store_full, full_hash, get,
  get_locked, evict_expired, abbreviate, new_entry, compute_tool_result_hash,
}
use sp4rk.Agent.ToolCache.Expiry.{evict_expired_exact, evict_expired_retires, Lives}
use sp4rk.Agent.ToolCache.Abbreviate.{Shortest, abbreviate-Shortest}
use sp4rk.Agent.ToolCache.Invariant.{IsConsistent}
use sp4rk.Agent.ToolCache.Histories.{
  Reach, here, next, storing, getting, Reach-new-IsConsistent, get-store_no_alias,
}
use sp4rk.Agent.ToolCache.RoundTrip.{ResolvesTo, resolve-store}

replicate : ℕ → ℕ → Text
replicate zero x = []
replicate (suc n) x = x ∷ replicate n x

length-replicate : (n x : ℕ) → length (replicate n x) ≡ n
unfolding replicate
length-replicate zero x = refl
length-replicate (suc n) x = omega (arith, length-replicate n x)

pad : Text → Text
unfolding replicate
pad s = take 64 (s ++ replicate 64 b'f')

length-pad : (s : Text) → length (pad s) ≡ 64
unfolding pad
length-pad s = omega (
  arith,
  length-take 64 (s ++ replicate 64 b'f'),
  length-append s (replicate 64 b'f'),
  length-replicate 64 b'f',
)

abbrev mcp : CacheMeta
mcp = record {
  file_path = [];
  file_mtime = 0;
  file_size = 0;
  is_mcp = true;
  input = [];
  file_backed = false;
}

abbrev plain : CacheMeta
plain = record mcp { is_mcp = false }

abbrev new : ToolResultCache
new = new_tool_result_cache 10

abbrev one : ToolResultCache
one = (store pad 0 0 new (codes "search") (codes "ok") mcp).1

abbrev two : ToolResultCache
two = (store pad 5 5 one (codes "seal") (codes "ok") plain).1

-- The second hash shares two characters only, the third shares four.
short_keys :
    ((store pad 0 0 new (codes "search") (codes "ok") mcp).0 ≡ codes "sear")
    × ((store pad 5 5 one (codes "search") (codes "no") plain).0 ≡ codes "searc")
    × ((store pad 5 5 one (codes "search") (codes "ok") plain).0 ≡ codes "sear")
unfolding pad store store_full abbreviate new_tool_result_cache evict_expired lookup insert member
    text_eq
short_keys = (refl, refl, refl)

-- At the time 20 the entry has expired; its key is retired, and the next one is longer.
expires :
    ((get 20 20 one (codes "sear")).0 ≡ none)
    × ((get 9 9 one (codes "se")).0 ≢ none)
    × ((store pad 20 20 (get 20 20 one (codes "sear")).1 (codes "search") (codes "ok") mcp).0
        ≡ codes "searc")
unfolding pad store store_full abbreviate new_tool_result_cache evict_expired get lookup insert
    delete member text_eq
expires = (refl, λ e. cc e, refl)

-- The same result, stored and expired 61 times.
cycles : ℕ → ℕ → ToolResultCache → ToolResultCache
cycles zero now c = c
cycles (suc n) now c =
    let (key, d) = store pad now now c (codes "search") (codes "ok") mcp in
    cycles n (now + 20) (get_locked (now + 20) d key).1

abbrev worn : ToolResultCache
worn = cycles 61 0 new

worn_reissues :
    ((store pad 5000 5000 worn (codes "search") (codes "ok") mcp).0 ≡ pad (codes "search\0ok"))
    × (member (pad (codes "search\0ok")) worn.retired_short ≡ true)
unfolding cycles pad store store_full abbreviate new_tool_result_cache evict_expired get_locked
    lookup insert delete member text_eq
worn_reissues = (refl, refl)

-- The key of the first result, through the store of a second one under a longer prefix.
one-Reach : Reach pad new one
one-Reach = next here (storing 0 0 new (codes "search") (codes "ok") mcp)

-- It is stored at the time 5; at 20 the first entry expires; it is read at 30.
abbrev second : Entry
second =
    new_entry 5 10 (full_hash pad (codes "search") (codes "no") plain) (codes "search") (codes "no")
      plain

get-store_no_alias_example : second.hash ≡ full_hash pad (codes "search") (codes "no") plain
unfolding pad store full_hash compute_tool_result_hash store_full abbreviate new_tool_result_cache
    evict_expired get get_locked lookup insert delete member text_eq
get-store_no_alias_example =
    get-store_no_alias pad length-pad 10 one one-Reach 5 5 (codes "search") (codes "no") plain
      (get_locked 20 (store pad 5 5 one (codes "search") (codes "no") plain).1 (codes "sear")).1
      (next here
        (getting 20 (store pad 5 5 one (codes "search") (codes "no") plain).1 (codes "sear")))
      30 30 second refl

Reach-new-IsConsistent_example : IsConsistent one
Reach-new-IsConsistent_example = Reach-new-IsConsistent pad length-pad 10 one one-Reach

resolve-store_example :
    ResolvesTo
      (store pad 5 6 one (codes "search") (codes "no") plain).1
      (store pad 5 6 one (codes "search") (codes "no") plain).0
      (full_hash pad (codes "search") (codes "no") plain)
unfolding new_tool_result_cache store store_full lookup
resolve-store_example =
    resolve-store pad length-pad 10 one one-Reach 5 6 (codes "search") (codes "no") plain
      (omega arith)

abbrev first : Entry
first =
    new_entry 0 10 (full_hash pad (codes "search") (codes "ok") mcp) (codes "search") (codes "ok")
      mcp

evict_expired_exact_example :
    (lookup (codes "sear") (evict_expired 20 one).entries ≡ some first)
    ↔ ((lookup (codes "sear") one.entries ≡ some first) × Lives 20 first)
evict_expired_exact_example = evict_expired_exact 20 one (codes "sear") first

evict_expired_retires_example :
    (lookup (codes "sear") (evict_expired 20 one).entries ≡ none)
    × (member (codes "sear") (evict_expired 20 one).retired_short ≡ true)
unfolding pad store store_full abbreviate new_tool_result_cache lookup insert member text_eq
evict_expired_retires_example =
    evict_expired_retires 20 one (codes "sear") first refl (omega arith) (omega arith)

abbreviate-Shortest_example :
    Shortest one (pad (codes "seal")) 4 65 (abbreviate one (pad (codes "seal")))
abbreviate-Shortest_example = abbreviate-Shortest one (pad (codes "seal"))
