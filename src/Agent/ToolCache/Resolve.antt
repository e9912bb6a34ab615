-- ===== src/Agent/ToolCache/Resolve.antt =====
-- agent/tool_cache.go: what resolveLocked finds.
use sp4rk.Base.{
  Text, [], ◌∷◌, Bool, true, false, Option, none, some, is_empty, if◌then◌else◌, ◌≡◌, subst, arith,
  inl, inr, Bool-cases, Option-cases,
}
use sp4rk.Base.Map.{Map, Keys, keys_of, lookup, member}
use sp4rk.Agent.ToolCache.{ToolResultCache, Entry, hits, scan, resolve}

abbrev FoundLive : Map Entry → Option (Entry × Text) → Type 0
FoundLive entries none = Unit
FoundLive entries (some (e, key)) = lookup key entries ≡ some e

scan-FoundLive :
    (hash : Text) (entries : Map Entry) (keys : Keys) (found : Option (Entry × Text))
    → FoundLive entries found
    → FoundLive entries (scan hash entries keys found)
unfolding scan
scan-FoundLive hash entries [] found h = h
scan-FoundLive hash entries (k ∷ ks) found h = elim (Option-cases (lookup k entries)) [
  | inl p ↦ rw (p, scan) (scan-FoundLive hash entries ks found h)
  | inr (e, p) ↦
      rw (p, scan)
        (hit e (scan-FoundLive hash entries ks (some (e, k)) p)
          (scan-FoundLive hash entries ks found h) (hits hash e) found)
]
  where
    hit :
        (e : Entry)
        → FoundLive entries (scan hash entries ks (some (e, k)))
        → FoundLive entries (scan hash entries ks found)
        → (b : Bool) (f : Option (Entry × Text))
        → FoundLive entries (
            if b
            then elim f [ none ↦ scan hash entries ks (some (e, k)) | some _ ↦ none ]
            else scan hash entries ks found)
    hit e x y true none = x
    hit e x y true (some _) = tt
    hit e x y false f = y

-- What resolves is the live entry of the key that comes with it.
pub resolve-live :
    (c : ToolResultCache) (hash : Text) (e : Entry) (key : Text)
    → resolve c hash ≡ some (e, key)
    → lookup key c.entries ≡ some e
unfolding resolve
resolve-live c hash e key h = elim (Bool-cases (is_empty hash)) [
  | inl b ↦ ground arith
  | inr b ↦ elim (Option-cases (lookup hash c.entries)) [
    | inl p ↦ elim (Bool-cases (member hash c.retired_short)) [
      | inl r ↦ ground arith
      | inr r ↦
          let scanned : scan hash c.entries (keys_of c.entries) none ≡ some (e, key) =
            ground arith in
          subst (FoundLive c.entries) scanned
            (scan-FoundLive hash c.entries (keys_of c.entries) none tt)
    ]
    | inr (x, p) ↦ ground arith
  ]
]

-- A live key resolves to its own entry.
pub resolve_key :
    (c : ToolResultCache) (key : Text) (e : Entry)
    → is_empty key ≡ false
    → lookup key c.entries ≡ some e
    → resolve c key ≡ some (e, key)
unfolding resolve
resolve_key c key e n h = rw (n, h)

-- A retired key that is not live resolves to nothing, whatever shares its prefix.
pub resolve_retired :
    (c : ToolResultCache) (key : Text)
    → lookup key c.entries ≡ none
    → member key c.retired_short ≡ true
    → resolve c key ≡ none
unfolding resolve
resolve_retired c key h r = ground arith
