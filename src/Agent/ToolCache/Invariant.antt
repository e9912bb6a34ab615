-- ===== src/Agent/ToolCache/Invariant.antt =====
-- agent/tool_cache.go: how the two maps of the cache belong together.
use sp4rk.Base.{
  ◌≤◌, ◌%◌, ◌==◌, ◌+◌, if◌then◌else◌, true, false, Bool, Text, ℕ, none, some, length, ◌≡◌, ◌≢◌,
  refl, sym, arith, inl, inr, ◌∙◌, Bool-cases, Option-cases, text_eq_iff, text-eq_cases,
  take-length, text_eq_refl, ap,
}
use sp4rk.Base.Map.{lookup, delete, lookup-delete, lookup-insert}
use sp4rk.Agent.ToolCache.{
  store_full, ToolResultCache, Entry, CacheMeta, drop_entry, unexpired, evict_expired, abbreviate,
  taken, get_locked, resolve, new_tool_result_cache,
}
use sp4rk.Agent.ToolCache.Abbreviate.{KeyOf, abbreviate-KeyOf, abbreviate-length, abbreviate_free}
use sp4rk.Agent.ToolCache.Expiry.{evict_inv}
use sp4rk.Agent.ToolCache.Resolve.{resolve-live}
use sp4rk.Agent.ToolCache.Stored.{added, stored, stored-cases, store_full-known, store_full-unknown}

pub record IsConsistent (c : ToolResultCache) : Type 0 where
  -- A key abbreviates the full hash of its entry, which has 64 characters; it has four or more.
  pub key_of : (k : Text) (e : Entry) → lookup k c.entries ≡ some e → KeyOf k e.hash
  pub key_length : (k : Text) (e : Entry) → lookup k c.entries ≡ some e → 4 ≤ length k
  pub hash_length : (k : Text) (e : Entry) → lookup k c.entries ≡ some e → length e.hash ≡ 64
  -- The index finds the key of every entry, and nothing else.
  pub indexed :
      (k : Text) (e : Entry) → lookup k c.entries ≡ some e → lookup e.hash c.full_to_short ≡ some k
  pub backed :
      (h k : Text)
      → lookup h c.full_to_short ≡ some k
      → (e : Entry) × (lookup k c.entries ≡ some e) × (e.hash ≡ h)

pub new-IsConsistent : (ttl : ℕ) → IsConsistent (new_tool_result_cache ttl)
unfolding new_tool_result_cache lookup
new-IsConsistent ttl = record {
  key_of = λ k e h. cc;
  key_length = λ k e h. absurd (cc);
  hash_length = λ k e h. cc;
  indexed = λ k e h. cc;
  backed = λ h k e. cc;
}

module _ (key : Text) (x : Entry) (c : ToolResultCache) (here : lookup key c.entries ≡ some x)
    (v : IsConsistent c) where
  -- What is left after a removal was there under another key.
  left :
      (k : Text) (e : Entry)
      → lookup k (delete key c.entries) ≡ some e
      → (lookup k c.entries ≡ some e) × (key ≢ k)
  left k e h = (
    ground (arith, lookup-delete key k c.entries),
    λ p. ground (arith, lookup-delete key k c.entries, text_eq_iff key k),
  )

  pub drop-IsConsistent : IsConsistent (drop_entry key x c)
  unfolding drop_entry
  drop-IsConsistent = record {
    key_of = λ k e h. v.key_of k e (left k e h).0;
    key_length = λ k e h. v.key_length k e (left k e h).0;
    hash_length = λ k e h. v.hash_length k e (left k e h).0;
    indexed = λ k e h.
        let (l, n) = left k e h in
        let other : x.hash ≢ e.hash = λ p. n (cc (p, v.indexed k e l, v.indexed key x here)) in
        ground (
          arith,
          v.indexed k e l,
          lookup-delete x.hash e.hash c.full_to_short,
          text_eq_iff x.hash e.hash,
        );
    backed = λ h k p. backed_after h k p;
  }
    where
      backed_after :
          (h k : Text)
          → lookup h (delete x.hash c.full_to_short) ≡ some k
          → (e : Entry) × (lookup k (delete key c.entries) ≡ some e) × (e.hash ≡ h)
      backed_after h k p = elim (text-eq_cases x.hash h) [
        | inl q ↦
            absurd (ground (arith, lookup-delete x.hash h c.full_to_short, text_eq_iff x.hash h))
        | inr n ↦
            let (e, l, q) =
              v.backed h k
                (ground (arith, lookup-delete x.hash h c.full_to_short, text_eq_iff x.hash h)) in
            let other : key ≢ k = λ r. n (cc (r, l, here, q)) in
            (e, ground (arith, lookup-delete key k c.entries, text_eq_iff key k), q)
      ]

pub evict-IsConsistent :
    (now : ℕ) (c : ToolResultCache) → IsConsistent c → IsConsistent (evict_expired now c)
evict-IsConsistent now = evict_inv IsConsistent now (λ key e d h _ v. drop-IsConsistent key e d h v)

pub get_locked-IsConsistent :
    (now : ℕ) (c : ToolResultCache) (hash : Text)
    → IsConsistent c
    → IsConsistent (get_locked now c hash).1
unfolding get_locked
get_locked-IsConsistent now c hash v = elim (Option-cases (resolve c hash)) [
  | inl p ↦ rw (p, get_locked) v
  | inr ((e, key), p) ↦ elim (Bool-cases (unexpired now e)) [
    | inl u ↦ rw (p, u, get_locked) v
    | inr u ↦ rw (p, u, get_locked) (drop-IsConsistent key e c (resolve-live c hash e key p) v)
  ]
]

-- Two texts of one length of which one abbreviates the other are equal.
pub KeyOf-full : (key full : Text) → KeyOf key full → length key ≡ length full → key ≡ full
KeyOf-full key full k e = sym k ∙ take-length (length key) full (sym e)

module _ (now later : ℕ) (c : ToolResultCache) (full tool_name content : Text) (meta : CacheMeta)
    (size : length full ≡ 64) (unknown : lookup full c.full_to_short ≡ none)
    (v : IsConsistent c) where
  -- A key that is handed out is not live: it was free, or the full hash would be indexed.
  pub abbreviate-not_live : lookup (abbreviate c full) c.entries ≡ none
  abbreviate-not_live = elim (Option-cases (lookup (abbreviate c full) c.entries)) [
    | inl p ↦ p
    | inr (e, p) ↦ elim (abbreviate_free c full) [
      | inl free ↦ absurd (unfold taken in ground arith)
      | inr whole ↦
          let p' : lookup full c.entries ≡ some e = rw whole at p in
          let same : full ≡ e.hash =
            KeyOf-full full e.hash (v.key_of full e p') (size ∙ sym (v.hash_length full e p')) in
          absurd (ground (arith, v.indexed full e p', ap (λ t. lookup t c.full_to_short) same))
    ]
  ]

  pub stored-IsConsistent : IsConsistent (stored now later c full tool_name content meta)
  stored-IsConsistent = record {
    key_of = key_of';
    key_length = key_length';
    hash_length = hash_length';
    indexed = indexed';
    backed = backed';
  }
    where
      key_of' :
          (k : Text) (e : Entry)
          → lookup k (stored now later c full tool_name content meta).entries ≡ some e
          → KeyOf k e.hash
      key_of' k e h = elim (stored-cases now later c full tool_name content meta k e h) [
        | inl (p, q) ↦ rw (← p, ← q) (abbreviate-KeyOf c full)
        | inr (n, q) ↦ v.key_of k e q
      ]

      key_length' :
          (k : Text) (e : Entry)
          → lookup k (stored now later c full tool_name content meta).entries ≡ some e
          → 4 ≤ length k
      key_length' k e h = elim (stored-cases now later c full tool_name content meta k e h) [
        | inl (p, q) ↦ rw (← p) (abbreviate-length c full size)
        | inr (n, q) ↦ v.key_length k e q
      ]

      hash_length' :
          (k : Text) (e : Entry)
          → lookup k (stored now later c full tool_name content meta).entries ≡ some e
          → length e.hash ≡ 64
      hash_length' k e h = elim (stored-cases now later c full tool_name content meta k e h) [
        | inl (p, q) ↦ rw (← q) size
        | inr (n, q) ↦ v.hash_length k e q
      ]

      indexed' :
          (k : Text) (e : Entry)
          → lookup k (stored now later c full tool_name content meta).entries ≡ some e
          → lookup e.hash (stored now later c full tool_name content meta).full_to_short ≡ some k
      indexed' k e h = elim (stored-cases now later c full tool_name content meta k e h) [
        | inl (p, q) ↦ rw (← p, ← q) (rw (lookup-insert, text_eq_refl) refl)
        | inr (n, q) ↦ ground (
          arith,
          v.indexed k e q,
          lookup-insert full e.hash (abbreviate c full) c.full_to_short,
          text_eq_iff full e.hash,
        )
      ]

      backed' :
          (h k : Text)
          → lookup h (stored now later c full tool_name content meta).full_to_short ≡ some k
          → (e : Entry) × (lookup k (stored now later c full tool_name content meta).entries
              ≡ some e)
            × (e.hash ≡ h)
      backed' h k p = elim (text-eq_cases full h) [
        | inl q ↦
            let same : abbreviate c full ≡ k = ground (
              arith,
              lookup-insert full h (abbreviate c full) c.full_to_short,
              text_eq_iff full h,
            ) in
            (
              added now later c full tool_name content meta,
              rw (← same) (rw (lookup-insert, text_eq_refl) refl),
              q,
            )
        | inr n ↦
            let (e, l, q) = v.backed h k (
              ground (
                arith,
                lookup-insert full h (abbreviate c full) c.full_to_short,
                text_eq_iff full h,
              )) in
            (
              e,
              ground (
                arith,
                abbreviate-not_live,
                lookup-insert (abbreviate c full) k (added now later c full tool_name content meta)
                    c.entries,
                text_eq_iff (abbreviate c full) k,
              ),
              q,
            )
      ]

pub store_full-IsConsistent :
    (now later : ℕ) (c : ToolResultCache) (full tool_name content : Text) (meta : CacheMeta)
    → length full ≡ 64
    → IsConsistent c
    → IsConsistent (store_full now later c full tool_name content meta).1
store_full-IsConsistent now later c full tool_name content meta size v =
    elim (Option-cases (lookup full c.full_to_short)) [
      | inl p ↦ rw (store_full-unknown now later c full tool_name content meta p) (
          sweep (stored-IsConsistent now later c full tool_name content meta size p v)
            ((c.store_count + 1) % 100 == 0))
      | inr (short, p) ↦
          rw (store_full-known now later c full tool_name content meta short p) (record {
            key_of = v.key_of;
            key_length = v.key_length;
            hash_length = v.hash_length;
            indexed = v.indexed;
            backed = v.backed;
          })
    ]
  where
    sweep :
        IsConsistent (stored now later c full tool_name content meta)
        → (b : Bool)
        → IsConsistent (
            if b
            then evict_expired later (stored now later c full tool_name content meta)
            else stored now later c full tool_name content meta)
    sweep w true = evict-IsConsistent later (stored now later c full tool_name content meta) w
    sweep w false = w
