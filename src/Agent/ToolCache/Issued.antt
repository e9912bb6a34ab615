-- ===== src/Agent/ToolCache/Issued.antt =====
-- agent/tool_cache.go: a short hash that was handed out, through each critical section.
use sp4rk.Base.{
  Text, ℕ, ◌+◌, ◌%◌, ◌==◌, Bool, true, false, none, some, if◌then◌else◌, length, ◌≡◌, sym, arith,
  inl, inr, ◌∙◌, Bool-cases, Option-cases, text_eq_refl, ap,
}
use sp4rk.Base.Map.{lookup, lookup-delete, lookup-insert, member, member-cons}
use sp4rk.Agent.ToolCache.{
  ToolResultCache, Entry, CacheMeta, drop_entry, unexpired, evict_expired, abbreviate, taken,
  store_full, get_locked, resolve,
}
use sp4rk.Agent.ToolCache.Abbreviate.{KeyOf, abbreviate-KeyOf, abbreviate_free}
use sp4rk.Agent.ToolCache.Expiry.{evict_inv}
use sp4rk.Agent.ToolCache.Resolve.{resolve-live}
use sp4rk.Agent.ToolCache.Stored.{added, stored, stored-cases, store_full-known, store_full-unknown}
use sp4rk.Agent.ToolCache.Invariant.{IsConsistent, KeyOf-full, abbreviate-not_live}

-- `key` was handed out for `full`: where it is live its entry has that hash, and else it is retired.
pub record Issued (key full : Text) (c : ToolResultCache) : Type 0 where
  pub key_of : KeyOf key full
  pub size : length full ≡ 64
  pub owner : (e : Entry) → lookup key c.entries ≡ some e → e.hash ≡ full
  pub retired : lookup key c.entries ≡ none → member key c.retired_short ≡ true

Issued-drop :
    (key full k : Text) (x : Entry) (c : ToolResultCache)
    → lookup k c.entries ≡ some x
    → Issued key full c
    → Issued key full (drop_entry k x c)
unfolding drop_entry
Issued-drop key full k x c h i = record {
  key_of = i.key_of;
  size = i.size;
  owner = λ e p. i.owner e (ground (arith, lookup-delete k key c.entries));
  retired = λ p.
      ground (arith, lookup-delete k key c.entries, member-cons key k c.retired_short, i.retired);
}

pub Issued-get :
    (key full : Text) (now : ℕ) (c : ToolResultCache) (hash : Text)
    → Issued key full c
    → Issued key full (get_locked now c hash).1
unfolding get_locked
Issued-get key full now c hash i = elim (Option-cases (resolve c hash)) [
  | inl p ↦ rw (p, get_locked) i
  | inr ((e, k), p) ↦ elim (Bool-cases (unexpired now e)) [
    | inl u ↦ rw (p, u, get_locked) i
    | inr u ↦ rw (p, u, get_locked) (Issued-drop key full k e c (resolve-live c hash e k p) i)
  ]
]

Issued-evict :
    (key full : Text) (now : ℕ) (c : ToolResultCache)
    → Issued key full c
    → Issued key full (evict_expired now c)
Issued-evict key full now =
    evict_inv (Issued key full) now (λ k x c h _ i. Issued-drop key full k x c h i)

module _ (now later : ℕ) (c : ToolResultCache) (full tool_name content : Text) (meta : CacheMeta)
    (size : length full ≡ 64) (v : IsConsistent c) (p : lookup full c.full_to_short ≡ none) where
  abbrev after : ToolResultCache
  after = stored now later c full tool_name content meta

  -- The sweep at the end of Store, made or not.
  Issued-swept :
      (key h : Text) (b : Bool)
      → Issued key h after
      → Issued key h (if b then evict_expired later after else after)
  Issued-swept key h true i = Issued-evict key h later after i
  Issued-swept key h false i = i

  -- The key that Store adds is issued for the hash.
  Issued-added : Issued (abbreviate c full) full after
  Issued-added = record {
    key_of = abbreviate-KeyOf c full;
    size = size;
    owner = λ e q. ground (
      arith,
      lookup-insert (abbreviate c full) (abbreviate c full)
          (added now later c full tool_name content meta) c.entries,
      text_eq_refl (abbreviate c full),
    );
    retired = λ q. ground (
      arith,
      lookup-insert (abbreviate c full) (abbreviate c full)
          (added now later c full tool_name content meta) c.entries,
      text_eq_refl (abbreviate c full),
    );
  }

  -- An issued key is handed out again for the same hash only.
  Issued-stored : (key h : Text) → Issued key h c → Issued key h after
  Issued-stored key h i = record {
    key_of = i.key_of;
    size = i.size;
    owner = owner';
    retired = λ q. i.retired (
        ground (
          arith,
          lookup-insert (abbreviate c full) key (added now later c full tool_name content meta)
              c.entries,
        ));
  }
    where
      owner' : (e : Entry) → lookup key after.entries ≡ some e → e.hash ≡ h
      owner' e q = elim (stored-cases now later c full tool_name content meta key e q) [
        | inr (n, l) ↦ i.owner e l
        | inl (same, a) ↦ elim (Option-cases (lookup key c.entries)) [
          | inr (x, l) ↦
              let gone : lookup key c.entries ≡ none =
                rw (← same)
                  (abbreviate-not_live now later c full tool_name content meta size p v) in
              absurd (ground arith)
          | inl l ↦ elim (abbreviate_free c full) [
            | inl free ↦ absurd (unfold taken in ground (arith, i.retired l))
            | inr whole ↦
                let k : key ≡ full = sym same ∙ whole in
                let k' : key ≡ h = KeyOf-full key h i.key_of (ap length k ∙ (size ∙ sym i.size)) in
                ap (λ (x : Entry). x.hash) (sym a) ∙ (sym k ∙ k')
          ]
        ]
      ]

module _ (now later : ℕ) (c : ToolResultCache) (full tool_name content : Text) (meta : CacheMeta)
    (size : length full ≡ 64) (v : IsConsistent c) where
  pub Issued-store_full :
      (key h : Text)
      → Issued key h c
      → Issued key h (store_full now later c full tool_name content meta).1
  Issued-store_full key h i = elim (Option-cases (lookup full c.full_to_short)) [
    | inl p ↦ rw (store_full-unknown now later c full tool_name content meta p) (
        Issued-swept now later c full tool_name content meta size v p key h
          ((c.store_count + 1) % 100 == 0)
          (Issued-stored now later c full tool_name content meta size v p key h i))
    | inr (short, p) ↦
        rw (store_full-known now later c full tool_name content meta short p)
          (record { key_of = i.key_of; size = i.size; owner = i.owner; retired = i.retired })
  ]

  -- What Store returns is issued for the hash.
  pub Issued-of_store :
      Issued
        (store_full now later c full tool_name content meta).0
        full
        (store_full now later c full tool_name content meta).1
  Issued-of_store = elim (Option-cases (lookup full c.full_to_short)) [
    | inl p ↦ rw (store_full-unknown now later c full tool_name content meta p) (
        Issued-swept now later c full tool_name content meta size v p (abbreviate c full) full
          ((c.store_count + 1) % 100 == 0)
          (Issued-added now later c full tool_name content meta size v p))
    | inr (short, p) ↦ rw (store_full-known now later c full tool_name content meta short p) (
        let (e, l, q) = v.backed full short p in
        record {
          key_of = rw (← q) (v.key_of short e l);
          size = size;
          owner = λ x m. let same : x ≡ e = cc (m, l) in ap (λ (t : Entry). t.hash) same ∙ q;
          retired = λ m. absurd (ground arith);
        })
  ]
