-- ===== src/Lfkv/Ops.antt =====
-- The operations of lfkv.c. A call returns its result and the table; `none` is a fault, or a loop
-- that is still running when its fuel is used up.
use alcove.Base.{
  ℕ, zero, suc, ◌+◌, List, ◌∷◌, Option, none, some, Bool, true, false, ◌&&◌, ◌||◌, not, ◌==◌,
  if◌then◌else◌, length, get_elem?, set, bit_and, u32, ℤ, pos, negsuc, eq_ℤ, ◌>>=◌,
}
use alcove.Hash.{bernstein_hash}
use alcove.Lfkv.Defs.{
  Entry, Slot, stored, removed, Lfkv, entry_expired, slot_key_eq, increment, decrement,
  slot_retire_entry, slot_replace_entry, probe,
}

-- Which of the two allocations of an insertion succeed.
pub record Alloc : Type 0 where
  pub entry_ok : Bool
  pub slot_ok : Bool

-- `slot_alloc`
abbrev pub slot_alloc : List ℕ → Entry → Slot
slot_alloc k e = record { khash = bernstein_hash k; klen = u32 (length k); key = k; entry = some e }

-- A fresh slot is published at `i`.
unfoldable pub publish : Lfkv → ℕ → List ℕ → Entry → Lfkv
unfolding increment
publish kv i k e = record kv {
  slots = set kv.slots i (some (slot_alloc k e));
  count = increment kv.count;
  events = stored k e.val ∷ kv.events;
}

-- The inner loop of an insertion: the first free slot, or a slot with the key, from `i` on.
pub data Scan : Type 0 where
  free : ℕ → Scan
  same_key : ℕ → Slot → Scan
  full : Scan

unfoldable pub scan : ℕ → Lfkv → List ℕ → ℕ → Option Scan
scan zero kv k i = some full
scan (suc left) kv k i = get_elem? kv.slots i >>= λ cell. elim cell [
  | none ↦ some (free i)
  | some s ↦ elim (slot_key_eq s (bernstein_hash k) k) [
    | true ↦ some (same_key i s)
    | false ↦ scan left kv k (bit_and (i + 1) kv.mask)
  ]
]

-- The loop that claims a free slot, from `i` on.
unfoldable pub claim : ℕ → Lfkv → List ℕ → ℕ → Option Scan
unfolding scan slot_key_eq
claim zero kv k i = none
claim (suc fuel) kv k i = get_elem? kv.slots i >>= λ cell. elim cell [
  | none ↦ some (free i)
  | some s ↦ elim (slot_key_eq s (bernstein_hash k) k) [
    | true ↦ some (same_key i s)
    | false ↦ scan (length kv.slots) kv k (bit_and (i + 1) kv.mask) >>= λ found. elim found [
      | free j ↦ claim fuel kv k j
      | same_key j t ↦ some (same_key j t)
      | full ↦ some full
    ]
  ]
]

-- The slot behind a tombstone index that is still a tombstone.
unfoldable pub reusable : Lfkv → Option ℕ → Option (Option ℕ)
reusable kv none = some none
reusable kv (some t) = get_elem? kv.slots t >>= λ cell. elim cell [
  | none ↦ some none
  | some old ↦ elim (old.entry) [ none ↦ some (some t) | some e ↦ some none ]
]

-- `lfkv_set`: 0 for stored and -1 for failed. A claim takes two rounds at most.
unfoldable pub lfkv_set : Lfkv → List ℕ → ℕ → Alloc → Option (ℤ × Lfkv)
unfolding probe slot_replace_entry publish claim reusable
lfkv_set kv k val alloc =
    if not alloc.entry_ok
    then some (negsuc 0, kv)
    else let new_entry : Entry = record { val = val; expiry_us = pos 0 } in
      probe kv k >>= λ p. elim (p.slot) [
        | some s ↦ some (pos 0, slot_replace_entry kv p.idx s new_entry)
        | none ↦
            if not alloc.slot_ok
            then some (negsuc 0, kv)
            else reusable kv p.tombstone_idx >>= λ reuse. elim reuse [
              | some t ↦ some (pos 0, publish kv t k new_entry)
              | none ↦ claim 2 kv k p.idx >>= λ found. elim found [
                | free i ↦ some (pos 0, publish kv i k new_entry)
                | same_key i s ↦ some (pos 0, slot_replace_entry kv i s new_entry)
                | full ↦ some (negsuc 0, kv)
              ]
            ]
      ]

-- How the operations on a live key begin: the slot and entry of the key, or none of them. An
-- expired entry is retired. What an operation tests first of the entry is `skips`.
unfoldable pub enter :
    (Entry → Bool) → Lfkv → List ℕ → ℤ → Option (Option (ℕ × Slot × Entry) × Lfkv)
unfolding probe slot_retire_entry entry_expired
enter skips kv k now = probe kv k >>= λ p. elim (p.slot) [
  | none ↦ some (none, kv)
  | some s ↦ elim (s.entry) [
    | none ↦ some (none, kv)
    | some ent ↦
        if skips ent
        then some (none, kv)
        else if entry_expired ent now
        then some (none, slot_retire_entry kv p.idx s ent)
        else some (some (p.idx, s, ent), kv)
  ]
]

-- The tests are `!ent->val`, none, and `ent->val != expected`.
abbrev pub is_null : Entry → Bool
is_null e = e.val == 0

abbrev pub never : Entry → Bool
never e = false

abbrev pub differs : ℕ → Entry → Bool
differs expected e = not (e.val == expected)

-- `lfkv_get` and `lfkv_peek`; 0 is NULL. (Reference counts are not modelled.)
unfoldable pub lfkv_get : Lfkv → List ℕ → ℤ → Option (ℕ × Lfkv)
lfkv_get kv k now = enter is_null kv k now >>= λ (c, kv'). elim c [
  | none ↦ some (0, kv')
  | some (i, s, ent) ↦ some (ent.val, kv')
]

unfoldable pub lfkv_del : Lfkv → List ℕ → ℤ → Option (ℕ × Lfkv)
unfolding slot_retire_entry
lfkv_del kv k now = enter never kv k now >>= λ (c, kv'). elim c [
  | none ↦ some (0, kv')
  | some (i, s, ent) ↦ some (1, slot_retire_entry kv' i s ent)
]

-- The exchange of the entry `old` of the slot `s` at `i` for `e`, with the old entry retired.
unfoldable pub exchange : Lfkv → ℕ → Slot → Entry → Option Entry → Lfkv
exchange kv i s old e = record kv {
  slots = set kv.slots i (some (record s { entry = e }));
  retired = old ∷ kv.retired;
}

unfoldable pub lfkv_set_expiry : Lfkv → List ℕ → ℤ → ℤ → Bool → Option (ℕ × Lfkv)
unfolding exchange
lfkv_set_expiry kv k ts_us now entry_ok = enter is_null kv k now >>= λ (c, kv'). elim c [
  | none ↦ some (0, kv')
  | some (i, s, ent) ↦
      if not entry_ok
      then some (0, kv')
      else some (1, exchange kv' i s ent (some (record ent { expiry_us = ts_us })))
]

-- -1 if the key is absent.
unfoldable pub lfkv_get_expiry : Lfkv → List ℕ → ℤ → Option (ℤ × Lfkv)
lfkv_get_expiry kv k now = enter is_null kv k now >>= λ (c, kv'). elim c [
  | none ↦ some (negsuc 0, kv')
  | some (i, s, ent) ↦ some (ent.expiry_us, kv')
]

unfoldable pub lfkv_set_xx : Lfkv → List ℕ → ℕ → ℤ → Bool → Option (ℕ × Lfkv)
unfolding exchange
lfkv_set_xx kv k val now entry_ok = enter never kv k now >>= λ (c, kv'). elim c [
  | none ↦ some (0, kv')
  | some (i, s, ent) ↦
      if not entry_ok
      then some (0, kv')
      else let moved = exchange kv' i s ent (some (record { val = val; expiry_us = pos 0 })) in
        some (1, record moved { events = stored s.key val ∷ moved.events })
]

unfoldable pub lfkv_touch_if_value : Lfkv → List ℕ → ℕ → ℤ → ℤ → Bool → Option (ℕ × Lfkv)
unfolding exchange
lfkv_touch_if_value kv k expected expiry_us now entry_ok =
    if expected == 0
    then some (0, kv)
    else enter (differs expected) kv k now >>= λ (c, kv'). elim c [
      | none ↦ some (0, kv')
      | some (i, s, ent) ↦
          if eq_ℤ expiry_us (pos 0) && eq_ℤ ent.expiry_us (pos 0)
          then some (1, kv')
          else if not entry_ok
          then some (0, kv')
          else some
              (1, exchange kv' i s ent (some (record { val = expected; expiry_us = expiry_us })))
    ]

-- A new value of NULL removes the key.
unfoldable pub lfkv_cas : Lfkv → List ℕ → ℕ → ℕ → ℤ → Bool → Option (ℕ × Lfkv)
unfolding exchange decrement
lfkv_cas kv k expected new_val now entry_ok = enter (differs expected) kv k now >>= λ (c, kv').
    elim c [
      | none ↦ some (0, kv')
      | some (i, s, ent) ↦
          if new_val == 0
          then (let moved = exchange kv' i s ent none in
              some (
                1,
                record moved {
                  count = decrement moved.count;
                  events = removed s.key ∷ moved.events;
                },
              ))
          else if not entry_ok
          then some (0, kv')
          else let moved =
              exchange kv' i s ent (some (record { val = new_val; expiry_us = ent.expiry_us })) in
            some (1, record moved { events = stored s.key new_val ∷ moved.events })
    ]

-- `lfkv_set_nx`: the outer loop is on fuel. The code never uses a tombstone again here.
unfoldable pub lfkv_set_nx : ℕ → Lfkv → List ℕ → ℕ → ℤ → Alloc → Option (ℕ × Lfkv)
unfolding probe entry_expired slot_retire_entry publish claim
lfkv_set_nx zero kv k val now alloc = none
lfkv_set_nx (suc fuel) kv k val now alloc = probe kv k >>= λ p. elim (p.slot) [
  | some s ↦ elim (s.entry) [
    | some ent ↦ elim (entry_expired ent now) [
      | true ↦ lfkv_set_nx fuel (slot_retire_entry kv p.idx s ent) k val now alloc
      | false ↦ some (0, kv)
    ]
    | none ↦
        if not alloc.entry_ok
        then some (0, kv)
        else some (1, slot_replace_entry kv p.idx s (record { val = val; expiry_us = pos 0 }))
  ]
  | none ↦
      if not alloc.entry_ok
      then some (0, kv)
      else if not alloc.slot_ok
      then some (0, kv)
      else claim 2 kv k p.idx >>= λ found. elim found [
        | free i ↦ some (1, publish kv i k (record { val = val; expiry_us = pos 0 }))
        | same_key i s ↦ lfkv_set_nx fuel kv k val now alloc
        | full ↦ some (0, kv)
      ]
]

-- The loop of `lfkv_evict_expired` over the slots from `i` on: the number of evictions.
unfoldable pub evict_from : ℕ → ℕ → Lfkv → ℤ → Option (ℕ × Lfkv)
evict_from zero i kv now = some (0, kv)
evict_from (suc left) i kv now = get_elem? kv.slots i >>= λ cell. elim cell [
  | none ↦ evict_from left (i + 1) kv now
  | some s ↦ elim (s.entry) [
    | none ↦ evict_from left (i + 1) kv now
    | some ent ↦ elim (entry_expired ent now) [
      | false ↦ evict_from left (i + 1) kv now
      | true ↦ evict_from left (i + 1) (slot_retire_entry kv i s ent) now >>= λ (n, kv').
          some (n + 1, kv')
    ]
  ]
]

unfoldable pub lfkv_evict_expired : Lfkv → ℤ → Option (ℕ × Lfkv)
unfolding evict_from entry_expired slot_retire_entry
lfkv_evict_expired kv now = evict_from (length kv.slots) 0 kv now

-- The loop of `lfkv_clear` over the slots from `i` on.
unfoldable pub clear_from : ℕ → ℕ → Lfkv → Option Lfkv
clear_from zero i kv = some kv
clear_from (suc left) i kv = get_elem? kv.slots i >>= λ cell. elim cell [
  | none ↦ clear_from left (i + 1) kv
  | some s ↦ elim (s.entry) [
    | none ↦ clear_from left (i + 1) kv
    | some ent ↦ clear_from left (i + 1) (slot_retire_entry kv i s ent)
  ]
]

unfoldable pub lfkv_clear : Lfkv → Option Lfkv
unfolding clear_from slot_retire_entry
lfkv_clear kv = clear_from (length kv.slots) 0 kv

-- The loop of `lfkv_foreach` over the slots from `i` on. The callback takes the state `st` of its
-- caller with the key and the entry, and returns the state and whether to go on.
unfoldable pub foreach_from {ℓ} :
    {S : Type ℓ} → ℕ → ℕ → Lfkv → ℤ → (S → List ℕ → Entry → S × Bool) → S → Option S
foreach_from zero i kv now cb st = some st
foreach_from (suc left) i kv now cb st = get_elem? kv.slots i >>= λ cell. elim cell [
  | none ↦ foreach_from left (i + 1) kv now cb st
  | some s ↦ elim (s.entry) [
    | none ↦ foreach_from left (i + 1) kv now cb st
    | some ent ↦ elim (ent.val == 0 || entry_expired ent now) [
      | true ↦ foreach_from left (i + 1) kv now cb st
      | false ↦ elim ((cb st s.key ent).1) [
        | true ↦ foreach_from left (i + 1) kv now cb (cb st s.key ent).0
        | false ↦ some (cb st s.key ent).0
      ]
    ]
  ]
]

unfoldable pub lfkv_foreach {ℓ} :
    {S : Type ℓ} → Lfkv → ℤ → (S → List ℕ → Entry → S × Bool) → S → Option S
lfkv_foreach kv now cb st = foreach_from (length kv.slots) 0 kv now cb st
