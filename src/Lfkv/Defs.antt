-- ===== src/Lfkv/Defs.antt =====
-- The slots, the probe and the operations of lfkv.c, each in the order of its code.
use alcove.Base.{
  ℕ, zero, suc, ◌+◌, ◌-◌, ◌^◌, List, [], ◌∷◌, Option, none, some, Bool, true, false, ◌&&◌, not,
  ◌==◌, if◌then◌else◌, length, get_elem?, set, replicate, bit_and, u64, ℤ, pos, ltb_ℤ, eq_ℤ, ◌>>=◌,
  bytes_eq,
}
use alcove.Hash.{bernstein_hash}

-- `lfentry_t`: a value is an address, and 0 is NULL.
pub record Entry : Type 0 where
  pub val : ℕ
  pub expiry_us : ℤ

-- `lfslot_t`: with no entry the slot is a tombstone.
pub record Slot : Type 0 where
  pub khash : ℕ
  pub klen : ℕ
  pub key : List ℕ
  pub entry : Option Entry

-- What `LFKV_EMIT` hands to the watchers: 1 with the value, or 2.
pub data Event : Type 0 where
  stored : List ℕ → ℕ → Event
  removed : List ℕ → Event

-- `lfkv_t`, with the entries handed to `epoch_retire` and the events emitted, the last one first.
pub record Lfkv : Type 0 where
  pub slots : List (Option Slot)
  pub mask : ℕ
  pub count : ℕ
  pub retired : List Entry
  pub events : List Event

-- `lfkv_new`: NULL unless the number of slots is a power of two.
unfoldable pub new : ℕ → Option Lfkv
new nslots =
    if nslots == 0
    then none
    else if not (bit_and nslots (nslots - 1) == 0)
    then none
    else some (record {
      slots = replicate nslots none;
      mask = nslots - 1;
      count = 0;
      retired = [];
      events = [];
    })

unfoldable pub entry_expired : Entry → ℤ → Bool
entry_expired e now = not (eq_ℤ e.expiry_us (pos 0)) && not (ltb_ℤ now e.expiry_us)

unfoldable pub slot_key_eq : Slot → ℕ → List ℕ → Bool
slot_key_eq s h k = s.khash == h && s.klen == length k && bytes_eq s.key k

-- `atomic_fetch_add` and `atomic_fetch_sub` of 1 on the 64-bit counter.
unfoldable pub increment : ℕ → ℕ
increment c = u64 (c + 1)

unfoldable pub decrement : ℕ → ℕ
decrement c = u64 (c + 2 ^ 64 - 1)

-- `slot_retire_entry` on the slot `s` at `i`, whose entry is `e`.
unfoldable pub slot_retire_entry : Lfkv → ℕ → Slot → Entry → Lfkv
unfolding decrement
slot_retire_entry kv i s e = record kv {
  slots = set kv.slots i (some (record s { entry = none }));
  count = decrement kv.count;
  retired = e ∷ kv.retired;
  events = removed s.key ∷ kv.events;
}

-- `slot_replace_entry` on the slot `s` at `i`.
unfoldable pub slot_replace_entry : Lfkv → ℕ → Slot → Entry → Lfkv
unfolding increment
slot_replace_entry kv i s e =
    let written = record kv {
      slots = set kv.slots i (some (record s { entry = some e }));
      events = stored s.key e.val ∷ kv.events;
    } in
    elim (s.entry) [
      | none ↦ record written { count = increment kv.count }
      | some old ↦ record written { retired = old ∷ kv.retired }
    ]

-- What `probe` leaves behind: the slot, if the key is live, with `*idx` and `*tombstone_idx`.
pub record Probe : Type 0 where
  pub slot : Option Slot
  pub idx : ℕ
  pub tombstone_idx : Option ℕ

-- The first tombstone seen stays.
unfoldable pub keep_first : Option ℕ → ℕ → Option ℕ
keep_first none i = some i
keep_first (some t) i = some t

-- The loop of `probe` at slot `i`, with `left` rounds to go.
unfoldable pub probe_loop : ℕ → Lfkv → ℕ → List ℕ → ℕ → Option ℕ → Option Probe
probe_loop zero kv h k i tomb =
    some (record { slot = none; idx = bit_and h kv.mask; tombstone_idx = tomb })
probe_loop (suc left) kv h k i tomb = get_elem? kv.slots i >>= λ cell. elim cell [
  | none ↦ some (record { slot = none; idx = i; tombstone_idx = tomb })
  | some s ↦ elim (s.entry) [
    | none ↦ probe_loop left kv h k (bit_and (i + 1) kv.mask) (keep_first tomb i)
    | some ent ↦ elim (slot_key_eq s h k) [
      | true ↦ some (record { slot = some s; idx = i; tombstone_idx = tomb })
      | false ↦ probe_loop left kv h k (bit_and (i + 1) kv.mask) tomb
    ]
  ]
]

-- `probe`, with the hash that `LFKV_PROBE` computes.
unfoldable pub probe : Lfkv → List ℕ → Option Probe
unfolding probe_loop slot_key_eq keep_first
probe kv k =
    let h = bernstein_hash k in probe_loop (length kv.slots) kv h k (bit_and h kv.mask) none
