-- ===== src/Lfkv/Valid.antt =====
-- The well-formed tables.
use alcove.Base.{
  ℕ, ◌+◌, ◌-◌, ◌^◌, ◌%◌, ◌<◌, ◌≤◌, ◌≡◌, ◌≢◌, ap, ◌∙◌, List, Option, none, some, arith, length,
  get_elem?, bytes_eq, eq_of_bytes_eq, Bool-cases, inl, inr,
}
use alcove.Hash.{bernstein_hash}
use alcove.Lfkv.Defs.{Slot, Lfkv, slot_key_eq}
use alcove.Lfkv.Slots.{occurrences, live_count}

-- The cell that a probe for the hash `h` looks at in round `d`.
abbrev pub cell_at : List (Option Slot) → ℕ → ℕ → Option (Option Slot)
cell_at cs h d = get_elem? cs ((h + d) % length cs)

-- A probe for the hash `h` comes to the cell `i` with no free cell before it.
pub record Reaches (cs : List (Option Slot)) (h i : ℕ) : Type 0 where
  pub rounds : ℕ
  pub within : rounds < length cs
  pub arrives : (h + rounds) % length cs ≡ i
  pub taken : (e : ℕ) → e < rounds → cell_at cs h e ≢ some none

-- A slot carries its key's hash and length, and a probe for its key comes to it.
pub record IsPlaced (cs : List (Option Slot)) (i : ℕ) (s : Slot) : Type 0 where
  pub hashed : s.khash ≡ bernstein_hash s.key
  pub sized : s.klen ≡ length s.key
  pub reached : Reaches cs (bernstein_hash s.key) i

pub record IsValid (kv : Lfkv) : Type 0 where
  pub bits : ℕ
  pub width : length kv.slots ≡ 2 ^ bits
  pub masked : kv.mask ≡ 2 ^ bits - 1
  pub small : length kv.slots < 2 ^ 64
  pub counted : kv.count ≡ live_count kv.slots
  pub once : (q : List ℕ) → occurrences kv.slots q ≤ 1
  pub placed : (i : ℕ) (s : Slot) → get_elem? kv.slots i ≡ some (some s) → IsPlaced kv.slots i s

pub slot_key_eq_lem :
    (s : Slot) (k : List ℕ)
    → s.khash ≡ bernstein_hash s.key
    → s.klen ≡ length s.key
    → slot_key_eq s (bernstein_hash k) k ≡ bytes_eq s.key k
unfolding slot_key_eq
slot_key_eq_lem s k e f = elim (Bool-cases (bytes_eq s.key k)) [
  | inl t ↦
      let same = eq_of_bytes_eq s.key k t in
      let hashes : s.khash ≡ bernstein_hash k = e ∙ ap bernstein_hash same in
      let sizes : s.klen ≡ length k = f ∙ ap length same in ground arith
  | inr t ↦ ground arith
]
