-- ===== src/Dict.antt =====
-- dict.h: the chained hash table. A chain is the list of its nodes, and a key the list of its bytes
-- before the terminator, whose `bernstein_hash_z` is `bernstein_hash`. `memalloc` does not return
-- on failure. Reference counts are left out.
pub mod Chain
pub mod Table
pub mod Rehash
pub mod Valid
pub mod Get
pub mod Set
pub mod Del
pub mod Copy
mod Tests
use alcove.Base.{
  ℕ, ◌+◌, ◌-◌, ◌*◌, ◌%◌, ◌^◌, List, [], ◌∷◌, ◌++◌, Option, none, some, Bool, not, ◌||◌, ltb, leb,
  ◌==◌, if◌then◌else◌, get_elem?, set, replicate, bit_and, u32, u64, ◌>>=◌, ℤ, pos, bytes_eq,
}
use alcove.Hash.{bernstein_hash}

-- `keyval_t`
pub record Keyval {ℓ} (V : Type ℓ) : Type ℓ where
  pub timestamp : ℤ
  pub key : List ℕ
  pub val : V

-- `kvht_t`
pub record Kvht {ℓ} (V : Type ℓ) : Type ℓ where
  pub table : List (List (Keyval V))
  pub size : ℕ
  pub sizemask : ℕ
  pub used : ℕ

-- `dict_t`
pub record Dict {ℓ} (V : Type ℓ) : Type ℓ where
  pub ht0 : Kvht V
  pub ht1 : Kvht V

-- `DICT_KVHT_INITIAL_SIZE`
abbrev pub initial_size : ℕ
initial_size = 32

-- `table[h & sizemask]`
abbrev pub slot : ℕ → List ℕ → ℕ
slot mask key = bit_and (bernstein_hash key) mask

module _ {ℓ} {V : Type ℓ} where
  -- `init_kvht`
  abbrev pub init_kvht : Kvht V
  init_kvht = record { table = []; size = 0; sizemask = 0; used = 0 }

  -- `create_dict`
  unfoldable pub create_dict : Dict V
  create_dict = record { ht0 = init_kvht; ht1 = init_kvht }

  -- The walk down a chain: the first node with the key.
  unfoldable pub find : List ℕ → List (Keyval V) → Option (Keyval V)
  find key [] = none
  find key (k ∷ ks) = if bytes_eq key k.key then some k else find key ks

  -- A write to that node.
  unfoldable pub modify : (Keyval V → Keyval V) → List ℕ → List (Keyval V) → List (Keyval V)
  modify f key [] = []
  modify f key (k ∷ ks) = if bytes_eq key k.key then f k ∷ ks else k ∷ modify f key ks

  -- The node taken out.
  unfoldable pub remove : List ℕ → List (Keyval V) → List (Keyval V)
  remove key [] = []
  remove key (k ∷ ks) = if bytes_eq key k.key then ks else k ∷ remove key ks

  -- The inner loop of `dict_rehash`.
  unfoldable pub relink_chain :
      ℕ → List (Keyval V) → List (List (Keyval V)) → Option (List (List (Keyval V)))
  relink_chain new_mask [] new_table = some new_table
  relink_chain new_mask (k ∷ ks) new_table = get_elem? new_table (slot new_mask k.key) >>= λ chain.
      relink_chain new_mask ks (set new_table (slot new_mask k.key) (k ∷ chain))

  -- The outer loop.
  unfoldable pub relink :
      ℕ → List (List (Keyval V)) → List (List (Keyval V)) → Option (List (List (Keyval V)))
  relink new_mask [] new_table = some new_table
  relink new_mask (c ∷ cs) new_table = relink_chain new_mask c new_table >>= relink new_mask cs

  -- `dict_rehash`
  unfoldable pub dict_rehash : Kvht V → ℕ → Option (Kvht V)
  dict_rehash ht new_size =
      if new_size == 0 || not (bit_and new_size (new_size - 1) == 0)
      then some ht
      else relink (new_size - 1) ht.table (replicate new_size []) >>= λ new_table.
          some (record ht { table = new_table; size = new_size; sizemask = new_size - 1 })

  abbrev pub fresh : List ℕ → V → Keyval V
  fresh key val = record { timestamp = pos 0; key = key; val = val }

  -- The store of `set_get_keyval_dict` into a table that has buckets.
  unfoldable pub store : Kvht V → List ℕ → V → Option (Kvht V × Keyval V)
  store ht key val =
      let i = slot ht.sizemask key in
      get_elem? ht.table i >>= λ chain. elim (find key chain) [
        | some k ↦ some (
          record ht { table = set ht.table i (modify (λ n. record n { val = val }) key chain) },
          record k { val = val },
        )
        | none ↦ some (
          record ht {
            table = set ht.table i (chain ++ fresh key val ∷ []);
            used = u64 (ht.used + 1);
          },
          fresh key val,
        )
      ]

  -- The first allocation of the buckets, all of them empty.
  abbrev pub first_table : Kvht V → Kvht V
  first_table ht = record ht {
    table = replicate initial_size [];
    size = initial_size;
    sizemask = initial_size - 1;
  }

  -- The growth behind a store; a size is an `unsigned int` here, and UINT_MAX / 2 is 2147483647.
  unfoldable pub grow : Kvht V → Option (Kvht V)
  grow ht =
      if leb ht.size ht.used
      then dict_rehash ht (u32 (if leb 2147483647 ht.size then ht.size else ht.size * 2))
      else some ht

  -- `set_get_keyval_dict` with a value.
  unfoldable pub set_keyval_dict : Dict V → List ℕ → V → Option (Dict V × Keyval V)
  set_keyval_dict d key val =
      let ht = if d.ht0.size == 0 then first_table d.ht0 else d.ht0 in
      store ht key val >>= λ (stored, k).
      grow stored >>= λ grown. some (record d { ht0 = grown }, k)

  -- `set_get_keyval_dict` with NULL for the value.
  unfoldable pub get_keyval_dict : Dict V → List ℕ → Option (Option (Keyval V))
  get_keyval_dict d key =
      if d.ht0.size == 0
      then some none
      else get_elem? d.ht0.table (slot d.ht0.sizemask key) >>= λ chain. some (find key chain)

  -- `set_keyval_dict_timestamp`
  unfoldable pub set_keyval_dict_timestamp : Dict V → List ℕ → ℤ → Option (Dict V × Option V)
  set_keyval_dict_timestamp d key timestamp =
      if d.ht0.size == 0
      then some (d, none)
      else (let i = slot d.ht0.sizemask key in
          get_elem? d.ht0.table i >>= λ chain. elim (find key chain) [
            | none ↦ some (d, none)
            | some k ↦
                let chain' = modify (λ n. record n { timestamp = timestamp }) key chain in
                some
                  (record d { ht0 = record d.ht0 { table = set d.ht0.table i chain' } }, some k.val)
          ])

  -- `get_keyval_dict_timestamp`
  unfoldable pub get_keyval_dict_timestamp : Dict V → List ℕ → Option ℤ
  get_keyval_dict_timestamp d key =
      get_keyval_dict d key >>= λ r. elim r [ some k ↦ some k.timestamp | none ↦ some (pos 0) ]

  -- `del_keyval_dict`; the count is an `unsigned long`.
  unfoldable pub del_keyval_dict : Dict V → List ℕ → Option (Dict V × ℕ)
  del_keyval_dict d key =
      if d.ht0.size == 0
      then some (d, 0)
      else (let i = slot d.ht0.sizemask key in
          get_elem? d.ht0.table i >>= λ chain. elim (find key chain) [
            | none ↦ some (d, 0)
            | some k ↦
                let ht = record d.ht0 {
                  table = set d.ht0.table i (remove key chain);
                  used = u64 (d.ht0.used + 2 ^ 64 - 1);
                } in
                some (record d { ht0 = ht }, 1)
          ])

  -- The inner loop of `dict_copy`.
  unfoldable pub copy_chain : List (Keyval V) → Dict V → Option (Dict V)
  copy_chain [] dst = some dst
  copy_chain (kv ∷ kvs) dst =
      set_keyval_dict dst kv.key kv.val >>= λ (dst', nk). copy_chain kvs dst'

  -- The loop over the buckets of one table.
  unfoldable pub copy_table : List (List (Keyval V)) → Dict V → Option (Dict V)
  copy_table [] dst = some dst
  copy_table (c ∷ cs) dst = copy_chain c dst >>= copy_table cs

  -- `dict_copy`
  unfoldable pub dict_copy : Dict V → Option (Dict V)
  dict_copy src = copy_table src.ht0.table create_dict >>= copy_table src.ht1.table
