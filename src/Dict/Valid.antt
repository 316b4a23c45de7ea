-- ===== src/Dict/Valid.antt =====
-- Well-formed tables, and the map from keys to values and timestamps that a table stands for.
use alcove.Base.{
  ℕ, suc, ◌+◌, ◌-◌, ◌*◌, ◌^◌, ◌<◌, ◌≤◌, ◌≡◌, ◌≢◌, ◌⊎◌, refl, sym, ap, ◌∙◌, List, [], Option, Bool,
  true, false, ◌==◌, arith, length, length-replicate, replicate, if◌then◌else◌, leb, u32,
  Bool-cases, inl, inr, bit_and, bit_and_mask, ℤ, ◌>>=◌, Returns,
}
use mathlib.Core.Option
use mathlib.Core.Option.{or_else}
use native.Mathlib.Nat.{one-le-pow, pow-suc, pow-le-pow_right, mod_self}
use alcove.Dict.{Keyval, Kvht, Dict, init_kvht, find, slot, dict_rehash, grow}
use alcove.Dict.Chain.{occurs, find-none}
use alcove.Dict.Table.{
  get_or-replicate, all_entries, bucket, all_entries-replicate, occurs-all_entries,
  find-all_entries,
}
use alcove.Dict.Rehash.{home, relink-Moved}

filled : (e n : ℕ) → (n ≤ 2 ^ e) ⊎ (e ≡ 31) → e < 31 → n < 2 ^ suc e
filled e n (inl le) lt = omega (arith, pow-suc 2 e, one-le-pow e 2 (omega arith))
filled e n (inr at) lt = absurd (omega arith)

module _ {ℓ} {V : Type ℓ} where
  -- A table of 2 ^ e buckets with each key in its own bucket, at most once.
  pub record IsPlaced (e : ℕ) (ht : Kvht V) : Type ℓ where
    pub size : ht.size ≡ 2 ^ e
    pub small : e ≤ 31
    pub mask : ht.sizemask ≡ 2 ^ e - 1
    pub width : length ht.table ≡ 2 ^ e
    pub used : ht.used ≡ length (all_entries ht.table)
    pub away : (j : List ℕ) (n : ℕ) → home e j ≢ n → occurs j (bucket ht.table n) ≡ 0
    pub once : (j : List ℕ) → occurs j (bucket ht.table (home e j)) ≤ 1

  -- Fewer entries than buckets, but in a table of the largest size.
  abbrev pub IsRoomy : ℕ → Kvht V → Type 0
  IsRoomy e ht = (ht.used < 2 ^ e) ⊎ (e ≡ 31)

  abbrev pub IsValid : Dict V → Type ℓ
  IsValid d =
      ((d.ht0 ≡ init_kvht) ⊎ ((e : ℕ) × IsPlaced e d.ht0 × IsRoomy e d.ht0)) × (d.ht1 ≡ init_kvht)

  abbrev pub view : Kvht V → List ℕ → Option (Keyval V)
  view ht j = find j (bucket ht.table (slot ht.sizemask j))

  abbrev pub content : Keyval V → V × ℤ
  content k = (k.val, k.timestamp)

  pub map-if :
      (b : Bool) (x y : Option (Keyval V))
      → Option.map content (if b then x else y)
        ≡ (if b then Option.map content x else Option.map content y)
  map-if true x y = refl
  map-if false x y = refl

  -- The dictionary reads as the map from keys to values with their timestamps.
  pub record Models (d : Dict V) (m : List ℕ → Option (V × ℤ)) : Type ℓ where
    pub valid : IsValid d
    pub reads : (j : List ℕ) → Option.map content (view d.ht0 j) ≡ m j

  pub view-home :
      (e : ℕ) (ht : Kvht V)
      → ht.sizemask ≡ 2 ^ e - 1
      → (j : List ℕ) → view ht j ≡ find j (bucket ht.table (home e j))
  view-home e ht mask j = ap (λ (z : ℕ). find j (bucket ht.table (slot z j))) mask

  module _ (e : ℕ) (ht : Kvht V) (h : IsPlaced e ht) where
    -- A rehash into 2 ^ b buckets keeps the table well formed and every lookup.
    pub dict_rehash-IsPlaced :
        (b : ℕ)
        → b ≤ 31
        → Returns
            (dict_rehash ht (2 ^ b))
            λ r. IsPlaced b r × (r.used ≡ ht.used) × ((j : List ℕ) → view r j ≡ view ht j)
    unfolding dict_rehash or_else
    dict_rehash-IsPlaced b le =
        let positive : 0 < 2 ^ b = one-le-pow b 2 (omega arith) in
        let nonzero : (2 ^ b == 0) ≡ false = ground (arith, positive) in
        let power : bit_and (2 ^ b) (2 ^ b - 1) ≡ 0 = bit_and_mask b (2 ^ b) ∙ mod_self (2 ^ b) in
        let blank = λ (n : ℕ). get_or-replicate {A = List (Keyval V)} (2 ^ b) n [] in
        let (t, run, moved) =
          relink-Moved {V = V} b ht.table (replicate (2 ^ b) []) (length-replicate (2 ^ b) []) in
        let few = λ (j : List ℕ). occurs-all_entries j ht.table (home e j) (h.away j) in
        let same = λ (j : List ℕ). find-all_entries j ht.table (home e j) (h.away j) in
        let none_yet = λ (j : List ℕ) (n : ℕ). ap (occurs j) (blank n) in
        let ht' : Kvht V = record ht { table = t; size = 2 ^ b; sizemask = 2 ^ b - 1 } in
        (
          ht',
          rw (nonzero, power, run, ◌>>=◌) refl,
          (
            record {
              size = refl;
              small = le;
              mask = refl;
              width = moved.width ∙ length-replicate (2 ^ b) [];
              used =
                  h.used
                  ∙ sym (moved.total ∙ rw (all_entries-replicate {V = V} (2 ^ b)) (omega arith));
              away = λ j n ne. moved.away j n ne (none_yet j n);
              once = λ j. omega (arith, moved.there j, none_yet j (home b j), few j, h.once j);
            },
            refl,
            λ j.
                let least : occurs j (all_entries ht.table)
                      + occurs j (bucket (replicate (2 ^ b) []) (home b j))
                    ≤ 1 =
                  omega (arith, none_yet j (home b j), few j, h.once j) in
                ground (
                  arith,
                  moved.finds j least,
                  ap (find j) (blank (home b j)) ∙ find-none {V = V} j [] refl,
                  same j,
                  view-home b ht' refl j,
                  view-home e ht h.mask j,
                ),
          ),
        )

  abbrev Grown : Kvht V → Kvht V → Type ℓ
  Grown ht r =
      ((b : ℕ) × IsPlaced b r × IsRoomy b r)
      × (r.used ≡ ht.used)
      × ((j : List ℕ) → view r j ≡ view ht j)

  -- The rehash of a full table.
  grow_full :
      (e : ℕ) (ht : Kvht V)
      → IsPlaced e ht
      → (b : ℕ) → b ≤ 31
      → leb ht.size ht.used ≡ true
      → u32 (if leb 2147483647 ht.size then ht.size else ht.size * 2) ≡ 2 ^ b
      → (ht.used < 2 ^ b) ⊎ (b ≡ 31)
      → Returns (grow ht) (Grown ht)
  unfolding grow
  grow_full e ht h b le full new room =
      let (r, run, (placed, same, views)) = dict_rehash-IsPlaced e ht h b le in
      (
        r,
        rw (full, new) run,
        ((b, placed, elim room [ inl lt ↦ inl (rw same lt) | inr top ↦ inr top ]), same, views),
      )

  -- Growth where the last entry may have filled the table.
  pub grow-IsRoomy :
      (e : ℕ) (ht : Kvht V)
      → IsPlaced e ht
      → (ht.used ≤ 2 ^ e) ⊎ (e ≡ 31)
      → Returns (grow ht) (Grown ht)
  unfolding grow
  grow-IsRoomy e ht h room = elim (Bool-cases (leb ht.size ht.used)) [
    | inr few ↦ (ht, rw few refl, ((e, h, inl (ground (arith, h.size))), refl, λ j. refl))
    | inl full ↦ elim (Bool-cases (e == 31)) [
      | inl top ↦
          let last : e ≡ 31 = ground arith in
          let size : ht.size ≡ 2147483648 = h.size ∙ ap (λ (z : ℕ). 2 ^ z) last in
          let large : leb 2147483647 ht.size ≡ true = ground (arith, size) in
          grow_full e ht h 31 (omega arith) full (rw large (rw size refl)) (inr refl)
      | inr more ↦
          let below : e < 31 = ground (arith, h.small) in
          let low : e ≤ 30 = omega arith in
          let bound : 2 ^ e ≤ 2 ^ 30 = pow-le-pow_right (omega arith) low in
          let large : leb 2147483647 ht.size ≡ false = ground (arith, h.size, bound) in
          let double : ht.size * 2 ≡ 2 ^ suc e = omega (arith, h.size, pow-suc 2 e) in
          grow_full e ht h (suc e) below full (rw large (omega (arith, double, bound, h.size)))
            (inl (filled e ht.used room below))
    ]
  ]
