-- ===== src/Dict/Set.antt =====
-- `set_get_keyval_dict` with a value, against a map.
use alcove.Base.{
  ℕ, ◌+◌, ◌^◌, ◌<◌, ◌≤◌, ◌≡◌, ◌⊎◌, refl, sym, ap, ◌∙◌, List, [], ◌∷◌, ◌++◌, Option, ◌==◌, none,
  some, false, arith, length-append, if◌then◌else◌, Option-cases, inl, inr, ℤ, u64, bytes_eq,
  bytes_eq_refl, ◌>>=◌, Returns,
}
use mathlib.Core.Option
use mathlib.Core.Option.{or_else}
use alcove.Dict.{
  Keyval, Kvht, Dict, init_kvht, find, modify, slot, fresh, store, set_keyval_dict, first_table,
}
use alcove.Dict.Chain.{
  occurs, occurs-none, find-none, find-append, occurs-append, occurs-modify, length-modify,
  find-modify_self, find-modify_ne,
}
use alcove.Dict.Table.{get_or-replicate}
use alcove.Dict.Rehash.{home}
use alcove.Dict.Valid.{IsPlaced, IsRoomy, IsValid, view, content, map-if, Models, grow-IsRoomy}
use alcove.Dict.Get.{
  chain_of, chain-at, find-chain_of, Change, written_to, written-IsPlaced, view-written, stamp_of,
  nonzero_size, blank_size, blank_view,
}

module _ {ℓ} {V : Type ℓ} where
  abbrev put_val : V → Keyval V → Keyval V
  put_val val n = record n { val = val }

  -- The node of the key after a store, from the node before.
  abbrev pub node_from : List ℕ → V → Option (Keyval V) → Keyval V
  node_from key val none = fresh key val
  node_from key val (some k) = put_val val k

  abbrev pub node_after : Kvht V → List ℕ → V → Keyval V
  node_after ht key val = node_from key val (view ht key)

  abbrev pub Stored : ℕ → Kvht V → List ℕ → V → Kvht V × Keyval V → Type ℓ
  Stored e ht key val (ht', k) =
      IsPlaced e ht'
      × (ht'.used ≤ ht.used + 1)
      × (k ≡ node_after ht key val)
      × ((j : List ℕ) → view ht' j ≡ (if bytes_eq j key then some k else view ht j))

  one_self :
      (key : List ℕ) (val : V) → or_else none (find key (fresh key val ∷ [])) ≡ some (fresh key val)
  unfolding find or_else
  one_self key val = rw bytes_eq_refl refl

  one_ne :
      (key : List ℕ) (val : V) (j : List ℕ) (o : Option (Keyval V))
      → bytes_eq j key ≡ false
      → or_else o (find j (fresh key val ∷ [])) ≡ o
  unfolding find or_else
  one_ne key val j none ne = rw ne refl
  one_ne key val j (some k) ne = refl

  module _ (e : ℕ) (ht : Kvht V) (h : IsPlaced e ht) (key : List ℕ) (val : V) where
    abbrev old : List (Keyval V)
    old = chain_of e ht h key

    store_present :
        (k : Keyval V) → view ht key ≡ some k → Returns (store ht key val) (Stored e ht key val)
    unfolding store
    store_present k at =
        let found : find key old ≡ some k = find-chain_of e ht h key ∙ at in
        let c = modify (put_val val) key old in
        let count = occurs-modify key (put_val val) (λ n. refl) in
        let change : Change e ht h key c ht.used = record {
          others = λ j ne. omega (arith, count j old);
          mine = omega (arith, count key old, h.once key);
          finds = λ j ne. find-modify_ne key (put_val val) (λ n. refl) j old ne;
          counted = omega (arith, length-modify key (put_val val) (λ n. refl) old);
        } in
        let now = find-modify_self key (put_val val) (λ n. refl) old k found in
        (
          (written_to ht key c ht.used, put_val val k),
          rw (chain-at e ht h key, ◌>>=◌, found) refl,
          (
            written-IsPlaced e ht h key c ht.used change,
            omega arith,
            ap (node_from key val) (sym at),
            λ j.
                view-written e ht h key c ht.used change j
                ∙ ap (λ (z : Option (Keyval V)). if bytes_eq j key then z else view ht j) now,
          ),
        )

    store_absent :
        view ht key ≡ none → ht.used + 1 < 2 ^ 64 → Returns (store ht key val) (Stored e ht key val)
    unfolding store
    store_absent at fits =
        let missing : find key old ≡ none = find-chain_of e ht h key ∙ at in
        let c = old ++ fresh key val ∷ [] in
        let next : u64 (ht.used + 1) ≡ ht.used + 1 = omega arith in
        let self = bytes_eq_refl key in
        let count = λ (j : List ℕ). occurs-append j old (fresh key val ∷ []) in
        let change : Change e ht h key c (u64 (ht.used + 1)) = record {
          others = λ j ne. ground (arith, count j);
          mine = ground (arith, count key, occurs-none key old missing);
          finds = λ j ne. find-append j old (fresh key val ∷ []) ∙ one_ne key val j (find j old) ne;
          counted = omega (arith, next, length-append old (fresh key val ∷ []));
        } in
        let now : find key c ≡ some (fresh key val) =
          find-append key old (fresh key val ∷ []) ∙ rw missing (one_self key val) in
        (
          (written_to ht key c (u64 (ht.used + 1)), fresh key val),
          rw (chain-at e ht h key, ◌>>=◌, missing) refl,
          (
            written-IsPlaced e ht h key c (u64 (ht.used + 1)) change,
            omega (arith, next),
            ap (node_from key val) (sym at),
            λ j.
                view-written e ht h key c (u64 (ht.used + 1)) change j
                ∙ ap (λ (z : Option (Keyval V)). if bytes_eq j key then z else view ht j) now,
          ),
        )

    pub store-Stored : ht.used + 1 < 2 ^ 64 → Returns (store ht key val) (Stored e ht key val)
    store-Stored fits = elim (Option-cases (view ht key)) [
      | inl at ↦ store_absent at fits
      | inr (k, at) ↦ store_present k at
    ]

-- The map with a value stored, which keeps the timestamp of the key.
abbrev pub put {ℓ} : {V : Type ℓ} → (List ℕ → Option (V × ℤ)) → List ℕ → V → List ℕ → Option (V × ℤ)
put m key val j = if bytes_eq j key then some (val, stamp_of (m key)) else m j

module _ {ℓ} {V : Type ℓ} where
  first-IsPlaced : (ht : Kvht V) → ht ≡ init_kvht → IsPlaced 5 (first_table ht)
  first-IsPlaced ht blank = record {
    size = refl;
    small = omega arith;
    mask = refl;
    width = refl;
    used = ap (λ (z : Kvht V). z.used) blank;
    away = λ j n ne. ap (occurs j) (get_or-replicate 32 n []);
    once = λ j. rw (get_or-replicate {A = List (Keyval V)} 32 (home 5 j) []) (omega arith);
  }

  -- The table that a store goes to.
  abbrev target : Dict V → Kvht V
  target d = if d.ht0.size == 0 then first_table d.ht0 else d.ht0

  first-view : (ht : Kvht V) (j : List ℕ) → view (first_table ht) j ≡ none
  first-view ht j = ap (find j) (get_or-replicate 32 (slot 31 j) []) ∙ find-none {V = V} j [] refl

  target-IsPlaced :
      (d : Dict V)
      → IsValid d
      → (e : ℕ) × IsPlaced e (target d)
        × IsRoomy e (target d)
        × ((target d).used ≡ d.ht0.used)
        × ((j : List ℕ) → view (target d) j ≡ view d.ht0 j)
  target-IsPlaced d (inl blank, _) =
      let is : target d ≡ first_table d.ht0 = rw (blank_size d.ht0 blank) refl in
      rw is (
        5,
        first-IsPlaced d.ht0 blank,
        inl (rw blank (omega arith)),
        refl,
        λ j. first-view d.ht0 j ∙ sym (blank_view d.ht0 blank j),
      )
  target-IsPlaced d (inr (e, h, room), _) =
      let is : target d ≡ d.ht0 = rw (nonzero_size e d.ht0 h) refl in
      rw is (e, h, room, refl, λ j. refl)

  room-grows :
      (e : ℕ) (ht ht' : Kvht V)
      → IsRoomy e ht
      → ht'.used ≤ ht.used + 1
      → (ht'.used ≤ 2 ^ e) ⊎ (e ≡ 31)
  room-grows e ht ht' (inl lt) le = inl (omega arith)
  room-grows e ht ht' (inr top) le = inr top

  node_from-content :
      (key : List ℕ) (val : V) (o : Option (Keyval V)) (k : Keyval V)
      → k ≡ node_from key val o
      → content k ≡ (val, stamp_of (Option.map content o))
  node_from-content key val none k e = ap content e
  node_from-content key val (some n) k e = ap content e

  -- set_get_keyval_dict with a value, on a well-formed dictionary that reads as a map and has
  -- fewer than 2^64 - 1 entries, returns; the dictionary stays well formed, the key holds the
  -- value with the timestamp that it had (0 if it is new), no other key has changed, the count
  -- goes up by at most one, and the returned node carries the value and that timestamp.
  pub set_keyval_dict-refines :
      (d : Dict V) (m : List ℕ → Option (V × ℤ)) (key : List ℕ) (val : V)
      → Models d m
      → d.ht0.used + 1 < 2 ^ 64
      → Returns (set_keyval_dict d key val) λ (d', k).
        Models d' (put m key val)
        × (d'.ht0.used ≤ d.ht0.used + 1)
        × (content k ≡ (val, stamp_of (m key)))
  unfolding set_keyval_dict
  set_keyval_dict-refines d m key val h fits =
      let (e, placed, room, count, same) = target-IsPlaced d h.valid in
      let ((ht, k), run, (placed', le, node, views)) =
        store-Stored e (target d) placed key val (rw count fits) in
      let (r, grown, (sized, used, kept)) =
        grow-IsRoomy e ht placed' (room-grows e (target d) ht room le) in
      let holds : content k ≡ (val, stamp_of (m key)) =
        node_from-content key val (view (target d) key) k node
        ∙ ap (λ z. (val, stamp_of (Option.map content z))) (same key)
        ∙ ap (λ z. (val, stamp_of z)) (h.reads key) in
      (
        (record d { ht0 = r }, k),
        rw (run, ◌>>=◌, grown) refl,
        (
          record {
            valid = (inr sized, h.valid.1);
            reads = λ j.
                ap (Option.map content) (kept j ∙ views j)
                ∙ map-if (bytes_eq j key) (some k) (view (target d) j)
                ∙ ap
                    (λ z. if bytes_eq j key then some z else Option.map content (view (target d) j))
                    holds
                ∙ ap (λ z. if bytes_eq j key then some (val, stamp_of (m key)) else z)
                    (ap (Option.map content) (same j) ∙ h.reads j);
          },
          omega (arith, used, le, count),
          holds,
        ),
      )
