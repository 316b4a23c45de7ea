-- ===== src/Dict/Del.antt =====
-- `del_keyval_dict` and `set_keyval_dict_timestamp` against a map.
use alcove.Base.{
  ℕ, ◌+◌, ◌-◌, ◌^◌, ◌<◌, ◌≤◌, ◌≡◌, refl, sym, ap, ◌∙◌, List, [], Option, none, some, arith, length,
  if◌then◌else◌, Bool-cases, Option-cases, inl, inr, ℤ, u64, bytes_eq, eq_of_bytes_eq, ◌>>=◌,
  Returns,
}
use mathlib.Core.Option
use alcove.Dict.{
  Keyval, Kvht, Dict, find, modify, remove, del_keyval_dict, set_keyval_dict_timestamp,
}
use alcove.Dict.Chain.{
  occurs-modify, length-modify, find-modify_self, find-modify_ne, length-remove, occurs-remove-le,
  find-remove_self, find-remove_ne,
}
use alcove.Dict.Table.{length-all_entries-set, slot-lt}
use alcove.Dict.Rehash.{home}
use alcove.Dict.Valid.{IsPlaced, IsRoomy, IsValid, view, content, map-if, Models}
use alcove.Dict.Get.{
  chain_of, chain-at, find-chain_of, Change, written_to, written-IsPlaced, view-written,
  nonzero_size, blank_size, blank_view,
}

-- The map with one key taken out, and with one key given a timestamp.
abbrev pub without {ℓ} : {V : Type ℓ} → (List ℕ → Option (V × ℤ)) → List ℕ → List ℕ → Option (V × ℤ)
without m key j = if bytes_eq j key then none else m j

abbrev pub stamped {ℓ} :
    {V : Type ℓ} → (List ℕ → Option (V × ℤ)) → List ℕ → ℤ → List ℕ → Option (V × ℤ)
stamped m key t j = if bytes_eq j key then Option.map (λ (v, _). (v, t)) (m key) else m j

abbrev pub is_some {ℓ} : {A : Type ℓ} → Option A → ℕ
is_some none = 0
is_some (some a) = 1

module _ {ℓ} {V : Type ℓ} where
  module _ (e : ℕ) (ht : Kvht V) (h : IsPlaced e ht) (key : List ℕ) where
    -- A bucket is no longer than the table has entries.
    length-chain_of-le : length (chain_of e ht h key) ≤ ht.used
    length-chain_of-le = omega (
      arith,
      h.used,
      length-all_entries-set ht.table (home e key) [] (rw h.width (slot-lt e key)),
    )

    removal :
        (k : Keyval V)
        → view ht key ≡ some k
        → ht.used < 2 ^ 64
        → Change e ht h key (remove key (chain_of e ht h key)) (u64 (ht.used + 2 ^ 64 - 1))
          × (u64 (ht.used + 2 ^ 64 - 1) + 1 ≡ ht.used)
    removal k at fits =
        let old = chain_of e ht h key in
        let found : find key old ≡ some k = find-chain_of e ht h key ∙ at in
        let shorter = length-remove key old k found in
        let less : u64 (ht.used + 2 ^ 64 - 1) + 1 ≡ ht.used =
          omega (arith, shorter, length-chain_of-le) in
        (
          record {
            others = λ j ne. occurs-remove-le key j old;
            mine = omega (arith, occurs-remove-le key key old, h.once key);
            finds = λ j ne. find-remove_ne key j old ne;
            counted = omega (arith, shorter, less);
          },
          less,
        )

    stamping :
        (t : ℤ)
        → Change e ht h key
            (modify (λ n. record n { timestamp = t }) key (chain_of e ht h key))
            ht.used
    stamping t =
        let old = chain_of e ht h key in
        let f = λ (n : Keyval V). record n { timestamp = t } in
        let count = occurs-modify key f (λ n. refl) in
        record {
          others = λ j ne. omega (arith, count j old);
          mine = omega (arith, count key old, h.once key);
          finds = λ j ne. find-modify_ne key f (λ n. refl) j old ne;
          counted = omega (arith, length-modify key f (λ n. refl) old);
        }

  -- What the map holds is what the view holds.
  none_there :
      (d : Dict V) (m : List ℕ → Option (V × ℤ)) (key : List ℕ)
      → Models d m
      → view d.ht0 key ≡ none
      → m key ≡ none
  none_there d m key h at = sym (h.reads key) ∙ ap (Option.map content) at

  some_there :
      (d : Dict V) (m : List ℕ → Option (V × ℤ)) (key : List ℕ) (k : Keyval V)
      → Models d m
      → view d.ht0 key ≡ some k
      → m key ≡ some (content k)
  some_there d m key k h at = sym (h.reads key) ∙ ap (Option.map content) at

  -- A map changed at an absent key by a function that keeps absence is the same map.
  unchanged :
      (m : List ℕ → Option (V × ℤ)) (key j : List ℕ) (x : Option (V × ℤ))
      → m key ≡ none
      → x ≡ none
      → m j ≡ (if bytes_eq j key then x else m j)
  unchanged m key j x absent gone = elim (Bool-cases (bytes_eq j key)) [
    | inl is ↦ rw (is, eq_of_bytes_eq j key is) (absent ∙ sym gone)
    | inr ne ↦ rw ne refl
  ]

  del_absent :
      (d : Dict V) (key : List ℕ)
      → IsValid d
      → view d.ht0 key ≡ none
      → del_keyval_dict d key ≡ some (d, 0)
  unfolding del_keyval_dict
  del_absent d key (inl blank, _) at = rw (blank_size d.ht0 blank) refl
  del_absent d key (inr (e, h, _), _) at =
      let missing = find-chain_of e d.ht0 h key ∙ at in
      rw (nonzero_size e d.ht0 h, chain-at e d.ht0 h key, ◌>>=◌, missing) refl

  stamp_absent :
      (d : Dict V) (key : List ℕ) (t : ℤ)
      → IsValid d
      → view d.ht0 key ≡ none
      → set_keyval_dict_timestamp d key t ≡ some (d, none)
  unfolding set_keyval_dict_timestamp
  stamp_absent d key t (inl blank, _) at = rw (blank_size d.ht0 blank) refl
  stamp_absent d key t (inr (e, h, _), _) at =
      let missing = find-chain_of e d.ht0 h key ∙ at in
      rw (nonzero_size e d.ht0 h, chain-at e d.ht0 h key, ◌>>=◌, missing) refl

  still-IsRoomy : (e : ℕ) (ht ht' : Kvht V) → IsRoomy e ht → ht'.used ≤ ht.used → IsRoomy e ht'
  still-IsRoomy e ht ht' (inl lt) le = inl (omega arith)
  still-IsRoomy e ht ht' (inr top) le = inr top

  -- The dictionary with the chain of a key written, as a map.
  rewritten :
      (d : Dict V) (m : List ℕ → Option (V × ℤ)) (key : List ℕ)
      → Models d m
      → (e : ℕ) (h : IsPlaced e d.ht0) → IsRoomy e d.ht0
      → (c : List (Keyval V)) (count : ℕ) → Change e d.ht0 h key c count
      → count ≤ d.ht0.used
      → (o : Option (V × ℤ)) → Option.map content (find key c) ≡ o
      → Models
          (record d { ht0 = written_to d.ht0 key c count })
          (λ j. if bytes_eq j key then o else m j)
  rewritten d m key model e h room c count change le o now = record {
    valid = (
      inr (
        e,
        written-IsPlaced e d.ht0 h key c count change,
        still-IsRoomy e d.ht0 (written_to d.ht0 key c count) room le,
      ),
      model.valid.1,
    );
    reads = λ j.
        ap (Option.map content) (view-written e d.ht0 h key c count change j)
        ∙ map-if (bytes_eq j key) (find key c) (view d.ht0 j)
        ∙ ap (λ z. if bytes_eq j key then z else Option.map content (view d.ht0 j)) now
        ∙ ap (λ z. if bytes_eq j key then o else z) (model.reads j);
  }

  blank_absent :
      (d : Dict V) (key : List ℕ) (k : Keyval V)
      → IsValid d
      → view d.ht0 key ≡ some k
      → (e : ℕ) × IsPlaced e d.ht0 × IsRoomy e d.ht0
  blank_absent d key k (inl blank, _) at = let gone = blank_view d.ht0 blank key in absurd (cc)
  blank_absent d key k (inr sized, _) at = sized

  -- del_keyval_dict, on a well-formed dictionary that reads as a map and has fewer than 2^64
  -- entries, returns 1 where the key is present and 0 where it is absent; the key is absent
  -- afterwards, no other key has changed, the dictionary is well formed, and its count has gone
  -- down by what is returned.
  pub del_keyval_dict-refines :
      (d : Dict V) (m : List ℕ → Option (V × ℤ)) (key : List ℕ)
      → Models d m
      → d.ht0.used < 2 ^ 64
      → Returns (del_keyval_dict d key) λ (d', r).
        Models d' (without m key) × (r ≡ is_some (m key)) × (d'.ht0.used + r ≡ d.ht0.used)
  unfolding del_keyval_dict
  del_keyval_dict-refines d m key h fits = elim (Option-cases (view d.ht0 key)) [
    | inl at ↦
        let absent = none_there d m key h at in
        (
          (d, 0),
          del_absent d key h.valid at,
          (
            record { valid = h.valid; reads = λ j. h.reads j ∙ unchanged m key j none absent refl },
            sym (ap is_some absent),
            omega arith,
          ),
        )
    | inr (k, at) ↦
        let (e, placed, room) = blank_absent d key k h.valid at in
        let found = find-chain_of e d.ht0 placed key ∙ at in
        let c = remove key (chain_of e d.ht0 placed key) in
        let (change, less) = removal e d.ht0 placed key k at fits in
        let count = u64 (d.ht0.used + 2 ^ 64 - 1) in
        let now = find-remove_self key (chain_of e d.ht0 placed key) (placed.once key) in
        (
          (record d { ht0 = written_to d.ht0 key c count }, 1),
          rw (nonzero_size e d.ht0 placed, chain-at e d.ht0 placed key, ◌>>=◌, found) refl,
          (
            rewritten d m key h e placed room c count change (omega (arith, less)) none
                (ap (Option.map content) now),
            sym (ap is_some (some_there d m key k h at)),
            less,
          ),
        )
  ]

  -- set_keyval_dict_timestamp, on a well-formed dictionary that reads as a map, returns the value
  -- of the key and changes its timestamp and nothing else; where the key is absent it returns
  -- NULL and changes nothing.
  pub set_timestamp-refines :
      (d : Dict V) (m : List ℕ → Option (V × ℤ)) (key : List ℕ) (t : ℤ)
      → Models d m
      → Returns (set_keyval_dict_timestamp d key t) λ (d', r).
        Models d' (stamped m key t)
        × (r ≡ Option.map (λ (v, _). v) (m key))
        × (d'.ht0.used ≡ d.ht0.used)
  unfolding set_keyval_dict_timestamp
  set_timestamp-refines d m key t h = elim (Option-cases (view d.ht0 key)) [
    | inl at ↦
        let absent = none_there d m key h at in
        (
          (d, none),
          stamp_absent d key t h.valid at,
          (
            record {
              valid = h.valid;
              reads = λ j.
                  h.reads j
                  ∙ unchanged m key j (Option.map (λ (v, _). (v, t)) (m key)) absent
                      (ap (Option.map (λ (v, _). (v, t))) absent);
            },
            sym (ap (Option.map (λ (v, _). v)) absent),
            refl,
          ),
        )
    | inr (k, at) ↦
        let (e, placed, room) = blank_absent d key k h.valid at in
        let found = find-chain_of e d.ht0 placed key ∙ at in
        let f = λ (n : Keyval V). record n { timestamp = t } in
        let c = modify f key (chain_of e d.ht0 placed key) in
        let holds = some_there d m key k h at in
        let now = find-modify_self key f (λ n. refl) (chain_of e d.ht0 placed key) k found in
        (
          (record d { ht0 = written_to d.ht0 key c d.ht0.used }, some k.val),
          rw (nonzero_size e d.ht0 placed, chain-at e d.ht0 placed key, ◌>>=◌, found) refl,
          (
            rewritten d m key h e placed room c d.ht0.used (stamping e d.ht0 placed key t)
                (omega arith) (Option.map (λ (v, _). (v, t)) (m key))
                (ap (Option.map content) now ∙ sym (ap (Option.map (λ (v, _). (v, t))) holds)),
            sym (ap (Option.map (λ (v, _). v)) holds),
            refl,
          ),
        )
  ]
