-- ===== src/Dict/Get.antt =====
-- Reading a table, and writing one chain of it.
use alcove.Base.{
  ℕ, ◌+◌, ◌<◌, ◌≤◌, ◌≡◌, ◌≢◌, ℕ_discrete, refl, sym, ap, ◌∙◌, List, [], Option, none, some, true,
  false, ◌==◌, arith, length, length-set, get_elem?, set, if◌then◌else◌, Bool-cases, inl, inr, ℤ,
  pos, bytes_eq, eq_of_bytes_eq, ◌>>=◌, Returns,
}
use mathlib.Core.Option
use mathlib.Core.Path.{subst}
use native.Mathlib.Nat.{one-le-pow}
use alcove.Dict.{
  Keyval, Kvht, Dict, init_kvht, find, slot, get_keyval_dict, get_keyval_dict_timestamp,
}
use alcove.Dict.Chain.{occurs, find-none, occurs-none, find-key, find-place, occurs-place}
use alcove.Dict.Table.{
  slot-lt, get_elem?-get_or, get_or-set, get_or-at, bucket, length-all_entries-set,
}
use alcove.Dict.Rehash.{home, same_home}
use alcove.Dict.Valid.{IsPlaced, IsValid, view, view-home, content, Models}

-- A table with one chain written.
abbrev pub written_to {ℓ} : {V : Type ℓ} → Kvht V → List ℕ → List (Keyval V) → ℕ → Kvht V
written_to ht key c count = record ht {
  table = set ht.table (slot ht.sizemask key) c;
  used = count;
}

module _ {ℓ} {V : Type ℓ} (e : ℕ) (ht : Kvht V) (h : IsPlaced e ht) (key : List ℕ) where
  -- The chain that the code loads for the key.
  abbrev pub chain_of : List (Keyval V)
  chain_of = bucket ht.table (home e key)

  inside : home e key < length ht.table
  inside = rw h.width (slot-lt e key)

  pub chain-at : get_elem? ht.table (slot ht.sizemask key) ≡ some chain_of
  chain-at =
      ap (λ (z : ℕ). get_elem? ht.table (slot z key)) h.mask
      ∙ get_elem?-get_or ht.table (home e key) [] inside

  pub find-chain_of : find key chain_of ≡ view ht key
  find-chain_of = sym (view-home e ht h.mask key)

  -- A chain that differs from the loaded one in the entry of the key only, with the new count.
  pub record Change (c : List (Keyval V)) (count : ℕ) : Type ℓ where
    pub others : (j : List ℕ) → bytes_eq j key ≡ false → occurs j c ≤ occurs j chain_of
    pub mine : occurs key c ≤ 1
    pub finds : (j : List ℕ) → bytes_eq j key ≡ false → find j c ≡ find j chain_of
    pub counted : count + length chain_of ≡ ht.used + length c

  module _ (c : List (Keyval V)) (count : ℕ) (change : Change c count) where
    abbrev written : Kvht V
    written = written_to ht key c count

    at : (n : ℕ) → bucket written.table n ≡ (if home e key == n then c else bucket ht.table n)
    at n =
        ap (λ (z : ℕ). bucket (set ht.table (slot z key) c) n) h.mask
        ∙ get_or-set ht.table (home e key) n c [] inside

    written-once : (j : List ℕ) → occurs j (bucket written.table (home e j)) ≤ 1
    written-once j = elim (Bool-cases (bytes_eq j key)) [
      | inl is ↦ rw (eq_of_bytes_eq j key is) (ground (arith, at (home e key), change.mine))
      | inr ne ↦ ground (arith, at (home e j), change.others j ne, h.once j)
    ]

    pub written-IsPlaced : IsPlaced e (written_to ht key c count)
    written-IsPlaced = record {
      size = h.size;
      small = h.small;
      mask = h.mask;
      width = length-set ht.table (slot ht.sizemask key) c ∙ h.width;
      used =
          let sum = length-all_entries-set ht.table (home e key) c inside in
          let same : set ht.table (slot ht.sizemask key) c ≡ set ht.table (home e key) c =
            ap (λ (z : ℕ). set ht.table (slot z key) c) h.mask in
          rw same (omega (arith, sum, change.counted, h.used));
      away = λ j n ne. ground (arith, at n, same_home e j key, change.others j, h.away j n ne);
      once = written-once;
    }

    pub view-written :
        (j : List ℕ)
        → view (written_to ht key c count) j ≡ (if bytes_eq j key then find key c else view ht j)
    view-written j = elim (Bool-cases (bytes_eq j key)) [
      | inl is ↦
          rw (is, eq_of_bytes_eq j key is)
            (ground (arith, view-home e written h.mask key, at (home e key)))
      | inr ne ↦ rw ne (
          ground (
            arith,
            view-home e written h.mask j,
            view-home e ht h.mask j,
            at (home e j),
            change.finds j ne,
          ))
    ]

abbrev pub stamp_of {ℓ} : {V : Type ℓ} → Option (V × ℤ) → ℤ
stamp_of none = pos 0
stamp_of (some (v, t)) = t

module _ {ℓ} {V : Type ℓ} where
  pub nonzero_size : (e : ℕ) (ht : Kvht V) → IsPlaced e ht → (ht.size == 0) ≡ false
  nonzero_size e ht h = ground (arith, h.size, one-le-pow e 2 (omega arith))

  pub blank_size : (ht : Kvht V) → ht ≡ init_kvht → (ht.size == 0) ≡ true
  blank_size ht h = rw h refl

  pub blank_view : (ht : Kvht V) → ht ≡ init_kvht → (j : List ℕ) → view ht j ≡ none
  blank_view ht h j = rw h (find-none {V = V} j [] refl)

  get-view : (d : Dict V) (key : List ℕ) → IsValid d → get_keyval_dict d key ≡ some (view d.ht0 key)
  unfolding get_keyval_dict
  get-view d key (inl blank, _) =
      rw (blank_size d.ht0 blank) (ap some (sym (blank_view d.ht0 blank key)))
  get-view d key (inr (e, h, _), _) =
      rw (nonzero_size e d.ht0 h, chain-at e d.ht0 h key, ◌>>=◌)
        (ap some (find-chain_of e d.ht0 h key))

  -- A node that stands somewhere in the buckets.
  pub record IsStored (d : Dict V) (k : Keyval V) : Type ℓ where
    pub bucket_index : ℕ
    pub chain : List (Keyval V)
    pub place : ℕ
    pub chain_at : get_elem? d.ht0.table bucket_index ≡ some chain
    pub node_at : get_elem? chain place ≡ some k

  -- What a lookup says of the nodes, with no regard to hashes.
  abbrev pub Answers : Dict V → List ℕ → Option (Keyval V) → Type ℓ
  Answers d key none = (k : Keyval V) → IsStored d k → k.key ≢ key
  Answers d key (some k) = IsStored d k × (k.key ≡ key)

  nothing_stored : (d : Dict V) (key : List ℕ) → d.ht0 ≡ init_kvht → Answers d key none
  nothing_stored d key blank = λ k st e.
      let empty : get_elem? d.ht0.table st.bucket_index ≡ none =
        ap (λ (h : Kvht V). get_elem? h.table st.bucket_index) blank in
      cc (empty, st.chain_at)

  module _ (d : Dict V) (key : List ℕ) (e : ℕ) (h : IsPlaced e d.ht0) where
    absent_everywhere :
        find key (chain_of e d.ht0 h key) ≡ none → (n : ℕ) → occurs key (bucket d.ht0.table n) ≡ 0
    absent_everywhere gone n = elim (ℕ_discrete (home e key) n) [
      | yes same ↦
          ap (λ (z : ℕ). occurs key (bucket d.ht0.table z)) (sym same)
          ∙ occurs-none key (chain_of e d.ht0 h key) gone
      | no ne ↦ h.away key n ne
    ]

    chain-Answers :
        (r : Option (Keyval V)) → find key (chain_of e d.ht0 h key) ≡ r → Answers d key r
    chain-Answers none gone = λ k st mine.
        let here : bucket d.ht0.table st.bucket_index ≡ st.chain =
          get_or-at d.ht0.table st.bucket_index [] st.chain st.chain_at in
        let counted = occurs-place key st.chain st.place k st.node_at mine in
        let zero_there = absent_everywhere gone st.bucket_index in
        let same : occurs key st.chain ≡ 0 = ap (occurs key) (sym here) ∙ zero_there in
        absurd (omega (arith, counted, same))
    chain-Answers (some k) found =
        let (i, at) = find-place key (chain_of e d.ht0 h key) k found in
        (
          record {
            bucket_index = slot d.ht0.sizemask key;
            chain = chain_of e d.ht0 h key;
            place = i;
            chain_at = chain-at e d.ht0 h key;
            node_at = at;
          },
          find-key key (chain_of e d.ht0 h key) k found,
        )

  view-Answers : (d : Dict V) (key : List ℕ) → IsValid d → Answers d key (view d.ht0 key)
  view-Answers d key (inl blank, _) =
      subst (Answers d key) (sym (blank_view d.ht0 blank key)) (nothing_stored d key blank)
  view-Answers d key (inr (e, h, _), _) =
      chain-Answers d key e h (view d.ht0 key) (find-chain_of e d.ht0 h key)

  -- set_get_keyval_dict with NULL for the value, on a well-formed dictionary that reads as a map,
  -- returns a node that stands in a bucket, has the key and carries what the map holds there, or
  -- NULL where the map holds nothing, and then no node of any bucket has the key.
  pub get_keyval_dict-refines :
      (d : Dict V) (m : List ℕ → Option (V × ℤ)) (key : List ℕ)
      → Models d m
      → Returns (get_keyval_dict d key) λ r. (Option.map content r ≡ m key) × Answers d key r
  get_keyval_dict-refines d m key h =
      (view d.ht0 key, get-view d key h.valid, (h.reads key, view-Answers d key h.valid))

  stamp-map :
      (r : Option (Keyval V))
      → (elim r [ some k ↦ some k.timestamp | none ↦ some (pos 0) ])
        ≡ some (stamp_of (Option.map content r))
  stamp-map none = refl
  stamp-map (some k) = refl

  -- get_keyval_dict_timestamp, on a well-formed dictionary that reads as a map, returns the
  -- timestamp of the key, and 0 where the key is absent.
  pub timestamp-refines :
      (d : Dict V) (m : List ℕ → Option (V × ℤ)) (key : List ℕ)
      → Models d m
      → get_keyval_dict_timestamp d key ≡ some (stamp_of (m key))
  unfolding get_keyval_dict_timestamp
  timestamp-refines d m key h =
      rw (get-view d key h.valid, ◌>>=◌)
        (stamp-map (view d.ht0 key) ∙ ap (λ z. some (stamp_of z)) (h.reads key))
