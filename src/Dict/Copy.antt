-- ===== src/Dict/Copy.antt =====
-- `create_dict` and `dict_copy` against maps.
use alcove.Base.{
  ℕ, ◌+◌, ◌^◌, ◌<◌, ◌≤◌, ◌≡◌, refl, sym, ap, ◌∙◌, List, [], ◌∷◌, ◌++◌, Option, none, some, arith,
  length, Bool-cases, Option-cases, inl, inr, ℤ, pos, bytes_eq, eq_of_bytes_eq, ◌>>=◌, Returns,
}
use mathlib.Core.Option
use mathlib.Core.Path.{fun_ext}
use alcove.Dict.{
  Keyval, Kvht, Dict, init_kvht, find, create_dict, set_keyval_dict, copy_chain, copy_table,
  dict_copy,
}
use alcove.Dict.Chain.{occurs, find-none}
use alcove.Dict.Table.{all_entries, occurs-all_entries, find-all_entries}
use alcove.Dict.Rehash.{home}
use alcove.Dict.Valid.{IsValid, view, view-home, content, Models}
use alcove.Dict.Get.{stamp_of, blank_view}
use alcove.Dict.Set.{put, set_keyval_dict-refines}

module _ {ℓ} {V : Type ℓ} where
  -- create_dict makes a well-formed dictionary in which every key is absent.
  pub create_dict-Models : Models {V = V} create_dict (λ j. none)
  unfolding create_dict
  create_dict-Models = record {
    valid = (inl refl, refl);
    reads = λ j. ap (Option.map content) (blank_view init_kvht refl j);
  }

  abbrev put_all : List (Keyval V) → (List ℕ → Option (V × ℤ)) → List ℕ → Option (V × ℤ)
  put_all [] m = m
  put_all (k ∷ ks) m = put_all ks (put m k.key k.val)

  copy_chain-Models :
      (ks : List (Keyval V)) (d : Dict V) (m : List ℕ → Option (V × ℤ))
      → Models d m
      → d.ht0.used + length ks < 2 ^ 64
      → Returns (copy_chain ks d) λ r. Models r (put_all ks m)
  unfolding copy_chain
  copy_chain-Models [] d m h fits = (d, refl, h)
  copy_chain-Models (k ∷ ks) d m h fits =
      let ((d', n), run, (model, le, _)) =
        set_keyval_dict-refines d m k.key k.val h (omega arith) in
      let (r, more, done) =
        copy_chain-Models ks d' (put m k.key k.val) model (omega (arith, le, fits)) in
      (r, rw (run, ◌>>=◌) more, done)

  -- What the stores of distinct keys leave at one key.
  after : Option (Keyval V) → Option (V × ℤ) → Option (V × ℤ)
  after none o = o
  after (some k) o = some (k.val, stamp_of o)

  put_all-once :
      (ks : List (Keyval V)) (m : List ℕ → Option (V × ℤ)) (j : List ℕ)
      → occurs j ks ≤ 1
      → put_all ks m j ≡ after (find j ks) (m j)
  unfolding find after
  put_all-once [] m j h = refl
  put_all-once (k ∷ ks) m j h = elim (Bool-cases (bytes_eq j k.key)) [
    | inl is ↦
        let rest : find j ks ≡ none = find-none j ks (ground arith) in
        let here : put m k.key k.val j ≡ some (k.val, stamp_of (m j)) =
          rw (is, ← eq_of_bytes_eq j k.key is) refl in
        put_all-once ks (put m k.key k.val) j (omega arith)
        ∙ ap (λ z. after z (put m k.key k.val j)) rest
        ∙ here
        ∙ rw is refl
    | inr ne ↦
        let there : put m k.key k.val j ≡ m j = rw ne refl in
        put_all-once ks (put m k.key k.val) j (ground arith)
        ∙ ap (after (find j ks)) there
        ∙ rw ne refl
  ]

  copy_chain-append :
      (a b : List (Keyval V)) (d : Dict V)
      → copy_chain (a ++ b) d ≡ (copy_chain a d >>= copy_chain b)
  unfolding copy_chain
  copy_chain-append [] b d = refl
  copy_chain-append (k ∷ a) b d = elim (Option-cases (set_keyval_dict d k.key k.val)) [
    | inl out ↦ rw (out, ◌>>=◌) refl
    | inr ((d', n), run) ↦ rw (run, ◌>>=◌) (copy_chain-append a b d')
  ]

  copy_table-eq-copy_chain :
      (cs : List (List (Keyval V))) (d : Dict V) → copy_table cs d ≡ copy_chain (all_entries cs) d
  unfolding copy_table copy_chain
  copy_table-eq-copy_chain [] d = refl
  copy_table-eq-copy_chain (c ∷ cs) d =
      ap (λ (z : Dict V → Option (Dict V)). copy_chain c d >>= z)
        (fun_ext (copy_table-eq-copy_chain cs))
      ∙ sym (copy_chain-append c (all_entries cs) d)

  -- The entries of a well-formed dictionary, as one list.
  entries_of :
      (d : Dict V)
      → IsValid d
      → (length (all_entries d.ht0.table) ≡ d.ht0.used)
        × ((j : List ℕ) → occurs j (all_entries d.ht0.table) ≤ 1)
        × ((j : List ℕ) → find j (all_entries d.ht0.table) ≡ view d.ht0 j)
  entries_of d (inl blank, _) = (
    rw blank refl,
    λ j. rw blank (omega arith),
    λ j.
        ap (λ (z : Kvht V). find j (all_entries z.table)) blank
        ∙ find-none {V = V} j [] refl
        ∙ sym (blank_view d.ht0 blank j),
  )
  entries_of d (inr (e, h, _), _) = (
    sym h.used,
    λ j. omega (arith, occurs-all_entries j d.ht0.table (home e j) (h.away j), h.once j),
    λ j. find-all_entries j d.ht0.table (home e j) (h.away j) ∙ sym (view-home e d.ht0 h.mask j),
  )

  after-content :
      (o : Option (Keyval V))
      → after o none ≡ Option.map (λ (v, _). (v, pos 0)) (Option.map content o)
  unfolding after
  after-content none = refl
  after-content (some k) = refl

  -- dict_copy, of a well-formed dictionary that reads as a map and has fewer than 2^64 entries,
  -- returns a well-formed dictionary with the same keys and values, every timestamp being 0.
  pub copy-refines :
      (d : Dict V) (m : List ℕ → Option (V × ℤ))
      → Models d m
      → d.ht0.used < 2 ^ 64
      → Returns (dict_copy d) λ r. Models r (λ j. Option.map (λ (v, _). (v, pos 0)) (m j))
  unfolding dict_copy
  copy-refines d m h fits =
      let (size, once, finds) = entries_of d h.valid in
      let blank : (create_dict {V = V}).ht0.used ≡ 0 = unfold create_dict in refl in
      let (r, run, done) =
        copy_chain-Models (all_entries d.ht0.table) create_dict (λ j. none) create_dict-Models
          (omega (arith, blank, size)) in
      let second : copy_table d.ht1.table r ≡ some r =
        ap (λ (z : Kvht V). copy_table z.table r) h.valid.1
        ∙ copy_table-eq-copy_chain [] r
        ∙ unfold copy_chain in refl in
      (
        r,
        rw (copy_table-eq-copy_chain d.ht0.table create_dict, run, ◌>>=◌) second,
        record {
          valid = done.valid;
          reads = λ j.
              done.reads j
              ∙ put_all-once (all_entries d.ht0.table) (λ i. none) j (once j)
              ∙ ap (λ z. after z none) (finds j)
              ∙ after-content (view d.ht0 j)
              ∙ ap (Option.map (λ (v, _). (v, pos 0))) (h.reads j);
        },
      )
