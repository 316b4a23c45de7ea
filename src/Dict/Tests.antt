-- ===== src/Dict/Tests.antt =====
-- Small dictionaries.
use alcove.Base.{
  ℕ, ◌+◌, ◌≤◌, ◌≡◌, refl, List, [], ◌∷◌, Option, none, some, arith, set, replicate, ℤ, pos, ◌>>=◌,
  Returns,
}
use mathlib.Core.Option
use alcove.Hash.{bernstein_hash}
use alcove.Hash.Terminated.{hash_z-text}
use alcove.Hash.{bernstein_hash_z}
use alcove.Dict.{
  Keyval, Dict, create_dict, find, modify, relink_chain, relink, dict_rehash, store, grow,
  set_keyval_dict, get_keyval_dict, set_keyval_dict_timestamp, get_keyval_dict_timestamp,
  del_keyval_dict, dict_copy, fresh,
}
use alcove.Dict.Valid.{content, Models}
use alcove.Dict.Get.{Answers, get_keyval_dict-refines, timestamp-refines}
use alcove.Dict.Set.{put, set_keyval_dict-refines}
use alcove.Dict.Del.{without, stamped, del_keyval_dict-refines, set_timestamp-refines}
use alcove.Dict.Copy.{create_dict-Models, copy-refines}

abbrev ab : List ℕ
ab = 97 ∷ 98 ∷ []

abbrev c : List ℕ
c = 99 ∷ []

-- A table of two buckets in which one entry more makes four.
abbrev tiny : Dict ℕ
tiny = record {
  ht0 = record { table = [] ∷ [] ∷ []; size = 2; sizemask = 1; used = 0 };
  ht1 = record { table = []; size = 0; sizemask = 0; used = 0 };
}

size_after_two :
    Option.map
      (λ (d : Dict ℕ × Keyval ℕ). d.0.ht0.size)
      (set_keyval_dict tiny ab 1 >>= λ (d, _). set_keyval_dict d c 2)
    ≡ some 4
unfolding set_keyval_dict store grow dict_rehash relink relink_chain find modify bernstein_hash
size_after_two = refl

value_after_two :
    (set_keyval_dict tiny ab 1 >>= λ (d, _).
    set_keyval_dict d c 2 >>= λ (d', _). get_keyval_dict d' ab)
    ≡ some (some (fresh ab 1))
unfolding set_keyval_dict get_keyval_dict store grow dict_rehash relink relink_chain find modify
    bernstein_hash
value_after_two = refl

hash_z-text_example :
    bernstein_hash_z (97 ∷ 98 ∷ 0 ∷ 55 ∷ []) ≡ some (bernstein_hash (97 ∷ 98 ∷ []))
hash_z-text_example =
    hash_z-text (97 ∷ 98 ∷ []) (55 ∷ [])
      ((λ e. absurd (omega arith)), ((λ e. absurd (omega arith)), tt))

abbrev one_entry : Dict ℕ
one_entry = record {
  ht0 = record {
    table = set (replicate 32 []) 29 (fresh ab 7 ∷ []);
    size = 32;
    sizemask = 31;
    used = 1;
  };
  ht1 = record { table = []; size = 0; sizemask = 0; used = 0 };
}

abbrev ab_to_seven : List ℕ → Option (ℕ × ℤ)
ab_to_seven = put (λ j. none) ab 7

stored : set_keyval_dict (create_dict {V = ℕ}) ab 7 ≡ some (one_entry, fresh ab 7)
unfolding create_dict set_keyval_dict store grow find modify bernstein_hash
stored = refl

one_entry-Models : Models one_entry ab_to_seven
unfolding create_dict
one_entry-Models =
    let (r, run, (model, _, _)) =
      set_keyval_dict-refines create_dict (λ j. none) ab 7 create_dict-Models (omega arith) in
    let same : r.0 ≡ one_entry = cc stored in rw (← same) model

set_keyval_dict-refines_example :
    Returns
      (set_keyval_dict one_entry c 8)
      λ (d', k). Models d' (put ab_to_seven c 8) × (d'.ht0.used ≤ 2) × (content k ≡ (8, pos 0))
set_keyval_dict-refines_example =
    set_keyval_dict-refines one_entry ab_to_seven c 8 one_entry-Models (omega arith)

get_keyval_dict-refines_example :
    Returns
      (get_keyval_dict one_entry ab)
      λ r. (Option.map content r ≡ some (7, pos 0)) × Answers one_entry ab r
get_keyval_dict-refines_example = get_keyval_dict-refines one_entry ab_to_seven ab one_entry-Models

timestamp-refines_example : get_keyval_dict_timestamp one_entry ab ≡ some (pos 0)
timestamp-refines_example = timestamp-refines one_entry ab_to_seven ab one_entry-Models

del_keyval_dict-refines_example :
    Returns
      (del_keyval_dict one_entry ab)
      λ (d', r). Models d' (without ab_to_seven ab) × (r ≡ 1) × (d'.ht0.used + r ≡ 1)
del_keyval_dict-refines_example =
    del_keyval_dict-refines one_entry ab_to_seven ab one_entry-Models (omega arith)

set_timestamp-refines_example :
    Returns
      (set_keyval_dict_timestamp one_entry ab (pos 5))
      λ (d', r). Models d' (stamped ab_to_seven ab (pos 5)) × (r ≡ some 7) × (d'.ht0.used ≡ 1)
set_timestamp-refines_example =
    set_timestamp-refines one_entry ab_to_seven ab (pos 5) one_entry-Models

copy-refines_example :
    Returns
      (dict_copy one_entry)
      λ r. Models r (λ j. Option.map (λ (v, _). (v, pos 0)) (ab_to_seven j))
copy-refines_example = copy-refines one_entry ab_to_seven one_entry-Models (omega arith)
