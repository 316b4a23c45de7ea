-- ===== src/Hamt/Tests.antt =====
-- Runs of the persistent map, with numbers for keys whose hashes collide in pairs, and the theorems
-- at concrete maps.
use alcove.Base.{
  ℕ, ◌+◌, ◌/◌, ◌≡◌, refl, ap, [], ◌∷◌, map, Option, none, some, Bool, ◌==◌, ltb, length, ◌^◌, true,
  if◌then◌else◌, arith,
}
use alcove.Hamt.{
  Hamt, hash_index, popcount, present, position, with_bit, without_bit, insert_at, replace_at,
  remove_at, slots_length, two_slots, child_outcome, node_outcome, hamt_merge, bucket_get,
  bucket_assoc, bucket_remove, bucket_dissoc, get_node, assoc_node, dissoc_node, hamt_get,
  hamt_assoc, hamt_dissoc,
}
use alcove.Hamt.Valid.{IsKeyed, is_none}
use alcove.Hamt.Merge.{IsPair, hamt_merge-IsPair}
use alcove.Hash.{bernstein_hash}
use alcove.Hamt.Keys.{
  Object, pointer, exp_symbol, exp_rational, exp_float, is_zero, is_nan, float_eq, same_content,
  bytes_of, isequal, hamt_hashkey, HashableKey,
}
use alcove.Hamt.Keys.Equal.{isequal-IsKeyed}
use alcove.Hamt.Walk.{foreach_root, walk, entries_root, foreach-walk}
use alcove.Hamt.Refine.{
  IsRoot, size_root, Models, put, drop, one_if, hamt_assoc-refines, hamt_dissoc-refines,
}

abbrev same : ℕ → ℕ → Bool
same a b = a == b

abbrev hash : ℕ → ℕ
hash k = k / 2

same-IsKeyed : IsKeyed same hash
same-IsKeyed = record {
  reflexive = λ a. ground arith;
  symmetric = λ a b e. ground arith;
  transitive = λ a b c e f. ground arith;
  hashed = λ a b e. let q : a ≡ b = ground arith in ap hash q;
}

abbrev empty : Hamt ℕ ℕ
empty = record { root = none; count = 0 }

empty-Models : Models same hash same-IsKeyed empty (λ _. none)
unfolding IsRoot size_root hamt_get
empty-Models = record { valid = tt; counted = refl; reads = λ j. refl }

abbrev add : Hamt ℕ ℕ → ℕ → ℕ → Hamt ℕ ℕ
add h k v = hamt_assoc same hash h k v

-- 8 and 9 share their hash, and 72 shares the lowest five bits of it.
abbrev three_keys : Hamt ℕ ℕ
three_keys = add (add (add empty 8 1) 9 2) 72 3

three_reads :
    map (hamt_get same hash three_keys) (8 ∷ 9 ∷ 72 ∷ 73 ∷ [])
    ≡ some 1 ∷ some 2 ∷ some 3 ∷ none ∷ []
unfolding hamt_get hamt_assoc assoc_node get_node bucket_get bucket_assoc hamt_merge hash_index
    popcount present position with_bit insert_at replace_at slots_length two_slots
three_reads = refl

abbrev without_9 : Hamt ℕ ℕ
without_9 = hamt_dissoc same hash three_keys 9

without_9_reads : map (hamt_get same hash without_9) (8 ∷ 9 ∷ 72 ∷ []) ≡ some 1 ∷ none ∷ some 3 ∷ []
unfolding hamt_get hamt_assoc assoc_node get_node bucket_get bucket_assoc hamt_merge hash_index
    popcount present position with_bit insert_at replace_at slots_length two_slots hamt_dissoc
    dissoc_node node_outcome child_outcome without_bit remove_at bucket_dissoc bucket_remove
without_9_reads = refl

all_removed :
    (hamt_dissoc same hash (hamt_dissoc same hash without_9 8) 72)
    ≡ record { root = none; count = 0 }
unfolding hamt_get hamt_assoc assoc_node get_node bucket_get bucket_assoc hamt_merge hash_index
    popcount present position with_bit insert_at replace_at slots_length two_slots hamt_dissoc
    dissoc_node node_outcome child_outcome without_bit remove_at bucket_dissoc bucket_remove
all_removed = refl

abbrev one_map : ℕ → Option ℕ
one_map = put same hash same-IsKeyed 8 1 (λ _. none)

abbrev two_map : ℕ → Option ℕ
two_map = put same hash same-IsKeyed 9 2 one_map

abbrev one_key : Hamt ℕ ℕ
one_key = add empty 8 1

abbrev two_keys : Hamt ℕ ℕ
two_keys = add one_key 9 2

one-Models : Models same hash same-IsKeyed one_key one_map
one-Models = (hamt_assoc-refines same hash same-IsKeyed empty (λ _. none) 8 1 empty-Models).0

hamt_assoc-refines_example :
    Models same hash same-IsKeyed two_keys two_map
    × (two_keys.count ≡ one_key.count + one_if (is_none (one_map 9)))
hamt_assoc-refines_example =
    hamt_assoc-refines same hash same-IsKeyed one_key one_map 9 2 one-Models

two-Models : Models same hash same-IsKeyed two_keys two_map
two-Models = (hamt_assoc-refines same hash same-IsKeyed one_key one_map 9 2 one-Models).0

hamt_dissoc-refines_example :
    Models same hash same-IsKeyed
      (hamt_dissoc same hash two_keys 9)
      (drop same hash same-IsKeyed 9 two_map)
    × ((hamt_dissoc same hash two_keys 9).count + (if is_none (two_map 9) then 0 else 1)
        ≡ two_keys.count)
hamt_dissoc-refines_example =
    hamt_dissoc-refines same hash same-IsKeyed two_keys two_map 9 two-Models

hamt_merge-IsPair_example :
    IsPair {V = ℕ} same hash same-IsKeyed 8 1 9 2 5 (hamt_merge 7 8 1 (hash 8) 9 2 (hash 9) 5)
hamt_merge-IsPair_example = hamt_merge-IsPair same hash same-IsKeyed 8 1 9 2 refl 7 5 (omega arith)

-- A symbol `a` at two addresses, a rational at two others, and a float of either sign of zero.
abbrev heap : ℕ → Object
heap a =
    if ltb a 100
    then record { type = exp_symbol; f = 0; bytes = 97 ∷ []; parts = (0, 0) }
    else if ltb a 200
    then record { type = exp_rational; f = 0; bytes = []; parts = (1, 2) }
    else record { type = exp_float; f = if a == 208 then 2 ^ 63 else 0; bytes = []; parts = (0, 0) }

one_symbol :
    hamt_get {V = ℕ}
      (isequal heap 8)
      (hamt_hashkey heap 8)
      (hamt_assoc
        (isequal heap 8)
        (hamt_hashkey heap 8)
        (record { root = none; count = 0 })
        (pointer 16)
        7)
      (pointer 24)
    ≡ some 7
unfolding hamt_get hamt_assoc get_node hash_index present position popcount isequal hamt_hashkey
    same_content bytes_of float_eq is_nan is_zero bernstein_hash
one_symbol = refl

one_zero : hamt_hashkey heap 8 (pointer 208) ≡ hamt_hashkey heap 8 (pointer 216)
unfolding hamt_hashkey is_zero bytes_of bernstein_hash
one_zero = refl

-- Two rationals are equal and hash to different numbers, so that the map does not find the second.
rationals_equal : isequal heap 8 (pointer 112) (pointer 120) ≡ true
unfolding isequal same_content
rationals_equal = refl

rational_missed :
    hamt_get {V = ℕ}
      (isequal heap 8)
      (hamt_hashkey heap 8)
      (hamt_assoc
        (isequal heap 8)
        (hamt_hashkey heap 8)
        (record { root = none; count = 0 })
        (pointer 112)
        7)
      (pointer 120)
    ≡ none
unfolding hamt_get hamt_assoc get_node hash_index present position popcount isequal hamt_hashkey
    same_content bytes_of float_eq is_nan is_zero bernstein_hash
rational_missed = refl

isequal-IsKeyed_example :
    IsKeyed {K = HashableKey heap 8} (λ a b. isequal heap 8 a.0 b.0) (λ a. hamt_hashkey heap 8 a.0)
isequal-IsKeyed_example = isequal-IsKeyed heap 8

-- A visitor that adds the values up and stops past two.
abbrev sum_to_two : ℕ → ℕ → ℕ → ℕ × Bool
sum_to_two k v total = (total + v, ltb (total + v) 3)

foreach-walk_example :
    (foreach_root sum_to_two two_keys.root 0 ≡ walk sum_to_two (entries_root two_keys.root) 0)
    × (length (entries_root two_keys.root) ≡ two_keys.count)
foreach-walk_example = foreach-walk sum_to_two same hash same-IsKeyed two_keys two_map 0 two-Models
