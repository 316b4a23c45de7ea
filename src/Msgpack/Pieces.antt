-- ===== src/Msgpack/Pieces.antt =====
-- The decoder at one item, one entry, and one value of each simple kind.
use alcove.Base.{
  get_elem?-lt, ℕ, suc, ◌+◌, ◌^◌, ◌<◌, ◌≤◌, ◌≡◌, refl, ◌∙◌, List, [], ◌∷◌, some, true, arith,
  length, ℤ, IsInt64,
}
use alcove.Fixnum.Laws.{fits}
use alcove.Msgpack.{put_be, encode_int}
use alcove.Msgpack.Bytes.{Holds}
use alcove.Msgpack.Roundtrip.{decode_int-encode_int}
use alcove.Msgpack.Value.{
  Value, nil, truth, number, float, string, pair, dict, Items, no_items, item, Fields, no_fields,
}
use alcove.Msgpack.Decode.{
  Decoded, decoded, c_text, insert_field, decode_items, decode_fields, decode_array, decode_map,
  decode_arm, decode,
}
use alcove.Msgpack.Sizes.{read_size-put_be}
use alcove.Msgpack.Arms.{at_lead, int_Reads}

module _ (double_of : ℤ → ℕ) (widen : ℕ → ℕ) (b : List ℕ) where
  abbrev pub dec : ℕ → ℕ → Decoded Value
  dec left i = decode double_of widen left b i

  -- One item and the ones behind it.
  pub items_step :
      (go : ℕ → Decoded Value) (n i j k : ℕ) (x : Value) (xs : Items)
      → go i ≡ some (some (x, j))
      → decode_items go n j ≡ some (some (xs, k))
      → decode_items go (suc n) i ≡ some (some (item x xs, k))
  unfolding decode_items
  items_step go n i j k x xs first rest = rw (first, decoded, rest) refl

  pub fields_step :
      (go : ℕ → Decoded Value) (n i j k : ℕ) (acc : Fields) (key : List ℕ) (v : Value)
      → go i ≡ some (some (string key, j))
      → go j ≡ some (some (v, k))
      → decode_fields go (suc n) acc i ≡ decode_fields go n (insert_field (c_text key) v acc) k
  unfolding decode_fields
  fields_step go n i j k acc key v first second = rw (first, decoded, second) refl

  -- A tag and eight bytes.
  pub float_Reads :
      (left i bits : ℕ)
      → bits < 2 ^ 64
      → Holds b i (0xCB ∷ put_be bits 8)
      → dec (suc left) i ≡ some (some (float bits, i + 9))
  unfolding decode_arm
  float_Reads left i bits small (here, h) =
      let inside : i + 1 ≤ length b = omega (arith, get_elem?-lt b i 0xCB here) in
      let read = read_size-put_be b (i + 1) bits 8 inside (omega arith) (omega arith) h in
      let size : i + 1 + 8 ≡ i + 9 = omega arith in
      at_lead double_of widen left b i 0xCB here ∙ rw (read, decoded, size) refl

  pub one_Reads :
      (left i c : ℕ) (v : Value)
      → ((k : ℕ) → decode_arm double_of widen (dec left) b k c ≡ some (some (v, k)))
      → Holds b i (c ∷ [])
      → dec (suc left) i ≡ some (some (v, i + 1))
  one_Reads left i c v arm (here, _) = at_lead double_of widen left b i c here ∙ arm (i + 1)

  pub number_Reads :
      (left i : ℕ) (n : ℤ)
      → IsInt64 n
      → fits n ≡ true
      → Holds b i (encode_int n)
      → dec (suc left) i ≡ some (some (number n, i + length (encode_int n)))
  number_Reads left i n int small h =
      int_Reads double_of widen left b i n (i + length (encode_int n))
        (decode_int-encode_int b i n int small h)

  pub nil_Reads : (left i : ℕ) → Holds b i (0xC0 ∷ []) → dec (suc left) i ≡ some (some (nil, i + 1))
  unfolding decode_arm
  nil_Reads left i h = one_Reads left i 0xC0 nil (λ k. refl) h

  pub truth_Reads :
      (left i : ℕ) → Holds b i (0xC3 ∷ []) → dec (suc left) i ≡ some (some (truth, i + 1))
  unfolding decode_arm
  truth_Reads left i h = one_Reads left i 0xC3 truth (λ k. refl) h

  pub no_items_Read :
      (go : ℕ → Decoded Value) (i : ℕ) → decode_items go 0 i ≡ some (some (no_items, i))
  unfolding decode_items
  no_items_Read go i = refl

  pub no_fields_Read :
      (go : ℕ → Decoded Value) (acc : Fields) (i : ℕ)
      → decode_fields go 0 acc i ≡ some (some (acc, i))
  unfolding decode_fields
  no_fields_Read go acc i = refl

  pub array_whole :
      (go : ℕ → Decoded Value) (n i k : ℕ) (x : Value) (xs : Items)
      → decode_items go n i ≡ some (some (item x xs, k))
      → decode_array go n i ≡ some (some (pair x xs, k))
  unfolding decode_array
  array_whole go n i k x xs run = rw (run, decoded) refl

  pub empty_array : (go : ℕ → Decoded Value) (i : ℕ) → decode_array go 0 i ≡ some (some (nil, i))
  unfolding decode_array
  empty_array go i = rw (no_items_Read go i, decoded) refl

  pub map_whole :
      (go : ℕ → Decoded Value) (n i k : ℕ) (fs : Fields)
      → decode_fields go n no_fields i ≡ some (some (fs, k))
      → decode_map go n i ≡ some (some (dict fs, k))
  unfolding decode_map
  map_whole go n i k fs run = rw (run, decoded) refl
