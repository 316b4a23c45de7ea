-- ===== src/Msgpack/Decode.antt =====
-- msgpack.h: the decoder of whole values. A buffer is shorter than 2^64 bytes.
use alcove.Base.{
  ℕ, zero, suc, ◌+◌, ◌-◌, List, [], ◌∷◌, Option, none, some, Bool, ◌&&◌, ◌||◌, ltb, leb, ◌==◌,
  if◌then◌else◌, get_elem?, length, take, drop, bit_and, bytes_eq, ◌>>=◌, ℤ,
}
use alcove.Msgpack.{get_be, Number, fixnum, float_of, int_arm}
use alcove.Msgpack.Value.{
  Value, nil, truth, number, float, string, blob, pair, null_pair, dict, Items, no_items, item,
  null_item, Fields, no_fields, field, max_depth,
}

-- What a decoder returns: none is a fault, and some none the returned NULL.
abbrev pub Decoded : Type 0 → Type 0
Decoded A = Option (Option (A × ℕ))

-- NULL is passed on; a value is used with the position behind it.
abbrev pub decoded : {A B : Type 0} → Decoded A → (A → ℕ → Decoded B) → Decoded B
decoded none f = none
decoded (some none) f = some none
decoded (some (some (a, i))) f = f a i

-- `MP_NEED` and the big-endian number behind it.
unfoldable pub read_size : List ℕ → ℕ → ℕ → Decoded ℕ
read_size b i nb =
    if ltb (length b) (i + nb) then some none else get_be b i nb >>= λ n. some (some (n, i + nb))

-- The `n` bytes at `i`.
abbrev pub slice : List ℕ → ℕ → ℕ → List ℕ
slice b i n = take n (drop i b)

-- The bytes before a NUL.
unfoldable pub c_text : List ℕ → List ℕ
c_text [] = []
c_text (c ∷ cs) = let rest = c ∷ c_text cs in if c == 0 then [] else rest

-- `set_get_keyval_dict` on the entries.
unfoldable pub insert_field : List ℕ → Value → Fields → Fields
insert_field key val no_fields = field key val no_fields
insert_field key val (field k v fs) =
    if bytes_eq key k then field k val fs else field k v (insert_field key val fs)

-- A list that is built, or nil.
abbrev pub list_of : Items → Value
list_of no_items = nil
list_of (item x xs) = pair x xs
list_of (null_item xs) = null_pair xs

abbrev pub string_key : Value → Option (List ℕ)
string_key (string s) = some s
string_key _ = none

-- `decode` is `mp_decode` one level down.
module _ (decode : ℕ → Decoded Value) where
  -- The loop of `mp_decode_array`.
  unfoldable pub decode_items : ℕ → ℕ → Decoded Items
  decode_items zero i = some (some (no_items, i))
  decode_items (suc n) i =
      decoded (decode i) λ x i'. decoded (decode_items n i') λ xs i''. some (some (item x xs, i''))

  -- The loop of `mp_decode_map`.
  unfoldable pub decode_fields : ℕ → Fields → ℕ → Decoded Fields
  decode_fields zero fs i = some (some (fs, i))
  decode_fields (suc n) fs i = decoded (decode i) λ k i'. elim (string_key k) [
    | none ↦ some none
    | some key ↦ decoded (decode i') λ v i''. decode_fields n (insert_field (c_text key) v fs) i''
  ]

  unfoldable pub decode_array : ℕ → ℕ → Decoded Value
  decode_array n i = decoded (decode_items n i) λ xs i'. some (some (list_of xs, i'))

  unfoldable pub decode_map : ℕ → ℕ → Decoded Value
  decode_map n i = decoded (decode_fields n no_fields i) λ fs i'. some (some (dict fs, i'))

-- A text of up to 31 bytes.
unfoldable pub decode_fixstr : List ℕ → ℕ → ℕ → Decoded Value
decode_fixstr b i n =
    if ltb (length b) (i + n) then some none else some (some (string (slice b i n), i + n))

-- A text behind its size of `nb` bytes; INT_MAX is 2147483647.
unfoldable pub decode_string : List ℕ → ℕ → ℕ → Decoded Value
decode_string b i nb = decoded (read_size b i nb) λ n j.
    if ltb (length b - j) n
    then some none
    else if ltb 2147483647 n
    then some none
    else some (some (string (slice b j n), j + n))

unfoldable pub decode_blob : List ℕ → ℕ → ℕ → Decoded Value
decode_blob b i nb =
    decoded (read_size b i nb)
      λ n j. if ltb (length b - j) n then some none else some (some (blob (slice b j n), j + n))

-- An array or a map behind its size.
unfoldable pub decode_sized : (ℕ → ℕ → Decoded Value) → List ℕ → ℕ → ℕ → Decoded Value
decode_sized decode b i nb =
    decoded (read_size b i nb) λ n j. if ltb (length b - j) n then some none else decode n j

-- The lead bytes of the integers.
abbrev pub is_int : ℕ → Bool
is_int c = leb c 0x7F || leb 0xE0 c || (leb 0xCC c && leb c 0xD3)

-- The conversions of the C compiler: from an integer to the bits of a `double`, and from the bits of a
-- `float` to those of a `double`.
module _ (double_of : ℤ → ℕ) (widen : ℕ → ℕ) where
  abbrev pub value_of : Number → Value
  value_of (fixnum v) = number v
  value_of (float_of v) = float (double_of v)

  -- `mp_decode` behind the lead byte `c`.
  unfoldable pub decode_arm : (ℕ → Decoded Value) → List ℕ → ℕ → ℕ → Decoded Value
  decode_arm decode b i c =
      if is_int c
      then decoded (int_arm b i c) (λ n j. some (some (value_of n, j)))
      else if bit_and c 0xE0 == 0xA0
      then decode_fixstr b i (bit_and c 0x1F)
      else if bit_and c 0xF0 == 0x90
      then decode_array decode (bit_and c 0x0F) i
      else if bit_and c 0xF0 == 0x80
      then decode_map decode (bit_and c 0x0F) i
      else if c == 0xC0
      then some (some (nil, i))
      else if c == 0xC2
      then some (some (nil, i))
      else if c == 0xC3
      then some (some (truth, i))
      else if c == 0xCA
      then decoded (read_size b i 4) (λ bits j. some (some (float (widen bits), j)))
      else if c == 0xCB
      then decoded (read_size b i 8) (λ bits j. some (some (float bits, j)))
      else if c == 0xD9
      then decode_string b i 1
      else if c == 0xDA
      then decode_string b i 2
      else if c == 0xDB
      then decode_string b i 4
      else if c == 0xC4
      then decode_blob b i 1
      else if c == 0xC5
      then decode_blob b i 2
      else if c == 0xC6
      then decode_blob b i 4
      else if c == 0xDC
      then decode_sized (decode_array decode) b i 2
      else if c == 0xDD
      then decode_sized (decode_array decode) b i 4
      else if c == 0xDE
      then decode_sized (decode_map decode) b i 2
      else if c == 0xDF
      then decode_sized (decode_map decode) b i 4
      else some none

  -- `mp_decode` with `left` levels left: at the depth 513 - left.
  unfoldable pub decode : ℕ → List ℕ → ℕ → Decoded Value
  decode zero b i = some none
  decode (suc left) b i =
      let arm = λ (c : ℕ). decode_arm (decode left b) b (i + 1) c in
      if leb (length b) i then some none else get_elem? b i >>= arm

  -- `msgpackdecodecmd` on the bytes of a blob: a value that takes up all of them.
  unfoldable pub decode_all : List ℕ → Option (Option Value)
  decode_all b = decode (suc max_depth) b 0 >>= λ r. elim r [
    | none ↦ some none
    | some (v, j) ↦ if j == length b then some (some v) else some none
  ]
