-- ===== src/Msgpack/Value.antt =====
-- msgpack.h: the codec on whole values. A text is the list of its bytes before the terminator, and a
-- list is proper. A dictionary is the list of its entries as its buckets list them, each key once;
-- one that is decoded lists them as they were inserted.
use alcove.Base.{
  ℕ, suc, List, [], ◌∷◌, ◌++◌, Option, none, some, leb, if◌then◌else◌, length, ◌>>=◌, ℤ, pos,
}
use alcove.Msgpack.{put_be, put_sized, encode_int}

-- The kinds of `exp_t` that the codec tells apart; `other` is any other kind. `nil` is `NIL_EXP`,
-- and outside a list also a NULL pointer. A cell of a list whose `content` is NULL is `null_pair` at
-- the front and `null_item` further on: the loops of the encoder stop there.
mutual
  pub data Value : Type 0 where
    nil : Value
    truth : Value
    number : ℤ → Value
    char : ℕ → Value
    float : ℕ → Value
    string : List ℕ → Value
    symbol : List ℕ → Value
    blob : List ℕ → Value
    pair : Value → Items → Value
    null_pair : Items → Value
    dict : Fields → Value
    other : Value

  pub data Items : Type 0 where
    no_items : Items
    item : Value → Items → Items
    null_item : Items → Items

  pub data Fields : Type 0 where
    no_fields : Fields
    field : List ℕ → Value → Fields → Fields

-- The loop that counts the cells of a list.
unfoldable pub count_items : Items → ℕ
count_items no_items = 0
count_items (item x xs) = suc (count_items xs)
count_items (null_item xs) = 0

unfoldable pub count_fields : Fields → ℕ
count_fields no_fields = 0
count_fields (field k v fs) = suc (count_fields fs)

-- `MP_MAX_DEPTH`
abbrev pub max_depth : ℕ
max_depth = 512

-- `mp_encode`: the guard, with the depth at the call.
abbrev pub enter : ℕ → Option (List ℕ) → Option (List ℕ)
enter depth r = if leb max_depth depth then none else r

-- `mp_encode_strlen` and the bytes.
unfoldable pub encode_text : List ℕ → Option (List ℕ)
encode_text s = put_sized 0xA0 32 0xD9 0xDA 0xDB (length s) >>= λ h. some (h ++ s)

-- `mp_encode_1`, with the depth inside it; none is the returned 0. A float is its 64 bits.
unfoldable mutual
  pub encode_1 : ℕ → Value → Option (List ℕ)
  encode_1 depth nil = some (0xC0 ∷ [])
  encode_1 depth truth = some (0xC3 ∷ [])
  encode_1 depth (number n) = some (encode_int n)
  encode_1 depth (char c) = some (encode_int (pos c))
  encode_1 depth (float bits) = some (0xCB ∷ put_be bits 8)
  encode_1 depth (string s) = encode_text s
  encode_1 depth (symbol s) = encode_text s
  encode_1 depth (blob s) = put_sized 0 0 0xC4 0xC5 0xC6 (length s) >>= λ h. some (h ++ s)
  encode_1 depth (pair x xs) = put_sized 0x90 16 0 0xDC 0xDD (suc (count_items xs)) >>= λ h.
      enter depth (encode_1 (suc depth) x) >>= λ first.
      encode_items depth xs >>= λ rest. some (h ++ (first ++ rest))
  encode_1 depth (null_pair xs) = put_sized 0x90 16 0 0xDC 0xDD 0
  encode_1 depth (dict fs) = put_sized 0x80 16 0 0xDE 0xDF (count_fields fs) >>= λ h.
      encode_fields depth fs >>= λ rest. some (h ++ rest)
  encode_1 depth other = none

  pub encode_items : ℕ → Items → Option (List ℕ)
  encode_items depth no_items = some []
  encode_items depth (item x xs) = enter depth (encode_1 (suc depth) x) >>= λ first.
      encode_items depth xs >>= λ rest. some (first ++ rest)
  encode_items depth (null_item xs) = some []

  pub encode_fields : ℕ → Fields → Option (List ℕ)
  encode_fields depth no_fields = some []
  encode_fields depth (field k v fs) = encode_text k >>= λ key.
      enter depth (encode_1 (suc depth) v) >>= λ val.
      encode_fields depth fs >>= λ rest. some (key ++ (val ++ rest))

-- `mp_encode` of a whole value: the depth is 0 outside.
unfoldable pub encode : Value → Option (List ℕ)
encode v = enter 0 (encode_1 1 v)
