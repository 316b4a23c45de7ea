-- ===== src/Msgpack/Wire.antt =====
-- What arrives of a value, and which values can be sent.
use alcove.Base.{
  ℕ, suc, ◌^◌, ◌<◌, ◌≤◌, ◌≡◌, refl, sym, ◌∙◌, List, [], ◌∷◌, ◌++◌, Option, none, some, true, false,
  arith, leb, length, length-append, Bool-cases, inl, inr, bytes_eq, ℤ, pos, negsuc, IsInt64,
}
use alcove.Hash.Terminated.{IsText}
use alcove.Fixnum.Laws.{fits}
use alcove.Msgpack.{put_be, put_sized, encode_int}
use alcove.Msgpack.Value.{
  Value, nil, truth, number, char, float, string, symbol, blob, pair, null_pair, dict, other, Items,
  no_items, item, null_item, Fields, no_fields, field, count_items, count_fields, max_depth, enter,
  encode_text, encode_1, encode_items, encode_fields,
}
use alcove.Msgpack.Sizes.{fixed, one_byte, two_bytes, four_bytes, put_sized-Prefix}
use alcove.Msgpack.Arms.{>>=-eq-some}

-- A character arrives as its code, and a symbol as its text. A list arrives up to its first cell
-- whose content is NULL.
unfoldable mutual
  pub wire : Value → Value
  wire nil = nil
  wire truth = truth
  wire (number n) = number n
  wire (char c) = number (pos c)
  wire (float bits) = float bits
  wire (string s) = string s
  wire (symbol s) = string s
  wire (blob s) = blob s
  wire (pair x xs) = pair (wire x) (wire_items xs)
  wire (null_pair xs) = nil
  wire (dict fs) = dict (wire_fields fs)
  wire other = other

  pub wire_items : Items → Items
  wire_items no_items = no_items
  wire_items (item x xs) = item (wire x) (wire_items xs)
  wire_items (null_item xs) = no_items

  pub wire_fields : Fields → Fields
  wire_fields no_fields = no_fields
  wire_fields (field k v fs) = field k (wire v) (wire_fields fs)

-- No field has the key.
abbrev pub Lacks : List ℕ → Fields → Type 0
Lacks key no_fields = Unit
Lacks key (field k v fs) = (bytes_eq key k ≡ false) × (bytes_eq k key ≡ false) × Lacks key fs

-- The values of the program: integers that a tagged word holds, 32-bit characters, 64-bit floats, and
-- texts of at most INT_MAX bytes; a dictionary has each key once, with no NUL inside.
abbrev mutual
  pub Sendable : Value → Type 0
  Sendable nil = Unit
  Sendable truth = Unit
  Sendable (number n) = IsInt64 n × (fits n ≡ true)
  Sendable (char c) = c < 2 ^ 32
  Sendable (float bits) = bits < 2 ^ 64
  Sendable (string s) = length s ≤ 2147483647
  Sendable (symbol s) = length s ≤ 2147483647
  Sendable (blob s) = Unit
  Sendable (pair x xs) = Sendable x × AreSendable xs
  Sendable (null_pair xs) = Unit
  Sendable (dict fs) = FieldsSendable fs
  Sendable other = Unit

  pub AreSendable : Items → Type 0
  AreSendable no_items = Unit
  AreSendable (item x xs) = Sendable x × AreSendable xs
  AreSendable (null_item xs) = Unit

  pub FieldsSendable : Fields → Type 0
  FieldsSendable no_fields = Unit
  FieldsSendable (field k v fs) =
      IsText k × (length k ≤ 2147483647) × Sendable v × Lacks k fs × FieldsSendable fs

pub enter-some :
    (depth : ℕ) (r : Option (List ℕ)) (bytes : List ℕ)
    → enter depth r ≡ some bytes
    → (depth < max_depth) × (r ≡ some bytes)
enter-some depth r bytes e = elim (Bool-cases (leb max_depth depth)) [
  | inl deep ↦ let cut : enter depth r ≡ none = rw deep refl in absurd (cc)
  | inr fits ↦ (ground arith, sym (rw fits refl) ∙ e)
]

-- Everything that is written takes at least one byte.
put_sized-pos :
    (mask lim tag8 tag16 tag32 n : ℕ) (h : List ℕ)
    → put_sized mask lim tag8 tag16 tag32 n ≡ some h
    → 1 ≤ length h
put_sized-pos mask lim tag8 tag16 tag32 n h e =
    elim (put_sized-Prefix mask lim tag8 tag16 tag32 n h e) [
      | fixed _ at ↦ rw at (omega arith)
      | one_byte _ _ at ↦ rw at (omega arith)
      | two_bytes _ at ↦ rw at (omega arith)
      | four_bytes _ at ↦ rw at (omega arith)
    ]

encode_int-pos : (n : ℤ) → 1 ≤ length (encode_int n)
unfolding encode_int
encode_int-pos (pos n) = ground arith
encode_int-pos (negsuc m) = ground arith

-- A head that is not empty, and what follows it.
behind_head : (head rest bytes : List ℕ) → 1 ≤ length head → head ++ rest ≡ bytes → 1 ≤ length bytes
behind_head head rest bytes some_head e = rw (← e) (omega (arith, length-append head rest))

encode_text-pos : (s bytes : List ℕ) → encode_text s ≡ some bytes → 1 ≤ length bytes
unfolding encode_text
encode_text-pos s bytes e =
    let (head, sized, done) =
      >>=-eq-some (put_sized 0xA0 32 0xD9 0xDA 0xDB (length s)) (λ h. some (h ++ s)) e in
    behind_head head s bytes (put_sized-pos 0xA0 32 0xD9 0xDA 0xDB (length s) head sized) (cc)

pub encode_1-pos :
    (depth : ℕ) (v : Value) (bytes : List ℕ) → encode_1 depth v ≡ some bytes → 1 ≤ length bytes
unfolding encode_1
encode_1-pos depth nil bytes e = let is : 0xC0 ∷ [] ≡ bytes = cc in rw (← is) (omega arith)
encode_1-pos depth truth bytes e = let is : 0xC3 ∷ [] ≡ bytes = cc in rw (← is) (omega arith)
encode_1-pos depth (number n) bytes e =
    let is : encode_int n ≡ bytes = cc in rw (← is) (encode_int-pos n)
encode_1-pos depth (char c) bytes e =
    let is : encode_int (pos c) ≡ bytes = cc in rw (← is) (encode_int-pos (pos c))
encode_1-pos depth (float bits) bytes e =
    let is : 0xCB ∷ put_be bits 8 ≡ bytes = cc in rw (← is) (omega arith)
encode_1-pos depth (string s) bytes e = encode_text-pos s bytes e
encode_1-pos depth (symbol s) bytes e = encode_text-pos s bytes e
encode_1-pos depth (blob s) bytes e =
    let (head, sized, done) =
      >>=-eq-some (put_sized 0 0 0xC4 0xC5 0xC6 (length s)) (λ h. some (h ++ s)) e in
    behind_head head s bytes (put_sized-pos 0 0 0xC4 0xC5 0xC6 (length s) head sized) (cc)
encode_1-pos depth (pair x xs) bytes e =
    let (head, sized, e1) =
      >>=-eq-some (put_sized 0x90 16 0 0xDC 0xDD (suc (count_items xs))) _ e in
    let (first, _, e2) = >>=-eq-some (enter depth (encode_1 (suc depth) x)) _ e1 in
    let (rest, _, done) = >>=-eq-some (encode_items depth xs) _ e2 in
    behind_head head (first ++ rest) bytes
      (put_sized-pos 0x90 16 0 0xDC 0xDD (suc (count_items xs)) head sized) (cc)
encode_1-pos depth (null_pair xs) bytes e = put_sized-pos 0x90 16 0 0xDC 0xDD 0 bytes e
encode_1-pos depth (dict fs) bytes e =
    let (head, sized, e1) = >>=-eq-some (put_sized 0x80 16 0 0xDE 0xDF (count_fields fs)) _ e in
    let (rest, _, done) = >>=-eq-some (encode_fields depth fs) _ e1 in
    behind_head head rest bytes (put_sized-pos 0x80 16 0 0xDE 0xDF (count_fields fs) head sized)
      (cc)
encode_1-pos depth other bytes e = absurd (cc)

-- Each item takes at least one byte.
pub encode_items-length :
    (depth : ℕ) (xs : Items) (bytes : List ℕ)
    → encode_items depth xs ≡ some bytes
    → count_items xs ≤ length bytes
unfolding encode_1 count_items
encode_items-length depth no_items bytes e = omega arith
encode_items-length depth (item x xs) bytes e =
    let (first, entered, e1) = >>=-eq-some (enter depth (encode_1 (suc depth) x)) _ e in
    let (rest, more, done) = >>=-eq-some (encode_items depth xs) _ e1 in
    let (_, one) = enter-some depth (encode_1 (suc depth) x) first entered in
    let is : first ++ rest ≡ bytes = cc in
    rw (← is) (
      omega (
        arith,
        length-append first rest,
        encode_1-pos (suc depth) x first one,
        encode_items-length depth xs rest more,
      ))
encode_items-length depth (null_item xs) bytes e = omega arith

pub encode_fields-length :
    (depth : ℕ) (fs : Fields) (bytes : List ℕ)
    → encode_fields depth fs ≡ some bytes
    → count_fields fs ≤ length bytes
unfolding encode_1 count_fields
encode_fields-length depth no_fields bytes e = omega arith
encode_fields-length depth (field k v fs) bytes e =
    let (key, text, e0) = >>=-eq-some (encode_text k) _ e in
    let (val, entered, e1) = >>=-eq-some (enter depth (encode_1 (suc depth) v)) _ e0 in
    let (rest, more, done) = >>=-eq-some (encode_fields depth fs) _ e1 in
    let is : key ++ (val ++ rest) ≡ bytes = cc in
    rw (← is) (
      omega (
        arith,
        length-append key (val ++ rest),
        length-append val rest,
        encode_text-pos k key text,
        encode_fields-length depth fs rest more,
      ))
