-- ===== src/Msgpack/Whole.antt =====
-- Whole values round trip through the bytes of MessagePack.
use alcove.Base.{
  get_elem?, get_elem?-append, append_assoc, append-nil, ℕ, zero, suc, ◌+◌, ◌≤◌, ◌≡◌, refl, sym, ap,
  ◌∙◌, List, [], ◌∷◌, ◌++◌, some, true, arith, ◌==◌, length, length-append, ◌>>=◌, ℤ, pos,
}
use alcove.Msgpack.{put_be, put_sized, encode_int}
use alcove.Msgpack.Bytes.{Holds, Holds-length, length-put_be}
use alcove.Msgpack.Value.{
  Value, nil, truth, number, char, float, string, symbol, blob, pair, null_pair, dict, other, Items,
  no_items, item, null_item, Fields, no_fields, field, count_items, count_fields, max_depth, enter,
  encode_text, encode_1, encode_items, encode_fields, encode,
}
use alcove.Msgpack.Decode.{c_text, insert_field, decode_items, decode_fields, decode, decode_all}
use alcove.Msgpack.Sizes.{Holds-append}
use alcove.Msgpack.Containers.{array_Reads, map_Reads}
use alcove.Msgpack.Arms.{>>=-eq-some, text_Reads, blob_Reads}
use alcove.Msgpack.Wire.{
  wire, wire_items, wire_fields, Sendable, AreSendable, FieldsSendable, enter-some, encode_1-pos,
  encode_items-length, encode_fields-length,
}
use alcove.Msgpack.Join.{
  c_text-IsText, join, join_assoc, join_none, Disjoint, insert_field-Lacks, Disjoint-join,
  Disjoint-none,
}
use alcove.Msgpack.Pieces.{
  dec, items_step, fields_step, float_Reads, number_Reads, nil_Reads, truth_Reads, no_items_Read,
  no_fields_Read, array_whole, empty_array, map_whole,
}

module _ (double_of : ℤ → ℕ) (widen : ℕ → ℕ) (b : List ℕ) where
  mutual
    unfolding encode_1 wire count_items count_fields

    value_Reads :
        (v : Value) (d left i : ℕ) (bytes : List ℕ)
        → encode_1 (suc d) v ≡ some bytes
        → Sendable v
        → max_depth ≤ left + d
        → i ≤ length b
        → Holds b i bytes
        → dec double_of widen b (suc left) i ≡ some (some (wire v, i + length bytes))
    value_Reads nil d left i bytes e ok deep le h =
        let is : 0xC0 ∷ [] ≡ bytes = cc in
        rw (← is) (nil_Reads double_of widen b left i (rw (← is) at h))
    value_Reads truth d left i bytes e ok deep le h =
        let is : 0xC3 ∷ [] ≡ bytes = cc in
        rw (← is) (truth_Reads double_of widen b left i (rw (← is) at h))
    value_Reads (number n) d left i bytes e (int, small) deep le h =
        let is : encode_int n ≡ bytes = cc in
        rw (← is) (number_Reads double_of widen b left i n int small (rw (← is) at h))
    value_Reads (char c) d left i bytes e ok deep le h =
        let is : encode_int (pos c) ≡ bytes = cc in
        rw (← is) (
          number_Reads double_of widen b left i (pos c) (omega arith) (ground arith)
            (rw (← is) at h))
    value_Reads (float bits) d left i bytes e ok deep le h =
        let is : 0xCB ∷ put_be bits 8 ≡ bytes = cc in
        let size : length bytes ≡ 9 = rw (← is) (ap suc (length-put_be bits 8)) in
        rw size (float_Reads double_of widen b left i bits ok (rw (← is) at h))
    value_Reads (string s) d left i bytes e ok deep le h =
        text_Reads double_of widen left b i s bytes e ok le h
    value_Reads (symbol s) d left i bytes e ok deep le h =
        text_Reads double_of widen left b i s bytes e ok le h
    value_Reads (blob s) d left i bytes e ok deep le h =
        let (head, sized, done) =
          >>=-eq-some (put_sized 0 0 0xC4 0xC5 0xC6 (length s)) (λ z. some (z ++ s)) e in
        let is : head ++ s ≡ bytes = cc in
        rw (← is) (blob_Reads double_of widen left b i s head sized le (rw (← is) at h))
    value_Reads (pair x xs) d zero i bytes e (ok, oks) deep le h =
        let (head, sized, e0) =
          >>=-eq-some (put_sized 0x90 16 0 0xDC 0xDD (suc (count_items xs))) _ e in
        let (first, entered, e1) = >>=-eq-some (enter (suc d) (encode_1 (suc (suc d)) x)) _ e0 in
        let (lt, _) = enter-some (suc d) (encode_1 (suc (suc d)) x) first entered in
        absurd (omega arith)
    value_Reads (pair x xs) d (suc left) i bytes e (ok, oks) deep le h =
        let (head, sized, e0) =
          >>=-eq-some (put_sized 0x90 16 0 0xDC 0xDD (suc (count_items xs))) _ e in
        let (first, entered, e1) = >>=-eq-some (enter (suc d) (encode_1 (suc (suc d)) x)) _ e0 in
        let (rest, more, done) = >>=-eq-some (encode_items (suc d) xs) _ e1 in
        let (_, one) = enter-some (suc d) (encode_1 (suc (suc d)) x) first entered in
        let is : head ++ (first ++ rest) ≡ bytes = cc in
        let enough : suc (count_items xs) ≤ length (first ++ rest) = omega (
          arith,
          length-append first rest,
          encode_1-pos (suc (suc d)) x first one,
          encode_items-length (suc d) xs rest more,
        ) in
        let (run, elements, inside) =
          array_Reads double_of widen (suc left) b i (suc (count_items xs)) (first ++ rest) head
            sized enough (rw (← is) at h) in
        let j = i + length head in
        let (h1, h2) = Holds-append b j first rest elements in
        let v = value_Reads x (suc d) left j first one ok (omega arith) inside h1 in
        let vs =
          items_Reads xs d (suc left) (j + length first) rest more oks deep
            (Holds-length b j first inside h1) h2 in
        let size : j + length first + length rest ≡ i + length bytes =
          rw (← is) (omega (arith, length-append head (first ++ rest), length-append first rest)) in
        run
        ∙ array_whole double_of widen b (dec double_of widen b (suc left)) (suc (count_items xs)) j
            (j + length first + length rest) (wire x) (wire_items xs)
            (items_step double_of widen b (dec double_of widen b (suc left)) (count_items xs) j
              (j + length first) (j + length first + length rest) (wire x) (wire_items xs) v vs)
        ∙ ap (λ z. some (some (pair (wire x) (wire_items xs), z))) size
    value_Reads (null_pair xs) d left i bytes e ok deep le h =
        let (run, elements, inside) =
          array_Reads double_of widen left b i 0 [] bytes e (omega arith)
            (rw (← append-nil bytes) at h) in
        run ∙ empty_array double_of widen b (dec double_of widen b left) (i + length bytes)
    value_Reads (dict fs) d left i bytes e ok deep le h =
        let (head, sized, e0) = >>=-eq-some (put_sized 0x80 16 0 0xDE 0xDF (count_fields fs)) _ e in
        let (rest, more, done) = >>=-eq-some (encode_fields (suc d) fs) _ e0 in
        let is : head ++ rest ≡ bytes = cc in
        let (run, elements, inside) =
          map_Reads double_of widen left b i (count_fields fs) rest head sized
            (encode_fields-length (suc d) fs rest more) (rw (← is) at h) in
        let j = i + length head in
        let size : j + length rest ≡ i + length bytes =
          rw (← is) (omega (arith, length-append head rest)) in
        run
        ∙ map_whole double_of widen b (dec double_of widen b left) (count_fields fs) j
            (j + length rest) (wire_fields fs)
            (fields_Reads fs d left j no_fields rest more ok (Disjoint-none fs) deep inside
              elements)
        ∙ ap (λ z. some (some (dict (wire_fields fs), z))) size
    value_Reads other d left i bytes e ok deep le h = absurd (cc)

    items_Reads :
        (xs : Items) (d left i : ℕ) (bytes : List ℕ)
        → encode_items (suc d) xs ≡ some bytes
        → AreSendable xs
        → max_depth ≤ left + d
        → i ≤ length b
        → Holds b i bytes
        → decode_items (dec double_of widen b left) (count_items xs) i
          ≡ some (some (wire_items xs, i + length bytes))
    items_Reads no_items d left i bytes e oks deep le h =
        let is : [] ≡ bytes = cc in
        let size : i ≡ i + length bytes = rw (← is) (omega arith) in
        no_items_Read double_of widen b (dec double_of widen b left) i
        ∙ ap (λ z. some (some (no_items, z))) size
    items_Reads (null_item xs) d left i bytes e oks deep le h =
        let is : [] ≡ bytes = cc in
        let size : i ≡ i + length bytes = rw (← is) (omega arith) in
        no_items_Read double_of widen b (dec double_of widen b left) i
        ∙ ap (λ z. some (some (no_items, z))) size
    items_Reads (item x xs) d zero i bytes e (ok, oks) deep le h =
        let (first, entered, e1) = >>=-eq-some (enter (suc d) (encode_1 (suc (suc d)) x)) _ e in
        let (lt, _) = enter-some (suc d) (encode_1 (suc (suc d)) x) first entered in
        absurd (omega arith)
    items_Reads (item x xs) d (suc left) i bytes e (ok, oks) deep le h =
        let (first, entered, e1) = >>=-eq-some (enter (suc d) (encode_1 (suc (suc d)) x)) _ e in
        let (rest, more, done) = >>=-eq-some (encode_items (suc d) xs) _ e1 in
        let (_, one) = enter-some (suc d) (encode_1 (suc (suc d)) x) first entered in
        let is : first ++ rest ≡ bytes = cc in
        let (h1, h2) = Holds-append b i first rest (rw (← is) at h) in
        let v = value_Reads x (suc d) left i first one ok (omega arith) le h1 in
        let vs =
          items_Reads xs d (suc left) (i + length first) rest more oks deep
            (Holds-length b i first le h1) h2 in
        let size : i + length first + length rest ≡ i + length bytes =
          rw (← is) (omega (arith, length-append first rest)) in
        items_step double_of widen b (dec double_of widen b (suc left)) (count_items xs) i
          (i + length first) (i + length first + length rest) (wire x) (wire_items xs) v vs
        ∙ ap (λ z. some (some (item (wire x) (wire_items xs), z))) size

    fields_Reads :
        (fs : Fields) (d left i : ℕ) (acc : Fields) (bytes : List ℕ)
        → encode_fields (suc d) fs ≡ some bytes
        → FieldsSendable fs
        → Disjoint acc fs
        → max_depth ≤ left + d
        → i ≤ length b
        → Holds b i bytes
        → decode_fields (dec double_of widen b left) (count_fields fs) acc i
          ≡ some (some (join acc (wire_fields fs), i + length bytes))
    fields_Reads no_fields d left i acc bytes e oks apart deep le h =
        let is : [] ≡ bytes = cc in
        let size : i ≡ i + length bytes = rw (← is) (omega arith) in
        no_fields_Read double_of widen b (dec double_of widen b left) acc i
        ∙ ap (λ z. some (some (acc, z))) size
        ∙ ap (λ z. some (some (z, i + length bytes))) (sym (join_none acc))
    fields_Reads (field k v fs) d zero i acc bytes e oks apart deep le h =
        let (key, written, e0) = >>=-eq-some (encode_text k) _ e in
        let (val, entered, e1) = >>=-eq-some (enter (suc d) (encode_1 (suc (suc d)) v)) _ e0 in
        let (lt, _) = enter-some (suc d) (encode_1 (suc (suc d)) v) val entered in
        absurd (omega arith)
    fields_Reads (field k v fs) d (suc left) i acc bytes e (text, short, ok, lacks, oks)
          (out, apart) deep le h =
        let go = dec double_of widen b (suc left) in
        let (key, written, e0) = >>=-eq-some (encode_text k) _ e in
        let (val, entered, e1) = >>=-eq-some (enter (suc d) (encode_1 (suc (suc d)) v)) _ e0 in
        let (rest, more, done) = >>=-eq-some (encode_fields (suc d) fs) _ e1 in
        let (_, one) = enter-some (suc d) (encode_1 (suc (suc d)) v) val entered in
        let is : key ++ (val ++ rest) ≡ bytes = cc in
        let (h1, h23) = Holds-append b i key (val ++ rest) (rw (← is) at h) in
        let j = i + length key in
        let (h2, h3) = Holds-append b j val rest h23 in
        let inside = Holds-length b i key le h1 in
        let t = text_Reads double_of widen left b i k key written short le h1 in
        let w = value_Reads v (suc d) left j val one ok (omega arith) inside h2 in
        let acc' = join acc (field k (wire v) no_fields) in
        let stored : insert_field (c_text k) (wire v) acc ≡ acc' =
          ap (λ z. insert_field z (wire v) acc) (c_text-IsText k text)
          ∙ insert_field-Lacks k (wire v) acc out in
        let others =
          fields_Reads fs d (suc left) (j + length val) acc' rest more oks
            (Disjoint-join acc fs k (wire v) apart lacks) deep (Holds-length b j val inside h2)
            h3 in
        let size : j + length val + length rest ≡ i + length bytes =
          rw (← is) (omega (arith, length-append key (val ++ rest), length-append val rest)) in
        fields_step double_of widen b go (count_fields fs) i j (j + length val) acc k (wire v) t w
        ∙ ap (λ z. decode_fields go (count_fields fs) z (j + length val)) stored
        ∙ others
        ∙ ap (λ z. some (some (z, j + length val + length rest)))
            (join_assoc acc (field k (wire v) no_fields) (wire_fields fs))
        ∙ ap (λ z. some (some (join acc (field k (wire v) (wire_fields fs)), z))) size

  -- Where a buffer holds what mp_encode wrote of a value of the program, mp_decode at depth 0 reads
  -- nothing outside the buffer and returns that value, with a character as its code and a symbol as its
  -- text, and the position behind it; so what mp_encode accepts is never too deep for mp_decode.
  pub decode-encode :
      (v : Value) (i : ℕ) (bytes : List ℕ)
      → encode v ≡ some bytes
      → Sendable v
      → i ≤ length b
      → Holds b i bytes
      → decode double_of widen (suc max_depth) b i ≡ some (some (wire v, i + length bytes))
  unfolding encode
  decode-encode v i bytes e ok le h =
      value_Reads v 0 max_depth i bytes (enter-some 0 (encode_1 1 v) bytes e).1 ok (omega arith) le
        h

whole_Holds : (pre xs : List ℕ) → Holds (pre ++ xs) (length pre) xs
whole_Holds pre [] = tt
whole_Holds pre (x ∷ xs) =
    let here : get_elem? (pre ++ x ∷ xs) (length pre) ≡ some x =
      let e : length pre + 0 ≡ length pre = omega arith in
      ap (get_elem? (pre ++ x ∷ xs)) (sym e) ∙ get_elem?-append pre (x ∷ xs) 0 in
    let shift : (pre ++ x ∷ []) ++ xs ≡ pre ++ x ∷ xs = append_assoc pre (x ∷ []) xs in
    let size : length (pre ++ x ∷ []) ≡ length pre + 1 = length-append pre (x ∷ []) in
    (here, rw (shift, size) at (whole_Holds (pre ++ x ∷ []) xs))

-- msgpack-decode of the blob that msgpack-encode makes of a value of the program, whose texts
-- have at most INT_MAX bytes and whose lists are proper, is that value, with a character as its
-- code, a symbol as its text, and a list up to its first cell whose content is NULL.
pub decode_all-encode :
    (double_of : ℤ → ℕ) (widen : ℕ → ℕ) (v : Value) (bytes : List ℕ)
    → encode v ≡ some bytes
    → Sendable v
    → decode_all double_of widen bytes ≡ some (some (wire v))
unfolding decode_all
decode_all-encode double_of widen v bytes e ok =
    let run =
      decode-encode double_of widen bytes v 0 bytes e ok (omega arith) (whole_Holds [] bytes) in
    let all : (0 + length bytes == length bytes) ≡ true = ground arith in rw (run, ◌>>=◌, all) refl
