-- ===== src/Msgpack/Total.antt =====
-- `mp_decode` on any bytes: it ends, within the buffer.
use alcove.Base.{
  ℕ, zero, suc, ◌+◌, ◌-◌, ◌^◌, ◌<◌, ◌≤◌, ◌≡◌, refl, List, none, some, Bool, true, false, ◌||◌,
  arith, ltb, leb, ◌==◌, if◌then◌else◌, get_elem?-lt, get_elem?_within, length, Bool-cases,
  Option-cases, inl, inr, bit_or, bit_and, u64, ◌<<◌, ◌>>=◌, ℤ,
}
use alcove.Msgpack.{get_from, get_be, decode_unsigned, decode_signed, int_arm}
use alcove.Msgpack.Value.{Value, Fields, no_fields}
use alcove.Msgpack.Decode.{
  Decoded, decoded, read_size, c_text, insert_field, string_key, decode_items, decode_fields,
  decode_array, decode_map, decode_fixstr, decode_string, decode_blob, decode_sized, is_int,
  decode_arm, decode,
}

get_from-Returns :
    (n v : ℕ) (b : List ℕ) (i : ℕ) → i + n ≤ length b → (w : ℕ) × (get_from v b i n ≡ some w)
unfolding get_from
get_from-Returns zero v b i le = (v, refl)
get_from-Returns (suc n) v b i le =
    let (byte, at) = get_elem?_within b i (omega arith) in
    let (w, run) = get_from-Returns n (bit_or (u64 (v << 8)) byte) b (i + 1) (omega arith) in
    (w, rw (at, ◌>>=◌) run)

module _ (b : List ℕ) where
  -- No fault, and a position that has moved from `i` within the buffer.
  abbrev pub Moves : {A : Type 0} → ℕ → Decoded A → Type 0
  Moves i none = ⊥
  Moves i (some none) = Unit
  Moves i (some (some (a, j))) = (i ≤ j) × (j ≤ length b)

  -- The same with at least one byte taken.
  abbrev pub Progresses : {A : Type 0} → ℕ → Decoded A → Type 0
  Progresses i none = ⊥
  Progresses i (some none) = Unit
  Progresses i (some (some (a, j))) = (i < j) × (j ≤ length b)

  Progresses-Moves : {A : Type 0} (r : Decoded A) (i : ℕ) → Progresses i r → Moves i r
  Progresses-Moves none i h = elim h [ ]
  Progresses-Moves (some none) i h = tt
  Progresses-Moves (some (some (a, j))) i (p, q) = (omega arith, q)

  Progresses-step : {A : Type 0} (r : Decoded A) (i : ℕ) → Moves (i + 1) r → Progresses i r
  Progresses-step none i h = elim h [ ]
  Progresses-step (some none) i h = tt
  Progresses-step (some (some (a, j))) i (p, q) = (omega arith, q)

  if-Moves :
      {A : Type 0} (t : Bool) (x y : Decoded A) (i : ℕ)
      → (t ≡ true → Moves i x)
      → (t ≡ false → Moves i y)
      → Moves i (if t then x else y)
  if-Moves true x y i h k = h refl
  if-Moves false x y i h k = k refl

  Moves-le : {A : Type 0} (r : Decoded A) (i j : ℕ) → i ≤ j → Moves j r → Moves i r
  Moves-le none i j le h = elim h [ ]
  Moves-le (some none) i j le h = tt
  Moves-le (some (some (a, k))) i j le (p, q) = (omega arith, q)

  decoded-Moves :
      {A B : Type 0} (r : Decoded A) (f : A → ℕ → Decoded B) (i : ℕ)
      → Moves i r
      → ((a : A) (j : ℕ) → i ≤ j → j ≤ length b → Moves j (f a j))
      → Moves i (decoded r f)
  decoded-Moves none f i h next = elim h [ ]
  decoded-Moves (some none) f i h next = tt
  decoded-Moves (some (some (a, j))) f i (p, q) next = Moves-le (f a j) i j p (next a j p q)

  read_size-Moves : (i nb : ℕ) → Moves i (read_size b i nb)
  unfolding read_size get_be
  read_size-Moves i nb =
      if-Moves (ltb (length b) (i + nb)) _ _ i (λ _. tt)
        λ room.
          let (w, run) = get_from-Returns nb 0 b i (ground arith) in
          rw (run, ◌>>=◌) (omega arith, ground arith)

  decode_unsigned-Moves : (i nb : ℕ) → Moves i (decode_unsigned b i nb)
  unfolding decode_unsigned get_be
  decode_unsigned-Moves i nb =
      if-Moves (ltb (length b) (i + nb)) _ _ i (λ _. tt)
        λ room.
          let (w, run) = get_from-Returns nb 0 b i (ground arith) in
          rw (run, ◌>>=◌)
            (if-Moves (ltb nb 8 || ltb w (2 ^ 63)) _ _ i (λ _. (omega arith, ground arith))
              (λ _. (omega arith, ground arith)))

  decode_signed-Moves : (i nb : ℕ) → Moves i (decode_signed b i nb)
  unfolding decode_signed get_be
  decode_signed-Moves i nb =
      if-Moves (ltb (length b) (i + nb)) _ _ i (λ _. tt)
        λ room.
          let (w, run) = get_from-Returns nb 0 b i (ground arith) in
          rw (run, ◌>>=◌) (omega arith, ground arith)

  int_arm-Moves : (i c : ℕ) → i ≤ length b → Moves i (int_arm b i c)
  unfolding int_arm
  int_arm-Moves i c le =
      if-Moves (leb c 0x7F) _ _ i (λ _. (omega arith, le))
        λ _.
          if-Moves (leb 0xE0 c) _ _ i (λ _. (omega arith, le))
            λ _.
              if-Moves (c == 0xCC) _ _ i (λ _. decode_unsigned-Moves i 1)
                λ _.
                  if-Moves (c == 0xCD) _ _ i (λ _. decode_unsigned-Moves i 2)
                    λ _.
                      if-Moves (c == 0xCE) _ _ i (λ _. decode_unsigned-Moves i 4)
                        λ _.
                          if-Moves (c == 0xCF) _ _ i (λ _. decode_unsigned-Moves i 8)
                            λ _.
                              if-Moves (c == 0xD0) _ _ i (λ _. decode_signed-Moves i 1)
                                λ _.
                                  if-Moves (c == 0xD1) _ _ i (λ _. decode_signed-Moves i 2)
                                    λ _.
                                      if-Moves (c == 0xD2) _ _ i (λ _. decode_signed-Moves i 4)
                                        λ _.
                                          if-Moves (c == 0xD3) _ _ i (λ _. decode_signed-Moves i 8)
                                            λ _. tt

  decode_fixstr-Moves : (i n : ℕ) → Moves i (decode_fixstr b i n)
  unfolding decode_fixstr
  decode_fixstr-Moves i n =
      if-Moves (ltb (length b) (i + n)) _ _ i (λ _. tt) λ room. (omega arith, ground arith)

  decode_string-Moves : (i nb : ℕ) → Moves i (decode_string b i nb)
  unfolding decode_string
  decode_string-Moves i nb = decoded-Moves (read_size b i nb) _ i (read_size-Moves i nb) λ n j p q.
      if-Moves (ltb (length b - j) n) _ _ j (λ _. tt)
        λ room. if-Moves (ltb 2147483647 n) _ _ j (λ _. tt) λ _. (omega arith, ground arith)

  decode_blob-Moves : (i nb : ℕ) → Moves i (decode_blob b i nb)
  unfolding decode_blob
  decode_blob-Moves i nb =
      decoded-Moves (read_size b i nb) _ i (read_size-Moves i nb) λ n j p q.
        if-Moves (ltb (length b - j) n) _ _ j (λ _. tt) λ room. (omega arith, ground arith)

  decode_sized-Moves :
      (go : ℕ → ℕ → Decoded Value) (i nb : ℕ)
      → ((n j : ℕ) → j ≤ length b → Moves j (go n j))
      → Moves i (decode_sized go b i nb)
  unfolding decode_sized
  decode_sized-Moves go i nb h =
      decoded-Moves (read_size b i nb) _ i (read_size-Moves i nb)
        λ n j p q. if-Moves (ltb (length b - j) n) _ _ j (λ _. tt) λ room. h n j q

  module _ (go : ℕ → Decoded Value) (moves : (i : ℕ) → i ≤ length b → Moves i (go i)) where
    decode_items-Moves : (n i : ℕ) → i ≤ length b → Moves i (decode_items go n i)
    unfolding decode_items
    decode_items-Moves zero i le = (omega arith, le)
    decode_items-Moves (suc n) i le = decoded-Moves (go i) _ i (moves i le) λ x j p q.
        decoded-Moves (decode_items go n j) _ j (decode_items-Moves n j q)
          λ xs k p' q'. (omega arith, q')

    decode_fields-Moves :
        (n : ℕ) (fs : Fields) (i : ℕ) → i ≤ length b → Moves i (decode_fields go n fs i)
    unfolding decode_fields
    decode_fields-Moves zero fs i le = (omega arith, le)
    decode_fields-Moves (suc n) fs i le = decoded-Moves (go i) _ i (moves i le) λ x j p q.
        elim (Option-cases (string_key x)) [
          | inl no_key ↦ rw no_key tt
          | inr (key, has) ↦ rw has (
              decoded-Moves (go j) _ j (moves j q)
                λ v k p' q'. decode_fields-Moves n (insert_field (c_text key) v fs) k q')
        ]

    decode_array-Moves : (n i : ℕ) → i ≤ length b → Moves i (decode_array go n i)
    unfolding decode_array
    decode_array-Moves n i le =
        decoded-Moves (decode_items go n i) _ i (decode_items-Moves n i le)
          λ xs j p q. (omega arith, q)

    decode_map-Moves : (n i : ℕ) → i ≤ length b → Moves i (decode_map go n i)
    unfolding decode_map
    decode_map-Moves n i le =
        decoded-Moves (decode_fields go n no_fields i) _ i (decode_fields-Moves n no_fields i le)
          λ fs j p q. (omega arith, q)

    decode_arm-Moves :
        (double_of : ℤ → ℕ) (widen : ℕ → ℕ) (i c : ℕ)
        → i ≤ length b
        → Moves i (decode_arm double_of widen go b i c)
    unfolding decode_arm
    decode_arm-Moves double_of widen i c le =
        if-Moves (is_int c) _ _ i
          (λ _.
            decoded-Moves (int_arm b i c) _ i (int_arm-Moves i c le) λ n j p q. (omega arith, q))
          λ _.
            if-Moves (bit_and c 0xE0 == 0xA0) _ _ i (λ _. decode_fixstr-Moves i (bit_and c 0x1F))
              λ _.
                if-Moves (bit_and c 0xF0 == 0x90) _ _ i
                  (λ _. decode_array-Moves (bit_and c 0x0F) i le)
                  λ _.
                    if-Moves (bit_and c 0xF0 == 0x80) _ _ i
                      (λ _. decode_map-Moves (bit_and c 0x0F) i le)
                      λ _.
                        if-Moves (c == 0xC0) _ _ i (λ _. (omega arith, le))
                          λ _.
                            if-Moves (c == 0xC2) _ _ i (λ _. (omega arith, le))
                              λ _.
                                if-Moves (c == 0xC3) _ _ i (λ _. (omega arith, le))
                                  λ _.
                                    if-Moves (c == 0xCA) _ _ i
                                      (λ _.
                                        decoded-Moves (read_size b i 4) _ i (read_size-Moves i 4)
                                          λ n j p q. (omega arith, q))
                                      λ _.
                                        if-Moves (c == 0xCB) _ _ i
                                          (λ _.
                                            decoded-Moves (read_size b i 8) _ i
                                              (read_size-Moves i 8) λ n j p q. (omega arith, q))
                                          λ _.
                                            if-Moves (c == 0xD9) _ _ i
                                              (λ _. decode_string-Moves i 1)
                                              λ _.
                                                if-Moves (c == 0xDA) _ _ i
                                                  (λ _. decode_string-Moves i 2)
                                                  λ _.
                                                    if-Moves (c == 0xDB) _ _ i
                                                      (λ _. decode_string-Moves i 4)
                                                      λ _.
                                                        if-Moves (c == 0xC4) _ _ i
                                                          (λ _. decode_blob-Moves i 1)
                                                          λ _.
                                                            if-Moves (c == 0xC5) _ _ i
                                                            (λ _. decode_blob-Moves i 2)
                                                            λ _.
                                                            if-Moves (c == 0xC6) _ _ i
                                                            (λ _. decode_blob-Moves i 4)
                                                            λ _.
                                                            if-Moves (c == 0xDC) _ _ i
                                                            (λ _.
                                                            decode_sized-Moves (decode_array go) i 2
                                                            decode_array-Moves)
                                                            λ _.
                                                            if-Moves (c == 0xDD) _ _ i
                                                            (λ _.
                                                            decode_sized-Moves (decode_array go) i 4
                                                            decode_array-Moves)
                                                            λ _.
                                                            if-Moves (c == 0xDE) _ _ i
                                                            (λ _.
                                                            decode_sized-Moves (decode_map go) i 2
                                                            decode_map-Moves)
                                                            λ _.
                                                            if-Moves (c == 0xDF) _ _ i
                                                            (λ _.
                                                            decode_sized-Moves (decode_map go) i 4
                                                            decode_map-Moves)
                                                            λ _. tt

  -- mp_decode, with any number of levels left and at any position in a buffer, ends and reads
  -- nothing outside the buffer; a value that it returns takes up at least one byte of it.
  pub decode-Progresses :
      (double_of : ℤ → ℕ) (widen : ℕ → ℕ) (left i : ℕ)
      → i ≤ length b
      → Progresses i (decode double_of widen left b i)
  unfolding decode
  decode-Progresses double_of widen zero i le = tt
  decode-Progresses double_of widen (suc left) i le = elim (Bool-cases (leb (length b) i)) [
    | inl outside ↦ rw outside tt
    | inr inside ↦
        let (c, here) = get_elem?_within b i (ground arith) in
        rw (inside, here, ◌>>=◌)
          (Progresses-step (decode_arm double_of widen (decode double_of widen left b) b (i + 1) c)
            i
            (decode_arm-Moves (decode double_of widen left b)
              (λ k le'.
                Progresses-Moves (decode double_of widen left b k) k
                  (decode-Progresses double_of widen left k le'))
              double_of widen (i + 1) c (omega (arith, get_elem?-lt b i c here))))
  ]
