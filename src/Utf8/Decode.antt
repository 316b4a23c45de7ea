-- ===== src/Utf8/Decode.antt =====
-- `utf8_decode_at` reads back what `utf8_encode` wrote, and on any text moves forward without
-- passing the terminator.
use alcove.Base.{
  ℕ, zero, suc, ◌+◌, ◌*◌, ◌/◌, ◌%◌, ◌^◌, ◌<◌, ◌≤◌, ◌≡◌, refl, List, [], ◌∷◌, ◌++◌, Option, some,
  false, arith, dec_lt, ltb, ltb→lt, ◌∙◌, length, Bool-cases, Option-cases, inl, inr, ◌>>=◌,
}
use alcove.Utf8.{encode, read, lead, is_continuation, push_bits, decode_rest, decode_at}
use alcove.Utf8.Bytes.{is_continuation_iff, lead_ranges, push_bits_sum, encode_sums}

pub read-append : (pre s : List ℕ) (i : ℕ) → read (pre ++ s) (length pre + i) ≡ read s i
unfolding read
read-append [] s i = let e : 0 + i ≡ i = omega arith in rw e
read-append (c ∷ pre) s i =
    let e : suc (length pre) + i ≡ suc (length pre + i) = omega arith in rw e (read-append pre s i)

pub read-append_start : (pre s : List ℕ) → read (pre ++ s) (length pre) ≡ read s 0
read-append_start pre s =
    let e : length pre ≡ length pre + 0 = omega arith in rw e (read-append pre s 0)

module _ (s : List ℕ) (off : ℕ) where
  decode_ascii : (cp : ℕ) → cp < 0x80 → read s off ≡ some cp → decode_at s off ≡ some (cp, off + 1)
  unfolding decode_at
  decode_ascii cp h e = ground arith

  decode_two :
      (b x : ℕ)
      → 192 ≤ b
      → b < 224
      → 128 ≤ x
      → x < 192
      → read s off ≡ some b
      → read s (off + 1) ≡ some x
      → decode_at s off ≡ some (b % 32 * 64 + x % 64, off + 2)
  unfolding decode_at decode_rest
  decode_two b x l h lx hx e f =
      ground (arith, lead_ranges b, is_continuation_iff x, push_bits_sum (b % 32) x)

  decode_three :
      (b x y : ℕ)
      → 224 ≤ b
      → b < 240
      → 128 ≤ x
      → x < 192
      → 128 ≤ y
      → y < 192
      → read s off ≡ some b
      → read s (off + 1) ≡ some x
      → read s (off + 2) ≡ some y
      → decode_at s off ≡ some ((b % 16 * 64 + x % 64) * 64 + y % 64, off + 3)
  unfolding decode_at decode_rest
  decode_three b x y l h lx hx ly hy e f g = ground (
    arith,
    lead_ranges b,
    is_continuation_iff x,
    is_continuation_iff y,
    push_bits_sum (b % 16) x,
    push_bits_sum (b % 16 * 64 + x % 64) y,
  )

  decode_four :
      (b x y z : ℕ)
      → 240 ≤ b
      → b < 248
      → 128 ≤ x
      → x < 192
      → 128 ≤ y
      → y < 192
      → 128 ≤ z
      → z < 192
      → read s off ≡ some b
      → read s (off + 1) ≡ some x
      → read s (off + 2) ≡ some y
      → read s (off + 3) ≡ some z
      → decode_at s off ≡ some (((b % 8 * 64 + x % 64) * 64 + y % 64) * 64 + z % 64, off + 4)
  unfolding decode_at decode_rest
  decode_four b x y z l h lx hx ly hy lz hz e f g k = ground (
    arith,
    lead_ranges b,
    is_continuation_iff x,
    is_continuation_iff y,
    is_continuation_iff z,
    push_bits_sum (b % 8) x,
    push_bits_sum (b % 8 * 64 + x % 64) y,
    push_bits_sum ((b % 8 * 64 + x % 64) * 64 + y % 64) z,
  )

-- Bytes that are not the terminator.
abbrev pub IsText : List ℕ → Type 0
IsText [] = Unit
IsText (c ∷ s) = (0 < c) × (c < 256) × IsText s

pub read-IsText :
    (s : List ℕ) (i : ℕ)
    → IsText s
    → i < length s
    → (c : ℕ) × (read s i ≡ some c) × (0 < c) × (c < 256)
unfolding read
read-IsText [] i t h = absurd (omega arith)
read-IsText (c ∷ s) zero t h = (c, refl, t.0, t.1)
read-IsText (c ∷ s) (suc i) t h = read-IsText s i t.2 (omega arith)

pub read_end : (s : List ℕ) → read s (length s) ≡ some 0
unfolding read
read_end [] = refl
read_end (c ∷ s) = read_end s

zero_not_continuation : is_continuation 0 ≡ false
unfolding is_continuation
zero_not_continuation = refl

-- A result of the decoder that lies behind `off` and not behind the terminator.
abbrev pub MovesIn : List ℕ → ℕ → Option (ℕ × ℕ) → Type 0
MovesIn s off r = (cp : ℕ) × (next : ℕ) × (r ≡ some (cp, next)) × (off < next) × (next ≤ length s)

decode_rest_moves :
    (s : List ℕ) (off c left i cp : ℕ)
    → IsText s
    → 1 ≤ i
    → off + i ≤ length s
    → MovesIn s off (decode_rest s off c left i cp)
unfolding decode_rest
decode_rest_moves s off c zero i cp t pos fits = (cp, off + i, refl, omega arith, omega arith)
decode_rest_moves s off c (suc left) i cp t pos fits = elim (dec_lt (off + i) (length s)) [
  | no p ↦
      let e : off + i ≡ length s = omega arith in
      (c, off + 1, rw (e, read_end s, ◌>>=◌, zero_not_continuation), omega arith, omega arith)
  | yes p ↦
      let (cc, reads, _, _) = read-IsText s (off + i) t p in
      elim (Bool-cases (is_continuation cc)) [
        | inl more ↦
            let (cp', next, run, forward, inside) =
              decode_rest_moves s off c left (i + 1) (push_bits cp cc) t (omega arith)
                (omega arith) in
            (cp', next, rw (reads, ◌>>=◌, more) run, forward, inside)
        | inr stop ↦ (c, off + 1, rw (reads, ◌>>=◌, stop), omega arith, omega arith)
      ]
]

-- utf8_decode_at on bytes reads nothing past the terminator and moves forward, to the terminator
-- at most.
pub decode_at_moves :
    (s : List ℕ) (off : ℕ) → IsText s → off < length s → MovesIn s off (decode_at s off)
unfolding decode_at
decode_at_moves s off t inside =
    let (c, reads, _, _) = read-IsText s off t inside in
    elim (Bool-cases (ltb c 0x80)) [
      | inl ascii ↦ (c, off + 1, rw (reads, ◌>>=◌, ascii), omega arith, omega arith)
      | inr high ↦ elim (Option-cases (lead c)) [
        | inl e ↦ (c, off + 1, rw (reads, ◌>>=◌, high, e), omega arith, omega arith)
        | inr (p, e) ↦
            let (cp', next, run, forward, bounded) =
              decode_rest_moves s off c p.1 1 p.0 t (omega arith) (omega arith) in
            (cp', next, rw (reads, ◌>>=◌, high, e) run, forward, bounded)
      ]
    ]

module _ (pre rest : List ℕ) (cp : ℕ) where
  after_one : cp < 0x80 → decode_at (pre ++ cp ∷ rest) (length pre) ≡ some (cp, length pre + 1)
  unfolding read
  after_one h =
      decode_ascii (pre ++ cp ∷ rest) (length pre) cp h (read-append_start pre (cp ∷ rest))

  abbrev two_bytes : List ℕ
  two_bytes = (192 + cp / 64) ∷ (128 + cp % 64) ∷ rest

  after_two : cp < 0x800 → decode_at (pre ++ two_bytes) (length pre) ≡ some (cp, length pre + 2)
  unfolding read
  after_two h =
      decode_two (pre ++ two_bytes) (length pre) (192 + cp / 64) (128 + cp % 64) (omega arith)
        (omega arith) (omega arith) (omega arith) (read-append_start pre two_bytes)
        (read-append pre two_bytes 1)
      ∙ ground arith

  abbrev three_bytes : List ℕ
  three_bytes = (224 + cp / 4096) ∷ (128 + cp / 64 % 64) ∷ (128 + cp % 64) ∷ rest

  after_three :
      cp < 0x10000 → decode_at (pre ++ three_bytes) (length pre) ≡ some (cp, length pre + 3)
  unfolding read
  after_three h =
      decode_three (pre ++ three_bytes) (length pre) (224 + cp / 4096) (128 + cp / 64 % 64)
        (128 + cp % 64) (omega arith) (omega arith) (omega arith) (omega arith) (omega arith)
        (omega arith) (read-append_start pre three_bytes) (read-append pre three_bytes 1)
        (read-append pre three_bytes 2)
      ∙ ground arith

  abbrev four_bytes : List ℕ
  four_bytes =
      (240 + cp / 262144) ∷ (128 + cp / 4096 % 64) ∷ (128 + cp / 64 % 64) ∷ (128 + cp % 64) ∷ rest

  after_four : cp < 2 ^ 21 → decode_at (pre ++ four_bytes) (length pre) ≡ some (cp, length pre + 4)
  unfolding read
  after_four h =
      decode_four (pre ++ four_bytes) (length pre) (240 + cp / 262144) (128 + cp / 4096 % 64)
        (128 + cp / 64 % 64) (128 + cp % 64) (omega arith) (omega arith) (omega arith) (omega arith)
        (omega arith) (omega arith) (omega arith) (omega arith) (read-append_start pre four_bytes)
        (read-append pre four_bytes 1) (read-append pre four_bytes 2) (read-append pre four_bytes 3)
      ∙ ground arith

  -- utf8_decode_at at the encoding of a codepoint, within any text, returns the codepoint and the
  -- offset behind it.
  pub decode_at-encode :
      cp < 2 ^ 21
      → decode_at (pre ++ (encode cp ++ rest)) (length pre)
        ≡ some (cp, length pre + length (encode cp))
  decode_at-encode small = rw (encode_sums cp small) (elim (Bool-cases (ltb cp 0x80)) [
    | inl a ↦ rw a (after_one (ltb→lt _ _ a))
    | inr na ↦ elim (Bool-cases (ltb cp 0x800)) [
      | inl b ↦ rw (na, b) (after_two (ltb→lt _ _ b))
      | inr nb ↦ elim (Bool-cases (ltb cp 0x10000)) [
        | inl c ↦ rw (na, nb, c) (after_three (ltb→lt _ _ c))
        | inr nc ↦ rw (na, nb, nc) (after_four small)
      ]
    ]
  ])
