-- ===== src/Utf8/Walk.antt =====
-- The functions on codepoint positions, over a text that is the encoding of a list of codepoints,
-- and over any text.
use alcove.Base.{
  ℕ, zero, suc, ◌+◌, ◌-◌, ◌/◌, ◌%◌, ◌^◌, ◌<◌, ◌≤◌, ◌≡◌, refl, ap, List, [], ◌∷◌, ◌++◌, none, some,
  true, false, arith, dec_lt, ltb, ◌==◌, length, length-append, take, min, get_elem?, append_assoc,
  ◌∙◌, Bool-cases, inl, inr, ◌>>=◌, pos, negsuc, ltb_ℤ, lt→ltb, append-nil,
}
use alcove.Utf8.{
  encode, read, decode_at, strlen_loop, strlen, index_loop, index, byte_offset_loop, byte_offset,
  count_bytes_loop, count_bytes,
}
use alcove.Utf8.Bytes.{encode_sums}
use alcove.Utf8.Decode.{
  read-append_start, decode_at-encode, IsText, read-IsText, decode_at_moves, read_end,
}

-- The bytes of a list of codepoints.
unfoldable pub encode_all : List ℕ → List ℕ
encode_all [] = []
encode_all (cp ∷ cps) = encode cp ++ encode_all cps

-- No NUL, and not more than the 21 bits that four bytes carry.
abbrev pub AreEncodable : List ℕ → Type 0
AreEncodable [] = Unit
AreEncodable (cp ∷ cps) = (0 < cp) × (cp < 2 ^ 21) × AreEncodable cps

pub encode_start :
    (cp : ℕ) → 0 < cp → cp < 2 ^ 21 → (b : ℕ) × (bs : List ℕ) × (encode cp ≡ b ∷ bs) × (0 < b)
encode_start cp positive small = rw (encode_sums cp small) (elim (Bool-cases (ltb cp 0x80)) [
  | inl a ↦ (cp, [], rw a, positive)
  | inr na ↦ elim (Bool-cases (ltb cp 0x800)) [
    | inl b ↦ (192 + cp / 64, (128 + cp % 64) ∷ [], rw (na, b), omega arith)
    | inr nb ↦ elim (Bool-cases (ltb cp 0x10000)) [
      | inl c ↦ (
        224 + cp / 4096,
        (128 + cp / 64 % 64) ∷ (128 + cp % 64) ∷ [],
        rw (na, nb, c),
        omega arith,
      )
      | inr nc ↦ (
        240 + cp / 262144,
        (128 + cp / 4096 % 64) ∷ (128 + cp / 64 % 64) ∷ (128 + cp % 64) ∷ [],
        rw (na, nb, nc),
        omega arith,
      )
    ]
  ]
])

pub length-encode_pos : (cp : ℕ) → cp < 2 ^ 21 → 0 < length (encode cp)
length-encode_pos cp small = rw (encode_sums cp small) (ground arith)

pub length-encode_all : (cps : List ℕ) → AreEncodable cps → length cps ≤ length (encode_all cps)
unfolding encode_all
length-encode_all [] e = omega arith
length-encode_all (cp ∷ cps) e =
    rw length-append (omega (arith, length-encode_all cps e.2, length-encode_pos cp e.1))

-- What one round of a loop sees at the start of an encoded codepoint.
record Round (s : List ℕ) (off cp next : ℕ) : Type 0 where
  first : ℕ
  reads : read s off ≡ some first
  nonzero : (first == 0) ≡ false
  decodes : decode_at s off ≡ some (cp, next)

module _ (s pre : List ℕ) where
  next-Round :
      (cp : ℕ) (rest : List ℕ)
      → 0 < cp
      → cp < 2 ^ 21
      → s ≡ pre ++ (encode cp ++ rest)
      → Round s (length pre) cp (length (pre ++ encode cp))
  unfolding read
  next-Round cp rest positive small here =
      let (b, bs, e, above) = encode_start cp positive small in
      record {
        first = b;
        reads = rw (here, read-append_start pre (encode cp ++ rest), e);
        nonzero = ground arith;
        decodes = rw (here, length-append) (decode_at-encode pre rest cp small);
      }

  next_text :
      (cp : ℕ) (rest : List ℕ) → s ≡ pre ++ (encode cp ++ rest) → s ≡ pre ++ encode cp ++ rest
  next_text cp rest here = rw append_assoc here

  end_reads : s ≡ pre ++ [] → read s (length pre) ≡ some 0
  end_reads here = rw (here, append-nil) (read_end pre)

take-nil : (n : ℕ) → take {A = ℕ} n [] ≡ []
take-nil zero = refl
take-nil (suc n) = refl

module _ (s : List ℕ) where
  strlen_walk :
      (fuel : ℕ) (cps pre : List ℕ) (n : ℕ)
      → AreEncodable cps
      → s ≡ pre ++ encode_all cps
      → length cps < fuel
      → strlen_loop fuel s (length pre) n ≡ some (n + length cps)
  unfolding strlen_loop encode_all
  strlen_walk zero cps pre n e here h = absurd (omega arith)
  strlen_walk (suc fuel) [] pre n e here h =
      rw (end_reads s pre here, ◌>>=◌) (ap some (omega arith))
  strlen_walk (suc fuel) (cp ∷ cps) pre n e here h =
      let r = next-Round s pre cp (encode_all cps) e.0 e.1 here in
      let later = next_text s pre cp (encode_all cps) here in
      rw (r.reads, ◌>>=◌, r.nonzero, r.decodes)
        (strlen_walk fuel cps (pre ++ encode cp) (n + 1) e.2 later (omega arith)
          ∙ ap some (omega arith))

  index_walk :
      (fuel : ℕ) (cps pre : List ℕ) (i k : ℕ)
      → AreEncodable cps
      → s ≡ pre ++ encode_all cps
      → length cps < fuel
      → k ≤ i
      → index_loop fuel s (pos i) (length pre) k ≡ some (get_elem? cps (i - k))
  unfolding index_loop encode_all
  index_walk zero cps pre i k e here h le = absurd (omega arith)
  index_walk (suc fuel) [] pre i k e here h le = rw (end_reads s pre here, ◌>>=◌)
  index_walk (suc fuel) (cp ∷ cps) pre i k e here h le =
      let r = next-Round s pre cp (encode_all cps) e.0 e.1 here in
      let later = next_text s pre cp (encode_all cps) here in
      rw (r.reads, ◌>>=◌, r.nonzero, r.decodes)
        (elim (Bool-cases (k == i)) [
          | inl t ↦ let z : i - k ≡ 0 = ground arith in rw (t, z)
          | inr f ↦
              let z : i - k ≡ suc (i - (k + 1)) = ground arith in
              rw (f, z)
                (index_walk fuel cps (pre ++ encode cp) i (k + 1) e.2 later (omega arith)
                  (ground arith))
        ])

  byte_offset_walk :
      (fuel : ℕ) (cps pre : List ℕ) (i k : ℕ)
      → AreEncodable cps
      → s ≡ pre ++ encode_all cps
      → length cps < fuel
      → byte_offset_loop fuel s (pos i) (length pre) k
        ≡ some (length pre + length (encode_all (take (i - k) cps)))
  unfolding byte_offset_loop encode_all
  byte_offset_walk zero cps pre i k e here h = absurd (omega arith)
  byte_offset_walk (suc fuel) [] pre i k e here h =
      rw (end_reads s pre here, ◌>>=◌) (ap some (rw (take-nil (i - k)) (omega arith)))
  byte_offset_walk (suc fuel) (cp ∷ cps) pre i k e here h =
      let r = next-Round s pre cp (encode_all cps) e.0 e.1 here in
      let later = next_text s pre cp (encode_all cps) here in
      rw (r.reads, ◌>>=◌, r.nonzero)
        (elim (Bool-cases (ltb_ℤ (pos k) (pos i))) [
          | inr past ↦ let z : i - k ≡ 0 = ground arith in rw (past, z) (ap some (omega arith))
          | inl more ↦
              let z : i - k ≡ suc (i - (k + 1)) = ground arith in
              let ih =
                byte_offset_walk fuel cps (pre ++ encode cp) i (k + 1) e.2 later (omega arith) in
              let total = length-append (encode cp) (encode_all (take (i - (k + 1)) cps)) in
              rw (more, r.decodes, z, ◌>>=◌)
                (ih ∙ ap some (omega (arith, length-append pre (encode cp), total)))
        ])

  count_bytes_walk :
      (fuel : ℕ) (cps pre : List ℕ) (i n stop : ℕ)
      → AreEncodable cps
      → s ≡ pre ++ encode_all cps
      → length cps < fuel
      → stop ≡ length pre + length (encode_all (take i cps))
      → count_bytes_loop fuel s stop (length pre) n ≡ some (n + min i (length cps))
  unfolding count_bytes_loop encode_all
  count_bytes_walk zero cps pre i n stop e here h at_stop = absurd (omega arith)
  count_bytes_walk (suc fuel) cps pre zero n stop e here h at_stop =
      let past : ltb (length pre) stop ≡ false = ground arith in
      rw (past, count_bytes_loop) (ap some (omega arith))
  count_bytes_walk (suc fuel) [] pre (suc i) n stop e here h at_stop =
      let past : ltb (length pre) stop ≡ false = ground arith in
      rw (past, count_bytes_loop) (ap some (omega arith))
  count_bytes_walk (suc fuel) (cp ∷ cps) pre (suc i) n stop e here h at_stop =
      let r = next-Round s pre cp (encode_all cps) e.0 e.1 here in
      let later = next_text s pre cp (encode_all cps) here in
      let grown = length-append pre (encode cp) in
      let total = length-append (encode cp) (encode_all (take i cps)) in
      let more : ltb (length pre) stop ≡ true =
        lt→ltb _ _ (omega (arith, total, length-encode_pos cp e.1)) in
      let ih =
        count_bytes_walk fuel cps (pre ++ encode cp) i (n + 1) stop e.2 later (omega arith)
          (omega arith) in
      rw (more, count_bytes_loop, r.reads, ◌>>=◌, r.nonzero, r.decodes) (ih ∙ ap some (omega arith))

module _ (cps : List ℕ) (e : AreEncodable cps) where
  -- utf8_strlen of the encodings of codepoints other than 0 is their number.
  pub strlen-encode_all : strlen (encode_all cps) ≡ some (length cps)
  unfolding strlen
  strlen-encode_all =
      strlen_walk (encode_all cps) _ cps [] 0 e refl (omega (arith, length-encode_all cps e))
      ∙ ap some (omega arith)

  -- utf8_index finds in the encodings of codepoints other than 0 the codepoint at each index
  -- below their number, and none at a later or a negative index.
  pub index-encode_all :
      (i : ℕ)
      → (index (encode_all cps) (pos i) ≡ some (get_elem? cps i))
        × (index (encode_all cps) (negsuc i) ≡ some none)
  unfolding index
  index-encode_all i =
      let walk =
        index_walk (encode_all cps) (length (encode_all cps) + 1) cps [] i 0 e refl
          (omega (arith, length-encode_all cps e)) (omega arith) in
      let same : i - 0 ≡ i = omega arith in
      let nonneg : ltb_ℤ (pos i) (pos 0) ≡ false = ground arith in
      let negative : ltb_ℤ (negsuc i) (pos 0) ≡ true = ground arith in
      (rw nonneg (rw same at walk), rw negative)

  -- On the encodings of codepoints other than 0, utf8_count_bytes undoes utf8_byte_offset, up to
  -- the number of codepoints.
  pub byte_offset-count_bytes :
      (i : ℕ)
      → (byte_offset (encode_all cps) (pos i) >>= count_bytes (encode_all cps))
        ≡ some (min i (length cps))
  unfolding byte_offset count_bytes
  byte_offset-count_bytes i =
      let enough : length cps < length (encode_all cps) + 1 =
        omega (arith, length-encode_all cps e) in
      let start = byte_offset_walk (encode_all cps) _ cps [] i 0 e refl enough in
      let same : i - 0 ≡ i = omega arith in
      let back = count_bytes_walk (encode_all cps) _ cps [] i 0 _ e refl enough refl in
      rw (start, ◌>>=◌, same, back) (ap some (omega arith))

-- On any text the loop of `utf8_strlen` ends within its fuel, and counts at most one codepoint
-- for each byte.
strlen_total_from :
    (s : List ℕ) (fuel off n : ℕ)
    → IsText s
    → off ≤ length s
    → length s < off + fuel
    → (m : ℕ) × (strlen_loop fuel s off n ≡ some m) × (m + off ≤ n + length s)
unfolding strlen_loop
strlen_total_from s zero off n t inside enough = absurd (omega arith)
strlen_total_from s (suc fuel) off n t inside enough = elim (dec_lt off (length s)) [
  | no p ↦ let e : off ≡ length s = omega arith in (n, rw (e, read_end s, ◌>>=◌), omega arith)
  | yes p ↦
      let (c, reads, positive, _) = read-IsText s off t p in
      let nonzero : (c == 0) ≡ false = ground arith in
      let (cp, next, run, forward, bounded) = decode_at_moves s off t p in
      let (m, rest, le) = strlen_total_from s fuel next (n + 1) t (omega arith) (omega arith) in
      (m, rw (reads, ◌>>=◌, nonzero, run) rest, omega arith)
]

-- utf8_strlen returns for every NUL-terminated text of bytes, malformed or not, with no more than
-- the number of bytes.
pub strlen_total : (s : List ℕ) → IsText s → (m : ℕ) × (strlen s ≡ some m) × (m ≤ length s)
unfolding strlen
strlen_total s t =
    let (m, run, le) = strlen_total_from s (length s + 1) 0 0 t (omega arith) (omega arith) in
    (m, run, omega arith)
