-- ===== src/Msgpack/Sizes.antt =====
-- The size prefixes of MessagePack, and the slices of a buffer that holds known bytes.
use alcove.Base.{
  ℕ, zero, suc, ◌+◌, ◌*◌, ◌%◌, ◌^◌, ◌<◌, ◌≤◌, ◌≡◌, refl, sym, ap, ◌∙◌, List, [], ◌∷◌, ◌++◌, none,
  some, true, false, ◌&&◌, not, arith, ltb, leb, ◌==◌, get_elem?, length, drop, Bool-cases, inl,
  inr, bit_or, bit_and, passes, passes-lt, u8, ◌>>=◌,
}
use alcove.Msgpack.{put_be, put_sized}
use alcove.Msgpack.Bytes.{Holds, Holds-length, length-put_be, get_be-put_be}
use alcove.Msgpack.Decode.{slice, read_size}

pub Holds-append :
    (b : List ℕ) (i : ℕ) (xs ys : List ℕ)
    → Holds b i (xs ++ ys)
    → Holds b i xs × Holds b (i + length xs) ys
Holds-append b i [] ys h = let e : i + 0 ≡ i = omega arith in (tt, rw e h)
Holds-append b i (x ∷ xs) ys (here, h) =
    let (front, back) = Holds-append b (i + 1) xs ys h in
    let e : i + suc (length xs) ≡ i + 1 + length xs = omega arith in ((here, front), rw e back)

drop-at : (b : List ℕ) (i x : ℕ) → get_elem? b i ≡ some x → drop i b ≡ x ∷ drop (i + 1) b
drop-at [] i x h = cc
drop-at (y ∷ b) zero x h = let same : y ≡ x = cc in rw same refl
drop-at (y ∷ b) (suc i) x h =
    let e : suc i + 1 ≡ suc (i + 1) = omega arith in rw e (drop-at b i x h)

pub slice-Holds : (b : List ℕ) (i : ℕ) (xs : List ℕ) → Holds b i xs → slice b i (length xs) ≡ xs
slice-Holds b i [] h = refl
slice-Holds b i (x ∷ xs) (here, h) =
    rw (drop-at b i x here) (ap (λ z. x ∷ z) (slice-Holds b (i + 1) xs h))

pub read_size-put_be :
    (b : List ℕ) (i n nb : ℕ)
    → i ≤ length b
    → nb ≤ 8
    → n % 2 ^ (nb * 8) ≡ n
    → Holds b i (put_be n nb)
    → read_size b i nb ≡ some (some (n, i + nb))
unfolding read_size
read_size-put_be b i n nb le small low h =
    let room : ltb (length b) (i + nb) ≡ false =
      ground (arith, Holds-length b i (put_be n nb) le h, length-put_be n nb) in
    rw (room, get_be-put_be nb n b i small h, ◌>>=◌, low) refl

-- The tier that a size prefix is written in.
pub data Prefix (mask lim tag8 tag16 tag32 n : ℕ) : List ℕ → Type 0 where
  fixed :
      {h : List ℕ} → n < lim → h ≡ u8 (bit_or mask n) ∷ [] → Prefix mask lim tag8 tag16 tag32 n h
  one_byte :
      {h : List ℕ}
      → (tag8 == 0) ≡ false
      → n ≤ 0xFF
      → h ≡ tag8 ∷ put_be n 1
      → Prefix mask lim tag8 tag16 tag32 n h
  two_bytes :
      {h : List ℕ} → n ≤ 0xFFFF → h ≡ tag16 ∷ put_be n 2 → Prefix mask lim tag8 tag16 tag32 n h
  four_bytes :
      {h : List ℕ} → n ≤ 0xFFFFFFFF → h ≡ tag32 ∷ put_be n 4 → Prefix mask lim tag8 tag16 tag32 n h

pub put_sized-Prefix :
    (mask lim tag8 tag16 tag32 n : ℕ) (h : List ℕ)
    → put_sized mask lim tag8 tag16 tag32 n ≡ some h
    → Prefix mask lim tag8 tag16 tag32 n h
put_sized-Prefix mask lim tag8 tag16 tag32 n h e = elim (Bool-cases (not (lim == 0) && ltb n lim)) [
  | inl t0 ↦
      fixed (ground arith) (by_tier (u8 (bit_or mask n) ∷ []) (unfold put_sized in rw t0 refl))
  | inr f0 ↦ elim (Bool-cases (not (tag8 == 0) && leb n 0xFF)) [
    | inl t1 ↦
        one_byte (ground arith) (ground arith)
          (by_tier (tag8 ∷ put_be n 1) (unfold put_sized in rw (f0, t1) refl))
    | inr f1 ↦ elim (Bool-cases (leb n 0xFFFF)) [
      | inl t2 ↦
          two_bytes (ground arith)
            (by_tier (tag16 ∷ put_be n 2) (unfold put_sized in rw (f0, f1, t2) refl))
      | inr f2 ↦ elim (Bool-cases (ltb 0xFFFFFFFF n)) [
        | inr f3 ↦
            four_bytes (ground arith)
              (by_tier (tag32 ∷ put_be n 4) (unfold put_sized in rw (f0, f1, f2, f3) refl))
        | inl t3 ↦
            let large : put_sized mask lim tag8 tag16 tag32 n ≡ none =
              unfold put_sized in rw (f0, f1, f2, t3) refl in
            absurd (cc)
      ]
    ]
  ]
]
  where
    by_tier : (r : List ℕ) → put_sized mask lim tag8 tag16 tag32 n ≡ some r → h ≡ r
    by_tier r run = let both = sym e ∙ run in cc

-- The lead bytes with a size inside, at every size.
text_table :
    passes
      (λ n.
        (u8 (bit_or 0xA0 n) == 160 + n)
        && (bit_and (160 + n) 0xE0 == 0xA0)
        && (bit_and (160 + n) 0x1F == n))
      32
    ≡ true
unfolding passes
text_table = refl

array_table :
    passes
      (λ n.
        (u8 (bit_or 0x90 n) == 144 + n)
        && not (bit_and (144 + n) 0xE0 == 0xA0)
        && (bit_and (144 + n) 0xF0 == 0x90)
        && (bit_and (144 + n) 0x0F == n))
      16
    ≡ true
unfolding passes
array_table = refl

map_table :
    passes
      (λ n.
        (u8 (bit_or 0x80 n) == 128 + n)
        && not (bit_and (128 + n) 0xE0 == 0xA0)
        && not (bit_and (128 + n) 0xF0 == 0x90)
        && (bit_and (128 + n) 0xF0 == 0x80)
        && (bit_and (128 + n) 0x0F == n))
      16
    ≡ true
unfolding passes
map_table = refl

pub text_lead :
    (n : ℕ)
    → n < 32
    → (u8 (bit_or 0xA0 n) ≡ 160 + n)
      × ((bit_and (160 + n) 0xE0 == 0xA0) ≡ true)
      × (bit_and (160 + n) 0x1F ≡ n)
text_lead n lt = ground (arith, passes-lt _ 32 n lt text_table)

pub array_lead :
    (n : ℕ)
    → n < 16
    → (u8 (bit_or 0x90 n) ≡ 144 + n)
      × ((bit_and (144 + n) 0xE0 == 0xA0) ≡ false)
      × ((bit_and (144 + n) 0xF0 == 0x90) ≡ true)
      × (bit_and (144 + n) 0x0F ≡ n)
array_lead n lt = ground (arith, passes-lt _ 16 n lt array_table)

pub map_lead :
    (n : ℕ)
    → n < 16
    → (u8 (bit_or 0x80 n) ≡ 128 + n)
      × ((bit_and (128 + n) 0xE0 == 0xA0) ≡ false)
      × ((bit_and (128 + n) 0xF0 == 0x90) ≡ false)
      × ((bit_and (128 + n) 0xF0 == 0x80) ≡ true)
      × (bit_and (128 + n) 0x0F ≡ n)
map_lead n lt = ground (arith, passes-lt _ 16 n lt map_table)
