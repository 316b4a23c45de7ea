-- ===== src/Utf8/Stream.antt =====
-- `utf8_decode_stream` reads an encoded codepoint back. On a sequence that breaks off it keeps the
-- bits gathered so far.
use alcove.Base.{
  ℕ, zero, suc, length, some, true, refl, ap, ◌⊎◌, if◌then◌else◌, dec_lt, ◌+◌, ◌*◌, ◌/◌, ◌%◌, ◌^◌,
  ◌<◌, ◌≤◌, ◌≡◌, List, [], ◌∷◌, ◌++◌, false, arith, ltb, Bool-cases, inl, inr, ltb→lt,
}
use alcove.Utf8.{encode, lead, push_bits, is_continuation, stream_rest, decode_stream}
use alcove.Utf8.Scalar.{AreBytes}
use alcove.Utf8.Bytes.{is_continuation_iff, lead_ranges, push_bits_sum, encode_sums}

-- Reading a codepoint from a stream.
abbrev pub read_stream : List ℕ → ℕ × List ℕ
read_stream [] = (0, [])
read_stream (first ∷ stream) = decode_stream first stream

module _ (cp : ℕ) (rest : List ℕ) where
  streams_two :
      0x80 ≤ cp → cp < 0x800 → decode_stream (192 + cp / 64) ((128 + cp % 64) ∷ rest) ≡ (cp, rest)
  unfolding decode_stream stream_rest
  streams_two lo hi =
      let b : ℕ = 192 + cp / 64 in
      let x : ℕ = 128 + cp % 64 in
      ground (arith, lead_ranges b, is_continuation_iff x, push_bits_sum (b % 32) x)

  streams_three :
      0x800 ≤ cp
      → cp < 0x10000
      → decode_stream (224 + cp / 4096) ((128 + cp / 64 % 64) ∷ (128 + cp % 64) ∷ rest) ≡ (cp, rest)
  unfolding decode_stream stream_rest
  streams_three lo hi =
      let b : ℕ = 224 + cp / 4096 in
      let x : ℕ = 128 + cp / 64 % 64 in
      let y : ℕ = 128 + cp % 64 in
      ground (
        arith,
        lead_ranges b,
        is_continuation_iff x,
        is_continuation_iff y,
        push_bits_sum (b % 16) x,
        push_bits_sum (b % 16 * 64 + x % 64) y,
      )

  streams_four :
      0x10000 ≤ cp
      → cp < 2 ^ 21
      → decode_stream
          (240 + cp / 262144)
          ((128 + cp / 4096 % 64) ∷ (128 + cp / 64 % 64) ∷ (128 + cp % 64) ∷ rest)
        ≡ (cp, rest)
  unfolding decode_stream stream_rest
  streams_four lo hi =
      let b : ℕ = 240 + cp / 262144 in
      let x : ℕ = 128 + cp / 4096 % 64 in
      let y : ℕ = 128 + cp / 64 % 64 in
      let z : ℕ = 128 + cp % 64 in
      ground (
        arith,
        lead_ranges b,
        is_continuation_iff x,
        is_continuation_iff y,
        is_continuation_iff z,
        push_bits_sum (b % 8) x,
        push_bits_sum (b % 8 * 64 + x % 64) y,
        push_bits_sum ((b % 8 * 64 + x % 64) * 64 + y % 64) z,
      )

  -- Reading from a stream a codepoint that was encoded gives the codepoint back and leaves the
  -- rest of the stream.
  pub read_stream-encode : cp < 2 ^ 21 → read_stream (encode cp ++ rest) ≡ (cp, rest)
  unfolding decode_stream
  read_stream-encode small = rw (encode_sums cp small) (elim (Bool-cases (ltb cp 0x80)) [
    | inl a ↦ rw (a, decode_stream, a)
    | inr na ↦ elim (Bool-cases (ltb cp 0x800)) [
      | inl b ↦ rw (na, b) (streams_two (ground arith) (ltb→lt _ _ b))
      | inr nb ↦ elim (Bool-cases (ltb cp 0x10000)) [
        | inl c ↦ rw (na, nb, c) (streams_three (ground arith) (ltb→lt _ _ c))
        | inr nc ↦ rw (na, nb, nc) (streams_four (ground arith) small)
      ]
    ]
  ])

-- The bytes of a sequence by its lead: how many follow it, and the bits that the lead carries.
abbrev pub trail : ℕ → ℕ
trail c = if ltb c 224 then 1 else if ltb c 240 then 2 else 3

abbrev pub payload : ℕ → ℕ
payload c = if ltb c 224 then c % 32 else if ltb c 240 then c % 16 else c % 8

abbrev pub gather : ℕ → List ℕ → ℕ
gather cp [] = cp
gather cp (c ∷ cs) = gather (cp * 64 + c % 64) cs

abbrev pub AreContinuations : List ℕ → Type 0
AreContinuations [] = Unit
AreContinuations (c ∷ cs) = (128 ≤ c) × (c < 192) × AreContinuations cs

-- No byte that belongs to the sequence stands at the front.
abbrev pub Ends : List ℕ → Type 0
Ends [] = Unit
Ends (x ∷ rest) = (x < 128) ⊎ (192 ≤ x)

-- What a decoder of a sequence makes of a stream: the continuation bytes that it takes, at most
-- `left` of them and as many as there are, and what it leaves.
pub record Takes (left cp : ℕ) (stream : List ℕ) (r : ℕ × List ℕ) : Type 0 where
  pub taken : List ℕ
  pub split : stream ≡ taken ++ r.1
  pub kind : AreContinuations taken
  pub few : length taken ≤ left
  pub all : (length taken ≡ left) ⊎ Ends r.1
  pub value : r.0 ≡ gather cp taken

abbrev room : ℕ → ℕ
room zero = 2 ^ 32
room (suc left) = room left / 64

room-le : (left : ℕ) → room left ≤ 2 ^ 32
room-le zero = omega arith
room-le (suc left) = omega (arith, room-le left)

rest_more :
    (left cp c : ℕ) (stream : List ℕ)
    → is_continuation c ≡ true
    → stream_rest (suc left) cp (c ∷ stream) ≡ stream_rest left (push_bits cp c) stream
unfolding stream_rest
rest_more left cp c stream h = rw (stream_rest, h) refl

rest_stop :
    (left cp c : ℕ) (stream : List ℕ)
    → is_continuation c ≡ false
    → stream_rest (suc left) cp (c ∷ stream) ≡ (cp, c ∷ stream)
unfolding stream_rest
rest_stop left cp c stream h = rw (stream_rest, h) refl

stream_rest-Takes :
    (left cp : ℕ) (stream : List ℕ)
    → cp < room left
    → AreBytes stream
    → Takes left cp stream (stream_rest left cp stream)
unfolding stream_rest
stream_rest-Takes zero cp stream small bytes = record {
  taken = [];
  split = refl;
  kind = tt;
  few = omega arith;
  all = inl refl;
  value = refl;
}
stream_rest-Takes (suc left) cp [] small bytes = record {
  taken = [];
  split = refl;
  kind = tt;
  few = omega arith;
  all = inr tt;
  value = refl;
}
stream_rest-Takes (suc left) cp (c ∷ stream) small (byte, bytes) =
    elim (Bool-cases (is_continuation c)) [
      | inl more ↦
          let pushed : push_bits cp c ≡ cp * 64 + c % 64 =
            push_bits_sum cp c (omega (arith, room-le left)) in
          let t = stream_rest-Takes left (cp * 64 + c % 64) stream (omega arith) bytes in
          rw (rest_more left cp c stream more, pushed)
            (record {
              taken = c ∷ t.taken;
              split = ap (λ z. c ∷ z) t.split;
              kind = (
                ground (arith, is_continuation_iff c),
                ground (arith, is_continuation_iff c),
                t.kind,
              );
              few = omega (arith, t.few);
              all = elim t.all [ inl e ↦ inl (ap suc e) | inr e ↦ inr e ];
              value = t.value;
            })
      | inr stop ↦ rw (rest_stop left cp c stream stop) (record {
        taken = [];
        split = refl;
        kind = tt;
        few = omega arith;
        all = inr (outside c byte stop);
        value = refl;
      })
    ]
  where
    outside : (c : ℕ) → c < 256 → is_continuation c ≡ false → (c < 128) ⊎ (192 ≤ c)
    outside c byte stop = elim (dec_lt c 128) [
      | yes low ↦ inl low
      | no high ↦ inr (ground (arith, is_continuation_iff c))
    ]

-- utf8_decode_stream at a lead of two, three or four bytes, on any stream of bytes, takes the
-- continuation bytes that come next, as many as there are up to the number that the lead asks
-- for, leaves the rest in the stream, and returns the payload bits of the lead followed by
-- theirs, whether or not the sequence is complete.
pub decode_stream_cut :
    (c : ℕ) (stream : List ℕ)
    → 192 ≤ c
    → c < 248
    → AreBytes stream
    → Takes (trail c) (payload c) stream (decode_stream c stream)
unfolding decode_stream
decode_stream_cut c stream lo hi bytes =
    let led : lead c ≡ some (payload c, trail c) = ground (arith, lead_ranges c) in
    let large : ltb c 0x80 ≡ false = ground arith in
    rw (large, led) (stream_rest-Takes (trail c) (payload c) stream (ground arith) bytes)
