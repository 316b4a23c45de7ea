-- ===== src/Resp/Roundtrip.antt =====
-- What the writers write, the parser reads back.
use alcove.Base.{
  ℕ, zero, suc, ◌+◌, ◌-◌, ◌*◌, ◌/◌, ◌%◌, ◌^◌, ◌<◌, ◌≤◌, ◌≡◌, refl, sym, ap, ◌∙◌, List, [], ◌∷◌,
  ◌++◌, append_assoc, Bool, true, false, ◌||◌, arith, ltb, ◌==◌, length, length-append, take, drop,
  Bool-cases, inl, inr,
}
use native.Mathlib.Nat.{pow-suc}
use alcove.Resp.{
  Reply, got, as_int, ◌>>=◌, max_args, max_bulk, read_number, line_end, read_length, byte_at,
  read_payload, read_bulk, parse_one,
}
use alcove.Resp.Frame.{bulks, raw_frame, frame}
use alcove.Resp.Sound.{Sound-got}
use alcove.Resp.Bounds.{Within, raw_frame-Sound}
use alcove.Resp.Append.{Succeeds, parse_one-eq-frame}
use alcove.Resp.Print.{
  digits, u64_to_ascii, i64_to_ascii, crlf, write_bulk, write_array_hdr, write_bulks, write_array,
}

-- One digit read.
read_digit :
    (limit n d : ℕ) (tail : List ℕ)
    → d < 10
    → n * 10 + d ≤ limit
    → read_number limit n ((48 + d) ∷ tail) ≡ read_number limit (n * 10 + d) tail
unfolding read_number
read_digit limit n d tail lt le =
    let back : 48 + d - 48 ≡ d = omega arith in
    let digit : (48 + d == 13) ≡ false = ground arith in
    let good : ltb (48 + d) 48 || ltb 57 (48 + d) ≡ false = ground arith in
    let fits : ltb limit (n * 10 + d) ≡ false = ground arith in rw (back, digit, good, fits) refl

-- The digits of a number, in front of others, are read as that number.
digits-Reads :
    (limit room v : ℕ) (acc : List ℕ)
    → v < 10 ^ room
    → 1 < 10 ^ room
    → v ≤ limit
    → (ds : List ℕ) × (digits room v acc ≡ got ds)
      × ((tail : List ℕ) → read_number limit 0 (ds ++ tail) ≡ read_number limit v (acc ++ tail))
unfolding digits
digits-Reads limit zero v acc lt some_room le = absurd (omega arith)
digits-Reads limit (suc room) v acc lt some_room le = elim (Bool-cases (v / 10 == 0)) [
  | inl last ↦
      let small : v % 10 ≡ v = ground arith in
      let sum : 0 * 10 + v % 10 ≡ v = ground arith in
      (
        (48 + v % 10) ∷ acc,
        rw last refl,
        λ tail.
            read_digit limit 0 (v % 10) (acc ++ tail) (omega arith) (omega arith)
            ∙ ap (λ z. read_number limit z (acc ++ tail)) sum,
      )
  | inr more ↦
      let sum : v / 10 * 10 + v % 10 ≡ v = omega arith in
      let (ds, run, reads) =
        digits-Reads limit room (v / 10) ((48 + v % 10) ∷ acc) (omega (arith, pow-suc 10 room))
          (ground (arith, pow-suc 10 room)) (omega arith) in
      (
        ds,
        rw more run,
        λ tail.
            reads tail
            ∙ read_digit limit (v / 10) (v % 10) (acc ++ tail) (omega arith) (omega arith)
            ∙ ap (λ z. read_number limit z (acc ++ tail)) sum,
      )
]

at_cr : (limit v : ℕ) (tail : List ℕ) → read_number limit v (13 ∷ tail) ≡ got (v, 13 ∷ tail)
unfolding read_number
at_cr limit v tail = refl

crlf-Ends : (tail : List ℕ) → line_end (13 ∷ 10 ∷ tail) ≡ got tail
unfolding line_end
crlf-Ends tail = refl

-- A number with its "\r\n".
ascii-Reads :
    (limit v : ℕ)
    → v < 10 ^ 20
    → v ≤ limit
    → (ds : List ℕ) × (u64_to_ascii v ≡ got ds)
      × ((tail : List ℕ) → read_length limit (ds ++ (crlf ++ tail)) ≡ got (v, tail))
unfolding u64_to_ascii read_length
ascii-Reads limit v lt le =
    let (ds, run, reads) = digits-Reads limit 20 v [] lt (omega arith) le in
    (
      ds,
      run,
      λ tail.
          ap (λ z. z >>= λ (n, rest). line_end rest >>= λ rest'. got (n, rest'))
            (reads (crlf ++ tail) ∙ at_cr limit v (10 ∷ tail))
          ∙ ap (λ z. z >>= λ rest'. got (v, rest')) (crlf-Ends tail),
    )

byte_at-behind : (p tail : List ℕ) (x k : ℕ) → k ≡ length p → byte_at (p ++ x ∷ tail) k ≡ got x
unfolding byte_at
byte_at-behind [] tail x zero e = refl
byte_at-behind [] tail x (suc k) e = absurd (omega arith)
byte_at-behind (y ∷ p) tail x zero e = absurd (omega arith)
byte_at-behind (y ∷ p) tail x (suc k) e = byte_at-behind p tail x k (omega arith)

take-whole : (p tail : List ℕ) → take (length p) (p ++ tail) ≡ p
take-whole [] tail = refl
take-whole (x ∷ p) tail = ap (λ z. x ∷ z) (take-whole p tail)

drop-whole : (p tail : List ℕ) (x y k : ℕ) → k ≡ length p + 2 → drop k (p ++ x ∷ y ∷ tail) ≡ tail
drop-whole [] tail x y zero e = absurd (omega arith)
drop-whole [] tail x y (suc zero) e = absurd (omega arith)
drop-whole [] tail x y (suc (suc zero)) e = refl
drop-whole [] tail x y (suc (suc (suc k))) e = absurd (omega arith)
drop-whole (z ∷ p) tail x y zero e = absurd (omega arith)
drop-whole (z ∷ p) tail x y (suc k) e = drop-whole p tail x y k (omega arith)

drop_front : (b tail : List ℕ) → drop (length b) (b ++ tail) ≡ tail
drop_front [] tail = refl
drop_front (x ∷ b) tail = drop_front b tail

-- The bytes of an argument and its "\r\n".
payload-Reads : (p tail : List ℕ) → read_payload (length p) (p ++ 13 ∷ 10 ∷ tail) ≡ got (p, tail)
unfolding read_payload
payload-Reads p tail =
    let whole : ltb (length (p ++ 13 ∷ 10 ∷ tail)) (length p + 2) ≡ false =
      ground (arith, length-append p (13 ∷ 10 ∷ tail)) in
    let second : byte_at (p ++ 13 ∷ 10 ∷ tail) (length p + 1) ≡ got 10 =
      ap (λ z. byte_at z (length p + 1)) (sym (append_assoc p (13 ∷ []) (10 ∷ tail)))
      ∙ byte_at-behind (p ++ 13 ∷ []) tail 10 (length p + 1)
          (omega (arith, length-append p (13 ∷ []))) in
    rw
      (
        whole,
        byte_at-behind p (10 ∷ tail) 13 (length p) refl,
        ◌>>=◌,
        second,
        take-whole p (13 ∷ 10 ∷ tail),
        drop-whole p tail 13 10 (length p + 2) refl,
      )
      refl

-- One argument.
write_bulk-Reads :
    (p : List ℕ)
    → length p ≤ max_bulk
    → (b : List ℕ) × (write_bulk p ≡ got b)
      × ((tail : List ℕ) → read_bulk (b ++ tail) ≡ got (p, tail))
unfolding write_bulk read_bulk
write_bulk-Reads p small =
    let (ds, run, reads) = ascii-Reads max_bulk (length p) (omega arith) small in
    (
      36 ∷ ds ++ (crlf ++ (p ++ crlf)),
      rw (run, ◌>>=◌) refl,
      λ tail.
          let regroup : (ds ++ (crlf ++ (p ++ crlf))) ++ tail
              ≡ ds ++ (crlf ++ (p ++ 13 ∷ 10 ∷ tail)) =
            simp append_assoc in
          ap (λ z. read_length max_bulk z >>= λ (n, rest). read_payload n rest) regroup
          ∙ ap (λ z. z >>= λ (n, rest). read_payload n rest) (reads (p ++ 13 ∷ 10 ∷ tail))
          ∙ payload-Reads p tail,
    )

-- Each argument is short enough.
abbrev pub AreShort : List (List ℕ) → Type 0
AreShort [] = Unit
AreShort (p ∷ ps) = (length p ≤ max_bulk) × AreShort ps

write_bulks-Reads :
    (ps : List (List ℕ))
    → AreShort ps
    → (b : List ℕ) × (write_bulks ps ≡ got b)
      × ((tail : List ℕ) → bulks (length ps) (b ++ tail) ≡ got (ps, tail))
unfolding write_bulks bulks
write_bulks-Reads [] h = ([], refl, λ tail. refl)
write_bulks-Reads (p ∷ ps) (small, h) =
    let (b, run, reads) = write_bulk-Reads p small in
    let (bs, runs, rest) = write_bulks-Reads ps h in
    (
      b ++ bs,
      rw (run, ◌>>=◌, runs) refl,
      λ tail. rw (append_assoc b bs tail, reads (bs ++ tail), ◌>>=◌, rest tail) refl,
    )

write_array-raw_frame :
    (ps : List (List ℕ))
    → AreShort ps
    → length ps ≤ max_args
    → (b : List ℕ) × (write_array ps ≡ got b)
      × ((tail : List ℕ) → raw_frame (b ++ tail) ≡ got (ps, tail))
unfolding write_array write_array_hdr i64_to_ascii raw_frame
write_array-raw_frame ps h few =
    let (ds, run, reads) = ascii-Reads max_args (length ps) (omega arith) few in
    let (bs, runs, rest) = write_bulks-Reads ps h in
    (
      (42 ∷ ds ++ crlf) ++ bs,
      rw (run, ◌>>=◌, runs) refl,
      λ tail.
          let regroup : ((ds ++ crlf) ++ bs) ++ tail ≡ ds ++ (crlf ++ (bs ++ tail)) =
            simp append_assoc in
          ap (λ z. read_length max_args z >>= λ (n, r). bulks n r) regroup
          ∙ ap (λ z. z >>= λ (n, r). bulks n r) (reads (bs ++ tail))
          ∙ rest tail,
    )

-- The number of bytes written.
abbrev pub reply_length : Reply (List ℕ) → ℕ
reply_length (got b) = length b
reply_length _ = 0

-- A frame in front of other bytes, short enough for an `int`.
as_int-whole :
    (b tail : List ℕ) (args : List (List ℕ))
    → 0 < length b
    → length b < 2 ^ 31
    → as_int (b ++ tail) (got (args, tail)) ≡ got (args, tail)
unfolding as_int
as_int-whole b tail args some_bytes fits =
    let consumed : (length (b ++ tail) - length tail) % 2 ^ 32 ≡ length b =
      ground (arith, length-append b tail) in
    let nonzero : (length b == 0) ≡ false = ground arith in
    let positive : ltb (length b) (2 ^ 31) ≡ true = ground arith in
    rw (consumed, nonzero, positive, drop_front b tail) refl

pub write_array-frame :
    (ps : List (List ℕ))
    → AreShort ps
    → length ps ≤ max_args
    → reply_length (write_array ps) < 2 ^ 31
    → (b : List ℕ) × (write_array ps ≡ got b)
      × ((tail : List ℕ) → frame (b ++ tail) ≡ got (ps, tail))
unfolding frame
write_array-frame ps h few fits =
    let (b, run, reads) = write_array-raw_frame ps h few in
    let short : length b < 2 ^ 31 = rw run at fits in
    (
      b,
      run,
      λ tail.
          let (_, less) =
            Sound-got (Within (b ++ tail)) (raw_frame (b ++ tail)) (ps, tail)
              (raw_frame-Sound (b ++ tail)) (reads tail) in
          ap (as_int (b ++ tail)) (reads tail)
          ∙ as_int-whole b tail ps (omega (arith, length-append b tail, less)) short,
    )

-- A command of at most 1048576 arguments, of at most 512 MB each, that takes fewer than 2^31
-- bytes can be written as an array of bulk strings; resp_parse_one, with allocations that
-- succeed, reads it back, and leaves what follows it unconsumed.
pub parse_one-write_array :
    (ps : List (List ℕ))
    → AreShort ps
    → length ps ≤ max_args
    → reply_length (write_array ps) < 2 ^ 31
    → (b : List ℕ) × (write_array ps ≡ got b)
      × ((alloc : ℕ → Bool) (cap : ℕ) (tail : List ℕ)
          → Succeeds alloc
          → (parse_one alloc cap (b ++ tail)).1 ≡ got (ps, tail))
parse_one-write_array ps h few fits =
    let (b, run, reads) = write_array-frame ps h few fits in
    (b, run, λ alloc cap tail ok. parse_one-eq-frame alloc cap (b ++ tail) ok ∙ reads tail)
