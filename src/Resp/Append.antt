-- ===== src/Resp/Append.antt =====
-- More input behind a command that is complete, or behind an error, changes nothing.
use alcove.Base.{
  ℕ, zero, suc, ◌+◌, ◌-◌, ◌*◌, ◌%◌, ◌^◌, ◌<◌, ◌≤◌, ◌≡◌, refl, ap, List, [], ◌∷◌, ◌++◌, Bool, true,
  false, not, ◌&&◌, ◌||◌, arith, ltb, ◌==◌, length, length-append, take, drop, Bool-cases, inl, inr,
}
use alcove.Resp.{
  Reply, fault, need_more, protocol_error, got, ◌>>=◌, max_args, max_bulk, read_number, line_end,
  read_length, byte_at, read_payload, read_bulk, split_line, chop, as_int, parse_one,
}
use alcove.Resp.Sound.{Sound}
use alcove.Resp.Bounds.{Within, raw_frame-Sound}
use alcove.Resp.Frame.{line_words, bulks, inline_frame, raw_frame, frame, parse_one-frame}

-- The reply to the longer input: that of the shorter one, with the value carried over, unless the
-- shorter one was incomplete.
abbrev pub Stable {ℓ} : {A : Type ℓ} → (A → A) → Reply A → Reply A → Type ℓ
Stable f fault s = Unit
Stable f need_more s = Unit
Stable f protocol_error s = s ≡ protocol_error
Stable f (got a) s = s ≡ got (f a)

module _ {ℓ} {A : Type ℓ} (f : A → A) where
  Stable->>= {κ} :
      {B : Type κ} (g : B → B) (r s : Reply A) (k : A → Reply B)
      → Stable f r s
      → ((a : A) → Stable g (k a) (k (f a)))
      → Stable g (r >>= k) (s >>= k)
  Stable->>= g fault s k h next = tt
  Stable->>= g need_more s k h next = tt
  Stable->>= g protocol_error s k h next = ap (λ z. z >>= k) h
  Stable->>= g (got a) s k h next = rw (h, ◌>>=◌) (next a)

-- The same reply, used in two ways.
after_same {ℓ κ} :
    {A : Type ℓ} {B : Type κ} (g : B → B) (r : Reply A) (k k' : A → Reply B)
    → ((a : A) → Stable g (k a) (k' a))
    → Stable g (r >>= k) (r >>= k')
after_same g fault k k' next = tt
after_same g need_more k k' next = tt
after_same g protocol_error k k' next = refl
after_same g (got a) k k' next = next a

module _ (more : List ℕ) where
  abbrev pub extend {ℓ} : {A : Type ℓ} → A × List ℕ → A × List ℕ
  extend (a, rest) = (a, rest ++ more)

  line_end-Stable : (b : List ℕ) → Stable (λ rest. rest ++ more) (line_end b) (line_end (b ++ more))
  unfolding line_end
  line_end-Stable [] = tt
  line_end-Stable (x ∷ []) = tt
  line_end-Stable (x ∷ y ∷ rest) = elim (Bool-cases (x == 13 && y == 10)) [
    | inl ends ↦ rw ends refl
    | inr goes ↦ rw goes refl
  ]

  abbrev behind : ℕ × List ℕ → Reply (ℕ × List ℕ)
  behind (n, rest) = line_end rest >>= λ rest'. got (n, rest')

  behind-Stable : (n : ℕ) (b : List ℕ) → Stable extend (behind (n, b)) (behind (n, b ++ more))
  behind-Stable n b =
      Stable->>= (λ rest. rest ++ more) extend (line_end b) (line_end (b ++ more)) _
        (line_end-Stable b) (λ rest. refl)

  number-Stable :
      (limit n : ℕ) (b : List ℕ)
      → Stable extend
          (read_number limit n b >>= behind)
          (read_number limit n (b ++ more) >>= behind)
  unfolding read_number
  number-Stable limit n [] = unfold line_end in tt
  number-Stable limit n (c ∷ cs) = elim (Bool-cases (c == 13)) [
    | inl stop ↦ rw stop (behind-Stable n (c ∷ cs))
    | inr digit ↦ elim (Bool-cases (ltb c 48 || ltb 57 c)) [
      | inl bad ↦ rw (digit, bad) refl
      | inr good ↦ elim (Bool-cases (ltb limit (n * 10 + (c - 48)))) [
        | inl large ↦ rw (digit, good, large) refl
        | inr fits ↦ rw (digit, good, fits) (number-Stable limit (n * 10 + (c - 48)) cs)
      ]
    ]
  ]

  read_length-Stable :
      (limit : ℕ) (b : List ℕ) → Stable extend (read_length limit b) (read_length limit (b ++ more))
  unfolding read_length
  read_length-Stable limit b = number-Stable limit 0 b

  byte_at-append : (b : List ℕ) (k : ℕ) → k < length b → byte_at (b ++ more) k ≡ byte_at b k
  unfolding byte_at
  byte_at-append [] k h = absurd (omega arith)
  byte_at-append (x ∷ b) zero h = refl
  byte_at-append (x ∷ b) (suc k) h = byte_at-append b k (omega arith)

  take-append : (n : ℕ) (b : List ℕ) → n ≤ length b → take n (b ++ more) ≡ take n b
  take-append zero b h = refl
  take-append (suc n) [] h = absurd (omega arith)
  take-append (suc n) (x ∷ b) h = ap (λ z. x ∷ z) (take-append n b (omega arith))

  drop-append : (n : ℕ) (b : List ℕ) → n ≤ length b → drop n (b ++ more) ≡ drop n b ++ more
  drop-append zero b h = refl
  drop-append (suc n) [] h = absurd (omega arith)
  drop-append (suc n) (x ∷ b) h = drop-append n b (omega arith)

  payload-Stable :
      (n : ℕ) (b : List ℕ) → Stable extend (read_payload n b) (read_payload n (b ++ more))
  unfolding read_payload
  payload-Stable n b = elim (Bool-cases (ltb (length b) (n + 2))) [
    | inl cut ↦ rw cut tt
    | inr whole ↦
        let longer : ltb (length (b ++ more)) (n + 2) ≡ false =
          ground (arith, length-append b more) in
        rw
          (
            whole,
            longer,
            byte_at-append b n (ground arith),
            byte_at-append b (n + 1) (ground arith),
            take-append n b (ground arith),
            drop-append (n + 2) b (ground arith),
          )
          (after_same extend (byte_at b n) _ _ λ x. after_same extend (byte_at b (n + 1)) _ _ λ y.
            elim (Bool-cases (not (x == 13) || not (y == 10))) [
              | inl bad ↦ rw bad refl
              | inr good ↦ rw good refl
            ])
  ]

  read_bulk-Stable : (b : List ℕ) → Stable extend (read_bulk b) (read_bulk (b ++ more))
  unfolding read_bulk
  read_bulk-Stable [] = tt
  read_bulk-Stable (c ∷ cs) = elim (Bool-cases (c == 36)) [
    | inr other ↦ rw other refl
    | inl dollar ↦ rw dollar (
        Stable->>= extend extend (read_length max_bulk cs) (read_length max_bulk (cs ++ more)) _
          (read_length-Stable max_bulk cs) λ (n, rest). payload-Stable n rest)
  ]

  bulks-Stable : (n : ℕ) (b : List ℕ) → Stable extend (bulks n b) (bulks n (b ++ more))
  unfolding bulks
  bulks-Stable zero b = refl
  bulks-Stable (suc n) b =
      Stable->>= extend extend (read_bulk b) (read_bulk (b ++ more)) _ (read_bulk-Stable b)
        λ (arg, rest).
          Stable->>= extend extend (bulks n rest) (bulks n (rest ++ more)) _ (bulks-Stable n rest)
            λ (args, rest'). refl

  split_line-Stable : (b : List ℕ) → Stable extend (split_line b) (split_line (b ++ more))
  unfolding split_line
  split_line-Stable [] = tt
  split_line-Stable (c ∷ cs) = elim (Bool-cases (c == 10)) [
    | inl ends ↦ rw ends refl
    | inr goes ↦ rw goes (
        Stable->>= extend extend (split_line cs) (split_line (cs ++ more)) _ (split_line-Stable cs)
          λ (line, rest). refl)
  ]

  raw_frame-Stable : (b : List ℕ) → Stable extend (raw_frame b) (raw_frame (b ++ more))
  unfolding raw_frame inline_frame
  raw_frame-Stable [] = tt
  raw_frame-Stable (c ∷ cs) = elim (Bool-cases (c == 42)) [
    | inl array ↦ rw array (
        Stable->>= extend extend (read_length max_args cs) (read_length max_args (cs ++ more)) _
          (read_length-Stable max_args cs) λ (n, rest). bulks-Stable n rest)
    | inr text ↦ rw text (
        Stable->>= extend extend (split_line (c ∷ cs)) (split_line (c ∷ cs ++ more)) _
          (split_line-Stable (c ∷ cs))
          λ (line, rest). elim (Bool-cases (ltb max_args (length (line_words (chop line))))) [
            | inl over ↦ rw over refl
            | inr fits ↦ rw fits refl
          ])
  ]

  as_int-Stable :
      (b : List ℕ) (r s : Reply (List (List ℕ) × List ℕ))
      → Sound (Within b) r
      → Stable extend r s
      → Stable extend (as_int b r) (as_int (b ++ more) s)
  unfolding as_int
  as_int-Stable b fault s w h = tt
  as_int-Stable b need_more s w h = tt
  as_int-Stable b protocol_error s w h = ap (as_int (b ++ more)) h
  as_int-Stable b (got (args, rest)) s (few, less) h =
      let consumed = (length b - length rest) % 2 ^ 32 in
      let same : length (b ++ more) - length (rest ++ more) ≡ length b - length rest =
        omega (arith, length-append b more, length-append rest more) in
      elim (Bool-cases (consumed == 0)) [
        | inl none_read ↦ rw none_read tt
        | inr some_read ↦ elim (Bool-cases (ltb consumed (2 ^ 31))) [
          | inl positive ↦
              rw (h, as_int, same, some_read, positive, drop-append consumed b (omega arith)) refl
          | inr negative ↦ rw (h, as_int, same, some_read, negative) refl
        ]
      ]

  pub frame-Stable : (b : List ℕ) → Stable extend (frame b) (frame (b ++ more))
  unfolding frame
  frame-Stable b =
      as_int-Stable b (raw_frame b) (raw_frame (b ++ more)) (raw_frame-Sound b) (raw_frame-Stable b)

-- Every allocation succeeds.
abbrev pub Succeeds : (ℕ → Bool) → Type 0
Succeeds alloc = (c : ℕ) → alloc c ≡ true

pub parse_one-eq-frame :
    (alloc : ℕ → Bool) (cap : ℕ) (b : List ℕ) → Succeeds alloc → (parse_one alloc cap b).1 ≡ frame b
parse_one-eq-frame alloc cap b ok = elim (parse_one-frame alloc cap b) [
  | inl same ↦ same
  | inr (c, bad, e) ↦ let good = ok c in absurd (cc)
]

-- Where resp_parse_one returns a command, or -1, for the bytes that have arrived, it returns the
-- same command, or -1, when more bytes have arrived behind them, and leaves those bytes
-- unconsumed; this is for allocations that succeed and pools of any capacity.
pub parse_one-append :
    (alloc : ℕ → Bool) (cap cap' : ℕ) (b more : List ℕ)
    → Succeeds alloc
    → Stable
        (λ (args, rest). (args, rest ++ more))
        (parse_one alloc cap b).1
        (parse_one alloc cap' (b ++ more)).1
parse_one-append alloc cap cap' b more ok =
    rw (parse_one-eq-frame alloc cap b ok, parse_one-eq-frame alloc cap' (b ++ more) ok)
      (frame-Stable more b)
