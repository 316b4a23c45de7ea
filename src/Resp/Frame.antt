-- ===== src/Resp/Frame.antt =====
-- The frames that the parser reads, without the pool, and that the parser reads just these.
use alcove.Base.{
  ℕ, zero, suc, ◌+◌, ◌*◌, ◌^◌, ◌<◌, ◌≤◌, ◌≡◌, ◌⊎◌, refl, sym, ap, ◌∙◌, List, [], ◌∷◌, Bool, true,
  false, not, arith, ltb, leb, ◌==◌, if◌then◌else◌, length, Bool-cases, inl, inr,
}
use native.Mathlib.Nat.{pow-suc}
use alcove.Resp.Sound.{Sound-got, read_length-Sound}
use alcove.Resp.{
  Reply, fault, need_more, protocol_error, got, ◌>>=◌, max_args, pool_init, double,
  argv_pool_reserve, read_length, read_bulk, in_pool, put_first, read_args, split_line, chop,
  is_blank, skip_blanks, word, count_words, fill_words, parse_inline, parse_bytes, parse_one,
  as_int,
}

-- The words of a line.
unfoldable pub words : ℕ → List ℕ → List (List ℕ)
words zero line = []
words (suc fuel) line = elim (skip_blanks line) [
  | [] ↦ []
  | c ∷ cs ↦ (word (c ∷ cs)).0 ∷ words fuel (word (c ∷ cs)).1
]

abbrev pub line_words : List ℕ → List (List ℕ)
line_words line = words (suc (length line)) line

unfoldable pub bulks : ℕ → List ℕ → Reply (List (List ℕ) × List ℕ)
bulks zero b = got ([], b)
bulks (suc left) b =
    read_bulk b >>= λ (arg, rest). bulks left rest >>= λ (args, rest'). got (arg ∷ args, rest')

unfoldable pub inline_frame : List ℕ → Reply (List (List ℕ) × List ℕ)
inline_frame b = split_line b >>= λ (text, rest).
    let ws = line_words (chop text) in
    if ltb max_args (length ws) then protocol_error else got (ws, rest)

unfoldable pub raw_frame : List ℕ → Reply (List (List ℕ) × List ℕ)
raw_frame [] = need_more
raw_frame (c ∷ cs) =
    if not (c == 42)
    then inline_frame (c ∷ cs)
    else read_length max_args cs >>= λ (n, rest). bulks n rest

-- The frame as the caller of the parser reads it.
unfoldable pub frame : List ℕ → Reply (List (List ℕ) × List ℕ)
frame b = as_int b (raw_frame b)

double-le :
    (fuel cap n : ℕ) → n ≤ cap * 2 ^ fuel → (c : ℕ) × (double (suc fuel) cap n ≡ got c) × (n ≤ c)
unfolding double
double-le zero cap n h =
    let done : ltb cap n ≡ false = ground arith in (cap, rw done refl, omega arith)
double-le (suc fuel) cap n h = elim (Bool-cases (ltb cap n)) [
  | inr done ↦ (cap, rw done refl, ground arith)
  | inl more ↦
      let (c, run, le) =
        double-le fuel (cap * 2) n (omega (arith, ap (λ (z : ℕ). cap * z) (pow-suc 2 fuel))) in
      (c, rw more run, le)
]

-- What a reservation can return: room enough, or the failure of an allocation.
pub reserve-room :
    (alloc : ℕ → Bool) (cap n : ℕ)
    → n ≤ max_args
    → ((c : ℕ) × (argv_pool_reserve alloc cap n ≡ got c) × (n ≤ c))
      ⊎ ((c : ℕ) × (alloc c ≡ false) × (argv_pool_reserve alloc cap n ≡ protocol_error))
unfolding argv_pool_reserve
reserve-room alloc cap n small = elim (Bool-cases (leb n cap)) [
  | inl enough ↦ inl (cap, rw enough refl, ground arith)
  | inr less ↦
      let first = if cap == 0 then pool_init else cap in
      let positive : 1 ≤ first = ground arith in
      let (c, run, le) = double-le 21 first n (omega arith) in
      elim (Bool-cases (alloc c)) [
        | inl ok ↦ inl (c, rw (less, run, ◌>>=◌, ok) refl, le)
        | inr bad ↦ inr (c, bad, rw (less, run, ◌>>=◌, bad) refl)
      ]
]

-- A reply is the expected one, unless an allocation has failed.
abbrev pub Agrees {ℓ} : {A : Type ℓ} → (ℕ → Bool) → Reply A → Reply A → Type ℓ
Agrees alloc r s = (r ≡ s) ⊎ ((c : ℕ) × (alloc c ≡ false) × (r ≡ protocol_error))

module _ {ℓ} {B : Type ℓ} (alloc : ℕ → Bool) where
  in_pool-Agrees {κ} :
      {A : Type κ} (cap : ℕ) (r : Reply A) (f : A → ℕ × Reply B) (k : A → Reply B)
      → ((a : A) → r ≡ got a → Agrees alloc (f a).1 (k a))
      → Agrees alloc (in_pool cap r f).1 (r >>= k)
  in_pool-Agrees cap fault f k h = inl refl
  in_pool-Agrees cap need_more f k h = inl refl
  in_pool-Agrees cap protocol_error f k h = inl refl
  in_pool-Agrees cap (got a) f k h = h a refl

  reserve-Agrees :
      (cap n : ℕ) (g : ℕ → ℕ × Reply B) (s : Reply B)
      → n ≤ max_args
      → ((c : ℕ) → n ≤ c → Agrees alloc (g c).1 s)
      → Agrees alloc (in_pool cap (argv_pool_reserve alloc cap n) g).1 s
  reserve-Agrees cap n g s small h = elim (reserve-room alloc cap n small) [
    | inl (c, run, le) ↦ rw (run, in_pool) (h c le)
    | inr (c, bad, run) ↦ inr (c, bad, rw (run, in_pool) refl)
  ]

  put_first-Agrees :
      (arg : List ℕ) (p : ℕ × Reply (List (List ℕ) × B)) (s : Reply (List (List ℕ) × B))
      → Agrees alloc p.1 s
      → Agrees alloc (put_first arg p).1 (s >>= λ (args, rest). got (arg ∷ args, rest))
  put_first-Agrees arg (cap, r) s (inl e) =
      inl (ap (λ z. z >>= λ (args, rest). got (arg ∷ args, rest)) e)
  put_first-Agrees arg (cap, r) s (inr (c, bad, e)) =
      inr (c, bad, ap (λ z. z >>= λ (args, rest). got (arg ∷ args, rest)) e)

module _ (alloc : ℕ → Bool) where
  read_args-bulks :
      (left a cap : ℕ) (b : List ℕ)
      → left + a ≤ max_args
      → Agrees alloc (read_args alloc left a cap b).1 (bulks left b)
  unfolding read_args bulks
  read_args-bulks zero a cap b small = inl refl
  read_args-bulks (suc left) a cap b small =
      in_pool-Agrees alloc cap (read_bulk b) _ _ λ (arg, rest) _.
        reserve-Agrees alloc cap (a + 1) _ _ (omega arith) λ c le.
          let room : leb c a ≡ false = ground arith in
          rw room (
            put_first-Agrees alloc arg (read_args alloc left (a + 1) c rest) (bulks left rest)
              (read_args-bulks left (a + 1) c rest (omega arith)))

length_zero {ℓ} : {A : Type ℓ} (xs : List A) → length xs ≡ 0 → xs ≡ []
length_zero [] h = refl
length_zero (x ∷ xs) h = absurd (omega arith)

List-cases : (xs : List ℕ) → (xs ≡ []) ⊎ ((c : ℕ) × (cs : List ℕ) × (xs ≡ c ∷ cs))
List-cases [] = inl refl
List-cases (c ∷ cs) = inr (c, cs, refl)

-- Behind the blanks stands no blank, and no more than there was.
skip_blanks-head :
    (line : List ℕ) (c : ℕ) (cs : List ℕ)
    → skip_blanks line ≡ c ∷ cs
    → (is_blank c ≡ false) × (length cs < length line)
unfolding skip_blanks
skip_blanks-head [] c cs h = absurd (cc)
skip_blanks-head (x ∷ line) c cs h = elim (Bool-cases (is_blank x)) [
  | inl blank ↦
      let (first, shorter) = skip_blanks-head line c cs (sym (rw blank refl) ∙ h) in
      (first, omega (arith, shorter))
  | inr letter ↦
      let same : x ∷ line ≡ c ∷ cs = sym (rw letter refl) ∙ h in
      let head : x ≡ c = cc in
      let tail : line ≡ cs = cc in (ap is_blank (sym head) ∙ letter, rw tail (omega arith))
]

word-length-le : (b : List ℕ) → length (word b).1 ≤ length b
unfolding word
word-length-le [] = omega arith
word-length-le (c ∷ cs) = ground (arith, word-length-le cs)

word-length-lt : (c : ℕ) (cs : List ℕ) → is_blank c ≡ false → length (word (c ∷ cs)).1 ≤ length cs
unfolding word
word-length-lt c cs letter = rw letter (word-length-le cs)

-- The word behind the blanks leaves less of the line.
after_word-lt :
    (line : List ℕ) (c : ℕ) (cs : List ℕ)
    → skip_blanks line ≡ c ∷ cs
    → length (word (c ∷ cs)).1 < length line
after_word-lt line c cs h =
    let (letter, shorter) = skip_blanks-head line c cs h in
    omega (arith, word-length-lt c cs letter, shorter)

-- One round of each pass, and of the words.
module _ (fuel : ℕ) (line : List ℕ) where
  count_end : (n : ℕ) → skip_blanks line ≡ [] → count_words (suc fuel) n line ≡ got n
  unfolding count_words
  count_end n h = ground arith

  count_words-word :
      (n c : ℕ) (cs : List ℕ)
      → skip_blanks line ≡ c ∷ cs
      → count_words (suc fuel) n line ≡ (
          if ltb max_args (n + 1)
          then protocol_error
          else count_words fuel (n + 1) (word (c ∷ cs)).1)
  unfolding count_words
  count_words-word n c cs h = ground arith

  words_end : skip_blanks line ≡ [] → words (suc fuel) line ≡ []
  unfolding words
  words_end h = ground arith

  words-word :
      (c : ℕ) (cs : List ℕ)
      → skip_blanks line ≡ c ∷ cs
      → words (suc fuel) line ≡ (word (c ∷ cs)).0 ∷ words fuel (word (c ∷ cs)).1
  unfolding words
  words-word c cs h = ground arith

  fill_end : (n ai cap : ℕ) → skip_blanks line ≡ [] → fill_words (suc fuel) n ai cap line ≡ got []
  unfolding fill_words
  fill_end n ai cap h = ground arith

  fill_words-word :
      (n ai cap c : ℕ) (cs : List ℕ)
      → skip_blanks line ≡ c ∷ cs
      → ai < n
      → n ≤ cap
      → fill_words (suc fuel) n ai cap line
        ≡ (fill_words fuel n (ai + 1) cap (word (c ∷ cs)).1 >>= λ ws. got ((word (c ∷ cs)).0 ∷ ws))
  unfolding fill_words
  fill_words-word n ai cap c cs h lt le = ground arith

-- The first pass counts the words, up to the limit.
count_words-length :
    (fuel n : ℕ) (line : List ℕ)
    → length line < fuel
    → n ≤ max_args
    → count_words fuel n line ≡ (
        if ltb max_args (n + length (words fuel line))
        then protocol_error
        else got (n + length (words fuel line)))
count_words-length zero n line lt small = absurd (omega arith)
count_words-length (suc fuel) n line lt small = elim (List-cases (skip_blanks line)) [
  | inl empty ↦
      let all : length (words (suc fuel) line) ≡ 0 = ap length (words_end fuel line empty) in
      let sum : n + length (words (suc fuel) line) ≡ n = omega arith in
      let few : ltb max_args n ≡ false = ground arith in
      count_end fuel line n empty ∙ rw (sum, few) refl
  | inr (c, cs, at) ↦
      let rest = (word (c ∷ cs)).1 in
      let more : length (words (suc fuel) line) ≡ suc (length (words fuel rest)) =
        ap length (words-word fuel line c cs at) in
      let sum : n + length (words (suc fuel) line) ≡ n + 1 + length (words fuel rest) =
        omega arith in
      count_words-word fuel line n c cs at ∙ elim (Bool-cases (ltb max_args (n + 1))) [
        | inl full ↦
            let over : ltb max_args (n + 1 + length (words fuel rest)) ≡ true = ground arith in
            rw (full, sum, over) refl
        | inr fits ↦
            rw (fits, sum)
              (count_words-length fuel (n + 1) rest (omega (arith, after_word-lt line c cs at))
                (ground arith))
      ]
]

-- The second pass stores each of them.
fill_words-words :
    (fuel n ai cap : ℕ) (line : List ℕ)
    → length line < fuel
    → ai + length (words fuel line) ≡ n
    → n ≤ cap
    → fill_words fuel n ai cap line ≡ got (words fuel line)
fill_words-words zero n ai cap line lt sum le = absurd (omega arith)
fill_words-words (suc fuel) n ai cap line lt sum le = elim (List-cases (skip_blanks line)) [
  | inl empty ↦ fill_end fuel line n ai cap empty ∙ ap got (sym (words_end fuel line empty))
  | inr (c, cs, at) ↦
      let rest = (word (c ∷ cs)).1 in
      let all = words-word fuel line c cs at in
      let more : length (words (suc fuel) line) ≡ suc (length (words fuel rest)) = ap length all in
      let ih =
        fill_words-words fuel n (ai + 1) cap rest (omega (arith, after_word-lt line c cs at))
          (omega (arith, more, sum)) le in
      fill_words-word fuel line n ai cap c cs at (omega (arith, more, sum)) le
      ∙ rw (ih, ◌>>=◌) (ap got (sym all))
]

module _ (alloc : ℕ → Bool) where
  parse_inline-frame :
      (cap : ℕ) (b : List ℕ) → Agrees alloc (parse_inline alloc cap b).1 (inline_frame b)
  unfolding parse_inline inline_frame
  parse_inline-frame cap b = in_pool-Agrees alloc cap (split_line b) _ _ λ (text, rest) _.
      let line = chop text in
      let ws = line_words line in
      let count = count_words-length (suc (length line)) 0 line (omega arith) (omega arith) in
      let zero_add : 0 + length ws ≡ length ws = omega arith in
      elim (Bool-cases (ltb max_args (length ws))) [
        | inl over ↦ inl (rw (count, zero_add, over, in_pool) refl)
        | inr fits ↦ elim (Bool-cases (length ws == 0)) [
          | inl none_there ↦
              let empty : ws ≡ [] = length_zero ws (ground arith) in
              inl (
                rw (count, zero_add, fits, in_pool, none_there)
                  (ap (λ z. got (z, rest)) (sym empty)))
          | inr some_there ↦
              rw (count, zero_add, fits, in_pool, some_there)
                (reserve-Agrees alloc cap (length ws) _ (got (ws, rest)) (ground arith) λ c le.
                  inl (
                    rw
                      (
                        fill_words-words (suc (length line)) (length ws) 0 c line (omega arith)
                            (omega arith) le,
                        ◌>>=◌,
                      )
                      refl))
        ]
      ]

  parse_bytes-raw_frame :
      (cap : ℕ) (b : List ℕ) → Agrees alloc (parse_bytes alloc cap b).1 (raw_frame b)
  unfolding parse_bytes raw_frame
  parse_bytes-raw_frame cap [] = inl refl
  parse_bytes-raw_frame cap (c ∷ cs) = elim (Bool-cases (c == 42)) [
    | inr text ↦ rw text (parse_inline-frame cap (c ∷ cs))
    | inl array ↦ rw array (
        in_pool-Agrees alloc cap (read_length max_args cs) _ _ λ (n, rest) is.
          let (small, _) =
            Sound-got _ (read_length max_args cs) (n, rest) (read_length-Sound max_args cs) is in
          let first = if ltb n pool_init then n else pool_init in
          reserve-Agrees alloc cap first _ (bulks n rest) (ground arith)
            λ c le. read_args-bulks alloc n 0 c rest (omega arith))
  ]

  as_int-Agrees :
      (b : List ℕ) (r s : Reply (List (List ℕ) × List ℕ))
      → Agrees alloc r s
      → Agrees alloc (as_int b r) (as_int b s)
  unfolding as_int
  as_int-Agrees b r s (inl e) = inl (ap (as_int b) e)
  as_int-Agrees b r s (inr (c, bad, e)) = inr (c, bad, ap (as_int b) e)

  -- The parser reads these frames, unless an allocation fails.
  pub parse_one-frame : (cap : ℕ) (b : List ℕ) → Agrees alloc (parse_one alloc cap b).1 (frame b)
  unfolding parse_one frame
  parse_one-frame cap b =
      as_int-Agrees b (parse_bytes alloc cap b).1 (raw_frame b) (parse_bytes-raw_frame cap b)
