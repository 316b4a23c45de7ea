-- ===== src/Resp.antt =====
-- resp.c: the framing of the RESP protocol, in both directions. A position in the input buffer is
-- the list of the bytes from there on, and an argument the slice that its pointer and length name.
pub mod Print
pub mod Sound
pub mod Frame
pub mod Bounds
pub mod Append
pub mod Roundtrip
pub mod Process
pub mod Pipeline
mod Tests
use alcove.Base.{
  ℕ, zero, suc, ◌+◌, ◌-◌, ◌*◌, ◌/◌, ◌%◌, ◌^◌, ◌≡◌, List, [], ◌∷◌, ◌++◌, Option, none, some, Bool,
  true, false, ◌&&◌, ◌||◌, not, ltb, leb, ◌==◌, if◌then◌else◌, get_elem?, length, take, drop,
}

-- What the parser returns: 0, -1, or a value. `fault` is an access outside an array, or a loop
-- that its fuel does not finish.
pub data Reply {ℓ} (A : Type ℓ) : Type ℓ where
  fault : Reply A
  need_more : Reply A
  protocol_error : Reply A
  got : A → Reply A

infixl 5 ◌>>=◌
abbrev pub ◌>>=◌ {ℓ κ} : {A : Type ℓ} {B : Type κ} → Reply A → (A → Reply B) → Reply B
fault >>= f = fault
need_more >>= f = need_more
protocol_error >>= f = protocol_error
got a >>= f = f a

-- `RESP_MAX_ARGS`
abbrev pub max_args : ℕ
max_args = 1048576

-- `RESP_MAX_BULK`
abbrev pub max_bulk : ℕ
max_bulk = 536870912

-- `RESP_ARGV_POOL_INIT`
abbrev pub pool_init : ℕ
pool_init = 8

-- `while (cap < n) cap *= 2;`
unfoldable pub double : ℕ → ℕ → ℕ → Reply ℕ
double zero cap n = fault
double (suc fuel) cap n = let rest = double fuel (cap * 2) n in if ltb cap n then rest else got cap

-- The pool has 2 ^ 20 slots at most, so that it is doubled 20 times at most.
abbrev pub double_fuel : ℕ
double_fuel = 22

module _ (alloc : ℕ → Bool) where
  -- `resp_argv_pool_reserve`: the new capacity. `alloc` says whether both arrays can be
  -- reallocated for a capacity.
  unfoldable pub argv_pool_reserve : ℕ → ℕ → Reply ℕ
  argv_pool_reserve cap n =
      if leb n cap
      then got cap
      else double double_fuel (if cap == 0 then pool_init else cap) n >>= λ cap'.
          if alloc cap' then got cap' else protocol_error

-- The loop over the digits of a count or a length, up to the '\r' or the end of the input.
unfoldable pub read_number : ℕ → ℕ → List ℕ → Reply (ℕ × List ℕ)
read_number limit n [] = got (n, [])
read_number limit n (c ∷ cs) =
    let n' = n * 10 + (c - 48) in
    let rest = read_number limit n' cs in
    if c == 13
    then got (n, c ∷ cs)
    else if ltb c 48 || ltb 57 c
    then protocol_error
    else if ltb limit n'
    then protocol_error
    else rest

-- The "\r\n" behind it.
unfoldable pub line_end : List ℕ → Reply (List ℕ)
line_end [] = need_more
line_end (x ∷ []) = need_more
line_end (x ∷ y ∷ rest) = if x == 13 && y == 10 then got rest else protocol_error

unfoldable pub read_length : ℕ → List ℕ → Reply (ℕ × List ℕ)
read_length limit b =
    read_number limit 0 b >>= λ (n, rest). line_end rest >>= λ rest'. got (n, rest')

-- `buf[i + k]`
unfoldable pub byte_at : List ℕ → ℕ → Reply ℕ
byte_at b k = elim (get_elem? b k) [ none ↦ fault | some x ↦ got x ]

-- The bytes of an argument, and "\r\n".
unfoldable pub read_payload : ℕ → List ℕ → Reply (List ℕ × List ℕ)
read_payload blen b =
    if ltb (length b) (blen + 2)
    then need_more
    else byte_at b blen >>= λ x. byte_at b (blen + 1) >>= λ y.
        if not (x == 13) || not (y == 10)
        then protocol_error
        else got (take blen b, drop (blen + 2) b)

-- One argument: '$', its length, and its bytes.
unfoldable pub read_bulk : List ℕ → Reply (List ℕ × List ℕ)
read_bulk [] = need_more
read_bulk (c ∷ cs) =
    if not (c == 36)
    then protocol_error
    else read_length max_bulk cs >>= λ (blen, rest). read_payload blen rest

-- The rest of a call that has the capacity of the pool at hand.
abbrev pub in_pool {ℓ κ} : {A : Type ℓ} {B : Type κ} → ℕ → Reply A → (A → ℕ × Reply B) → ℕ × Reply B
in_pool cap fault f = (cap, fault)
in_pool cap need_more f = (cap, need_more)
in_pool cap protocol_error f = (cap, protocol_error)
in_pool cap (got a) f = f a

-- An argument in front of those that are read after it.
abbrev pub put_first {ℓ} :
    {B : Type ℓ} → List ℕ → ℕ × Reply (List (List ℕ) × B) → ℕ × Reply (List (List ℕ) × B)
put_first arg (cap, r) = (cap, r >>= λ (args, rest). got (arg ∷ args, rest))

module _ (alloc : ℕ → Bool) where
  -- The loop over the arguments, `left` to read and `a` read: the capacity of the pool, and the
  -- arguments with the bytes behind them.
  unfoldable pub read_args : ℕ → ℕ → ℕ → List ℕ → ℕ × Reply (List (List ℕ) × List ℕ)
  read_args zero a cap b = (cap, got ([], b))
  read_args (suc left) a cap b = in_pool cap (read_bulk b) λ (arg, rest).
      in_pool cap (argv_pool_reserve alloc cap (a + 1)) λ cap'.
        if leb cap' a then (cap', fault) else put_first arg (read_args left (a + 1) cap' rest)

-- The bytes before the first '\n', and those behind it.
unfoldable pub split_line : List ℕ → Reply (List ℕ × List ℕ)
split_line [] = need_more
split_line (c ∷ cs) =
    let more = split_line cs >>= λ (line, rest). got (c ∷ line, rest) in
    if c == 10 then got ([], cs) else more

-- The '\r' at the end of a line is dropped.
unfoldable pub chop : List ℕ → List ℕ
chop [] = []
chop (c ∷ []) = if c == 13 then [] else c ∷ []
chop (c ∷ d ∷ cs) = c ∷ chop (d ∷ cs)

abbrev pub is_blank : ℕ → Bool
is_blank c = c == 32 || c == 9

unfoldable pub skip_blanks : List ℕ → List ℕ
skip_blanks [] = []
skip_blanks (c ∷ cs) = let rest = skip_blanks cs in if is_blank c then rest else c ∷ cs

-- A word, and what stands behind it.
unfoldable pub word : List ℕ → List ℕ × List ℕ
word [] = ([], [])
word (c ∷ cs) = let (w, rest) = word cs in if is_blank c then ([], c ∷ cs) else (c ∷ w, rest)

-- The first pass over a line counts its words.
unfoldable pub count_words : ℕ → ℕ → List ℕ → Reply ℕ
count_words zero n line = fault
count_words (suc fuel) n line = elim (skip_blanks line) [
  | [] ↦ got n
  | c ∷ cs ↦
      let rest = count_words fuel (n + 1) (word (c ∷ cs)).1 in
      if ltb max_args (n + 1) then protocol_error else rest
]

-- The second pass stores them, in a pool of `cap` slots.
unfoldable pub fill_words : ℕ → ℕ → ℕ → ℕ → List ℕ → Reply (List (List ℕ))
fill_words zero n ai cap line = fault
fill_words (suc fuel) n ai cap line = elim (skip_blanks line) [
  | [] ↦ got []
  | c ∷ cs ↦
      let (w, after) = word (c ∷ cs) in
      let rest = fill_words fuel n (ai + 1) cap after >>= λ ws. got (w ∷ ws) in
      if leb n ai then got [] else if leb cap ai then fault else rest
]

-- The number of bytes consumed, returned as an `int` of 32 bits: 0 and a negative number are what
-- the caller takes them for, and another number is how far the caller moves on.
unfoldable pub as_int : List ℕ → Reply (List (List ℕ) × List ℕ) → Reply (List (List ℕ) × List ℕ)
as_int b fault = fault
as_int b need_more = need_more
as_int b protocol_error = protocol_error
as_int b (got (args, rest)) =
    let consumed = (length b - length rest) % 2 ^ 32 in
    if consumed == 0
    then need_more
    else if ltb consumed (2 ^ 31)
    then got (args, drop consumed b)
    else protocol_error

module _ (alloc : ℕ → Bool) where
  -- A command in one line of text.
  unfoldable pub parse_inline : ℕ → List ℕ → ℕ × Reply (List (List ℕ) × List ℕ)
  parse_inline cap b = in_pool cap (split_line b) λ (text, rest).
      let line = chop text in
      let fuel = suc (length line) in
      in_pool cap (count_words fuel 0 line) λ n.
        if n == 0
        then (cap, got ([], rest))
        else in_pool cap (argv_pool_reserve alloc cap n)
            λ cap'. (cap', fill_words fuel n 0 cap' line >>= λ args. got (args, rest))

  -- The body of `resp_parse_one` on the bytes left in the buffer, with a pool of `cap` slots: the
  -- new capacity, and the arguments with the bytes that are not consumed.
  unfoldable pub parse_bytes : ℕ → List ℕ → ℕ × Reply (List (List ℕ) × List ℕ)
  parse_bytes cap [] = (cap, need_more)
  parse_bytes cap (c ∷ cs) =
      if not (c == 42)
      then parse_inline cap (c ∷ cs)
      else in_pool cap (read_length max_args cs) λ (n, rest).
        in_pool cap (argv_pool_reserve alloc cap (if ltb n pool_init then n else pool_init))
          λ cap'. read_args alloc n 0 cap' rest

  -- `resp_parse_one`, with what it returns.
  unfoldable pub parse_one : ℕ → List ℕ → ℕ × Reply (List (List ℕ) × List ℕ)
  parse_one cap b = let (cap', r) = parse_bytes cap b in (cap', as_int b r)
