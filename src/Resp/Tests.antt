-- ===== src/Resp/Tests.antt =====
-- Commands on the wire.
use alcove.Base.{
  ℕ, ◌^◌, ◌<◌, ◌≤◌, ◌≡◌, refl, List, [], ◌∷◌, ◌++◌, some, Bool, true, false, arith, length, negsuc,
}
use alcove.Resp.{
  Reply, fault, need_more, protocol_error, got, max_args, double, argv_pool_reserve, read_number,
  line_end, read_length, byte_at, read_payload, read_bulk, read_args, split_line, chop, skip_blanks,
  word, count_words, fill_words, parse_inline, parse_bytes, parse_one, as_int,
}
use alcove.Resp.Print.{digits, u64_to_ascii, i64_to_ascii, write_int, write_bulk, write_array}
use alcove.Resp.Sound.{Sound}
use alcove.Resp.Bounds.{parse_one-Sound}
use alcove.Resp.Append.{Stable, Succeeds, parse_one-append}
use alcove.Resp.Roundtrip.{reply_length, parse_one-write_array}
use alcove.Resp.Process.{process, process_input, process_input-append}
use alcove.Resp.Pipeline.{write_commands, process_input-write_commands}

abbrev always : ℕ → Bool
always c = true

abbrev never : ℕ → Bool
never c = false

always-Succeeds : Succeeds always
always-Succeeds c = refl

-- "*1\r\n$2\r\nhi\r\n"
abbrev hi : List ℕ
hi = 42 ∷ 49 ∷ 13 ∷ 10 ∷ 36 ∷ 50 ∷ 13 ∷ 10 ∷ 104 ∷ 105 ∷ 13 ∷ 10 ∷ []

-- " a  bc\r\n"
abbrev a_bc : List ℕ
a_bc = 32 ∷ 97 ∷ 32 ∷ 32 ∷ 98 ∷ 99 ∷ 13 ∷ 10 ∷ []

replies :
    (parse_one always 0 hi ≡ (8, got ((104 ∷ 105 ∷ []) ∷ [], [])))
    × (parse_one always 8 a_bc ≡ (8, got ((97 ∷ []) ∷ (98 ∷ 99 ∷ []) ∷ [], [])))
    × (parse_one always 8 (42 ∷ 49 ∷ 13 ∷ 10 ∷ 36 ∷ 50 ∷ []) ≡ (8, need_more))
    × (parse_one always 8 (42 ∷ 120 ∷ []) ≡ (8, protocol_error))
    × (parse_one never 0 hi ≡ (0, protocol_error))
unfolding parse_one parse_bytes as_int parse_inline read_args argv_pool_reserve double read_length
    read_number line_end read_bulk read_payload byte_at split_line chop skip_blanks word count_words
    fill_words
replies = (refl, refl, refl, refl, refl)

printed :
    (write_int (negsuc 41) ≡ got (58 ∷ 45 ∷ 52 ∷ 50 ∷ 13 ∷ 10 ∷ []))
    × (write_array ((104 ∷ 105 ∷ []) ∷ []) ≡ got hi)
    × (u64_to_ascii 18446744073709551615
        ≡ got (
            49 ∷ 56 ∷ 52 ∷ 52 ∷ 54 ∷ 55 ∷ 52 ∷ 52 ∷ 48 ∷ 55 ∷ 51 ∷ 55 ∷ 48 ∷ 57 ∷ 53 ∷ 53 ∷ 49 ∷ 54
            ∷ 49 ∷ 53 ∷ []))
unfolding write_int write_array alcove.Resp.Print.write_array_hdr write_bulk
    alcove.Resp.Print.write_bulks i64_to_ascii u64_to_ascii digits
printed = (refl, refl, refl)

parse_one-Sound_example :
    Sound
      (λ (args, rest). (length args ≤ max_args) × (length rest < length hi))
      (parse_one always 8 hi).1
parse_one-Sound_example = parse_one-Sound always 8 hi

parse_one-append_example :
    Stable
      (λ (args, rest). (args, rest ++ 42 ∷ []))
      (parse_one always 0 hi).1
      (parse_one always 8 (hi ++ 42 ∷ [])).1
parse_one-append_example = parse_one-append always 0 8 hi (42 ∷ []) always-Succeeds

hi_short : reply_length (write_array ((104 ∷ 105 ∷ []) ∷ [])) < 2 ^ 31
unfolding write_array alcove.Resp.Print.write_array_hdr write_bulk alcove.Resp.Print.write_bulks
    i64_to_ascii u64_to_ascii digits
hi_short = omega arith

letter_short : (x : ℕ) → reply_length (write_array ((x ∷ []) ∷ [])) < 2 ^ 31
unfolding write_array alcove.Resp.Print.write_array_hdr write_bulk alcove.Resp.Print.write_bulks
    i64_to_ascii u64_to_ascii digits
letter_short x = omega arith

parse_one-write_array_example :
    (b : List ℕ) × (write_array ((104 ∷ 105 ∷ []) ∷ []) ≡ got b)
    × ((alloc : ℕ → Bool) (cap : ℕ) (tail : List ℕ)
        → Succeeds alloc
        → (parse_one alloc cap (b ++ tail)).1 ≡ got ((104 ∷ 105 ∷ []) ∷ [], tail))
parse_one-write_array_example =
    parse_one-write_array ((104 ∷ 105 ∷ []) ∷ []) (omega arith, tt) (omega arith) hi_short

-- A consumed length from 2 ^ 31 up is returned as a negative number.
wrapped :
    (b : List ℕ) (args : List (List ℕ))
    → length b ≡ 2147483648
    → as_int b (got (args, [])) ≡ protocol_error
unfolding as_int
wrapped b args e = rw e refl

-- A server that keeps the commands, the last one first, and counts the errors.
abbrev Log : Type 0
Log = List (List (List ℕ))

abbrev keep : List (List ℕ) → Log → Log
keep args log = args ∷ log

abbrev drop_all : Log → Log
drop_all log = []

process_input-append_example :
    process_input keep drop_all always 8 [] ((a_bc ++ 42 ∷ []) ++ 48 ∷ 13 ∷ 10 ∷ [])
    ≡ process_input keep drop_all always 8
        (((97 ∷ []) ∷ (98 ∷ 99 ∷ []) ∷ []) ∷ [])
        (42 ∷ 48 ∷ 13 ∷ 10 ∷ [])
unfolding process_input process parse_one parse_bytes as_int parse_inline argv_pool_reserve
    read_length read_number line_end split_line chop skip_blanks word count_words fill_words
process_input-append_example =
    process_input-append keep drop_all always 8 8 8 [] (((97 ∷ []) ∷ (98 ∷ 99 ∷ []) ∷ []) ∷ [])
      (a_bc ++ 42 ∷ []) (48 ∷ 13 ∷ 10 ∷ []) (42 ∷ []) always-Succeeds refl

process_input-write_commands_example :
    (b : List ℕ) × (write_commands (((104 ∷ []) ∷ []) ∷ ((105 ∷ []) ∷ []) ∷ []) ≡ got b)
    × ((alloc : ℕ → Bool) (cap : ℕ) (s : Log)
        → Succeeds alloc
        → process_input keep drop_all alloc cap s b
          ≡ some (((105 ∷ []) ∷ []) ∷ ((104 ∷ []) ∷ []) ∷ s, [], false))
process_input-write_commands_example =
    process_input-write_commands keep drop_all (((104 ∷ []) ∷ []) ∷ ((105 ∷ []) ∷ []) ∷ []) (
      (omega arith, tt),
      omega arith,
      letter_short 104,
      ((omega arith, tt), omega arith, letter_short 105, tt),
    )
