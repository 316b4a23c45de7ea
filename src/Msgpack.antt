-- ===== src/Msgpack.antt =====
-- msgpack.h: the byte layer and the integers of the MessagePack codec. The buffer's growth is taken
-- to succeed, so that a function that writes returns the bytes that it appends.
pub mod Bytes
pub mod Integers
pub mod Roundtrip
pub mod Lengths
pub mod Shortest
pub mod Value
pub mod Decode
pub mod Sizes
pub mod Arms
pub mod Containers
pub mod Wire
pub mod Join
pub mod Pieces
pub mod Whole
pub mod Total
mod Tests
use alcove.Base.{
  ℕ, zero, suc, ◌+◌, ◌-◌, ◌*◌, ◌^◌, List, [], ◌∷◌, ◌++◌, Option, none, some, Bool, true, false,
  ◌&&◌, ◌||◌, not, ltb, leb, ◌==◌, if◌then◌else◌, get_elem?, length, bit_and, bit_or, u8, u64, ◌<<◌,
  ◌>>◌, ◌>>=◌, ℤ, pos, negsuc, to_u64, to_i64, shift_right,
}
use alcove.Fixnum.{fix_fits}

-- The loop of `mp_put_be`, from the byte below `nbytes` down.
unfoldable pub put_be : ℕ → ℕ → List ℕ
put_be v zero = []
put_be v (suc i) = u8 (v >> (i * 8)) ∷ put_be v i

-- `mp_put_sized`: none where the size is too large.
unfoldable pub put_sized : ℕ → ℕ → ℕ → ℕ → ℕ → ℕ → Option (List ℕ)
unfolding put_be
put_sized fixmask fixlim tag8 tag16 tag32 n =
    if not (fixlim == 0) && ltb n fixlim
    then some (u8 (bit_or fixmask n) ∷ [])
    else if not (tag8 == 0) && leb n 0xFF
    then some (tag8 ∷ put_be n 1)
    else if leb n 0xFFFF
    then some (tag16 ∷ put_be n 2)
    else if ltb 0xFFFFFFFF n
    then none
    else some (tag32 ∷ put_be n 4)

-- `mp_encode_int`; `negsuc m` is -(m + 1), so that it is at least -32 where `m` is below 32.
unfoldable pub encode_int : ℤ → List ℕ
unfolding put_be
encode_int (pos n) =
    if ltb n 128
    then u8 n ∷ []
    else if leb n 0xFF
    then 0xCC ∷ put_be (to_u64 (pos n)) 1
    else if leb n 0xFFFF
    then 0xCD ∷ put_be (to_u64 (pos n)) 2
    else if leb n 0xFFFFFFFF
    then 0xCE ∷ put_be (to_u64 (pos n)) 4
    else 0xD3 ∷ put_be (to_u64 (pos n)) 8
encode_int (negsuc m) =
    if ltb m 32
    then u8 (to_u64 (negsuc m)) ∷ []
    else if ltb m 128
    then 0xD0 ∷ put_be (to_u64 (negsuc m)) 1
    else if ltb m 32768
    then 0xD1 ∷ put_be (to_u64 (negsuc m)) 2
    else if ltb m 2147483648
    then 0xD2 ∷ put_be (to_u64 (negsuc m)) 4
    else 0xD3 ∷ put_be (to_u64 (negsuc m)) 8

-- The loop of `mp_get_be` with `n` bytes to read at `i`.
unfoldable pub get_from : ℕ → List ℕ → ℕ → ℕ → Option ℕ
get_from v b i zero = some v
get_from v b i (suc n) = get_elem? b i >>= λ byte. get_from (bit_or (u64 (v << 8)) byte) b (i + 1) n

-- `mp_get_be`; none is a read outside the buffer.
unfoldable pub get_be : List ℕ → ℕ → ℕ → Option ℕ
unfolding get_from
get_be b i n = get_from 0 b i n

-- `mp_sext`
unfoldable pub sext : ℕ → ℕ → ℤ
sext v nb = let sh = 64 - nb * 8 in shift_right (to_i64 (u64 (v << sh))) sh

-- A decoded integer: a fixnum, or a float that the C compiler's conversion makes of it.
pub data Number : Type 0 where
  fixnum : ℤ → Number
  float_of : ℤ → Number

-- `MAKE_FIX` if it fits, and else the float.
unfoldable pub number : ℤ → Number
number v = if fix_fits v then fixnum v else float_of v

-- The arms of `mp_decode` for integers, at the position behind the lead byte. The outer
-- none is a fault, the inner one the returned NULL.
unfoldable pub decode_unsigned : List ℕ → ℕ → ℕ → Option (Option (Number × ℕ))
unfolding number
decode_unsigned b i nb =
    if ltb (length b) (i + nb)
    then some none
    else get_be b i nb >>= λ uv.
        if ltb nb 8 || ltb uv (2 ^ 63)
        then some (some (number (pos uv), i + nb))
        else some (some (float_of (pos uv), i + nb))

unfoldable pub decode_signed : List ℕ → ℕ → ℕ → Option (Option (Number × ℕ))
unfolding number
decode_signed b i nb =
    if ltb (length b) (i + nb)
    then some none
    else get_be b i nb >>= λ v. some (some (number (sext v nb), i + nb))

-- The integers of `mp_decode`, by the lead byte; one of another kind is none here.
unfoldable pub int_arm : List ℕ → ℕ → ℕ → Option (Option (Number × ℕ))
int_arm b i c =
    if leb c 0x7F
    then some (some (fixnum (pos c), i))
    else if leb 0xE0 c
    then some (some (fixnum (negsuc (255 - c)), i))
    else if c == 0xCC
    then decode_unsigned b i 1
    else if c == 0xCD
    then decode_unsigned b i 2
    else if c == 0xCE
    then decode_unsigned b i 4
    else if c == 0xCF
    then decode_unsigned b i 8
    else if c == 0xD0
    then decode_signed b i 1
    else if c == 0xD1
    then decode_signed b i 2
    else if c == 0xD2
    then decode_signed b i 4
    else if c == 0xD3
    then decode_signed b i 8
    else some none

unfoldable pub decode_int : List ℕ → ℕ → Option (Option (Number × ℕ))
decode_int b i = if leb (length b) i then some none else get_elem? b i >>= λ c. int_arm b (i + 1) c
