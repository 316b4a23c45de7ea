-- ===== src/Resp/Print.antt =====
-- resp.c: what the server writes. The write buffer is taken to grow without failing, so that a
-- writer returns the bytes that it appends.
use alcove.Base.{
  ℕ, zero, suc, ◌+◌, ◌/◌, ◌%◌, List, [], ◌∷◌, ◌++◌, ◌==◌, if◌then◌else◌, length, ℤ, pos, negsuc,
}
use alcove.Resp.{Reply, fault, got, ◌>>=◌}

-- The loop of `resp_u64_to_ascii` with `room` digits left in `tmp`. The digits are stored from the
-- lowest on and copied from the last one back, so that each stands in front of those before it.
unfoldable pub digits : ℕ → ℕ → List ℕ → Reply (List ℕ)
digits zero v acc = fault
digits (suc room) v acc =
    let acc' = (48 + v % 10) ∷ acc in
    let rest = digits room (v / 10) acc' in if v / 10 == 0 then got acc' else rest

-- `char tmp[20]`
abbrev pub digits_room : ℕ
digits_room = 20

-- `resp_u64_to_ascii`
unfoldable pub u64_to_ascii : ℕ → Reply (List ℕ)
u64_to_ascii v = digits digits_room v []

-- `resp_i64_to_ascii`; `negsuc m` is -(m + 1).
unfoldable pub i64_to_ascii : ℤ → Reply (List ℕ)
i64_to_ascii (pos v) = u64_to_ascii v
i64_to_ascii (negsuc m) = u64_to_ascii (m + 1) >>= λ ds. got (45 ∷ ds)

abbrev pub crlf : List ℕ
crlf = 13 ∷ 10 ∷ []

-- `resp_write_int`
unfoldable pub write_int : ℤ → Reply (List ℕ)
write_int v = i64_to_ascii v >>= λ ds. got (58 ∷ ds ++ crlf)

-- `resp_write_bulk`
unfoldable pub write_bulk : List ℕ → Reply (List ℕ)
write_bulk p = u64_to_ascii (length p) >>= λ ds. got (36 ∷ ds ++ (crlf ++ (p ++ crlf)))

-- `resp_write_array_hdr`
unfoldable pub write_array_hdr : ℤ → Reply (List ℕ)
write_array_hdr n = i64_to_ascii n >>= λ ds. got (42 ∷ ds ++ crlf)

-- `resp_write_nil`
unfoldable pub write_nil : List ℕ
write_nil = 36 ∷ 45 ∷ 49 ∷ crlf

-- An array of bulk strings, as a command is sent and an array reply is written.
unfoldable pub write_bulks : List (List ℕ) → Reply (List ℕ)
write_bulks [] = got []
write_bulks (p ∷ ps) = write_bulk p >>= λ b. write_bulks ps >>= λ bs. got (b ++ bs)

unfoldable pub write_array : List (List ℕ) → Reply (List ℕ)
write_array ps = write_array_hdr (pos (length ps)) >>= λ h. write_bulks ps >>= λ bs. got (h ++ bs)
