-- ===== src/Hamt/Keys.antt =====
-- The keys of the program: `isequal` and `hamt_hashkey`. A value is a tagged word or the address of
-- an object in a heap, and an object its type and the fields that the two functions read. Words of
-- other tags are left out, and the payloads of blobs, rationals and decimals are there: the tests of
-- their pointers against NULL have no case.
pub mod Equal
use alcove.Base.{
  ℕ, zero, suc, ◌+◌, ◌-◌, ◌*◌, ◌/◌, ◌%◌, ◌^◌, ◌<◌, ◌≡◌, ◌⊎◌, refl, sym, ap, ◌∙◌, List, [], ◌∷◌, map,
  Bool, true, false, not, ◌&&◌, ◌||◌, ◌==◌, ltb, if◌then◌else◌, bytes_eq, bytes_eq_refl,
  eq_of_bytes_eq, Bool-cases, inl, inr, arith,
}
use alcove.Hash.{bernstein_hash}

-- `exp_t` behind a pointer: the 64 bits of a float, the text of a symbol or a string or the bytes
-- of a blob, and the two numbers of a rational or a decimal.
pub record Object : Type 0 where
  pub type : ℕ
  pub f : ℕ
  pub bytes : List ℕ
  pub parts : ℕ × ℕ

-- A fixnum by its 64 bits, a character, or a pointer; NULL is the address 0. The other tagged words
-- are left out.
pub data Exp : Type 0 where
  fixnum : ℕ → Exp
  character : ℕ → Exp
  pointer : ℕ → Exp

-- `EXP_SYMBOL`, `EXP_FLOAT`, `EXP_STRING`, `EXP_BLOB`, `EXP_RATIONAL` and `EXP_DECIMAL`.
abbrev pub exp_symbol : ℕ
exp_symbol = 1

abbrev pub exp_float : ℕ
exp_float = 3

abbrev pub exp_string : ℕ
exp_string = 4

abbrev pub exp_blob : ℕ
exp_blob = 17

abbrev pub exp_rational : ℕ
exp_rational = 22

abbrev pub exp_decimal : ℕ
exp_decimal = 23

-- `v == 0.0`, and `v != v`, on the bits of a double.
unfoldable pub is_zero : ℕ → Bool
is_zero bits = bits == 0 || bits == 2 ^ 63

unfoldable pub is_nan : ℕ → Bool
is_nan bits = ltb (2047 * 2 ^ 52) (bits % 2 ^ 63)

-- `cur1->f == cur2->f`
unfoldable pub float_eq : ℕ → ℕ → Bool
float_eq a b = not (is_nan a) && not (is_nan b) && (a == b || (is_zero a && is_zero b))

-- The arms of `isequal` for two objects of one type.
unfoldable pub same_content : Object → Object → Bool
same_content a b =
    if a.type == exp_float
    then float_eq a.f b.f
    else if a.type == exp_symbol || a.type == exp_string || a.type == exp_blob
    then bytes_eq a.bytes b.bytes
    else if a.type == exp_rational || a.type == exp_decimal
    then a.parts.0 == b.parts.0 && a.parts.1 == b.parts.1
    else false

-- The bytes of a word in memory, the lowest first.
unfoldable pub bytes_of : ℕ → ℕ → List ℕ
bytes_of zero v = []
bytes_of (suc n) v = v % 256 ∷ bytes_of n (v / 256)

module _ (heap : ℕ → Object) (nil_singleton : ℕ) where
  abbrev pub is_nil : Exp → Bool
  is_nil (pointer a) = a == 0 || a == nil_singleton
  is_nil _ = false

  -- `cur1 == cur2`
  abbrev pub same_word : Exp → Exp → Bool
  same_word (fixnum a) (fixnum b) = a == b
  same_word (character a) (character b) = a == b
  same_word (pointer a) (pointer b) = a == b
  same_word _ _ = false

  -- The end of `isequal`, behind `is_ptr`.
  abbrev pub same_object : Exp → Exp → Bool
  same_object (pointer a) (pointer b) =
      not (a == 0)
      && not (b == 0)
      && (heap a).type == (heap b).type
      && same_content (heap a) (heap b)
  same_object _ _ = false

  unfoldable pub isequal : Exp → Exp → Bool
  isequal a b = same_word a b || (is_nil a && is_nil b) || same_object a b

  -- `hamt_hashkey`
  unfoldable pub hamt_hashkey : Exp → ℕ
  hamt_hashkey (fixnum v) = bernstein_hash (bytes_of 8 v)
  hamt_hashkey (character v) = bernstein_hash (bytes_of 4 v)
  hamt_hashkey (pointer a) =
      if a == 0
      then bernstein_hash (bytes_of 8 a)
      else if (heap a).type == exp_float
      then bernstein_hash (bytes_of 8 (if is_zero (heap a).f then 0 else (heap a).f))
      else if (heap a).type == exp_symbol
          || (heap a).type == exp_string
          || (heap a).type == exp_blob
      then bernstein_hash (heap a).bytes
      else bernstein_hash (bytes_of 8 a)

  -- The keys that are hashed by what they hold, or that equal only themselves.
  unfoldable pub is_hashable : Exp → Bool
  is_hashable (pointer a) =
      not (a == 0 || a == nil_singleton)
      && not ((heap a).type == exp_rational || (heap a).type == exp_decimal)
  is_hashable _ = true

  abbrev pub HashableKey : Type 0
  HashableKey = (a : Exp) × (is_hashable a ≡ true)
