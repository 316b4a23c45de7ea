-- ===== src/Hash.antt =====
-- dict.h: the Bernstein hashes, on `unsigned int` of 32 bits.
pub mod Terminated
use alcove.Base.{
  ℕ, ◌+◌, List, [], ◌∷◌, Option, none, some, true, false, ◌&&◌, ◌==◌, leb, if◌then◌else◌, u32, ◌<<◌,
  bit_xor,
}

-- `hash = (hash + (hash << 5)) ^ byte`
unfoldable pub mix : ℕ → ℕ → ℕ
mix hash byte = bit_xor (u32 (hash + u32 (hash << 5))) byte

-- The loop of `bernstein_hash` over the bytes left.
unfoldable pub hash_from : ℕ → List ℕ → ℕ
unfolding mix
hash_from hash [] = hash
hash_from hash (byte ∷ bytes) = hash_from (mix hash byte) bytes

abbrev pub bernstein_seed : ℕ
bernstein_seed = 3102

-- `bernstein_hash`
unfoldable pub bernstein_hash : List ℕ → ℕ
unfolding hash_from
bernstein_hash key = hash_from bernstein_seed key

-- The loop of `bernstein_hash_z` over the memory behind the key; none is a read past its end.
unfoldable pub hash_z_from : ℕ → List ℕ → Option ℕ
unfolding mix
hash_z_from hash [] = none
hash_z_from hash (byte ∷ memory) = elim (byte == 0) [
  | true ↦ some hash
  | false ↦ hash_z_from (mix hash byte) memory
]

-- `bernstein_hash_z`
unfoldable pub bernstein_hash_z : List ℕ → Option ℕ
unfolding hash_z_from
bernstein_hash_z memory = hash_z_from bernstein_seed memory

-- `tolower` of the C locale.
abbrev pub tolower : ℕ → ℕ
tolower c = if leb 65 c && leb c 90 then c + 32 else c

-- The loop of `bernstein_uhash`.
unfoldable pub uhash_from : ℕ → List ℕ → ℕ
unfolding mix
uhash_from hash [] = hash
uhash_from hash (byte ∷ bytes) = uhash_from (mix hash (tolower byte)) bytes

-- `bernstein_uhash`
unfoldable pub bernstein_uhash : List ℕ → ℕ
unfolding uhash_from
bernstein_uhash key = uhash_from bernstein_seed key
