-- ===== src/Hash/Terminated.antt =====
-- The variants of the hash: on a C string, and on a key whose case does not count.
use alcove.Base.{ℕ, ◌≡◌, ◌≢◌, refl, ◌∙◌, List, [], ◌∷◌, ◌++◌, some, false, arith, map, ◌==◌}
use alcove.Hash.{
  mix, hash_from, bernstein_seed, bernstein_hash, hash_z_from, bernstein_hash_z, tolower,
  uhash_from, bernstein_uhash,
}

-- No byte of the text is the terminator.
abbrev pub IsText : List ℕ → Type 0
IsText [] = Unit
IsText (byte ∷ bytes) = (byte ≢ 0) × IsText bytes

hash_z_step :
    (hash byte : ℕ) (memory : List ℕ)
    → (byte == 0) ≡ false
    → hash_z_from hash (byte ∷ memory) ≡ hash_z_from (mix hash byte) memory
unfolding hash_z_from
hash_z_step hash byte memory more = ground arith

hash_z_from-text :
    (hash : ℕ) (key rest : List ℕ)
    → IsText key
    → hash_z_from hash (key ++ 0 ∷ rest) ≡ some (hash_from hash key)
unfolding hash_z_from hash_from
hash_z_from-text hash [] rest h = refl
hash_z_from-text hash (byte ∷ key) rest (nonzero, h) =
    let more : (byte == 0) ≡ false = ground arith in
    hash_z_step hash byte (key ++ 0 ∷ rest) more ∙ hash_z_from-text (mix hash byte) key rest h

-- bernstein_hash_z of a C string is bernstein_hash of the bytes before the terminator, whatever
-- the memory behind it holds.
pub hash_z-text :
    (key rest : List ℕ)
    → IsText key
    → bernstein_hash_z (key ++ 0 ∷ rest) ≡ some (bernstein_hash key)
unfolding bernstein_hash_z bernstein_hash
hash_z-text key rest h = hash_z_from-text bernstein_seed key rest h

uhash_from-map : (hash : ℕ) (key : List ℕ) → uhash_from hash key ≡ hash_from hash (map tolower key)
unfolding uhash_from hash_from
uhash_from-map hash [] = refl
uhash_from-map hash (byte ∷ key) = uhash_from-map (mix hash (tolower byte)) key

-- The hash that ignores case is the hash of the key in lower case.
pub uhash-map : (key : List ℕ) → bernstein_uhash key ≡ bernstein_hash (map tolower key)
unfolding bernstein_uhash bernstein_hash
uhash-map key = uhash_from-map bernstein_seed key
