-- ===== src/Resp/Sound.antt =====
-- Replies that are no fault and whose values satisfy a predicate; what the readers of numbers and
-- of single arguments guarantee.
use alcove.Base.{
  ℕ, ◌+◌, ◌-◌, ◌*◌, ◌<◌, ◌≤◌, ◌≡◌, List, [], ◌∷◌, not, ◌&&◌, ◌||◌, arith, ltb, ◌==◌, length,
  length-take, length-drop, get_elem?_within, Bool-cases, inl, inr,
}
use mathlib.Core.Path.{subst}
use alcove.Resp.{
  Reply, fault, need_more, protocol_error, got, ◌>>=◌, max_bulk, read_number, line_end, read_length,
  byte_at, read_payload, read_bulk,
}

abbrev pub Sound {ℓ} : {A : Type ℓ} → (A → Type 0) → Reply A → Type 0
Sound P fault = ⊥
Sound P need_more = Unit
Sound P protocol_error = Unit
Sound P (got a) = P a

module _ {ℓ} {A : Type ℓ} (P : A → Type 0) where
  pub Sound-got : (r : Reply A) (a : A) → Sound P r → r ≡ got a → P a
  Sound-got r a h e = subst (Sound P) e h

  pub Sound->>= {μ} :
      {B : Type μ} (Q : B → Type 0) (r : Reply A) (k : A → Reply B)
      → Sound P r
      → ((a : A) → P a → Sound Q (k a))
      → Sound Q (r >>= k)
  Sound->>= Q fault k h next = elim h [ ]
  Sound->>= Q need_more k h next = tt
  Sound->>= Q protocol_error k h next = tt
  Sound->>= Q (got a) k h next = next a h

  pub Sound-le : {Q : A → Type 0} (r : Reply A) → Sound P r → ((a : A) → P a → Q a) → Sound Q r
  Sound-le fault h weaker = elim h [ ]
  Sound-le need_more h weaker = tt
  Sound-le protocol_error h weaker = tt
  Sound-le (got a) h weaker = weaker a h

module _ (limit : ℕ) where
  read_number-Sound :
      (n : ℕ) (b : List ℕ)
      → n ≤ limit
      → Sound (λ (m, rest). (m ≤ limit) × (length rest ≤ length b)) (read_number limit n b)
  unfolding read_number
  read_number-Sound n [] small = (small, omega arith)
  read_number-Sound n (c ∷ cs) small = elim (Bool-cases (c == 13)) [
    | inl stop ↦ rw stop (small, omega arith)
    | inr digit ↦ elim (Bool-cases (ltb c 48 || ltb 57 c)) [
      | inl bad ↦ rw (digit, bad) tt
      | inr good ↦ elim (Bool-cases (ltb limit (n * 10 + (c - 48)))) [
        | inl large ↦ rw (digit, good, large) tt
        | inr fits ↦
            rw (digit, good, fits)
              (Sound-le _ (read_number limit (n * 10 + (c - 48)) cs)
                (read_number-Sound (n * 10 + (c - 48)) cs (ground arith))
                λ (m, rest) (le, short). (le, omega arith))
      ]
    ]
  ]

  line_end-Sound : (b : List ℕ) → Sound (λ rest. length rest < length b) (line_end b)
  unfolding line_end
  line_end-Sound [] = tt
  line_end-Sound (x ∷ []) = tt
  line_end-Sound (x ∷ y ∷ rest) = elim (Bool-cases (x == 13 && y == 10)) [
    | inl ends ↦ rw ends (omega arith)
    | inr goes ↦ rw goes tt
  ]

  pub read_length-Sound :
      (b : List ℕ)
      → Sound (λ (n, rest). (n ≤ limit) × (length rest < length b)) (read_length limit b)
  unfolding read_length
  read_length-Sound b =
      Sound->>= _ _ (read_number limit 0 b) _ (read_number-Sound 0 b (omega arith))
        λ (n, rest) (le, short).
          Sound->>= _ _ (line_end rest) _ (line_end-Sound rest) λ rest' less. (le, omega arith)

byte_at-Sound : (b : List ℕ) (k : ℕ) → k < length b → Sound {A = ℕ} (λ x. Unit {0}) (byte_at b k)
unfolding byte_at
byte_at-Sound b k h = let (x, at) = get_elem?_within b k h in rw (at, byte_at) tt

read_payload-Sound :
    (n : ℕ) (b : List ℕ)
    → n ≤ max_bulk
    → Sound (λ (arg, rest). (length arg ≤ max_bulk) × (length rest ≤ length b)) (read_payload n b)
unfolding read_payload
read_payload-Sound n b le = elim (Bool-cases (ltb (length b) (n + 2))) [
  | inl cut ↦ rw cut tt
  | inr whole ↦ rw whole (
      Sound->>= _ _ (byte_at b n) _ (byte_at-Sound b n (ground arith)) λ x _.
        Sound->>= _ _ (byte_at b (n + 1)) _ (byte_at-Sound b (n + 1) (ground arith)) λ y _.
          elim (Bool-cases (not (x == 13) || not (y == 10))) [
            | inl bad ↦ rw bad tt
            | inr good ↦
                rw good (omega (arith, length-take n b), omega (arith, length-drop (n + 2) b))
          ])
]

pub read_bulk-Sound :
    (b : List ℕ)
    → Sound (λ (arg, rest). (length arg ≤ max_bulk) × (length rest < length b)) (read_bulk b)
unfolding read_bulk
read_bulk-Sound [] = tt
read_bulk-Sound (c ∷ cs) = elim (Bool-cases (c == 36)) [
  | inr other ↦ rw other tt
  | inl dollar ↦ rw dollar (
      Sound->>= _ _ (read_length max_bulk cs) _ (read_length-Sound max_bulk cs)
        λ (n, rest) (le, short).
          Sound-le _ (read_payload n rest) (read_payload-Sound n rest le)
            λ (arg, rest') (small, less). (small, omega arith))
]
