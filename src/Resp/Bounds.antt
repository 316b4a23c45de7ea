-- ===== src/Resp/Bounds.antt =====
-- What a parse returns lies within the limits, and is no access outside an array.
use alcove.Base.{
  ℕ, zero, suc, ◌<◌, ◌≤◌, ◌≡◌, refl, sym, ap, List, [], ◌∷◌, Bool, arith, ltb, ◌==◌, ◌-◌, ◌%◌, ◌^◌,
  length, length-drop, Bool-cases, inl, inr,
}
use mathlib.Core.Path.{subst}
use alcove.Resp.{
  Reply, fault, need_more, protocol_error, got, as_int, max_args, read_length, read_bulk,
  split_line, chop, parse_one,
}
use alcove.Resp.Sound.{Sound, Sound->>=, Sound-le, read_length-Sound, read_bulk-Sound}
use alcove.Resp.Frame.{line_words, bulks, inline_frame, raw_frame, frame, parse_one-frame}

bulks-Sound :
    (n : ℕ) (b : List ℕ)
    → Sound (λ (args, rest). (length args ≡ n) × (length rest ≤ length b)) (bulks n b)
unfolding bulks
bulks-Sound zero b = (refl, omega arith)
bulks-Sound (suc n) b = Sound->>= _ _ (read_bulk b) _ (read_bulk-Sound b) λ (arg, rest) (_, less).
    Sound->>= _ _ (bulks n rest) _ (bulks-Sound n rest)
      λ (args, rest') (all, short). (ap suc all, omega arith)

split_line-Sound : (b : List ℕ) → Sound (λ (line, rest). length rest < length b) (split_line b)
unfolding split_line
split_line-Sound [] = tt
split_line-Sound (c ∷ cs) = elim (Bool-cases (c == 10)) [
  | inl ends ↦ rw ends (omega arith)
  | inr goes ↦
      rw goes
        (Sound->>= _ _ (split_line cs) _ (split_line-Sound cs) λ (line, rest) less. omega arith)
]

abbrev pub Within : List ℕ → List (List ℕ) × List ℕ → Type 0
Within b (args, rest) = (length args ≤ max_args) × (length rest < length b)

pub raw_frame-Sound : (b : List ℕ) → Sound (Within b) (raw_frame b)
unfolding raw_frame inline_frame
raw_frame-Sound [] = tt
raw_frame-Sound (c ∷ cs) = elim (Bool-cases (c == 42)) [
  | inl array ↦ rw array (
      Sound->>= _ _ (read_length max_args cs) _ (read_length-Sound max_args cs)
        λ (n, rest) (small, less).
          Sound-le _ (bulks n rest) (bulks-Sound n rest)
            λ (args, rest') (all, short). (omega arith, omega arith))
  | inr text ↦ rw text (
      Sound->>= _ _ (split_line (c ∷ cs)) _ (split_line-Sound (c ∷ cs)) λ (line, rest) less.
        elim (Bool-cases (ltb max_args (length (line_words (chop line))))) [
          | inl over ↦ rw over tt
          | inr fits ↦ rw fits (ground arith, less)
        ])
]

as_int-Sound :
    (b : List ℕ) (r : Reply (List (List ℕ) × List ℕ))
    → Sound (Within b) r
    → Sound (Within b) (as_int b r)
unfolding as_int
as_int-Sound b fault h = h
as_int-Sound b need_more h = tt
as_int-Sound b protocol_error h = tt
as_int-Sound b (got (args, rest)) (few, less) =
    let consumed = (length b - length rest) % 2 ^ 32 in
    elim (Bool-cases (consumed == 0)) [
      | inl none_read ↦ rw none_read tt
      | inr some_read ↦ elim (Bool-cases (ltb consumed (2 ^ 31))) [
        | inl positive ↦ rw (some_read, positive) (few, ground (arith, length-drop consumed b))
        | inr negative ↦ rw (some_read, negative) tt
      ]
    ]

pub frame-Sound : (b : List ℕ) → Sound (Within b) (frame b)
unfolding frame
frame-Sound b = as_int-Sound b (raw_frame b) (raw_frame-Sound b)

-- resp_parse_one reads and writes within its arrays and ends each loop, whatever the bytes are
-- and whichever allocation fails; a command that it returns has at most 1048576 arguments, and at
-- least one byte is consumed.
pub parse_one-Sound :
    (alloc : ℕ → Bool) (cap : ℕ) (b : List ℕ)
    → Sound
        (λ (args, rest). (length args ≤ max_args) × (length rest < length b))
        (parse_one alloc cap b).1
parse_one-Sound alloc cap b = elim (parse_one-frame alloc cap b) [
  | inl same ↦ subst (Sound (Within b)) (sym same) (frame-Sound b)
  | inr (c, bad, e) ↦ subst (Sound (Within b)) (sym e) tt
]
