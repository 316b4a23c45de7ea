-- ===== src/Hamt/Keys/Equal.antt =====
-- `isequal` is an equivalence, and keys that it holds equal have one hash.
use alcove.Base.{
  ℕ, ◌≡◌, ◌⊎◌, ap, List, true, ◌==◌, if◌then◌else◌, bytes_eq, bytes_eq_refl, eq_of_bytes_eq,
  Bool-cases, inl, inr, arith,
}
use alcove.Hash.{bernstein_hash}
use alcove.Hamt.Valid.{IsKeyed}
use alcove.Hamt.Keys.{
  Object, Exp, fixnum, character, pointer, is_zero, is_nan, float_eq, same_content, bytes_of,
  isequal, hamt_hashkey, is_hashable, HashableKey,
}

bytes_eq_flip : (xs ys : List ℕ) → bytes_eq xs ys ≡ true → bytes_eq ys xs ≡ true
bytes_eq_flip xs ys e = rw (eq_of_bytes_eq xs ys e) (bytes_eq_refl ys)

bytes_eq_step :
    (xs ys zs : List ℕ) → bytes_eq xs ys ≡ true → bytes_eq ys zs ≡ true → bytes_eq xs zs ≡ true
bytes_eq_step xs ys zs e f = rw (eq_of_bytes_eq xs ys e) f

float_eq_flip : (a b : ℕ) → float_eq a b ≡ true → float_eq b a ≡ true
unfolding float_eq is_nan is_zero
float_eq_flip a b e = ground arith

float_eq_step : (a b c : ℕ) → float_eq a b ≡ true → float_eq b c ≡ true → float_eq a c ≡ true
unfolding float_eq is_nan is_zero
float_eq_step a b c e f = ground arith

-- A zero of either sign is hashed as the positive one.
float_eq-hashed :
    (a b : ℕ) → float_eq a b ≡ true → (if is_zero a then 0 else a) ≡ (if is_zero b then 0 else b)
unfolding float_eq is_nan is_zero
float_eq-hashed a b e = ground arith

float_hashed :
    (a b : ℕ)
    → float_eq a b ≡ true
    → bernstein_hash (bytes_of 8 (if is_zero a then 0 else a))
      ≡ bernstein_hash (bytes_of 8 (if is_zero b then 0 else b))
float_hashed a b e = ap (λ (v : ℕ). bernstein_hash (bytes_of 8 v)) (float_eq-hashed a b e)

bytes_hashed : (xs ys : List ℕ) → bytes_eq xs ys ≡ true → bernstein_hash xs ≡ bernstein_hash ys
bytes_hashed xs ys e = ap bernstein_hash (eq_of_bytes_eq xs ys e)

same_content_flip :
    (a b : Object) → (a.type == b.type) ≡ true → same_content a b ≡ true → same_content b a ≡ true
unfolding same_content
same_content_flip a b t e = ground (arith, float_eq_flip a.f b.f, bytes_eq_flip a.bytes b.bytes)

same_content_step :
    (a b c : Object)
    → (a.type == b.type) ≡ true
    → (b.type == c.type) ≡ true
    → same_content a b ≡ true
    → same_content b c ≡ true
    → same_content a c ≡ true
unfolding same_content
same_content_step a b c t u e f =
    ground (arith, float_eq_step a.f b.f c.f, bytes_eq_step a.bytes b.bytes c.bytes)

module _ (heap : ℕ → Object) (nil_singleton : ℕ) where
  isequal_self : (a : Exp) → isequal heap nil_singleton a a ≡ true
  unfolding isequal
  isequal_self (fixnum a) = ground arith
  isequal_self (character a) = ground arith
  isequal_self (pointer a) = ground arith

  isequal_turn :
      (a b : Exp) → isequal heap nil_singleton a b ≡ true → isequal heap nil_singleton b a ≡ true
  unfolding isequal
  isequal_turn (fixnum a) (fixnum b) e = ground arith
  isequal_turn (character a) (character b) e = ground arith
  isequal_turn (pointer a) (pointer b) e = ground (arith, same_content_flip (heap a) (heap b))
  isequal_turn (fixnum a) (character b) e = cc
  isequal_turn (fixnum a) (pointer b) e = cc
  isequal_turn (character a) (fixnum b) e = cc
  isequal_turn (character a) (pointer b) e = cc
  isequal_turn (pointer a) (fixnum b) e = ground arith
  isequal_turn (pointer a) (character b) e = ground arith

  -- Two addresses that are equal: one address, or two with one content.
  pointers_equal :
      (a b : ℕ)
      → is_hashable heap nil_singleton (pointer a) ≡ true
      → isequal heap nil_singleton (pointer a) (pointer b) ≡ true
      → (a ≡ b)
        ⊎ (((heap a).type == (heap b).type ≡ true) × (same_content (heap a) (heap b) ≡ true))
  unfolding isequal is_hashable
  pointers_equal a b ok e = elim (Bool-cases (a == b)) [
    | inl q ↦ inl (ground arith)
    | inr q ↦ inr (ground arith, ground arith)
  ]

  content_equal :
      (a b : ℕ)
      → is_hashable heap nil_singleton (pointer a) ≡ true
      → is_hashable heap nil_singleton (pointer b) ≡ true
      → (heap a).type == (heap b).type ≡ true
      → same_content (heap a) (heap b) ≡ true
      → isequal heap nil_singleton (pointer a) (pointer b) ≡ true
  unfolding isequal is_hashable
  content_equal a b ok ok' t e = ground arith

  pointers_step :
      (a b c : ℕ)
      → is_hashable heap nil_singleton (pointer a) ≡ true
      → is_hashable heap nil_singleton (pointer b) ≡ true
      → is_hashable heap nil_singleton (pointer c) ≡ true
      → isequal heap nil_singleton (pointer a) (pointer b) ≡ true
      → isequal heap nil_singleton (pointer b) (pointer c) ≡ true
      → isequal heap nil_singleton (pointer a) (pointer c) ≡ true
  pointers_step a b c p q r e f = elim (pointers_equal a b p e) [
    | inl same ↦ rw same f
    | inr (t, content) ↦ elim (pointers_equal b c q f) [
      | inl same ↦ rw (← same) e
      | inr (u, content') ↦
          content_equal a c p r (ground arith)
            (same_content_step (heap a) (heap b) (heap c) t u content content')
    ]
  ]

  isequal_step :
      (a b c : Exp)
      → is_hashable heap nil_singleton a ≡ true
      → is_hashable heap nil_singleton b ≡ true
      → is_hashable heap nil_singleton c ≡ true
      → isequal heap nil_singleton a b ≡ true
      → isequal heap nil_singleton b c ≡ true
      → isequal heap nil_singleton a c ≡ true
  unfolding isequal
  isequal_step (fixnum a) (fixnum b) c p q r e f = let same : a ≡ b = ground arith in rw same f
  isequal_step (character a) (character b) c p q r e f =
      let same : a ≡ b = ground arith in rw same f
  isequal_step (pointer a) (pointer b) (pointer c) p q r e f = pointers_step a b c p q r e f
  isequal_step (pointer a) (pointer b) (fixnum c) p q r e f = ground arith
  isequal_step (pointer a) (pointer b) (character c) p q r e f = ground arith
  isequal_step (fixnum a) (character b) c p q r e f = cc
  isequal_step (fixnum a) (pointer b) c p q r e f = cc
  isequal_step (character a) (fixnum b) c p q r e f = cc
  isequal_step (character a) (pointer b) c p q r e f = cc
  isequal_step (pointer a) (fixnum b) c p q r e f = ground arith
  isequal_step (pointer a) (character b) c p q r e f = ground arith

  content-hashed :
      (a b : ℕ)
      → is_hashable heap nil_singleton (pointer a) ≡ true
      → is_hashable heap nil_singleton (pointer b) ≡ true
      → (heap a).type == (heap b).type ≡ true
      → same_content (heap a) (heap b) ≡ true
      → hamt_hashkey heap nil_singleton (pointer a) ≡ hamt_hashkey heap nil_singleton (pointer b)
  unfolding hamt_hashkey is_hashable same_content
  content-hashed a b p q t e =
      ground (arith, float_hashed (heap a).f (heap b).f, bytes_hashed (heap a).bytes (heap b).bytes)

  isequal-hashed :
      (a b : Exp)
      → is_hashable heap nil_singleton a ≡ true
      → is_hashable heap nil_singleton b ≡ true
      → isequal heap nil_singleton a b ≡ true
      → hamt_hashkey heap nil_singleton a ≡ hamt_hashkey heap nil_singleton b
  unfolding isequal
  isequal-hashed (fixnum a) (fixnum b) p q e =
      ap (λ (v : ℕ). hamt_hashkey heap nil_singleton (fixnum v)) (ground arith)
  isequal-hashed (character a) (character b) p q e =
      ap (λ (v : ℕ). hamt_hashkey heap nil_singleton (character v)) (ground arith)
  isequal-hashed (pointer a) (pointer b) p q e = elim (pointers_equal a b p e) [
    | inl same ↦ ap (λ (v : ℕ). hamt_hashkey heap nil_singleton (pointer v)) same
    | inr (t, content) ↦ content-hashed a b p q t content
  ]
  isequal-hashed (fixnum a) (character b) p q e = cc
  isequal-hashed (fixnum a) (pointer b) p q e = cc
  isequal-hashed (character a) (fixnum b) p q e = cc
  isequal-hashed (character a) (pointer b) p q e = cc
  isequal-hashed (pointer a) (fixnum b) p q e = ground arith
  isequal-hashed (pointer a) (character b) p q e = ground arith

  -- On keys that are fixnums, characters or objects, and neither nil nor a rational nor a
  -- decimal, isequal is reflexive, symmetric and transitive, and keys that it holds equal have
  -- the same hamt_hashkey, zeros of either sign included.
  pub isequal-IsKeyed :
      IsKeyed {K = HashableKey heap nil_singleton}
        (λ a b. isequal heap nil_singleton a.0 b.0)
        (λ a. hamt_hashkey heap nil_singleton a.0)
  isequal-IsKeyed = record {
    reflexive = λ a. isequal_self a.0;
    symmetric = λ a b e. isequal_turn a.0 b.0 e;
    transitive = λ a b c e f. isequal_step a.0 b.0 c.0 a.1 b.1 c.1 e f;
    hashed = λ a b e. isequal-hashed a.0 b.0 a.1 b.1 e;
  }
