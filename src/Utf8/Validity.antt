-- ===== src/Utf8/Validity.antt =====
-- `utf8_valid` accepts exactly the encodings of Unicode scalar values, and otherwise names the
-- first offset at which no such encoding starts.
use alcove.Base.{
  ℕ, zero, suc, ◌+◌, ◌<◌, ◌≡◌, ◌≢◌, ◌↔◌, refl, sym, ap, List, [], ◌∷◌, ◌++◌, none, some, false,
  arith, ltb, length, length-append, drop, get_elem?-append, append_assoc, append-nil, ◌∙◌,
  Option-cases, inl, inr, lt→ltb,
}
use mathlib.Core.List.{append_cancel_left}
use alcove.Utf8.{encode, Verdict, valid, invalid, valid_loop, utf8_valid}
use alcove.Utf8.Walk.{encode_all, length-encode_pos}
use alcove.Utf8.Scalar.{IsScalar, AreScalar, AreBytes, scalar_at, scalar_at-Starts}
use alcove.Utf8.Found.{scalar_at-encode}
use alcove.Utf8.Steps.{valid_rest_shift, goes_on, valid_step}

module _ (fuel : ℕ) (pre : List ℕ) (c : ℕ) (r : List ℕ) (n : ℕ)
    (size : n ≡ length pre + suc (length r)) (byte : c < 256) where
  round :
      valid_loop (suc fuel) (pre ++ c ∷ r) n (length pre)
      ≡ goes_on fuel (pre ++ c ∷ r) n (length pre) (scalar_at (c ∷ r))
  round =
      valid_step fuel (pre ++ c ∷ r) n (length pre) c r (lt→ltb _ _ (omega arith))
        (let e : length pre ≡ length pre + 0 = omega arith in rw e (get_elem?-append pre (c ∷ r) 0))
        (λ len. ground arith) (valid_rest_shift pre (c ∷ r)) byte

  round_bad :
      scalar_at (c ∷ r) ≡ none
      → valid_loop (suc fuel) (pre ++ c ∷ r) n (length pre) ≡ some (invalid (length pre))
  round_bad e = round ∙ ap (goes_on fuel (pre ++ c ∷ r) n (length pre)) e

  round_good :
      (cp len : ℕ)
      → scalar_at (c ∷ r) ≡ some (cp, len)
      → valid_loop (suc fuel) (pre ++ c ∷ r) n (length pre)
        ≡ valid_loop fuel (pre ++ c ∷ r) n (length pre + len)
  round_good cp len e = round ∙ ap (goes_on fuel (pre ++ c ∷ r) n (length pre)) e

-- No encoded scalar value starts `rest`.
abbrev pub StartsNone : List ℕ → Type 0
StartsNone rest = (cp : ℕ) (t : List ℕ) → IsScalar cp → rest ≢ encode cp ++ t

abbrev pub end_verdict : ℕ → List ℕ → Verdict
end_verdict off [] = valid
end_verdict off (c ∷ rest) = invalid off

scalar_at-none : (r : List ℕ) → scalar_at r ≡ none → StartsNone r
scalar_at-none r e cp t sc h = cc (ap scalar_at h, scalar_at-encode cp t sc)

-- The verdict on `r`, which starts at `off`: scalar values, and then a rest that none starts.
pub record Describes (r : List ℕ) (off : ℕ) (v : Verdict) : Type 0 where
  pub cps : List ℕ
  pub rest : List ℕ
  pub scalars : AreScalar cps
  pub split : r ≡ encode_all cps ++ rest
  pub ended : StartsNone rest
  pub verdict : v ≡ end_verdict (off + length (encode_all cps)) rest

AreBytes-drop : (k : ℕ) (r : List ℕ) → AreBytes r → AreBytes (drop k r)
AreBytes-drop zero r b = b
AreBytes-drop (suc k) [] b = tt
AreBytes-drop (suc k) (c ∷ r) b = AreBytes-drop k r b.1

Describes-cons :
    (r t : List ℕ) (off next cp : ℕ) (v : Verdict)
    → IsScalar cp
    → r ≡ encode cp ++ t
    → next ≡ off + length (encode cp)
    → Describes t next v
    → Describes r off v
unfolding encode_all
Describes-cons r t off next cp v sc e f d = record {
  cps = cp ∷ d.cps;
  rest = d.rest;
  scalars = (sc, d.scalars);
  split = rw append_assoc (e ∙ ap (λ z. encode cp ++ z) d.split);
  ended = d.ended;
  verdict =
      d.verdict
      ∙ ap (λ k. end_verdict k d.rest)
          (omega (arith, length-append (encode cp) (encode_all d.cps)));
}

valid_walk :
    (fuel : ℕ) (pre r : List ℕ) (n : ℕ)
    → AreBytes r
    → n ≡ length pre + length r
    → length r < fuel
    → (v : Verdict) × (valid_loop fuel (pre ++ r) n (length pre) ≡ some v)
      × Describes r (length pre) v
unfolding valid_loop encode_all
valid_walk zero pre r n b size enough = absurd (omega arith)
valid_walk (suc fuel) pre [] n b size enough =
    let past : ltb (length pre) n ≡ false = ground arith in
    (
      valid,
      rw (past, valid_loop),
      record {
        cps = [];
        rest = [];
        scalars = tt;
        split = refl;
        ended = scalar_at-none [] (unfold scalar_at in refl);
        verdict = refl;
      },
    )
valid_walk (suc fuel) pre (c ∷ r) n b size enough = elim (Option-cases (scalar_at (c ∷ r))) [
  | inl e ↦ (
    invalid (length pre),
    round_bad fuel pre c r n size b.0 e,
    record {
      cps = [];
      rest = c ∷ r;
      scalars = tt;
      split = refl;
      ended = scalar_at-none (c ∷ r) e;
      verdict = ap invalid (omega arith);
    },
  )
  | inr (found, e) ↦
      let st = scalar_at-Starts (c ∷ r) found.0 found.1 b e in
      let t = drop found.1 (c ∷ r) in
      let head = encode found.0 in
      let sized = ap length st.split ∙ length-append head t in
      let moved = length-append pre head in
      let some_byte = length-encode_pos found.0 (omega (arith, st.scalar.0)) in
      let (v, run, d) =
        valid_walk fuel (pre ++ head) t n (AreBytes-drop found.1 (c ∷ r) b) (omega arith)
          (omega arith) in
      let text = ap (λ z. pre ++ z) st.split ∙ sym (append_assoc pre head t) in
      let at_next : length pre + found.1 ≡ length (pre ++ head) = omega (arith, st.size) in
      (
        v,
        cc (round_good fuel pre c r n size b.0 found.0 found.1 e, text, at_next, run),
        Describes-cons (c ∷ r) t (length pre) (length (pre ++ head)) found.0 v st.scalar st.split
            moved d,
      )
]

-- On bytes, utf8_valid returns, and a rejection names the offset of the first sequence that is
-- not the encoding of a scalar value: what stands before is a concatenation of encodings.
pub utf8_valid-Describes :
    (p : List ℕ) → AreBytes p → (v : Verdict) × (utf8_valid p ≡ some v) × Describes p 0 v
unfolding utf8_valid
utf8_valid-Describes p b = valid_walk (length p + 1) [] p (length p) b (omega arith) (omega arith)

-- Text of scalar values is split in one way: nothing is left over.
rest_is_empty :
    (cps ds rest : List ℕ)
    → AreScalar cps
    → AreScalar ds
    → encode_all cps ≡ encode_all ds ++ rest
    → StartsNone rest
    → rest ≡ []
unfolding encode_all
rest_is_empty [] [] rest s t e ended = sym e
rest_is_empty [] (d ∷ ds) rest s t e ended =
    let short = length-append (encode d) (encode_all ds) in
    let whole = length-append (encode d ++ encode_all ds) rest in
    let some_byte = length-encode_pos d (omega (arith, t.0)) in
    absurd (omega (arith, short, whole, ap length e))
rest_is_empty (c ∷ cs) [] rest s t e ended = absurd (ended c (encode_all cs) s.0 (sym e))
rest_is_empty (c ∷ cs) (d ∷ ds) rest s t e ended =
    let e' = e ∙ append_assoc (encode d) (encode_all ds) rest in
    let same : c ≡ d =
      cc (scalar_at-encode c (encode_all cs) s.0, scalar_at-encode d (encode_all ds ++ rest) t.0) in
    let tails =
      append_cancel_left (encode d) (encode_all cs) (encode_all ds ++ rest) (rw same at e') in
    rest_is_empty cs ds rest s.1 t.1 tails ended

end_verdict-valid : (off : ℕ) (rest : List ℕ) → end_verdict off rest ≡ valid → rest ≡ []
end_verdict-valid off [] h = refl
end_verdict-valid off (c ∷ rest) h = cc

-- On bytes, utf8_valid accepts exactly the concatenations of the encodings of Unicode scalar
-- values.
pub utf8_valid_iff :
    (p : List ℕ)
    → AreBytes p
    → (utf8_valid p ≡ some valid) ↔ ((cps : List ℕ) × AreScalar cps × (p ≡ encode_all cps))
utf8_valid_iff p b = (accepted, complete)
  where
    accepted : utf8_valid p ≡ some valid → (cps : List ℕ) × AreScalar cps × (p ≡ encode_all cps)
    accepted h =
        let (v, run, d) = utf8_valid-Describes p b in
        let none_left =
          end_verdict-valid (0 + length (encode_all d.cps)) d.rest (cc (run, h, d.verdict)) in
        (d.cps, d.scalars, d.split ∙ rw (none_left, append-nil))

    complete : ((cps : List ℕ) × AreScalar cps × (p ≡ encode_all cps)) → utf8_valid p ≡ some valid
    complete (cps, scalars, e) =
        let (v, run, d) = utf8_valid-Describes p b in
        let none_left =
          rest_is_empty cps d.cps d.rest scalars d.scalars (sym e ∙ d.split) d.ended in
        run ∙ ap some (d.verdict ∙ rw none_left)
