-- ===== src/Resp/Process.antt =====
-- `resp_process_input`: the commands of a buffer, whole or in pieces.
use alcove.Base.{
  ℕ, zero, suc, ◌<◌, ◌≡◌, ◌⊎◌, refl, sym, ap, ◌∙◌, List, ◌++◌, Option, none, some, Bool, true,
  false, arith, length, inl, inr, Returns,
}
use alcove.Resp.{Reply, fault, need_more, protocol_error, got, parse_one}
use alcove.Resp.Sound.{Sound, Sound-got}
use alcove.Resp.Frame.{frame}
use alcove.Resp.Bounds.{Within, frame-Sound, parse_one-Sound}
use alcove.Resp.Append.{frame-Stable, Succeeds, parse_one-eq-frame}

-- What one round makes of a reply: whether an error has ended the connection, and the bytes left.
-- none is a fault.
abbrev pub settle {ℓ} :
    {S : Type ℓ}
    → (S → S)
    → Reply (List (List ℕ) × List ℕ)
    → S
    → List ℕ
    → (List (List ℕ) → List ℕ → Option (S × List ℕ × Bool))
    → Option (S × List ℕ × Bool)
settle refuse fault s b next = none
settle refuse need_more s b next = some (s, b, false)
settle refuse protocol_error s b next = some (refuse s, b, true)
settle refuse (got (args, rest)) s b next = next args rest

Reply-cases {ℓ} :
    {A : Type ℓ} (r : Reply A)
    → ((r ≡ fault) ⊎ (r ≡ need_more)) ⊎ ((r ≡ protocol_error) ⊎ ((a : A) × (r ≡ got a)))
Reply-cases fault = inl (inl refl)
Reply-cases need_more = inl (inr refl)
Reply-cases protocol_error = inr (inl refl)
Reply-cases (got a) = inr (inr (a, refl))

module _ {ℓ} {S : Type ℓ} (refuse : S → S) where
  settle-ext :
      (s : S) (b : List ℕ) (r : Reply (List (List ℕ) × List ℕ))
      (next next' : List (List ℕ) → List ℕ → Option (S × List ℕ × Bool))
      → ((args : List (List ℕ)) (rest : List ℕ) → next args rest ≡ next' args rest)
      → settle refuse r s b next ≡ settle refuse r s b next'
  settle-ext s b fault next next' h = refl
  settle-ext s b need_more next next' h = refl
  settle-ext s b protocol_error next next' h = refl
  settle-ext s b (got (args, rest)) next next' h = h args rest

  settle-Within :
      (s : S) (b : List ℕ) (r : Reply (List (List ℕ) × List ℕ))
      (next next' : List (List ℕ) → List ℕ → Option (S × List ℕ × Bool))
      → Sound (Within b) r
      → ((args : List (List ℕ)) (rest : List ℕ)
          → Within b (args, rest)
          → next args rest ≡ next' args rest)
      → settle refuse r s b next ≡ settle refuse r s b next'
  settle-Within s b fault next next' w h = refl
  settle-Within s b need_more next next' w h = refl
  settle-Within s b protocol_error next next' w h = refl
  settle-Within s b (got (args, rest)) next next' w h = h args rest w

  settle-Returns :
      (r : Reply (List (List ℕ) × List ℕ)) (s : S) (b : List ℕ)
      (next : List (List ℕ) → List ℕ → Option (S × List ℕ × Bool))
      → Sound (Within b) r
      → ((args : List (List ℕ)) (rest : List ℕ)
          → Within b (args, rest)
          → Returns (next args rest) λ x. Unit {0})
      → Returns (settle refuse r s b next) λ x. Unit {0}
  settle-Returns fault s b next w h = elim w [ ]
  settle-Returns need_more s b next w h = ((s, b, false), refl, tt)
  settle-Returns protocol_error s b next w h = ((refuse s, b, true), refl, tt)
  settle-Returns (got (args, rest)) s b next w h = h args rest w

-- The server's state is S; `dispatch` runs one command, and `refuse` writes the protocol error
-- and shuts the connection down.
module _ {ℓ} {S : Type ℓ} (dispatch : List (List ℕ) → S → S) (refuse : S → S) where
  -- The loop of `resp_process_input`, with one round for each byte and one more.
  unfoldable pub process : (ℕ → Bool) → ℕ → ℕ → S → List ℕ → Option (S × List ℕ × Bool)
  process alloc zero cap s b = none
  process alloc (suc fuel) cap s b =
      let (cap', r) = parse_one alloc cap b in
      settle refuse r s b λ args rest. process alloc fuel cap' (dispatch args s) rest

  -- `resp_process_input`
  unfoldable pub process_input : (ℕ → Bool) → ℕ → S → List ℕ → Option (S × List ℕ × Bool)
  process_input alloc cap s b = process alloc (suc (length b)) cap s b

  unfoldable pub run : ℕ → S → List ℕ → Option (S × List ℕ × Bool)
  run zero s b = none
  run (suc fuel) s b = settle refuse (frame b) s b λ args rest. run fuel (dispatch args s) rest

  pub process-eq-run :
      (alloc : ℕ → Bool) (fuel cap : ℕ) (s : S) (b : List ℕ)
      → Succeeds alloc
      → process alloc fuel cap s b ≡ run fuel s b
  unfolding process run
  process-eq-run alloc zero cap s b ok = refl
  process-eq-run alloc (suc fuel) cap s b ok =
      let cap' = (parse_one alloc cap b).0 in
      ap (λ r. settle refuse r s b (λ args rest. process alloc fuel cap' (dispatch args s) rest))
        (parse_one-eq-frame alloc cap b ok)
      ∙ settle-ext refuse s b (frame b) _ _
          λ args rest. process-eq-run alloc fuel cap' (dispatch args s) rest ok

  -- Whatever the allocations do, the loop ends.
  process-Returns :
      (alloc : ℕ → Bool) (fuel cap : ℕ) (s : S) (b : List ℕ)
      → length b < fuel
      → Returns (process alloc fuel cap s b) λ r. Unit {0}
  unfolding process
  process-Returns alloc zero cap s b lt = absurd (omega arith)
  process-Returns alloc (suc fuel) cap s b lt =
      let (cap', r) = parse_one alloc cap b in
      settle-Returns refuse r s b _ (parse_one-Sound alloc cap b)
        λ args rest (_, less). process-Returns alloc fuel cap' (dispatch args s) rest (omega arith)

  -- More fuel than bytes changes nothing.
  pub run-fuel :
      (f g : ℕ) (s : S) (b : List ℕ) → length b < f → length b < g → run f s b ≡ run g s b
  unfolding run
  run-fuel zero g s b p q = absurd (omega arith)
  run-fuel (suc f) zero s b p q = absurd (omega arith)
  run-fuel (suc f) (suc g) s b p q =
      settle-Within refuse s b (frame b) _ _ (frame-Sound b)
        λ args rest (_, less). run-fuel f g (dispatch args s) rest (omega arith) (omega arith)

  -- A first round that returns a command.
  pub run_got :
      (f : ℕ) (s : S) (b : List ℕ) (args : List (List ℕ)) (rest : List ℕ)
      → frame b ≡ got (args, rest)
      → run (suc f) s b ≡ run f (dispatch args s) rest
  unfolding run
  run_got f s b args rest is =
      ap (λ r. settle refuse r s b (λ args' rest'. run f (dispatch args' s) rest')) is

  run_stop :
      (f : ℕ) (s : S) (b : List ℕ) (r : Reply (List (List ℕ) × List ℕ))
      → frame b ≡ r
      → run (suc f) s b ≡ settle refuse r s b (λ args rest. run f (dispatch args s) rest)
  unfolding run
  run_stop f s b r is =
      ap (λ r'. settle refuse r' s b (λ args' rest'. run f (dispatch args' s) rest')) is

  -- The buffer with more input behind it.
  run-append :
      (f g : ℕ) (s s' : S) (b more rest : List ℕ)
      → run f s b ≡ some (s', rest, false)
      → length b < f
      → length (b ++ more) < g
      → run g s (b ++ more) ≡ run (suc (length (rest ++ more))) s' (rest ++ more)
  run-append zero g s s' b more rest e p q = absurd (omega arith)
  run-append (suc f) zero s s' b more rest e p q = absurd (omega arith)
  run-append (suc f) (suc g) s s' b more rest e p q = elim (Reply-cases (frame b)) [
    | inl (inl is) ↦ let stop = run_stop f s b fault is in absurd (cc)
    | inl (inr is) ↦
        let stop = run_stop f s b need_more is in
        let both : ◌≡◌ {A = Option (S × List ℕ × Bool)} (some (s, b, false))
            (some (s', rest, false)) =
          sym stop ∙ e in
        let same : s ≡ s' = cc in
        let left : b ≡ rest = cc in
        rw (← same, ← left)
          (run-fuel (suc g) (suc (length (b ++ more))) s (b ++ more) q (omega arith))
    | inr (inl is) ↦ let stop = run_stop f s b protocol_error is in absurd (cc)
    | inr (inr ((args, after), is)) ↦
        let longer : frame (b ++ more) ≡ got (args, after ++ more) =
          rw is at (frame-Stable more b) in
        let (_, less) = Sound-got (Within b) (frame b) (args, after) (frame-Sound b) is in
        let (_, less') =
          Sound-got (Within (b ++ more)) (frame (b ++ more)) (args, after ++ more)
            (frame-Sound (b ++ more)) longer in
        run_got g s (b ++ more) args (after ++ more) longer
        ∙ run-append f g (dispatch args s) s' after more rest
            (sym (run_got f s b args after is) ∙ e) (omega arith) (omega arith)
  ]

  -- resp_process_input ends without a fault, whatever has been received and whichever allocations
  -- fail.
  pub process_input-Returns :
      (alloc : ℕ → Bool) (cap : ℕ) (s : S) (b : List ℕ)
      → Returns (process_input alloc cap s b) λ r. Unit {0}
  unfolding process_input
  process_input-Returns alloc cap s b = process-Returns alloc (suc (length b)) cap s b (omega arith)

  -- Input that arrives in two pieces, with resp_process_input run after each, has the same
  -- commands dispatched in the same order, and leaves the same bytes unconsumed, as input that
  -- arrives at once; this is for a first piece without a protocol error, allocations that
  -- succeed, and pools of any capacity.
  pub process_input-append :
      (alloc : ℕ → Bool) (cap cap' cap'' : ℕ) (s s' : S) (b more rest : List ℕ)
      → Succeeds alloc
      → process_input alloc cap s b ≡ some (s', rest, false)
      → process_input alloc cap' s (b ++ more) ≡ process_input alloc cap'' s' (rest ++ more)
  unfolding process_input
  process_input-append alloc cap cap' cap'' s s' b more rest ok e =
      process-eq-run alloc (suc (length (b ++ more))) cap' s (b ++ more) ok
      ∙ run-append (suc (length b)) (suc (length (b ++ more))) s s' b more rest
          (sym (process-eq-run alloc (suc (length b)) cap s b ok) ∙ e) (omega arith) (omega arith)
      ∙ sym (process-eq-run alloc (suc (length (rest ++ more))) cap'' s' (rest ++ more) ok)
