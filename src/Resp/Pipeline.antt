-- ===== src/Resp/Pipeline.antt =====
-- A buffer of several commands.
use alcove.Base.{
  ℕ, suc, ◌^◌, ◌<◌, ◌≤◌, ◌≡◌, refl, sym, ap, ◌∙◌, List, [], ◌∷◌, ◌++◌, append_assoc, append-nil,
  some, Bool, false, arith, length,
}
use alcove.Resp.{Reply, got, ◌>>=◌, max_args}
use alcove.Resp.Print.{write_array}
use alcove.Resp.Sound.{Sound-got}
use alcove.Resp.Frame.{frame}
use alcove.Resp.Bounds.{Within, frame-Sound}
use alcove.Resp.Append.{Succeeds}
use alcove.Resp.Roundtrip.{AreShort, reply_length, write_array-frame}
use alcove.Resp.Process.{process_input, run, process-eq-run, run-fuel, run_got}

-- The commands of a client, one behind the other.
unfoldable pub write_commands : List (List (List ℕ)) → Reply (List ℕ)
write_commands [] = got []
write_commands (c ∷ cs) = write_array c >>= λ b. write_commands cs >>= λ bs. got (b ++ bs)

-- Each command is within the limits and shorter than 2^31 bytes on the wire.
abbrev pub AreCommands : List (List (List ℕ)) → Type 0
AreCommands [] = Unit
AreCommands (c ∷ cs) =
    AreShort c × (length c ≤ max_args) × (reply_length (write_array c) < 2 ^ 31) × AreCommands cs

module _ {ℓ} {S : Type ℓ} (dispatch : List (List ℕ) → S → S) (refuse : S → S) where
  abbrev pub dispatch_all : List (List (List ℕ)) → S → S
  dispatch_all [] s = s
  dispatch_all (c ∷ cs) s = dispatch_all cs (dispatch c s)

  run-write_commands :
      (cs : List (List (List ℕ)))
      → AreCommands cs
      → (b : List ℕ) × (write_commands cs ≡ got b)
        × ((f : ℕ) (s : S) (tail : List ℕ)
            → length (b ++ tail) < f
            → run dispatch refuse f s (b ++ tail)
              ≡ run dispatch refuse (suc (length tail)) (dispatch_all cs s) tail)
  unfolding write_commands
  run-write_commands [] h = (
    [],
    refl,
    λ f s tail lt. run-fuel dispatch refuse f (suc (length tail)) s tail lt (omega arith),
  )
  run-write_commands (c ∷ cs) (short, few, fits, h) =
      let (b, run_c, reads) = write_array-frame c short few fits in
      let (bs, run_cs, rest) = run-write_commands cs h in
      (
        b ++ bs,
        rw (run_c, ◌>>=◌, run_cs) refl,
        λ f s tail lt.
            let is : frame ((b ++ bs) ++ tail) ≡ got (c, bs ++ tail) =
              ap frame (append_assoc b bs tail) ∙ reads (bs ++ tail) in
            let (_, less) =
              Sound-got (Within ((b ++ bs) ++ tail)) (frame ((b ++ bs) ++ tail)) (c, bs ++ tail)
                (frame-Sound ((b ++ bs) ++ tail)) is in
            run-fuel dispatch refuse f (suc (length ((b ++ bs) ++ tail))) s ((b ++ bs) ++ tail) lt
              (omega arith)
            ∙ run_got dispatch refuse (length ((b ++ bs) ++ tail)) s ((b ++ bs) ++ tail) c
                (bs ++ tail) is
            ∙ rest (length ((b ++ bs) ++ tail)) (dispatch c s) tail less,
      )

  at_end : (s : S) → run dispatch refuse 1 s [] ≡ some (s, [], false)
  unfolding run frame alcove.Resp.as_int alcove.Resp.Frame.raw_frame
  at_end s = refl

  -- Commands of at most 1048576 arguments, of at most 512 MB each, that take fewer than 2^31
  -- bytes each can be written one behind the other; resp_process_input of these bytes, with
  -- allocations that succeed, dispatches each of them, in order, and nothing else, and consumes
  -- all the bytes.
  pub process_input-write_commands :
      (cs : List (List (List ℕ)))
      → AreCommands cs
      → (b : List ℕ) × (write_commands cs ≡ got b)
        × ((alloc : ℕ → Bool) (cap : ℕ) (s : S)
            → Succeeds alloc
            → process_input dispatch refuse alloc cap s b ≡ some (dispatch_all cs s, [], false))
  unfolding process_input
  process_input-write_commands cs h =
      let (b, written, runs) = run-write_commands cs h in
      (
        b,
        written,
        λ alloc cap s ok.
            let whole : b ++ [] ≡ b = append-nil b in
            process-eq-run dispatch refuse alloc (suc (length b)) cap s b ok
            ∙ ap (λ z. run dispatch refuse (suc (length b)) s z) (sym whole)
            ∙ runs (suc (length b)) s [] (rw whole (omega arith))
            ∙ at_end (dispatch_all cs s),
      )
