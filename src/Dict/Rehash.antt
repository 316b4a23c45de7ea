-- ===== src/Dict/Rehash.antt =====
-- `dict_rehash` keeps every entry, once.
use alcove.Base.{
  ℕ, ◌+◌, ◌-◌, ◌^◌, ◌<◌, ◌≤◌, ◌≡◌, ◌≢◌, refl, sym, ap, ◌∙◌, List, [], ◌∷◌, ◌++◌, Option, true,
  arith, length, length-set, get_elem?, set, bytes_eq, eq_of_bytes_eq, inl, inr, Option-cases,
  ◌>>=◌, Returns,
}
use mathlib.Core.Option.{or_else}
use mathlib.Core.Path.{fun_ext}
use alcove.Dict.{Keyval, find, slot, relink_chain, relink}
use alcove.Dict.Chain.{occurs, find-none}
use alcove.Dict.Table.{
  slot-lt, get_elem?-get_or, get_or-set, all_entries, bucket, length-all_entries-set,
}

-- The slot in a table of 2 ^ e buckets.
abbrev pub home : ℕ → List ℕ → ℕ
home e j = slot (2 ^ e - 1) j

pub same_home : (e : ℕ) (j k : List ℕ) → bytes_eq j k ≡ true → home e j ≡ home e k
same_home e j k h = ap (home e) (eq_of_bytes_eq j k h)

module _ {ℓ} {V : Type ℓ} (e : ℕ) where
  -- The entries of a list stand in the buckets of their keys, in front of what was there.
  pub record Moved (ks : List (Keyval V)) (t t' : List (List (Keyval V))) : Type ℓ where
    pub width : length t' ≡ length t
    pub total : length (all_entries t') ≡ length ks + length (all_entries t)
    pub away :
        (j : List ℕ) (n : ℕ) → home e j ≢ n → occurs j (bucket t n) ≡ 0 → occurs j (bucket t' n) ≡ 0
    pub there :
        (j : List ℕ)
        → occurs j (bucket t' (home e j)) ≡ occurs j ks + occurs j (bucket t (home e j))
    pub finds :
        (j : List ℕ)
        → occurs j ks + occurs j (bucket t (home e j)) ≤ 1
        → find j (bucket t' (home e j)) ≡ or_else (find j ks) (find j (bucket t (home e j)))

module _ {ℓ} {V : Type ℓ} (e : ℕ) where
  push-Moved :
      (k : Keyval V) (t : List (List (Keyval V)))
      → length t ≡ 2 ^ e
      → Moved e (k ∷ []) t (set t (home e k.key) (k ∷ bucket t (home e k.key)))
  unfolding find or_else
  push-Moved k t w =
      let p = home e k.key in
      let c = k ∷ bucket t p in
      let inside : p < length t = rw w (slot-lt e k.key) in
      let at = λ (n : ℕ). get_or-set t p n c [] inside in
      record {
        width = length-set t p c;
        total = omega (arith, length-all_entries-set t p c inside);
        away = λ j n ne h. ground (arith, at n, same_home e j k.key);
        there = λ j. ground (arith, at (home e j), same_home e j k.key);
        finds = λ j h. ground (arith, at (home e j), same_home e j k.key);
      }

  cons-Moved :
      (k : Keyval V) (ks : List (Keyval V)) (t t1 t2 : List (List (Keyval V)))
      → Moved e (k ∷ []) t t1
      → Moved e ks t1 t2
      → Moved e (k ∷ ks) t t2
  unfolding find or_else
  cons-Moved k ks t t1 t2 a b = record {
    width = b.width ∙ a.width;
    total = omega (arith, a.total, b.total);
    away = λ j n ne h. b.away j n ne (a.away j n ne h);
    there = λ j. omega (arith, a.there j, b.there j);
    finds = λ j h. ground (arith, a.there j, a.finds j, b.finds j, find-none j ks);
  }

  relink_chain-Moved :
      (ks : List (Keyval V)) (t : List (List (Keyval V)))
      → length t ≡ 2 ^ e
      → Returns (relink_chain (2 ^ e - 1) ks t) (Moved e ks t)
  unfolding relink_chain find or_else
  relink_chain-Moved [] t w = (
    t,
    refl,
    record {
      width = refl;
      total = omega arith;
      away = λ j n ne h. h;
      there = λ j. omega arith;
      finds = λ j h. refl;
    },
  )
  relink_chain-Moved (k ∷ ks) t w =
      let p = home e k.key in
      let one = push-Moved k t w in
      let (t2, run, more) = relink_chain-Moved ks (set t p (k ∷ bucket t p)) (one.width ∙ w) in
      (
        t2,
        rw (get_elem?-get_or t p [] (rw w (slot-lt e k.key)), ◌>>=◌) run,
        cons-Moved k ks t (set t p (k ∷ bucket t p)) t2 one more,
      )

module _ {ℓ} {V : Type ℓ} (mask : ℕ) where
  relink_chain-append :
      (a b : List (Keyval V)) (t : List (List (Keyval V)))
      → relink_chain mask (a ++ b) t ≡ (relink_chain mask a t >>= relink_chain mask b)
  unfolding relink_chain
  relink_chain-append [] b t = refl
  relink_chain-append (k ∷ a) b t = elim (Option-cases (get_elem? t (slot mask k.key))) [
    | inl out ↦ rw (out, ◌>>=◌) refl
    | inr (c, at) ↦ rw (at, ◌>>=◌) (relink_chain-append a b (set t (slot mask k.key) (k ∷ c)))
  ]

  -- The two nested loops are one loop over the entries.
  relink-eq-relink_chain :
      (cs t : List (List (Keyval V))) → relink mask cs t ≡ relink_chain mask (all_entries cs) t
  unfolding relink relink_chain
  relink-eq-relink_chain [] t = refl
  relink-eq-relink_chain (c ∷ cs) t =
      ap
        (λ (z : List (List (Keyval V)) → Option (List (List (Keyval V)))).
          relink_chain mask c t >>= z)
        (fun_ext (relink-eq-relink_chain cs))
      ∙ sym (relink_chain-append c (all_entries cs) t)

module _ {ℓ} {V : Type ℓ} (e : ℕ) where
  -- The buckets of one table moved into another of 2 ^ e buckets.
  pub relink-Moved :
      (cs t : List (List (Keyval V)))
      → length t ≡ 2 ^ e
      → Returns (relink (2 ^ e - 1) cs t) (Moved e (all_entries cs) t)
  relink-Moved cs t w =
      rw (relink-eq-relink_chain (2 ^ e - 1) cs t) (relink_chain-Moved e (all_entries cs) t w)
