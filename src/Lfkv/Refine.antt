-- ===== src/Lfkv/Refine.antt =====
-- The operations on a live key refine operations on a map from keys to entries.
use alcove.Base.{
  ℕ, ◌<◌, ◌≡◌, refl, ap, ◌∙◌, List, ◌∷◌, Option, none, some, Bool, true, false, ◌&&◌, ◌==◌, arith,
  eq_of_bytes_eq, Option-cases, Bool-cases, inl, inr, if◌then◌else◌, ℤ, pos, negsuc, eq_ℤ, ◌>>=◌,
  Returns,
}
use alcove.Lfkv.Defs.{Entry, Slot, Lfkv, entry_expired, stored, removed, decrement}
use alcove.Lfkv.Ops.{
  enter, is_null, never, differs, exchange, lfkv_get, lfkv_del, lfkv_set_expiry, lfkv_get_expiry,
  lfkv_set_xx, lfkv_touch_if_value, lfkv_cas,
}
use alcove.Lfkv.Slots.{found}
use alcove.Lfkv.Write.{Map, update, Models}
use alcove.Lfkv.Current.{
  Hit, seen_entry, settled, hit-Models, decrement-Hit, retire-Models, exchange-Models, Entered,
  gone, kept, enter-Entered,
}

-- A result with the map that the table then reads as.
abbrev pub Does {ℓ} : {R : Type ℓ} → R × Lfkv → R × Map → Type ℓ
Does r sp = (r.0 ≡ sp.0) × Models r.1 sp.1

-- An operation on what `k` holds at the time `now`: `absent` on the settled map, or `present`.
abbrev pub on_entry {ℓ} :
    {R : Type ℓ} → (Entry → Bool) → Map → List ℕ → ℤ → R → (Entry → R × Map) → R × Map
on_entry skips m k now absent present = elim (seen_entry skips m k now) [
  | none ↦ (absent, settled skips m k now)
  | some e ↦ present e
]

settled-seen :
    (skips : Entry → Bool) (m : Map) (k : List ℕ) (now : ℤ) (e : Entry)
    → seen_entry skips m k now ≡ some e
    → settled skips m k now ≡ m
settled-seen skips m k now e h = ground arith

module _ (kv : Lfkv) (m : Map) (md : Models kv m) (k : List ℕ) (now : ℤ) where
  -- An operation that begins by `enter` does what it does to an absent key, and to a live one.
  enter_rule {ℓ} :
      {R : Type ℓ} (skips : Entry → Bool) (absent : R) (present : Entry → R × Map)
      (body : ℕ × Slot × Entry → Lfkv → Option (R × Lfkv))
      → ((i : ℕ) (s : Slot) (e : Entry)
          → Hit kv.slots k i s e
          → Returns (body (i, s, e) kv) λ r. Does r (present e))
      → Returns
          (enter skips kv k now >>= λ (c, kv'). elim c [
            | none ↦ some (absent, kv')
            | some t ↦ body t kv'
          ])
          λ r. Does r (on_entry skips m k now absent present)
  enter_rule skips absent present body rule =
      let ((c, kv'), run, entered) = enter-Entered skips kv m md k now in from c kv' run entered
    where
      from :
          (c : Option (ℕ × Slot × Entry)) (kv' : Lfkv)
          → enter skips kv k now ≡ some (c, kv')
          → Entered skips kv m k now (c, kv')
          → Returns
              (enter skips kv k now >>= λ (c, kv'). elim c [
                | none ↦ some (absent, kv')
                | some t ↦ body t kv'
              ])
              λ r. Does r (on_entry skips m k now absent present)
      from c kv' run (gone is unseen md') =
          ((absent, kv'), simp (run, is), (rw (unseen, on_entry), rw (unseen, on_entry) md'))
      from c kv' run (kept i s e is same seen h) =
          let (r, run', does) = rule i s e h in
          (r, simp (run, is, same) run', rw (seen, on_entry) does)

  -- lfkv_get, on a well-formed table that reads as a map, returns the value that the key holds at
  -- that time, or 0 where it holds none; an expired entry leaves the map, and nothing else
  -- changes.
  pub get-refines :
      Returns (lfkv_get kv k now) λ r. Does r (on_entry is_null m k now 0 (λ e. (e.val, m)))
  unfolding lfkv_get
  get-refines = enter_rule is_null 0 _ _ (λ i s e h. (_, refl, (refl, md)))

  -- lfkv_del, on a well-formed table that reads as a map, returns 1 exactly where the key holds
  -- an entry that is not expired, and afterwards the key is absent and no other key has changed.
  pub del-refines :
      Returns (lfkv_del kv k now) λ r. Does r (found (seen_entry never m k now), update m k none)
  unfolding lfkv_del
  del-refines =
      let (r, run, (result, md')) =
        enter_rule never 0 (λ e. (1, update m k none)) _
          (λ i s e h. (_, refl, (refl, retire-Models kv m md k i s e h))) in
      (r, run, deleted r result md')
    where
      Deleted : Map → Type 0
      Deleted m' = (q : List ℕ) → m' q ≡ update m k none q

      unchanged : m k ≡ none → Deleted m
      unchanged none_there q = ground (arith, ap m, eq_of_bytes_eq k q)

      seen_none : m k ≡ none → seen_entry never m k now ≡ none
      seen_none none_there = ground arith

      rest :
          {v : Option Entry}
          → m k ≡ none
          → (q : List ℕ) → v ≡ (on_entry {R = ℕ} never m k now 0 (λ e. (1, update m k none))).1 q
          → v ≡ update m k none q
      rest none_there q e = ground (arith, seen_none none_there, unchanged none_there q)

      past_expired :
          {v : Option Entry} (e : Entry)
          → m k ≡ some e
          → entry_expired e now ≡ true
          → (q : List ℕ) → v ≡ (on_entry {R = ℕ} never m k now 0 (λ e. (1, update m k none))).1 q
          → v ≡ update m k none q
      past_expired e there x q h = ground arith

      deleted :
          (r : ℕ × Lfkv)
          → r.0 ≡ (on_entry {R = ℕ} never m k now 0 (λ e. (1, update m k none))).0
          → Models r.1 (on_entry {R = ℕ} never m k now 0 (λ e. (1, update m k none))).1
          → Does r (found (seen_entry never m k now), update m k none)
      deleted r result md' = elim (Option-cases (m k)) [
        | inl none_there ↦ (
          result ∙ rw (none_there, on_entry, seen_entry, settled),
          record { valid = md'.valid; reads = λ q. rest none_there q (md'.reads q) },
        )
        | inr (e, there) ↦ elim (Bool-cases (entry_expired e now)) [
          | inl x ↦ (
            result ∙ rw (there, x, on_entry, seen_entry, settled),
            record { valid = md'.valid; reads = λ q. past_expired e there x q (md'.reads q) },
          )
          | inr x ↦ (
            result ∙ rw (there, x, on_entry, seen_entry, settled),
            record {
              valid = md'.valid;
              reads = λ q. md'.reads q ∙ rw (there, x, on_entry, seen_entry, settled);
            },
          )
        ]
      ]

  -- lfkv_set_expiry, on a well-formed table that reads as a map, changes the expiry of a key that
  -- holds a value at that time, and not its value.
  pub set_expiry-refines :
      (ts_us : ℤ) (entry_ok : Bool)
      → Returns (lfkv_set_expiry kv k ts_us now entry_ok) λ r. Does r (
          on_entry is_null m k now 0 λ e.
            if entry_ok then (1, update m k (some (record e { expiry_us = ts_us }))) else (0, m))
  unfolding lfkv_set_expiry
  set_expiry-refines ts_us true =
      enter_rule is_null 0 _ _ (λ i s e h. (_, refl, (refl, exchange-Models kv m md k i s e h _)))
  set_expiry-refines ts_us false = enter_rule is_null 0 _ _ (λ i s e h. (_, refl, (refl, md)))

  -- `lfkv_get_expiry` returns the expiry of a key that holds a value at `now`, and else -1.
  pub get_expiry-refines :
      Returns
        (lfkv_get_expiry kv k now)
        λ r. Does r (on_entry is_null m k now (negsuc 0) (λ e. (e.expiry_us, m)))
  unfolding lfkv_get_expiry
  get_expiry-refines = enter_rule is_null (negsuc 0) _ _ (λ i s e h. (_, refl, (refl, md)))

  -- lfkv_set_xx, on a well-formed table that reads as a map, replaces the entry of a key that is
  -- live at that time, with no expiry, and never inserts.
  pub set_xx-refines :
      (val : ℕ) (entry_ok : Bool)
      → Returns (lfkv_set_xx kv k val now entry_ok) λ r. Does r (
          on_entry never m k now 0 λ e.
            if entry_ok
            then (1, update m k (some (record { val = val; expiry_us = pos 0 })))
            else (0, m))
  unfolding lfkv_set_xx
  set_xx-refines val true =
      enter_rule never 0 _ _
        (λ i s e h. (_, refl, (refl, hit-Models kv m md k i s e h _ _ refl refl refl)))
  set_xx-refines val false = enter_rule never 0 _ _ (λ i s e h. (_, refl, (refl, md)))

  -- lfkv_cas, on a well-formed table that reads as a map, returns; it stores or removes only
  -- where the key holds the expected value at that time, and a new entry keeps the expiry of the
  -- old one.
  pub cas-refines :
      (expected new_val : ℕ) (entry_ok : Bool)
      → Returns (lfkv_cas kv k expected new_val now entry_ok) λ r. Does r (
          on_entry (differs expected) m k now 0 λ e.
            if new_val == 0
            then (1, update m k none)
            else if entry_ok
            then (1, update m k (some (record { val = new_val; expiry_us = e.expiry_us })))
            else (0, m))
  unfolding lfkv_cas
  cas-refines expected new_val entry_ok = enter_rule (differs expected) 0 _ _ λ i s e h.
      elim (Bool-cases (new_val == 0)) [
        | inl z ↦ (
          (
            1,
            record (exchange kv i s e none) {
              count = decrement kv.count;
              events = removed s.key ∷ kv.events;
            },
          ),
          rw z,
          (
            rw z,
            rw z (hit-Models kv m md k i s e h _ none refl refl (decrement-Hit kv m md k i s e h)),
          ),
        )
        | inr nz ↦ elim (Bool-cases entry_ok) [
          | inr f ↦ ((0, kv), rw (nz, f), (rw (nz, f), rw (nz, f) md))
          | inl t ↦ (
            (
              1,
              record (exchange kv i s e
                  (some (record { val = new_val; expiry_us = e.expiry_us }))) {
                    events = stored s.key new_val ∷ kv.events;
                  },
            ),
            rw (nz, t),
            (rw (nz, t), rw (nz, t) (hit-Models kv m md k i s e h _ _ refl refl refl)),
          )
        ]
      ]

  -- lfkv_touch_if_value, on a well-formed table that reads as a map and for an expected value
  -- that is not NULL, returns; it gives a key that holds the expected value at that time the new
  -- expiry, and leaves the entry alone where neither the old nor the new expiry is set or the new
  -- entry cannot be allocated.
  pub touch-refines :
      (expected : ℕ) (expiry_us : ℤ) (entry_ok : Bool)
      → 0 < expected
      → Returns (lfkv_touch_if_value kv k expected expiry_us now entry_ok) λ r. Does r (
          on_entry (differs expected) m k now 0 λ e.
            if eq_ℤ expiry_us (pos 0) && eq_ℤ e.expiry_us (pos 0)
            then (1, m)
            else if entry_ok
            then (1, update m k (some (record { val = expected; expiry_us = expiry_us })))
            else (0, m))
  unfolding lfkv_touch_if_value
  touch-refines expected expiry_us entry_ok positive =
      let given : (expected == 0) ≡ false = ground arith in
      rw given (
        enter_rule (differs expected) 0 _ _ λ i s e h.
          elim (Bool-cases (eq_ℤ expiry_us (pos 0) && eq_ℤ e.expiry_us (pos 0))) [
            | inl t ↦ ((1, kv), rw t, (rw t, rw t md))
            | inr f ↦ elim (Bool-cases entry_ok) [
              | inr g ↦ ((0, kv), rw (f, g), (rw (f, g), rw (f, g) md))
              | inl g ↦ (
                (1, exchange kv i s e (some (record { val = expected; expiry_us = expiry_us }))),
                rw (f, g),
                (rw (f, g), rw (f, g) (exchange-Models kv m md k i s e h _)),
              )
            ]
          ])
