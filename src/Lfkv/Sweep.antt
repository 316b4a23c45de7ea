-- ===== src/Lfkv/Sweep.antt =====
-- The two loops over all slots, `lfkv_evict_expired` and `lfkv_clear`, against the map of the table.
use alcove.Base.{
  ℕ, zero, suc, ◌+◌, ◌<◌, ◌≤◌, ◌≡◌, refl, sym, ap, ◌∙◌, List, Option, none, some, Bool, true, false,
  arith, length, get_elem?, get_elem?-lt, get_elem?_within, length-set, bytes_eq, Bool-cases, inl,
  inr, if◌then◌else◌, ◌>>=◌, Returns, dec_lt, get_elem?-set_self, get_elem?-set_ne, bytes_eq_refl,
  eq_of_bytes_eq, ◌⊎◌,
}
use alcove.Lfkv.Defs.{Entry, Slot, Lfkv, slot_retire_entry}
use alcove.Lfkv.Write.{Map, update, Models}
use alcove.Lfkv.Current.{Hit, located-Hit, retire-Models, decrement-Hit}

-- Both loops, over which entries they retire.
unfoldable pub sweep : (Entry → Bool) → ℕ → ℕ → Lfkv → Option (ℕ × Lfkv)
sweep drops zero i kv = some (0, kv)
sweep drops (suc left) i kv = get_elem? kv.slots i >>= λ cell. elim cell [
  | none ↦ sweep drops left (i + 1) kv
  | some s ↦ elim (s.entry) [
    | none ↦ sweep drops left (i + 1) kv
    | some ent ↦ elim (drops ent) [
      | false ↦ sweep drops left (i + 1) kv
      | true ↦
          sweep drops left (i + 1) (slot_retire_entry kv i s ent) >>= λ (n, kv'). some (n + 1, kv')
    ]
  ]
]

-- The entries that a sweep leaves.
abbrev pub kept_by : (Entry → Bool) → Option Entry → Option Entry
kept_by drops none = none
kept_by drops (some e) = if drops e then none else some e

-- The cell holds no entry that the sweep drops.
abbrev pub Clean : (Entry → Bool) → Option Slot → Type 0
Clean drops c = (s : Slot) (e : Entry) → c ≡ some s → s.entry ≡ some e → drops e ≡ false

-- What a sweep of the cells from `i` to `i + left` does.
pub record Swept (drops : Entry → Bool) (m : Map) (i left : ℕ) (kv : Lfkv) (r : ℕ × Lfkv)
    : Type 0 where
  pub after : Map
  pub models : Models r.1 after
  pub drop : (q : List ℕ) → (after q ≡ m q) ⊎ (after q ≡ kept_by drops (m q))
  pub number : r.0 + r.1.count ≡ kv.count
  pub size : length r.1.slots ≡ length kv.slots
  pub before : (j : ℕ) → j < i → get_elem? r.1.slots j ≡ get_elem? kv.slots j
  pub clean :
      (j : ℕ) (c : Option Slot)
      → i ≤ j
      → j < i + left
      → get_elem? r.1.slots j ≡ some c
      → Clean drops c

module _ (drops : Entry → Bool) where
  Swept-skip :
      (m : Map) (i left : ℕ) (kv : Lfkv) (r : ℕ × Lfkv) (c : Option Slot)
      → get_elem? kv.slots i ≡ some c
      → Clean drops c
      → Swept drops m (i + 1) left kv r
      → Swept drops m i (suc left) kv r
  Swept-skip m i left kv r c cell fine sw = record {
    after = sw.after;
    models = sw.models;
    drop = sw.drop;
    number = sw.number;
    size = sw.size;
    before = λ j lt. sw.before j (omega arith);
    clean = λ j d lo hi cell'. elim (dec_lt i j) [
      | yes p ↦ sw.clean j d (omega arith) (omega arith) cell'
      | no p ↦
          let e : j ≡ i = omega arith in
          let same : c ≡ d = cc (sw.before i (omega arith), ap (get_elem? r.1.slots) e, cell) in
          rw (← same) fine
    ];
  }

  Swept-drop :
      (m : Map) (i left : ℕ) (kv : Lfkv) (s : Slot) (e : Entry) (r : ℕ × Lfkv)
      → Models kv m
      → get_elem? kv.slots i ≡ some (some s)
      → s.entry ≡ some e
      → drops e ≡ true
      → Swept drops (update m s.key none) (i + 1) left (slot_retire_entry kv i s e) r
      → Swept drops m i (suc left) kv (r.0 + 1, r.1)
  unfolding slot_retire_entry
  Swept-drop m i left kv s e r md cell held d sw = record {
    after = sw.after;
    models = sw.models;
    drop = λ q. elim (Bool-cases (bytes_eq s.key q)) [
      | inr other ↦ rw other at (sw.drop q)
      | inl same ↦
          let known : m q ≡ some e =
            ap m (sym (eq_of_bytes_eq s.key q same)) ∙ sym (md.reads s.key) ∙ h.viewed in
          inr (elim (rw same at (sw.drop q)) [ inl z ↦ z | inr z ↦ z ] ∙ rw (known, d))
    ];
    number = omega (arith, sw.number, decrement-Hit kv m md s.key i s e h);
    size = sw.size ∙ length-set kv.slots i _;
    before = λ j lt. sw.before j (omega arith) ∙ get_elem?-set_ne kv.slots _ (λ same. omega arith);
    clean = λ j c lo hi cell'. elim (dec_lt i j) [
      | yes p ↦ sw.clean j c (omega arith) (omega arith) cell'
      | no p ↦ λ t f is held'.
          let same : j ≡ i = omega arith in
          let dead = sym (
            get_elem?-set_self kv.slots i (some (record s { entry = none }))
              (get_elem?-lt kv.slots i (some s) cell)) in
          let now_dead = dead ∙ sym (sw.before i (omega arith)) in
          tomb_clean c t f (now_dead ∙ sym (ap (get_elem? r.1.slots) same) ∙ cell') is held'
    ];
  }
    where
      h : Hit kv.slots s.key i s e
      h = located-Hit kv s.key i s e md.valid cell held (bytes_eq_refl s.key)

      tomb_clean :
          (c : Option Slot) (t : Slot) (f : Entry)
          → some (some (record s { entry = none })) ≡ some c
          → c ≡ some t
          → t.entry ≡ some f
          → drops f ≡ false
      tomb_clean c t f is there held' =
          let same : record s { entry = none } ≡ t = cc in cc (ap (λ (z : Slot). z.entry) same)

  module _ (m : Map) (left i : ℕ) (kv : Lfkv) (md : Models kv m)
      (size : i + suc left ≡ length kv.slots)
      (next : (m' : Map) (kv' : Lfkv)
        → Models kv' m'
        → i + 1 + left ≡ length kv'.slots
        → Returns (sweep drops left (i + 1) kv') (Swept drops m' (i + 1) left kv')) where
    sweep_skip :
        (c : Option Slot)
        → get_elem? kv.slots i ≡ some c
        → Clean drops c
        → sweep drops (suc left) i kv ≡ sweep drops left (i + 1) kv
        → Returns (sweep drops (suc left) i kv) (Swept drops m i (suc left) kv)
    sweep_skip c cell fine step =
        let (r, run, sw) = next m kv md (omega arith) in
        (r, step ∙ run, Swept-skip m i left kv r c cell fine sw)

    sweep_drop :
        (s : Slot) (e : Entry)
        → get_elem? kv.slots i ≡ some (some s)
        → s.entry ≡ some e
        → drops e ≡ true
        → Returns (sweep drops (suc left) i kv) (Swept drops m i (suc left) kv)
    unfolding sweep slot_retire_entry
    sweep_drop s e cell held d =
        let (r, run, sw) =
          next (update m s.key none) (slot_retire_entry kv i s e)
            (retire-Models kv m md s.key i s e
              (located-Hit kv s.key i s e md.valid cell held (bytes_eq_refl s.key)))
            (rw length-set (omega arith)) in
        ((r.0 + 1, r.1), simp (cell, held, d, run), Swept-drop m i left kv s e r md cell held d sw)

    sweep_slot :
        (s : Slot) (o : Option Entry)
        → get_elem? kv.slots i ≡ some (some s)
        → s.entry ≡ o
        → Returns (sweep drops (suc left) i kv) (Swept drops m i (suc left) kv)
    unfolding sweep
    sweep_slot s none cell held =
        sweep_skip (some s) cell
          (λ t f is held'. let same : s ≡ t = cc in cc (ap (λ (z : Slot). z.entry) same))
          (simp (cell, held))
    sweep_slot s (some e) cell held = elim (Bool-cases (drops e)) [
      | inl d ↦ sweep_drop s e cell held d
      | inr keep ↦
          sweep_skip (some s) cell
            (λ t f is held'.
              let same : s ≡ t = cc in
              let entries : e ≡ f = cc (ap (λ (z : Slot). z.entry) same) in rw (← entries) keep)
            (simp (cell, held, keep))
    ]

    sweep_cell :
        (c : Option Slot)
        → get_elem? kv.slots i ≡ some c
        → Returns (sweep drops (suc left) i kv) (Swept drops m i (suc left) kv)
    unfolding sweep
    sweep_cell none cell = sweep_skip none cell (λ t f is held'. cc) (simp cell)
    sweep_cell (some s) cell = sweep_slot s s.entry cell refl

  pub sweep-Swept :
      (m : Map) (left i : ℕ) (kv : Lfkv)
      → Models kv m
      → i + left ≡ length kv.slots
      → Returns (sweep drops left i kv) (Swept drops m i left kv)
  unfolding sweep
  sweep-Swept m zero i kv md size = (
    (0, kv),
    refl,
    record {
      after = m;
      models = md;
      drop = λ q. inl refl;
      number = omega arith;
      size = refl;
      before = λ j lt. refl;
      clean = λ j c lo hi. absurd (omega arith);
    },
  )
  sweep-Swept m (suc left) i kv md size =
      let (c, cell) = get_elem?_within kv.slots i (omega arith) in
      sweep_cell m left i kv md size (λ m' kv'. sweep-Swept m' left (i + 1) kv') c cell
