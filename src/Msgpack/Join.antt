-- ===== src/Msgpack/Join.antt =====
-- Dictionaries that grow by keys that they lack.
use alcove.Base.{ℕ, ◌≡◌, refl, ap, List, [], ◌∷◌, false, arith, ◌==◌, bytes_eq}
use alcove.Hash.Terminated.{IsText}
use alcove.Msgpack.Value.{Value, Fields, no_fields, field}
use alcove.Msgpack.Decode.{c_text, insert_field}
use alcove.Msgpack.Wire.{Lacks}

pub c_text-IsText : (s : List ℕ) → IsText s → c_text s ≡ s
unfolding c_text
c_text-IsText [] h = refl
c_text-IsText (c ∷ cs) (nonzero, h) =
    let more : (c == 0) ≡ false = ground arith in rw (more, c_text-IsText cs h) refl

-- The entries of one dictionary behind those of another.
abbrev pub join : Fields → Fields → Fields
join no_fields gs = gs
join (field k v fs) gs = field k v (join fs gs)

pub join_assoc : (fs gs hs : Fields) → join (join fs gs) hs ≡ join fs (join gs hs)
join_assoc no_fields gs hs = refl
join_assoc (field k v fs) gs hs = ap (field k v) (join_assoc fs gs hs)

pub join_none : (fs : Fields) → join fs no_fields ≡ fs
join_none no_fields = refl
join_none (field k v fs) = ap (field k v) (join_none fs)

-- No key of the second dictionary is one of the first.
abbrev pub Disjoint : Fields → Fields → Type 0
Disjoint acc no_fields = Unit
Disjoint acc (field k v fs) = Lacks k acc × Disjoint acc fs

pub insert_field-Lacks :
    (key : List ℕ) (val : Value) (acc : Fields)
    → Lacks key acc
    → insert_field key val acc ≡ join acc (field key val no_fields)
unfolding insert_field
insert_field-Lacks key val no_fields h = refl
insert_field-Lacks key val (field k v fs) (ne, _, h) = rw (ne, insert_field-Lacks key val fs h) refl

pub Lacks-join :
    (key k : List ℕ) (v : Value) (acc : Fields)
    → Lacks key acc
    → bytes_eq key k ≡ false
    → bytes_eq k key ≡ false
    → Lacks key (join acc (field k v no_fields))
Lacks-join key k v no_fields h ne en = (ne, en, tt)
Lacks-join key k v (field k' v' fs) (ne', en', h) ne en = (ne', en', Lacks-join key k v fs h ne en)

pub Disjoint-join :
    (acc fs : Fields) (k : List ℕ) (v : Value)
    → Disjoint acc fs
    → Lacks k fs
    → Disjoint (join acc (field k v no_fields)) fs
Disjoint-join acc no_fields k v h l = tt
Disjoint-join acc (field k' v' fs) k v (out, h) (ne, en, l) =
    (Lacks-join k' k v acc out en ne, Disjoint-join acc fs k v h l)

pub Disjoint-none : (fs : Fields) → Disjoint no_fields fs
Disjoint-none no_fields = tt
Disjoint-none (field k v fs) = (tt, Disjoint-none fs)
