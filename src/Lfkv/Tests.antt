-- ===== src/Lfkv/Tests.antt =====
-- Tables of one and two cells: runs of the operations of lfkv.c, and their theorems at work.
use alcove.Base.{
  if◌then◌else◌, ◌&&◌, eq_ℤ, ℕ, zero, suc, ◌+◌, ◌≡◌, refl, List, [], ◌∷◌, none, some, true, arith,
  ◌>>=◌, Returns, pos, negsuc, replicate,
}
use alcove.Hash.{bernstein_hash}
use alcove.Lfkv.Defs.{Entry, Lfkv, entry_expired}
use alcove.Lfkv.Ops.{
  enter, publish, never, is_null, differs, lfkv_get, lfkv_set, lfkv_del, lfkv_set_nx, lfkv_cas,
  lfkv_set_xx, lfkv_touch_if_value, lfkv_evict_expired, lfkv_foreach, lfkv_clear,
}
use alcove.Lfkv.Slots.{found, occurrences}
use alcove.Lfkv.Write.{Map, update, Models}
use alcove.Lfkv.Current.{seen_entry}
use alcove.Lfkv.Refine.{
  Does, on_entry, get-refines, del-refines, set_xx-refines, cas-refines, touch-refines,
}
use alcove.Lfkv.Claim.{NoFree}
use alcove.Lfkv.Insert.{plain_entry, publish-Models}
use alcove.Lfkv.Set.{Inserted, set-refines}
use alcove.Lfkv.SetNx.{both, inserted_nx, set_nx-refines}
use alcove.Lfkv.Hang.{set_nx-loops}
use alcove.Lfkv.Evict.{evict_expired-refines, clear-refines}
use alcove.Lfkv.Sweep.{kept_by}
use alcove.Lfkv.Visit.{note, visits, shown, foreach-visits}
use alcove.Lfkv.New.{empty-Models}

-- The key "k", and an entry that expires at 5.
abbrev key : List ℕ
key = 107 ∷ []

abbrev timed : Entry
timed = record { val = 9; expiry_us = pos 5 }

abbrev empty_two : Lfkv
empty_two = record { slots = replicate 2 none; mask = 1; count = 0; retired = []; events = [] }

abbrev empty_one : Lfkv
empty_one = record { slots = replicate 1 none; mask = 0; count = 0; retired = []; events = [] }

abbrev nothing : Map
nothing q = none

empty_two-Models : Models empty_two nothing
empty_two-Models = empty-Models 1 empty_two refl refl refl (omega arith)

empty_one-Models : Models empty_one nothing
empty_one-Models = empty-Models 0 empty_one refl refl refl (omega arith)

-- The table of one cell, full with the timed key, and the table of two cells, with it in the second.
abbrev full_one : Lfkv
full_one = publish empty_one 0 key timed

abbrev half_full : Lfkv
half_full = publish empty_two 1 key timed

abbrev timed_map : Map
timed_map = update nothing key (some timed)

full_one-Models : Models full_one timed_map
unfolding occurrences bernstein_hash
full_one-Models =
    publish-Models empty_one nothing empty_one-Models key 0 none timed refl refl refl
      (record {
        rounds = 0;
        within = omega arith;
        arrives = refl;
        taken = λ e lt. absurd (omega arith);
      })
      (omega arith)

half_full-Models : Models half_full timed_map
unfolding occurrences bernstein_hash
half_full-Models =
    publish-Models empty_two nothing empty_two-Models key 1 none timed refl refl refl
      (record {
        rounds = 0;
        within = omega arith;
        arrives = refl;
        taken = λ e lt. absurd (omega arith);
      })
      (omega arith)

-- The value is there until the time 5.
get_timed :
    (lfkv_get half_full key (pos 4) ≡ some (9, half_full))
    × ((lfkv_get half_full key (pos 5) >>= λ r. some r.0) ≡ some 0)
unfolding lfkv_get publish bernstein_hash enter
get_timed = (refl, refl)

-- A second key goes to the free cell, a third one nowhere.
set_more :
    ((lfkv_set half_full [] 7 both >>= λ r. some r.0) ≡ some (pos 0))
    × ((lfkv_set half_full [] 7 both >>= λ r. lfkv_set r.1 (1 ∷ []) 7 both >>= λ t. some t.0)
        ≡ some (negsuc 0))
unfolding lfkv_set publish bernstein_hash
set_more = (refl, refl)

get-refines_example :
    Returns
      (lfkv_get half_full key (pos 4))
      λ r. Does r (on_entry is_null timed_map key (pos 4) 0 (λ e. (e.val, timed_map)))
get-refines_example = get-refines half_full timed_map half_full-Models key (pos 4)

del-refines_example :
    Returns
      (lfkv_del half_full key (pos 4))
      λ r. Does r (found (seen_entry never timed_map key (pos 4)), update timed_map key none)
del-refines_example = del-refines half_full timed_map half_full-Models key (pos 4)

set_xx-refines_example : Returns (lfkv_set_xx half_full key 3 (pos 4) true) λ r.
    Does r
      (on_entry never timed_map key (pos 4) 0 λ e. (1, update timed_map key (some (plain_entry 3))))
set_xx-refines_example = set_xx-refines half_full timed_map half_full-Models key (pos 4) 3 true

cas-refines_example : Returns (lfkv_cas half_full key 9 2 (pos 4) true) λ r. Does r (
    on_entry
      (differs 9)
      timed_map
      key
      (pos 4)
      0
      λ e. (1, update timed_map key (some (record { val = 2; expiry_us = e.expiry_us }))))
cas-refines_example = cas-refines half_full timed_map half_full-Models key (pos 4) 9 2 true

-- The entry of "k", touched at 4 to expire at 8.
touch-refines_example : Returns (lfkv_touch_if_value half_full key 9 (pos 8) (pos 4) true) λ r.
    Does r (
      on_entry (differs 9) timed_map key (pos 4) 0 λ e.
        if eq_ℤ (pos 8) (pos 0) && eq_ℤ e.expiry_us (pos 0)
        then (1, timed_map)
        else if true
        then (1, update timed_map key (some (record { val = 9; expiry_us = pos 8 })))
        else (0, timed_map))
touch-refines_example =
    touch-refines half_full timed_map half_full-Models key (pos 4) 9 (pos 8) true (omega arith)

set-refines_example :
    Returns (lfkv_set full_one [] 7 both) (Inserted full_one timed_map [] (plain_entry 7) both)
set-refines_example = set-refines full_one timed_map full_one-Models [] (omega arith) 7 both

set_nx-refines_example :
    Returns
      (lfkv_set_nx 2 half_full key 7 (pos 5) both)
      λ r. Does r (inserted_nx timed_map key 7 (pos 5))
unfolding publish
set_nx-refines_example =
    set_nx-refines key (omega arith) 7 (pos 5) half_full timed_map half_full-Models (0, refl)

no_free : NoFree full_one.slots
unfolding publish
no_free zero = λ e. cc
no_free (suc i) = λ e. cc

-- The key expired at 5, in a table that it fills.
set_nx-loops_example : lfkv_set_nx 100 full_one key 7 (pos 5) both ≡ none
unfolding publish entry_expired
set_nx-loops_example =
    set_nx-loops 100 full_one timed_map key 7 (pos 5) full_one-Models no_free (0, _, refl, refl)
      refl

evict_expired-refines_example : Returns (lfkv_evict_expired half_full (pos 5)) λ r.
    Models r.1 (λ q. kept_by (λ e. entry_expired e (pos 5)) (timed_map q))
    × (r.0 + r.1.count ≡ half_full.count)
evict_expired-refines_example = evict_expired-refines half_full timed_map half_full-Models (pos 5)

foreach-visits_example :
    Returns
      (lfkv_foreach half_full (pos 4) note [])
      λ r. (q : List ℕ) → visits q r ≡ found (shown (pos 4) (timed_map q))
foreach-visits_example = foreach-visits half_full timed_map (pos 4) half_full-Models

clear-refines_example : Returns (lfkv_clear half_full) λ kv'. Models kv' nothing × (kv'.count ≡ 0)
clear-refines_example = clear-refines half_full timed_map half_full-Models
