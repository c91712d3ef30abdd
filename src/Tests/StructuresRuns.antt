-- ===== src/Tests/StructuresRuns.antt =====
-- Runs of kernel/structures/fifo.cpp, unique_hash_map.h and hash_map.h.
use influx.Base.{
  ℕ, ◌≡◌, refl, true, List, [], ◌∷◌, ◌++◌, Option, none, some, length, if◌then◌else◌, leb, arith,
  set, get_elem?,
}
use influx.Base.Run.{ok}
use influx.Structures.Fifo.{Fifo, push, pop, load_from, current_size}
use influx.Structures.Fifo.Contents.{IsValid, contents}
use influx.Structures.Fifo.Queue.{has_room, push-contents, pop-contents}
use influx.Structures.HashMap
use influx.Structures.HashMap.{HashMap}
use influx.Structures.HashMap.Slots.{Models, chain, chains, first_node}
use influx.Structures.HashMap.Growth.{insert-full}
use influx.Structures.UniqueHashMap.{UniqueHashMap, new, insert_unique, erase, at}
use influx.Structures.UniqueHashMap.Spec.{first_free, fill, occupied, value_or, holes}
use influx.Structures.UniqueHashMap.Trace.{
  Operation, add, drop_key, run_all, slots_after, at-run_all,
}
use influx.Structures.UniqueHashMap.Refinement.{Represents, Ends, insert_unique-Ends}
use influx.Structures.UniqueHashMap.Removal.{erase-Ends, at-value_or}

-- A ring of four bytes whose two bytes, 8 and 9, lie across its end.
abbrev wrapped : Fifo
wrapped = record { buffer = 9 ∷ 0 ∷ 0 ∷ 8 ∷ []; max_size = 4; head = 3; tail = 5 }

wrapped-IsValid : IsValid wrapped
wrapped-IsValid = record {
  roomy = omega arith;
  sized = refl;
  ordered = omega arith;
  fits = omega arith;
  word = omega arith;
}

push-contents_example :
    IsValid (push (5 ∷ 6 ∷ []) wrapped).0
    × ((push (5 ∷ 6 ∷ []) wrapped).1 ≡ has_room (5 ∷ 6 ∷ []) wrapped)
    × (contents (push (5 ∷ 6 ∷ []) wrapped).0 ≡ (
        if has_room (5 ∷ 6 ∷ []) wrapped then contents wrapped ++ 5 ∷ 6 ∷ [] else contents wrapped))
push-contents_example = push-contents wrapped (5 ∷ 6 ∷ []) wrapped-IsValid (omega arith)

pop-contents_example :
    let (rest, bytes, done) = pop 2 wrapped in
    IsValid rest
    × (done ≡ leb 2 (length (contents wrapped)))
    × (contents wrapped ≡ bytes ++ contents rest)
    × (length bytes ≡ (if leb 2 (length (contents wrapped)) then 2 else 0))
pop-contents_example = pop-contents wrapped 2 wrapped-IsValid

-- Bytes that wrap around the end of the ring come out in order.
wrapped_bytes : (pop 2 wrapped).1 ≡ 8 ∷ 9 ∷ []
unfolding pop load_from current_size
wrapped_bytes = refl

-- Two slots, the first in use, and no bucket beyond them.
abbrev hole_map : UniqueHashMap ℕ
hole_map = record {
  map = record {
    bucket_count = 2;
    buckets = (first_node 0 7 ∷ []) ∷ [] ∷ [];
    size = 1;
    empty_item = 0;
  };
  counter = 2;
  deleted_keys = 1 ∷ [];
}

abbrev hole_slots : List (Option ℕ)
hole_slots = some 7 ∷ none ∷ []

hole_map-Represents : Represents hole_map hole_slots 0
unfolding chain chains holes
hole_map-Represents = record {
  held = record { counted = refl; table = refl; sized = refl };
  counted = refl;
  listed = refl;
  wide = omega arith;
}

insert_unique-Ends_example :
    Ends (insert_unique hole_map 9) (some (first_free hole_slots)) (fill 9 hole_slots) 0
insert_unique-Ends_example =
    insert_unique-Ends hole_map hole_slots 0 9 hole_map-Represents (omega arith) (omega arith)

erase-Ends_example :
    Ends (erase hole_map 0) (occupied (get_elem? hole_slots 0)) (set hole_slots 0 none) 0
erase-Ends_example = erase-Ends hole_map hole_slots 0 0 hole_map-Represents

at-value_or_example : at hole_map 0 ≡ ok (value_or 0 (get_elem? hole_slots 0))
at-value_or_example = at-value_or hole_map hole_slots 0 0 hole_map-Represents

-- A map of one bucket and one value.
abbrev full_map : HashMap ℕ
full_map = record {
  bucket_count = 1;
  buckets = (first_node 0 7 ∷ []) ∷ [];
  size = 1;
  empty_item = 0;
}

full_map-Models : Models full_map (some 7 ∷ [])
unfolding chain chains
full_map-Models = record { counted = refl; table = refl; sized = refl }

insert-full_example :
    (m : HashMap ℕ) × (HashMap.insert full_map 1 8 ≡ ok (m, true))
    × Models m (some 7 ∷ some 8 ∷ [])
    × (m.empty_item ≡ 0)
insert-full_example = insert-full 7 [] 8 full_map-Models (omega arith)

-- Three values, of which the second is erased and its key used again.
abbrev reuse : List (Operation ℕ)
reuse = add 7 ∷ add 8 ∷ add 9 ∷ drop_key 1 ∷ add 5 ∷ []

at-run_all_example :
    (u : UniqueHashMap ℕ) × (run_all reuse (new 1 0) ≡ ok u)
    × ((k : ℕ) → at u k ≡ ok (value_or 0 (get_elem? (slots_after reuse []) k)))
at-run_all_example = at-run_all reuse 1 0 (omega arith) (omega arith) (omega arith)

reuse_slots : slots_after reuse [] ≡ some 7 ∷ some 5 ∷ some 9 ∷ []
unfolding fill
reuse_slots = refl
