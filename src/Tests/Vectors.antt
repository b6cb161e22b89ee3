-- ===== src/Tests/Vectors.antt =====
-- A vector that one thread grows by a block of four, blocks of two, and a list of retired tables.
use fuxi_n.Prelude.{
  ℕ, ◌+◌, ◌^◌, ◌≡◌, inr, refl, IsBitCeil, update, total, count, none, some, List, [], ◌∷◌, arith,
}
use fuxi_n.Vector.{Meta, block_size, set_block_size, place, Segment, for_each, Elements, copy_n}
use fuxi_n.Vector.Sizes.{set_block_size-IsBitCeil, set_block_size_diverges}
use fuxi_n.Vector.Growth.{
  Memory, block_table, create_block_table, create_block, publish, Pc, creating, returning, System,
  starts, creates, exchanges, pick, new_vector, Run, here, later,
}
use fuxi_n.Vector.Growth.Defs.{holds}
use fuxi_n.Vector.Growth.Safety.{created_once}
use fuxi_n.Vector.Places.{IsMeta}
use fuxi_n.Vector.Segments.{segments_cells, places, for_each-places}
use fuxi_n.Vector.Assigns.{copy_n-read}
use fuxi_n.Vector.Addresses.{place_kept, element_unique}
use fuxi_n.Vector.Retire.{Call, retires, collects, new_list, run}
use fuxi_n.Vector.Retire.Cooling.{IsCooled, run-IsCooled}

abbrev moved_by : System → Memory → Pc → System
moved_by s m p = record { mem = m; pc = update s.pc 0 p }

abbrev asked : System
asked = moved_by new_vector (create_block_table new_vector.mem) (creating 1 0 1 [] [])

abbrev filled : System
filled = moved_by asked (create_block asked.mem) (creating 1 0 1 [] (0 ∷ []))

abbrev grown : System
grown = moved_by filled (publish filled.mem 0 1 (0 ∷ [])) (returning 1 1)

asked-Run : Run 1 new_vector asked
asked-Run = later here (pick 0 (omega arith) (starts (omega arith)))

grown-Run : Run 1 new_vector grown
grown-Run =
    later (later asked-Run (pick 0 (omega arith) (creates (omega arith))))
      (pick 0 (omega arith) (exchanges {copied = []} {created = 0 ∷ []} refl refl))

abbrev last_index : ℕ
last_index = 3

abbrev fours : Meta
fours = record { block_mask = 3; block_mask_bits = 2 }

abbrev twos : Meta
twos = record { block_mask = 1; block_mask_bits = 1 }

fours-IsMeta : IsMeta 2 fours
fours-IsMeta = record { bits = refl; mask = refl; few = omega arith }

twos-IsMeta : IsMeta 1 twos
twos-IsMeta = record { bits = refl; mask = refl; few = omega arith }

abbrev two_blocks : List ℕ
two_blocks = 5 ∷ 7 ∷ []

abbrev zeros : Elements ℕ
zeros _ _ = 0

place_kept-grown :
    (p : ℕ × ℕ) × (place fours (grown.mem.blocks 1) 2 ≡ some p)
    × (place fours (grown.mem.blocks 1) 2 ≡ some p)
    × (place fours (block_table grown.mem) 2 ≡ some p)
    × (count p.0 grown.mem.deleted ≡ 0)
place_kept-grown =
    place_kept 1 0 2 1 1 2 fours fours-IsMeta (omega arith) (omega arith) grown-Run refl here

created_once-grown :
    total (holds 0) 1 grown.pc + count 0 (block_table grown.mem) + count 0 grown.mem.deleted ≡ 1
created_once-grown = created_once 1 0 grown-Run (omega arith)

element_unique-last : last_index ≡ last_index
element_unique-last =
    element_unique 1 2 last_index last_index (0, 3) fours fours-IsMeta grown-Run (omega arith)
      (omega arith) refl refl

copy_n-read_two :
    (e' : Elements ℕ) × (copy_n 3 twos two_blocks zeros (10 ∷ 11 ∷ []) 2 1 ≡ some e')
    × (e' 7 0 ≡ 11)
    × (e' 7 1 ≡ 0)
copy_n-read_two =
    copy_n-read twos-IsMeta two_blocks (λ x. ground arith) 3 1 zeros (10 ∷ 11 ∷ []) 1 3 11 (7, 0)
      (7, 1) (omega arith) (omega arith) (omega arith) refl refl (inr (omega arith)) (omega arith)
      refl

for_each-places_three :
    (segments : List Segment) × (for_each 3 twos two_blocks 1 (1 + 3) ≡ some segments)
    × (segments_cells segments ≡ places twos two_blocks 1 3)
for_each-places_three =
    for_each-places twos-IsMeta two_blocks 3 1 3 (omega arith) (omega arith) (omega arith)

set_block_size-IsBitCeil_1000 :
    (r : ℕ × Meta) × (set_block_size 32 1000 ≡ some r)
    × IsBitCeil 1000 r.0
    × (block_size r.1 ≡ r.0)
    × (r.0 ≡ 2 ^ r.1.block_mask_bits)
set_block_size-IsBitCeil_1000 = set_block_size-IsBitCeil 1000 (omega arith)

set_block_size_diverges_40 : set_block_size 40 2147483649 ≡ none
set_block_size_diverges_40 = set_block_size_diverges 40 2147483649 (omega arith)

abbrev three_calls : List (ℕ × Call)
three_calls = (10, retires 1) ∷ (100, retires 2) ∷ (300, collects) ∷ []

run-IsCooled-three_calls : IsCooled (run new_list three_calls).1
run-IsCooled-three_calls =
    run-IsCooled 0 three_calls (omega arith, (omega arith, (omega arith, tt)))
