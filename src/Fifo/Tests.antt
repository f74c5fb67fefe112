-- ===== src/Fifo/Tests.antt =====
-- Runs of the FIFO on four cells.
use slate.Fifo.Race.{Steps, at, tests_empty, tests_room, got, has_put, put_lost}
use slate.Base.{
  get_or, ℕ, ◌-◌, ◌<◌, min, ◌≡◌, refl, arith, some, List, [], ◌∷◌, ◌++◌, length, take, drop,
  get_elem?,
}
use slate.Fifo.{Fifo, success, put, get, write_from, read_into}
use slate.Fifo.Inv.{IsValid}
use slate.Fifo.Sequence.{Op, puts, gets, measures, calls, queue_calls, calls_refine}
use slate.Fifo.Refine.{contents}
use slate.Fifo.Bulk.{write_lem, read_lem}
use slate.Fifo.Stray.{get_reads_past_iff_full}

abbrev two_bytes : Fifo
two_bytes = record { p_buff = 7 ∷ 8 ∷ 0 ∷ 0 ∷ []; buff_size = 3; read_pos = 0; write_pos = 2 }

two_bytes-IsValid : IsValid two_bytes
two_bytes-IsValid = record { sized = refl; small = omega arith; front = refl; filled = omega arith }

-- A byte is put, two are taken, and the length is asked for.
abbrev some_calls : List Op
some_calls = puts 9 ∷ gets ∷ gets ∷ measures ∷ []

calls_refine_example :
    ((calls 1 some_calls two_bytes).0 ≡ (queue_calls 4 some_calls (7 ∷ 8 ∷ [])).0)
    × (contents (calls 1 some_calls two_bytes).1 ≡ (queue_calls 4 some_calls (7 ∷ 8 ∷ [])).1)
    × IsValid (calls 1 some_calls two_bytes).1
calls_refine_example = calls_refine 1 some_calls two_bytes two_bytes-IsValid

left_over : (queue_calls 4 some_calls (7 ∷ 8 ∷ [])).1 ≡ 9 ∷ []
unfolding queue_calls
left_over = refl

write_lem_example :
    let (s, n, p') = write_from 1 two_bytes (some (3 ∷ 4 ∷ 5 ∷ [])) 3 in
    (n ≡ min 3 (4 - 2))
    × (contents p' ≡ (7 ∷ 8 ∷ []) ++ take n (3 ∷ 4 ∷ 5 ∷ []))
    × IsValid p'
    × (p'.buff_size ≡ 3)
    × (s ≡ success)
write_lem_example =
    write_lem 1 two_bytes (3 ∷ 4 ∷ 5 ∷ []) 3 two_bytes-IsValid (omega arith) (omega arith)

read_lem_example :
    let (s, out, n, p') = read_into 1 two_bytes (some (0 ∷ 0 ∷ 0 ∷ [])) 1 in
    (s ≡ success)
    × (n ≡ min 1 2)
    × ((bytes : List ℕ) × (out ≡ some bytes)
        × (take n bytes ≡ take n (7 ∷ 8 ∷ []))
        × (length bytes ≡ 3))
    × (contents p' ≡ drop n (7 ∷ 8 ∷ []))
    × IsValid p'
    × (p'.buff_size ≡ 3)
read_lem_example =
    read_lem 1 two_bytes (0 ∷ 0 ∷ 0 ∷ []) 1 two_bytes-IsValid (omega arith) (omega arith)

get_reads_past_iff_full_example :
    (two_bytes.write_pos < 4 → get 1 two_bytes ≡ get 6 two_bytes)
    × (two_bytes.write_pos ≡ 4 → get_elem? (get 1 two_bytes).2.p_buff 3 ≡ some 1)
get_reads_past_iff_full_example = get_reads_past_iff_full 1 6 two_bytes two_bytes-IsValid

put_lost_example :
    (contents (put (get 1 two_bytes).2 9).1 ≡ 8 ∷ 9 ∷ [])
    × ((p' : Fifo) × Steps 1 (at two_bytes tests_empty (tests_room 9)) (at p' got has_put)
        × (contents p' ≡ drop 1 (contents two_bytes) ++ (get_or two_bytes.p_buff 2 1 ∷ [])))
put_lost_example = put_lost 1 two_bytes 9 two_bytes-IsValid (omega arith) (omega arith)
