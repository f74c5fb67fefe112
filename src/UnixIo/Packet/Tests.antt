-- ===== src/UnixIo/Packet/Tests.antt =====
-- Runs of kreadpkt with handlers over a list of the bytes to come.
use slate.Base.{ℕ, ◌≡◌, refl, arith, Option, none, some, List, [], ◌∷◌, ◌++◌, take, replicate, pos}
use slate.UnixIo.Packet.{Params, Locals, start_locals, read_loop}
use slate.UnixIo.Packet.Frame.{Delivers, read_loop_packet}
use slate.UnixIo.Packet.Frame.Deal.{AllNoise, AllContent}
use slate.UnixIo.Packet.Bounds.{read_loop_bounds, ReadOk}

abbrev next_byte : List ℕ → ℕ × Option ℕ × List ℕ
next_byte [] = (1, none, [])
next_byte (x ∷ xs) = (0, some x, xs)

abbrev no_wait : List ℕ → ℕ → List ℕ
no_wait e ms = e

-- One second of patience, packets from 1 to a carriage return.
abbrev params : Params
params = record { r_timo = 1; parity = 0; r_soh = 1; r_eom = 13; r_maxlen = 10 }

-- A byte of noise, and the packet "BC".
abbrev stream : List ℕ
stream = 65 ∷ 1 ∷ 66 ∷ 67 ∷ 13 ∷ []

stream-Delivers : Delivers next_byte no_wait params stream stream []
stream-Delivers = (
  0,
  1 ∷ 66 ∷ 67 ∷ 13 ∷ [],
  omega arith,
  (refl, refl, refl),
  (
    0,
    66 ∷ 67 ∷ 13 ∷ [],
    omega arith,
    (refl, refl, refl),
    (
      0,
      67 ∷ 13 ∷ [],
      omega arith,
      (refl, refl, refl),
      (0, 13 ∷ [], omega arith, (refl, refl, refl), (0, [], omega arith, (refl, refl, refl), refl)),
    ),
  ),
)

noise-AllNoise : AllNoise params (65 ∷ [])
noise-AllNoise = (λ e. omega arith, tt)

body-AllContent : AllContent params (66 ∷ 67 ∷ [])
body-AllContent = (
  (omega arith, λ e. omega arith, λ e. omega arith),
  ((omega arith, λ e. omega arith, λ e. omega arith), tt),
)

read_loop_packet_example :
    (t : Locals) × (read_loop next_byte no_wait params 5 120 (start_locals (replicate 8 0)) stream
      ≡ some (pos 2, t, []))
    × (take 3 t.buff ≡ (66 ∷ 67 ∷ []) ++ (0 ∷ []))
read_loop_packet_example =
    read_loop_packet next_byte no_wait params 120 (omega arith) (omega arith) (65 ∷ [])
      (66 ∷ 67 ∷ []) (replicate 8 0) 1 13 5 stream [] stream-Delivers (λ e. omega arith)
      noise-AllNoise refl body-AllContent refl (λ e. omega arith) (omega arith) (omega arith)
      (omega arith)

read_loop_bounds_example :
    ReadOk params 12
      (omega arith)
      next_byte
      no_wait
      120
      (start_locals (replicate 20 0))
      (read_loop next_byte no_wait params 5 120 (start_locals (replicate 20 0)) stream)
read_loop_bounds_example =
    read_loop_bounds params 12 (omega arith) next_byte no_wait 120 5 (start_locals (replicate 20 0))
      stream (omega arith)
