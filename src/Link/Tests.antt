-- ===== src/Link/Tests.antt =====
-- Runs of tx_fifo_send_bytes on a FIFO of two bytes, with a BlueZ that counts its calls.
use slate.Base.{ℕ, suc, ◌≡◌, ◌⊎◌, refl, arith, List, [], ◌∷◌, ◌++◌, some, replicate}
use slate.Fifo.{Fifo}
use slate.Fifo.Inv.{IsValid}
use slate.Fifo.Refine.{contents}
use slate.Link.{exit_success, Tx, tx_fifo_send_bytes}
use slate.Link.Inv.{sent, Refusals, AllSmall, AllTaken, AlwaysTakes}
use slate.Link.Send.{tx_fifo_send_bytes_lem, all_bytes_sent}

abbrev two_bytes : Fifo
two_bytes = record { p_buff = 7 ∷ 8 ∷ 0 ∷ 0 ∷ []; buff_size = 3; read_pos = 0; write_pos = 2 }

two_bytes-IsValid : IsValid two_bytes
two_bytes-IsValid = record { sized = refl; small = omega arith; front = refl; filled = omega arith }

-- It takes every packet, with the ids 1, 2 and so on.
abbrev taking : ℕ → ℕ → List ℕ → ℕ × ℕ
taking b handle value = (suc b, suc b)

-- It takes none.
abbrev refusing : ℕ → ℕ → List ℕ → ℕ × ℕ
refusing b handle value = (0, suc b)

taking-AlwaysTakes : AlwaysTakes taking 5 1
taking-AlwaysTakes b v e = omega arith

all_bytes_sent_example :
    (out : Tx ℕ) × (tx_fifo_send_bytes taking 5 1 (replicate 20 0) two_bytes 0
      ≡ some (exit_success, out))
    × (sent out.calls ≡ 7 ∷ 8 ∷ [])
    × (contents out.fifo_tx ≡ [])
    × AllSmall out.calls
    × AllTaken out.calls
all_bytes_sent_example =
    all_bytes_sent taking 5 1 (replicate 20 0) two_bytes 0 two_bytes-IsValid refl taking-AlwaysTakes

tx_fifo_send_bytes_lem_example :
    (out : Tx ℕ) × (tx_fifo_send_bytes refusing 5 1 (replicate 20 0) two_bytes 0
      ≡ some (exit_success, out))
    × IsValid out.fifo_tx
    × AllSmall out.calls
    × ((contents out.fifo_tx ≡ []) × (sent out.calls ≡ 7 ∷ 8 ∷ [])
        ⊎ ((lost : List ℕ) × Refusals 4 lost out.calls
            × (sent out.calls ++ (lost ++ contents out.fifo_tx) ≡ 7 ∷ 8 ∷ [])))
tx_fifo_send_bytes_lem_example =
    tx_fifo_send_bytes_lem refusing 5 1 (replicate 20 0) two_bytes 0 two_bytes-IsValid refl
