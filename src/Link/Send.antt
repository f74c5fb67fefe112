-- ===== src/Link/Send.antt =====
-- What tx_fifo_send_bytes does in all, with a BlueZ that may refuse packets.
use slate.Base.{
  ℕ, zero, suc, ◌<◌, ◌≡◌, refl, ap, List, [], ◌∷◌, ◌++◌, arith, length, Option, inl, inr, ◌⊎◌, some,
}
use slate.Fifo.{Fifo, fifo_length}
use slate.Fifo.Inv.{IsValid, fifo_length-valid}
use slate.Fifo.Refine.{contents, length-contents}
use slate.Link.{
  Exit, exit_success, Packet, Tx, Round, stop, again, tx_round, tx_loop, tx_fifo_send_bytes,
  tx_fuel,
}
use slate.Link.Inv.{
  sent, Refusals, AllSmall, AllTaken, AlwaysTakes, Sound, Inv, Final, measure, RoundOk,
}
use slate.Link.Inv.Rounds.{tx_round-RoundOk}

module _ {ℓ} {B : Type ℓ} (write_without_response : B → ℕ → List ℕ → ℕ × B) (handle stray : ℕ) where
  -- The loop returns, and ends well.
  record Ends (q : List ℕ) (r : Option (Exit × Tx B)) : Type ℓ where
    out : Tx B
    returns : r ≡ some (exit_success, out)
    sound : Sound write_without_response handle stray out
    final : Final write_without_response handle stray q out

  after_round :
      (q : List ℕ) (fuel m : ℕ) (r : Round B)
      → ((s : Tx B)
          → Inv write_without_response handle stray q s
          → measure write_without_response handle stray s < fuel
          → Ends q (tx_loop write_without_response handle stray fuel s))
      → m < suc fuel
      → RoundOk write_without_response handle stray q m r
      → Ends q (elim r [
        | stop e s' ↦ some (e, s')
        | again s' ↦ tx_loop write_without_response handle stray fuel s'
      ])
  after_round q fuel m (stop e s) ih h (k, sound, final) = record {
    out = s;
    returns = ap (λ x. some (x, s)) k;
    sound = sound;
    final = final;
  }
  after_round q fuel m (again s) ih h (inv, less) = ih s inv (omega arith)

  tx_loop-Ends :
      (q : List ℕ) (fuel : ℕ) (s : Tx B)
      → Inv write_without_response handle stray q s
      → measure write_without_response handle stray s < fuel
      → Ends q (tx_loop write_without_response handle stray fuel s)
  unfolding tx_loop
  tx_loop-Ends q zero s h m = absurd (omega arith)
  tx_loop-Ends q (suc fuel) s h m =
      after_round q fuel (measure write_without_response handle stray s)
        (tx_round write_without_response handle stray s) (tx_loop-Ends q fuel) m
        (tx_round-RoundOk write_without_response handle stray q s h)

  start-Ends :
      (array : List ℕ) (p : Fifo) (b : B)
      → IsValid p
      → length array ≡ 20
      → Ends (contents p) (tx_fifo_send_bytes write_without_response handle stray array p b)
  unfolding tx_fifo_send_bytes
  start-Ends array p b v a =
      tx_loop-Ends (contents p) (tx_fuel write_without_response handle stray (fifo_length p)) _
        (inl (record {
          sound = record { valid = v; array = a; small = tt; taken = λ _. tt };
          tries = refl;
          count = omega (arith, fifo_length-valid p v, length-contents p v);
          bytes = refl;
        }))
        (omega arith)

  -- On a valid tx FIFO, whatever BlueZ answers, tx_fifo_send_bytes returns EXIT_SUCCESS. Each packet
  -- has from 1 to 20 bytes. The packets that BlueZ took carry the bytes of the FIFO in order: all of
  -- them, and the FIFO is empty, or all up to one packet that was refused four times in a row and
  -- is dropped, with the bytes behind it left in the FIFO.
  pub tx_fifo_send_bytes_lem :
      (array : List ℕ) (p : Fifo) (b : B)
      → IsValid p
      → length array ≡ 20
      → (out : Tx B) × (tx_fifo_send_bytes write_without_response handle stray array p b
          ≡ some (exit_success, out))
        × IsValid out.fifo_tx
        × AllSmall out.calls
        × ((contents out.fifo_tx ≡ []) × (sent out.calls ≡ contents p)
            ⊎ ((lost : List ℕ) × Refusals 4 lost out.calls
                × (sent out.calls ++ (lost ++ contents out.fifo_tx) ≡ contents p)))
  tx_fifo_send_bytes_lem array p b v a =
      let e = start-Ends array p b v a in
      (e.out, e.returns, e.sound.valid, e.sound.small, final_cases e.final)
    where
      final_cases :
          {s : Tx B}
          → Final write_without_response handle stray (contents p) s
          → (contents s.fifo_tx ≡ []) × (sent s.calls ≡ contents p)
            ⊎ ((lost : List ℕ) × Refusals 4 lost s.calls
                × (sent s.calls ++ (lost ++ contents s.fifo_tx) ≡ contents p))
      final_cases (Final.all_sent x y) = inl (x, y)
      final_cases (Final.gave_up l x y) = inr (l, x, y)

  not-Refusals : (r : ℕ) (v : List ℕ) (cs : List Packet) → AllTaken cs → ¬ Refusals (suc r) v cs
  not-Refusals r v [] t h = h
  not-Refusals r v (c ∷ cs) t h = t.0 h.0

  -- If BlueZ refuses nothing, the whole contents of the tx FIFO go out in order in packets of 1 to
  -- 20 bytes, and the FIFO is empty.
  pub all_bytes_sent :
      (array : List ℕ) (p : Fifo) (b : B)
      → IsValid p
      → length array ≡ 20
      → AlwaysTakes write_without_response handle stray
      → (out : Tx B) × (tx_fifo_send_bytes write_without_response handle stray array p b
          ≡ some (exit_success, out))
        × (sent out.calls ≡ contents p)
        × (contents out.fifo_tx ≡ [])
        × AllSmall out.calls
        × AllTaken out.calls
  all_bytes_sent array p b v a always =
      let e = start-Ends array p b v a in
      let taken = e.sound.taken always in
      let (done, all) = no_loss e.out.calls taken e.final in
      (e.out, e.returns, all, done, e.sound.small, taken)
    where
      no_loss :
          {s : Tx B} (cs : List Packet)
          → AllTaken s.calls
          → Final write_without_response handle stray (contents p) s
          → (contents s.fifo_tx ≡ []) × (sent s.calls ≡ contents p)
      no_loss {s} cs t (Final.all_sent x y) = (x, y)
      no_loss {s} cs t (Final.gave_up l x y) = absurd (not-Refusals 3 l s.calls t x)
