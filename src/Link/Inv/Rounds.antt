-- ===== src/Link/Inv/Rounds.antt =====
-- Each round of tx_fifo_send_bytes keeps the invariant, or ends as it should.
use mathlib.Core.Path.{subst, ap₂}
use slate.Base.{
  ℕ, suc, ◌+◌, ◌-◌, min, ◌<◌, ◌≡◌, inl, inr, refl, sym, ap, ◌∙◌, true, false, Bool-cases, List, [],
  ◌∷◌, ◌++◌, append-nil, append_assoc, arith, leb, ◌==◌, length, take, length-take, length-drop,
  length-zero, take-append-drop, drop, ==_refl, Option, some,
}
use slate.Fifo.{Fifo, read_into, mldp_rx_buff_size}
use slate.Fifo
use slate.Fifo.Inv.{IsValid}
use slate.Fifo.Refine.{contents}
use slate.Fifo.Bulk.{read_lem}
use slate.Link.{exit_success, Tx, stop, transmit, fetched, tx_round}
use slate.Link.Inv.{
  all_sent, gave_up, sent, Refusals, Sound, packet, Held, Fresh, Inv, measure, RoundOk,
}

module _ {ℓ} {B : Type ℓ} (write : B → ℕ → List ℕ → ℕ × B) (handle stray : ℕ) where
  length-packet :
      (s : Tx B)
      → Sound write handle stray s
      → length (packet write handle stray s) ≡ min s.nb_readable_bytes 20
  length-packet s v = omega (arith, length-take (min s.nb_readable_bytes 20) s.data_array, v.array)

  module _ (q : List ℕ) (s : Tx B) (pos : 0 < s.nb_readable_bytes)
      (h : Held write handle stray q s) where
    abbrev answer : ℕ × B
    answer = write s.bluez handle (packet write handle stray s)

    abbrev called : Tx B
    called = record s {
      bluez = answer.1;
      calls = record { value = packet write handle stray s; id = answer.0 } ∷ s.calls;
    }

    called-Sound : Sound write handle stray called
    called-Sound = record {
      valid = h.sound.valid;
      array = h.sound.array;
      small = (
        omega (arith, length-packet s h.sound),
        omega (arith, length-packet s h.sound),
        h.sound.small,
      );
      taken = λ a. (a s.bluez (packet write handle stray s), h.sound.taken a);
    }

    sent-refused : answer.0 ≡ 0 → sent called.calls ≡ sent s.calls
    sent-refused e = rw e (append-nil (sent s.calls))

    sent-taken :
        (answer.0 == 0) ≡ false → sent called.calls ≡ sent s.calls ++ packet write handle stray s
    sent-taken e = rw e

    refused_four :
        answer.0 ≡ 0
        → leb 3 s.repeat_on_error_count ≡ true
        → Refusals 4 (packet write handle stray s) called.calls
    refused_four e l =
        let k : s.repeat_on_error_count ≡ 3 = ground (arith, h.tries) in
        (e, refl, subst (λ r. Refusals r (packet write handle stray s) s.calls) k h.refused)

    refused-Inv :
        answer.0 ≡ 0
        → leb 3 s.repeat_on_error_count ≡ false
        → Inv write handle stray q
            (record called { repeat_on_error_count = s.repeat_on_error_count + 1 })
    refused-Inv e l = inr (
      omega arith,
      pos,
      record {
        sound = record {
          valid = called-Sound.valid;
          array = called-Sound.array;
          small = called-Sound.small;
          taken = called-Sound.taken;
        };
        tries = ground arith;
        refused =
            subst (λ r. Refusals r (packet write handle stray s) called.calls)
              (let k : suc s.repeat_on_error_count ≡ s.repeat_on_error_count + 1 = omega arith in k)
              (e, refl, h.refused);
        count = h.count;
        bytes =
            ap (λ l. l ++ (packet write handle stray s ++ contents s.fifo_tx)) (sent-refused e)
            ∙ h.bytes;
      },
    )

    after-taken : Tx B
    after-taken = record called {
      repeat_on_error_count = 0;
      nb_readable_bytes = s.nb_readable_bytes - min s.nb_readable_bytes 20;
    }

    taken-Fresh : (answer.0 == 0) ≡ false → Fresh write handle stray q after-taken
    unfolding after-taken
    taken-Fresh e = record {
      sound = record {
        valid = called-Sound.valid;
        array = called-Sound.array;
        small = called-Sound.small;
        taken = called-Sound.taken;
      };
      tries = refl;
      count = omega (arith, h.count);
      bytes =
          ap (λ l. l ++ contents s.fifo_tx) (sent-taken e)
          ∙ append_assoc (sent s.calls) (packet write handle stray s) (contents s.fifo_tx)
          ∙ h.bytes;
    }

    refused_last :
        answer.0 ≡ 0
        → leb 3 s.repeat_on_error_count ≡ true
        → RoundOk write handle stray q (measure write handle stray s) (stop exit_success called)
    refused_last e l = (
      refl,
      called-Sound,
      gave_up (packet write handle stray s) (refused_four e l) (
          ap (λ l. l ++ (packet write handle stray s ++ contents s.fifo_tx)) (sent-refused e)
          ∙ h.bytes),
    )

    -- A round from the call of BlueZ on.
    transmit-RoundOk :
        RoundOk write handle stray q
          (measure write handle stray s)
          (transmit write handle stray s (min s.nb_readable_bytes 20))
    unfolding transmit after-taken
    transmit-RoundOk = elim (Bool-cases (answer.0 == 0)) [
      | inl e ↦
          let z : answer.0 ≡ 0 = ground arith in
          elim (Bool-cases (leb 3 s.repeat_on_error_count)) [
            | inl l ↦ rw (e, l) (refused_last z l)
            | inr l ↦ rw (e, l) (refused-Inv z l, ground arith)
          ]
      | inr e ↦ rw e (inl (taken-Fresh e), omega arith)
    ]

  module _ (q : List ℕ) (s : Tx B) (h : Fresh write handle stray q s) where
    abbrev asked : ℕ
    asked = min s.nb_readable_bytes 20

    abbrev reading : Fifo.Status × Option (List ℕ) × ℕ × Fifo
    reading = read_into stray s.fifo_tx (some s.data_array) asked

    -- The packet has been read into the array.
    module _ (bytes : List ℕ) where
      abbrev loaded : Tx B
      loaded = record s { data_array = bytes; fifo_tx = reading.3 }

      loaded-Held :
          take asked bytes ≡ take asked (contents s.fifo_tx)
          → length bytes ≡ 20
          → contents reading.3 ≡ drop asked (contents s.fifo_tx)
          → IsValid reading.3
          → Held write handle stray q loaded
      loaded-Held front long rest valid = record {
        sound = record {
          valid = valid;
          array = long;
          small = h.sound.small;
          taken = h.sound.taken;
        };
        tries = omega (arith, h.tries);
        refused =
            subst (λ r. Refusals r (packet write handle stray loaded) s.calls) (sym h.tries) tt;
        count =
            omega (arith, h.count, ap (length {0}) rest, length-drop asked (contents s.fifo_tx));
        bytes =
            ap₂ (λ a b. sent s.calls ++ (a ++ b)) front rest
            ∙ ap (λ l. sent s.calls ++ l) (take-append-drop asked (contents s.fifo_tx))
            ∙ h.bytes;
      }

      loaded-transmit :
          reading ≡ (Fifo.success, some bytes, asked, reading.3)
          → fetched write handle stray s asked reading ≡ transmit write handle stray loaded asked
      unfolding fetched
      loaded-transmit e = rw e (rw (==_refl asked))

    fetched-RoundOk :
        0 < s.nb_readable_bytes
        → RoundOk write handle stray q
            (measure write handle stray s)
            (fetched write handle stray s asked reading)
    fetched-RoundOk pos =
        let (ok, n, (bytes, out, front, long), rest, valid, _) =
          read_lem stray s.fifo_tx s.data_array asked h.sound.valid (omega arith)
            (omega (arith, h.sound.array)) in
        let whole : reading.2 ≡ asked = omega (arith, h.count) in
        let front' : take asked bytes ≡ take asked (contents s.fifo_tx) =
          subst (λ m. take m bytes ≡ take m (contents s.fifo_tx)) whole front in
        let held =
          loaded-Held bytes front' (long ∙ h.sound.array)
            (rest ∙ ap (λ m. drop m (contents s.fifo_tx)) whole) valid in
        rw (loaded-transmit bytes (λ i. (ok i, out i, whole i, reading.3)))
          (transmit-RoundOk q (loaded bytes) pos held)

  -- A round that starts well ends well or goes on well, with a smaller measure.
  pub tx_round-RoundOk :
      (q : List ℕ) (s : Tx B)
      → Inv write handle stray q s
      → RoundOk write handle stray q (measure write handle stray s) (tx_round write handle stray s)
  unfolding tx_round
  tx_round-RoundOk q s (inl h) = elim (Bool-cases (s.nb_readable_bytes == 0)) [
    | inl e ↦
        let none_left : contents s.fifo_tx ≡ [] =
          length-zero (contents s.fifo_tx) (ground (arith, h.count)) in
        rw e (
          refl,
          h.sound,
          all_sent none_left (
              sym (append-nil (sent s.calls))
              ∙ ap (λ l. sent s.calls ++ l) (sym none_left)
              ∙ h.bytes),
        )
    | inr e ↦
        let k : (s.repeat_on_error_count == 0) ≡ true = ground (arith, h.tries) in
        rw (e, k) (fetched-RoundOk q s h (ground arith))
  ]
  tx_round-RoundOk q s (inr (r, pos, h)) =
      let e : (s.nb_readable_bytes == 0) ≡ false = ground arith in
      let k : (s.repeat_on_error_count == 0) ≡ false = ground arith in
      rw (e, k) (transmit-RoundOk q s pos h)
