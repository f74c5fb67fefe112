-- ===== src/Wire/Receive.antt =====
-- A packet that is in the rx FIFO is what kreadpkt reads.
use slate.Base.{
  ℕ, suc, ◌+◌, ◌*◌, ◌^◌, ◌≤◌, ◌<◌, ◌≡◌, ◌≢◌, refl, sym, ap, ◌∙◌, true, Option, some, List, [], ◌∷◌,
  ◌++◌, append-nil, arith, length, take, pos,
}
use slate.Fifo.{Fifo, get}
use slate.Fifo
use slate.Fifo.Refine.{contents, capacity, get_refines}
use slate.Fifo.Queue
use slate.Central.{
  Central, Host, returns, wait_mldp_data, ble_mldp_get_byte, server_mldp_data_char_write_cb,
}
use slate.Central.Receive.{RxOk, get-RxOk, first_data_lem}
use slate.UnixIo.Packet.{Params, Locals, final_char, kreadpkt}
use slate.UnixIo.Packet.Frame.{Delivers, first, read_loop_packet}
use slate.UnixIo.Packet.Frame.Deal.{AllNoise, AllContent}
use slate.Wire.{got, handlers}

module _ (k : Params) (noise body : List ℕ) (start end : ℕ) where
  -- Noise without a start byte and no C in front, the start of a packet, a body without start and
  -- end bytes, and the end.
  pub record IsPacket : Type 0 where
    pub no_cmd : first noise start ≢ b'C'
    pub noisy : AllNoise k noise
    pub starts : final_char k start ≡ k.r_soh
    pub plain : AllContent k body
    pub ends : final_char k end ≡ k.r_eom
    pub apart : k.r_eom ≢ k.r_soh
    pub short : length body ≤ k.r_maxlen + 1

-- The time limit of kreadpkt is positive and an int32_t.
abbrev pub HasTime : Params → Type 0
HasTime k = (0 < k.r_timo) × (k.r_timo * 1200 < 2 ^ 31)

abbrev pub frame : List ℕ → List ℕ → ℕ → ℕ → List ℕ
frame noise body start end = noise ++ (start ∷ (body ++ (end ∷ [])))

module _ {ℓ} {B : Type ℓ} (h : Host B) (stray : ℕ) (wait : Central B → ℕ → Central B) where
  abbrev get_byte : Central B → ℕ × Option ℕ × Central B
  get_byte c = got (ble_mldp_get_byte stray c)

  -- Nothing is received while the thread waits.
  abbrev pub WaitKeeps : Type ℓ
  WaitKeeps = (c : Central B) (ms : ℕ) → (wait c ms).mldp_fifo_rx ≡ c.mldp_fifo_rx

  -- With a byte in the rx FIFO, the handler gives it.
  get_byte-cons :
      (c : Central B) (x : ℕ) (xs : List ℕ)
      → RxOk c.mldp_fifo_rx
      → contents c.mldp_fifo_rx ≡ x ∷ xs
      → ((get_byte c).0 ≡ 0)
        × ((get_byte c).1 ≡ some x)
        × ((get_byte c).2.mldp_fifo_rx ≡ (get stray c.mldp_fifo_rx).2)
        × (contents (get stray c.mldp_fifo_rx).2 ≡ xs)
  unfolding ble_mldp_get_byte
  get_byte-cons c x xs ok e =
      let g = get_refines stray c.mldp_fifo_rx ok.valid ∙ ap Queue.get e in
      let s : (get stray c.mldp_fifo_rx).0 ≡ Fifo.success = ap (λ t. t.0) g in
      (rw s refl, ap (λ t. t.1) g, refl, ap (λ t. t.2) g)

  -- The bytes at the front of the rx FIFO come one after the other.
  fifo-Delivers :
      (k : Params) (bytes rest : List ℕ) (c : Central B)
      → WaitKeeps
      → 0 < k.r_timo
      → RxOk c.mldp_fifo_rx
      → contents c.mldp_fifo_rx ≡ bytes ++ rest
      → (c' : Central B) × Delivers get_byte wait k bytes c c'
        × RxOk c'.mldp_fifo_rx
        × (contents c'.mldp_fifo_rx ≡ rest)
  fifo-Delivers k [] rest c keeps t ok e = (c, refl, ok, e)
  fifo-Delivers k (x ∷ xs) rest c keeps t ok e =
      let (code, byte, rx, left) = get_byte-cons c x (xs ++ rest) ok e in
      let c1 = wait (get_byte c).2 10 in
      let rx1 : c1.mldp_fifo_rx ≡ (get stray c.mldp_fifo_rx).2 = keeps (get_byte c).2 10 ∙ rx in
      let ok1 : RxOk c1.mldp_fifo_rx = rw rx1 (get-RxOk stray c.mldp_fifo_rx ok) in
      let (c', d, ok', e') = fifo-Delivers k xs rest c1 keeps t ok1 (ap contents rx1 ∙ left) in
      (c', (0, c1, omega arith, (code, byte, refl), d), ok', e')

  module _ (k : Params) (noise body : List ℕ) (start end : ℕ) where
    abbrev packet : List ℕ
    packet = frame noise body start end

    -- With a packet, noise that does not begin with a C before it, at the front of the rx FIFO, and
    -- nothing received while the thread waits, kreadpkt returns the number of bytes of
    -- its body, puts the body with a NUL into the buffer, and leaves in the FIFO what is behind the
    -- packet.
    pub packet_read :
        (rest buff : List ℕ) (fuel patience : ℕ) (c : Central B)
        → WaitKeeps
        → HasTime k
        → IsPacket k noise body start end
        → RxOk c.mldp_fifo_rx
        → contents c.mldp_fifo_rx ≡ packet ++ rest
        → length body < length buff
        → length noise + length body + 1 < fuel
        → k.r_timo * 120 ≤ patience
        → (t : Locals) × (c' : Central B) × (kreadpkt (handlers h stray wait) k fuel patience buff c
            ≡ some (pos (length body), t, c'))
          × (take (suc (length body)) t.buff ≡ body ++ (0 ∷ []))
          × RxOk c'.mldp_fifo_rx
          × (contents c'.mldp_fifo_rx ≡ rest)
    unfolding kreadpkt handlers
    packet_read rest buff fuel patience c keeps (soon, late) p ok e room more enough =
        let (c', d, ok', e') = fifo-Delivers k packet rest c keeps soon ok e in
        let (t, run, copy) =
          read_loop_packet get_byte wait k patience late enough noise body buff start end fuel c c'
            d p.no_cmd p.noisy p.starts p.plain p.ends p.apart p.short room more in
        (t, c', run, copy, ok', e')

    -- The first data that the SLATE writes is a packet, noise that does not begin with a C before it, and
    -- nothing is received while the thread waits: then the callback starts the thread and returns, and the thread's first kreadpkt returns the number of bytes of the body,
    -- with the body and a NUL in the buffer, and leaves the rx FIFO empty.
    pub first_packet_read :
        (id : ℕ) (buff : List ℕ) (fuel patience : ℕ) (c : Central B)
        → WaitKeeps
        → HasTime k
        → IsPacket k noise body start end
        → RxOk c.mldp_fifo_rx
        → c.ble_con_step ≡ wait_mldp_data
        → (h.pthread_create c.host).0 ≡ 0
        → length packet ≤ capacity c.mldp_fifo_rx
        → length body < length buff
        → length noise + length body + 1 < fuel
        → k.r_timo * 120 ≤ patience
        → (c1 : Central B) × (t : Locals) × (c2 : Central B) × (server_mldp_data_char_write_cb h
              stray true id 0
              (some packet)
              (length packet)
              c
            ≡ returns c1)
          × (kreadpkt (handlers h stray wait) k fuel patience buff c1
              ≡ some (pos (length body), t, c2))
          × (take (suc (length body)) t.buff ≡ body ++ (0 ∷ []))
          × (contents c2.mldp_fifo_rx ≡ [])
    first_packet_read id buff fuel patience c keeps time p ok step created fits room more enough =
        let (c1, run, _, _, ok1, held, _) =
          first_data_lem h stray c id packet ok step created fits in
        let (t, c2, read, copy, _, left) =
          packet_read [] buff fuel patience c1 keeps time p ok1 (held ∙ sym (append-nil packet))
            room more enough in
        (c1, t, c2, run, read, copy, left)
