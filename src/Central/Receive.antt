-- ===== src/Central/Receive.antt =====
-- The MLDP data that the SLATE writes: the first one starts the file transfer, and the thread reads
-- all of them in order.
use mathlib.Core.Path.{subst}
use slate.Base.{
  ℕ, suc, ◌+◌, ◌≤◌, ◌≡◌, refl, sym, ap, ◌∙◌, true, none, some, List, [], ◌∷◌, ◌++◌, append-nil,
  append_assoc, arith, length, take, take_all,
}
use slate.Fifo.{Fifo, flush, write_from, get, mldp_rx_buff_size}
use slate.Fifo.Inv.{IsValid, flush-IsValid, get-IsValid, buff_size-get}
use slate.Fifo.Refine.{contents, capacity, get_refines, contents-empty}
use slate.Fifo.Bulk.{write_lem}
use slate.Fifo.Queue
use slate.Link.{Exit}
use slate.Central.{
  Central, Host, Done, returns, exits, wait_mldp_data, file_transfer, write_result, create_thread,
  reply, receive, start_file_transfer, fifos_flush, server_mldp_data_char_write_cb,
  ble_mldp_get_byte,
}

-- The rx FIFO of main.c: valid, and no larger than its static buffer.
pub record RxOk (p : Fifo) : Type 0 where
  pub valid : IsValid p
  pub small : capacity p ≤ mldp_rx_buff_size

-- All of a value that fits is appended.
write_all :
    (stray : ℕ) (p : Fifo) (v : List ℕ)
    → RxOk p
    → length (contents p) + length v ≤ capacity p
    → let p' = (write_from stray p (some v) (length v)).2 in
      RxOk p' × (contents p' ≡ contents p ++ v) × (capacity p' ≡ capacity p)
write_all stray p v ok room =
    let (n, app, valid, kept, s) = write_lem stray p v (length v) ok.valid ok.small (omega arith) in
    let all : (write_from stray p (some v) (length v)).1 ≡ length v = omega arith in
    (
      record { valid = valid; small = omega arith },
      app
          ∙ ap (λ l. contents p ++ l)
              (ap (λ k. take k v) all ∙ take_all (length v) v (omega arith)),
      ap suc kept,
    )

queue_got : (q : Queue.Queue) (x : ℕ) → (Queue.get q).1 ≡ some x → q ≡ x ∷ (Queue.get q).2
queue_got [] x e = absurd (ground arith)
queue_got (y ∷ q) x e = grind arith

queue_bare : (q : Queue.Queue) → (Queue.get q).1 ≡ none → (Queue.get q).2 ≡ q
queue_bare [] e = refl
queue_bare (y ∷ q) e = absurd (ground arith)

-- A byte that `fifo_get` gives is the first of the contents.
get-some :
    (stray : ℕ) (p : Fifo) (x : ℕ)
    → IsValid p
    → (get stray p).1 ≡ some x
    → contents p ≡ x ∷ contents (get stray p).2
get-some stray p x v e =
    let g = get_refines stray p v in
    queue_got (contents p) x (sym (ap (λ t. t.1) g) ∙ e) ∙ ap (λ t. x ∷ t.2) (sym g)

get-none :
    (stray : ℕ) (p : Fifo)
    → IsValid p
    → (get stray p).1 ≡ none
    → contents (get stray p).2 ≡ contents p
get-none stray p v e =
    let g = get_refines stray p v in
    ap (λ t. t.2) g ∙ queue_bare (contents p) (sym (ap (λ t. t.1) g) ∙ e)

pub get-RxOk : (stray : ℕ) (p : Fifo) → RxOk p → RxOk (get stray p).2
get-RxOk stray p ok =
    let same = buff_size-get stray p in
    record { valid = get-IsValid stray p ok.valid; small = omega arith }

module _ {ℓ} {B : Type ℓ} (h : Host B) (stray : ℕ) where
  -- The callback in the two steps in which it receives.
  pub running_cb :
      (c : Central B) (id : ℕ) (v : List ℕ)
      → c.ble_con_step ≡ file_transfer
      → server_mldp_data_char_write_cb h stray true id 0 (some v) (length v) c
        ≡ returns (
            reply id 0
              (record c { mldp_fifo_rx = (write_from stray c.mldp_fifo_rx (some v) (length v)).2 }))
  unfolding server_mldp_data_char_write_cb receive
  running_cb c id v e = rw e refl

  -- The first data in BLE_WAIT_MLDP_DATA, when the thread can be created and the data fits into the
  -- whole rx FIFO: the callback returns in BLE_FILE_TRANSFER, having created one thread and then
  -- replied without an error, and the rx FIFO holds exactly this data, whatever it held before.
  pub first_data_lem :
      (c : Central B) (id : ℕ) (v : List ℕ)
      → RxOk c.mldp_fifo_rx
      → c.ble_con_step ≡ wait_mldp_data
      → (h.pthread_create c.host).0 ≡ 0
      → length v ≤ capacity c.mldp_fifo_rx
      → (c' : Central B) × (server_mldp_data_char_write_cb h stray true id 0 (some v) (length v) c
          ≡ returns c')
        × (c'.ble_con_step ≡ file_transfer)
        × (c'.acts ≡ write_result id 0 ∷ create_thread ∷ c.acts)
        × RxOk c'.mldp_fifo_rx
        × (contents c'.mldp_fifo_rx ≡ v)
        × (capacity c'.mldp_fifo_rx ≡ capacity c.mldp_fifo_rx)
  unfolding server_mldp_data_char_write_cb receive start_file_transfer fifos_flush flush
  first_data_lem c id v ok step created room =
      let p = (flush c.mldp_fifo_rx).1 in
      let valid = flush-IsValid c.mldp_fifo_rx ok.valid in
      let bare : contents p ≡ [] = contents-empty p refl in
      let ok' : RxOk p = record { valid = valid; small = ok.small } in
      let none_yet : length (contents p) ≡ 0 = ap length bare in
      let (ok'', app, cap) = write_all stray p v ok' (omega arith) in
      let c1 = fifos_flush (record c { ble_con_step = file_transfer }) in
      let c2 = record c1 { host = (h.pthread_create c.host).1; acts = create_thread ∷ c.acts } in
      let p' = (write_from stray p (some v) (length v)).2 in
      (
        reply id 0 (record c2 { mldp_fifo_rx = p' }),
        rw step (rw created refl),
        refl,
        refl,
        ok'',
        app ∙ ap (λ l. l ++ v) bare,
        cap,
      )

  -- What can happen to a receiving central: the BlueZ thread runs the callback on data that fits, and
  -- the transfer thread asks for a byte, in any order.  The lists are what was received and read since
  -- `c0`.
  pub data Served (c0 : Central B) : Central B → List ℕ → List ℕ → Type ℓ where
    begin : Served c0 c0 [] []
    data_written :
        {c c' : Central B} {received read : List ℕ} (id : ℕ) (v : List ℕ)
        → Served c0 c received read
        → length (contents c.mldp_fifo_rx) + length v ≤ capacity c.mldp_fifo_rx
        → server_mldp_data_char_write_cb h stray true id 0 (some v) (length v) c ≡ returns c'
        → Served c0 c' (received ++ v) read
    byte_read :
        {c c' : Central B} {received read : List ℕ} (e : Exit) (x : ℕ)
        → Served c0 c received read
        → ble_mldp_get_byte stray c ≡ (e, some x, c')
        → Served c0 c' received (read ++ (x ∷ []))
    nothing_read :
        {c c' : Central B} {received read : List ℕ} (e : Exit)
        → Served c0 c received read
        → ble_mldp_get_byte stray c ≡ (e, none, c')
        → Served c0 c' received read

  record Receiving (before : List ℕ) (c : Central B) (received read : List ℕ) : Type ℓ where
    step : c.ble_con_step ≡ file_transfer
    ok : RxOk c.mldp_fifo_rx
    order : read ++ contents c.mldp_fifo_rx ≡ before ++ received

  unreturn : Central B → Done (Central B) → Central B
  unreturn c (returns c') = c'
  unreturn c (exits n) = c

  data_written-Receiving :
      {before : List ℕ} {c c' : Central B} {received read : List ℕ} (id : ℕ) (v : List ℕ)
      → Receiving before c received read
      → length (contents c.mldp_fifo_rx) + length v ≤ capacity c.mldp_fifo_rx
      → server_mldp_data_char_write_cb h stray true id 0 (some v) (length v) c ≡ returns c'
      → Receiving before c' (received ++ v) read
  unfolding unreturn
  data_written-Receiving {before} {c} {c'} {received} {read} id v r room e =
      let d : _ ≡ c' = ap (unreturn c) (sym (running_cb c id v r.step) ∙ e) in
      let (ok', app, cap) = write_all stray c.mldp_fifo_rx v r.ok room in
      subst (λ c'. Receiving before c' (received ++ v) read) d
        (record {
          step = r.step;
          ok = ok';
          order =
              ap (λ l. read ++ l) app
              ∙ sym (append_assoc read (contents c.mldp_fifo_rx) v)
              ∙ ap (λ l. l ++ v) r.order
              ∙ append_assoc before received v;
        })

  byte_read-Receiving :
      {before : List ℕ} {c c' : Central B} {received read : List ℕ} (e : Exit) (x : ℕ)
      → Receiving before c received read
      → ble_mldp_get_byte stray c ≡ (e, some x, c')
      → Receiving before c' received (read ++ (x ∷ []))
  unfolding ble_mldp_get_byte
  byte_read-Receiving {before} {c} {c'} {received} {read} e x r g =
      let rest = contents (get stray c.mldp_fifo_rx).2 in
      let byte = get-some stray c.mldp_fifo_rx x r.ok.valid (ap (λ t. t.1) g) in
      subst (λ c'. Receiving before c' received (read ++ (x ∷ []))) (ap (λ t. t.2) g)
        (record {
          step = r.step;
          ok = get-RxOk stray c.mldp_fifo_rx r.ok;
          order = append_assoc read (x ∷ []) rest ∙ ap (λ l. read ++ l) (sym byte) ∙ r.order;
        })

  nothing_read-Receiving :
      {before : List ℕ} {c c' : Central B} {received read : List ℕ} (e : Exit)
      → Receiving before c received read
      → ble_mldp_get_byte stray c ≡ (e, none, c')
      → Receiving before c' received read
  unfolding ble_mldp_get_byte
  nothing_read-Receiving {before} {c} {c'} {received} {read} e r g =
      let same = get-none stray c.mldp_fifo_rx r.ok.valid (ap (λ t. t.1) g) in
      subst (λ c'. Receiving before c' received read) (ap (λ t. t.2) g)
        (record {
          step = r.step;
          ok = get-RxOk stray c.mldp_fifo_rx r.ok;
          order = ap (λ l. read ++ l) same ∙ r.order;
        })

  Served-Receiving :
      {c0 c : Central B} {received read : List ℕ}
      → c0.ble_con_step ≡ file_transfer
      → RxOk c0.mldp_fifo_rx
      → Served c0 c received read
      → Receiving (contents c0.mldp_fifo_rx) c received read
  Served-Receiving {c0} f ok begin = record {
    step = f;
    ok = ok;
    order = sym (append-nil (contents c0.mldp_fifo_rx));
  }
  Served-Receiving f ok (data_written id v s room e) =
      data_written-Receiving id v (Served-Receiving f ok s) room e
  Served-Receiving f ok (byte_read e x s g) = byte_read-Receiving e x (Served-Receiving f ok s) g
  Served-Receiving f ok (nothing_read e s g) = nothing_read-Receiving e (Served-Receiving f ok s) g

  -- While a transfer runs, however the callback's writes and the thread's reads follow each other, as
  -- long as each write finds room: the bytes read and then those in the rx FIFO are the bytes that the
  -- FIFO held at first and then all that were received, each once and in order.
  pub served_in_order :
      (c0 c : Central B) (received read : List ℕ)
      → c0.ble_con_step ≡ file_transfer
      → RxOk c0.mldp_fifo_rx
      → Served c0 c received read
      → read ++ contents c.mldp_fifo_rx ≡ contents c0.mldp_fifo_rx ++ received
  served_in_order c0 c received read f ok s = (Served-Receiving f ok s).order
