-- ===== src/Central/Mainloop/Threads.antt =====
-- How the mainloop is left, and how many transfer threads its callbacks create.
use mathlib.Core.Path.{subst}
use slate.Base.{
  ℕ, suc, ◌+◌, ◌≤◌, ◌≡◌, refl, sym, ap, arith, Bool, true, false, Bool-cases, inl, inr, Option,
  List, [], ◌∷◌, ◌==◌, if◌then◌else◌,
}
use slate.Central.{
  ConStep, Act, create_thread, Central, Host, Done, returns, exits, scanning, is_wait_mldp_data,
  server_mldp_data_char_write_cb, receive, start_file_transfer, fifos_flush, reply,
  client_write_cb_misc_char, client_write_cb_authentication_char,
  client_write_cb_identification_char, att_disconnect_cb, retry_scan, write_misc_char,
  write_authentication_char, write_identification_char, write_char, write_ble_sps, file_transfer,
}
use slate.Central.Discovery.{Service, ready_cb}
use slate.Central.Handshake.{get_handle_from_uuid-acts}
use slate.Central.Mainloop.{
  Callback, ready, identification_written, authentication_written, misc_written, data_written,
  disconnected, callback, then_run, mainloop_run,
}
use Prim.Native.String.{String}

-- The threads that were created.
abbrev pub threads : List Act → ℕ
threads [] = 0
threads (create_thread ∷ as') = suc (threads as')
threads (_ ∷ as') = threads as'

-- A thread can be created by the next data.
abbrev pub waits : ConStep → ℕ
waits s = if is_wait_mldp_data s then 1 else 0

module _ {ℓ} {U : Type ℓ} where
  -- The confirmed writes of the misc characteristic.
  abbrev pub confirmed : List (Callback U) → ℕ
  confirmed [] = 0
  confirmed (misc_written true ∷ es) = suc (confirmed es)
  confirmed (_ ∷ es) = confirmed es

-- What a callback keeps, of the state before and the one after it.
record Kept {ℓ} {B : Type ℓ} (more : ℕ) (c c' : Central B) : Type 0 where
  stops : c'.quit ≡ true → c'.ble_con_step ≡ scanning
  bound : threads c'.acts + waits c'.ble_con_step ≤ threads c.acts + waits c.ble_con_step + more

-- A Done that returns keeps it.
abbrev Keeps {ℓ} : {B : Type ℓ} → ℕ → Central B → Done (Central B) → Type 0
Keeps more c (returns c') = Kept more c c'
Keeps more c (exits n) = Unit

module _ {ℓb} {B : Type ℓb} (h : Host B) (stray : ℕ) where
  reply-Kept : (id ecode : ℕ) (c c' : Central B) → Kept 0 c c' → Kept 0 c (reply id ecode c')
  reply-Kept id ecode c c' k = record { stops = k.stops; bound = k.bound }

  receive-Keeps :
      (id : ℕ) (value : Option (List ℕ)) (len : ℕ) (c : Central B) (d : Done (Central B))
      → Keeps 0 c d
      → Keeps 0 c (receive stray id value len d)
  unfolding receive
  receive-Keeps id value len c (returns c') k = record { stops = k.stops; bound = k.bound }
  receive-Keeps id value len c (exits n) k = tt

  running : (c : Central B) → c.quit ≡ false → Kept 0 c c
  running c q = record { stops = λ e. absurd (ground arith); bound = omega arith }

  start-Keeps :
      (c : Central B)
      → c.quit ≡ false
      → is_wait_mldp_data c.ble_con_step ≡ true
      → Keeps 0 c (start_file_transfer h (record c { ble_con_step = file_transfer }))
  unfolding start_file_transfer fifos_flush
  start-Keeps c q w = elim (Bool-cases ((h.pthread_create c.host).0 == 0)) [
    | inl ok ↦ rw ok (record { stops = λ e. absurd (ground arith); bound = ground arith })
    | inr bad ↦ rw bad tt
  ]

  data-Keeps :
      (attrib : Bool) (id offset : ℕ) (value : Option (List ℕ)) (len : ℕ) (c : Central B)
      → c.quit ≡ false
      → Keeps 0 c (server_mldp_data_char_write_cb h stray attrib id offset value len c)
  unfolding server_mldp_data_char_write_cb
  data-Keeps false id offset value len c q = running c q
  data-Keeps true id offset value len c q = elim (Bool-cases (offset == 0)) [
    | inr far ↦ rw far (reply-Kept id 7 c c (running c q))
    | inl near ↦
        let started = start_file_transfer h (record c { ble_con_step = file_transfer }) in
        let branch = λ (b : Bool).
          if b
          then receive stray id value len started
          else receive stray id value len (returns c) in
        rw near (elim (Bool-cases (is_wait_mldp_data c.ble_con_step)) [
          | inl w ↦
              subst (λ b. Keeps 0 c (branch b)) (sym w)
                (receive-Keeps id value len c started (start-Keeps c q w))
          | inr w ↦
              subst (λ b. Keeps 0 c (branch b)) (sym w)
                (receive-Keeps id value len c (returns c) (running c q))
        ])
  ]

  -- A write that another write follows.
  confirmed-Kept :
      (c : Central B) (handle : ℕ) (value : List ℕ)
      → c.quit ≡ false
      → Kept 0 c (write_char h c handle value).1
  unfolding write_char
  confirmed-Kept c handle value q = record {
    stops = λ e. absurd (ground arith);
    bound = omega arith;
  }

  retry-Kept : (c : Central B) → Kept 0 c (retry_scan c)
  unfolding retry_scan
  retry-Kept c = record { stops = λ e. refl; bound = omega arith }

  module _ {ℓ} {U : Type ℓ} (to_uuid : String → U) (cmp : U → U → ℕ) where
    ready-Kept :
        (success : Bool) (db : List (Service U)) (c : Central B)
        → c.quit ≡ false
        → Kept 0 c (ready_cb to_uuid cmp h success db c)
    unfolding ready_cb write_ble_sps write_identification_char write_char
    ready-Kept false db c q = running c q
    ready-Kept true db c q =
        let (acts, quit) = get_handle_from_uuid-acts to_uuid cmp db c in
        record {
          stops = λ e. absurd (ground arith);
          bound = let same = ap threads acts in omega arith;
        }

    callback-Keeps :
        (e : Callback U) (c : Central B)
        → c.quit ≡ false
        → Keeps (confirmed (e ∷ [])) c (callback to_uuid cmp h stray e c)
    unfolding callback client_write_cb_identification_char client_write_cb_authentication_char
        client_write_cb_misc_char write_authentication_char write_misc_char att_disconnect_cb
    callback-Keeps (ready success db) c q = ready-Kept success db c q
    callback-Keeps (identification_written true) c q = confirmed-Kept c _ _ q
    callback-Keeps (identification_written false) c q = retry-Kept c
    callback-Keeps (authentication_written true) c q = confirmed-Kept c _ _ q
    callback-Keeps (authentication_written false) c q = retry-Kept c
    callback-Keeps (misc_written true) c q = record {
      stops = λ e. absurd (ground arith);
      bound = omega arith;
    }
    callback-Keeps (misc_written false) c q = retry-Kept c
    callback-Keeps (data_written attrib id offset value len) c q =
        data-Keeps attrib id offset value len c q
    callback-Keeps disconnected c q = record { stops = λ e. refl; bound = omega arith }

    confirmed-cons :
        (e : Callback U) (es : List (Callback U))
        → confirmed (e ∷ es) ≡ confirmed (e ∷ []) + confirmed es
    confirmed-cons (ready success db) es = omega arith
    confirmed-cons (identification_written success) es = omega arith
    confirmed-cons (authentication_written success) es = omega arith
    confirmed-cons (misc_written true) es = omega arith
    confirmed-cons (misc_written false) es = omega arith
    confirmed-cons (data_written attrib id offset value len) es = omega arith
    confirmed-cons disconnected es = omega arith

    Kept-trans :
        (m n : ℕ) (c c1 : Central B) (d : Done (Central B))
        → Kept m c c1
        → Keeps n c1 d
        → Keeps (m + n) c d
    Kept-trans m n c c1 (returns c') k l = record {
      stops = l.stops;
      bound = let a = k.bound in let b = l.bound in omega arith;
    }
    Kept-trans m n c c1 (exits e) k l = tt

    abbrev run : List (Callback U) → Central B → Done (Central B)
    run es c = mainloop_run to_uuid cmp h stray es c

    -- After mainloop_quit no callback is made.
    run-quit : (es : List (Callback U)) (c : Central B) → c.quit ≡ true → run es c ≡ returns c
    unfolding mainloop_run
    run-quit [] c q = refl
    run-quit (e ∷ es) c q =
        ap
          (λ b.
            if b
            then returns c
            else then_run to_uuid cmp h stray (run es) (callback to_uuid cmp h stray e c))
          q

    then_run-Keeps :
        (m : ℕ) (es : List (Callback U)) (c : Central B) (d : Done (Central B))
        → ((c1 : Central B) → c1.quit ≡ false → Keeps (confirmed es) c1 (run es c1))
        → Keeps m c d
        → Keeps (m + confirmed es) c (then_run to_uuid cmp h stray (run es) d)
    then_run-Keeps m es c (exits n) ih k = tt
    then_run-Keeps m es c (returns c1) ih k = elim (Bool-cases c1.quit) [
      | inl stopped ↦
          let bound = k.bound in
          subst (Keeps (m + confirmed es) c) (sym (run-quit es c1 stopped))
            (record { stops = k.stops; bound = omega arith })
      | inr on ↦ Kept-trans m (confirmed es) c c1 (run es c1) k (ih c1 on)
    ]

    run-Keeps :
        (es : List (Callback U)) (c : Central B)
        → c.quit ≡ false
        → Keeps (confirmed es) c (run es c)
    unfolding mainloop_run
    run-Keeps [] c q = running c q
    run-Keeps (e ∷ es) c q =
        let next = then_run to_uuid cmp h stray (run es) in
        let d = callback to_uuid cmp h stray e c in
        let on : next d ≡ run (e ∷ es) c = ap (λ b. if b then returns c else next d) (sym q) in
        subst (Keeps (confirmed (e ∷ es)) c) on (
          subst (λ n. Keeps n c (next d)) (sym (confirmed-cons e es))
            (then_run-Keeps (confirmed (e ∷ [])) es c d (run-Keeps es) (callback-Keeps e c q)))

    -- Whatever callbacks BlueZ makes, when the mainloop is left by mainloop_quit, the step is the scan; and
    -- they create at most one transfer thread for each confirmed write of the misc characteristic, and
    -- one more if MLDP data was waited for at the start.
    pub mainloop_lem :
        (es : List (Callback U)) (c c' : Central B)
        → c.quit ≡ false
        → mainloop_run to_uuid cmp h stray es c ≡ returns c'
        → (c'.quit ≡ true → c'.ble_con_step ≡ scanning)
          × (threads c'.acts ≤ threads c.acts + waits c.ble_con_step + confirmed es)
    mainloop_lem es c c' q e =
        let k = subst (Keeps (confirmed es) c) e (run-Keeps es c q) in
        (k.stops, let bound = k.bound in omega arith)
