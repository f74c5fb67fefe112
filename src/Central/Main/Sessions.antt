-- ===== src/Central/Main/Sessions.antt =====
-- The main thread serves one connection after the other.
use slate.Base.{
  Bool-cases, ℕ-cases, inl, inr, ℕ, ◌*◌, ◌≡◌, refl, sym, ap, ◌∙◌, arith, Bool, true, false, List,
  [], ◌∷◌, ◌==◌, some, blit, take, drop, length, get_or, is_neg,
}
use slate.Adv.{value, check_report_filter, eir_parse_name, Name}
use slate.Central.{ConStep, scanning, slate_found, connected, socket_open}
use slate.Central.Scan.{
  Machine, returned, Read, bytes, scan_result, scan_loop, cmd_lescan, le_connection,
  l2cap_le_att_connect, Os, is_zero, loops, runs_mainloop, main_round, Next, next_of, open_socket,
  after_scan, exit_success_int,
}
use slate.Central.Scan.Failures.{IsSlate}
use slate.Central.Main.{Ends, running, counted, after_round, unless_over, main_loop, main}
use Prim.Native.String.{String}

module _ (ba2str : List ℕ → String) (slate_addr : String) (has_dev : Bool) where
  -- What event_buf holds after the first read.
  abbrev pub read_buf : Os → List ℕ → List ℕ
  read_buf os event = blit os.event_buf 0 (take (length os.event_buf) event)

  -- A round in which every call succeeds, and the first event that the scan reads is an advertising
  -- report of the SLATE that can be parsed.
  pub record Works (os : Os) : Type 0 where
    pub opens : is_neg os.open_dev ≡ false
    pub parameters : is_neg os.set_scan_parameters ≡ false
    pub enables : is_neg os.scan_enable ≡ false
    pub disables : is_neg os.scan_disable ≡ false
    pub gets : is_neg os.getsockopt ≡ false
    pub sets : is_neg os.setsockopt ≡ false
    pub event : List ℕ
    pub later : List Read
    pub reads : os.reads ≡ bytes event ∷ later
    pub subevent : (get_or (read_buf os event) 3 0 == 2) ≡ true
    pub name : Name
    pub parsed :
        eir_parse_name (drop 14 (read_buf os event)) (get_or (read_buf os event) 13 0) 29
        ≡ some (value name)
    pub slate : IsSlate ba2str slate_addr 0 (read_buf os event)
    pub creates : is_neg os.create_conn ≡ false
    pub address : is_zero os.str2ba ≡ true
    pub adapter : is_neg os.devba ≡ false
    pub socket : is_neg os.socket ≡ false
    pub binds : is_neg os.bind ≡ false
    pub secures : is_zero os.security ≡ true
    pub connects : is_neg os.connect ≡ false
    pub central : os.central_created ≡ true
    pub condition : is_zero os.cond_init ≡ true
    pub mutex : is_zero os.mutex_init ≡ true

  abbrev pub AllWork : List Os → Type 0
  AllWork [] = Unit
  AllWork (os ∷ rest) = Works os × AllWork rest

  scan-Works :
      (os : Os) (m : Machine)
      → Works os
      → scan_result ba2str slate_addr 0 os.getsockopt os.setsockopt os.event_buf os.reads m
        ≡ returned (record { out_success = true; err = exit_success_int; machine = m })
  unfolding scan_result check_report_filter
  scan-Works os m w =
      let first = scan_loop ba2str slate_addr 0 (bytes w.event ∷ w.later) os.event_buf m in
      let read : first
          ≡ returned (record { out_success = true; err = exit_success_int; machine = m }) =
        rw w.subevent (rw w.parsed (rw w.slate.1 refl)) in
      rw w.gets
        (rw w.sets (ap (λ rs. scan_loop ba2str slate_addr 0 rs os.event_buf m) w.reads ∙ read))

  cmd_lescan-Works :
      (os : Os) (m : Machine)
      → Works os
      → cmd_lescan ba2str slate_addr os m ≡ returned (record m { ble_con_step = slate_found })
  unfolding cmd_lescan
  cmd_lescan-Works os m w =
      rw w.opens (
        rw w.parameters
          (rw w.enables (ap (after_scan os) (scan-Works os m w) ∙ rw w.disables refl)))

  le_connection-Works :
      (os : Os) (m : Machine)
      → Works os
      → le_connection os m ≡ returned (record m { ble_con_step = connected })
  unfolding le_connection
  le_connection-Works os m w = rw w.opens (rw w.creates refl)

  l2cap-Works : (os : Os) → Works os → l2cap_le_att_connect os ≡ os.socket
  unfolding l2cap_le_att_connect
  l2cap-Works os w = rw w.socket (rw w.binds (rw w.secures (rw w.connects refl)))

  abbrev in_step : ConStep → Machine → Machine
  in_step step m = record m { ble_con_step = step }

  round-scanning :
      (os : Os) (m : Machine)
      → Works os
      → main_round ba2str slate_addr has_dev os (in_step scanning m) ≡ loops (in_step slate_found m)
  unfolding main_round
  round-scanning os m w = ap next_of (cmd_lescan-Works os (in_step scanning m) w)

  round-slate_found :
      (os : Os) (m : Machine)
      → Works os
      → main_round ba2str slate_addr has_dev os (in_step slate_found m)
        ≡ loops (in_step connected m)
  unfolding main_round
  round-slate_found os m w = ap next_of (le_connection-Works os (in_step slate_found m) w)

  open_socket-Works :
      (os : Os) (m : Machine)
      → Works os
      → open_socket (l2cap_le_att_connect os) m
        ≡ loops (record m { fd = os.socket; ble_con_step = socket_open })
  open_socket-Works os m w = ap (λ fd. open_socket fd m) (l2cap-Works os w) ∙ rw w.socket refl

  round-connected :
      (os : Os) (m : Machine)
      → Works os
      → main_round ba2str slate_addr has_dev os (in_step connected m)
        ≡ loops (record m { fd = os.socket; ble_con_step = socket_open })
  unfolding main_round
  round-connected os m w = elim (Bool-cases has_dev) [
    | inl e ↦ rw w.address (rw e (rw w.adapter (open_socket-Works os (in_step connected m) w)))
    | inr e ↦ rw w.address (rw e (open_socket-Works os (in_step connected m) w))
  ]

  round-socket_open :
      (os : Os) (m : Machine)
      → Works os
      → main_round ba2str slate_addr has_dev os (in_step socket_open m)
        ≡ runs_mainloop (in_step socket_open m)
  unfolding main_round
  round-socket_open os m w = rw w.central (rw w.condition (rw w.mutex refl))

  module _ (mainloop : Machine → Machine) where
    abbrev loop : List Os → Machine → ℕ × Ends
    loop os m = main_loop mainloop ba2str slate_addr has_dev os m

    loop-round :
        (os : Os) (rest : List Os) (m : Machine) (next : Next)
        → m.end_of_state_machine ≡ false
        → main_round ba2str slate_addr has_dev os m ≡ next
        → loop (os ∷ rest) m ≡ after_round mainloop ba2str slate_addr has_dev (loop rest) next
    unfolding main_loop
    loop-round os rest m next on e =
        let after = after_round mainloop ba2str slate_addr has_dev (loop rest) in
        ap
          (unless_over mainloop ba2str slate_addr has_dev m
            (after (main_round ba2str slate_addr has_dev os m)))
          on
        ∙ ap after e

    -- Four rounds from the scan on run the mainloop once.
    four_rounds :
        (a b c d : Os) (rest : List Os) (m : Machine)
        → Works a × Works b × Works c × Works d
        → m.end_of_state_machine ≡ false
        → let m' = record m { fd = c.socket; ble_con_step = socket_open } in
          loop (a ∷ b ∷ c ∷ d ∷ rest) (in_step scanning m) ≡ counted (loop rest (mainloop m'))
    four_rounds a b c d rest m (wa, wb, wc, wd) on =
        loop-round a (b ∷ c ∷ d ∷ rest) (in_step scanning m) _ on (round-scanning a m wa)
        ∙ loop-round b (c ∷ d ∷ rest) (in_step slate_found m) _ on (round-slate_found b m wb)
        ∙ loop-round c (d ∷ rest) (in_step connected m) _ on (round-connected c m wc)
        ∙ loop-round d rest (record m { fd = c.socket; ble_con_step = socket_open }) _ on
            (round-socket_open d (record m { fd = c.socket }) wd)

    -- The mainloop is left for the scan, and not by an interrupt.
    abbrev pub ScansAgain : Type 0
    ScansAgain =
        (m : Machine)
        → m.end_of_state_machine ≡ false
        → ((mainloop m).ble_con_step ≡ scanning) × ((mainloop m).end_of_state_machine ≡ false)

    loop-sessions :
        (n : ℕ) (os : List Os) (m : Machine)
        → ScansAgain
        → AllWork os
        → length os ≡ n * 4
        → m.ble_con_step ≡ scanning
        → m.end_of_state_machine ≡ false
        → (m' : Machine) × (loop os m ≡ (n, running m')) × (m'.ble_con_step ≡ scanning)
    unfolding main_loop
    loop-sessions n (a ∷ b ∷ c ∷ d ∷ os) m again (wa, (wb, (wc, (wd, w)))) l step on =
        elim (ℕ-cases n) [
          | inl e ↦ absurd (omega arith)
          | inr (k, e) ↦
              let m3 = record m { fd = c.socket; ble_con_step = socket_open } in
              let (step', on') = again m3 on in
              let (m', rest, scans) =
                loop-sessions k os (mainloop m3) again w (omega arith) step' on' in
              let same : m ≡ in_step scanning m = ap (λ s. in_step s m) step in
              (
                m',
                ap (loop (a ∷ b ∷ c ∷ d ∷ os)) same
                    ∙ four_rounds a b c d os m (wa, wb, wc, wd) on
                    ∙ ap counted rest
                    ∙ ap (λ n. (n, running m')) (sym e),
                scans,
              )
        ]
    loop-sessions n [] m again w l step on =
        let none : 0 ≡ n = omega arith in
        (
          m,
          ap (unless_over mainloop ba2str slate_addr has_dev m (0, running m)) on
              ∙ ap (λ n. (n, running m)) none,
          step,
        )
    loop-sessions n (a ∷ []) m again w l step on = absurd (omega arith)
    loop-sessions n (a ∷ b ∷ []) m again w l step on = absurd (omega arith)
    loop-sessions n (a ∷ b ∷ c ∷ []) m again w l step on = absurd (omega arith)

    -- When the address is accepted, every call of the rounds succeeds and each scan sees the SLATE, and
    -- the callbacks leave the mainloop for the scan and without an interrupt: then main comes into the
    -- mainloop once in every four rounds, for as many rounds as there are, and is scanning again
    -- afterwards.
    pub sessions :
        (n : ℕ) (os : List Os) (m : Machine)
        → ScansAgain
        → AllWork os
        → length os ≡ n * 4
        → m.end_of_state_machine ≡ false
        → (m' : Machine) × (main mainloop ba2str slate_addr has_dev true true os m
            ≡ (n, running m'))
          × (m'.ble_con_step ≡ scanning)
    unfolding main
    sessions n os m again w l on = loop-sessions n os (in_step scanning m) again w l refl on
