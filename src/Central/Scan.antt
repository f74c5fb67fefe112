-- ===== src/Central/Scan.antt =====
-- src/main.c, from the scan to the mainloop: scan_result, cmd_lescan, le_connection,
-- l2cap_le_att_connect, sig_handler, parse_given_address and the rounds of main.
-- What the kernel and BlueZ return are arguments; `Os` holds those of one round.
pub mod Failures
use slate.Base.{
  ℕ, zero, suc, ◌+◌, ◌-◌, Bool, true, false, not, ◌||◌, ◌&&◌, Option, none, some, List, [], ◌∷◌,
  ltb, ◌==◌, if◌then◌else◌, get_or, take, drop, blit, length, ℤ, pos, negsuc, is_neg,
}
use slate.Adv.{Parsed, value, fault, check_report_filter, eir_parse_name, Name, slate_research}
use slate.Central.{
  ConStep, not_started, scanning, slate_found, socket_open, connected, sps_discovering,
  all_service_discovery_complete, wait_mldp_data, file_transfer,
}
use Prim.Native.String.{String}

-- The globals that the main thread uses, and the local `fd` of main.
pub record Machine : Type 0 where
  pub ble_con_step : ConStep
  pub end_of_state_machine : Bool
  pub signal_received : Bool  -- whether it is SIGINT
  pub fd : ℤ

-- A call returns, waits for a read that has not come, exits, reads past a buffer, or crashes.
pub data Ran (A : Type 0) : Type 0 where
  returned : A → Ran A
  blocked faulted crashed : Ran A
  exited : ℕ → Ran A

-- What a read of the HCI socket gives; `sigint` is -1 with EINTR after sig_handler ran.
pub data Read : Type 0 where
  bytes : List ℕ → Read
  sigint eintr eagain failed : Read

abbrev pub is_scanning : ConStep → Bool
is_scanning scanning = true
is_scanning _ = false

-- sig_handler on SIGINT: outside the scan le_deconnection dereferences its NULL `argv`, once the
-- device is open.  `dd` is what hci_open_dev returns there.
unfoldable pub sig_handler : ℤ → Machine → Ran Machine
sig_handler dd m =
    if is_scanning m.ble_con_step
    then returned (record m { signal_received = true; end_of_state_machine = true })
    else if is_neg dd
    then exited 1
    else crashed

-- `*out_success` and what scan_result returns.
pub record Scanned : Type 0 where
  pub out_success : Bool
  pub err : ℤ
  pub machine : Machine

abbrev pub exit_success_int : ℤ
exit_success_int = pos 0

abbrev pub exit_failure_int : ℤ
exit_failure_int = pos 1

-- From `done:` on, with `len` negative or not.
abbrev pub scan_done : Bool → Machine → Ran Scanned
scan_done negative m = returned (record {
  out_success = false;
  err = if negative then exit_failure_int else exit_success_int;
  machine = m;
})

module _ (ba2str : List ℕ → String) (slate_addr : String) (filter_type : ℕ) where
  -- The test of the address, after the name was parsed; `rest` is the next round.
  abbrev pub research : List ℕ → Machine → Ran Scanned → Option (Parsed Name) → Ran Scanned
  research buf m rest none = blocked
  research buf m rest (some fault) = faulted
  research buf m rest (some (value n)) =
      if slate_research (some (ba2str (take 6 (drop 7 buf)))) slate_addr
      then returned (record { out_success = true; err = exit_success_int; machine = m })
      else rest

  abbrev pub filtered : List ℕ → Machine → Ran Scanned → Option (Parsed Bool) → Ran Scanned
  filtered buf m rest none = blocked
  filtered buf m rest (some fault) = faulted
  filtered buf m rest (some (value false)) = rest
  filtered buf m rest (some (value true)) =
      research buf m rest (eir_parse_name (drop 14 buf) (get_or buf 13 0) 29)

  -- The report in the buffer: subevent at 3, bdaddr at 7, length at 13, data from 14 on.
  abbrev pub report : List ℕ → ℕ → Machine → Ran Scanned → Ran Scanned
  report buf len m rest =
      if not (get_or buf 3 0 == 2)
      then scan_done (ltb len 3) m
      else filtered buf m rest (check_report_filter filter_type (drop 14 buf) (get_or buf 13 0))

  -- The loops over what the reads give; `buf` keeps the bytes of earlier reads.
  unfoldable pub scan_loop : List Read → List ℕ → Machine → Ran Scanned
  unfolding sig_handler
  scan_loop [] buf m = blocked
  scan_loop (bytes bs ∷ rs) buf m =
      let read = take (length buf) bs in
      let buf' = blit buf 0 read in
      let rest = scan_loop rs buf' m in report buf' (length read) m rest
  scan_loop (sigint ∷ rs) buf m = elim (sig_handler (pos 0) m) [
    | returned m' ↦
        let rest = scan_loop rs buf m' in if m'.signal_received then scan_done false m' else rest
    | blocked ↦ blocked
    | faulted ↦ faulted
    | crashed ↦ crashed
    | exited n ↦ exited n
  ]
  scan_loop (eintr ∷ rs) buf m =
      let rest = scan_loop rs buf m in if m.signal_received then scan_done false m else rest
  scan_loop (eagain ∷ rs) buf m = scan_loop rs buf m
  scan_loop (failed ∷ rs) buf m = scan_done true m

  -- getsockopt and setsockopt return the first two numbers.
  unfoldable pub scan_result : ℤ → ℤ → List ℕ → List Read → Machine → Ran Scanned
  unfolding scan_loop
  scan_result got put buf rs m =
      let failure =
        returned (record { out_success = false; err = exit_failure_int; machine = m }) in
      if is_neg got then failure else if is_neg put then failure else scan_loop rs buf m

-- The results of the calls that one round of main makes.
pub record Os : Type 0 where
  pub open_dev : ℤ  -- hci_open_dev
  pub set_scan_parameters : ℤ
  pub scan_enable : ℤ
  pub scan_disable : ℤ
  pub getsockopt : ℤ
  pub setsockopt : ℤ
  pub reads : List Read
  pub event_buf : List ℕ
  pub create_conn : ℤ  -- hci_le_create_conn
  pub str2ba : ℤ
  pub devba : ℤ  -- hci_devba
  pub socket : ℤ
  pub bind : ℤ
  pub security : ℤ  -- setsockopt of BT_SECURITY
  pub connect : ℤ
  pub central_created : Bool  -- gatt_central_create
  pub cond_init : ℤ
  pub mutex_init : ℤ

abbrev pub is_zero : ℤ → Bool
is_zero (pos n) = n == 0
is_zero (negsuc n) = false

-- What cmd_lescan does with the result of scan_result.
abbrev pub after_scan : Os → Ran Scanned → Ran Machine
after_scan os (returned s) =
    if is_neg s.err
    then exited 1
    else if is_neg os.scan_disable
    then exited 1
    else if s.out_success
    then returned (record s.machine { ble_con_step = slate_found })
    else returned s.machine
after_scan os blocked = blocked
after_scan os faulted = faulted
after_scan os crashed = crashed
after_scan os (exited n) = exited n

unfoldable pub cmd_lescan : (List ℕ → String) → String → Os → Machine → Ran Machine
cmd_lescan ba2str slate_addr os m =
    if is_neg os.open_dev || (is_neg os.set_scan_parameters || is_neg os.scan_enable)
    then exited 1
    else after_scan os
        (scan_result ba2str slate_addr 0 os.getsockopt os.setsockopt os.event_buf os.reads m)

unfoldable pub le_connection : Os → Machine → Ran Machine
le_connection os m =
    if is_neg os.open_dev || is_neg os.create_conn
    then exited 1
    else returned (record m { ble_con_step = connected })

unfoldable pub l2cap_le_att_connect : Os → ℤ
l2cap_le_att_connect os =
    if is_neg os.socket
    then exit_failure_int
    else if is_neg os.bind
    then exit_failure_int
    else if not (is_zero os.security)
    then exit_failure_int
    else if is_neg os.connect
    then negsuc 0
    else os.socket

-- How a round of main ends: with the next round, a break, the mainloop, or what a call did.
pub data Next : Type 0 where
  loops breaks runs_mainloop : Machine → Next
  stops : Ran Machine → Next

abbrev pub next_of : Ran Machine → Next
next_of (returned m) = loops m
next_of r = stops r

-- The step BLE_CONNECTED, from the call of l2cap_le_att_connect on.
abbrev pub open_socket : ℤ → Machine → Next
open_socket fd m =
    if is_neg fd
    then breaks (record m { fd = fd; ble_con_step = scanning })
    else loops (record m { fd = fd; ble_con_step = socket_open })

-- One round of the loop of main, `has_dev` being `dev_id != -1`.
unfoldable pub main_round : (List ℕ → String) → String → Bool → Os → Machine → Next
main_round ba2str slate_addr has_dev os m = elim (m.ble_con_step) [
  | scanning ↦ next_of (cmd_lescan ba2str slate_addr os m)
  | slate_found ↦ next_of (le_connection os m)
  | connected ↦
      if not (is_zero os.str2ba)
      then breaks m
      else if has_dev && is_neg os.devba
      then breaks m
      else open_socket (l2cap_le_att_connect os) m
  | socket_open ↦
      if not os.central_created
      then breaks (record m { ble_con_step = scanning })
      else if not (is_zero os.cond_init) || not (is_zero os.mutex_init)
      then breaks m
      else runs_mainloop m
  | _ ↦ loops m
]
