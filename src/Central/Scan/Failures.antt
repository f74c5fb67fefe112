-- ===== src/Central/Scan/Failures.antt =====
-- Which failures the main thread notices, and what an interrupt does.
use mathlib.Core.Path.{subst}
use slate.Base.{
  ◌⊎◌, ℕ, arith, Bool, true, false, not, ◌&&◌, if◌then◌else◌, ◌==◌, ◌≡◌, refl, Bool-cases, inl, inr,
  Option, none, some, List, [], ◌∷◌, take, drop, length, blit, get_or, ltb, ℤ, pos, negsuc, is_neg,
}
use slate.Adv.{Parsed, value, fault, check_report_filter, eir_parse_name, Name, slate_research}
use slate.Central.{scanning, connected, socket_open}
use slate.Central.Scan.{
  Machine, Ran, returned, blocked, faulted, crashed, exited, Read, bytes, sigint, eintr, eagain,
  failed, is_scanning, sig_handler, Scanned, scan_loop, scan_result, Os, l2cap_le_att_connect,
  is_zero, loops, breaks, main_round, research, filtered, report, scan_done, open_socket,
}
use Prim.Native.String.{String}

-- The descriptor is negative only when connect() failed.
open_socket-l2cap :
    (os : Os) (m : Machine)
    → open_socket (l2cap_le_att_connect os) m ≡ (
        if not (is_neg os.socket)
          && (not (is_neg os.bind) && (is_zero os.security && is_neg os.connect))
        then breaks (record m { fd = negsuc 0; ble_con_step = scanning })
        else loops (record m { fd = l2cap_le_att_connect os; ble_con_step = socket_open }))
unfolding l2cap_le_att_connect
open_socket-l2cap os m = ground arith

-- In the step BLE_CONNECTED with a valid address and adapter, main breaks if and only if all the calls
-- before connect() succeed, with a socket that is not negative, and connect() itself fails.
pub connect_break_lem :
    (ba2str : List ℕ → String) (slate_addr : String) (has_dev : Bool) (os : Os) (m : Machine)
    → m.ble_con_step ≡ connected
    → is_zero os.str2ba ≡ true
    → is_neg os.devba ≡ false
    → main_round ba2str slate_addr has_dev os m ≡ (
        if not (is_neg os.socket)
          && (not (is_neg os.bind) && (is_zero os.security && is_neg os.connect))
        then breaks (record m { fd = negsuc 0; ble_con_step = scanning })
        else loops (record m { fd = l2cap_le_att_connect os; ble_con_step = socket_open }))
unfolding main_round l2cap_le_att_connect
connect_break_lem ba2str slate_addr true os m step addr dev =
    rw step (rw addr (rw dev (open_socket-l2cap os m)))
connect_break_lem ba2str slate_addr false os m step addr dev =
    rw step (rw addr (open_socket-l2cap os m))

module _ (ba2str : List ℕ → String) (slate_addr : String) (filter_type : ℕ) where
  -- An advertising report in the buffer has the SLATE's address.
  abbrev pub IsSlate : List ℕ → Type 0
  IsSlate buf =
      (get_or buf 3 0 ≡ 2)
      × (slate_research (some (ba2str (take 6 (drop 7 buf)))) slate_addr ≡ true)

  -- One of the reads leaves such a report in the buffer, which keeps the bytes of earlier reads.
  abbrev pub Seen : List Read → List ℕ → Type 0
  Seen [] buf = ⊥
  Seen (bytes bs ∷ rs) buf =
      let buf' = blit buf 0 (take (length buf) bs) in IsSlate buf' ⊎ Seen rs buf'
  Seen (sigint ∷ rs) buf = Seen rs buf
  Seen (eintr ∷ rs) buf = Seen rs buf
  Seen (eagain ∷ rs) buf = Seen rs buf
  Seen (failed ∷ rs) buf = Seen rs buf

  -- What is promised of a scan that returns.
  abbrev pub Good : Type 0 → Ran Scanned → Type 0
  Good P (returned s) = (is_neg s.err ≡ false) × (s.out_success ≡ true → P)
  Good P _ = Unit

  Good-mono : (P Q : Type 0) (r : Ran Scanned) → (P → Q) → Good P r → Good Q r
  Good-mono P Q (returned s) f (n, g) = (n, λ e. f (g e))
  Good-mono P Q blocked f g = tt
  Good-mono P Q faulted f g = tt
  Good-mono P Q crashed f g = tt
  Good-mono P Q (exited n) f g = tt

  scan_done-Good : (P : Type 0) (negative : Bool) (m : Machine) → Good P (scan_done negative m)
  scan_done-Good P true m = (refl, λ e. absurd (ground (arith, e)))
  scan_done-Good P false m = (refl, λ e. absurd (ground (arith, e)))

  module _ (P : Type 0) (buf : List ℕ) (m : Machine) (rest : Ran Scanned)
      (advertised : (get_or buf 3 0 == 2) ≡ true) (seen : IsSlate buf → P) (g : Good P rest) where
    research-Good :
        (n : Option (Parsed Name)) → Good P (research ba2str slate_addr filter_type buf m rest n)
    research-Good none = tt
    research-Good (some fault) = tt
    research-Good (some (value n)) =
        elim (Bool-cases (slate_research (some (ba2str (take 6 (drop 7 buf)))) slate_addr)) [
          | inl e ↦ rw e (refl, λ _. seen (ground arith, e))
          | inr e ↦ rw e g
        ]

    filtered-Good :
        (b : Option (Parsed Bool)) → Good P (filtered ba2str slate_addr filter_type buf m rest b)
    filtered-Good none = tt
    filtered-Good (some fault) = tt
    filtered-Good (some (value false)) = g
    filtered-Good (some (value true)) =
        research-Good (eir_parse_name (drop 14 buf) (get_or buf 13 0) 29)

  report-Good :
      (P : Type 0) (buf : List ℕ) (len : ℕ) (m : Machine) (rest : Ran Scanned)
      → (IsSlate buf → P)
      → Good P rest
      → Good P (report ba2str slate_addr filter_type buf len m rest)
  report-Good P buf len m rest seen g = elim (Bool-cases (get_or buf 3 0 == 2)) [
    | inl e ↦
        let checked = check_report_filter filter_type (drop 14 buf) (get_or buf 13 0) in
        rw e (filtered-Good P buf m rest e seen g checked)
    | inr e ↦ rw e (scan_done-Good P (ltb len 3) m)
  ]

  unless_signal :
      (P : Type 0) (b : Bool) (m : Machine) (rest : Ran Scanned)
      → Good P rest
      → Good P (if b then scan_done false m else rest)
  unless_signal P true m rest g = scan_done-Good P false m
  unless_signal P false m rest g = g

  scan_loop-Good :
      (rs : List Read) (buf : List ℕ) (m : Machine)
      → Good (Seen rs buf) (scan_loop ba2str slate_addr filter_type rs buf m)
  unfolding scan_loop sig_handler
  scan_loop-Good [] buf m = tt
  scan_loop-Good (bytes bs ∷ rs) buf m =
      let read = take (length buf) bs in
      let buf' = blit buf 0 read in
      let rest = scan_loop ba2str slate_addr filter_type rs buf' m in
      report-Good (IsSlate buf' ⊎ Seen rs buf') buf' (length read) m rest (λ e. inl e)
        (Good-mono (Seen rs buf') (IsSlate buf' ⊎ Seen rs buf') rest (λ e. inr e)
          (scan_loop-Good rs buf' m))
  scan_loop-Good (sigint ∷ rs) buf m = elim (Bool-cases (is_scanning m.ble_con_step)) [
    | inl e ↦
        let m' = record m { signal_received = true; end_of_state_machine = true } in
        let handled : sig_handler (pos 0) m ≡ returned m' = rw (e, sig_handler) refl in
        rw (handled, scan_loop, Good) (scan_done-Good (Seen rs buf) false m')
    | inr e ↦
        let handled : sig_handler (pos 0) m ≡ crashed = rw (e, sig_handler) refl in
        rw (handled, scan_loop, Good) tt
  ]
  scan_loop-Good (eintr ∷ rs) buf m =
      unless_signal (Seen rs buf) m.signal_received m
        (scan_loop ba2str slate_addr filter_type rs buf m) (scan_loop-Good rs buf m)
  scan_loop-Good (eagain ∷ rs) buf m = scan_loop-Good rs buf m
  scan_loop-Good (failed ∷ rs) buf m = scan_done-Good (Seen rs buf) true m

  scan_result-Good :
      (got put : ℤ) (buf : List ℕ) (rs : List Read) (m : Machine)
      → Good (Seen rs buf) (scan_result ba2str slate_addr filter_type got put buf rs m)
  unfolding scan_result
  scan_result-Good got put buf rs m = elim (Bool-cases (is_neg got)) [
    | inl e ↦ rw e (scan_done-Good (Seen rs buf) true m)
    | inr e ↦ elim (Bool-cases (is_neg put)) [
      | inl f ↦ rw (e, f) (scan_done-Good (Seen rs buf) true m)
      | inr f ↦ rw (e, f) (scan_loop-Good rs buf m)
    ]
  ]

  -- Whatever the kernel gives, when scan_result returns, it does not return a negative number, its
  -- failures included, and it reports success only if one of the reads left a LE advertising report in the
  -- buffer whose six bytes from index 7 on are the SLATE's address.
  pub scan_result_lem :
      (got put : ℤ) (buf : List ℕ) (rs : List Read) (m : Machine) (s : Scanned)
      → scan_result ba2str slate_addr filter_type got put buf rs m ≡ returned s
      → (is_neg s.err ≡ false) × (s.out_success ≡ true → Seen rs buf)
  scan_result_lem got put buf rs m s e =
      subst (Good (Seen rs buf)) e (scan_result-Good got put buf rs m)
