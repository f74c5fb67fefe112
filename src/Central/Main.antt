-- ===== src/Central/Main.antt =====
-- src/main.c, main: the test of the address and the while loop, with the mainloop as a parameter.
pub mod Sessions
pub mod Callbacks
pub mod Address
mod Tests
use slate.Base.{
  ℕ, zero, suc, Bool, true, false, not, ◌||◌, List, [], ◌∷◌, if◌then◌else◌, ℤ, pos, negsuc,
}
use slate.Central.{scanning}
use slate.Central.Scan.{
  Machine, Ran, exited, Os, Next, loops, breaks, runs_mainloop, stops, is_zero, main_round,
}
use Prim.Native.String.{String}

-- regcomp returns 0 or not, regexec matches or not; the result is 0 or -1.
unfoldable pub parse_given_address : Bool → Bool → Machine → ℤ × Machine
parse_given_address false matches m = (negsuc 0, m)
parse_given_address true true m = (pos 0, record m { ble_con_step = scanning })
parse_given_address true false m = (negsuc 0, m)

-- The loop is over, or was left by a break, or a call did not come back, or no more rounds are given.
pub data Ends : Type 0 where
  over broke running : Machine → Ends
  stopped : Ran Machine → Ends

-- One more run of the mainloop.
abbrev pub counted : ℕ × Ends → ℕ × Ends
counted (n, e) = (suc n, e)

-- `mainloop` is what the callbacks leave when mainloop_run returns.
module _ (mainloop : Machine → Machine) (ba2str : List ℕ → String) (slate_addr : String)
    (has_dev : Bool) where
  -- The loop after a round, `rest` being the rounds to come.
  abbrev pub after_round : (Machine → ℕ × Ends) → Next → ℕ × Ends
  after_round rest (loops m) = rest m
  after_round rest (breaks m) = (0, broke m)
  after_round rest (runs_mainloop m) = counted (rest (mainloop m))
  after_round rest (stops r) = (0, stopped r)

  -- The test of the while loop.
  abbrev pub unless_over : Machine → ℕ × Ends → Bool → ℕ × Ends
  unless_over m round true = (0, over m)
  unless_over m round false = round

  -- The rounds that `os` gives the results for: how often the mainloop ran, and how it ends.
  unfoldable pub main_loop : List Os → Machine → ℕ × Ends
  unfolding main_round
  main_loop [] m = unless_over m (0, running m) m.end_of_state_machine
  main_loop (os ∷ rest) m =
      unless_over m (after_round (main_loop rest) (main_round ba2str slate_addr has_dev os m))
        m.end_of_state_machine

  abbrev pub given : List Os → ℤ × Machine → ℕ × Ends
  given os (err, m) = if not (is_zero err) then (0, stopped (exited 1)) else main_loop os m

  unfoldable pub main : Bool → Bool → List Os → Machine → ℕ × Ends
  unfolding main_loop parse_given_address
  main compiles matches os m = given os (parse_given_address compiles matches m)
