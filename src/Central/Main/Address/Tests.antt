-- ===== src/Central/Main/Address/Tests.antt =====
-- An address that is none.
use slate.Base.{ℕ, ◌≡◌, inl, refl, arith, true, false, List, replicate, pos}
use mathlib.Core.Logic.{◌↔◌}
use slate.Central.Main.Address.{str_regex, Accepted, parse_given_address-Accepted, is_hex_or_colon}
use slate.Central.{not_started}
use slate.Central.Scan.{Machine}
use slate.Central.Main.{parse_given_address}
use slate.Central.Main.Address.Search.{all_of, all_of-AllOf, search_all, search_all-IsRegexec}

-- Twenty colons are no address, and are accepted.
abbrev colons : List ℕ
colons = replicate 20 b':'

abbrev machine : Machine
machine = record {
  ble_con_step = not_started;
  end_of_state_machine = false;
  signal_received = false;
  fd = pos 0;
}

parse_given_address-Accepted_example :
    ((parse_given_address true (search_all str_regex colons) machine).0 ≡ pos 0) ↔ Accepted colons
parse_given_address-Accepted_example =
    parse_given_address-Accepted search_all search_all-IsRegexec colons machine

seventeen : all_of is_hex_or_colon (replicate 17 b':') ≡ true
unfolding all_of
seventeen = refl

colons-Accepted : Accepted colons
colons-Accepted = inl (omega arith, all_of-AllOf is_hex_or_colon (replicate 17 b':') seventeen)
