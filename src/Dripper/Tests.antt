-- ===== src/Dripper/Tests.antt =====
-- A dripper of 100 units in portions of 10, and two drips of it, an hour apart.
use tribe.Base.{◌+◌, ◌*◌, ◌≤◌, ◌<◌, ◌≡◌, refl, false, ok, ◌==◌, if◌then◌else◌, arith, checked_sub}
use tribe.Evm.{Moved}
use tribe.Evm.Ledger.{ledger, move, moved, Balances}
use tribe.Dripper.{
  Dripper, Funds, constructor, drip, erc20_drip, is_time_ended, remaining_time, time_since_start,
  is_time_started, withdraw_erc20,
}
use tribe.Dripper.Pace.{Drips, here, drips, others, drip-eq-ok, drip_succeeds, Drips-pace}

abbrev dripper : Dripper
dripper = record {
  target = 5;
  token = 7;
  amount_to_drip = 10;
  start_time = 1000;
  duration = 3600;
  paused = false;
}

constructed : constructor 5 3600 10 7 1000 ≡ ok dripper
unfolding constructor
constructed = refl

abbrev full : Balances
full = λ t h. if h == 99 then 100 else 0

abbrev at_first : Funds ledger
at_first = record { dripper = dripper; world = full }

abbrev dripped : Funds ledger
dripped = record { dripper = record dripper { start_time = 4600 }; world = moved 7 99 5 10 full }

first_drip : drip ledger 99 4600 at_first ≡ ok dripped
unfolding drip erc20_drip is_time_ended remaining_time time_since_start is_time_started
    withdraw_erc20 move checked_sub
first_drip = refl

-- The target has passed its tokens on.
abbrev spent : Funds ledger
spent = record dripped { world = full }

abbrev dripped_again : Funds ledger
dripped_again = record {
  dripper = record dripper { start_time = 8200 };
  world = moved 7 99 5 10 full;
}

second_drip : drip ledger 99 8200 spent ≡ ok dripped_again
unfolding drip erc20_drip is_time_ended remaining_time time_since_start is_time_started
    withdraw_erc20 move checked_sub
second_drip = refl

drip-eq-ok_example :
    (at_first.dripper.paused ≡ false)
    × (1000 + 3600 ≤ 4600)
    × (dripped.dripper ≡ record at_first.dripper { start_time = 4600 })
    × Moved full dripped.world 7 99 5 10
    × (dripped.world 7 5 < 2 * 10)
drip-eq-ok_example =
    drip-eq-ok ledger 99 4600 at_first dripped (ground arith) (ground arith) first_drip

drip_succeeds_example : (t : Funds ledger) × (drip ledger 99 4600 at_first ≡ ok t)
drip_succeeds_example =
    drip_succeeds ledger 99 4600 at_first refl (ground arith) (ground arith) (ground arith)
      (ground arith) (ground arith)

two-Drips : Drips ledger 99 at_first 2 dripped_again
two-Drips = drips (others (drips here 4600 first_drip) full) 8200 second_drip

Drips-pace_example : (dripped_again.dripper.duration ≡ 3600) × (1000 + 2 * 3600 ≤ 8200)
Drips-pace_example = Drips-pace ledger 99 two-Drips (ground arith)
