-- ===== src/Tests/Workers.antt =====
-- The system of threads, at concrete inputs: an id that is claimed and released, and one that is
-- claimed and queued.
use reading_lite_next.Prelude.{◌≤◌, ◌≡◌, refl, none, [], ◌++◌, arith}
use reading_lite_next.Dict
use reading_lite_next.Dispatch.{Item}
use reading_lite_next.Dispatcher.{active, claim, release as release_claim}
use reading_lite_next.Dispatcher.Workers.{
  System, taken, move, release, Steps, claims, moves, here, next, started,
}
use reading_lite_next.Dispatcher.Workers.Accounting.{is_present, absent_id-free}
use reading_lite_next.Dispatcher.Workers.Copies.{all_copies}
use reading_lite_next.Dispatcher.Workers.Exclusive.{IsUnwrapped, owner-alone}
use reading_lite_next.Tests.Data.{one_row, config}

abbrev fresh : Item
fresh = record { id = "n1"; attempt = 0; token = 0 }

abbrev taken_item : Item
taken_item = record fresh { token = 1 }

abbrev begin_state : System
begin_state = started one_row 20

abbrev after_claim : System
after_claim = record {
  world = record begin_state.world { dispatcher = (claim fresh begin_state.world.dispatcher).1 };
  held = taken (claim fresh begin_state.world.dispatcher).0 [];
}

abbrev after_release : System
after_release = record {
  world = (move config release taken_item after_claim.world).0;
  held = (move config release taken_item after_claim.world).1 ++ [];
}

abbrev claiming : Steps config begin_state after_claim
claiming = next here (claims fresh)

absent_id-free_example : Dict.get "n1" after_release.world.dispatcher.inflight ≡ none
unfolding is_present claim release_claim move taken Dict.get Dict.lookup Dict.put Dict.empty
    Dict.remove active
absent_id-free_example =
    absent_id-free one_row 20 after_release "n1"
      (next claiming (moves release [] [] taken_item refl)) refl

owner-alone_example : all_copies taken_item after_claim ≤ 1
unfolding IsUnwrapped claim active Dict.get Dict.lookup Dict.put Dict.empty
owner-alone_example = owner-alone one_row 20 after_claim claiming (tt, ground arith) taken_item refl
