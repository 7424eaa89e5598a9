-- ===== src/Dispatcher/Workers/Exclusive.antt =====
-- internal/dispatch/dispatcher.go: the single-owner guard. At most one item of the system owns an id.
use reading_lite_next.Prelude.{
  ◌+◌, ◌≤◌, ◌<◌, true, none, List, ◌∷◌, ◌++◌, ◌≡◌, ◌||◌, refl, arith, ==_iff, eq_iff, Option-cases,
  inl, inr,
}
use reading_lite_next.Dict
use reading_lite_next.Dict.{get-put, get-empty}
use reading_lite_next.Dispatch.{Item}
use reading_lite_next.Store.Memory.{Memory}
use reading_lite_next.Reading.{Time}
use reading_lite_next.Dispatcher.{
  Dispatcher, Config, token_mod, next_token_of, active, claim, force_claim,
}
use reading_lite_next.Dispatcher.Handle.{Timer}
use reading_lite_next.Dispatcher.Workers.{
  System, Move, move, taken, Step, claims, forces, receives, moves, fires, ends, stores, ticks,
  Steps, here, next, started,
}
use reading_lite_next.Dispatcher.Workers.Found.{matches, force-active, force-ch}
use reading_lite_next.Dispatcher.Workers.Copies.{
  copies, timed_copies, lodged_copies, all_copies, copies-append, timed_copies-append, move-Keeps,
}

-- An owner is alone, and a token that was not yet given out is on no item.
record IsExclusive (s : System) : Type 0 where
  single : (x : Item) → active x s.world.dispatcher ≡ true → all_copies x s ≤ 1
  fresh : (x : Item) → s.world.dispatcher.next_token < x.token → all_copies x s ≡ 0

module _ (it : Item) (d : Dispatcher) (room : d.next_token + 1 < token_mod) where
  force-counter : (force_claim it d).1.next_token ≡ d.next_token + 1
  unfolding force_claim
  force-counter = ground (arith, room)

  force-token : (force_claim it d).0.0.token ≡ d.next_token + 1
  unfolding force_claim
  force-token = ground (arith, room)

claimed-owner :
    (x it : Item) (d : Dispatcher)
    → active x (record d {
      next_token = next_token_of d;
      inflight =
          Dict.put it.id
            (record { token = next_token_of d; cancel = none; done = none })
            d.inflight;
    })
      ≡ true
    → matches x (record it { token = next_token_of d }) || active x d ≡ true
unfolding active
claimed-owner x it d own = ground (
  arith,
  own,
  get-put it.id x.id (record { token = next_token_of d; cancel = none; done = none }) d.inflight,
  eq_iff it.id x.id,
)

module _ (cfg : Config) (s : System) (e : IsExclusive s) where
  -- from the count of each item
  kept-IsExclusive :
      (t : System)
      → ((x : Item) → all_copies x t ≤ all_copies x s)
      → t.world.dispatcher.next_token ≡ s.world.dispatcher.next_token
      → ((x : Item) → active x t.world.dispatcher ≡ true → active x s.world.dispatcher ≡ true)
      → IsExclusive t
  kept-IsExclusive t count token owner = record {
    single = λ x own. ground (arith, count x, e.single x (owner x own));
    fresh = λ x new. ground (arith, count x, token, new, e.fresh x);
  }

  moves-IsExclusive :
      (m : Move) (before after : List Item) (it : Item)
      → s.held ≡ before ++ (it ∷ after)
      → IsExclusive (record {
        world = (move cfg m it s.world).0;
        held = before ++ ((move cfg m it s.world).1 ++ after);
      })
  unfolding all_copies copies
  moves-IsExclusive m before after it h =
      kept-IsExclusive _
        (λ x. ground (
          arith,
          h,
          (move-Keeps x it s.world cfg m).count,
          copies-append x before (it ∷ after),
          copies-append x before ((move cfg m it s.world).1 ++ after),
          copies-append x (move cfg m it s.world).1 after,
        ))
        (move-Keeps it it s.world cfg m).token (λ x. (move-Keeps x it s.world cfg m).owner)

  fires-IsExclusive :
      (before after : List Timer) (t : Timer)
      → s.world.timers ≡ before ++ (t ∷ after)
      → IsExclusive
          (record { world = record s.world { timers = before ++ after }; held = t.item ∷ s.held })
  unfolding all_copies lodged_copies timed_copies copies
  fires-IsExclusive before after t h =
      kept-IsExclusive _
        (λ x.
          ground (
            arith,
            h,
            timed_copies-append x before (t ∷ after),
            timed_copies-append x before after,
          ))
        refl (λ x own. own)

  added-IsExclusive :
      (it : Item) (d : Dispatcher)
      → d.ch ≡ s.world.dispatcher.ch
      → d.next_token ≡ s.world.dispatcher.next_token + 1
      → it.token ≡ s.world.dispatcher.next_token + 1
      → ((x : Item) → active x d ≡ true → matches x it || active x s.world.dispatcher ≡ true)
      → IsExclusive (record { world = record s.world { dispatcher = d }; held = it ∷ s.held })
  unfolding all_copies lodged_copies copies
  added-IsExclusive it d ch counter token owner = record {
    single = λ x own.
        ground (arith, ch, token, owner x own, e.single x, e.fresh x, ==_iff it.token x.token);
    fresh = λ x new. ground (arith, ch, counter, token, new, e.fresh x, ==_iff it.token x.token);
  }

  claims-IsExclusive :
      (it : Item)
      → s.world.dispatcher.next_token + 1 < token_mod
      → IsExclusive (record {
        world = record s.world { dispatcher = (claim it s.world.dispatcher).1 };
        held = taken (claim it s.world.dispatcher).0 s.held;
      })
  unfolding taken claim
  claims-IsExclusive it room = elim (Option-cases (Dict.get it.id s.world.dispatcher.inflight)) [
    | inl free ↦
        rw (free, claim)
          (added-IsExclusive (record it { token = next_token_of s.world.dispatcher }) _ refl
            (ground (arith, room)) (ground (arith, room))
            (λ x own. claimed-owner x it s.world.dispatcher own))
    | inr (c, at) ↦ rw (at, claim) e
  ]

  forces-IsExclusive :
      (it : Item)
      → s.world.dispatcher.next_token + 1 < token_mod
      → IsExclusive (record {
        world = record s.world { dispatcher = (force_claim it s.world.dispatcher).1 };
        held = (force_claim it s.world.dispatcher).0.0 ∷ s.held;
      })
  forces-IsExclusive it room =
      added-IsExclusive _ (force_claim it s.world.dispatcher).1 (force-ch it s.world.dispatcher it)
        (force-counter it s.world.dispatcher room) (force-token it s.world.dispatcher room)
        (λ x. force-active x s.world.dispatcher it)

  receives-IsExclusive :
      (it : Item) (rest : List Item)
      → s.world.dispatcher.ch ≡ it ∷ rest
      → IsExclusive (record {
        world = record s.world { dispatcher = record s.world.dispatcher { ch = rest } };
        held = it ∷ s.held;
      })
  unfolding all_copies lodged_copies copies active
  receives-IsExclusive it rest h = kept-IsExclusive _ (λ x. ground (arith, h)) refl (λ x own. own)

  Step-IsExclusive :
      {t : System} → s.world.dispatcher.next_token + 1 < token_mod → Step cfg s t → IsExclusive t
  unfolding active all_copies lodged_copies
  Step-IsExclusive room (claims it) = claims-IsExclusive it room
  Step-IsExclusive room (forces it) = forces-IsExclusive it room
  Step-IsExclusive room (receives it rest h) = receives-IsExclusive it rest h
  Step-IsExclusive room (moves m before after it h) = moves-IsExclusive m before after it h
  Step-IsExclusive room (fires before after t h) = fires-IsExclusive before after t h
  Step-IsExclusive room (ends run) = record { single = e.single; fresh = e.fresh }
  Step-IsExclusive room (stores m) = record { single = e.single; fresh = e.fresh }
  Step-IsExclusive room (ticks now) = record { single = e.single; fresh = e.fresh }

-- No state of the steps has run through the 64-bit tokens.
unfoldable pub IsUnwrapped : {cfg : Config} {s t : System} → Steps cfg s t → Type 0
IsUnwrapped here = Unit
IsUnwrapped (next {t} steps step) =
    IsUnwrapped steps × (t.world.dispatcher.next_token + 1 < token_mod)

started-IsExclusive : (m : Memory) (now : Time) → IsExclusive (started m now)
unfolding active all_copies lodged_copies copies timed_copies
started-IsExclusive m now = record { single = λ x own. ground arith; fresh = λ x new. ground arith }

Steps-IsExclusive :
    {cfg : Config} {s t : System} (steps : Steps cfg s t)
    → IsUnwrapped steps
    → IsExclusive s
    → IsExclusive t
unfolding IsUnwrapped
Steps-IsExclusive here u e = e
Steps-IsExclusive {cfg} (next {t} steps step) (u, room) e =
    Step-IsExclusive cfg t (Steps-IsExclusive steps u e) room step

-- From the start of the process on, under every interleaving of the critical sections of its threads
-- and while the 64-bit tokens do not run out, at most one item in the threads' hands, the channel
-- and the timers together is of an id and with the token that owns it. A handler that lost its id may
-- still be running, but its item does not own the id.
pub owner-alone :
    {cfg : Config} (m : Memory) (now : Time) (t : System) (steps : Steps cfg (started m now) t)
    → IsUnwrapped steps
    → (x : Item) → active x t.world.dispatcher ≡ true
    → all_copies x t ≤ 1
owner-alone m now t steps u = (Steps-IsExclusive steps u (started-IsExclusive m now)).single
