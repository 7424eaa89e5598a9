-- ===== src/Dispatcher/Workers.antt =====
-- internal/dispatch/dispatcher.go: the worker loop of `Run`, and the dispatcher as a system of threads.
-- A thread carries an item from one critical section of `handle`, `Submit`, `Sweep`, `ForceSubmitAfter`
-- or the continuation of a timer to the next one. `queueClaimed` is three of them: the check of the
-- claim, the send and, where the channel is full, the release; `enqueueRecovered` sends unchecked.
pub mod Accounting
pub mod Copies
pub mod Exclusive
pub mod Found
pub mod Refines
use reading_lite_next.Prelude.{
  ℕ, Bool, true, false, String, Option, none, some, List, [], ◌∷◌, ◌++◌, if◌then◌else◌, ◌≡◌, ltb,
  length,
}
use reading_lite_next.Errors.{Context}
use reading_lite_next.Reading.{Time}
use reading_lite_next.Dispatch.{Item, RunResult, Action}
use reading_lite_next.Store.Memory.{Memory}
use reading_lite_next.Dispatcher.{
  Dispatcher, Config, buffer_size, active, claim, force_claim, begin_run, new_dispatcher,
}
use reading_lite_next.Dispatcher.Handle.{World, Handler, handle, Timer, release_in, settle, end_run}

-- How one turn of a worker's loop ends.
pub data Turn : Type 0 where
  stopped blocked continues : Turn

unfoldable pub received : Context → Config → Handler → Item → World → Turn × World
received (some s) cfg handler it w = (stopped, release_in it w)
received none cfg handler it w = (continues, handle cfg handler it w)

unfoldable pub receive : Context → Config → Handler → List Item → World → Turn × World
unfolding received
receive after cfg handler [] w = (blocked, w)
receive after cfg handler (it ∷ rest) w =
    received after cfg handler it (record w { dispatcher = record w.dispatcher { ch = rest } })

-- One turn: `before` and `after` are the context at the two checks. The second one follows a receive.
unfoldable pub turn : Context → Context → Config → Handler → World → Turn × World
unfolding receive
turn before after cfg handler w = elim before [
  | some s ↦ (stopped, w)
  | none ↦ receive after cfg handler w.dispatcher.ch w
]

-- `held`: the items that threads carry
pub record System : Type 0 where
  pub world : World
  pub held : List Item

-- What a thread does with an item that it carries.
pub data Move : Type 0 where
  send release begin give_up : Move
  settles : ℕ → RunResult → Action → Move

-- A send to a full channel waits, with its item.
unfoldable pub sent : Config → Item → World → World × List Item
sent cfg it w =
    if ltb (length w.dispatcher.ch) (buffer_size cfg)
    then (record w { dispatcher = record w.dispatcher { ch = w.dispatcher.ch ++ (it ∷ []) } }, [])
    else (w, it ∷ [])

unfoldable pub begun : Item → Option ℕ × Dispatcher → World → World × List Item
begun it (none, d) w = (record w { dispatcher = d }, [])
begun it (some run, d) w = (record w { dispatcher = d }, it ∷ [])

-- The world afterwards, and the item if the thread still carries it.
unfoldable pub move : Config → Move → Item → World → World × List Item
unfolding begun sent
move cfg send it w = sent cfg it w
move cfg release it w = (release_in it w, [])
move cfg begin it w = begun it (begin_run it w.dispatcher) w
move cfg give_up it w = (w, if active it w.dispatcher then it ∷ [] else [])
move cfg (settles run res act) it w = (settle run it res act w, [])

-- the carried items after a claim
unfoldable pub taken : Option Item → List Item → List Item
taken none held = held
taken (some it) held = it ∷ held

pub data Step (cfg : Config) (s : System) : System → Type 0 where
  claims :
      (it : Item)
      → Step cfg s (record {
        world = record s.world { dispatcher = (claim it s.world.dispatcher).1 };
        held = taken (claim it s.world.dispatcher).0 s.held;
      })
  forces :
      (it : Item)
      → Step cfg s (record {
        world = record s.world { dispatcher = (force_claim it s.world.dispatcher).1 };
        held = (force_claim it s.world.dispatcher).0.0 ∷ s.held;
      })
  receives :
      (it : Item) (rest : List Item)
      → s.world.dispatcher.ch ≡ it ∷ rest
      → Step cfg s (record {
        world = record s.world { dispatcher = record s.world.dispatcher { ch = rest } };
        held = it ∷ s.held;
      })
  moves :
      (m : Move) (before after : List Item) (it : Item)
      → s.held ≡ before ++ (it ∷ after)
      → Step cfg s (record {
        world = (move cfg m it s.world).0;
        held = before ++ ((move cfg m it s.world).1 ++ after);
      })
  -- any timer, whatever the delays
  fires :
      (before after : List Timer) (t : Timer)
      → s.world.timers ≡ before ++ (t ∷ after)
      → Step cfg s
          (record { world = record s.world { timers = before ++ after }; held = t.item ∷ s.held })
  ends : (run : ℕ) → Step cfg s (record s { world = end_run run s.world })
  stores : (m : Memory) → Step cfg s (record s { world = record s.world { store = m } })
  ticks : (now : Time) → Step cfg s (record s { world = record s.world { now = now } })

pub data Steps (cfg : Config) (s : System) : System → Type 0 where
  here : Steps cfg s s
  next : {t u : System} → Steps cfg s t → Step cfg t u → Steps cfg s u

-- a process that just started, over the store of its database
abbrev pub started : Memory → Time → System
started m now = record {
  world = record {
    dispatcher = new_dispatcher;
    store = m;
    timers = [];
    exited_runs = [];
    now = now;
  };
  held = [];
}
