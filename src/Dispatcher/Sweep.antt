-- ===== src/Dispatcher/Sweep.antt =====
-- internal/dispatch/dispatcher.go: `Sweep` and `enqueueRecovered`, the recovery after a restart. The
-- blocking send to the channel ends when there is room, or when the context ends, as `offer` says;
-- `others` is what other threads do before that. While they leave no room, it waits.
use reading_lite_next.Prelude.{
  ltb, length, if◌then◌else◌, ◌+◌, ◌-◌, Option, none, some, List, [], ◌∷◌, ◌++◌, pos, negsuc,
}
use reading_lite_next.Errors.{Context, Error, Sentinel, sentinel, Result, ok, err}
use reading_lite_next.Reading.{Time, Duration}
use reading_lite_next.Dispatch.{Item}
use reading_lite_next.Store.Types.{Pending}
use reading_lite_next.Store.Memory.{list_non_terminal}
use reading_lite_next.Dispatcher.{buffer_size, Dispatcher, Config, claim, release}
use reading_lite_next.Dispatcher.Handle.{World}

pub data Offer : Type 0 where
  accepted : Offer
  stopped : Sentinel → Offer

-- `now.Add(-ttl)`, of a time after Go's zero time
abbrev pub cutoff_of : Duration → Time → Time
cutoff_of (pos ttl) now = now - ttl
cutoff_of (negsuc n) now = now + (n + 1)

-- How the sweep, or a part of it, ends.
pub data Recovery : Type 0 where
  recovered waiting : Recovery
  failed : Error → Recovery

offered : Config → Offer → Item → World → Recovery × World
offered cfg accepted it w =
    if ltb (length w.dispatcher.ch) (buffer_size cfg)
    then (
      recovered,
      record w { dispatcher = record w.dispatcher { ch = w.dispatcher.ch ++ (it ∷ []) } },
    )
    else (waiting, w)
offered cfg (stopped s) it w =
    (failed (sentinel s), record w { dispatcher = release it w.dispatcher })

module _ (cfg : Config) (ctx : World → Context) (offer : World → Offer)
    (others : World → World) where
  enqueue_claimed : Option Item × Dispatcher → World → Recovery × World
  unfolding offered
  enqueue_claimed (none, d) w = (recovered, record w { dispatcher = d })
  enqueue_claimed (some it, d) w =
      let later = others (record w { dispatcher = d }) in offered cfg (offer later) it later

  enqueue_live : Context → Item → World → Recovery × World
  unfolding enqueue_claimed
  enqueue_live (some s) it w = (failed (sentinel s), w)
  enqueue_live none it w = enqueue_claimed (claim it w.dispatcher) w

  unfoldable pub enqueue_recovered : Item → World → Recovery × World
  unfolding enqueue_live
  enqueue_recovered it w = enqueue_live (ctx w) it w

  abbrev pub recovered_item : Pending → Item
  recovered_item q = record { id = q.id; attempt = q.process_attempts; token = 0 }

  abbrev continue : Recovery × World → (World → Recovery × World) → Recovery × World
  continue (recovered, w) rest = rest w
  continue (waiting, w) rest = (waiting, w)
  continue (failed e, w) rest = (failed e, w)

  unfoldable pub enqueue_all : List Pending → World → Recovery × World
  enqueue_all [] w = (recovered, w)
  enqueue_all (q ∷ qs) w = continue (enqueue_recovered (recovered_item q) w) (enqueue_all qs)

  swept : Result (List Pending) → World → Recovery × World
  unfolding enqueue_all
  swept (err e) w = (failed e, w)
  swept (ok qs) w = enqueue_all qs w

  unfoldable pub sweep : World → Recovery × World
  unfolding swept
  sweep w = swept (list_non_terminal (ctx w) (cutoff_of cfg.running_ttl w.now) w.store).0 w
