-- ===== src/Dispatcher/Workers/Accounting.antt =====
-- internal/dispatch/dispatcher.go: no claim is lost. An id is owned only while an item with the
-- claim's token is carried by a thread, waits in the channel, or waits for its timer.
use reading_lite_next.Prelude.{
  Bool, true, false, String, none, List, [], ◌∷◌, ◌++◌, ◌||◌, ◌≡◌, refl, any, arith, ==_iff, str_eq,
  Option-cases, inl, inr,
}
use reading_lite_next.Dict
use reading_lite_next.Dict.{get-put, get-remove, get-empty}
use reading_lite_next.Dispatch.{Item}
use reading_lite_next.Store.Memory.{Memory}
use reading_lite_next.Reading.{Time}
use reading_lite_next.Dispatcher.{Claim, Config, active, claim, force_claim}
use reading_lite_next.Dispatcher.Handle.{Timer}
use reading_lite_next.Dispatcher.Workers.{
  System, Move, move, taken, Step, claims, forces, receives, moves, fires, ends, stores, ticks,
  Steps, here, next, started,
}
use reading_lite_next.Dispatcher.Workers.Found.{
  matches, is_carried, is_lodged, any-append, any-taken, claim-active, force-active, claim-ch,
  force-ch, move-found,
}

-- Each item that owns its id is somewhere, perhaps with another attempt.
pub record IsAccounted (s : System) : Type 0 where
  pub found :
      (x : Item)
      → active x s.world.dispatcher ≡ true
      → is_carried x s.held || is_lodged x s.world ≡ true

abbrev is_timed : Item → List Timer → Bool
is_timed x = any (λ t. matches x t.item)

timers-append :
    (x : Item) (xs ys : List Timer) → is_timed x (xs ++ ys) ≡ is_timed x xs || is_timed x ys
timers-append x = any-append (λ (t : Timer). matches x t.item)

module _ (cfg : Config) (s : System) (a : IsAccounted s) where
  fires-IsAccounted :
      (before after : List Timer) (t : Timer)
      → s.world.timers ≡ before ++ (t ∷ after)
      → IsAccounted
          (record { world = record s.world { timers = before ++ after }; held = t.item ∷ s.held })
  unfolding is_lodged is_carried active
  fires-IsAccounted before after t h = record {
    found = λ x own.
        ground (
          arith,
          h,
          a.found x own,
          timers-append x before (t ∷ after),
          timers-append x before after,
        );
  }

  moves-IsAccounted :
      (m : Move) (before after : List Item) (it : Item)
      → s.held ≡ before ++ (it ∷ after)
      → IsAccounted (record {
        world = (move cfg m it s.world).0;
        held = before ++ ((move cfg m it s.world).1 ++ after);
      })
  unfolding is_carried
  moves-IsAccounted m before after it h = record {
    found = λ x own. ground (
      arith,
      move-found x it (is_carried x before || is_carried x after) s.world cfg m
          (λ b. ground (arith, a.found x b, h, any-append (matches x) before (it ∷ after))) own,
      any-append (matches x) before ((move cfg m it s.world).1 ++ after),
      any-append (matches x) (move cfg m it s.world).1 after,
    );
  }

  claims-IsAccounted :
      (it : Item)
      → IsAccounted (record {
        world = record s.world { dispatcher = (claim it s.world.dispatcher).1 };
        held = taken (claim it s.world.dispatcher).0 s.held;
      })
  unfolding taken is_carried is_lodged
  claims-IsAccounted it = record {
    found = λ x own. ground (
      arith,
      a.found x,
      claim-active x s.world.dispatcher it own,
      claim-ch x s.world.dispatcher it,
      any-taken (matches x) (claim it s.world.dispatcher).0 s.held,
    );
  }

  forces-IsAccounted :
      (it : Item)
      → IsAccounted (record {
        world = record s.world { dispatcher = (force_claim it s.world.dispatcher).1 };
        held = (force_claim it s.world.dispatcher).0.0 ∷ s.held;
      })
  unfolding is_carried is_lodged
  forces-IsAccounted it = record {
    found = λ x own. ground (
      arith,
      a.found x,
      force-active x s.world.dispatcher it own,
      force-ch x s.world.dispatcher it,
    );
  }

  receives-IsAccounted :
      (it : Item) (rest : List Item)
      → s.world.dispatcher.ch ≡ it ∷ rest
      → IsAccounted (record {
        world = record s.world { dispatcher = record s.world.dispatcher { ch = rest } };
        held = it ∷ s.held;
      })
  unfolding is_carried is_lodged active
  receives-IsAccounted it rest h = record { found = λ x own. ground (arith, h, a.found x own) }

  Step-IsAccounted : {t : System} → Step cfg s t → IsAccounted t
  unfolding active is_lodged
  Step-IsAccounted (claims it) = claims-IsAccounted it
  Step-IsAccounted (forces it) = forces-IsAccounted it
  Step-IsAccounted (receives it rest h) = receives-IsAccounted it rest h
  Step-IsAccounted (moves m before after it h) = moves-IsAccounted m before after it h
  Step-IsAccounted (fires before after t h) = fires-IsAccounted before after t h
  Step-IsAccounted (ends run) = record { found = a.found }
  Step-IsAccounted (stores m) = record { found = a.found }
  Step-IsAccounted (ticks now) = record { found = a.found }

started-IsAccounted : (m : Memory) (now : Time) → IsAccounted (started m now)
unfolding active
started-IsAccounted m now = record {
  found = λ x own. absurd (ground (arith, own, get-empty {V = Claim} x.id));
}

-- From the start of the process on, under every interleaving of the critical sections of its
-- threads, the timers included: an id is owned only while an item that carries the claim's token is
-- held by a thread, waits in the channel or waits for its timer.
pub Steps-IsAccounted :
    {cfg : Config} {s t : System} → Steps cfg s t → IsAccounted s → IsAccounted t
Steps-IsAccounted here a = a
Steps-IsAccounted {cfg} (next {t} ss st) a = Step-IsAccounted cfg t (Steps-IsAccounted ss a) st

abbrev pub names : String → Item → Bool
names id it = str_eq it.id id

-- whether the id is carried, queued or waiting for its timer
unfoldable pub is_present : String → System → Bool
is_present id s =
    any (names id) s.held
    || (any (names id) s.world.dispatcher.ch || any (λ t. names id t.item) s.world.timers)

carried-named : (x : Item) (xs : List Item) → any (names x.id) xs ≡ false → is_carried x xs ≡ false
unfolding is_carried
carried-named x [] h = refl
carried-named x (it ∷ xs) h = ground (arith, h, carried-named x xs)

timed-named :
    (x : Item) (ts : List Timer)
    → any (λ t. names x.id t.item) ts ≡ false
    → any (λ t. matches x t.item) ts ≡ false
timed-named x [] h = refl
timed-named x (t ∷ ts) h = ground (arith, h, timed-named x ts)

absent-inactive :
    (x : Item) (s : System)
    → IsAccounted s
    → is_present x.id s ≡ false
    → active x s.world.dispatcher ≡ false
unfolding is_present is_lodged
absent-inactive x s a h = ground (
  arith,
  h,
  a.found x,
  carried-named x s.held,
  carried-named x s.world.dispatcher.ch,
  timed-named x s.world.timers,
)

-- No claim is lost: in every state that a started process reaches, an id that no thread carries,
-- that is not in the channel and that waits for no timer is free, so the next Submit or Sweep of it
-- is not dropped as a duplicate.
pub absent_id-free :
    {cfg : Config} (m : Memory) (now : Time) (t : System) (id : String)
    → Steps cfg (started m now) t
    → is_present id t ≡ false
    → Dict.get id t.world.dispatcher.inflight ≡ none
unfolding active
absent_id-free m now t id steps h = elim (Option-cases (Dict.get id t.world.dispatcher.inflight)) [
  | inl free ↦ free
  | inr (c, owned) ↦ absurd (
      ground (
        arith,
        owned,
        absent-inactive (record { id = id; attempt = 0; token = c.token }) t
            (Steps-IsAccounted steps (started-IsAccounted m now)) h,
        ==_iff c.token c.token,
      ))
]
