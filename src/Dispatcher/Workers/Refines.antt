-- ===== src/Dispatcher/Workers/Refines.antt =====
-- internal/dispatch/dispatcher.go: a worker's turn, `handle` included, is a sequence of the steps of
-- the system of threads.
use reading_lite_next.Prelude.{
  ℕ, Bool, true, false, String, Option, none, some, List, [], ◌∷◌, ◌++◌, ◌≡◌, refl, arith,
  if◌then◌else◌,
}
use mathlib.Core.Path.{subst}
use reading_lite_next.Errors.{Context, Result, ok, err}
use reading_lite_next.Dispatch.{Item, RunResult, decide}
use reading_lite_next.Store.Memory.{Memory}
use reading_lite_next.Dispatcher.{Dispatcher, Config, active, begin_run, max_attempts}
use reading_lite_next.Dispatcher.Handle.{
  World, Handler, handle, handle_run, after_start, handled, settle,
}
use reading_lite_next.Dispatcher.Workers.{
  System, turn, receive, received, release, begin, begun, give_up, settles, move, receives, moves,
  ends, stores, Steps, here, next,
}

abbrev at : World → List Item → System
at w held = record { world = w; held = held }

Steps-trans : {cfg : Config} {s t u : System} → Steps cfg s t → Steps cfg t u → Steps cfg s u
Steps-trans st here = st
Steps-trans st (next tu u) = next (Steps-trans st tu) u

module _ (cfg : Config) (handler : Handler) (it : Item) (rest : List Item)
    (runs : (run : ℕ) (w : World) (held : List Item)
      → Steps cfg (at w held) (at (handler run it.id w).1 held)) where
  given_up-if :
      (w : World) (b : Bool)
      → b ≡ false
      → Steps cfg (at w (it ∷ rest)) (at w ((if b then it ∷ [] else []) ++ rest))
      → Steps cfg (at w (it ∷ rest)) (at w rest)
  given_up-if w true idle steps = absurd (ground (arith, idle))
  given_up-if w false idle steps = steps

  given_up-Steps :
      (w : World) → active it w.dispatcher ≡ false → Steps cfg (at w (it ∷ rest)) (at w rest)
  unfolding move
  given_up-Steps w idle =
      given_up-if w (active it w.dispatcher) idle (next here (moves give_up [] rest it refl))

  handled-if :
      (run : ℕ) (res : RunResult) (w : World) (b : Bool)
      → active it w.dispatcher ≡ b
      → Steps cfg (at w (it ∷ rest)) (
          at (if b then settle run it res (decide res it.attempt (max_attempts cfg)) w else w) rest)
  unfolding move
  handled-if run res w true a =
      next here (moves (settles run res (decide res it.attempt (max_attempts cfg))) [] rest it refl)
  handled-if run res w false a = given_up-Steps w a

  handled-Steps :
      (run : ℕ) (x : RunResult × World)
      → Steps cfg (at x.1 (it ∷ rest)) (at (handled cfg run it x) rest)
  unfolding handled
  handled-Steps run (res, w) = handled-if run res w (active it w.dispatcher) refl

  after_start-Steps :
      (run : ℕ) (x : Result (Unit {0}) × Memory) (w : World)
      → Steps cfg (at w (it ∷ rest)) (at (after_start cfg handler run it x w) rest)
  unfolding after_start move
  after_start-Steps run (err e, m) w = next (next here (stores m)) (moves release [] rest it refl)
  after_start-Steps run (ok u, m) w =
      Steps-trans (Steps-trans (next here (stores m)) (runs run _ (it ∷ rest)))
        (handled-Steps run _)

  refused-inactive :
      (w : World) (d : Dispatcher)
      → begin_run it w.dispatcher ≡ (none, d)
      → active it w.dispatcher ≡ false
  unfolding begin_run
  refused-inactive w d h = ground (arith, h)

  begun-by :
      (w : World) (run : ℕ) (d : Dispatcher) (b : Option ℕ × Dispatcher)
      → b ≡ (some run, d)
      → Steps cfg (at w (it ∷ rest)) (at (begun it b w).0 ((begun it b w).1 ++ rest))
      → Steps cfg (at w (it ∷ rest)) (at (record w { dispatcher = d }) (it ∷ rest))
  unfolding begun
  begun-by w run d b h steps =
      subst (λ x. Steps cfg (at w (it ∷ rest)) (at (begun it x w).0 ((begun it x w).1 ++ rest))) h
        steps

  begun-Steps :
      (w : World) (run : ℕ) (d : Dispatcher)
      → begin_run it w.dispatcher ≡ (some run, d)
      → Steps cfg (at w (it ∷ rest)) (at (record w { dispatcher = d }) (it ∷ rest))
  unfolding move
  begun-Steps w run d h =
      begun-by w run d (begin_run it w.dispatcher) h (next here (moves begin [] rest it refl))

  handle_run-Steps :
      (w : World) (b : Option ℕ × Dispatcher)
      → begin_run it w.dispatcher ≡ b
      → Steps cfg (at w (it ∷ rest)) (at (handle_run cfg handler it b w) rest)
  unfolding handle_run move begun
  handle_run-Steps w (none, d) h = given_up-Steps w (refused-inactive w d h)
  handle_run-Steps w (some run, d) h =
      next (Steps-trans (begun-Steps w run d h) (after_start-Steps run _ _)) (ends run)

  handle-Steps : (w : World) → Steps cfg (at w (it ∷ rest)) (at (handle cfg handler it w) rest)
  unfolding handle
  handle-Steps w = handle_run-Steps w (begin_run it w.dispatcher) refl

module _ (cfg : Config) (handler : Handler)
    (runs : (run : ℕ) (id : String) (w : World) (held : List Item)
      → Steps cfg (at w held) (at (handler run id w).1 held)) where
  received-Steps :
      (after : Context) (it : Item) (w : World) (held : List Item)
      → Steps cfg (at w (it ∷ held)) (at (received after cfg handler it w).1 held)
  unfolding received move
  received-Steps (some s) it w held = next here (moves release [] held it refl)
  received-Steps none it w held = handle-Steps cfg handler it held (λ run. runs run it.id) w

  receive-Steps :
      (after : Context) (ch : List Item) (w : World) (held : List Item)
      → w.dispatcher.ch ≡ ch
      → Steps cfg (at w held) (at (receive after cfg handler ch w).1 held)
  unfolding receive
  receive-Steps after [] w held h = here
  receive-Steps after (it ∷ rest) w held h =
      Steps-trans (next here (receives it rest h)) (received-Steps after it _ held)

  -- When a run of the handler is a sequence of steps of the system, so is a turn of a worker, however
  -- it ends: stopped, blocked on the empty channel, or done with an item, which the worker then no
  -- longer carries.
  turn-Steps :
      (before after : Context) (w : World) (held : List Item)
      → Steps cfg
          (record { world = w; held = held })
          (record { world = (turn before after cfg handler w).1; held = held })
  unfolding turn
  turn-Steps (some s) after w held = here
  turn-Steps none after w held = receive-Steps after w.dispatcher.ch w held refl
