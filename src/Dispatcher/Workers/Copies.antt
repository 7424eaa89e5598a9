-- ===== src/Dispatcher/Workers/Copies.antt =====
-- internal/dispatch/dispatcher.go: how many items with an owner's token one critical section leaves.
use reading_lite_next.Prelude.{
  ℕ, ◌+◌, ◌≤◌, true, Option, none, some, List, [], ◌∷◌, ◌++◌, ◌≡◌, if◌then◌else◌, refl, arith,
  Bool-cases, inl, inr, ltb, length,
}
use reading_lite_next.Dispatch.{Item, RunResult, Action}
use reading_lite_next.Store.Memory.{Memory}
use reading_lite_next.Dispatcher.{Dispatcher, Config, active, release, begin_run, buffer_size}
use reading_lite_next.Dispatcher.Handle.{
  World, Timer, settle, finish, redispatch, release_in, mark_ready, mark_failed,
}
use reading_lite_next.Dispatcher.Workers.{
  System, Move, begun, send, sent, release as releases, begin, give_up, settles, move,
}
use reading_lite_next.Dispatcher.Workers.Found.{
  matches, either, release-active, begin-active, release-ch, begin-ch,
}

-- how many of the items are of the id and with the token of `x`
unfoldable pub copies : Item → List Item → ℕ
copies x [] = 0
copies x (it ∷ xs) = (if matches x it then 1 else 0) + copies x xs

unfoldable pub timed_copies : Item → List Timer → ℕ
timed_copies x [] = 0
timed_copies x (t ∷ ts) = (if matches x t.item then 1 else 0) + timed_copies x ts

-- in the channel, or with a timer
unfoldable pub lodged_copies : Item → World → ℕ
lodged_copies x w = copies x w.dispatcher.ch + timed_copies x w.timers

unfoldable pub all_copies : Item → System → ℕ
all_copies x s = copies x s.held + lodged_copies x s.world

pub copies-append : (x : Item) (xs ys : List Item) → copies x (xs ++ ys) ≡ copies x xs + copies x ys
unfolding copies
copies-append x [] ys = omega arith
copies-append x (it ∷ xs) ys = omega (arith, copies-append x xs ys)

pub timed_copies-append :
    (x : Item) (xs ys : List Timer)
    → timed_copies x (xs ++ ys) ≡ timed_copies x xs + timed_copies x ys
unfolding timed_copies
timed_copies-append x [] ys = omega arith
timed_copies-append x (t ∷ xs) ys = omega (arith, timed_copies-append x xs ys)

-- What a critical section that takes no token keeps: `before` counts the item a thread brings in.
pub record Keeps (x : Item) (before : ℕ) (w : World) (after : ℕ) (v : World) : Type 0 where
  pub count : after + lodged_copies x v ≤ before + lodged_copies x w
  pub token : v.dispatcher.next_token ≡ w.dispatcher.next_token
  pub owner : active x v.dispatcher ≡ true → active x w.dispatcher ≡ true

abbrev pub one : Item → Item → ℕ
one x it = if matches x it then 1 else 0

module _ (x it : Item) (w : World) where
  release-Keeps : Keeps x (one x it) w 0 (release_in it w)
  unfolding release lodged_copies
  release-Keeps = record {
    count = ground (arith, release-ch x w.dispatcher it);
    token = ground arith;
    owner = λ own. ground (arith, release-active x w.dispatcher it own);
  }

  sent-Keeps : (cfg : Config) → Keeps x (one x it) w (copies x (sent cfg it w).1) (sent cfg it w).0
  unfolding sent lodged_copies copies active
  sent-Keeps cfg = elim (Bool-cases (ltb (length w.dispatcher.ch) (buffer_size cfg))) [
    | inl room ↦ record {
      count = ground (arith, room, copies-append x w.dispatcher.ch (it ∷ []));
      token = ground (arith, room);
      owner = λ own. ground (arith, room, own);
    }
    | inr full ↦ record {
      count = ground (arith, full);
      token = ground (arith, full);
      owner = λ own. ground (arith, full, own);
    }
  ]

  finish-Keeps :
      (stored : World → Memory)
      → Keeps x (one x it) w 0 (finish it (λ v. record v { store = stored v }) w)
  unfolding finish release lodged_copies
  finish-Keeps stored = elim (Bool-cases (active it w.dispatcher)) [
    | inl a ↦ record {
      count = ground (arith, a, release-Keeps.count);
      token = ground (arith, a, release-Keeps.token);
      owner = λ own. ground (arith, a, own, release-Keeps.owner);
    }
    | inr a ↦ record {
      count = ground (arith, a);
      token = ground (arith, a);
      owner = λ own. ground (arith, a, own);
    }
  ]

  redispatch-Keeps : (run : ℕ) (act : Action) → Keeps x (one x it) w 0 (redispatch run it act w)
  unfolding redispatch lodged_copies timed_copies
  redispatch-Keeps run act = record {
    count = ground (
      arith,
      timed_copies-append x w.timers
          (record { delay = act.delay; item = record it { attempt = act.next_attempt } } ∷ []),
    );
    token = ground arith;
    owner = λ own. ground (arith, own);
  }

  settle-Keeps :
      (run : ℕ) (res : RunResult) (act : Action) → Keeps x (one x it) w 0 (settle run it res act w)
  unfolding settle mark_ready mark_failed
  settle-Keeps run res act = either (Keeps x (one x it) w 0) act.mark_failed _ _ (finish-Keeps _) (
      either (Keeps x (one x it) w 0) act.redispatch _ _ (redispatch-Keeps run act)
        (finish-Keeps _))

  begun-Keeps :
      (b : Option ℕ × Dispatcher)
      → b.1.ch ≡ w.dispatcher.ch
      → b.1.next_token ≡ w.dispatcher.next_token
      → (active x b.1 ≡ true → active x w.dispatcher ≡ true)
      → Keeps x (one x it) w (copies x (begun it b w).1) (begun it b w).0
  unfolding begun lodged_copies copies
  begun-Keeps (none, d) ch token owner = record {
    count = ground (arith, ch);
    token = token;
    owner = owner;
  }
  begun-Keeps (some run, d) ch token owner = record {
    count = ground (arith, ch);
    token = token;
    owner = owner;
  }

  begin-token : (begin_run it w.dispatcher).1.next_token ≡ w.dispatcher.next_token
  unfolding begin_run
  begin-token = ground arith

  pub move-Keeps :
      (cfg : Config) (m : Move)
      → Keeps x (one x it) w (copies x (move cfg m it w).1) (move cfg m it w).0
  unfolding move copies
  move-Keeps cfg send = sent-Keeps cfg
  move-Keeps cfg releases = release-Keeps
  move-Keeps cfg begin =
      begun-Keeps (begin_run it w.dispatcher) (begin-ch x w.dispatcher it) begin-token
        (begin-active x w.dispatcher it)
  move-Keeps cfg give_up = record { count = ground arith; token = refl; owner = λ own. own }
  move-Keeps cfg (settles run res act) = settle-Keeps run res act
