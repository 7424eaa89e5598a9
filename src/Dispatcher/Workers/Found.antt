-- ===== src/Dispatcher/Workers/Found.antt =====
-- internal/dispatch/dispatcher.go: which item still has an owner's token after one critical section.
use reading_lite_next.Prelude.{
  ℕ, ◌+◌, ◌%◌, Bool, true, false, Option, none, some, List, [], ◌∷◌, ◌++◌, ◌||◌, ◌&&◌, ◌==◌, ◌≡◌,
  if◌then◌else◌, not, refl, any, arith, eq_iff, ==_iff, str_eq, Option-cases, inl, inr, Bool-cases,
  ltb, length,
}
use reading_lite_next.Dict
use reading_lite_next.Dict.{get-put, get-remove, get-empty}
use reading_lite_next.Dispatch.{Item, RunResult, Action}
use reading_lite_next.Store.Memory.{Memory}
use reading_lite_next.Dispatcher.{
  Dispatcher, Config, token_mod, active, claim, release, begin_run, force_claim, buffer_size,
}
use reading_lite_next.Dispatcher.Handle.{
  World, settle, finish, redispatch, release_in, mark_ready, mark_failed,
}
use reading_lite_next.Dispatcher.Workers.{
  Move, begun, send, sent, release as releases, begin, give_up, settles, move, taken,
}

abbrev pub matches : Item → Item → Bool
matches x it = str_eq it.id x.id && (it.token == x.token)

unfoldable pub is_carried : Item → List Item → Bool
is_carried x = any (matches x)

-- in the channel, or with a timer
unfoldable pub is_lodged : Item → World → Bool
unfolding is_carried
is_lodged x w = is_carried x w.dispatcher.ch || any (λ t. matches x t.item) w.timers

pub any-append :
    {A : Type 0} (p : A → Bool) (xs ys : List A) → any p (xs ++ ys) ≡ any p xs || any p ys
any-append p [] ys = refl
any-append p (x ∷ xs) ys = ground (arith, any-append p xs ys)

pub any-taken :
    (p : Item → Bool) (o : Option Item) (held : List Item)
    → any p (taken o held) ≡ any p (taken o []) || any p held
unfolding taken
any-taken p none held = refl
any-taken p (some it) held = ground arith

module _ (x : Item) (d : Dispatcher) where
  pub claim-active :
      (it : Item)
      → active x (claim it d).1 ≡ true
      → is_carried x (taken (claim it d).0 []) || active x d ≡ true
  unfolding claim active is_carried taken
  claim-active it h = ground (
    arith,
    get-put it.id x.id
        (record { token = (d.next_token + 1) % token_mod; cancel = none; done = none }) d.inflight,
    eq_iff it.id x.id,
  )

  pub force-active :
      (it : Item)
      → active x (force_claim it d).1 ≡ true
      → matches x (force_claim it d).0.0 || active x d ≡ true
  unfolding force_claim active
  force-active it h = elim (Option-cases (Dict.get it.id d.inflight)) [
    | inl e ↦ ground (
      arith,
      h,
      e,
      get-put it.id x.id
          (record { token = (d.next_token + 1) % token_mod; cancel = none; done = none })
          d.inflight,
      eq_iff it.id x.id,
    )
    | inr (current, e) ↦ ground (
      arith,
      h,
      e,
      get-put it.id x.id
          (record { token = (d.next_token + 1) % token_mod; cancel = none; done = current.done })
          d.inflight,
      eq_iff it.id x.id,
    )
  ]

  pub release-active :
      (it : Item) → active x (release it d) ≡ true → active x d && not (matches x it) ≡ true
  unfolding release active
  release-active it h = ground (arith, get-remove it.id x.id d.inflight, eq_iff it.id x.id)

  pub begin-active : (it : Item) → active x (begin_run it d).1 ≡ true → active x d ≡ true
  unfolding begin_run active
  begin-active it h = ground (
    arith,
    get-put it.id x.id
        (record { token = it.token; cancel = some d.next_run; done = some d.next_run }) d.inflight,
    eq_iff it.id x.id,
  )

  idle-matches : (it : Item) → active it d ≡ false → active x d ≡ true → matches x it ≡ false
  unfolding active
  idle-matches it idle h = ground (arith, idle, h, eq_iff it.id x.id, ==_iff it.token x.token)

  pub release-ch : (it : Item) → (release it d).ch ≡ d.ch
  unfolding release
  release-ch it = ground arith

  pub begin-ch : (it : Item) → (begin_run it d).1.ch ≡ d.ch
  unfolding begin_run
  begin-ch it = ground arith

  begin-none :
      (it : Item)
      → (begin_run it d).0 ≡ none
      → active x (begin_run it d).1 ≡ true
      → matches x it ≡ false
  unfolding begin_run active
  begin-none it refused h = ground (arith, refused, idle-matches it)

  pub claim-ch : (it : Item) → (claim it d).1.ch ≡ d.ch
  unfolding claim
  claim-ch it = ground arith

  pub force-ch : (it : Item) → (force_claim it d).1.ch ≡ d.ch
  unfolding force_claim
  force-ch it = ground arith

pub either : (P : World → Type 0) (b : Bool) (v w : World) → P v → P w → P (if b then v else w)
either P true v w p q = p
either P false v w p q = q

-- `rest` says whether another item of the system is the owner's.
module _ (x it : Item) (rest : Bool) (w : World) where
  release-found :
      (active x w.dispatcher ≡ true → matches x it || (rest || is_lodged x w) ≡ true)
      → active x (release_in it w).dispatcher ≡ true
      → rest || is_lodged x (release_in it w) ≡ true
  unfolding is_lodged
  release-found h own =
      ground (arith, h, release-active x w.dispatcher it own, release-ch x w.dispatcher it)

  sent-found :
      (cfg : Config)
      → (active x w.dispatcher ≡ true → matches x it || (rest || is_lodged x w) ≡ true)
      → active x (sent cfg it w).0.dispatcher ≡ true
      → is_carried x (sent cfg it w).1 || (rest || is_lodged x (sent cfg it w).0) ≡ true
  unfolding sent is_lodged is_carried active
  sent-found cfg h own = elim (Bool-cases (ltb (length w.dispatcher.ch) (buffer_size cfg))) [
    | inl room ↦ ground (arith, room, h, own, any-append (matches x) w.dispatcher.ch (it ∷ []))
    | inr full ↦ ground (arith, full, h, own)
  ]

  finish-found :
      (stored : World → Memory)
      → (active x w.dispatcher ≡ true → matches x it || (rest || is_lodged x w) ≡ true)
      → active x (finish it (λ v. record v { store = stored v }) w).dispatcher ≡ true
      → rest || is_lodged x (finish it (λ v. record v { store = stored v }) w) ≡ true
  unfolding finish is_lodged release
  finish-found stored h own = elim (Bool-cases (active it w.dispatcher)) [
    | inl a ↦ ground (arith, a, h, own, release-found h, release-ch x w.dispatcher it)
    | inr a ↦ ground (arith, a, h, own, idle-matches x w.dispatcher it)
  ]

  redispatch-found :
      (run : ℕ) (act : Action)
      → (active x w.dispatcher ≡ true → matches x it || (rest || is_lodged x w) ≡ true)
      → active x (redispatch run it act w).dispatcher ≡ true
      → rest || is_lodged x (redispatch run it act w) ≡ true
  unfolding redispatch is_lodged
  redispatch-found run act h own = elim (Bool-cases (active it w.dispatcher)) [
    | inl a ↦ ground (
      arith,
      a,
      h,
      own,
      any-append (λ t. matches x t.item) w.timers
          ((record { delay = act.delay; item = record it { attempt = act.next_attempt } }) ∷ []),
    )
    | inr a ↦ ground (arith, a, h, own, idle-matches x w.dispatcher it)
  ]

  settle-found :
      (run : ℕ) (res : RunResult) (act : Action)
      → (active x w.dispatcher ≡ true → matches x it || (rest || is_lodged x w) ≡ true)
      → active x (settle run it res act w).dispatcher ≡ true
      → rest || is_lodged x (settle run it res act w) ≡ true
  unfolding settle mark_ready mark_failed
  settle-found run res act h =
      either (λ v. active x v.dispatcher ≡ true → rest || is_lodged x v ≡ true) act.mark_failed _ _
        (finish-found _ h)
        (either (λ v. active x v.dispatcher ≡ true → rest || is_lodged x v ≡ true) act.redispatch _
          _ (redispatch-found run act h) (finish-found _ h))

  begun-found :
      (b : Option ℕ × Dispatcher)
      → b.1.ch ≡ w.dispatcher.ch
      → (b.0 ≡ none → active x b.1 ≡ true → matches x it ≡ false)
      → (active x b.1 ≡ true → active x w.dispatcher ≡ true)
      → (active x w.dispatcher ≡ true → matches x it || (rest || is_lodged x w) ≡ true)
      → active x (begun it b w).0.dispatcher ≡ true
      → is_carried x (begun it b w).1 || (rest || is_lodged x (begun it b w).0) ≡ true
  unfolding begun is_lodged is_carried
  begun-found (none, d) same idle back h own = ground (arith, same, h, back own, idle refl own)
  begun-found (some run, d) same idle back h own = ground (arith, same, h, back own)

  begin-found :
      (active x w.dispatcher ≡ true → matches x it || (rest || is_lodged x w) ≡ true)
      → active x (begun it (begin_run it w.dispatcher) w).0.dispatcher ≡ true
      → is_carried x (begun it (begin_run it w.dispatcher) w).1
          || (rest || is_lodged x (begun it (begin_run it w.dispatcher) w).0)
        ≡ true
  begin-found h own =
      begun-found (begin_run it w.dispatcher) (begin-ch x w.dispatcher it)
        (begin-none x w.dispatcher it) (begin-active x w.dispatcher it) h own

  pub move-found :
      (cfg : Config) (m : Move)
      → (active x w.dispatcher ≡ true → matches x it || (rest || is_lodged x w) ≡ true)
      → active x (move cfg m it w).0.dispatcher ≡ true
      → is_carried x (move cfg m it w).1 || (rest || is_lodged x (move cfg m it w).0) ≡ true
  unfolding move is_carried
  move-found cfg send h own = sent-found cfg h own
  move-found cfg releases h own = release-found h own
  move-found cfg begin h own = begin-found h own
  move-found cfg give_up h own = ground (arith, h, own, idle-matches x w.dispatcher it)
  move-found cfg (settles run res act) h own = settle-found run res act h own
