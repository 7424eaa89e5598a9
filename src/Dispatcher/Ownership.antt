-- ===== src/Dispatcher/Ownership.antt =====
-- The single-owner guard of internal/dispatch/dispatcher.go under every interleaving of its
-- critical sections.
use reading_lite_next.Prelude.{
  length, [], ◌++◌, ◌+◌, ◌%◌, ◌<◌, ◌≤◌, ◌≡◌, ◌≢◌, inl, inr, false, none, some, List, ◌∷◌, arith,
  eq_iff, Option-cases,
}
use reading_lite_next.Dict
use reading_lite_next.Dict.{get-put, get-remove}
use reading_lite_next.Dispatch.{Item}
use reading_lite_next.Dispatcher.{
  Dispatcher, Config, token_mod, active, claim, release, begin_run, force_claim, buffer_size,
}

-- The critical sections, of any thread and about any item, and the operations on the channel. The send
-- of `queueClaimed` is not under the lock of its check, and that of `enqueueRecovered` has no check, so
-- any item may be sent. A thread takes a token only while the 64-bit counter does not wrap.
pub data Step (cfg : Config) (d : Dispatcher) : Dispatcher → Type 0 where
  claims : (it : Item) → d.next_token + 1 < token_mod → Step cfg d (claim it d).1
  forces : (it : Item) → d.next_token + 1 < token_mod → Step cfg d (force_claim it d).1
  releases : (it : Item) → Step cfg d (release it d)
  begins : (it : Item) → Step cfg d (begin_run it d).1
  sends :
      (it : Item) → length d.ch < buffer_size cfg → Step cfg d (record d { ch = d.ch ++ (it ∷ []) })
  receives : (it : Item) (rest : List Item) → d.ch ≡ it ∷ rest → Step cfg d (record d { ch = rest })

pub data Steps (cfg : Config) (d : Dispatcher) : Dispatcher → Type 0 where
  here : Steps cfg d d
  next : {e f : Dispatcher} → Steps cfg d e → Step cfg e f → Steps cfg d f

-- An item that lost its id: its token was given out, and is not the claim's.
pub record IsSuperseded (it : Item) (d : Dispatcher) : Type 0 where
  pub given : it.token ≤ d.next_token
  pub lost : active it d ≡ false

force_claim-IsSuperseded :
    (x it : Item) (d : Dispatcher)
    → d.next_token + 1 < token_mod
    → it.token ≤ d.next_token
    → (x.id ≢ it.id → active it d ≡ false)
    → IsSuperseded it (force_claim x d).1
unfolding force_claim active
force_claim-IsSuperseded x it d h given other = elim (Option-cases (Dict.get x.id d.inflight)) [
  | inl e ↦ ground (
    arith,
    e,
    other,
    get-put x.id it.id
        (record { token = (d.next_token + 1) % token_mod; cancel = none; done = none }) d.inflight,
    eq_iff x.id it.id,
  )
  | inr (current, e) ↦ ground (
    arith,
    e,
    other,
    get-put x.id it.id
        (record { token = (d.next_token + 1) % token_mod; cancel = none; done = current.done })
        d.inflight,
    eq_iff x.id it.id,
  )
]

module _ (it : Item) (d : Dispatcher) where
  claim-IsSuperseded :
      (x : Item) → d.next_token + 1 < token_mod → IsSuperseded it d → IsSuperseded it (claim x d).1
  unfolding claim active
  claim-IsSuperseded x h s = ground (
    arith,
    get-put x.id it.id
        (record { token = (d.next_token + 1) % token_mod; cancel = none; done = none }) d.inflight,
    eq_iff x.id it.id,
  )

  force-IsSuperseded :
      (x : Item)
      → d.next_token + 1 < token_mod
      → IsSuperseded it d
      → IsSuperseded it (force_claim x d).1
  force-IsSuperseded x h s = force_claim-IsSuperseded x it d h s.given (λ same. s.lost)

  release-IsSuperseded : (x : Item) → IsSuperseded it d → IsSuperseded it (release x d)
  unfolding release active
  release-IsSuperseded x s = ground (arith, get-remove x.id it.id d.inflight, eq_iff x.id it.id)

  begin-IsSuperseded : (x : Item) → IsSuperseded it d → IsSuperseded it (begin_run x d).1
  unfolding begin_run active
  begin-IsSuperseded x s = ground (
    arith,
    get-put x.id it.id
        (record { token = x.token; cancel = some d.next_run; done = some d.next_run }) d.inflight,
    eq_iff x.id it.id,
  )

  Step-IsSuperseded :
      {cfg : Config} {e : Dispatcher} → Step cfg d e → IsSuperseded it d → IsSuperseded it e
  unfolding active
  Step-IsSuperseded (claims x h) s = claim-IsSuperseded x h s
  Step-IsSuperseded (forces x h) s = force-IsSuperseded x h s
  Step-IsSuperseded (releases x) s = release-IsSuperseded x s
  Step-IsSuperseded (begins x) s = begin-IsSuperseded x s
  Step-IsSuperseded (sends x room) s = record { given = s.given; lost = s.lost }
  Step-IsSuperseded (receives x rest h) s = record { given = s.given; lost = s.lost }

pub Steps-IsSuperseded :
    (it : Item) {cfg : Config} {d e : Dispatcher}
    → Steps cfg d e
    → IsSuperseded it d
    → IsSuperseded it e
Steps-IsSuperseded it here s = s
Steps-IsSuperseded it (next {e} ds st) s = Step-IsSuperseded it e st (Steps-IsSuperseded it ds s)

pub taken_over-IsSuperseded :
    (x it : Item) (d : Dispatcher)
    → x.id ≡ it.id
    → it.token ≤ d.next_token
    → d.next_token + 1 < token_mod
    → IsSuperseded it (force_claim x d).1
taken_over-IsSuperseded x it d same given h =
    force_claim-IsSuperseded x it d h given (λ other. absurd (other same))
