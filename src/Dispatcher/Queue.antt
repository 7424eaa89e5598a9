-- ===== src/Dispatcher/Queue.antt =====
-- The bounded channel of internal/dispatch/dispatcher.go: what `Submit` does with a duplicate, with
-- room and with none.
use reading_lite_next.Prelude.{
  ◌+◌, ◌<◌, ◌≤◌, ◌%◌, String, ◌≡◌, refl, true, none, some, [], ◌∷◌, ◌++◌, arith, eq_iff, length,
  Bool, ltb, is_some, if◌then◌else◌, ◌||◌, Option-cases, inl, inr, false,
}
use reading_lite_next.Dict
use reading_lite_next.Dict.{Dict, get-put, get-remove}
use reading_lite_next.Dispatch.{Item}
use reading_lite_next.Dispatcher.{
  Dispatcher, Claim, Config, token_mod, buffer_size, active, claim, release, queue_claimed, submit,
}

abbrev pub next_item : String → Dispatcher → Item
next_item id d = record { id = id; attempt = 0; token = (d.next_token + 1) % token_mod }

abbrev new_claim : Dispatcher → Claim
new_claim d = record { token = (d.next_token + 1) % token_mod; cancel = none; done = none }

-- A `Submit` of an id that is queued or in flight changes nothing.
submit-duplicate :
    (cfg : Config) (id : String) (d : Dispatcher) (c : Claim)
    → Dict.get id d.inflight ≡ some c
    → submit cfg id d ≡ d
unfolding submit claim
submit-duplicate cfg id d c h = ground (arith, h)

-- A `Submit` of a free id, with room in the channel, puts its item last in the channel at attempt 0
-- under a new token, and this item owns the id.
submit-room :
    (cfg : Config) (id : String) (d : Dispatcher)
    → Dict.get id d.inflight ≡ none
    → length d.ch < buffer_size cfg
    → ((submit cfg id d).ch ≡ d.ch ++ (next_item id d ∷ []))
      × (active (next_item id d) (submit cfg id d) ≡ true)
unfolding submit claim queue_claimed active release
submit-room cfg id d h room =
    let fresh = get-put id id (new_claim d) d.inflight in
    (ground (arith, h, room, fresh, eq_iff id id), ground (arith, h, room, fresh, eq_iff id id))

-- A `Submit` of a free id to a full channel keeps the channel and leaves the id free.
submit-full :
    (cfg : Config) (id : String) (d : Dispatcher)
    → Dict.get id d.inflight ≡ none
    → buffer_size cfg ≤ length d.ch
    → ((submit cfg id d).ch ≡ d.ch) × (Dict.get id (submit cfg id d).inflight ≡ none)
unfolding submit claim queue_claimed active release
submit-full cfg id d h full =
    let fresh = get-put id id (new_claim d) d.inflight in
    let gone = get-remove id id (Dict.put id (new_claim d) d.inflight) in
    (
      ground (arith, h, full, fresh, eq_iff id id),
      ground (arith, h, full, fresh, eq_iff id id, gone),
    )

submit-free :
    (cfg : Config) (id : String) (d : Dispatcher) (room : Bool)
    → Dict.get id d.inflight ≡ none
    → ltb (length d.ch) (buffer_size cfg) ≡ room
    → ((submit cfg id d).ch ≡ (if room then d.ch ++ (next_item id d ∷ []) else d.ch))
      × (is_some (Dict.get id (submit cfg id d).inflight) ≡ room)
unfolding active
submit-free cfg id d true free h =
    let (queued, owned) = submit-room cfg id d free (ground (arith, h)) in
    (queued, ground (arith, owned))
submit-free cfg id d false free h =
    let (same, gone) = submit-full cfg id d free (ground (arith, h)) in (same, ground (arith, gone))

-- What a `Submit` leaves, on every branch: the channel grows, by the id's item under a new token,
-- exactly when the id was free and the channel had room; the id is owned afterwards exactly when it
-- was owned before or its item is now queued.
pub submit-outcome :
    (cfg : Config) (id : String) (d : Dispatcher)
    → let owned = is_some (Dict.get id d.inflight) in
      let room = ltb (length d.ch) (buffer_size cfg) in
      ((submit cfg id d).ch
        ≡ (if owned then d.ch else if room then d.ch ++ (next_item id d ∷ []) else d.ch))
      × (is_some (Dict.get id (submit cfg id d).inflight) ≡ owned || room)
submit-outcome cfg id d = elim (Option-cases (Dict.get id d.inflight)) [
  | inl free ↦ rw (free) (submit-free cfg id d (ltb (length d.ch) (buffer_size cfg)) free refl)
  | inr (c, at) ↦ rw (at, submit-duplicate cfg id d c at) (refl, rw (at) refl)
]
