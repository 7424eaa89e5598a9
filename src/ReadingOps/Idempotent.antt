-- ===== src/ReadingOps/Idempotent.antt =====
-- The idempotency of `IngestURL` in internal/readingops/service.go: one reading for a URL key,
-- whatever other threads store between the look-up and the write.
use text.Mathlib.TextPositions.{eq_refl}
use reading_lite_next.Prelude.{
  ◌+◌, String, ◌≡◌, refl, ◌∙◌, ap, Bool, true, false, Option, none, some, arith, if◌then◌else◌, inl,
  inr, Option-cases, Bool-cases,
}
use reading_lite_next.Dict
use reading_lite_next.Dict.{Dict, get-put}
use reading_lite_next.Errors.{
  Error, Context, is, not_found, conflict, Result, ok, err, Result-cases,
}
use reading_lite_next.Reading.{Time, Reading, failed, same_status}
use reading_lite_next.Store.Types.{ReprocessFields}
use reading_lite_next.Store.Memory.{
  Memory, save_reading, get_by_url_key, get_by_id, update_reading, write_back, update_found,
}
use reading_lite_next.Store.Updates.{reprocess, reprocess_change}
use reading_lite_next.Store.Calls.{saves, reprocesses, execute}
use reading_lite_next.Store.Index.{IsIndexed, execute-IsIndexed}
use reading_lite_next.Dispatcher.Handle.{World}
use reading_lite_next.ReadingOps.{
  Service, Ops, StatusResult, ingest_url, ingest_key, mark_pending, after_reset, create, saved,
  raced, reprocess_fields, new_row, current, queued,
}

-- The reading that the index has under a key.
pub get_by_url_key-id :
    (ctx : Context) (key : String) (m : Memory) (r : Reading)
    → IsIndexed m
    → (get_by_url_key ctx key m).0 ≡ ok r
    → Dict.get key m.by_url_key ≡ some r.id
unfolding get_by_url_key
get_by_url_key-id (some s) key m r v h = absurd (cc (h))
get_by_url_key-id none key m r v h = elim (Option-cases (Dict.get key m.by_url_key)) [
  | inl e ↦ ground (arith, e, h)
  | inr (id, e) ↦
      let (row, at, _) = v.key_row key id e in ground (arith, e, at, h, v.row_id id row at)
]

-- The index has an id under a key, in an indexed store.
pub record Stores (key id : String) (m : Memory) : Type 0 where
  pub indexed : IsIndexed m
  pub filed : Dict.get key m.by_url_key ≡ some id

write_back-keys :
    (id : String) (r : Result Reading) (m : Memory)
    → (write_back id r m).1.by_url_key ≡ m.by_url_key
write_back-keys id (ok r) m = refl
write_back-keys id (err e) m = refl

update_found-keys :
    (id : String) (change : Reading → Result Reading) (r : Option Reading) (m : Memory)
    → (update_found id change r m).1.by_url_key ≡ m.by_url_key
update_found-keys id change none m = refl
update_found-keys id change (some r) m = write_back-keys id (change r) m

update_reading-keys :
    (ctx : Context) (id : String) (change : Reading → Result Reading) (m : Memory)
    → (update_reading ctx id change m).1.by_url_key ≡ m.by_url_key
unfolding update_reading
update_reading-keys (some s) id change m = refl
update_reading-keys none id change m = update_found-keys id change (Dict.get id m.by_id) m

reprocess-Stores :
    (ctx : Context) (id : String) (f : ReprocessFields) (wall : Time) (key own : String)
    (m : Memory)
    → Stores key own m
    → Stores key own (reprocess ctx id f wall m).1
unfolding reprocess execute
reprocess-Stores ctx id f wall key own m s = record {
  indexed = execute-IsIndexed ctx wall (reprocesses id f) m s.indexed;
  filed = rw (update_reading-keys ctx id (reprocess_change f wall) m) s.filed;
}

mark_pending-Stores :
    (ctx : Context) (id key own : String) (w : World)
    → Stores key own w.store
    → Stores key own (mark_pending ctx id w).1.store
unfolding mark_pending
mark_pending-Stores ctx id key own w s = elim (Result-cases (get_by_id ctx id w.store).0) [
  | inl (r, e) ↦ rw e (reprocess-Stores ctx id (reprocess_fields r w) w.now key own w.store s)
  | inr (f, e) ↦ rw e s
]

raced-id :
    (e : Error) (got : Result Reading) (key : String) (m : Memory) (s : Ops) (res : StatusResult)
    → ((r : Reading) → got ≡ ok r → Dict.get key m.by_url_key ≡ some r.id)
    → (raced e got s).0 ≡ ok res
    → (Dict.get key m.by_url_key ≡ some res.id) × ((raced e got s).1 ≡ s)
unfolding raced
raced-id e (ok r) key m s res filed h = (filed r refl ∙ ap some (ground (arith, h)), refl)
raced-id e (err f) key m s res filed h = absurd (ground (arith, h))

conflict-Stores :
    (b : Bool) (e : Error) (ctx : Context) (key : String) (s t : Ops) (res : StatusResult)
    → IsIndexed t.world.store
    → (if b then raced e (get_by_url_key ctx key t.world.store).0 t else (err e, s)).0 ≡ ok res
    → Stores key res.id
        (if b then raced e (get_by_url_key ctx key t.world.store).0 t else (err e, s)).1.world.store
conflict-Stores true e ctx key s t res v h =
    let (filed, unchanged) =
      raced-id e (get_by_url_key ctx key t.world.store).0 key t.world.store t res
        (λ r g. get_by_url_key-id ctx key t.world.store r v g) h in
    rw unchanged (record { indexed = v; filed = filed })
conflict-Stores false e ctx key s t res v h = absurd (ground (arith, h))

-- What other threads do meanwhile keeps the index, and keeps each key with its id.
pub record Keeps (others : Ops → Ops) : Type 0 where
  pub indexed : (s : Ops) → IsIndexed s.world.store → IsIndexed (others s).world.store
  pub filed :
      (s : Ops) (key id : String)
      → Stores key id s.world.store
      → Stores key id (others s).world.store

saved-Stores :
    (svc : Service) (others : Ops → Ops) (ctx : Context) (key id : String)
    (save : Result (Unit {0}) × Memory) (s : Ops) (res : StatusResult)
    → Keeps others
    → IsIndexed s.world.store
    → (save.0 ≡ ok tt → Stores key id save.1)
    → ((e : Error) → save.0 ≡ err e → save.1 ≡ s.world.store)
    → (saved svc others ctx key id save s).0 ≡ ok res
    → Stores key res.id (saved svc others ctx key id save s).1.world.store
unfolding saved
saved-Stores svc others ctx key id (ok tt, m) s res keeps v good bad h =
    let same : id ≡ res.id = ground (arith, h) in rw (← same) (good refl)
saved-Stores svc others ctx key id (err e, m) s res keeps v good bad h =
    let indexed : IsIndexed m = rw (bad e refl) v in
    conflict-Stores (is e conflict) e ctx key _ _ res
      (keeps.indexed (record s { world = record s.world { store = m } }) indexed) h

save_reading-keys :
    (ctx : Context) (r : Reading) (m : Memory)
    → ((save_reading ctx r m).0 ≡ ok tt
        → Dict.get r.url_key (save_reading ctx r m).1.by_url_key ≡ some r.id)
      × ((e : Error) → (save_reading ctx r m).0 ≡ err e → (save_reading ctx r m).1 ≡ m)
unfolding save_reading
save_reading-keys (some c) r m = (λ h. absurd (ground (arith, h)), λ e h. refl)
save_reading-keys none r m = elim (Option-cases (Dict.get r.id m.by_id)) [
  | inr (_, taken) ↦ rw taken (λ h. absurd (ground (arith, h)), λ e h. refl)
  | inl free ↦ elim (Option-cases (Dict.get r.url_key m.by_url_key)) [
    | inr (_, taken) ↦ rw (free, taken) (λ h. absurd (ground (arith, h)), λ e h. refl)
    | inl unfiled ↦
        rw (free, unfiled) (λ h. simp (get-put, eq_refl), λ e h. absurd (ground (arith, h)))
  ]
]

save-Stores :
    (ctx : Context) (r : Reading) (m : Memory)
    → IsIndexed m
    → (save_reading ctx r m).0 ≡ ok tt
    → Stores r.url_key r.id (save_reading ctx r m).1
unfolding execute
save-Stores ctx r m v h = record {
  indexed = execute-IsIndexed ctx 0 (saves r) m v;
  filed = (save_reading-keys ctx r m).0 h;
}

create-Stores :
    (svc : Service) (others : Ops → Ops) (ctx : Context) (raw key : String) (s : Ops)
    (res : StatusResult)
    → Keeps others
    → IsIndexed s.world.store
    → (create svc others ctx raw key s).0 ≡ ok res
    → Stores key res.id (create svc others ctx raw key s).1.world.store
unfolding create
create-Stores svc others ctx raw key s res keeps v h =
    let id = svc.new_id s.issued in
    let r = new_row svc raw key id s.world in
    saved-Stores svc others ctx key id (save_reading ctx r s.world.store)
      (record s { issued = s.issued + 1 }) res keeps v (save-Stores ctx r s.world.store v)
      (save_reading-keys ctx r s.world.store).1 h

after_reset-Stores :
    (svc : Service) (key id : String) (done : Result (Unit {0}) × World) (s : Ops)
    (res : StatusResult)
    → Stores key id done.1.store
    → (after_reset svc id done s).0 ≡ ok res
    → Stores key res.id (after_reset svc id done s).1.world.store
after_reset-Stores svc key id (ok tt, w) s res filed h =
    let same : id ≡ res.id = ground (arith, h) in rw (← same) filed
after_reset-Stores svc key id (err e, w) s res filed h = absurd (ground (arith, h))

existing-Stores :
    (b : Bool) (svc : Service) (ctx : Context) (key : String) (r : Reading) (s t : Ops)
    (res : StatusResult)
    → Stores key r.id s.world.store
    → Stores key r.id t.world.store
    → (if b then after_reset svc r.id (mark_pending ctx r.id t.world) t else (ok (current r), s)).0
      ≡ ok res
    → Stores key res.id
        (if b
          then after_reset svc r.id (mark_pending ctx r.id t.world) t
          else (ok (current r), s)).1.world.store
existing-Stores true svc ctx key r s t res filed later h =
    after_reset-Stores svc key r.id (mark_pending ctx r.id t.world) t res
      (mark_pending-Stores ctx r.id key r.id t.world later) h
existing-Stores false svc ctx key r s t res filed later h =
    let same : r.id ≡ res.id = ground (arith, h) in rw (← same) filed

missing-Stores :
    (b : Bool) (e : Error) (svc : Service) (others : Ops → Ops) (ctx : Context) (raw key : String)
    (s t : Ops) (res : StatusResult)
    → Keeps others
    → IsIndexed t.world.store
    → (if b then create svc others ctx raw key t else (err e, s)).0 ≡ ok res
    → Stores key res.id (if b then create svc others ctx raw key t else (err e, s)).1.world.store
missing-Stores true e svc others ctx raw key s t res keeps v h =
    create-Stores svc others ctx raw key t res keeps v h
missing-Stores false e svc others ctx raw key s t res keeps v h = absurd (ground (arith, h))

ingest_key-Stores :
    (svc : Service) (others : Ops → Ops) (ctx : Context) (raw key : String) (got : Result Reading)
    (s : Ops) (res : StatusResult)
    → Keeps others
    → IsIndexed s.world.store
    → ((r : Reading) → got ≡ ok r → Dict.get key s.world.store.by_url_key ≡ some r.id)
    → (ingest_key svc others ctx raw key got s).0 ≡ ok res
    → Stores key res.id (ingest_key svc others ctx raw key got s).1.world.store
unfolding ingest_key
ingest_key-Stores svc others ctx raw key (ok r) s res keeps v filed h =
    let now : Stores key r.id s.world.store = record { indexed = v; filed = filed r refl } in
    existing-Stores (same_status r.status failed) svc ctx key r s (others s) res now
      (keeps.filed s key r.id now) h
ingest_key-Stores svc others ctx raw key (err e) s res keeps v filed h =
    missing-Stores (is e not_found) e svc others ctx raw key s (others s) res keeps
      (keeps.indexed s v) h

ingest_url-Stores :
    (svc : Service) (others : Ops → Ops) (ctx : Context) (raw key : String) (s : Ops)
    (res : StatusResult)
    → svc.rules.url_key raw ≡ ok key
    → Keeps others
    → IsIndexed s.world.store
    → (ingest_url svc others ctx raw s).0 ≡ ok res
    → Stores key res.id (ingest_url svc others ctx raw s).1.world.store
unfolding ingest_url
ingest_url-Stores svc others ctx raw key s res parsed keeps v = rw parsed (
    ingest_key-Stores svc others ctx raw key (get_by_url_key ctx key s.world.store).0 s res keeps v
      (λ r g. get_by_url_key-id ctx key s.world.store r v g))

mark_pending-ok :
    (id : String) (r : Reading) (w : World)
    → Dict.get id w.store.by_id ≡ some r
    → (mark_pending none id w).0 ≡ ok tt
unfolding mark_pending get_by_id reprocess update_reading reprocess_change
mark_pending-ok id r w at = rw at (ground (arith, at))

after_reset-ok :
    (svc : Service) (id : String) (p : Result (Unit {0}) × World) (s : Ops)
    → p.0 ≡ ok tt
    → (after_reset svc id p s).0 ≡ ok (queued id false)
after_reset-ok svc id (ok tt, w) s h = refl
after_reset-ok svc id (err e, w) s h = absurd (ground (arith, h))

-- Ingesting a URL whose key is already filed, in a live context, succeeds, returns the id that is
-- filed, and creates nothing.
ingest_filed :
    (svc : Service) (others : Ops → Ops) (raw key id : String) (s : Ops)
    → svc.rules.url_key raw ≡ ok key
    → Keeps others
    → Stores key id s.world.store
    → (res : StatusResult) × ((ingest_url svc others none raw s).0 ≡ ok res)
      × (res.id ≡ id)
      × (res.created ≡ false)
unfolding ingest_url get_by_url_key ingest_key
ingest_filed svc others raw key id s parsed keeps filed =
    let (r, at, _) = filed.indexed.key_row key id filed.filed in
    let same = filed.indexed.row_id id r at in
    let later = keeps.filed s key id filed in
    let (r', at', _) = later.indexed.key_row key id later.filed in
    elim (Bool-cases (same_status r.status failed)) [
      | inr settled ↦ (current r, rw (parsed, filed.filed, at, settled) refl, same, refl)
      | inl bad ↦ (
        queued r.id false,
        rw (parsed, filed.filed, at, bad)
            (after_reset-ok svc r.id _ (others s) (
              mark_pending-ok r.id r' (others s).world
                (ap (λ i. Dict.get i (others s).world.store.by_id) same ∙ at'))),
        same,
        refl,
      )
    ]

-- After an ingest that returned an id, its URL key is filed under this id in an indexed store. An
-- ingest of a URL with this key in any later state, in a live context, succeeds, returns the same id,
-- and creates nothing. The store is indexed at first. What other threads do between the look-up of an
-- ingest and its write, before its second look-up after a conflict, and between the two ingests keeps
-- the index and takes no key from its reading, as a deletion would.
pub ingest_url_twice :
    (svc : Service) (others others' later : Ops → Ops) (ctx : Context) (raw raw' key : String)
    (s : Ops) (res : StatusResult)
    → svc.rules.url_key raw ≡ ok key
    → svc.rules.url_key raw' ≡ ok key
    → Keeps others
    → Keeps later
    → Keeps others'
    → IsIndexed s.world.store
    → (ingest_url svc others ctx raw s).0 ≡ ok res
    → Stores key res.id (ingest_url svc others ctx raw s).1.world.store
      × ((again : StatusResult) × ((ingest_url svc others' none raw'
              (later (ingest_url svc others ctx raw s).1)).0
            ≡ ok again)
          × (again.id ≡ res.id)
          × (again.created ≡ false))
ingest_url_twice svc others others' later ctx raw raw' key s res parsed parsed' keeps between keeps'
      v h =
    let filed = ingest_url-Stores svc others ctx raw key s res parsed keeps v h in
    (
      filed,
      ingest_filed svc others' raw' key res.id _ parsed' keeps' (between.filed _ key res.id filed),
    )
