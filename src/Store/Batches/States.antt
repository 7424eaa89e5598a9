-- ===== src/Store/Batches/States.antt =====
-- The states that a manual batch passes through.
use reading_lite_next.Prelude.{
  String, ◌≡◌, inl, inr, true, false, none, some, [], arith, eq_iff, str_eq, Bool-cases, is_some,
  ◌||◌,
}
use reading_lite_next.Dict
use reading_lite_next.Dict.{get-put}
use reading_lite_next.Errors.{Context}
use reading_lite_next.Reading.{Time}
use reading_lite_next.Store.Types.{
  BatchState, ManualBatch, BatchCreateFields, BatchSubmitFields, BatchStateFields,
}
use reading_lite_next.Store.Memory.{Memory, now_or}
use reading_lite_next.Store.Batches.{JsonCodec, same_batch_state, valid_batch_transition}
use reading_lite_next.Store.Batches.Create.{clash, create_planned_batch, planned_batch}
use reading_lite_next.Store.Batches.Submit.{submit_batch, submitted_batch}
use reading_lite_next.Store.Batches.Update.{update_batch_state, moved_batch, move_refused}
use reading_lite_next.Store.Batches.Calls.{
  BatchCall, creates, submits, moves, writes, applies, execute_batch,
}
use reading_lite_next.Store.Batches.Moves.{moved_batch-state}
use reading_lite_next.Store.Batches.Preserve.{submit_cases, move_cases, write_cases, apply_cases}

-- The lifecycle of a batch. An open batch is planned, submitted or has its results.
pub data IsOpen : BatchState → Type 0 where
  planned : IsOpen BatchState.planned
  submitted : IsOpen BatchState.submitted
  results_ready : IsOpen BatchState.results_ready

pub data Advances : BatchState → BatchState → Type 0 where
  stays : {s : BatchState} → Advances s s
  submission : Advances BatchState.planned BatchState.submitted
  results : Advances BatchState.submitted BatchState.results_ready
  application : Advances BatchState.results_ready BatchState.applied
  cancellation : {s : BatchState} → IsOpen s → Advances s BatchState.canceled
  failure : {s : BatchState} → IsOpen s → Advances s BatchState.failed

abbrev AdvancedAt : String → ManualBatch → Memory → Type 0
AdvancedAt id b m' =
    (b' : ManualBatch) × (Dict.get id m'.batches ≡ some b') × Advances b.state b'.state

-- Writing a batch that advances.
put-AdvancedAt :
    (id : String) (b : ManualBatch) (m : Memory) (j : String) (old new : ManualBatch)
    → Dict.get id m.batches ≡ some b
    → Dict.get j m.batches ≡ some old
    → Advances old.state new.state
    → (b' : ManualBatch) × (Dict.get id (Dict.put j new m.batches) ≡ some b')
      × Advances b.state b'.state
put-AdvancedAt id b m j old new at at_j step = elim (Bool-cases (str_eq j id)) [
  | inl hit ↦
      let same : old ≡ b = ground (arith, eq_iff j id) in
      (new, ground (arith, get-put j id new m.batches), rw (← same) step)
  | inr miss ↦ (b, ground (arith, get-put j id new m.batches), stays)
]

transition-Advances : (s t : BatchState) → valid_batch_transition s t ≡ true → Advances s t
unfolding valid_batch_transition
transition-Advances BatchState.planned BatchState.canceled h = cancellation planned
transition-Advances BatchState.planned BatchState.failed h = failure planned
transition-Advances BatchState.submitted BatchState.results_ready h = results
transition-Advances BatchState.submitted BatchState.canceled h = cancellation submitted
transition-Advances BatchState.submitted BatchState.failed h = failure submitted
transition-Advances BatchState.results_ready BatchState.applied h = application
transition-Advances BatchState.results_ready BatchState.canceled h = cancellation results_ready
transition-Advances BatchState.results_ready BatchState.failed h = failure results_ready
transition-Advances _ _ h = absurd (cc)

same-Advances : (s t : BatchState) → same_batch_state s t ≡ true → Advances s t
same-Advances s t h = let e : s ≡ t = ground arith in rw e stays

moved-Advances :
    (id : String) (s : BatchState) (f : BatchStateFields) (now : Time) (b : ManualBatch)
    (m : Memory)
    → move_refused id s b m ≡ false
    → Advances b.state (moved_batch s f now b).state
unfolding move_refused
moved-Advances id s f now b m taken =
    rw (moved_batch-state s f now b) (elim (Bool-cases (same_batch_state b.state s)) [
      | inl same ↦ same-Advances b.state s same
      | inr new ↦ transition-Advances b.state s (ground arith)
    ])

abbrev IsAt : String → ManualBatch → Memory → Type 0
IsAt id b m = Dict.get id m.batches ≡ some b

create-AdvancedAt :
    (json : JsonCodec) (ctx : Context) (f : BatchCreateFields) (wall : Time) (m : Memory)
    (id : String) (b : ManualBatch)
    → IsAt id b m
    → AdvancedAt id b (create_planned_batch json ctx f wall m).1
unfolding create_planned_batch
create-AdvancedAt json (some s) f wall m id b at = (b, at, stays)
create-AdvancedAt json none f wall m id b at =
    elim (Bool-cases
      (is_some (Dict.get f.id m.batches) || clash json.valid m.batch_items [] [] f.items)) [
        | inl refused ↦ rw refused (b, at, stays)
        | inr fits ↦ rw fits (
          b,
          ground (
            arith,
            get-put f.id id (planned_batch f.id (now_or wall f.now)) m.batches,
            eq_iff f.id id,
          ),
          stays,
        )
      ]

submit-AdvancedAt :
    (ctx : Context) (j : String) (f : BatchSubmitFields) (wall : Time) (m : Memory) (id : String)
    (b : ManualBatch)
    → IsAt id b m
    → AdvancedAt id b (submit_batch ctx j f wall m).1
submit-AdvancedAt ctx j f wall m id b at =
    submit_cases (AdvancedAt id b) ctx j f wall m (b, at, stays)
      λ old at_j was_planned _.
        put-AdvancedAt id b m j old (submitted_batch f (now_or wall f.now) old) at at_j
          (rw was_planned submission)

move-AdvancedAt :
    (ctx : Context) (j : String) (s : BatchState) (f : BatchStateFields) (wall : Time) (m : Memory)
    (id : String) (b : ManualBatch)
    → IsAt id b m
    → AdvancedAt id b (update_batch_state ctx j s f wall m).1
move-AdvancedAt ctx j s f wall m id b at =
    move_cases (AdvancedAt id b) ctx j s f wall m (b, at, stays)
      λ old at_j taken.
        put-AdvancedAt id b m j old (moved_batch s f (now_or wall f.now) old) at at_j
          (moved-Advances j s f (now_or wall f.now) old m taken)

-- A batch operation, refused or not, forgets no batch, and the state of each batch stays or takes
-- one step of the lifecycle: planned, submitted, results ready, applied, with a way out to canceled
-- or failed from each of the first three. An applied, canceled or failed batch stays so.
pub execute_batch-AdvancedAt :
    (json : JsonCodec) (ctx : Context) (wall : Time) (c : BatchCall) (m : Memory) (id : String)
    (b : ManualBatch)
    → Dict.get id m.batches ≡ some b
    → (b' : ManualBatch) × (Dict.get id (execute_batch json ctx wall c m).1.batches ≡ some b')
      × Advances b.state b'.state
unfolding execute_batch
execute_batch-AdvancedAt json ctx wall (creates f) m id b at =
    create-AdvancedAt json ctx f wall m id b at
execute_batch-AdvancedAt json ctx wall (submits j f) m id b at =
    submit-AdvancedAt ctx j f wall m id b at
execute_batch-AdvancedAt json ctx wall (moves j s f) m id b at =
    move-AdvancedAt ctx j s f wall m id b at
execute_batch-AdvancedAt json ctx wall (writes c f) m id b at =
    write_cases (AdvancedAt id b) json ctx c f wall m (b, at, stays) (λ _ _ _. (b, at, stays))
execute_batch-AdvancedAt json ctx wall (applies c f) m id b at =
    apply_cases (AdvancedAt id b) ctx c f wall m (b, at, stays) (λ _ _ _. (b, at, stays))
