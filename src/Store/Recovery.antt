-- ===== src/Store/Recovery.antt =====
-- `ListNonTerminal` of internal/store/memory.go, which crash recovery reads.
use mathlib.Core.List.{Memᴰ}
use reading_lite_next.Prelude.{
  ◌<◌, String, ◌≡◌, ◌↔◌, ◌⊎◌, inl, inr, refl, ap, ◌∙◌, true, some, List, [], ◌∷◌, arith, Bool-cases,
}
use reading_lite_next.Dict
use reading_lite_next.Dict.Entries.{get-mem}
use reading_lite_next.Reading.{Time, Reading, pending, running}
use reading_lite_next.Errors.{background, ok}
use reading_lite_next.Store.Types.{Pending}
use reading_lite_next.Store.Memory.{
  Memory, recoverable, pending_row, pending_rows, list_non_terminal,
}
use reading_lite_next.Store.Index.{IsIndexed}

-- Left non-terminal by a crash: still `pending`, or `running` since before the cutoff.
abbrev pub IsLeftOver : Time → Reading → Type 0
IsLeftOver cutoff r =
    (r.status ≡ pending)
    ⊎ ((r.status ≡ running) × ((t : Time) × (r.started_at ≡ some t) × (t < cutoff)))

recoverable-IsLeftOver :
    (cutoff : Time) (r : Reading) → (recoverable cutoff r ≡ true) ↔ IsLeftOver cutoff r
unfolding recoverable
recoverable-IsLeftOver cutoff r = (λ h. ground arith, λ h. ground arith)

rows-mem :
    (cutoff : Time) (p : Pending) (rows : List (String × Reading))
    → Memᴰ p (pending_rows cutoff rows)
    → (k : String) × (r : Reading) × Memᴰ (k, r) rows
      × (recoverable cutoff r ≡ true)
      × (p ≡ pending_row r)
unfolding pending_rows
rows-mem cutoff p [] m = elim m [ ]
rows-mem cutoff p ((k, r) ∷ rows) m = elim (Bool-cases (recoverable cutoff r)) [
  | inl listed ↦ here_or_later (rw listed at m) (rows-mem cutoff p rows) listed
  | inr passed ↦ later (rows-mem cutoff p rows (rw passed at m))
]
  where
    Found : List (String × Reading) → Type 0
    Found l =
        (j : String) × (x : Reading) × Memᴰ (j, x) l
        × (recoverable cutoff x ≡ true)
        × (p ≡ pending_row x)

    later : Found rows → Found ((k, r) ∷ rows)
    later (j, x, at, h, e) = (j, x, Memᴰ.tail at, h, e)

    here_or_later :
        Memᴰ p (pending_row r ∷ pending_rows cutoff rows)
        → (Memᴰ p (pending_rows cutoff rows) → Found rows)
        → recoverable cutoff r ≡ true
        → Found ((k, r) ∷ rows)
    here_or_later (Memᴰ.head e) ih h = (k, r, Memᴰ.head refl, h, e)
    here_or_later (Memᴰ.tail t) ih h = later (ih t)

mem-rows :
    (cutoff : Time) (k : String) (r : Reading) (rows : List (String × Reading))
    → Memᴰ (k, r) rows
    → recoverable cutoff r ≡ true
    → Memᴰ (pending_row r) (pending_rows cutoff rows)
unfolding pending_rows
mem-rows cutoff k r [] m h = elim m [ ]
mem-rows cutoff k r ((j, x) ∷ rows) (Memᴰ.head e) h =
    let same : r ≡ x = ap (λ b. b.1) e in rw (rw same at h) (Memᴰ.head (ap pending_row same))
mem-rows cutoff k r ((j, x) ∷ rows) (Memᴰ.tail m) h = elim (Bool-cases (recoverable cutoff x)) [
  | inl listed ↦ rw listed (Memᴰ.tail (mem-rows cutoff k r rows m h))
  | inr passed ↦ rw passed (mem-rows cutoff k r rows m h)
]

-- In an indexed store, recovery lists exactly the readings left non-terminal by a crash, each with
-- its stored attempt count.
pub list_non_terminal_exact :
    (cutoff : Time) (m : Memory) (p : Pending)
    → IsIndexed m
    → (rows : List Pending) × (list_non_terminal background cutoff m ≡ (ok rows, m))
      × (Memᴰ p rows ↔ (
          (r : Reading) × (Dict.get p.id m.by_id ≡ some r)
          × IsLeftOver cutoff r
          × (p.process_attempts ≡ r.process_attempts)))
unfolding list_non_terminal
list_non_terminal_exact cutoff m p v = (
  pending_rows cutoff m.by_id.entries,
  refl,
  (
    λ h.
        let (k, r, at, listed, e) = rows-mem cutoff p m.by_id.entries h in
        let bound = (get-mem k r m.by_id v.rows_distinct).1 at in
        let same_id : p.id ≡ k = ap (λ q. q.id) e ∙ v.row_id k r bound in
        (
          r,
          rw same_id bound,
          (recoverable-IsLeftOver cutoff r).0 listed,
          ap (λ q. q.process_attempts) e,
        ),
    λ (r, bound, left, attempts).
        let same : pending_row r ≡ p = ground (arith, v.row_id p.id r bound) in
        rw same at (
          mem-rows cutoff p.id r m.by_id.entries ((get-mem p.id r m.by_id v.rows_distinct).0 bound)
            ((recoverable-IsLeftOver cutoff r).1 left)),
  ),
)
