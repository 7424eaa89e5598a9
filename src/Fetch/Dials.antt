-- ===== src/Fetch/Dials.antt =====
-- internal/fetch/http.go: the results of the dials that `guardedDialContext` leaves to
-- `drainDialResults`.
use reading_lite_next.Prelude.{
  ℕ, zero, suc, ◌+◌, ◌-◌, ◌<◌, ◌≡◌, refl, ap, List, [], ◌∷◌, ◌++◌, map, length, arith,
}
use reading_lite_next.Errors.{Error}
use reading_lite_next.Fetch.{DialEvent, connected, failed, returned, await_dials}

returned_after :
    (total left : ℕ) (last : Error) (errors : List Error) (conn : ℕ) (rest : List DialEvent)
    → length errors < left
    → await_dials total left last (map failed errors ++ (connected conn ∷ rest))
      ≡ returned conn (total - 1)
unfolding await_dials
returned_after total zero last errors conn rest h = absurd (omega arith)
returned_after total (suc left) last [] conn rest h = refl
returned_after total (suc left) last (e ∷ errors) conn rest h =
    returned_after total left e errors conn rest (omega (arith, h))

-- After some failed dials, the first connection is returned, and every result that is still to come
-- is left to the drain, so no connection is lost; the drain waits for as many further results as
-- dials had failed, which never come.
pub await_dials-returned :
    (total : ℕ) (last : Error) (errors : List Error) (conn : ℕ) (rest : List DialEvent)
    → length errors < total
    → await_dials total total last (map failed errors ++ (connected conn ∷ rest))
      ≡ returned conn ((total - suc (length errors)) + length errors)
await_dials-returned total last errors conn rest h =
    rw (returned_after total total last errors conn rest h) (ap (returned conn) (omega (arith, h)))
