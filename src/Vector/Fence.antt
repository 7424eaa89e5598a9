-- ===== src/Vector/Fence.antt =====
-- The generation fence of internal/vector/vector.go over a sequence of upserts.
use reading_lite_next.Prelude.{
  ◌≤◌, ◌<◌, String, ◌≡◌, refl, false, none, some, List, [], ◌∷◌, arith, eq_iff, str_eq, ◌==◌,
  length, inl, inr, Bool-cases,
}
use reading_lite_next.Dict
use reading_lite_next.Dict.{Dict, get-put, get-remove}
use reading_lite_next.Errors.{Context}
use reading_lite_next.Reading.{Time}
use reading_lite_next.Vector.{dim, Entry, fenced, upsert}

-- A fenced write: an id, its vector, and the generation of the run that computed it.
pub record Write {ℓ} (F : Type ℓ) : Type ℓ where
  pub ctx : Context
  pub id : String
  pub vec : List F
  pub generation : Time

module _ {ℓ} {F : Type ℓ} where
  abbrev pub write : Write F → Dict (Entry F) → Dict (Entry F)
  write w m = (upsert w.ctx w.id w.vec (some w.generation) m).1

  unfoldable pub upserts : List (Write F) → Dict (Entry F) → Dict (Entry F)
  upserts [] m = m
  upserts (w ∷ rest) m = upserts rest (write w m)

  -- An id's entry is of a generation from `g` on.
  pub record HoldsFrom (g : Time) (id : String) (m : Dict (Entry F)) : Type ℓ where
    pub entry : Entry F
    pub generation : Time
    pub stored : Dict.get id m ≡ some entry
    pub dated : entry.generation ≡ some generation
    pub new_enough : g ≤ generation

  put-HoldsFrom :
      (g : Time) (id : String) (w : Write F) (m : Dict (Entry F))
      → fenced (Dict.get w.id m) (some w.generation) ≡ false
      → HoldsFrom g id m
      → HoldsFrom g id (Dict.put w.id (record { vec = w.vec; generation = some w.generation }) m)
  unfolding fenced
  put-HoldsFrom g id w m unfenced k =
      let new : Entry F = record { vec = w.vec; generation = some w.generation } in
      elim (Bool-cases (str_eq w.id id)) [
        | inl e ↦ record {
          entry = new;
          generation = w.generation;
          stored = ground (arith, e, get-put w.id id new m);
          dated = refl;
          new_enough = ground (arith, e, unfenced, k.stored, k.dated, k.new_enough, eq_iff w.id id);
        }
        | inr e ↦ record {
          entry = k.entry;
          generation = k.generation;
          stored = ground (arith, e, get-put w.id id new m, k.stored);
          dated = k.dated;
          new_enough = k.new_enough;
        }
      ]

  upsert-HoldsFrom :
      (ctx : Context) (g : Time) (id : String) (w : Write F) (m : Dict (Entry F))
      → HoldsFrom g id m
      → HoldsFrom g id (upsert ctx w.id w.vec (some w.generation) m).1
  unfolding upsert
  upsert-HoldsFrom (some s) g id w m k = k
  upsert-HoldsFrom none g id w m k = elim (Bool-cases (length w.vec == dim)) [
    | inr e ↦ rw e k
    | inl e ↦ elim (Bool-cases (fenced (Dict.get w.id m) (some w.generation))) [
      | inl f ↦ rw (e, f) k
      | inr f ↦ rw (e, f) (put-HoldsFrom g id w m f k)
    ]
  ]

  upsert-stale :
      (g h : Time) (id : String) (vec : List F) (m : Dict (Entry F))
      → HoldsFrom g id m
      → h < g
      → (ctx : Context) → (upsert ctx id vec (some h) m).1 ≡ m
  unfolding upsert fenced
  upsert-stale g h id vec m k old (some s) = refl
  upsert-stale g h id vec m k old none = ground (arith, k.stored, k.dated, k.new_enough, old)

  upserts-HoldsFrom :
      (g : Time) (id : String) (ws : List (Write F)) (m : Dict (Entry F))
      → HoldsFrom g id m
      → HoldsFrom g id (upserts ws m)
  unfolding upserts
  upserts-HoldsFrom g id [] m k = k
  upserts-HoldsFrom g id (w ∷ ws) m k =
      upserts-HoldsFrom g id ws (write w m) (upsert-HoldsFrom w.ctx g id w m k)

  -- Once an id's vector is of a generation from `g` on, it stays so under every sequence of fenced
  -- upserts, and after it an upsert of an earlier generation changes nothing.
  pub stale_upsert_loses :
      (g h : Time) (id : String) (ws : List (Write F)) (m : Dict (Entry F)) (ctx : Context)
      (vec : List F)
      → HoldsFrom g id m
      → h < g
      → HoldsFrom g id (upserts ws m)
        × ((upsert ctx id vec (some h) (upserts ws m)).1 ≡ upserts ws m)
  stale_upsert_loses g h id ws m ctx vec k old =
      let kept = upserts-HoldsFrom g id ws m k in
      (kept, upsert-stale g h id vec (upserts ws m) kept old ctx)
