-- ===== src/Dict.antt =====
-- Go's `map[string]V`: an association list with at most one entry for a key. `range` visits the
-- entries in the order of the list, which stands for the unspecified order of Go.
pub mod Entries
use reading_lite_next.Prelude.{
  String, ◌≡◌, refl, Option, none, some, List, [], ◌∷◌, arith, eq_iff, str_eq, if◌then◌else◌,
}

pub record Dict {ℓ} (V : Type ℓ) : Type ℓ where
  pub entries : List (String × V)

module _ {ℓ} {V : Type ℓ} where
  unfoldable pub lookup : String → List (String × V) → Option V
  lookup k [] = none
  lookup k ((j, v) ∷ l) = if str_eq j k then some v else lookup k l

  unfoldable pub without : String → List (String × V) → List (String × V)
  without k [] = []
  without k ((j, v) ∷ l) = let rest = without k l in if str_eq j k then rest else (j, v) ∷ rest

  unfoldable pub empty : Dict V
  empty = record { entries = [] }

  -- `m[k]` with the flag of its presence
  unfoldable pub get : String → Dict V → Option V
  unfolding lookup
  get k d = lookup k d.entries

  -- `delete(m, k)`
  unfoldable pub remove : String → Dict V → Dict V
  unfolding without
  remove k d = record { entries = without k d.entries }

  -- `m[k] = v`
  unfoldable pub put : String → V → Dict V → Dict V
  unfolding without
  put k v d = record { entries = (k, v) ∷ without k d.entries }

  lookup-without :
      (gone asked : String) (rows : List (String × V))
      → lookup asked (without gone rows) ≡ (if str_eq gone asked then none else lookup asked rows)
  unfolding lookup without
  lookup-without gone asked [] = ground arith
  lookup-without gone asked ((key, value) ∷ rows) =
      let rest = lookup-without gone asked rows in
      ground (arith, rest, eq_iff gone asked, eq_iff key asked, eq_iff key gone)

  pub get-remove :
      (k j : String) (d : Dict V) → get j (remove k d) ≡ (if str_eq k j then none else get j d)
  unfolding get remove
  get-remove k j d = lookup-without k j d.entries

  pub get-put :
      (k j : String) (v : V) (d : Dict V)
      → get j (put k v d) ≡ (if str_eq k j then some v else get j d)
  unfolding get put lookup
  get-put k j v d = ground (arith, lookup-without k j d.entries)

pub get-empty {ℓ} : {V : Type ℓ} (k : String) → get k (empty {V = V}) ≡ none
unfolding get empty lookup
get-empty k = refl

pub ruleset dict_laws = (get-empty, get-remove, get-put)
