-- ===== src/Dict/Entries.antt =====
-- The entries of a map that `range` visits, and its bindings.
use mathlib.Core.List.{Memᴰ}
use mathlib.Core.Bool.{or-true}
use reading_lite_next.Prelude.{
  any, String, ◌≡◌, ◌↔◌, inl, inr, refl, Bool, true, none, some, List, [], ◌∷◌, arith, eq_iff,
  str_eq, Bool-cases,
}
use reading_lite_next.Dict.{Dict, lookup, without, get, put, remove, empty}

module _ {ℓ} {V : Type ℓ} where
  abbrev pub Distinct : List (String × V) → Type ℓ
  Distinct [] = Unit
  Distinct ((k, v) ∷ l) = (lookup k l ≡ none) × Distinct l

  unfoldable pub IsDistinct : Dict V → Type ℓ
  IsDistinct d = Distinct d.entries

  lookup-without_self : (k : String) (l : List (String × V)) → lookup k (without k l) ≡ none
  unfolding lookup without
  lookup-without_self k [] = refl
  lookup-without_self k ((j, v) ∷ l) = ground (arith, lookup-without_self k l)

  lookup-without-none :
      (k j : String) (l : List (String × V)) → lookup j l ≡ none → lookup j (without k l) ≡ none
  unfolding lookup without
  lookup-without-none k j [] h = refl
  lookup-without-none k j ((i, v) ∷ l) h = ground (arith, lookup-without-none k j l)

  without-Distinct : (k : String) (l : List (String × V)) → Distinct l → Distinct (without k l)
  unfolding without
  without-Distinct k [] d = tt
  without-Distinct k ((j, v) ∷ l) (fresh, d) = elim (Bool-cases (str_eq j k)) [
    | inl hit ↦ rw hit (without-Distinct k l d)
    | inr miss ↦ rw miss (lookup-without-none k j l fresh, without-Distinct k l d)
  ]

  pub put-IsDistinct : (k : String) (v : V) (d : Dict V) → IsDistinct d → IsDistinct (put k v d)
  unfolding put IsDistinct
  put-IsDistinct k v d h = (lookup-without_self k d.entries, without-Distinct k d.entries h)

  pub remove-IsDistinct : (k : String) (d : Dict V) → IsDistinct d → IsDistinct (remove k d)
  unfolding remove IsDistinct
  remove-IsDistinct k d h = without-Distinct k d.entries h

  lookup-mem : (k : String) (v : V) (l : List (String × V)) → lookup k l ≡ some v → Memᴰ (k, v) l
  unfolding lookup
  lookup-mem k v [] h = cc
  lookup-mem k v ((j, w) ∷ l) h = elim (Bool-cases (str_eq j k)) [
    | inl hit ↦ Memᴰ.head (ground (arith, eq_iff j k))
    | inr miss ↦ Memᴰ.tail (lookup-mem k v l (ground arith))
  ]

  mem-lookup :
      (k : String) (v : V) (l : List (String × V))
      → Distinct l
      → Memᴰ (k, v) l
      → lookup k l ≡ some v
  unfolding lookup
  mem-lookup k v [] d m = elim m [ ]
  mem-lookup k v ((j, w) ∷ l) (fresh, d) (Memᴰ.head e) = ground (arith, eq_iff j k)
  mem-lookup k v ((j, w) ∷ l) (fresh, d) (Memᴰ.tail m) =
      ground (arith, mem-lookup k v l d m, eq_iff j k)

  -- A map binds a key to a value exactly if `range` visits that entry.
  pub get-mem :
      (k : String) (v : V) (d : Dict V) → IsDistinct d → (get k d ≡ some v) ↔ Memᴰ (k, v) d.entries
  unfolding get IsDistinct
  get-mem k v d h = (lookup-mem k v d.entries, mem-lookup k v d.entries h)

pub empty-IsDistinct {ℓ} : (V : Type ℓ) → IsDistinct (empty {V = V})
unfolding empty IsDistinct
empty-IsDistinct V = tt

any-mem {ℓ} :
    {A : Type ℓ} (p : A → Bool) (x : A) (l : List A) → Memᴰ x l → p x ≡ true → any p l ≡ true
any-mem p x [] m t = elim m [ ]
any-mem p x (y ∷ l) (Memᴰ.head e) t = rw (rw e at t) refl
any-mem p x (y ∷ l) (Memᴰ.tail m) t = rw (any-mem p x l m t) (or-true (p y))

-- A binding that passes a test is found by a loop over the entries.
pub get-any {ℓ} :
    {V : Type ℓ} (p : String × V → Bool) (k : String) (v : V) (d : Dict V)
    → get k d ≡ some v
    → p (k, v) ≡ true
    → any p d.entries ≡ true
unfolding get
get-any p k v d h t = any-mem p (k, v) d.entries (lookup-mem k v d.entries h) t
