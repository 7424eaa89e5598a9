-- ===== src/Prelude/Sort.antt =====
-- `slices.SortFunc`: the list in the order of a comparison. Go's sort is not stable, so the result
-- is determined only where no two elements compare as equal.
use Prim.Native.Nat.{Ordering}
use mathlib.Core.Path.{◌≡◌}
use mathlib.Core.Logic.{◌≢◌, inl, inr}
use mathlib.Core.List.{List, [], ◌∷◌, Perm}
use mathlib.Core.List.Perm
use native.Mathlib.Omega.{arith}
use reading_lite_next.Prelude.Tests.{if◌then◌else◌, Bool-cases}
use reading_lite_next.Prelude.Lists.{All, All-imp}
use reading_lite_next.Prelude.Order.{IsComparison, is_lt}

module _ {ℓ} {A : Type ℓ} (cmp : A → A → Ordering) where
  abbrev insert : A → List A → List A
  insert x [] = x ∷ []
  insert x (y ∷ ys) = let rest = insert x ys in if is_lt (cmp y x) then y ∷ rest else x ∷ y ∷ ys

  unfoldable pub sort_func : List A → List A
  sort_func [] = []
  sort_func (x ∷ xs) = insert x (sort_func xs)

  abbrev pub IsSorted : List A → Type ℓ
  IsSorted [] = Unit
  IsSorted (x ∷ xs) = All (λ y. cmp x y ≡ Ordering.lt) xs × IsSorted xs

  -- no two elements compare as equal
  abbrev pub AreApart : List A → Type ℓ
  AreApart [] = Unit
  AreApart (x ∷ xs) = All (λ y. cmp x y ≢ Ordering.eq) xs × AreApart xs

  insert-perm : (x : A) (l : List A) → Perm (insert x l) (x ∷ l)
  insert-perm x [] = Perm.refl (x ∷ [])
  insert-perm x (y ∷ ys) = elim (Bool-cases (is_lt (cmp y x))) [
    | inl e ↦ rw e (Perm.trans (Perm.cons y (insert-perm x ys)) (Perm.swap x y ys))
    | inr e ↦ rw e (Perm.refl (x ∷ y ∷ ys))
  ]

  pub sort_func-perm : (l : List A) → Perm (sort_func l) l
  unfolding sort_func
  sort_func-perm [] = Perm.refl []
  sort_func-perm (x ∷ xs) =
      Perm.trans (insert-perm x (sort_func xs)) (Perm.cons x (sort_func-perm xs))

  All-insert {κ} : (P : A → Type κ) (x : A) (l : List A) → P x → All P l → All P (insert x l)
  All-insert P x [] p h = (p, tt)
  All-insert P x (y ∷ ys) p (q, h) = elim (Bool-cases (is_lt (cmp y x))) [
    | inl e ↦ rw e (q, All-insert P x ys p h)
    | inr e ↦ rw e (p, (q, h))
  ]

  pub All-sort_func {κ} : (P : A → Type κ) (l : List A) → All P l → All P (sort_func l)
  unfolding sort_func
  All-sort_func P [] h = tt
  All-sort_func P (x ∷ xs) (p, h) = All-insert P x (sort_func xs) p (All-sort_func P xs h)

  module _ (c : IsComparison cmp) where
    insert-IsSorted :
        (x : A) (l : List A)
        → All (λ y. cmp x y ≢ Ordering.eq) l
        → IsSorted l
        → IsSorted (insert x l)
    insert-IsSorted x [] apart s = (tt, tt)
    insert-IsSorted x (y ∷ ys) (apart, rest) (below, s) = elim (Bool-cases (is_lt (cmp y x))) [
      | inl e ↦
          let first : cmp y x ≡ Ordering.lt = ground arith in
          rw e
            (All-insert (λ z. cmp y z ≡ Ordering.lt) x ys first below, insert-IsSorted x ys rest s)
      | inr e ↦
          let first : cmp x y ≡ Ordering.lt = ground (arith, c.flips x y) in
          rw e (
            (
              first,
              All-imp (λ z. cmp y z ≡ Ordering.lt) (λ z. cmp x z ≡ Ordering.lt)
                  (λ z h. c.lt_trans x y z first h) ys below,
            ),
            (below, s),
          )
    ]

    -- Sorting a list without equal elements puts every earlier element below every later one.
    pub sort_func-IsSorted : (l : List A) → AreApart l → IsSorted (sort_func l)
    unfolding sort_func
    sort_func-IsSorted [] apart = tt
    sort_func-IsSorted (x ∷ xs) (apart, rest) =
        insert-IsSorted x (sort_func xs) (All-sort_func (λ y. cmp x y ≢ Ordering.eq) xs apart)
          (sort_func-IsSorted xs rest)
