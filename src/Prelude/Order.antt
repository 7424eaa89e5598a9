-- ===== src/Prelude/Order.antt =====
-- Three-way comparison as Go's `cmp.Compare` and `strings.Compare` have it, and sorting by one.
use Prim.Native.Nat.{compare, Ordering}
use Prim.Native.String.{String, compare as str_compare}
use Prim.Native.String.compare
use mathlib.Core.Path.{◌≡◌, refl, ap}
use mathlib.Core.Bool.{Bool, true, false}
use native.Mathlib.Omega.{arith}
use text.Mathlib.TextEquality.{path_by_compare}

-- `if n := o; n != 0 { return n }; return p`
abbrev pub or_next : Ordering → Ordering → Ordering
or_next Ordering.lt _ = Ordering.lt
or_next Ordering.eq p = p
or_next Ordering.gt _ = Ordering.gt

abbrev pub flip : Ordering → Ordering
flip Ordering.lt = Ordering.gt
flip Ordering.eq = Ordering.eq
flip Ordering.gt = Ordering.lt

-- `cmp(a, b) < 0`
abbrev pub is_lt : Ordering → Bool
is_lt Ordering.lt = true
is_lt _ = false

abbrev pub is_gt : Ordering → Bool
is_gt Ordering.gt = true
is_gt _ = false

-- A comparison that puts its values into a linear order of classes.
pub record IsComparison {ℓ} {A : Type ℓ} (cmp : A → A → Ordering) : Type ℓ where
  pub flips : (a b : A) → cmp b a ≡ flip (cmp a b)
  pub lt_trans : (a b c : A) → cmp a b ≡ Ordering.lt → cmp b c ≡ Ordering.lt → cmp a c ≡ Ordering.lt
  pub eq_left : (a b c : A) → cmp a b ≡ Ordering.eq → cmp a c ≡ cmp b c

pub compare-IsComparison : IsComparison compare
compare-IsComparison = record {
  flips = λ a b. ground arith;
  lt_trans = λ a b c h k. ground arith;
  eq_left = λ a b c h. ground arith;
}

str_compare-flips : (s t : String) → str_compare t s ≡ flip (str_compare s t)
str_compare-flips String.[] String.[] = refl
str_compare-flips String.[] (String.◌∷◌ d t) = simp (compare.nil-cons, compare.cons-nil)
str_compare-flips (String.◌∷◌ c s) String.[] = simp (compare.nil-cons, compare.cons-nil)
str_compare-flips (String.◌∷◌ c s) (String.◌∷◌ d t) =
    simp (compare.cons-cons) (ground (arith, str_compare-flips s t))

not_lt_nil : (s : String) → str_compare s String.[] ≡ Ordering.lt → ⊥
not_lt_nil String.[] h = ground (arith, h)
not_lt_nil (String.◌∷◌ c s) h = ground (arith, compare.cons-nil c s)

str_compare-lt_trans :
    (s t u : String)
    → str_compare s t ≡ Ordering.lt
    → str_compare t u ≡ Ordering.lt
    → str_compare s u ≡ Ordering.lt
str_compare-lt_trans String.[] (String.◌∷◌ d t) (String.◌∷◌ e u) h k = simp (compare.nil-cons)
str_compare-lt_trans String.[] String.[] u h k = k
str_compare-lt_trans s (String.◌∷◌ d t) String.[] h k = absurd (not_lt_nil (String.◌∷◌ d t) k)
str_compare-lt_trans (String.◌∷◌ c s) String.[] u h k = absurd (not_lt_nil (String.◌∷◌ c s) h)
str_compare-lt_trans (String.◌∷◌ c s) (String.◌∷◌ d t) (String.◌∷◌ e u) h k =
    simp (compare.cons-cons) (
      ground
        (arith, str_compare-lt_trans s t u, compare.cons-cons c d s t, compare.cons-cons d e t u))

pub str_compare-IsComparison : IsComparison str_compare
str_compare-IsComparison = record {
  flips = str_compare-flips;
  lt_trans = str_compare-lt_trans;
  eq_left = λ a b c h. ap (λ s. str_compare s c) (path_by_compare a b h);
}

module _ {ℓ} {A : Type ℓ} where
  -- the combinators from which the code builds its comparisons
  abbrev pub by {κ} : {K : Type κ} → (K → K → Ordering) → (A → K) → A → A → Ordering
  by cmp key a b = cmp (key a) (key b)

  abbrev pub reversed : (A → A → Ordering) → A → A → Ordering
  reversed cmp a b = cmp b a

  abbrev pub lexicographic : (A → A → Ordering) → (A → A → Ordering) → A → A → Ordering
  lexicographic f g a b = or_next (f a b) (g a b)

  pub by-IsComparison {κ} :
      {K : Type κ} (cmp : K → K → Ordering) (key : A → K)
      → IsComparison cmp
      → IsComparison (by cmp key)
  by-IsComparison cmp key c = record {
    flips = λ a b. c.flips (key a) (key b);
    lt_trans = λ a b d. c.lt_trans (key a) (key b) (key d);
    eq_left = λ a b d. c.eq_left (key a) (key b) (key d);
  }

  pub reversed-IsComparison :
      (cmp : A → A → Ordering) → IsComparison cmp → IsComparison (reversed cmp)
  reversed-IsComparison cmp c = record {
    flips = λ a b. c.flips b a;
    lt_trans = λ a b d h k. c.lt_trans d b a k h;
    eq_left = λ a b d h. ground (arith, c.flips b a, c.flips a d, c.flips b d, c.eq_left a b d);
  }

  pub lexicographic-IsComparison :
      (f g : A → A → Ordering) → IsComparison f → IsComparison g → IsComparison (lexicographic f g)
  lexicographic-IsComparison f g cf cg = record {
    flips = λ a b. ground (arith, cf.flips a b, cg.flips a b);
    lt_trans = λ a b d h k. ground (
      arith,
      cf.lt_trans a b d,
      cf.eq_left a b d,
      cf.eq_left b d a,
      cf.flips a b,
      cf.flips a d,
      cg.lt_trans a b d,
    );
    eq_left = λ a b d h. ground (arith, cf.eq_left a b d, cg.eq_left a b d);
  }
