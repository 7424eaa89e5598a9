-- ===== src/Effects.antt =====
-- Go functions that return an error, on a state: `x, err := f(...); if err != nil { return err }` is
-- one line of a `do` block. `Meets` says what a step does on success, and what on an error.
use reading_lite_next.Errors.{Error, Result, ok, err}

abbrev pub Act {ℓ κ} : Type ℓ → Type κ → Type (ℓ ⊔ κ)
Act S A = S → Result A × S

module _ {ℓ κ μ} {S : Type ℓ} {A : Type κ} {B : Type μ} where
  abbrev pub next : (A → Act S B) → Result A × S → Result B × S
  next f (ok a, s) = f a s
  next f (err e, s) = (err e, s)

infixl 5 ◌>>=◌ ◌>>◌
unfoldable pub ◌>>=◌ {ℓ κ μ} :
    {S : Type ℓ} {A : Type κ} {B : Type μ} → Act S A → (A → Act S B) → Act S B
◌>>=◌ m f s = next f (m s)

abbrev pub ◌>>◌ {ℓ κ μ} : {S : Type ℓ} {A : Type κ} {B : Type μ} → Act S A → Act S B → Act S B
m >> k = m >>= λ _. k

abbrev pub give {ℓ κ} : {S : Type ℓ} {A : Type κ} → A → Act S A
give a s = (ok a, s)

abbrev pub throw {ℓ κ} : {S : Type ℓ} {A : Type κ} → Error → Act S A
throw e s = (err e, s)

abbrev pub lift {ℓ κ} : {S : Type ℓ} {A : Type κ} → Result A → Act S A
lift r s = (r, s)

-- an error is a value
abbrev pub try {ℓ κ} : {S : Type ℓ} {A : Type κ} → Act S A → Act S (Result A)
try m s = let (r, s') = m s in (ok r, s')

-- an error is dropped
abbrev pub best_effort {ℓ κ} : {S : Type ℓ} {A : Type κ} → Act S A → Act S (Unit {0})
best_effort m s = (ok tt, (m s).1)

abbrev pub After {ℓ κ μ} :
    {S : Type ℓ} {A : Type κ} → (A → S → Type μ) → (S → Type μ) → Result A × S → Type μ
After good bad (ok a, s) = good a s
After good bad (err e, s) = bad s

pub record Meets {ℓ κ μ} {S : Type ℓ} {A : Type κ} (before : S → Type μ) (m : Act S A)
    (good : A → S → Type μ) (bad : S → Type μ) : Type (ℓ ⊔ μ) where
  pub met : (s : S) → before s → After good bad (m s)

module _ {ℓ κ μ ν} {S : Type ℓ} {A : Type κ} {B : Type μ} where
  next-After :
      (f : A → Act S B) (mid : A → S → Type ν) (good : B → S → Type ν) (bad : S → Type ν)
      → ((a : A) → Meets (mid a) (f a) good bad)
      → (x : Result A × S) → After mid bad x
      → After good bad (next f x)
  next-After f mid good bad hf (ok a, s) h = (hf a).met s h
  next-After f mid good bad hf (err e, s) h = h

  pub >>=-Meets :
      {before : S → Type ν} {m : Act S A} {f : A → Act S B} (mid : A → S → Type ν)
      {good : B → S → Type ν} {bad : S → Type ν}
      → Meets before m mid bad
      → ((a : A) → Meets (mid a) (f a) good bad)
      → Meets before (m >>= f) good bad
  unfolding ◌>>=◌
  >>=-Meets {m = m} {f} mid {good} {bad} hm hf = record {
    met = λ s h. next-After f mid good bad hf (m s) (hm.met s h);
  }

module _ {ℓ κ μ} {S : Type ℓ} {A : Type κ} where
  weaken-After :
      (good : A → S → Type μ) (bad bad' : S → Type μ) (x : Result A × S)
      → ((s : S) → bad s → bad' s)
      → After good bad x
      → After good bad' x
  weaken-After good bad bad' (ok a, s) weaker h = h
  weaken-After good bad bad' (err e, s) weaker h = weaker s h

  pub weaken-Meets :
      {before : S → Type μ} {m : Act S A} {good : A → S → Type μ} (bad : S → Type μ)
      {bad' : S → Type μ}
      → ((s : S) → bad s → bad' s)
      → Meets before m good bad
      → Meets before m good bad'
  weaken-Meets {m = m} {good} bad {bad'} weaker h = record {
    met = λ s k. weaken-After good bad bad' (m s) weaker (h.met s k);
  }

  either-After : (good : S → Type μ) (x : Result A × S) → After (λ _. good) good x → good x.1
  either-After good (ok a, s) h = h
  either-After good (err e, s) h = h

  -- a step that ends in the same way, after an error or not
  pub best_effort-Meets :
      {before : S → Type μ} {m : Act S A} {good bad : S → Type μ}
      → Meets before m (λ _. good) good
      → Meets before (best_effort m) (λ _. good) bad
  best_effort-Meets {m = m} {good} h = record { met = λ s k. either-After good (m s) (h.met s k) }

-- a pure fact that is known before a step
pub given-Meets {ℓ κ μ} :
    {S : Type ℓ} {A : Type κ} {F : Type μ} {before : S → Type μ} {m : Act S A}
    {good : A → S → Type μ} {bad : S → Type μ}
    → (F → Meets before m good bad)
    → Meets (λ s. F × before s) m good bad
given-Meets h = record { met = λ s (f, k). (h f).met s k }
