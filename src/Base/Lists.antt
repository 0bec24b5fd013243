-- ===== src/Base/Lists.antt =====
-- Lists measured and indexed by native numbers.
use Prim.Native.Nat.{ℕ, zero, suc, ◌+◌, ◌<◌, ◌≤◌}
use mathlib.Core.Path.{◌≡◌, refl, ap}
use mathlib.Core.Logic.{◌≢◌, ◌⊎◌, inl, inr}
use mathlib.Core.List.{List, [], ◌∷◌, ◌++◌}
use native.Mathlib.Omega.{arith}

module _ {ℓ} {A : Type ℓ} where
  abbrev pub length : List A → ℕ
  length [] = 0
  length (x ∷ xs) = suc (length xs)

  abbrev pub get_or : List A → ℕ → A → A
  get_or [] i d = d
  get_or (x ∷ xs) zero d = x
  get_or (x ∷ xs) (suc i) d = get_or xs i d

  -- A write out of bounds changes nothing.
  abbrev pub set : List A → ℕ → A → List A
  set [] i v = []
  set (x ∷ xs) zero v = v ∷ xs
  set (x ∷ xs) (suc i) v = x ∷ set xs i v

  abbrev pub take : ℕ → List A → List A
  take zero xs = []
  take (suc n) [] = []
  take (suc n) (x ∷ xs) = x ∷ take n xs

  abbrev pub replicate : ℕ → A → List A
  replicate zero a = []
  replicate (suc n) a = a ∷ replicate n a

  pub length-append : (xs ys : List A) → length (xs ++ ys) ≡ length xs + length ys
  length-append [] ys = omega arith
  length-append (x ∷ xs) ys = omega (arith, length-append xs ys)

module _ {ℓ} {A : Type ℓ} where
  pub length-set : (xs : List A) (i : ℕ) (v : A) → length (set xs i v) ≡ length xs
  length-set [] i v = refl
  length-set (x ∷ xs) zero v = refl
  length-set (x ∷ xs) (suc i) v = ap suc (length-set xs i v)

  pub length-replicate : (n : ℕ) (a : A) → length (replicate n a) ≡ n
  length-replicate zero a = refl
  length-replicate (suc n) a = ap suc (length-replicate n a)

  pub get_or-set_self :
      (xs : List A) (i : ℕ) (v d : A) → i < length xs → get_or (set xs i v) i d ≡ v
  get_or-set_self [] i v d h = absurd (omega arith)
  get_or-set_self (x ∷ xs) zero v d h = refl
  get_or-set_self (x ∷ xs) (suc i) v d h = get_or-set_self xs i v d (omega arith)

  pub get_or-set_ne :
      (xs : List A) (i j : ℕ) (v d : A) → i ≢ j → get_or (set xs i v) j d ≡ get_or xs j d
  get_or-set_ne [] i j v d h = refl
  get_or-set_ne (x ∷ xs) zero zero v d h = absurd (h refl)
  get_or-set_ne (x ∷ xs) zero (suc j) v d h = refl
  get_or-set_ne (x ∷ xs) (suc i) zero v d h = refl
  get_or-set_ne (x ∷ xs) (suc i) (suc j) v d h = get_or-set_ne xs i j v d (λ e. h (ap suc e))

  pub get_or-beyond : (xs : List A) (i : ℕ) (d : A) → length xs ≤ i → get_or xs i d ≡ d
  get_or-beyond [] i d h = refl
  get_or-beyond (x ∷ xs) zero d h = absurd (omega arith)
  get_or-beyond (x ∷ xs) (suc i) d h = get_or-beyond xs i d (omega arith)

  -- Padding by the default changes no reading.
  pub get_or-pad :
      (xs : List A) (n i : ℕ) (d : A) → get_or (xs ++ replicate n d) i d ≡ get_or xs i d
  get_or-pad [] zero i d = refl
  get_or-pad [] (suc n) zero d = refl
  get_or-pad [] (suc n) (suc i) d = get_or-pad [] n i d
  get_or-pad (x ∷ xs) n zero d = refl
  get_or-pad (x ∷ xs) n (suc i) d = get_or-pad xs n i d

abbrev pub All {ℓ κ} : {A : Type ℓ} → (A → Type κ) → List A → Type κ
All P [] = Unit
All P (x ∷ xs) = P x × All P xs

pub All-map {ℓ κ ι} :
    {A : Type ℓ} {P : A → Type κ} {Q : A → Type ι}
    → ((a : A) → P a → Q a)
    → (xs : List A) → All P xs
    → All Q xs
All-map f [] h = tt
All-map f (x ∷ xs) h = (f x h.0, All-map f xs h.1)

pub get_or-All {ℓ κ} :
    {A : Type ℓ} (P : A → Type κ) (xs : List A) (i : ℕ) (d : A)
    → i < length xs
    → All P xs
    → P (get_or xs i d)
get_or-All P [] i d h all = absurd (omega arith)
get_or-All P (x ∷ xs) zero d h all = all.0
get_or-All P (x ∷ xs) (suc i) d h all = get_or-All P xs i d (omega arith) all.1

pub List-cases {ℓ} :
    {A : Type ℓ} (xs : List A) → (xs ≡ []) ⊎ ((x : A) × (rest : List A) × (xs ≡ x ∷ rest))
List-cases [] = inl refl
List-cases (x ∷ xs) = inr (x, xs, refl)

abbrev pub IsIn : {A : Type 0} → A → List A → Type 0
IsIn a [] = ⊥
IsIn a (x ∷ xs) = (a ≡ x) ⊎ IsIn a xs

module _ {A : Type 0} where
  pub IsIn-append : (a : A) (xs ys : List A) → IsIn a (xs ++ ys) → IsIn a xs ⊎ IsIn a ys
  IsIn-append a [] ys h = inr h
  IsIn-append a (x ∷ xs) ys (inl e) = inl (inl e)
  IsIn-append a (x ∷ xs) ys (inr h) = elim (IsIn-append a xs ys h) [
    | inl p ↦ inl (inr p)
    | inr p ↦ inr p
  ]

  pub append_left-IsIn : (a : A) (xs ys : List A) → IsIn a xs → IsIn a (xs ++ ys)
  append_left-IsIn a [] ys h = absurd h
  append_left-IsIn a (x ∷ xs) ys (inl e) = inl e
  append_left-IsIn a (x ∷ xs) ys (inr h) = inr (append_left-IsIn a xs ys h)

  pub append_right-IsIn : (a : A) (xs ys : List A) → IsIn a ys → IsIn a (xs ++ ys)
  append_right-IsIn a [] ys h = h
  append_right-IsIn a (x ∷ xs) ys h = inr (append_right-IsIn a xs ys h)

  pub take-IsIn : (a : A) (n : ℕ) (xs : List A) → IsIn a (take n xs) → IsIn a xs
  take-IsIn a zero xs h = absurd h
  take-IsIn a (suc n) [] h = absurd h
  take-IsIn a (suc n) (x ∷ xs) (inl e) = inl e
  take-IsIn a (suc n) (x ∷ xs) (inr h) = inr (take-IsIn a n xs h)

  pub set-IsIn : (a : A) (xs : List A) (i : ℕ) (v : A) → IsIn a (set xs i v) → (a ≡ v) ⊎ IsIn a xs
  set-IsIn a [] i v h = absurd h
  set-IsIn a (x ∷ xs) zero v (inl e) = inl e
  set-IsIn a (x ∷ xs) zero v (inr h) = inr (inr h)
  set-IsIn a (x ∷ xs) (suc i) v (inl e) = inr (inl e)
  set-IsIn a (x ∷ xs) (suc i) v (inr h) = elim (set-IsIn a xs i v h) [
    | inl e ↦ inl e
    | inr k ↦ inr (inr k)
  ]

  pub get_or-IsIn : (xs : List A) (i : ℕ) (d : A) → i < length xs → IsIn (get_or xs i d) xs
  get_or-IsIn [] i d h = absurd (omega arith)
  get_or-IsIn (x ∷ xs) zero d h = inl refl
  get_or-IsIn (x ∷ xs) (suc i) d h = inr (get_or-IsIn xs i d (omega arith))

  pub length-take : (n : ℕ) (xs : List A) → n ≤ length xs → length (take n xs) ≡ n
  length-take zero xs h = refl
  length-take (suc n) [] h = absurd (omega arith)
  length-take (suc n) (x ∷ xs) h = ap suc (length-take n xs (omega arith))
