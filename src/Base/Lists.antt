-- ===== src/Base/Lists.antt =====
-- Lists measured by native numbers, tests over lists, and predicates by recursion.
use Prim.Native.Nat.{ℕ, zero, suc, ◌+◌, ◌≤◌}
use mathlib.Core.Path.{◌≡◌, refl, ap}
use mathlib.Core.Bool.{Bool, true, false, ◌&&◌, ◌||◌}
use mathlib.Core.Logic.{◌⊎◌, inl, inr}
use mathlib.Core.List.{reverse, reverse_aux, List, [], ◌∷◌, ◌++◌, map}
use mathlib.Core.Option.{Option, none, some}
use native.Mathlib.Omega.{arith}
use localoud_ai.Base.Tests.{if◌then◌else◌, Bool-cases}

module _ {ℓ} {A : Type ℓ} where
  abbrev pub length : List A → ℕ
  length [] = 0
  length (x ∷ xs) = suc (length xs)

  abbrev pub take : ℕ → List A → List A
  take zero xs = []
  take (suc n) [] = []
  take (suc n) (x ∷ xs) = x ∷ take n xs

  abbrev pub any : (A → Bool) → List A → Bool
  any p [] = false
  any p (x ∷ xs) = p x || any p xs

  abbrev pub all : (A → Bool) → List A → Bool
  all p [] = true
  all p (x ∷ xs) = p x && all p xs

  abbrev pub keep : (A → Bool) → List A → List A
  keep p [] = []
  keep p (x ∷ xs) = if p x then x ∷ keep p xs else keep p xs

  -- The first element that passes.
  abbrev pub find : (A → Bool) → List A → Option A
  find p [] = none
  find p (x ∷ xs) = if p x then some x else find p xs

  -- How many elements pass.
  abbrev pub count_if : (A → Bool) → List A → ℕ
  count_if p xs = length (keep p xs)

  abbrev pub is_empty : List A → Bool
  is_empty [] = true
  is_empty (x ∷ xs) = false

module _ {A : Type 0} where
  abbrev pub In : A → List A → Type 0
  In a [] = ⊥
  In a (x ∷ xs) = (x ≡ a) ⊎ In a xs

module _ {A : Type 0} (P : A → Type 0) where
  abbrev pub All : List A → Type 0
  All [] = Unit
  All (x ∷ xs) = P x × All xs

  pub All_at : (a : A) (xs : List A) → All xs → In a xs → P a
  All_at a [] h m = absurd m
  All_at a (x ∷ xs) (p, h) (inl e) = rw e at p
  All_at a (x ∷ xs) (p, h) (inr m) = All_at a xs h m

  pub All_of : (xs : List A) → ((a : A) → In a xs → P a) → All xs
  All_of [] f = tt
  All_of (x ∷ xs) f = (f x (inl refl), All_of xs (λ a m. f a (inr m)))

  pub All-append : (xs ys : List A) → All xs → All ys → All (xs ++ ys)
  All-append [] ys _ k = k
  All-append (x ∷ xs) ys (p, h) k = (p, All-append xs ys h k)

pub All_map :
    {A : Type 0} {P Q : A → Type 0} (xs : List A) → ((a : A) → P a → Q a) → All P xs → All Q xs
All_map [] f h = tt
All_map (x ∷ xs) f (p, h) = (f x p, All_map xs f h)

module _ {ℓ} {A : Type ℓ} where
  pub length-append : (xs ys : List A) → length (xs ++ ys) ≡ length xs + length ys
  length-append [] ys = omega arith
  length-append (x ∷ xs) ys = omega (arith, length-append xs ys)

  pub length-take-le : (n : ℕ) (xs : List A) → length (take n xs) ≤ n
  length-take-le zero xs = omega arith
  length-take-le (suc n) [] = omega arith
  length-take-le (suc n) (x ∷ xs) = omega (arith, length-take-le n xs)

  pub length-keep-le : (p : A → Bool) (xs : List A) → length (keep p xs) ≤ length xs
  length-keep-le p [] = omega arith
  length-keep-le p (x ∷ xs) = ground (arith, length-keep-le p xs)

  pub length-map {κ} : {B : Type κ} (f : A → B) (xs : List A) → length (map f xs) ≡ length xs
  length-map f [] = refl
  length-map f (x ∷ xs) = ap suc (length-map f xs)

module _ {A : Type 0} where
  pub In-append_left : (a : A) (xs ys : List A) → In a xs → In a (xs ++ ys)
  In-append_left a [] ys m = absurd m
  In-append_left a (x ∷ xs) ys (inl e) = inl e
  In-append_left a (x ∷ xs) ys (inr m) = inr (In-append_left a xs ys m)

  pub In-append_right : (a : A) (xs ys : List A) → In a ys → In a (xs ++ ys)
  In-append_right a [] ys m = m
  In-append_right a (x ∷ xs) ys m = inr (In-append_right a xs ys m)

  pub In-append : (a : A) (xs ys : List A) → In a (xs ++ ys) → In a xs ⊎ In a ys
  In-append a [] ys m = inr m
  In-append a (x ∷ xs) ys (inl e) = inl (inl e)
  In-append a (x ∷ xs) ys (inr m) = elim (In-append a xs ys m) [
    | inl h ↦ inl (inr h)
    | inr h ↦ inr h
  ]

  pub In-map : {B : Type 0} (f : A → B) (a : A) (xs : List A) → In a xs → In (f a) (map f xs)
  In-map f a [] m = absurd m
  In-map f a (x ∷ xs) (inl e) = inl (ap f e)
  In-map f a (x ∷ xs) (inr m) = inr (In-map f a xs m)

  pub map-In :
      {B : Type 0} (f : A → B) (b : B) (xs : List A)
      → In b (map f xs)
      → (a : A) × In a xs × (f a ≡ b)
  map-In f b [] m = absurd m
  map-In f b (x ∷ xs) (inl e) = (x, inl refl, e)
  map-In f b (x ∷ xs) (inr m) = let (a, h, e) = map-In f b xs m in (a, inr h, e)

  In-reverse_aux : (a : A) (xs ys : List A) → In a (reverse_aux xs ys) → In a xs ⊎ In a ys
  In-reverse_aux a [] ys m = inr m
  In-reverse_aux a (x ∷ xs) ys m = elim (In-reverse_aux a xs (x ∷ ys) m) [
    | inl h ↦ inl (inr h)
    | inr (inl e) ↦ inl (inl e)
    | inr (inr h) ↦ inr h
  ]

  pub In-reverse : (a : A) (xs : List A) → In a (reverse xs) → In a xs
  In-reverse a xs m = elim (In-reverse_aux a xs [] m) [ inl h ↦ h | inr h ↦ absurd h ]

  pub keep-In : (p : A → Bool) (a : A) (xs : List A) → In a (keep p xs) → In a xs × (p a ≡ true)
  keep-In p a [] m = absurd m
  keep-In p a (x ∷ xs) m = elim (Bool-cases (p x)) [
    | inl passes ↦ elim (rw passes at m) [
      | inl e ↦ (inl e, cc)
      | inr h ↦ let (h', q) = keep-In p a xs h in (inr h', q)
    ]
    | inr fails ↦ let (h', q) = keep-In p a xs (rw fails at m) in (inr h', q)
  ]

  pub In-keep : (p : A → Bool) (a : A) (xs : List A) → In a xs → p a ≡ true → In a (keep p xs)
  In-keep p a [] m q = absurd m
  In-keep p a (x ∷ xs) (inl e) q = let h : p x ≡ true = cc in rw h (inl e)
  In-keep p a (x ∷ xs) (inr m) q = elim (Bool-cases (p x)) [
    | inl passes ↦ rw passes (inr (In-keep p a xs m q))
    | inr fails ↦ rw fails (In-keep p a xs m q)
  ]

  pub any_of : (p : A → Bool) (a : A) (xs : List A) → In a xs → p a ≡ true → any p xs ≡ true
  any_of p a [] m q = absurd m
  any_of p a (x ∷ xs) (inl e) q = let h : p x ≡ true = cc in rw h refl
  any_of p a (x ∷ xs) (inr m) q = ground (arith, any_of p a xs m q)

  pub any_at : (p : A → Bool) (xs : List A) → any p xs ≡ true → (a : A) × In a xs × (p a ≡ true)
  any_at p [] h = cc
  any_at p (x ∷ xs) h = elim (Bool-cases (p x)) [
    | inl passes ↦ (x, inl refl, passes)
    | inr fails ↦ let (a, m, q) = any_at p xs (rw fails at h) in (a, inr m, q)
  ]

  pub all_at : (p : A → Bool) (a : A) (xs : List A) → all p xs ≡ true → In a xs → p a ≡ true
  all_at p a [] h m = absurd m
  all_at p a (x ∷ xs) h (inl e) = let q : p x ≡ true = ground arith in cc
  all_at p a (x ∷ xs) h (inr m) = all_at p a xs (ground arith) m

  pub all_of : (p : A → Bool) (xs : List A) → ((a : A) → In a xs → p a ≡ true) → all p xs ≡ true
  all_of p [] f = refl
  all_of p (x ∷ xs) f = rw (f x (inl refl)) (all_of p xs (λ a m. f a (inr m)))

  pub all_fails :
      (p : A → Bool) (xs : List A) → all p xs ≡ false → (a : A) × In a xs × (p a ≡ false)
  all_fails p [] h = cc
  all_fails p (x ∷ xs) h = elim (Bool-cases (p x)) [
    | inl passes ↦ let (a, m, q) = all_fails p xs (rw passes at h) in (a, inr m, q)
    | inr fails ↦ (x, inl refl, fails)
  ]

  pub find-In : (p : A → Bool) (xs : List A) {a : A} → find p xs ≡ some a → In a xs × (p a ≡ true)
  find-In p [] h = cc
  find-In p (x ∷ xs) h = elim (Bool-cases (p x)) [
    | inl passes ↦ let e : x ≡ _ = ground arith in (inl e, rw (← e) passes)
    | inr fails ↦ let (m, q) = find-In p xs (rw fails at h) in (inr m, q)
  ]
