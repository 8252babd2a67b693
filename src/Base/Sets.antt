-- ===== src/Base/Sets.antt =====
-- Lists as sets: lists without repetition, inclusion, and membership that is decided.
use Prim.Native.Nat.{suc, ◌≤◌}
use mathlib.Core.Path.{◌≡◌, refl, sym, ap, subst, ◌∙◌}
use mathlib.Core.Logic.{inl, inr}
use mathlib.Core.Bool.{Bool, true, false, ◌||◌}
use mathlib.Core.List.{List, [], ◌∷◌, ◌++◌}
use native.Mathlib.Omega.{arith}
use localoud_ai.Base.Tests.{Eq, ◌==◌, ==_refl, ==_sound, Bool-cases}
use localoud_ai.Base.Lists.{length, In, In-append}

module _ {A : Type 0} where
  abbrev pub Distinct : List A → Type 0
  Distinct [] = Unit
  Distinct (x ∷ xs) = ¬ In x xs × Distinct xs

  pub Distinct-snoc : (xs : List A) (x : A) → Distinct xs → ¬ In x xs → Distinct (xs ++ x ∷ [])
  Distinct-snoc [] x d n = (λ m. m, tt)
  Distinct-snoc (y ∷ xs) x (h, d) n = (
    λ m. elim (In-append y xs (x ∷ []) m) [
      | inl old ↦ h old
      | inr new ↦ elim new [ inl e ↦ n (inl (sym e)) | inr nothing ↦ nothing ]
    ],
    Distinct-snoc xs x d (λ m. n (inr m)),
  )

  -- Every element of the first list is one of the second.
  abbrev pub Sub : List A → List A → Type 0
  Sub xs ys = (a : A) → In a xs → In a ys

  -- Without one occurrence of an element.
  without : (a : A) (ys : List A) → In a ys → List A
  without a [] m = absurd m
  without a (y ∷ ys) (inl e) = ys
  without a (y ∷ ys) (inr m) = y ∷ without a ys m

  length-without : (a : A) (ys : List A) (m : In a ys) → suc (length (without a ys m)) ≡ length ys
  unfolding without
  length-without a [] m = absurd m
  length-without a (y ∷ ys) (inl e) = refl
  length-without a (y ∷ ys) (inr m) = ap suc (length-without a ys m)

  In-without : (a b : A) (ys : List A) (m : In a ys) → In b ys → ¬ (a ≡ b) → In b (without a ys m)
  unfolding without
  In-without a b [] m k n = absurd m
  In-without a b (y ∷ ys) (inl e) (inl q) n = absurd (n (sym e ∙ q))
  In-without a b (y ∷ ys) (inl e) (inr k) n = k
  In-without a b (y ∷ ys) (inr m) (inl q) n = inl q
  In-without a b (y ∷ ys) (inr m) (inr k) n = inr (In-without a b ys m k n)

  -- A list without repetition is no longer than a list that has its elements.
  pub length-le-of_Sub : (xs ys : List A) → Distinct xs → Sub xs ys → length xs ≤ length ys
  length-le-of_Sub [] ys d s = omega arith
  length-le-of_Sub (x ∷ xs) ys (h, d) s =
      let m = s x (inl refl) in
      let smaller =
        length-le-of_Sub xs (without x ys m) d
          (λ b k. In-without x b ys m (s b (inr k)) (λ e. h (subst (λ c. In c xs) (sym e) k))) in
      omega (arith, length-without x ys m)

module _ {A : Type 0} ⦃e : Eq A⦄ where
  abbrev pub contains : List A → A → Bool
  contains [] a = false
  contains (x ∷ xs) a = x == a || contains xs a

  pub contains-In : (xs : List A) (a : A) → contains xs a ≡ true → In a xs
  contains-In [] a h = cc
  contains-In (x ∷ xs) a h = elim (Bool-cases (x == a)) [
    | inl same ↦ inl (==_sound x a same)
    | inr other ↦ inr (contains-In xs a (rw other at h))
  ]

  pub In-contains : (xs : List A) (a : A) → In a xs → contains xs a ≡ true
  In-contains [] a m = absurd m
  In-contains (x ∷ xs) a (inl same) = rw (same, ==_refl a) refl
  In-contains (x ∷ xs) a (inr m) = ground (arith, In-contains xs a m)

  pub In_dec : (a : A) (xs : List A) → Dec (In a xs)
  In_dec a xs = elim (Bool-cases (contains xs a)) [
    | inl h ↦ yes (contains-In xs a h)
    | inr h ↦ no (λ m. cc (In-contains xs a m, h))
  ]

  pub not-In-contains : (xs : List A) (a : A) → ¬ In a xs → contains xs a ≡ false
  not-In-contains xs a n = elim (Bool-cases (contains xs a)) [
    | inl h ↦ absurd (n (contains-In xs a h))
    | inr h ↦ h
  ]
