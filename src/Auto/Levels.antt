-- ===== src/Auto/Levels.antt =====
-- `AutoSettings::validate` and `AutoSettings::target`.
use localoud_ai.Base.{
  ℕ, zero, suc, ◌≤◌, subst, Result, List, [], ◌∷◌, some, false, not, ◌||◌, ◌≡◌, refl, inl, inr,
  Bool-cases, ◌==◌, nat_eq, ==_sound, ok, >>-eq-ok, bail_if, bail_if-eq-ok, any, any_of, In, length,
  arith,
}
use localoud_ai.Auto.{
  AutoError, AutoSettings, ModelTarget, LevelAssignment, validate_target, validate_settings, each,
  target, level_target, level_numbers, assignments_at, bad_levels,
}

each-In :
    {A : Type 0} (check : A → Result AutoError (Unit {0})) (a : A) (l : List A)
    → each check l ≡ ok tt
    → In a l
    → check a ≡ ok tt
unfolding each
each-In check a [] h m = absurd m
each-In check a (x ∷ l) h (inl e) =
    subst (λ y. check y ≡ ok tt) e (>>-eq-ok (check x) (each check l) h).0
each-In check a (x ∷ l) h (inr m) = each-In check a l (>>-eq-ok (check x) (each check l) h).1 m

-- A level that is counted has a target.
counted :
    (n : ℕ) (levels : List LevelAssignment)
    → assignments_at n levels ≡ 1
    → (t : ModelTarget) × (level_target n levels ≡ some t)
      × In (record { level = n; target = t }) levels
unfolding level_target
counted n [] h = absurd (omega arith)
counted n (a ∷ levels) h = elim (Bool-cases (a.level == n)) [
  | inl same ↦
      let e : a.level ≡ n = ==_sound a.level n same in
      (a.target, rw same refl, inl (λ i. record a { level = e i }))
  | inr other ↦ let (t, found, m) = counted n levels (rw other at h) in (t, rw other found, inr m)
]

member : (n : ℕ) → 1 ≤ n → n ≤ 5 → In n level_numbers
member zero low high = absurd (omega arith)
member (suc zero) low high = inl refl
member (suc (suc zero)) low high = inr (inl refl)
member (suc (suc (suc zero))) low high = inr (inr (inl refl))
member (suc (suc (suc (suc zero)))) low high = inr (inr (inr (inl refl)))
member (suc (suc (suc (suc (suc zero))))) low high = inr (inr (inr (inr (inl refl))))
member (suc (suc (suc (suc (suc (suc n)))))) low high = absurd (omega arith)

-- Accepted settings give every level from 1 to 5 a model, the one assigned to it, and that model is
-- valid.
pub target-valid :
    (s : AutoSettings) (n : ℕ)
    → validate_settings s ≡ ok tt
    → 1 ≤ n
    → n ≤ 5
    → (t : ModelTarget) × (target s n ≡ ok t)
      × In (record { level = n; target = t }) s.levels
      × (validate_target t ≡ ok tt)
unfolding target validate_settings
target-valid s n h low high =
    let (_, h1) = >>-eq-ok (validate_target s.classifier) _ h in
    let (levels, h2) =
      >>-eq-ok
        (bail_if
          (not (length s.levels == 5)
            || any (λ n. not (assignments_at n s.levels == 1)) level_numbers)
          bad_levels)
        _ h1 in
    let (valid, _) =
      >>-eq-ok (each (λ (l : LevelAssignment). validate_target l.target) s.levels) _ h2 in
    let tests = bail_if-eq-ok _ _ levels in
    let (t, found, m) = counted n s.levels (one n low high (ground arith)) in
    (
      t,
      rw (h, found) refl,
      m,
      each-In (λ (l : LevelAssignment). validate_target l.target) _ s.levels valid m,
    )
  where
    one :
        (n : ℕ)
        → 1 ≤ n
        → n ≤ 5
        → any (λ n. not (assignments_at n s.levels == 1)) level_numbers ≡ false
        → assignments_at n s.levels ≡ 1
    one n low high none_wrong = elim (Bool-cases (assignments_at n s.levels == 1)) [
      | inl is_one ↦ ==_sound _ 1 is_one
      | inr wrong ↦ cc (
        none_wrong,
        any_of (λ n. not (assignments_at n s.levels == 1)) n level_numbers (member n low high)
            (rw wrong refl),
      )
    ]
