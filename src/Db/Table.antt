-- ===== src/Db/Table.antt =====
-- A table: `UPDATE … WHERE`, how many rows it affects, and lookups by a key.
use localoud_ai.Base.{
  false, ℕ, ◌≡◌, refl, sym, ap, subst, List, [], ◌∷◌, ◌++◌, map, Option, none, some, Bool, ◌==◌, Eq,
  ==_sound, ==_refl, Bool-cases, find, count_if, if◌then◌else◌, In, In-map, Distinct, arith, inl,
  inr,
}

module _ {A : Type 0} where
  -- `UPDATE … SET … WHERE …`
  abbrev pub update_where : (A → Bool) → (A → A) → List A → List A
  update_where p f rows = map (λ r. if p r then f r else r) rows

  -- The number of rows that a statement affects.
  abbrev pub affected : (A → Bool) → List A → ℕ
  affected p rows = count_if p rows

  abbrev pub if_found : {B : Type 0} → (A → B) → Option A → Option B
  if_found f none = none
  if_found f (some a) = some (f a)

module _ {A K : Type 0} ⦃e : Eq K⦄ (key : A → K) where
  -- The row with a key.
  abbrev pub row_with : K → List A → Option A
  row_with k rows = find (λ r. key r == k) rows

  abbrev pub keys : List A → List K
  keys rows = map key rows

  pub keys-map :
      (f : A → A) (rows : List A) → ((r : A) → key (f r) ≡ key r) → keys (map f rows) ≡ keys rows
  keys-map f [] h = refl
  keys-map f (r ∷ rows) h = rw (h r) (ap (λ l. key r ∷ l) (keys-map f rows h))

  pub row_with-map :
      (k : K) (f : A → A) (rows : List A)
      → ((r : A) → key (f r) ≡ key r)
      → row_with k (map f rows) ≡ if_found f (row_with k rows)
  row_with-map k f [] h = refl
  row_with-map k f (r ∷ rows) h = elim (Bool-cases (key r == k)) [
    | inl here ↦ rw (h r, here) refl
    | inr other ↦ rw (h r, other) (row_with-map k f rows h)
  ]

  pub row_with-snoc :
      (k : K) (rows : List A) (r : A)
      → row_with k rows ≡ none
      → row_with k (rows ++ r ∷ []) ≡ (if key r == k then some r else none)
  row_with-snoc k [] r h = ground arith
  row_with-snoc k (x ∷ rows) r h = elim (Bool-cases (key x == k)) [
    | inl here ↦ let bad = rw here at h in cc
    | inr other ↦ rw other (row_with-snoc k rows r (rw other at h))
  ]

  pub row_with-append :
      (k : K) (rows more : List A) {r : A}
      → row_with k rows ≡ some r
      → row_with k (rows ++ more) ≡ some r
  row_with-append k [] more h = cc
  row_with-append k (x ∷ rows) more h = elim (Bool-cases (key x == k)) [
    | inl here ↦ rw here (rw here at h)
    | inr other ↦ rw other (row_with-append k rows more (rw other at h))
  ]

  -- A row of a table without a repeated key is the one that its key finds.
  pub row_with-In :
      (rows : List A) (r : A) → Distinct (keys rows) → In r rows → row_with (key r) rows ≡ some r
  row_with-In [] r d m = absurd m
  row_with-In (x ∷ rows) r (n, d) (inl same) = rw (same, ==_refl (key r)) refl
  row_with-In (x ∷ rows) r (n, d) (inr m) = elim (Bool-cases (key x == key r)) [
    | inl here ↦ absurd (
        n (
          subst (λ k. In k (keys rows)) (sym (==_sound (key x) (key r) here))
            (In-map key r rows m)))
    | inr other ↦ rw other (row_with-In rows r d m)
  ]

  pub row_with-none : (rows : List A) (k : K) → row_with k rows ≡ none → ¬ In k (keys rows)
  row_with-none [] k h m = m
  row_with-none (x ∷ rows) k h m = elim (Bool-cases (key x == k)) [
    | inl here ↦ let bad = rw here at h in cc
    | inr other ↦ elim m [
      | inl same ↦ let bad = rw (same, ==_refl k) at other in cc
      | inr later ↦ row_with-none rows k (rw other at h) later
    ]
  ]

-- A row that a statement does not select stays.
pub In-update_other :
    {A : Type 0} (p : A → Bool) (f : A → A) (a : A) (rows : List A)
    → In a rows
    → p a ≡ false
    → In a (update_where p f rows)
In-update_other p f a (x ∷ rows) (inl e) out = let same : p x ≡ false = cc in rw same (inl e)
In-update_other p f a (x ∷ rows) (inr m) out = inr (In-update_other p f a rows m out)
In-update_other p f a [] m out = absurd m
