-- ===== src/Db/Profiles/Order.antt =====
-- The order in which the rows of provider_profiles are read (crates/hub-db/src/lib.rs), and lookups by
-- identifier.
use localoud_ai.Base.{
  ◌≡◌, refl, sym, ◌∙◌, inl, inr, ◌⊎◌, String, List, [], ◌∷◌, some, ◌==◌, string_eq, ==_sound,
  Bool-cases, if◌then◌else◌, In, All, Distinct,
}
use localoud_ai.Db.{row_with, keys}
use localoud_ai.Db.Profiles.{ProfileRow, row_key, insert_row, in_order, before}

In-insert_row :
    (k : String) (r : ProfileRow) (rows : List ProfileRow)
    → In k (keys row_key (insert_row r rows))
    → (r.id ≡ k) ⊎ In k (keys row_key rows)
unfolding insert_row
In-insert_row k r [] m = m
In-insert_row k r (x ∷ rows) m = elim (Bool-cases (before r x)) [
  | inl first ↦ rw first at m
  | inr later ↦ elim (rw later at m) [
    | inl e ↦ inr (inl e)
    | inr m' ↦ elim (In-insert_row k r rows m') [ inl e ↦ inl e | inr h ↦ inr (inr h) ]
  ]
]

In-in_order :
    (k : String) (rows : List ProfileRow)
    → In k (keys row_key (in_order rows))
    → In k (keys row_key rows)
unfolding in_order
In-in_order k [] m = m
In-in_order k (r ∷ rows) m = elim (In-insert_row k r (in_order rows) m) [
  | inl e ↦ inl e
  | inr h ↦ inr (In-in_order k rows h)
]

row_with-insert_row :
    (k : String) (r : ProfileRow) (rows : List ProfileRow)
    → ¬ In r.id (keys row_key rows)
    → row_with row_key k (insert_row r rows)
      ≡ (if r.id == k then some r else row_with row_key k rows)
unfolding insert_row
row_with-insert_row k r [] n = refl
row_with-insert_row k r (x ∷ rows) n = elim (Bool-cases (before r x)) [
  | inl first ↦ rw first refl
  | inr later ↦ elim (Bool-cases (x.id == k)) [
    | inl here ↦ elim (Bool-cases (r.id == k)) [
      | inl same ↦ absurd (n (inl (==_sound x.id k here ∙ sym (==_sound r.id k same))))
      | inr other ↦ rw (later, here, other) refl
    ]
    | inr there ↦ rw (later, there) (row_with-insert_row k r rows (λ m. n (inr m)))
  ]
]

pub row_with-in_order :
    (k : String) (rows : List ProfileRow)
    → Distinct (keys row_key rows)
    → row_with row_key k (in_order rows) ≡ row_with row_key k rows
unfolding in_order
row_with-in_order k [] d = refl
row_with-in_order k (r ∷ rows) (n, d) =
    row_with-insert_row k r (in_order rows) (λ m. n (In-in_order r.id rows m))
    ∙ rw (row_with-in_order k rows d) refl

module _ (P : ProfileRow → Type 0) where
  All-insert_row :
      (r : ProfileRow) (rows : List ProfileRow) → P r → All P rows → All P (insert_row r rows)
  unfolding insert_row
  All-insert_row r [] h hs = (h, hs)
  All-insert_row r (x ∷ rows) h (hx, hs) = elim (Bool-cases (before r x)) [
    | inl first ↦ rw first (h, (hx, hs))
    | inr later ↦ rw later (hx, All-insert_row r rows h hs)
  ]

  pub All-in_order : (rows : List ProfileRow) → All P rows → All P (in_order rows)
  unfolding in_order
  All-in_order [] hs = hs
  All-in_order (r ∷ rows) (h, hs) = All-insert_row r (in_order rows) h (All-in_order rows hs)
