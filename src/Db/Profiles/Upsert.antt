-- ===== src/Db/Profiles/Upsert.antt =====
-- Lookups of profiles, and what an upsert does to them (crates/hub-db/src/lib.rs).
use localoud_ai.Base.{
  ◌≡◌, refl, sym, ap, subst, ◌∙◌, inl, inr, String, List, [], ◌∷◌, ◌++◌, Option, none, some, Bool,
  true, false, ◌==◌, string_eq, nat_eq, ==_sound, ==_refl, Bool-cases, if◌then◌else◌, In, All,
  All-append, any, Distinct, Distinct-snoc, Result, ok, ◌>>=◌, arith, map-append,
}
use localoud_ai.Db.{update_where, row_with, keys, keys-map}
use localoud_ai.Providers.{ProviderProfile}
use localoud_ai.Db.Profiles.{
  ProfileRow, ProfileError, read_row, in_order, read_rows, provider_profiles, provider_profile,
  profile_key, row_key, upsert,
}
use localoud_ai.Db.Profiles.Codes.{read_row-id}
use localoud_ai.Db.Profiles.Order.{row_with-in_order, All-in_order}

abbrev pub IsReadable : ProfileRow → Type 0
IsReadable r = (p : ProviderProfile) × (read_row r ≡ ok p)

-- The rows are readable and have different identifiers.
pub record IsTable (rows : List ProfileRow) : Type 0 where
  pub readable : All IsReadable rows
  pub keyed : Distinct (keys row_key rows)

-- A lookup in terms of one row.
unfoldable pub read_found : Option ProfileRow → Result ProfileError (Option ProviderProfile)
read_found none = ok none
read_found (some r) = do p ← read_row r; ok (some p)

read_rows-readable :
    (rows : List ProfileRow)
    → All IsReadable rows
    → (ps : List ProviderProfile) × (read_rows rows ≡ ok ps)
unfolding read_rows
read_rows-readable [] h = ([], refl)
read_rows-readable (r ∷ rows) ((p, e), h) =
    let (ps, es) = read_rows-readable rows h in (p ∷ ps, rw (e, es) refl)

find-read_rows :
    (id : String) (rows : List ProfileRow)
    → All IsReadable rows
    → (read_rows rows >>= λ ps. ok (row_with profile_key id ps))
      ≡ read_found (row_with row_key id rows)
unfolding read_rows read_found
find-read_rows id [] h = refl
find-read_rows id (r ∷ rows) ((p, e), h) =
    let (ps, es) = read_rows-readable rows h in
    let rest = rw es at (find-read_rows id rows h) in
    elim (Bool-cases (r.id == id)) [
      | inl here ↦
          let here' : (p.id == id) ≡ true = rw (read_row-id r e) here in
          rw (e, es, here, here', e) refl
      | inr there ↦
          let there' : (p.id == id) ≡ false = rw (read_row-id r e) there in
          rw (e, es, there, there') rest
    ]

pub lookup_row :
    (id : String) (rows : List ProfileRow)
    → IsTable rows
    → provider_profile id rows ≡ read_found (row_with row_key id rows)
unfolding provider_profile provider_profiles
lookup_row id rows t =
    find-read_rows id (in_order rows) (All-in_order IsReadable rows t.readable)
    ∙ ap read_found (row_with-in_order id rows t.keyed)

abbrev same_id : ProfileRow → ProfileRow → Bool
same_id r x = x.id == r.id

apart :
    (x r : ProfileRow) (id : String)
    → same_id r x ≡ false
    → (x.id == id) ≡ true
    → (r.id == id) ≡ false
apart x r id other here = elim (Bool-cases (r.id == id)) [
  | inr there ↦ there
  | inl bad ↦
      let e : x.id ≡ r.id = ==_sound x.id id here ∙ sym (==_sound r.id id bad) in
      let q : same_id r x ≡ true = rw (e, ==_refl r.id) refl in cc
]

row_with-replace :
    (id : String) (r : ProfileRow) (rows : List ProfileRow)
    → any (same_id r) rows ≡ true
    → row_with row_key id (update_where (same_id r) (λ x. r) rows)
      ≡ (if r.id == id then some r else row_with row_key id rows)
row_with-replace id r [] h = cc
row_with-replace id r (x ∷ rows) h = elim (Bool-cases (x.id == r.id)) [
  | inl same ↦ elim (Bool-cases (r.id == id)) [
    | inl here ↦ rw (same, here) refl
    | inr there ↦ rw (same, there, ==_sound x.id r.id same, there) (replaced rows there)
  ]
  | inr other ↦ elim (Bool-cases (x.id == id)) [
    | inl here ↦ rw (other, here, apart x r id other here) refl
    | inr there ↦ rw (other, there) (row_with-replace id r rows (rw other at h))
  ]
]
  where
    replaced :
        (rows : List ProfileRow)
        → (r.id == id) ≡ false
        → row_with row_key id (update_where (same_id r) (λ x. r) rows) ≡ row_with row_key id rows
    replaced [] there = refl
    replaced (x ∷ rows) there = elim (Bool-cases (x.id == r.id)) [
      | inl same ↦ rw (same, there, ==_sound x.id r.id same, there) (replaced rows there)
      | inr other ↦ elim (Bool-cases (x.id == id)) [
        | inl here ↦ rw (other, here) refl
        | inr there' ↦ rw (other, there') (replaced rows there)
      ]
    ]

-- What an upsert does to lookups, and to the table.
pub row_with-upsert :
    (id : String) (r : ProfileRow) (rows : List ProfileRow)
    → row_with row_key id (upsert r rows)
      ≡ (if r.id == id then some r else row_with row_key id rows)
unfolding upsert
row_with-upsert id r rows = elim (Bool-cases (any (same_id r) rows)) [
  | inl old ↦ rw old (row_with-replace id r rows old)
  | inr new ↦ rw new (appended rows new)
]
  where
    appended :
        (rows : List ProfileRow)
        → any (same_id r) rows ≡ false
        → row_with row_key id (rows ++ r ∷ [])
          ≡ (if r.id == id then some r else row_with row_key id rows)
    appended [] new = refl
    appended (x ∷ rows) new =
        let other : same_id r x ≡ false = ground arith in
        let rest : any (same_id r) rows ≡ false = ground arith in
        elim (Bool-cases (x.id == id)) [
          | inl here ↦ rw (here, apart x r id other here) refl
          | inr there ↦ rw there (appended rows rest)
        ]

replace_id : (r x : ProfileRow) → (if same_id r x then r else x).id ≡ x.id
replace_id r x = elim (Bool-cases (same_id r x)) [
  | inl same ↦ rw same (sym (==_sound x.id r.id same))
  | inr other ↦ rw other refl
]

All-replace :
    (r : ProfileRow) (rows : List ProfileRow)
    → IsReadable r
    → All IsReadable rows
    → All IsReadable (update_where (same_id r) (λ x. r) rows)
All-replace r [] h hs = tt
All-replace r (x ∷ rows) h (hx, hs) = elim (Bool-cases (same_id r x)) [
  | inl same ↦ rw same (h, All-replace r rows h hs)
  | inr other ↦ rw other (hx, All-replace r rows h hs)
]

new_key :
    (r : ProfileRow) (rows : List ProfileRow)
    → any (same_id r) rows ≡ false
    → ¬ In r.id (keys row_key rows)
new_key r [] new m = m
new_key r (x ∷ rows) new (inl e) =
    let bad : same_id r x ≡ true = rw (e, ==_refl r.id) refl in ground arith
new_key r (x ∷ rows) new (inr m) = new_key r rows (ground arith) m

pub IsTable-upsert :
    (r : ProfileRow) (rows : List ProfileRow)
    → IsReadable r
    → IsTable rows
    → IsTable (upsert r rows)
unfolding upsert
IsTable-upsert r rows h t = elim (Bool-cases (any (same_id r) rows)) [
  | inl old ↦ rw old (record {
    readable = All-replace r rows h t.readable;
    keyed =
        subst Distinct
          (sym (keys-map row_key (λ x. if same_id r x then r else x) rows (replace_id r))) t.keyed;
  })
  | inr new ↦ rw new (record {
    readable = All-append IsReadable rows (r ∷ []) t.readable (h, tt);
    keyed =
        subst Distinct (sym (map-append row_key rows (r ∷ [])))
          (Distinct-snoc (keys row_key rows) r.id t.keyed (new_key r rows new));
  })
]
