-- ===== src/Db/Profiles/Saved.antt =====
-- What is read after a profile was saved (crates/hub-db/src/lib.rs).
use localoud_ai.Base.{
  ◌+◌, ◌≤◌, ◌≡◌, refl, sym, ap, subst, ◌∙◌, inl, inr, String, List, Option, some, true, false, ◌==◌,
  string_eq, nat_eq, ==_refl, Bool-cases, if◌then◌else◌, ok, err, >>-eq-ok, ok_injective, bail_if,
  arith,
}
use localoud_ai.Db.{row_with}
use localoud_ai.Providers.{ProviderProfile, Url, validate_profile}
use localoud_ai.Db.Profiles.{
  ProfileRow, stale, number_too_large, write_row, provider_profile, row_key, check_revision,
  valid_or, upsert, save_provider_profile,
}
use localoud_ai.Db.Profiles.Codes.{read_row-write_row}
use localoud_ai.Db.Profiles.Upsert.{
  IsTable, read_found, lookup_row, row_with-upsert, IsTable-upsert,
}

write_row-id : (p : ProviderProfile) → (write_row p).id ≡ p.id
unfolding write_row
write_row-id p = refl

write_row-revision : (p : ProviderProfile) → (write_row p).revision ≡ p.revision
unfolding write_row
write_row-revision p = refl

found_or :
    (p : ProviderProfile) (rows : List ProfileRow)
    → IsTable rows
    → (id : String)
    → read_found (if (write_row p).id == id then some (write_row p) else row_with row_key id rows)
      ≡ (if p.id == id then ok (some p) else provider_profile id rows)
unfolding read_found
found_or p rows t id = elim (Bool-cases (p.id == id)) [
  | inl here ↦
      let here' : ((write_row p).id == id) ≡ true = rw (write_row-id p) here in
      rw (here', here, read_row-write_row p) refl
  | inr there ↦
      let there' : ((write_row p).id == id) ≡ false = rw (write_row-id p) there in
      rw (there', there) (sym (lookup_row id rows t))
]

save-eq-ok :
    (parse_url : String → Option Url) (p : ProviderProfile) (rows rows' : List ProfileRow)
    → save_provider_profile parse_url p rows ≡ ok rows'
    → (check_revision (row_with row_key p.id rows) p.revision ≡ ok tt)
      × (upsert (write_row p) rows ≡ rows')
unfolding save_provider_profile
save-eq-ok parse_url p rows rows' h =
    let (_, h1) = >>-eq-ok (valid_or (validate_profile parse_url p)) _ h in
    let (c, h2) = >>-eq-ok (check_revision (row_with row_key p.id rows) p.revision) _ h1 in
    let (_, h3) = >>-eq-ok (bail_if _ number_too_large) _ h2 in (c, ok_injective h3)

-- A profile that is saved is the one that its identifier reads from then on, every other identifier
-- reads what it did, and the rows stay readable and without a repeated identifier.
pub provider_profile-save :
    (parse_url : String → Option Url) (p : ProviderProfile) (rows rows' : List ProfileRow)
    → IsTable rows
    → save_provider_profile parse_url p rows ≡ ok rows'
    → IsTable rows'
      × ((id : String)
          → provider_profile id rows'
            ≡ (if p.id == id then ok (some p) else provider_profile id rows))
provider_profile-save parse_url p rows rows' t h =
    let (_, e) = save-eq-ok parse_url p rows rows' h in
    let t' = subst IsTable e (IsTable-upsert (write_row p) rows (p, read_row-write_row p) t) in
    (
      t',
      λ id.
          lookup_row id rows' t'
          ∙ ap read_found (ap (row_with row_key id) (sym e) ∙ row_with-upsert id (write_row p) rows)
          ∙ found_or p rows t id,
    )

-- Of two changes to the same revision of a valid profile, the one that is saved second is refused.
pub save-stale :
    (parse_url : String → Option Url) (p q : ProviderProfile) (rows rows' : List ProfileRow)
    → save_provider_profile parse_url p rows ≡ ok rows'
    → q.id ≡ p.id
    → q.revision ≤ p.revision
    → validate_profile parse_url q ≡ ok tt
    → save_provider_profile parse_url q rows' ≡ err stale
unfolding save_provider_profile check_revision
save-stale parse_url p q rows rows' h same old valid =
    let (_, e) = save-eq-ok parse_url p rows rows' h in
    let found : row_with row_key q.id rows' ≡ some (write_row p) =
      ap (row_with row_key q.id) (sym e)
      ∙ row_with-upsert q.id (write_row p) rows
      ∙ rw (write_row-id p, same, ==_refl p.id) refl in
    let behind : (q.revision == (write_row p).revision + 1) ≡ false =
      rw (write_row-revision p) (ground arith) in
    rw (valid, found, check_revision, behind) refl
