-- ===== src/Handoff/Select.antt =====
-- `Handoff::select`: what a selection contains, and what it costs.
use localoud_ai.Base.{
  ℕ, ◌≤◌, ◌≡◌, refl, sym, subst, String, List, [], ◌∷◌, ◌++◌, reverse, map, Bool, true, false, not,
  ◌||◌, is_empty, inl, inr, ◌==◌, nat_eq, string_eq, Bool-cases, ltb, leb, length, any, any_of,
  keep, keep-In, In-keep, contains, contains-In, In-contains, In, In-map, map-In, Distinct, Sub, ok,
  Result, >>-eq-ok, bail_if, bail_if-eq-ok, ok_injective, In-reverse, arith,
}
use localoud_ai.Base.Text.{is_blank}
use localoud_ai.Handoff.{
  Group, Handoff, Selection, HandoffError, group_ids, source_ids_of, all_distinct, limits_exceeded,
  too_large, duplicate_id, over_budget, unresolved_source,
}
use localoud_ai.Handoff.Checks.{each, check_source, check_links, check_group}
use localoud_ai.Handoff.Packing.{
  insert_text, closure, pack, try_group, add_optional, validate, select, is_mandatory, mandatory,
}
use localoud_ai.Handoff.Closure.{
  IsClosed, IsLinked, closure_lem, insert_text-Extends, insert_text-IsSetOf,
}

each-In :
    {A : Type 0} (check : A → Result HandoffError (Unit {0})) (a : A) (l : List A)
    → each check l ≡ ok tt
    → In a l
    → check a ≡ ok tt
unfolding each
each-In check a [] h m = absurd m
each-In check a (x ∷ l) h (inl e) =
    subst (λ y. check y ≡ ok tt) e (>>-eq-ok (check x) (each check l) h).0
each-In check a (x ∷ l) h (inr m) = each-In check a l (>>-eq-ok (check x) (each check l) h).1 m

all_distinct-Distinct : (l : List String) → all_distinct l ≡ true → Distinct l
unfolding all_distinct
all_distinct-Distinct [] h = tt
all_distinct-Distinct (x ∷ l) h =
    let new : contains l x ≡ false = ground arith in
    (λ m. cc (In-contains l x m, new), all_distinct-Distinct l (ground arith))

Distinct-keep :
    (p : Group → Bool) (gs : List Group)
    → Distinct (group_ids gs)
    → Distinct (group_ids (keep p gs))
Distinct-keep p [] d = tt
Distinct-keep p (g ∷ gs) (n, d) = elim (Bool-cases (p g)) [
  | inl kept ↦ rw kept (
    λ m.
        let (x, k, e) = map-In (λ (g : Group). g.id) g.id (keep p gs) m in
        n (
          subst (λ y. In y (group_ids gs)) e
            (In-map (λ (g : Group). g.id) x gs (keep-In p x gs k).0)),
    Distinct-keep p gs d,
  )
  | inr dropped ↦ rw dropped (Distinct-keep p gs d)
]

-- What the checks establish of the groups.
pub record IsValid (h : Handoff) : Type 0 where
  pub distinct : Distinct (group_ids h.groups)
  pub distinct_sources : Distinct (source_ids_of h.sources)
  pub linked : (g : Group) → In g h.groups → check_links h g ≡ ok tt
  pub checked : (g : Group) → In g h.groups → check_group h g ≡ ok tt

validate-IsValid :
    (bytes : Handoff → ℕ) (size : Selection → ℕ) (h : Handoff)
    → validate bytes size h ≡ ok tt
    → IsValid h
unfolding validate
validate-IsValid bytes size h v =
    let (_, h1) =
      >>-eq-ok
        (bail_if
          (h.max_bytes == 0
            || ltb 144000 h.max_bytes
            || ltb 256 (length h.sources)
            || ltb 256 (length h.groups))
          limits_exceeded)
        _ v in
    let (_, h2) = >>-eq-ok (bail_if (ltb 1000000 (bytes h)) too_large) _ h1 in
    let (unique, h3) =
      >>-eq-ok
        (bail_if
          (not (all_distinct (source_ids_of h.sources))
            || not (all_distinct (group_ids h.groups))
            || not (all_distinct (map (λ o. o.call_id) h.outcomes)))
          duplicate_id)
        _ h2 in
    let (_, h4) = >>-eq-ok (each check_source h.sources) _ h3 in
    let (links, h5) = >>-eq-ok (each (check_links h) h.groups) _ h4 in
    let (groups, _) = >>-eq-ok (each (check_group h) h.groups) _ h5 in
    let tests = bail_if-eq-ok _ _ unique in
    record {
      distinct = all_distinct-Distinct (group_ids h.groups) (ground arith);
      distinct_sources = all_distinct-Distinct (source_ids_of h.sources) (ground arith);
      linked = λ g m. each-In (check_links h) g h.groups links m;
      checked = λ g m. each-In (check_group h) g h.groups groups m;
    }

check_links-IsLinked :
    (h : Handoff) (g : Group)
    → In g h.groups
    → check_links h g ≡ ok tt
    → IsLinked (group_ids h.groups) g
unfolding check_links
check_links-IsLinked h g m c =
    let (_, c') =
      >>-eq-ok
        (bail_if
          (is_blank g.id
            || is_empty g.source_ids
            || any (λ id. not (contains (source_ids_of h.sources) id)) g.source_ids)
          (unresolved_source g.id))
        _ c in
    let fine = bail_if-eq-ok _ _ c' in
    (
      In-map (λ (g : Group). g.id) g h.groups m,
      λ d k. elim (Bool-cases (contains (group_ids h.groups) d)) [
        | inl there ↦ contains-In (group_ids h.groups) d there
        | inr missing ↦ cc (
          fine,
          any_of (λ id. id == g.id || not (contains (group_ids h.groups) id)) d
              (g.depends_on ++ g.corrects) k (ground arith),
        )
      ],
    )

-- The identifiers that a selection is packed from.
pub record IsChosen (size : Selection → ℕ) (h : Handoff) (chosen : List String) : Type 0 where
  pub closed : IsClosed h.groups chosen
  pub distinct : Distinct chosen
  pub known : Sub chosen (group_ids h.groups)
  pub mandatory_in : Sub (group_ids (keep is_mandatory h.groups)) chosen
  pub fits : size (pack h chosen) ≤ h.max_bytes

module _ (size : Selection → ℕ) (h : Handoff) (valid : IsValid h) where
  links : (g : Group) → In g h.groups → IsLinked (group_ids h.groups) g
  links g m = check_links-IsLinked h g m (valid.linked g m)

  try_group-IsChosen :
      (chosen : List String) (g : Group)
      → In g h.groups
      → IsChosen size h chosen
      → IsChosen size h (try_group size h chosen g)
  unfolding try_group
  try_group-IsChosen chosen g m c =
      let next = closure h.groups (insert_text g.id chosen) in
      let set =
        insert_text-IsSetOf (group_ids h.groups) g.id chosen
          (In-map (λ (g : Group). g.id) g h.groups m)
          (record { distinct = c.distinct; all_known = c.known }) in
      let (closed, sub, distinct, known) =
        closure_lem h.groups links (insert_text g.id chosen) set.distinct set.all_known in
      elim (Bool-cases (leb (size (pack h next)) h.max_bytes)) [
        | inl fits ↦ rw fits (record {
          closed = closed;
          distinct = distinct;
          known = known;
          mandatory_in =
              λ a k. sub a ((insert_text-Extends g.id chosen).0.sub a (c.mandatory_in a k));
          fits = ground arith;
        })
        | inr large ↦ rw large c
      ]

  add_optional-IsChosen :
      (chosen : List String) (gs : List Group)
      → Sub gs h.groups
      → IsChosen size h chosen
      → IsChosen size h (add_optional size h chosen gs)
  unfolding add_optional
  add_optional-IsChosen chosen [] k c = c
  add_optional-IsChosen chosen (g ∷ gs) k c =
      add_optional-IsChosen (try_group size h chosen g) gs (λ a m. k a (inr m))
        (try_group-IsChosen chosen g (k g (inl refl)) c)

  mandatory-IsChosen : size (pack h (mandatory h)) ≤ h.max_bytes → IsChosen size h (mandatory h)
  unfolding mandatory
  mandatory-IsChosen fits =
      let first = group_ids (keep is_mandatory h.groups) in
      let (closed, sub, distinct, known) =
        closure_lem h.groups links first (Distinct-keep is_mandatory h.groups valid.distinct)
          (λ a m.
            let (g, k, e) = map-In (λ (g : Group). g.id) a (keep is_mandatory h.groups) m in
            subst (λ x. In x (group_ids h.groups)) e
              (In-map (λ (g : Group). g.id) g h.groups (keep-In is_mandatory g h.groups k).0)) in
      record {
        closed = closed;
        distinct = distinct;
        known = known;
        mandatory_in = sub;
        fits = fits;
      }

-- What is selected is packed from identifiers that are closed, hold all that is mandatory, and fit.
pub record IsSelected (size : Selection → ℕ) (h : Handoff) (sel : Selection) : Type 0 where
  pub chosen : List String
  pub packed : sel ≡ pack h chosen
  pub is_chosen : IsChosen size h chosen
  pub valid : IsValid h

pub select-IsSelected :
    (bytes : Handoff → ℕ) (size : Selection → ℕ) (h : Handoff) (sel : Selection)
    → select bytes size h ≡ ok sel
    → IsSelected size h sel
unfolding select
select-IsSelected bytes size h sel e =
    let (v, e1) = >>-eq-ok (validate bytes size h) _ e in
    let (within, e2) =
      >>-eq-ok (bail_if (ltb h.max_bytes (size (pack h (mandatory h)))) over_budget) _ e1 in
    let valid = validate-IsValid bytes size h v in
    record {
      chosen = add_optional size h (mandatory h) (reverse h.groups);
      packed = sym (ok_injective e2);
      is_chosen =
          add_optional-IsChosen size h valid (mandatory h) (reverse h.groups)
            (λ a m. In-reverse a h.groups m)
            (mandatory-IsChosen size h valid (ground (arith, bail_if-eq-ok _ _ within)));
      valid = valid;
    }

module _ (bytes : Handoff → ℕ) (size : Selection → ℕ) (h : Handoff) (sel : Selection)
    (e : select bytes size h ≡ ok sel) where
  -- A selection that is returned is no larger than the limit that the handoff sets.
  pub select-fits : size sel ≤ h.max_bytes
  select-fits =
      let s = select-IsSelected bytes size h sel e in
      subst (λ x. size x ≤ h.max_bytes) (sym s.packed) s.is_chosen.fits

  -- A selection that is returned has every group that is not background and every group that
  -- corrects another.
  pub select-mandatory : (g : Group) → In g h.groups → is_mandatory g ≡ true → In g sel.groups
  unfolding pack
  select-mandatory g m must =
      let s = select-IsSelected bytes size h sel e in
      rw s.packed (
        In-keep (λ x. contains s.chosen x.id) g h.groups m
          (In-contains s.chosen g.id (
            s.is_chosen.mandatory_in g.id (
              In-map (λ (x : Group). x.id) g (keep is_mandatory h.groups)
                (In-keep is_mandatory g h.groups m must)))))

  -- A selection that is returned has, with a group, every group that it depends on or corrects.
  pub select-closed :
      (g : Group) (id : String)
      → In g sel.groups
      → In id (g.depends_on ++ g.corrects)
      → In id (group_ids sel.groups)
  unfolding pack
  select-closed g id m linked =
      let s = select-IsSelected bytes size h sel e in
      let here : In g (keep (λ x. contains s.chosen x.id) h.groups) =
        subst (λ x. In g x.groups) s.packed m in
      let (there, chosen) = keep-In (λ x. contains s.chosen x.id) g h.groups here in
      let picked : In id s.chosen =
        (s.is_chosen.closed g there (ground (arith, chosen))).1 id linked in
      let (d, found, named) =
        map-In (λ (x : Group). x.id) id h.groups (s.is_chosen.known id picked) in
      let kept =
        In-keep (λ x. contains s.chosen x.id) d h.groups found
          (In-contains s.chosen d.id (subst (λ i. In i s.chosen) (sym named) picked)) in
      rw s.packed (
        subst (λ i. In i (group_ids (keep (λ x. contains s.chosen x.id) h.groups))) named
          (In-map (λ (x : Group). x.id) d (keep (λ x. contains s.chosen x.id) h.groups) kept))
