-- ===== src/Handoff/Closure.antt =====
-- The closure of a set of groups of a handoff (`closure` of crates/hub-context/src/handoff.rs), and the
-- links between groups.
use localoud_ai.Base.{
  ℕ, zero, suc, ◌+◌, ◌≤◌, ◌<◌, ◌≡◌, ◌≢◌, refl, sym, subst, ◌∙◌, String, List, [], ◌∷◌, ◌++◌, Bool,
  true, false, ◌||◌, inl, inr, ◌==◌, nat_eq, string_eq, ==_sound, Bool-cases, length, length-map,
  length-append, any, contains, contains-In, In-contains, not-In-contains, In, In_dec,
  In-append_left, In-append_right, In-append, Distinct, Distinct-snoc, Sub, length-le-of_Sub, arith,
}
use localoud_ai.Handoff.{Group, group_ids}
use localoud_ai.Handoff.Packing.{
  insert_text, extend, close_group, close_round, closure_loop, closure,
}

ne_of_test : (a b : ℕ) → (a == b) ≡ false → a ≢ b
ne_of_test a b h e = ground arith

-- `m` holds `l`, and is `l` if it is not longer.
pub record Extends (l m : List String) : Type 0 where
  pub sub : Sub l m
  pub longer : length l ≤ length m
  pub same : length m ≤ length l → m ≡ l

Extends-refl : (l : List String) → Extends l l
Extends-refl l = record { sub = λ a m. m; longer = omega arith; same = λ h. refl }

Extends-trans : (l m n : List String) → Extends l m → Extends m n → Extends l n
Extends-trans l m n p q = record {
  sub = λ a k. q.sub a (p.sub a k);
  longer = omega (arith, p.longer, q.longer);
  same = λ h. let e = q.same (omega (arith, p.longer)) in e ∙ p.same (omega (arith, q.longer));
}

pub insert_text-Extends :
    (x : String) (l : List String) → Extends l (insert_text x l) × In x (insert_text x l)
insert_text-Extends x l = elim (Bool-cases (contains l x)) [
  | inl old ↦ rw old (Extends-refl l, contains-In l x old)
  | inr new ↦ rw new (
    record {
      sub = λ a m. In-append_left a l (x ∷ []) m;
      longer = omega (arith, length-append l (x ∷ []));
      same = λ h. absurd (omega (arith, length-append l (x ∷ [])));
    },
    In-append_right x l (x ∷ []) (inl refl),
  )
]

extend-Extends : (l xs : List String) → Extends l (extend l xs) × Sub xs (extend l xs)
unfolding extend
extend-Extends l [] = (Extends-refl l, λ a m. absurd m)
extend-Extends l (x ∷ xs) =
    let (first, here) = insert_text-Extends x l in
    let (rest, all_in) = extend-Extends (insert_text x l) xs in
    (
      Extends-trans l (insert_text x l) (extend (insert_text x l) xs) first rest,
      λ a m. elim m [
        | inl e ↦ rest.sub a (subst (λ c. In c (insert_text x l)) e here)
        | inr k ↦ all_in a k
      ],
    )

abbrev triggered : List String → Group → Bool
triggered selected g = contains selected g.id || any (contains selected) g.corrects

abbrev linked : Group → List String
linked g = g.depends_on ++ g.corrects

close_group-Extends : (l : List String) (g : Group) → Extends l (close_group l g)
unfolding close_group
close_group-Extends l g = elim (Bool-cases (triggered l g)) [
  | inl fires ↦ rw fires (
      Extends-trans l (insert_text g.id l) (extend (insert_text g.id l) (linked g))
        (insert_text-Extends g.id l).0 (extend-Extends (insert_text g.id l) (linked g)).0)
  | inr idle ↦ rw idle (Extends-refl l)
]

close_group-In :
    (l : List String) (g : Group)
    → triggered l g ≡ true
    → In g.id (close_group l g) × Sub (linked g) (close_group l g)
unfolding close_group
close_group-In l g fires =
    let (rest, all_in) = extend-Extends (insert_text g.id l) (linked g) in
    rw fires (rest.sub g.id (insert_text-Extends g.id l).1, all_in)

close_round-Extends : (l : List String) (gs : List Group) → Extends l (close_round l gs)
unfolding close_round
close_round-Extends l [] = Extends-refl l
close_round-Extends l (g ∷ gs) =
    Extends-trans l (close_group l g) (close_round (close_group l g) gs) (close_group-Extends l g)
      (close_round-Extends (close_group l g) gs)

-- A set is closed if a group in it, or one that corrects a group in it, is there with all its links.
abbrev pub IsClosed : List Group → List String → Type 0
IsClosed groups selected =
    (g : Group)
    → In g groups
    → triggered selected g ≡ true
    → In g.id selected × Sub (linked g) selected

-- A round that adds nothing has found a closed set.
fixed-IsClosed :
    (l : List String) (gs : List Group) → length (close_round l gs) ≤ length l → IsClosed gs l
unfolding close_round
fixed-IsClosed l [] h g m fires = absurd m
fixed-IsClosed l (x ∷ gs) h g m fires =
    let first = close_group-Extends l x in
    let rest = close_round-Extends (close_group l x) gs in
    let same = first.same (omega (arith, rest.longer)) in
    elim m [
      | inl e ↦
          subst (λ k. In g.id k × Sub (linked g) k) (subst (λ y. close_group l y ≡ l) e same)
            (close_group-In l g fires)
      | inr k ↦
          fixed-IsClosed l gs (subst (λ z. length (close_round z gs) ≤ length l) same h) g k fires
    ]

-- A set of known identifiers.
pub record IsSetOf (known l : List String) : Type 0 where
  pub distinct : Distinct l
  pub all_known : Sub l known

pub insert_text-IsSetOf :
    (known : List String) (x : String) (l : List String)
    → In x known
    → IsSetOf known l
    → IsSetOf known (insert_text x l)
insert_text-IsSetOf known x l k s = elim (In_dec x l) [
  | yes old ↦ rw (In-contains l x old) s
  | no new ↦ rw (not-In-contains l x new) (record {
    distinct = Distinct-snoc l x s.distinct new;
    all_known = λ a m. elim (In-append a l (x ∷ []) m) [
      | inl h ↦ s.all_known a h
      | inr h ↦ elim h [ inl e ↦ subst (λ y. In y known) e k | inr nothing ↦ absurd nothing ]
    ];
  })
]

extend-IsSetOf :
    (known l xs : List String) → Sub xs known → IsSetOf known l → IsSetOf known (extend l xs)
unfolding extend
extend-IsSetOf known l [] k s = s
extend-IsSetOf known l (x ∷ xs) k s =
    extend-IsSetOf known (insert_text x l) xs (λ a m. k a (inr m))
      (insert_text-IsSetOf known x l (k x (inl refl)) s)

-- The group and all that it links to are known.
abbrev pub IsLinked : List String → Group → Type 0
IsLinked known g = In g.id known × Sub (linked g) known

close_group-IsSetOf :
    (known l : List String) (g : Group)
    → IsLinked known g
    → IsSetOf known l
    → IsSetOf known (close_group l g)
unfolding close_group
close_group-IsSetOf known l g (k, ks) s = elim (Bool-cases (triggered l g)) [
  | inl fires ↦ rw fires (
      extend-IsSetOf known (insert_text g.id l) (linked g) ks
        (insert_text-IsSetOf known g.id l k s))
  | inr idle ↦ rw idle s
]

close_round-IsSetOf :
    (known l : List String) (gs : List Group)
    → ((g : Group) → In g gs → IsLinked known g)
    → IsSetOf known l
    → IsSetOf known (close_round l gs)
unfolding close_round
close_round-IsSetOf known l [] k s = s
close_round-IsSetOf known l (g ∷ gs) k s =
    close_round-IsSetOf known (close_group l g) gs (λ x m. k x (inr m))
      (close_group-IsSetOf known l g (k g (inl refl)) s)

module _ (groups : List Group)
    (links : (g : Group) → In g groups → IsLinked (group_ids groups) g) where
  -- With fuel for every group that is missing, the loop ends in a closed set that holds the first.
  closure_loop_lem :
      (fuel : ℕ) (l : List String)
      → IsSetOf (group_ids groups) l
      → length groups < length l + fuel
      → IsClosed groups (closure_loop fuel groups l)
        × Sub l (closure_loop fuel groups l)
        × IsSetOf (group_ids groups) (closure_loop fuel groups l)
  unfolding closure_loop
  closure_loop_lem zero l s enough = absurd (
      omega (
        arith,
        length-le-of_Sub l (group_ids groups) s.distinct s.all_known,
        length-map (λ (g : Group). g.id) groups,
      ))
  closure_loop_lem (suc fuel) l s enough =
      let next = close_round l groups in
      let grows = close_round-Extends l groups in
      let next_set = close_round-IsSetOf (group_ids groups) l groups links s in
      elim (Bool-cases (length l == length next)) [
        | inl stop ↦
            let e : length l ≡ length next = ==_sound (length l) (length next) stop in
            rw stop (
              subst (λ k. IsClosed groups k × Sub l k × IsSetOf (group_ids groups) k)
                (sym (grows.same (omega arith)))
                (fixed-IsClosed l groups (omega arith), λ a m. m, s))
        | inr more ↦
            let differ : length l ≢ length next = λ e. ne_of_test (length l) (length next) more e in
            let (closed, sub, set) =
              closure_loop_lem fuel next next_set (omega (arith, grows.longer, differ)) in
            rw more (closed, λ a m. sub a (grows.sub a m), set)
      ]

  -- The closure of a set of groups is closed, holds the set, and has only groups.
  pub closure_lem :
      (l : List String)
      → Distinct l
      → Sub l (group_ids groups)
      → IsClosed groups (closure groups l)
        × Sub l (closure groups l)
        × Distinct (closure groups l)
        × Sub (closure groups l) (group_ids groups)
  unfolding closure
  closure_lem l d k =
      let (closed, sub, set) =
        closure_loop_lem (suc (length groups)) l (record { distinct = d; all_known = k })
          (omega arith) in
      (closed, sub, set.distinct, set.all_known)
