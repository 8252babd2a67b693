-- ===== src/Db/Sessions/Prefixes.antt =====
-- Which settings the deletion of a thread (crates/hub-db/src/lib.rs) selects by the prefix of their key.
use Prim.Native.Char.{code}
use text.Mathlib.TextLemmas.{cons-append}
use localoud_ai.Base.{
  ◌≡◌, inl, inr, String, Bool, true, false, not, ◌&&◌, ◌||◌, ◌==◌, string_eq, ==_sound, nat_beq,
  Bool-cases, any, all, all_at, any_at, arith, refl, subst, sym,
}
use localoud_ai.Base.Text.{concat}
use localoud_ai.Db.Sessions.{receipt, belongs, prefixes, like_head, lower_ascii}

-- Two texts that differ, also as patterns, before either ends.
clash : String → String → Bool
clash String.[] k = false
clash (String.◌∷◌ c p) String.[] = false
clash (String.◌∷◌ c p) (String.◌∷◌ d k) =
    not (nat_beq (code c) b'_') && not (nat_beq (lower_ascii (code c)) (lower_ascii (code d)))
    || clash p k

like_head-clash :
    (p k x y : String) → clash p k ≡ true → like_head (concat p x) (concat k y) ≡ false
unfolding clash like_head
like_head-clash String.[] k x y h = cc
like_head-clash (String.◌∷◌ c p) String.[] x y h = cc
like_head-clash (String.◌∷◌ c p) (String.◌∷◌ d k) x y h =
    rw (cons-append c p x, cons-append d k y) (ground (arith, like_head-clash p k x y))

like_head_refl : (s : String) → like_head s s ≡ true
unfolding like_head
like_head_refl String.[] = refl
like_head_refl (String.◌∷◌ c s) = ground (arith, like_head_refl s)

eq-clash : (p k x y : String) → clash p k ≡ true → (concat k y == concat p x) ≡ false
eq-clash p k x y h = elim (Bool-cases (concat k y == concat p x)) [
  | inr other ↦ other
  | inl same ↦
      let e = ==_sound (concat k y) (concat p x) same in
      let bad : like_head (concat p x) (concat k y) ≡ true =
        subst (λ t. like_head (concat p x) t ≡ true) (sym e) (like_head_refl (concat p x)) in
      cc (like_head-clash p k x y h)
]

belongs-receipt :
    (shown m p : String) → clash p "manifest_receipt:" ≡ true → belongs shown (receipt m) p ≡ false
belongs-receipt shown m p h =
    rw
      (
        eq-clash p "manifest_receipt:" shown m h,
        like_head-clash p "manifest_receipt:" (concat shown ":") m h,
      )
      refl

prefixes-clash : all (λ p. clash p "manifest_receipt:") prefixes ≡ true
unfolding clash
prefixes-clash = refl

-- The deletion of a thread leaves every receipt.
pub receipt_stays : (shown m : String) → any (belongs shown (receipt m)) prefixes ≡ false
receipt_stays shown m = elim (Bool-cases (any (belongs shown (receipt m)) prefixes)) [
  | inr h ↦ h
  | inl h ↦
      let (p, mem, b) = any_at (belongs shown (receipt m)) prefixes h in
      let q =
        belongs-receipt shown m p
          (all_at (λ p. clash p "manifest_receipt:") p prefixes prefixes-clash mem) in
      cc
]
