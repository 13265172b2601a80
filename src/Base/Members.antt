-- ===== src/Base/Members.antt =====
-- What is in a list that was cut, reversed, filtered or ordered.
use Prim.Native.Nat.{ℕ, zero, suc}
use mathlib.Core.Path.{◌≡◌, refl, sym, ap, ◌∙◌}
use mathlib.Core.Logic.{◌⊎◌, ◌≢◌, inl, inr}
use mathlib.Core.Bool.{Bool, true}
use mathlib.Core.Option.{some}
use mathlib.Core.List.{List, [], ◌∷◌, reverse, reverse_aux}
use native.Mathlib.Omega.{arith}
use hookfly.Base.Tests.{Bool-cases}
use hookfly.Base.Lists.{In, any, find?, keep_if, drop}
use hookfly.Base.Order.{lex_le, insert_by, order_by, In-insert_by, In-order_by}
use hookfly.Base.Keys.{Distinct}

module _ {A : Type 0} where
  pub In-drop : (n : ℕ) (xs : List A) (y : A) → In y (drop n xs) → In y xs
  In-drop zero xs y h = h
  In-drop (suc n) [] y h = h
  In-drop (suc n) (x ∷ xs) y h = inr (In-drop n xs y h)

  In-reverse_aux : (xs ys : List A) (y : A) → In y (reverse_aux xs ys) → In y xs ⊎ In y ys
  In-reverse_aux [] ys y h = inr h
  In-reverse_aux (x ∷ xs) ys y h = elim (In-reverse_aux xs (x ∷ ys) y h) [
    | inl m ↦ inl (inr m)
    | inr m ↦ elim m [ inl e ↦ inl (inl e) | inr k ↦ inr k ]
  ]

  pub In-reverse : (xs : List A) (y : A) → In y (reverse xs) → In y xs
  In-reverse xs y h = elim (In-reverse_aux xs [] y h) [ inl m ↦ m | inr m ↦ absurd m ]

  pub In-any : (p : A → Bool) (xs : List A) → any p xs ≡ true → (x : A) × In x xs × (p x ≡ true)
  In-any p [] h = absurd (ground arith)
  In-any p (x ∷ xs) h = elim (Bool-cases (p x)) [
    | inl e ↦ (x, inl refl, e)
    | inr e ↦ let (z, m, t) = In-any p xs (rw e at h) in (z, inr m, t)
  ]

  pub find?-keep_if :
      (p q : A → Bool) (xs : List A) (x : A)
      → find? p xs ≡ some x
      → q x ≡ true
      → find? p (keep_if q xs) ≡ some x
  find?-keep_if p q [] x h k = h
  find?-keep_if p q (z ∷ zs) x h k = elim (Bool-cases (p z)) [
    | inl e ↦ rw (ap q (some_inj (rw e at h)) ∙ k, e) (rw e at h)
    | inr e ↦
        let rest = find?-keep_if p q zs x (rw e at h) k in
        elim (Bool-cases (q z)) [ inl f ↦ rw (f, e) rest | inr f ↦ rw f rest ]
  ]
    where
      some_inj : {x y : A} → some x ≡ some y → x ≡ y
      some_inj p = cc

module _ {A : Type 0} (key : A → ℕ) where
  Distinct-insert_by :
      (order : A → List ℕ) (x : A) (xs : List A)
      → ((y : A) → In y xs → key x ≢ key y)
      → Distinct key xs
      → Distinct key (insert_by order x xs)
  Distinct-insert_by order x [] n d = ((λ y m. absurd m), tt)
  Distinct-insert_by order x (z ∷ zs) n d = elim (Bool-cases (lex_le (order x) (order z))) [
    | inl e ↦ rw e (n, d)
    | inr e ↦ rw e (
      (λ y m. elim (In-insert_by order y x zs m) [
        | inl q ↦ λ p. n z (inl refl) (sym (p ∙ ap key q))
        | inr k ↦ d.0 y k
      ]),
      Distinct-insert_by order x zs (λ y m. n y (inr m)) d.1,
    )
  ]

  pub Distinct-order_by :
      (order : A → List ℕ) (xs : List A) → Distinct key xs → Distinct key (order_by order xs)
  unfolding order_by
  Distinct-order_by order [] d = tt
  Distinct-order_by order (x ∷ xs) d =
      Distinct-insert_by order x (order_by order xs) (λ y m. d.0 y (In-order_by order y xs m))
        (Distinct-order_by order xs d.1)
