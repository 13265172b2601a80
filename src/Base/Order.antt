-- ===== src/Base/Order.antt =====
-- `ORDER BY` as insertion sort, by lists of numbers that are compared lexicographically.
use Prim.Native.Nat.{ℕ}
use mathlib.Core.Path.{◌≡◌, refl}
use mathlib.Core.Logic.{◌⊎◌, inl, inr}
use mathlib.Core.Bool.{Bool, true, false}
use mathlib.Core.List.{List, [], ◌∷◌}
use native.Mathlib.Omega.{arith}
use hookfly.Base.Tests.{ltb, ◌==◌, if◌then◌else◌, Bool-cases}
use hookfly.Base.Lists.{In}

-- The first key does not come after the second one.
unfoldable pub lex_le : List ℕ → List ℕ → Bool
lex_le [] ys = true
lex_le (x ∷ xs) [] = false
lex_le (x ∷ xs) (y ∷ ys) =
    let rest = lex_le xs ys in if ltb x y then true else if x == y then rest else false

pub lex_le_refl : (xs : List ℕ) → lex_le xs xs ≡ true
unfolding lex_le
lex_le_refl [] = refl
lex_le_refl (x ∷ xs) = ground (arith, lex_le_refl xs)

pub lex_le_total : (xs ys : List ℕ) → lex_le xs ys ≡ false → lex_le ys xs ≡ true
unfolding lex_le
lex_le_total [] ys h = ground arith
lex_le_total (x ∷ xs) [] h = refl
lex_le_total (x ∷ xs) (y ∷ ys) h = ground (arith, lex_le_total xs ys)

pub lex_le_trans :
    (xs ys zs : List ℕ) → lex_le xs ys ≡ true → lex_le ys zs ≡ true → lex_le xs zs ≡ true
unfolding lex_le
lex_le_trans [] ys zs h k = refl
lex_le_trans (x ∷ xs) [] zs h k = ground arith
lex_le_trans (x ∷ xs) (y ∷ ys) [] h k = ground arith
lex_le_trans (x ∷ xs) (y ∷ ys) (z ∷ zs) h k = ground (arith, lex_le_trans xs ys zs)

module _ {A : Type 0} (key : A → List ℕ) where
  abbrev pub insert_by : A → List A → List A
  insert_by x [] = x ∷ []
  insert_by x (y ∷ ys) = if lex_le (key x) (key y) then x ∷ y ∷ ys else y ∷ insert_by x ys

  unfoldable pub order_by : List A → List A
  order_by [] = []
  order_by (x ∷ xs) = insert_by x (order_by xs)

  pub In-insert_by : (y x : A) (xs : List A) → In y (insert_by x xs) → (y ≡ x) ⊎ In y xs
  In-insert_by y x [] h = h
  In-insert_by y x (z ∷ zs) h = elim (Bool-cases (lex_le (key x) (key z))) [
    | inl e ↦ rw e at h
    | inr e ↦ elim (rw e at h) [
      | inl m ↦ inr (inl m)
      | inr m ↦ elim (In-insert_by y x zs m) [ inl q ↦ inl q | inr q ↦ inr (inr q) ]
    ]
  ]

  -- Ordering makes no row up.
  pub In-order_by : (y : A) (xs : List A) → In y (order_by xs) → In y xs
  unfolding order_by
  In-order_by y [] h = h
  In-order_by y (x ∷ xs) h = elim (In-insert_by y x (order_by xs) h) [
    | inl e ↦ inl e
    | inr m ↦ inr (In-order_by y xs m)
  ]

  In-insert_by_conv : (y x : A) (xs : List A) → (y ≡ x) ⊎ In y xs → In y (insert_by x xs)
  In-insert_by_conv y x [] h = h
  In-insert_by_conv y x (z ∷ zs) h = elim (Bool-cases (lex_le (key x) (key z))) [
    | inl e ↦ rw e h
    | inr e ↦ rw e (elim h [
      | inl q ↦ inr (In-insert_by_conv y x zs (inl q))
      | inr q ↦ elim q [ inl r ↦ inl r | inr r ↦ inr (In-insert_by_conv y x zs (inr r)) ]
    ])
  ]

  -- Nor does it lose one.
  pub In-order_by_conv : (y : A) (xs : List A) → In y xs → In y (order_by xs)
  unfolding order_by
  In-order_by_conv y [] h = h
  In-order_by_conv y (x ∷ xs) h =
      In-insert_by_conv y x (order_by xs)
        (elim h [ inl e ↦ inl e | inr m ↦ inr (In-order_by_conv y xs m) ])

  -- Each row comes no later than those behind it.
  abbrev pub IsOrdered : List A → Type 0
  IsOrdered [] = Unit
  IsOrdered (x ∷ xs) = ((y : A) → In y xs → lex_le (key x) (key y) ≡ true) × IsOrdered xs

  insert_by-IsOrdered : (x : A) (xs : List A) → IsOrdered xs → IsOrdered (insert_by x xs)
  insert_by-IsOrdered x [] o = ((λ y h. elim h [ ]), tt)
  insert_by-IsOrdered x (z ∷ zs) o = elim (Bool-cases (lex_le (key x) (key z))) [
    | inl e ↦ rw e (
      (λ y h. elim h [ inl q ↦ rw q e | inr q ↦ lex_le_trans (key x) (key z) (key y) e (o.0 y q) ]),
      o,
    )
    | inr e ↦ rw e (
      (λ y h. elim (In-insert_by y x zs h) [
        | inl q ↦ rw q (lex_le_total (key x) (key z) e)
        | inr q ↦ o.0 y q
      ]),
      insert_by-IsOrdered x zs o.1,
    )
  ]

  pub order_by-IsOrdered : (xs : List A) → IsOrdered (order_by xs)
  unfolding order_by
  order_by-IsOrdered [] = tt
  order_by-IsOrdered (x ∷ xs) = insert_by-IsOrdered x (order_by xs) (order_by-IsOrdered xs)

  -- The first row of the order comes before every row.
  pub order_by-least :
      (xs : List A) {m : A} {rest : List A}
      → order_by xs ≡ m ∷ rest
      → (y : A) → In y xs
      → lex_le (key m) (key y) ≡ true
  order_by-least xs {m} {rest} e y h = elim (rw e at (In-order_by_conv y xs h)) [
    | inl q ↦ rw q (lex_le_refl (key m))
    | inr q ↦ (rw e at (order_by-IsOrdered xs)).0 y q
  ]

  -- The order of no rows is empty, that of others begins with one of them.
  pub order_by-cases :
      (xs : List A)
      → ((xs ≡ []) × (order_by xs ≡ []))
        ⊎ ((m : A) × (rest : List A) × (order_by xs ≡ m ∷ rest) × In m xs)
  order_by-cases [] = inl (refl, unfold order_by in refl)
  order_by-cases (x ∷ xs) = go (order_by (x ∷ xs)) refl
    where
      go :
          (l : List A)
          → order_by (x ∷ xs) ≡ l
          → ((x ∷ xs ≡ []) × (order_by (x ∷ xs) ≡ []))
            ⊎ ((m : A) × (rest : List A) × (order_by (x ∷ xs) ≡ m ∷ rest) × In m (x ∷ xs))
      go [] e = elim (rw e at (In-order_by_conv x (x ∷ xs) (inl refl))) [ ]
      go (m ∷ rest) e = inr (m, rest, e, In-order_by m (x ∷ xs) (rw e (inl refl)))
