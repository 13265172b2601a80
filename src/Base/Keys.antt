-- ===== src/Base/Keys.antt =====
-- Tables whose rows have distinct numeric keys: PRIMARY KEY columns.
use Prim.Native.Nat.{ℕ}
use mathlib.Core.Path.{◌≡◌, refl, sym, ◌∙◌, ap}
use mathlib.Core.Logic.{◌≢◌, inl, inr}
use mathlib.Core.Bool.{Bool, true, false}
use mathlib.Core.List.{List, [], ◌∷◌, ◌++◌, map}
use native.Mathlib.Omega.{arith}
use hookfly.Base.Tests.{Bool-cases, ◌==◌}
use hookfly.Base.Lists.{In, any, keep_if}
use hookfly.Base.Tables.{rows_affected}
use hookfly.Base.Joins.{In-map, In-append, In-keep_if}

module _ {A : Type 0} (key : A → ℕ) where
  abbrev pub Distinct : List A → Type 0
  Distinct [] = Unit
  Distinct (x ∷ xs) = ((y : A) → In y xs → key x ≢ key y) × Distinct xs

  -- A key names one row.
  pub Distinct-unique :
      (xs : List A) → Distinct xs → (x y : A) → In x xs → In y xs → key x ≡ key y → x ≡ y
  Distinct-unique [] d x y h k e = elim h [ ]
  Distinct-unique (z ∷ zs) d x y h k e = elim h [
    | inl p ↦ elim k [ inl q ↦ p ∙ sym q | inr m ↦ absurd (d.0 y m (ap key (sym p) ∙ e)) ]
    | inr m ↦ elim k [
      | inl q ↦ absurd (d.0 x m (ap key (sym q) ∙ sym e))
      | inr n ↦ Distinct-unique zs d.1 x y m n e
    ]
  ]

  pub Distinct-map :
      (u : A → A)
      → ((x : A) → key (u x) ≡ key x)
      → (xs : List A) → Distinct xs
      → Distinct (map u xs)
  Distinct-map u same [] d = tt
  Distinct-map u same (x ∷ xs) d = (
    λ y h. let (z, m, e) = In-map u xs y h in λ q. d.0 z m (sym (same x) ∙ q ∙ ap key e ∙ same z),
    Distinct-map u same xs d.1,
  )

  pub Distinct-keep_if : (p : A → Bool) (xs : List A) → Distinct xs → Distinct (keep_if p xs)
  Distinct-keep_if p [] d = tt
  Distinct-keep_if p (x ∷ xs) d = elim (Bool-cases (p x)) [
    | inl e ↦ rw e ((λ y m. d.0 y (In-keep_if p xs y m).0), Distinct-keep_if p xs d.1)
    | inr e ↦ rw e (Distinct-keep_if p xs d.1)
  ]

  -- The check of an INSERT: the key is taken.
  abbrev pub is_taken : ℕ → List A → Bool
  is_taken k xs = any (λ x. key x == k) xs

  pub not_taken-ne : (k : ℕ) (xs : List A) → is_taken k xs ≡ false → (y : A) → In y xs → key y ≢ k
  not_taken-ne k [] t y h = elim h [ ]
  not_taken-ne k (x ∷ xs) t y h = elim h [
    | inl e ↦ rw e (ground arith)
    | inr m ↦ not_taken-ne k xs (ground arith) y m
  ]

  pub Distinct-append_one :
      (xs : List A) (x : A) → Distinct xs → is_taken (key x) xs ≡ false → Distinct (xs ++ x ∷ [])
  Distinct-append_one [] x d t = ((λ y h. elim h [ ]), tt)
  Distinct-append_one (z ∷ zs) x d t = (
    λ y h. elim (In-append zs (x ∷ []) y h) [
      | inl m ↦ d.0 y m
      | inr m ↦ elim m [
        | inl e ↦ rw e (not_taken-ne (key x) (z ∷ zs) t z (inl refl))
        | inr n ↦ elim n [ ]
      ]
    ],
    Distinct-append_one zs x d.1 (ground arith),
  )

  rows_affected-none :
      (p : A → Bool) (xs : List A) → ((y : A) → In y xs → p y ≡ false) → rows_affected p xs ≡ 0
  unfolding rows_affected
  rows_affected-none p [] h = refl
  rows_affected-none p (x ∷ xs) h =
      rw (h x (inl refl)) (rows_affected-none p xs (λ y m. h y (inr m)))

  -- An update by a key that a row of the table has meets that row and no other.
  pub rows_affected-one :
      (p : A → Bool) (xs : List A) (x : A)
      → Distinct xs
      → In x xs
      → p x ≡ true
      → ((y : A) → p y ≡ true → key y ≡ key x)
      → rows_affected p xs ≡ 1
  unfolding rows_affected
  rows_affected-one p [] x d h t only = elim h [ ]
  rows_affected-one p (z ∷ zs) x d h t only = elim h [
    | inl e ↦
        let none_else = rows_affected-none p zs (λ y m. elim (Bool-cases (p y)) [
          | inl q ↦ absurd (d.0 y m (ap key (sym e) ∙ sym (only y q)))
          | inr q ↦ q
        ]) in
        rw (ap p (sym e) ∙ t, none_else)
    | inr m ↦ elim (Bool-cases (p z)) [
      | inl q ↦ absurd (d.0 x m (only z q))
      | inr q ↦ rw q (rows_affected-one p zs x d.1 m t only)
    ]
  ]
