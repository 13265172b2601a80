-- ===== src/Base/Tables.antt =====
-- A table is a list of rows. `UPDATE … WHERE` maps the rows, and reports how many it met.
use Prim.Native.Nat.{ℕ, suc}
use mathlib.Core.Path.{◌≡◌, refl, sym, ap, ◌∙◌}
use mathlib.Core.Logic.{inl, inr}
use mathlib.Core.Bool.{Bool, true}
use mathlib.Core.Option
use mathlib.Core.Option.{Option, none, some}
use mathlib.Core.List.{List, [], ◌∷◌, map}
use native.Mathlib.Omega.{arith}
use hookfly.Base.Tests.{if◌then◌else◌, Bool-cases}
use hookfly.Base.Lists.{In, find?}

module _ {A : Type 0} where
  -- The change of an update, at one row.
  abbrev pub on : (A → Bool) → (A → A) → A → A
  on p f x = if p x then f x else x

  abbrev pub update_where : (A → Bool) → (A → A) → List A → List A
  update_where p f xs = map (on p f) xs

  unfoldable pub rows_affected : (A → Bool) → List A → ℕ
  rows_affected p [] = 0
  rows_affected p (x ∷ xs) = let rest = rows_affected p xs in if p x then suc rest else rest

  -- A lookup by a key that a change leaves alone finds the changed row.
  pub find?-map :
      (q q' : A → Bool) (u : A → A)
      → ((x : A) → q' (u x) ≡ q x)
      → (xs : List A) → find? q' (map u xs) ≡ Option.map u (find? q xs)
  find?-map q q' u same [] = refl
  find?-map q q' u same (x ∷ xs) =
      rw (same x)
        (elim (Bool-cases (q x)) [ inl e ↦ rw e | inr e ↦ rw e (find?-map q q' u same xs) ])

  pub find?-true : (q : A → Bool) (xs : List A) {x : A} → find? q xs ≡ some x → q x ≡ true
  find?-true q [] h = ground arith
  find?-true q (y ∷ ys) {x} h = ground (arith, find?-true q ys {x = x})

  pub In-find? : (q : A → Bool) (xs : List A) {x : A} → find? q xs ≡ some x → In x xs
  In-find? q [] h = ground arith
  In-find? q (y ∷ ys) {x} h = ground (arith, In-find? q ys {x = x})

  pub find?-In :
      (q : A → Bool) (xs : List A) (x : A) → In x xs → q x ≡ true → (y : A) × (find? q xs ≡ some y)
  find?-In q [] x h t = elim h [ ]
  find?-In q (z ∷ zs) x h t = elim (Bool-cases (q z)) [
    | inl e ↦ (z, rw e)
    | inr e ↦ elim h [
      | inl p ↦ (z, rw (ap q (sym p) ∙ t))
      | inr m ↦ let (y, f) = find?-In q zs x m t in (y, rw e f)
    ]
  ]
