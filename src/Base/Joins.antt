-- ===== src/Base/Joins.antt =====
-- Inner joins: each row of a table with what a lookup finds for it.
use mathlib.Core.Path.{◌≡◌, refl, sym, ap, ◌∙◌}
use mathlib.Core.Logic.{◌⊎◌, inl, inr}
use mathlib.Core.Bool.{Bool, true, false, ◌||◌}
use mathlib.Core.Option
use mathlib.Core.Option.{Option, none, some}
use mathlib.Core.List.{List, [], ◌∷◌, ◌++◌, map}
use hookfly.Base.Tests.{Bool-cases, Option-cases}
use hookfly.Base.Lists.{In, keep_if, any, find?}

module _ {B : Type 0} where
  unfoldable pub cons_if : Option B → List B → List B
  cons_if none ys = ys
  cons_if (some y) ys = y ∷ ys

module _ {A B : Type 0} where
  unfoldable pub join : (A → Option B) → List A → List B
  unfolding cons_if
  join f [] = []
  join f (x ∷ xs) = cons_if (f x) (join f xs)

  pub In-join :
      (f : A → Option B) (xs : List A) (y : B)
      → In y (join f xs)
      → (x : A) × In x xs × (f x ≡ some y)
  unfolding join
  In-join f [] y h = elim h [ ]
  In-join f (x ∷ xs) y h = elim (Option-cases (f x)) [
    | inl e ↦ let (z, k, q) = In-join f xs y (rw (e, cons_if) at h) in (z, inr k, q)
    | inr (b, e) ↦ elim (rw (e, cons_if) at h) [
      | inl q ↦ (x, inl refl, rw q e)
      | inr m ↦ let (z, k, q) = In-join f xs y m in (z, inr k, q)
    ]
  ]

  pub In-join_conv :
      (f : A → Option B) (xs : List A) (x : A) (y : B) → In x xs → f x ≡ some y → In y (join f xs)
  unfolding join
  In-join_conv f [] x y h e = elim h [ ]
  In-join_conv f (z ∷ zs) x y h e = elim h [
    | inl q ↦ rw (ap f (sym q) ∙ e, cons_if) (inl refl)
    | inr m ↦
        let rest = In-join_conv f zs x y m e in
        elim (Option-cases (f z)) [
          | inl n ↦ rw (n, cons_if) rest
          | inr (b, n) ↦ rw (n, cons_if) (inr rest)
        ]
  ]

  pub In-map : (f : A → B) (xs : List A) (y : B) → In y (map f xs) → (x : A) × In x xs × (y ≡ f x)
  In-map f [] y h = elim h [ ]
  In-map f (x ∷ xs) y h = elim h [
    | inl e ↦ (x, inl refl, e)
    | inr m ↦ let (z, k, q) = In-map f xs y m in (z, inr k, q)
  ]

  pub In-map_conv : (f : A → B) (xs : List A) (x : A) → In x xs → In (f x) (map f xs)
  In-map_conv f [] x h = elim h [ ]
  In-map_conv f (z ∷ zs) x h = elim h [ inl e ↦ inl (ap f e) | inr m ↦ inr (In-map_conv f zs x m) ]

  -- A join over changed rows, where the lookups change alike.
  pub join-map-In :
      (f g : A → Option B) (u : A → A) (v : B → B) (xs : List A)
      → ((x : A) → In x xs → g (u x) ≡ Option.map v (f x))
      → join g (map u xs) ≡ map v (join f xs)
  unfolding join
  join-map-In f g u v [] same = refl
  join-map-In f g u v (x ∷ xs) same =
      let rest = join-map-In f g u v xs (λ y h. same y (inr h)) in
      rw (same x (inl refl)) (elim (Option-cases (f x)) [
        | inl e ↦ rw (e, cons_if) rest
        | inr (b, e) ↦ rw (e, cons_if) (ap (◌∷◌ (v b)) rest)
      ])

  pub join-map :
      (f g : A → Option B) (u : A → A) (v : B → B)
      → ((x : A) → g (u x) ≡ Option.map v (f x))
      → (xs : List A) → join g (map u xs) ≡ map v (join f xs)
  join-map f g u v same xs = join-map-In f g u v xs (λ x h. same x)

  pub join-append : (f : A → Option B) (xs ys : List A) → join f (xs ++ ys) ≡ join f xs ++ join f ys
  unfolding join
  join-append f [] ys = refl
  join-append f (x ∷ xs) ys = elim (Option-cases (f x)) [
    | inl e ↦ rw (e, cons_if) (join-append f xs ys)
    | inr (b, e) ↦ rw (e, cons_if) (ap (◌∷◌ b) (join-append f xs ys))
  ]

  pub join-cong :
      (f g : A → Option B) (xs : List A) → ((x : A) → In x xs → f x ≡ g x) → join f xs ≡ join g xs
  unfolding join
  join-cong f g [] same = refl
  join-cong f g (x ∷ xs) same =
      rw (same x (inl refl)) (ap (cons_if (g x)) (join-cong f g xs (λ y h. same y (inr h))))

module _ {A : Type 0} where
  pub In-append : (xs ys : List A) (y : A) → In y (xs ++ ys) → In y xs ⊎ In y ys
  In-append [] ys y h = inr h
  In-append (x ∷ xs) ys y h = elim h [
    | inl e ↦ inl (inl e)
    | inr m ↦ elim (In-append xs ys y m) [ inl k ↦ inl (inr k) | inr k ↦ inr k ]
  ]

  pub In-keep_if :
      (p : A → Bool) (xs : List A) (y : A) → In y (keep_if p xs) → In y xs × (p y ≡ true)
  In-keep_if p [] y h = elim h [ ]
  In-keep_if p (x ∷ xs) y h = elim (Bool-cases (p x)) [
    | inl e ↦ elim (rw e at h) [
      | inl q ↦ (inl q, rw q e)
      | inr m ↦ let (k, t) = In-keep_if p xs y m in (inr k, t)
    ]
    | inr e ↦ let (k, t) = In-keep_if p xs y (rw e at h) in (inr k, t)
  ]

  pub In-keep_if_conv :
      (p : A → Bool) (xs : List A) (y : A) → In y xs → p y ≡ true → In y (keep_if p xs)
  In-keep_if_conv p [] y h t = elim h [ ]
  In-keep_if_conv p (x ∷ xs) y h t = elim h [
    | inl e ↦ rw (ap p (sym e) ∙ t) (inl e)
    | inr m ↦
        let rest = In-keep_if_conv p xs y m t in
        elim (Bool-cases (p x)) [ inl e ↦ rw e (inr rest) | inr e ↦ rw e rest ]
  ]

module _ {A B : Type 0} where
  pub map-cong : (f g : A → B) (xs : List A) → ((x : A) → In x xs → f x ≡ g x) → map f xs ≡ map g xs
  map-cong f g [] same = refl
  map-cong f g (x ∷ xs) same =
      rw (same x (inl refl)) (ap (◌∷◌ (g x)) (map-cong f g xs (λ y h. same y (inr h))))

module _ {A : Type 0} where
  pub map-same : (f : A → A) (xs : List A) → ((x : A) → In x xs → f x ≡ x) → map f xs ≡ xs
  map-same f [] same = refl
  map-same f (x ∷ xs) same =
      rw (same x (inl refl)) (ap (◌∷◌ x) (map-same f xs (λ y h. same y (inr h))))

module _ {A : Type 0} (p : A → Bool) where
  pub any-In : (xs : List A) (x : A) → In x xs → p x ≡ true → any p xs ≡ true
  any-In [] x h t = elim h [ ]
  any-In (z ∷ zs) x h t = elim h [
    | inl e ↦ rw (ap p (sym e) ∙ t)
    | inr m ↦ or_true (p z) (any p zs) (any-In zs x m t)
  ]
    where
      or_true : (a b : Bool) → b ≡ true → (a || b) ≡ true
      or_true true b h = refl
      or_true false b h = h

  pub not_any-In : (xs : List A) → any p xs ≡ false → (x : A) → In x xs → p x ≡ false
  not_any-In xs h x m = elim (Bool-cases (p x)) [
    | inl t ↦ absurd (clash _ (any-In xs x m t) h)
    | inr f ↦ f
  ]
    where
      clash : (b : Bool) → b ≡ true → b ≡ false → ⊥
      clash b p q = cc

module _ {A : Type 0} where
  pub find?-append_miss :
      (q : A → Bool) (xs : List A) (y : A) → q y ≡ false → find? q (xs ++ y ∷ []) ≡ find? q xs
  find?-append_miss q [] y h = rw h
  find?-append_miss q (x ∷ xs) y h = elim (Bool-cases (q x)) [
    | inl e ↦ rw e
    | inr e ↦ rw e (find?-append_miss q xs y h)
  ]

  pub find?-append_new :
      (q : A → Bool) (xs : List A) (y : A)
      → ((x : A) → In x xs → q x ≡ false)
      → q y ≡ true
      → find? q (xs ++ y ∷ []) ≡ some y
  find?-append_new q [] y none_fit h = rw h
  find?-append_new q (x ∷ xs) y none_fit h =
      rw (none_fit x (inl refl)) (find?-append_new q xs y (λ z m. none_fit z (inr m)) h)
