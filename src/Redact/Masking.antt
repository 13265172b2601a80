-- ===== src/Redact/Masking.antt =====
-- internal/redact/json.go: what `mask` hides, at every depth of a document.
use hookfly.Base.{
  String, Bool, true, List, [], ◌∷◌, ◌++◌, ◌≡◌, sym, Bool-cases, inl, inr, ◌⊎◌, if◌then◌else◌,
}
use hookfly.Redact.{
  Value, null, bool, number, text, array, object, Items, nil, cons, Fields, end, field, redacted,
  is_masked, mask, mask_items, mask_fields,
}

module _ (normalized_key : String → String) where
  -- A document that stands at path `p` has, at path `q` and key `k`, the value `x`.
  unfoldable mutual
    pub Has : Value → List String → List String → String → Value → Type 0
    Has null p q k x = ⊥
    Has (bool b) p q k x = ⊥
    Has (number n) p q k x = ⊥
    Has (text s) p q k x = ⊥
    Has (array xs) p q k x = HasItems xs p q k x
    Has (object fs) p q k x = HasFields fs p q k x

    pub HasItems : Items → List String → List String → String → Value → Type 0
    HasItems nil p q k x = ⊥
    HasItems (cons v xs) p q k x = Has v p q k x ⊎ HasItems xs p q k x

    pub HasFields : Fields → List String → List String → String → Value → Type 0
    HasFields end p q k x = ⊥
    HasFields (field l v fs) p q k x =
        ((p ≡ q) × (l ≡ k) × (v ≡ x))
        ⊎ (Has v (p ++ normalized_key l ∷ []) q k x ⊎ HasFields fs p q k x)

module _ (normalized_key : String → String) (contains : String → String → Bool) (q : List String)
    (k : String) (x : Value) (h : is_masked normalized_key contains q k ≡ true) where
  abbrev masked : List String → String → Bool
  masked = is_masked normalized_key contains

  this_field : (b : Bool) (v : Value) → b ≡ true → (if b then redacted else v) ≡ x → x ≡ redacted
  this_field b v e f = rw e at (sym f)

  below :
      (l : String) (v : Value) (p : List String)
      → (Has normalized_key
            (mask normalized_key contains v (p ++ normalized_key l ∷ []))
            (p ++ normalized_key l ∷ [])
            q
            k
            x
          → x ≡ redacted)
      → Has normalized_key
          (if masked p l
            then redacted
            else mask normalized_key contains v (p ++ normalized_key l ∷ []))
          (p ++ normalized_key l ∷ [])
          q
          k
          x
      → x ≡ redacted
  unfolding mask Has
  below l v p f m = elim (Bool-cases (masked p l)) [
    | inl e ↦ absurd (rw e at m)
    | inr e ↦ f (rw e at m)
  ]

  mutual
    unfolding mask mask_items mask_fields Has HasItems HasFields

    hidden :
        (v : Value) (p : List String)
        → Has normalized_key (mask normalized_key contains v p) p q k x
        → x ≡ redacted
    hidden null p m = absurd m
    hidden (bool b) p m = absurd m
    hidden (number n) p m = absurd m
    hidden (text s) p m = absurd m
    hidden (array xs) p m = hidden_items xs p m
    hidden (object fs) p m = hidden_fields fs p m

    hidden_items :
        (xs : Items) (p : List String)
        → HasItems normalized_key (mask_items normalized_key contains xs p) p q k x
        → x ≡ redacted
    hidden_items nil p m = absurd m
    hidden_items (cons v xs) p (inl m) = hidden v p m
    hidden_items (cons v xs) p (inr m) = hidden_items xs p m

    hidden_fields :
        (fs : Fields) (p : List String)
        → HasFields normalized_key (mask_fields normalized_key contains fs p) p q k x
        → x ≡ redacted
    hidden_fields end p m = absurd m
    hidden_fields (field l v fs) p (inl (ep, el, ev)) =
        this_field (masked p l) (mask normalized_key contains v (p ++ normalized_key l ∷ []))
          (rw (ep, el) h) ev
    hidden_fields (field l v fs) p (inr (inl m)) =
        below l v p (hidden v (p ++ normalized_key l ∷ [])) m
    hidden_fields (field l v fs) p (inr (inr m)) = hidden_fields fs p m

-- After masking, every field with a sensitive key holds the redaction mark, at any depth of objects and
-- arrays, and so does the key "value" below the path of GitLab's variables.
pub mask-hides :
    (normalized_key : String → String) (contains : String → String → Bool) (v : Value)
    (q : List String) (k : String) (x : Value)
    → is_masked normalized_key contains q k ≡ true
    → Has normalized_key (mask normalized_key contains v []) [] q k x
    → x ≡ redacted
mask-hides normalized_key contains v q k x h m = hidden normalized_key contains q k x h v [] m
