-- ===== src/Redact/Bounds.antt =====
-- The output of the redaction never exceeds its limit.
use hookfly.Base.{
  ℕ, zero, suc, ◌+◌, ◌-◌, ◌≤◌, String, Bool, true, false, Option, [], ◌∷◌, ◌++◌, ◌≡◌, ap, arith,
  length, take, Bool-cases, Option-cases, inl, inr, leb, if◌then◌else◌, ◌==◌, str_eq,
}
use hookfly.Domain.{Bytes}
use hookfly.Redact.{
  Value, masked_value, text_marker, bounded_text, bounded_json_marker, redact_text, bound_json,
  json_with_secret,
}

length-append : (xs ys : Bytes) → length (xs ++ ys) ≡ length xs + length ys
length-append [] ys = omega arith
length-append (x ∷ xs) ys = omega (arith, length-append xs ys)

length-take-le : (n : ℕ) (xs : Bytes) → length (take n xs) ≤ n
length-take-le zero xs = omega arith
length-take-le (suc n) [] = omega arith
length-take-le (suc n) (x ∷ xs) = omega (arith, length-take-le n xs)

bounded_text-le : (input : Bytes) (limit : ℕ) → length (bounded_text input limit) ≤ limit
unfolding bounded_text
bounded_text-le input limit = elim (Bool-cases (leb limit (length text_marker))) [
  | inl e ↦ rw e (length-take-le limit text_marker)
  | inr e ↦ rw e (
      omega (
        arith,
        length-append (take (limit - 14) input) text_marker,
        length-take-le (limit - 14) input,
        above limit e,
      ))
]
  where
    above : (n : ℕ) → leb n 14 ≡ false → 15 ≤ n
    above n h = ground arith

bounded_json_marker-le : (limit : ℕ) → 1 ≤ limit → length (bounded_json_marker limit) ≤ limit
unfolding bounded_json_marker
bounded_json_marker-le limit h = ground arith

cut-le :
    (cleaned : Bytes) (limit : ℕ) (out : Bytes × Bool)
    → out ≡ (
        if leb (length cleaned) limit then (cleaned, false) else (bounded_text cleaned limit, true))
    → length out.0 ≤ limit
cut-le cleaned limit out e = elim (Bool-cases (leb (length cleaned) limit)) [
  | inl t ↦ ground (arith, rw t at e)
  | inr f ↦ rw (ap (λ (o : Bytes × Bool). o.0) (rw f at e)) (bounded_text-le cleaned limit)
]

module _ (normalized_key : String → String) (contains : String → String → Bool)
    (replace_all : String → String → String) (replace_bytes : Bytes → String → Bytes)
    (decode : Bytes → Option Value) (encode : Value → Option Bytes) where
  redact_text-le :
      (input : Bytes) (secret : String) (limit : ℕ)
      → length (redact_text replace_bytes input secret limit).0 ≤ limit
  unfolding redact_text
  redact_text-le input secret limit = elim (Bool-cases (str_eq secret "")) [
    | inl e ↦
        cut-le input limit (redact_text replace_bytes input secret limit) (rw (e, redact_text))
    | inr e ↦
        cut-le (replace_bytes input secret) limit (redact_text replace_bytes input secret limit)
          (rw (e, redact_text))
  ]

  bound_json-le :
      (input masked : Bytes) (limit : ℕ)
      → 1 ≤ limit
      → length (bound_json input masked limit).0 ≤ limit
  bound_json-le input masked limit h = elim (Bool-cases (leb (length masked) limit)) [
    | inl e ↦ rw e (ground arith)
    | inr e ↦ rw e (bounded_json_marker-le limit h)
  ]

  -- The redacted output has at most `limit` bytes, whatever the input, the secret and the limit are,
  -- and however decoding and encoding behave.
  pub json_with_secret_bounded :
      (input : Bytes) (secret : String) (limit : ℕ)
      → length
          (json_with_secret normalized_key contains replace_all replace_bytes decode encode input
            secret limit).0
        ≤ limit
  unfolding json_with_secret
  json_with_secret_bounded input secret limit = elim (Bool-cases (limit == 0)) [
    | inl e ↦ rw (e, json_with_secret) (omega arith)
    | inr e ↦ elim (Option-cases (decode input)) [
      | inl n ↦ rw (e, n, json_with_secret) (redact_text-le input secret limit)
      | inr (v, d) ↦
          elim (Option-cases (encode (masked_value normalized_key contains replace_all v secret))) [
            | inl n ↦ rw (e, d, n, json_with_secret) (redact_text-le input secret limit)
            | inr (m, q) ↦
                rw (e, d, q, json_with_secret) (bound_json-le input m limit (positive limit e))
          ]
    ]
  ]
    where
      positive : (n : ℕ) → (n == 0) ≡ false → 1 ≤ n
      positive n h = ground arith
