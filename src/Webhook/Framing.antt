-- ===== src/Webhook/Framing.antt =====
-- internal/publichook/handler.go: the framing of the components of a webhook's identity.
use Prim.Native.Nat.{◌/◌, ◌%◌, ◌^◌}
use hookfly.Base.{
  ℕ, zero, suc, ◌+◌, ◌*◌, ◌<◌, List, [], ◌∷◌, ◌++◌, ◌≡◌, refl, ap, subst, ◌∙◌, length, take, drop,
  arith,
}
use hookfly.Domain.{Bytes}

-- `binary.BigEndian`: the lowest `k` bytes of a number, the most significant first.
abbrev pub big_endian : ℕ → ℕ → Bytes
big_endian zero n = []
big_endian (suc k) n = big_endian k (n / 256) ++ (n % 256) ∷ []

-- `writeIdentityBytes`: `uint64(len(value))` in 8 bytes, and the value.
unfoldable pub write_identity_bytes : Bytes → Bytes
write_identity_bytes value = big_endian 8 (length value % 2 ^ 64) ++ value

unfoldable pub write_all : List Bytes → Bytes
write_all [] = []
write_all (v ∷ vs) = write_identity_bytes v ++ write_all vs

-- The number that bytes stand for, from a number for those before.
abbrev pub number_of : ℕ → Bytes → ℕ
number_of n [] = n
number_of n (b ∷ bs) = number_of (n * 256 + b) bs

-- A reader of what the writer wrote: the value, and what is left.
abbrev pub read_component : Bytes → Bytes × Bytes
read_component stream =
    let size = number_of 0 (take 8 stream) in (take size (drop 8 stream), drop size (drop 8 stream))

number_of-append :
    (n : ℕ) (bs : Bytes) (b : ℕ) → number_of n (bs ++ b ∷ []) ≡ number_of n bs * 256 + b
number_of-append n [] b = refl
number_of-append n (c ∷ cs) b = number_of-append (n * 256 + c) cs b

small : (n m : ℕ) → n < m * 256 → n / 256 < m
small n m h = omega arith

divided : (n : ℕ) → n / 256 * 256 + n % 256 ≡ n
divided n = omega arith

powers : (k : ℕ) → 256 ^ suc k ≡ 256 ^ k * 256
powers k = ground arith

number_of-big_endian : (k n : ℕ) → n < 256 ^ k → number_of 0 (big_endian k n) ≡ n
number_of-big_endian zero n h = omega arith
number_of-big_endian (suc k) n h =
    number_of-append 0 (big_endian k (n / 256)) (n % 256)
    ∙ ap (λ m. m * 256 + n % 256)
        (number_of-big_endian k (n / 256) (small n (256 ^ k) (subst (λ m. n < m) (powers k) h)))
    ∙ divided n

length-big_endian : (k n : ℕ) → length (big_endian k n) ≡ k
length-big_endian zero n = refl
length-big_endian (suc k) n =
    longer (big_endian k (n / 256)) ∙ ap suc (length-big_endian k (n / 256))
  where
    longer : (bs : Bytes) → length (bs ++ (n % 256) ∷ []) ≡ suc (length bs)
    longer [] = refl
    longer (b ∷ bs) = ap suc (longer bs)

take-append : (xs ys : Bytes) (k : ℕ) → length xs ≡ k → take k (xs ++ ys) ≡ xs
take-append [] ys zero h = refl
take-append [] ys (suc k) h = absurd (ground arith)
take-append (x ∷ xs) ys zero h = absurd (ground arith)
take-append (x ∷ xs) ys (suc k) h = ap (◌∷◌ x) (take-append xs ys k (ground arith))

drop-append : (xs ys : Bytes) (k : ℕ) → length xs ≡ k → drop k (xs ++ ys) ≡ ys
drop-append [] ys zero h = refl
drop-append [] ys (suc k) h = absurd (ground arith)
drop-append (x ∷ xs) ys zero h = absurd (ground arith)
drop-append (x ∷ xs) ys (suc k) h = drop-append xs ys k (ground arith)

framed :
    (head value rest : Bytes)
    → length head ≡ 8
    → number_of 0 head ≡ length value
    → read_component ((head ++ value) ++ rest) ≡ (value, rest)
framed head value rest e n =
    ap read_component (append_assoc head value rest)
    ∙ sized (take 8 (head ++ (value ++ rest))) (drop 8 (head ++ (value ++ rest)))
        (take-append head (value ++ rest) 8 e) (drop-append head (value ++ rest) 8 e)
  where
    sized :
        (front back : Bytes)
        → front ≡ head
        → back ≡ value ++ rest
        → ◌≡◌ {A = Bytes × Bytes}
            (take (number_of 0 front) back, drop (number_of 0 front) back)
            (value, rest)
    sized front back p q =
        rw (p, q, n)
          (pair (take-append value rest (length value) refl)
            (drop-append value rest (length value) refl))
      where
        pair : {a b c d : Bytes} → a ≡ b → c ≡ d → ◌≡◌ {A = Bytes × Bytes} (a, c) (b, d)
        pair r s i = (r i, s i)

    append_assoc : (xs ys zs : Bytes) → (xs ++ ys) ++ zs ≡ xs ++ (ys ++ zs)
    append_assoc [] ys zs = refl
    append_assoc (x ∷ xs) ys zs = ap (◌∷◌ x) (append_assoc xs ys zs)

-- A component that is shorter than 2 ^ 64 bytes is read back from the stream, and the rest of the stream
-- after it.
pub read_component-write_identity_bytes :
    (value rest : Bytes)
    → length value < 2 ^ 64
    → read_component (write_identity_bytes value ++ rest) ≡ (value, rest)
unfolding write_identity_bytes
read_component-write_identity_bytes value rest h =
    framed (big_endian 8 (length value % 2 ^ 64)) value rest
      (length-big_endian 8 (length value % 2 ^ 64))
      (number_of-big_endian 8 (length value % 2 ^ 64) (bounded (length value))
        ∙ in_word (length value) h)
  where
    in_word : (n : ℕ) → n < 2 ^ 64 → n % 2 ^ 64 ≡ n
    in_word n h = omega arith

    bounded : (n : ℕ) → n % 2 ^ 64 < 256 ^ 8
    bounded n = omega arith
