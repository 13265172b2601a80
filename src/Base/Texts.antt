-- ===== src/Base/Texts.antt =====
-- Texts as lists of code points, and 64-bit integers by their offset from the least one.
use Prim.Native.Nat.{ℕ, ◌+◌}
use Prim.Native.Char.{code}
use Prim.Native.String.{String, [] as no_text, ◌∷◌ as add_char, ◌++◌ as add_text}
use mathlib.Core.Bool.{Bool, true, false, ◌&&◌, ◌||◌}
use mathlib.Core.List.{List, [], ◌∷◌}
use hookfly.Base.Tests.{◌==◌, leb, if◌then◌else◌}
use hookfly.Base.Lists.{any}

-- An `int`: `2 ^ 63` stands for 0, which keeps the order and the equality of the integers.
abbrev pub Int64 : Type 0
Int64 = ℕ

abbrev pub int : ℕ → Int64
int n = 9223372036854775808 + n

unfoldable pub codes : String → List ℕ
codes no_text = []
codes (add_char c s) = code c ∷ codes s

abbrev pub joined : String → String → String
joined s t = add_text s t

abbrev pub same_codes : List ℕ → List ℕ → Bool
same_codes [] [] = true
same_codes [] (d ∷ ds) = false
same_codes (c ∷ cs) [] = false
same_codes (c ∷ cs) (d ∷ ds) = c == d && same_codes cs ds

-- `strings.HasPrefix`.
abbrev pub has_prefix : List ℕ → List ℕ → Bool
has_prefix text [] = true
has_prefix [] (p ∷ ps) = false
has_prefix (c ∷ cs) (p ∷ ps) = c == p && has_prefix cs ps

-- `strings.Contains`.
abbrev pub contains_codes : List ℕ → List ℕ → Bool
contains_codes [] ps = has_prefix [] ps
contains_codes (c ∷ cs) ps = has_prefix (c ∷ cs) ps || contains_codes cs ps

-- `strings.Count` of a doubled character: the places where it stands, without overlaps. The flag
-- tells that the character before is the first half of such a place.
abbrev pub count_pairs : ℕ → Bool → List ℕ → ℕ
count_pairs d half [] = 0
count_pairs d half (c ∷ cs) =
    let met = count_pairs d false cs in
    let open_half = count_pairs d true cs in
    if c == d then (if half then 1 + met else open_half) else met

-- `strings.ContainsAny`.
abbrev pub contains_any : List ℕ → List ℕ → Bool
contains_any cs chars = any (λ c. any (λ d. c == d) chars) cs

abbrev pub in_range : ℕ → ℕ → ℕ → Bool
in_range low high c = leb low c && leb c high

abbrev pub is_alphanumeric : ℕ → Bool
is_alphanumeric c = in_range 48 57 c || (in_range 65 90 c || in_range 97 122 c)
