-- ===== src/Config/Checks.antt =====
-- internal/config/validate.go: the checks of one value. What Go's standard library decides (URLs,
-- addresses, media types, numbers, regular expressions, hashes) is a record of functions.
use hookfly.Base.{
  ℕ, Int64, String, Bool, true, false, not, ◌&&◌, ◌||◌, ◌==◌, leb, Option, List, [], ◌∷◌, ◌≡◌, refl,
  codes, is_alphanumeric, length, any, str_eq, In, inl, inr,
}

pub record Url : Type 0 where
  pub scheme : String
  pub host : String
  pub host_name : String
  pub has_user : Bool
  pub path : String
  pub raw_query : String
  pub fragment : String

pub record Address : Type 0 where
  pub is_loopback : Bool
  pub is_link_local_unicast : Bool
  pub is_private : Bool
  pub is_unspecified : Bool
  pub is_multicast : Bool

-- `none` is an error. The first argument of a regular expression's function is its pattern.
pub record Stdlib : Type 0 where
  pub parse_request_uri : String → Option Url
  pub parse_url : String → Option Url
  pub parse_addr : String → Option Address
  pub parse_ip : String → Bool
  pub parse_media_type : String → Bool
  pub parse_int : String → Option Int64
  pub equal_fold : String → String → Bool
  pub to_lower : String → String
  pub trim_space : String → String
  pub is_abs : String → Bool
  pub clean : String → String
  pub match_string : String → String → Bool
  pub find_all_groups : String → String → List String
  pub replace_all_string : String → String → String → String
  pub sha256 : String → List ℕ
  pub decimal : ℕ → String

-- The error that the code returns first, without its text.
pub data ConfigError : Type 0 where
  invalid_id : (kind id : String) → ConfigError
  duplicate_id : (kind id : String) → ConfigError
  credential_required : (provider id : String) → ConfigError
  duplicate_token : ConfigError
  external_id_not_positive : ConfigError
  not_a_harbor_path : ConfigError
  within : String → ConfigError → ConfigError
  api_key_required : String → ConfigError
  invalid_url : (kind : String) → ConfigError
  private_url : (kind : String) → ConfigError
  invalid_authentication : ConfigError
  unknown_connection : (target connection : String) → ConfigError
  incompatible_connection : (target connection : String) → ConfigError
  unsupported_fields : (kind : String) → ConfigError
  unsupported : (kind name : String) → ConfigError
  invalid_path : ConfigError
  invalid_header : String → ConfigError
  reserved_header : String → ConfigError
  invalid_query : String → ConfigError
  invalid_body : ConfigError
  invalid_template : ConfigError
  environment_reference : ConfigError
  invalid_success_status : Int64 → ConfigError
  connection_not_allowed : String → ConfigError
  priority_required : String → ConfigError
  unknown_source : (route source : String) → ConfigError
  unknown_repository : (route repository : String) → ConfigError
  invalid_action : String → ConfigError
  duplicate_target : (route target : String) → ConfigError
  unknown_target : (route target : String) → ConfigError
  overlapping_routes : (left right : String) → ConfigError
  tunnel_on_target : (kind : String) → ConfigError

pub data Checked (A : Type 0) : Type 0 where
  invalid : ConfigError → Checked A
  valid : A → Checked A

infixl 5 ◌>>=◌
abbrev pub ◌>>=◌ : {A B : Type 0} → Checked A → (A → Checked B) → Checked B
valid a >>= f = f a
invalid e >>= f = invalid e

infixl 5 ◌>>◌
abbrev pub ◌>>◌ : {A : Type 0} → Checked (Unit {0}) → Checked A → Checked A
valid a >> k = k
invalid e >> k = invalid e

-- `if !condition { return error }`.
abbrev pub require : Bool → ConfigError → Checked (Unit {0})
require true e = valid tt
require false e = invalid e

abbrev pub refuse : Bool → ConfigError → Checked (Unit {0})
refuse true e = invalid e
refuse false e = valid tt

-- A step of a loop whose error stops it.
abbrev pub check_all : {A : Type 0} → (A → Checked (Unit {0})) → List A → Checked (Unit {0})
check_all f [] = valid tt
check_all f (x ∷ xs) = f x >> check_all f xs

-- `^[A-Za-z0-9][A-Za-z0-9._-]{0,127}$`.
abbrev is_identifier_char : ℕ → Bool
is_identifier_char c = is_alphanumeric c || (c == 46 || (c == 95 || c == 45))

abbrev is_identifier_text : List ℕ → Bool
is_identifier_text [] = false
is_identifier_text (c ∷ cs) =
    is_alphanumeric c && (leb (length cs) 127 && not (any (λ d. not (is_identifier_char d)) cs))

unfoldable pub is_identifier : String → Bool
is_identifier id = is_identifier_text (codes id)

unfoldable pub validate_identifier : (kind id : String) → Checked (Unit {0})
validate_identifier kind id = require (is_identifier id) (invalid_id kind id)

abbrev pub is_known : String → List String → Bool
is_known id ids = any (str_eq id) ids

-- `addUniqueLocation`, on the keys of the map: the caller adds the new one.
unfoldable pub add_unique : (kind id : String) → List String → Checked (Unit {0})
add_unique kind id known = refuse (is_known id known) (duplicate_id kind id)

abbrev pub has_none : {A : Type 0} → List A → Bool
has_none [] = true
has_none (x ∷ xs) = false

pub >>=-eq-valid :
    {A B : Type 0} (step : Checked A) (next : A → Checked B) {end : B}
    → (step >>= next) ≡ valid end
    → (mid : A) × (step ≡ valid mid) × (next mid ≡ valid end)
>>=-eq-valid (valid mid) next h = (mid, refl, h)
>>=-eq-valid (invalid e) next h = cc

pub >>-eq-valid :
    {A : Type 0} (step : Checked (Unit {0})) (rest : Checked A) {end : A}
    → (step >> rest) ≡ valid end
    → (step ≡ valid tt) × (rest ≡ valid end)
>>-eq-valid (valid a) rest h = (refl, h)
>>-eq-valid (invalid e) rest h = cc

pub valid_inj : {A : Type 0} {a b : A} → valid a ≡ valid b → a ≡ b
valid_inj h = cc

pub require-eq-valid : (b : Bool) (e : ConfigError) → require b e ≡ valid tt → b ≡ true
require-eq-valid true e h = refl
require-eq-valid false e h = cc

pub refuse-eq-valid : (b : Bool) (e : ConfigError) → refuse b e ≡ valid tt → b ≡ false
refuse-eq-valid true e h = cc
refuse-eq-valid false e h = refl

pub check_all-In :
    {A : Type 0} (f : A → Checked (Unit {0})) (xs : List A)
    → check_all f xs ≡ valid tt
    → (x : A) → In x xs
    → f x ≡ valid tt
check_all-In f [] h x m = elim m [ ]
check_all-In f (y ∷ ys) h x m =
    let (first, others) = >>-eq-valid (f y) (check_all f ys) h in
    elim m [ inl e ↦ rw e first | inr k ↦ check_all-In f ys others x k ]
