-- ===== src/Cache/Keys.antt =====
-- cache/key.go and cache/key_encoder.go: keys from parts, and encoders of keys.
pub mod Splitting
use Prim.Native.String
use gframework.Base.{ℕ, String, List, [], ◌∷◌, map, ℤ}
use gframework.Errors.{GoError, sentinel, wrap, Result, ok, err}

-- strings.Join
abbrev join_texts : String → List String → String
join_texts sep [] = ""
join_texts sep (p ∷ []) = p
join_texts sep (p ∷ (q ∷ ps)) = String.◌++◌ p (String.◌++◌ sep (join_texts sep (q ∷ ps)))

-- `sprint` is fmt.Sprint.
module _ {A : Type 0} (sprint : A → String) where
  join_parts : List A → String → String
  join_parts parts separator = join_texts separator (map sprint parts)

  unfoldable pub build_key : List A → String
  unfolding join_parts
  build_key [] = ""
  build_key (p ∷ ps) = join_parts (p ∷ ps) ":"

  -- `digest` is SHA-256, as hexadecimal digits.
  unfoldable pub build_hashed_key : (digest : String → String) → List A → String
  unfolding join_parts
  build_hashed_key digest parts = digest (join_parts parts "|")

-- A key of Go's type `any`; `U` is uuid.UUID.
pub data AnyKey (U : Type 0) : Type 0 where
  text : String → AnyKey U
  int : ℤ → AnyKey U
  uuid : U → AnyKey U
  other : AnyKey U

abbrev wrong_type : String → Result String
wrong_type expected = err (wrap expected (sentinel "ErrCacheInvalidKeyType"))

module _ {U : Type 0} where
  unfoldable pub encode_string : AnyKey U → Result String
  encode_string (text s) = ok s
  encode_string (int n) = wrong_type "expected string"
  encode_string (uuid u) = wrong_type "expected string"
  encode_string other = wrong_type "expected string"

  -- `itoa` is strconv.Itoa.
  unfoldable pub encode_int : (itoa : ℤ → String) → AnyKey U → Result String
  encode_int itoa (int n) = ok (itoa n)
  encode_int itoa (text s) = wrong_type "expected int"
  encode_int itoa (uuid u) = wrong_type "expected int"
  encode_int itoa other = wrong_type "expected int"

  -- `show` is the method `String` of uuid.UUID.
  unfoldable pub encode_uuid : (show : U → String) → AnyKey U → Result String
  encode_uuid show (uuid u) = ok (show u)
  encode_uuid show (text s) = wrong_type "expected uuid.UUID"
  encode_uuid show (int n) = wrong_type "expected uuid.UUID"
  encode_uuid show other = wrong_type "expected uuid.UUID"
