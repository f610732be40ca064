-- ===== src/Spaces.antt =====
-- spaces/spaces.go: objects of a bucket under a prefix.
pub mod Ranges
mod Tests
use Prim.Native.String.{◌++◌ as append}
use gframework.Base.{
  ℕ, ◌-◌, String, Bool, true, false, Option, none, some, List, [], ◌∷◌, ℤ, pos, negsuc, length,
  take, leb, ltb, ◌==◌, if◌then◌else◌,
}
use gframework.Errors.{GoError, sentinel, wrap, is, Result, ok, err}

pub record Client : Type 0 where
  pub bucket : String
  pub prefix : String

pub record HeadResult : Type 0 where
  pub content_length : ℤ
  pub content_type : String

-- The bytes of a body that arrive, and the error with which reading then ends, if any.
pub record Body : Type 0 where
  pub bytes : List ℕ
  pub failure : Option GoError

-- The SDK of S3 on a state `W`, for a bucket and a full key. `get_object` is given the Range header;
-- `range_of` is fmt.Sprintf("bytes=0-%d").
pub record S3 (W : Type 0) : Type 0 where
  pub presign_put : String → String → String → ℤ → ℤ → W → Result String × W
  pub presign_get : String → String → ℤ → W → Result String × W
  pub head_object : String → String → W → Result (Option ℤ × Option String) × W
  pub get_object : String → String → String → W → Result Body × W
  pub delete_object : String → String → W → Option GoError × W
  pub range_of : ℕ → String

pub full_key : Client → String → String
full_key c logical_key = append c.prefix logical_key

-- io.CopyN into a buffer: a body that ends before `n` bytes is io.EOF, which is no error here.
pub copy_n : ℕ → Body → Result (List ℕ)
copy_n n body = if leb n (length body.bytes) then ok (take n body.bytes) else elim body.failure [
  | none ↦ ok body.bytes
  | some e ↦ if is e "io.EOF" then ok body.bytes else err (wrap "read range body" e)
]

module _ {W : Type 0} (s3 : S3 W) (c : Client) where
  wrapped : {A : Type 0} → String → Result A × W → Result A × W
  wrapped text (ok a, w) = (ok a, w)
  wrapped text (err e, w) = (err (wrap text e), w)

  pub presign_put : String → String → ℤ → ℤ → W → Result String × W
  presign_put logical_key content_type content_length ttl w =
      wrapped "presign put"
        (s3.presign_put c.bucket (full_key c logical_key) content_type content_length ttl w)

  pub presign_get : String → ℤ → W → Result String × W
  presign_get logical_key ttl w =
      wrapped "presign get" (s3.presign_get c.bucket (full_key c logical_key) ttl w)

  abbrev or_zero : Option ℤ → ℤ
  or_zero none = pos 0
  or_zero (some n) = n

  abbrev or_empty : Option String → String
  or_empty none = ""
  or_empty (some text) = text

  head_result : Result (Option ℤ × Option String) × W → Result HeadResult × W
  head_result (ok (size, kind), w) =
      (ok (record { content_length = or_zero size; content_type = or_empty kind }), w)
  head_result (err e, w) =
      (err (if is e "types.NotFound" then sentinel "ErrNotFound" else wrap "head object" e), w)

  pub head : String → W → Result HeadResult × W
  head logical_key w = head_result (s3.head_object c.bucket (full_key c logical_key) w)

  read_range : ℕ → Result Body × W → Result (List ℕ) × W
  read_range n (err e, w) = (err (wrap "range get" e), w)
  read_range n (ok body, w) = (copy_n n body, w)

  -- No byte is asked for, and nothing is fetched, for a maximum that is not positive.
  pub range_get : String → ℤ → W → Result (List ℕ) × W
  range_get logical_key (negsuc m) w = (ok [], w)
  range_get logical_key (pos n) w =
      if n == 0
      then (ok [], w)
      else read_range n (s3.get_object c.bucket (full_key c logical_key) (s3.range_of (n - 1)) w)

  deleted : Option GoError × W → Option GoError × W
  deleted (none, w) = (none, w)
  deleted (some e, w) = (some (wrap "delete object" e), w)

  pub delete : String → W → Option GoError × W
  delete logical_key w = deleted (s3.delete_object c.bucket (full_key c logical_key) w)
