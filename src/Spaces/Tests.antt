-- ===== src/Spaces/Tests.antt =====
-- Runs of spaces/spaces.go.
use gframework.Base.{String, ◌≡◌, refl, none, [], ◌∷◌, pos, negsuc}
use gframework.Errors.{sentinel, ok, err, is}
use gframework.Spaces.{
  Client, S3, range_get, head, presign_get, read_range, copy_n, full_key, head_result, wrapped,
}

-- Three bytes under one key; the state is the last key that was asked for.
abbrev s3 : S3 String
s3 = record {
  presign_put = λ b k t n d w. (ok k, k);
  presign_get = λ b k d w. (ok k, k);
  head_object = λ b k w. (err (sentinel "types.NotFound"), k);
  get_object = λ b k r w. (ok (record { bytes = 1 ∷ (2 ∷ (3 ∷ [])); failure = none }), k);
  delete_object = λ b k w. (none, k);
  range_of = λ n. "bytes";
}

abbrev client : Client
client = record { bucket = "media"; prefix = "dev/" }

runs :
    (range_get s3 client "a" (pos 2) "" ≡ (ok (1 ∷ (2 ∷ [])), "dev/a"))
    × (range_get s3 client "a" (pos 9) "" ≡ (ok (1 ∷ (2 ∷ (3 ∷ []))), "dev/a"))
    × (range_get s3 client "a" (negsuc 0) "" ≡ (ok [], ""))
    × (head s3 client "a" "" ≡ (err (sentinel "ErrNotFound"), "dev/a"))
    × (presign_get s3 client "a" (pos 5) "" ≡ (ok "dev/a", "dev/a"))
unfolding range_get head presign_get read_range copy_n full_key head_result is wrapped
runs = (refl, refl, refl, refl, refl)
