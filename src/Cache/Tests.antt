-- ===== src/Cache/Tests.antt =====
-- Runs of cache/cache.go and cache/key.go, and concrete uses of what is proved of them.
use gframework.Base.{
  String, ◌≡◌, refl, sym, Option, none, some, [], ◌∷◌, if◌then◌else◌, pos, str_eq, eq_refl, arith,
}
use gframework.Errors.{is, sentinel, ok, err}
use gframework.Cache.{
  Redis, Json, Cache, set_encoded, set_marshalled, after_hset, after_expire, get_encoded,
  after_hget, missing, decode, get, set, invalidate, new,
}
use gframework.Cache.Contents.{found, get-set}
use gframework.Cache.Keys.{AnyKey, text, int, build_key, build_hashed_key, encode_string}
use gframework.Cache.Keys.Splitting.{split_colon, split_colon-build_key}

-- A Redis that never fails, by the contents of its hashes.
abbrev Hashes : Type 0
Hashes = String → String → Option String

abbrev put : String → String → Option String → Hashes → Hashes
put h k v w g j = if str_eq h g then (if str_eq k j then v else w g j) else w g j

abbrev redis : Redis Hashes
redis = record {
  hget = λ h k w. (found (w h k), w);
  hset = λ h k v w. (none, put h k (some v) w);
  expire = λ h ttl w. (none, w);
  hdel = λ h k w. (none, put h k none w);
  del = λ h w. (none, λ g j. if str_eq h g then none else w g j);
}

abbrev json : Json String
json = record { marshal = ok; unmarshal = ok }

abbrev users : Cache (AnyKey Unit)
users = record { ttl = pos 60; hash_key = "users"; encode = encode_string }

abbrev empty : Hashes
empty h k = none

put-same :
    (h k : String) (v : Option String) (w : Hashes) (j : String)
    → put h k v w h j ≡ (if str_eq k j then v else w h j)
put-same h k v w j = rw (eq_refl h) refl

abbrev stored : Hashes
stored = put "users" "bob" (some "{}") empty

get-set_example :
    (get redis json users (text "bob") (set redis json users (text "bob") "{}" empty).1).0 ≡ ok "{}"
unfolding set set_encoded set_marshalled after_hset after_expire encode_string
get-set_example =
    get-set redis json users (λ h k w. w h k) (λ h k w. refl)
      (λ h k v w done j. put-same h k (some v) w j) (λ h k ttl w lives. refl)
      (λ v s marshals. sym marshals) refl (text "bob") (text "bob") "bob" "bob" "{}" empty refl refl
      refl

split_colon-build_key_example :
    split_colon (build_key (λ s. s) ("user" ∷ "42" ∷ [])) ≡ "user" ∷ "42" ∷ []
split_colon-build_key_example = split_colon-build_key (λ s. s) "user" ("42" ∷ []) (ground arith)

-- An expiry of 0 becomes five minutes; a key of the wrong type touches nothing.
runs :
    (new "users" (pos 0) encode_string ≡ record users { ttl = pos 300_000_000_000 })
    × ((get redis json users (int (pos 3)) stored).1 ≡ stored)
    × (build_key (λ s. s) ("a:b" ∷ []) ≡ build_key (λ s. s) ("a" ∷ "b" ∷ []))
    × (build_hashed_key (λ s. s) (λ s. s) ("a" ∷ "b" ∷ []) ≡ "a|b")
    × ((get redis json users (text "bob") (invalidate redis json users stored).1).0
        ≡ err (sentinel "ErrKeyNotFound"))
unfolding new get get_encoded after_hget missing decode is encode_string build_key build_hashed_key
    invalidate
runs = (refl, refl, refl, refl, refl)
