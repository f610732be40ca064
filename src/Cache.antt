-- ===== src/Cache.antt =====
-- cache/cache.go, cache/key.go and cache/key_encoder.go: values as JSON in a Redis hash.
pub mod Keys
pub mod Contents
mod Tests
use gframework.Base.{
  ℕ, String, ◌≡◌, Bool, true, false, Option, none, some, List, [], ◌∷◌, if◌then◌else◌, ℤ, pos,
  eqb_ℤ,
}
use gframework.Errors.{GoError, sentinel, wrap, join, is, Result, ok, err}

-- The Redis commands of the package, on a state `W`.
pub record Redis (W : Type 0) : Type 0 where
  pub hget : String → String → W → Result String × W
  pub hset : String → String → String → W → Option GoError × W
  pub expire : String → ℤ → W → Option GoError × W
  pub hdel : String → String → W → Option GoError × W
  pub del : String → W → Option GoError × W

-- encoding/json at the type of the values.
pub record Json (V : Type 0) : Type 0 where
  pub marshal : V → Result String
  pub unmarshal : String → Result V

-- The key encoder is the method `Encode` of the one that was given.
pub record Cache (K : Type 0) : Type 0 where
  pub ttl : ℤ
  pub hash_key : String
  pub encode : K → Result String

pub new : {K : Type 0} → String → ℤ → (K → Result String) → Cache K
new hash_key ttl encode = record {
  ttl = (if eqb_ℤ ttl (pos 0) then pos 300_000_000_000 else ttl);
  hash_key = hash_key;
  encode = encode;
}

abbrev failed : String → Option GoError → Option GoError
failed name none = none
failed name (some e) = some (join (sentinel name) e)

module _ {W K V : Type 0} (redis : Redis W) (json : Json V) (c : Cache K) where
  missing : GoError → Result V
  missing e =
      if is e "redis.Nil"
      then err (sentinel "ErrKeyNotFound")
      else err (join (sentinel "ErrCacheGet") e)

  decode : Result V → Result V
  decode (err e) = err (join (sentinel "ErrCacheUnmarshal") e)
  decode (ok v) = ok v

  after_hget : Result String × W → Result V × W
  after_hget (err e, w) = (missing e, w)
  after_hget (ok text, w) = (decode (json.unmarshal text), w)

  get_encoded : Result String → W → Result V × W
  get_encoded (err e) w = (err e, w)
  get_encoded (ok k) w = after_hget (redis.hget c.hash_key k w)

  pub get : K → W → Result V × W
  get key w = get_encoded (c.encode key) w

  after_expire : Option GoError × W → Option GoError × W
  after_expire (e, w) = (failed "ErrCacheTTL" e, w)

  after_hset : Option GoError × W → Option GoError × W
  after_hset (some e, w) = (some (join (sentinel "ErrCacheSet") e), w)
  after_hset (none, w) = after_expire (redis.expire c.hash_key c.ttl w)

  set_marshalled : String → Result String → W → Option GoError × W
  set_marshalled k (err e) w = (some (join (sentinel "ErrCacheMarshal") e), w)
  set_marshalled k (ok text) w = after_hset (redis.hset c.hash_key k text w)

  set_encoded : Result String → V → W → Option GoError × W
  set_encoded (err e) value w = (some e, w)
  set_encoded (ok k) value w = set_marshalled k (json.marshal value) w

  pub set : K → V → W → Option GoError × W
  set key value w = set_encoded (c.encode key) value w

  delete_encoded : Result String → W → Option GoError × W
  delete_encoded (err e) w = (some e, w)
  delete_encoded (ok k) w =
      let (e, w') = redis.hdel c.hash_key k w in (failed "ErrCacheDelete" e, w')

  pub delete : K → W → Option GoError × W
  delete key w = delete_encoded (c.encode key) w

  pub invalidate : W → Option GoError × W
  invalidate w = let (e, w') = redis.del c.hash_key w in (failed "ErrCacheInvalidate" e, w')
