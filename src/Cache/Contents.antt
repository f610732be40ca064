-- ===== src/Cache/Contents.antt =====
-- cache/cache.go: what `Get` answers after `Set`, `Delete` and `Invalidate`, on a Redis that answers.
use gframework.Base.{
  String, ◌≡◌, refl, ap, ◌∙◌, Bool, true, false, Option, none, some, if◌then◌else◌, ℤ, pos, ltb_ℤ,
  str_eq,
}
use gframework.Errors.{GoError, sentinel, is, Result, ok, err}
use gframework.Cache.{
  Redis, Json, Cache, missing, decode, after_hget, get_encoded, after_expire, after_hset,
  set_marshalled, set_encoded, delete_encoded, failed, get, set, delete, invalidate,
}

-- The answer of HGET for a field with the value, or without one.
abbrev pub found : Option String → Result String
found none = err (sentinel "redis.Nil")
found (some text) = ok text

-- `view h k w` is the value of the field `k` of the hash `h`.
module _ {W K V : Type 0} (redis : Redis W) (json : Json V) (c : Cache K)
    (view : String → String → W → Option String)
    (hget_answers : (h k : String) (w : W) → (redis.hget h k w).0 ≡ found (view h k w)) where
  -- What a reader is told about a field.
  read : Option String → Result V
  read none = err (sentinel "ErrKeyNotFound")
  read (some text) = decode redis json c (json.unmarshal text)

  read-found : (o : Option String) (w : W) → (after_hget redis json c (found o, w)).0 ≡ read o
  unfolding after_hget missing is read
  read-found none w = refl
  read-found (some text) w = refl

  after_hget-answer :
      (answer : Result String × W)
      → (after_hget redis json c answer).0 ≡ (after_hget redis json c (answer.0, answer.1)).0
  after_hget-answer (a, w) = refl

  get-view :
      (key : K) (k : String) (w : W)
      → c.encode key ≡ ok k
      → (get redis json c key w).0 ≡ read (view c.hash_key k w)
  unfolding get get_encoded
  get-view key k w encodes = rw encodes (
      after_hget-answer (redis.hget c.hash_key k w)
      ∙ ap (λ a. (after_hget redis json c (a, (redis.hget c.hash_key k w).1)).0)
          (hget_answers c.hash_key k w)
      ∙ read-found (view c.hash_key k w) ((redis.hget c.hash_key k w).1))

  after_expire-world :
      (answer : Option GoError × W) → (after_expire redis json c answer).1 ≡ answer.1
  unfolding after_expire
  after_expire-world (none, w) = refl
  after_expire-world (some e, w) = refl

  module _
      (hset_stores : (h k v : String) (w : W)
        → (redis.hset h k v w).0 ≡ none
        → (j : String)
        → view h j (redis.hset h k v w).1 ≡ (if str_eq k j then some v else view h j w))
      (expire_keeps : (h k : String) (ttl : ℤ) (w : W)
        → ltb_ℤ (pos 0) ttl ≡ true
        → view h k (redis.expire h ttl w).1 ≡ view h k w)
      (json_round : (v : V) (text : String) → json.marshal v ≡ ok text → json.unmarshal text ≡ ok v)
      (ttl_pos : ltb_ℤ (pos 0) c.ttl ≡ true) where
    after_hset-view :
        (answer : Option GoError × W) (j : String)
        → (after_hset redis json c answer).0 ≡ none
        → (answer.0 ≡ none)
          × (view c.hash_key j (after_hset redis json c answer).1 ≡ view c.hash_key j answer.1)
    unfolding after_hset
    after_hset-view (some e, w) j success = absurd (cc success)
    after_hset-view (none, w) j success = (
      refl,
      ap (view c.hash_key j) (after_expire-world (redis.expire c.hash_key c.ttl w))
          ∙ expire_keeps c.hash_key j c.ttl w ttl_pos,
    )

    read_stored :
        (value : V) (text : String) (same : Bool) (old : Option String)
        → json.marshal value ≡ ok text
        → read (if same then some text else old) ≡ (if same then ok value else read old)
    unfolding read decode
    read_stored value text true old marshals = rw (json_round value text marshals) refl
    read_stored value text false old marshals = refl

    set_marshalled-read :
        (value : V) (answer : Result String) (k j : String) (w : W)
        → json.marshal value ≡ answer
        → (set_marshalled redis json c k answer w).0 ≡ none
        → read (view c.hash_key j (set_marshalled redis json c k answer w).1)
          ≡ (if str_eq k j then ok value else read (view c.hash_key j w))
    unfolding set_marshalled
    set_marshalled-read value (err e) k j w marshals success = absurd (cc success)
    set_marshalled-read value (ok text) k j w marshals success =
        let (stored, kept) = after_hset-view (redis.hset c.hash_key k text w) j success in
        ap read (kept ∙ hset_stores c.hash_key k text w stored j)
        ∙ read_stored value text (str_eq k j) (view c.hash_key j w) marshals

    -- After a `Set` that returns nil, on a cache with a positive time to live, `Get` answers the value
    -- that was set if the two keys are encoded alike; for any other key it answers what it did before.
    -- HGET answers by the contents, HSET that returns nil stores its field, EXPIRE with a positive time
    -- keeps the contents, and json.Unmarshal undoes json.Marshal.
    pub get-set :
        (key other : K) (k j : String) (value : V) (w : W)
        → c.encode key ≡ ok k
        → c.encode other ≡ ok j
        → (set redis json c key value w).0 ≡ none
        → (get redis json c other (set redis json c key value w).1).0
          ≡ (if str_eq k j then ok value else (get redis json c other w).0)
    unfolding set set_encoded
    get-set key other k j value w encodes encodes' success =
        rw
          (
            get-view other j w encodes',
            get-view other j (set redis json c key value w).1 encodes',
            encodes,
          )
          (set_marshalled-read value (json.marshal value) k j w refl (rw encodes at success))

  module _
      (hdel_removes : (h k : String) (w : W)
        → (redis.hdel h k w).0 ≡ none
        → (j : String) → view h j (redis.hdel h k w).1 ≡ (if str_eq k j then none else view h j w))
      (del_removes : (h : String) (w : W)
        → (redis.del h w).0 ≡ none
        → (j : String) → view h j (redis.del h w).1 ≡ none) where
    read_removed :
        (same : Bool) (old : Option String)
        → read (if same then none else old)
          ≡ (if same then err (sentinel "ErrKeyNotFound") else read old)
    unfolding read
    read_removed true old = refl
    read_removed false old = refl

    failed-none : (name : String) (e : Option GoError) → failed name e ≡ none → e ≡ none
    failed-none name none success = refl
    failed-none name (some e) success = absurd (cc success)

    -- After a `Delete` that returns nil, `Get` answers ErrKeyNotFound for every key that is encoded like
    -- the deleted one, and for any other key what it did before. HGET answers by the contents, and HDEL
    -- that returns nil removes its field.
    pub get-delete :
        (key other : K) (k j : String) (w : W)
        → c.encode key ≡ ok k
        → c.encode other ≡ ok j
        → (delete redis json c key w).0 ≡ none
        → (get redis json c other (delete redis json c key w).1).0
          ≡ (if str_eq k j then err (sentinel "ErrKeyNotFound") else (get redis json c other w).0)
    unfolding delete delete_encoded
    get-delete key other k j w encodes encodes' success =
        rw
          (
            get-view other j w encodes',
            get-view other j (delete redis json c key w).1 encodes',
            encodes,
          )
          (ap read (
              hdel_removes c.hash_key k w
                (failed-none "ErrCacheDelete" (redis.hdel c.hash_key k w).0 (rw encodes at success))
                j)
            ∙ read_removed (str_eq k j) (view c.hash_key j w))

    -- After an `Invalidate` that returns nil, every key with an encoding is missing.
    pub get-invalidate :
        (other : K) (j : String) (w : W)
        → c.encode other ≡ ok j
        → (invalidate redis json c w).0 ≡ none
        → (get redis json c other (invalidate redis json c w).1).0 ≡ err (sentinel "ErrKeyNotFound")
    unfolding invalidate read
    get-invalidate other j w encodes' success =
        rw (get-view other j (invalidate redis json c w).1 encodes') (
          ap read (
            del_removes c.hash_key w
              (failed-none "ErrCacheInvalidate" (redis.del c.hash_key w).0 success) j))
