-- ===== src/Testutil.antt =====
-- testutil: the helpers that compute something: random values, polling, and the files of migrations.
pub mod Polling
mod Tests
use gframework.Base.{
  ℕ, zero, suc, String, Bool, true, false, Option, none, some, List, [], ◌∷◌, ℤ, pos, negsuc, ◌+ℤ◌,
  ◌-ℤ◌, wrap_64, quot_ℤ, insert, str_eq, ltb_ℤ, leb_ℤ, if◌then◌else◌, ◌++◌,
}
use Prim.Native.String.{◌++◌ as append}
use gframework.Errors.{GoError, sentinel, wrap, Result, ok, err}

-- A Go value, or a panic.
pub data Value (A : Type 0) : Type 0 where
  given : A → Value A
  panicked : Value A

-- `read_hex` reads as many random bytes as asked for and encodes them with two digits each; `cut` is
-- the text up to a position.
pub random_string :
    (read_hex : ℤ → Option String) (cut : String → ℤ → Value String) → ℤ → Value String
random_string read_hex cut length =
    let count = quot_ℤ length (pos 2) +ℤ pos 1 in
    if ltb_ℤ count (pos 0)
    then panicked
    else elim (read_hex count) [ none ↦ given "" | some digits ↦ cut digits length ]

-- `draw` is rand.Int: it panics for a limit that is not positive, and may have an error.
pub random_int : (draw : ℤ → Value (Option ℤ)) (min_val max_val : ℤ) → Value ℤ
random_int draw min_val max_val =
    if leb_ℤ max_val min_val
    then given min_val
    else elim (draw (wrap_64 (wrap_64 (max_val -ℤ min_val) +ℤ pos 1))) [
      | panicked ↦ panicked
      | given none ↦ given min_val
      | given (some n) ↦ given (wrap_64 (n +ℤ min_val))
    ]

pub random_email : (random : ℤ → Value String) → Value String
random_email random = elim (random (pos 10)) [
  | panicked ↦ panicked
  | given s ↦ given (append "test_" (append s "@example.com"))
]

-- How a polling test ends: it returns, or it fails with a message.
pub data Verdict : Type 0 where
  passed : Verdict
  failed : String → Verdict

-- The condition, the clock (whether it is before the deadline), and a pause act on a state `W`.
pub record Poll (W : Type 0) : Type 0 where
  pub before_deadline : W → Bool × W
  pub condition : W → Bool × W
  pub pause : W → W

-- `rounds` bounds the rounds that are looked at; without an end in them there is no verdict yet.
module _ {W : Type 0} (poll : Poll W) (message : String) where
  pub eventually : (rounds : ℕ) → W → Option Verdict × W
  eventually zero w = (none, w)
  eventually (suc rounds) w =
      let (early, w1) = poll.before_deadline w in
      let (met, w2) = poll.condition w1 in
      let later = eventually rounds (poll.pause w2) in
      if early then (if met then (some passed, w2) else later) else (some (failed message), w1)

-- Files, and the pool's Exec.
pub record Files (W : Type 0) : Type 0 where
  pub glob : String → Result (List String)
  pub read_file : String → Result String
  pub exec : String → W → Option GoError × W
  pub join_path : String → String → String

module _ {W : Type 0} (files : Files W) where
  exec_read : Result String → W → Option GoError × W
  exec_read (err e) w = (some e, w)
  exec_read (ok sql) w = files.exec sql w

  run_files : List String → W → Option GoError × W
  run_files [] w = (none, w)
  run_files (file ∷ rest) w = elim (exec_read (files.read_file file) w).0 [
    | some e ↦ (some e, (exec_read (files.read_file file) w).1)
    | none ↦ run_files rest (exec_read (files.read_file file) w).1
  ]

  run_found : String → Result (List String) → W → Option GoError × W
  run_found path (err e) w = (some e, w)
  run_found path (ok []) w = (some (wrap path (sentinel "errNoMigrationFile")), w)
  run_found path (ok (file ∷ rest)) w = run_files (file ∷ rest) w

  pub run_migrations : (path : String) → W → Option GoError × W
  run_migrations path w = run_found path (files.glob (files.join_path path "*.up.sql")) w

  -- A failed step ends the test.
  truncate_all : List String → W → Verdict × W
  truncate_all [] w = (passed, w)
  truncate_all (table ∷ tables) w =
      let (e, w') = files.exec (append "TRUNCATE TABLE " (append table " CASCADE")) w in
      elim e [ some e ↦ (failed "TRUNCATE", w') | none ↦ truncate_all tables w' ]

  truncate_listed : Result (List String) × W → Verdict × W
  truncate_listed (err e, w) = (failed "SELECT", w)
  truncate_listed (ok tables, w) = truncate_all tables w

  -- `list_tables` is the query for the tables of the schema, with its rows.
  pub cleanup_database : (list_tables : W → Result (List String) × W) → W → Verdict × W
  cleanup_database list_tables w = truncate_listed (list_tables w)

pub record Options : Type 0 where
  pub path : String
  pub headers : List (String × String)
  pub query_params : List (String × String)
  pub content_type : String
  pub skip_request_id : Bool

-- The request's path, and its headers under their canonical names. Its method and body, and the values of
-- the path's parameters, are passed on as they are and left out.
pub record Request : Type 0 where
  pub path : String
  pub headers : List (String × String)

-- `encode` is url.Values.Encode, `canonical` http.CanonicalHeaderKey, `fresh` a new UUID.
module _ (encode : List (String × String) → String) (canonical : String → String)
    (fresh : String) where
  request_path : String → List (String × String) → String
  request_path path [] = path
  request_path path (q ∷ qs) = append path (append "?" (encode (q ∷ qs)))

  set_headers : List (String × String) → List (String × String) → List (String × String)
  set_headers [] headers = headers
  set_headers ((k, v) ∷ more) headers = set_headers more (insert (canonical k) v headers)

  abbrev first_headers : Bool → List (String × String)
  first_headers skip = if skip then [] else (canonical "X-Request-ID", fresh) ∷ []

  pub setup_echo_context : Options → Request
  setup_echo_context opts = record {
    path = request_path opts.path opts.query_params;
    headers = set_headers opts.headers (
        insert (canonical "Content-Type")
          (if str_eq opts.content_type "" then "application/json" else opts.content_type)
          (first_headers opts.skip_request_id));
  }

  pub setup_echo_context_with_auth : (token : String) → Options → Request
  setup_echo_context_with_auth token opts =
      setup_echo_context (record opts { headers = insert "Authorization" token opts.headers })
