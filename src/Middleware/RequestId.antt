-- ===== src/Middleware/RequestId.antt =====
-- middleware/request_id.go: every request that goes on has an identifier.
pub mod Validity
mod Tests
use Prim.Native.Char.{code}
use Prim.Native.String
use gframework.Base.{
  ℕ, String, ◌≡◌, Bool, true, false, ◌&&◌, ◌||◌, Option, none, some, str_eq, if◌then◌else◌, leb,
  ◌==◌,
}
use gframework.Errors.{GoError}

-- unicode.IsSpace
is_space : ℕ → Bool
is_space c =
    (leb 9 c && leb c 13)
    || c == 0x20
    || c == 0x85
    || c == 0xa0
    || c == 0x1680
    || (leb 0x2000 c && leb c 0x200a)
    || c == 0x2028
    || c == 0x2029
    || c == 0x202f
    || c == 0x205f
    || c == 0x3000

trim_left : String → String
trim_left String.[] = String.[]
trim_left (String.◌∷◌ c s) =
    let rest = trim_left s in if is_space (code c) then rest else String.◌∷◌ c s

trim_right : String → String
trim_right String.[] = String.[]
trim_right (String.◌∷◌ c s) =
    let rest = trim_right s in
    if str_eq rest "" && is_space (code c) then String.[] else String.◌∷◌ c rest

-- strings.TrimSpace
unfoldable pub trim_space : String → String
unfolding trim_left trim_right is_space
trim_space s = trim_right (trim_left s)

-- `validator` is `uuid.Validate` by default, `skipper` skips nothing.
pub record RequestIdConfig : Type 0 where
  pub skipper : String → Bool
  pub auto_generate : Bool
  pub validator : String → Option GoError

-- The X-Request-ID of the request (empty if missing) and of the response, and the identifier in the
-- context.
pub record Exchange : Type 0 where
  pub path : String
  pub request_header : String
  pub response_header : Option String
  pub request_id : Option String

-- A 400, or what the next handler returned.
pub data Answer (A : Type 0) : Type 0 where
  missing_header : Answer A
  invalid_header : Answer A
  passed : A → Answer A

module _ {A : Type 0} (cfg : RequestIdConfig) (fresh : String) (next : Exchange → A) where
  generate : Exchange → Answer A
  generate ex =
      if cfg.auto_generate
      then passed (
          next (record ex {
            request_header = fresh;
            response_header = some fresh;
            request_id = some fresh;
          }))
      else missing_header

  accept : String → Exchange → Answer A
  accept rid ex = elim (cfg.validator rid) [
    | some e ↦ invalid_header
    | none ↦ passed (next (record ex { response_header = some rid; request_id = some rid }))
  ]

  -- `fresh` is what the generator would give.
  pub request_id_with_config : Exchange → Answer A
  unfolding generate accept
  request_id_with_config ex =
      if cfg.skipper ex.path
      then passed (next ex)
      else let rid = trim_space ex.request_header in
        if str_eq rid "" then generate ex else accept rid ex
