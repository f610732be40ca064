-- ===== src/Httpserver/Server/BodyLimit.antt =====
-- httpserver/server.go: a limit with a unit.
use Prim.Native.String
use text.Mathlib.TextLemmas.{cons-append}
use gframework.Base.{
  cons_nonempty, ℕ, ◌*◌, ◌<◌, String, ◌≡◌, refl, ap, false, Option, some, ℤ, pos, ◌*ℤ◌,
  wrap_64-small, str_eq, arith,
}
use gframework.Httpserver.Server.{last_code, without_last, unit_size, sized, parse_body_limit}

last_code-append : (s : String) → last_code (String.◌++◌ s "G") ≡ b'G'
unfolding last_code
last_code-append String.[] = refl
last_code-append (String.◌∷◌ c String.[]) = rw cons-append refl
last_code-append (String.◌∷◌ c (String.◌∷◌ d s)) =
    rw (cons-append, cons-append) (rw cons-append at (last_code-append (String.◌∷◌ d s)))

without_last-append : (s : String) → without_last (String.◌++◌ s "G") ≡ s
unfolding without_last
without_last-append String.[] = refl
without_last-append (String.◌∷◌ c String.[]) = rw cons-append refl
without_last-append (String.◌∷◌ c (String.◌∷◌ d s)) =
    rw (cons-append, cons-append)
      (ap (λ t. String.◌∷◌ c t) (rw cons-append at (without_last-append (String.◌∷◌ d s))))

append-nonempty : (s : String) → str_eq (String.◌++◌ s "G") "" ≡ false
append-nonempty String.[] = refl
append-nonempty (String.◌∷◌ c s) = rw cons-append (cons_nonempty c (String.◌++◌ s "G"))

gigabytes : (n : ℕ) → pos n *ℤ pos 1_073_741_824 ≡ pos (n * 1_073_741_824)
unfolding ◌*ℤ◌
gigabytes n = ground arith

-- A limit in gigabytes is taken at its value, as long as the value is a 64-bit integer.
pub parse_body_limit-gigabytes :
    (parse_int : String → Option ℤ) (digits : String) (n : ℕ)
    → parse_int digits ≡ some (pos n)
    → n * 1_073_741_824 < 9_223_372_036_854_775_808
    → parse_body_limit parse_int (String.◌++◌ digits "G") ≡ pos (n * 1_073_741_824)
unfolding parse_body_limit sized unit_size
parse_body_limit-gigabytes parse_int digits n parsed small =
    rw
      (
        append-nonempty digits,
        last_code-append digits,
        without_last-append digits,
        parsed,
        gigabytes n,
      )
      (wrap_64-small (n * 1_073_741_824) small)
