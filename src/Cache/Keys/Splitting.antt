-- ===== src/Cache/Keys/Splitting.antt =====
-- cache/key.go: the parts of a key can be read back if none has a colon.
use Prim.Native.Char.{Char, code}
use Prim.Native.String
use text.Mathlib.TextLemmas.{nil-append, cons-append}
use gframework.Base.{
  String, ◌≡◌, refl, ap, ◌∙◌, ◌≢◌, List, [], ◌∷◌, map, ◌==◌, if◌then◌else◌, arith,
}
use gframework.Cache.Keys.{join_texts, build_key}

-- The character before the first text.
add_char : Char → List String → List String
add_char c [] = String.◌∷◌ c String.[] ∷ []
add_char c (p ∷ ps) = String.◌∷◌ c p ∷ ps

-- The texts between the colons.
pub split_colon : String → List String
unfolding add_char
split_colon String.[] = "" ∷ []
split_colon (String.◌∷◌ c s) =
    let rest = split_colon s in if code c == b':' then "" ∷ rest else add_char c rest

abbrev pub WithoutColon : String → Type 0
WithoutColon String.[] = Unit
WithoutColon (String.◌∷◌ c s) = (code c ≢ b':') × WithoutColon s

abbrev pub AllWithoutColon : List String → Type 0
AllWithoutColon [] = Unit
AllWithoutColon (p ∷ ps) = WithoutColon p × AllWithoutColon ps

split_colon-last : (p : String) → WithoutColon p → split_colon p ≡ p ∷ []
unfolding split_colon add_char
split_colon-last String.[] h = refl
split_colon-last (String.◌∷◌ c s) h = ground (arith, split_colon-last s h.1)

split_colon-append :
    (p t : String)
    → WithoutColon p
    → split_colon (String.◌++◌ p (String.◌++◌ ":" t)) ≡ p ∷ split_colon t
unfolding split_colon add_char
split_colon-append String.[] t h = rw (nil-append, cons-append, nil-append) refl
split_colon-append (String.◌∷◌ c s) t h =
    rw cons-append (ground (arith, split_colon-append s t h.1))

split_colon-join_texts :
    (p : String) (ps : List String)
    → AllWithoutColon (p ∷ ps)
    → split_colon (join_texts ":" (p ∷ ps)) ≡ p ∷ ps
split_colon-join_texts p [] h = split_colon-last p h.0
split_colon-join_texts p (q ∷ ps) h =
    split_colon-append p (join_texts ":" (q ∷ ps)) h.0
    ∙ ap (λ rest. p ∷ rest) (split_colon-join_texts q ps h.1)

-- For at least one part, none of whose printed forms has a colon, splitting the key at its colons gives
-- the printed parts back.
pub split_colon-build_key :
    {A : Type 0}
    → (sprint : A → String) (p : A) (ps : List A) → AllWithoutColon (map sprint (p ∷ ps))
    → split_colon (build_key sprint (p ∷ ps)) ≡ map sprint (p ∷ ps)
unfolding build_key
split_colon-build_key sprint p ps h = split_colon-join_texts (sprint p) (map sprint ps) h
