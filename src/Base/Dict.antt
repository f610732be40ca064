-- ===== src/Base/Dict.antt =====
-- Go maps with text keys: association lists with one entry for a key, in some order.
use Prim.Native.Nat.{suc, ◌-◌, ◌<◌}
use Prim.Native.String.{String}
use mathlib.Core.Path.{◌≡◌, refl}
use mathlib.Core.Bool.{Bool, true, false}
use mathlib.Core.Option.{Option, none, some}
use mathlib.Core.List.{List, [], ◌∷◌}
use native.Mathlib.Omega.{arith}
use text.Mathlib.Text.{◌==◌ as str_eq}
use text.Mathlib.TextEquality.{eq_iff}
use gframework.Base.Tests.{if◌then◌else◌, Bool-cases}
use gframework.Base.Lists.{length}
use mathlib.Core.Logic.{inl, inr, ◌⊎◌}

module _ {ℓ} {V : Type ℓ} where
  unfoldable pub lookup : String → List (String × V) → Option V
  lookup k [] = none
  lookup k ((j, v) ∷ m) = if str_eq j k then some v else lookup k m

  unfoldable pub insert : String → V → List (String × V) → List (String × V)
  insert k v [] = (k, v) ∷ []
  insert k v ((j, w) ∷ m) = if str_eq j k then (k, v) ∷ m else (j, w) ∷ insert k v m

  -- Go's delete.
  unfoldable pub remove : String → List (String × V) → List (String × V)
  remove k [] = []
  remove k ((j, w) ∷ m) = let rest = remove k m in if str_eq j k then rest else (j, w) ∷ rest

  abbrev pub keys : List (String × V) → List String
  keys [] = []
  keys ((k, v) ∷ m) = k ∷ keys m

  -- maps.Copy(dst, src)
  abbrev pub copy : List (String × V) → List (String × V) → List (String × V)
  copy dst [] = dst
  copy dst ((k, v) ∷ src) = copy (insert k v dst) src

  abbrev pub is_set : Option V → Bool
  is_set none = false
  is_set (some v) = true

  -- Reading the key `r` after a write, and after a deletion, of the key `k`.
  pub lookup-insert :
      (k r : String) (new : V) (dict : List (String × V))
      → lookup r (insert k new dict) ≡ (if str_eq k r then some new else lookup r dict)
  unfolding lookup insert
  lookup-insert k r new [] = refl
  lookup-insert k r new ((s, old) ∷ dict) =
      ground (lookup-insert k r new dict, arith, eq_iff s k, eq_iff s r, eq_iff k r)

  pub lookup-remove :
      (k r : String) (dict : List (String × V))
      → lookup r (remove k dict) ≡ (if str_eq k r then none else lookup r dict)
  unfolding lookup remove
  lookup-remove k r [] = ground arith
  lookup-remove k r ((s, old) ∷ dict) =
      ground (lookup-remove k r dict, arith, eq_iff s k, eq_iff s r, eq_iff k r)

  abbrev pub or_else : Option V → Option V → Option V
  or_else none v = v
  or_else (some w) v = some w

  -- The value of the last entry for a key.
  abbrev pub last_of : String → List (String × V) → Option V
  last_of k [] = none
  last_of k ((j, v) ∷ m) = or_else (last_of k m) (if str_eq j k then some v else none)

  pub or_else_assoc : (a b c : Option V) → or_else (or_else a b) c ≡ or_else a (or_else b c)
  or_else_assoc none b c = refl
  or_else_assoc (some v) b c = refl

  or_else-if :
      (b : Bool) (v : V) (o : Option V)
      → (if b then some v else o) ≡ or_else (if b then some v else none) o
  or_else-if true v o = refl
  or_else-if false v o = refl

  pub lookup-copy :
      (k : String) (dst src : List (String × V))
      → lookup k (copy dst src) ≡ or_else (last_of k src) (lookup k dst)
  lookup-copy k dst [] = refl
  lookup-copy k dst ((j, v) ∷ src) =
      rw
        (
          lookup-copy k (insert j v dst) src,
          lookup-insert j k v dst,
          or_else-if (str_eq j k) v (lookup k dst),
          or_else_assoc (last_of k src) (if str_eq j k then some v else none) (lookup k dst),
        )
        refl

  -- One entry for a key.
  abbrev pub Distinct : List (String × V) → Type ℓ
  Distinct [] = Unit
  Distinct ((k, v) ∷ m) = (lookup k m ≡ none) × Distinct m

  pub insert-Distinct :
      (k : String) (v : V) (m : List (String × V)) → Distinct m → Distinct (insert k v m)
  unfolding lookup insert
  insert-Distinct k v [] h = (refl, tt)
  insert-Distinct k v ((i, w) ∷ m) h =
      ground (arith, eq_iff i k, eq_iff k i, insert-Distinct k v m h.1, lookup-insert k i v m)

  pub remove-Distinct : (k : String) (m : List (String × V)) → Distinct m → Distinct (remove k m)
  unfolding lookup remove
  remove-Distinct k [] h = tt
  remove-Distinct k ((i, w) ∷ m) h =
      ground (arith, eq_iff i k, eq_iff k i, remove-Distinct k m h.1, lookup-remove k i m)

  pub length-insert :
      (k : String) (v : V) (m : List (String × V))
      → length (insert k v m) ≡ (if is_set (lookup k m) then length m else suc (length m))
  unfolding lookup insert
  length-insert k v [] = refl
  length-insert k v ((i, w) ∷ m) = ground (arith, length-insert k v m)

  pub remove_absent : (k : String) (m : List (String × V)) → lookup k m ≡ none → remove k m ≡ m
  unfolding lookup remove
  remove_absent k [] h = refl
  remove_absent k ((i, w) ∷ m) h = ground (arith, remove_absent k m)

  length_pos : (k : String) (m : List (String × V)) → (lookup k m ≡ none) ⊎ (0 < length m)
  unfolding lookup
  length_pos k [] = inl refl
  length_pos k ((i, w) ∷ m) = inr (omega arith)

  pub length-remove :
      (k : String) (m : List (String × V))
      → Distinct m
      → length (remove k m) ≡ (if is_set (lookup k m) then length m - 1 else length m)
  unfolding lookup remove
  length-remove k [] h = refl
  length-remove k ((i, w) ∷ m) h = elim (Bool-cases (str_eq i k)) [
    | inl same ↦
        let absent : lookup k m ≡ none = rw (← (eq_iff i k).0 same) h.0 in
        rw (same, remove_absent k m absent) (omega arith)
    | inr other ↦ rw other (ground (arith, length-remove k m h.1, length_pos k m))
  ]
