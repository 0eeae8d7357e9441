-- ===== src/Base/Ordered.antt =====
-- std::map and std::multimap as lists in the order of their keys.
use Prim.Native.Nat.{ℕ, Ordering}
use Prim.Native.String.{String, compare as compare_text}
use mathlib.Core.Bool.{Bool, true, false}
use mathlib.Core.List.{List, [], ◌∷◌}
use text.Mathlib.Text.{◌==◌ as str_eq}
use publiq_pp.Base.Tests.{ltb, ◌==◌, if◌then◌else◌}

abbrev pub before : String → String → Bool
before a b = elim (compare_text a b) [ Ordering.lt ↦ true | _ ↦ false ]

-- `f(m[key])`, where a key that is not there is added with the default.
unfoldable pub at_text : {V : Type 0} → String → V → (V → V) → List (String × V) → List (String × V)
at_text key default f [] = (key, f default) ∷ []
at_text key default f ((k, v) ∷ m) =
    let rest = at_text key default f m in
    if str_eq key k
    then (k, f v) ∷ m
    else if before key k
    then (key, f default) ∷ (k, v) ∷ m
    else (k, v) ∷ rest

-- The same for keys that are numbers.
unfoldable pub at_number : {V : Type 0} → ℕ → V → (V → V) → List (ℕ × V) → List (ℕ × V)
at_number key default f [] = (key, f default) ∷ []
at_number key default f ((k, v) ∷ m) =
    let rest = at_number key default f m in
    if key == k
    then (k, f v) ∷ m
    else if ltb key k
    then (key, f default) ∷ (k, v) ∷ m
    else (k, v) ∷ rest

-- `m[key]`, read only
unfoldable pub text_or : {V : Type 0} → String → V → List (String × V) → V
text_or key default [] = default
text_or key default ((k, v) ∷ m) = if str_eq key k then v else text_or key default m

-- `insert` of a multimap: behind the entries with the same key.
unfoldable pub insert_multi : {V : Type 0} → String → V → List (String × V) → List (String × V)
insert_multi key v [] = (key, v) ∷ []
insert_multi key v ((k, u) ∷ m) =
    let rest = insert_multi key v m in if before key k then (key, v) ∷ (k, u) ∷ m else (k, u) ∷ rest
