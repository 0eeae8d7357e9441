-- ===== src/Base/Texts.antt =====
-- std::unordered_set of texts, as a list that is compared by membership.
use publiq_pp.Base.Tests.{if◌then◌else◌}
use mathlib.Core.Bool.{Bool, true, false}
use mathlib.Core.List.{List, [], ◌∷◌}
use mathlib.Core.Path.{◌≡◌}
use Prim.Native.String.{String}
use native.Mathlib.Omega.{arith}
use text.Mathlib.Text.{◌==◌ as str_eq}
use text.Mathlib.TextEquality.{eq_iff}

unfoldable pub contains : String → List String → Bool
contains a [] = false
contains a (b ∷ bs) = if str_eq b a then true else contains a bs

-- `insert`: a text that is there stays.
unfoldable pub add_text : String → List String → List String
unfolding contains
add_text a bs = if contains a bs then bs else a ∷ bs

-- `erase`
unfoldable pub remove_text : String → List String → List String
remove_text a [] = []
remove_text a (b ∷ bs) = if str_eq b a then remove_text a bs else b ∷ remove_text a bs

pub contains-add_text :
    (a b : String) (bs : List String)
    → contains b (add_text a bs) ≡ (if str_eq a b then true else contains b bs)
unfolding add_text
contains-add_text a b bs = ground (arith, eq_iff a b)

pub contains-remove_text :
    (a b : String) (bs : List String)
    → contains b (remove_text a bs) ≡ (if str_eq a b then false else contains b bs)
unfolding contains remove_text
contains-remove_text a b [] = ground arith
contains-remove_text a b (c ∷ cs) =
    ground (arith, eq_iff c a, eq_iff c b, eq_iff a b, contains-remove_text a b cs)

-- No text is listed twice.
abbrev pub Distinct : List String → Type 0
Distinct [] = Unit {0}
Distinct (k ∷ ks) = (contains k ks ≡ false) × Distinct ks
