-- ===== src/Transaction/Authorization/Ids.antt =====
-- The loops over the ids of an update, as operations on sets.
use publiq_pp.Base.{
  ℕ, ◌≡◌, refl, sym, ◌∙◌, true, false, not, ◌&&◌, ◌||◌, Option, some, List, [], ◌∷◌, has, remove,
  has-remove, IsDistinct, arith,
}
use publiq_pp.Transaction.Authorization.{insert_ids, erase_ids}

-- No id of the first list is in the second, or every one is.
abbrev pub Apart : List ℕ → List ℕ → Type 0
Apart ids s = (i : ℕ) → has i ids ≡ true → has i s ≡ false

abbrev pub Within : List ℕ → List ℕ → Type 0
Within ids s = (i : ℕ) → has i ids ≡ true → has i s ≡ true

pub insert_ids_runs :
    (ids s : List ℕ)
    → IsDistinct ids
    → Apart ids s
    → (s' : List ℕ) × (insert_ids ids s ≡ some s') × ((i : ℕ) → has i s' ≡ (has i s || has i ids))
unfolding insert_ids
insert_ids_runs [] s d a = (s, refl, λ i. ground arith)
insert_ids_runs (id ∷ ids) s d a =
    let (s', e, h) = insert_ids_runs ids (id ∷ s) d.1 (λ i p. ground (arith, a i, d.0)) in
    (s', ground (arith, a id, e), λ i. ground (arith, h i))

pub erase_ids_runs :
    (ids s : List ℕ)
    → IsDistinct ids
    → Within ids s
    → (s' : List ℕ) × (erase_ids ids s ≡ some s')
      × ((i : ℕ) → has i s' ≡ (has i s && not (has i ids)))
unfolding erase_ids
erase_ids_runs [] s d w = (s, refl, λ i. ground arith)
erase_ids_runs (id ∷ ids) s d w =
    let (s', e, h) =
      erase_ids_runs ids (remove id s) d.1 (λ i p. ground (arith, w i, d.0, has-remove id i s)) in
    (s', ground (arith, w id, e), λ i. ground (arith, h i, has-remove id i s))

pub insert_ids_inv : (ids s s' : List ℕ) → insert_ids ids s ≡ some s' → IsDistinct ids × Apart ids s
unfolding insert_ids
insert_ids_inv [] s s' e = (tt, λ i p. cc)
insert_ids_inv (id ∷ ids) s s' e =
    let fresh : has id s ≡ false = ground arith in
    let (d, a) = insert_ids_inv ids (id ∷ s) s' (ground arith) in
    ((ground (arith, a id), d), λ i p. ground (arith, a i))

pub erase_ids_inv : (ids s s' : List ℕ) → erase_ids ids s ≡ some s' → IsDistinct ids × Within ids s
unfolding erase_ids
erase_ids_inv [] s s' e = (tt, λ i p. cc)
erase_ids_inv (id ∷ ids) s s' e =
    let there : has id s ≡ true = ground arith in
    let (d, w) = erase_ids_inv ids (remove id s) s' (ground arith) in
    ((ground (arith, w id, has-remove id id s), d), λ i p. ground (arith, w i, has-remove id i s))

some_injective : (s t : List ℕ) → ◌≡◌ {A = Option (List ℕ)} (some s) (some t) → s ≡ t
some_injective s t e = cc

-- What a loop that ran to its end has left.
pub has-insert_ids :
    (ids s s' : List ℕ) → insert_ids ids s ≡ some s' → (i : ℕ) → has i s' ≡ (has i s || has i ids)
has-insert_ids ids s s' e =
    let (d, a) = insert_ids_inv ids s s' e in
    let (t, e', h) = insert_ids_runs ids s d a in λ i. rw (some_injective s' t (sym e ∙ e')) (h i)

pub has-erase_ids :
    (ids s s' : List ℕ)
    → erase_ids ids s ≡ some s'
    → (i : ℕ) → has i s' ≡ (has i s && not (has i ids))
has-erase_ids ids s s' e =
    let (d, w) = erase_ids_inv ids s s' e in
    let (t, e', h) = erase_ids_runs ids s d w in λ i. rw (some_injective s' t (sym e ∙ e')) (h i)

-- Each loop undoes the other, up to the order of the ids.
pub erase-insert_ids :
    (ids s s' : List ℕ)
    → insert_ids ids s ≡ some s'
    → (t : List ℕ) × (erase_ids ids s' ≡ some t) × ((i : ℕ) → has i t ≡ has i s)
erase-insert_ids ids s s' e =
    let (d, a) = insert_ids_inv ids s s' e in
    let h = has-insert_ids ids s s' e in
    let (t, e', k) = erase_ids_runs ids s' d (λ i p. ground (arith, h i)) in
    (t, e', λ i. ground (arith, h i, k i, a i))

pub insert-erase_ids :
    (ids s s' : List ℕ)
    → erase_ids ids s ≡ some s'
    → (t : List ℕ) × (insert_ids ids s' ≡ some t) × ((i : ℕ) → has i t ≡ has i s)
insert-erase_ids ids s s' e =
    let (d, w) = erase_ids_inv ids s s' e in
    let h = has-erase_ids ids s s' e in
    let (t, e', k) = insert_ids_runs ids s' d (λ i p. ground (arith, h i)) in
    (t, e', λ i. ground (arith, h i, k i, w i))
