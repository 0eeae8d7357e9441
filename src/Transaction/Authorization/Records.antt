-- ===== src/Transaction/Authorization/Records.antt =====
-- What an update does to one record, read as a set of permissions.
use publiq_pp.Base.{
  ℕ, ◌≡◌, refl, inl, inr, Bool, true, false, not, ◌&&◌, ◌||◌, List, [], ◌∷◌, String, has, arith,
  Option-cases,
}
use publiq_pp.Base.Effects.{logic_error, wrong_data, Result, ok, err, is_ok}
use publiq_pp.Documents.{UpdateType, store, remove}
use publiq_pp.Authority.{AccountAuthorization, permits}
use publiq_pp.Transaction.Authorization.{
  AuthorizationUpdate, apply_record, revert_record, can_apply_record, insert_ids, erase_ids,
  with_ids,
}
use publiq_pp.Transaction.Authorization.Ids.{
  has-insert_ids, has-erase_ids, erase-insert_ids, insert-erase_ids,
}

-- What an update makes of one permission. No ids at all stand for every kind of action.
abbrev pub decided : UpdateType → List ℕ → ℕ → Bool → Bool
decided store [] id old = true
decided store (i ∷ is') id old = old || has id (i ∷ is')
decided remove [] id old = false
decided remove (i ∷ is') id old = old && not (has id (i ∷ is'))

-- Asking first gives the answer that applying then bears out, also for the limitation.
abbrev pub Foretells : Result Bool → Result AccountAuthorization → Type 0
Foretells (ok true) r = is_ok r ≡ true
Foretells (ok false) r = r ≡ err wrong_data
Foretells (err e) r = r ≡ err e

pub can_apply-apply :
    (t : UpdateType) (o a : String) (ids : List ℕ) (r : AccountAuthorization)
    → let u : AuthorizationUpdate = record {
      update_type = t;
      owner = o;
      actor = a;
      action_ids = ids;
    } in
      Foretells (can_apply_record u r) (apply_record u r)
unfolding can_apply_record apply_record
can_apply-apply store o a [] r = ground arith
can_apply-apply store o a (i ∷ is') r = ground arith
can_apply-apply remove o a [] r = ground arith
can_apply-apply remove o a (i ∷ is') r = ground arith

-- The parts of an update, for the case analysis.
abbrev pub update_of : UpdateType → String → String → List ℕ → AuthorizationUpdate
update_of t o a ids = record { update_type = t; owner = o; actor = a; action_ids = ids }

insert-permits :
    (ids : List ℕ) (r r' : AccountAuthorization) (id : ℕ)
    → r.default_full ≡ false
    → with_ids wrong_data r (insert_ids ids r.action_ids) ≡ ok r'
    → permits r' id ≡ (permits r id || has id ids)
unfolding permits
insert-permits ids r r' id f e = elim (Option-cases (insert_ids ids r.action_ids)) [
  | inl n ↦ ground arith
  | inr (s, h) ↦ ground (arith, has-insert_ids ids r.action_ids s h id)
]

erase-permits :
    (ids : List ℕ) (r r' : AccountAuthorization) (id : ℕ)
    → r.default_full ≡ false
    → with_ids wrong_data r (erase_ids ids r.action_ids) ≡ ok r'
    → permits r' id ≡ (permits r id && not (has id ids))
unfolding permits
erase-permits ids r r' id f e = elim (Option-cases (erase_ids ids r.action_ids)) [
  | inl n ↦ ground arith
  | inr (s, h) ↦ ground (arith, has-erase_ids ids r.action_ids s h id)
]

-- An update that goes through decides every permission of the record as it says.
pub apply_record-permits :
    (t : UpdateType) (o a : String) (ids : List ℕ) (r r' : AccountAuthorization)
    → apply_record (update_of t o a ids) r ≡ ok r'
    → (id : ℕ) → permits r' id ≡ decided t ids id (permits r id)
unfolding apply_record permits
apply_record-permits store o a [] r r' e id = ground arith
apply_record-permits remove o a [] r r' e id = ground arith
apply_record-permits store o a (i ∷ is') r r' e id =
    ground (arith, insert-permits (i ∷ is') r r' id)
apply_record-permits remove o a (i ∷ is') r r' e id =
    ground (arith, erase-permits (i ∷ is') r r' id)

-- A loop undone on the record that it left.
undo_award :
    (ids : List ℕ) (r r' : AccountAuthorization)
    → r.default_full ≡ false
    → with_ids wrong_data r (insert_ids ids r.action_ids) ≡ ok r'
    → (q : AccountAuthorization) × (r'.default_full ≡ false)
      × (with_ids logic_error r' (erase_ids ids r'.action_ids) ≡ ok q)
      × ((id : ℕ) → permits q id ≡ permits r id)
unfolding permits
undo_award ids r r' f e = elim (Option-cases (insert_ids ids r.action_ids)) [
  | inl n ↦ absurd (ground arith)
  | inr (s, h) ↦
      let (t, k, same) = erase-insert_ids ids r.action_ids s h in
      (
        record { default_full = false; action_ids = t },
        ground arith,
        ground arith,
        λ id. ground (arith, same id),
      )
]

undo_reject :
    (ids : List ℕ) (r r' : AccountAuthorization)
    → r.default_full ≡ false
    → with_ids wrong_data r (erase_ids ids r.action_ids) ≡ ok r'
    → (q : AccountAuthorization) × (r'.default_full ≡ false)
      × (with_ids logic_error r' (insert_ids ids r'.action_ids) ≡ ok q)
      × ((id : ℕ) → permits q id ≡ permits r id)
unfolding permits
undo_reject ids r r' f e = elim (Option-cases (erase_ids ids r.action_ids)) [
  | inl n ↦ absurd (ground arith)
  | inr (s, h) ↦
      let (t, k, same) = insert-erase_ids ids r.action_ids s h in
      (
        record { default_full = false; action_ids = t },
        ground arith,
        ground arith,
        λ id. ground (arith, same id),
      )
]

-- An update that went through can be reverted, which gives every permission back.
pub revert_record-apply_record :
    (t : UpdateType) (o a : String) (ids : List ℕ) (r r' : AccountAuthorization)
    → apply_record (update_of t o a ids) r ≡ ok r'
    → (q : AccountAuthorization) × (revert_record (update_of t o a ids) r' ≡ ok q)
      × ((id : ℕ) → permits q id ≡ permits r id)
unfolding apply_record revert_record permits
revert_record-apply_record store o a [] r r' e = (r, ground arith, λ id. refl)
revert_record-apply_record remove o a [] r r' e = (r, ground arith, λ id. refl)
revert_record-apply_record store o a (i ∷ is') r r' e =
    let (q, f, k, same) = undo_award (i ∷ is') r r' (ground arith) (ground arith) in
    (q, ground arith, same)
revert_record-apply_record remove o a (i ∷ is') r r' e =
    let (q, f, k, same) = undo_reject (i ∷ is') r r' (ground arith) (ground arith) in
    (q, ground arith, same)
