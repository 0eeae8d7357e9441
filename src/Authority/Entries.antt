-- ===== src/Authority/Entries.antt =====
-- What the authority store keeps for one address: the edits of it, read through the record that it
-- gives each signer.
use publiq_pp.Base.{
  ◌≡◌, refl, ap, true, ◌&&◌, Option, none, some, [], ◌∷◌, String, str_eq, eq_iff, eq_refl,
  if◌then◌else◌, is_some, length, ◌==◌, arith,
}
use publiq_pp.Base.Dict.{lookup, assign, insert, erase, lookup-assign, lookup-erase}
use publiq_pp.Authority.{
  AccountAuthorization, AccountAuthorizations, full, nothing, is_nothing, is_full,
}

-- What is stored at an address: the record of each signer, the address itself included.
abbrev pub record_in : String → String → Option AccountAuthorizations → AccountAuthorization
record_in a b none = if str_eq b a then full else nothing
record_in a b (some auths) = elim (lookup b auths) [ none ↦ nothing | some r ↦ r ]

-- An address that is stored has a record of its own.
abbrev pub IsOwned : String → Option AccountAuthorizations → Type 0
IsOwned a none = Unit {0}
IsOwned a (some auths) = is_some (lookup a auths) ≡ true

unfoldable pub owned_entry : String → Option AccountAuthorizations → AccountAuthorizations
owned_entry o none = (o, full) ∷ []
owned_entry o (some auths) = auths

unfoldable pub signer_entry : String → String → AccountAuthorizations → AccountAuthorizations
signer_entry o c auths = if str_eq o c then auths else insert c nothing auths

unfoldable pub cleaned_entry : String → String → AccountAuthorizations → AccountAuthorizations
cleaned_entry o c auths =
    if str_eq o c
    then auths
    else if is_nothing (record_in o c (some auths))
    then erase c auths
    else auths

unfoldable pub dropped_entry : String → AccountAuthorizations → Option AccountAuthorizations
dropped_entry o auths =
    if is_full (record_in o o (some auths)) && length auths == 1 then none else some auths

-- Each edit of an entry, read through the records that it gives.
pub is_nothing→ : (r : AccountAuthorization) → is_nothing r ≡ true → r ≡ nothing
is_nothing→ r e = ground arith

pub is_full→ : (r : AccountAuthorization) → is_full r ≡ true → r ≡ full
is_full→ r e = ground arith

pub record_in-owned_entry :
    (o b : String) (e : Option AccountAuthorizations)
    → record_in o b (some (owned_entry o e)) ≡ record_in o b e
unfolding owned_entry lookup
record_in-owned_entry o b none = ground (arith, eq_iff o b, eq_iff b o)
record_in-owned_entry o b (some auths) = refl

pub owned_entry-IsOwned :
    (o : String) (e : Option AccountAuthorizations)
    → IsOwned o e
    → IsOwned o (some (owned_entry o e))
unfolding owned_entry lookup
owned_entry-IsOwned o none h = rw (eq_refl o) refl
owned_entry-IsOwned o (some auths) h = h

pub record_in-signer_entry :
    (o c b : String) (auths : AccountAuthorizations)
    → record_in o b (some (signer_entry o c auths)) ≡ record_in o b (some auths)
unfolding signer_entry insert
record_in-signer_entry o c b auths = ground (arith, eq_iff c b, lookup-assign c b nothing auths)

-- The signer, and any that was there, has a record now.
pub signer_entry-has :
    (o c b : String) (auths : AccountAuthorizations)
    → is_some (lookup b auths) ≡ true
    → is_some (lookup b (signer_entry o c auths)) ≡ true
unfolding signer_entry insert
signer_entry-has o c b auths h = ground (arith, lookup-assign c b nothing auths)

pub signer_entry-signer :
    (o c : String) (auths : AccountAuthorizations)
    → is_some (lookup o auths) ≡ true
    → is_some (lookup c (signer_entry o c auths)) ≡ true
unfolding signer_entry insert
signer_entry-signer o c auths h =
    ground (arith, eq_iff o c, eq_refl c, lookup-assign c c nothing auths)

pub record_in-assign :
    (o c b : String) (r : AccountAuthorization) (auths : AccountAuthorizations)
    → record_in o b (some (assign c r auths))
      ≡ (if str_eq c b then r else record_in o b (some auths))
record_in-assign o c b r auths = ground (arith, lookup-assign c b r auths)

pub assign-has :
    (c b : String) (r : AccountAuthorization) (auths : AccountAuthorizations)
    → is_some (lookup b auths) ≡ true
    → is_some (lookup b (assign c r auths)) ≡ true
assign-has c b r auths h = ground (arith, lookup-assign c b r auths)

pub record_in-cleaned_entry :
    (o c b : String) (auths : AccountAuthorizations)
    → record_in o b (some (cleaned_entry o c auths)) ≡ record_in o b (some auths)
unfolding cleaned_entry
record_in-cleaned_entry o c b auths =
    ground (arith, eq_iff c b, lookup-erase c b auths, is_nothing→ (record_in o c (some auths)))

pub cleaned_entry-IsOwned :
    (o c : String) (auths : AccountAuthorizations)
    → IsOwned o (some auths)
    → IsOwned o (some (cleaned_entry o c auths))
unfolding cleaned_entry
cleaned_entry-IsOwned o c auths h = ground (arith, eq_iff o c, eq_iff c o, lookup-erase c o auths)

-- An address that keeps its own full record alone is the same as one that is not stored.
pub record_in-dropped_entry :
    (o b : String) (auths : AccountAuthorizations)
    → IsOwned o (some auths)
    → record_in o b (dropped_entry o auths) ≡ record_in o b (some auths)
unfolding dropped_entry lookup
record_in-dropped_entry o b [] h = cc
record_in-dropped_entry o b ((k, q) ∷ []) h =
    ground (arith, eq_iff k o, eq_iff k b, eq_iff b o, is_full→ q)
record_in-dropped_entry o b (x ∷ e ∷ auths) h =
    let kept : dropped_entry o (x ∷ e ∷ auths) ≡ some (x ∷ e ∷ auths) = ground arith in
    ap (record_in o b) kept

pub dropped_entry-IsOwned :
    (o : String) (auths : AccountAuthorizations)
    → IsOwned o (some auths)
    → IsOwned o (dropped_entry o auths)
unfolding dropped_entry
dropped_entry-IsOwned o auths h = ground arith
