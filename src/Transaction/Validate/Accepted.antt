-- ===== src/Transaction/Validate/Accepted.antt =====
-- Which signed transactions are accepted, and that the cache still knows them while they are.
use publiq_pp.Base.{
  ℕ, ◌+◌, ◌≤◌, ◌≡◌, ◌↔◌, refl, true, false, List, [], ◌∷◌, String, eq_iff, is_empty, arith, some,
}
use publiq_pp.Base.Dict.{lookup}
use publiq_pp.Base.Effects.{ok}
use publiq_pp.Node.{Authority, SignedTransaction, Crypto}
use publiq_pp.Cache.{Entry, Cache, clean, contains}
use publiq_pp.Cache.Lifetime.{HasKeysOnce, clean_lem}
use publiq_pp.Transaction.Validate.{
  max_lifetime, Verifier, has_signed, expect_signatures, signed_transaction_validate,
}

-- No signer has the address and the signature of another.
abbrev pub SignsOnce : List Authority → Type 0
SignsOnce [] = Unit {0}
SignsOnce (a ∷ as') = (has_signed a as' ≡ false) × SignsOnce as'

-- Every address is a public key and has signed the message.
abbrev pub AllSigned : Crypto → Verifier → String → List Authority → Type 0
AllSigned k verifies message [] = Unit {0}
AllSigned k verifies message (a ∷ as') =
    (k.is_public_key a.address ≡ true)
    × (verifies a.address message a.signature ≡ true)
    × AllSigned k verifies message as'

-- No signer of the second list is in the first.
abbrev NewSigners : List Authority → List Authority → Type 0
NewSigners seen [] = Unit {0}
NewSigners seen (a ∷ as') = (has_signed a seen ≡ false) × NewSigners seen as'

NewSigners-cons :
    (a : Authority) (seen as' : List Authority)
    → NewSigners (a ∷ seen) as' ↔ (NewSigners seen as' × (has_signed a as' ≡ false))
unfolding has_signed
NewSigners-cons a seen [] = (λ h. (tt, refl), λ h. tt)
NewSigners-cons a seen (b ∷ as') =
    let ih = NewSigners-cons a seen as' in
    let e = eq_iff a.address b.address in
    let e' = eq_iff b.address a.address in
    let f = eq_iff a.signature b.signature in
    let f' = eq_iff b.signature a.signature in
    (
      λ h. let k = ih.0 h.1 in ((ground arith, k.0), ground (arith, k.1, e, e', f, f')),
      λ h. (ground (arith, e, e', f, f'), ih.1 (h.0.1, ground (arith, e, e', f, f'))),
    )

no_signers : (as' : List Authority) → NewSigners [] as'
unfolding has_signed
no_signers [] = tt
no_signers (a ∷ as') = (refl, no_signers as')

expect_signatures_iff :
    (k : Crypto) (verifies : Verifier) (message : String) (seen as' : List Authority)
    → (expect_signatures k verifies message seen as' ≡ ok tt)
      ↔ (AllSigned k verifies message as' × SignsOnce as' × NewSigners seen as')
unfolding expect_signatures
expect_signatures_iff k verifies message seen [] = (λ e. (tt, tt, tt), λ h. refl)
expect_signatures_iff k verifies message seen (a ∷ as') =
    let ih = expect_signatures_iff k verifies message (a ∷ seen) as' in
    let f = NewSigners-cons a seen as' in
    (
      λ e.
          let new : has_signed a seen ≡ false = ground arith in
          let key : k.is_public_key a.address ≡ true = ground arith in
          let good : verifies a.address message a.signature ≡ true = ground arith in
          let (all, once, fresh) = ih.0 (ground arith) in
          let g = f.0 fresh in ((key, good, all), (g.1, once), (new, g.0)),
      λ h.
          let rest = ih.1 (h.0.2, h.1.1, f.1 (h.2.1, h.1.0)) in
          ground (arith, rest, h.2.0, h.0.0, h.0.1),
    )

-- A signed transaction is accepted exactly when it has a signer, every signer's address is a public
-- key that has signed the message, no pair of address and signature is there twice, and its
-- creation, its expiry and its lifetime are within their limits.
pub signed_transaction_validate_iff :
    (k : Crypto) (verifies : Verifier) (message : String) (st : SignedTransaction)
    (now time_shift : ℕ)
    → (signed_transaction_validate k verifies message st now time_shift ≡ ok tt) ↔ (
        (is_empty st.authorizations ≡ false)
        × AllSigned k verifies message st.authorizations
        × SignsOnce st.authorizations
        × (st.creation ≤ now + time_shift)
        × (now ≤ st.expiry + time_shift)
        × (st.expiry ≤ st.creation + max_lifetime))
unfolding signed_transaction_validate
signed_transaction_validate_iff k verifies message st now time_shift =
    let signed = expect_signatures_iff k verifies message [] st.authorizations in
    (
      λ e.
          let (all, once, fresh) = signed.0 (ground arith) in
          (ground arith, all, once, ground arith, ground arith, ground arith),
      λ h.
          let done = signed.1 (h.1, h.2, no_signers st.authorizations) in
          ground (arith, done, h.0, h.3, h.4, h.5),
    )

-- A signed transaction that is accepted at a time, with a shift of at most 60 seconds, and that the
-- cache knows with its time of creation is still known after the cache was cleaned at that time, in
-- a cache with no key twice: what the cache has forgotten is not accepted again.
pub accepted_stays_known :
    (k : Crypto) (verifies : Verifier) (message : String) (key : SignedTransaction → String)
    (st : SignedTransaction) (c : Cache) (e : Entry) (now time_shift : ℕ)
    → signed_transaction_validate k verifies message st now time_shift ≡ ok tt
    → time_shift ≤ 60
    → HasKeysOnce c.data_map
    → lookup (key st) c.data_map ≡ some e
    → e.tp ≡ st.creation
    → contains key st (clean now c) ≡ true
unfolding contains
accepted_stays_known k verifies message key st c e now time_shift valid small once known at =
    let (some_one, all, apart, past, fresh, short) =
      (signed_transaction_validate_iff k verifies message st now time_shift).0 valid in
    ground (arith, clean_lem now c (key st) once, known, at, past, fresh, short, small)
