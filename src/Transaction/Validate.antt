-- ===== src/Transaction/Validate.antt =====
-- src/libblockchain/transaction_handler.cpp, `signed_transaction_validate`: the signatures and the
-- times of a signed transaction. Times are in whole seconds.
pub mod Accepted
use publiq_pp.Base.{
  ℕ, ◌+◌, ◌*◌, Bool, true, false, ◌&&◌, List, [], ◌∷◌, String, str_eq, if◌then◌else◌, ltb, is_empty,
}
use publiq_pp.Base.Effects.{wrong_data, bad_text, Result, ok, err}
use publiq_pp.Node.{
  Authority, SignedTransaction, Crypto, expect_public_key, refuse_if, check_all, then_check,
}

-- `TRANSACTION_MAX_LIFETIME_HOURS` of common.hpp, in seconds
abbrev pub max_lifetime : ℕ
max_lifetime = 24 * 3600

-- What `meshpp::signature` does of an address, a message and a signature; it throws if they do not
-- belong together.
abbrev pub Verifier : Type 0
Verifier = String → String → String → Bool

-- Whether the address has signed with the same signature before: `seen` are the signers before.
unfoldable pub has_signed : Authority → List Authority → Bool
has_signed a [] = false
has_signed a (b ∷ bs) =
    if str_eq b.address a.address && str_eq b.signature a.signature then true else has_signed a bs

unfoldable pub expect_signatures :
    Crypto → Verifier → String → List Authority → List Authority → Result (Unit {0})
unfolding has_signed
expect_signatures k verifies message seen [] = ok tt
expect_signatures k verifies message seen (a ∷ as') =
    let rest = expect_signatures k verifies message (a ∷ seen) as' in
    check_all (
      refuse_if (has_signed a seen) wrong_data
      ∷ expect_public_key k a.address
      ∷ (if verifies a.address message a.signature then ok tt else err (bad_text a.signature))
      ∷ rest
      ∷ [])

-- `message` is the text of the transaction's details.
unfoldable pub signed_transaction_validate :
    Crypto → Verifier → String → SignedTransaction → ℕ → ℕ → Result (Unit {0})
unfolding expect_signatures
signed_transaction_validate k verifies message st now time_shift = check_all (
    refuse_if (is_empty st.authorizations) wrong_data
    ∷ expect_signatures k verifies message [] st.authorizations
    ∷ refuse_if (ltb (now + time_shift) st.creation) wrong_data
    ∷ refuse_if (ltb (st.expiry + time_shift) now) wrong_data
    ∷ refuse_if (ltb (st.creation + max_lifetime) st.expiry) wrong_data
    ∷ [])
