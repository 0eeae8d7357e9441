-- ===== src/Tests/Caches.antt =====
-- A transaction of two signers in the cache.
use publiq_pp.Base.{
  ◌≤◌, ◌↔◌, ◌+◌, str_eq, is_empty, arith, ◌≡◌, refl, true, false, some, List, [], ◌∷◌, String,
}
use publiq_pp.Base.Dict.{lookup}
use publiq_pp.Base.Texts.{contains as listed, Distinct}
use publiq_pp.Base.Effects.{ok, err, wrong_data}
use publiq_pp.Node.{Authority, SignedTransaction, Crypto}
use publiq_pp.Transaction.Validate.{max_lifetime, Verifier, has_signed, signed_transaction_validate}
use publiq_pp.Transaction.Validate.Accepted.{
  AllSigned, SignsOnce, signed_transaction_validate_iff, accepted_stays_known,
}
use publiq_pp.Cache.{Cache, any_known, add_chain, erase_chain, contains, clean}
use publiq_pp.Cache.Chain.{keys_of, IsNew, erase_chain-add_chain}
use publiq_pp.Tests.Nodes.{signed_by}

-- The signers' names stand for the hash.
abbrev names : List Authority → String
names [] = ""
names (a ∷ []) = a.address
names (a ∷ b ∷ as') = "two"

abbrev key : SignedTransaction → String
key st = names st.authorizations

abbrev both : SignedTransaction
both = record (signed_by "alice") {
  authorizations =
      record { address = "alice"; signature = "s" }
      ∷ record { address = "bob"; signature = "s" }
      ∷ [];
}

abbrev empty_cache : Cache
empty_cache = record { data_map = []; data_backup = [] }

abbrev with_bob : Cache
with_bob = record {
  data_map = ("bob", record { complete = false; tp = 100 }) ∷ [];
  data_backup = [];
}

both-Distinct : Distinct (keys_of key both)
unfolding listed
both-Distinct = (refl, (refl, (refl, tt)))

both-IsNew : IsNew key both empty_cache
unfolding any_known lookup
both-IsNew = (refl, refl)

erase_chain-add_chain_example :
    lookup "bob" (erase_chain key both (add_chain key both empty_cache).1).data_map
    ≡ lookup "bob" empty_cache.data_map
erase_chain-add_chain_example =
    erase_chain-add_chain key both empty_cache "bob" both-Distinct both-IsNew

abbrev crypto : Crypto
crypto = record { is_public_key = λ a. true; base58_length = λ t. some 32 }

-- In these runs the letter s is everybody's signature.
abbrev letter_s : Verifier
letter_s address message signature = str_eq signature "s"

valid_at_150 : signed_transaction_validate crypto letter_s "text" (signed_by "bob") 150 60 ≡ ok tt
unfolding signed_transaction_validate has_signed
valid_at_150 = refl

refused_when_expired :
    signed_transaction_validate crypto letter_s "text" (signed_by "bob") 261 60 ≡ err wrong_data
unfolding signed_transaction_validate has_signed
refused_when_expired = refl

signed_transaction_validate_iff_example :
    (signed_transaction_validate crypto letter_s "text" both 150 60 ≡ ok tt) ↔ (
      (is_empty both.authorizations ≡ false)
      × AllSigned crypto letter_s "text" both.authorizations
      × SignsOnce both.authorizations
      × (100 ≤ 210)
      × (150 ≤ 260)
      × (200 ≤ 100 + max_lifetime))
signed_transaction_validate_iff_example =
    signed_transaction_validate_iff crypto letter_s "text" both 150 60

accepted_stays_known_example : contains key (signed_by "bob") (clean 150 with_bob) ≡ true
unfolding lookup
accepted_stays_known_example =
    accepted_stays_known crypto letter_s "text" key (signed_by "bob") with_bob
      (record { complete = false; tp = 100 }) 150 60 valid_at_150 (omega arith) (refl, tt) refl refl
