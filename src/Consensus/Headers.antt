-- ===== src/Consensus/Headers.antt =====
-- What the checks of headers establish, of two headers, of a vector of them, and of a chain that grows.
use publiq_pp.Base.{
  ◌&&◌, not, ==_iff, ℕ, zero, suc, ◌+◌, ◌*◌, ◌/◌, ◌%◌, ◌<◌, ◌≡◌, sym, ap, ◌∙◌, ◌↔◌, ◌⊎◌, inl, inr,
  subst, false, some, List, [], ◌∷◌, ◌++◌, String, eq_iff, arith, get_elem?, length as count,
  length-snoc, Bool-cases, ◌≢◌, ◌==◌,
}
use publiq_pp.Base.Effects.{ok}
use publiq_pp.Coin.{u64_mod}
use publiq_pp.Loaders.{VectorLoader}
use publiq_pp.Blockchain.{
  Block, BlockHeaderExtended, SignedBlock, Blockchain, extended, length, insert, last_header_ex,
}
use publiq_pp.Blockchain.Links.{header_of, Numbered, Linked, Linked-snoc, IsChain}
use publiq_pp.Blockchain.Growth.{ends_with, insert-IsChain}
use publiq_pp.Consensus.{block_mine_delay, check_headers, check_pairs, check_headers_vector}

-- One header may follow another.
pub record Follows (next header : BlockHeaderExtended) : Type 0 where
  pub number : next.block_number ≡ (header.block_number + 1) % u64_mod
  pub grows : header.c_sum < next.c_sum
  pub sum : next.c_sum ≡ (next.delta + header.c_sum) % u64_mod
  pub constant :
      (next.c_const ≡ header.c_const)
      ⊎ ((next.c_const ≡ (header.c_const * 2) % u64_mod) ⊎ (next.c_const ≡ header.c_const / 2))
  pub link : next.prev_hash ≡ header.block_hash
  pub time : next.time_signed ≡ header.time_signed + block_mine_delay

one_of :
    (a b c d : ℕ)
    → (not (a == b) && not (a == c) && not (a == d)) ≡ false
    → (a ≡ b) ⊎ ((a ≡ c) ⊎ (a ≡ d))
one_of a b c d e = elim (Bool-cases (a == b)) [
  | inl p ↦ inl ((==_iff a b).0 p)
  | inr p ↦ elim (Bool-cases (a == c)) [
    | inl q ↦ inr (inl ((==_iff a c).0 q))
    | inr q ↦ inr (inr ((==_iff a d).0 (ground (arith, e, p, q))))
  ]
]

one_of_holds :
    (a b c d : ℕ)
    → (a ≡ b) ⊎ ((a ≡ c) ⊎ (a ≡ d))
    → (not (a == b) && not (a == c) && not (a == d)) ≡ false
one_of_holds a b c d (inl e) = ground arith
one_of_holds a b c d (inr (inl e)) = ground arith
one_of_holds a b c d (inr (inr e)) = ground arith

-- `check_headers` finds no error exactly where the header follows the other one.
pub check_headers_iff :
    (next header : BlockHeaderExtended) → (check_headers next header ≡ false) ↔ Follows next header
unfolding check_headers
check_headers_iff next header = (
  λ e. record {
    number = ground arith;
    grows = ground arith;
    sum = ground arith;
    constant = one_of _ _ _ _ (ground arith);
    link = (eq_iff next.prev_hash header.block_hash).0 (ground arith);
    time = ground arith;
  },
  λ h.
      let k = one_of_holds _ _ _ _ h.constant in
      ground (arith, h, eq_iff next.prev_hash header.block_hash),
)

-- A header, and one that stands some places later in a vector with the newest first.
pub record Behind (newest old : BlockHeaderExtended) (places : ℕ) : Type 0 where
  pub number : newest.block_number ≡ (old.block_number + places) % u64_mod
  pub grows : old.c_sum < newest.c_sum
  pub time : newest.time_signed ≡ old.time_signed + places * block_mine_delay

Follows-Behind : (a b : BlockHeaderExtended) → Follows a b → Behind a b 1
Follows-Behind a b h = record { number = h.number; grows = h.grows; time = h.time }

more-Behind :
    (a b c : BlockHeaderExtended) (n : ℕ) → Follows a b → Behind b c n → Behind a c (suc n)
more-Behind a b c n h k = record {
  number = omega (arith, h.number, k.number);
  grows = omega (arith, h.grows, k.grows);
  time = omega (arith, h.time, k.time);
}

pairs-Behind :
    (h : BlockHeaderExtended) (hs : List BlockHeaderExtended)
    → check_pairs h hs ≡ false
    → (i : ℕ) (old : BlockHeaderExtended) → get_elem? hs i ≡ some old
    → Behind h old (suc i)
unfolding check_pairs
pairs-Behind h [] e i old at = absurd (ground arith)
pairs-Behind h (x ∷ xs) e zero old at =
    let k : Follows h x = (check_headers_iff h x).0 (ground arith) in
    let same : x ≡ old = cc in subst (λ o. Behind h o 1) same (Follows-Behind h x k)
pairs-Behind h (x ∷ xs) e (suc i) old at =
    let k : Follows h x = (check_headers_iff h x).0 (ground arith) in
    more-Behind h x old (suc i) k (pairs-Behind x xs (ground arith) i old at)

-- In a vector of headers, the newest first, that `check_headers_vector` accepts, the first header
-- has the number of any later one plus the places between them, modulo 2^64, was signed as many
-- times 600 seconds after it, and has a larger sum of difficulties.
pub check_headers_vector_lem :
    (h : BlockHeaderExtended) (hs : List BlockHeaderExtended)
    → check_headers_vector (h ∷ hs) ≡ ok false
    → (i : ℕ) (old : BlockHeaderExtended) → get_elem? hs i ≡ some old
    → Behind h old (suc i)
unfolding check_headers_vector
check_headers_vector_lem h hs e = pairs-Behind h hs (ground (arith, e))

last_number :
    (n : ℕ) (bs : List SignedBlock) (a : SignedBlock)
    → Numbered n (bs ++ a ∷ [])
    → (header_of a).block_number ≡ n + count bs
last_number n [] a h = omega (arith, h.0)
last_number n (b ∷ bs) a h = omega (arith, last_number (suc n) bs a h.1)

module _ ⦃L : VectorLoader⦄ (hash : Block → String) where
  -- In a well-formed and linked chain that is neither empty nor of 2^64 blocks, a block whose
  -- header passes `check_headers` against the last one is inserted without an exception; the chain
  -- stays well formed and linked, and the sum of its difficulties grows.
  pub checked-insert :
      (c : Blockchain) (b : SignedBlock)
      → IsChain hash c
      → Linked hash (L.contents c.blocks)
      → length c ≢ 0
      → length c < u64_mod
      → check_headers (extended (header_of b) (hash b.block_details)) (last_header_ex c) ≡ false
      → ((insert hash b c).0 ≡ ok tt)
        × IsChain hash (insert hash b c).1
        × Linked hash (L.contents (insert hash b c).1.blocks)
        × (c.last_header.c_sum < (insert hash b c).1.last_header.c_sum)
  unfolding last_header_ex length
  checked-insert c b h links some_block small e =
      let k =
        (check_headers_iff (extended (header_of b) (hash b.block_details)) (last_header_ex c)).0
          e in
      let (bs, a, ends) =
        ends_with (L.contents c.blocks) (λ p. some_block (L.size_lem c.blocks ∙ ap count p)) in
      let was = h.last bs a ends in
      let n : L.size c.blocks ≡ suc (count bs) =
        L.size_lem c.blocks ∙ ap count ends ∙ length-snoc bs a in
      let last : (header_of a).block_number ≡ count bs =
        omega (arith, last_number 0 bs a (subst (Numbered 0) ends h.numbered)) in
      let number : (header_of b).block_number ≡ length c =
        k.number ∙ omega (arith, ap (λ x. x.block_number) was.0, last, n) in
      let (done, grown, h') = insert-IsChain hash b c h number in
      (
        done,
        h',
        subst (Linked hash) (sym (grown ∙ ap (λ r. r ++ b ∷ []) ends))
            (Linked-snoc hash bs a b (subst (Linked hash) ends links) (k.link ∙ was.1)),
        subst (λ x. c.last_header.c_sum < x.c_sum) (sym (h'.last (L.contents c.blocks) b grown).0)
            k.grows,
      )
