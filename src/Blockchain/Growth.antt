-- ===== src/Blockchain/Growth.antt =====
-- Adding a block, taking the last one away, and reading the header of any block.
use publiq_pp.Base.{
  ℕ, suc, ◌+◌, ◌-◌, ◌%◌, ◌<◌, ◌≡◌, ◌≢◌, refl, sym, ap, ◌∙◌, subst, inl, inr, true, false, some,
  List, [], ◌∷◌, ◌++◌, map, String, arith, get_elem?, get_elem?-snoc, get_elem?-lt, get_elem?-some,
  length-snoc, ◌==◌,
}
use publiq_pp.Base.{length as count}
use native.Mathlib.Decide.{dec_lt}
use publiq_pp.Base.Effects.{ok}
use publiq_pp.Coin.{u64_mod}
use publiq_pp.Loaders.{VectorLoader}
use publiq_pp.Blockchain.{
  Block, SignedBlock, Blockchain, extended, length, at, header_at, header_ex_at, last_header_ex,
  update_state, insert, remove_last_block,
}
use publiq_pp.Blockchain.Links.{
  header_of, Numbered, Numbered-snoc, map-snoc, get_elem?-map, snoc-cases, Linked, Linked-at,
  IsChain,
}

pub snoc_injective :
    (xs ys : List SignedBlock) (a b : SignedBlock) → xs ++ a ∷ [] ≡ ys ++ b ∷ [] → a ≡ b
snoc_injective [] [] a b e = cc
snoc_injective [] (y ∷ []) a b e = absurd (ground arith)
snoc_injective [] (y ∷ z ∷ ys) a b e = absurd (ground arith)
snoc_injective (x ∷ []) [] a b e = absurd (ground arith)
snoc_injective (x ∷ z ∷ xs) [] a b e = absurd (ground arith)
snoc_injective (x ∷ xs) (y ∷ ys) a b e = snoc_injective xs ys a b (ground arith)

pub ends_with :
    (bs : List SignedBlock)
    → bs ≢ []
    → (as' : List SignedBlock) × (b : SignedBlock) × (bs ≡ as' ++ b ∷ [])
ends_with bs ne = elim (snoc-cases bs) [ inl e ↦ absurd (ne e) | inr found ↦ found ]

module _ ⦃L : VectorLoader⦄ (hash : Block → String) where
  open L use {
    contents, push_back, pop_back, size_lem, at_lem, contents-push_back, contents-pop_back,
  }

  update_runs :
      (c : Blockchain) (bs : List SignedBlock) (b : SignedBlock)
      → contents c.blocks ≡ bs ++ b ∷ []
      → update_state hash c
        ≡ (ok tt, record c { last_header = header_of b; last_hash = hash b.block_details })
  unfolding update_state length at
  update_runs c bs b e =
      let n : L.size c.blocks ≡ suc (count bs) =
        size_lem c.blocks ∙ ap count e ∙ length-snoc bs b in
      let place : L.size c.blocks - 1 ≡ count bs = omega (arith, n) in
      let found : L.at c.blocks (L.size c.blocks - 1) ≡ some b =
        ap (L.at c.blocks) place
        ∙ at_lem c.blocks (count bs)
        ∙ ap (λ v. get_elem? v (count bs)) e
        ∙ ground (arith, get_elem?-snoc bs b (count bs)) in
      ground (arith, n, found)

  -- In a chain whose vectors of headers and blocks agree, are numbered from 0 and end with the last
  -- header and hash, inserting a block with the next number returns, adds that block at the end,
  -- and keeps all this.
  pub insert-IsChain :
      (b : SignedBlock) (c : Blockchain)
      → IsChain hash c
      → (header_of b).block_number ≡ length c
      → ((insert hash b c).0 ≡ ok tt)
        × (contents (insert hash b c).1.blocks ≡ contents c.blocks ++ b ∷ [])
        × IsChain hash (insert hash b c).1
  unfolding insert length
  insert-IsChain b c h e =
      let c1 : Blockchain = record c {
        headers = push_back c.headers (header_of b);
        blocks = push_back c.blocks b;
      } in
      let c2 : Blockchain = record c1 {
        last_header = header_of b;
        last_hash = hash b.block_details;
      } in
      let grown = contents-push_back c.blocks b in
      let updated = update_runs c1 (contents c.blocks) b grown in
      let runs : insert hash b c ≡ (ok tt, c2) = ground (arith, e, updated) in
      rw runs (
        refl,
        grown,
        record {
          same =
              contents-push_back c.headers (header_of b)
              ∙ ap (λ r. r ++ header_of b ∷ []) h.same
              ∙ sym (map-snoc (contents c.blocks) b)
              ∙ ap (map header_of) (sym grown);
          numbered = subst (Numbered 0) (sym grown) (
              Numbered-snoc 0 (contents c.blocks) b h.numbered
                (omega (arith, e, size_lem c.blocks)));
          last = λ bs a e'.
              let one = snoc_injective (contents c.blocks) bs b a (sym grown ∙ e') in
              (ap header_of one, ap (λ (x : SignedBlock). hash x.block_details) one);
        },
      )

  -- In a well-formed chain that is not empty, removing the last block after one with the next
  -- number was inserted returns, and gives back the headers, the blocks, the last header and the
  -- last hash.
  pub remove_last_block-insert :
      (b : SignedBlock) (c : Blockchain)
      → IsChain hash c
      → (header_of b).block_number ≡ length c
      → length c ≢ 0
      → (c' : Blockchain) × (remove_last_block hash (insert hash b c).1 ≡ (ok tt, c'))
        × (contents c'.headers ≡ contents c.headers)
        × (contents c'.blocks ≡ contents c.blocks)
        × (c'.last_header ≡ c.last_header)
        × (c'.last_hash ≡ c.last_hash)
  unfolding remove_last_block length
  remove_last_block-insert b c h e some_block =
      let d : Blockchain = (insert hash b c).1 in
      let (done, grown, hd) = insert-IsChain b c h e in
      let (bs, a, ends) =
        ends_with (contents c.blocks) (λ p. some_block (size_lem c.blocks ∙ ap count p)) in
      let heads : contents d.headers ≡ contents c.headers ++ header_of b ∷ [] =
        hd.same
        ∙ ap (map header_of) grown
        ∙ map-snoc (contents c.blocks) b
        ∙ ap (λ r. r ++ header_of b ∷ []) (sym h.same) in
      let d1 : Blockchain = record d { headers = pop_back d.headers; blocks = pop_back d.blocks } in
      let shorter : contents d1.blocks ≡ contents c.blocks =
        contents-pop_back d.blocks (contents c.blocks) b grown in
      let many : L.size d.blocks ≡ suc (suc (count bs)) =
        size_lem d.blocks
        ∙ ap count grown
        ∙ length-snoc (contents c.blocks) b
        ∙ ap (λ r. suc (count r)) ends
        ∙ ap suc (length-snoc bs a) in
      let updated = update_runs d1 bs a (shorter ∙ ends) in
      let was = h.last bs a ends in
      (
        record d1 { last_header = header_of a; last_hash = hash a.block_details },
        ground (arith, many, updated),
        contents-pop_back d.headers (contents c.headers) (header_of b) heads,
        shorter,
        sym was.0,
        sym was.1,
      )

  head_at :
      (c : Blockchain) (i : ℕ) (b : SignedBlock)
      → IsChain hash c
      → get_elem? (contents c.blocks) i ≡ some b
      → header_at i c ≡ ok (header_of b)
  unfolding header_at
  head_at c i b h e =
      let found : L.at c.headers i ≡ some (header_of b) =
        at_lem c.headers i
        ∙ ap (λ v. get_elem? v i) h.same
        ∙ get_elem?-map (contents c.blocks) i b e in
      ground (arith, found)

  pub last_at :
      (c : Blockchain) (i : ℕ) (b : SignedBlock)
      → IsChain hash c
      → get_elem? (contents c.blocks) i ≡ some b
      → suc i ≡ count (contents c.blocks)
      → last_header_ex c ≡ extended (header_of b) (hash b.block_details)
  unfolding last_header_ex
  last_at c i b h e full =
      let some_block : contents c.blocks ≢ [] = λ p. absurd (omega (arith, full ∙ ap count p)) in
      let (bs, a, ends) = ends_with (contents c.blocks) some_block in
      let place : i ≡ count bs = omega (arith, full ∙ ap count ends ∙ length-snoc bs a) in
      let here : get_elem? (contents c.blocks) i ≡ some a =
        ap (λ v. get_elem? v i) ends ∙ ground (arith, place, get_elem?-snoc bs a i) in
      let one : a ≡ b = ground (arith, here, e) in
      let was = h.last bs a ends in ground (arith, was, one)

  -- In a well-formed chain of fewer than 2^64 blocks, in which every block names the hash of the
  -- block before it, the extended header at a block's number is that block's header with the hash
  -- of that block.
  pub header_ex_at_lem :
      (c : Blockchain) (i : ℕ) (b : SignedBlock)
      → IsChain hash c
      → Linked hash (contents c.blocks)
      → length c < u64_mod
      → get_elem? (contents c.blocks) i ≡ some b
      → header_ex_at i c ≡ ok (extended (header_of b) (hash b.block_details))
  unfolding header_ex_at length
  header_ex_at_lem c i b h links small e =
      let bound : i < count (contents c.blocks) = get_elem?-some (contents c.blocks) i b e in
      let n : L.size c.blocks ≡ count (contents c.blocks) = size_lem c.blocks in
      let place : (L.size c.blocks + u64_mod - 1) % u64_mod ≡ count (contents c.blocks) - 1 =
        omega arith in
      elim (dec_lt (suc i) (count (contents c.blocks))) [
        | yes p ↦
            let (next, there) = get_elem?-lt (contents c.blocks) (suc i) p in
            let back : (header_of next).prev_hash ≡ hash b.block_details =
              Linked-at hash (contents c.blocks) i b next links e there in
            let wraps : (i + 1) % u64_mod ≡ suc i = omega arith in
            let apart : (i == (L.size c.blocks + u64_mod - 1) % u64_mod) ≡ false = ground arith in
            rw (apart, wraps)
              (ground (arith, head_at c i b h e, head_at c (suc i) next h there, back))
        | no p ↦
            let last : i ≡ (L.size c.blocks + u64_mod - 1) % u64_mod = omega arith in
            let same : (i == (L.size c.blocks + u64_mod - 1) % u64_mod) ≡ true = ground arith in
            rw same (ap ok (last_at c i b h e (omega arith)))
      ]
