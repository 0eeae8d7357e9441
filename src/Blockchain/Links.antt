-- ===== src/Blockchain/Links.antt =====
-- The chain as one list of blocks: what the two vectors hold, and how the blocks point back.
use publiq_pp.Base.{
  ℕ, suc, zero, ◌+◌, ◌≡◌, refl, ap, ◌⊎◌, inl, inr, some, List, [], ◌∷◌, ◌++◌, map, String, arith,
  get_elem?,
}
use publiq_pp.Base.{length as count}
use publiq_pp.Loaders.{VectorLoader}
use publiq_pp.Blockchain.{Block, BlockHeader, SignedBlock, Blockchain}

abbrev pub header_of : SignedBlock → BlockHeader
header_of b = b.block_details.header

-- The blocks bear the numbers from `n` on.
abbrev pub Numbered : ℕ → List SignedBlock → Type 0
Numbered n [] = Unit {0}
Numbered n (b ∷ bs) = ((header_of b).block_number ≡ n) × Numbered (suc n) bs

pub Numbered-snoc :
    (n : ℕ) (bs : List SignedBlock) (b : SignedBlock)
    → Numbered n bs
    → (header_of b).block_number ≡ n + count bs
    → Numbered n (bs ++ b ∷ [])
Numbered-snoc n [] b h e = (omega (arith, e), tt)
Numbered-snoc n (a ∷ bs) b h e = (h.0, Numbered-snoc (suc n) bs b h.1 (omega (arith, e)))

pub map-snoc :
    (bs : List SignedBlock) (b : SignedBlock)
    → map header_of (bs ++ b ∷ []) ≡ map header_of bs ++ header_of b ∷ []
map-snoc [] b = refl
map-snoc (a ∷ bs) b = ap (λ r. header_of a ∷ r) (map-snoc bs b)

pub get_elem?-map :
    (bs : List SignedBlock) (i : ℕ) (b : SignedBlock)
    → get_elem? bs i ≡ some b
    → get_elem? (map header_of bs) i ≡ some (header_of b)
get_elem?-map [] i b e = absurd (ground arith)
get_elem?-map (a ∷ bs) zero b e = cc
get_elem?-map (a ∷ bs) (suc i) b e = get_elem?-map bs i b e

pub snoc-cases :
    (bs : List SignedBlock)
    → (bs ≡ []) ⊎ ((as' : List SignedBlock) × (b : SignedBlock) × (bs ≡ as' ++ b ∷ []))
snoc-cases [] = inl refl
snoc-cases (a ∷ bs) = elim (snoc-cases bs) [
  | inl e ↦ inr ([], a, ap (λ r. a ∷ r) e)
  | inr (as', b, e) ↦ inr (a ∷ as', b, ap (λ r. a ∷ r) e)
]

module _ ⦃L : VectorLoader⦄ (hash : Block → String) where
  open L use {contents, size_lem, at_lem, contents-push_back, contents-pop_back}

  -- Every block names the hash of the block before it.
  abbrev pub Linked : List SignedBlock → Type 0
  Linked [] = Unit {0}
  Linked (a ∷ []) = Unit {0}
  Linked (a ∷ b ∷ bs) = ((header_of b).prev_hash ≡ hash a.block_details) × Linked (b ∷ bs)

  pub Linked-at :
      (bs : List SignedBlock) (i : ℕ) (a b : SignedBlock)
      → Linked bs
      → get_elem? bs i ≡ some a
      → get_elem? bs (suc i) ≡ some b
      → (header_of b).prev_hash ≡ hash a.block_details
  Linked-at [] i a b h e f = absurd (ground arith)
  Linked-at (x ∷ []) i a b h e f = absurd (ground arith)
  Linked-at (x ∷ y ∷ bs) zero a b h e f = cc
  Linked-at (x ∷ y ∷ bs) (suc i) a b h e f = Linked-at (y ∷ bs) i a b h.1 e f

  pub Linked-snoc :
      (bs : List SignedBlock) (a b : SignedBlock)
      → Linked (bs ++ a ∷ [])
      → (header_of b).prev_hash ≡ hash a.block_details
      → Linked ((bs ++ a ∷ []) ++ b ∷ [])
  Linked-snoc [] a b h e = (e, tt)
  Linked-snoc (x ∷ []) a b h e = (h.0, (e, tt))
  Linked-snoc (x ∷ y ∷ bs) a b h e = (h.0, Linked-snoc (y ∷ bs) a b h.1 e)

  -- The headers are those of the blocks, which are numbered from 0, and the last header and hash are
  -- those of the last block.
  pub record IsChain (c : Blockchain) : Type 0 where
    pub same : contents c.headers ≡ map header_of (contents c.blocks)
    pub numbered : Numbered 0 (contents c.blocks)
    pub last :
        (bs : List SignedBlock) (b : SignedBlock)
        → contents c.blocks ≡ bs ++ b ∷ []
        → (c.last_header ≡ header_of b) × (c.last_hash ≡ hash b.block_details)
