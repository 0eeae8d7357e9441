-- ===== src/Tests/Chains.antt =====
-- A chain of two blocks, its headers, and the adjustment of the difficulty.
use publiq_pp.State.{blockchain}
use publiq_pp.Coin.{ge, gt}
use publiq_pp.Tests.Nodes.{coins}
use publiq_pp.Consensus.{is_miner}
use publiq_pp.Consensus.Sync.{
  no_header, own_sync_info, net_sync_info, own_sync_info_lem, net_sync_info_lem,
}
use publiq_pp.Base.{
  get_elem?, some, false, ℕ, ◌<◌, ◌≤◌, ◌≡◌, refl, ap, ◌⊎◌, ◌↔◌, true, none, List, [], ◌∷◌, ◌++◌,
  String, if◌then◌else◌, ◌==◌, arith,
}
use publiq_pp.Base.Effects.{ok}
use publiq_pp.Loaders.Sequence.{list_loader}
use publiq_pp.Blockchain.{
  Block, BlockHeader, BlockHeaderExtended, SignedBlock, Blockchain, extended, length, insert,
  remove_last_block, header_ex_at, last_header_ex,
}
use publiq_pp.Blockchain.Links.{header_of, Linked, IsChain}
use publiq_pp.Blockchain.Growth.{
  snoc_injective, insert-IsChain, remove_last_block-insert, header_ex_at_lem,
}
use publiq_pp.Consensus.{
  check_headers, check_headers_vector, Checked, check_delta_vector, calc_delta,
}
use publiq_pp.Consensus.Headers.{Behind, check_headers_vector_lem, checked-insert}
use publiq_pp.Consensus.Retarget.{Retargeted, slide, check_delta_vector_lem, check_delta_vector_iff}

abbrev hash : Block → String
hash b = if b.header.block_number == 0 then "h0" else "h1"

abbrev header0 : BlockHeader
header0 = record {
  block_number = 0;
  delta = 10;
  c_sum = 10;
  c_const = 4;
  prev_hash = "";
  time_signed = 1000;
}

abbrev header1 : BlockHeader
header1 = record {
  block_number = 1;
  delta = 5;
  c_sum = 15;
  c_const = 8;
  prev_hash = "h0";
  time_signed = 1600;
}

abbrev block_with : BlockHeader → SignedBlock
block_with h = record {
  block_details = record { header = h; rewards = []; signed_transactions = [] };
  authorization = record { address = "miner"; signature = "s" };
}

abbrev one_block : Blockchain
one_block = record {
  last_hash = "h0";
  last_header = header0;
  headers = header0 ∷ [];
  blocks = block_with header0 ∷ [];
}

abbrev two_blocks : Blockchain
two_blocks = record {
  last_hash = "h1";
  last_header = header1;
  headers = header0 ∷ header1 ∷ [];
  blocks = block_with header0 ∷ block_with header1 ∷ [];
}

one_block-IsChain : IsChain hash one_block
one_block-IsChain = record {
  same = refl;
  numbered = (refl, tt);
  last = λ bs b e.
      let one = snoc_injective [] bs (block_with header0) b e in
      (ap header_of one, ap (λ (x : SignedBlock). hash x.block_details) one);
}

two_blocks-IsChain : IsChain hash two_blocks
two_blocks-IsChain = record {
  same = refl;
  numbered = (refl, (refl, tt));
  last = λ bs b e.
      let one = snoc_injective (block_with header0 ∷ []) bs (block_with header1) b e in
      (ap header_of one, ap (λ (x : SignedBlock). hash x.block_details) one);
}

grows : insert hash (block_with header1) one_block ≡ (ok tt, two_blocks)
unfolding insert
grows = refl

shrinks : remove_last_block hash two_blocks ≡ (ok tt, one_block)
unfolding remove_last_block
shrinks = refl

insert-IsChain_example :
    ((insert hash (block_with header1) one_block).0 ≡ ok tt)
    × ((insert hash (block_with header1) one_block).1.blocks
        ≡ (block_with header0 ∷ []) ++ block_with header1 ∷ [])
    × IsChain hash (insert hash (block_with header1) one_block).1
unfolding length
insert-IsChain_example = insert-IsChain hash (block_with header1) one_block one_block-IsChain refl

remove_last_block-insert_example :
    (c' : Blockchain) × (remove_last_block hash (insert hash (block_with header1) one_block).1
      ≡ (ok tt, c'))
    × (c'.headers ≡ header0 ∷ [])
    × (c'.blocks ≡ block_with header0 ∷ [])
    × (c'.last_header ≡ header0)
    × (c'.last_hash ≡ "h0")
unfolding length
remove_last_block-insert_example =
    remove_last_block-insert hash (block_with header1) one_block one_block-IsChain refl
      (λ e. absurd (omega (arith, e)))

header_ex_at_lem_example : header_ex_at 0 two_blocks ≡ ok (extended header0 "h0")
unfolding length
header_ex_at_lem_example =
    header_ex_at_lem hash two_blocks 0 (block_with header0) two_blocks-IsChain (refl, tt)
      (omega arith) refl

checked-insert_example :
    ((insert hash (block_with header1) one_block).0 ≡ ok tt)
    × IsChain hash (insert hash (block_with header1) one_block).1
    × Linked hash (insert hash (block_with header1) one_block).1.blocks
    × (10 < (insert hash (block_with header1) one_block).1.last_header.c_sum)
unfolding length check_headers last_header_ex
checked-insert_example =
    checked-insert hash one_block (block_with header1) one_block-IsChain tt
      (λ e. absurd (omega (arith, e))) (omega arith) refl

abbrev oldest : BlockHeaderExtended
oldest = extended header0 "h0"

abbrev newer : BlockHeaderExtended
newer = extended header1 "h1"

abbrev newest : BlockHeaderExtended
newest = record newer {
  block_number = 2;
  c_sum = 20;
  prev_hash = "h1";
  block_hash = "h2";
  time_signed = 2200;
}

check_headers_vector_lem_example : Behind newest oldest 2
unfolding check_headers_vector
check_headers_vector_lem_example =
    check_headers_vector_lem newest (newer ∷ oldest ∷ []) refl 1 oldest refl

too_soon : check_headers (record newer { time_signed = 1599 }) oldest ≡ true
unfolding check_headers
too_soon = refl

-- Three heavy entries double the constant.
abbrev entries : List (ℕ × ℕ)
entries = (5000000000, 3) ∷ (4000000000, 3) ∷ (4000000000, 3) ∷ (1, 6) ∷ []

doubles : check_delta_vector entries ≡ ok (record { c_const = 6; error = none })
unfolding check_delta_vector
doubles = refl

check_delta_vector_lem_example :
    check_delta_vector entries
    ≡ ok (slide 2 3 (5000000000, 3) (4000000000, 3) (4000000000, 3) ((1, 6) ∷ []))
check_delta_vector_lem_example =
    check_delta_vector_lem (5000000000, 3) (4000000000, 3) (4000000000, 3) ((1, 6) ∷ [])
      (omega arith, (omega arith, (omega arith, (omega arith, tt))))

check_delta_vector_iff_example :
    (checked : Checked) × (check_delta_vector entries ≡ ok checked)
    × ((checked.error ≡ none)
        ↔ Retargeted (5000000000, 3) (4000000000, 3) (4000000000, 3) ((1, 6) ∷ []))
check_delta_vector_iff_example =
    check_delta_vector_iff (5000000000, 3) (4000000000, 3) (4000000000, 3) ((1, 6) ∷ [])
      (omega arith, (omega arith, (omega arith, (omega arith, tt))))

-- Any hash is nine away from the node's key.
abbrev nine : String → ℕ
nine h = 9

own_sync_info_lem_example :
    (h : BlockHeaderExtended) × (own_sync_info nine blockchain (coins 10 0) (coins 1 0) one_block
      ≡ ok h)
    × (check_headers h (last_header_ex one_block) ≡ false)
unfolding is_miner calc_delta last_header_ex ge gt
own_sync_info_lem_example =
    own_sync_info_lem nine blockchain (coins 10 0) (coins 1 0) one_block 1073741824 refl refl
      (omega arith) (omega arith)

net_sync_info_lem_example :
    ((net_sync_info (newest ∷ newer ∷ []) one_block ≡ no_header)
      ⊎ ((net_sync_info (newest ∷ newer ∷ []) one_block).block_number ≡ 1))
    × ((i : ℕ) (h : BlockHeaderExtended)
        → get_elem? (newest ∷ newer ∷ []) i ≡ some h
        → h.block_number ≡ 1
        → h.c_sum ≤ (net_sync_info (newest ∷ newer ∷ []) one_block).c_sum)
net_sync_info_lem_example = net_sync_info_lem (newest ∷ newer ∷ []) one_block
