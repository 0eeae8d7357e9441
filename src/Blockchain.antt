-- ===== src/Blockchain.antt =====
-- src/libblockchain/blockchain.cpp: the headers and the blocks of the chain in two vectors of equal
-- length, and the last header and hash kept beside them. The hash of a block's text is the parameter
-- `hash`.
pub mod Links
pub mod Growth
use publiq_pp.Base.{
  ℕ, ◌+◌, ◌-◌, ◌%◌, Bool, true, false, not, ◌&&◌, Option, none, some, List, [], ◌∷◌, String, str_eq,
  if◌then◌else◌, ◌==◌,
}
use publiq_pp.Base.Effects.{
  Error, assertion_failed, out_of_range, logic_error, runtime_error, Result, ok, err, bind, Eff,
  ◌>>=◌, ◌>>◌, pure, throw_if, reads, modify,
}
use publiq_pp.Coin.{Coin, u64_mod}
use publiq_pp.Loaders.{VectorLoader}
use publiq_pp.Node.{Authority, SignedTransaction}

pub record BlockHeader : Type 0 where
  pub block_number : ℕ
  pub delta : ℕ
  pub c_sum : ℕ
  pub c_const : ℕ
  pub prev_hash : String
  pub time_signed : ℕ

pub record BlockHeaderExtended : Type 0 where
  pub block_number : ℕ
  pub delta : ℕ
  pub c_sum : ℕ
  pub c_const : ℕ
  pub prev_hash : String
  pub block_hash : String
  pub time_signed : ℕ

pub data RewardType : Type 0 where
  initial miner author channel storage sponsored_return : RewardType

pub record Reward : Type 0 where
  pub to : String
  pub amount : Coin
  pub reward_type : RewardType

pub record Block : Type 0 where
  pub header : BlockHeader
  pub rewards : List Reward
  pub signed_transactions : List SignedTransaction

pub record SignedBlock : Type 0 where
  pub block_details : Block
  pub authorization : Authority

abbrev pub is_miner_reward : RewardType → Bool
is_miner_reward RewardType.miner = true
is_miner_reward _ = false

-- The loop of `get_miner`: the miner found so far, `""` for none.
find_miner : String → List Reward → Result String
find_miner so_far [] = ok so_far
find_miner so_far (r ∷ rs) =
    let rest = find_miner (if is_miner_reward r.reward_type then r.to else so_far) rs in
    if is_miner_reward r.reward_type && not (str_eq so_far "") then err logic_error else rest

unfoldable pub get_miner : SignedBlock → Result String
unfolding find_miner
get_miner b =
    bind (find_miner "" b.block_details.rewards)
      λ found. ok (if str_eq found "" then b.authorization.address else found)

-- The header and the hash of a block, in one.
abbrev pub extended : BlockHeader → String → BlockHeaderExtended
extended h block_hash = record {
  block_number = h.block_number;
  delta = h.delta;
  c_sum = h.c_sum;
  c_const = h.c_const;
  prev_hash = h.prev_hash;
  block_hash = block_hash;
  time_signed = h.time_signed;
}

abbrev or_throw : {A : Type 0} → Error → Option A → Result A
or_throw e none = err e
or_throw e (some a) = ok a

module _ ⦃L : VectorLoader⦄ where
  open L use {Vec, size, at as elem_at, push_back, pop_back}

  pub record Blockchain : Type 0 where
    pub last_hash : String
    pub last_header : BlockHeader
    pub headers : Vec BlockHeader
    pub blocks : Vec SignedBlock

  unfoldable pub length : Blockchain → ℕ
  length c = size c.blocks

  unfoldable pub at : ℕ → Blockchain → Result SignedBlock
  at number c = or_throw out_of_range (elem_at c.blocks number)

  unfoldable pub header_at : ℕ → Blockchain → Result BlockHeader
  header_at number c = or_throw out_of_range (elem_at c.headers number)

  unfoldable pub last_header_ex : Blockchain → BlockHeaderExtended
  last_header_ex c = extended c.last_header c.last_hash

  unfoldable pub header_ex_at : ℕ → Blockchain → Result BlockHeaderExtended
  unfolding header_at last_header_ex
  header_ex_at number c =
      if number == (size c.blocks + u64_mod - 1) % u64_mod
      then ok (last_header_ex c)
      else bind (header_at number c)
          λ h. bind (header_at ((number + 1) % u64_mod) c) λ next. ok (extended h next.prev_hash)

module _ ⦃L : VectorLoader⦄ (hash : Block → String) where
  open L use {Vec, size, push_back, pop_back}

  unfoldable pub update_state : Eff Blockchain (Unit {0})
  unfolding length at
  update_state = do
    checked ← reads (λ c. if length c == 0 then err assertion_failed else ok tt)
    b ← reads (λ c. at (length c - 1) c)
    modify
        (λ c. record c { last_header = b.block_details.header; last_hash = hash b.block_details })

  unfoldable pub insert : SignedBlock → Eff Blockchain (Unit {0})
  unfolding length update_state
  insert b = do
    checked ← reads (λ c.
        if not (b.block_details.header.block_number == length c) then err runtime_error else ok tt)
    modify (λ c. record c {
      headers = push_back c.headers b.block_details.header;
      blocks = push_back c.blocks b;
    })
    update_state

  unfoldable pub remove_last_block : Eff Blockchain (Unit {0})
  unfolding length update_state
  remove_last_block = do
    checked ← reads (λ c. if length c == 1 then err runtime_error else ok tt)
    modify (λ c. record c { headers = pop_back c.headers; blocks = pop_back c.blocks })
    update_state
