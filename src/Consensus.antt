-- ===== src/Consensus.antt =====
-- The rules by which blocks follow one another: `check_headers` and `check_delta_vector` of
-- src/libblockchain/communication_p2p.cpp, and `calc_delta` and `is_miner` of node_internals.hpp.
pub mod Headers
pub mod Retarget
pub mod Sync
use publiq_pp.Base.{
  ℕ, zero, suc, ◌+◌, ◌-◌, ◌*◌, ◌/◌, ◌%◌, Bool, true, false, not, ◌&&◌, ◌||◌, Option, none, some,
  List, [], ◌∷◌, String, str_eq, if◌then◌else◌, ◌==◌, ltb, leb, length, is_empty, back, get_elem?,
}
use publiq_pp.Base.Effects.{logic_error, runtime_error, out_of_range, Result, ok, err, bind}
use publiq_pp.Coin.{Coin, u64_mod, ge}
use publiq_pp.State.{NodeType, blockchain, same_type}
use publiq_pp.Blockchain.{BlockHeaderExtended}

-- `BLOCK_MINE_DELAY` of common.hpp
abbrev pub block_mine_delay : ℕ
block_mine_delay = 600

-- true means an error, as in the source
unfoldable pub check_headers : BlockHeaderExtended → BlockHeaderExtended → Bool
check_headers next header =
    not (next.block_number == (header.block_number + 1) % u64_mod)
    || leb next.c_sum header.c_sum
    || not (next.c_sum == (next.delta + header.c_sum) % u64_mod)
    || (not (next.c_const == header.c_const)
        && not (next.c_const == (header.c_const * 2) % u64_mod)
        && not (next.c_const == header.c_const / 2))
    || not (str_eq next.prev_hash header.block_hash)
    || ltb next.time_signed header.time_signed
    || not (next.time_signed - header.time_signed == block_mine_delay)

-- `session_action_header::check_headers_vector` of sessions.cpp, where `it` is at the head of the list:
-- a vector with the newest header first. The source does not expect an empty one.
check_pairs : BlockHeaderExtended → List BlockHeaderExtended → Bool
unfolding check_headers
check_pairs next [] = false
check_pairs next (header ∷ headers) =
    let rest = check_pairs header headers in if check_headers next header then true else rest

unfoldable pub check_headers_vector : List BlockHeaderExtended → Result Bool
unfolding check_pairs
check_headers_vector [] = err out_of_range
check_headers_vector (h ∷ hs) = ok (check_pairs h hs)

-- `DELTA_STEP`, `DELTA_UP`, `DELTA_DOWN`, `DELTA_MAX` and `DIST_MAX` of common.hpp
abbrev pub delta_step : ℕ
delta_step = 3

abbrev pub delta_up : ℕ
delta_up = 4000000000

abbrev pub delta_down : ℕ
delta_down = 1000000000

abbrev pub delta_max : ℕ
delta_max = 7000000000

abbrev pub dist_max : ℕ
dist_max = 4294967296

-- How the inner loop over one window ends.
pub data Scan : Type 0 where
  -- the index and the value of a constant that is not the expected one
  mismatch : ℕ → ℕ → Scan
  -- `check_c_const_at_index` and `delta_sum`
  summed : ℕ → ℕ → Scan

-- The loop over `index2`: `deltas` are the elements from there on, the first number is what is left
-- of the window.
unfoldable pub scan : ℕ → ℕ → List (ℕ × ℕ) → ℕ → ℕ → ℕ → Scan
scan zero index2 deltas expected check_at sum = summed check_at sum
scan (suc n) index2 [] expected check_at sum = summed check_at sum
scan (suc n) index2 ((delta, c_const) ∷ deltas) expected check_at sum =
    let rest =
      scan n (suc index2) deltas expected (if check_at == index2 then suc check_at else check_at)
        ((sum + delta) % u64_mod) in
    if check_at == index2 && not (c_const == expected) then mismatch index2 c_const else rest

-- The constant after a window with the sum; a window that is too short changes nothing.
unfoldable pub adjust : Bool → ℕ → ℕ → ℕ
adjust have_enough_steps sum expected =
    if have_enough_steps && ltb (delta_step * delta_up) sum
    then (expected * 2) % u64_mod
    else if have_enough_steps && ltb sum (delta_step * delta_down) && ltb 1 expected
    then expected / 2
    else expected

-- The answer, and the index, the actual and the expected value of an error.
pub record Checked : Type 0 where
  pub c_const : ℕ
  pub error : Option (ℕ × ℕ × ℕ)

abbrev drop_first : List (ℕ × ℕ) → List (ℕ × ℕ)
drop_first [] = []
drop_first (x ∷ xs) = xs

-- The loop over `index`: the first number is the count of rounds left, `deltas` the elements from
-- `index` on.
unfoldable pub windows : ℕ → ℕ → List (ℕ × ℕ) → ℕ → ℕ → Checked
unfolding scan adjust
windows zero index deltas expected check_at = record { c_const = expected; error = none }
windows (suc n) index deltas expected check_at =
    elim (scan delta_step index deltas expected check_at 0) [
      | mismatch at actual ↦ record { c_const = expected; error = some (at, actual, expected) }
      | summed check_at' sum ↦
          windows n (suc index) (drop_first deltas)
            (adjust (leb delta_step (length deltas)) sum expected) check_at'
    ]

abbrev const_at : ℕ → List (ℕ × ℕ) → ℕ → ℕ
const_at i deltas d = elim (get_elem? deltas i) [ none ↦ d | some x ↦ x.1 ]

-- `delta_vector[DELTA_STEP - 1]`, or the last of fewer
abbrev pub first_expected : ℕ × ℕ → List (ℕ × ℕ) → ℕ
first_expected x xs =
    if leb delta_step (length (x ∷ xs)) then const_at (delta_step - 1) (x ∷ xs) 0 else (back x xs).1

unfoldable pub check_delta_vector : List (ℕ × ℕ) → Result Checked
unfolding windows
check_delta_vector [] = err logic_error
check_delta_vector (x ∷ xs) = ok (
    windows (if leb delta_step (length (x ∷ xs)) then length (x ∷ xs) - delta_step + 1 else 1) 0
      (x ∷ xs) (first_expected x xs) delta_step)

-- `dist` is `meshpp::distance` of the hashes. A zero divisor is undefined in the source.
unfoldable pub calc_delta : ℕ → ℕ → ℕ → Result ℕ
calc_delta dist amount cons_const =
    let divisor = ((dist + 1) % u64_mod * cons_const) % u64_mod in
    if divisor == 0
    then err runtime_error
    else let delta = (amount * dist_max) % u64_mod / divisor in
      ok (if ltb delta_max delta then delta_max else delta)

unfoldable pub is_miner : NodeType → Coin → Coin → Bool
is_miner node_type balance mine_amount_threshold =
    same_type node_type blockchain && ge balance mine_amount_threshold
