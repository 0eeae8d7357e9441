-- ===== src/ActionLog/Run.antt =====
-- Any sequence of calls on the log, against the stack machine.
use publiq_pp.Base.{List, [], ◌∷◌, length as count}
use publiq_pp.Loaders.{VectorLoader}
use publiq_pp.ActionLog.{Logged, ActionLog, insert, length, revert}

-- A call on the log: an action is logged, or the last one that stands is reverted.
pub data Call : Type 0 where
  logs : Logged → Call
  reverts : Call

-- The stack machine: a revert of nothing changes nothing.
abbrev pub machine : List Call → List Logged → List Logged
machine [] s = s
machine (logs a ∷ calls) s = machine calls (a ∷ s)
machine (reverts ∷ calls) [] = machine calls []
machine (reverts ∷ calls) (a ∷ s) = machine calls s

module _ ⦃L : VectorLoader⦄ where
  unfoldable pub run : List Call → ActionLog → ActionLog
  run [] l = l
  run (logs a ∷ calls) l = run calls (insert a l)
  run (reverts ∷ calls) l = run calls (revert l).1
