-- ===== src/Tests/Logs.antt =====
-- A log in which two actions are logged and one is reverted.
use publiq_pp.Base.{◌-◌, ◌^◌, ◌≡◌, refl, true, List, [], ◌∷◌, String}
use publiq_pp.Loaders.Sequence.{list_loader}
use publiq_pp.ActionLog.{Logged, transaction_logged, ActionLog, open_log, insert, revert}
use publiq_pp.ActionLog.Stack.{pending}
use publiq_pp.ActionLog.Standing.{standing}
use publiq_pp.ActionLog.Run.{Call, logs, reverts, run}
use publiq_pp.Tests.Nodes.{coins}

abbrev action : String → Logged
action name = transaction_logged (record {
  fee = coins 0 1;
  action = name;
  transaction_hash = name;
  transaction_size = 10;
  time_signed = 100;
})

abbrev empty_log : ActionLog
empty_log = record { actions = []; enabled = true; revert_index = 2 ^ 64 - 1 }

opens : open_log [] true ≡ empty_log
unfolding open_log
opens = refl

abbrev calls : List Call
calls = logs (action "a") ∷ logs (action "b") ∷ reverts ∷ reverts ∷ reverts ∷ logs (action "c") ∷ []

stands : pending (run calls empty_log) ≡ action "c" ∷ []
unfolding run pending insert revert standing
stands = refl
