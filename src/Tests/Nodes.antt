-- ===== src/Tests/Nodes.antt =====
-- The nodes and the signed transactions that the other tests run on.
use publiq_pp.Base.{ℕ, [], ◌∷◌, String, arith}
use publiq_pp.Base.Dict.{lookup}
use publiq_pp.Coin.{Coin}
use publiq_pp.Loaders.Assoc.{assoc_loader}
use publiq_pp.State.{State, storage, get_balance}
use publiq_pp.State.Balances.{IsNormal}
use publiq_pp.Documents.{Documents}
use publiq_pp.Node.{Node, SignedTransaction, ActionIds}
use publiq_pp.Node.View.{IsValid}

abbrev pub ids : ActionIds
ids = record {
  address_info = 1;
  letter = 2;
  storage_update_command = 3;
  transfer = 4;
  authorization_update = 5;
  role = 6;
  file = 7;
  content_unit = 8;
  content = 9;
  sponsor_content_unit = 10;
  cancel_sponsor_content_unit = 11;
  service_statistics = 12;
  storage_update = 13;
  block = 14;
}

abbrev pub coins : ℕ → ℕ → Coin
coins w f = record { whole = w; fraction = f }

-- Alice can afford a storage, bob has three coins, carol is a storage, and the node's own coin is in
-- both layers.
abbrev pub bank : State
bank = record {
  accounts = ("alice", coins 20000 50000000) ∷ ("bob", coins 3 0) ∷ ("node", coins 1 0) ∷ [];
  node_accounts = ("node", coins 1 0) ∷ [];
  roles = ("carol", record { node_address = "carol"; node_type = storage }) ∷ [];
  front_key = "node";
}

abbrev pub library : Documents
library = record {
  files = ("f1", record { uri = "f1"; author_addresses = "alice" ∷ [] }) ∷ [];
  units = [];
  storages = [];
}

abbrev pub node : Node
node = record { state = bank; authority_manager = []; documents = library; node_type = storage }

abbrev pub signed_by : String → SignedTransaction
signed_by a = record {
  authorizations = record { address = a; signature = "s" } ∷ [];
  creation = 100;
  expiry = 200;
  fee = coins 0 1000;
  action = "";
}

pub bank-IsNormal : IsNormal bank
unfolding get_balance lookup
bank-IsNormal j = ground arith

pub node-IsValid : IsValid node
unfolding lookup
node-IsValid = record { normal = bank-IsNormal; sound = λ a. ground arith }
