-- ===== src/Escrow/Life/Invariant.antt =====
-- The accounts of an order, through the methods of its contract.
use intents.Prelude.{◌≡◌, none, some}
use intents.Prelude.Outcome.{done}
use intents.TokenId.{TokenId, token_eq}
use intents.Escrow.{Storage}
use intents.Escrow.Life.{ContractStorage, try_as_alive, Life}

alive-done :
    (storage : ContractStorage) (c : Storage) → try_as_alive storage ≡ done c → storage ≡ some c
alive-done none c q = cc
alive-done (some d) c q = cc
