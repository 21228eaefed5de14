-- ===== src/System/Quiet/Chain.antt =====
-- The calls to the chain (src/blockchain/blockchain.service.ts) make progress with the outbox.
use avasettile.Common.{ℕ, zero, suc, ◌+◌, refl, Option, none, some, List, []}
use avasettile.Common.Int.{ℤ, pos, negsuc}
use avasettile.Effect.{call}
use avasettile.Effect.Steps.{Steps-call}
use avasettile.Records.Common.{SettlementAsset}
use avasettile.World.{
  World, Handler, Config, Viem, Leg, Sweep, SendAnswer, sent, sent_unknown, not_sent, LogTopics,
  Receipt, require_asset,
}
use avasettile.Blockchain.Rail.{
  to_transfer_execution, send_erc20_transfer, ensure_vault_allowance, operator_or_treasury,
  require_vault_operator, vault_payout, vault_payout_batch, get_asset_balance, against_latest,
  reconcile_transaction, write_contract, handed_over,
}
use avasettile.Blockchain.Deposit.{
  derive_payin_address, valid_index, sweep_derived_payin, send_native_transfer,
  wait_for_transaction, write_sweep, handed_sweep,
}
use avasettile.Blockchain.Paginate.{chunks_from, paginate_logs}
use avasettile.Blockchain.Logs.{
  find_logs, find_incoming_erc20_transfers, find_payment_router_invoice_payments,
}
use avasettile.Webhooks.Progress.{Progress, Progress-refl, Progress-elsewhere}
use avasettile.System.Rules.{Quiet, control, bind, done, thrown, branch, from_option}

Quiet-write_contract : (legs : List Leg) → Quiet (call (write_contract legs))
Quiet-write_contract legs = Steps-call Progress _ (λ env w. by_answer env.send w)
  where
    by_answer : (a : SendAnswer) (w : World) → Progress w (handed_over a legs w).1
    by_answer (sent hash) w = Progress-elsewhere w _ refl refl refl
    by_answer sent_unknown w = Progress-elsewhere w _ refl refl refl
    by_answer not_sent w = Progress-refl w

Quiet-write_sweep : (sweep : Sweep) → Quiet (call (write_sweep sweep))
Quiet-write_sweep sweep = Steps-call Progress _ (λ env w. by_answer env.send w)
  where
    by_answer : (a : SendAnswer) (w : World) → Progress w (handed_sweep a sweep w).1
    by_answer (sent hash) w = Progress-elsewhere w _ refl refl refl
    by_answer sent_unknown w = Progress-elsewhere w _ refl refl refl
    by_answer not_sent w = Progress-refl w

pub Quiet-require_asset :
    (config : Config) (asset : SettlementAsset) → Quiet (require_asset config asset)
unfolding require_asset
Quiet-require_asset config asset = from_option _ _

module _ {T : Type 0} (fetch_chunk : ℕ → ℕ → Handler (List T))
    (quiet : (from to : ℕ) → Quiet (fetch_chunk from to)) where
  Quiet-chunks_from : (fuel from to : ℕ) → Quiet (chunks_from fetch_chunk fuel from to)
  unfolding chunks_from
  Quiet-chunks_from zero from to = done []
  Quiet-chunks_from (suc fuel) from to = branch _ _ _ (done []) (
      bind _ _ (quiet _ _)
        (λ chunk. bind _ _ (Quiet-chunks_from fuel (from + _) to) (λ rest. done _)))

  Quiet-paginate_logs : (from to : ℕ) → Quiet (paginate_logs fetch_chunk from to)
  unfolding paginate_logs
  Quiet-paginate_logs from to = Quiet-chunks_from _ from to

module _ (config : Config) (viem : Viem) where
  pub Quiet-to_transfer_execution : (hash : ℕ) → Quiet (to_transfer_execution config viem hash)
  unfolding to_transfer_execution
  Quiet-to_transfer_execution hash = search (control) depth 20

  pub Quiet-send_erc20_transfer :
      (payout : ℕ) (asset : SettlementAsset) (to amount : ℕ)
      → Quiet (send_erc20_transfer config viem payout asset to amount)
  unfolding send_erc20_transfer
  Quiet-send_erc20_transfer payout asset to amount =
      search (control, Quiet-write_contract, Quiet-require_asset, Quiet-to_transfer_execution) depth
        40

  Quiet-ensure_vault_allowance : (amount : ℕ) → Quiet (ensure_vault_allowance config viem amount)
  unfolding ensure_vault_allowance
  Quiet-ensure_vault_allowance amount = search (control) depth 20

  Quiet-operator_or_treasury : (o : Option ℕ) → Quiet (operator_or_treasury config viem o)
  Quiet-operator_or_treasury (some operator) = done operator
  Quiet-operator_or_treasury none = from_option _ _

  Quiet-require_vault_operator : Quiet (require_vault_operator config viem)
  unfolding require_vault_operator
  Quiet-require_vault_operator = Quiet-operator_or_treasury config.vault_operator

  pub Quiet-vault_payout :
      (payout : ℕ) (asset : SettlementAsset) (to amount : ℕ)
      → Quiet (vault_payout config viem payout asset to amount)
  unfolding vault_payout
  Quiet-vault_payout payout asset to amount =
      search
        (
          control, Quiet-write_contract, Quiet-require_asset, Quiet-to_transfer_execution,
          Quiet-ensure_vault_allowance, Quiet-require_vault_operator,
        )
        depth 40

  pub Quiet-vault_payout_batch :
      (asset : SettlementAsset) (legs : List (ℕ × ℕ × ℕ))
      → Quiet (vault_payout_batch config viem asset legs)
  unfolding vault_payout_batch
  Quiet-vault_payout_batch asset legs =
      search
        (
          control, Quiet-write_contract, Quiet-require_asset, Quiet-to_transfer_execution,
          Quiet-ensure_vault_allowance, Quiet-require_vault_operator,
        )
        depth 40

  pub Quiet-get_asset_balance :
      (asset : SettlementAsset) → Quiet (get_asset_balance config viem asset)
  unfolding get_asset_balance
  Quiet-get_asset_balance asset = search (control, Quiet-require_asset) depth 20

  Quiet-against_latest : (o : Option Receipt) → Quiet (against_latest config viem o)
  Quiet-against_latest none = done _
  Quiet-against_latest (some receipt) = search (control) depth 20

  pub Quiet-reconcile_transaction : (hash : ℕ) → Quiet (reconcile_transaction config viem hash)
  unfolding reconcile_transaction
  Quiet-reconcile_transaction hash =
      bind _ _ (Steps-call Progress _ (λ env w. Progress-refl w)) Quiet-against_latest

  pub Quiet-derive_payin_address : (index : ℕ) → Quiet (derive_payin_address config viem index)
  unfolding derive_payin_address
  Quiet-derive_payin_address index = search (control) depth 20

  Quiet-valid_index : (index : ℤ) → Quiet (valid_index config viem index)
  Quiet-valid_index (pos index) = done index
  Quiet-valid_index (negsuc n) = thrown _ _

  pub Quiet-sweep_derived_payin :
      (asset : SettlementAsset) (index : ℤ) (expected : ℕ) (amount : Option ℕ)
      → Quiet (sweep_derived_payin config viem asset index expected amount)
  unfolding sweep_derived_payin
  Quiet-sweep_derived_payin asset index expected amount =
      search
        (
          control, Quiet-valid_index, Quiet-derive_payin_address, Quiet-write_sweep,
          Quiet-require_asset, Quiet-to_transfer_execution,
        )
        depth 60

  pub Quiet-send_native_transfer : (to wei : ℕ) → Quiet (send_native_transfer config viem to wei)
  unfolding send_native_transfer
  Quiet-send_native_transfer to wei =
      search (control, Quiet-write_contract, Quiet-to_transfer_execution) depth 40

  Quiet-find_logs :
      (address : ℕ) (topics : LogTopics) (decimals from to : ℕ)
      → Quiet (find_logs config viem address topics decimals from to)
  unfolding find_logs
  Quiet-find_logs address topics decimals from to = search (control, Quiet-paginate_logs) depth 40

  pub Quiet-find_incoming_erc20_transfers :
      (asset : SettlementAsset) (to from_block to_block : ℕ)
      → Quiet (find_incoming_erc20_transfers config viem asset to from_block to_block)
  unfolding find_incoming_erc20_transfers
  Quiet-find_incoming_erc20_transfers asset to from_block to_block =
      search (control, Quiet-require_asset, Quiet-find_logs) depth 40

  pub Quiet-find_payment_router_invoice_payments :
      (asset : SettlementAsset) (invoice_ref amount from_block to_block : ℕ)
      → Quiet (
          find_payment_router_invoice_payments config viem asset invoice_ref amount from_block
            to_block)
  unfolding find_payment_router_invoice_payments
  Quiet-find_payment_router_invoice_payments asset invoice_ref amount from_block to_block =
      search (control, Quiet-require_asset, Quiet-find_logs) depth 40

pub Quiet-wait_for_transaction : (hash : ℕ) → Quiet (wait_for_transaction hash)
unfolding wait_for_transaction
Quiet-wait_for_transaction hash = search (control) depth 20
