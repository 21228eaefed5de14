-- ===== src/Blockchain/Rail.antt =====
-- The payout rails of src/blockchain/blockchain.service.ts: a direct ERC-20 transfer, or a call of
-- the SettlementVault, with the checks before it and the wait for the receipt after it. A leg says
-- for which payout it is sent; the source has no such argument.
use avasettile.Common.{
  ℕ, Bool, true, false, Option, none, some, List, [], ◌∷◌, ◌++◌, not, any, map, sum_of, ltb, leb,
  if◌then◌else◌, ◌-◌, ◌&&◌,
}
use avasettile.Effect.{
  invalid_beneficiary, allowance_shortfall, rpc_error, not_configured, Result, ok, err, Action,
  pure, call, or_throw, ◌>>=◌, ◌>>◌,
}
use avasettile.Records.Common.{SettlementAsset}
use avasettile.World.{
  World, Outside, Leg, direct, vault, SendAnswer, sent, sent_unknown, not_sent, Receipt, Config,
  Viem, Handler, read_chain, throw_if, require_asset,
}

pub data ExecutionStatus : Type 0 where
  broadcasted confirmed : ExecutionStatus

pub record TransferExecution : Type 0 where
  pub hash : ℕ
  pub status : ExecutionStatus

pub data ReconciliationStatus : Type 0 where
  pending success reverted : ReconciliationStatus

pub record TransactionReconciliation : Type 0 where
  pub status : ReconciliationStatus
  pub block_number : Option ℕ
  pub confirmations : ℕ
  pub finalized : Bool

abbrev pub add_legs : List Leg → World → World
add_legs legs w = record w { broadcasts = w.broadcasts ++ legs }

abbrev pub handed_over : SendAnswer → List Leg → World → Result ℕ × World
handed_over (sent hash) legs w = (ok hash, add_legs legs w)
handed_over sent_unknown legs w = (err rpc_error, add_legs legs w)
handed_over not_sent legs w = (err rpc_error, w)

-- `walletClient.writeContract`
abbrev pub write_contract : List Leg → Action Outside World ℕ
write_contract legs env w = handed_over env.send legs w

-- `receipt.status === 'success' ? 'confirmed' : 'broadcasted'`
abbrev executed : Bool → ExecutionStatus
executed true = confirmed
executed false = broadcasted

module _ (config : Config) (viem : Viem) where
  unfoldable pub to_transfer_execution : ℕ → Handler TransferExecution
  to_transfer_execution hash =
      if not config.wait_for_receipt
      then pure (record { hash = hash; status = broadcasted })
      else (do
        receipt ← read_chain (λ env. env.receipt)
        pure (record { hash = hash; status = executed receipt.success }))

  unfoldable pub send_erc20_transfer : ℕ → SettlementAsset → ℕ → ℕ → Handler TransferExecution
  send_erc20_transfer payout asset to amount = do
    throw_if (not (viem.is_address to)) invalid_beneficiary
    or_throw config.treasury_account not_configured
    token ← require_asset config asset
    hash ← call (
        write_contract
          (record { payout = payout; rail = direct; token = token; to = to; amount = amount } ∷ []))
    to_transfer_execution hash

  -- `ensureVaultAllowance`, whose arguments the two reads take to the node
  unfoldable pub ensure_vault_allowance : ℕ → Handler (Unit {0})
  ensure_vault_allowance amount = do
    funder ← read_chain (λ env. env.funder)
    allowance ← read_chain (λ env. env.allowance)
    throw_if (ltb allowance amount) allowance_shortfall

  abbrev pub operator_or_treasury : Option ℕ → Handler ℕ
  operator_or_treasury (some operator) = pure operator
  operator_or_treasury none = or_throw config.treasury_account not_configured

  -- `requireVaultOperatorAccount`
  unfoldable pub require_vault_operator : Handler ℕ
  require_vault_operator = operator_or_treasury config.vault_operator

  unfoldable pub vault_payout : ℕ → SettlementAsset → ℕ → ℕ → Handler TransferExecution
  vault_payout payout asset to amount = do
    throw_if (not (viem.is_address to)) invalid_beneficiary
    or_throw config.settlement_vault_address not_configured
    token ← require_asset config asset
    ensure_vault_allowance amount
    require_vault_operator
    hash ← call (
        write_contract
          (record { payout = payout; rail = vault; token = token; to = to; amount = amount } ∷ []))
    to_transfer_execution hash

  -- `recipients` and `amountsAtomic` are the second and third parts of the legs.
  abbrev pub leg_of : ℕ → ℕ × ℕ × ℕ → Leg
  leg_of token (payout, to, amount) = record {
    payout = payout;
    rail = vault;
    token = token;
    to = to;
    amount = amount;
  }

  unfoldable pub vault_payout_batch : SettlementAsset → List (ℕ × ℕ × ℕ) → Handler TransferExecution
  vault_payout_batch asset legs = do
    or_throw config.settlement_vault_address not_configured
    token ← require_asset config asset
    throw_if (any (λ (l : ℕ × ℕ × ℕ). not (viem.is_address l.1)) legs) invalid_beneficiary
    ensure_vault_allowance (sum_of (λ (l : ℕ × ℕ × ℕ). l.2) legs)
    require_vault_operator
    hash ← call (write_contract (map (leg_of token) legs))
    to_transfer_execution hash

  -- `getAssetBalance`, of which the callers use `balanceAtomic`
  unfoldable pub get_asset_balance : SettlementAsset → Handler ℕ
  get_asset_balance asset = do
    or_throw config.treasury_account not_configured
    require_asset config asset
    read_chain (λ env. env.token_balance)

  abbrev pub receipt_status : Bool → ReconciliationStatus
  receipt_status true = success
  receipt_status false = reverted

  -- The receipt against the latest block, as a confirmed transaction counts its confirmations.
  abbrev pub receipt_reconciliation : Receipt → ℕ → TransactionReconciliation
  receipt_reconciliation receipt latest =
      let confirmations =
        if ltb receipt.block_number latest then latest - receipt.block_number else 0 in
      record {
        status = receipt_status receipt.success;
        block_number = some receipt.block_number;
        confirmations = confirmations;
        finalized = receipt.success && leb config.min_confirmations confirmations;
      }

  abbrev pub against_latest : Option Receipt → Handler TransactionReconciliation
  against_latest none =
      pure (record { status = pending; block_number = none; confirmations = 0; finalized = false })
  against_latest (some receipt) = do
    latest ← read_chain (λ env. env.block_number)
    pure (receipt_reconciliation receipt latest)

  -- `reconcileTransaction`; a failed read of the receipt counts as no receipt.
  unfoldable pub reconcile_transaction : ℕ → Handler TransactionReconciliation
  reconcile_transaction hash = do
    receipt ← call (λ env w. (ok env.receipt, w))
    against_latest receipt
