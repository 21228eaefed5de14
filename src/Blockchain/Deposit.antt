-- ===== src/Blockchain/Deposit.antt =====
-- Deposit addresses of src/blockchain/blockchain.service.ts: their derivation, the gas top-up and
-- the sweep to the treasury.
use avasettile.Common.{
  ℕ, String, Option, [], ◌∷◌, ◌++◌, not, ltb, leb, or_default, if◌then◌else◌, ◌==◌,
}
use avasettile.Common.Int.{ℤ, pos, negsuc}
use avasettile.Effect.{
  invalid_derivation_index, derived_signer_mismatch, no_gas, no_token_balance,
  sweep_exceeds_balance, no_avax, invalid_beneficiary, not_configured, rpc_error, ok, err, Action,
  pure, throw, call, or_throw, ◌>>=◌, ◌>>◌, Result,
}
use avasettile.Records.Common.{SettlementAsset}
use avasettile.World.{
  World, Outside, Sweep, SendAnswer, sent, sent_unknown, not_sent, Config, Viem, Handler,
  read_chain, throw_if, require_asset,
}
use avasettile.Blockchain.Rail.{
  ExecutionStatus, TransferExecution, to_transfer_execution, write_contract,
}

pub record SweepExecution : Type 0 where
  pub hash : ℕ
  pub status : ExecutionStatus
  pub from : ℕ
  pub to : ℕ
  pub amount : String
  pub amount_atomic : ℕ

abbrev add_sweep : Sweep → World → World
add_sweep sweep w = record w { sweeps = w.sweeps ++ sweep ∷ [] }

abbrev pub handed_sweep : SendAnswer → Sweep → World → Result ℕ × World
handed_sweep (sent hash) sweep w = (ok hash, add_sweep sweep w)
handed_sweep sent_unknown sweep w = (err rpc_error, add_sweep sweep w)
handed_sweep not_sent sweep w = (err rpc_error, w)

-- `walletClient.writeContract` of the deposit address's signer
abbrev pub write_sweep : Sweep → Action Outside World ℕ
write_sweep sweep env w = handed_sweep env.send sweep w

module _ (config : Config) (viem : Viem) where
  -- `derivePayInAddress`
  unfoldable pub derive_payin_address : ℕ → Handler ℕ
  derive_payin_address index =
      if config.has_mnemonic then pure (viem.derive_address index) else throw not_configured

  abbrev pub valid_index : ℤ → Handler ℕ
  valid_index (pos index) = pure index
  valid_index (negsuc _) = throw invalid_derivation_index

  unfoldable pub sweep_derived_payin : SettlementAsset → ℤ → ℕ → Option ℕ → Handler SweepExecution
  unfolding derive_payin_address to_transfer_execution
  sweep_derived_payin asset derivation_index expected_address amount = do
    index ← valid_index derivation_index
    treasury ← or_throw config.treasury_account not_configured
    from ← derive_payin_address index
    throw_if (not (from == expected_address)) derived_signer_mismatch
    native ← read_chain (λ env. env.native_balance)
    throw_if (native == 0) no_gas
    token ← require_asset config asset
    balance ← read_chain (λ env. env.token_balance)
    let amount_atomic = or_default amount balance
    throw_if (leb amount_atomic 0) no_token_balance
    throw_if (ltb balance amount_atomic) sweep_exceeds_balance
    hash ← call (write_sweep (record { index = index; token = token; amount = amount_atomic }))
    execution ← to_transfer_execution config viem hash
    pure (record {
      hash = execution.hash;
      status = execution.status;
      from = from;
      to = treasury;
      amount = viem.format_units amount_atomic (config.get_asset_config asset).decimals;
      amount_atomic = amount_atomic;
    })

  -- `sendNativeTransfer`; a native transfer has no legs of tokens.
  unfoldable pub send_native_transfer : ℕ → ℕ → Handler TransferExecution
  unfolding to_transfer_execution
  send_native_transfer to amount_wei = do
    throw_if (not (viem.is_address to)) invalid_beneficiary
    or_throw config.treasury_account not_configured
    native ← read_chain (λ env. env.native_balance)
    throw_if (ltb native amount_wei) no_avax
    hash ← call (write_contract [])
    to_transfer_execution config viem hash

-- `waitForTransaction`
unfoldable pub wait_for_transaction : ℕ → Handler (Unit {0})
wait_for_transaction hash = do receipt ← read_chain (λ env. env.receipt); pure tt
