-- ===== src/Blockchain/Logs.antt =====
-- The reads of incoming payments of src/blockchain/blockchain.service.ts.
use avasettile.Common.{ℕ, ◌-◌, String, List, [], ◌∷◌, map, ltb, or_default, if◌then◌else◌}
use avasettile.Effect.{not_configured, pure, or_throw, ◌>>=◌}
use avasettile.Records.Common.{SettlementAsset}
use avasettile.Records.PayIn.{PayInTransferRecord}
use avasettile.World.{
  Config, Viem, Handler, read_chain, require_asset, Log, LogTopics, transfer_to, invoice_paid,
}
use avasettile.Blockchain.Paginate.{paginate_logs}

module _ (config : Config) (viem : Viem) where
  -- `log.transactionHash ?? '0x'` and the like; 0 stands for `0x`.
  abbrev transfer_of_log : ℕ → Log → PayInTransferRecord
  transfer_of_log decimals log = record {
    hash = or_default log.transaction_hash 0;
    log_index = log.log_index;
    from = or_default log.from 0;
    to = or_default log.to 0;
    amount = viem.format_units (or_default log.value 0) decimals;
    amount_atomic = or_default log.value 0;
    block_number = or_default log.block_number 0;
  }

  -- A scan from block 0 looks back a fixed number of blocks instead.
  abbrev pub lookback_from : ℕ → ℕ → ℕ
  lookback_from from_block latest_block =
      if ltb 0 from_block
      then from_block
      else if ltb config.payin_lookback_blocks latest_block
      then latest_block - config.payin_lookback_blocks
      else 0

  abbrev pub get_logs : ℕ → LogTopics → ℕ → ℕ → Handler (List Log)
  get_logs address topics from to = read_chain (λ env.
      env.logs (record { address = address; topics = topics; from_block = from; to_block = to }))

  -- What the two reads have in common, with `toBlock` given as both callers do.
  unfoldable pub find_logs : ℕ → LogTopics → ℕ → ℕ → ℕ → Handler (List PayInTransferRecord)
  unfolding paginate_logs
  find_logs address topics decimals from_block to_block =
      let from = lookback_from from_block to_block in
      if ltb to_block from then pure [] else (do
        logs ← paginate_logs (get_logs address topics) from to_block
        pure (map (transfer_of_log decimals) logs))

  unfoldable pub find_incoming_erc20_transfers :
      SettlementAsset → ℕ → ℕ → ℕ → Handler (List PayInTransferRecord)
  unfolding find_logs
  find_incoming_erc20_transfers asset to from_block to_block = do
    token ← require_asset config asset
    find_logs token (transfer_to to) (config.get_asset_config asset).decimals from_block to_block

  -- `routerInvoiceIdFromExternalId`
  abbrev pub router_invoice_id_from_external_id : String → ℕ
  router_invoice_id_from_external_id external_id = viem.keccak_text external_id

  -- `computeRouterInvoiceId`
  abbrev pub compute_router_invoice_id : ℕ → ℕ → ℕ → ℕ
  compute_router_invoice_id invoice_ref token amount =
      viem.keccak_words (invoice_ref ∷ token ∷ amount ∷ [])

  unfoldable pub find_payment_router_invoice_payments :
      SettlementAsset → ℕ → ℕ → ℕ → ℕ → Handler (List PayInTransferRecord)
  unfolding find_logs
  find_payment_router_invoice_payments asset invoice_ref amount from_block to_block = do
    router ← or_throw config.payment_router_address not_configured
    token ← require_asset config asset
    let invoice_id = compute_router_invoice_id invoice_ref token amount
    find_logs router (invoice_paid invoice_id token) (config.get_asset_config asset).decimals
        from_block to_block
