-- ===== src/Settlements/Registry.antt =====
-- The PrivateSettlementRegistry calls of src/blockchain/blockchain.service.ts.
use avasettile.Common.{ℕ, String, [], ◌∷◌, ◌++◌}
use avasettile.Effect.{
  not_configured, rpc_error, Result, ok, err, Action, call, or_throw, ◌>>=◌, ◌>>◌,
}
use avasettile.Records.Settlement.{
  PrivateSettlementRecord, Publication, record_commitment, reveal_preimage,
}
use avasettile.World.{
  World, Outside, SendAnswer, sent, sent_unknown, not_sent, Config, Viem, Handler,
}
use avasettile.Blockchain.Rail.{TransferExecution, to_transfer_execution}

-- `settlementRefFromExternalId`
abbrev pub settlement_ref_from_external_id : Viem → String → ℕ
settlement_ref_from_external_id viem external_id = viem.keccak_text external_id

-- `computeSettlementId`
abbrev pub compute_settlement_id : Viem → ℕ → ℕ
compute_settlement_id viem settlement_ref = viem.keccak_words (settlement_ref ∷ [])

-- `computeSettlementCommitment`
abbrev pub compute_settlement_commitment : Viem → (amount asset counterparty nonce : ℕ) → ℕ
compute_settlement_commitment viem amount asset counterparty nonce =
    viem.keccak_words (amount ∷ asset ∷ counterparty ∷ nonce ∷ [])

abbrev pub publish : Publication → World → World
publish p w = record w { publications = w.publications ++ p ∷ [] }

abbrev pub handed_publication : SendAnswer → Publication → World → Result ℕ × World
handed_publication (sent hash) p w = (ok hash, publish p w)
handed_publication sent_unknown p w = (err rpc_error, publish p w)
handed_publication not_sent p w = (err rpc_error, w)

-- `walletClient.writeContract` on the registry
abbrev pub write_registry : Publication → Action Outside World ℕ
write_registry p env w = handed_publication env.send p w

module _ (config : Config) (viem : Viem) where
  -- `recordPrivateSettlement`
  unfoldable pub record_private_settlement :
      (settlement_ref commitment : ℕ) → Handler TransferExecution
  unfolding to_transfer_execution
  record_private_settlement settlement_ref commitment = do
    or_throw config.private_settlement_registry_address not_configured
    or_throw config.registrar_account not_configured
    hash ← call (write_registry (record_commitment settlement_ref commitment))
    to_transfer_execution config viem hash

  -- `revealPrivateSettlement`, whose input is read off the row
  unfoldable pub reveal_private_settlement : PrivateSettlementRecord → Handler TransferExecution
  unfolding to_transfer_execution
  reveal_private_settlement s = do
    or_throw config.private_settlement_registry_address not_configured
    or_throw config.auditor_account not_configured
    hash ← call (
        write_registry (
          reveal_preimage s.commitment s.settlement_id s.amount_atomic s.token_address
            s.counterparty s.nonce))
    to_transfer_execution config viem hash
