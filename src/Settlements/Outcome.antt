-- ===== src/Settlements/Outcome.antt =====
-- `record` and `reveal` of src/settlements/settlements.service.ts, run alone.
use avasettile.Common.{
  ℕ, suc, ◌≡◌, ◌∙◌, refl, ap, true, false, Option, none, some, List, [], ◌∷◌, ◌++◌, arith, any,
}
use avasettile.Common.Table.{find_row, delete_row, update_row, find_row-append, find_row-update_row}
use avasettile.Effect.{rpc_error, database_error, ok, err}
use avasettile.Effect.Sequential.{run, traces, run-trace}
use avasettile.Records.Common.{RequestContext}
use avasettile.Records.Settlement.{
  PrivateSettlementRecord, settlement_key, Publication, record_commitment, reveal_preimage,
}
use avasettile.World.{World, Outside, answered, refused, sent, not_sent, Config, Viem}
use avasettile.Common.Int.{pos}
use avasettile.Payouts.Ledger.{in_scope}
use avasettile.Records.Settlement.{no_patch, apply_patch}
use avasettile.World.{record_event, require_asset, parse_amount, parse_atomic_amount}
use avasettile.Settlements.Repository.{
  update_settlement, create_or_get_existing, insert_settlement, same_settlement, find_by_id,
}
use avasettile.Settlements.Service.{
  CreateSettlement, new_settlement, publish_or_replay, record_settlement, reveal_settlement,
  is_revealed, require_settlement,
}

module _ (config : Config) (viem : Viem) (ctx : RequestContext) (outside : ℕ → Outside)
    (registry registrar : ℕ)
    (has_registry : config.private_settlement_registry_address ≡ some registry)
    (has_registrar : config.registrar_account ≡ some registrar) where
  -- Where the registry and the registrar key are configured, the transaction of a settlement that was
  -- just claimed is not sent, and the next statement is answered, `record` throws the chain's error and
  -- has changed nothing but that the claimed row is deleted again.
  pub publish_or_replay-released :
      (s : PrivateSettlementRecord) (n : ℕ) (w : World)
      → (outside n).send ≡ not_sent
      → (outside (suc n)).database ≡ answered
      → run outside n (publish_or_replay config viem ctx (s, false)) w
        ≡ (err rpc_error, record w { settlements = delete_row settlement_key s.id w.settlements })
  unfolding publish_or_replay
  publish_or_replay-released s n w no_send up =
      rw (run-trace outside n (publish_or_replay config viem ctx (s, false)) w)
        (simp (traces, has_registry, has_registrar, no_send, up) refl)

  -- Where the registry and the registrar key are configured, receipts are not awaited, the transaction
  -- of a settlement that was just claimed is sent, the update of its row is refused and the next
  -- statement is answered, `record` throws the database's error and deletes the row, whose nonce was
  -- the only copy, while its commitment has been handed to the registry.
  pub publish_or_replay-lost :
      (s : PrivateSettlementRecord) (hash n : ℕ) (w : World)
      → config.wait_for_receipt ≡ false
      → (outside n).send ≡ sent hash
      → (outside (suc n)).database ≡ refused
      → (outside (suc (suc n))).database ≡ answered
      → run outside n (publish_or_replay config viem ctx (s, false)) w ≡ (
        err database_error,
        record w {
          publications = w.publications ++ record_commitment s.settlement_ref s.commitment ∷ [];
          settlements = delete_row settlement_key s.id w.settlements;
        },
      )
  unfolding publish_or_replay update_settlement
  publish_or_replay-lost s hash n w no_wait send down up =
      rw (run-trace outside n (publish_or_replay config viem ctx (s, false)) w)
        (simp (traces, has_registry, has_registrar, no_wait, send, down, up) refl)

in_scope_self : (c : Option ℕ) → in_scope c c ≡ true
in_scope_self none = refl
in_scope_self (some c) = ground arith

-- `record` and then `reveal` by the same client, with nothing else in between.
module _ (config : Config) (viem : Viem) (ctx : RequestContext) (first second : ℕ → Outside)
    (first_up : (n : ℕ) → (first n).database ≡ answered)
    (second_up : (n : ℕ) → (second n).database ≡ answered) (registry registrar auditor token : ℕ)
    (has_registry : config.private_settlement_registry_address ≡ some registry)
    (has_registrar : config.registrar_account ≡ some registrar)
    (has_auditor : config.auditor_account ≡ some auditor)
    (no_wait : config.wait_for_receipt ≡ false) where
  abbrev pub submitted : CreateSettlement → ℕ → PrivateSettlementRecord
  submitted dto amount =
      new_settlement config viem ctx dto (first 1).uuid (first 2).now token amount
        (first 0).random_bytes

  -- Neither the client's external id nor the new id is taken.
  abbrev pub IsNew : PrivateSettlementRecord → World → Type 0
  IsNew s w =
      (any (same_settlement s.client_id s.external_id) w.settlements ≡ false)
      × (find_row settlement_key s.id w.settlements ≡ none)

  insert_settlement-IsNew :
      (s : PrivateSettlementRecord) (w : World)
      → IsNew s w
      → insert_settlement s w ≡ (ok (some s), record w { settlements = w.settlements ++ s ∷ [] })
  insert_settlement-IsNew s w (no_conflict, free) = rw (no_conflict, free) refl

  find_row-IsNew :
      (s : PrivateSettlementRecord) (w : World)
      → IsNew s w
      → find_row settlement_key s.id (w.settlements ++ s ∷ []) ≡ some s
  find_row-IsNew s w (no_conflict, free) =
      ground (arith, find_row-append settlement_key s.id w.settlements s, free)

  record_settlement-run :
      (dto : CreateSettlement) (amount hash : ℕ) (w : World)
      → (config.get_asset_config dto.asset).address ≡ some token
      → viem.parse_units dto.amount (config.get_asset_config dto.asset).decimals
        ≡ some (pos (suc amount))
      → IsNew (submitted dto (suc amount)) w
      → (first 4).send ≡ sent hash
      → let w' = (run first 0 (record_settlement config viem ctx dto) w).1 in
        let s = submitted dto (suc amount) in
        (w'.publications ≡ w.publications ++ record_commitment s.settlement_ref s.commitment ∷ [])
        × (w'.settlements
            ≡ update_row settlement_key s.id
                (apply_patch
                  (first 5).now
                  (record no_patch { transaction_hash = some (some hash) }))
                (w.settlements ++ s ∷ []))
  unfolding record_settlement update_settlement create_or_get_existing record_event require_asset
      parse_amount parse_atomic_amount
  record_settlement-run dto amount hash w address parsed new send =
      let s = submitted dto (suc amount) in
      let inserted = insert_settlement-IsNew s w new in
      let found = find_row-IsNew s w new in
      rw (run-trace first 0 (record_settlement config viem ctx dto) w) (
        simp
          (traces, has_registry, has_registrar, no_wait, first_up, address, parsed, inserted, send)
          (rw found (refl, refl)))

  reveal_settlement-run :
      (s : PrivateSettlementRecord) (hash : ℕ) (w : World)
      → find_row settlement_key s.id w.settlements ≡ some s
      → s.client_id ≡ ctx.client_id
      → is_revealed s.status ≡ false
      → (second 1).send ≡ sent hash
      → (run second 0 (reveal_settlement config viem ctx s.id) w).1.publications
        ≡ w.publications
          ++ reveal_preimage s.commitment s.settlement_id s.amount_atomic s.token_address
              s.counterparty s.nonce
            ∷ []
  unfolding reveal_settlement update_settlement record_event require_settlement find_by_id
  reveal_settlement-run s hash w found same_client hidden send =
      let scope : in_scope ctx.client_id s.client_id ≡ true =
        ap (in_scope ctx.client_id) same_client ∙ in_scope_self ctx.client_id in
      rw (run-trace second 0 (reveal_settlement config viem ctx s.id) w) (
        simp (traces, has_registry, has_auditor, no_wait, second_up, found, scope, hidden, send)
          refl)

  -- Where the registry and its two keys are configured, receipts are not awaited, the database answers
  -- every call, the token is configured, the amount parses to a positive number, neither the new id nor
  -- the client's external id is taken, and both transactions are sent: `record` and then `reveal` of the
  -- new id by the same client publish, in this order and nothing else, the commitment of amount, token,
  -- counterparty and nonce under the hash of the external id, and exactly these four, which hash to that
  -- commitment, under the settlement id that the registry derives.
  pub record-reveal :
      (dto : CreateSettlement) (amount hash hash' : ℕ) (w : World)
      → (config.get_asset_config dto.asset).address ≡ some token
      → viem.parse_units dto.amount (config.get_asset_config dto.asset).decimals
        ≡ some (pos (suc amount))
      → IsNew (submitted dto (suc amount)) w
      → (first 4).send ≡ sent hash
      → (second 1).send ≡ sent hash'
      → let nonce = (first 0).random_bytes in
        let ref = viem.keccak_text dto.external_id in
        let commitment = viem.keccak_words (suc amount ∷ token ∷ dto.counterparty ∷ nonce ∷ []) in
        let w' = (run first 0 (record_settlement config viem ctx dto) w).1 in
        (run second 0 (reveal_settlement config viem ctx (first 1).uuid) w').1.publications
        ≡ (w.publications ++ record_commitment ref commitment ∷ [])
          ++ reveal_preimage commitment
              (viem.keccak_words (ref ∷ []))
              (suc amount)
              token
              dto.counterparty
              nonce
            ∷ []
  record-reveal dto amount hash hash' w address parsed new send send' =
      let s = submitted dto (suc amount) in
      let patch =
        apply_patch (first 5).now (record no_patch { transaction_hash = some (some hash) }) in
      let w' = (run first 0 (record_settlement config viem ctx dto) w).1 in
      let (published, rows) = record_settlement-run dto amount hash w address parsed new send in
      let stored : find_row settlement_key s.id w'.settlements ≡ some (patch s) =
        ap (find_row settlement_key s.id) rows
        ∙ find_row-update_row settlement_key patch (λ r. refl) s.id s.id (w.settlements ++ s ∷ [])
        ∙ ground (arith, find_row-IsNew s w new) in
      reveal_settlement-run (patch s) hash' w' stored refl refl send'
      ∙ ap
          (λ (ps : List Publication).
            ps
            ++ reveal_preimage s.commitment s.settlement_id s.amount_atomic s.token_address
                s.counterparty s.nonce
              ∷ [])
          published
