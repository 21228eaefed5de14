-- ===== src/System/Quiet/Settlements.antt =====
-- The handlers of SettlementsService (src/settlements/settlements.service.ts) make progress with the
-- outbox and the audit log.
use avasettile.Common.{arith, ℕ, Bool, true, false, refl, Option, none, some}
use avasettile.Common.Table.{find_row}
use avasettile.Effect.{Error, call}
use avasettile.Effect.Steps.{Steps-call}
use avasettile.Records.Common.{RequestContext}
use avasettile.Records.Settlement.{
  PrivateSettlementRecord, settlement_key, SettlementPatch, Publication,
}
use avasettile.World.{World, SendAnswer, sent, sent_unknown, not_sent, Config, Viem}
use avasettile.Settlements.Registry.{
  write_registry, handed_publication, record_private_settlement, reveal_private_settlement,
}
use avasettile.Settlements.Repository.{
  insert_settlement, existing_row, inserted_or_existing, create_or_get_existing, find_by_id,
  list_settlements, update_found, update_settlement, delete_settlement,
}
use avasettile.Settlements.Service.{
  CreateSettlement, random_nonce, require_settlement, get_settlement, list_settlement_responses,
  publish_settlement, release_claim, publish_or_replay, record_settlement, reveal_recorded,
  reveal_settlement,
}
use avasettile.Webhooks.Progress.{Progress, Progress-refl, Progress-elsewhere}
use avasettile.System.Rules.{
  Quiet, control, bind, done, thrown, statement, elsewhere, reading, Quiet-record_event,
  Quiet-parse_amount,
}
use avasettile.System.Quiet.Chain.{Quiet-to_transfer_execution, Quiet-require_asset}

Quiet-write_registry : (p : Publication) → Quiet (call (write_registry p))
Quiet-write_registry p = Steps-call Progress _ (λ env w. by_answer env.send w)
  where
    by_answer : (a : SendAnswer) (w : World) → Progress w (handed_publication a p w).1
    by_answer (sent hash) w = Progress-elsewhere w _ refl refl refl
    by_answer sent_unknown w = Progress-elsewhere w _ refl refl refl
    by_answer not_sent w = Progress-refl w

Progress-insert_settlement :
    (s : PrivateSettlementRecord) (w : World) → Progress w (insert_settlement s w).1
Progress-insert_settlement s w = Progress-elsewhere w _ (ground arith) (ground arith) (ground arith)

Quiet-existing_row : (o : Option PrivateSettlementRecord) → Quiet (existing_row o)
Quiet-existing_row none = thrown _ _
Quiet-existing_row (some s) = done _

Quiet-inserted_or_existing :
    (s : PrivateSettlementRecord) (o : Option PrivateSettlementRecord)
    → Quiet (inserted_or_existing s o)
Quiet-inserted_or_existing s (some q) = done _
Quiet-inserted_or_existing s none = bind _ _ (reading _) Quiet-existing_row

Quiet-create_or_get_existing : (s : PrivateSettlementRecord) → Quiet (create_or_get_existing s)
unfolding create_or_get_existing
Quiet-create_or_get_existing s =
    bind _ _ (statement _ (λ env w. Progress-insert_settlement s w))
      (λ inserted. search (control, Quiet-inserted_or_existing) depth 10)

Progress-update_found :
    (now : ℕ) (patch : SettlementPatch) (w : World) (o : Option PrivateSettlementRecord)
    → Progress w (update_found now patch w o).1
Progress-update_found now patch w none = Progress-refl w
Progress-update_found now patch w (some s) = Progress-elsewhere w _ refl refl refl

Quiet-update_settlement : (id : ℕ) (patch : SettlementPatch) → Quiet (update_settlement id patch)
unfolding update_settlement
Quiet-update_settlement id patch =
    statement _
      (λ env w. Progress-update_found env.now patch w (find_row settlement_key id w.settlements))

Quiet-delete_settlement : (id : ℕ) → Quiet (delete_settlement id)
unfolding delete_settlement
Quiet-delete_settlement id = elsewhere _ (λ env w. (refl, refl, refl))

Quiet-find_by_id : (id : ℕ) (scope : Option ℕ) → Quiet (find_by_id id scope)
unfolding find_by_id
Quiet-find_by_id id scope = reading _

Quiet-require_settlement : (id : ℕ) (ctx : RequestContext) → Quiet (require_settlement id ctx)
unfolding require_settlement
Quiet-require_settlement id ctx = search (control, Quiet-find_by_id) depth 10

pub Quiet-get_settlement : (id : ℕ) (ctx : RequestContext) → Quiet (get_settlement id ctx)
unfolding get_settlement
Quiet-get_settlement id ctx = search (control, Quiet-require_settlement) depth 10

Quiet-list_settlements :
    (scope : Option ℕ) (limit offset : ℕ) → Quiet (list_settlements scope limit offset)
unfolding list_settlements
Quiet-list_settlements scope limit offset = reading _

pub Quiet-list_settlement_responses :
    (limit offset : Option ℕ) (ctx : RequestContext)
    → Quiet (list_settlement_responses limit offset ctx)
unfolding list_settlement_responses
Quiet-list_settlement_responses limit offset ctx = search (control, Quiet-list_settlements) depth 10

Quiet-random_nonce : Quiet random_nonce
Quiet-random_nonce = Steps-call Progress _ (λ env w. Progress-refl w)

module _ (config : Config) (viem : Viem) where
  Quiet-record_private_settlement :
      (ref commitment : ℕ) → Quiet (record_private_settlement config viem ref commitment)
  unfolding record_private_settlement
  Quiet-record_private_settlement ref commitment =
      search (control, Quiet-write_registry, Quiet-to_transfer_execution) depth 30

  Quiet-reveal_private_settlement :
      (s : PrivateSettlementRecord) → Quiet (reveal_private_settlement config viem s)
  unfolding reveal_private_settlement
  Quiet-reveal_private_settlement s =
      search (control, Quiet-write_registry, Quiet-to_transfer_execution) depth 30

  module _ (ctx : RequestContext) where
    Quiet-publish_settlement :
        (s : PrivateSettlementRecord) → Quiet (publish_settlement config viem ctx s)
    unfolding publish_settlement
    Quiet-publish_settlement s =
        search
          (control, Quiet-record_private_settlement, Quiet-update_settlement, Quiet-record_event)
          depth 30

    Quiet-release_claim :
        (s : PrivateSettlementRecord) (e : Error) → Quiet (release_claim config viem ctx s e)
    unfolding release_claim
    Quiet-release_claim s e = search (control, Quiet-delete_settlement) depth 10

    Quiet-publish_or_replay :
        (r : PrivateSettlementRecord × Bool) → Quiet (publish_or_replay config viem ctx r)
    unfolding publish_or_replay
    Quiet-publish_or_replay (s, true) = done _
    Quiet-publish_or_replay (s, false) =
        search (control, Quiet-publish_settlement, Quiet-release_claim) depth 10

    pub Quiet-record_settlement :
        (dto : CreateSettlement) → Quiet (record_settlement config viem ctx dto)
    unfolding record_settlement
    Quiet-record_settlement dto =
        search
          (
            control, Quiet-require_asset, Quiet-parse_amount, Quiet-random_nonce,
            Quiet-create_or_get_existing, Quiet-publish_or_replay,
          )
          depth 40

    Quiet-reveal_recorded :
        (id : ℕ) (s : PrivateSettlementRecord) → Quiet (reveal_recorded config viem ctx id s)
    unfolding reveal_recorded
    Quiet-reveal_recorded id s =
        search
          (control, Quiet-reveal_private_settlement, Quiet-update_settlement, Quiet-record_event)
          depth 30

    pub Quiet-reveal_settlement : (id : ℕ) → Quiet (reveal_settlement config viem ctx id)
    unfolding reveal_settlement
    Quiet-reveal_settlement id =
        search (control, Quiet-require_settlement, Quiet-reveal_recorded) depth 20
