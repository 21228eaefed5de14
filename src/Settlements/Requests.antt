-- ===== src/Settlements/Requests.antt =====
-- The requests of SettlementsService (src/settlements/settlements.service.ts), served at the same time.
use avasettile.Common.{ℕ, refl, Bool, true, false, Option, none, some, List, [], arith}
use avasettile.Common.Table.{All-append}
use avasettile.Effect.{Error, record_not_found, pure, call, or_throw, ◌>>=◌}
use avasettile.Effect.Weakest.{Safe, Wp-mono}
use avasettile.Effect.Pool.{Task, Event, run_pool, run_pool-bounded}
use avasettile.Effect.Yields.{
  On, Anything, Yields, Yields->>=, Yields-if, Yields-try_catch, Yields-from_result, Yields-pure,
  Yields-throw, no_potential,
}
use avasettile.Records.Common.{RequestContext}
use avasettile.Records.Settlement.{PrivateSettlementRecord, Publication}
use avasettile.World.{
  World, Outside, SendAnswer, sent, sent_unknown, not_sent, Config, Viem, Handler, parse_amount,
  require_asset, throw_if,
}
use avasettile.Blockchain.Rail.{to_transfer_execution}
use avasettile.Settlements.Registry.{
  handed_publication, write_registry, record_private_settlement, reveal_private_settlement,
}
use avasettile.Settlements.Repository.{
  existing_row, inserted_or_existing, create_or_get_existing, list_settlements,
}
use avasettile.Settlements.Service.{
  CreateSettlement, is_revealed, require_settlement, get_settlement, list_settlement_responses,
  new_settlement, publish_settlement, release_claim, publish_or_replay, record_settlement,
  reveal_recorded, reveal_settlement,
}
use avasettile.Settlements.Opening.{
  IsOpening, OpensCommitment, Inv, Found, Gives, Gives-then, Gives-pure, Gives-throw,
  Gives-or_throw, Gives-query, Gives-call, Gives-insert, Gives-update_settlement,
  Gives-delete_settlement, Gives-find_by_id, Gives-record_event,
}

pub data SettlementRequest : Type 0 where
  submit : CreateSettlement → RequestContext → SettlementRequest
  get : ℕ → RequestContext → SettlementRequest
  list : (limit offset : Option ℕ) → RequestContext → SettlementRequest
  reveal : ℕ → RequestContext → SettlementRequest

unfoldable pub ending : {A : Type 0} → Handler A → Task Outside World
ending p = do answer ← p; pure tt

module _ (config : Config) (viem : Viem) where
  unfoldable pub serve : SettlementRequest → Task Outside World
  serve (submit dto ctx) = ending (record_settlement config viem ctx dto)
  serve (get id ctx) = ending (get_settlement id ctx)
  serve (list limit offset ctx) = ending (list_settlement_responses limit offset ctx)
  serve (reveal id ctx) = ending (reveal_settlement config viem ctx id)

  abbrev Sound : {A : Type 0} → Handler A → Type 0
  Sound p = Gives viem p Anything

  handed_publication-Inv :
      (a : SendAnswer) (p : Publication) (w : World)
      → OpensCommitment viem p
      → Inv viem w
      → Inv viem (handed_publication a p w).1
  handed_publication-Inv (sent hash) p w opens (rows, published) =
      (rows, All-append (OpensCommitment viem) w.publications p published opens)
  handed_publication-Inv sent_unknown p w opens (rows, published) =
      (rows, All-append (OpensCommitment viem) w.publications p published opens)
  handed_publication-Inv not_sent p w opens inv = inv

  Sound-write_registry :
      (p : Publication) → OpensCommitment viem p → Sound (call (write_registry p))
  Sound-write_registry p opens =
      Gives-call viem _ (λ env w inv. handed_publication-Inv env.send p w opens inv)

  Sound-to_transfer_execution : (hash : ℕ) → Sound (to_transfer_execution config viem hash)
  unfolding to_transfer_execution
  Sound-to_transfer_execution hash = Yields-if (Inv viem) _ _ _ Anything (Gives-pure viem _) (
      Gives-then viem _ _ Anything (Gives-call viem _ (λ env w inv. inv))
        (λ receipt _. Gives-pure viem _))

  Sound-record_private_settlement :
      (ref commitment : ℕ) → Sound (record_private_settlement config viem ref commitment)
  unfolding record_private_settlement
  Sound-record_private_settlement ref commitment =
      Gives-then viem _ _ Anything (Gives-or_throw viem _ _) λ registry _.
        Gives-then viem _ _ Anything (Gives-or_throw viem _ _) λ registrar _.
          Gives-then viem _ _ Anything (Sound-write_registry _ tt)
            (λ hash _. Sound-to_transfer_execution hash)

  Sound-reveal_private_settlement :
      (s : PrivateSettlementRecord)
      → IsOpening viem s
      → Sound (reveal_private_settlement config viem s)
  unfolding reveal_private_settlement
  Sound-reveal_private_settlement s h =
      Gives-then viem _ _ Anything (Gives-or_throw viem _ _) λ registry _.
        Gives-then viem _ _ Anything (Gives-or_throw viem _ _) λ auditor _.
          Gives-then viem _ _ Anything (Sound-write_registry _ h.opens)
            (λ hash _. Sound-to_transfer_execution hash)

  Sound-existing_row : (o : Option PrivateSettlementRecord) → Sound (existing_row o)
  Sound-existing_row none = Gives-throw viem _ _
  Sound-existing_row (some s) = Gives-pure viem _

  Sound-inserted_or_existing :
      (s : PrivateSettlementRecord) (o : Option PrivateSettlementRecord)
      → Sound (inserted_or_existing s o)
  Sound-inserted_or_existing s (some q) = Gives-pure viem _
  Sound-inserted_or_existing s none =
      Gives-then viem _ _ Anything (Gives-query viem _ Anything (λ env w inv. (inv, tt)))
        (λ o _. Sound-existing_row o)

  Sound-create_or_get_existing :
      (s : PrivateSettlementRecord) → IsOpening viem s → Sound (create_or_get_existing s)
  unfolding create_or_get_existing
  Sound-create_or_get_existing s h = Gives-then viem _ _ _ (Gives-insert viem s h) λ inserted _.
      Gives-then viem _ _ Anything (Yields-from_result Outside (Inv viem) inserted)
        (λ o _. Sound-inserted_or_existing s o)

  Gives-require_settlement :
      (id : ℕ) (ctx : RequestContext) → Gives viem (require_settlement id ctx) (IsOpening viem)
  unfolding require_settlement
  Gives-require_settlement id ctx =
      Yields->>= (Inv viem) _ _ (Found (IsOpening viem)) (IsOpening viem)
        (Gives-find_by_id viem id ctx.client_id) there
    where
      there :
          (o : Option PrivateSettlementRecord)
          → Found (IsOpening viem) o
          → Gives viem (or_throw o record_not_found) (IsOpening viem)
      there none h = Yields-throw Outside (Inv viem) record_not_found (IsOpening viem)
      there (some s) h = Yields-pure Outside (Inv viem) s (IsOpening viem) h

  module _ (ctx : RequestContext) where
    Sound-publish_settlement :
        (s : PrivateSettlementRecord) → Sound (publish_settlement config viem ctx s)
    unfolding publish_settlement
    Sound-publish_settlement s =
        Gives-then viem _ _ Anything (Sound-record_private_settlement _ _) λ exec _.
          Gives-then viem _ _ Anything (Gives-update_settlement viem _ _) λ updated _.
            Gives-then viem _ _ Anything (Gives-record_event viem _ _ _ _)
              (λ _ _. Gives-pure viem _)

    Sound-publish_or_replay :
        (r : PrivateSettlementRecord × Bool) → Sound (publish_or_replay config viem ctx r)
    unfolding publish_or_replay release_claim
    Sound-publish_or_replay (s, true) = Gives-pure viem _
    Sound-publish_or_replay (s, false) =
        Yields-try_catch (Inv viem) _ _ Anything (Sound-publish_settlement s) (λ e.
          Gives-then viem _ _ Anything (Gives-delete_settlement viem s.id)
            (λ _ _. Gives-throw viem _ e))

    new_settlement-IsOpening :
        (dto : CreateSettlement) (id now token amount nonce : ℕ)
        → IsOpening viem (new_settlement config viem ctx dto id now token amount nonce)
    new_settlement-IsOpening dto id now token amount nonce = record {
      opens = refl;
      ref_of = refl;
      id_of = refl;
    }

    Sound-throw_if : (b : Bool) (e : Error) → Sound (throw_if b e)
    Sound-throw_if true e = Gives-throw viem _ e
    Sound-throw_if false e = Gives-pure viem tt

    Sound-record_settlement :
        (dto : CreateSettlement) → Sound (record_settlement config viem ctx dto)
    unfolding record_settlement require_asset parse_amount
    Sound-record_settlement dto = Gives-then viem _ _ Anything (Sound-throw_if _ _) λ _ _.
        Gives-then viem _ _ Anything (Gives-or_throw viem _ _) λ token _.
          Gives-then viem _ _ Anything (Yields-from_result Outside (Inv viem) _) λ amount _.
            Gives-then viem _ _ Anything (Gives-call viem _ (λ env w inv. inv)) λ nonce _.
              Gives-then viem _ _ Anything (Gives-call viem _ (λ env w inv. inv)) λ id _.
                Gives-then viem _ _ Anything (Gives-call viem _ (λ env w inv. inv)) λ now _.
                  Gives-then viem _ _ Anything
                    (Sound-create_or_get_existing _
                      (new_settlement-IsOpening dto id now token amount nonce))
                    (λ claimed _. Sound-publish_or_replay claimed)

    Sound-reveal_recorded :
        (id : ℕ) (s : PrivateSettlementRecord)
        → IsOpening viem s
        → Sound (reveal_recorded config viem ctx id s)
    unfolding reveal_recorded
    Sound-reveal_recorded id s h =
        Gives-then viem _ _ Anything (Sound-reveal_private_settlement s h) λ exec _.
          Gives-then viem _ _ Anything (Gives-update_settlement viem _ _) λ updated _.
            Gives-then viem _ _ Anything (Gives-record_event viem _ _ _ _)
              (λ _ _. Gives-pure viem _)

    Sound-reveal_settlement : (id : ℕ) → Sound (reveal_settlement config viem ctx id)
    unfolding reveal_settlement
    Sound-reveal_settlement id =
        Gives-then viem _ _ (IsOpening viem) (Gives-require_settlement id ctx) λ s h.
          Yields-if (Inv viem) (is_revealed s.status) _ _ Anything (Gives-pure viem _)
            (Sound-reveal_recorded id s h)

  Sound-ending : {A : Type 0} (p : Handler A) → Sound p → Sound (ending p)
  unfolding ending
  Sound-ending p h = Gives-then viem p _ Anything h (λ a _. Gives-pure viem tt)

  Sound-serve : (req : SettlementRequest) → Sound (serve req)
  unfolding serve get_settlement list_settlement_responses list_settlements
  Sound-serve (submit dto ctx) = Sound-ending _ (Sound-record_settlement ctx dto)
  Sound-serve (get id ctx) = Sound-ending _ (
      Gives-then viem _ _ (IsOpening viem) (Gives-require_settlement id ctx)
        (λ s _. Gives-pure viem _))
  Sound-serve (list limit offset ctx) = Sound-ending _ (
      Gives-then viem _ _ Anything (Gives-query viem _ Anything (λ env w inv. (inv, tt)))
        (λ ss _. Gives-pure viem _))
  Sound-serve (reveal id ctx) = Sound-ending _ (Sound-reveal_settlement ctx id)

  serve-Safe : (req : SettlementRequest) → Safe (Inv viem) no_potential (serve req) 0
  unfolding Yields
  serve-Safe req =
      Wp-mono (Inv viem) no_potential (serve req) 0 (On Anything) (λ _ _. Unit) (λ r t h. tt)
        (Sound-serve req 0)

  -- Take a world in which the commitment of each settlement row is the hash of the row's own amount,
  -- token, counterparty and nonce, its ref and id are the hashes of its external id, and each preimage
  -- that was sent to the registry hashes to the commitment of the row that it was sent for. The same
  -- holds after any arrivals of requests to SettlementsService, any interleaving of their calls, any
  -- answers of the database and the chain, and any crashes.
  pub settlements-IsOpening :
      (es : List (Event Outside SettlementRequest)) (w : World)
      → Inv viem w
      → Inv viem (run_pool serve es (w, [])).0
  settlements-IsOpening es w inv =
      (run_pool-bounded (Inv viem) no_potential serve serve-Safe 0 es w inv (omega arith)).0
