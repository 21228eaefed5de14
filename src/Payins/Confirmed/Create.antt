-- ===== src/Payins/Confirmed/Create.antt =====
-- `createPayIn` of src/payins/payins.service.ts and its statements keep the row of a pay-in sound.
use avasettile.Common.{ℕ, refl, Bool, true, false, String, Option, none, some}
use avasettile.Effect.Yields.{Anything}
use avasettile.Records.Common.{RequestContext}
use avasettile.Records.PayIn.{PayInRecord, PayInCollectionMode, derived_address, payment_router}
use avasettile.World.{Config, Viem, parse_amount}
use avasettile.Payins.Ledger.{
  create_or_get_existing, existing_or_throw, created_or_existing, find_by_external_id, find_by_id,
  find_by_idempotency_key, found_by_key, store_idempotency_key, claim_next_payin_index,
}
use avasettile.Payins.Service.{
  CreatePayIn, router_of, collect_at, new_payin, store_key_for, finish_create_payin,
  create_new_payin, prior_of, replay_or_create, create_payin,
}
use avasettile.Payins.Confirmed.Row.{Inv-insert_payin}
use avasettile.Payins.Confirmed.Calls.{
  Stable, Gives-query, Stable-then, Stable-pure, Stable-throw, Stable-or_throw, Stable-from_result,
  Stable-read_chain, Stable-get_now, Stable-random_uuid, Stable-record_event, Stable-query,
  Stable-to_payin_response,
}
use avasettile.Payins.Confirmed.Chain.{Stable-derive_payin_address}

module _ (i expected : ℕ) where
  Stable-created_or_existing :
      (p : PayInRecord) (o : Option PayInRecord) → Stable i expected (created_or_existing p o)
  unfolding find_by_external_id
  Stable-created_or_existing p (some q) = Stable-pure i expected _
  Stable-created_or_existing p none =
      Stable-then i expected _ _ (Stable-query i expected _ (λ env w. refl)) existing
    where
      existing : (o : Option PayInRecord) → Stable i expected (existing_or_throw o)
      existing none = Stable-throw i expected _ _
      existing (some q) = Stable-pure i expected _

  Stable-create_or_get_existing : (p : PayInRecord) → Stable i expected (create_or_get_existing p)
  unfolding create_or_get_existing
  Stable-create_or_get_existing p =
      Stable-then i expected _ _
        (Gives-query i expected _ Anything (λ env w inv. (Inv-insert_payin i expected p w inv, tt)))
        λ inserted.
          Stable-then i expected _ _ (Stable-from_result i expected inserted)
            (Stable-created_or_existing p)

  Stable-found_by_key : (o : Option ℕ) → Stable i expected (found_by_key o)
  unfolding find_by_id
  Stable-found_by_key none = Stable-pure i expected none
  Stable-found_by_key (some id) = Stable-query i expected _ (λ env w. refl)

  Stable-prior :
      (config : Config) (viem : Viem) (ctx : RequestContext) (key : Option String)
      → Stable i expected (prior_of config viem ctx key)
  unfolding find_by_idempotency_key
  Stable-prior config viem ctx none = Stable-pure i expected none
  Stable-prior config viem ctx (some key) =
      Stable-then i expected _ _ (Stable-query i expected _ (λ env w. refl)) Stable-found_by_key

  module _ (config : Config) (viem : Viem) (ctx : RequestContext) where
    Stable-router_of :
        (dto : CreatePayIn) (mode : PayInCollectionMode)
        → Stable i expected (router_of config viem ctx dto mode)
    Stable-router_of dto derived_address = Stable-pure i expected none
    Stable-router_of dto payment_router =
        Stable-then i expected _ _ (Stable-or_throw i expected _ _)
          (λ router. Stable-pure i expected _)

    Stable-collect_at :
        (dto : CreatePayIn) (router : Option ℕ)
        → Stable i expected (collect_at config viem ctx dto router)
    unfolding claim_next_payin_index
    Stable-collect_at dto (some router) = Stable-pure i expected _
    Stable-collect_at dto none =
        Stable-then i expected _ _ (Stable-query i expected _ (λ env w. refl)) λ index.
          Stable-then i expected _ _ (Stable-derive_payin_address i expected config viem index)
            (λ address. Stable-pure i expected _)

    Stable-store_key_for :
        (key : Option String) (id : ℕ) → Stable i expected (store_key_for config viem ctx key id)
    unfolding store_idempotency_key
    Stable-store_key_for none id = Stable-pure i expected tt
    Stable-store_key_for (some key) id = Stable-query i expected _ (λ env w. refl)

    Stable-finish_create_payin :
        (result : PayInRecord × Bool)
        → Stable i expected (finish_create_payin config viem ctx result)
    unfolding finish_create_payin
    Stable-finish_create_payin (p, true) = Stable-to_payin_response i expected p true
    Stable-finish_create_payin (p, false) =
        Stable-then i expected _ _ (Stable-store_key_for ctx.idempotency_key p.id) λ _.
          Stable-then i expected _ _ (Stable-record_event i expected _ p.id _ _)
            (λ _. Stable-to_payin_response i expected p false)

    Stable-create_new_payin :
        (dto : CreatePayIn) → Stable i expected (create_new_payin config viem ctx dto)
    unfolding create_new_payin parse_amount
    Stable-create_new_payin dto =
        Stable-then i expected _ _ (Stable-from_result i expected _) λ amount.
          Stable-then i expected _ _ (Stable-router_of dto _) λ router.
            Stable-then i expected _ _ (Stable-read_chain i expected _) λ start_block.
              Stable-then i expected _ _ (Stable-get_now i expected) λ now.
                Stable-then i expected _ _ (Stable-collect_at dto router) λ collection.
                  Stable-then i expected _ _ (Stable-random_uuid i expected) λ id.
                    Stable-then i expected _ _
                      (Stable-create_or_get_existing
                        (new_payin config viem ctx dto id now start_block amount collection))
                      Stable-finish_create_payin

    pub Stable-create_payin :
        (dto : CreatePayIn) → Stable i expected (create_payin config viem ctx dto)
    unfolding create_payin
    Stable-create_payin dto =
        Stable-then i expected _ _ (Stable-prior config viem ctx ctx.idempotency_key) replayed
      where
        replayed :
            (o : Option PayInRecord) → Stable i expected (replay_or_create config viem ctx dto o)
        replayed (some p) = Stable-to_payin_response i expected p true
        replayed none = Stable-create_new_payin dto
