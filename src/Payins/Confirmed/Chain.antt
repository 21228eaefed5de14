-- ===== src/Payins/Confirmed/Chain.antt =====
-- The calls of src/blockchain/blockchain.service.ts that PayinsService makes leave the pay-ins alone.
use avasettile.Common.{ℕ, zero, suc, ◌+◌, ◌≡◌, refl, Bool, Option, List, [], ltb, if◌then◌else◌}
use avasettile.Common.Int.{ℤ, pos, negsuc}
use avasettile.Effect.Yields.{Anything, Yields-if}
use avasettile.Records.Common.{SettlementAsset}
use avasettile.World.{
  World, Sweep, SendAnswer, sent, sent_unknown, not_sent, Config, Viem, Handler, require_asset,
  LogTopics,
}
use avasettile.Blockchain.Rail.{to_transfer_execution, handed_over}
use avasettile.Blockchain.Paginate.{chunks_from, paginate_logs, chunk_end, chunk_size}
use avasettile.Blockchain.Logs.{
  find_logs, lookback_from, get_logs, find_incoming_erc20_transfers,
  find_payment_router_invoice_payments,
}
use avasettile.Blockchain.Deposit.{
  derive_payin_address, sweep_derived_payin, send_native_transfer, wait_for_transaction,
  handed_sweep, valid_index,
}
use avasettile.Payins.Confirmed.Row.{Inv}
use avasettile.Payins.Confirmed.Calls.{
  Stable, Stable-then, Stable-pure, Stable-throw, Stable-throw_if, Stable-or_throw, Stable-call,
  Stable-read_chain,
}

payins-handed_sweep :
    (s : SendAnswer) (sweep : Sweep) (w : World) → (handed_sweep s sweep w).1.payins ≡ w.payins
payins-handed_sweep (sent hash) sweep w = refl
payins-handed_sweep sent_unknown sweep w = refl
payins-handed_sweep not_sent sweep w = refl

payins-handed_over : (s : SendAnswer) (w : World) → (handed_over s [] w).1.payins ≡ w.payins
payins-handed_over (sent hash) w = refl
payins-handed_over sent_unknown w = refl
payins-handed_over not_sent w = refl

module _ (i expected : ℕ) where
  pub Stable-if :
      {A : Type 0} (b : Bool) (p q : Handler A)
      → Stable i expected p
      → Stable i expected q
      → Stable i expected (if b then p else q)
  Stable-if b p q hp hq = Yields-if (Inv i expected) b p q Anything hp hq

  Stable-chunks_from :
      {T : Type 0} (fetch : ℕ → ℕ → Handler (List T))
      → ((from to : ℕ) → Stable i expected (fetch from to))
      → (fuel from to : ℕ) → Stable i expected (chunks_from fetch fuel from to)
  unfolding chunks_from
  Stable-chunks_from fetch h zero from to = Stable-pure i expected []
  Stable-chunks_from fetch h (suc fuel) from to = Stable-if _ _ _ (Stable-pure i expected []) (
      Stable-then i expected _ _ (h from (chunk_end from to)) λ chunk.
        Stable-then i expected _ _ (Stable-chunks_from fetch h fuel (from + chunk_size) to)
          (λ rest. Stable-pure i expected _))

  Stable-paginate_logs :
      {T : Type 0} (fetch : ℕ → ℕ → Handler (List T))
      → ((from to : ℕ) → Stable i expected (fetch from to))
      → (from to : ℕ) → Stable i expected (paginate_logs fetch from to)
  unfolding paginate_logs
  Stable-paginate_logs fetch h from to = Stable-chunks_from fetch h _ from to

  module _ (config : Config) (viem : Viem) where
    Stable-require_asset :
        (asset : SettlementAsset) → Stable i expected (require_asset config asset)
    unfolding require_asset
    Stable-require_asset asset = Stable-or_throw i expected _ _

    Stable-find_logs :
        (address : ℕ) (topics : LogTopics) (decimals from to : ℕ)
        → Stable i expected (find_logs config viem address topics decimals from to)
    unfolding find_logs
    Stable-find_logs address topics decimals from to =
        Stable-if (ltb to (lookback_from config viem from to)) _ _ (Stable-pure i expected []) (
          Stable-then i expected _ _
            (Stable-paginate_logs (get_logs config viem address topics)
              (λ a b. Stable-read_chain i expected _) (lookback_from config viem from to) to)
            (λ logs. Stable-pure i expected _))

    pub Stable-find_incoming :
        (asset : SettlementAsset) (to from_block to_block : ℕ)
        → Stable i expected (find_incoming_erc20_transfers config viem asset to from_block to_block)
    unfolding find_incoming_erc20_transfers
    Stable-find_incoming asset to from_block to_block =
        Stable-then i expected _ _ (Stable-require_asset asset)
          (λ token. Stable-find_logs token _ _ from_block to_block)

    pub Stable-find_payments :
        (asset : SettlementAsset) (ref amount from_block to_block : ℕ)
        → Stable i expected
            (find_payment_router_invoice_payments config viem asset ref amount from_block to_block)
    unfolding find_payment_router_invoice_payments
    Stable-find_payments asset ref amount from_block to_block =
        Stable-then i expected _ _ (Stable-or_throw i expected _ _) λ router.
          Stable-then i expected _ _ (Stable-require_asset asset)
            (λ token. Stable-find_logs router _ _ from_block to_block)

    Stable-to_transfer_execution :
        (hash : ℕ) → Stable i expected (to_transfer_execution config viem hash)
    unfolding to_transfer_execution
    Stable-to_transfer_execution hash = Stable-if _ _ _ (Stable-pure i expected _) (
        Stable-then i expected _ _ (Stable-read_chain i expected _)
          (λ receipt. Stable-pure i expected _))

    pub Stable-derive_payin_address :
        (index : ℕ) → Stable i expected (derive_payin_address config viem index)
    unfolding derive_payin_address
    Stable-derive_payin_address index =
        Stable-if _ _ _ (Stable-pure i expected _) (Stable-throw i expected _ _)

    Stable-valid_index : (index : ℤ) → Stable i expected (valid_index config viem index)
    Stable-valid_index (pos n) = Stable-pure i expected n
    Stable-valid_index (negsuc n) = Stable-throw i expected _ _

    pub Stable-sweep_derived_payin :
        (asset : SettlementAsset) (index : ℤ) (address : ℕ) (amount : Option ℕ)
        → Stable i expected (sweep_derived_payin config viem asset index address amount)
    unfolding sweep_derived_payin
    Stable-sweep_derived_payin asset index address amount =
        Stable-then i expected _ _ (Stable-valid_index index) λ n.
          Stable-then i expected _ _ (Stable-or_throw i expected _ _) λ treasury.
            Stable-then i expected _ _ (Stable-derive_payin_address n) λ from.
              Stable-then i expected _ _ (Stable-throw_if i expected _ _) λ _.
                Stable-then i expected _ _ (Stable-read_chain i expected _) λ native.
                  Stable-then i expected _ _ (Stable-throw_if i expected _ _) λ _.
                    Stable-then i expected _ _ (Stable-require_asset asset) λ token.
                      Stable-then i expected _ _ (Stable-read_chain i expected _) λ balance.
                        Stable-then i expected _ _ (Stable-throw_if i expected _ _) λ _.
                          Stable-then i expected _ _ (Stable-throw_if i expected _ _) λ _.
                            Stable-then i expected _ _
                              (Stable-call i expected _ (λ env w. payins-handed_sweep env.send _ w))
                              λ hash.
                                Stable-then i expected _ _ (Stable-to_transfer_execution hash)
                                  (λ execution. Stable-pure i expected _)

    pub Stable-send_native_transfer :
        (to wei : ℕ) → Stable i expected (send_native_transfer config viem to wei)
    unfolding send_native_transfer
    Stable-send_native_transfer to wei =
        Stable-then i expected _ _ (Stable-throw_if i expected _ _) λ _.
          Stable-then i expected _ _ (Stable-or_throw i expected _ _) λ treasury.
            Stable-then i expected _ _ (Stable-read_chain i expected _) λ native.
              Stable-then i expected _ _ (Stable-throw_if i expected _ _) λ _.
                Stable-then i expected _ _
                  (Stable-call i expected _ (λ env w. payins-handed_over env.send w))
                  Stable-to_transfer_execution

  pub Stable-wait_for_transaction : (hash : ℕ) → Stable i expected (wait_for_transaction hash)
  unfolding wait_for_transaction
  Stable-wait_for_transaction hash =
      Stable-then i expected _ _ (Stable-read_chain i expected _)
        (λ receipt. Stable-pure i expected tt)
