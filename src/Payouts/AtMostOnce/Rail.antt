-- ===== src/Payouts/AtMostOnce/Rail.antt =====
-- The payout rails under the potential: a transfer is paid with the tokens of its legs, and where
-- it ends in a `ConflictException` nothing was sent and the tokens are still there.
use avasettile.Common.{
  ℕ, ◌+◌, ◌≡◌, refl, subst, ◌∙◌, true, Option, none, some, List, [], ◌∷◌, arith, map, sum_of,
}
use avasettile.Effect.{
  is_conflict, invalid_beneficiary, not_configured, allowance_shortfall, Result, ok, err, call,
  ◌>>=◌,
}
use avasettile.Effect.Weakest.{Post, Wp-mono, Wp->>=, Then}
use avasettile.Effect.Neutral.{Calm, Neutral}
use avasettile.Records.Common.{SettlementAsset}
use avasettile.World.{Leg, Receipt, Config, Viem, Handler, require_asset}
use avasettile.Blockchain.Rail.{
  to_transfer_execution, send_erc20_transfer, ensure_vault_allowance, require_vault_operator,
  vault_payout, vault_payout_batch, leg_of, get_asset_balance, write_contract, operator_or_treasury,
  against_latest, reconcile_transaction,
}
use avasettile.Payouts.AtMostOnce.Potential.{Inv, potential, owns, legs_of}
use avasettile.Payouts.AtMostOnce.Calls.{
  write_contract-Wp, Neutral-end, Neutral-read_chain, Neutral-read,
}
use avasettile.Payouts.AtMostOnce.Updates.{
  Pays, Idle, Kept, Holding, then_holding, Idle->>=, Idle-or_throw, Idle-Holding, throw_if-Holding,
  Idle-if,
}

-- From `n + t` tokens: a success has spent `n`, and a conflict none.
abbrev pub Spends : {A : Type 0} → ℕ → ℕ → Post A
Spends n t (ok a) t' = t' ≡ t
Spends n t (err e) t' = is_conflict e ≡ true → t' ≡ n + t

module _ (i : ℕ) where
  -- What comes before the transaction.
  pub before :
      {A B : Type 0} (p : Handler A) (f : A → Handler B) (n t : ℕ)
      → Pays i p (n + t) (Holding (n + t))
      → ((a : A) → Pays i (f a) (n + t) (Spends n t))
      → Pays i (p >>= f) (n + t) (Spends n t)
  before p f n t holding next =
      then_holding i p f (n + t) (Spends n t) holding next (λ e held. refl)

  -- What comes after it.
  pub after : {A : Type 0} (p : Handler A) (n t : ℕ) → Idle i p → Pays i p t (Spends n t)
  unfolding Neutral
  after {A} p n t idle = Wp-mono (Inv i) (potential i) p t (Kept t) (Spends n t) spent (idle t)
    where
      spent : (r : Result A) (t' : ℕ) → (t' ≡ t) × Calm r → Spends n t r t'
      spent (ok a) t' (e, calm) = e
      spent (err e) t' (same, calm) = λ held. cc

  Idle-to_transfer_execution :
      (config : Config) (viem : Viem) (hash : ℕ) → Idle i (to_transfer_execution config viem hash)
  unfolding to_transfer_execution
  Idle-to_transfer_execution config viem hash =
      Idle-if i _ _ _ (Neutral-end i _)
        (Idle->>= i _ _ (Neutral-read_chain i (λ env. env.receipt)) (λ receipt. Neutral-end i _))

  -- The transaction itself and the wait for its receipt.
  send-Spends :
      (config : Config) (viem : Viem) (legs : List Leg) (n t : ℕ)
      → legs_of i legs ≡ n
      → Pays i
          (call (write_contract legs) >>= to_transfer_execution config viem)
          (n + t)
          (Spends n t)
  send-Spends config viem legs n t count = Wp->>= (Inv i) (potential i) _ _ (n + t) (Spends n t) (
      subst
        (λ m.
          Pays i (call (write_contract legs)) (m + t)
            (Then (Inv i) (potential i) (to_transfer_execution config viem) (Spends n t)))
        count
        (write_contract-Wp i legs t
          (Then (Inv i) (potential i) (to_transfer_execution config viem) (Spends n t))
          (λ hash. after _ n t (Idle-to_transfer_execution config viem hash)) (λ held. cc)))

  module _ (config : Config) (viem : Viem) where
    Idle-require_asset : (asset : SettlementAsset) → Idle i (require_asset config asset)
    unfolding require_asset
    Idle-require_asset asset = Idle-or_throw i _ not_configured refl

    -- A direct transfer costs the token of its payout.
    pub send_erc20_transfer-Spends :
        (id : ℕ) (asset : SettlementAsset) (to amount t : ℕ)
        → Pays i
            (send_erc20_transfer config viem id asset to amount)
            (owns i id + t)
            (Spends (owns i id) t)
    unfolding send_erc20_transfer
    send_erc20_transfer-Spends id asset to amount t =
        before _ _ _ t (throw_if-Holding i _ invalid_beneficiary _) λ _.
          before _ _ _ t (Idle-Holding i _ _ (Idle-or_throw i _ not_configured refl)) λ _.
            before _ _ _ t (Idle-Holding i _ _ (Idle-require_asset asset))
              λ token. send-Spends config viem _ _ t (omega arith)

    ensure_vault_allowance-Holding :
        (amount t : ℕ) → Pays i (ensure_vault_allowance config viem amount) t (Holding t)
    unfolding ensure_vault_allowance
    ensure_vault_allowance-Holding amount t =
        then_holding i _ _ t _ (Idle-Holding i _ t (Neutral-read_chain i (λ env. env.funder)))
          (λ funder.
            then_holding i _ _ t _
              (Idle-Holding i _ t (Neutral-read_chain i (λ env. env.allowance)))
              (λ allowance. throw_if-Holding i _ allowance_shortfall t) (λ e. refl))
          (λ e. refl)

    Idle-require_vault_operator : Idle i (require_vault_operator config viem)
    unfolding require_vault_operator
    Idle-require_vault_operator = by_key config.vault_operator
      where
        by_key : (o : Option ℕ) → Idle i (operator_or_treasury config viem o)
        by_key none = Idle-or_throw i _ not_configured refl
        by_key (some operator) = Neutral-end i operator

    -- So does a payout through the vault; a missing allowance is found before it is sent.
    pub vault_payout-Spends :
        (id : ℕ) (asset : SettlementAsset) (to amount t : ℕ)
        → Pays i
            (vault_payout config viem id asset to amount)
            (owns i id + t)
            (Spends (owns i id) t)
    unfolding vault_payout
    vault_payout-Spends id asset to amount t =
        before _ _ _ t (throw_if-Holding i _ invalid_beneficiary _) λ _.
          before _ _ _ t (Idle-Holding i _ _ (Idle-or_throw i _ not_configured refl)) λ _.
            before _ _ _ t (Idle-Holding i _ _ (Idle-require_asset asset)) λ token.
              before _ _ _ t (ensure_vault_allowance-Holding amount _) λ _.
                before _ _ _ t (Idle-Holding i _ _ Idle-require_vault_operator)
                  λ _. send-Spends config viem _ _ t (omega arith)

    legs_of-map :
        (token : ℕ) (legs : List (ℕ × ℕ × ℕ))
        → legs_of i (map (leg_of config viem token) legs)
          ≡ sum_of (λ (l : ℕ × ℕ × ℕ). owns i l.0) legs
    legs_of-map token [] = refl
    legs_of-map token (l ∷ legs) = omega (arith, legs_of-map token legs)

    -- A batch costs the tokens of all its legs at once.
    pub vault_payout_batch-Spends :
        (asset : SettlementAsset) (legs : List (ℕ × ℕ × ℕ)) (n t : ℕ)
        → sum_of (λ (l : ℕ × ℕ × ℕ). owns i l.0) legs ≡ n
        → Pays i (vault_payout_batch config viem asset legs) (n + t) (Spends n t)
    unfolding vault_payout_batch
    vault_payout_batch-Spends asset legs n t count =
        before _ _ n t (Idle-Holding i _ _ (Idle-or_throw i _ not_configured refl)) λ _.
          before _ _ n t (Idle-Holding i _ _ (Idle-require_asset asset)) λ token.
            before _ _ n t (throw_if-Holding i _ invalid_beneficiary _) λ _.
              before _ _ n t (ensure_vault_allowance-Holding _ _) λ _.
                before _ _ n t (Idle-Holding i _ _ Idle-require_vault_operator)
                  λ _. send-Spends config viem _ n t (legs_of-map token legs ∙ count)

    pub Idle-get_asset_balance :
        (asset : SettlementAsset) → Idle i (get_asset_balance config viem asset)
    unfolding get_asset_balance
    Idle-get_asset_balance asset = Idle->>= i _ _ (Idle-or_throw i _ not_configured refl) λ _.
        Idle->>= i _ _ (Idle-require_asset asset)
          λ _. Neutral-read_chain i (λ env. env.token_balance)

    pub Idle-reconcile_transaction : (hash : ℕ) → Idle i (reconcile_transaction config viem hash)
    unfolding reconcile_transaction
    Idle-reconcile_transaction hash =
        Idle->>= i _ _ (Neutral-read i (λ env. ok env.receipt) (λ env. tt)) by_receipt
      where
        by_receipt : (r : Option Receipt) → Idle i (against_latest config viem r)
        by_receipt none = Neutral-end i _
        by_receipt (some receipt) =
            Idle->>= i _ _ (Neutral-read_chain i (λ env. env.block_number))
              (λ latest. Neutral-end i _)
