-- ===== src/Blockchain/Coverage.antt =====
-- That the chunks of `paginateLogs` cover the block range (src/blockchain/blockchain.service.ts).
use avasettile.Common.{
  ℕ, zero, suc, ◌+◌, ◌-◌, ◌≤◌, ◌≡◌, refl, sym, ap, ◌∙◌, false, List, [], ◌++◌, arith, ltb,
  Bool-cases, inl, inr,
}
use mathlib.Core.List.{append_assoc}
use avasettile.Effect.{pure, ◌>>=◌}
use avasettile.World.{Handler}
use avasettile.Blockchain.Paginate.{paginate_logs, chunks_from, chunk_end, chunk_size}

module _ {T : Type 0} (logs_at : ℕ → List T) where
  -- The logs of so many blocks from a block on, in order.
  unfoldable pub blocks_from : ℕ → ℕ → List T
  blocks_from from zero = []
  blocks_from from (suc count) = logs_at from ++ blocks_from (from + 1) count

  -- One `getLogs` of both ends inclusive.
  abbrev pub logs_between : ℕ → ℕ → List T
  logs_between from to = blocks_from from (to + 1 - from)

  blocks_from-same : {a b m n : ℕ} → a ≡ b → m ≡ n → blocks_from a m ≡ blocks_from b n
  blocks_from-same e f = cc

  pub blocks_from-split :
      (from m n : ℕ) → blocks_from from (m + n) ≡ blocks_from from m ++ blocks_from (from + m) n
  unfolding blocks_from
  blocks_from-split from zero n = blocks_from-same (omega arith) (omega arith)
  blocks_from-split from (suc m) n =
      blocks_from-same {a = from} {m = suc m + n} {n = suc (m + n)} refl (omega arith)
      ∙ ap (λ ls. logs_at from ++ ls)
          (blocks_from-split (from + 1) m n
            ∙ ap (λ ls. blocks_from (from + 1) m ++ ls)
                (blocks_from-same {a = from + 1 + m} {b = from + suc m} {m = n} (omega arith) refl))
      ∙ sym (append_assoc (logs_at from) (blocks_from (from + 1) m) (blocks_from (from + suc m) n))

  pub blocks_from-cut :
      (from mid end : ℕ)
      → from ≤ mid
      → mid ≤ end
      → blocks_from from (end - from) ≡ blocks_from from (mid - from) ++ blocks_from mid (end - mid)
  blocks_from-cut from mid end le le' =
      blocks_from-same {a = from} {m = end - from} {n = (mid - from) + (end - mid)} refl
        (omega arith)
      ∙ blocks_from-split from (mid - from) (end - mid)
      ∙ ap (λ ls. blocks_from from (mid - from) ++ ls)
          (blocks_from-same {a = from + (mid - from)} {b = mid} {m = end - mid} (omega arith) refl)

  -- What follows a chunk is empty, or it starts where the chunk ends.
  tail-same :
      (from to : ℕ)
      → blocks_from (from + (chunk_end from to + 1 - from)) (to + 1 - (from + chunk_size))
        ≡ blocks_from (from + chunk_size) (to + 1 - (from + chunk_size))
  unfolding blocks_from
  tail-same from to = elim (Bool-cases (ltb (from + chunk_size - 1) to)) [
    | inl more ↦ blocks_from-same (ground arith) refl
    | inr last ↦
        let none_left : to + 1 - (from + chunk_size) ≡ 0 = ground arith in rw none_left refl
  ]

  chunk_joins :
      (from to : ℕ)
      → ltb to from ≡ false
      → logs_between from (chunk_end from to)
          ++ blocks_from (from + chunk_size) (to + 1 - (from + chunk_size))
        ≡ logs_between from to
  chunk_joins from to inside =
      ap (λ ls. logs_between from (chunk_end from to) ++ ls) (sym (tail-same from to))
      ∙ sym (blocks_from-split from (chunk_end from to + 1 - from) (to + 1 - (from + chunk_size)))
      ∙ blocks_from-same refl (ground arith)

  abbrev pub answer_between : ℕ → ℕ → Handler (List T)
  answer_between from to = pure (logs_between from to)

  -- With a round of fuel for each block that is left, the loop reads them all.
  chunks_from-covers :
      (fuel from to : ℕ)
      → to + 1 - from ≤ fuel
      → chunks_from answer_between fuel from to ≡ pure (logs_between from to)
  unfolding chunks_from ◌>>=◌ blocks_from
  chunks_from-covers zero from to enough =
      ap (λ ls. pure ls) (blocks_from-same {a = from} {m = 0} refl (omega arith))
  chunks_from-covers (suc fuel) from to enough = elim (Bool-cases (ltb to from)) [
    | inl past ↦
        rw past (ap (λ ls. pure ls) (blocks_from-same {a = from} {m = 0} refl (ground arith)))
    | inr inside ↦ rw inside (
        rw (chunks_from-covers fuel (from + chunk_size) to (ground arith))
          (ap (λ ls. pure ls) (chunk_joins from to inside)))
  ]

  -- If each `getLogs` answers the logs of the blocks of its range, both ends included, then
  -- `paginateLogs` returns, for any two ends, what one `getLogs` of the whole range would: every
  -- log of the range, once and in order, and none if the range is empty.
  pub paginate_logs-whole_range :
      (from to : ℕ) → paginate_logs answer_between from to ≡ pure (logs_between from to)
  unfolding paginate_logs
  paginate_logs-whole_range from to = chunks_from-covers (to + 1 - from) from to (omega arith)
