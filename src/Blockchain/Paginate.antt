-- ===== src/Blockchain/Paginate.antt =====
-- `paginateLogs` of src/blockchain/blockchain.service.ts: a block range is read in chunks.
use avasettile.Common.{ℕ, zero, suc, ◌+◌, ◌-◌, List, [], ◌++◌, ltb, if◌then◌else◌}
use avasettile.Effect.{pure, ◌>>=◌}
use avasettile.World.{Handler}

-- `chunkSize`
abbrev pub chunk_size : ℕ
chunk_size = 2000

abbrev pub chunk_end : ℕ → ℕ → ℕ
chunk_end from to = if ltb (from + chunk_size - 1) to then from + chunk_size - 1 else to

module _ {T : Type 0} (fetch_chunk : ℕ → ℕ → Handler (List T)) where
  -- The loop, on fuel: each round starts a chunk further.
  unfoldable pub chunks_from : ℕ → ℕ → ℕ → Handler (List T)
  chunks_from zero from to = pure []
  chunks_from (suc fuel) from to = if ltb to from then pure [] else (do
    chunk ← fetch_chunk from (chunk_end from to)
    rest ← chunks_from fuel (from + chunk_size) to
    pure (chunk ++ rest))

  -- There are no more rounds than blocks in the range.
  unfoldable pub paginate_logs : ℕ → ℕ → Handler (List T)
  unfolding chunks_from
  paginate_logs from to = chunks_from (to + 1 - from) from to
