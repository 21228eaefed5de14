-- ===== src/World/State.antt =====
-- The state that outlives a request, and what the outside answers to one call.
use avasettile.Common.{ℕ, Bool, String, Option, List}
use avasettile.Records.Common.{AuditEvent}
use avasettile.Records.Payout.{PayoutRecord}
use avasettile.Records.PayIn.{PayInRecord}
use avasettile.Records.Settlement.{PrivateSettlementRecord, Publication}
use avasettile.Records.Outbox.{OutboxRow, Delivery, Post, ClientRecord}

pub data Rail : Type 0 where
  direct vault : Rail

-- A token movement of a transaction that was handed to the network. `payout` says for which payout
-- it was sent, which the program knows at that point and the transaction does not show.
pub record Leg : Type 0 where
  pub payout : ℕ
  pub rail : Rail
  pub token : ℕ
  pub to : ℕ
  pub amount : ℕ

-- An ERC-20 transfer from a deposit address to the treasury that was handed to the network.
pub record Sweep : Type 0 where
  pub index : ℕ
  pub token : ℕ
  pub amount : ℕ

pub record World : Type 0 where
  pub payouts : List PayoutRecord
  pub payins : List PayInRecord
  -- `avasettle_idempotency_keys`, whose key is a client and the client's own key
  pub idempotency_keys : List ((Option ℕ × String) × ℕ)
  -- the row `payin_address_index` of `avasettle_counters`
  pub payin_address_index : ℕ
  pub audit_events : List AuditEvent
  pub outbox : List OutboxRow
  pub deliveries : List Delivery
  pub posts : List Post
  pub clients : List ClientRecord
  pub settlements : List PrivateSettlementRecord
  pub publications : List Publication
  pub broadcasts : List Leg
  pub sweeps : List Sweep

-- A statement may be executed though its reply is lost with the connection.
pub data DatabaseAnswer : Type 0 where
  answered refused reply_lost : DatabaseAnswer

-- A transaction may be sent though the client reports an error.
pub data SendAnswer : Type 0 where
  sent : ℕ → SendAnswer
  sent_unknown not_sent : SendAnswer

pub record Receipt : Type 0 where
  pub success : Bool
  pub block_number : ℕ

-- What `getLogs` selects: the event with its indexed arguments, of a contract and a block range.
pub data LogTopics : Type 0 where
  transfer_to : ℕ → LogTopics
  invoice_paid : (invoice_id token : ℕ) → LogTopics

pub record LogFilter : Type 0 where
  pub address : ℕ
  pub topics : LogTopics
  pub from_block : ℕ
  pub to_block : ℕ

-- A log; `from` and `to` are the payer and the treasury of an `InvoicePaid` log.
pub record Log : Type 0 where
  pub transaction_hash : Option ℕ
  pub block_number : Option ℕ
  pub log_index : Option ℕ
  pub from : Option ℕ
  pub to : Option ℕ
  pub value : Option ℕ

-- What one call is answered. A call reads the fields that it needs; `none` is a failed RPC call.
pub record Outside : Type 0 where
  pub database : DatabaseAnswer
  pub now : ℕ
  pub uuid : ℕ
  pub random_bytes : ℕ
  pub block_number : Option ℕ
  pub token_balance : Option ℕ
  pub native_balance : Option ℕ
  pub funder : Option ℕ
  pub allowance : Option ℕ
  pub send : SendAnswer
  pub receipt : Option Receipt
  pub logs : LogFilter → Option (List Log)
  pub http_status : Option ℕ
