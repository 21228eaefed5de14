-- ===== src/Records/Outbox.antt =====
-- The webhook outbox and its delivery log (src/webhooks/webhook.service.ts,
-- db/migrations/001_init.sql). Events are named as the source names them.
use avasettile.Common.{ℕ, Bool, String, Option}
use avasettile.Effect.{Error}
use avasettile.Records.Common.{Json}

pub data OutboxStatus : Type 0 where
  pending delivering delivered failed skipped : OutboxStatus

-- What `last_error` tells: an HTTP status, the message of an error, or that there is no endpoint.
pub data DeliveryError : Type 0 where
  http_error : ℕ → DeliveryError
  raised : Error → DeliveryError
  no_endpoint : DeliveryError

pub record OutboxRow : Type 0 where
  pub id : ℕ
  pub client_id : ℕ
  pub event : String
  pub payload : Json
  pub status : OutboxStatus
  pub attempts : ℕ
  pub next_attempt_at : ℕ
  pub last_error : Option DeliveryError
  pub updated_at : ℕ

abbrev pub outbox_key : OutboxRow → ℕ
outbox_key r = r.id

pub record Delivery : Type 0 where
  pub id : ℕ
  pub client_id : ℕ
  pub event : String
  pub url : String
  pub payload : Json
  pub success : Bool
  pub attempts : ℕ
  pub last_error : Option DeliveryError
  pub delivered_at : Option ℕ
  pub created_at : ℕ

-- An HTTP POST that was handed to the network, with the status of its response if there was one.
-- `row` says for which outbox row it was sent, which the request does not show.
pub record Post : Type 0 where
  pub row : ℕ
  pub url : String
  pub body : Json
  pub signature : Option String
  pub status : Option ℕ

pub record ClientRecord : Type 0 where
  pub id : ℕ
  pub active : Bool
  pub webhook_url : Option String
  pub webhook_secret : Option String

abbrev pub client_key : ClientRecord → ℕ
client_key c = c.id
