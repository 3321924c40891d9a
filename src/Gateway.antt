-- ===== src/Gateway.antt =====
-- The realtime gateway, api/src/ws/ws.gateway.ts, with the message limit of
-- api/src/common/ws-rate.ts and the payloads of api/src/ws/types.ts.
-- The clock is an argument. A field that a payload lacks is the empty text, as `|| ''` makes it, and
-- a sequence number is a natural number.
pub mod Text
pub mod Channels
pub mod Batches
pub mod Updates
pub mod Presence
pub mod Offline
pub mod Claims
pub mod Sessions
pub mod Fanout
pub mod Connection
mod Tests
use realtime_collaborative_e.Base.{ℕ, String, Option, List}

-- `client.data`: the identifier of the user, if the socket is authenticated, and the documents that
-- it joined.
pub record Client : Type 0 where
  pub user : Option String
  pub joined_docs : List String

pub data Throw : Type 0 where
  not_authenticated rate_limited document_required invalid_payload not_in_room : Throw
  update_too_large invalid_update document_not_found forbidden room_full sync_failed : Throw
