-- ===== src/Events.antt =====
-- internal/events/events.go: the event that an emitter gets, less its random identifier and its time.
pub mod Webhook
mod Tests
use tokenomics.Base.{String, Bool}
use tokenomics.Base.Dict.{Dict}
use tokenomics.Base.Word.{Int64}

-- What an event's data holds.
pub data Value : Type 0 where
  words : String → Value
  whole : Int64 → Value
  flag : Bool → Value

pub record Event : Type 0 where
  pub type : String
  pub payload : Dict String Value
