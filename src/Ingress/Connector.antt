-- ===== src/Ingress/Connector.antt =====
-- supervisor/internal/ingress/connector.go: what a provider supplies to the handler. Texts that are
-- only compared are strings, all others are lists of bytes. `crypto/hmac` and `encoding/json` are
-- parameters of the providers, not of the interface.
use garrison.Common.{ℕ, String, Bool, Option, List, Result}

abbrev pub Text : Type 0
Text = List ℕ

-- The headers that a provider reads, `""` if absent, and the body; `none` is a failed read.
pub record Request : Type 0 where
  pub body : Option Text
  pub event_header : String
  pub delivery_header : String
  pub signature_header : Text

pub data FilterDecision : Type 0 where
  filter_accept filter_discard : FilterDecision

pub record TicketDraft : Type 0 where
  pub department_slug : String
  pub objective : Text
  pub acceptance : Text
  pub external_id : Text
  pub external_url : Text

-- The errors of `Map`: `ErrNoMapping`, or any other.
pub data MapError : Type 0 where
  no_mapping malformed_delivery unparseable : MapError

-- `filter` logs its error and keeps its decision, so only the decision is here.
pub record Connector : Type 0 where
  pub id : String
  pub event_type : Request → Option String
  pub subscribed : String → Bool
  pub delivery_id : Request → String
  pub verify_signature : Text → Request → Text → Bool
  pub filter : String → Text → FilterDecision
  pub map_event : String → Text → Result MapError TicketDraft
