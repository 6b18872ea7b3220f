-- ===== src/Mqtt.antt =====
-- internal/mqtt: the messages that the program publishes (publisher.go).
pub mod Packet
pub mod Client
use passive_solar_mqtt_bridg.Prelude.{Bool, true, List, [], ◌∷◌, ◌++◌, Bytes}

pub record Message : Type 0 where
  pub topic : Bytes
  pub payload : Bytes
  pub retained : Bool

-- "/raw/state" and "/status". A Go string is the list of its bytes.
abbrev pub raw_state_suffix : Bytes
raw_state_suffix = b'/' ∷ b'r' ∷ b'a' ∷ b'w' ∷ b'/' ∷ b's' ∷ b't' ∷ b'a' ∷ b't' ∷ b'e' ∷ []

abbrev pub status_suffix : Bytes
status_suffix = b'/' ∷ b's' ∷ b't' ∷ b'a' ∷ b't' ∷ b'u' ∷ b's' ∷ []

unfoldable pub raw_state_message : Bytes → Bytes → Message
raw_state_message topic_base payload = record {
  topic = topic_base ++ raw_state_suffix;
  payload = payload;
  retained = true;
}

unfoldable pub status_message : Bytes → Bytes → Message
status_message topic_base status = record {
  topic = topic_base ++ status_suffix;
  payload = status;
  retained = true;
}
