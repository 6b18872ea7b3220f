-- ===== src/Setup/Run.antt =====
-- cmd/passive-solar-mqtt/main.go: `run`, which connects the client and starts the capture with it.
-- That the client is closed at the end, which is deferred, is left out, as is what is printed.
pub mod Delivered
mod Runs
use passive_solar_mqtt_bridg.Prelude.{
  ℕ, ◌-◌, ◌%◌, ◌^◌, Bool, true, false, Option, none, some, List, [], ◌∷◌, ◌++◌, Bytes,
  if◌then◌else◌,
}
use passive_solar_mqtt_bridg.Prelude.Equality.{Eq}
use passive_solar_mqtt_bridg.Prelude.Text.{codes, is_empty}
use passive_solar_mqtt_bridg.Config
use passive_solar_mqtt_bridg.Config.{Config, ℤ, pos, negsuc, InputMode, unset, unsupported}
use passive_solar_mqtt_bridg.HomeAssistant.{Sensor}
use passive_solar_mqtt_bridg.Mqtt.{Message, status_suffix, status_message}
use passive_solar_mqtt_bridg.Mqtt.Client
use passive_solar_mqtt_bridg.Mqtt.Client.{
  Network, Options, Result, no_address, dial_failed, password_failed, username_required,
  write_failed, read_failed, rejected, new_client, connect, client_accepts, publish_json,
  publish_each,
}
use passive_solar_mqtt_bridg.Capture.File.{PacketFile, FileResult, open_packet_file, read_file}
use passive_solar_mqtt_bridg.Capture.Processor.{Calls, ProcessorOptions}
use passive_solar_mqtt_bridg.Capture.Live.{
  System, LiveResult, captured, running, stopped, receive_failed, process_failed, read_live,
}

-- `uint16` of a Go `int`.
unfoldable pub uint16 : ℤ → ℕ
uint16 (pos n) = n % 2 ^ 16
uint16 (negsuc n) = 2 ^ 16 - 1 - n % 2 ^ 16

unfoldable pub client_options : Config → Options
client_options cfg = record {
  broker = cfg.mqtt.broker;
  client_id =
      if is_empty cfg.homeassistant.device_id
      then codes "passive-solar-mqtt"
      else cfg.homeassistant.device_id;
  username = cfg.mqtt.username;
  password_file = cfg.mqtt.password_file;
  keep_alive = 0;
  will = record {
    topic = cfg.mqtt.topic_base ++ status_suffix;
    payload = codes "offline";
    retained = true;
  };
}

-- `capture.FileOptions` and `capture.LiveOptions`, which both become these.
unfoldable pub processor_options :
    Config → List Sensor → Option (List Message → Message → Bool) → ProcessorOptions
processor_options cfg sensors publisher = record {
  source_ip = cfg.capture.source_ip;
  cloud_ip = cfg.capture.cloud_ip;
  cloud_port = uint16 cfg.capture.cloud_port;
  topic_base = cfg.mqtt.topic_base;
  device_id = cfg.homeassistant.device_id;
  device_name = cfg.homeassistant.device_name;
  discovery_prefix = cfg.homeassistant.discovery_prefix;
  sensors = sensors;
  publisher = publisher;
}

-- How `run` ends. A live capture that ends without an error comes with what became of the message
-- that says so, if there is a client.
pub data RunEnd (Ip N O : Type 0) : Type 0 where
  not_connected : Result → RunEnd Ip N O
  file_ended : FileResult Ip N O → RunEnd Ip N O
  live_ended : LiveResult Ip N O → Option Result → RunEnd Ip N O

-- `if cfg.Input.Mode == config.InputModeFile`, and the rest of `run`.
unfoldable pub by_mode : {A : Type 0} → InputMode → A → A → A
by_mode Config.file from_file otherwise = from_file
by_mode Config.interface from_file otherwise = otherwise
by_mode unset from_file otherwise = otherwise
by_mode (unsupported mode) from_file otherwise = otherwise

module _ {Ip N O : Type 0} ⦃same : Eq Ip⦄ (net : Network) (calls : Calls Ip N O)
    (system : System Ip) (file_at : Bytes → PacketFile Ip) (done_before : ℕ → Bool) where
  -- `publishOfflineStatus`, by the client after the messages that it published.
  unfoldable pub publish_offline_status : Client.Client → Bytes → List Message → Result
  publish_offline_status c topic_base published =
      (publish_json net (publish_each net c published).0
        (status_message topic_base (codes "offline"))).1

  -- The end of `run` for a live capture.
  unfoldable pub say_offline : Option Client.Client → Bytes → LiveResult Ip N O → Option Result
  say_offline none topic_base r = none
  say_offline (some c) topic_base (captured p stopped) =
      some (publish_offline_status c topic_base p.published)
  say_offline (some c) topic_base r = none

  -- `run` with the client, if publishing is enabled.
  unfoldable pub run_with : Option Client.Client → Config → List Sensor → RunEnd Ip N O
  run_with client cfg sensors =
      let publisher : Option (List Message → Message → Bool) = elim client [
        | none ↦ none
        | some c ↦ some (client_accepts net c)
      ] in
      let opts = processor_options cfg sensors publisher in
      let from_file = file_ended (
        read_file calls done_before cfg.simulation.realtime opts cfg.input.file
          (open_packet_file (file_at cfg.input.file))) in
      let live = read_live calls system opts cfg.input.interface in
      let from_interface = live_ended live (say_offline client cfg.mqtt.topic_base live) in
      by_mode cfg.input.mode from_file from_interface

  unfoldable pub run_connected : Config → List Sensor → Client.Client × Result → RunEnd Ip N O
  run_connected cfg sensors (c, Client.ok) = run_with (some c) cfg sensors
  run_connected cfg sensors (c, r) = not_connected r

  unfoldable pub run : Config → List Sensor → RunEnd Ip N O
  run cfg sensors =
      if cfg.mqtt.enabled
      then run_connected cfg sensors (connect net (new_client (client_options cfg)))
      else run_with none cfg sensors
