-- ===== src/Setup/Run/Delivered.antt =====
-- From a run of the program to what the broker receives.
use passive_solar_mqtt_bridg.Prelude.{
  ℕ, ◌≡◌, refl, sym, ap, ◌∙◌, if◌then◌else◌, Bool, true, Option, none, some, List, [], ◌∷◌, ◌++◌,
  Bytes, arith,
}
use mathlib.Core.Path.{subst}
use passive_solar_mqtt_bridg.Prelude.Equality.{Eq}
use passive_solar_mqtt_bridg.Config
use passive_solar_mqtt_bridg.Config.{Config, InputMode, unset, unsupported}
use passive_solar_mqtt_bridg.HomeAssistant.{Sensor}
use passive_solar_mqtt_bridg.Mqtt.{Message}
use passive_solar_mqtt_bridg.Mqtt.Client
use passive_solar_mqtt_bridg.Mqtt.Client.{
  Network, Result, no_address, dial_failed, password_failed, username_required, write_failed,
  read_failed, rejected, new_client, connect, client_accepts, publish_each,
}
use passive_solar_mqtt_bridg.Mqtt.Client.Session.{connect-IsSession}
use passive_solar_mqtt_bridg.Mqtt.Client.Series.{
  Delivers, publish_each-append, publish_each-Delivers,
}
use passive_solar_mqtt_bridg.Capture.File
use passive_solar_mqtt_bridg.Capture.File.{
  PacketFile, open_packet_file, FileResult, path_required, open_failed, read,
}
use passive_solar_mqtt_bridg.Capture.Processor.{Calls}
use passive_solar_mqtt_bridg.Capture.Live
use passive_solar_mqtt_bridg.Capture.Live.{
  System, LiveResult, interface_required, detection_failed, no_interface, no_socket, not_bound,
  captured,
}
use passive_solar_mqtt_bridg.Capture.Accepted.{IsFileFed, read_file-IsFileFed}
use passive_solar_mqtt_bridg.Capture.Accepted.Live.{IsLiveFed, read_live-IsLiveFed}
use passive_solar_mqtt_bridg.Setup.Run.{
  RunEnd, not_connected, file_ended, live_ended, by_mode, client_options, processor_options,
  run_with, run_connected, run,
}

-- What the processor published, where a run comes to read packets.
unfoldable pub published_by : {Ip N O : Type 0} → RunEnd Ip N O → Option (List Message)
published_by (not_connected r) = none
published_by (file_ended path_required) = none
published_by (file_ended open_failed) = none
published_by (file_ended File.invalid_address) = none
published_by (file_ended (File.start_failed o)) = none
published_by (file_ended (read q end)) = some q.published
published_by (live_ended interface_required o) = none
published_by (live_ended detection_failed o) = none
published_by (live_ended no_interface o) = none
published_by (live_ended no_socket o) = none
published_by (live_ended not_bound o) = none
published_by (live_ended Live.invalid_address o) = none
published_by (live_ended (Live.start_failed e) o) = none
published_by (live_ended (captured q end) o) = some q.published

by_mode-each :
    {A : Type 0} (P : A → Type 0) (mode : InputMode) (x y : A) → P x → P y → P (by_mode mode x y)
unfolding by_mode
by_mode-each P Config.file x y h k = h
by_mode-each P Config.interface x y h k = k
by_mode-each P unset x y h k = k
by_mode-each P (unsupported mode) x y h k = k

module _ {Ip N O : Type 0} ⦃same : Eq Ip⦄ (net : Network) (calls : Calls Ip N O)
    (system : System Ip) (file_at : Bytes → PacketFile Ip) (done_before : ℕ → Bool) where
  module _ (c : Client.Client) where
    abbrev Publishes : List Message → Type 0
    Publishes ms = (publish_each net c ms).1 ≡ Client.ok

    abbrev PublishesAll : Option (List Message) → Type 0
    PublishesAll none = Unit
    PublishesAll (some ms) = Publishes ms

    keeps :
        (sent : List Message) (m : Message)
        → client_accepts net c sent m ≡ true
        → Publishes sent
        → Publishes (sent ++ m ∷ [])
    keeps sent m a h = publish_each-append net c sent m h a

    file_published :
        (r : FileResult Ip N O)
        → IsFileFed calls (client_accepts net c) Publishes keeps r
        → PublishesAll (published_by (file_ended r))
    unfolding published_by
    file_published path_required h = tt
    file_published open_failed h = tt
    file_published File.invalid_address h = tt
    file_published (File.start_failed o) h = tt
    file_published (read q end) (fed, h) = h

    live_published :
        (r : LiveResult Ip N O) (o : Option Result)
        → IsLiveFed calls (client_accepts net c) Publishes keeps r
        → PublishesAll (published_by (live_ended r o))
    unfolding published_by
    live_published interface_required o h = tt
    live_published detection_failed o h = tt
    live_published no_interface o h = tt
    live_published no_socket o h = tt
    live_published not_bound o h = tt
    live_published Live.invalid_address o h = tt
    live_published (Live.start_failed e) o h = tt
    live_published (captured q end) o (fed, h) = h

    run_with-PublishesAll :
        (cfg : Config) (sensors : List Sensor)
        → PublishesAll
            (published_by (run_with net calls system file_at done_before (some c) cfg sensors))
    unfolding run_with processor_options publish_each
    run_with-PublishesAll cfg sensors =
        let opts = processor_options cfg sensors (some (client_accepts net c)) in
        by_mode-each (λ (r : RunEnd Ip N O). PublishesAll (published_by r)) cfg.input.mode _ _
          (file_published _ (
            read_file-IsFileFed calls (client_accepts net c) Publishes keeps done_before
              cfg.simulation.realtime opts cfg.input.file
              (open_packet_file (file_at cfg.input.file)) refl refl))
          (live_published _ _ (
            read_live-IsLiveFed calls (client_accepts net c) Publishes keeps system opts refl refl
              cfg.input.interface))

    -- A client that connects is one on which the broker got the CONNECT packet.
    run_connected-PublishesAll :
        (cfg : Config) (sensors : List Sensor) (r : Result) (ms : List Message)
        → published_by (run_connected net calls system file_at done_before cfg sensors (c, r))
          ≡ some ms
        → (r ≡ Client.ok) × Publishes ms
    unfolding run_connected published_by
    run_connected-PublishesAll cfg sensors Client.ok ms h =
        (refl, subst PublishesAll h (run_with-PublishesAll cfg sensors))
    run_connected-PublishesAll cfg sensors no_address ms h = absurd (ground arith)
    run_connected-PublishesAll cfg sensors dial_failed ms h = absurd (ground arith)
    run_connected-PublishesAll cfg sensors password_failed ms h = absurd (ground arith)
    run_connected-PublishesAll cfg sensors username_required ms h = absurd (ground arith)
    run_connected-PublishesAll cfg sensors write_failed ms h = absurd (ground arith)
    run_connected-PublishesAll cfg sensors read_failed ms h = absurd (ground arith)
    run_connected-PublishesAll cfg sensors rejected ms h = absurd (ground arith)

  -- The client that a run connects, and whether that succeeds.
  abbrev pub first_connection : Config → Client.Client × Result
  first_connection cfg = connect net (new_client (client_options cfg))

  run_enabled :
      (cfg : Config) (sensors : List Sensor)
      → cfg.mqtt.enabled ≡ true
      → run net calls system file_at done_before cfg sensors
        ≡ run_connected net calls system file_at done_before cfg sensors (first_connection cfg)
  unfolding run
  run_enabled cfg sensors on =
      ap
        (λ (b : Bool).
          if b
          then run_connected net calls system file_at done_before cfg sensors (first_connection cfg)
          else run_with net calls system file_at done_before none cfg sensors)
        on

  -- From a run to the broker. Publishing is enabled, and a run comes to read packets, from a file
  -- or from an interface, wherever it stops then. Then the client connected, and it published every
  -- message that the processor counts as published, in their order and without an error; and after
  -- each of them, what the broker got on the connection that the client then holds, which the
  -- broker accepted, is exactly the CONNECT packet with the offline message as its last will, and
  -- the packets of a last part of the messages so far, of which that message is the last.
  pub run-Delivers :
      (cfg : Config) (sensors : List Sensor) (ms : List Message)
      → cfg.mqtt.enabled ≡ true
      → published_by (run net calls system file_at done_before cfg sensors) ≡ some ms
      → let c = (first_connection cfg).0 in
        ((first_connection cfg).1 ≡ Client.ok)
        × ((publish_each net c ms).1 ≡ Client.ok)
        × Delivers net (new_client (client_options cfg)).opts c [] ms
  unfolding new_client
  run-Delivers cfg sensors ms on h =
      let (c, r) = first_connection cfg in
      let (connected, all) =
        run_connected-PublishesAll c cfg sensors r ms
          (ap published_by (sym (run_enabled cfg sensors on)) ∙ h) in
      let session = connect-IsSession net (new_client (client_options cfg)) refl connected in
      (
        connected,
        all,
        publish_each-Delivers net (new_client (client_options cfg)).opts c ms session all,
      )
