-- ===== src/Mqtt/Client/Runs.antt =====
-- The client at concrete networks.
use passive_solar_mqtt_bridg.Prelude.{
  ◌≡◌, refl, true, false, not, inl, some, none, [], ◌∷◌, length, if◌then◌else◌,
}
use passive_solar_mqtt_bridg.Prelude.Text.{codes, same_bytes}
use passive_solar_mqtt_bridg.Mqtt.{Message}
use passive_solar_mqtt_bridg.Mqtt.Packet.{
  connect_packet, encode_remaining_length, length_digits, append_given, append_utf8, publish_packet,
}
use passive_solar_mqtt_bridg.Mqtt.Client.{
  answered, wrote, dialled, Network, Options, Client, ok, new_client, broker_address, read_password,
  is_accepted, contains_byte, publish_json, connect, greet, introduce, write_full, write_rounds,
  await_answer, write_again, write_packet,
}
use passive_solar_mqtt_bridg.Mqtt.Client.Trace.{
  Trace, connecting, closing, publishing, run_calls, run_calls-Trace,
}
use passive_solar_mqtt_bridg.Mqtt.Client.Session.{IsDelivered, greeting, publish_json-IsDelivered}
use passive_solar_mqtt_bridg.Mqtt.Client.Recovery.{has_closed}

-- A network on which the first connection breaks.
abbrev breaking : Network
breaking = record {
  parse_url = λ raw. some (codes "tcp", raw);
  dial = λ log address. true;
  write = λ log bytes. (if has_closed log then length bytes else 1, not (has_closed log));
  read_full = λ log. some (0x20 ∷ 0x02 ∷ 0x00 ∷ 0x00 ∷ []);
  read_file = λ log path. none;
  done_first = λ log. false;
}

-- One that always works.
abbrev steady : Network
steady = record breaking { write = λ log bytes. (length bytes, false) }

abbrev opts : Options
opts = record {
  broker = codes "b";
  client_id = codes "c";
  username = [];
  password_file = [];
  keep_alive = 0;
  will = record { topic = []; payload = []; retained = false };
}

abbrev message : Message
message = record { topic = codes "t"; payload = codes "{}"; retained = true }

-- A client on which the broker got the CONNECT packet, and accepted it.
abbrev connected : Client
connected = record {
  opts = opts;
  conn = some 0;
  log =
      answered 0 (0x20 ∷ 0x02 ∷ 0x00 ∷ 0x00 ∷ [])
      ∷ wrote 0 (greeting opts [])
      ∷ dialled 0 (codes "b:1883")
      ∷ [];
}

abbrev fresh : Client
fresh = record { opts = opts; conn = none; log = [] }

-- The first message of a client connects it.
fresh_published : (publish_json steady fresh message).1 ≡ ok
unfolding publish_json connect broker_address same_bytes contains_byte greet read_password introduce
    write_full write_rounds connect_packet encode_remaining_length length_digits append_given
    append_utf8 await_answer is_accepted write_again write_packet publish_packet
fresh_published = refl

publish_json-IsDelivered_example : IsDelivered opts [] message (publish_json steady fresh message).0
publish_json-IsDelivered_example =
    publish_json-IsDelivered steady opts fresh [] message (inl (refl, refl)) fresh_published

run_calls-Trace_example :
    let c =
      run_calls breaking
        (new_client opts)
        (connecting ∷ publishing message ∷ closing ∷ publishing message ∷ []) in
    Trace c.log c.conn
run_calls-Trace_example =
    run_calls-Trace breaking (λ log. refl) opts
      (connecting ∷ publishing message ∷ closing ∷ publishing message ∷ [])
