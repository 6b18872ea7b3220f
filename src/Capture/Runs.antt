-- ===== src/Capture/Runs.antt =====
-- The processor at concrete inputs.
use passive_solar_mqtt_bridg.Prelude.{
  ℕ, ◌+◌, ◌≡◌, refl, inl, true, false, some, List, [], ◌∷◌, Bytes, length,
}
use passive_solar_mqtt_bridg.Prelude.Equality.{nat_eq, string_eq}
use passive_solar_mqtt_bridg.Reassembly.{new_assembler}
use passive_solar_mqtt_bridg.Reassembly.Complete.{IsPiece}
use passive_solar_mqtt_bridg.State.{text}
use passive_solar_mqtt_bridg.Config.Text.{to_lower}
use passive_solar_mqtt_bridg.Prelude.Text.{codes, bytes_eq}
use passive_solar_mqtt_bridg.Capture.{Packet}
use passive_solar_mqtt_bridg.Capture.Processor.{
  Calls, ProcessorOptions, Processor, no_summary, segment_of,
}
use passive_solar_mqtt_bridg.Capture.Live.{
  System, no_packet, on_link, timed_out, received, interrupted, read_rounds,
}
use passive_solar_mqtt_bridg.Capture.Live.Agree.{records_of, as_read_end, read_rounds-read_frames}
use passive_solar_mqtt_bridg.Capture.File.{
  Record, read_file, frame, no_ipv4, no_tcp, tcp, read_frames,
}
use passive_solar_mqtt_bridg.Capture.Summary.Whole.{EndsSound, read_file-EndsSound}

-- A text is one field, named "raw", and every state is written as "{}".
abbrev calls : Calls ℕ ℕ ℕ
calls = record {
  parse_ip = λ text. some (length text);
  flow_name = λ a b c d. "a";
  unmarshal = λ raw. some ((codes "raw", text raw) ∷ []);
  floats = record {
    nothing = 0;
    add = λ m n. m + n;
    of_int = λ i. 0;
    parse_float = λ t. some (length t);
    print_number = λ n. [];
    print_int = λ i. [];
    print_other = λ o. [];
    lower_runes = to_lower;
  };
  marshal_state = λ p. some (b'{' ∷ b'}' ∷ []);
  marshal_discovery = λ p. some p.name;
}

abbrev opts : ProcessorOptions
opts = record {
  source_ip = 1 ∷ [];
  cloud_ip = [];
  cloud_port = 7777;
  topic_base = b't' ∷ [];
  device_id = [];
  device_name = [];
  discovery_prefix = [];
  sensors = [];
  publisher = some (λ sent m. true);
}

abbrev idle : Processor ℕ ℕ ℕ
idle = record {
  opts = opts;
  source_ip = 1;
  cloud_ip = 0;
  assembler = new_assembler;
  decoders = [];
  fields = [];
  summary = no_summary;
  published = [];
}

abbrev frames : List (ℕ × Bytes)
frames = (9, b'{' ∷ b'}' ∷ []) ∷ []

abbrev runs : List Bytes
runs = (1 ∷ 1 ∷ 9 ∷ []) ∷ (0 ∷ 0 ∷ 0 ∷ 2 ∷ b'{' ∷ b'}' ∷ 0xbd ∷ 0x1c ∷ []) ∷ []

-- A packet from the inverter to its cloud.
abbrev packet : ℕ → Bytes → Packet ℕ
packet seq payload = record {
  src_ip = 1;
  dst_ip = 0;
  src_port = 5;
  dst_port = 7777;
  seq = seq;
  payload = payload;
}

abbrev opening : Packet ℕ
opening = packet 100 (1 ∷ 1 ∷ 9 ∷ [])

abbrev closing : Packet ℕ
closing = packet 103 (0 ∷ 0 ∷ 0 ∷ 2 ∷ b'{' ∷ b'}' ∷ 0xbd ∷ 0x1c ∷ [])

abbrev opening-IsPiece : IsPiece 100 runs (segment_of calls opening)
unfolding segment_of
opening-IsPiece = record { place = 0; at_place = refl; is_piece = inl (refl, refl) }

-- The cloud answers between the two packets, and something else than IPv4 is seen before them.
abbrev answer : Packet ℕ
answer = record {
  src_ip = 0;
  dst_ip = 1;
  src_port = 7777;
  dst_port = 5;
  seq = 900;
  payload = 7 ∷ [];
}

abbrev records : List (Record ℕ)
records =
    frame 1 no_ipv4
    ∷ frame 2 (tcp opening)
    ∷ frame 3 (tcp answer)
    ∷ frame 4 no_tcp
    ∷ frame 5 (tcp closing)
    ∷ []

read_file-EndsSound_example :
    EndsSound (read_file calls (λ delay. true) true opts (b'f' ∷ []) (some records))
read_file-EndsSound_example =
    read_file-EndsSound calls (λ delay. true) true opts (b'f' ∷ []) (some records)

-- The loopback comes first, and a packet on it; the packet on the second interface decides.
abbrev system : System ℕ
system = record {
  interfaces = λ call. some (
      record { index = 1; name = codes "lo"; is_up = true; is_loopback = true }
      ∷ record { index = 2; name = codes "eth0"; is_up = true; is_loopback = false }
      ∷ []);
  interface_by_name = λ call name. some 2;
  socket = λ call. true;
  bind = λ index. true;
  sniffs = λ call. no_packet ∷ on_link 1 (tcp opening) ∷ on_link 2 (tcp opening) ∷ [];
  rounds = timed_out ∷ received 2 (tcp opening) ∷ interrupted true ∷ [];
}

read_rounds-read_frames_example :
    read_frames calls (λ delay. false) false idle 0 (records_of system.rounds) ≡ (
      (read_rounds calls idle system.rounds).0,
      as_read_end (read_rounds calls idle system.rounds).1,
    )
read_rounds-read_frames_example =
    read_rounds-read_frames calls (λ delay. false) idle 0 system.rounds
