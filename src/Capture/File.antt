-- ===== src/Capture/File.antt =====
-- internal/capture/pcap_file.go: the loop that reads a capture file.
-- What the packages pcapgo and gopacket make of a file is a parameter: a list of records.
use passive_solar_mqtt_bridg.Prelude.{
  ℕ, ◌-◌, Bool, true, not, ◌||◌, Option, none, some, List, [], ◌∷◌, Bytes, leb, ◌==◌, if◌then◌else◌,
}
use passive_solar_mqtt_bridg.Prelude.Equality.{Eq}
use passive_solar_mqtt_bridg.Prelude.Text.{is_empty}
use passive_solar_mqtt_bridg.Capture.{Packet, matches_alphaess_flow}
use passive_solar_mqtt_bridg.Capture.Processor.{
  Calls, ProcessorOptions, Processor, Outcome, ok, marshal_failed, publish_failed, discovery_failed,
  add_packet, add_ipv4_packet, add_tcp_packet, process_decoded_tcp, new_processor,
}

-- The layers of a packet that the program asks for.
pub data Layers (Ip : Type 0) : Type 0 where
  no_ipv4 no_tcp : Layers Ip
  tcp : Packet Ip → Layers Ip

-- What `ReadPacketData` returns before the end of the file.
pub data Record (Ip : Type 0) : Type 0 where
  frame : ℕ → Layers Ip → Record Ip
  unreadable : Record Ip

-- Why reading ends: the end of the file, an error of the reader, of the context, or of the
-- processor.
pub data ReadEnd : Type 0 where
  finished read_failed cancelled : ReadEnd
  process_failed : Outcome → ReadEnd

pub data FileResult (Ip N O : Type 0) : Type 0 where
  path_required open_failed invalid_address : FileResult Ip N O
  start_failed : Outcome → FileResult Ip N O
  read : Processor Ip N O → ReadEnd → FileResult Ip N O

-- `waitForReplayTime` returns no error. `done_before` says whether the context is done before the
-- delay is over; a time of 0 is the zero time.
unfoldable pub wait_for_replay_time : (ℕ → Bool) → Bool → ℕ → ℕ → Bool
wait_for_replay_time done_before realtime previous current =
    if not realtime || previous == 0 || current == 0
    then true
    else if leb current previous
    then true
    else not (done_before (current - previous))

-- What is found at a path: whether it opens, what the two readers of pcapgo make of it, `none`
-- where one refuses it, and whether it can be read from its start once more.
pub record PacketFile (Ip : Type 0) : Type 0 where
  pub opens : Bool
  pub as_pcapng : Option (List (Record Ip))
  pub rewinds : Bool
  pub as_pcap : Option (List (Record Ip))

-- `openPacketFile`; `none` where it returns an error.
unfoldable pub open_packet_file : {Ip : Type 0} → PacketFile Ip → Option (List (Record Ip))
open_packet_file f = if not f.opens then none else (elim f.as_pcapng [
  | some records ↦ some records
  | none ↦ if f.rewinds then f.as_pcap else none
])

module _ {Ip N O : Type 0} ⦃same : Eq Ip⦄ (calls : Calls Ip N O) where
  -- The counters of a packet, up to its layers.
  unfoldable pub count_layers : Layers Ip → Processor Ip N O → Processor Ip N O
  count_layers no_ipv4 p = p
  count_layers no_tcp p = add_ipv4_packet p
  count_layers (tcp x) p = add_tcp_packet (add_ipv4_packet p)

  -- The rest of a round of the loop.
  unfoldable pub process_layers : Layers Ip → Processor Ip N O → Processor Ip N O × Outcome
  process_layers no_ipv4 p = (p, ok)
  process_layers no_tcp p = (p, ok)
  process_layers (tcp x) p =
      if matches_alphaess_flow x p.source_ip p.cloud_ip p.opts.cloud_port
      then process_decoded_tcp calls p x
      else (p, ok)

  unfoldable pub process_frame : Processor Ip N O → ℕ → Layers Ip → Processor Ip N O × Outcome
  process_frame p timestamp layers =
      process_layers layers (count_layers layers (add_packet p timestamp))

  -- An error of the processor ends the loop.
  unfoldable pub stop_on :
      Outcome → Processor Ip N O → Processor Ip N O × ReadEnd → Processor Ip N O × ReadEnd
  stop_on ok p rest = rest
  stop_on marshal_failed p rest = (p, process_failed marshal_failed)
  stop_on publish_failed p rest = (p, process_failed publish_failed)
  stop_on discovery_failed p rest = (p, process_failed discovery_failed)

  module _ (done_before : ℕ → Bool) (realtime : Bool) where
    unfoldable pub read_frames :
        Processor Ip N O → ℕ → List (Record Ip) → Processor Ip N O × ReadEnd
    read_frames p previous [] = (p, finished)
    read_frames p previous (unreadable ∷ rs) = (p, read_failed)
    read_frames p previous (frame timestamp layers ∷ rs) =
        let (p', outcome) = process_frame p timestamp layers in
        let rest = read_frames p' timestamp rs in
        if wait_for_replay_time done_before realtime previous timestamp
        then stop_on outcome p' rest
        else (p, cancelled)

    -- `ReadFile`; `none` is a file that does not open.
    unfoldable pub read_file :
        ProcessorOptions → Bytes → Option (List (Record Ip)) → FileResult Ip N O
    read_file opts path opened = if is_empty path then path_required else (elim opened [
      | none ↦ open_failed
      | some records ↦ elim (new_processor calls opts) [
        | none ↦ invalid_address
        | some (p, outcome) ↦ elim outcome [
          | ok ↦ (let (q, end) = read_frames p 0 records in read q end)
          | marshal_failed ↦ start_failed marshal_failed
          | publish_failed ↦ start_failed publish_failed
          | discovery_failed ↦ start_failed discovery_failed
        ]
      ]
    ])
