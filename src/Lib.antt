-- ===== src/Lib.antt =====
-- A model of the bridge that listens to the traffic of an AlphaESS inverter and publishes what it
-- reads over MQTT, with proofs about it.
--
-- The program. A capture (a network interface or a pcap file) yields TCP segments. The processor
-- (internal/capture) picks those between the inverter and its cloud, hands the outbound ones to
-- the reassembly (internal/reassembly), which gives back the bytes of each flow in order, and those
-- to the flow's decoder (internal/alphaess), which finds frames and JSON objects in them. Each
-- object's fields are merged into a state (internal/state) that is published (internal/mqtt), and
-- the sensors of the state are announced (internal/homeassistant). The configuration
-- (internal/config) and the options and questions of the command line (cmd/passive-solar-mqtt) say
-- which traffic to pick and where to publish.
--
-- Which file models what.
--   Prelude        shared names, lists, equality as an interface, bits
--   Dict           Go's maps as association lists, with lookup, insert and delete
--   Reassembly     internal/reassembly/reassembly.go: `push_segment` is `Assembler.Push`,
--                  `Reassembly.push`, `accept` and `drain` are `flowState.push`, `push_all` a
--                  capture. Stream, Flows, Complete and Overlap hold the proofs.
--   Alphaess       internal/alphaess/decoder.go: `push` is `Decoder.Push`, `round` one round of its
--                  loop, `consume_frame`, `align_to_next_record_start` and
--                  `discard_oversized_garbage` the methods of these names. Checksum has
--                  `crc16Modbus`, Scan has `findJSONObjectEnd`.
--   Mqtt           internal/mqtt/publisher.go; Mqtt/Packet the packets of internal/mqtt/client.go
--                  and Mqtt/Client its client, method by method, on a network that answers
--   Capture        internal/capture/pcap_file.go: counters and the choice of packets;
--                  Capture/File has `ReadFile` with its loop, Capture/Processor is
--                  internal/capture/processor.go, method by method; Effects, Follows, Pipeline,
--                  Replay, Summary and Accepted hold the proofs; Capture/Live is
--                  internal/capture/live_linux.go
--   State          internal/state/state.go, function by function
--   HomeAssistant  internal/homeassistant/discovery.go, function by function
--   Config         internal/config/config.go: `Normalize`, `Validate` and `Load`; Config/Paths has
--                  `Resolve`, Config/Save `Save`; Config/Text what is used of the package strings,
--                  on ASCII text
--   Setup          cmd/passive-solar-mqtt/main.go: Options has `parseFlags` after the package flag
--                  and `applyInputOverrides`, Prompts the questions, Complete
--                  `completeConfigInteractive`, Start `main` up to `run`, Run `run` with the
--                  client and the captures
--
-- Conventions. A byte is a number below 256 and a Go string the list of its bytes, but for the
-- names of flows, which are texts. A `uint32` is a number below 2 ^ 32 with its wrap-around written
-- out. A method returns the new state of its receiver; an error is a value. Loops that are not
-- structural run on fuel: the decoder's loop has one round more than there are bytes, since a round
-- that goes on takes a byte at least (`Alphaess.Progress.round-shrinks`); the drain of the
-- reassembly has a round for each buffered run; the length encoding has one round more than the
-- length; a question is asked once more than there are bytes of input;
-- a write has one round more than there are bytes, since each takes one.
--
-- Parameters. `json.Unmarshal`, `net.ParseIP` and the test of addresses, the format of a flow's
-- name, `os.Stat`, `os.ExpandEnv`, `filepath.Join`, the environment, the publisher,
-- `json.Marshal`, the characters of a text with the package unicode, and floating point with
-- `strconv.ParseFloat` and `fmt.Sprint` are arguments of the definitions that use them. What the packages pcapgo and gopacket make of a
-- capture file is a list of records, and what the package yaml makes of a mapping file a record.
-- The network and the operating system are records of answers, each of which may depend on what
-- happened before. A Go map is an association list, in the order in which `range` visits it.
--
-- Not modelled. Sockets, files and timers themselves, printed and verbose
-- output, reading and writing YAML, what a write still does after its context is done, of
-- which the client's log only says that it was abandoned, and the deferred `Close` at the end of
-- `run`.
pub mod Prelude
pub mod Dict
pub mod Reassembly
pub mod Alphaess
pub mod Mqtt
pub mod Capture
pub mod Config
pub mod Setup
pub mod HomeAssistant
pub mod State
