-- ===== src/Capture/Live.antt =====
-- internal/capture/live_linux.go: the choice of the interface and the loop of the live capture.
-- What the operating system answers is the parameter `System`: a number says which call it is of
-- those that `ReadLive` makes. Verbose output is left out.
pub mod Detect
pub mod Agree
use passive_solar_mqtt_bridg.Prelude.{
  ℕ, ◌+◌, ◌*◌, ◌/◌, ◌%◌, Bool, false, not, ◌&&◌, Option, none, some, List, [], ◌∷◌, Bytes, length,
  ◌==◌, if◌then◌else◌,
}
use passive_solar_mqtt_bridg.Prelude.Equality.{Eq, nat_eq}
use passive_solar_mqtt_bridg.Prelude.Text.{codes, is_empty, same_bytes}
use passive_solar_mqtt_bridg.Config.Text.{to_lower}
use passive_solar_mqtt_bridg.Dict.{Dict, lookup, insert}
use passive_solar_mqtt_bridg.Capture.{matches_alphaess_flow}
use passive_solar_mqtt_bridg.Capture.File.{Layers, no_ipv4, no_tcp, tcp}
use passive_solar_mqtt_bridg.Capture.Processor.{
  Calls, ProcessorOptions, Processor, Outcome, ok, marshal_failed, publish_failed, discovery_failed,
  add_packet, add_ipv4_packet, add_tcp_packet, process_decoded_tcp, new_processor,
}

-- What the code reads of a `net.Interface`.
pub record NetInterface : Type 0 where
  pub index : ℕ
  pub name : Bytes
  pub is_up : Bool
  pub is_loopback : Bool

-- A round of the loop of `detectLiveInterface`: its context is done, `Recvfrom` returns `EINTR`,
-- `EAGAIN` or `EWOULDBLOCK`, it returns another error, a packet from an address of another kind,
-- or a packet from the interface with an index.
pub data Sniffed (Ip : Type 0) : Type 0 where
  context_done no_packet failed elsewhere : Sniffed Ip
  on_link : ℕ → Layers Ip → Sniffed Ip

-- A round of the loop of `ReadLive`: the context is done before it; `Recvfrom` returns `EINTR`, and
-- whether the context is done then; it returns `EAGAIN` or `EWOULDBLOCK`, or another error; or it
-- returns a packet, at a time.
pub data Round (Ip : Type 0) : Type 0 where
  stopped_before timed_out broken : Round Ip
  interrupted : Bool → Round Ip
  received : ℕ → Layers Ip → Round Ip

-- How the loop ends; `running` once all given rounds are over.
pub data LiveEnd : Type 0 where
  running stopped receive_failed : LiveEnd
  process_failed : Outcome → LiveEnd

-- `socket 0` and `socket 1` are for the two detections, `socket 2` for the capture; `sniffs` are
-- the rounds of a detection before its deadline.
pub record System (Ip : Type 0) : Type 0 where
  pub interfaces : ℕ → Option (List NetInterface)
  pub interface_by_name : ℕ → Bytes → Option ℕ
  pub socket : ℕ → Bool
  pub bind : ℕ → Bool
  pub sniffs : ℕ → List (Sniffed Ip)
  pub rounds : List (Round Ip)

pub data LiveResult (Ip N O : Type 0) : Type 0 where
  interface_required detection_failed no_interface no_socket not_bound invalid_address :
      LiveResult Ip N O
  start_failed : Outcome → LiveResult Ip N O
  captured : Processor Ip N O → LiveEnd → LiveResult Ip N O

-- `(value&0xff)<<8 | (value>>8)&0xff`; the two parts share no bit.
unfoldable pub htons : ℕ → ℕ
htons value = value % 256 * 256 + value / 256 % 256

-- The loop of `candidateInterfaceNames`.
unfoldable pub add_candidates : Dict ℕ Bytes → List NetInterface → Dict ℕ Bytes
add_candidates names [] = names
add_candidates names (i ∷ is) =
    add_candidates (if i.is_up && not i.is_loopback then insert i.index i.name names else names) is

unfoldable pub candidate_interface_names : List NetInterface → Dict ℕ Bytes
candidate_interface_names is = add_candidates [] is

-- `strings.EqualFold(name, "auto")`
unfoldable pub is_auto : Bytes → Bool
is_auto name = same_bytes (to_lower name) (codes "auto")

module _ {Ip : Type 0} ⦃same : Eq Ip⦄ where
  unfoldable pub packet_matches_alphaess_flow : Layers Ip → Ip → Ip → ℕ → Bool
  packet_matches_alphaess_flow no_ipv4 source_ip cloud_ip cloud_port = false
  packet_matches_alphaess_flow no_tcp source_ip cloud_ip cloud_port = false
  packet_matches_alphaess_flow (tcp x) source_ip cloud_ip cloud_port =
      matches_alphaess_flow x source_ip cloud_ip cloud_port

  -- The loop of `detectLiveInterface`; `none` is an error, also once the deadline is over.
  unfoldable pub sniff : Dict ℕ Bytes → Ip → Ip → ℕ → List (Sniffed Ip) → Option Bytes
  sniff names source_ip cloud_ip cloud_port [] = none
  sniff names source_ip cloud_ip cloud_port (context_done ∷ es) = none
  sniff names source_ip cloud_ip cloud_port (failed ∷ es) = none
  sniff names source_ip cloud_ip cloud_port (no_packet ∷ es) =
      sniff names source_ip cloud_ip cloud_port es
  sniff names source_ip cloud_ip cloud_port (elsewhere ∷ es) =
      sniff names source_ip cloud_ip cloud_port es
  sniff names source_ip cloud_ip cloud_port (on_link index layers ∷ es) =
      let rest = sniff names source_ip cloud_ip cloud_port es in
      elim (lookup index names) [
        | none ↦ rest
        | some name ↦
            if packet_matches_alphaess_flow layers source_ip cloud_ip cloud_port
            then some name
            else rest
      ]

module _ {Ip N O : Type 0} ⦃same : Eq Ip⦄ (calls : Calls Ip N O) where
  -- `detectLiveInterface`, the detection with number `call`; `none` where it returns an error.
  unfoldable pub detect_live_interface : System Ip → ℕ → ProcessorOptions → Option Bytes
  detect_live_interface system call opts = elim (calls.parse_ip opts.source_ip) [
    | none ↦ none
    | some source_ip ↦ elim (calls.parse_ip opts.cloud_ip) [
      | none ↦ none
      | some cloud_ip ↦ elim (system.interfaces call) [
        | none ↦ none
        | some is ↦
            let names = candidate_interface_names is in
            if length names == 0
            then none
            else if system.socket call
            then sniff names source_ip cloud_ip opts.cloud_port (system.sniffs call)
            else none
      ]
    ]
  ]

  -- The rest of a round, once a packet is received.
  unfoldable pub process_received : Processor Ip N O → ℕ → Layers Ip → Processor Ip N O × Outcome
  process_received p timestamp no_ipv4 = (add_packet p timestamp, ok)
  process_received p timestamp no_tcp = (add_ipv4_packet (add_packet p timestamp), ok)
  process_received p timestamp (tcp x) =
      process_decoded_tcp calls (add_tcp_packet (add_ipv4_packet (add_packet p timestamp))) x

  -- An error of the processor ends the loop.
  unfoldable pub stop_live_on :
      Outcome → Processor Ip N O → Processor Ip N O × LiveEnd → Processor Ip N O × LiveEnd
  stop_live_on ok p rest = rest
  stop_live_on marshal_failed p rest = (p, process_failed marshal_failed)
  stop_live_on publish_failed p rest = (p, process_failed publish_failed)
  stop_live_on discovery_failed p rest = (p, process_failed discovery_failed)

  -- The loop of `ReadLive`.
  unfoldable pub read_rounds : Processor Ip N O → List (Round Ip) → Processor Ip N O × LiveEnd
  read_rounds p [] = (p, running)
  read_rounds p (stopped_before ∷ rs) = (p, stopped)
  read_rounds p (timed_out ∷ rs) = read_rounds p rs
  read_rounds p (broken ∷ rs) = (p, receive_failed)
  read_rounds p (interrupted done ∷ rs) =
      let rest = read_rounds p rs in if done then (p, stopped) else rest
  read_rounds p (received timestamp layers ∷ rs) =
      let (p', outcome) = process_received p timestamp layers in
      stop_live_on outcome p' (read_rounds p' rs)

  -- `ReadLive` once the interface with this index is chosen.
  unfoldable pub capture_on : System Ip → ProcessorOptions → ℕ → LiveResult Ip N O
  capture_on system opts index =
      if not (system.socket 2)
      then no_socket
      else if not (system.bind index)
      then not_bound
      else (elim (new_processor calls opts) [
        | none ↦ invalid_address
        | some (p, outcome) ↦ elim outcome [
          | ok ↦ (let (q, end) = read_rounds p system.rounds in captured q end)
          | marshal_failed ↦ start_failed marshal_failed
          | publish_failed ↦ start_failed publish_failed
          | discovery_failed ↦ start_failed discovery_failed
        ]
      ])

  -- `ReadLive` once the interface has a name: it is looked up, and detected if there is none.
  unfoldable pub capture_named : System Ip → ProcessorOptions → Bytes → LiveResult Ip N O
  capture_named system opts name = elim (system.interface_by_name 0 name) [
    | some index ↦ capture_on system opts index
    | none ↦ elim (detect_live_interface system 1 opts) [
      | none ↦ detection_failed
      | some detected ↦ elim (system.interface_by_name 1 detected) [
        | none ↦ no_interface
        | some index ↦ capture_on system opts index
      ]
    ]
  ]

  unfoldable pub read_live : System Ip → ProcessorOptions → Bytes → LiveResult Ip N O
  read_live system opts name =
      if is_empty name
      then interface_required
      else if is_auto name
      then (elim (detect_live_interface system 0 opts) [
        | none ↦ detection_failed
        | some detected ↦ capture_named system opts detected
      ])
      else capture_named system opts name
