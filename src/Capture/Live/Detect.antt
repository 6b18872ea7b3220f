-- ===== src/Capture/Live/Detect.antt =====
-- What the detection of the interface finds.
use passive_solar_mqtt_bridg.Prelude.{
  ℕ, ◌≡◌, true, false, ◌⊎◌, some, List, ◌∷◌, ◌++◌, Bytes, none, All,
}
use passive_solar_mqtt_bridg.Prelude.Equality.{Eq, nat_eq}
use passive_solar_mqtt_bridg.Dict.{Dict, lookup}
use passive_solar_mqtt_bridg.Capture.File.{Layers}
use passive_solar_mqtt_bridg.Capture.Processor.{Calls, ProcessorOptions}
use passive_solar_mqtt_bridg.Capture.Live.{
  NetInterface, Sniffed, context_done, no_packet, failed, elsewhere, on_link, System,
  candidate_interface_names, packet_matches_alphaess_flow,
}

-- An interface with this index and name is in the list; it is up, and no loopback.
pub record IsListed (index : ℕ) (name : Bytes) (is : List NetInterface) : Type 0 where
  pub entry : NetInterface
  pub before : List NetInterface
  pub after : List NetInterface
  pub split : is ≡ before ++ entry ∷ after
  pub is_up : entry.is_up ≡ true
  pub is_no_loopback : entry.is_loopback ≡ false
  pub same_index : entry.index ≡ index
  pub same_name : entry.name ≡ name

module _ {Ip : Type 0} ⦃same : Eq Ip⦄ where
  -- A round that ends no detection: no error, no end of the context, and no packet that the program
  -- looks for on an interface that is known.
  abbrev pub IsQuiet : Dict ℕ Bytes → Ip → Ip → ℕ → Sniffed Ip → Type 0
  IsQuiet names source_ip cloud_ip cloud_port context_done = ⊥
  IsQuiet names source_ip cloud_ip cloud_port failed = ⊥
  IsQuiet names source_ip cloud_ip cloud_port no_packet = Unit
  IsQuiet names source_ip cloud_ip cloud_port elsewhere = Unit
  IsQuiet names source_ip cloud_ip cloud_port (on_link index layers) =
      (lookup index names ≡ none)
      ⊎ (packet_matches_alphaess_flow layers source_ip cloud_ip cloud_port ≡ false)

  -- A packet that the program looks for came in on an interface with this name, after rounds that
  -- were quiet.
  pub record IsSeen (names : Dict ℕ Bytes) (source_ip cloud_ip : Ip) (cloud_port : ℕ) (name : Bytes)
      (es : List (Sniffed Ip)) : Type 0 where
    pub index : ℕ
    pub layers : Layers Ip
    pub earlier : List (Sniffed Ip)
    pub later : List (Sniffed Ip)
    pub in_order : es ≡ earlier ++ on_link index layers ∷ later
    pub quiet : All (IsQuiet names source_ip cloud_ip cloud_port) earlier
    pub known : lookup index names ≡ some name
    pub wanted : packet_matches_alphaess_flow layers source_ip cloud_ip cloud_port ≡ true

module _ {Ip N O : Type 0} ⦃same : Eq Ip⦄ (calls : Calls Ip N O) where
  -- The addresses of the options parse, and a packet between them came in on an interface that is
  -- up, is no loopback and has this name.
  pub record IsActive (system : System Ip) (call : ℕ) (opts : ProcessorOptions) (name : Bytes)
      : Type 0 where
    pub source_ip : Ip
    pub cloud_ip : Ip
    pub listing : List NetInterface
    pub source_parses : calls.parse_ip opts.source_ip ≡ some source_ip
    pub cloud_parses : calls.parse_ip opts.cloud_ip ≡ some cloud_ip
    pub lists : system.interfaces call ≡ some listing
    pub seen :
        IsSeen
          (candidate_interface_names listing)
          source_ip
          cloud_ip
          opts.cloud_port
          name
          (system.sniffs call)
    pub listed : IsListed seen.index name listing
