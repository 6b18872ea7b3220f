-- ===== src/Mqtt/Client/Wire.antt =====
-- What is written on a connection, byte by byte.
use passive_solar_mqtt_bridg.Prelude.{
  ℕ, zero, suc, ◌≡◌, refl, sym, ap, ◌∙◌, Bool, true, false, inl, inr, List, [], ◌∷◌, ◌++◌,
  append_assoc, append-nil, take-append-drop, Bytes, length, take, drop, arith, if◌then◌else◌,
  Bool-cases, ◌==◌, ◌&&◌,
}
use passive_solar_mqtt_bridg.Prelude.Equality.{nat_eq}
use passive_solar_mqtt_bridg.Mqtt.Client.{
  Event, dialled, wrote, answered, abandoned, closed, Network, is_accepted, write_rounds,
  write_full,
}

-- The bytes that were written on a connection since it was dialled, apart from abandoned writes.
unfoldable pub sent : ℕ → List Event → Bytes
sent k [] = []
sent k (dialled d address ∷ log) = if d == k then [] else sent k log
sent k (wrote d bytes ∷ log) = if d == k then sent k log ++ bytes else sent k log
sent k (answered d bytes ∷ log) = sent k log
sent k (abandoned d bytes ∷ log) = sent k log
sent k (closed d ∷ log) = sent k log

-- Whether the broker accepted a connection since it was dialled.
unfoldable pub acknowledged : ℕ → List Event → Bool
acknowledged k [] = false
acknowledged k (dialled d address ∷ log) = if d == k then false else acknowledged k log
acknowledged k (wrote d bytes ∷ log) = acknowledged k log
acknowledged k (answered d bytes ∷ log) =
    if d == k && is_accepted bytes then true else acknowledged k log
acknowledged k (abandoned d bytes ∷ log) = acknowledged k log
acknowledged k (closed d ∷ log) = acknowledged k log

pub same_conn : (k : ℕ) → (k == k) ≡ true
same_conn k = (nat_eq.beq_iff k k).1 refl

module _ (net : Network) where
  -- What a write leaves: a first part of the bytes is on the connection, and all of them if it
  -- succeeds.
  pub record Writes (k : ℕ) (log : List Event) (bytes : Bytes) (r : List Event × Bool)
      : Type 0 where
    pub part : Bytes
    pub rest : Bytes
    pub split : part ++ rest ≡ bytes
    pub on_wire : sent k r.0 ≡ sent k log ++ part
    pub whole : r.1 ≡ true → rest ≡ []
    pub standing : acknowledged k r.0 ≡ acknowledged k log

  write_rounds-Writes :
      (fuel k : ℕ) (log : List Event) (bytes : Bytes)
      → Writes k log bytes (write_rounds net fuel k log bytes)
  unfolding write_rounds sent acknowledged
  write_rounds-Writes zero k log bytes = record {
    part = [];
    rest = bytes;
    split = refl;
    on_wire = sym (append-nil (sent k log));
    whole = λ h. absurd (ground arith);
    standing = refl;
  }
  write_rounds-Writes (suc fuel) k log [] = record {
    part = [];
    rest = [];
    split = refl;
    on_wire = sym (append-nil (sent k log));
    whole = λ h. refl;
    standing = refl;
  }
  write_rounds-Writes (suc fuel) k log (b ∷ bs) =
      let n = (net.write log (b ∷ bs)).0 in
      let log' = wrote k (take n (b ∷ bs)) ∷ log in
      let stopped : Writes k log (b ∷ bs) (log', false) = record {
        part = take n (b ∷ bs);
        rest = drop n (b ∷ bs);
        split = take-append-drop n (b ∷ bs);
        on_wire = rw (same_conn k) refl;
        whole = λ h. absurd (ground arith);
        standing = refl;
      } in
      let k' = write_rounds-Writes fuel k log' (drop n (b ∷ bs)) in
      let goes_on : Writes k log (b ∷ bs) (write_rounds net fuel k log' (drop n (b ∷ bs))) =
        record {
          part = take n (b ∷ bs) ++ k'.part;
          rest = k'.rest;
          split =
              append_assoc (take n (b ∷ bs)) k'.part k'.rest
              ∙ ap (λ s. take n (b ∷ bs) ++ s) k'.split
              ∙ take-append-drop n (b ∷ bs);
          on_wire = rw (k'.on_wire, same_conn k, append_assoc) refl;
          whole = k'.whole;
          standing = k'.standing;
        } in
      elim (Bool-cases (net.write log (b ∷ bs)).1) [
        | inl e ↦ rw e stopped
        | inr e ↦ elim (Bool-cases (n == 0)) [
          | inl z ↦ rw (e, z) stopped
          | inr z ↦ rw (e, z) goes_on
        ]
      ]

  write_full-Writes :
      (k : ℕ) (log : List Event) (bytes : Bytes) → Writes k log bytes (write_full net k log bytes)
  unfolding write_full
  write_full-Writes k log bytes = write_rounds-Writes (suc (length bytes)) k log bytes

  -- A write that succeeds puts all bytes on the connection.
  pub write_full_whole :
      (k : ℕ) (log : List Event) (bytes : Bytes)
      → (write_full net k log bytes).1 ≡ true
      → (sent k (write_full net k log bytes).0 ≡ sent k log ++ bytes)
        × (acknowledged k (write_full net k log bytes).0 ≡ acknowledged k log)
  write_full_whole k log bytes h =
      let w = write_full-Writes k log bytes in
      let all : w.part ≡ bytes =
        sym (append-nil w.part) ∙ ap (λ s. w.part ++ s) (sym (w.whole h)) ∙ w.split in
      (w.on_wire ∙ ap (λ s. sent k log ++ s) all, w.standing)
