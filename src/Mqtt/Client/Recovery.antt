-- ===== src/Mqtt/Client/Recovery.antt =====
-- A client whose connection broke: what it takes for the next message to go out.
use passive_solar_mqtt_bridg.Prelude.{
  ℕ, ◌≤◌, ◌≡◌, Bool, true, false, some, List, [], ◌∷◌, Bytes, not, ◌&&◌,
}
use passive_solar_mqtt_bridg.Prelude.Text.{is_empty}
use passive_solar_mqtt_bridg.Mqtt.Client.{
  Event, dialled, wrote, answered, abandoned, closed, Network, Options, Client, Result, ok,
  is_accepted, broker_address, read_password,
}

-- A connection was closed.
unfoldable pub has_closed : List Event → Bool
has_closed [] = false
has_closed (dialled k address ∷ log) = has_closed log
has_closed (wrote k bytes ∷ log) = has_closed log
has_closed (answered k bytes ∷ log) = has_closed log
has_closed (abandoned k bytes ∷ log) = has_closed log
has_closed (closed k ∷ log) = true

-- Once a connection was closed, the broker is found and answers, every write takes a byte at least
-- and no context ends; the password is read, and comes with a user name.
pub record IsBack (net : Network) (o : Options) : Type 0 where
  pub address : Bytes
  pub found : broker_address net o.broker ≡ some address
  pub dials : (log : List Event) (a : Bytes) → has_closed log ≡ true → net.dial log a ≡ true
  pub takes :
      (log : List Event) (b : ℕ) (bs : Bytes)
      → has_closed log ≡ true
      → ((net.write log (b ∷ bs)).1 ≡ false) × (1 ≤ (net.write log (b ∷ bs)).0)
  pub answers :
      (log : List Event)
      → has_closed log ≡ true
      → (response : Bytes) × (net.read_full log ≡ some response) × (is_accepted response ≡ true)
  pub knows :
      (log : List Event)
      → has_closed log ≡ true
      → (password : Bytes) × (read_password net log o.password_file ≡ some password)
        × ((not (is_empty password) && is_empty o.username) ≡ false)
  pub patient : (log : List Event) → has_closed log ≡ true → net.done_first log ≡ false

module _ (net : Network) (o : Options) (back : IsBack net o) where
  -- The client holds a connection, after one was closed.
  abbrev IsUp : Client × Result → Type 0
  IsUp (c, r) = (r ≡ ok) × (k : ℕ) × (c.conn ≡ some k) × (has_closed c.log ≡ true)
