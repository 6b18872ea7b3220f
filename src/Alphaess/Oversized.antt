-- ===== src/Alphaess/Oversized.antt =====
-- What `maxBufferedBytes` bounds, and what it does not.
use passive_solar_mqtt_bridg.Prelude.{ℕ, zero, suc, [], ◌∷◌, Bytes}

-- The letter a, `n` times.
unfoldable pub letters : ℕ → Bytes
letters zero = []
letters (suc n) = b'a' ∷ letters n
