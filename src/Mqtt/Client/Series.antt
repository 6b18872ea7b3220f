-- ===== src/Mqtt/Client/Series.antt =====
-- Messages that are published one after another.
use passive_solar_mqtt_bridg.Prelude.{
  ◌≡◌, refl, sym, true, inl, inr, List, [], ◌∷◌, ◌++◌, append_assoc, append-nil, arith,
}
use mathlib.Core.Path.{subst}
use passive_solar_mqtt_bridg.Mqtt.{Message}
use passive_solar_mqtt_bridg.Mqtt.Client.{
  Network, Options, Client, Result, ok, no_address, dial_failed, password_failed, username_required,
  write_failed, read_failed, rejected, ◌>>=◌, is_ok, publish_json, publish_each, client_accepts,
}
use passive_solar_mqtt_bridg.Mqtt.Client.Session.{IsSession, publish_json-IsDelivered}

is_ok-true : (r : Result) → is_ok r ≡ true → r ≡ ok
unfolding is_ok
is_ok-true ok h = refl
is_ok-true no_address h = absurd (ground arith)
is_ok-true dial_failed h = absurd (ground arith)
is_ok-true password_failed h = absurd (ground arith)
is_ok-true username_required h = absurd (ground arith)
is_ok-true write_failed h = absurd (ground arith)
is_ok-true read_failed h = absurd (ground arith)
is_ok-true rejected h = absurd (ground arith)

bind_ok :
    (r : Client × Result) (next : Client → Client × Result)
    → (r >>= next).1 ≡ ok
    → (r.1 ≡ ok) × ((r >>= next) ≡ next r.0)
bind_ok (c, ok) next h = (refl, refl)
bind_ok (c, no_address) next h = absurd (ground arith)
bind_ok (c, dial_failed) next h = absurd (ground arith)
bind_ok (c, password_failed) next h = absurd (ground arith)
bind_ok (c, username_required) next h = absurd (ground arith)
bind_ok (c, write_failed) next h = absurd (ground arith)
bind_ok (c, read_failed) next h = absurd (ground arith)
bind_ok (c, rejected) next h = absurd (ground arith)

ok_bind :
    (r : Client × Result) (next : Client → Client × Result) → r.1 ≡ ok → (r >>= next) ≡ next r.0
ok_bind (c, ok) next h = refl
ok_bind (c, no_address) next h = absurd (ground arith)
ok_bind (c, dial_failed) next h = absurd (ground arith)
ok_bind (c, password_failed) next h = absurd (ground arith)
ok_bind (c, username_required) next h = absurd (ground arith)
ok_bind (c, write_failed) next h = absurd (ground arith)
ok_bind (c, read_failed) next h = absurd (ground arith)
ok_bind (c, rejected) next h = absurd (ground arith)

module _ (net : Network) where
  -- A message more, after those that were published.
  pub publish_each-append :
      (c : Client) (ms : List Message) (m : Message)
      → (publish_each net c ms).1 ≡ ok
      → client_accepts net c ms m ≡ true
      → (publish_each net c (ms ++ m ∷ [])).1 ≡ ok
  unfolding publish_each client_accepts
  publish_each-append c [] m h a =
      let good = is_ok-true (publish_json net c m).1 a in
      rw (ok_bind (publish_json net c m) (λ c'. publish_each net c' []) good) refl
  publish_each-append c (x ∷ ms) m h a =
      let next = λ (c' : Client). publish_each net c' ms in
      let (good, e) = bind_ok (publish_json net c x) next h in
      let c' = (publish_json net c x).0 in
      rw (ok_bind (publish_json net c x) (λ c''. publish_each net c'' (ms ++ m ∷ [])) good)
        (publish_each-append c' ms m (rw e at h) (rw e at a))

  -- Whatever was published before, `ms` are published one after another by the client `c`: after
  -- each of them, the connection that the client then holds is one that the broker accepted, and
  -- what it got on it is the CONNECT packet and the packets of a last part of the messages so far,
  -- of which the last is that message.
  unfoldable pub Delivers : Options → Client → List Message → List Message → Type 0
  Delivers o c before [] = Unit
  Delivers o c before (m ∷ ms) =
      ((earlier : List Message) × (last : List Message) × (before ≡ earlier ++ last)
        × IsSession o (publish_json net c m).0 (last ++ m ∷ []))
      × Delivers o (publish_json net c m).0 (before ++ m ∷ []) ms

  publish_each-Delivers_from :
      (o : Options) (c : Client) (earlier last ns : List Message)
      → IsSession o c last
      → (publish_each net c ns).1 ≡ ok
      → Delivers o c (earlier ++ last) ns
  unfolding publish_each Delivers
  publish_each-Delivers_from o c earlier last [] s h = tt
  publish_each-Delivers_from o c earlier last (n ∷ ns) s h =
      let next = λ (c' : Client). publish_each net c' ns in
      let (good, e) = bind_ok (publish_json net c n) next h in
      let c' = (publish_json net c n).0 in
      let before = earlier ++ last in
      elim (publish_json-IsDelivered net o c last n (inr s) good) [
        | inl d ↦ (
          (earlier, last, refl, d),
          subst (λ ms. Delivers o c' ms ns) (sym (append_assoc earlier last (n ∷ [])))
              (publish_each-Delivers_from o c' earlier (last ++ n ∷ []) ns d (rw e at h)),
        )
        | inr d ↦ (
          (before, [], sym (append-nil before), d),
          publish_each-Delivers_from o c' before (n ∷ []) ns d (rw e at h),
        )
      ]

  -- Messages that a client publishes without an error, once the broker accepted it, are delivered
  -- one by one.
  pub publish_each-Delivers :
      (o : Options) (c : Client) (ns : List Message)
      → IsSession o c []
      → (publish_each net c ns).1 ≡ ok
      → Delivers o c [] ns
  publish_each-Delivers o c ns s h = publish_each-Delivers_from o c [] [] ns s h
