-- ===== src/State/Order.antt =====
-- The order of texts, and that sorting forgets the order of what is sorted.
use passive_solar_mqtt_bridg.Prelude.{true, false, ◌≡◌, refl, List, [], ◌∷◌, Bytes, arith}
use passive_solar_mqtt_bridg.State.{text_le, insert_text}

text_le_total : (s t : Bytes) → text_le s t ≡ false → text_le t s ≡ true
unfolding text_le
text_le_total [] t h = cc
text_le_total (b ∷ bs) [] h = refl
text_le_total (b ∷ bs) (c ∷ cs) h = ground (arith, text_le_total bs cs)

text_le_antisymm : (s t : Bytes) → text_le s t ≡ true → text_le t s ≡ true → s ≡ t
unfolding text_le
text_le_antisymm [] [] h k = refl
text_le_antisymm [] (c ∷ cs) h k = cc
text_le_antisymm (b ∷ bs) [] h k = cc
text_le_antisymm (b ∷ bs) (c ∷ cs) h k = ground (arith, text_le_antisymm bs cs)

text_le_trans : (s t u : Bytes) → text_le s t ≡ true → text_le t u ≡ true → text_le s u ≡ true
unfolding text_le
text_le_trans [] t u h k = refl
text_le_trans (b ∷ bs) [] u h k = cc
text_le_trans (b ∷ bs) (c ∷ cs) [] h k = cc
text_le_trans (b ∷ bs) (c ∷ cs) (d ∷ ds) h k = ground (arith, text_le_trans bs cs ds)

pub insert_text_comm :
    (s t : Bytes) (us : List Bytes)
    → insert_text s (insert_text t us) ≡ insert_text t (insert_text s us)
unfolding insert_text
insert_text_comm s t [] = ground (arith, text_le_total s t, text_le_antisymm s t)
insert_text_comm s t (u ∷ us) = ground (
  arith,
  text_le_total s t,
  text_le_total t s,
  text_le_antisymm s t,
  text_le_trans s t u,
  text_le_trans t s u,
  insert_text_comm s t us,
)
