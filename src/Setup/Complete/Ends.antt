-- ===== src/Setup/Complete/Ends.antt =====
-- What a question leaves behind, if it ends with an answer.
use passive_solar_mqtt_bridg.Prelude.{
  ℕ, zero, suc, ◌≡◌, ◌≢◌, inl, inr, sym, ap, ◌∙◌, some, [], ◌∷◌, Bytes, length, Bool-cases,
  Option-cases, arith,
}
use passive_solar_mqtt_bridg.Config.Text.{is_empty}
use passive_solar_mqtt_bridg.Config.{pos, is_zero, Config}
use passive_solar_mqtt_bridg.Setup.Prompts.{
  prompt_line, ask_required, prompt_required, positive, ask_int, prompt_int,
}
use passive_solar_mqtt_bridg.Setup.Complete.{
  Session, Step, go, stop, ◌>>=◌, ask, ask_if_empty, ask_cloud_port,
}

pub ask_required-given :
    (fuel : ℕ) (input v : Bytes) → (ask_required fuel input).0 ≡ some v → v ≢ []
unfolding ask_required
ask_required-given zero input v h = cc
ask_required-given (suc fuel) input v h =
    ground (arith, ask_required-given fuel (prompt_line input).1 v)

pub positive-ne-zero : (value : Bytes) (n : ℕ) → positive value ≡ some n → n ≢ 0
unfolding positive
positive-ne-zero [] n h = cc
positive-ne-zero (b ∷ bs) n h = ground arith

pub ask_int-given : (fuel : ℕ) (input : Bytes) (n : ℕ) → (ask_int fuel input).0 ≡ some n → n ≢ 0
unfolding ask_int
ask_int-given zero input n h = cc
ask_int-given (suc fuel) input n h = elim (Option-cases (prompt_required input).0) [
  | inl e ↦ ground arith
  | inr (v, e) ↦
      ground (arith, ask_int-given fuel (prompt_required input).1 n, positive-ne-zero v n)
]

-- `P` holds of the configuration, if the step does not stop.
abbrev pub Ends : (Config → Type 0) → Step → Type 0
Ends P (go s) = P s.cfg
Ends P (stop e) = Unit

pub >>=-Ends :
    (P Q : Config → Type 0) (m : Step) (f : Session → Step)
    → Ends P m
    → ((s : Session) → P s.cfg → Ends Q (f s))
    → Ends Q (m >>= f)
>>=-Ends P Q (go s) f p next = next s p
>>=-Ends P Q (stop e) f p next = tt

pub ask-Ends :
    (P Q : Config → Type 0) (update : Config → Bytes → Config) (s : Session)
    → P s.cfg
    → ((c : Config) (v : Bytes) → P c → v ≢ [] → Q (update c v))
    → Ends Q (ask update s)
unfolding ask
ask-Ends P Q update s p updated = elim (Option-cases (prompt_required s.input).0) [
  | inl e ↦ rw (e, Ends) tt
  | inr (v, e) ↦
      rw (e, Ends)
        (updated s.cfg v p
          (ask_required-given (suc (length s.input)) s.input v (unfold prompt_required in e)))
]

pub ask_if_empty-Ends :
    (P : Config → Type 0) (field : Config → Bytes) (update : Config → Bytes → Config)
    → ((c : Config) (v : Bytes) → P c → P (update c v))
    → ((c : Config) (v : Bytes) → field (update c v) ≡ v)
    → (s : Session) → P s.cfg
    → Ends (λ c. P c × (field c ≢ [])) (ask_if_empty field update s)
unfolding ask_if_empty
ask_if_empty-Ends P field update keeps sets s p = elim (Bool-cases (is_empty (field s.cfg))) [
  | inl e ↦
      rw (e, Ends)
        (ask-Ends P (λ c. P c × (field c ≢ [])) update s p
          (λ c v q given. (keeps c v q, λ none_left. given (sym (sets c v) ∙ none_left))))
  | inr e ↦ rw (e, Ends) (p, λ none_left. ground (arith, ap is_empty none_left))
]

module _ (P : Config → Type 0)
    (keeps : (c : Config) (n : ℕ)
      → P c
      → P (record c { capture = record c.capture { cloud_port = pos n } })) where
  pub ask_cloud_port-Ends :
      (s : Session) → P s.cfg → Ends (λ c. P c × (c.capture.cloud_port ≢ pos 0)) (ask_cloud_port s)
  unfolding ask_cloud_port
  ask_cloud_port-Ends s p = elim (Bool-cases (is_zero s.cfg.capture.cloud_port)) [
    | inr e ↦ rw (e, Ends) (p, λ zero_port. ground (arith, ap is_zero zero_port))
    | inl e ↦ elim (Option-cases (prompt_int s.input).0) [
      | inl f ↦ rw (e, f, Ends) tt
      | inr (n, f) ↦
          rw (e, f, Ends)
            (
              keeps s.cfg n p,
              λ zero_port.
                  ask_int-given (suc (length s.input)) s.input n (unfold prompt_int in f)
                    (ground arith),
            )
    ]
  ]

-- The mode is one of the two that the program knows.
