-- ===== src/Kafka.antt =====
-- pkg/kafka/kafkanet.go: the dialer that the producer and the consumer share. `Net` holds what
-- kafka-go and its scram package answer.
pub mod Producer
pub mod Consumer
pub mod RoundTrip
mod Tests
use gokit_services.Common.{
  ℕ, ◌≡◌, refl, String, str_eq, Bool, true, false, not, Bool-cases, inl, inr, Option, none, some,
  List, [], ◌∷◌, arith, if◌then◌else◌,
}
use gokit_services.Common.Errors.{Err, errorf, wrap, text, Result, ok, err}

pub data SaslMechanism : Type 0 where
  unset sasl_plain sasl_scram_sha256 sasl_scram_sha512 : SaslMechanism
  other_mechanism : String → SaslMechanism

-- `tls` is `none` for plaintext.
pub record TlsSaslConfig : Type 0 where
  pub tls : Option ℕ
  pub sasl_user : String
  pub sasl_pass : String
  pub sasl_mech : SaslMechanism

-- A mechanism that a SASL package made.
pub data Mechanism : Type 0 where
  plain : String → String → Mechanism
  scram_sha256 scram_sha512 : ℕ → Mechanism

pub record Dialer : Type 0 where
  pub timeout : ℕ
  pub dual_stack : Bool
  pub tls : Option ℕ
  pub mechanism : Option Mechanism

-- `scram_mechanism` is `scram.Mechanism` with SHA256 or SHA512; `dial` is `dialer.DialContext`, with
-- the number of the attempt that it belongs to.
pub record Net : Type 0 where
  pub scram_mechanism : SaslMechanism → String → String → Result ℕ
  pub dial : ℕ → Dialer → String → Option Err

abbrev pub dial_timeout : ℕ
dial_timeout = 10_000_000_000

sha256_mechanism : Result ℕ → Result Mechanism
sha256_mechanism (ok m) = ok (scram_sha256 m)
sha256_mechanism (err e) = err (wrap "kafkanet: scram-sha-256: %w" [] e)

sha512_mechanism : Result ℕ → Result Mechanism
sha512_mechanism (ok m) = ok (scram_sha512 m)
sha512_mechanism (err e) = err (wrap "kafkanet: scram-sha-512: %w" [] e)

unfoldable pub sasl_mechanism : Net → TlsSaslConfig → SaslMechanism → Result Mechanism
unfolding sha256_mechanism sha512_mechanism
sasl_mechanism net cfg unset = ok (plain cfg.sasl_user cfg.sasl_pass)
sasl_mechanism net cfg sasl_plain = ok (plain cfg.sasl_user cfg.sasl_pass)
sasl_mechanism net cfg sasl_scram_sha256 =
    sha256_mechanism (net.scram_mechanism sasl_scram_sha256 cfg.sasl_user cfg.sasl_pass)
sasl_mechanism net cfg sasl_scram_sha512 =
    sha512_mechanism (net.scram_mechanism sasl_scram_sha512 cfg.sasl_user cfg.sasl_pass)
sasl_mechanism net cfg (other_mechanism name) =
    err (errorf "kafkanet: unknown SASL mechanism %q" (text name ∷ []))

abbrev plain_dialer : TlsSaslConfig → Dialer
plain_dialer cfg = record {
  timeout = dial_timeout;
  dual_stack = true;
  tls = cfg.tls;
  mechanism = none;
}

authenticated : Dialer → Result Mechanism → Result Dialer
authenticated d (ok m) = ok (record d { mechanism = some m })
authenticated d (err e) = err e

unfoldable pub new_dialer : Net → TlsSaslConfig → Result Dialer
unfolding authenticated
new_dialer net cfg = elim (str_eq cfg.sasl_user "") [
  | true ↦ ok (plain_dialer cfg)
  | false ↦ authenticated (plain_dialer cfg) (sasl_mechanism net cfg cfg.sasl_mech)
]

-- `Probe`: the first broker is dialed, and the connection closed again.
unfoldable pub probe : Net → ℕ → List String → Dialer → Option Err
probe net attempt [] d = some (errorf "kafkanet: no brokers configured" [])
probe net attempt (broker ∷ brokers) d = elim (net.dial attempt d broker) [
  | some e ↦ some (wrap "kafkanet: probe %s: %w" (text broker ∷ []) e)
  | none ↦ none
]

-- Whether the dialer authenticates.
abbrev pub authenticates : Dialer → Bool
authenticates d = elim d.mechanism [ none ↦ false | some m ↦ true ]

authenticates-authenticated :
    (d0 d : Dialer) (r : Result Mechanism)
    → authenticated d0 r ≡ ok d
    → (d.tls ≡ d0.tls) × (authenticates d ≡ true)
unfolding authenticated
authenticates-authenticated d0 d (ok m) h = ground (arith, h)
authenticates-authenticated d0 d (err e) h = ground (arith, h)

-- A dialer keeps the TLS settings and authenticates exactly if a user is configured: credentials are
-- never dropped silently.
new_dialer-authenticates :
    (net : Net) (cfg : TlsSaslConfig) (d : Dialer)
    → new_dialer net cfg ≡ ok d
    → (d.tls ≡ cfg.tls) × (authenticates d ≡ not (str_eq cfg.sasl_user ""))
unfolding new_dialer
new_dialer-authenticates net cfg d h = elim (Bool-cases (str_eq cfg.sasl_user "")) [
  | inl t ↦ ground (arith, t, h)
  | inr f ↦
      let chosen = sasl_mechanism net cfg cfg.sasl_mech in
      ground (arith, f, h, authenticates-authenticated (plain_dialer cfg) d chosen)
]
