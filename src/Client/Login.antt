-- ===== src/Client/Login.antt =====
-- The log-in of a client of src/client.rs, as the bytes that the server gets.
use pgr.Prelude.{
  ℕ, ◌+◌, ◌<◌, ◌^◌, ◌≡◌, refl, ap, ◌∙◌, true, some, [], ◌∷◌, ◌++◌, arith, Bytes, codes, length,
  to_be, from_be, length-append, length-to_be, append_assoc,
}
use pgr.Prelude.Decimal.{decimal}
use pgr.Utils.Stream
use pgr.Utils.Stream.{Stream}
use pgr.Utils.Stream.Refine.{pending, new-IsValid, write_refines}
use pgr.Utils.Stats.{ReplayStats}
use pgr.Capture.{ClientId}
use pgr.Proto.{
  parse_message, parse_auth, encode_startup, startup_params, encode_password, hash_md5_password,
  f_proto_version, b_auth_request, b_ready_for_query,
}
use pgr.Client.{
  World, normal, ReplayConfig, connect, queue_startup, send_frame, handle_auth, connecting_message,
  handle_message,
}
use pgr.Client.Reading.Frames.{feed}

-- The startup message of the protocol: its length, itself included, the version 3.0, names with
-- their values, each with a zero byte behind it, and one more zero byte.
abbrev pub parameters : ClientId → ReplayConfig → Bytes
parameters id config =
    codes "application_name"
    ++ (0 ∷ config.application_name)
    ++ (0 ∷ codes "user")
    ++ (0 ∷ config.user)
    ++ (0 ∷ codes "database")
    ++ (0 ∷ config.dbname)
    ++ (0 ∷ codes "pgr.client_id")
    ++ (0 ∷ decimal id)
    ++ (0 ∷ 0 ∷ [])

abbrev pub startup_message : ClientId → ReplayConfig → Bytes
startup_message id config =
    to_be 4 (8 + length (parameters id config)) ++ (0 ∷ 3 ∷ 0 ∷ 0 ∷ parameters id config)

-- The digest that the server asks for, and the message that carries it: a tag, the length behind the
-- tag, the text and a zero byte.
abbrev pub digest : (Bytes → Bytes) → Bytes → Bytes → Bytes → Bytes
digest md5_hex user pass salt = codes "md5" ++ md5_hex (md5_hex (pass ++ user) ++ salt)

abbrev pub password_message : Bytes → Bytes
password_message text = b'p' ∷ to_be 4 (5 + length text) ++ (text ++ 0 ∷ [])

parameters-eq :
    (id : ClientId) (config : ReplayConfig)
    → startup_params (
          (codes "application_name", config.application_name)
          ∷ (codes "user", config.user)
          ∷ (codes "database", config.dbname)
          ∷ (codes "pgr.client_id", decimal id)
          ∷ [])
        ++ 0 ∷ []
      ≡ parameters id config
unfolding startup_params
parameters-eq id config = simp append_assoc

version-eq : to_be 4 f_proto_version ≡ 0 ∷ 3 ∷ 0 ∷ 0 ∷ []
unfolding to_be
version-eq = refl

startup-eq :
    (id : ClientId) (config : ReplayConfig)
    → 8 + length (parameters id config) < 2 ^ 32
    → encode_startup (
        (codes "application_name", config.application_name)
        ∷ (codes "user", config.user)
        ∷ (codes "database", config.dbname)
        ∷ (codes "pgr.client_id", decimal id)
        ∷ [])
      ≡ startup_message id config
unfolding encode_startup
startup-eq id config h =
    rw (parameters-eq id config, version-eq)
      (ap (λ n. to_be 4 n ++ (0 ∷ 3 ∷ 0 ∷ 0 ∷ parameters id config)) (omega arith))

password-eq :
    (text : Bytes) → 5 + length text < 2 ^ 32 → encode_password text ≡ password_message text
unfolding encode_password
password-eq text h = ap (λ n. b'p' ∷ to_be 4 n ++ (text ++ 0 ∷ [])) (omega arith)

length-startup_message :
    (id : ClientId) (config : ReplayConfig)
    → length (startup_message id config) ≡ 8 + length (parameters id config)
length-startup_message id config = omega (
  arith,
  length-append (to_be 4 (8 + length (parameters id config)))
      (0 ∷ 3 ∷ 0 ∷ 0 ∷ parameters id config),
  length-to_be 4 (8 + length (parameters id config)),
)

length-password_message : (text : Bytes) → length (password_message text) ≡ 6 + length text
length-password_message text = omega (
  arith,
  length-append (to_be 4 (5 + length text)) (text ++ 0 ∷ []),
  length-to_be 4 (5 + length text),
  length-append text (0 ∷ []),
)

written_twice :
    (xs ys : Bytes)
    → length xs + length ys < 2 ^ 64
    → pending (Stream.write (Stream.write (Stream.new 65536) xs) ys) ≡ xs ++ ys
unfolding Stream.new pending
written_twice xs ys h =
    let (v, b, c) = write_refines {s = Stream.new 65536} xs (new-IsValid 65536) (omega arith) in
    let (v', b', c') =
      write_refines {s = Stream.write (Stream.new 65536) xs} ys v (omega (arith, c, h)) in
    b' ∙ ap (λ bs. bs ++ ys) b

module _ (md5_hex : Bytes → Bytes) (id : ClientId) (config : ReplayConfig) (stats : ReplayStats)
    (pass : Bytes) (s1 s2 s3 s4 : ℕ) (status : Bytes) where
  abbrev pub salt : Bytes
  salt = s1 ∷ s2 ∷ s3 ∷ s4 ∷ []

  abbrev pub login : World
  login = feed md5_hex (connect id config stats) (
      (b_auth_request, to_be 4 5 ++ salt)
      ∷ (b_auth_request, to_be 4 0)
      ∷ (b_ready_for_query, status)
      ∷ [])

  login-outbox :
      config.password ≡ some pass
      → login.0.outbox
        ≡ Stream.write
            (Stream.write (Stream.new 65536) (
              encode_startup (
                (codes "application_name", config.application_name)
                ∷ (codes "user", config.user)
                ∷ (codes "database", config.dbname)
                ∷ (codes "pgr.client_id", decimal id)
                ∷ [])))
            (encode_password (hash_md5_password md5_hex config.user pass salt))
  unfolding feed connect queue_startup send_frame handle_message connecting_message handle_auth
      parse_message parse_auth to_be from_be
  login-outbox e = rw e refl

  login-state : config.password ≡ some pass → (login.0.state ≡ normal) × (login.0.rfq ≡ true)
  unfolding feed connect queue_startup send_frame handle_message connecting_message handle_auth
      parse_message parse_auth to_be from_be
  login-state e = rw e (refl, refl)

  -- After the request for an MD5 digest with its salt, the acceptance and the first ReadyForQuery,
  -- a new client with a password is ready for frames, and what is to be sent is the startup message
  -- of the protocol with its parameters and then the digest, and nothing else; the messages fit the
  -- 32 bits of their lengths.
  pub feed-md5_login :
      config.password ≡ some pass
      → 8 + length (parameters id config) < 2 ^ 32
      → 5 + length (digest md5_hex config.user pass salt) < 2 ^ 32
      → (login.0.state ≡ normal)
        × (login.0.rfq ≡ true)
        × (pending login.0.outbox
            ≡ startup_message id config ++ password_message (digest md5_hex config.user pass salt))
  unfolding hash_md5_password
  feed-md5_login e h k = (
    (login-state e).0,
    (login-state e).1,
    rw
        (
          login-outbox e,
          startup-eq id config h,
          password-eq (digest md5_hex config.user pass salt) k,
        )
        (written_twice (startup_message id config)
          (password_message (digest md5_hex config.user pass salt))
          (omega (
            arith,
            length-startup_message id config,
            length-password_message (digest md5_hex config.user pass salt),
            h,
            k,
          ))),
  )
