-- ===== src/Server/Registration.antt =====
-- `on_message_registration` of server.c: which registrations are accepted, and what is answered.
use ws25_np.Prelude.{
  ℕ, ◌+◌, ◌^◌, ◌<◌, ◌≡◌, ◌≢◌, refl, ap, sym, ◌∙◌, ◌⊎◌, inl, inr, Bool, true, false, not, some, List,
  [], ◌∷◌, ◌++◌, ◌==◌, if◌then◌else◌, arith, ltb, length, Bool-cases, ==_iff, ltb-eq-false,
}
use mathlib.Core.List.{append-nil}
use mathlib.Core.Option
use ws25_np.Prelude.Int.{ℤ, ◌==ℤ◌}
use ws25_np.Prelude.Run.{ok, pure, access-step, else-step, then-step, run-step}
use ws25_np.System.{World, Effect, send}
use ws25_np.Memory.{Bytes, Endian, bytes16, bytes32, read_at}
use ws25_np.Memory.Fields.{load16_host, load32_host, read_at_part}
use ws25_np.Wire.Message.{
  Message, registration, registration_ack, registration_error_ack, length_of, layout, wire, InRange,
}
use ws25_np.Protocol.Send.{send_message-layout}
use ws25_np.Events.{Table}
use ws25_np.Server.{
  Server, Connection, Callback, equal_bytes, wrong_password, register_connection, register_found,
  connection_of, with_connection, on_message_registration,
}
use ws25_np.Server.Connect.{serving, connect_clients-waits}

module _ (e : Endian) where
  equal_bytes-eq : (x y : Bytes) → equal_bytes e x y ≡ true → x ≡ y
  equal_bytes-eq [] [] h = refl
  equal_bytes-eq [] (y ∷ ys) h = cc
  equal_bytes-eq (x ∷ xs) [] h = cc
  equal_bytes-eq (x ∷ xs) (y ∷ ys) h = elim (Bool-cases (x == y)) [
    | inl same ↦
        ap (λ a. a ∷ xs) ((==_iff x y).0 same)
        ∙ ap (λ t. y ∷ t) (equal_bytes-eq xs ys (ground arith))
    | inr other ↦ absurd (ground arith)
  ]

  equal_bytes_refl : (x : Bytes) → equal_bytes e x x ≡ true
  equal_bytes_refl [] = refl
  equal_bytes_refl (x ∷ xs) = rw ((==_iff x x).1 refl) (equal_bytes_refl xs)

module _ (e : Endian) (address port : ℕ) (name password : Bytes) where
  abbrev message : Bytes
  message = layout e (registration address port name password)

  abbrev fields : Bytes
  fields =
      bytes16 e 6
      ++ (bytes16 e (length_of (registration address port name password))
          ++ (bytes32 e address ++ bytes16 e port))

  name_read : read_at message 14 (length name) ≡ some name
  name_read =
      read_at_part (fields ++ (bytes16 e (length name) ++ bytes16 e (length password))) name
        password

  abbrev front : Bytes
  front = fields ++ (bytes16 e (length name) ++ bytes16 e (length password))

  password_read :
      length name ≡ length password
      → read_at message (14 + length name) (length name) ≡ some password
  password_read same =
      ap (λ p. read_at (front ++ (name ++ p)) (14 + length name) (length name))
        (sym (append-nil password))
      ∙ ap (λ o. read_at (front ++ (name ++ (password ++ []))) o (length name))
          {x = 14 + length name} {y = length (front ++ name)} (omega arith)
      ∙ ap (read_at ((front ++ name) ++ (password ++ [])) (length (front ++ name))) same
      ∙ read_at_part (front ++ name) password []

  abbrev Verdict : Bool → Type 0
  Verdict wrong = ((wrong ≡ true) × (name ≢ password)) ⊎ ((wrong ≡ false) × (name ≡ password))

  verdict : Verdict (not (equal_bytes e name password))
  verdict = elim (Bool-cases (equal_bytes e name password)) [
    | inl same ↦ inr (ap not same, equal_bytes-eq e name password same)
    | inr other ↦ inl (
      ap not other,
      λ h.
          let same : equal_bytes e name password ≡ true =
            ap (equal_bytes e name) (sym h) ∙ equal_bytes_refl e name in
          absurd (ground arith),
    )
  ]

  -- The three tests of the password.
  checked :
      (w : World Server)
      → length name < 2 ^ 16
      → (wrong : Bool) × Verdict wrong
        × ((if ltb (2 ^ 16) (length name)
                then pure true
                else wrong_password e message (length name) (length password))
              w
            ≡ ok wrong w)
  unfolding wrong_password
  checked w h = elim (Bool-cases (length name == length password)) [
    | inr differ ↦ (
      true,
      inl (refl, λ eq. let sizes = ap length eq in absurd (ground arith)),
      else-step (ltb (2 ^ 16) (length name)) _ _ w (ltb-eq-false _ _ (omega arith))
          (then-step (not (length name == length password)) _ _ w (ap not differ) refl),
    )
    | inl same ↦ (
      not (equal_bytes e name password),
      verdict,
      else-step (ltb (2 ^ 16) (length name)) _ _ w (ltb-eq-false _ _ (omega arith)) (
          else-step (not (length name == length password)) _ _ w (ap not same) (
            access-step _ _ w name_read
              (access-step _ _ w (password_read ((==_iff _ _).0 same)) refl))),
    )
  ]

module _ (e : Endian) (socket : ℤ) (table : Table Callback) (log : List Effect)
    (a b : Connection) where
  -- The server behind an answer to the first connection.
  abbrev pub answered : ℤ → Message → Connection → World Server
  answered fd m a' = serving socket table (log ++ (send fd (wire m) ∷ [])) a' b

  abbrev pub enrolled : ℕ → ℕ → Bytes → Connection
  enrolled address port name = record a {
    registered = 1;
    address = address;
    port = port;
    name_len = length name;
    name = name;
  }

  module _ (address port : ℕ) (name password : Bytes) (fd : ℤ) where
    abbrev msg : Bytes
    msg = layout e (registration address port name password)

    found :
        (a.fd ==ℤ fd) ≡ true
        → (a.registered == 1) ≡ false
        → on_message_registration e msg fd (serving socket table log a b)
          ≡ register_connection e 0 a msg fd (serving socket table log a b)
    unfolding on_message_registration Option.bind
    found here new =
        ap (λ o. register_found e o msg fd (serving socket table log a b)) {y = some (0, a)} first
        ∙ else-step (a.registered == 1) _ _ _ new refl
      where
        first : connection_of fd (serving socket table log a b).app ≡ some (0, a)
        first = rw here

    abbrev header : Bytes
    header = bytes16 e 6 ++ bytes16 e (length_of (registration address port name password))

    answer_error :
        length name < 2 ^ 16
        → length password < 2 ^ 16
        → {wrong : Bool} → wrong ≡ true
        → ((if ltb (2 ^ 16) (length name)
                then pure true
                else wrong_password e msg (length name) (length password))
              (serving socket table log a b)
            ≡ ok wrong (serving socket table log a b))
        → register_connection e 0 a msg fd (serving socket table log a b)
          ≡ ok tt (answered fd registration_error_ack a)
    unfolding register_connection
    answer_error hn hp {wrong} rejected run =
        access-step _ _ _
          (load16_host e (fields e address port name password) (length name)
            (bytes16 e (length password) ++ (name ++ password)) hn)
          (access-step _ _ _
            (load16_host e (fields e address port name password ++ bytes16 e (length name))
              (length password) (name ++ password) hp)
            (run-step _ _ run (
              then-step wrong _ _ _ rejected
                (send_message-layout e registration_error_ack fd _ tt refl))))

    answer_ack :
        InRange (registration address port name password)
        → b.registered ≢ 1
        → {wrong : Bool} → wrong ≡ false
        → ((if ltb (2 ^ 16) (length name)
                then pure true
                else wrong_password e msg (length name) (length password))
              (serving socket table log a b)
            ≡ ok wrong (serving socket table log a b))
        → register_connection e 0 a msg fd (serving socket table log a b)
          ≡ ok tt (answered fd registration_ack (enrolled address port name))
    unfolding register_connection with_connection
    answer_ack (ha, hp, hl) alone {wrong} accepted run =
        let lengths =
          bytes16 e (length name) ++ (bytes16 e (length password) ++ (name ++ password)) in
        access-step _ _ _
          (load16_host e (fields e address port name password) (length name)
            (bytes16 e (length password) ++ (name ++ password)) (omega arith))
          (access-step _ _ _
            (load16_host e (fields e address port name password ++ bytes16 e (length name))
              (length password) (name ++ password) (omega arith))
            (run-step _ _ run (
              else-step wrong _ _ _ accepted (
                access-step _ _ _ (load32_host e header address (bytes16 e port ++ lengths) ha) (
                  access-step _ _ _ (load16_host e (header ++ bytes32 e address) port lengths hp) (
                    access-step _ _ _ (name_read e address port name password) (
                      run-step _ _ (send_message-layout e registration_ack fd _ tt refl) (
                        connect_clients-waits socket table e _ (enrolled address port name) b
                          (inr (inl alone))))))))))

  -- The first connection is not registered, the second neither, and a registration in range arrives
  -- on the first: if the password is not the name, it is answered with an error and nothing changes;
  -- if it is, it is acknowledged, its data are stored, and nobody is introduced yet.
  pub on_message_registration_lem :
      (address port : ℕ) (name password : Bytes) (fd : ℤ)
      → InRange (registration address port name password)
      → (a.fd ==ℤ fd) ≡ true
      → (a.registered == 1) ≡ false
      → b.registered ≢ 1
      → ((name ≢ password)
          × (on_message_registration e
                (layout e (registration address port name password))
                fd
                (serving socket table log a b)
              ≡ ok tt (answered fd registration_error_ack a)))
        ⊎ ((name ≡ password)
            × (on_message_registration e
                  (layout e (registration address port name password))
                  fd
                  (serving socket table log a b)
                ≡ ok tt (answered fd registration_ack (enrolled address port name))))
  unfolding on_message_registration register_connection with_connection
  on_message_registration_lem address port name password fd (ha, hp, hl) here new alone =
      let (wrong, outcome, run) =
        checked e address port name password (serving socket table log a b) (omega arith) in
      elim outcome [
        | inl (rejected, differ) ↦ inl (
          differ,
          found address port name password fd here new
              ∙ answer_error address port name password fd (omega arith) (omega arith) rejected run,
        )
        | inr (accepted, same) ↦ inr (
          same,
          found address port name password fd here new
              ∙ answer_ack address port name password fd (ha, hp, hl) alone accepted run,
        )
      ]
