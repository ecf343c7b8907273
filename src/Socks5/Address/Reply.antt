-- ===== src/Socks5/Address/Reply.antt =====
-- A client that reads the reply of the server with the code of `readAddrSpec` gets the address.
use mathlib.Core.List.{append_assoc}
use titan_ipoverlay.Prelude.{
  ℕ, suc, ◌+◌, ◌*◌, ◌/◌, ◌%◌, ◌<◌, ◌≡◌, some, [], ◌∷◌, ◌++◌, length, arith, drop,
}
use titan_ipoverlay.Prelude.Str.{Str}
use titan_ipoverlay.Prelude.Exec.{ok}
use titan_ipoverlay.Socks5.Conn.{
  Conn, read_full, read_byte, read_full_prefix, socks5_version, ipv4_address, fqdn_address,
}
use titan_ipoverlay.Socks5.Ip.{Net, to4}
use titan_ipoverlay.Socks5.Address.{reply_message, read_addr_spec}

-- The connection as the client sees it when `input` is still to be read.
abbrev pub at : Str → Str → ℕ → Conn
at input w k = record { input = input; written = w; writable = k }

-- The message that carries an address of the given type.
abbrev pub reply_of : ℕ → ℕ → Str → ℕ → Str
reply_of resp addr_type body port =
    socks5_version ∷ resp ∷ 0 ∷ addr_type ∷ (body ++ (port / 256) ∷ (port % 256) ∷ [])

port_bytes : (port : ℕ) → port / 256 * 256 + port % 256 ≡ port
port_bytes port = omega arith

module _ (net : Net) where
  read_port :
      (port : ℕ) (rest w : Str) (k : ℕ)
      → port < 65536
      → read_full 2 (at ((port / 256) ∷ (port % 256) ∷ rest) w k)
        ≡ (ok ((port / 256) ∷ (port % 256) ∷ []), at rest w k)
  read_port port rest w k h = read_full_prefix ((port / 256) ∷ (port % 256) ∷ []) rest w k

  name_reply :
      (resp port : ℕ) (name : Str)
      → 0 < length name
      → length name < 256
      → port < 65536
      → (ip : Str)
      → reply_message resp (some (record { fqdn = name; ip = ip; port = port }))
        ≡ ok (reply_of resp fqdn_address (length name ∷ name) port)
  unfolding reply_message
  name_reply resp port [] some_name short fits ip = absurd (omega arith)
  name_reply resp port (c ∷ cs) some_name short fits ip =
      let a : port % 65536 ≡ port = omega arith in
      let b : suc (length cs) % 256 ≡ suc (length cs) = omega arith in rw (a, b)

  read_name_back :
      (port : ℕ) (name rest w : Str) (k : ℕ)
      → port < 65536
      → read_addr_spec net
          (at (fqdn_address ∷ length name ∷ (name ++ (port / 256) ∷ (port % 256) ∷ rest)) w k)
        ≡ (ok (record { fqdn = name; ip = []; port = port }), at rest w k)
  unfolding read_addr_spec read_byte
  read_name_back port name rest w k fits =
      rw
        (
          read_full_prefix name ((port / 256) ∷ (port % 256) ∷ rest) w k,
          read_port port rest w k fits,
        )
        (rw (port_bytes port))

  -- The reply with a domain name, read back as an address, is that name and port, and the bytes
  -- after the reply are left.
  pub read-reply_name :
      (resp port : ℕ) (name ip rest w : Str) (k : ℕ)
      → 0 < length name
      → length name < 256
      → port < 65536
      → (msg : Str) × (reply_message resp (some (record { fqdn = name; ip = ip; port = port }))
          ≡ ok msg)
        × (read_addr_spec net (at (drop 3 msg ++ rest) w k)
            ≡ (ok (record { fqdn = name; ip = []; port = port }), at rest w k))
  read-reply_name resp port name ip rest w k some_name short fits = (
    reply_of resp fqdn_address (length name ∷ name) port,
    name_reply resp port name some_name short fits ip,
    rw (append_assoc name ((port / 256) ∷ (port % 256) ∷ []) rest)
        (read_name_back port name rest w k fits),
  )

  read_v4_back :
      (port : ℕ) (ip rest w : Str) (k : ℕ)
      → port < 65536
      → length ip ≡ 4
      → read_addr_spec net (at (ipv4_address ∷ (ip ++ (port / 256) ∷ (port % 256) ∷ rest)) w k)
        ≡ (ok (record { fqdn = net.ip_string ip; ip = ip; port = port }), at rest w k)
  unfolding read_addr_spec read_byte
  read_v4_back port ip rest w k fits four =
      let body = read_full_prefix ip ((port / 256) ∷ (port % 256) ∷ rest) w k in
      let body4 = rw four at body in rw (body4, read_port port rest w k fits) (rw (port_bytes port))

  v4_reply :
      (resp port : ℕ) (ip : Str)
      → port < 65536
      → length ip ≡ 4
      → reply_message resp (some (record { fqdn = []; ip = ip; port = port }))
        ≡ ok (reply_of resp ipv4_address ip port)
  unfolding reply_message to4
  v4_reply resp port ip fits four = let a : port % 65536 ≡ port = omega arith in rw (a, four)

  -- The reply with an IPv4 address, as the server sends it after a success, read back as an
  -- address, is that address and port.
  pub read-reply_v4 :
      (resp port : ℕ) (ip rest w : Str) (k : ℕ)
      → length ip ≡ 4
      → port < 65536
      → (msg : Str) × (reply_message resp (some (record { fqdn = []; ip = ip; port = port }))
          ≡ ok msg)
        × (read_addr_spec net (at (drop 3 msg ++ rest) w k)
            ≡ (ok (record { fqdn = net.ip_string ip; ip = ip; port = port }), at rest w k))
  read-reply_v4 resp port ip rest w k four fits = (
    reply_of resp ipv4_address ip port,
    v4_reply resp port ip fits four,
    rw (append_assoc ip ((port / 256) ∷ (port % 256) ∷ []) rest)
        (read_v4_back port ip rest w k fits four),
  )
