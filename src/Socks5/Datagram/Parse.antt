-- ===== src/Socks5/Datagram/Parse.antt =====
-- `new_datagram_from_bytes` is the exact inverse of `bytes` on well-formed datagrams.
use titan_ipoverlay.Prelude.{
  ℕ, suc, ◌+◌, ◌-◌, ◌≤◌, ◌<◌, ◌≡◌, refl, ◌⊎◌, inl, inr, [], ◌∷◌, ◌++◌, length, take, drop,
  drop-drop, arith, take-append, drop-append, take-append-drop, length-append, length-take,
  length-drop, slice-append,
}
use titan_ipoverlay.Prelude.Str.{Str}
use titan_ipoverlay.Prelude.Exec.{Result, ok, err}
use titan_ipoverlay.Socks5.Conn.{Error, ipv4_address, ipv6_address, fqdn_address}
use titan_ipoverlay.Socks5.Datagram.{
  Datagram, bytes, byte_at, read_ip, read_name, slice, read_address, with_address,
  new_datagram_from_bytes,
}

-- The address bytes fit the type byte; a domain name carries its length, which is not zero.
pub data AddressFits : ℕ → Str → Type 0 where
  v4 : (t : ℕ) (a : Str) → t ≡ ipv4_address → length a ≡ 4 → AddressFits t a
  v6 : (t : ℕ) (a : Str) → t ≡ ipv6_address → length a ≡ 16 → AddressFits t a
  name : (t l : ℕ) (h : Str) → t ≡ fqdn_address → 0 < l → length h ≡ l → AddressFits t (l ∷ h)

pub record IsWellFormed (d : Datagram) : Type 0 where
  pub reserved : length d.rsv ≡ 2
  pub address : AddressFits d.atyp d.dst_addr
  pub port : length d.dst_port ≡ 2
  pub nonempty : 0 < length d.payload

-- The three ways in which an address is read from a datagram with the type byte t.
abbrev Reads : ℕ → Str → Str → ℕ → Type 0
Reads t r addr stop =
    ((t ≡ ipv4_address) × (4 ≤ length r) × (addr ≡ take 4 r) × (stop ≡ 8))
    ⊎ ((t ≡ ipv6_address) × (16 ≤ length r) × (addr ≡ take 16 r) × (stop ≡ 20))
    ⊎ ((l : ℕ) × (h : Str) × (t ≡ fqdn_address)
        × (r ≡ l ∷ h)
        × (0 < l)
        × (l ≤ length h)
        × (addr ≡ l ∷ take l h)
        × (stop ≡ suc (suc (suc (suc (suc l))))))

module _ (a b c t : ℕ) where
  read_v4-eq :
      (r addr : Str) (stop : ℕ)
      → read_ip (a ∷ b ∷ c ∷ t ∷ r) 8 ≡ ok (addr, stop)
      → (4 ≤ length r) × (addr ≡ take 4 r) × (stop ≡ 8)
  unfolding read_ip
  read_v4-eq r addr stop h = ground arith

  read_v6-eq :
      (r addr : Str) (stop : ℕ)
      → read_ip (a ∷ b ∷ c ∷ t ∷ r) 20 ≡ ok (addr, stop)
      → (16 ≤ length r) × (addr ≡ take 16 r) × (stop ≡ 20)
  unfolding read_ip
  read_v6-eq r addr stop h = ground arith

  -- A name is preceded by its length, which is not zero.
  abbrev ReadsName : Str → Str → ℕ → Type 0
  ReadsName [] addr stop = ⊥
  ReadsName (l ∷ h) addr stop =
      (0 < l) × (l ≤ length h) × (addr ≡ l ∷ take l h) × (stop ≡ suc (suc (suc (suc (suc l)))))

  read_name-ReadsName :
      (r addr : Str) (stop : ℕ)
      → read_name (a ∷ b ∷ c ∷ t ∷ r) ≡ ok (addr, stop)
      → ReadsName r addr stop
  unfolding read_name
  read_name-ReadsName [] addr stop h = ground arith
  read_name-ReadsName (l ∷ r) addr stop h =
      let room : 5 + l - 5 ≡ l = omega arith in
      let fifth : 5 + l ≡ suc (suc (suc (suc (suc l)))) = omega arith in
      let h' = rw (room, fifth) at h in ground arith

  -- What was read as the address, and the rest, are the bytes after the type byte.
  abbrev Splits : Str → Str → ℕ → Type 0
  Splits r addr stop = (addr ++ drop stop (a ∷ b ∷ c ∷ t ∷ r) ≡ r) × AddressFits t addr

  name-Splits :
      (r addr : Str) (stop : ℕ) → t ≡ fqdn_address → ReadsName r addr stop → Splits r addr stop
  name-Splits [] addr stop e h = absurd h
  name-Splits (l ∷ r) addr stop e h =
      rw (h.2, h.3) (rw (take-append-drop l r), name t l (take l r) e h.0 (length-take l r h.1))

  v4-Splits :
      (r addr : Str) (stop : ℕ)
      → t ≡ ipv4_address
      → (4 ≤ length r) × (addr ≡ take 4 r) × (stop ≡ 8)
      → Splits r addr stop
  v4-Splits r addr stop e h =
      rw (h.1, h.2) (rw (take-append-drop 4 r), v4 t (take 4 r) e (length-take 4 r h.0))

  v6-Splits :
      (r addr : Str) (stop : ℕ)
      → t ≡ ipv6_address
      → (16 ≤ length r) × (addr ≡ take 16 r) × (stop ≡ 20)
      → Splits r addr stop
  v6-Splits r addr stop e h =
      rw (h.1, h.2) (rw (take-append-drop 16 r), v6 t (take 16 r) e (length-take 16 r h.0))

  -- The type byte decides which reader has run.
  read_address-cases :
      (r addr : Str) (stop : ℕ)
      → read_address (a ∷ b ∷ c ∷ t ∷ r) ≡ ok (addr, stop)
      → ((t ≡ ipv4_address) × (read_ip (a ∷ b ∷ c ∷ t ∷ r) 8 ≡ ok (addr, stop)))
        ⊎ ((t ≡ ipv6_address) × (read_ip (a ∷ b ∷ c ∷ t ∷ r) 20 ≡ ok (addr, stop)))
        ⊎ ((t ≡ fqdn_address) × (read_name (a ∷ b ∷ c ∷ t ∷ r) ≡ ok (addr, stop)))
  unfolding read_address
  read_address-cases r addr stop h = ground arith

  read_address-Splits :
      (r addr : Str) (stop : ℕ)
      → read_address (a ∷ b ∷ c ∷ t ∷ r) ≡ ok (addr, stop)
      → Splits r addr stop
  read_address-Splits r addr stop h = elim (read_address-cases r addr stop h) [
    | inl (e, k) ↦ v4-Splits r addr stop e (read_v4-eq r addr stop k)
    | inr (inl (e, k)) ↦ v6-Splits r addr stop e (read_v6-eq r addr stop k)
    | inr (inr (e, k)) ↦ name-Splits r addr stop e (read_name-ReadsName r addr stop k)
  ]

  -- The port and the payload follow the address.
  with_address-fields :
      (r addr : Str) (stop : ℕ) (d : Datagram)
      → with_address (a ∷ b ∷ c ∷ t ∷ r) (ok (addr, stop)) ≡ ok d
      → (stop + 2 < length (a ∷ b ∷ c ∷ t ∷ r))
        × (d ≡ record {
          rsv = a ∷ b ∷ [];
          frag = c;
          atyp = t;
          dst_addr = addr;
          dst_port = slice (a ∷ b ∷ c ∷ t ∷ r) stop (stop + 2);
          payload = drop (stop + 2) (a ∷ b ∷ c ∷ t ∷ r);
        })
  unfolding with_address byte_at
  with_address-fields r addr stop d h =
      let back : stop + 2 - 2 ≡ stop = omega arith in let h' = rw back at h in ground arith

  with_address-eq :
      (r addr : Str) (stop : ℕ) (d : Datagram)
      → with_address (a ∷ b ∷ c ∷ t ∷ r) (ok (addr, stop)) ≡ ok d
      → Splits r addr stop
      → (bytes d ≡ a ∷ b ∷ c ∷ t ∷ r) × IsWellFormed d
  unfolding bytes
  with_address-eq r addr stop d h s =
      let bb = a ∷ b ∷ c ∷ t ∷ r in
      let room = (with_address-fields r addr stop d h).0 in
      let two : stop + 2 - stop ≡ 2 = omega arith in
      let after : length (drop stop bb) ≡ length bb - stop = length-drop stop bb in
      rw (with_address-fields r addr stop d h).1 (
        rw (slice-append bb stop (stop + 2) (omega arith), s.0),
        record {
          reserved = refl;
          address = s.1;
          port = rw two (length-take 2 (drop stop bb) (omega arith));
          nonempty = omega (arith, length-drop (stop + 2) bb);
        },
      )

-- Whatever bytes `newDatagramFromBytes` accepts are the bytes of the datagram that it gives, and that
-- datagram is well formed.
pub bytes_of_parsed :
    (bb : Str) (d : Datagram) → new_datagram_from_bytes bb ≡ ok d → (bytes d ≡ bb) × IsWellFormed d
unfolding new_datagram_from_bytes
bytes_of_parsed [] d h = ground arith
bytes_of_parsed (a ∷ []) d h = ground arith
bytes_of_parsed (a ∷ b ∷ []) d h = ground arith
bytes_of_parsed (a ∷ b ∷ c ∷ []) d h = ground arith
bytes_of_parsed (a ∷ b ∷ c ∷ t ∷ r) d h = go (read_address (a ∷ b ∷ c ∷ t ∷ r)) refl h
  where
    go :
        (x : Result Error (Str × ℕ))
        → read_address (a ∷ b ∷ c ∷ t ∷ r) ≡ x
        → with_address (a ∷ b ∷ c ∷ t ∷ r) x ≡ ok d
        → (bytes d ≡ a ∷ b ∷ c ∷ t ∷ r) × IsWellFormed d
    go (err e) q k = unfold with_address in cc
    go (ok (addr, stop)) q k =
        with_address-eq a b c t r addr stop d k (read_address-Splits a b c t r addr stop q)

take-append_of_length : (n : ℕ) (xs ys : Str) → length xs ≡ n → take n (xs ++ ys) ≡ xs
take-append_of_length n xs ys h = rw (← h) (take-append xs ys)

drop-append_of_length : (n : ℕ) (xs ys : Str) → length xs ≡ n → drop n (xs ++ ys) ≡ ys
drop-append_of_length n xs ys h = rw (← h) (drop-append xs ys)

module _ (a b c : ℕ) where
  read_address-fits :
      (t : ℕ) (addr rest : Str)
      → AddressFits t addr
      → read_address (a ∷ b ∷ c ∷ t ∷ (addr ++ rest))
        ≡ ok (addr, suc (suc (suc (suc (length addr)))))
  unfolding read_address read_ip read_name
  read_address-fits _ _ rest (v4 t addr e n) =
      ground (arith, take-append_of_length 4 addr rest n, length-append addr rest)
  read_address-fits _ _ rest (v6 t addr e n) =
      ground (arith, take-append_of_length 16 addr rest n, length-append addr rest)
  read_address-fits _ _ rest (name t l h e p n) =
      let room : 5 + l - 5 ≡ l = omega arith in
      rw room (ground (arith, take-append_of_length l h rest n, length-append h rest))

  abbrev head_of : ℕ → Str → Str
  head_of t rest = a ∷ b ∷ c ∷ t ∷ rest

  abbrev start_of : Str → ℕ
  start_of addr = suc (suc (suc (suc (length addr))))

  port_at :
      (t : ℕ) (addr port pay : Str)
      → length port ≡ 2
      → slice (head_of t (addr ++ (port ++ pay))) (start_of addr + 2 - 2) (start_of addr + 2) ≡ port
  port_at t addr port pay two =
      let back : start_of addr + 2 - 2 ≡ start_of addr = omega arith in
      let width : start_of addr + 2 - start_of addr ≡ 2 = omega arith in
      rw (back, width) (rw (drop-append addr (port ++ pay)) (take-append_of_length 2 port pay two))

  payload_at :
      (t : ℕ) (addr port pay : Str)
      → length port ≡ 2
      → drop (start_of addr + 2) (head_of t (addr ++ (port ++ pay))) ≡ pay
  payload_at t addr port pay two =
      let shift : start_of addr + 2 ≡ suc (suc (suc (suc (length addr + 2)))) = omega arith in
      rw
        (shift, ← drop-drop 2 (length addr) (addr ++ (port ++ pay)), drop-append addr (port ++ pay))
        (drop-append_of_length 2 port pay two)

  with_address-parts :
      (t : ℕ) (addr port pay : Str)
      → length port ≡ 2
      → 0 < length pay
      → with_address (head_of t (addr ++ (port ++ pay))) (ok (addr, start_of addr))
        ≡ ok (record {
          rsv = a ∷ b ∷ [];
          frag = c;
          atyp = t;
          dst_addr = addr;
          dst_port = port;
          payload = pay;
        })
  unfolding with_address byte_at
  with_address-parts t addr port pay two more =
      rw (port_at t addr port pay two, payload_at t addr port pay two)
        (ground (arith, length-append addr (port ++ pay), length-append port pay))

-- Two bytes by their count.
two_bytes : (s : Str) → length s ≡ 2 → (a b : ℕ) × (s ≡ a ∷ b ∷ [])
two_bytes [] h = absurd (omega arith)
two_bytes (a ∷ []) h = absurd (omega arith)
two_bytes (a ∷ b ∷ []) h = (a, b, refl)
two_bytes (a ∷ b ∷ x ∷ s) h = absurd (omega arith)

-- A well-formed datagram is parsed back from its bytes as it was.
pub parsed_of_bytes : (d : Datagram) → IsWellFormed d → new_datagram_from_bytes (bytes d) ≡ ok d
unfolding new_datagram_from_bytes bytes
parsed_of_bytes d w = go (two_bytes d.rsv w.reserved)
  where
    go : (a b : ℕ) × (d.rsv ≡ a ∷ b ∷ []) → new_datagram_from_bytes (bytes d) ≡ ok d
    go (a, b, e) =
        rw
          (
            e,
            read_address-fits a b d.frag d.atyp d.dst_addr (d.dst_port ++ d.payload) w.address,
            with_address-parts a b d.frag d.atyp d.dst_addr d.dst_port d.payload w.port w.nonempty,
          )
          (ground arith)
