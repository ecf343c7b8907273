-- ===== src/Pipe/Silence.antt =====
-- The keepalive of both ends of a tunnel: keepalive in ippop/ws/tunnel.go and in
-- client/tunnel/tunnel.go.
use titan_ipoverlay.Prelude.{
  ℕ, suc, ◌+◌, ◌≤◌, ◌<◌, ◌≡◌, refl, ◌∙◌, ltb→lt, lt→ltb, Bool, true, false, ◌&&◌, Option, none,
  some, List, [], ◌∷◌, length, ltb, Bool-cases, inl, inr, arith,
}
use titan_ipoverlay.Prelude.Str.{Str}
use titan_ipoverlay.Prelude.Exec.{ok, err}
use titan_ipoverlay.Wire.{
  Outlet, Link, Frame, ping, panicked, close_link, close_conn, write_frame, write_conn, write_link,
}
use titan_ipoverlay.Ws.Tunnel.{
  Tunnel as PopTunnel, keepalive as pop_keepalive, keepalive_close, write_ping as pop_write_ping,
}
use titan_ipoverlay.Client.Tunnel.{
  Tunnel as NodeTunnel, keepalive as node_keepalive, keepalive_tick, write_ping as node_write_ping,
}

abbrev pub is_up : Option Link → Bool
is_up none = false
is_up (some l) = l.is_open

-- A timer that counts its ticks since the last pong, on a websocket that it closes in the end.
pub record Timer (T : Type 0) : Type 0 where
  pub tick : Str → T → T
  pub up : T → Bool
  pub wait : T → ℕ
  pub stays_down : (now : Str) (t : T) → up t ≡ false → up (tick now t) ≡ false
  pub closes : (now : Str) (t : T) → 3 < wait t → up (tick now t) ≡ false
  pub keeps : (now : Str) (t : T) → wait t ≤ 3 → up (tick now t) ≡ up t
  pub counts : (now : Str) (t : T) → wait t ≤ 3 → up t ≡ true → wait (tick now t) ≡ suc (wait t)

module _ {T : Type 0} (c : Timer T) where
  -- Ticks at the given times, while nothing arrives.
  unfoldable pub silence : List Str → T → T
  silence [] t = t
  silence (now ∷ nows) t = silence nows (c.tick now t)

  silence-down : (nows : List Str) (t : T) → c.up t ≡ false → c.up (silence nows t) ≡ false
  unfolding silence
  silence-down [] t h = h
  silence-down (now ∷ nows) t h = silence-down nows (c.tick now t) (c.stays_down now t h)

  pub silence-closes :
      (nows : List Str) (t : T)
      → c.wait t ≤ 4
      → 5 ≤ length nows + c.wait t
      → c.up (silence nows t) ≡ false
  unfolding silence
  silence-closes [] t h g = absurd (omega arith)
  silence-closes (now ∷ nows) t h g = elim (Bool-cases (ltb 3 (c.wait t))) [
    | inl late ↦ silence-down nows (c.tick now t) (c.closes now t (ltb→lt _ _ late))
    | inr early ↦ elim (Bool-cases (c.up t)) [
      | inl up ↦
          let few : c.wait t ≤ 3 = ground (arith, early) in
          let e = c.counts now t few up in
          silence-closes nows (c.tick now t) (omega (arith, e, few)) (omega (arith, e, g))
      | inr down ↦ silence-down nows (c.tick now t) (c.stays_down now t down)
    ]
  ]

  pub silence-keeps :
      (nows : List Str) (t : T) → length nows + c.wait t ≤ 4 → c.up (silence nows t) ≡ c.up t
  unfolding silence
  silence-keeps [] t g = refl
  silence-keeps (now ∷ nows) t g = elim (Bool-cases (c.up t)) [
    | inl up ↦
        let few : c.wait t ≤ 3 = omega (arith, g) in
        let e = c.counts now t few up in
        silence-keeps nows (c.tick now t) (omega (arith, e, g)) ∙ c.keeps now t few
    | inr down ↦ rw down (silence-down (now ∷ nows) t down)
  ]

-- A write leaves a connection as open as it was.
write_frame-is_up : (f : Frame) (o : Outlet) → is_up (write_frame f o).1.conn ≡ is_up o.conn
unfolding write_frame write_conn write_link
write_frame-is_up f o = go o.conn
  where
    go : (l : Option Link) → is_up (write_conn f l o.outbox).1.conn ≡ is_up l
    go none = refl
    go (some l) = elim (Bool-cases (l.is_open && ltb 0 l.writable)) [
      | inl e ↦ rw e refl
      | inr e ↦ rw e refl
    ]

pub pop_early :
    (now : Str) (t : PopTunnel)
    → t.wait_pong ≤ 3
    → (pop_keepalive now t).1 ≡ record (pop_write_ping now t).1 { wait_pong = suc t.wait_pong }
unfolding pop_keepalive
pop_early now t h = let e : ltb 3 t.wait_pong ≡ false = ground (arith, h) in rw e refl

pub pop_late :
    (now : Str) (t : PopTunnel)
    → 3 < t.wait_pong
    → is_up (pop_keepalive now t).1.outlet.conn ≡ false
unfolding pop_keepalive keepalive_close close_link
pop_late now t h = rw (lt→ltb 3 t.wait_pong h) (go t.outlet.conn refl)
  where
    go :
        (l : Option Link)
        → t.outlet.conn ≡ l
        → is_up (keepalive_close (close_link t.outlet) t).1.outlet.conn ≡ false
    go none e = rw e refl
    go (some l) e = rw e refl

pub pop_keeps :
    (now : Str) (t : PopTunnel)
    → t.wait_pong ≤ 3
    → is_up (pop_keepalive now t).1.outlet.conn ≡ is_up t.outlet.conn
unfolding pop_write_ping
pop_keeps now t h = rw (pop_early now t h) (write_frame-is_up (ping now) t.outlet)

pub pop_down :
    (now : Str) (t : PopTunnel)
    → is_up t.outlet.conn ≡ false
    → is_up (pop_keepalive now t).1.outlet.conn ≡ false
pop_down now t h = elim (Bool-cases (ltb 3 t.wait_pong)) [
  | inl late ↦ pop_late now t (ltb→lt _ _ late)
  | inr early ↦ pop_keeps now t (ground (arith, early)) ∙ h
]

abbrev pub pop_timer : Timer PopTunnel
pop_timer = record {
  tick = λ now t. (pop_keepalive now t).1;
  up = λ t. is_up t.outlet.conn;
  wait = λ t. t.wait_pong;
  stays_down = pop_down;
  closes = pop_late;
  keeps = pop_keeps;
  counts = λ now t h up. rw (pop_early now t h) refl;
}

pub node_late :
    (now : Str) (t : NodeTunnel)
    → 3 < t.waitpone
    → is_up (node_keepalive now t).1.outlet.conn ≡ false
unfolding node_keepalive keepalive_tick close_link close_conn
node_late now t h = go t.outlet.conn refl
  where
    go :
        (l : Option Link) → t.outlet.conn ≡ l → is_up (keepalive_tick now l t).1.outlet.conn ≡ false
    go none e = rw e refl
    go (some l) e = rw (lt→ltb 3 t.waitpone h, e) refl

-- A tick after fewer than four others.
pub node_early :
    (now : Str) (t : NodeTunnel)
    → t.waitpone ≤ 3
    → (is_up (node_keepalive now t).1.outlet.conn ≡ is_up t.outlet.conn)
      × (is_up t.outlet.conn ≡ true → (node_keepalive now t).1.waitpone ≡ suc t.waitpone)
unfolding node_keepalive keepalive_tick node_write_ping
node_early now t h = go t.outlet.conn refl
  where
    few : ltb 3 t.waitpone ≡ false
    few = ground (arith, h)

    go :
        (l : Option Link)
        → t.outlet.conn ≡ l
        → (is_up (keepalive_tick now l t).1.outlet.conn ≡ is_up t.outlet.conn)
          × (is_up t.outlet.conn ≡ true → (keepalive_tick now l t).1.waitpone ≡ suc t.waitpone)
    go none e = (refl, rw e (λ k. absurd (cc k)))
    go (some l) e = rw few (write_frame-is_up (ping now) t.outlet, λ k. refl)

pub node_down :
    (now : Str) (t : NodeTunnel)
    → is_up t.outlet.conn ≡ false
    → is_up (node_keepalive now t).1.outlet.conn ≡ false
node_down now t h = elim (Bool-cases (ltb 3 t.waitpone)) [
  | inl late ↦ node_late now t (ltb→lt _ _ late)
  | inr early ↦ (node_early now t (ground (arith, early))).0 ∙ h
]

abbrev pub node_timer : Timer NodeTunnel
node_timer = record {
  tick = λ now t. (node_keepalive now t).1;
  up = λ t. is_up t.outlet.conn;
  wait = λ t. t.waitpone;
  stays_down = node_down;
  closes = node_late;
  keeps = λ now t h. (node_early now t h).0;
  counts = λ now t h up. (node_early now t h).1 up;
}

-- If no pong arrives, a fifth tick at the latest has closed the websocket, at the server's end and
-- at the node's, whatever its writes do; t and u have counted at most four ticks, and five, less
-- those, are given.
pub keepalive-closes :
    (nows : List Str) (t : PopTunnel) (u : NodeTunnel)
    → t.wait_pong ≤ 4
    → u.waitpone ≤ 4
    → 5 ≤ length nows + t.wait_pong
    → 5 ≤ length nows + u.waitpone
    → (is_up (silence pop_timer nows t).outlet.conn ≡ false)
      × (is_up (silence node_timer nows u).outlet.conn ≡ false)
keepalive-closes nows t u ht hu gt gu =
    (silence-closes pop_timer nows t ht gt, silence-closes node_timer nows u hu gu)

-- If the server's tunnel is still among those that tick when its websocket has been closed for
-- want of pongs, the next tick calls through a nil pointer.
pub keepalive-twice :
    (now next : Str) (t : PopTunnel) (l : Link)
    → t.outlet.conn ≡ some l
    → 3 < t.wait_pong
    → ((pop_keepalive now t).0 ≡ ok tt)
      × ((pop_keepalive next (pop_keepalive now t).1).0 ≡ err panicked)
unfolding pop_keepalive keepalive_close close_link
keepalive-twice now next t l e h =
    rw (lt→ltb 3 t.wait_pong h, e, lt→ltb 3 t.wait_pong h) (refl, refl)
