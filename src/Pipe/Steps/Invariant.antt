-- ===== src/Pipe/Steps/Invariant.antt =====
-- What holds between the two ends of an established session, whatever happens at either of them.
use titan_ipoverlay.Prelude.{
  ◌≡◌, refl, sym, ap, ◌∙◌, subst, Bool, true, false, ◌||◌, List, [], ◌∷◌, ◌++◌, Bool-cases, inl,
  inr, arith,
}
use mathlib.Core.List.{append-nil}
use titan_ipoverlay.Prelude.Str.{Str}
use titan_ipoverlay.Wire.{Frame}
use titan_ipoverlay.Wire.Flow.{Flow, Flow-prefix}
use titan_ipoverlay.Wire.Session.{
  received_of, written_of, can_send, part, asks, pending, any_asks, send_data-asks,
}
use titan_ipoverlay.Wire.View.{View, sink, Quiet, Read, Delivered}
use titan_ipoverlay.Ws.Tunnel.Effects.{pop_view}
use titan_ipoverlay.Client.Tunnel.Effects.{node_view}
use titan_ipoverlay.Pipe.{System, Env, node_frame, pop_frame}
use titan_ipoverlay.Pipe.Carries.{
  Encodable, Carries, source-Quiet, sink-Quiet, source-Read, sink-Read, source-Delivered,
  sink-Delivered,
}
use titan_ipoverlay.Pipe.Steps.{Step, Reach, here, later, pop_runs, node_runs, to_node, to_pop}
use titan_ipoverlay.Pipe.Steps.Frames.{
  Moved, pop_Moved, node_Moved, pop_frame-Delivered, node_frame-Delivered,
}

-- A channel of bytes from the one that was given x to the one that got y.
pub data Fifo (x y x' y' : Str) : Type 0 where
  idle : x' ≡ x → y' ≡ y → Fifo x y x' y'
  put : (b : Str) → x' ≡ x ++ b → y' ≡ y → Fifo x y x' y'
  get : (b rest : Str) → x' ≡ x → y' ≡ y ++ b → y' ++ rest ≡ x → Fifo x y x' y'

module _ (e : Env) (id : Str) (enc : Encodable e.pb id) where
  pub record Joined (v u : View) : Type 0 where
    pub up : Carries e.pb id v u
    pub down : Carries e.pb id u v
    pub unasked : u.asked ≡ false
    pub no_request : any_asks e.pb id v.outlet.outbox ≡ false

  abbrev pub Established : System → Type 0
  Established s = Joined (pop_view id s.pop) (node_view id s.node)

  Quiet-asked : (u u' : View) → Quiet e.pb id u u' → u.asked ≡ false → u'.asked ≡ false
  Quiet-asked u u' q h = go u.asked u'.asked q.unasked h
    where
      go : (a b : Bool) → (b ≡ true → a ≡ true) → a ≡ false → b ≡ false
      go a b f h = ground arith

  module _ (v u : View) (j : Joined v u) where
    pop_quiet : (v' : View) → Quiet e.pb id v v' → Joined v' u
    pop_quiet v' q = record {
      up = source-Quiet e.pb id v v' u q j.up;
      down = sink-Quiet e.pb id u v v' q j.down;
      unasked = j.unasked;
      no_request = q.silent.no_request ∙ j.no_request;
    }

    node_quiet : (u' : View) → Quiet e.pb id u u' → Joined v u'
    node_quiet u' q = record {
      up = sink-Quiet e.pb id v u u' q j.up;
      down = source-Quiet e.pb id u u' v q j.down;
      unasked = Quiet-asked u u' q j.unasked;
      no_request = j.no_request;
    }

    pop_read : (v' : View) (b : Str) → Read e.pb id b v v' → Joined v' u
    pop_read v' b r = record {
      up = source-Read e.pb id v v' u b enc r j.up;
      down = sink-Read e.pb id u v v' b r j.down;
      unasked = j.unasked;
      no_request = rw r.sent (send_data-asks e.pb id b v.outlet ∙ j.no_request);
    }

    node_read : (u' : View) (b : Str) → Read e.pb id b u u' → Joined v u'
    node_read u' b r = record {
      up = sink-Read e.pb id v u u' b r j.up;
      down = source-Read e.pb id u u' v b enc r j.down;
      unasked = go u.asked u'.asked r.unasked j.unasked;
      no_request = j.no_request;
    }
      where
        go : (a b : Bool) → (b ≡ true → a ≡ true) → a ≡ false → b ≡ false
        go a b f h = ground arith

    rest_asks :
        (f : Frame) (rest : List Frame)
        → v.outlet.outbox ≡ f ∷ rest
        → (asks e.pb id f ≡ false) × (any_asks e.pb id rest ≡ false)
    rest_asks f rest h =
        both (asks e.pb id f) (any_asks e.pb id rest) (sym (ap (any_asks e.pb id) h) ∙ j.no_request)
      where
        both : (a b : Bool) → a || b ≡ false → (a ≡ false) × (b ≡ false)
        both a b h = ground arith

    node_gets :
        (u' : View) (f : Frame) (rest : List Frame)
        → v.outlet.outbox ≡ f ∷ rest
        → Delivered e.pb id (part e.pb id f) u u'
        → Joined (record v { outlet = record v.outlet { outbox = rest } }) u'
    node_gets u' f rest h d = record {
      up = sink-Delivered e.pb id v u u' f rest h d j.up;
      down = source-Delivered e.pb id u u' v (part e.pb id f) d j.down;
      unasked = go u.asked u'.asked d.unasked j.unasked;
      no_request = (rest_asks f rest h).1;
    }
      where
        go : (a b : Bool) → (b ≡ true → a ≡ true) → a ≡ false → b ≡ false
        go a b f h = ground arith

    pop_gets :
        (v' : View) (f : Frame) (rest : List Frame)
        → u.outlet.outbox ≡ f ∷ rest
        → Delivered e.pb id (part e.pb id f) v v'
        → Joined v' (record u { outlet = record u.outlet { outbox = rest } })
    pop_gets v' f rest h d = record {
      up = source-Delivered e.pb id v v' u (part e.pb id f) d j.up;
      down = sink-Delivered e.pb id u v v' f rest h d j.down;
      unasked = j.unasked;
      no_request = d.silent.no_request ∙ j.no_request;
    }

  -- The two channels of a session, one in each direction.
  abbrev pub Channels : View → View → View → View → Type 0
  Channels v u v' u' =
      Fifo (received_of v.sock) (written_of u.sock) (received_of v'.sock) (written_of u'.sock)
      × Fifo (received_of u.sock) (written_of v.sock) (received_of u'.sock) (written_of v'.sock)

  gets :
      (v u u' : View) (b : Str)
      → ((rest : Str) × (written_of u'.sock ++ rest ≡ received_of v.sock))
      → Delivered e.pb id b u u'
      → Fifo (received_of v.sock) (written_of u.sock) (received_of v.sock) (written_of u'.sock)
  gets v u u' b (rest, h) d = elim (Bool-cases (sink u)) [
    | inl k ↦ get b rest refl (d.wrote k) h
    | inr k ↦ idle refl (d.skipped k)
  ]

  ordered :
      (v u : View)
      → Carries e.pb id v u
      → (rest : Str) × (written_of u.sock ++ rest ≡ received_of v.sock)
  ordered v u c = Flow-prefix _ _ _ (can_send v.outlet.conn) (sink u) c

  abbrev pub Follows : System → System → Type 0
  Follows s t =
      Established t
      × Channels (pop_view id s.pop) (node_view id s.node) (pop_view id t.pop) (node_view id t.node)

  pop_Moved-Follows :
      (v u v' : View) → Joined v u → Moved e id v v' → Joined v' u × Channels v u v' u
  pop_Moved-Follows v u v' j (inl q) =
      (pop_quiet v u j v' q, (idle q.calm.received refl, idle refl q.calm.written))
  pop_Moved-Follows v u v' j (inr (b, r)) =
      (pop_read v u j v' b r, (put b r.received refl, idle refl r.written))

  node_Moved-Follows :
      (v u u' : View) → Joined v u → Moved e id u u' → Joined v u' × Channels v u v u'
  node_Moved-Follows v u u' j (inl q) =
      (node_quiet v u j u' q, (idle refl q.calm.written, idle q.calm.received refl))
  node_Moved-Follows v u u' j (inr (b, r)) =
      (node_read v u j u' b r, (idle refl r.written, put b r.received refl))

  -- From a state where a session is established at both ends, every step of the system is a step
  -- of one byte channel in each direction: it idles, or bytes that one end reads are put into it, or
  -- the other end writes the next bytes of what was put.
  pub Step-Channels : (s t : System) → Established s → Step e id s t → Follows s t
  Step-Channels s _ j (pop_runs {t} m) =
      pop_Moved-Follows (pop_view id s.pop) (node_view id s.node) (pop_view id t) j
        (pop_Moved e id s.pop t m)
  Step-Channels s _ j (node_runs {t} m) =
      node_Moved-Follows (pop_view id s.pop) (node_view id s.node) (node_view id t) j
        (node_Moved e id s.node t j.unasked m)
  Step-Channels s _ j (to_node f rest h) =
      let v = pop_view id s.pop in
      let u = node_view id s.node in
      let u' = node_view id (node_frame e f s.node) in
      let d = node_frame-Delivered e id s.node f (rest_asks v u j f rest h).0 in
      let j' = node_gets v u j u' f rest h d in
      (
        j',
        (
          gets v u u' (part e.pb id f)
              (ordered (record v { outlet = record v.outlet { outbox = rest } }) u' j'.up) d,
          idle d.received refl,
        ),
      )
  Step-Channels s _ j (to_pop now f rest h) =
      let v = pop_view id s.pop in
      let u = node_view id s.node in
      let v' = pop_view id (pop_frame e now f s.pop) in
      let d = pop_frame-Delivered e id s.pop now f in
      let j' = pop_gets v u j v' f rest h d in
      (
        j',
        (
          idle d.received refl,
          gets u v v' (part e.pb id f)
              (ordered (record u { outlet = record u.outlet { outbox = rest } }) v' j'.down) d,
        ),
      )

  pub Reach-Established : (s t : System) → Established s → Reach e id s t → Established t
  Reach-Established s _ j here = j
  Reach-Established s _ j (later {s = u} {t = t} r m) =
      (Step-Channels u t (Reach-Established s u j r) m).0

  -- Where both ends still take bytes and nothing is under way, all has arrived.
  complete :
      (v u : View)
      → Carries e.pb id v u
      → can_send v.outlet.conn ≡ true
      → sink u ≡ true
      → pending e.pb id v.outlet.outbox ≡ []
      → written_of u.sock ≡ received_of v.sock
  complete v u c l k p = go (can_send v.outlet.conn) (sink u) l k (
      subst (λ b. Flow (written_of u.sock) b (received_of v.sock) (can_send v.outlet.conn) (sink u))
        p c)
    where
      go :
          (l k : Bool)
          → l ≡ true
          → k ≡ true
          → Flow (written_of u.sock) [] (received_of v.sock) l k
          → written_of u.sock ≡ received_of v.sock
      go true true l k f = sym (append-nil (written_of u.sock)) ∙ f
      go false k l h f = absurd (cc l)
      go true false l k f = absurd (cc k)

  abbrev pub Quiescent : View → View → Type 0
  Quiescent v u =
      (can_send v.outlet.conn ≡ true) × (sink u ≡ true) × (pending e.pb id v.outlet.outbox ≡ [])

  -- From a state where a session is established at both ends, at every later state: what either end
  -- has written to its connection is a prefix of what the other end has read from its own.
  pub Reach-in_order :
      (s t : System)
      → Established s
      → Reach e id s t
      → let v = pop_view id t.pop in
        let u = node_view id t.node in
        ((rest : Str) × (written_of u.sock ++ rest ≡ received_of v.sock))
        × ((rest : Str) × (written_of v.sock ++ rest ≡ received_of u.sock))
  Reach-in_order s t j r =
      let v = pop_view id t.pop in
      let u = node_view id t.node in
      let j' = Reach-Established s t j r in (ordered v u j'.up, ordered u v j'.down)

  -- From a state where a session is established at both ends, at a later state where both websockets and both
  -- connections still take bytes and no bytes of the session are under way: each end has written
  -- all that the other end has read.
  pub Reach-complete :
      (s t : System)
      → Established s
      → Reach e id s t
      → Quiescent (pop_view id t.pop) (node_view id t.node)
      → Quiescent (node_view id t.node) (pop_view id t.pop)
      → let v = pop_view id t.pop in
        let u = node_view id t.node in
        (written_of u.sock ≡ received_of v.sock) × (written_of v.sock ≡ received_of u.sock)
  Reach-complete s t j r (l, k, p) (l', k', p') =
      let v = pop_view id t.pop in
      let u = node_view id t.node in
      let j' = Reach-Established s t j r in
      (complete v u j'.up l k p, complete u v j'.down l' k' p')
