-- ===== src/Pipe/Carries.antt =====
-- What the sender of one direction of a session has read, what is under way, and what the receiver
-- has written, kept by the steps of either.
use titan_ipoverlay.Prelude.{◌≡◌, refl, subst, sym, ◌∙◌, Bool, true, false, some, List, ◌∷◌, ◌++◌}
use titan_ipoverlay.Prelude.Str.{Str}
use titan_ipoverlay.Wire.{Pb, proxy_session_data, Frame}
use titan_ipoverlay.Wire.Flow.{Flow, Flow-weaken, Flow-write, Flow-skip}
use titan_ipoverlay.Wire.Session.{received_of, written_of, can_send, pending, part, Flow-send}
use titan_ipoverlay.Wire.View.{View, sink, Quiet, Quiet-sink, Read, Delivered}

-- The messages of the session can be encoded, as its id is the text of a UUID.
abbrev pub Encodable : Pb → Str → Type 0
Encodable pb id =
    (b : Str)
    → (c : Str) × (pb.message.marshal
          (record { kind = proxy_session_data; session_id = id; payload = b })
        ≡ some c)

module _ (pb : Pb) (id : Str) where
  -- From the sender v to the receiver u.
  abbrev pub Carries : View → View → Type 0
  Carries v u =
      Flow (written_of u.sock) (pending pb id v.outlet.outbox) (received_of v.sock)
        (can_send v.outlet.conn) (sink u)

  pub source-Quiet : (v v' u : View) → Quiet pb id v v' → Carries v u → Carries v' u
  source-Quiet v v' u q f =
      rw (q.calm.received, q.silent.no_bytes)
        (Flow-weaken _ _ _ (can_send v.outlet.conn) _ (sink u) (sink u) f q.silent.link (λ h. h))

  pub sink-Quiet : (v u u' : View) → Quiet pb id u u' → Carries v u → Carries v u'
  sink-Quiet v u u' q f = rw q.calm.written (
      Flow-weaken _ _ _ (can_send v.outlet.conn) _ (sink u) (sink u') f (λ h. h)
        (Quiet-sink pb id u u' q))

  pub source-Read :
      (v v' u : View) (b : Str) → Encodable pb id → Read pb id b v v' → Carries v u → Carries v' u
  source-Read v v' u b enc r f =
      rw (r.received, r.sent)
        (Flow-send pb id (written_of u.sock) (received_of v.sock) b (enc b).0 (sink u) v.outlet
          (enc b).1 f)

  pub sink-Read : (v u u' : View) (b : Str) → Read pb id b u u' → Carries v u → Carries v u'
  sink-Read v u u' b r f =
      rw r.written
        (Flow-weaken _ _ _ (can_send v.outlet.conn) _ (sink u) (sink u') f (λ h. h) r.still_sink)

  pub source-Delivered :
      (v v' u : View) (b : Str) → Delivered pb id b v v' → Carries v u → Carries v' u
  source-Delivered v v' u b d f =
      rw (d.received, d.silent.no_bytes)
        (Flow-weaken _ _ _ (can_send v.outlet.conn) _ (sink u) (sink u) f d.silent.link (λ h. h))

  -- The frame at the front of what is under way arrives.
  pub sink-Delivered :
      (v u u' : View) (f : Frame) (rest : List Frame)
      → v.outlet.outbox ≡ f ∷ rest
      → Delivered pb id (part pb id f) u u'
      → Carries v u
      → Carries (record v { outlet = record v.outlet { outbox = rest } }) u'
  sink-Delivered v u u' f rest h d c = go (sink u) refl (
      subst
        (λ box.
          Flow (written_of u.sock) (pending pb id box) (received_of v.sock) (can_send v.outlet.conn)
            (sink u))
        h c)
    where
      p : Str
      p = pending pb id rest

      r : Str
      r = received_of v.sock

      l : Bool
      l = can_send v.outlet.conn

      go :
          (k : Bool)
          → sink u ≡ k
          → Flow (written_of u.sock) (part pb id f ++ p) r l k
          → Flow (written_of u'.sock) p r l (sink u')
      go true e c = rw (d.wrote e) (
          Flow-weaken _ p r l l true (sink u')
            (Flow-write (written_of u.sock) p r (part pb id f) l c) (λ g. g) (λ g. refl))
      go false e c = rw (d.skipped e) (
          Flow-weaken _ p r l l false (sink u')
            (Flow-skip (written_of u.sock) p r (part pb id f) l c) (λ g. g)
            (λ g. sym e ∙ d.still_sink g))
