-- ===== src/Wire/Session.antt =====
-- What concerns one session, at either end of a tunnel: the bytes of its connection, whether that
-- takes more, and the messages that this end sends for it.
use titan_ipoverlay.Prelude.{
  ◌≡◌, refl, sym, ap, ◌∙◌, Bool, true, false, ◌&&◌, ◌||◌, Option, none, some, List, [], ◌∷◌, ◌++◌,
  ltb, if◌then◌else◌, Bool-cases, inl, inr, arith,
}
use mathlib.Core.List.{append_assoc, append-nil}
use titan_ipoverlay.Prelude.Str.{Str, str_eq, str_eq_refl}
use titan_ipoverlay.Wire.Flow.{Flow, Flow-weaken, Flow-read, Flow-lose}
use titan_ipoverlay.Wire.{
  Pb, Message, MessageType, proxy_session_create, proxy_session_data, Outlet, Link, Frame, binary,
  write_frame, send_message, close_link, Sock, write_conn, write_link, write_marshalled, close_conn,
}

abbrev pub received_of : Option Sock → Str
received_of none = []
received_of (some s) = s.received

abbrev pub written_of : Option Sock → Str
written_of none = []
written_of (some s) = s.written

abbrev pub can_write : Option Sock → Bool
can_write none = false
can_write (some s) = s.is_open && ltb 0 s.writable

abbrev pub can_send : Option Link → Bool
can_send none = false
can_send (some l) = l.is_open && ltb 0 l.writable

-- What a message carries for the session, and whether it asks for its creation.
abbrev pub payload_for : Str → MessageType → Str → Str → Str
payload_for id proxy_session_data j b = if str_eq j id then b else []
payload_for id _ j b = []

abbrev pub creates : Str → MessageType → Str → Bool
creates id proxy_session_create j = str_eq j id
creates id _ j = false

abbrev pub payload_of : Str → Option Message → Str
payload_of id none = []
payload_of id (some m) = payload_for id m.kind m.session_id m.payload

abbrev pub creates_of : Str → Option Message → Bool
creates_of id none = false
creates_of id (some m) = creates id m.kind m.session_id

module _ (pb : Pb) (id : Str) where
  abbrev pub part : Frame → Str
  part (binary b) = payload_of id (pb.message.unmarshal b)
  part _ = []

  abbrev pub asks : Frame → Bool
  asks (binary b) = creates_of id (pb.message.unmarshal b)
  asks _ = false

  -- The bytes of the session that are under way, in order.
  abbrev pub pending : List Frame → Str
  pending [] = []
  pending (f ∷ fs) = part f ++ pending fs

  abbrev pub any_asks : List Frame → Bool
  any_asks [] = false
  any_asks (f ∷ fs) = asks f || any_asks fs

  pub pending-append : (fs gs : List Frame) → pending (fs ++ gs) ≡ pending fs ++ pending gs
  pending-append [] gs = refl
  pending-append (f ∷ fs) gs =
      rw (pending-append fs gs) (sym (append_assoc (part f) (pending fs) (pending gs)))

  pub any_asks-append : (fs gs : List Frame) → any_asks (fs ++ gs) ≡ any_asks fs || any_asks gs
  any_asks-append [] gs = refl
  any_asks-append (f ∷ fs) gs = rw (any_asks-append fs gs) (ground arith)

  -- An outlet after a write that says nothing of the session.
  pub record Silent (o o' : Outlet) : Type 0 where
    pub link : can_send o'.conn ≡ true → can_send o.conn ≡ true
    pub no_bytes : pending o'.outbox ≡ pending o.outbox
    pub no_request : any_asks o'.outbox ≡ any_asks o.outbox

  pub Silent-refl : (o : Outlet) → Silent o o
  Silent-refl o = record { link = λ h. h; no_bytes = refl; no_request = refl }

  Silent-frame :
      (f : Frame) (l : Link) (box : List Frame)
      → part f ≡ []
      → asks f ≡ false
      → Silent (record { conn = some l; outbox = box }) (write_link f l box).1
  unfolding write_link
  Silent-frame f l box hp ha = elim (Bool-cases (l.is_open && ltb 0 l.writable)) [
    | inl e ↦ rw e (record {
      link = λ h. e;
      no_bytes = rw (pending-append box (f ∷ []), hp) (append-nil (pending box));
      no_request = rw (any_asks-append box (f ∷ []), ha) (ground arith);
    })
    | inr e ↦ rw e (Silent-refl _)
  ]

  pub write_frame-Silent :
      (f : Frame) (o : Outlet) → part f ≡ [] → asks f ≡ false → Silent o (write_frame f o).1
  unfolding write_frame write_conn
  write_frame-Silent f o hp ha = go o.conn o.outbox
    where
      go :
          (c : Option Link) (box : List Frame)
          → Silent (record { conn = c; outbox = box }) (write_conn f c box).1
      go none box = Silent-refl _
      go (some l) box = Silent-frame f l box hp ha

  marshalled-Silent :
      (c : Option Str) (o : Outlet)
      → ((b : Str) → c ≡ some b → (part (binary b) ≡ []) × (asks (binary b) ≡ false))
      → Silent o (write_marshalled c o).1
  unfolding write_marshalled
  marshalled-Silent none o h = Silent-refl o
  marshalled-Silent (some b) o h = write_frame-Silent (binary b) o (h b refl).0 (h b refl).1

  -- A message that neither carries bytes of the session nor asks for it.
  pub send_message-Silent :
      (m : Message) (o : Outlet)
      → payload_for id m.kind m.session_id m.payload ≡ []
      → creates id m.kind m.session_id ≡ false
      → Silent o (send_message pb m o).1
  unfolding send_message
  send_message-Silent m o hp ha = marshalled-Silent (pb.message.marshal m) o λ b e. (
    ap (payload_of id) (pb.message.unmarshal-marshal m e) ∙ hp,
    ap (creates_of id) (pb.message.unmarshal-marshal m e) ∙ ha,
  )

  pub close_link-Silent : (o : Outlet) → Silent o (close_link o).1
  unfolding close_link close_conn
  close_link-Silent o = go o.conn o.outbox
    where
      go :
          (c : Option Link) (box : List Frame)
          → Silent
              (record { conn = c; outbox = box })
              (close_link (record { conn = c; outbox = box })).1
      go none box = Silent-refl _
      go (some l) box = record { link = λ h. absurd (cc h); no_bytes = refl; no_request = refl }

  module _ (w r b c : Str) (k : Bool) where
    Flow-link :
        (l : Link) (box : List Frame)
        → part (binary c) ≡ b
        → Flow w (pending box) r (can_send (some l)) k
        → Flow w
            (pending (write_link (binary c) l box).1.outbox)
            (r ++ b)
            (can_send (write_link (binary c) l box).1.conn)
            k
    unfolding write_link
    Flow-link l box pays f = elim (Bool-cases (l.is_open && ltb 0 l.writable)) [
      | inl e ↦
          let f' = rw e at f in
          let joined : pending (box ++ (binary c ∷ [])) ≡ pending box ++ b =
            rw (pending-append box (binary c ∷ []), pays, append-nil b) refl in
          rw (e, joined)
            (Flow-weaken w _ _ true _ k k (Flow-read w (pending box) r b k f') (λ h. refl) (λ h. h))
      | inr e ↦ let f' = rw e at f in rw (e, e) (Flow-lose w (pending box) r b k f')
    ]

    -- Bytes of the session that this end sends are appended to what is under way, or lost with the
    -- link.
    pub Flow-send :
        (o : Outlet)
        → pb.message.marshal (record { kind = proxy_session_data; session_id = id; payload = b })
          ≡ some c
        → Flow w (pending o.outbox) r (can_send o.conn) k
        → let o' =
            (send_message pb
              (record { kind = proxy_session_data; session_id = id; payload = b })
              o).1 in
          Flow w (pending o'.outbox) (r ++ b) (can_send o'.conn) k
    unfolding send_message write_marshalled write_frame write_conn
    Flow-send o h f = rw h (go o.conn o.outbox f)
      where
        pays : part (binary c) ≡ b
        pays = rw (pb.message.unmarshal-marshal _ h) (rw (str_eq_refl id) refl)

        go :
            (l : Option Link) (box : List Frame)
            → Flow w (pending box) r (can_send l) k
            → Flow w
                (pending (write_conn (binary c) l box).1.outbox)
                (r ++ b)
                (can_send (write_conn (binary c) l box).1.conn)
                k
        go none box f = Flow-lose w (pending box) r b k f
        go (some l) box f = Flow-link l box pays f

  link-asks :
      (f : Frame) (l : Link) (box : List Frame)
      → asks f ≡ false
      → any_asks (write_link f l box).1.outbox ≡ any_asks box
  unfolding write_link
  link-asks f l box h = elim (Bool-cases (l.is_open && ltb 0 l.writable)) [
    | inl e ↦ rw (e, any_asks-append box (f ∷ []), h) (ground arith)
    | inr e ↦ rw e refl
  ]

  -- Bytes of the session never ask for its creation.
  pub send_data-asks :
      (b : Str) (o : Outlet)
      → any_asks
          (send_message pb
            (record { kind = proxy_session_data; session_id = id; payload = b })
            o).1.outbox
        ≡ any_asks o.outbox
  unfolding send_message write_marshalled write_frame write_conn
  send_data-asks b o =
      go (pb.message.marshal m) (λ c e. ap (creates_of id) (pb.message.unmarshal-marshal m e))
        o.conn
    where
      m : Message
      m = record { kind = proxy_session_data; session_id = id; payload = b }

      go :
          (c : Option Str)
          → ((d : Str) → c ≡ some d → asks (binary d) ≡ false)
          → (l : Option Link)
          → any_asks (write_marshalled c (record { conn = l; outbox = o.outbox })).1.outbox
            ≡ any_asks o.outbox
      go none h l = refl
      go (some d) h none = refl
      go (some d) h (some l) = link-asks (binary d) l o.outbox (h d refl)
