-- ===== src/Wire/View.antt =====
-- One end of a tunnel as a session sees it, and the steps of that end that leave the session alone.
use titan_ipoverlay.Prelude.{
  ◌≡◌, refl, sym, ◌∙◌, Bool, true, false, ◌&&◌, Option, none, some, [], ◌++◌, ltb, Bool-cases, inl,
  inr, arith,
}
use titan_ipoverlay.Prelude.Str.{Str, str_eq, str_eq_sound}
use titan_ipoverlay.Prelude.Assoc.{Assoc, lookup, insert, lookup-insert}
use titan_ipoverlay.Wire.{
  Pb, proxy_session_data, send_message, Outlet, Sock, close_sock, write_sock,
}
use mathlib.Core.List.{append-nil}
use titan_ipoverlay.Wire.Session.{received_of, written_of, can_write, Silent, Silent-refl}

-- `member` tells whether the map of sessions has this one, and `asked` whether a request to create
-- it waits to be served.
pub record View : Type 0 where
  pub sock : Option Sock
  pub member : Bool
  pub asked : Bool
  pub outlet : Outlet

abbrev pub sink : View → Bool
sink v = v.member && can_write v.sock

-- A connection that was left alone, or closed.
pub record Calm (s s' : Option Sock) : Type 0 where
  pub received : received_of s' ≡ received_of s
  pub written : written_of s' ≡ written_of s
  pub open_before : can_write s' ≡ true → can_write s ≡ true

pub Calm-refl : (s : Option Sock) → Calm s s
Calm-refl s = record { received = refl; written = refl; open_before = λ h. h }

pub Calm-close : (s : Sock) → Calm (some s) (some (close_sock s))
Calm-close s = record { received = refl; written = refl; open_before = λ h. absurd (cc h) }

-- The connection of the entry of a session.
abbrev pub conn_at : {P : Type 0} → (P → Option Sock) → Option P → Option Sock
conn_at c none = none
conn_at c (some p) = c p

module _ {P : Type 0} (c : P → Option Sock) where
  pub insert-other :
      (j id : Str) (p : P) (m : Assoc P)
      → str_eq j id ≡ false
      → conn_at c (lookup id (insert j p m)) ≡ conn_at c (lookup id m)
  insert-other j id p m h = rw (lookup-insert j id p m, h) refl

  pub insert_self :
      (j id : Str) (p : P) (m : Assoc P)
      → str_eq j id ≡ true
      → conn_at c (lookup id (insert j p m)) ≡ c p
  insert_self j id p m h = rw (lookup-insert j id p m, h) refl

  -- A calm change of the connection of any session.
  pub insert-Calm :
      (j id : Str) (p : P) (m : Assoc P)
      → Calm (conn_at c (lookup j m)) (c p)
      → Calm (conn_at c (lookup id m)) (conn_at c (lookup id (insert j p m)))
  insert-Calm j id p m h = elim (Bool-cases (str_eq j id)) [
    | inl e ↦ rw (insert_self j id p m e, ← str_eq_sound j id e) h
    | inr e ↦ rw (insert-other j id p m e) (Calm-refl _)
  ]

-- A step of one end that neither moves bytes of the session nor asks for it.
module _ (pb : Pb) (id : Str) where
  pub record Quiet (v v' : View) : Type 0 where
    pub calm : Calm v.sock v'.sock
    pub still_member : v'.member ≡ true → v.member ≡ true
    pub unasked : v'.asked ≡ true → v.asked ≡ true
    pub silent : Silent pb id v.outlet v'.outlet

  pub Quiet-refl : (v : View) → Quiet v v
  Quiet-refl v = record {
    calm = Calm-refl v.sock;
    still_member = λ h. h;
    unasked = λ h. h;
    silent = Silent-refl pb id v.outlet;
  }

  pub Quiet-trans : (u v w : View) → Quiet u v → Quiet v w → Quiet u w
  Quiet-trans u v w a b = record {
    calm = record {
      received = b.calm.received ∙ a.calm.received;
      written = b.calm.written ∙ a.calm.written;
      open_before = λ h. a.calm.open_before (b.calm.open_before h);
    };
    still_member = λ h. a.still_member (b.still_member h);
    unasked = λ h. a.unasked (b.unasked h);
    silent = record {
      link = λ h. a.silent.link (b.silent.link h);
      no_bytes = b.silent.no_bytes ∙ a.silent.no_bytes;
      no_request = b.silent.no_request ∙ a.silent.no_request;
    };
  }

  pub Quiet-sink : (v v' : View) → Quiet v v' → sink v' ≡ true → sink v ≡ true
  Quiet-sink v v' q h =
      both v.member v'.member (can_write v.sock) (can_write v'.sock) q.still_member
        q.calm.open_before h
    where
      both :
          (a a' b b' : Bool)
          → (a' ≡ true → a ≡ true)
          → (b' ≡ true → b ≡ true)
          → a' && b' ≡ true
          → a && b ≡ true
      both a a' b b' f g h = ground arith

  -- A read of bytes of the session, which are sent to the other end.
  pub record Read (b : Str) (v v' : View) : Type 0 where
    pub received : received_of v'.sock ≡ received_of v.sock ++ b
    pub written : written_of v'.sock ≡ written_of v.sock
    pub still_sink : sink v' ≡ true → sink v ≡ true
    pub unasked : v'.asked ≡ true → v.asked ≡ true
    pub sent :
        v'.outlet
        ≡ (send_message pb
            (record { kind = proxy_session_data; session_id = id; payload = b })
            v.outlet).1

  -- Bytes of the session that came from the other end.
  pub record Delivered (b : Str) (v v' : View) : Type 0 where
    pub wrote : sink v ≡ true → written_of v'.sock ≡ written_of v.sock ++ b
    pub skipped : sink v ≡ false → written_of v'.sock ≡ written_of v.sock
    pub received : received_of v'.sock ≡ received_of v.sock
    pub still_sink : sink v' ≡ true → sink v ≡ true
    pub unasked : v'.asked ≡ true → v.asked ≡ true
    pub silent : Silent pb id v.outlet v'.outlet

  pub Quiet-Delivered : (v v' : View) → Quiet v v' → Delivered [] v v'
  Quiet-Delivered v v' q = record {
    wrote = λ h. q.calm.written ∙ sym (append-nil (written_of v.sock));
    skipped = λ h. q.calm.written;
    received = q.calm.received;
    still_sink = Quiet-sink v v' q;
    unasked = q.unasked;
    silent = q.silent;
  }

-- A write to the connection of a session, that may fail.
pub write_sock-Delivered :
    (pb : Pb) (id b : Str) (s : Sock) (a : Bool) (o : Outlet)
    → Delivered pb id b
        (record { sock = some s; member = true; asked = a; outlet = o })
        (record { sock = some (write_sock b s).1; member = true; asked = a; outlet = o })
unfolding write_sock
write_sock-Delivered pb id b s a o = elim (Bool-cases (s.is_open && ltb 0 s.writable)) [
  | inl e ↦ rw e (record {
    wrote = λ h. refl;
    skipped = λ h. absurd (cc (h, e));
    received = refl;
    still_sink = λ h. e;
    unasked = λ h. h;
    silent = Silent-refl pb id o;
  })
  | inr e ↦ rw e (record {
    wrote = λ h. absurd (cc (h, e));
    skipped = λ h. refl;
    received = refl;
    still_sink = λ h. h;
    unasked = λ h. h;
    silent = Silent-refl pb id o;
  })
]
