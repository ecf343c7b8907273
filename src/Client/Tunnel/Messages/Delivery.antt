-- ===== src/Client/Tunnel/Messages/Delivery.antt =====
-- What a message that arrives at the node's end of a tunnel does to one session.
use titan_ipoverlay.Prelude.{◌≡◌, false, Option, none, some, Bool-cases, inl, inr}
use titan_ipoverlay.Prelude.Str.{Str, str_eq, str_eq_sound}
use titan_ipoverlay.Wire.{
  Pb, Message, MessageType, command, proxy_session_create, proxy_session_data, proxy_session_close,
  proxy_udp_data, other_type,
}
use titan_ipoverlay.Wire.Session.{payload_for, payload_of, creates_of, creates}
use titan_ipoverlay.Wire.View.{Quiet-refl, Delivered, Quiet-Delivered}
use titan_ipoverlay.Client.Tunnel.{Tunnel}
use titan_ipoverlay.Client.Tunnel.Effects.{node_view}
use titan_ipoverlay.Client.Tunnel.Messages.{Dialer, dispatch, on_tunnel_msg, on_decoded}
use titan_ipoverlay.Client.Tunnel.Messages.Quiet.{
  data_own-Delivered, dispatch-NodeQuiet, session_close-NodeQuiet, udp-NodeQuiet,
}

module _ (pb : Pb) (id : Str) (net : Dialer) where
  kind-Delivered :
      (t : Tunnel) (k : MessageType) (j b : Str)
      → creates id k j ≡ false
      → Delivered pb id
          (payload_for id k j b)
          (node_view id t)
          (node_view id (dispatch pb net k j b t).1)
  unfolding dispatch
  kind-Delivered t proxy_session_data j b h = elim (Bool-cases (str_eq j id)) [
    | inl e ↦ rw (e, str_eq_sound j id e) (data_own-Delivered pb id net t b)
    | inr e ↦ rw e (
        Quiet-Delivered pb id _ _
          (dispatch-NodeQuiet pb id net t proxy_session_data j b (λ g. e) (λ g. absurd (cc g))))
  ]
  kind-Delivered t proxy_session_create j b h =
      Quiet-Delivered pb id _ _
        (dispatch-NodeQuiet pb id net t proxy_session_create j b (λ g. absurd (cc g)) (λ g. h))
  kind-Delivered t command j b h = Quiet-Delivered pb id _ _ (Quiet-refl pb id _)
  kind-Delivered t proxy_session_close j b h =
      Quiet-Delivered pb id _ _ (session_close-NodeQuiet pb id net t j)
  kind-Delivered t proxy_udp_data j b h = Quiet-Delivered pb id _ _ (udp-NodeQuiet pb id net t j b)
  kind-Delivered t (other_type n) j b h = Quiet-Delivered pb id _ _ (Quiet-refl pb id _)

  -- Whatever arrives, but a request for it, the session gets just the bytes that it carries for it.
  pub message-Delivered :
      (t : Tunnel) (b : Str)
      → creates_of id (pb.message.unmarshal b) ≡ false
      → Delivered pb id
          (payload_of id (pb.message.unmarshal b))
          (node_view id t)
          (node_view id (on_tunnel_msg pb net b t).1)
  unfolding on_tunnel_msg on_decoded
  message-Delivered t b h = go (pb.message.unmarshal b) h
    where
      go :
          (o : Option Message)
          → creates_of id o ≡ false
          → Delivered pb id
              (payload_of id o)
              (node_view id t)
              (node_view id (on_decoded pb net o t).1)
      go none h = Quiet-Delivered pb id _ _ (Quiet-refl pb id _)
      go (some m) h = kind-Delivered t m.kind m.session_id m.payload h
