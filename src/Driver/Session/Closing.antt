-- ===== src/Driver/Session/Closing.antt =====
-- What is left of a driver that has been closed, and what the target has seen.
use mathlib.Core.Path.{ap₂}
use pycomm.Base.{
  ap, ◌∙◌, if◌then◌else◌, ◌≡◌, refl, Bool, true, false, List, [], ◌∷◌, ◌++◌, some, Text, Bytes,
  Result, ok, err, comm_error, inl, inr, ◌⊎◌,
}
use pycomm.Paths.Segments.{encode_path}
use pycomm.Driver.Session.{
  Driver, Network, Event, after, Step, forward_close, unregister_session, close_socket, close,
  close_session, close_sock, close_connection, request_close, store_closed, unregister,
  forget_session, forward_close_msg, msg_router_path, both, is_zero,
}

both-cases :
    (is_ip_address : Text → Bool) (net : Network) (r s : Result (Unit {0}))
    → (both is_ip_address net r s ≡ ok tt) ⊎ (both is_ip_address net r s ≡ err comm_error)
both-cases is_ip_address net (ok u) (ok w) = inl refl
both-cases is_ip_address net (ok u) (err e) = inr refl
both-cases is_ip_address net (err e) s = inr refl

-- The driver that `close` leaves has no socket, session 0, is not opened and has no connection to the target,
-- whatever state it was in and whatever fails on the way, and nothing but a CommError comes out of `close`.
-- Closing it again raises nothing, sends nothing and leaves every field of the driver as it is, also in
-- a network that answers otherwise.
pub close-resets :
    (is_ip_address : Text → Bool) (net later : Network) (d : Driver)
    → let after = close is_ip_address net d in
      (after.1.has_sock ≡ false)
      × (after.1.session ≡ some 0)
      × (after.1.connection_opened ≡ false)
      × (after.1.target_is_connected ≡ false)
      × ((after.0 ≡ ok tt) ⊎ (after.0 ≡ err comm_error))
      × (close is_ip_address later after.1 ≡ (ok tt, after.1))
unfolding close close_session close_sock
close-resets is_ip_address net later d =
    (refl, refl, refl, refl, both-cases is_ip_address net _ _, refl)

module _ (is_ip_address : Text → Bool) (net : Network) (route : Bytes) (closes : List Event → Bool)
    (answers : (es : List Event) → net.closes es ≡ ok (closes es))
    (unreg : (es : List Event) → net.unregisters es ≡ ok tt)
    (sock : (es : List Event) → net.closes_socket es ≡ ok tt) where
  -- The session is ended, and the socket is still there.
  abbrev Ended : List Event → Step (Unit {0}) → Type 0
  Ended es s = (s.0 ≡ ok tt) × (s.1.sent ≡ es ++ (unregister_session ∷ [])) × (s.1.has_sock ≡ true)

  ends :
      (b : Bool) (d : Driver)
      → is_zero d.session ≡ false
      → d.has_sock ≡ true
      → Ended d.sent (
          after
            (store_closed is_ip_address net (ok b) d)
            (λ c d'. if is_zero d'.session then (ok tt, d') else unregister is_ip_address net d'))
  unfolding store_closed unregister forget_session
  ends true d hz hs = rw (hz, unreg) (refl, refl, hs)
  ends false d hz hs = rw (hz, unreg) (refl, refl, hs)

  session_ends :
      (d : Driver)
      → d.target_is_connected ≡ true
      → d.has_sock ≡ true
      → is_zero d.session ≡ false
      → encode_path is_ip_address true (d.cip_path ++ msg_router_path) true true ≡ ok route
      → Ended
          (d.sent ++ (forward_close (forward_close_msg d) route ∷ []))
          (close_session is_ip_address net d)
  unfolding close_session close_connection request_close
  session_ends d hc hs hz hr = rw (hc, hz, hr, answers) (ends (closes _) _ hz hs)

  sock_closes :
      (d : Driver)
      → d.has_sock ≡ true
      → ((close_sock is_ip_address net d).0 ≡ ok tt)
        × ((close_sock is_ip_address net d).1.sent ≡ d.sent ++ (close_socket ∷ []))
  unfolding close_sock
  sock_closes d hs = rw (hs, sock) (refl, refl)

  -- If the socket does not fail, `close` of a driver with a connection and a session sends, in this
  -- order, the Forward Close, whatever it is answered, and the end of the session, and then closes
  -- the socket.
  pub close-order :
      (d : Driver)
      → d.target_is_connected ≡ true
      → d.has_sock ≡ true
      → is_zero d.session ≡ false
      → encode_path is_ip_address true (d.cip_path ++ msg_router_path) true true ≡ ok route
      → ((close is_ip_address net d).0 ≡ ok tt)
        × ((close is_ip_address net d).1.sent
            ≡ ((d.sent ++ (forward_close (forward_close_msg d) route ∷ []))
                ++ (unregister_session ∷ []))
              ++ (close_socket ∷ []))
  unfolding close
  close-order d hc hs hz hr =
      let (r, es, has) = session_ends d hc hs hz hr in
      let (s, more) = sock_closes (close_session is_ip_address net d).1 has in
      (ap₂ (both is_ip_address net) r s, more ∙ ap (λ z. z ++ (close_socket ∷ [])) es)
