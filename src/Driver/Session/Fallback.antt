-- ===== src/Driver/Session/Fallback.antt =====
-- When a function that needs a connection is called.
use pycomm.Base.{
  ◌≡◌, refl, Bool, true, false, List, Option, none, some, Text, Bytes, Result, ok, err,
  if◌then◌else◌,
}
use pycomm.Driver.Session.{
  open_driver, start_session, register, store_session, Driver, Event, Network, store_connection,
  request_connection, open_connection, call_if, try_standard, with_forward_open, is_zero, Step,
  after,
}

-- The result agrees with the driver's state: what `_forward_open` returns says whether the target is
-- connected, and it is not if there was an exception.
abbrev Opened : Step Bool → Type 0
Opened (ok b, d) = d.target_is_connected ≡ b
Opened (err e, d) = d.target_is_connected ≡ false

-- `with_forward_open` returns with a connection, or raises and there is none.
abbrev pub Called : Step (Unit {0}) → Type 0
Called (ok u, d) = d.target_is_connected ≡ true
Called (err e, d) = d.target_is_connected ≡ false

if-elim {ℓ κ} :
    {A : Type ℓ} (P : A → Type κ) (b : Bool) (x y : A)
    → (b ≡ true → P x)
    → (b ≡ false → P y)
    → P (if b then x else y)
if-elim P true x y hx hy = hx refl
if-elim P false x y hx hy = hy refl

module _ (is_ip_address : Text → Bool) (net : Network) where
  stores :
      (r : Result (Option Bytes)) (d : Driver)
      → d.target_is_connected ≡ false
      → Opened (store_connection is_ip_address net r d)
  unfolding store_connection
  stores (ok (some v)) d h = refl
  stores (ok none) d h = h
  stores (err e) d h = h

  requests :
      (r : Result (Bytes × Bytes)) (d : Driver)
      → d.target_is_connected ≡ false
      → Opened (request_connection is_ip_address net r d)
  unfolding request_connection
  requests (err e) d h = h
  requests (ok (m, p)) d h = stores _ _ h

  opens : (d : Driver) → Opened (open_connection is_ip_address net d)
  unfolding open_connection
  opens d =
      if-elim Opened d.target_is_connected _ _ (λ h. h)
        (λ h. if-elim Opened (is_zero d.session) _ _ (λ z. h) (λ z. requests _ d h))

  calls : (s : Step Bool) → Opened s → Called (after s (call_if is_ip_address net))
  unfolding call_if
  calls (ok true, d) h = h
  calls (ok false, d) h = h
  calls (err e, d) h = h

  falls_back : (s : Step Bool) → Opened s → Called (after s (try_standard is_ip_address net))
  unfolding try_standard
  falls_back (ok true, d) h = h
  falls_back (ok false, d) h =
      if-elim Called d.extended_forward_open _ _ (λ e. calls _ (opens _)) (λ e. h)
  falls_back (err e, d) h = h

  -- A function that needs a connection is called exactly if the target is connected at the end of
  -- `with_forward_open`, whatever the network answers: when the decorator returns, it is, and when
  -- it raises, it is not.
  pub with_forward_open-Called : (d : Driver) → Called (with_forward_open is_ip_address net d)
  unfolding with_forward_open
  with_forward_open-Called d =
      if-elim Called d.target_is_connected _ _ (λ h. h) (λ h. falls_back _ (opens d))

  -- A driver whose registration is refused has no session, but it is marked as opened: `open` returns
  -- False the first time and True from then on, without asking again.
  pub reopened_without_session :
      (d : Driver)
      → d.connection_opened ≡ false
      → d.session ≡ some 0
      → ((es : List Event) → net.connects es ≡ ok tt)
      → ((es : List Event) → net.registers es ≡ ok none)
      → let first = open_driver is_ip_address net d in
        (first.0 ≡ ok false)
        × (first.1.session ≡ some 0)
        × (open_driver is_ip_address net first.1 ≡ (ok true, first.1))
  unfolding open_driver start_session register store_session
  reopened_without_session d ho hs hc hr = rw (ho, hc, hs, hr) (refl, refl, refl)
