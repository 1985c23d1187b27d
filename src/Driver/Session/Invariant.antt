-- ===== src/Driver/Session/Invariant.antt =====
-- The states that a driver can be in.
use pycomm.Base.{
  ℕ, ◌≡◌, refl, sym, Bool, true, false, not, ◌&&◌, List, Option, none, some, Text, Bytes, Result,
  ok, err, Bool-cases, inl, inr, arith, if◌then◌else◌,
}
use pycomm.Paths.Segments.{Segment}
use pycomm.Driver.Session.{
  Driver, new_driver, Network, Step, has_session, is_zero, after, store_session, register,
  start_session, open_driver, store_connection, request_connection, forward_open_request,
  open_connection, call_if, try_standard, with_forward_open, close,
}

-- What `is_well_formed` says, as the lemmas use it: a connection has a session, a session an open socket, and outside `close` there is a session number,
-- be it 0.
abbrev WellFormed : Driver → Type 0
WellFormed d =
    (d.target_is_connected ≡ true → has_session d.session ≡ true)
    × (has_session d.session ≡ true → d.connection_opened ≡ true)
    × (d.connection_opened ≡ true → d.has_sock ≡ true)
    × (is_zero d.session ≡ false → has_session d.session ≡ true)

abbrev pub implies : Bool → Bool → Bool
implies false b = true
implies true b = b

-- A connection has a session, a session an open socket, and the session is a number, be it 0.
abbrev pub is_well_formed : Driver → Bool
is_well_formed d =
    implies d.target_is_connected (has_session d.session)
    && (implies (has_session d.session) d.connection_opened
        && (implies d.connection_opened d.has_sock
            && implies (not (is_zero d.session)) (has_session d.session)))

implies-true : (a b : Bool) → (a ≡ true → b ≡ true) → implies a b ≡ true
implies-true true b h = h refl
implies-true false b h = refl

is_well_formed-true : (d : Driver) → WellFormed d → is_well_formed d ≡ true
is_well_formed-true d (c, k, j, z) =
    rw
      (
        implies-true _ _ c,
        implies-true _ _ k,
        implies-true _ _ j,
        implies-true (not (is_zero d.session)) _ (λ h. z (not_true _ h)),
      )
      refl
  where
    not_true : (b : Bool) → not b ≡ true → b ≡ false
    not_true true h = sym h
    not_true false h = refl

pub data Operation : Type 0 where
  opening connecting closing : Operation

module _ (is_ip_address : Text → Bool) (net : Network) where
  abbrev pub leaves : Operation → Driver → Driver
  leaves opening d = (open_driver is_ip_address net d).1
  leaves connecting d = (with_forward_open is_ip_address net d).1
  leaves closing d = (close is_ip_address net d).1

  -- The states that operations lead to, whether they raise or not.
  pub data Reachable (path : List Segment) : Driver → Type 0 where
    start : Reachable path (new_driver path)
    step : (d : Driver) (o : Operation) → Reachable path d → Reachable path (leaves o d)

  -- A driver whose socket is open and that has no connection.
  abbrev Unconnected : Driver → Type 0
  Unconnected d =
      (d.target_is_connected ≡ false)
      × (d.connection_opened ≡ true)
      × (d.has_sock ≡ true)
      × (is_zero d.session ≡ false → has_session d.session ≡ true)

  unconnected-WellFormed : (d : Driver) → Unconnected d → WellFormed d
  unconnected-WellFormed d (c, o, s, z) =
      ((λ h. absurd (ground (arith, c, h))), (λ h. o), (λ h. s), z)

  if-WellFormed {ℓ} :
      {A : Type ℓ} (b : Bool) (x y : Step A)
      → (b ≡ true → WellFormed x.1)
      → (b ≡ false → WellFormed y.1)
      → WellFormed (if b then x else y).1
  if-WellFormed true x y hx hy = hx refl
  if-WellFormed false x y hx hy = hy refl

  store_session-WellFormed :
      (r : Result (Option ℕ)) (d : Driver)
      → Unconnected d
      → WellFormed (store_session is_ip_address net r d).1
  unfolding store_session
  store_session-WellFormed (ok (some s)) d (c, o, k, z) =
      ((λ h. absurd (ground (arith, c, h))), (λ h. o), (λ h. k), λ h. rw h refl)
  store_session-WellFormed (ok none) d u = unconnected-WellFormed d u
  store_session-WellFormed (err e) d u = unconnected-WellFormed d u

  register-WellFormed : (d : Driver) → Unconnected d → WellFormed (register is_ip_address net d).1
  unfolding register
  register-WellFormed d u =
      if-WellFormed (has_session d.session) _ _ (λ h. unconnected-WellFormed d u)
        (λ h. store_session-WellFormed _ _ u)

  after-WellFormed {ℓ κ} :
      {A : Type ℓ} {B : Type κ} (s : Step A) (f : A → Driver → Step B)
      → WellFormed s.1
      → ((a : A) (d : Driver) → WellFormed d → WellFormed (f a d).1)
      → WellFormed (after s f).1
  after-WellFormed (ok a, d) f h k = k a d h
  after-WellFormed (err e, d) f h k = h

  no_connection :
      (d : Driver)
      → (d.target_is_connected ≡ true → has_session d.session ≡ true)
      → (has_session d.session ≡ true → d.connection_opened ≡ true)
      → d.connection_opened ≡ false
      → d.target_is_connected ≡ false
  no_connection d c k o = elim (Bool-cases d.target_is_connected) [
    | inl h ↦ absurd (ground (arith, k (c h), o))
    | inr h ↦ h
  ]

  start_session-WellFormed :
      (r : Result (Unit {0})) (d : Driver)
      → WellFormed d
      → d.connection_opened ≡ false
      → d.has_sock ≡ true
      → WellFormed (start_session is_ip_address net r d).1
  unfolding start_session
  start_session-WellFormed (err e) d w o s = w
  start_session-WellFormed (ok u) d (c, k, j, z) o s =
      after-WellFormed (register is_ip_address net _) _
        (register-WellFormed _ (no_connection d c k o, refl, s, z)) (λ a d' w. w)

  open_driver-WellFormed :
      (d : Driver) → WellFormed d → WellFormed (open_driver is_ip_address net d).1
  unfolding open_driver
  open_driver-WellFormed d (c, k, j, z) =
      if-WellFormed d.connection_opened _ _ (λ h. (c, k, j, z))
        (λ h. start_session-WellFormed _ _ (c, k, (λ o. refl), z) h refl)

  stored :
      (r : Result (Option Bytes)) (d : Driver)
      → WellFormed d
      → has_session d.session ≡ true
      → WellFormed (store_connection is_ip_address net r d).1
  unfolding store_connection
  stored (ok (some v)) d (c, k, j, z) s = ((λ h. s), k, j, z)
  stored (ok none) d w s = w
  stored (err e) d w s = w

  requested :
      (r : Result (Bytes × Bytes)) (d : Driver)
      → WellFormed d
      → has_session d.session ≡ true
      → WellFormed (request_connection is_ip_address net r d).1
  unfolding request_connection
  requested (err e) d w s = w
  requested (ok (m, p)) d w s = stored _ _ w s

  open_connection-WellFormed :
      (d : Driver) → WellFormed d → WellFormed (open_connection is_ip_address net d).1
  unfolding open_connection
  open_connection-WellFormed d (c, k, j, z) =
      if-WellFormed d.target_is_connected _ _ (λ h. (c, k, j, z))
        (λ h.
          if-WellFormed (is_zero d.session) _ _ (λ y. (c, k, j, z))
            (λ n. requested (forward_open_request is_ip_address net d) d (c, k, j, z) (z n)))

  called : (b : Bool) (d : Driver) → WellFormed d → WellFormed (call_if is_ip_address net b d).1
  unfolding call_if
  called true d w = w
  called false d w = w

  fallback :
      (b : Bool) (d : Driver) → WellFormed d → WellFormed (try_standard is_ip_address net b d).1
  unfolding try_standard
  fallback true d w = w
  fallback false d w = elim (Bool-cases d.extended_forward_open) [
    | inl h ↦ rw h (
        after-WellFormed (open_connection is_ip_address net _) _ (open_connection-WellFormed _ w)
          called)
    | inr h ↦ rw h w
  ]

  with_forward_open-WellFormed :
      (d : Driver) → WellFormed d → WellFormed (with_forward_open is_ip_address net d).1
  unfolding with_forward_open
  with_forward_open-WellFormed d w =
      if-WellFormed d.target_is_connected _ _ (λ h. w)
        (λ h.
          after-WellFormed (open_connection is_ip_address net d) _ (open_connection-WellFormed d w)
            fallback)

  reachable-WellFormed : (path : List Segment) (d : Driver) → Reachable path d → WellFormed d
  reachable-WellFormed path d start = ((λ h. cc), (λ h. cc), (λ h. cc), λ h. cc)
  reachable-WellFormed path _ (step d opening r) =
      open_driver-WellFormed d (reachable-WellFormed path d r)
  reachable-WellFormed path _ (step d connecting r) =
      with_forward_open-WellFormed d (reachable-WellFormed path d r)
  reachable-WellFormed path _ (step d closing r) =
      unfold close in ((λ h. cc), (λ h. cc), (λ h. cc), λ h. cc)

  -- However the network answers, every state that opening, connecting and closing lead to is well
  -- formed: a driver with a connection has a session, and one with a session has an open socket.
  pub Reachable-is_well_formed :
      (path : List Segment) (d : Driver) → Reachable path d → is_well_formed d ≡ true
  Reachable-is_well_formed path d r = is_well_formed-true d (reachable-WellFormed path d r)
