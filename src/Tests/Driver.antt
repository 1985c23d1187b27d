-- ===== src/Tests/Driver.antt =====
-- A driver on a network that agrees to everything, and on one that refuses.
use pycomm.Base.{
  text_eq, ◌≡◌, refl, Bool, true, false, [], ◌∷◌, none, some, Text, Bytes, ok, err, comm_error, ◌⊎◌,
}
use pycomm.DataTypes.Encode.{encode_int, pack_value}
use pycomm.DataTypes.Integers.{pack_int, le_bytes}
use pycomm.Paths.Segments.{
  table_get, logical_bytes, logical_number, encode_logical, encode_segment, encode_segments,
  encode_path,
}
use pycomm.Driver.Session.{
  Driver, new_driver, Network, open_driver, with_forward_open, close, forward_close,
  forward_close_msg, unregister_session, close_socket,
}
use pycomm.Driver.Session.Invariant.{
  is_well_formed, Reachable, opening, connecting, Reachable-is_well_formed,
}
use pycomm.Driver.Session.Fallback.{Called, with_forward_open-Called, reopened_without_session}
use pycomm.Driver.Session.Closing.{close-resets, close-order}

abbrev no_addresses : Text → Bool
no_addresses s = false

abbrev agrees : Network
agrees = record {
  connects = λ es. ok tt;
  urandom = λ es. (1 ∷ 2 ∷ 3 ∷ 4 ∷ [], 5 ∷ 6 ∷ 7 ∷ 8 ∷ []);
  registers = λ es. ok (some 77);
  opens = λ es. ok (some (9 ∷ 9 ∷ 9 ∷ 9 ∷ 0 ∷ []));
  closes = λ es. ok true;
  unregisters = λ es. ok tt;
  closes_socket = λ es. ok tt;
}

abbrev refuses : Network
refuses = record {
  connects = λ es. ok tt;
  urandom = λ es. ([], []);
  registers = λ es. ok none;
  opens = λ es. ok none;
  closes = λ es. ok false;
  unregisters = λ es. err comm_error;
  closes_socket = λ es. err comm_error;
}

Reachable-is_well_formed_example :
    is_well_formed
      (with_forward_open no_addresses agrees (open_driver no_addresses agrees (new_driver [])).1).1
    ≡ true
Reachable-is_well_formed_example =
    Reachable-is_well_formed no_addresses agrees []
      (with_forward_open no_addresses agrees (open_driver no_addresses agrees (new_driver [])).1).1
      (Reachable.step (open_driver no_addresses agrees (new_driver [])).1 connecting
        (Reachable.step (new_driver []) opening Reachable.start))

with_forward_open-Called_example :
    Called
      (with_forward_open no_addresses refuses (open_driver no_addresses agrees (new_driver [])).1)
with_forward_open-Called_example =
    with_forward_open-Called no_addresses refuses
      (open_driver no_addresses agrees (new_driver [])).1

-- A driver that is connected through slot 0 of the backplane.
abbrev connected : Driver
connected = record (new_driver []) {
  has_sock = true;
  session = some 77;
  connection_opened = true;
  target_is_connected = true;
}

abbrev route : Bytes
route = 2 ∷ 0 ∷ 0x20 ∷ 0x02 ∷ 0x24 ∷ 0x01 ∷ []

close-order_example :
    ((close no_addresses agrees connected).0 ≡ ok tt)
    × ((close no_addresses agrees connected).1.sent
        ≡ forward_close (forward_close_msg connected) route
          ∷ unregister_session
          ∷ close_socket
          ∷ [])
unfolding encode_path encode_segments encode_segment encode_logical logical_bytes logical_number
    encode_int pack_value pack_int le_bytes table_get text_eq
close-order_example =
    close-order no_addresses agrees route (λ es. true) (λ es. refl) (λ es. refl) (λ es. refl)
      connected refl refl refl refl

close-resets_example :
    ((close no_addresses refuses connected).1.has_sock ≡ false)
    × ((close no_addresses refuses connected).1.session ≡ some 0)
    × ((close no_addresses refuses connected).1.connection_opened ≡ false)
    × ((close no_addresses refuses connected).1.target_is_connected ≡ false)
    × (((close no_addresses refuses connected).0 ≡ ok tt)
        ⊎ ((close no_addresses refuses connected).0 ≡ err comm_error))
    × (close no_addresses agrees (close no_addresses refuses connected).1
        ≡ (ok tt, (close no_addresses refuses connected).1))
close-resets_example = close-resets no_addresses refuses agrees connected

reopened_without_session_example :
    ((open_driver no_addresses refuses (new_driver [])).0 ≡ ok false)
    × ((open_driver no_addresses refuses (new_driver [])).1.session ≡ some 0)
    × (open_driver no_addresses refuses (open_driver no_addresses refuses (new_driver [])).1
        ≡ (ok true, (open_driver no_addresses refuses (new_driver [])).1))
reopened_without_session_example =
    reopened_without_session no_addresses refuses (new_driver []) refl refl (λ es. refl)
      (λ es. refl)
