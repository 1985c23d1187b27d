-- ===== src/Tests/Routes.antt =====
-- The path to slot 2 of a backplane, and two ports.
use pycomm.Base.{
  ◌≡◌, refl, true, false, [], ◌∷◌, none, some, text, ok, err, request_error, inl, inr,
}
use pycomm.Base.Ints.{pos}
use pycomm.Base.Strings.{
  join_with, contains, split, replace, is_digit, all_digits, is_digit_char, int_of, strip,
  skip_spaces, signed_digits, digits_from,
}
use pycomm.Paths.Segments.{Segment, Port, Link}
use pycomm.Driver.Routes.{
  parse_connection_path, parse_parts, parse_cip_route, address_of, valid_port, port_of,
}
use pycomm.Driver.Routes.Written.{Hop, IsHop, parse_connection_path-hops}

last_port_refused : parse_connection_path (text "h:65535") true ≡ err request_error
unfolding parse_connection_path parse_parts address_of valid_port split replace int_of strip
    skip_spaces signed_digits digits_from is_digit_char
last_port_refused = refl

port_and_slot :
    parse_connection_path (text "h:44818/5") true
    ≡ ok (text "h", some 44818, Segment.port (Port.name (text "bp")) (Link.address (text "5")) ∷ [])
unfolding parse_connection_path parse_parts parse_cip_route address_of valid_port split replace
    int_of strip skip_spaces signed_digits digits_from is_digit_char
port_and_slot = refl

abbrev slot_2 : Hop
slot_2 = record { written = text "bp"; port = Port.name (text "bp"); link = text "2" }

abbrev port_1 : Hop
port_1 = record { written = text "1"; port = Port.number (pos 1); link = text "0" }

slot_2-IsHop : IsHop slot_2
unfolding port_of is_digit all_digits is_digit_char contains
slot_2-IsHop = (refl, (refl, refl, refl), (refl, refl, refl))

port_1-IsHop : IsHop port_1
unfolding port_of is_digit all_digits is_digit_char int_of strip skip_spaces signed_digits
    digits_from contains
port_1-IsHop = (refl, (refl, refl, refl), (refl, refl, refl))

parse_connection_path-hops_example :
    parse_connection_path (text "plc,bp,2,1,0") false
    ≡ ok (
      text "plc",
      none,
      Segment.port (Port.name (text "bp")) (Link.address (text "2"))
          ∷ Segment.port (Port.number (pos 1)) (Link.address (text "0"))
          ∷ [],
    )
unfolding join_with contains
parse_connection_path-hops_example =
    parse_connection_path-hops (text "plc") slot_2 (port_1 ∷ []) (refl, refl, refl) refl
      (slot_2-IsHop, (port_1-IsHop, tt)) b',' false (inr (inl refl))
