-- ===== src/Driver/Routes.antt =====
-- `parse_connection_path` and `parse_cip_route` of pycomm3/cip_driver.py: from a text to the target's
-- address and the segments of the route.
pub mod Written
use pycomm.Base.{
  ℕ, ◌%◌, Bool, true, false, ◌&&◌, ◌||◌, List, [], ◌∷◌, Option, none, some, ◌==◌, leb,
  if◌then◌else◌, Text, text, length, Result, ok, err, ◌>>=◌, raise_as, request_error, other_error,
}
use pycomm.Base.Ints.{ℤ, pos, negsuc}
use pycomm.Base.Strings.{split, replace, contains, is_digit, int_of}
use pycomm.Paths.Segments.{Port, Link, Segment}

-- `int(port) if port.isdigit() else port`
unfoldable pub port_of : Text → Result Port
port_of s = if is_digit s then (int_of s >>= λ z. ok (Port.number z)) else ok (Port.name s)

-- The segments of the pairs; an odd one is never met here.
unfoldable pub pair_segments : List Text → Result (List Segment)
pair_segments [] = ok []
pair_segments (p ∷ []) = err other_error
pair_segments (p ∷ l ∷ rest) = do
  port ← port_of p
  more ← pair_segments rest
  ok (Segment.port port (Link.address l) ∷ more)

-- `parse_cip_route`, of a list.
unfoldable pub parse_cip_route : List Text → Bool → Result (List Segment)
parse_cip_route [] auto_slot =
    ok (if auto_slot then Segment.port (Port.name (text "bp")) (Link.number (pos 0)) ∷ [] else [])
parse_cip_route (s ∷ []) auto_slot =
    if auto_slot
    then ok (Segment.port (Port.name (text "bp")) (Link.address s) ∷ [])
    else err request_error
parse_cip_route (s ∷ t ∷ rest) auto_slot =
    let segments : List Text = s ∷ t ∷ rest in
    if length segments % 2 == 1
    then err request_error
    else raise_as request_error (pair_segments segments)

-- `port <= 0 or port >= 65535` is refused.
unfoldable pub valid_port : ℤ → Result ℕ
valid_port (pos n) = if n == 0 || leb 65535 n then err request_error else ok n
valid_port (negsuc n) = err request_error

-- The address and the port in the first part of a path.
unfoldable pub address_of : List Text → Result (Text × Option ℕ)
address_of (host ∷ []) = ok (host, none)
address_of (host ∷ port ∷ []) =
    raise_as request_error (int_of port) >>= λ z. valid_port z >>= λ n. ok (host, some n)
address_of _ = err request_error

unfoldable pub parse_parts : List Text → Bool → Result (Text × Option ℕ × List Segment)
parse_parts [] auto_slot = err request_error
parse_parts (ip ∷ route) auto_slot =
    address_of (split b':' ip) >>= λ a. parse_cip_route route auto_slot >>= λ r. ok (a.0, a.1, r)

-- `parse_connection_path`
unfoldable pub parse_connection_path : Text → Bool → Result (Text × Option ℕ × List Segment)
parse_connection_path path auto_slot =
    parse_parts (split b'/' (replace b',' b'/' (replace b'\\' b'/' path))) auto_slot
