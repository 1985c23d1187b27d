-- ===== src/Lib.antt =====
-- pycomm3: a client for Allen-Bradley PLCs over EtherNet/IP and CIP, in Python.
--
-- A driver opens a TCP socket, registers a session, and opens a CIP connection with a Forward Open. A
-- request for tags is encoded to bytes by the CIP data types and paths, put into packets, alone, grouped or in
-- pieces, and framed with the encapsulation header. A reply is parsed in the opposite direction, and it is
-- valid only if the statuses in it say so.
--
-- Base: texts, bytes and integers of Python, and the exceptions of pycomm3/exceptions.py as values of
--   `Error` in a `Result`. A byte is a number; a text is a list of code points.
-- DataTypes: pycomm3/cip/data_types.py. `Typ` is a type class, `Value` a Python value, `encode` and `decode`
--   the two class methods; a decoder takes the rest of the stream to its result and what it leaves. Typing has
--   typing rules for the values of each type.
-- CustomTypes: pycomm3/custom_types.py. A `Codec` is a type seen through its two methods, so that a
--   `StructTag` may have any types as members, other structures among them. Layout says how members and bits lie in a
--   structure.
-- Paths: the segments and EPATH of pycomm3/cip/data_types.py, and the request paths of
--   pycomm3/packets/util.py. Reader is a reader of paths that is independent of the encoders.
-- Packets: pycomm3/packets/base.py, ethernetip.py, and the multiple service packets of logix.py. Frame has
--   the requests, Reply the responses, MultiService the packets with several messages, Generic the packets of
--   cip.py, which carry any service.
-- Logix: pycomm3/logix_driver.py, with the packets of pycomm3/packets/logix.py that it needs. TagRequests
--   has `_parse_tag_request`, Grouping and Fragments how requests are put into packets and moved in pieces,
--   Messages what their packets hold, BitWrites the masks of bit writes, Requests how packets are sent, Results
--   what `read` makes of the results, Symbols and TagUpload the upload of the list of symbols, UserTags which of
--   them are the user's tags, Templates the definitions of structures: Makeups and Reading get them, Names and
--   Parse take them apart, Fetch keeps them in the tables of Cache. What the target answers is a function of
--   the requests so far; for templates it is one of the number of the structure and the request.
-- Slc: pycomm3/slc_driver.py and pycomm3/cip/pccc.py. Patterns and Expressions are the regular expressions,
--   Addresses `parse_tag`, Values what is written and read, Messages the requests, Directory the file
--   directory.
-- Driver: `CIPDriver` of pycomm3/cip_driver.py as a record. An operation takes it to a result, which may be
--   an exception, and to the driver that is left. The network's answers are functions of the events so far.
-- Driver/Routes: `parse_connection_path` and `parse_cip_route` of the same file.
-- Sockets: the loops of pycomm3/socket_.py over a system that takes and gives bytes as it likes.
-- Utilities: `cycle`, `strip_array` and `get_array_index` of pycomm3/util.py.
-- Tests: runs on concrete inputs.
--
-- Fuel: `read_pieces` takes the most replies that it waits for; the source waits without a limit, and a
-- target that says "more packets" for ever keeps it in the loop. `segments` takes the length of the
-- value, the most pieces that there can be. `decode_all` takes one more than the bytes that are left; an
-- element type that reads no bytes keeps the source in that loop for ever.
--
-- `read_directory` and `upload` take the most requests that are sent: a controller that answers without data,
-- or for ever says that there is more, keeps the source in those loops. `read_from`, of templates, is the same.
-- `get_data_type` takes the depth of structures in structures; one that has itself as a member keeps the source
-- calling itself until Python stops it.
--
-- Not modelled: floats, STRING2, STRINGN, STRINGI and DATE_AND_TIME; the identity objects of
-- pycomm3/custom_types.py, which look vendors up in a table, and `IPAddress`; the results of writes; logging; the
-- tables of names and statuses; the calls that make and close sockets; the processor type and the data log of pycomm3/slc_driver.py, which decode UTF-8. `is_ip_address` stands for
-- `ipaddress.ip_address`, `utf8` for `decode(errors="replace")`, and `pack_real` and `unpack_real` for `struct`'s floats, of Python's library. Texts that
-- the regular expressions read, or of which `isdigit` and `isnumeric` are asked, are in ASCII.
pub mod Base
pub mod DataTypes
pub mod CustomTypes
pub mod Paths
pub mod Packets
pub mod Logix
pub mod Driver
pub mod Sockets
pub mod Slc
pub mod Utilities
mod Tests
