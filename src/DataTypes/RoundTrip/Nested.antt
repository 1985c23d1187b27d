-- ===== src/DataTypes/RoundTrip/Nested.antt =====
-- The round trip of every type: structs and arrays of one another, to any depth.
use pycomm.Base.{
  ℕ, ◌<◌, ◌≡◌, refl, arith, [], ◌++◌, append_assoc, none, some, ◌*◌, length, Bytes, ok, le→ltb,
}
use pycomm.DataTypes.Integers.{size, is_signed, InRange}
use pycomm.DataTypes.BitArrays.{bit_size}
use pycomm.DataTypes.Types.{fixed, Typ, Members, member, chunk_of}
use pycomm.DataTypes.Value.{
  Value, Values, Fields, int, str, bytes, list, dict, field, Key, count, get_item, iterate,
}
use pycomm.DataTypes.Encode.{
  encode, encode_named, encode_array, encode_items, item_count, encode_first,
}
use pycomm.DataTypes.Decode.{decode, decode_members, decode_array, decode_first}
use pycomm.DataTypes.RoundTrip.Leaves.{
  Trip, AllValues, FitsString, bool-Trip, int-Trip, string-Trip, n_bytes-Trip, items-Trip,
}
use pycomm.DataTypes.RoundTrip.BitRows.{IsBool, row-Trip}
use pycomm.DataTypes.RoundTrip.Structs.{Distinct, Within, Within-self, named_fields-Distinct}

-- The values that a type holds: an integer in range, a text that fits its prefix, exactly as many
-- bytes, booleans or items as the type says, and a dictionary with the struct's members, which have
-- names that differ. Arrays of bit arrays, of the instances that `n_bytes` makes, and arrays without a fixed length
-- are left out.
abbrev mutual
  pub Fits : Typ → Value → Type 0
  Fits Typ.bool v = IsBool v
  Fits (Typ.int t) (int z) = InRange (is_signed t) (size t) z
  Fits (Typ.bits t) (list vs) = (count vs ≡ 8 * bit_size t) × AllValues IsBool vs
  Fits (Typ.string t) (str s) = FitsString t s
  Fits (Typ.n_bytes (some n)) (bytes bs) = (0 < n) × (length bs ≡ n)
  Fits (Typ.array (fixed n) t) (list vs) =
      (chunk_of t ≡ ok none) × (count vs ≡ n) × AllValues (Fits t) vs
  Fits (Typ.struct ms) (dict fs) = FitsMembers ms fs × Distinct fs
  Fits _ _ = ⊥

  pub FitsMembers : Members → Fields → Type 0
  FitsMembers Members.end Fields.end = Unit
  FitsMembers (member k t ms) (field j v fs) = (j ≡ k) × Fits t v × FitsMembers ms fs
  FitsMembers _ _ = ⊥

array-Trip :
    (t : Typ) (n : ℕ) (vs : Values)
    → chunk_of t ≡ ok none
    → count vs ≡ n
    → Trip (encode_first (count vs) (encode t)) (decode_first (count vs) (decode t)) vs
    → Trip (encode (Typ.array (fixed n) t)) (decode (Typ.array (fixed n) t)) (list vs)
unfolding encode decode encode_array decode_array item_count encode_items iterate
array-Trip t n vs hc hn (b, e, d) =
    (b, rw (hc, hn, le→ltb n n (omega arith), ← hn, e), λ rest. rw (hc, ← hn, d rest))

-- The members read their values from the dictionary `all`, and decode to the fields `fs`.
abbrev MembersTrip : Members → Fields → Fields → Type 0
MembersTrip ms fs all =
    (b : Bytes) × (encode_named ms all ≡ ok b)
    × ((rest : Bytes) → decode_members ms (b ++ rest) ≡ (ok fs, rest))

end-trip : (all : Fields) → MembersTrip Members.end Fields.end all
unfolding encode decode
end-trip all = ([], refl, λ rest. refl)

member-Trip :
    (k j : Key) (t : Typ) (ms : Members) (v : Value) (fs all : Fields)
    → j ≡ k
    → get_item all j ≡ ok v
    → Trip (encode t) (decode t) v
    → MembersTrip ms fs all
    → MembersTrip (member k t ms) (field j v fs) all
unfolding encode decode
member-Trip k j t ms v fs all same found (b, e, d) (bs, es, ds) = (
  b ++ bs,
  rw (← same, found, e, es),
  λ rest. rw (append_assoc b bs rest, d (bs ++ rest), ds rest, same),
)

struct-Trip :
    (ms : Members) (fs : Fields)
    → Distinct fs
    → MembersTrip ms fs fs
    → Trip (encode (Typ.struct ms)) (decode (Typ.struct ms)) (dict fs)
unfolding encode decode
struct-Trip ms fs distinct (b, e, d) =
    (b, rw e, λ rest. rw (d rest, named_fields-Distinct fs distinct))

mutual
  nested-Trip : (t : Typ) (v : Value) → Fits t v → Trip (encode t) (decode t) v
  nested-Trip Typ.bool (Value.bool b) h = bool-Trip b
  nested-Trip Typ.bool v h = elim h [ ]
  nested-Trip (Typ.int t) (int z) h = int-Trip t z h
  nested-Trip (Typ.int t) v h = elim h [ ]
  nested-Trip (Typ.bits t) (list vs) h = row-Trip t vs h.0 h.1
  nested-Trip (Typ.bits t) v h = elim h [ ]
  nested-Trip (Typ.string t) (str s) h = string-Trip t s h
  nested-Trip (Typ.string t) v h = elim h [ ]
  nested-Trip (Typ.n_bytes (some n)) (bytes bs) h = n_bytes-Trip n bs h.0 h.1
  nested-Trip (Typ.n_bytes n) v h = elim h [ ]
  nested-Trip (Typ.array (fixed n) t) (list vs) h =
      array-Trip t n vs h.0 h.1 (items-Trip (encode t) (decode t) (Fits t) (nested-Trip t) vs h.2)
  nested-Trip (Typ.array len t) v h = elim h [ ]
  nested-Trip (Typ.struct ms) (dict fs) h =
      struct-Trip ms fs h.1 (members-trip ms fs fs h.0 (Within-self fs h.1))
  nested-Trip (Typ.struct ms) v h = elim h [ ]

  members-trip :
      (ms : Members) (fs all : Fields) → FitsMembers ms fs → Within fs all → MembersTrip ms fs all
  members-trip Members.end Fields.end all h w = end-trip all
  members-trip Members.end (field j v fs) all h w = elim h [ ]
  members-trip (member k t ms) Fields.end all h w = elim h [ ]
  members-trip (member k t ms) (field j v fs) all h w =
      member-Trip k j t ms v fs all h.0 w.0 (nested-Trip t v h.1) (members-trip ms fs all h.2 w.1)

-- Every value that fits a type is encoded without an error, and decoding those bytes, whatever
-- follows them, gives the value back and leaves exactly what follows: for booleans, integers,
-- strings, fixed byte strings and bit arrays, and for arrays of fixed length and structs of these,
-- nested to any depth.
pub decode-encode :
    (t : Typ) (v : Value)
    → Fits t v
    → (b : Bytes) × (encode t v ≡ ok b) × ((rest : Bytes) → decode t (b ++ rest) ≡ (ok v, rest))
decode-encode t v h = nested-Trip t v h
