-- ===== src/Logix/Symbols/ReadBack.antt =====
-- The entries of a page, as a controller lays them out.
use pycomm.Base.{
  ℕ, zero, suc, ◌^◌, ◌<◌, ◌≤◌, ◌≡◌, refl, sym, ap, ◌∙◌, subst, arith, Bool, true, false, List, [],
  ◌∷◌, ◌++◌, append_assoc, Option, none, some, Text, Bytes, length, length-append, All, Result, ok,
}
use pycomm.Base.Ints.{pos}
use pycomm.DataTypes.Integers.{usint, uint, udint, le_bytes, IsByte, length-le_bytes}
use pycomm.DataTypes.Types.{Typ, string}
use pycomm.DataTypes.Value.{str}
use pycomm.DataTypes.Encode.{encode, encode_string}
use pycomm.DataTypes.Decode.{decode, decode_int}
use pycomm.DataTypes.RoundTrip.Leaves.{encode_int-Trip, string-Trip, latin1-eq}
use pycomm.DataTypes.RoundTrip.Numbers.{encode_unsigned}
use pycomm.Logix.Symbols.{
  Symbol, unsigned, name_field, type_field, access_field, decode_symbol, decode_symbols,
  symbol_then,
}

abbrev pub AccessFits : Bool → Option ℕ → Type 0
AccessFits true none = ⊥
AccessFits true (some a) = a < 256
AccessFits false none = Unit {0}
AccessFits false (some a) = ⊥

-- The numbers of an entry fit the fields.
abbrev pub FitsEntry : Bool → Symbol → Type 0
FitsEntry with_access s =
    (s.instance_id < 2 ^ 32)
    × (All IsByte s.tag_name)
    × (length s.tag_name < 65536)
    × (s.symbol_type < 65536)
    × (s.symbol_address < 2 ^ 32)
    × (s.symbol_object_address < 2 ^ 32)
    × (s.software_control < 2 ^ 32)
    × (s.dim1 < 2 ^ 32)
    × (s.dim2 < 2 ^ 32)
    × (s.dim3 < 2 ^ 32)
    × (AccessFits with_access s.access)

abbrev pub access_bytes : Option ℕ → Bytes
access_bytes none = []
access_bytes (some a) = le_bytes 1 a

abbrev pub onto : List Bytes → Bytes → Bytes
onto [] tail = tail
onto (p ∷ ps) tail = p ++ onto ps tail

-- The fields of an entry, little-endian, in front of what follows.
unfoldable pub entry_onto : Symbol → Bytes → Bytes
entry_onto s tail =
    onto
      (le_bytes 4 s.instance_id
        ∷ le_bytes 2 (length s.tag_name)
        ∷ s.tag_name
        ∷ le_bytes 2 s.symbol_type
        ∷ le_bytes 4 s.symbol_address
        ∷ le_bytes 4 s.symbol_object_address
        ∷ le_bytes 4 s.software_control
        ∷ le_bytes 4 s.dim1
        ∷ le_bytes 4 s.dim2
        ∷ le_bytes 4 s.dim3
        ∷ access_bytes s.access
        ∷ [])
      tail

unfoldable pub page_bytes : List Symbol → Bytes
page_bytes [] = []
page_bytes (s ∷ ss) = entry_onto s (page_bytes ss)

ok-first : {a b : Bytes} → ◌≡◌ {A = Result Bytes} (ok a) (ok b) → a ≡ b
ok-first h = cc

pub unsigned-le_bytes :
    (n : ℕ) (rest : Bytes) → n < 2 ^ 32 → unsigned (le_bytes 4 n ++ rest) ≡ (ok n, rest)
unfolding unsigned
unsigned-le_bytes n rest h =
    let (b, e, d) = encode_int-Trip udint (pos n) h in
    let same : b ≡ le_bytes 4 n = ok-first (sym e ∙ (encode_unsigned n).2 h) in
    rw (subst (λ c. decode_int udint (c ++ rest) ≡ (ok (pos n), rest)) same (d rest)) refl

pub type_field-le_bytes :
    (n : ℕ) (rest : Bytes) → n < 65536 → type_field (le_bytes 2 n ++ rest) ≡ (ok n, rest)
unfolding type_field
type_field-le_bytes n rest h =
    let (b, e, d) = encode_int-Trip uint (pos n) h in
    let same : b ≡ le_bytes 2 n = ok-first (sym e ∙ (encode_unsigned n).1 h) in
    rw (subst (λ c. decode_int uint (c ++ rest) ≡ (ok (pos n), rest)) same (d rest)) refl

access_field-access_bytes :
    (with_access : Bool) (a : Option ℕ) (rest : Bytes)
    → AccessFits with_access a
    → access_field with_access (access_bytes a ++ rest) ≡ (ok a, rest)
unfolding access_field
access_field-access_bytes true none rest h = absurd h
access_field-access_bytes true (some n) rest h =
    let (b, e, d) = encode_int-Trip usint (pos n) h in
    let same : b ≡ le_bytes 1 n = ok-first (sym e ∙ (encode_unsigned n).0 h) in
    rw (subst (λ c. decode_int usint (c ++ rest) ≡ (ok (pos n), rest)) same (d rest)) refl
access_field-access_bytes false none rest h = refl
access_field-access_bytes false (some n) rest h = absurd h

encode_name :
    (s : Text)
    → All IsByte s
    → length s < 65536
    → encode (Typ.string string) (str s) ≡ ok (le_bytes 2 (length s) ++ s)
unfolding encode encode_string
encode_name s hs hl = rw ((encode_unsigned (length s)).1 hl, latin1-eq s hs) refl

name_field-chars :
    (s : Text) (rest : Bytes)
    → All IsByte s
    → length s < 65536
    → name_field (le_bytes 2 (length s) ++ (s ++ rest)) ≡ (ok s, rest)
unfolding name_field
name_field-chars s rest hs hl =
    let (b, e, d) = string-Trip string s (hs, hl) in
    let same : b ≡ le_bytes 2 (length s) ++ s = ok-first (sym e ∙ encode_name s hs hl) in
    let whole : decode (Typ.string string) ((le_bytes 2 (length s) ++ s) ++ rest)
        ≡ (ok (str s), rest) =
      subst (λ c. decode (Typ.string string) (c ++ rest) ≡ (ok (str s), rest)) same (d rest) in
    rw (rw (append_assoc (le_bytes 2 (length s)) s rest) at whole) refl

pub decode_symbol-entry_onto :
    (with_access : Bool) (s : Symbol) (tail : Bytes)
    → FitsEntry with_access s
    → decode_symbol with_access (entry_onto s tail) ≡ (ok s, tail)
unfolding decode_symbol entry_onto
decode_symbol-entry_onto with_access s tail (i, n, l, t, a, o, c, d1, d2, d3, acc) =
    rw
      (
        unsigned-le_bytes s.instance_id _ i,
        name_field-chars s.tag_name _ n l,
        type_field-le_bytes s.symbol_type _ t,
        unsigned-le_bytes s.symbol_address _ a,
        unsigned-le_bytes s.symbol_object_address _ o,
        unsigned-le_bytes s.software_control _ c,
        unsigned-le_bytes s.dim1 _ d1,
        unsigned-le_bytes s.dim2 _ d2,
        unsigned-le_bytes s.dim3 _ d3,
        access_field-access_bytes with_access s.access tail acc,
      )
      refl

onto-le : (ps : List Bytes) (tail : Bytes) → length tail ≤ length (onto ps tail)
onto-le [] tail = omega arith
onto-le (p ∷ ps) tail = omega (arith, length-append p (onto ps tail), onto-le ps tail)

onto-lt :
    (p : Bytes) (ps : List Bytes) (tail : Bytes)
    → 0 < length p
    → length tail < length (onto (p ∷ ps) tail)
onto-lt p ps tail h = omega (arith, length-append p (onto ps tail), onto-le ps tail)

entry_onto-lt : (s : Symbol) (tail : Bytes) → length tail < length (entry_onto s tail)
unfolding entry_onto
entry_onto-lt s tail =
    onto-lt (le_bytes 4 s.instance_id)
      (le_bytes 2 (length s.tag_name)
        ∷ s.tag_name
        ∷ le_bytes 2 s.symbol_type
        ∷ le_bytes 4 s.symbol_address
        ∷ le_bytes 4 s.symbol_object_address
        ∷ le_bytes 4 s.software_control
        ∷ le_bytes 4 s.dim1
        ∷ le_bytes 4 s.dim2
        ∷ le_bytes 4 s.dim3
        ∷ access_bytes s.access
        ∷ [])
      tail (omega (arith, length-le_bytes 4 s.instance_id))

page_bytes-le : (ss : List Symbol) → length ss ≤ length (page_bytes ss)
unfolding page_bytes
page_bytes-le [] = omega arith
page_bytes-le (s ∷ ss) = omega (arith, page_bytes-le ss, entry_onto-lt s (page_bytes ss))

decode_symbols-step :
    (fuel : ℕ) (with_access : Bool) (stream : Bytes) (s : Symbol) (tail : Bytes)
    → 0 < length stream
    → decode_symbol with_access stream ≡ (ok s, tail)
    → decode_symbols (suc fuel) with_access stream
      ≡ symbol_then (ok s) (decode_symbols fuel with_access tail)
unfolding decode_symbols
decode_symbols-step fuel with_access [] s tail h e = absurd (omega arith)
decode_symbols-step fuel with_access (b ∷ bs) s tail h e = rw e refl

decode_symbols-page_bytes :
    (fuel : ℕ) (with_access : Bool) (ss : List Symbol)
    → All (FitsEntry with_access) ss
    → length ss ≤ fuel
    → decode_symbols fuel with_access (page_bytes ss) ≡ ok ss
unfolding page_bytes
decode_symbols-page_bytes zero with_access [] h le = unfold decode_symbols in refl
decode_symbols-page_bytes (suc fuel) with_access [] h le = unfold decode_symbols in refl
decode_symbols-page_bytes zero with_access (s ∷ ss) h le = absurd (omega arith)
decode_symbols-page_bytes (suc fuel) with_access (s ∷ ss) (h, hs) le =
    decode_symbols-step fuel with_access (entry_onto s (page_bytes ss)) s (page_bytes ss)
      (omega (arith, entry_onto-lt s (page_bytes ss)))
      (decode_symbol-entry_onto with_access s (page_bytes ss) h)
    ∙ ap (symbol_then (ok s)) (decode_symbols-page_bytes fuel with_access ss hs (omega arith))

-- The bytes of a page are parsed to its symbols.
pub decode_symbols-page :
    (with_access : Bool) (ss : List Symbol)
    → All (FitsEntry with_access) ss
    → decode_symbols (length (page_bytes ss)) with_access (page_bytes ss) ≡ ok ss
decode_symbols-page with_access ss h =
    decode_symbols-page_bytes (length (page_bytes ss)) with_access ss h (page_bytes-le ss)
