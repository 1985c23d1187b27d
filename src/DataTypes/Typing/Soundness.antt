-- ===== src/DataTypes/Typing/Soundness.antt =====
-- What decoding a type gives has the type, at any depth.
use pycomm.Base.{
  ℕ, zero, suc, ◌+◌, ◌*◌, arith, ◌≡◌, refl, ap, ◌∙◌, subst, none, Bytes, length, All, Result, ok,
  err, buffer_empty_error,
}
use pycomm.DataTypes.Integers.{IsByte}
use pycomm.DataTypes.Types.{ArrayLength, fixed, counted, unbound, Typ, Members, member, chunk_of}
use pycomm.DataTypes.Value.{Value, Values, list, dict, bool, nil, cons, field, count, append}
use pycomm.DataTypes.Stream.{Decoder, ◌>>=◌, pure, lift}
use pycomm.DataTypes.Decode.{
  decode, decode_members, decode_array, decode_first, decode_all, on_element, chained, flatten,
  named_fields, decode_bool, decode_bits, decode_string, decode_n_bytes,
}
use pycomm.DataTypes.Typing.{
  HasType, HasItems, HasFields, AreBools, of_bits, of_array, of_bit_array, of_unbound, of_struct,
  no_items, item, no_fields, a_field,
}
use pycomm.DataTypes.BitArrays.{BitType, bit_size}
use pycomm.DataTypes.Typing.Merged.{named_fields-IsMerged}
use pycomm.DataTypes.Typing.Outcomes.{Outcome, Sound, bind-Sound, decoding-Sound}
use pycomm.DataTypes.Typing.Leaves.{int-Sound, bool-Sound, bits-Sound, string-Sound, n_bytes-Sound}

-- The values of bit arrays, one behind the other.
append-AreBools :
    (vs ws : Values)
    → AreBools vs
    → AreBools ws
    → AreBools (append vs ws) × (count (append vs ws) ≡ count vs + count ws)
unfolding append count
append-AreBools nil ws h k = (k, omega arith)
append-AreBools (cons (bool b) vs) ws h k =
    let (all, many) = append-AreBools vs ws h k in (all, omega (arith, many))
append-AreBools (cons v vs) ws h k = elim h [ ]

bits_list :
    (t : BitType) (v : Value)
    → HasType (Typ.bits t) v
    → (ws : Values) × (v ≡ list ws) × AreBools ws × (count ws ≡ bit_size t * 8)
bits_list t v (of_bits _ ws h c) = (ws, refl, h, c)

flatten-AreBools :
    (t : BitType) (vs : Values)
    → HasItems (Typ.bits t) vs
    → AreBools (flatten vs) × (count (flatten vs) ≡ count vs * (bit_size t * 8))
unfolding count
flatten-AreBools t nil (no_items _) = (tt, omega arith)
flatten-AreBools t (cons v vs) (item _ _ _ typed more) =
    let (ws, same, h, c) = bits_list t v typed in
    let (all, many) = flatten-AreBools t vs more in
    let (both, sum) = append-AreBools ws (flatten vs) h all in
    rw same (both, sum ∙ omega (arith, many, c))

-- What an array makes of its items.
joined-Sound :
    (t : Typ) (n : ℕ) (vs : Values)
    → count vs ≡ n
    → HasItems t vs
    → Sound
        (lift (chunk_of t) >>= λ c. pure (list (chained c vs)))
        (HasType (Typ.array (fixed n) t))
joined-Sound Typ.bool n vs e items s all = (of_array n Typ.bool vs tt e items, all)
joined-Sound (Typ.int t) n vs e items s all = (of_array n (Typ.int t) vs tt e items, all)
joined-Sound (Typ.string t) n vs e items s all = (of_array n (Typ.string t) vs tt e items, all)
joined-Sound (Typ.array l t) n vs e items s all = (of_array n (Typ.array l t) vs tt e items, all)
joined-Sound (Typ.struct ms) n vs e items s all = (of_array n (Typ.struct ms) vs tt e items, all)
joined-Sound (Typ.n_bytes k) n vs e items s all = all
joined-Sound (Typ.bits t) n vs e items s all =
    let (bools, many) = flatten-AreBools t vs items in
    (of_bit_array n t (flatten vs) bools (rw (← e) many), all)

-- Items read one after the other.
module _ (t : Typ) (dec : Decoder Value) (sound : Sound dec (HasType t)) where
  first-Sound : (n : ℕ) → Sound (decode_first n dec) (λ vs. (count vs ≡ n) × HasItems t vs)
  unfolding decode_first count
  first-Sound zero s all = ((refl, no_items t), all)
  first-Sound (suc n) s all =
      bind-Sound (HasType t) (λ vs. (count vs ≡ suc n) × HasItems t vs) dec _ sound
        (λ v typed.
          bind-Sound (λ vs. (count vs ≡ n) × HasItems t vs)
            (λ vs. (count vs ≡ suc n) × HasItems t vs) (decode_first n dec) (λ vs. pure (cons v vs))
            (first-Sound n) (λ vs items s all. ((ap suc items.0, item t v vs typed items.1), all)))
        s all

  -- One turn of `_decode_all`, for what the next ones give.
  on_element-Outcome :
      (r : Result Value × Bytes) (more : Value → Decoder Values)
      → Outcome (HasType t) r
      → ((v : Value) → HasType t v → Sound (more v) (HasItems t))
      → Outcome (HasItems t) (on_element r.0 more r.1)
  on_element-Outcome (ok v, s) more h next = next v h.0 s h.1
  on_element-Outcome (err buffer_empty_error, s) more h next = (no_items t, h)
  on_element-Outcome (err e, s) more h next = h

  all-Sound : (fuel : ℕ) → Sound (decode_all fuel dec) (HasItems t)
  unfolding decode_all
  all-Sound zero s all = all
  all-Sound (suc fuel) s all =
      on_element-Outcome (dec s) (λ v. decode_all fuel dec >>= λ vs. pure (cons v vs)) (sound s all)
        (λ v typed.
          bind-Sound (HasItems t) (HasItems t) (decode_all fuel dec) (λ vs. pure (cons v vs))
            (all-Sound fuel) (λ vs items s all. (item t v vs typed items, all)))

  all_decoded : Sound (decode_array unbound (chunk_of t) dec none) (HasType (Typ.array unbound t))
  unfolding decode_array
  all_decoded s all =
      decoding-Sound (HasType (Typ.array unbound t)) _
        (λ s all.
          bind-Sound (HasItems t) (HasType (Typ.array unbound t)) (decode_all (length s + 1) dec)
            (λ vs. pure (list vs)) (all-Sound (length s + 1))
            (λ vs items s all. (of_unbound t vs items, all)) s all)
        s all

  array-Sound :
      (len : ArrayLength)
      → Sound (decode_array len (chunk_of t) dec none) (HasType (Typ.array len t))
  unfolding decode_array
  array-Sound (fixed n) s all =
      decoding-Sound (HasType (Typ.array (fixed n) t)) _
        (bind-Sound (λ vs. (count vs ≡ n) × HasItems t vs) (HasType (Typ.array (fixed n) t))
          (decode_first n dec) (λ vs. lift (chunk_of t) >>= λ c. pure (list (chained c vs)))
          (first-Sound n) (λ vs items. joined-Sound t n vs items.0 items.1))
        s all
  array-Sound (counted u) s all = all
  array-Sound unbound s all = all_decoded s all

mutual
  unfolding decode

  decode-Sound : (t : Typ) → Sound (decode t) (HasType t)
  decode-Sound Typ.bool = decoding-Sound (HasType Typ.bool) decode_bool bool-Sound
  decode-Sound (Typ.int t) = int-Sound t
  decode-Sound (Typ.bits t) = decoding-Sound (HasType (Typ.bits t)) (decode_bits t) (bits-Sound t)
  decode-Sound (Typ.string t) =
      decoding-Sound (HasType (Typ.string t)) (decode_string t) (string-Sound t)
  decode-Sound (Typ.n_bytes n) =
      decoding-Sound (HasType (Typ.n_bytes n)) (decode_n_bytes n) (n_bytes-Sound n)
  decode-Sound (Typ.array len t) = array-Sound t (decode t) (decode-Sound t) len
  decode-Sound (Typ.struct ms) = decoding-Sound (HasType (Typ.struct ms)) _ (
      bind-Sound (HasFields ms) (HasType (Typ.struct ms)) (decode_members ms)
        (λ fs. pure (dict (named_fields fs))) (members-Sound ms)
        (λ fs typed s all.
          (of_struct ms fs (named_fields fs) typed (named_fields-IsMerged fs), all)))

  members-Sound : (ms : Members) → Sound (decode_members ms) (HasFields ms)
  members-Sound Members.end s all = (no_fields, all)
  members-Sound (member k t ms) s all =
      bind-Sound (HasType t) (HasFields (member k t ms)) (decode t) _ (decode-Sound t)
        (λ v typed.
          bind-Sound (HasFields ms) (HasFields (member k t ms)) (decode_members ms)
            (λ fs. pure (field k v fs)) (members-Sound ms)
            (λ fs rest s all. (a_field k t ms v fs typed rest, all)))
        s all

-- What decoding gives, from bytes, is a value of the type, whatever the type is and whatever follows, and what is left are
-- bytes. A struct has a dictionary with, for each key with a name, the last value of the members that share it, and
-- nothing else, and an array of bit arrays has all bits in one list.
pub decode-HasType :
    (t : Typ) (s rest : Bytes) (v : Value)
    → All IsByte s
    → decode t s ≡ (ok v, rest)
    → HasType t v × All IsByte rest
decode-HasType t s rest v all same = subst (Outcome (HasType t)) same (decode-Sound t s all)
