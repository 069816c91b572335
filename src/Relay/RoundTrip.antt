-- ===== src/Relay/RoundTrip.antt =====
-- core/sr-primitives/src/lib.rs: what is written in the layout of a relayed extrinsic is read back.
use yeeroot.Prelude.{
  ℕ, ◌≤◌, ◌<◌, ◌≡◌, ◌∙◌, refl, true, none, some, List, [], ◌∷◌, ◌++◌, arith, ltb, leb, length, take,
  drop, length-append, ap, sym, lt→ltb, le→leb,
}
use yeeroot.Relay.{
  RelayTypes, balance, Codec, RelayParams, OriginExtrinsic, read_byte, is_signed, version_of,
  decode_relay, read_signature, read_asset, decode_origin, read_era_or_immortal,
}

-- The codec's writers.
pub record Writers : Type 0 where
  pub len : List ℕ
  pub bytes : List ℕ → List ℕ
  pub hash : ℕ → List ℕ
  pub account : ℕ → List ℕ
  pub relay_type : RelayTypes → List ℕ
  pub u32 : ℕ → List ℕ
  pub u64 : ℕ → List ℕ
  pub u128 : ℕ → List ℕ

-- The codec reads back what it wrote; hashes and accounts have 32 bytes, numbers one at least.
pub record CodecLaws (c : Codec) (w : Writers) : Type 0 where
  pub len_back : (rest : List ℕ) → c.read_len (w.len ++ rest) ≡ some (tt, rest)
  pub bytes_back : (v rest : List ℕ) → c.read_bytes (w.bytes v ++ rest) ≡ some (v, rest)
  pub hash_back : (v : ℕ) (rest : List ℕ) → c.read_hash (w.hash v ++ rest) ≡ some (v, rest)
  pub account_back : (v : ℕ) (rest : List ℕ) → c.read_account (w.account v ++ rest) ≡ some (v, rest)
  pub relay_type_back :
      (v : RelayTypes) (rest : List ℕ) → c.read_relay_type (w.relay_type v ++ rest) ≡ some (v, rest)
  pub u32_back : (v : ℕ) (rest : List ℕ) → c.read_u32 (w.u32 v ++ rest) ≡ some (v, rest)
  pub u64_back : (v : ℕ) (rest : List ℕ) → c.read_u64 (w.u64 v ++ rest) ≡ some (v, rest)
  pub u128_back : (v : ℕ) (rest : List ℕ) → c.read_u128 (w.u128 v ++ rest) ≡ some (v, rest)
  pub length_hash : (v : ℕ) → length (w.hash v) ≡ 32
  pub length_account : (v : ℕ) → length (w.account v) ≡ 32
  pub length_u128 : (v : ℕ) → 0 < length (w.u128 v)

pub drop-append : (xs ys : List ℕ) → drop (length xs) (xs ++ ys) ≡ ys
drop-append [] ys = refl
drop-append (x ∷ xs) ys = drop-append xs ys

pub take-append : (xs ys : List ℕ) → take (length xs) (xs ++ ys) ≡ xs
take-append [] ys = refl
take-append (x ∷ xs) ys = ground (arith, take-append xs ys)

-- An unsigned relayed extrinsic of version 1, written.
unfoldable pub encode_relay : Writers → ℕ → ℕ → RelayParams → List ℕ
encode_relay w mod_index func r =
    let after_block = w.hash r.block_hash ++ (w.hash r.parent_hash ++ []) in
    let after_origin = w.bytes r.origin ++ (w.u64 r.number ++ after_block) in
    w.len ++ (1 ∷ mod_index ∷ func ∷ (w.relay_type r.relay_type ++ after_origin))

-- A relayed extrinsic in the layout of the runtime, longer than the least size, is read back, with
-- the hash of what it relays.
pub decode_relay-encode_relay :
    (c : Codec) (w : Writers) (mod_index func : ℕ) (r : RelayParams)
    → CodecLaws c w
    → r.hash ≡ c.blake2 r.origin
    → 130 < length (encode_relay w mod_index func r)
    → decode_relay c (encode_relay w mod_index func r) ≡ some r
unfolding decode_relay encode_relay read_byte is_signed version_of
decode_relay-encode_relay c w mod_index func r laws hash long =
    let after_parent : List ℕ = w.hash r.parent_hash ++ [] in
    let after_block : List ℕ = w.hash r.block_hash ++ after_parent in
    let after_number : List ℕ = w.u64 r.number ++ after_block in
    let after_origin : List ℕ = w.bytes r.origin ++ after_number in
    let after_type : List ℕ = w.relay_type r.relay_type ++ after_origin in
    let fits : ltb 130 (length (w.len ++ (1 ∷ mod_index ∷ func ∷ after_type))) ≡ true =
      lt→ltb 130 _ long in
    rw
      (
        fits,
        laws.len_back (1 ∷ mod_index ∷ func ∷ after_type),
        laws.relay_type_back r.relay_type after_origin,
        laws.bytes_back r.origin after_number,
        laws.u64_back r.number after_block,
        laws.hash_back r.block_hash after_parent,
        laws.hash_back r.parent_hash [],
        ← hash,
      )
      refl

-- The part of a signed extrinsic behind its version, without an era, written.
unfoldable pub encode_signature : Writers → ℕ → OriginExtrinsic → List ℕ → List ℕ
encode_signature w address_type x rest =
    address_type ∷ (w.account x.sender ++ (x.signature ++ (w.u64 x.index ++ (0 ∷ rest))))

read_signature-encode_signature :
    (c : Codec) (w : Writers) (address_type : ℕ) (x : OriginExtrinsic) (rest : List ℕ)
    → CodecLaws c w
    → length x.signature ≡ 64
    → read_signature c true (encode_signature w address_type x rest)
      ≡ some (((x.sender, x.signature), (x.index, 0)), rest)
unfolding read_signature encode_signature read_byte read_era_or_immortal
read_signature-encode_signature c w address_type x rest laws size =
    let tail : List ℕ = w.u64 x.index ++ (0 ∷ rest) in
    let dropped : drop 64 (x.signature ++ tail) ≡ tail =
      ap (λ n. drop n (x.signature ++ tail)) (sym size) ∙ drop-append x.signature tail in
    let taken : take 64 (x.signature ++ tail) ≡ x.signature =
      ap (λ n. take n (x.signature ++ tail)) (sym size) ∙ take-append x.signature tail in
    let long : leb 64 (length (x.signature ++ tail)) ≡ true =
      le→leb 64 _ (omega (arith, length-append x.signature tail, size)) in
    rw
      (
        laws.account_back x.sender (x.signature ++ tail),
        long,
        dropped,
        taken,
        laws.u64_back x.index (0 ∷ rest),
      )
      refl

-- The receiver and the amount, written; an asset has its shard code and its id before them.
unfoldable pub encode_target : Writers → ℕ → OriginExtrinsic → List ℕ
encode_target w address_type x = address_type ∷ (w.account x.dest ++ (w.u128 x.amount ++ []))

unfoldable pub encode_origin : Writers → ℕ → ℕ → ℕ → OriginExtrinsic → List ℕ
encode_origin w address_type mod_index func x =
    w.len
    ++ (129 ∷ encode_signature w address_type x (mod_index ∷ func ∷ encode_target w address_type x))

length-encode_signature :
    (c : Codec) (w : Writers) (address_type : ℕ) (x : OriginExtrinsic) (rest : List ℕ)
    → CodecLaws c w
    → length x.signature ≡ 64
    → 66 ≤ length (encode_signature w address_type x rest)
unfolding encode_signature
length-encode_signature c w address_type x rest laws size =
    let tail : List ℕ = w.u64 x.index ++ (0 ∷ rest) in
    omega (
      arith,
      laws.length_account x.sender,
      length-append (w.account x.sender) (x.signature ++ tail),
      length-append x.signature tail,
      size,
    )

length-encode_target :
    (c : Codec) (w : Writers) (address_type : ℕ) (x : OriginExtrinsic)
    → CodecLaws c w
    → 34 ≤ length (encode_target w address_type x)
unfolding encode_target
length-encode_target c w address_type x laws = omega (
  arith,
  laws.length_account x.dest,
  laws.length_u128 x.amount,
  length-append (w.account x.dest) (w.u128 x.amount ++ []),
  length-append (w.u128 x.amount) [],
)

-- A signed transfer of balance in the layout of the runtime, with a signature of 64 bytes and no era,
-- is read back.
pub decode_origin-encode_origin :
    (c : Codec) (w : Writers) (address_type mod_index func : ℕ) (x : OriginExtrinsic)
    → CodecLaws c w
    → length x.signature ≡ 64
    → x.shard ≡ []
    → x.id ≡ none
    → x.era ≡ 0
    → decode_origin c balance (encode_origin w address_type mod_index func x) ≡ some x
unfolding decode_origin encode_origin read_asset is_signed version_of encode_target read_byte
decode_origin-encode_origin c w address_type mod_index func x laws size shard id era =
    let target : List ℕ = encode_target w address_type x in
    let behind : List ℕ = mod_index ∷ func ∷ target in
    let signed : List ℕ = encode_signature w address_type x behind in
    let fits : leb 66 (length (w.len ++ (129 ∷ signed))) ≡ true = le→leb 66 _ (
      omega (
        arith,
        length-append w.len (129 ∷ signed),
        length-encode_signature c w address_type x behind laws size,
      )) in
    let room : leb 35 (length behind) ≡ true =
      le→leb 35 _ (omega (arith, length-encode_target c w address_type x laws)) in
    rw
      (
        fits,
        laws.len_back (129 ∷ signed),
        read_signature-encode_signature c w address_type x behind laws size,
        room,
        laws.account_back x.dest (w.u128 x.amount ++ []),
        laws.u128_back x.amount [],
      )
      (ground arith)
