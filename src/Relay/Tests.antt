-- ===== src/Relay/Tests.antt =====
-- The theorems on relayed extrinsics with a concrete codec, in which a number is one element of the
-- bytes and an account or a hash is padded to 32.
use yeeroot.Prelude.{
  ℕ, zero, suc, ◌≡◌, refl, none, some, List, [], ◌∷◌, ◌++◌, arith, length, take, drop,
}
use yeeroot.Relay.{
  RelayTypes, balance, assets, Codec, Reader, RelayParams, OriginExtrinsic, decode_relay,
  decode_origin,
}
use yeeroot.Relay.RoundTrip.{
  Writers, CodecLaws, drop-append, take-append, encode_relay, encode_origin,
  decode_relay-encode_relay, decode_origin-encode_origin,
}

abbrev pub pad : ℕ → List ℕ
pad zero = []
pad (suc n) = 0 ∷ pad n

abbrev pub one : Reader ℕ
one [] = none
one (b ∷ bs) = some (b, bs)

abbrev pub padded : Reader ℕ
padded [] = none
padded (b ∷ bs) = some (b, drop 31 bs)

abbrev pub counted : Reader (List ℕ)
counted [] = none
counted (n ∷ bs) = some (take n bs, drop n bs)

abbrev pub typed : Reader RelayTypes
typed [] = none
typed (zero ∷ bs) = some (balance, bs)
typed (suc n ∷ bs) = some (assets, bs)

abbrev pub plain : Codec
plain = record {
  read_len = λ bs. some (tt, bs);
  read_bytes = counted;
  read_hash = padded;
  read_account = padded;
  read_relay_type = typed;
  read_u32 = one;
  read_u64 = one;
  read_u128 = one;
  read_era = one;
  blake2 = λ bs. length bs;
}

abbrev pub type_byte : RelayTypes → ℕ
type_byte balance = 0
type_byte assets = 1

abbrev pub plain_writers : Writers
plain_writers = record {
  len = [];
  bytes = λ v. length v ∷ v;
  hash = λ v. v ∷ pad 31;
  account = λ v. v ∷ pad 31;
  relay_type = λ t. type_byte t ∷ [];
  u32 = λ n. n ∷ [];
  u64 = λ n. n ∷ [];
  u128 = λ n. n ∷ [];
}

typed_back :
    (v : RelayTypes) (rest : List ℕ)
    → plain.read_relay_type (plain_writers.relay_type v ++ rest) ≡ some (v, rest)
typed_back balance rest = refl
typed_back assets rest = refl

counted_back : (v rest : List ℕ) → plain.read_bytes (plain_writers.bytes v ++ rest) ≡ some (v, rest)
counted_back v rest = rw (take-append v rest, drop-append v rest) refl

pub plain-CodecLaws : CodecLaws plain plain_writers
plain-CodecLaws = record {
  len_back = λ rest. refl;
  bytes_back = counted_back;
  hash_back = λ v rest. refl;
  account_back = λ v rest. refl;
  relay_type_back = typed_back;
  u32_back = λ v rest. refl;
  u64_back = λ v rest. refl;
  u128_back = λ v rest. refl;
  length_hash = λ v. refl;
  length_account = λ v. refl;
  length_u128 = λ v. omega arith;
}

abbrev pub payment : OriginExtrinsic
payment = record {
  shard = [];
  id = none;
  sender = 5;
  signature = pad 64;
  index = 3;
  era = 0;
  dest = 8;
  amount = 100;
}

abbrev pub relayed : RelayParams
relayed = record {
  number = 9;
  hash = 77;
  block_hash = 1;
  parent_hash = 2;
  relay_type = balance;
  origin = pad 77;
}

decode_relay-encode_relay_example :
    decode_relay plain (encode_relay plain_writers 2 0 relayed) ≡ some relayed
unfolding encode_relay
decode_relay-encode_relay_example =
    decode_relay-encode_relay plain plain_writers 2 0 relayed plain-CodecLaws refl (omega arith)

decode_origin-encode_origin_example :
    decode_origin plain balance (encode_origin plain_writers 255 4 0 payment) ≡ some payment
decode_origin-encode_origin_example =
    decode_origin-encode_origin plain plain_writers 255 4 0 payment plain-CodecLaws refl refl refl
      refl
