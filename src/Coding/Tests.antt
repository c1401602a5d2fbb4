-- ===== src/Coding/Tests.antt =====
-- Runs of the encodings at concrete inputs.
use mini_leveldb.Prelude.{
  ◌^◌, ◌≤◌, ◌≡◌, refl, none, some, [], ◌∷◌, ◌++◌, length, codes, All, IsByte, arith,
}
use mini_leveldb.Coding.{
  encode_fixed32, decode_fixed32, encode_fixed64, decode_fixed64, encode_varint, put_varint32,
  put_varint64, get_varint32, get_varint64, put_length_prefixed_slice, get_length_prefixed_slice,
}
use mini_leveldb.Coding.Fixed.{decode-encode_fixed32, decode-encode_fixed64}
use mini_leveldb.Coding.Varint.{encode_varint_bounds, get-put_varint, get-put_length_prefixed_slice}

fixed32_run : encode_fixed32 0x01020304 ≡ 4 ∷ 3 ∷ 2 ∷ 1 ∷ []
unfolding encode_fixed32
fixed32_run = refl

decode32_run : decode_fixed32 (4 ∷ 3 ∷ 2 ∷ 1 ∷ 9 ∷ []) ≡ 0x01020304
unfolding decode_fixed32
decode32_run = refl

varint_run : encode_varint 300 ≡ 0xac ∷ 2 ∷ []
unfolding encode_varint
varint_run = refl

get_varint_run : get_varint32 (0xac ∷ 2 ∷ 7 ∷ []) ≡ some (300, 7 ∷ [])
unfolding get_varint32
get_varint_run = refl

-- The fifth byte's high bits do not fit a `uint32_t` and are dropped.
get_varint32_wraps : get_varint32 (0xff ∷ 0xff ∷ 0xff ∷ 0xff ∷ 0x7f ∷ []) ≡ some (0xffffffff, [])
unfolding get_varint32
get_varint32_wraps = refl

get_prefixed_short : get_length_prefixed_slice (5 ∷ 1 ∷ 2 ∷ []) ≡ (none, 1 ∷ 2 ∷ [])
unfolding get_length_prefixed_slice get_varint32
get_prefixed_short = refl

decode-encode_fixed32_example : decode_fixed32 (encode_fixed32 70000 ++ (9 ∷ [])) ≡ 70000
decode-encode_fixed32_example = decode-encode_fixed32 70000 (9 ∷ []) (omega arith)

decode-encode_fixed64_example :
    decode_fixed64 (encode_fixed64 0x1122334455667788 ++ []) ≡ 0x1122334455667788
decode-encode_fixed64_example = decode-encode_fixed64 0x1122334455667788 [] (omega arith)

encode_varint_bounds_example :
    (length (encode_varint 300) ≤ 5)
    × (length (encode_varint (2 ^ 40)) ≤ 10)
    × All IsByte (encode_varint (2 ^ 40))
encode_varint_bounds_example = encode_varint_bounds 300 (2 ^ 40) (omega arith) (omega arith)

get-put_varint_example :
    (get_varint32 (put_varint32 [] 300 ++ (7 ∷ [])) ≡ some (300, 7 ∷ []))
    × (get_varint64 (put_varint64 [] (2 ^ 40) ++ (7 ∷ [])) ≡ some (2 ^ 40, 7 ∷ []))
get-put_varint_example = get-put_varint 300 (2 ^ 40) (7 ∷ []) (omega arith) (omega arith)

get-put_length_prefixed_slice_example :
    get_length_prefixed_slice (put_length_prefixed_slice [] (codes "key") ++ (7 ∷ []))
    ≡ (some (codes "key"), 7 ∷ [])
get-put_length_prefixed_slice_example =
    get-put_length_prefixed_slice (codes "key") (7 ∷ []) (omega arith)
