-- ===== src/Gts/Tests.antt =====
-- wire/gts_handwritten.rs: the round trip at a concrete packet.
use smolgnet.Base.{◌≡◌, arith, true, [], ◌∷◌, ◌++◌}
use smolgnet.Base.Results.{ok, ◌>>=◌}
use smolgnet.Gts.Lower.Parse.{parse_lower}
use smolgnet.Gts.Lower.Encode.{encode_lower}
use smolgnet.Gts.Lower.{GtsLowerPacket, data_packet}
use smolgnet.Gts.Lower.RoundTrip.{IsLower, encode_lower-parse_lower}

abbrev last_data : GtsLowerPacket
last_data = data_packet 0x01020304 7 70000 0x0102 true

last_data-IsLower : IsLower last_data
unfolding IsLower
last_data-IsLower = (omega arith, omega arith, omega arith)

encode_lower-parse_lower_example :
    (encode_lower last_data >>= λ bytes. parse_lower (bytes ++ 9 ∷ 9 ∷ 9 ∷ 9 ∷ [])) ≡ ok last_data
encode_lower-parse_lower_example =
    encode_lower-parse_lower last_data (9 ∷ 9 ∷ 9 ∷ 9 ∷ []) last_data-IsLower (omega arith)
