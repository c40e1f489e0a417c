-- ===== src/Player/ContextFlags/Tests.antt =====
-- Runs of src/player.rs with the numbers of its own tests.
use dd2_server.Prelude.{◌%◌, Bool, true, false, ◌≡◌, refl, ◌↔◌, ◌⊎◌}
use dd2_server.Player.ContextFlags.{encode_context_flags, decode_context_flags, check_flags_sf_mi}
use dd2_server.Player.ContextFlags.RoundTrip.{
  flags, mapped_flags, decode-encode, encode-odd, check_flags_sf_mi-encode,
}

decode_alternating :
    decode_context_flags 0x0000000EF0F42FA9
    ≡ flags true false true false true false true false true false false false true false true
unfolding decode_context_flags
decode_alternating = refl

decode_all :
    decode_context_flags 0x178BA59576325029
    ≡ mapped_flags true true true true true true true true true true true true true true true
unfolding decode_context_flags
decode_all = refl

decode-encode_example :
    decode_context_flags (
      encode_context_flags
        (flags true false true false true false true false true false true false true false true))
    ≡ mapped_flags true false true false true false true false true false true false true false true
decode-encode_example =
    decode-encode true false true false true false true false true false true false true false true

encode-odd_example :
    encode_context_flags
        (flags true true true true true true true true true true true true true true true)
      % 2
    ≡ 1
encode-odd_example =
    encode-odd true true true true true true true true true true true true true true true

check_flags_sf_mi-encode_example :
    (check_flags_sf_mi
        (encode_context_flags (
          flags false false true false false false false true false false false true false false
            false))
        0
      ≡ true)
    ↔ ((◌≡◌ {A = Bool} false false)
        × (◌≡◌ {A = Bool} false false)
        × ((◌≡◌ {A = Bool} true true) ⊎ (◌≡◌ {A = Bool} false true)))
check_flags_sf_mi-encode_example =
    check_flags_sf_mi-encode false false true false false false false true false false false true
      false false false 0
