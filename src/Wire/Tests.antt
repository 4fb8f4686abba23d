-- ===== src/Wire/Tests.antt =====
-- Runs of the readers and writers, and the theorems at concrete inputs.
use psl_xserver.Outcome.{ok, panic}
use psl_xserver.Prelude.{[], arith, refl, ◌++◌, ◌∷◌, ◌≡◌}
use psl_xserver.Prelude.Int.{negsuc}
use psl_xserver.Wire.{
  big_endian, i16_at, little_endian, read_i16, u16_at, u32_at, write_i16_to, write_u16_to,
  write_u32_to,
}
use psl_xserver.Wire.RoundTrip.{reads-writes}

read_i16_negative : read_i16 big_endian (0xff ∷ 0xfe ∷ []) ≡ ok (negsuc 1)
unfolding read_i16
read_i16_negative = refl

u16_at_past_the_end : u16_at little_endian (1 ∷ 2 ∷ 3 ∷ []) 2 ≡ panic
unfolding u16_at
u16_at_past_the_end = refl

reads-writes_example :
    (u16_at big_endian (write_u16_to big_endian (9 ∷ []) 513 ++ (7 ∷ [])) 1 ≡ ok 513)
    × (u32_at big_endian (write_u32_to big_endian (9 ∷ []) 70000 ++ (7 ∷ [])) 1 ≡ ok 70000)
    × (i16_at big_endian (write_i16_to big_endian (9 ∷ []) (negsuc 4) ++ (7 ∷ [])) 1
        ≡ ok (negsuc 4))
reads-writes_example =
    reads-writes big_endian (9 ∷ []) (7 ∷ []) 513 70000 (negsuc 4) (omega arith) (omega arith)
      (omega arith)
