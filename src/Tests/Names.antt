-- ===== src/Tests/Names.antt =====
-- A name with a compression pointer, in a message of eight bytes: "a." stands at 0, and "b." with
-- a pointer to it.
use packetmachine.Base.{◌≡◌, refl, true, some, [], ◌∷◌, arith, ok, Bytes}
use packetmachine.NameService.Label.{parse_label}
use packetmachine.NameService.Label.Bounds.{Returns, parse_label-Returns}
use packetmachine.NameService.Label.RoundTrip.{Name, stop, more, jump_more, parse_label-Name}

abbrev message : Bytes
message = 1 ∷ b'a' ∷ 0 ∷ 1 ∷ b'b' ∷ 0xc0 ∷ 0 ∷ 0 ∷ []

Name-at_3 : Name message 0 8 7 3 ((b'b' ∷ []) ∷ (b'a' ∷ []) ∷ []) 7
Name-at_3 =
    more
      (record {
        counted = refl;
        bytes = refl;
        long = omega arith;
        short = omega arith;
        fits = omega arith;
      })
      (jump_more 0 3
        (record {
          first = 0xc0;
          second = 0;
          marked = refl;
          first_at = refl;
          second_at = refl;
          fits = omega arith;
          within = omega arith;
          leads = refl;
        })
        (record {
          counted = refl;
          bytes = refl;
          long = omega arith;
          short = omega arith;
          fits = omega arith;
        })
        (stop (omega arith) refl refl) refl)

parse_label-Returns_example : Returns 3 7 (parse_label message 0 8 3 4 true)
parse_label-Returns_example = parse_label-Returns message 3 4 0 8 true (omega arith) (omega arith)

parse_label-Name_example :
    parse_label message 0 8 3 4 true ≡ ok (some 7, some (b'b' ∷ b'.' ∷ b'a' ∷ b'.' ∷ []))
parse_label-Name_example =
    parse_label-Name message 3 4 0 8 7 ((b'b' ∷ []) ∷ (b'a' ∷ []) ∷ []) Name-at_3 (omega arith)
