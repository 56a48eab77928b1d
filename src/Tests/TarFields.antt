-- ===== src/Tests/TarFields.antt =====
-- Numeric tar header fields on concrete bytes.
use iluvatar.Common.{
  ◌+◌, ◌≤◌, ◌<◌, ◌%◌, ◌≡◌, refl, arith, Bytes, [], ◌∷◌, ◌++◌, replicate, inl, suc,
}
use iluvatar.Common.Numerals.Digits.{digits_of_width}
use iluvatar.Errors.{ok, err, Error, TarProblem}
use iluvatar.Tar.Header.{block_size, parse_octal, padded_size}
use iluvatar.Tar.Header.Octal.{
  parse_octal-digits, parse_octal-big_endian, big_endian, parse_octal-fitting, fitting, big_value,
  padded_size_lem, padded_size_wraps,
}

parse_octal-digits_example : parse_octal (digits_of_width 8 (suc 6) 420 ++ (0 ∷ [])) ≡ ok 420
parse_octal-digits_example = parse_octal-digits 6 420 0 [] (omega arith) (omega arith) (inl refl)

parse_octal-big_endian_example : parse_octal (0x81 ∷ big_endian 11 8589934592) ≡ ok 8589934592
parse_octal-big_endian_example =
    parse_octal-big_endian 0x81 11 8589934592 refl (omega arith) (omega arith)

-- Nine bytes behind the marker, of which the first is 1.
abbrev nine_bytes : Bytes
nine_bytes = 1 ∷ replicate 8 0

parse_octal-fitting_example : parse_octal (0x80 ∷ nine_bytes) ≡ fitting (big_value nine_bytes)
parse_octal-fitting_example = parse_octal-fitting 0x80 nine_bytes refl (ground arith)

too_large :
    fitting (big_value nine_bytes) ≡ err (Error.invalid_tar_header TarProblem.binary_exceeds_u64)
too_large = refl

padded_size_lem_example :
    (padded_size 513 % block_size ≡ 0)
    × (513 ≤ padded_size 513)
    × (padded_size 513 < 513 + block_size)
padded_size_lem_example = padded_size_lem 513 (omega arith)

padded_size_wraps_example : padded_size 18446744073709551615 ≡ 0
padded_size_wraps_example = padded_size_wraps 18446744073709551615 (omega arith) (omega arith)
