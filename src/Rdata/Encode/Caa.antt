-- ===== src/Rdata/Encode/Caa.antt =====
-- The data of a CAA record are read back.
use rr_dns.Prelude.{
  ℕ, ◌+◌, ◌%◌, ◌≤◌, ltb, List, [], ◌∷◌, ◌++◌, length, length-append, append-nil, some, ok, ◌>>=◌,
  ◌≡◌, false, refl, arith,
}
use rr_dns.Prelude.Bytes.{Bytes}
use rr_dns.Text.{join}
use rr_dns.Text.Decimal.{decimal}
use rr_dns.Text.Fields.{fields, parse_uint, trim_quotes}
use rr_dns.Wire.Octets.{read_byte, slice}
use rr_dns.Wire.Octets.Laws.{slice-at}
use rr_dns.Rdata.{spaced, decode_caa, is_name_type, is_not_implemented, decode}
use rr_dns.Rdata.Encode.{encode_caa_fields, encode_caa}
use rr_dns.Rdata.Encode.Fields.{parse_uint-lt}

-- The value of a CAA record: what stands behind the tag, less the quotes around it.
abbrev pub caa_value : List Bytes → Bytes
caa_value words = trim_quotes (join (b' ' ∷ []) words)

caa_bytes : ℕ → Bytes → Bytes → Bytes
caa_bytes n tag value = n ∷ length tag ∷ (tag ++ value)

decode_caa-bytes :
    (n : ℕ) (tag value : Bytes)
    → length tag ≤ 253
    → decode_caa (caa_bytes n tag value)
      ≡ ok (spaced (decimal n ∷ tag ∷ (b'"' ∷ (value ++ b'"' ∷ [])) ∷ []))
unfolding decode_caa caa_bytes read_byte
decode_caa-bytes n tag value h = rw (end, header) (rw (long_enough, tag_read, value_read) refl)
  where
    msg : Bytes
    msg = n ∷ length tag ∷ (tag ++ value)

    front : Bytes
    front = n ∷ length tag ∷ tag

    header : ltb (length msg) 2 ≡ false
    header = ground arith

    end : (2 + length tag) % 256 ≡ 2 + length tag
    end = omega arith

    long_enough : ltb (length msg) (2 + length tag) ≡ false
    long_enough = ground (arith, length-append tag value)

    tag_read : slice msg 2 (2 + length tag) ≡ ok tag
    tag_read =
        slice-at msg (n ∷ length tag ∷ []) tag value 2 (2 + length tag) refl refl (omega arith)

    value_read : slice msg (2 + length tag) (length msg) ≡ ok value
    value_read =
        slice-at msg front value [] (2 + length tag) (length msg) (rw append-nil) (omega arith)
          (omega (arith, length-append tag value))

-- A CAA text of a number of 8 bits, a tag of at most 253 bytes, and words, whose join less the quotes
-- around it has at most 255 bytes, is encoded, and its data decode to the number in plain decimal, the
-- tag, and that value in quotes.
pub decode-encode_caa :
    (text flag tag word : Bytes) (words : List Bytes) (n : ℕ)
    → fields text ≡ flag ∷ tag ∷ word ∷ words
    → parse_uint 8 flag ≡ some n
    → length tag ≤ 253
    → length (caa_value (word ∷ words)) ≤ 255
    → (encode_caa text >>= decode 257)
      ≡ ok (spaced (decimal n ∷ tag ∷ (b'"' ∷ (caa_value (word ∷ words) ++ b'"' ∷ [])) ∷ []))
unfolding encode_caa decode is_name_type is_not_implemented caa_bytes
decode-encode_caa text flag tag word words n split number short fits =
    rw (split, encode_caa_fields)
      (rw (number, tag_fits, value_fits, flag_byte, tag_byte)
        (decode_caa-bytes n tag (caa_value (word ∷ words)) short))
  where
    tag_fits : ltb 255 (length tag) ≡ false
    tag_fits = ground arith

    value_fits : ltb 255 (length (caa_value (word ∷ words))) ≡ false
    value_fits = ground arith

    flag_byte : n % 256 ≡ n
    flag_byte = omega (arith, parse_uint-lt 8 flag number)

    tag_byte : length tag % 256 ≡ length tag
    tag_byte = omega arith
