-- ===== src/Tests/DirectToken.antt =====
-- src/common/direct_token.c at small inputs. The HMAC is a constant function, in the form of the real one.
use ntap_a.Base.{◌<◌, ◌≡◌, refl, ◌++◌, Option, some, arith, replicate, length}
use ntap_a.Base.Words.{Bytes}
use ntap_a.Base.Texts.{codes, bytes_equal, lacks, split_at, skip_space, to_lower}
use ntap_a.Base.Decimal.{
  digits, strtoll, strtoul, after_sign, signed, clamp, read_digits, after_sign_unsigned, unsigned,
  clamp_unsigned,
}
use ntap_a.Api.{ascii_case_equal}
use ntap_a.DirectToken.{
  DirectToken, token_text, token_sign, make, verify, verify_claims, read_claims, split_fields,
  next_field, can_sign, node_id_ok, hex_string, token_hex_equal_ci, parse_i64, parse_u64,
}
use ntap_a.DirectToken.RoundTrip.{GivesHex, InRange, verify-make}
use ntap_a.DirectToken.Sound.{IsProof, verify-IsProof}

abbrev mac : Bytes
mac = replicate 64 b'c'

abbrev hmac : Bytes → Bytes → Option Bytes
hmac key text = some mac

abbrev key : Bytes
key = codes "node key"

abbrev claims : DirectToken
claims = record {
  user_id = 3;
  node_id = codes "n1";
  network_id = 4;
  expire_at = 2000;
  nonce = replicate 32 b'0';
}

abbrev token : Bytes
token = token_text claims mac

gives_hex : GivesHex hmac
unfolding hex_string
gives_hex k text m h = ground (arith, h)

in_range : InRange claims
in_range = record { user_id = omega arith; network_id = omega arith; expire_at = omega arith }

made : make hmac 1024 key claims ≡ some token
unfolding make token_sign can_sign node_id_ok hex_string lacks digits
made = refl

text_of : token ≡ codes "ntap1|3|n1|4|2000|" ++ replicate 32 b'0' ++ codes "|" ++ mac
unfolding digits
text_of = refl

short : length token < 1024
unfolding digits
short = omega arith

verify-make_example : verify hmac token key (codes "n1") 4 1999 ≡ some claims
verify-make_example =
    verify-make hmac 1024 1999 key token claims gives_hex in_range (omega arith) short made

verified : verify hmac token key (codes "n1") 4 1999 ≡ some claims
unfolding verify verify_claims read_claims split_fields next_field split_at bytes_equal token_sign
    can_sign node_id_ok hex_string token_hex_equal_ci ascii_case_equal to_lower lacks digits
    parse_i64 parse_u64 strtoll strtoul after_sign after_sign_unsigned signed unsigned clamp
    clamp_unsigned skip_space read_digits
verified = refl

verify-IsProof_example : IsProof hmac token key (codes "n1") 4 1999 claims
verify-IsProof_example = verify-IsProof hmac token key (codes "n1") 4 1999 claims verified
