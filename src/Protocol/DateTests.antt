-- ===== src/Protocol/DateTests.antt =====
-- A date through JSON, with numbers for floats: the even ones for 0 and above, the odd ones below.
use swf4go.Prelude.{ℕ, ◌+◌, ◌*◌, ◌/◌, ◌%◌, ◌≡◌, refl, ap, eqb, if◌then◌else◌, arith}
use swf4go.Prelude.Decimal.{itoa, value, value-itoa}
use swf4go.Go.{ok, done}
use swf4go.Protocol.Date.{
  ℤ, pos, negsuc, local, named, Date, Floats, marshal_json, unmarshal_json,
  unmarshal_json-marshal_json,
}

abbrev code : ℤ → ℕ
code (pos n) = 2 * n
code (negsuc n) = 2 * n + 1

abbrev decode : ℕ → ℤ
decode m = if eqb (m % 2) 0 then pos (m / 2) else negsuc (m / 2)

decode-code : (n : ℤ) → decode (code n) ≡ n
decode-code (pos n) =
    let even : (2 * n) % 2 ≡ 0 = omega arith in
    let half : (2 * n) / 2 ≡ n = omega arith in rw (even, half) refl
decode-code (negsuc n) =
    let odd : (2 * n + 1) % 2 ≡ 1 = omega arith in
    let half : (2 * n + 1) / 2 ≡ n = omega arith in rw (odd, half) refl

abbrev whole : Floats ℕ
whole = record {
  parse_float = λ t. done (value 0 t);
  format_float = itoa;
  float64 = code;
  int64 = decode;
}

-- half a second before 1970, in UTC
abbrev before_1970 : Date
before_1970 = record { unix = negsuc 0; nanosecond = 500000000; location = named "UTC" }

unmarshal_json-marshal_json_example :
    unmarshal_json whole (marshal_json whole before_1970)
    ≡ ok (record { unix = negsuc 0; nanosecond = 0; location = local })
unmarshal_json-marshal_json_example =
    unmarshal_json-marshal_json whole (λ x. ap done (value-itoa x)) (λ n h. decode-code n)
      before_1970 (omega arith)
