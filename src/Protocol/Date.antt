-- ===== src/Protocol/Date.antt =====
-- A point in time (protocol.go, `Date`), and its JSON (lines 1321 to 1338). Floats and `strconv` are
-- parameters.
use swf4go.Prelude.{ℕ, suc, ◌^◌, ◌≤◌, String, ◌≡◌, refl}
use swf4go.Go.{text, Result, ok, err, Attempt, done, failed}

pub data ℤ : Type 0 where
  pos negsuc : ℕ → ℤ

abbrev pub magnitude : ℤ → ℕ
magnitude (pos n) = n
magnitude (negsuc n) = suc n

-- time.Local, and any other *time.Location by its name
pub data Location : Type 0 where
  local : Location
  named : String → Location

-- A time.Time without its monotonic clock reading: what Unix returns, which may be negative, the
-- nanoseconds within that second, and the location.
pub record Date : Type 0 where
  pub unix : ℤ
  pub nanosecond : ℕ
  pub location : Location

-- time.Unix(sec, 0)
abbrev pub time_unix : ℤ → Date
time_unix sec = record { unix = sec; nanosecond = 0; location = local }

-- strconv.ParseFloat and FormatFloat, and the conversions between int64 and float64
pub record Floats {ℓ} (F : Type ℓ) : Type ℓ where
  pub parse_float : String → Attempt F
  pub format_float : F → String
  pub float64 : ℤ → F
  pub int64 : F → ℤ

module _ {ℓ} {F : Type ℓ} (floats : Floats F) where
  parsed : Attempt F → Result Date
  parsed (failed t) = err (text t)
  parsed (done timestamp) = ok (time_unix (floats.int64 timestamp))

  unfoldable pub unmarshal_json : String → Result Date
  unfolding parsed
  unmarshal_json b = parsed (floats.parse_float b)

  unfoldable pub marshal_json : Date → String
  marshal_json s = floats.format_float (floats.float64 s.unix)

  -- A date that is written as JSON is read back as the start of its second, in the local time zone: the
  -- nanoseconds and the location are lost. The second is at most 2 ^ 53 away from 1970, ParseFloat reads
  -- what FormatFloat wrote, and a float64 holds such integers exactly.
  pub unmarshal_json-marshal_json :
      ((x : F) → floats.parse_float (floats.format_float x) ≡ done x)
      → ((n : ℤ) → magnitude n ≤ 2 ^ 53 → floats.int64 (floats.float64 n) ≡ n)
      → (d : Date) → magnitude d.unix ≤ 2 ^ 53
      → unmarshal_json (marshal_json d) ≡ ok (record d { nanosecond = 0; location = local })
  unfolding unmarshal_json marshal_json
  unmarshal_json-marshal_json reads_back exact d small =
      rw (reads_back (floats.float64 d.unix), exact d.unix small) refl
