-- ===== src/RangeReply/Examples.antt =====
-- A run and a witness for the check of src/megabasterd_cli/core/range_validation.py.
use mega_basterd_cli.Prelude.{String, Option, some, ◌≡◌, refl, ◌↔◌, arith, ok}
use mega_basterd_cli.Json.{ℤ, pos}
use mega_basterd_cli.RangeReply.{
  Headers, validate_range_response, content_range, skip, strip_end, digits, number, total,
  check_header, check_range, check_total, check_length,
}
use mega_basterd_cli.RangeReply.Honored.{IsHonored, validate_range_response-IsHonored}

abbrev window_headers : Headers
window_headers = record {
  content_range_header = some "bytes 0-15/100";
  content_length_header = some "16";
}

-- `int` on the one text of this example
abbrev sixteen : String → Option ℤ
sixteen t = some (pos 16)

window_accepted : validate_range_response sixteen 206 window_headers 0 15 100 ≡ ok tt
unfolding validate_range_response check_header check_range check_total check_length content_range
    strip_end skip digits number total
window_accepted = refl

validate_range_response-IsHonored_example :
    (validate_range_response sixteen 206 window_headers 0 15 100 ≡ ok tt)
    ↔ IsHonored sixteen window_headers 0 15 100 206
validate_range_response-IsHonored_example =
    validate_range_response-IsHonored sixteen window_headers 206 0 15 100 (omega arith)
