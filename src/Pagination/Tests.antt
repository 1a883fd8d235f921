-- ===== src/Pagination/Tests.antt =====
-- A cursor that comes back.
use inwheel_api.Common.{◌≡◌, refl, arith}
use inwheel_api.Common.Result.{ok}
use inwheel_api.Pagination.{encode, decode}
use inwheel_api.Pagination.Cursor.{decode-encode}
use inwheel_api.Samples.Libraries.{codec, codec-IsLawful}

decode-encode_example : decode codec (encode codec 1234 "p1") ≡ ok (1000, "p1")
decode-encode_example = decode-encode codec codec-IsLawful 1234 "p1" (omega arith) refl
