-- ===== src/ErrorCode/Examples.antt =====
-- The theorems on include/rest_rpc/error_code.h for two codes.
use rest_rpc.Base.{◌≡◌, refl, true}
use rest_rpc.ErrorCode.{write_error, errc_value, make_error_code, eq_errc}

write_error_equal : eq_errc (make_error_code write_error) write_error ≡ true
unfolding eq_errc make_error_code errc_value
write_error_equal = refl
