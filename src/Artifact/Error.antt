-- ===== src/Artifact/Error.antt =====
-- artifact/store.go: the errors of a store, and a result with such an error.
use goutils.Common.{String, Bool, true, false}

pub data Error : Type 0 where
  -- NotFoundError, with the field that is set
  not_found_hash not_found_path : String → Error
  -- an error of the operating system, of encoding, or of a remote service
  failure : String → Error
  -- errors.Wrap
  wrap : String → Error → Error

-- errors.As goes through the wrapped errors.
unfoldable pub is_not_found_error : Error → Bool
is_not_found_error (not_found_hash h) = true
is_not_found_error (not_found_path p) = true
is_not_found_error (failure m) = false
is_not_found_error (wrap m e) = is_not_found_error e

pub data Result (A : Type 0) : Type 0 where
  ok : A → Result A
  err : Error → Result A
