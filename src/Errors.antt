-- ===== src/Errors.antt =====
-- src/error.rs: the errors of the library. A message, which the source formats into a string, is
-- the name of what it says; the values formatted into it are left out.

use iluvatar.Common.{ℕ, Bytes}

pub data TarProblem : Type 0 where
  binary_exceeds_u64 invalid_octal checksum_mismatch : TarProblem
  size_too_large sparse_unsupported implausible_size : TarProblem

pub data ArProblem : Type 0 where
  header_too_short bad_terminator invalid_utf8 invalid_field : ArProblem
  thin_archive unrecognized_magic implausible_table_size invalid_bsd_length : ArProblem
  empty_name no_name_table name_out_of_range : ArProblem

pub data CpioProblem : Type 0 where
  short_header invalid_hex invalid_octal_field field_not_utf8 : CpioProblem
  unknown_magic bad_magic implausible_namesize implausible_target : CpioProblem

-- Where the stream ended.
pub data Ending : Type 0 where
  in_magic in_header in_name_table in_name in_member in_extended_header : Ending
  before_entry before_trailer : Ending
  compressed_stream : Ending

pub data Error : Type 0 where
  unsupported_format : Error
  invalid_tar_header : TarProblem → Error
  invalid_cpio_header : CpioProblem → Error
  invalid_ar_header : ArProblem → Error
  decompression_error checkpoint_error : Error
  file_not_found : Bytes → Error
  index_error : Error
  index_version_mismatch : ℕ → ℕ → Error
  stale_index truncated_input : Error
  truncated_archive : Ending → Error
  io serialization invalid_state : Error

-- `Result`, with the library's own error type.
pub data Result {ℓ} (T : Type ℓ) : Type ℓ where
  ok : T → Result T
  err : (problem : Error) → Result T

-- `?`: an error ends the computation.
infixl 5 ◌>>=◌
abbrev pub ◌>>=◌ {ℓ μ} : {T : Type ℓ} {U : Type μ} → Result T → (T → Result U) → Result U
err problem >>= rest = err problem
ok value >>= rest = rest value

-- The result, if there is one, has the property.
abbrev pub OnOk {ℓ κ} : {A : Type ℓ} → (A → Type κ) → Result A → Type κ
OnOk P (ok a) = P a
OnOk P (err e) = Unit

pub OnOk-bind {ℓ κ μ} :
    {A : Type ℓ} {B : Type κ} (P : B → Type μ) (m : Result A) (f : A → Result B)
    → ((a : A) → OnOk P (f a))
    → OnOk P (m >>= f)
OnOk-bind P (ok a) f h = h a
OnOk-bind P (err e) f h = tt
