-- ===== src/PgUtils.antt =====
-- src/pg/pg_utils.cpp: the quoting of values and names in SQL, and the status for an error code of the
-- database.
pub mod Quoting
pub mod Errors
mod Tests
use libapostol.Prelude.{
  ℕ, ◌/◌, leb, ◌==◌, Option, none, some, List, [], ◌∷◌, ◌++◌, Bytes, codes, if◌then◌else◌,
}
use libapostol.Http.Status.{HttpStatus, bad_request, status_from_code}

unfoldable pub quote_chars : Bytes → Bytes
quote_chars [] = []
quote_chars (c ∷ cs) =
    let rest = quote_chars cs in
    if c == b'\''
    then b'\'' ∷ b'\'' ∷ rest
    else if c == b'\\'
    then b'\\' ∷ b'\\' ∷ rest
    else c ∷ rest

abbrev pub pq_quote_literal : Bytes → Bytes
pq_quote_literal val = b'E' ∷ b'\'' ∷ (quote_chars val ++ (b'\'' ∷ []))

unfoldable pub double_quotes : Bytes → Bytes
double_quotes [] = []
double_quotes (c ∷ cs) =
    let rest = double_quotes cs in if c == b'"' then b'"' ∷ c ∷ rest else c ∷ rest

abbrev pub pq_quote_ident : Bytes → Bytes
pq_quote_ident name = b'"' ∷ (double_quotes name ++ (b'"' ∷ []))

-- An `int` of the code; `negsuc n` is -(n + 1).
pub data ℤ : Type 0 where
  pos negsuc : ℕ → ℤ

abbrev pub or_bad_request : Option HttpStatus → HttpStatus
or_bad_request none = bad_request
or_bad_request (some status) = status

unfoldable pub error_code_to_status : ℤ → HttpStatus
error_code_to_status (negsuc n) = bad_request
error_code_to_status (pos n) =
    let code = if leb 10000 n then n / 100 else n in
    if leb 400 code then or_bad_request (status_from_code code) else bad_request
