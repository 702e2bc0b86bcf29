-- ===== src/PgUtils/Tests.antt =====
-- Runs of the quoting and of the status for an error code.
use libapostol.Prelude.{◌≡◌, ◌≢◌, ◌↔◌, ◌≤◌, refl, some, ◌++◌, codes}
use libapostol.Http.Status.{forbidden, bad_request, code_of}
use libapostol.PgUtils.{pos, quote_chars, pq_quote_literal, error_code_to_status}
use libapostol.PgUtils.Quoting.{read_literal, read_literal-pq_quote_literal}
use libapostol.PgUtils.Errors.{Names, error_code_to_status-refusal, error_code_to_status_iff}

quoted : pq_quote_literal (codes "O'Neil\\") ≡ codes "E'O''Neil\\\\'"
unfolding quote_chars
quoted = refl

read_literal-pq_quote_literal_example :
    read_literal (pq_quote_literal (codes "'; DROP") ++ codes ", 1")
    ≡ some (codes "'; DROP", codes ", 1")
read_literal-pq_quote_literal_example =
    read_literal-pq_quote_literal (codes "'; DROP") (codes ", 1") refl

error_code_to_status-refusal_example : 400 ≤ code_of (error_code_to_status (pos 20000))
error_code_to_status-refusal_example = error_code_to_status-refusal (pos 20000)

forbidden≢bad_request : forbidden ≢ bad_request
forbidden≢bad_request e = cc e

error_code_to_status_iff_example :
    (error_code_to_status (pos 40301) ≡ forbidden)
    ↔ (Names (pos 40301) forbidden × (400 ≤ code_of forbidden))
error_code_to_status_iff_example =
    error_code_to_status_iff (pos 40301) forbidden forbidden≢bad_request
