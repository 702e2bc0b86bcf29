-- ===== src/Notify/Statements.antt =====
-- The texts of the statements that carry what a module gives: a result with its confirmation, and the
-- batch of a stop.
use libapostol.Prelude.{
  by_test, length, ◌*◌, ℕ, ◌≡◌, refl, ◌==◌, Bool, ◌&&◌, ◌||◌, List, [], ◌∷◌, ◌++◌, Bytes, codes,
  decimal, decimal_from-IsDigit, IsDigit, All, is_empty, total, total-append, if◌then◌else◌, arith,
  suc,
}
use libapostol.PgUtils.{quote_chars, pq_quote_literal}
use libapostol.Notify.{NotifyRow}

abbrev pub is_separator : ℕ → Bool
is_separator c = c == b';' || c == b' ' || c == b'\n' || c == b'\t' || c == b'\r'

-- Separators at the end of a statement go.
unfoldable pub strip_separators : Bytes → Bytes
strip_separators [] = []
strip_separators (c ∷ cs) =
    let rest = strip_separators cs in if is_separator c && is_empty rest then [] else c ∷ rest

abbrev pub ack_text : NotifyRow → Bytes
ack_text row =
    codes "SELECT notify.ack("
    ++ (decimal row.id ++ (codes ", " ++ (decimal row.token ++ codes ")")))

unfoldable pub ack_sql : NotifyRow → Bytes → Bytes
ack_sql row result_sql =
    let sql = strip_separators result_sql in
    if is_empty sql then ack_text row else sql ++ (codes "\n;\n" ++ ack_text row)

unfoldable pub erase_dollars : Bytes → Bytes
erase_dollars [] = []
erase_dollars (c ∷ cs) = let rest = erase_dollars cs in if c == b'$' then rest else c ∷ rest

abbrev pub block_end : Bytes
block_end = codes "); EXCEPTION WHEN SQLSTATE 'NT409' THEN NULL; END $notify$; "

-- A row that stop() gives back; a stale token does not end the batch.
unfoldable pub nack_block : Bytes → NotifyRow → Bytes
nack_block why row =
    codes "DO $notify$ BEGIN PERFORM notify.nack("
    ++ (decimal row.id
        ++ (codes ", "
            ++ (decimal row.token ++ (codes ", " ++ (pq_quote_literal why ++ block_end)))))

unfoldable pub nack_blocks : Bytes → List NotifyRow → Bytes
nack_blocks why [] = []
nack_blocks why (row ∷ rows) = nack_block why row ++ nack_blocks why rows

abbrev pub if_numbered : ℕ → Bytes → Bytes
if_numbered number text = if number == 0 then [] else text

-- The batch of stop().
unfoldable pub stop_sql : ℕ → List NotifyRow → Bytes → Bytes
stop_sql number rows reason =
    if_numbered number (codes "SELECT notify.drain(" ++ (decimal number ++ codes "); "))
    ++ (nack_blocks (erase_dollars reason) rows
        ++ if_numbered number (codes "SELECT notify.unsubscribe(" ++ (decimal number ++ codes ")")))

abbrev pub is_dollar : ℕ → ℕ
is_dollar c = if c == b'$' then 1 else 0

-- How often a text has a dollar sign.
abbrev pub dollars : Bytes → ℕ
dollars text = total is_dollar text

dollars-digits : (ds : Bytes) → All IsDigit ds → dollars ds ≡ 0
unfolding total
dollars-digits [] h = refl
dollars-digits (d ∷ ds) h =
    let small : is_dollar d ≡ 0 = ground arith in omega (arith, small, dollars-digits ds h.1)

dollars-decimal : (n : ℕ) → dollars (decimal n) ≡ 0
dollars-decimal n = dollars-digits (decimal n) (decimal_from-IsDigit (suc n) n)

dollars-quote_chars : (cs : Bytes) → dollars (quote_chars cs) ≡ dollars cs
unfolding total quote_chars
dollars-quote_chars [] = refl
dollars-quote_chars (c ∷ cs) = ground (arith, dollars-quote_chars cs)

dollars-erase_dollars : (cs : Bytes) → dollars (erase_dollars cs) ≡ 0
unfolding total erase_dollars
dollars-erase_dollars [] = refl
dollars-erase_dollars (c ∷ cs) = ground (arith, dollars-erase_dollars cs)

dollars-nack_block :
    (why : Bytes) (row : NotifyRow) → dollars why ≡ 0 → dollars (nack_block why row) ≡ 4
unfolding nack_block total
dollars-nack_block why row h =
    let quoted = quote_chars why ++ (b'\'' ∷ []) in
    let reason = codes ", " ++ (pq_quote_literal why ++ block_end) in
    omega (
      arith,
      h,
      dollars-decimal row.id,
      dollars-decimal row.token,
      dollars-quote_chars why,
      total-append is_dollar (decimal row.id) (codes ", " ++ (decimal row.token ++ reason)),
      total-append is_dollar (decimal row.token) reason,
      total-append is_dollar quoted block_end,
      total-append is_dollar (quote_chars why) (b'\'' ∷ []),
    )

dollars-nack_blocks :
    (why : Bytes) (rows : List NotifyRow)
    → dollars why ≡ 0
    → dollars (nack_blocks why rows) ≡ 4 * length rows
unfolding nack_blocks total
dollars-nack_blocks why [] h = refl
dollars-nack_blocks why (row ∷ rows) h = omega (
  arith,
  dollars-nack_block why row h,
  dollars-nack_blocks why rows h,
  total-append is_dollar (nack_block why row) (nack_blocks why rows),
)

dollars-numbered :
    (number : ℕ) (before after : Bytes)
    → dollars before ≡ 0
    → dollars after ≡ 0
    → dollars (if_numbered number (before ++ (decimal number ++ after))) ≡ 0
unfolding total
dollars-numbered number before after h k =
    by_test (λ (text : Bytes). dollars text ≡ 0) (number == 0) _ _ (λ _. refl)
      (λ _. omega (
        arith,
        h,
        k,
        dollars-decimal number,
        total-append is_dollar before (decimal number ++ after),
        total-append is_dollar (decimal number) after,
      ))

-- Whatever reason a module gives to stop(): the batch that is sent has exactly four dollar signs for each
-- row that it gives back, those of the two tags of its block, so no reason closes a block early.
pub stop_sql-dollars :
    (number : ℕ) (rows : List NotifyRow) (reason : Bytes)
    → dollars (stop_sql number rows reason) ≡ 4 * length rows
unfolding stop_sql total
stop_sql-dollars number rows reason =
    let drains =
      if_numbered number (codes "SELECT notify.drain(" ++ (decimal number ++ codes "); ")) in
    let gone =
      if_numbered number (codes "SELECT notify.unsubscribe(" ++ (decimal number ++ codes ")")) in
    omega (
      arith,
      dollars-numbered number (codes "SELECT notify.drain(") (codes "); ") refl refl,
      dollars-numbered number (codes "SELECT notify.unsubscribe(") (codes ")") refl refl,
      dollars-nack_blocks (erase_dollars reason) rows (dollars-erase_dollars reason),
      total-append is_dollar drains (nack_blocks (erase_dollars reason) rows ++ gone),
      total-append is_dollar (nack_blocks (erase_dollars reason) rows) gone,
    )
