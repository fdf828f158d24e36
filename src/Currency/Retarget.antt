-- ===== src/Currency/Retarget.antt =====
-- `Currency::nextDifficulty` (src/cryptonote_core/Currency.cpp).
use bytecoin.Common.{
  ℕ, ◌+◌, ◌-◌, ◌*◌, ◌/◌, ◌||◌, not, List, ltb, leb, ◌==◌, if◌then◌else◌, length, get_or, take,
}
use bytecoin.Common.Word.{add64, sub64}
use bytecoin.Common.Sort.{sort}
use bytecoin.IntUtil.{mul128}
use bytecoin.Currency.{Currency}

-- `vector.resize(window)` on a vector that is longer than the window.
unfoldable pub within_window : Currency → List ℕ → List ℕ
within_window c l = if ltb c.difficulty_window (length l) then take c.difficulty_window l else l

-- The number of blocks that are left when both ends are cut.
abbrev pub kept_blocks : Currency → ℕ
kept_blocks c = c.difficulty_window - 2 * c.difficulty_cut

unfoldable pub cut_begin : Currency → ℕ → ℕ
cut_begin c n = if leb n (kept_blocks c) then 0 else (n - kept_blocks c + 1) / 2

unfoldable pub cut_end : Currency → ℕ → ℕ
unfolding cut_begin
cut_end c n = if leb n (kept_blocks c) then n else cut_begin c n + kept_blocks c

-- `timestamps` are sorted.
unfoldable pub time_span : Currency → List ℕ → ℕ
time_span c timestamps =
    let n = length timestamps in
    let span =
      sub64 (get_or timestamps (cut_end c n - 1) 0) (get_or timestamps (cut_begin c n) 0) in
    if span == 0 then 1 else span

unfoldable pub total_work : Currency → List ℕ → ℕ
total_work c cumulative =
    let n = length cumulative in
    sub64 (get_or cumulative (cut_end c n - 1) 0) (get_or cumulative (cut_begin c n) 0)

-- 0 stands for a difficulty that does not fit.
unfoldable pub work_rate : ℕ → ℕ → ℕ → ℕ
work_rate work target span =
    let (low, high) = mul128 work target in
    let rounded = sub64 (add64 low span) 1 in
    if not (high == 0) || ltb rounded low then 0 else rounded / span

unfoldable pub next_difficulty : Currency → List ℕ → List ℕ → ℕ
next_difficulty c timestamps cumulative_difficulties =
    let ts = within_window c timestamps in
    let cds = within_window c cumulative_difficulties in
    if leb (length ts) 1
    then 1
    else work_rate (total_work c cds) c.difficulty_target (time_span c (sort ts))
