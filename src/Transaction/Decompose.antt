-- ===== src/Transaction/Decompose.antt =====
-- `decompose_amount_into_digits` of src/cryptonote_core/cryptonote_format_utils.h: an amount as a sum
-- of round chunks and one amount of dust.
use bytecoin.Common.{
  ℕ, zero, suc, ◌+◌, ◌*◌, ◌/◌, ◌%◌, ◌^◌, ◌≤◌, ◌<◌, ◌≡◌, refl, sym, ap, ◌∙◌, inl, inr, Bool, true,
  false, ◌&&◌, ◌||◌, not, List, [], ◌∷◌, ◌++◌, arith, leb, ◌==◌, if◌then◌else◌, Bool-cases, leb→le,
  ==_iff,
}
use bytecoin.Common.Word.{IsU64, add64, mul64}
use bytecoin.IntUtil.Mul.{mul-le}
use native.Mathlib.Nat.{div-add-mod', mod-lt, pow-suc}

-- A call of one of the two handlers.
pub data Piece : Type 0 where
  chunk : ℕ → Piece
  dust : ℕ → Piece

abbrev pub dust_call : Bool → ℕ → List Piece
dust_call handled amount = if not handled && not (amount == 0) then dust amount ∷ [] else []

abbrev pub chunk_call : ℕ → List Piece
chunk_call amount = if not (amount == 0) then chunk amount ∷ [] else []

-- The loop over the digits, and the last call of the handler of the dust. `handled` is
-- `is_dust_handled`, `kept` the variable `dust`.
unfoldable pub decompose_loop : ℕ → ℕ → ℕ → Bool → ℕ → ℕ → List Piece
decompose_loop zero amount threshold handled kept order = dust_call handled kept
decompose_loop (suc fuel) amount threshold handled kept order =
    let part = mul64 (amount % 10) order in
    let fits = leb (add64 kept part) threshold in
    let rest =
      decompose_loop fuel (amount / 10) threshold
        (if fits then handled else handled || not (kept == 0))
        (if fits then add64 kept part else kept) (mul64 order 10) in
    if amount == 0
    then dust_call handled kept
    else if fits
    then rest
    else dust_call handled kept ++ (chunk_call part ++ rest)

-- A uint64_t has at most 20 digits.
unfoldable pub decompose_amount_into_digits : ℕ → ℕ → List Piece
unfolding decompose_loop
decompose_amount_into_digits amount dust_threshold =
    if amount == 0 then [] else decompose_loop 20 amount dust_threshold false 0 1

abbrev pub piece_amount : Piece → ℕ
piece_amount (chunk n) = n
piece_amount (dust n) = n

abbrev pub pieces_total : List Piece → ℕ
pieces_total [] = 0
pieces_total (p ∷ l) = piece_amount p + pieces_total l

pieces_total-append : (l m : List Piece) → pieces_total (l ++ m) ≡ pieces_total l + pieces_total m
pieces_total-append [] m = omega arith
pieces_total-append (p ∷ l) m = omega (arith, pieces_total-append l m)

-- What is still to be handed over of the dust.
abbrev open_dust : Bool → ℕ → ℕ
open_dust handled kept = if handled then 0 else kept

dust_call_lem :
    (handled : Bool) (kept : ℕ) → pieces_total (dust_call handled kept) ≡ open_dust handled kept
dust_call_lem true kept = refl
dust_call_lem false kept = ground arith

chunk_call_lem : (n : ℕ) → pieces_total (chunk_call n) ≡ n
chunk_call_lem n = ground arith

calls_total :
    (handled : Bool) (kept part : ℕ) (rest : List Piece)
    → pieces_total (dust_call handled kept ++ (chunk_call part ++ rest))
      ≡ open_dust handled kept + (part + pieces_total rest)
calls_total handled kept part rest = omega (
  arith,
  pieces_total-append (dust_call handled kept) (chunk_call part ++ rest),
  pieces_total-append (chunk_call part) rest,
  dust_call_lem handled kept,
  chunk_call_lem part,
)

split_digit : (amount order : ℕ) → amount * order ≡ amount / 10 * (order * 10) + amount % 10 * order
split_digit amount order = ap (λ n. n * order) (sym (div-add-mod' amount 10)) ∙ omega arith

next_order :
    (a order : ℕ)
    → a * (order * 10) < 2 ^ 64
    → (a * mul64 order 10 ≡ a * (order * 10)) × (0 < a → mul64 order 10 ≡ order * 10)
next_order zero order h = (omega arith, λ l. absurd (omega arith))
next_order (suc a) order h =
    let small : order * 10 < 2 ^ 64 = omega arith in
    let exact : mul64 order 10 ≡ order * 10 = omega arith in (ap (λ n. suc a * n) exact, λ l. exact)

no_digit : (r order kept t : ℕ) → t < kept + order → kept + r * order ≤ t → r * order ≡ 0
no_digit zero order kept t h k = omega arith
no_digit (suc r) order kept t h k = absurd (omega arith)

digit_le : (r order : ℕ) → r < 10 → r * order ≤ order * 10
digit_le r order h = omega (arith, mul-le r order 9 order (omega arith) (omega arith))

open_dust-handled : (handled : Bool) (kept : ℕ) → open_dust (handled || not (kept == 0)) kept ≡ 0
open_dust-handled true kept = refl
open_dust-handled false kept = ground arith

-- Whether handled dust can still grow: only by a digit 0.
abbrev IsClosed : ℕ → Bool → ℕ → ℕ → ℕ → Type 0
IsClosed amount handled kept order t = handled ≡ true → 0 < amount → t < kept + order

open_dust-grown :
    (handled : Bool) (amount kept order part t : ℕ)
    → IsClosed amount handled kept order t
    → 0 < amount
    → part ≡ amount % 10 * order
    → kept + part ≤ t
    → open_dust handled (kept + part) ≡ open_dust handled kept + part
open_dust-grown false amount kept order part t c p e h = refl
open_dust-grown true amount kept order part t c p e h =
    omega (arith, e, no_digit (amount % 10) order kept t (c refl p) (omega (arith, e, h)))

decompose_loop_lem :
    (fuel amount t : ℕ) (handled : Bool) (kept order : ℕ)
    → amount < 10 ^ fuel
    → amount * order + kept < 2 ^ 64
    → IsClosed amount handled kept order t
    → pieces_total (decompose_loop fuel amount t handled kept order)
      ≡ amount * order + open_dust handled kept
unfolding decompose_loop
decompose_loop_lem zero amount t handled kept order f b c =
    let none_left : amount ≡ 0 = omega arith in
    omega (arith, dust_call_lem handled kept, ap (λ n. n * order) none_left)
decompose_loop_lem (suc fuel) amount t handled kept order f b c = elim (Bool-cases (amount == 0)) [
  | inl z ↦
      let none_left = (==_iff amount 0).0 z in
      rw z (omega (arith, dust_call_lem handled kept, ap (λ n. n * order) none_left))
  | inr z ↦
      let some_left : 0 < amount = ground arith in
      let split = split_digit amount order in
      let part : mul64 (amount % 10) order ≡ amount % 10 * order = omega (arith, split) in
      let sum : add64 kept (mul64 (amount % 10) order) ≡ kept + amount % 10 * order =
        omega (arith, split, part) in
      let (product, exact) = next_order (amount / 10) order (omega (arith, split)) in
      let shorter : amount / 10 < 10 ^ fuel = omega (arith, pow-suc 10 fuel) in
      rw z (elim (Bool-cases (leb (add64 kept (mul64 (amount % 10) order)) t)) [
        | inl e ↦
            let within : kept + amount % 10 * order ≤ t =
              omega (arith, leb→le (add64 kept (mul64 (amount % 10) order)) t e, sum) in
            let grown =
              open_dust-grown handled amount kept order (amount % 10 * order) t c some_left refl
                within in
            let later =
              decompose_loop_lem fuel (amount / 10) t handled
                (add64 kept (mul64 (amount % 10) order)) (mul64 order 10) shorter
                (omega (arith, product, sum, split))
                (λ h l. omega (arith, c h some_left, exact l, sum)) in
            rw e (omega (arith, later, product, ap (open_dust handled) sum, grown, split))
        | inr e ↦
            let above : t < kept + amount % 10 * order = ground (arith, sum) in
            let digit = digit_le (amount % 10) order (mod-lt amount (omega arith)) in
            let closed = handled || not (kept == 0) in
            let later =
              decompose_loop_lem fuel (amount / 10) t closed kept (mul64 order 10) shorter
                (omega (arith, product, split)) (λ h l. omega (arith, above, digit, exact l)) in
            rw e (
              omega (
                arith,
                calls_total handled kept (mul64 (amount % 10) order)
                    (decompose_loop fuel (amount / 10) t closed kept (mul64 order 10)),
                later,
                open_dust-handled handled kept,
                product,
                part,
                split,
              ))
      ])
]

unless_zero :
    (amount : ℕ) (l : List Piece)
    → pieces_total l ≡ amount
    → pieces_total (if amount == 0 then [] else l) ≡ amount
unless_zero amount l e = elim (Bool-cases (amount == 0)) [
  | inl z ↦ rw z (sym ((==_iff amount 0).0 z))
  | inr z ↦ rw z e
]

loop_total :
    (amount t : ℕ) → IsU64 amount → pieces_total (decompose_loop 20 amount t false 0 1) ≡ amount
loop_total amount t u =
    decompose_loop_lem 20 amount t false 0 1 (omega arith) (omega arith) (λ h l. absurd (cc h))
    ∙ omega arith

-- For every 64-bit amount and every threshold, the amounts that the two handlers are called with
-- sum up to the amount.
pub decompose_amount_into_digits_lem :
    (amount dust_threshold : ℕ)
    → IsU64 amount
    → pieces_total (decompose_amount_into_digits amount dust_threshold) ≡ amount
unfolding decompose_amount_into_digits
decompose_amount_into_digits_lem amount t u =
    unless_zero amount (decompose_loop 20 amount t false 0 1) (loop_total amount t u)
