-- ===== src/BitSet/Print/Room.antt =====
-- The text of a set with indices below 100,000 fits its buffer.
use pinsight.Common.{
  ℕ, zero, suc, ◌+◌, ◌-◌, ◌*◌, ◌^◌, ◌≤◌, ◌<◌, true, ◌&&◌, Option, none, some, List, [], ◌∷◌, ◌++◌,
  length, length-append, ltb, leb, ◌==◌, ◌≡◌, refl, ap, sym, ◌∙◌, arith, inl, inr, Bool-cases,
}
use pinsight.BitSet.{BitSet}
use pinsight.BitSet.Laws.{IsValid}
use pinsight.BitSet.Print.{
  Run, Buffer, take, print, put_comma, print_run, write_runs, buffer_size, all_runs, decimal,
  to_rangestring,
}
use pinsight.BitSet.Print.Decimal.{length-decimal}
use pinsight.BitSet.Print.Laws.{InBounds, IsSpread, all_runs-InBounds, all_runs-IsSpread}

-- The text of ranges behind another one, and of all ranges.
unfoldable pub print_more : List Run → List ℕ
unfolding print_run
print_more [] = []
print_more (r ∷ rs) = b',' ∷ (print_run r ++ print_more rs)

unfoldable pub print_runs : List Run → List ℕ
unfolding print_run print_more
print_runs [] = []
print_runs (r ∷ rs) = print_run r ++ print_more rs

take-all : (n : ℕ) (s : List ℕ) → length s ≤ n → take n s ≡ s
take-all zero [] h = refl
take-all zero (c ∷ s) h = absurd (omega (arith, h))
take-all (suc n) [] h = refl
take-all (suc n) (c ∷ s) h = ap (λ (t : List ℕ). c ∷ t) (take-all n s (omega (arith, h)))

pub append_assoc : (s t u : List ℕ) → (s ++ t) ++ u ≡ s ++ (t ++ u)
append_assoc [] t u = refl
append_assoc (c ∷ s) t u = ap (λ (r : List ℕ). c ∷ r) (append_assoc s t u)

append_nil : (s : List ℕ) → s ++ [] ≡ s
append_nil [] = refl
append_nil (c ∷ s) = ap (λ (r : List ℕ). c ∷ r) (append_nil s)

print-fits :
    (size : ℕ) (s : List ℕ) (b : Buffer)
    → b.len + length s < size
    → print size s b ≡ some (record { text = b.text ++ s; len = b.len + length s })
unfolding print
print-fits size s b h =
    let l : leb b.len size ≡ true = ground (arith, h) in
    rw (l, take-all (size - 1 - b.len) s (omega (arith, h))) refl

put_comma-fits :
    (size : ℕ) (b : Buffer)
    → 0 < b.len
    → b.len + 1 < size
    → put_comma size b ≡ record { text = b.text ++ b',' ∷ []; len = b.len + 1 }
unfolding put_comma
put_comma-fits size b h l =
    let c : (ltb 0 b.len && ltb b.len (size - 1)) ≡ true = ground (arith, h, l) in rw c refl

go_on : ℕ → List Run → Option Buffer → Option Buffer
unfolding write_runs
go_on size rs o = elim o [ none ↦ none | some b ↦ write_runs size rs b ]

abbrev IsText : List ℕ → Option Buffer → Type 0
IsText s o = (n : ℕ) × (o ≡ some (record { text = s; len = n }))

write_more :
    (size : ℕ) (rs : List Run) (b : Buffer)
    → 0 < b.len
    → b.len + length (print_more rs) < size
    → IsText (b.text ++ print_more rs) (write_runs size rs b)
unfolding write_runs print_more go_on
write_more size [] b h l =
    (b.len, ap (λ (s : List ℕ). some (record { text = s; len = b.len })) (sym (append_nil b.text)))
write_more size (r ∷ rs) b h l =
    let room = length-append (print_run r) (print_more rs) in
    let c : Buffer = record { text = b.text ++ b',' ∷ []; len = b.len + 1 } in
    let d : Buffer = record {
      text = (b.text ++ b',' ∷ []) ++ print_run r;
      len = b.len + 1 + length (print_run r);
    } in
    let (n, e) = write_more size rs d (omega arith) (omega (arith, l, room)) in
    (
      n,
      ap (λ (x : Buffer). go_on size rs (print size (print_run r) x))
            (put_comma-fits size b h (omega (arith, l, room)))
          ∙ ap (go_on size rs) (print-fits size (print_run r) c (omega (arith, l, room)))
          ∙ e
          ∙ ap (λ (s : List ℕ). some (record { text = s; len = n }))
              (append_assoc (b.text ++ b',' ∷ []) (print_run r) (print_more rs)
                ∙ append_assoc b.text (b',' ∷ []) (print_run r ++ print_more rs)),
    )

length-print_run-le :
    (r : Run) (top : ℕ)
    → r.start ≤ r.end
    → r.end < 10 ^ 5
    → length (print_run r) + 1 + r.start * 6 ≤ (r.end + 1) * 6
unfolding print_run
length-print_run-le r top l h = elim (Bool-cases (r.start == r.end)) [
  | inl p ↦
      let e : r.start ≡ r.end = ground (arith, p) in
      rw p (omega (arith, length-decimal r.start (omega (arith, l, h)), e))
  | inr p ↦
      let ne : r.start < r.end = ground (arith, p, l) in
      rw p (
        omega (
          arith,
          length-append (decimal r.start) (b'-' ∷ decimal r.end),
          length-decimal r.start (omega (arith, l, h)),
          length-decimal r.end h,
          ne,
        ))
]

-- Six characters for each index from lo to the top are enough.
length-print_more-le :
    (lo top : ℕ) (rs : List Run)
    → InBounds top rs
    → IsSpread lo rs
    → top < 10 ^ 5
    → lo ≤ top + 1
    → length (print_more rs) + lo * 6 ≤ (top + 1) * 6
unfolding print_more
length-print_more-le lo top [] b o t l = omega (arith, l)
length-print_more-le lo top (r ∷ rs) b o t l = omega (
  arith,
  length-append (print_run r) (print_more rs),
  length-print_run-le r top b.0 (omega (arith, b.1, t)),
  length-print_more-le (r.end + 1) top rs b.2 o.1 t (omega (arith, b.1)),
  o.0,
)

write_all :
    (size : ℕ) (rs : List Run)
    → length (print_more rs) < size
    → ((r : Run) → 0 < length (print_run r))
    → IsText (print_runs rs) (write_runs size rs (record { text = []; len = 0 }))
unfolding write_runs print_runs print_more go_on put_comma
write_all size [] h k = (0, refl)
write_all size (r ∷ rs) h k =
    let room = length-append (print_run r) (print_more rs) in
    let d : Buffer = record { text = print_run r; len = length (print_run r) } in
    let (n, e) = write_more size rs d (k r) (omega (arith, h, room)) in
    (
      n,
      ap (go_on size rs) (
            print-fits size (print_run r) (record { text = []; len = 0 }) (omega (arith, h, room))
            ∙ zero_len r)
          ∙ e,
    )
  where
    zero_len :
        (r : Run)
        → ◌≡◌ {A = Option Buffer}
            (some (record { text = print_run r; len = 0 + length (print_run r) }))
            (some (record { text = print_run r; len = length (print_run r) }))
    zero_len r = ap (λ (m : ℕ). some (record { text = print_run r; len = m })) (omega arith)

pub to_rangestring_lem :
    (bs : BitSet)
    → IsValid bs
    → bs.nbits < 10 ^ 5
    → ((r : Run) → 0 < length (print_run r))
    → to_rangestring bs ≡ some (print_runs (all_runs bs))
unfolding to_rangestring
to_rangestring_lem bs v l k =
    let small : bs.nbits < 2 ^ 31 = omega (arith, l) in
    let fits =
      length-print_more-le 0 bs.nbits (all_runs bs) (all_runs-InBounds bs v small)
        (all_runs-IsSpread bs v small) l (omega arith) in
    let (n, e) = write_all (buffer_size bs) (all_runs bs) (omega (arith, fits)) k in ap text_of e
  where
    text_of : Option Buffer → Option (List ℕ)
    text_of o = elim o [ none ↦ none | some b ↦ some b.text ]
