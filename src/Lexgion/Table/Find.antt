-- ===== src/Lexgion/Table/Find.antt =====
-- The search of the lexgion table is complete, although it starts in the middle.
use pinsight.Common.{
  ℕ, zero, suc, ◌+◌, ◌-◌, ◌≤◌, ◌<◌, Bool, true, false, Option, none, some, List, get_elem?, length,
  ◌==◌, ◌≡◌, arith, ap, Bool-cases, Option-cases, inl, inr, ltb,
}
use pinsight.Lexgion.{Lexgion, ThreadData}
use pinsight.Lexgion.Table.{has_key, find_from, or_else, find_lexgion}

-- The result of a search of the slots lo..hi-1.
abbrev pub FoundIn : (Lexgion → Bool) → List Lexgion → ℕ → ℕ → Option ℕ → Type 0
FoundIn found lexgions lo hi none =
    (k : ℕ) (lg : Lexgion) → lo ≤ k → k < hi → get_elem? lexgions k ≡ some lg → found lg ≡ false
FoundIn found lexgions lo hi (some i) =
    (lo ≤ i) × (i < hi) × ((lg : Lexgion) × (get_elem? lexgions i ≡ some lg) × (found lg ≡ true))

FoundIn-miss :
    (found : Lexgion → Bool) (xs : List Lexgion) (lo hi : ℕ) (res : Option ℕ)
    → ((lg : Lexgion) → get_elem? xs lo ≡ some lg → found lg ≡ false)
    → FoundIn found xs (lo + 1) hi res
    → FoundIn found xs lo hi res
FoundIn-miss found xs lo hi none m h = λ k lg p q e. elim (Bool-cases (lo == k)) [
  | inl s ↦ m lg (let s' : lo ≡ k = ground arith in rw s' e)
  | inr s ↦ h k lg (ground arith) q e
]
FoundIn-miss found xs lo hi (some i) m h = (omega arith, h.1, h.2)

find_from-FoundIn :
    (found : Lexgion → Bool) (xs : List Lexgion) (i left hi : ℕ)
    → i + left ≡ hi
    → FoundIn found xs i hi (find_from found xs i left)
unfolding find_from
find_from-FoundIn found xs i zero hi e = λ k lg p q. absurd (omega arith)
find_from-FoundIn found xs i (suc left) hi e = elim (Option-cases (get_elem? xs i)) [
  | inl p ↦
      rw (p, find_from)
        (FoundIn-miss found xs i hi (find_from found xs (i + 1) left) (λ lg q. cc)
          (find_from-FoundIn found xs (i + 1) left hi (omega arith)))
  | inr (lg, p) ↦ elim (Bool-cases (found lg)) [
    | inl f ↦ rw (p, find_from, f) (omega arith, omega arith, (lg, p, f))
    | inr f ↦
        rw (p, find_from, f)
          (FoundIn-miss found xs i hi (find_from found xs (i + 1) left)
            (λ lg' q. let s : lg ≡ lg' = cc in rw s at f)
            (find_from-FoundIn found xs (i + 1) left hi (omega arith)))
  ]
]

or_else-FoundIn :
    (found : Lexgion → Bool) (xs : List Lexgion) (mid hi : ℕ) (first second : Option ℕ)
    → mid ≤ hi
    → FoundIn found xs mid hi first
    → FoundIn found xs 0 mid second
    → FoundIn found xs 0 hi (or_else first second)
or_else-FoundIn found xs mid hi (some i) second l f s = (omega arith, f.1, f.2)
or_else-FoundIn found xs mid hi none (some i) l f s = (omega arith, omega arith, s.2)
or_else-FoundIn found xs mid hi none none l f s = λ k lg p q e. elim (Bool-cases (ltb k mid)) [
  | inl t ↦ s k lg p (ground arith) e
  | inr t ↦ f k lg (ground arith) q e
]

-- A table of `num` lexgions with no key twice, in an array of its size.
pub record IsKeyed (max_num_lexgions : ℕ) (lexgions : List Lexgion) (num : ℕ) : Type 0 where
  pub room : length lexgions ≡ max_num_lexgions
  pub fits : num ≤ max_num_lexgions
  pub distinct :
      (i j : ℕ) (a b : Lexgion)
      → i < num
      → j < num
      → get_elem? lexgions i ≡ some a
      → get_elem? lexgions j ≡ some b
      → has_key a.cls a.type a.codeptr_ra b ≡ true
      → i ≡ j

-- The lexgion table between two calls: besides, the most recent lexgion is one of the table's,
-- and there is one unless the table is empty.
pub record IsTable (max_num_lexgions : ℕ) (td : ThreadData) : Type 0 where
  pub keyed : IsKeyed max_num_lexgions td.lexgions td.num_lexgions
  pub recent_in : (r : ℕ) → td.recent_lexgion ≡ some r → r < td.num_lexgions
  pub recent_there : td.recent_lexgion ≡ none → td.num_lexgions ≡ 0

-- find_lexgion returns the slot of the lexgion with the key, and NULL exactly where the table
-- has no such lexgion.
pub find_lexgion-FoundIn :
    (max_num_lexgions cls type codeptr : ℕ) (td : ThreadData)
    → IsTable max_num_lexgions td
    → FoundIn
        (has_key cls type codeptr)
        td.lexgions
        0
        td.num_lexgions
        (find_lexgion cls type codeptr td)
unfolding find_lexgion
find_lexgion-FoundIn max cls type codeptr td v = elim (Option-cases td.recent_lexgion) [
  | inl p ↦ rw (p, find_lexgion) (λ k lg a b. absurd (omega (arith, v.recent_there p)))
  | inr (r, p) ↦ elim (Bool-cases (td.num_lexgions == 0)) [
    | inl z ↦ rw (p, find_lexgion, z) (λ k lg a b. absurd (ground arith))
    | inr z ↦
        let found = has_key cls type codeptr in
        let l : r < td.num_lexgions = v.recent_in r p in
        rw (p, find_lexgion, z)
          (or_else-FoundIn found td.lexgions r td.num_lexgions
            (find_from found td.lexgions r (td.num_lexgions - r)) (find_from found td.lexgions 0 r)
            (omega arith)
            (find_from-FoundIn found td.lexgions r (td.num_lexgions - r) td.num_lexgions
              (omega arith))
            (find_from-FoundIn found td.lexgions 0 r r (omega arith)))
  ]
]

-- The lexgion with a key is found where it stands.
pub find_lexgion-at :
    (max_num_lexgions cls type codeptr : ℕ) (td : ThreadData) (i : ℕ) (lg : Lexgion)
    → IsTable max_num_lexgions td
    → i < td.num_lexgions
    → get_elem? td.lexgions i ≡ some lg
    → has_key cls type codeptr lg ≡ true
    → find_lexgion cls type codeptr td ≡ some i
find_lexgion-at max cls type codeptr td i lg v l e k =
    go (find_lexgion cls type codeptr td) (find_lexgion-FoundIn max cls type codeptr td v)
  where
    go :
        (res : Option ℕ)
        → FoundIn (has_key cls type codeptr) td.lexgions 0 td.num_lexgions res
        → res ≡ some i
    go none h = cc (h i lg (omega arith) l e)
    go (some j) h =
        let (lg', e', k') = h.2 in ap some (v.keyed.distinct j i lg' lg h.1 l e' e (ground arith))
