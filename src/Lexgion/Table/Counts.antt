-- ===== src/Lexgion/Table/Counts.antt =====
-- lexgion_begin counts the executions of every lexgion.
use pinsight.Common.{
  ℕ, ◌+◌, ◌<◌, Bool, true, false, ◌&&◌, Option, none, some, List, get_elem?, ◌==◌, if◌then◌else◌,
  ◌≡◌, refl, arith, ◌∙◌, Bool-cases, Option-cases, inl, inr, ◌≢◌, ◌⊎◌, subst, modify,
  get_elem?-modify_self, get_elem?-modify_ne, get_elem?-in_range, modify-back,
}
use pinsight.Lexgion.{Lexgion, ThreadData, u32}
use pinsight.Lexgion.Table.{
  has_key, find_lexgion, fresh, executed, counter_at, enter, add_lexgion, begin_at, lexgion_begin,
}
use pinsight.Lexgion.Table.Find.{FoundIn, IsTable, find_lexgion-FoundIn, find_lexgion-at}
use pinsight.Lexgion.Table.Kept.{executed-back, enter-table, lexgion_begin-IsTable}

-- How often a thread has executed the lexgion with a key: 0 if its table does not have it.
abbrev pub executions : ℕ → ℕ → ℕ → ThreadData → ℕ
executions cls type codeptr td = elim (find_lexgion cls type codeptr td) [
  | none ↦ 0
  | some i ↦ counter_at td.lexgions i
]

-- The count of a key in a table, as a relation: the key is not there and the count is 0, or some
-- slot has the key and the count.
abbrev Counts : ℕ → ℕ → ℕ → List Lexgion → ℕ → ℕ → Type 0
Counts cls type codeptr lexgions num n =
    (FoundIn (has_key cls type codeptr) lexgions 0 num none × (n ≡ 0))
    ⊎ ((i : ℕ) × (i < num)
        × ((lg : Lexgion) × (get_elem? lexgions i ≡ some lg)
            × (has_key cls type codeptr lg ≡ true)
            × (lg.counter ≡ n)))

Counts-executions :
    (max cls type codeptr : ℕ) (td : ThreadData)
    → IsTable max td
    → Counts cls type codeptr td.lexgions td.num_lexgions (executions cls type codeptr td)
Counts-executions max cls type codeptr td v =
    elim (Option-cases (find_lexgion cls type codeptr td)) [
      | inl p ↦ inl (
        subst (FoundIn (has_key cls type codeptr) td.lexgions 0 td.num_lexgions) p
            (find_lexgion-FoundIn max cls type codeptr td v),
        ground arith,
      )
      | inr (i, p) ↦
          let h : FoundIn (has_key cls type codeptr) td.lexgions 0 td.num_lexgions (some i) =
            subst (FoundIn (has_key cls type codeptr) td.lexgions 0 td.num_lexgions) p
              (find_lexgion-FoundIn max cls type codeptr td v) in
          let (lg, e, k) = h.2 in inr (i, h.1, (lg, e, k, ground arith))
    ]

executions-Counts :
    (max cls type codeptr n : ℕ) (td : ThreadData)
    → IsTable max td
    → Counts cls type codeptr td.lexgions td.num_lexgions n
    → executions cls type codeptr td ≡ n
executions-Counts max cls type codeptr n td v (inr (i, l, (lg, e, k, c))) =
    ground (arith, find_lexgion-at max cls type codeptr td i lg v l e k)
executions-Counts max cls type codeptr n td v (inl (absent, z)) =
    elim (Option-cases (find_lexgion cls type codeptr td)) [
      | inl p ↦ ground arith
      | inr (i, p) ↦
          let h : FoundIn (has_key cls type codeptr) td.lexgions 0 td.num_lexgions (some i) =
            subst (FoundIn (has_key cls type codeptr) td.lexgions 0 td.num_lexgions) p
              (find_lexgion-FoundIn max cls type codeptr td v) in
          let (lg, e, k) = h.2 in absurd (cc (absent i lg (omega arith) h.1 e))
    ]

-- One more execution of slot i, seen by its own key and by any other.
Counts-own :
    (cls type codeptr num i : ℕ) (xs : List Lexgion) (lg : Lexgion)
    → i < num
    → get_elem? xs i ≡ some lg
    → has_key cls type codeptr lg ≡ true
    → Counts cls type codeptr (modify xs i executed) num (u32 (lg.counter + 1))
unfolding executed
Counts-own cls type codeptr num i xs lg l e k =
    inr (i, l, (executed lg, get_elem?-modify_self xs i executed lg e, k, refl))

Counts-other :
    (cls type codeptr num i n : ℕ) (xs : List Lexgion) (lg : Lexgion)
    → get_elem? xs i ≡ some lg
    → has_key cls type codeptr lg ≡ false
    → Counts cls type codeptr xs num n
    → Counts cls type codeptr (modify xs i executed) num n
Counts-other cls type codeptr num i n xs lg e k (inl (absent, z)) = inl (
  (λ j a p q f.
      let (b, g, s, s', s'') = executed-back xs i j a f in ground (arith, absent j b p q g)),
  z,
)
Counts-other cls type codeptr num i n xs lg e k (inr (j, l, (a, f, h, c))) =
    elim (Bool-cases (i == j)) [
      | inl s ↦
          let t : i ≡ j = ground arith in
          absurd (let u : get_elem? xs j ≡ some lg = rw (← t) e in ground arith)
      | inr s ↦ inr (j, l, (a, get_elem?-modify_ne xs i j executed (ground arith) ∙ f, h, c))
    ]

abbrev pub same_key : ℕ → ℕ → ℕ → ℕ → ℕ → ℕ → Bool
same_key cls type codeptr cls' type' codeptr' =
    (cls == cls') && (type == type') && (codeptr == codeptr')

-- A new lexgion in slot num, seen by another key.
Counts-fresh :
    (cls type codeptr cls' type' codeptr' num n : ℕ) (xs : List Lexgion)
    → same_key cls type codeptr cls' type' codeptr' ≡ false
    → Counts cls' type' codeptr' xs num n
    → Counts cls' type' codeptr' (modify xs num (fresh cls type codeptr)) (num + 1) n
unfolding fresh
Counts-fresh cls type codeptr cls' type' codeptr' num n xs k (inl (absent, z)) = inl (
  (λ j a p q f. elim (modify-back (fresh cls type codeptr) xs num j a f) [
    | inl (s, (b, g, t)) ↦ ground arith
    | inr (s, g) ↦ absent j a p (omega arith) g
  ]),
  z,
)
Counts-fresh cls type codeptr cls' type' codeptr' num n xs k (inr (j, l, (a, f, h, c))) = inr (
  j,
  omega arith,
  (a, get_elem?-modify_ne xs num j (fresh cls type codeptr) (omega arith) ∙ f, h, c),
)

-- What one more execution of slot i does to the count of every key.
Counts-enter :
    (max_depth cls type codeptr cls' type' codeptr' i m n : ℕ) (td : ThreadData) (lg : Lexgion)
    → i < td.num_lexgions
    → get_elem? td.lexgions i ≡ some lg
    → has_key cls type codeptr lg ≡ true
    → lg.counter ≡ m
    → Counts cls' type' codeptr' td.lexgions td.num_lexgions n
    → Counts cls' type' codeptr'
        (enter max_depth i td).0.lexgions
        (enter max_depth i td).0.num_lexgions
        (if same_key cls type codeptr cls' type' codeptr' then u32 (m + 1) else n)
Counts-enter max_depth cls type codeptr cls' type' codeptr' i m n td lg l e k c h =
    let (lexgions, num, recent) = enter-table max_depth i td in
    elim (Bool-cases (same_key cls type codeptr cls' type' codeptr')) [
      | inl s ↦
          rw (lexgions, num, s, ← c)
            (Counts-own cls' type' codeptr' td.num_lexgions i td.lexgions lg l e (ground arith))
      | inr s ↦
          rw (lexgions, num, s)
            (Counts-other cls' type' codeptr' td.num_lexgions i n td.lexgions lg e (ground arith) h)
    ]

begin_at-Counts :
    (max max_depth cls type codeptr cls' type' codeptr' n : ℕ) (td : ThreadData) (res : Option ℕ)
    → IsTable max td
    → FoundIn (has_key cls type codeptr) td.lexgions 0 td.num_lexgions res
    → (td.num_lexgions < max) ⊎ (res ≢ none)
    → Counts cls' type' codeptr' td.lexgions td.num_lexgions n
    → let td' = (begin_at max max_depth cls type codeptr td res).0 in
      Counts cls' type' codeptr' td'.lexgions td'.num_lexgions (
        if same_key cls type codeptr cls' type' codeptr'
        then u32 (elim res [ none ↦ 0 | some i ↦ counter_at td.lexgions i ] + 1)
        else n)
unfolding begin_at add_lexgion
begin_at-Counts max max_depth cls type codeptr cls' type' codeptr' n td (some i) v h room c =
    let (lg, e, k) = h.2 in
    Counts-enter max_depth cls type codeptr cls' type' codeptr' i (counter_at td.lexgions i) n td lg
      h.1 e k (ground arith) c
begin_at-Counts max max_depth cls type codeptr cls' type' codeptr' n td none v h (inr k) c =
    absurd (k refl)
begin_at-Counts max max_depth cls type codeptr cls' type' codeptr' n td none v h (inl room) c =
    let num = td.num_lexgions in
    let td1 = add_lexgion cls type codeptr td in
    let (lg, e) = get_elem?-in_range td.lexgions num (omega (arith, v.keyed.room)) in
    let new = fresh cls type codeptr lg in
    let f = get_elem?-modify_self td.lexgions num (fresh cls type codeptr) lg e in
    let key : has_key cls type codeptr new ≡ true = unfold fresh in ground arith in
    let zero_count : new.counter ≡ 0 = unfold fresh in refl in
    let vacant : (num == max) ≡ false = ground arith in
    elim (Bool-cases (same_key cls type codeptr cls' type' codeptr')) [
      | inl s ↦
          let key' : has_key cls' type' codeptr' new ≡ true = unfold fresh in ground arith in
          rw (vacant, s)
            (let r =
                Counts-enter max_depth cls type codeptr cls' type' codeptr' num 0 0 td1 new
                  (omega arith) f key zero_count
                  (inr (num, omega arith, (new, f, key', zero_count))) in
              rw s at r)
      | inr s ↦ rw vacant (
          Counts-enter max_depth cls type codeptr cls' type' codeptr' num 0 n td1 new (omega arith)
            f key zero_count
            (Counts-fresh cls type codeptr cls' type' codeptr' num n td.lexgions s c))
    ]

-- Where the table has room or already has the lexgion, lexgion_begin counts one more execution of
-- the lexgion with its key, as an unsigned int, and leaves the count of every other key as it was.
pub lexgion_begin-executions :
    (max max_depth cls type codeptr cls' type' codeptr' : ℕ) (td : ThreadData)
    → IsTable max td
    → (td.num_lexgions < max) ⊎ (find_lexgion cls type codeptr td ≢ none)
    → executions cls' type' codeptr' (lexgion_begin max max_depth cls type codeptr td).0 ≡ (
        if same_key cls type codeptr cls' type' codeptr'
        then u32 (executions cls type codeptr td + 1)
        else executions cls' type' codeptr' td)
lexgion_begin-executions max max_depth cls type codeptr cls' type' codeptr' td v room =
    executions-Counts max cls' type' codeptr' _ (lexgion_begin max max_depth cls type codeptr td).0
      (lexgion_begin-IsTable max max_depth cls type codeptr td v)
      (unfold lexgion_begin in
        begin_at-Counts max max_depth cls type codeptr cls' type' codeptr'
          (executions cls' type' codeptr' td) td (find_lexgion cls type codeptr td) v
          (find_lexgion-FoundIn max cls type codeptr td v) room
          (Counts-executions max cls' type' codeptr' td v))

-- With the table full and the key not in it, lexgion_begin changes nothing and returns NULL.
pub lexgion_begin-full :
    (max max_depth cls type codeptr : ℕ) (td : ThreadData)
    → td.num_lexgions ≡ max
    → find_lexgion cls type codeptr td ≡ none
    → lexgion_begin max max_depth cls type codeptr td ≡ (td, none)
unfolding lexgion_begin begin_at
lexgion_begin-full max max_depth cls type codeptr td full absent = rw absent (ground arith)
