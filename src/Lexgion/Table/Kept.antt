-- ===== src/Lexgion/Table/Kept.antt =====
-- lexgion_begin keeps the lexgion table.
use pinsight.Common.{
  ℕ, ◌+◌, ◌<◌, Option, none, some, List, get_elem?, ◌==◌, ◌≡◌, refl, arith, ◌∙◌, Bool-cases, inl,
  inr, sym, modify, length-modify, modify-back,
}
use pinsight.Lexgion.{Lexgion, ThreadData}
use pinsight.Lexgion.Stack.{push_lexgion}
use pinsight.Lexgion.Table.{
  has_key, find_lexgion, fresh, executed, counter_at, enter, add_lexgion, begin_at, lexgion_begin,
}
use pinsight.Lexgion.Table.Find.{FoundIn, IsKeyed, IsTable, find_lexgion-FoundIn}

-- What a push leaves alone.
push_lexgion-table :
    (max_depth : ℕ) (lgp : Option ℕ) (id : ℕ) (td : ThreadData)
    → let td' = (push_lexgion max_depth lgp id td).0 in
      (td'.lexgions ≡ td.lexgions)
      × (td'.num_lexgions ≡ td.num_lexgions)
      × (td'.recent_lexgion ≡ td.recent_lexgion)
unfolding push_lexgion
push_lexgion-table max_depth lgp id td = ground arith

-- One more execution keeps the keys.
pub executed-back :
    (xs : List Lexgion) (i j : ℕ) (a : Lexgion)
    → get_elem? (modify xs i executed) j ≡ some a
    → (b : Lexgion) × (get_elem? xs j ≡ some b)
      × (b.cls ≡ a.cls)
      × (b.type ≡ a.type)
      × (b.codeptr_ra ≡ a.codeptr_ra)
unfolding executed
executed-back xs i j a h = elim (modify-back executed xs i j a h) [
  | inl (e, (b, p, q)) ↦ (b, p, ground arith, ground arith, ground arith)
  | inr (n, p) ↦ (a, p, refl, refl, refl)
]

executed-IsKeyed :
    (max num : ℕ) (lexgions : List Lexgion) (i : ℕ)
    → IsKeyed max lexgions num
    → IsKeyed max (modify lexgions i executed) num
executed-IsKeyed max num lexgions i v = record {
  room = length-modify lexgions i executed ∙ v.room;
  fits = v.fits;
  distinct = λ j k a b p q e f h.
      let (a', e', s, s', s'') = executed-back lexgions i j a e in
      let (b', f', t, t', t'') = executed-back lexgions i k b f in
      v.distinct j k a' b' p q e' f' (ground arith);
}

-- A new lexgion in the next slot keeps the table keyed, if its key was not there.
fresh-IsKeyed :
    (max num cls type codeptr : ℕ) (lexgions : List Lexgion)
    → IsKeyed max lexgions num
    → num < max
    → FoundIn (has_key cls type codeptr) lexgions 0 num none
    → IsKeyed max (modify lexgions num (fresh cls type codeptr)) (num + 1)
unfolding fresh
fresh-IsKeyed max num cls type codeptr lexgions v l absent = record {
  room = length-modify lexgions num (fresh cls type codeptr) ∙ v.room;
  fits = omega arith;
  distinct = λ j k a b p q e f h. elim (modify-back (fresh cls type codeptr) lexgions num j a e) [
    | inl (s, x) ↦ elim (modify-back (fresh cls type codeptr) lexgions num k b f) [
      | inl (t, y) ↦ sym s ∙ t
      | inr (t, y) ↦ absurd (ground (arith, absent k b))
    ]
    | inr (s, x) ↦ elim (modify-back (fresh cls type codeptr) lexgions num k b f) [
      | inl (t, y) ↦ absurd (ground (arith, absent j a))
      | inr (t, y) ↦ v.distinct j k a b (omega arith) (omega arith) x y h
    ]
  ];
}

-- The end of lexgion_begin: one more execution of lexgion i, which is now the most recent one.
pub enter-table :
    (max_depth i : ℕ) (td : ThreadData)
    → let td' = (enter max_depth i td).0 in
      (td'.lexgions ≡ modify td.lexgions i executed)
      × (td'.num_lexgions ≡ td.num_lexgions)
      × (td'.recent_lexgion ≡ some i)
unfolding enter
enter-table max_depth i td =
    push_lexgion-table max_depth (some i) (counter_at (modify td.lexgions i executed) i)
      (record td { recent_lexgion = some i; lexgions = modify td.lexgions i executed })

enter-IsTable :
    (max max_depth i : ℕ) (td : ThreadData)
    → IsKeyed max td.lexgions td.num_lexgions
    → i < td.num_lexgions
    → IsTable max (enter max_depth i td).0
enter-IsTable max max_depth i td v l =
    let (lexgions, num, recent) = enter-table max_depth i td in
    record {
      keyed = rw (lexgions, num) (executed-IsKeyed max td.num_lexgions td.lexgions i v);
      recent_in = λ r p. ground arith;
      recent_there = λ p. cc;
    }

begin_at-IsTable :
    (max max_depth cls type codeptr : ℕ) (td : ThreadData) (res : Option ℕ)
    → IsTable max td
    → FoundIn (has_key cls type codeptr) td.lexgions 0 td.num_lexgions res
    → IsTable max (begin_at max max_depth cls type codeptr td res).0
unfolding begin_at add_lexgion
begin_at-IsTable max max_depth cls type codeptr td (some i) v h =
    enter-IsTable max max_depth i td v.keyed h.1
begin_at-IsTable max max_depth cls type codeptr td none v h =
    elim (Bool-cases (td.num_lexgions == max)) [
      | inl full ↦ rw full v
      | inr room ↦ rw room (
          enter-IsTable max max_depth td.num_lexgions (add_lexgion cls type codeptr td)
            (fresh-IsKeyed max td.num_lexgions cls type codeptr td.lexgions v.keyed
              (ground (arith, v.keyed.fits)) h)
            (omega arith))
    ]

-- lexgion_begin keeps the lexgion table, whether it finds the lexgion, adds it or gives up.
pub lexgion_begin-IsTable :
    (max max_depth cls type codeptr : ℕ) (td : ThreadData)
    → IsTable max td
    → IsTable max (lexgion_begin max max_depth cls type codeptr td).0
unfolding lexgion_begin
lexgion_begin-IsTable max max_depth cls type codeptr td v =
    begin_at-IsTable max max_depth cls type codeptr td (find_lexgion cls type codeptr td) v
      (find_lexgion-FoundIn max cls type codeptr td v)
