-- ===== src/Knobs/Laws.antt =====
-- A knob that was set is found again with its value, the others keep theirs, and the table keeps
-- its bound.
use pinsight.Common.{
  ℕ, zero, suc, ◌+◌, ◌≤◌, ◌<◌, Bool, true, false, Option, none, some, List, [], ◌∷◌, ◌++◌, length,
  get_elem?, leb, ◌≡◌, refl, arith, inl, inr, Option-cases, Bool-cases, length-append, sym, ap, ◌∙◌,
  str_eq, subst, modify, ◌-◌, get_elem?-modify_self, get_elem?-modify_ne, ◌==◌, if◌then◌else◌,
}
use pinsight.Node.{take}
use pinsight.Knobs.{
  AppKnob, KnobType, KnobValue, find_knob, find_from, find_or_create_knob, set_value, with_value,
  look_up_knob, value_at, zero_value,
}

abbrev pub SameBound : List AppKnob → List AppKnob → Type 0
SameBound ks ls = (length ks ≤ length ls) × (length ks ≤ 64 → length ls ≤ 64)

pub find_or_create_knob-SameBound :
    (ks : List AppKnob) (name : List ℕ) (type : KnobType)
    → SameBound ks (find_or_create_knob ks name type).0
unfolding find_or_create_knob
find_or_create_knob-SameBound ks name type = elim (Option-cases (find_knob ks name)) [
  | inr (i, e) ↦ rw (e, find_or_create_knob) (omega arith, λ h. h)
  | inl e ↦ elim (Bool-cases (leb 64 (length ks))) [
    | inl p ↦ rw (e, find_or_create_knob, p) (omega arith, λ h. h)
    | inr p ↦
        let more =
          length-append ks (record { name = take 63 name; value = zero_value type } ∷ []) in
        rw (e, find_or_create_knob, p) (omega (arith, more), λ h. ground (arith, more))
  ]
]

-- The values do not matter to a search.
find_from-modify :
    (name : List ℕ) (ks : List AppKnob) (i a : ℕ) (v : KnobValue)
    → find_from name (modify ks i (with_value v)) a ≡ find_from name ks a
unfolding find_from
find_from-modify name [] i a v = refl
find_from-modify name (k ∷ ks) zero a v = refl
find_from-modify name (k ∷ ks) (suc i) a v = rw (find_from-modify name ks i (a + 1) v) refl

some_inj : {a b : AppKnob} → some a ≡ some b → a ≡ b
some_inj h = cc

true-false : true ≡ false → ⊥
true-false h = cc

-- The entry that a search finds.
record Found (name : List ℕ) (ks : List AppKnob) (a i : ℕ) : Type 0 where
  knob : AppKnob
  above : a ≤ i
  there : get_elem? ks (i - a) ≡ some knob
  named : str_eq knob.name name ≡ true

find_from-Found :
    (name : List ℕ) (ks : List AppKnob) (a i : ℕ) → find_from name ks a ≡ some i → Found name ks a i
unfolding find_from
find_from-Found name [] a i h = cc
find_from-Found name (k ∷ ks) a i h = elim (Bool-cases (str_eq k.name name)) [
  | inl p ↦
      let e : a ≡ i = ground (arith, p) in
      let z : i - a ≡ 0 = omega arith in
      record { knob = k; above = omega arith; there = rw z refl; named = p }
  | inr p ↦
      let f : find_from name ks (a + 1) ≡ some i = ground (arith, p) in
      let r = find_from-Found name ks (a + 1) i f in
      let s : i - a ≡ suc (i - (a + 1)) = omega (arith, r.above) in
      record {
        knob = r.knob;
        above = omega (arith, r.above);
        there = rw s r.there;
        named = r.named;
      }
]

str_eq_sound : (s t : List ℕ) → str_eq s t ≡ true → s ≡ t
unfolding str_eq
str_eq_sound [] [] h = refl
str_eq_sound [] (d ∷ t) h = cc
str_eq_sound (c ∷ s) [] h = cc
str_eq_sound (c ∷ s) (d ∷ t) h =
    let e : c ≡ d = ground arith in
    let f : str_eq s t ≡ true = ground arith in rw (e, str_eq_sound s t f) refl

str_eq_refl : (s : List ℕ) → str_eq s s ≡ true
unfolding str_eq
str_eq_refl [] = refl
str_eq_refl (c ∷ s) = ground (arith, str_eq_refl s)

at_index : (ks : List AppKnob) (i : ℕ) → get_elem? ks i ≡ get_elem? ks (i - 0)
at_index ks i = ap (λ (n : ℕ). get_elem? ks n) (omega arith)

value_at-some :
    (ks : List AppKnob) (i : ℕ) (k : AppKnob)
    → get_elem? ks i ≡ some k
    → value_at ks (some i) ≡ some k.value
value_at-some ks i k h = rw (h, value_at) refl

value_at-same :
    (ks ls : List AppKnob) (i : ℕ)
    → get_elem? ks i ≡ get_elem? ls i
    → value_at ks (some i) ≡ value_at ls (some i)
value_at-same ks ls i h = rw (h, value_at) refl

-- A value that is stored where a name was found.
look_up-set_value :
    (ks : List AppKnob) (name : List ℕ) (i : ℕ) (v : KnobValue)
    → find_knob ks name ≡ some i
    → look_up_knob (set_value ks i v) name ≡ some v
unfolding look_up_knob find_knob
look_up-set_value ks name i v h =
    let r = find_from-Found name ks 0 i h in
    rw (find_from-modify name ks i 0 v, h)
      (value_at-some (set_value ks i v) i (with_value v r.knob)
        (get_elem?-modify_self ks i (with_value v) r.knob (at_index ks i ∙ r.there)))

-- Two names that are found at one entry are equal.
same_entry :
    (ks : List AppKnob) (name other : List ℕ) (i : ℕ)
    → Found name ks 0 i
    → Found other ks 0 i
    → str_eq name other ≡ true
same_entry ks name other i r q =
    let k : r.knob ≡ q.knob = some_inj (sym r.there ∙ q.there) in
    let n : name ≡ other =
      sym (str_eq_sound r.knob.name name r.named)
      ∙ ap (λ (b : AppKnob). b.name) k
      ∙ str_eq_sound q.knob.name other q.named in
    subst (λ (o : List ℕ). str_eq name o ≡ true) n (str_eq_refl name)

look_up-set_value_other :
    (ks : List AppKnob) (name other : List ℕ) (i : ℕ) (v : KnobValue)
    → find_knob ks name ≡ some i
    → str_eq name other ≡ false
    → look_up_knob (set_value ks i v) other ≡ look_up_knob ks other
unfolding look_up_knob find_knob
look_up-set_value_other ks name other i v h n = elim (Option-cases (find_from other ks 0)) [
  | inl e ↦ rw (find_from-modify other ks i 0 v, e) refl
  | inr (j, e) ↦ elim (Bool-cases (i == j)) [
    | inl p ↦
        let s : i ≡ j = ground arith in
        absurd (
          true-false (
            sym (
              same_entry ks name other i (find_from-Found name ks 0 i h)
                (find_from-Found other ks 0 i (e ∙ ap (λ (m : ℕ). some m) (sym s))))
            ∙ n))
    | inr p ↦
        rw (find_from-modify other ks i 0 v, e)
          (value_at-same (set_value ks i v) ks j
            (get_elem?-modify_ne ks i j (with_value v) (λ s. ground (arith, p, s))))
  ]
]

both_options :
    (b : Bool) {i j : ℕ} → i ≡ j → (if b then some i else none) ≡ (if b then some j else none)
both_options b e = ap (λ (n : ℕ). if b then some n else none) e

-- An entry behind the table.
find_from-append :
    (name : List ℕ) (ks : List AppKnob) (k : AppKnob) (a : ℕ)
    → find_from name (ks ++ k ∷ []) a ≡ (elim (find_from name ks a) [
      | some i ↦ some i
      | none ↦ if str_eq k.name name then some (a + length ks) else none
    ])
unfolding find_from
find_from-append name [] k a = elim (Bool-cases (str_eq k.name name)) [
  | inl p ↦ rw p (ap (λ (n : ℕ). some n) (omega arith))
  | inr p ↦ rw p refl
]
find_from-append name (b ∷ ks) k a = elim (Bool-cases (str_eq b.name name)) [
  | inl p ↦ rw p refl
  | inr p ↦ elim (Option-cases (find_from name ks (a + 1))) [
    | inr (i, e) ↦ rw (p, find_from-append name ks k (a + 1), e) refl
    | inl e ↦
        rw (p, find_from-append name ks k (a + 1), e)
          (both_options (str_eq k.name name) (omega arith))
  ]
]

-- The entry of a name, found or created, as the search sees it.
pub record Stored (ks : List AppKnob) (name : List ℕ) (r : List AppKnob × Option ℕ) : Type 0 where
  pub index : ℕ
  pub given : r.1 ≡ some index
  pub found : find_knob r.0 name ≡ some index
  pub others :
      (other : List ℕ) → str_eq name other ≡ false → look_up_knob r.0 other ≡ look_up_knob ks other

-- A name of at most n characters is kept whole.
take_all : (n : ℕ) (s : List ℕ) → length s ≤ n → take n s ≡ s
take_all zero [] h = refl
take_all zero (c ∷ s) h = absurd (omega arith)
take_all (suc n) [] h = refl
take_all (suc n) (c ∷ s) h = ap (λ (t : List ℕ). c ∷ t) (take_all n s (omega arith))

get_elem?-append :
    (ks ls : List AppKnob) (i : ℕ) (k : AppKnob)
    → get_elem? ks i ≡ some k
    → get_elem? (ks ++ ls) i ≡ some k
get_elem?-append [] ls i k h = cc
get_elem?-append (b ∷ ks) ls zero k h = h
get_elem?-append (b ∷ ks) ls (suc i) k h = get_elem?-append ks ls i k h

look_up-append_other :
    (ks : List AppKnob) (k : AppKnob) (other : List ℕ)
    → str_eq k.name other ≡ false
    → look_up_knob (ks ++ k ∷ []) other ≡ look_up_knob ks other
unfolding look_up_knob find_knob
look_up-append_other ks k other h = elim (Option-cases (find_from other ks 0)) [
  | inl e ↦ rw (find_from-append other ks k 0, e, h) refl
  | inr (i, e) ↦
      let r = find_from-Found other ks 0 i e in
      let t = at_index ks i ∙ r.there in
      rw (find_from-append other ks k 0, e)
        (value_at-same (ks ++ k ∷ []) ks i (get_elem?-append ks (k ∷ []) i r.knob t ∙ sym t))
]

find_knob-append :
    (ks : List AppKnob) (k : AppKnob) (name : List ℕ)
    → find_knob ks name ≡ none
    → str_eq k.name name ≡ true
    → find_knob (ks ++ k ∷ []) name ≡ some (length ks)
unfolding find_knob
find_knob-append ks k name e h =
    rw (find_from-append name ks k 0, e, h) (ap (λ (n : ℕ). some n) (omega arith))

pub find_or_create_knob-Stored :
    (ks : List AppKnob) (name : List ℕ) (type : KnobType)
    → length name ≤ 63
    → length ks < 64
    → Stored ks name (find_or_create_knob ks name type)
unfolding find_or_create_knob
find_or_create_knob-Stored ks name type h l = elim (Option-cases (find_knob ks name)) [
  | inr (i, e) ↦
      rw (e, find_or_create_knob)
        (record { index = i; given = refl; found = e; others = λ other n. refl })
  | inl e ↦
      let k : AppKnob = record { name = take 63 name; value = zero_value type } in
      let f : leb 64 (length ks) ≡ false = ground arith in
      let n : str_eq k.name name ≡ true = rw (take_all 63 name h) (str_eq_refl name) in
      rw (e, find_or_create_knob, f)
        (record {
          index = length ks;
          given = refl;
          found = find_knob-append ks k name e n;
          others = λ other m. look_up-append_other ks k other (rw (take_all 63 name h) m);
        })
]

-- A value that is stored in the entry of a name.
pub values_after :
    (ks ls : List AppKnob) (name : List ℕ) (o : Option ℕ) (s : Stored ks name (ls, o))
    (v : KnobValue)
    → (look_up_knob (set_value ls s.index v) name ≡ some v)
      × ((other : List ℕ)
          → str_eq name other ≡ false
          → look_up_knob (set_value ls s.index v) other ≡ look_up_knob ks other)
values_after ks ls name o s v = (
  look_up-set_value ls name s.index v s.found,
  λ other n. look_up-set_value_other ls name other s.index v s.found n ∙ s.others other n,
)
