-- ===== src/Lexgion/Stack/Links.antt =====
-- The invariant of the record stack: record k links to record k - 1, and the current record is
-- the last one pushed. Popping follows the links.
use pinsight.Common.{
  ℕ, zero, suc, ◌+◌, ◌≤◌, ◌<◌, Bool, true, false, Option, none, some, List, get_elem?, length, ◌==◌,
  same, ◌≡◌, refl, arith, ◌∙◌, Bool-cases, inl, inr, sym, subst,
}
use pinsight.Lexgion.{LexgionRecord, ThreadData}
use pinsight.Lexgion.Stack.{Popped, pop_lexgion, walk, pop_until, nothing_popped, init_thread_data}

-- The pointer to the record below record n.
abbrev pub link : ℕ → Option ℕ
link zero = none
link (suc k) = some k

-- Record k is there and links to record k - 1.
abbrev pub Linked : List LexgionRecord → ℕ → Type 0
Linked rs k = (r : LexgionRecord) × (get_elem? rs k ≡ some r) × (r.parent ≡ link k)

pub record IsStack (max_depth : ℕ) (td : ThreadData) : Type 0 where
  pub room : length td.lexgion_stack ≡ max_depth
  pub fits : td.stack_size ≤ max_depth
  pub current : td.current_record ≡ link td.stack_size
  pub linked : (k : ℕ) → k < td.stack_size → Linked td.lexgion_stack k

-- A thread's stack cut down to its n lowest records.
abbrev pub cut : ThreadData → ℕ → ThreadData
cut td n = record td { current_record = link n; stack_size = n }

pub cut-IsStack :
    {max_depth : ℕ} {td : ThreadData} (n : ℕ)
    → IsStack max_depth td
    → n ≤ td.stack_size
    → IsStack max_depth (cut td n)
cut-IsStack n v h = record {
  room = v.room;
  fits = omega (arith, v.fits);
  current = refl;
  linked = λ k l. v.linked k (omega arith);
}

-- What popping record k yields.
abbrev pub popped_at : ThreadData → ℕ → Popped
popped_at td k = elim (get_elem? td.lexgion_stack k) [
  | none ↦ nothing_popped
  | some r ↦ record { lgp = r.lgp; record_id = some r.record_id }
]

pub pop-cut :
    (td : ThreadData) (k : ℕ)
    → Linked td.lexgion_stack k
    → pop_lexgion (cut td (suc k)) ≡ (cut td k, popped_at td k)
unfolding pop_lexgion
pop-cut td k l = ground arith

same-link : (m k : ℕ) → same (link m) (link k) ≡ (m == k)
same-link zero zero = refl
same-link zero (suc k) = ground arith
same-link (suc m) zero = ground arith
same-link (suc m) (suc k) = ground arith

pop_until-stops :
    (fuel k : ℕ) (td : ThreadData) (last : Popped)
    → pop_until fuel (link k) (cut td k) last ≡ (cut td k, last)
unfolding pop_until
pop_until-stops zero k td last = refl
pop_until-stops (suc fuel) k td last = ground (arith, same-link k k)

pop_until-step :
    (fuel m k : ℕ) (td : ThreadData) (last : Popped)
    → Linked td.lexgion_stack m
    → k < suc m
    → pop_until (suc fuel) (link k) (cut td (suc m)) last
      ≡ pop_until fuel (link k) (cut td m) (popped_at td m)
unfolding pop_until
pop_until-step fuel m k td last l h = ground (arith, same-link (suc m) k, pop-cut td m l)

-- The loop of lexgion_end_match from m records down to k of them: record k is popped last.
pub pop_until-cut :
    (fuel m k : ℕ) (td : ThreadData) (last : Popped)
    → ((j : ℕ) → j < m → Linked td.lexgion_stack j)
    → k < m
    → m ≤ k + fuel
    → pop_until fuel (link k) (cut td m) last ≡ (cut td k, popped_at td k)
pop_until-cut fuel zero k td last l h e = absurd (omega arith)
pop_until-cut zero (suc m) k td last l h e = absurd (omega arith)
pop_until-cut (suc fuel) (suc m) k td last l h e =
    pop_until-step fuel m k td last (l m (omega arith)) h ∙ elim (Bool-cases (k == m)) [
      | inl p ↦
          let q : k ≡ m = ground arith in
          subst
            (λ (j : ℕ).
              pop_until fuel (link j) (cut td m) (popped_at td m) ≡ (cut td j, popped_at td j))
            (sym q) (pop_until-stops fuel m td (popped_at td m))
      | inr p ↦
          pop_until-cut fuel m k td (popped_at td m) (λ j q. l j (omega arith)) (ground arith)
            (omega arith)
    ]

-- What a search down the links finds, as a search over the record numbers below n.
unfoldable pub seek : (Option ℕ → Bool) → List LexgionRecord → ℕ → Option ℕ
seek found rs zero = none
seek found rs (suc k) = elim (get_elem? rs k) [
  | none ↦ none
  | some r ↦ elim (found r.lgp) [ true ↦ some k | false ↦ seek found rs k ]
]

pub walk-seek :
    (found : Option ℕ → Bool) (td : ThreadData) (n : ℕ)
    → ((j : ℕ) → j < n → Linked td.lexgion_stack j)
    → walk found td n (link n) ≡ seek found td.lexgion_stack n
unfolding walk seek
walk-seek found td zero l = refl
walk-seek found td (suc n) l =
    ground (arith, l n (omega arith), walk-seek found td n (λ j q. l j (omega arith)))

-- init_thread_data empties the stack; a push that is not on a full stack and a pop keep it linked.
pub init_thread_data-IsStack :
    (max_depth n : ℕ) (td : ThreadData)
    → length td.lexgion_stack ≡ max_depth
    → IsStack max_depth (init_thread_data n td)
unfolding init_thread_data
init_thread_data-IsStack max_depth n td h = record {
  room = h;
  fits = omega arith;
  current = refl;
  linked = λ k l. absurd (omega arith);
}

pub cut_self : {max_depth : ℕ} (td : ThreadData) → IsStack max_depth td → cut td td.stack_size ≡ td
cut_self td v = rw (← v.current)
