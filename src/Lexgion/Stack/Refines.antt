-- ===== src/Lexgion/Stack/Refines.antt =====
-- The array of linked records implements a stack of frames: a push adds a frame, a pop takes the
-- top one, and lexgion_end_match unwinds to the topmost frame that matches, or does nothing.
use pinsight.Common.{
  ℕ, zero, suc, ◌+◌, ◌≤◌, ◌<◌, Bool, true, false, Option, none, some, List, [], ◌∷◌, get_elem?, set,
  length, ◌==◌, ◌≡◌, refl, arith, ◌∙◌, length-set, get_elem?-set_self, get_elem?-set_ne, Bool-cases,
  inl, inr, subst,
}
use native.Mathlib.Numerals.{add-one}
use pinsight.Lexgion.{LexgionRecord, ThreadData}
use pinsight.Lexgion.Stack.{
  Popped, push_lexgion, pop_lexgion, nothing_popped, begins_at, has_type, lexgion_end_match,
  top_lexgion_type, unwind_to, parent_of,
}
use pinsight.Lexgion.Stack.Links.{
  link, Linked, IsStack, cut, cut-IsStack, pop-cut, pop_until-cut, seek, walk-seek, cut_self,
}

-- A running lexgion instance: its lexgion and its record id.
abbrev pub Frame : Type 0
Frame = Option ℕ × ℕ

-- The n lowest records as a stack, the newest first.
abbrev pub frames_of : List LexgionRecord → ℕ → List Frame
frames_of rs zero = []
frames_of rs (suc k) = elim (get_elem? rs k) [
  | none ↦ []
  | some r ↦ (r.lgp, r.record_id) ∷ frames_of rs k
]

abbrev pub frames : ThreadData → List Frame
frames td = frames_of td.lexgion_stack td.stack_size

frames_of-set :
    (rs : List LexgionRecord) (i n : ℕ) (r : LexgionRecord)
    → n ≤ i
    → frames_of (set rs i r) n ≡ frames_of rs n
frames_of-set rs i zero r h = refl
frames_of-set rs i (suc n) r h = ground (arith, get_elem?-set_ne rs i n r, frames_of-set rs i n r)

push-Linked :
    (rs : List LexgionRecord) (n k : ℕ) (r : LexgionRecord)
    → n < length rs
    → r.parent ≡ link n
    → ((j : ℕ) → j < n → Linked rs j)
    → k < n + 1
    → Linked (set rs n r) k
push-Linked rs n k r room p l h = elim (Bool-cases (n == k)) [
  | inl s ↦
      let e : n ≡ k = ground arith in
      subst (λ (j : ℕ). Linked (set rs n r) j) e (r, get_elem?-set_self rs n r room, p)
  | inr s ↦
      let (q, there, back) = l k (ground arith) in
      (q, ground (arith, get_elem?-set_ne rs n k r), back)
]

frames_of-push :
    (rs : List LexgionRecord) (n : ℕ) (r : LexgionRecord)
    → n < length rs
    → frames_of (set rs n r) (n + 1) ≡ (r.lgp, r.record_id) ∷ frames_of rs n
frames_of-push rs n r h =
    rw add-one (ground (arith, get_elem?-set_self rs n r, frames_of-set rs n n r))

-- On a linked stack with room, push_lexgion returns a record, the frame of the lexgion and its
-- record id is on top of the stack, the stack is linked, and the lexgion table is as it was.
pub push_lexgion-frames :
    (max_depth : ℕ) (lgp : Option ℕ) (id : ℕ) (td : ThreadData)
    → IsStack max_depth td
    → td.stack_size < max_depth
    → let (td', pushed) = push_lexgion max_depth lgp id td in
      (pushed ≡ some td.stack_size)
      × (frames td' ≡ (lgp, id) ∷ frames td)
      × IsStack max_depth td'
      × (td'.lexgions ≡ td.lexgions)
unfolding push_lexgion
push_lexgion-frames max_depth lgp id td v h =
    let r : LexgionRecord = record { lgp = lgp; record_id = id; parent = td.current_record } in
    let room : td.stack_size < length td.lexgion_stack = omega (arith, v.room) in
    let e : (td.stack_size == max_depth) ≡ false = ground arith in
    rw e (
      refl,
      frames_of-push td.lexgion_stack td.stack_size r room,
      record {
        room = length-set td.lexgion_stack td.stack_size r ∙ v.room;
        fits = omega arith;
        current = rw add-one;
        linked = λ k l. push-Linked td.lexgion_stack td.stack_size k r room v.current v.linked l;
      },
      refl,
    )

-- A full stack is left as it is, and the result is NULL.
pub push_lexgion-full :
    (max_depth : ℕ) (lgp : Option ℕ) (id : ℕ) (td : ThreadData)
    → td.stack_size ≡ max_depth
    → push_lexgion max_depth lgp id td ≡ (td, none)
unfolding push_lexgion
push_lexgion-full max_depth lgp id td h = ground arith

-- What a pop of the abstract stack yields.
abbrev pub top_popped : List Frame → Popped
top_popped [] = nothing_popped
top_popped ((lgp, id) ∷ fs) = record { lgp = lgp; record_id = some id }

abbrev pub rest_of : List Frame → List Frame
rest_of [] = []
rest_of (f ∷ fs) = fs

-- The outcome of a pop.
abbrev pub IsPop : ℕ → ThreadData → ThreadData × Popped → Type 0
IsPop max_depth td (td', popped) =
    (popped ≡ top_popped (frames td))
    × (frames td' ≡ rest_of (frames td))
    × IsStack max_depth td'
    × (td'.lexgions ≡ td.lexgions)

IsPop-cut :
    (max_depth n : ℕ) (td : ThreadData)
    → IsStack max_depth (cut td n)
    → IsPop max_depth (cut td n) (pop_lexgion (cut td n))
IsPop-cut max_depth zero td v = unfold pop_lexgion in (refl, refl, v, refl)
IsPop-cut max_depth (suc k) td v =
    rw (pop-cut td k (v.linked k (omega arith)))
      (ground (arith, v.linked k), ground (arith, v.linked k), cut-IsStack k v (omega arith), refl)

-- pop_lexgion on a linked stack takes the top frame off and yields its lexgion and record id; on
-- the empty stack it changes no frame and yields NULL. The stack stays linked and the lexgion
-- table is as it was.
pub pop_lexgion-frames :
    (max_depth : ℕ) (td : ThreadData) → IsStack max_depth td → IsPop max_depth td (pop_lexgion td)
pop_lexgion-frames max_depth td v =
    subst (λ (t : ThreadData). IsPop max_depth t (pop_lexgion t)) (cut_self td v)
      (IsPop-cut max_depth td.stack_size td (cut-IsStack td.stack_size v (omega arith)))

-- The abstract unwinding: the frames from the topmost one that is accepted on.
abbrev pub unwind : (Option ℕ → Bool) → List Frame → Option (Frame × List Frame)
unwind found [] = none
unwind found ((lgp, id) ∷ fs) = elim (found lgp) [
  | true ↦ some ((lgp, id), fs)
  | false ↦ unwind found fs
]

-- What lexgion_end_match does to the frames: it takes the match and all above it off, and yields
-- the match; without a match it pops nothing.
abbrev pub IsUnwound : ℕ → ThreadData → Option (Frame × List Frame) → ThreadData × Popped → Type 0
IsUnwound max_depth td none result = result ≡ (td, nothing_popped)
IsUnwound max_depth td (some ((lgp, id), fs)) (td', popped) =
    (popped ≡ record { lgp = lgp; record_id = some id })
    × (frames td' ≡ fs)
    × IsStack max_depth td'
    × (td'.lexgions ≡ td.lexgions)

-- A search by record numbers that agrees with the unwinding of the frames: it finds nothing where
-- no frame is accepted, and otherwise the record of the topmost frame that is.
abbrev pub Seeks : (Option ℕ → Bool) → List LexgionRecord → ℕ → Option ℕ → Type 0
Seeks found rs n none = unwind found (frames_of rs n) ≡ none
Seeks found rs n (some k) =
    (k < n)
    × ((r : LexgionRecord) × (get_elem? rs k ≡ some r)
        × (unwind found (frames_of rs n) ≡ some ((r.lgp, r.record_id), frames_of rs k)))

Seeks-below :
    (found : Option ℕ → Bool) (rs : List LexgionRecord) (n : ℕ) (res : Option ℕ) (r : LexgionRecord)
    → get_elem? rs n ≡ some r
    → found r.lgp ≡ false
    → Seeks found rs n res
    → Seeks found rs (suc n) res
Seeks-below found rs n none r e f h = ground arith
Seeks-below found rs n (some k) r e f h = (omega arith, (h.1.0, h.1.1, ground arith))

seek-Seeks :
    (found : Option ℕ → Bool) (rs : List LexgionRecord) (n : ℕ)
    → ((j : ℕ) → j < n → Linked rs j)
    → Seeks found rs n (seek found rs n)
unfolding seek
seek-Seeks found rs zero l = refl
seek-Seeks found rs (suc n) l =
    let (r, e, p) = l n (omega arith) in
    elim (Bool-cases (found r.lgp)) [
      | inl f ↦ rw (e, f, seek) (omega arith, (r, e, ground arith))
      | inr f ↦
          rw (e, f, seek)
            (Seeks-below found rs n (seek found rs n) r e f
              (seek-Seeks found rs n (λ j q. l j (omega arith))))
    ]

unwind_to-IsUnwound :
    (max_depth n : ℕ) (found : Option ℕ → Bool) (td : ThreadData) (res : Option ℕ)
    → IsStack max_depth (cut td n)
    → Seeks found td.lexgion_stack n res
    → IsUnwound max_depth
        (cut td n)
        (unwind found (frames_of td.lexgion_stack n))
        (unwind_to (cut td n) res)
unfolding unwind_to
unwind_to-IsUnwound max_depth n found td none v s = rw s
unwind_to-IsUnwound max_depth n found td (some k) v s =
    let (r, e, u) = s.1 in
    let (r', e', parent) = v.linked k s.0 in
    let below : parent_of (cut td n) (some k) ≡ link k = ground arith in
    let popped = pop_until-cut n n k td nothing_popped (λ j q. v.linked j q) s.0 (omega arith) in
    rw (u, unwind_to, below, popped) (ground arith, refl, cut-IsStack k v (omega arith), refl)

IsUnwound-cut :
    (max_depth codeptr n : ℕ) (td : ThreadData)
    → IsStack max_depth (cut td n)
    → IsUnwound max_depth
        (cut td n)
        (unwind (begins_at td.lexgions codeptr) (frames_of td.lexgion_stack n))
        (lexgion_end_match codeptr (cut td n))
unfolding lexgion_end_match
IsUnwound-cut max_depth codeptr n td v =
    let found = begins_at td.lexgions codeptr in
    rw (walk-seek found (cut td n) n v.linked) (
      unwind_to-IsUnwound max_depth n found td (seek found td.lexgion_stack n) v
        (seek-Seeks found td.lexgion_stack n v.linked))

-- On a linked stack lexgion_end_match takes off the topmost frame whose lexgion begins at the
-- code pointer, with everything above it, and yields that frame; where no frame matches it
-- changes nothing and yields NULL.
pub lexgion_end_match-frames :
    (max_depth codeptr : ℕ) (td : ThreadData)
    → IsStack max_depth td
    → IsUnwound max_depth td
        (unwind (begins_at td.lexgions codeptr) (frames td))
        (lexgion_end_match codeptr td)
lexgion_end_match-frames max_depth codeptr td v =
    subst
      (λ (t : ThreadData).
        IsUnwound max_depth t (unwind (begins_at t.lexgions codeptr) (frames t))
          (lexgion_end_match codeptr t))
      (cut_self td v)
      (IsUnwound-cut max_depth codeptr td.stack_size td (cut-IsStack td.stack_size v (omega arith)))

-- On a linked stack top_lexgion_type returns the record of the topmost frame whose lexgion has
-- the class and the type, and NULL exactly where there is none.
pub top_lexgion_type-Seeks :
    (max_depth cls type : ℕ) (td : ThreadData)
    → IsStack max_depth td
    → Seeks
        (has_type td.lexgions cls type)
        td.lexgion_stack
        td.stack_size
        (top_lexgion_type cls type td)
unfolding top_lexgion_type
top_lexgion_type-Seeks max_depth cls type td v =
    let found = has_type td.lexgions cls type in
    rw (v.current, walk-seek found td td.stack_size v.linked)
      (seek-Seeks found td.lexgion_stack td.stack_size v.linked)
