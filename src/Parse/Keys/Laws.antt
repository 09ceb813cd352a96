-- ===== src/Parse/Keys/Laws.antt =====
-- What an assignment in the section [Knob] gives to the program that asks for it.
use pinsight.Common.{ℕ, ◌≤◌, ◌<◌, false, Option, none, some, List, length, ◌≡◌, refl, arith, str_eq}
use pinsight.Common.Int.{ℤ}
use pinsight.Knobs.{
  AppKnob, find_or_create_knob, type_int, look_up_knob, get_knob_int, set_knob_int, int_value,
  int_of,
}
use pinsight.Knobs.Laws.{Stored, find_or_create_knob-Stored, values_after}
use pinsight.Parse.State.{Libc}
use pinsight.Parse.Text.{strtol_any, whole, to_int}
use pinsight.Parse.Keys.{knob_key, store_int}

-- What a program reads behind the assignment of v to a name.
abbrev Assigned : (ℕ → ℤ) → List AppKnob → List ℕ → ℤ → List AppKnob → Type 0
Assigned double_to_int ks name v ls =
    (get_knob_int double_to_int ls name ≡ v)
    × ((other : List ℕ) → str_eq name other ≡ false → look_up_knob ls other ≡ look_up_knob ks other)

stored :
    (double_to_int : ℕ → ℤ) (ks : List AppKnob) (name : List ℕ) (z : ℤ)
    (r : List AppKnob × Option ℕ)
    → Stored ks name r
    → Assigned double_to_int ks name (to_int z) (store_int z r)
unfolding set_knob_int get_knob_int int_of
stored double_to_int ks name z (ls, none) s = cc
stored double_to_int ks name z (ls, some i) s =
    let e : s.index ≡ i = ground (arith, s.given) in
    let l = values_after ks ls name (some i) s (int_value (to_int z)) in
    rw (← e) (rw (l.0, get_knob_int, look_up_knob) refl, l.1)

-- An integer that the section [Knob] gives to a name of at most 63 characters, while the table has
-- room: the program reads that integer, as an `int`, under the name, whatever the knob held before,
-- and every other knob keeps its value.
pub get_knob_int-knob_key :
    (libc : Libc) (double_to_int : ℕ → ℤ) (key val : List ℕ) (ks : List AppKnob) (z : ℤ)
    → length key ≤ 63
    → length ks < 64
    → whole (strtol_any val) ≡ some z
    → (get_knob_int double_to_int (knob_key libc key val ks) key ≡ to_int z)
      × ((other : List ℕ)
          → str_eq key other ≡ false
          → look_up_knob (knob_key libc key val ks) other ≡ look_up_knob ks other)
unfolding knob_key
get_knob_int-knob_key libc double_to_int key val ks z h l e =
    rw (e, knob_key)
      (stored double_to_int ks key z (find_or_create_knob ks key type_int)
        (find_or_create_knob-Stored ks key type_int h l))
