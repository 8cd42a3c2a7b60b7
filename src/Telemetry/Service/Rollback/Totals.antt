-- ===== src/Telemetry/Service/Rollback/Totals.antt =====
-- What actions make of the counts of a key, and the devices that they are about.
use mathlib.Core.List.{reverse, reverse-cons}
use k8s_inc.Prelude.{
  String, ◌≡◌, refl, sym, ap, ◌∙◌, subst, Bool, true, ◌&&◌, List, [], ◌∷◌, ◌++◌, arith,
  if◌then◌else◌, ◌==◌, ℕ_eq, String_eq, length, length-append, is_some,
}
use k8s_inc.Prelude.Int.{ℤ, pos, ◌+ℤ◌, ◌-ℤ◌, sub-add_one, add-sub_one, ℤ_eq}
use k8s_inc.Prelude.Maps.{lookup}
use k8s_inc.Telemetry.Config.{to_identifier}
use k8s_inc.Telemetry.ChangeLog.{StateChangeAction, CounterName, reverse_action}
use k8s_inc.Telemetry.Service.Commit.{same_counter}
use k8s_inc.Telemetry.Service.State.{Counters, counter_of}

-- what an action that is applied makes of the count of a key
abbrev pub shift : StateChangeAction → CounterName → String → String → ℤ → ℤ
shift a name n i x =
    if same_counter a.counter name && (a.device_name == n && to_identifier a.key == i)
    then (if a.is_create then x +ℤ pos 1 else x -ℤ pos 1)
    else x

abbrev pub total : List StateChangeAction → CounterName → String → String → ℤ → ℤ
total [] name n i x = x
total (a ∷ rest) name n i x = total rest name n i (shift a name n i x)

module _ (name : CounterName) (n i : String) where
  shift-shift :
      (a b : StateChangeAction) (x : ℤ)
      → shift a name n i (shift b name n i x) ≡ shift b name n i (shift a name n i x)
  shift-shift a b x = ground (arith, sub-add_one x, add-sub_one x)

  pub shift-reverse :
      (a : StateChangeAction) (x : ℤ) → shift (reverse_action a) name n i (shift a name n i x) ≡ x
  unfolding reverse_action
  shift-reverse a x = ground (arith, sub-add_one x, add-sub_one x)

  pub total-shift :
      (l : List StateChangeAction) (a : StateChangeAction) (x : ℤ)
      → total l name n i (shift a name n i x) ≡ shift a name n i (total l name n i x)
  total-shift [] a x = refl
  total-shift (b ∷ l) a x =
      ap (total l name n i) (shift-shift b a x) ∙ total-shift l a (shift b name n i x)

  pub total-snoc :
      (l : List StateChangeAction) (a : StateChangeAction) (x : ℤ)
      → total (l ++ a ∷ []) name n i x ≡ shift a name n i (total l name n i x)
  total-snoc [] a x = refl
  total-snoc (b ∷ l) a x = total-snoc l a (shift b name n i x)

  pub total-reverse :
      (l : List StateChangeAction) (x : ℤ) → total (reverse l) name n i x ≡ total l name n i x
  total-reverse [] x = refl
  total-reverse (a ∷ l) x =
      ap (λ l'. total l' name n i x) (reverse-cons a l)
      ∙ total-snoc (reverse l) a x
      ∙ ap (shift a name n i) (total-reverse l x)
      ∙ sym (total-shift l a x)

pub length-reverse : (l : List StateChangeAction) → length (reverse l) ≡ length l
length-reverse [] = refl
length-reverse (a ∷ l) =
    ap length (reverse-cons a l)
    ∙ length-append (reverse l) (a ∷ [])
    ∙ omega (arith, length-reverse l)

-- the device of an action has a counter
abbrev pub knows : StateChangeAction → Counters → Bool
knows a c = is_some (lookup a.device_name (counter_of a.counter c))

abbrev pub AllKnown : List StateChangeAction → Counters → Type 0
AllKnown [] c = Unit
AllKnown (a ∷ rest) c = (knows a c ≡ true) × AllKnown rest c

AllKnown-snoc :
    (l : List StateChangeAction) (a : StateChangeAction) (c : Counters)
    → AllKnown l c
    → knows a c ≡ true
    → AllKnown (l ++ a ∷ []) c
AllKnown-snoc [] a c all h = (h, tt)
AllKnown-snoc (b ∷ l) a c (known, all) h = (known, AllKnown-snoc l a c all h)

pub AllKnown-reverse :
    (l : List StateChangeAction) (c : Counters) → AllKnown l c → AllKnown (reverse l) c
AllKnown-reverse [] c all = tt
AllKnown-reverse (a ∷ l) c (known, all) =
    subst (λ x. AllKnown x c) (sym (reverse-cons a l))
      (AllKnown-snoc (reverse l) a c (AllKnown-reverse l c all) known)

pub AllKnown-same :
    (l : List StateChangeAction) (c c' : Counters)
    → ((a : StateChangeAction) → knows a c' ≡ knows a c)
    → AllKnown l c
    → AllKnown l c'
AllKnown-same [] c c' same all = tt
AllKnown-same (a ∷ l) c c' same (known, all) = (same a ∙ known, AllKnown-same l c c' same all)
