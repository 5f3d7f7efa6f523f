-- ===== src/Store/Shape.antt =====
-- The shape of an account's scripts: different names, one active script at most, and no more scripts
-- than the limit; and that what the methods do keeps it.
use go_managesieve.Common.{
  ℕ, suc, ◌≤◌, ◌<◌, ◌≡◌, refl, sym, ◌∙◌, ap, subst, arith, Bool, true, false, not, ◌&&◌, List, [],
  ◌∷◌, Option, none, Bytes, inl, inr, length, false-ne-true,
}
use go_managesieve.Store.Scripts.{Script, find, change, remove, with_active, deactivate_all}
use go_managesieve.Store.Lookup.{
  map_script, same_name, find-tail, find-none_head, change-head, change-tail, remove-head,
  remove-tail, find-change, find-change_other, find-deactivate_all,
}

abbrev pub Unique : List Script → Type 0
Unique [] = Unit {0}
Unique (sc ∷ scs) = (find sc.name scs ≡ none) × Unique scs

-- No script is active.
abbrev pub idle : List Script → Bool
idle [] = true
idle (sc ∷ scs) = not sc.active && idle scs

abbrev pub OneActive : List Script → Type 0
OneActive [] = Unit {0}
OneActive (sc ∷ scs) = (sc.active ≡ true → idle scs ≡ true) × OneActive scs

-- Within the limit on scripts, where 0 is none.
abbrev pub WithinQuota : ℕ → List Script → Type 0
WithinQuota max scs = 0 < max → length scs ≤ max

pub record WellFormed (max : ℕ) (scs : List Script) : Type 0 where
  pub unique : Unique scs
  pub one_active : OneActive scs
  pub within_quota : WithinQuota max scs

map_script-none : (f : Script → Script) {o : Option Script} → o ≡ none → map_script f o ≡ none
map_script-none f h = ap (map_script f) h

-- A change that keeps names.
module _ (name : Bytes) (f : Script → Script) (keeps : (sc : Script) → (f sc).name ≡ sc.name) where
  change-absent :
      (n : Bytes) (scs : List Script) → find n scs ≡ none → find n (change name f scs) ≡ none
  change-absent n scs h = elim (same_name n name) [
    | inl e ↦
        subst (λ m. find m (change name f scs) ≡ none) (sym e)
          (find-change name f keeps scs ∙ map_script-none f (subst (λ m. find m scs ≡ none) e h))
    | inr ne ↦ find-change_other name f keeps n scs ne ∙ h
  ]

  pub change-Unique : (scs : List Script) → Unique scs → Unique (change name f scs)
  change-Unique [] u = unfold change in _
  change-Unique (sc ∷ scs) (absent, u) = elim (same_name sc.name name) [
    | inl e ↦
        rw (change-head name sc scs f e) (subst (λ n. find n scs ≡ none) (sym (keeps sc)) absent, u)
    | inr ne ↦
        rw (change-tail name sc scs f ne) (change-absent sc.name scs absent, change-Unique scs u)
  ]

module _ (name : Bytes) (f : Script → Script) where
  pub length-change : (scs : List Script) → length (change name f scs) ≡ length scs
  unfolding change
  length-change [] = refl
  length-change (sc ∷ scs) = ground (arith, length-change scs)

-- A change that keeps what is active.
module _ (name : Bytes) (f : Script → Script)
    (keeps : (sc : Script) → (f sc).active ≡ sc.active) where
  idle-change : (scs : List Script) → idle (change name f scs) ≡ idle scs
  unfolding change
  idle-change [] = refl
  idle-change (sc ∷ scs) = ground (arith, idle-change scs, keeps sc)

  pub change-OneActive : (scs : List Script) → OneActive scs → OneActive (change name f scs)
  change-OneActive [] u = unfold change in _
  change-OneActive (sc ∷ scs) (only, u) = elim (same_name sc.name name) [
    | inl e ↦ rw (change-head name sc scs f e) ((λ h. only (sym (keeps sc) ∙ h)), u)
    | inr ne ↦
        rw (change-tail name sc scs f ne) ((λ h. idle-change scs ∙ only h), change-OneActive scs u)
  ]

-- Deactivation.
pub deactivate_all-Unique : (scs : List Script) → Unique scs → Unique (deactivate_all scs)
unfolding deactivate_all
deactivate_all-Unique [] u = _
deactivate_all-Unique (sc ∷ scs) (absent, u) = (
  find-deactivate_all sc.name scs ∙ map_script-none (with_active false) absent,
  deactivate_all-Unique scs u,
)

pub idle-deactivate_all : (scs : List Script) → idle (deactivate_all scs) ≡ true
unfolding deactivate_all
idle-deactivate_all [] = refl
idle-deactivate_all (sc ∷ scs) = idle-deactivate_all scs

pub length-deactivate_all : (scs : List Script) → length (deactivate_all scs) ≡ length scs
unfolding deactivate_all
length-deactivate_all [] = refl
length-deactivate_all (sc ∷ scs) = ap suc (length-deactivate_all scs)

pub idle-OneActive : (scs : List Script) → idle scs ≡ true → OneActive scs
idle-OneActive [] h = _
idle-OneActive (sc ∷ scs) h = ((λ a. ground (arith, h)), idle-OneActive scs (ground (arith, h)))

-- Activating one script among idle ones.
pub activate-OneActive :
    (name : Bytes) (scs : List Script)
    → idle scs ≡ true
    → OneActive (change name (with_active true) scs)
activate-OneActive name [] h = unfold change in _
activate-OneActive name (sc ∷ scs) h =
    let rest : idle scs ≡ true = ground (arith, h) in
    elim (same_name sc.name name) [
      | inl e ↦
          rw (change-head name sc scs (with_active true) e) ((λ _. rest), idle-OneActive scs rest)
      | inr ne ↦
          rw (change-tail name sc scs (with_active true) ne)
            ((λ a. absurd (false-ne-true (ground (arith, h)))), activate-OneActive name scs rest)
    ]

-- Removal.
module _ (name : Bytes) where
  remove-absent :
      (n : Bytes) (scs : List Script) → find n scs ≡ none → find n (remove name scs) ≡ none
  remove-absent n [] h = unfold remove in h
  remove-absent n (sc ∷ scs) h =
      let (ne, rest) = find-none_head n sc scs h in
      elim (same_name sc.name name) [
        | inl e ↦ rw (remove-head name sc scs e) rest
        | inr differs ↦
            rw (remove-tail name sc scs differs)
              (find-tail n sc (remove name scs) ne ∙ remove-absent n scs rest)
      ]

  pub remove-Unique : (scs : List Script) → Unique scs → Unique (remove name scs)
  remove-Unique [] u = unfold remove in _
  remove-Unique (sc ∷ scs) (absent, u) = elim (same_name sc.name name) [
    | inl e ↦ rw (remove-head name sc scs e) u
    | inr ne ↦
        rw (remove-tail name sc scs ne) (remove-absent sc.name scs absent, remove-Unique scs u)
  ]

  idle-remove : (scs : List Script) → idle scs ≡ true → idle (remove name scs) ≡ true
  unfolding remove
  idle-remove [] h = refl
  idle-remove (sc ∷ scs) h = ground (arith, idle-remove scs, h)

  pub remove-OneActive : (scs : List Script) → OneActive scs → OneActive (remove name scs)
  remove-OneActive [] u = unfold remove in _
  remove-OneActive (sc ∷ scs) (only, u) = elim (same_name sc.name name) [
    | inl e ↦ rw (remove-head name sc scs e) u
    | inr ne ↦
        rw (remove-tail name sc scs ne) ((λ h. idle-remove scs (only h)), remove-OneActive scs u)
  ]

  pub length-remove : (scs : List Script) → length (remove name scs) ≤ length scs
  unfolding remove
  length-remove [] = omega arith
  length-remove (sc ∷ scs) = ground (arith, length-remove scs)
