-- ===== src/Locks/Text/Names.antt =====
-- What the loop for the base name finds.
use cameratrack.Base.{
  ℕ, ◌≡◌, refl, ◌∙◌, sym, ap, Bool, true, false, not, ◌&&◌, ◌==◌, arith, [], ◌∷◌, ◌++◌,
}
use cameratrack.Locks.Text.{Bytes, slash, back_to_slash, reverse_onto, base_name}

abbrev pub no_slash : Bytes → Bool
no_slash [] = true
no_slash (c ∷ cs) = not (c == slash) && no_slash cs

pub append_assoc : (xs ys zs : Bytes) → (xs ++ ys) ++ zs ≡ xs ++ (ys ++ zs)
append_assoc [] ys zs = refl
append_assoc (x ∷ xs) ys zs = ap (λ (t : Bytes). x ∷ t) (append_assoc xs ys zs)

reverse_onto-append :
    (xs ys acc : Bytes) → reverse_onto (xs ++ ys) acc ≡ reverse_onto ys (reverse_onto xs acc)
reverse_onto-append [] ys acc = refl
reverse_onto-append (x ∷ xs) ys acc = reverse_onto-append xs ys (x ∷ acc)

reverse_onto_acc : (xs acc : Bytes) → reverse_onto xs acc ≡ reverse_onto xs [] ++ acc
reverse_onto_acc [] acc = refl
reverse_onto_acc (x ∷ xs) acc =
    reverse_onto_acc xs (x ∷ acc)
    ∙ sym (append_assoc (reverse_onto xs []) (x ∷ []) acc)
    ∙ ap (λ (t : Bytes). t ++ acc) (sym (reverse_onto_acc xs (x ∷ [])))

reverse_twice :
    (xs acc after : Bytes)
    → reverse_onto (reverse_onto xs acc) after ≡ reverse_onto acc (xs ++ after)
reverse_twice [] acc after = refl
reverse_twice (x ∷ xs) acc after = reverse_twice xs (x ∷ acc) after

no_slash-reverse_onto :
    (xs acc : Bytes) → no_slash (reverse_onto xs acc) ≡ (no_slash xs && no_slash acc)
no_slash-reverse_onto [] acc = refl
no_slash-reverse_onto (x ∷ xs) acc = no_slash-reverse_onto xs (x ∷ acc) ∙ ground arith

pub append-[] : (xs : Bytes) → xs ++ [] ≡ xs
append-[] [] = refl
append-[] (x ∷ xs) = ap (λ (t : Bytes). x ∷ t) (append-[] xs)

-- The loop walks over a part without a slash, up to where it stops.
back_to_slash-append :
    (part before after : Bytes) (x : ℕ)
    → ((rest : Bytes) → back_to_slash (x ∷ before) rest ≡ rest)
    → no_slash part ≡ true
    → back_to_slash (part ++ (x ∷ before)) after ≡ reverse_onto part after
unfolding back_to_slash
back_to_slash-append [] before after x stops clean = stops after
back_to_slash-append (c ∷ []) before after x stops clean =
    let here : (c == slash) ≡ false = ground arith in rw here (stops (c ∷ after))
back_to_slash-append (c ∷ d ∷ part) before after x stops clean =
    let here : (c == slash) ≡ false = ground arith in
    rw here (back_to_slash-append (d ∷ part) before (c ∷ after) x stops (ground arith))

stops-slash : (before rest : Bytes) → back_to_slash (slash ∷ before) rest ≡ rest
unfolding back_to_slash
stops-slash [] rest = refl
stops-slash (b ∷ before) rest = refl

stops-first : (c : ℕ) (rest : Bytes) → back_to_slash (c ∷ []) rest ≡ rest
unfolding back_to_slash
stops-first c rest = refl

base_name-stops :
    (name before : Bytes) (x : ℕ)
    → ((rest : Bytes) → back_to_slash (x ∷ before) rest ≡ rest)
    → no_slash name ≡ true
    → back_to_slash (reverse_onto name (x ∷ before)) [] ≡ name
base_name-stops name before x stops clean = rw (reverse_onto_acc name (x ∷ before)) (
    back_to_slash-append (reverse_onto name []) before [] x stops
      (no_slash-reverse_onto name [] ∙ rw clean)
    ∙ reverse_twice name [] []
    ∙ append-[] name)

-- The base name of a path is what follows its last slash; of a name without a slash, the first byte
-- is lost.
pub base_name-append :
    (dir name : Bytes)
    → no_slash name ≡ true
    → (base_name (dir ++ (slash ∷ name)) ≡ name) × ((c : ℕ) → base_name (c ∷ name) ≡ name)
unfolding base_name
base_name-append dir name clean = (
  rw (reverse_onto-append dir (slash ∷ name) [])
      (base_name-stops name (reverse_onto dir []) slash (stops-slash (reverse_onto dir [])) clean),
  λ c. base_name-stops name [] c (stops-first c) clean,
)
