-- ===== src/Serial/Events/Heard.antt =====
-- What a listener hears of one reading of the lines.
use cameratrack.Base.{
  ℕ, ◌≤◌, ◌^◌, ◌≡◌, refl, ◌∙◌, ap, Bool, Bool-cases, false, not, ltb, ◌==◌, inl, inr, if◌then◌else◌,
  List, [], ◌∷◌, ◌++◌, bit_and, arith,
}
use cameratrack.Bits.{bit_and_single}
use cameratrack.Flags.{tiocm_cd, tiocm_rng, tiocm_dsr, tiocm_cts, spe_cts, spe_dsr, spe_ri, spe_cd}
use cameratrack.Termios.Convert.{has}
use cameratrack.Serial.Events.{
  Event, Eis, is_nonzero, is_positive, difference, send_event, send_change, send_changes,
}

-- The lines as a listener keeps them, and what an event tells it.
pub record Heard : Type 0 where
  pub cts : Bool
  pub dsr : Bool
  pub ri : Bool
  pub cd : Bool

abbrev pub hear : Event → Heard → Heard
hear (type, value) h =
    if type == spe_cts
    then record h { cts = value }
    else if type == spe_dsr
    then record h { dsr = value }
    else if type == spe_ri
    then record h { ri = value }
    else if type == spe_cd
    then record h { cd = value }
    else h

abbrev pub hear_all : List Event → Heard → Heard
hear_all [] h = h
hear_all (e ∷ es) h = hear_all es (hear e h)

abbrev pub lines_of : ℕ → Heard
lines_of flags = record {
  cts = has flags tiocm_cts;
  dsr = has flags tiocm_dsr;
  ri = has flags tiocm_rng;
  cd = has flags tiocm_cd;
}

difference-is_nonzero : (a b : ℕ) → is_nonzero (difference a b) ≡ not (a == b)
difference-is_nonzero a b = ground arith

difference-is_positive : (a b : ℕ) → is_positive (difference a b) ≡ ltb b a
difference-is_positive a b = ground arith

pub append-[] : (es : List Event) → es ++ [] ≡ es
append-[] [] = refl
append-[] (e ∷ es) = ap (λ (t : List Event). e ∷ t) (append-[] es)

pub append_assoc : (xs ys zs : List Event) → (xs ++ ys) ++ zs ≡ xs ++ (ys ++ zs)
append_assoc [] ys zs = refl
append_assoc (x ∷ xs) ys zs = ap (λ (t : List Event). x ∷ t) (append_assoc xs ys zs)

-- The events of one line, from its bit before and after.
abbrev change_of : ℕ → ℕ → ℕ → List Event
change_of type new old = if new == old then [] else (type, ltb old new) ∷ []

abbrev pub add_events : List Event → Eis → Eis
add_events es eis = record eis { sent = eis.sent ++ es }

send_change-add_events :
    (mask type mflags : ℕ) (eis : Eis)
    → eis.eventloop_interrupted ≤ 1
    → send_change mask type mflags eis
      ≡ add_events (change_of type (bit_and mflags mask) (bit_and eis.omflags mask)) eis
unfolding send_change send_event
send_change-add_events mask type mflags eis runs =
    let a = bit_and mflags mask in
    let b = bit_and eis.omflags mask in
    let on : ltb 1 eis.eventloop_interrupted ≡ false = ground arith in
    elim (Bool-cases (a == b)) [
      | inl e ↦ rw (difference-is_nonzero a b, e, append-[] eis.sent)
      | inr e ↦ rw (difference-is_nonzero a b, difference-is_positive a b, e, on)
    ]

-- The events of a reading, one line after the other.
abbrev pub changes_of : ℕ → ℕ → List Event
changes_of new old =
    change_of spe_cts (bit_and new tiocm_cts) (bit_and old tiocm_cts)
    ++ (change_of spe_dsr (bit_and new tiocm_dsr) (bit_and old tiocm_dsr)
        ++ (change_of spe_ri (bit_and new tiocm_rng) (bit_and old tiocm_rng)
            ++ change_of spe_cd (bit_and new tiocm_cd) (bit_and old tiocm_cd)))

abbrev keep_flags : ℕ → Eis → Eis
keep_flags mflags eis = record eis { omflags = mflags }

add_four :
    (m : ℕ) (c1 c2 c3 c4 : List Event) (eis : Eis)
    → keep_flags m (add_events c4 (add_events c3 (add_events c2 (add_events c1 eis))))
      ≡ keep_flags m (add_events (c1 ++ (c2 ++ (c3 ++ c4))) eis)
add_four m c1 c2 c3 c4 eis =
    ap (λ (t : List Event). record eis { omflags = m; sent = t })
      (append_assoc ((eis.sent ++ c1) ++ c2) c3 c4
        ∙ append_assoc (eis.sent ++ c1) c2 (c3 ++ c4)
        ∙ append_assoc eis.sent c1 (c2 ++ (c3 ++ c4)))

pub send_changes-changes_of :
    (m : ℕ) (eis : Eis)
    → eis.eventloop_interrupted ≤ 1
    → send_changes m eis ≡ keep_flags m (add_events (changes_of m eis.omflags) eis)
unfolding send_changes
send_changes-changes_of m eis runs =
    let c1 = change_of spe_cts (bit_and m tiocm_cts) (bit_and eis.omflags tiocm_cts) in
    let c2 = change_of spe_dsr (bit_and m tiocm_dsr) (bit_and eis.omflags tiocm_dsr) in
    let c3 = change_of spe_ri (bit_and m tiocm_rng) (bit_and eis.omflags tiocm_rng) in
    let c4 = change_of spe_cd (bit_and m tiocm_cd) (bit_and eis.omflags tiocm_cd) in
    let e1 : Eis = add_events c1 eis in
    let e2 : Eis = add_events c2 e1 in
    let e3 : Eis = add_events c3 e2 in
    let last = λ (e : Eis). keep_flags m (send_change tiocm_cd spe_cd m e) in
    let ring = λ (e : Eis). last (send_change tiocm_rng spe_ri m e) in
    let ready = λ (e : Eis). ring (send_change tiocm_dsr spe_dsr m e) in
    ap ready (send_change-add_events tiocm_cts spe_cts m eis runs)
    ∙ ap ring (send_change-add_events tiocm_dsr spe_dsr m e1 runs)
    ∙ ap last (send_change-add_events tiocm_rng spe_ri m e2 runs)
    ∙ ap (keep_flags m) (send_change-add_events tiocm_cd spe_cd m e3 runs)
    ∙ add_four m c1 c2 c3 c4 eis

pub hear_all-append :
    (xs ys : List Event) (h : Heard) → hear_all (xs ++ ys) h ≡ hear_all ys (hear_all xs h)
hear_all-append [] ys h = refl
hear_all-append (x ∷ xs) ys h = hear_all-append xs ys (hear x h)

-- The line that the events of a bit leave.
abbrev line_after : ℕ → ℕ → Bool → Bool
line_after new old line = if new == old then line else ltb old new

module _ (a b : ℕ) (h : Heard) where
  hear_cts : hear_all (change_of spe_cts a b) h ≡ record h { cts = line_after a b h.cts }
  hear_cts = elim (Bool-cases (a == b)) [ inl e ↦ rw e | inr e ↦ rw e ]

  hear_dsr : hear_all (change_of spe_dsr a b) h ≡ record h { dsr = line_after a b h.dsr }
  hear_dsr = elim (Bool-cases (a == b)) [ inl e ↦ rw e | inr e ↦ rw e ]

  hear_ri : hear_all (change_of spe_ri a b) h ≡ record h { ri = line_after a b h.ri }
  hear_ri = elim (Bool-cases (a == b)) [ inl e ↦ rw e | inr e ↦ rw e ]

  hear_cd : hear_all (change_of spe_cd a b) h ≡ record h { cd = line_after a b h.cd }
  hear_cd = elim (Bool-cases (a == b)) [ inl e ↦ rw e | inr e ↦ rw e ]

line_after-has :
    (i new old : ℕ)
    → line_after (bit_and new (2 ^ i)) (bit_and old (2 ^ i)) (has old (2 ^ i)) ≡ has new (2 ^ i)
line_after-has i new old = ground (arith, bit_and_single i new, bit_and_single i old)

-- A listener that knew the lines knows them after the events of a reading.
pub changes_of-lines_of :
    (new old : ℕ) → hear_all (changes_of new old) (lines_of old) ≡ lines_of new
changes_of-lines_of new old =
    let c1 = change_of spe_cts (bit_and new tiocm_cts) (bit_and old tiocm_cts) in
    let c2 = change_of spe_dsr (bit_and new tiocm_dsr) (bit_and old tiocm_dsr) in
    let c3 = change_of spe_ri (bit_and new tiocm_rng) (bit_and old tiocm_rng) in
    let c4 = change_of spe_cd (bit_and new tiocm_cd) (bit_and old tiocm_cd) in
    let h1 : Heard = record (lines_of old) { cts = has new tiocm_cts } in
    let h2 : Heard = record h1 { dsr = has new tiocm_dsr } in
    let h3 : Heard = record h2 { ri = has new tiocm_rng } in
    let s1 : hear_all c1 (lines_of old) ≡ h1 =
      hear_cts _ _ (lines_of old)
      ∙ ap (λ (x : Bool). record (lines_of old) { cts = x }) (line_after-has 5 new old) in
    let s2 : hear_all c2 h1 ≡ h2 =
      hear_dsr _ _ h1 ∙ ap (λ (x : Bool). record h1 { dsr = x }) (line_after-has 8 new old) in
    let s3 : hear_all c3 h2 ≡ h3 =
      hear_ri _ _ h2 ∙ ap (λ (x : Bool). record h2 { ri = x }) (line_after-has 7 new old) in
    let s4 : hear_all c4 h3 ≡ lines_of new =
      hear_cd _ _ h3 ∙ ap (λ (x : Bool). record h3 { cd = x }) (line_after-has 6 new old) in
    hear_all-append c1 (c2 ++ (c3 ++ c4)) (lines_of old)
    ∙ ap (hear_all (c2 ++ (c3 ++ c4))) s1
    ∙ hear_all-append c2 (c3 ++ c4) h1
    ∙ ap (hear_all (c3 ++ c4)) s2
    ∙ hear_all-append c3 c4 h2
    ∙ ap (hear_all c4) s3
    ∙ s4
