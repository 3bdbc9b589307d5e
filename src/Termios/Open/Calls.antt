-- ===== src/Termios/Open/Calls.antt =====
-- What `serial_open` returns, by the Windows calls that it makes.
use cameratrack.Base.{
  ℕ, pos, negsuc, ◌<◌, ◌≡◌, ◌≢◌, refl, sym, ◌∙◌, Bool, Bool-cases, inl, inr, true, false, ◌&&◌,
  ◌==◌, Option-cases, some, List, length, lt→ltb, ap, is_some, on_some, arith,
}
use cameratrack.Termios.Comm.{CommApi, Port}
use cameratrack.Termios.Convert.{init_termios}
use cameratrack.Termios.Attr.{tcsetattr}
use cameratrack.Termios.Ports.{Entry, with_new_port, port_opened, serial_close}
use cameratrack.Termios.Ports.Order.{Ascending}
use cameratrack.Termios.Ports.Table.{table, store}
use cameratrack.Termios.Ports.Laws.{with_new_port-IsAdded, add_port-some}
use cameratrack.Termios.Open.{
  OpenApi, invalid_handle_value, with_handle, open_port, check_port_capabilities, set_defaults,
  serial_open, create_events,
}

and_then :
    {W : Type 0} (test : W → Bool) (all rol sol wol : Bool) (v w : W)
    → all ≡ (rol && (sol && wol))
    → (all ≡ true → v ≡ w)
    → (all && test v) ≡ (rol && (sol && (wol && test w)))
and_then test false false sol wol v w each last = refl
and_then test false true false wol v w each last = refl
and_then test false true true wol v w each last = cc each
and_then test true rol sol wol v w each last = rw (last refl) (and_more rol sol wol (test w) each)
  where
    and_more :
        (rol sol wol b : Bool) → true ≡ (rol && (sol && wol)) → b ≡ (rol && (sol && (wol && b)))
    and_more false sol wol b each = absurd (ground (arith, each))
    and_more true false wol b each = absurd (ground (arith, each))
    and_more true true wol b each = rw (sym each) refl

module _ {W : Type 0} (open_api : OpenApi W) (api : CommApi W) where
  -- CreateFile gives no NULL for a handle.
  abbrev pub GivesHandles : Type 0
  GivesHandles = (name : List ℕ) (w : W) (h : ℕ) → (open_api.create_file name w).0 ≡ some h → h ≢ 0

  pub open_port-with_handle :
      (new : Entry) (w : W)
      → GivesHandles
      → (h : ℕ) × (h ≢ 0) × ((open_port open_api new w).1 ≡ with_handle h new)
  unfolding open_port
  open_port-with_handle new w gives = elim (Option-cases (open_api.create_file new.filename w).0) [
    | inl c ↦ (invalid_handle_value, omega arith, rw c refl)
    | inr (h, c) ↦
        elim (Bool-cases (open_api.setup_comm h (open_api.create_file new.filename w).1).0) [
          | inl s ↦ (h, gives new.filename w h c, rw (c, s) refl)
          | inr s ↦ (h, gives new.filename w h c, rw (c, s) refl)
        ]
  ]

  -- CreateFile, SetupComm, three times CreateEvent and GetCommState, one after the other, succeed.
  abbrev pub calls_succeed : List ℕ → W → Bool
  calls_succeed filename w =
      let (created, w1) = open_api.create_file filename w in
      on_some created false λ handle.
        let (set_up, w2) = open_api.setup_comm handle w1 in
        let (rol, w3) = open_api.create_event w2 in
        let (sol, w4) = open_api.create_event w3 in
        let (wol, w5) = open_api.create_event w4 in
        set_up && (rol && (sol && (wol && is_some (api.get_state handle w5))))

  create_events-each :
      (w2 : W)
      → let (rol, w3) = open_api.create_event w2 in
        let (sol, w4) = open_api.create_event w3 in
        let (wol, w5) = open_api.create_event w4 in
        ((create_events open_api w2).0 ≡ (rol && (sol && wol)))
        × ((create_events open_api w2).0 ≡ true → (create_events open_api w2).1 ≡ w5)
  unfolding create_events
  create_events-each w2 =
      let w3 = (open_api.create_event w2).1 in
      elim (Bool-cases (open_api.create_event w2).0) [
        | inr r ↦ rw r (refl, λ no. absurd (ground (arith, no)))
        | inl r ↦ elim (Bool-cases (open_api.create_event w3).0) [
          | inr s ↦ rw (r, s) (refl, λ no. absurd (ground (arith, no)))
          | inl s ↦ rw (r, s) (refl, λ _. refl)
        ]
      ]

  opened-calls_succeed :
      (new : Entry) (w : W)
      → let (opened, index, w1) = open_port open_api new w in
        (opened && check_port_capabilities open_api api index w1) ≡ calls_succeed new.filename w
  unfolding open_port check_port_capabilities
  opened-calls_succeed new w = elim (Option-cases (open_api.create_file new.filename w).0) [
    | inl c ↦ rw c refl
    | inr (h, c) ↦
        let (set_up, w2) = open_api.setup_comm h (open_api.create_file new.filename w).1 in
        let (rol, w3) = open_api.create_event w2 in
        let (sol, w4) = open_api.create_event w3 in
        let (wol, w5) = open_api.create_event w4 in
        let (each, last) = create_events-each w2 in
        elim (Bool-cases set_up) [
          | inr s ↦ rw (c, s) refl
          | inl s ↦
              rw (c, s)
                (and_then (λ v. is_some (api.get_state h v)) (create_events open_api w2).0 rol sol
                  wol (create_events open_api w2).1 w5 each last)
        ]
  ]

  -- For the node that add_port makes.
  pub opened_named :
      (filename : List ℕ) (es : List Entry) (w : W)
      → Ascending 0 es
      → let (opened, index, w1) = open_port open_api (with_new_port filename es).0 w in
        (opened && check_port_capabilities open_api api index w1) ≡ calls_succeed filename w
  opened_named filename es w up =
      opened-calls_succeed (with_new_port filename es).0 w
      ∙ ap (λ (name : List ℕ). calls_succeed name w) (with_new_port-IsAdded filename es up).0

  module _ (filename : List ℕ) (es : List Entry) (w : W) (short : length filename < 36)
      (closed : (port_opened filename es == 0) ≡ true) (h : ℕ) where
    abbrev pub new : Entry
    new = (with_new_port filename es).0

    abbrev pub es2 : List Entry
    es2 = store new.fd (record new.port { h_comm = h }) (with_new_port filename es).1

    abbrev pub w1 : W
    w1 = (open_port open_api new w).2

    pub serial_open-fails :
        (open_port open_api new w).1 ≡ with_handle h new
        → ((open_port open_api new w).0
            && check_port_capabilities open_api api (open_port open_api new w).1 w1)
          ≡ false
        → let (_, es3, w2) = serial_close open_api.close new.fd es2 w1 in
          serial_open open_api api filename es w ≡ some (negsuc 0, es3, w2)
    unfolding serial_open
    serial_open-fails at fails =
        let fits = lt→ltb (length filename) 36 short in
        let added = add_port-some filename es (omega arith) in
        let failed = rw at at fails in
        elim (Bool-cases (open_port open_api new w).0) [
          | inr o ↦ rw (closed, added, o, at, fits) refl
          | inl o ↦ let c = rw o at failed in rw (closed, added, o, at, c) refl
        ]

    pub serial_open-succeeds :
        (open_port open_api new w).1 ≡ with_handle h new
        → ((open_port open_api new w).0
            && check_port_capabilities open_api api (open_port open_api new w).1 w1)
          ≡ true
        → let (_, t, s) = tcsetattr api new.fd init_termios (table es2 w1) in
          let port' : Port = record new.port { h_comm = h; ttyset = t } in
          serial_open open_api api filename es w ≡ some (pos new.fd, store new.fd port' es2, s.comm)
    unfolding serial_open set_defaults
    serial_open-succeeds at done =
        let added = add_port-some filename es (omega arith) in
        let both = rw at at done in
        elim (Bool-cases (open_port open_api new w).0) [
          | inr o ↦ absurd (ground (arith, rw o at both))
          | inl o ↦ let c = rw o at both in rw (closed, added, o, at, c) refl
        ]
