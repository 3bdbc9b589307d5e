-- ===== src/Termios/Open/Laws.antt =====
-- What opening a port does to the list of open ports.
use mathlib.Core.Path.{subst}
use cameratrack.Base.{
  ℕ, ℤ, pos, negsuc, ◌<◌, ◌≡◌, ◌≢◌, refl, sym, ◌∙◌, Bool, Bool-cases, inl, inr, true, false, ◌&&◌,
  ◌==◌, ==_refl, none, some, if◌then◌else◌, List, [], ◌∷◌, length, arith,
}
use cameratrack.Termios.Comm.{CommApi, Port}
use cameratrack.Termios.Convert.{init_termios}
use cameratrack.Termios.Attr.{tcsetattr}
use cameratrack.Termios.Ports.{Entry, find_port, with_new_port, port_opened, serial_close}
use cameratrack.Termios.Ports.Order.{Ascending}
use cameratrack.Termios.Ports.Table.{table, store}
use cameratrack.Termios.Ports.Laws.{
  with_new_port-IsAdded, find_port-positive, serial_close-find_port,
}
use cameratrack.Termios.Open.{OpenApi, open_port, check_port_capabilities, serial_open}
use cameratrack.Termios.Open.Store.{store-Ascending, find_port-store, find_port-first}
use cameratrack.Termios.Open.Calls.{
  GivesHandles, calls_succeed, open_port-with_handle, opened_named, serial_open-fails,
  serial_open-succeeds,
}

-- Every open port has a handle.
abbrev pub HaveHandles : List Entry → Type 0
HaveHandles es = (k : ℕ) (e : Entry) → find_port k es ≡ some e → e.port.h_comm ≢ 0

-- The list is in order, and shows one port more.
abbrev pub Shows : List ℕ → ℕ → Port → List Entry → List Entry → Type 0
Shows filename fd port es es' =
    Ascending 0 es'
    × ((k : ℕ)
        → find_port k es' ≡ (
            if k == fd
            then some (record { filename = filename; fd = fd; port = port })
            else find_port k es))

-- The list is in order and shows the same ports.
abbrev pub ShowsSame : List Entry → List Entry → Type 0
ShowsSame es es' = Ascending 0 es' × ((k : ℕ) → find_port k es' ≡ find_port k es)

-- What a call that opens a port gives, by its result.
abbrev pub IsOpened : List ℕ → List Entry → ℤ → List Entry → Type 0
IsOpened filename es (negsuc n) es' = ShowsSame es es'
IsOpened filename es (pos fd) es' =
    (port : Port) × (port.h_comm ≢ 0) × (find_port fd es ≡ none) × Shows filename fd port es es'

abbrev pub is_descriptor : ℤ → Bool
is_descriptor (pos n) = true
is_descriptor (negsuc n) = false

Shows-store :
    (filename : List ℕ) (fd : ℕ) (old new : Port) (es es' : List Entry)
    → 0 < fd
    → Shows filename fd old es es'
    → Shows filename fd new es (store fd new es')
Shows-store filename fd old new es es' above (up, shown) =
    let here : find_port fd es' ≡ some (record { filename = filename; fd = fd; port = old }) =
      rw (==_refl fd) at (shown fd) in
    (
      store-Ascending 0 fd new es' up,
      λ k. elim (Bool-cases (k == fd)) [
        | inl q ↦ rw (find_port-store k fd new es' up above, q, here) refl
        | inr q ↦ rw (find_port-store k fd new es' up above, q) (rw q at (shown k))
      ],
    )

Shows-HaveHandles :
    (filename : List ℕ) (fd : ℕ) (port : Port) (es es' : List Entry)
    → Shows filename fd port es es'
    → port.h_comm ≢ 0
    → HaveHandles es
    → HaveHandles es'
Shows-HaveHandles filename fd port es es' (up, shown) handle all k e found =
    elim (Bool-cases (k == fd)) [
      | inl q ↦
          let new : Entry = record { filename = filename; fd = fd; port = port } in
          let same : some new ≡ some e = sym (rw q at (shown k)) ∙ found in
          let at : new.port.h_comm ≡ e.port.h_comm = ground (arith, same) in λ z. handle (at ∙ z)
      | inr q ↦ all k e (sym (rw q at (shown k)) ∙ found)
    ]

find_port-nil : (k : ℕ) → find_port k [] ≡ none
unfolding find_port
find_port-nil k = ground arith

Shows-closed :
    {W : Type 0} (close : Entry → W → W) (filename : List ℕ) (fd : ℕ) (port : Port)
    (es es' : List Entry) (w : W)
    → Shows filename fd port es es'
    → HaveHandles es'
    → find_port fd es ≡ none
    → ShowsSame es (serial_close close fd es' w).1
unfolding serial_close
Shows-closed close filename fd port es [] w (up, shown) handles free =
    let here = rw (find_port-nil fd, ==_refl fd) at (shown fd) in absurd (ground (arith, here))
Shows-closed close filename fd port es (first ∷ next) w (up, shown) handles free =
    let handle = handles first.fd first (find_port-first first next up) in
    let (_, up', gone, _) = serial_close-find_port close fd first next w up handle in
    (
      up',
      λ k. elim (Bool-cases (k == fd)) [
        | inl q ↦ let same : k ≡ fd = ground (arith, q) in rw (gone k, q, same) (sym free)
        | inr q ↦ rw (gone k, q) (rw q at (shown k))
      ],
    )

-- The port that was added, with a handle.
added-Shows :
    (filename : List ℕ) (port : Port) (es : List Entry)
    → Ascending 0 es
    → let (new, es1) = with_new_port filename es in
      (0 < new.fd)
      × (find_port new.fd es ≡ none)
      × Shows filename new.fd port es (store new.fd port es1)
added-Shows filename port es up =
    let new = (with_new_port filename es).0 in
    let es1 = (with_new_port filename es).1 in
    let (named, (free, up1, found)) = with_new_port-IsAdded filename es up in
    let here : find_port new.fd es1 ≡ some new = rw (==_refl new.fd) at (found new.fd) in
    let above = find_port-positive new.fd es1 new here in
    (
      above,
      free,
      subst (λ (name : List ℕ). Shows name new.fd port es (store new.fd port es1)) named
          (Shows-store new.filename new.fd new.port port es es1 above (up1, found)),
    )

same-HaveHandles : (es es' : List Entry) → ShowsSame es es' → HaveHandles es → HaveHandles es'
same-HaveHandles es es' (up, same) all k e found = all k e (sym (same k) ∙ found)

module _ {W : Type 0} (open_api : OpenApi W) (api : CommApi W) where
  -- Over a list of open ports in order, all with handles, a CreateFile that gives no NULL for a
  -- handle, and a name of less than 36 bytes, which fits the node and the message, serial_open ends;
  -- it gives a descriptor exactly when the name is not open and CreateFile, SetupComm, three times
  -- CreateEvent and GetCommState, called one after the other, succeed. The descriptor was free, and
  -- find_port then finds the port by it, with its name and a handle; on -1 find_port finds what it
  -- found. Other ports are found as before, the list stays in order, and all ports have handles.
  pub serial_open-IsOpened :
      (filename : List ℕ) (es : List Entry) (w : W)
      → length filename < 36
      → Ascending 0 es
      → HaveHandles es
      → GivesHandles open_api api
      → (fd : ℤ) × (es' : List Entry) × (w' : W) × (serial_open open_api api filename es w
          ≡ some (fd, es', w'))
        × HaveHandles es'
        × IsOpened filename es fd es'
        × (is_descriptor fd
            ≡ (port_opened filename es == 0 && calls_succeed open_api api filename w))
  unfolding serial_open
  serial_open-IsOpened filename es w short up handles gives =
      let (new, es1) = with_new_port filename es in
      let (h, handle, at) = open_port-with_handle open_api api new w gives in
      let port : Port = record new.port { h_comm = h } in
      let (above, free, shown) = added-Shows filename port es up in
      let es2 = store new.fd port es1 in
      let handles2 = Shows-HaveHandles filename new.fd port es es2 shown handle handles in
      let (opened, index, w1) = open_port open_api new w in
      let failed = Shows-closed open_api.close filename new.fd port es es2 w1 shown handles2 free in
      let (_, es3, w2) = serial_close open_api.close new.fd es2 w1 in
      let calls = opened_named open_api api filename es w up in
      elim (Bool-cases (port_opened filename es == 0)) [
        | inr e ↦ (negsuc 0, es, w, rw e refl, handles, (up, λ k. refl), rw e refl)
        | inl e ↦ elim (Bool-cases (opened && check_port_capabilities open_api api index w1)) [
          | inr c ↦ (
            negsuc 0,
            es3,
            w2,
            serial_open-fails open_api api filename es w short e h at c,
            same-HaveHandles es es3 failed handles,
            failed,
            rw e (sym c ∙ calls),
          )
          | inl c ↦
              let (_, t, s) = tcsetattr api new.fd init_termios (table es2 w1) in
              let port' : Port = record port { ttyset = t } in
              let shown' = Shows-store filename new.fd port port' es es2 above shown in
              (
                pos new.fd,
                store new.fd port' es2,
                s.comm,
                serial_open-succeeds open_api api filename es w short e h at c,
                Shows-HaveHandles filename new.fd port' es (store new.fd port' es2) shown' handle
                    handles,
                (port', handle, free, shown'),
                rw e (sym c ∙ calls),
              )
        ]
      ]
