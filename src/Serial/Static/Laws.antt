-- ===== src/Serial/Static/Laws.antt =====
-- A line that is set before the port is opened, and read again.
use cameratrack.Base.{
  ℕ, pos, ◌+◌, ◌≤◌, ◌<◌, ◌≡◌, ◌≢◌, refl, ap, ◌∙◌, Bool, true, false, ==_ne, ==_refl, Option, none,
  some, on_some, List, length, arith,
}
use cameratrack.Flags.{tiocm_rts}
use cameratrack.Chain.Seg.{Cells, has_address, AllFail}
use cameratrack.Termios.{Termios}
use cameratrack.Termios.Convert.{has}
use cameratrack.Termios.Comm.{CommApi, Port, Sys}
use cameratrack.Termios.Modem.{put, store_lines, tiocmget}
use cameratrack.Termios.Modem.Laws.{IsOpen, IsLive, tiocmget-IsOpen}
use cameratrack.Termios.Ports.{Entry, find_port}
use cameratrack.Termios.Ports.Order.{Ascending}
use cameratrack.Termios.Ports.Table.{port_of, table, store}
use cameratrack.Termios.Open.{OpenApi}
use cameratrack.Termios.Open.Store.{with_port, find_port-store}
use cameratrack.Locks.Text.{Bytes}
use cameratrack.Serial.Lines.{is_rts}
use cameratrack.Serial.Lines.Laws.{is_rts-msr, tiocmset-live}
use cameratrack.Serial.Lines.Words.{put-same, store_lines-rts}
use cameratrack.Serial.Preopened.{
  Preopened, Opened, is_named, find_preopened_ports, static_add_filename,
}
use cameratrack.Serial.Preopened.Laws.{
  IsChain, static_add_filename-find_preopened_ports, find_preopened_ports-missing,
}
use cameratrack.Serial.Open.{JavaVars, set_java_vars, java_open}
use cameratrack.Serial.Static.{
  Statics, drive, on_port, static_read, static_is_rts, preopened_or_open, static_set,
  static_set_rts,
}

-- The list shows a port as the call left it.
store-IsOpen :
    {W : Type 0} (fd h : ℕ) (t : Termios) (msr msr' : ℕ) (es : List Entry) (w : W) (s' : Sys W)
    → 0 < fd
    → Ascending 0 es
    → IsOpen (table es w) fd h t msr
    → IsOpen s' fd h t msr'
    → IsOpen
        (table (on_some (s'.find_port fd) es (λ (p : Port). store fd p es)) s'.comm)
        fd
        h
        t
        msr'
store-IsOpen fd h t msr msr' es w s' above up before after = record {
  port = after.port;
  found = rw after.found (
      ap port_of (find_port-store fd fd after.port es up above)
      ∙ rw (==_refl fd) (with_found (find_port fd es) before.found));
  handle = after.handle;
  settings = after.settings;
  register = after.register;
}
  where
    with_found :
        (o : Option Entry)
        → port_of o ≡ some before.port
        → port_of (with_port after.port o) ≡ some after.port
    with_found none e = absurd (ground (arith, e))
    with_found (some i) e = refl

-- The port with the new line in its register.
drive-IsOpen :
    {W : Type 0} (api : CommApi W) (local : Termios) (fd h held : ℕ) (flag : Bool) (s : Sys W)
    (t : Termios) (msr : ℕ)
    → fd ≢ 0
    → IsOpen s fd h t msr
    → IsLive api fd h
    → (msr' : ℕ) × IsOpen (drive api local fd tiocm_rts held flag s) fd h t msr'
      × (has msr' tiocm_rts ≡ flag)
unfolding drive
drive-IsOpen api local fd h held flag s t msr nonzero is_open live =
    let arg : ℕ = put flag tiocm_rts (tiocmget api fd held s).1 in
    (
      store_lines arg msr,
      tiocmset-live api fd nonzero (tiocmget api fd held s).2 arg
          (tiocmget-IsOpen api fd nonzero s held is_open) live,
      store_lines-rts arg msr ∙ put-same flag _ tiocm_rts refl (omega arith),
    )

-- The port is set and put on the list.
static_set_rts-some :
    {W : Type 0} (api : CommApi W) (local : Termios) (fuel : ℕ) (open_api : OpenApi W)
    (newp fd held : ℕ) (flag : Bool) (filename : Bytes) (s s1 : Statics W) (o1 : Opened)
    → preopened_or_open api local fuel open_api filename s ≡ some (some fd, s1)
    → static_add_filename fuel newp filename fd s1.opened ≡ some o1
    → static_set_rts api local fuel open_api newp held flag filename s
      ≡ some (
        true,
        record (on_port fd (λ st. (true, drive api local fd tiocm_rts held flag st)) s1).1 {
          opened = o1;
        },
      )
unfolding static_set_rts static_set
static_set_rts-some api local fuel open_api newp fd held flag filename s s1 o1 got added =
    rw (got, added) refl

static_is_rts-found :
    {W : Type 0} (api : CommApi W) (local : Termios) (fuel fd : ℕ) (filename : Bytes)
    (s : Statics W) (o : Opened)
    → fd ≢ 0
    → find_preopened_ports fuel filename s.opened ≡ some (fd, o)
    → static_is_rts api local fuel filename s
      ≡ some (on_port fd (is_rts api fd) (record s { opened = o }))
unfolding static_is_rts static_read
static_is_rts-found api local fuel fd filename s o nonzero found = rw (found, ==_ne nonzero) refl

static_is_rts-missing :
    {W : Type 0} (api : CommApi W) (local : Termios) (fuel : ℕ) (filename : Bytes) (s : Statics W)
    → find_preopened_ports fuel filename s.opened ≡ some (0, s.opened)
    → static_is_rts api local fuel filename s ≡ some (false, s)
unfolding static_is_rts static_read
static_is_rts-missing api local fuel filename s found = rw found refl

java_open-found :
    {W : Type 0} (api : CommApi W) (local : Termios) (fuel fd : ℕ) (open_api : OpenApi W)
    (filename : Bytes) (vars : JavaVars) (s : Statics W) (o : Opened)
    → fd ≢ 0
    → find_preopened_ports fuel filename s.opened ≡ some (fd, o)
    → java_open api local fuel open_api filename vars s
      ≡ some
          (pos fd, set_java_vars api local fd vars (table s.ports s.comm), record s { opened = o })
unfolding java_open
java_open-found api local fuel fd open_api filename vars s o nonzero found =
    rw (found, ==_ne nonzero) refl

module _ {W : Type 0} (api : CommApi W) (local : Termios) (fuel : ℕ) (open_api : OpenApi W) where
  -- If nativeStaticSetRTS finds or opens a port with a positive descriptor in an ordered list of
  -- ports, on which ClearCommError does not fail, and the list of preopened ports is a chain from
  -- preopened_port without the name, with room in memory for a name of less than 40 bytes, then it
  -- returns true, the next nativeStaticIsRTS of the name answers the state that was set, and takes
  -- the port off the list: the one after it answers false. In its place, open gives the descriptor
  -- of the port, whose line still reads as it was set.
  pub static_set_rts-static_is_rts :
      (newp fd h held : ℕ) (flag : Bool) (filename : Bytes) (vars : JavaVars) (s s1 : Statics W)
      (xs : Cells Preopened) (t : Termios) (msr : ℕ)
      → preopened_or_open api local fuel open_api filename s ≡ some (some fd, s1)
      → fd ≢ 0
      → Ascending 0 s1.ports
      → IsOpen (table s1.ports s1.comm) fd h t msr
      → IsLive api fd h
      → IsChain s1.opened xs
      → AllFail (is_named filename) xs
      → newp ≢ 0
      → has_address newp xs ≡ false
      → length filename < 40
      → length xs + 2 ≤ fuel
      → (s2 s3 : Statics W) × (static_set_rts api local fuel open_api newp held flag filename s
          ≡ some (true, s2))
        × (static_is_rts api local fuel filename s2 ≡ some (flag, s3))
        × (static_is_rts api local fuel filename s3 ≡ some (false, s3))
        × ((vars' : JavaVars) × (s4 : Statics W) × (java_open api local fuel open_api filename vars
                s2
              ≡ some (pos fd, vars', s4))
            × ((is_rts api fd (table s4.ports s4.comm)).0 ≡ flag))
  static_set_rts-static_is_rts newp fd h held flag filename vars s s1 xs t msr got nonzero up
        is_open live chain fail ne fresh short enough =
      let (o1, o2, added, found, seg, _, at) =
        static_add_filename-find_preopened_ports fuel newp filename fd s1.opened xs chain fail ne
          fresh short enough in
      let missing =
        find_preopened_ports-missing fuel filename o2 xs seg chain.distinct fail at (omega arith) in
      let (msr', after, line) =
        drive-IsOpen api local fd h held flag (table s1.ports s1.comm) t msr nonzero is_open live in
      let s2 : Statics W =
        record (on_port fd (λ st. (true, drive api local fd tiocm_rts held flag st)) s1).1 {
          opened = o1;
        } in
      let kept = store-IsOpen fd h t msr msr' s1.ports s1.comm _ (omega arith) up is_open after in
      let answer = is_rts-msr api fd nonzero (table s2.ports s2.comm) kept live ∙ line in
      let s3 : Statics W = (on_port fd (is_rts api fd) (record s2 { opened = o2 })).1 in
      (
        s2,
        s3,
        static_set_rts-some api local fuel open_api newp fd held flag filename s s1 o1 got added,
        static_is_rts-found api local fuel fd filename s2 o2 nonzero found
            ∙ ap (λ (b : Bool). some (b, s3)) answer,
        static_is_rts-missing api local fuel filename s3 missing,
        (
          set_java_vars api local fd vars (table s2.ports s2.comm),
          record s2 { opened = o2 },
          java_open-found api local fuel fd open_api filename vars s2 o2 nonzero found,
          answer,
        ),
      )
