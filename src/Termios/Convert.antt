-- ===== src/Termios/Convert.antt =====
-- The conversions of rxtx-devel/src/termios.c between a termios structure and a DCB, and the
-- settings of a new port.
use cameratrack.Base.{ℕ, Bool, true, false, not, ◌==◌, if◌then◌else◌, bit_and, bit_or}
use cameratrack.Bits.{clear}
use cameratrack.Flags
use cameratrack.Flags.{
  csize, cs5, cs6, cs7, cs8, cstopb, parenb, parodd, cmspar, crtscts, cbaud, cbaudex, inpck, ignpar,
  ixon, ixoff, ixany,
}
use cameratrack.Termios.{
  Termios, Parity, no_parity, odd_parity, even_parity, mark_parity, space_parity, StopBits,
  one_stop_bit, one5_stop_bits, two_stop_bits, RtsControl, rts_disable, rts_enable, rts_handshake,
  rts_toggle, Dcb, update,
}
use cameratrack.Termios.Speed.{cbr_to_b, b_to_cbr, cfsetospeed}

-- C's test of a masked word.
abbrev pub has : ℕ → ℕ → Bool
has word mask = not (bit_and word mask == 0)

unfoldable pub bytesize_to_termios : ℕ → ℕ
bytesize_to_termios size =
    if size == 5 then cs5 else if size == 6 then cs6 else if size == 7 then cs7 else cs8

unfoldable pub termios_to_bytesize : ℕ → ℕ
termios_to_bytesize cflag =
    if bit_and cflag csize == cs5
    then 5
    else if bit_and cflag csize == cs6
    then 6
    else if bit_and cflag csize == cs7
    then 7
    else 8

-- The `if` ladders of `termios_to_DCB`, one for each member of the DCB.
unfoldable pub parity_of_cflag : ℕ → Parity
parity_of_cflag cflag =
    if has cflag parenb
    then (if has cflag parodd
        then (if has cflag cmspar then mark_parity else odd_parity)
        else (if has cflag cmspar then space_parity else even_parity))
    else no_parity

unfoldable pub stop_bits_of_cflag : ℕ → ℕ → StopBits
stop_bits_of_cflag cflag byte_size =
    if has cflag cstopb
    then (if byte_size == 5 then one5_stop_bits else two_stop_bits)
    else one_stop_bit

-- `termios_to_DCB` updates both structures: without CBAUDEX the speeds are taken from `c_cflag`.
unfoldable pub termios_to_dcb : Termios → Dcb → Termios × Dcb
unfolding b_to_cbr termios_to_bytesize parity_of_cflag stop_bits_of_cflag
termios_to_dcb t dcb =
    let speed = if has t.c_cflag cbaudex then t.c_ispeed else bit_and t.c_cflag cbaud in
    let ospeed = if has t.c_cflag cbaudex then t.c_ospeed else bit_and t.c_cflag cbaud in
    let size = termios_to_bytesize t.c_cflag in
    (
      record t { c_ispeed = speed; c_ospeed = ospeed },
      record dcb {
        baud_rate = b_to_cbr speed;
        byte_size = size;
        parity = parity_of_cflag t.c_cflag;
        stop_bits = stop_bits_of_cflag t.c_cflag size;
        f_rts_control = if has t.c_cflag crtscts then rts_handshake else rts_disable;
        f_outx_cts_flow = has t.c_cflag crtscts;
      },
    )

-- `DCB_to_termios` fills in the speeds, and only adds speed bits to `c_cflag`.
unfoldable pub dcb_to_termios : Dcb → Termios → Termios
unfolding cbr_to_b
dcb_to_termios dcb t =
    let speed = cbr_to_b dcb.baud_rate in
    record t {
      c_ispeed = speed;
      c_ospeed = speed;
      c_cflag = bit_or t.c_cflag (bit_and speed cbaud);
    }

-- `cfmakeraw`.
unfoldable pub cfmakeraw : Termios → Termios
cfmakeraw t = record t {
  c_iflag = clear t.c_iflag (
      bit_or Flags.ignbrk (
        bit_or Flags.brkint (
          bit_or Flags.parmrk (
            bit_or Flags.istrip
              (bit_or Flags.inlcr (bit_or Flags.igncr (bit_or Flags.icrnl ixon)))))));
  c_oflag = clear t.c_oflag Flags.opost;
  c_lflag = clear t.c_lflag (
      bit_or Flags.echo
        (bit_or Flags.echonl (bit_or Flags.icanon (bit_or Flags.isig Flags.iexten))));
  c_cflag = bit_or (clear t.c_cflag (bit_or csize parenb)) cs8;
}

abbrev zeroed : Termios
zeroed = record {
  c_iflag = 0;
  c_oflag = 0;
  c_cflag = 0;
  c_lflag = 0;
  c_cc = λ _. 0;
  c_ispeed = 0;
  c_ospeed = 0;
}

-- `init_termios` of a structure that is not NULL.
unfoldable pub init_termios : Termios
unfolding cfsetospeed cfmakeraw
init_termios =
    let t = cfmakeraw (cfsetospeed zeroed Flags.b9600) in
    record t {
      c_cc =
          update
            (update
              (update
                (update
                  (update
                    (update
                      (update
                        (update
                          (update
                            (update
                              (update (update (update t.c_cc Flags.vintr 0x03) Flags.vquit 0x1c)
                                Flags.verase 0x7f)
                              Flags.vkill 0x15)
                            Flags.veof 0x04)
                          Flags.vtime 0)
                        Flags.vmin 1)
                      Flags.vsusp 0x1a)
                    Flags.veol 0x0d)
                  Flags.vreprint 0x12)
                Flags.vwerase 0x17)
              Flags.vlnext 0x16)
            Flags.veol2 0x0a;
    }

-- The parts of `tcgetattr` that read the DCB, in the order in which the code runs them.

-- The input modes of `tcgetattr`.
unfoldable pub iflag_of_dcb : Dcb → ℕ → ℕ
iflag_of_dcb dcb w0 =
    let w1 =
      if dcb.f_parity then clear (bit_or w0 inpck) ignpar else bit_or (clear w0 inpck) ignpar in
    let w2 = if dcb.f_out_x then bit_or w1 ixon else clear w1 ixon in
    let w3 = if dcb.f_in_x then bit_or w2 ixoff else clear w2 ixoff in
    if dcb.f_tx_continue_on_xoff then bit_or w3 ixany else clear w3 ixany

unfoldable pub add_stop_bits : StopBits → ℕ → ℕ
add_stop_bits two_stop_bits w = bit_or w cstopb
add_stop_bits one5_stop_bits w = bit_or (bit_or w cstopb) cs5
add_stop_bits one_stop_bit w = clear w cstopb

-- The word holds PARENB when this is reached.
unfoldable pub add_parity : Parity → ℕ → ℕ
add_parity mark_parity w = bit_or w (bit_or parodd cmspar)
add_parity space_parity w = bit_or w cmspar
add_parity odd_parity w = bit_or w parodd
add_parity even_parity w = clear w parodd
add_parity no_parity w = clear w (bit_or parodd (bit_or cmspar parenb))

abbrev pub is_handshake : RtsControl → Bool
is_handshake rts_handshake = true
is_handshake rts_disable = false
is_handshake rts_enable = false
is_handshake rts_toggle = false

-- The control modes of `tcgetattr`: stop bits, parity and byte size, in the order of the code.
unfoldable pub framing_of_dcb : Dcb → ℕ → ℕ
framing_of_dcb dcb w0 =
    let w1 = add_stop_bits dcb.stop_bits w0 in
    let w2 =
      add_parity dcb.parity (bit_or (clear w1 (bit_or parenb (bit_or parodd cmspar))) parenb) in
    bit_or w2 (bytesize_to_termios dcb.byte_size)

-- Hardware flow control comes last.
unfoldable pub cflag_of_dcb : Dcb → ℕ → ℕ
cflag_of_dcb dcb w0 =
    let w = framing_of_dcb dcb w0 in
    if dcb.f_outx_cts_flow
    then bit_or w crtscts
    else if is_handshake dcb.f_rts_control
    then bit_or w crtscts
    else clear w crtscts
