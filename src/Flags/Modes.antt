-- ===== src/Flags/Modes.antt =====
-- The mode bits and `c_cc` indices of rxtx-devel/src/win32termios.h.
use cameratrack.Base.{ℕ}

-- Indices of `c_cc`.
abbrev pub vintr : ℕ
vintr = 0

abbrev pub vquit : ℕ
vquit = 1

abbrev pub verase : ℕ
verase = 2

abbrev pub vkill : ℕ
vkill = 3

abbrev pub veof : ℕ
veof = 4

abbrev pub vtime : ℕ
vtime = 5

abbrev pub vmin : ℕ
vmin = 6

abbrev pub vstart : ℕ
vstart = 8

abbrev pub vstop : ℕ
vstop = 9

abbrev pub vsusp : ℕ
vsusp = 10

abbrev pub veol : ℕ
veol = 11

abbrev pub vreprint : ℕ
vreprint = 12

abbrev pub vwerase : ℕ
vwerase = 14

abbrev pub vlnext : ℕ
vlnext = 15

abbrev pub veol2 : ℕ
veol2 = 16

-- Bits of `c_iflag`.
abbrev pub ignbrk : ℕ
ignbrk = 0o1

abbrev pub brkint : ℕ
brkint = 0o2

abbrev pub ignpar : ℕ
ignpar = 0o4

abbrev pub parmrk : ℕ
parmrk = 0o10

abbrev pub inpck : ℕ
inpck = 0o20

abbrev pub istrip : ℕ
istrip = 0o40

abbrev pub inlcr : ℕ
inlcr = 0o100

abbrev pub igncr : ℕ
igncr = 0o200

abbrev pub icrnl : ℕ
icrnl = 0o400

abbrev pub ixon : ℕ
ixon = 0o2000

abbrev pub ixany : ℕ
ixany = 0o4000

abbrev pub ixoff : ℕ
ixoff = 0o10000

-- Bits of `c_cflag`. HARDWARE_FLOW_CONTROL is CRTSCTS.
abbrev pub csize : ℕ
csize = 0o60

abbrev pub cs5 : ℕ
cs5 = 0o0

abbrev pub cs6 : ℕ
cs6 = 0o20

abbrev pub cs7 : ℕ
cs7 = 0o40

abbrev pub cs8 : ℕ
cs8 = 0o60

abbrev pub cstopb : ℕ
cstopb = 0o100

abbrev pub cread : ℕ
cread = 0o200

abbrev pub parenb : ℕ
parenb = 0o400

abbrev pub parodd : ℕ
parodd = 0o1000

abbrev pub clocal : ℕ
clocal = 0o4000

abbrev pub cbaud : ℕ
cbaud = 0o30017

abbrev pub cbaudex : ℕ
cbaudex = 0o10000

abbrev pub cignore : ℕ
cignore = 0o400000

abbrev pub cmspar : ℕ
cmspar = 0o10000000000

abbrev pub crtscts : ℕ
crtscts = 0o20000000000

-- Bits of `c_oflag` and `c_lflag`.
abbrev pub opost : ℕ
opost = 0o1

abbrev pub isig : ℕ
isig = 0o1

abbrev pub icanon : ℕ
icanon = 0o2

abbrev pub echo : ℕ
echo = 0o10

abbrev pub echonl : ℕ
echonl = 0o100

abbrev pub iexten : ℕ
iexten = 0o100000
